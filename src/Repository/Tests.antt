-- ===== src/Repository/Tests.antt =====
-- Runs of a repository in memory and of a walk, and their theorems at concrete inputs. The hash of the
-- tests is the length.
use go_git_scm.Base.{
  ℕ, ◌+◌, ◌≤◌, ◌<◌, ◌≡◌, ◌≢◌, ◌⊎◌, inl, inr, refl, Bool, true, false, List, [], ◌∷◌, ◌++◌, Option,
  some, none, Result, ok, err, length, arith, codes, bytes_eq, All, if◌then◌else◌,
}
use go_git_scm.Base.Map.{lookup, insert, erase}
use go_git_scm.Object.{Bytes, ObjectId, zero_id, blob, tag, Signature}
use go_git_scm.Repository.{Error, ref_not_exist}
use go_git_scm.Repository.Refs.{
  has_prefix, contains, has_suffix, bad_byte, any_bad_byte, is_valid_ref,
}
use go_git_scm.Repository.Mem.{
  Repo, new_repository, get_object, get_ref, ref_or_zero, set_ref, update_ref,
}
use go_git_scm.Repository.Mem.Swap.{Outcome, update_ref-Outcome}
use go_git_scm.Repository.Mem.Invariant.{IsValid, new_repository-IsValid, update_ref-IsValid}
use go_git_scm.Repository.Mem.Reads.{get_ref-update_ref, update_ref-stale}
use go_git_scm.Repository.Walk.{mem, refs_of, push_all, finished, out_of_fuel, walk}
use go_git_scm.Repository.Walk.Ends.{references_left, walk-ne-out_of_fuel}
use go_git_scm.Repository.Walk.Once.{Distinct, Reaches, Ended, noting, walk-Distinct}
use go_git_scm.Repository.Walk.Complete.{collect, ReachesPast, walk_complete}

abbrev size_hash : Bytes → ObjectId
size_hash bytes = length bytes ∷ []

abbrev main : Bytes
main = codes "refs/heads/main"

-- A blob, and a tag of it.
abbrev someone : Signature
someone = record {
  name = codes "A";
  email = codes "a@b";
  unix = go_git_scm.Base.pos 0;
  offset = go_git_scm.Base.pos 0;
}

abbrev two : Repo
two = record {
  objects =
      (1 ∷ [], blob (codes "hi"))
      ∷ (
        2 ∷ [],
        tag (record {
          object = 1 ∷ [];
          type_code = 3;
          tag = codes "v";
          tagger = someone;
          message = [];
        }),
      )
      ∷ [];
  refs = (main, 1 ∷ []) ∷ [];
  head = main;
}

update_ref-IsValid_example : IsValid size_hash (update_ref new_repository main zero_id (1 ∷ [])).0
update_ref-IsValid_example =
    update_ref-IsValid size_hash new_repository main zero_id (1 ∷ [])
      (new_repository-IsValid size_hash)

update_ref-Outcome_example :
    Outcome two main (1 ∷ []) (2 ∷ []) (update_ref two main (1 ∷ []) (2 ∷ []))
update_ref-Outcome_example = update_ref-Outcome two main (1 ∷ []) (2 ∷ [])

runs : Unit {0}
unfolding update_ref set_ref get_object get_ref ref_or_zero lookup insert erase bytes_eq
    is_valid_ref has_prefix contains has_suffix bad_byte any_bad_byte
runs = tt

get_ref-update_ref_example : get_ref (update_ref two main (1 ∷ []) (2 ∷ [])).0 main ≡ (
    if bytes_eq main main
    then (if bytes_eq (2 ∷ []) zero_id then err ref_not_exist else ok (2 ∷ []))
    else get_ref two main)
unfolding runs
get_ref-update_ref_example = get_ref-update_ref two main (1 ∷ []) (2 ∷ []) main refl

update_ref-stale_example :
    (e : Error) × (update_ref (update_ref two main (1 ∷ []) (2 ∷ [])).0 main (1 ∷ []) zero_id
      ≡ ((update_ref two main (1 ∷ []) (2 ∷ [])).0, some e))
unfolding runs
update_ref-stale_example = update_ref-stale two main (1 ∷ []) (2 ∷ []) zero_id refl (ground arith)

abbrev both : List ObjectId
both = (1 ∷ []) ∷ (2 ∷ []) ∷ []

both_known : (id : ObjectId) → mem id both ≡ false → refs_of (get_object two id) ≡ []
unfolding mem refs_of get_object lookup
both_known id h = ground arith

walk-ne-out_of_fuel_example : walk (get_object two) collect 3 ((2 ∷ []) ∷ []) [] [] ≢ out_of_fuel
unfolding references_left push_all mem bytes_eq refs_of get_object lookup
walk-ne-out_of_fuel_example =
    walk-ne-out_of_fuel (get_object two) collect both both_known 3 ((2 ∷ []) ∷ []) [] []
      (omega arith)

walk_complete_example :
    (r : List ObjectId) × (walk (get_object two) collect 3 ((2 ∷ []) ∷ []) [] [] ≡ finished r)
    × ((x : ObjectId) → ReachesPast (get_object two) ((2 ∷ []) ∷ []) [] x → mem x r ≡ true)
unfolding references_left push_all mem bytes_eq refs_of get_object lookup
walk_complete_example =
    walk_complete (get_object two) ((2 ∷ []) ∷ []) [] both 3 both_known (omega arith)

walk-Distinct_example :
    Ended
      (λ (r : List ObjectId × List ObjectId).
        Distinct r.1
        × All (λ x. mem x [] ≡ false) r.1
        × All (Reaches (get_object two) ((2 ∷ []) ∷ [])) r.1)
      (walk (get_object two) (noting collect) 3 ((2 ∷ []) ∷ []) [] ([], []))
walk-Distinct_example = walk-Distinct (get_object two) collect 3 ((2 ∷ []) ∷ []) [] []
