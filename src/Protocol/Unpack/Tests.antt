-- ===== src/Protocol/Unpack/Tests.antt =====
-- Two blobs are sent and unpacked.
use go_git_scm.Base.{
  ℕ, ◌≡◌, ◌≢◌, ◌⊎◌, ◌∙◌, inl, inr, refl, sym, ap, List, [], ◌∷◌, Option, none, some, All, arith,
  codes, bytes_eq, if◌then◌else◌, get_or,
}
use go_git_scm.Object.{Bytes, ObjectId, zero_id, Object, blob, type_of, type_string}
use go_git_scm.Object.Print.{print_nat, digits}
use go_git_scm.Object.Marshal.{body_of}
use go_git_scm.Object.Unmarshal.Binary.{a_blob}
use go_git_scm.Packfile.Writer.{hash_obj}
use go_git_scm.Packfile.Reader.{out_of_fuel}
use go_git_scm.Packfile.Reader.Plain.{plain, plain_deflate, plain-Inflates, short_hash}
use go_git_scm.Packfile.Reader.Stores.{mem_store, mem_store-IsStore}
use go_git_scm.Repository.Mem.{Repo, new_repository}
use go_git_scm.Protocol.Unpack.{send_pack, unpack}
use go_git_scm.Protocol.Unpack.Holds.{Holds}
use go_git_scm.Protocol.Unpack.Rounds.{unpack-ne-out_of_fuel}
use go_git_scm.Protocol.Unpack.Clone.{found_none, found_one, unpack-send_pack}

-- The two bodies.
abbrev Sample : ℕ → Bytes → Type 0
Sample t b = (t ≡ 3) × ((b ≡ codes "hello") ⊎ (b ≡ codes "help"))

hash_of_five : hash_obj short_hash 3 (codes "hello") ≡ short_hash (codes "blob 5\0hello")
unfolding hash_obj type_string print_nat digits
hash_of_five = refl

hash_of_four : hash_obj short_hash 3 (codes "help") ≡ short_hash (codes "blob 4\0help")
unfolding hash_obj type_string print_nat digits
hash_of_four = refl

differ : hash_obj short_hash 3 (codes "hello") ≢ hash_obj short_hash 3 (codes "help")
differ e =
    let second = ap (λ id. get_or id 1 0) (sym hash_of_five ∙ e ∙ hash_of_four) in
    omega (arith, second)

Sample-apart :
    (t u : ℕ) (b c : Bytes)
    → Sample t b
    → Sample u c
    → hash_obj short_hash t b ≡ hash_obj short_hash u c
    → (t ≡ u) × (b ≡ c)
Sample-apart t u b c (et, inl eb) (eu, inl ec) e = (et ∙ sym eu, eb ∙ sym ec)
Sample-apart t u b c (et, inr eb) (eu, inr ec) e = (et ∙ sym eu, eb ∙ sym ec)
Sample-apart t u b c (et, inl eb) (eu, inr ec) e = absurd (differ (rw (et, eu, eb, ec) at e))
Sample-apart t u b c (et, inr eb) (eu, inl ec) e = absurd (differ (sym (rw (et, eu, eb, ec) at e)))

Sample-non_zero : (t : ℕ) (b : Bytes) → Sample t b → hash_obj short_hash t b ≢ zero_id
unfolding hash_obj
Sample-non_zero t b h e = let one = ap (λ id. get_or id 0 0) e in omega (arith, one)

abbrev stored : ObjectId → Option Object
stored id = if bytes_eq id (1 ∷ []) then some (blob (codes "hello")) else some (blob (codes "help"))

abbrev sent_objects : List Object
sent_objects = blob (codes "hello") ∷ blob (codes "help") ∷ []

unpack-send_pack_example :
    (bytes : Bytes) × (repo' : Repo) × (send_pack stored plain_deflate short_hash
        ((1 ∷ []) ∷ (2 ∷ []) ∷ [])
      ≡ (bytes, none))
    × (unpack (mem_store short_hash) short_hash 100 [] [] plain new_repository bytes
        ≡ (repo', none))
    × All (λ o. Holds short_hash (mem_store short_hash) repo' (type_of o) (body_of o)) sent_objects
    × All (λ o. Holds short_hash (mem_store short_hash) repo' (type_of o) (body_of o)) []
unfolding bytes_eq body_of type_of
unpack-send_pack_example =
    unpack-send_pack plain plain_deflate plain-Inflates short_hash (λ x. refl)
      (mem_store short_hash) (mem_store-IsStore short_hash) 100 [] [] Sample Sample-apart
      Sample-non_zero stored ((1 ∷ []) ∷ (2 ∷ []) ∷ []) sent_objects [] new_repository
      (found_one refl (found_one refl found_none))
      (
        record {
          readable = a_blob (codes "hello");
          small = omega arith;
          fits = omega arith;
          good = (refl, inl refl);
        },
        (
          record {
            readable = a_blob (codes "help");
            small = omega arith;
            fits = omega arith;
            good = (refl, inr refl);
          },
          tt,
        ),
      )
      (omega arith) tt tt

unpack-ne-out_of_fuel_example :
    (unpack
      (mem_store short_hash)
      short_hash
      100
      []
      []
      plain
      new_repository
      (send_pack stored plain_deflate short_hash ((1 ∷ []) ∷ (2 ∷ []) ∷ [])).0).1
    ≢ some out_of_fuel
unpack-ne-out_of_fuel_example =
    unpack-ne-out_of_fuel (mem_store short_hash) short_hash 100 [] [] plain new_repository
      (send_pack stored plain_deflate short_hash ((1 ∷ []) ∷ (2 ∷ []) ∷ [])).0
