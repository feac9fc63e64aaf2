-- ===== src/Repository/Mem/Reads.antt =====
-- What the methods of a repository return after UpdateRef and PutObject.
use go_git_scm.Base.{
  ◌≡◌, ◌≢◌, ◌⊎◌, inl, inr, true, ◌∷◌, ◌++◌, Option, some, none, ok, err, if◌then◌else◌, bytes_eq,
  bytes_eq_iff, bytes_eq_self, arith, ap, ◌∙◌,
}
use go_git_scm.Base.Map.{insert, erase, lookup-insert, lookup-erase}
use go_git_scm.Object.{Bytes, ObjectId, zero_id, Object}
use go_git_scm.Object.Marshal.{hash, hash-eq-ok, header_of, body_of}
use go_git_scm.Repository.{Error, ref_not_exist}
use go_git_scm.Repository.Refs.{is_valid_ref}
use go_git_scm.Repository.Mem.{
  Repo, get_object, put_object, get_ref, ref_or_zero, swap_error, set_ref, update_ref,
}
use go_git_scm.Repository.Mem.Swap.{Outcome, refused, deleted, written, update_ref-Outcome}

Outcome-get_ref :
    (r : Repo) (name : Bytes) (old_id new_id : ObjectId) (j : Bytes) {p : Repo × Option Error}
    → Outcome r name old_id new_id p
    → p.1 ≡ none
    → get_ref p.0 j ≡ (
        if bytes_eq name j
        then (if bytes_eq new_id zero_id then err ref_not_exist else ok new_id)
        else get_ref r j)
unfolding get_ref
Outcome-get_ref r name old_id new_id j (refused e bad) success = absurd cc
Outcome-get_ref r name old_id new_id j (deleted valid at zero) success =
    ground (arith, lookup-erase j name r.refs, bytes_eq_iff name j, bytes_eq_iff new_id zero_id)
Outcome-get_ref r name old_id new_id j (written obj valid at non_zero there) success =
    ground
      (arith, lookup-insert j name new_id r.refs, bytes_eq_iff name j, bytes_eq_iff new_id zero_id)

-- After an UpdateRef that returns no error the ref has the new ID, or is gone if that is zero, and every
-- other ref reads as before.
pub get_ref-update_ref :
    (r : Repo) (name : Bytes) (old_id new_id : ObjectId) (j : Bytes)
    → (update_ref r name old_id new_id).1 ≡ none
    → get_ref (update_ref r name old_id new_id).0 j ≡ (
        if bytes_eq name j
        then (if bytes_eq new_id zero_id then err ref_not_exist else ok new_id)
        else get_ref r j)
get_ref-update_ref r name old_id new_id j =
    Outcome-get_ref r name old_id new_id j (update_ref-Outcome r name old_id new_id)

-- An UpdateRef of a well-formed name that finds the ref at the old ID, and deletes it or has the new
-- object, returns no error.
pub update_ref-eq-none :
    (r : Repo) (name : Bytes) (old_id new_id : ObjectId)
    → is_valid_ref name ≡ true
    → ref_or_zero r name ≡ old_id
    → (new_id ≡ zero_id) ⊎ ((obj : Object) × (get_object r new_id ≡ ok obj))
    → (update_ref r name old_id new_id).1 ≡ none
unfolding update_ref set_ref
update_ref-eq-none r name old_id new_id valid at (inl zero) =
    ground (arith, bytes_eq_iff (ref_or_zero r name) old_id, bytes_eq_iff new_id zero_id)
update_ref-eq-none r name old_id new_id valid at (inr (obj, there)) =
    ground (arith, bytes_eq_iff (ref_or_zero r name) old_id)

stale_update :
    (r : Repo) (name : Bytes) (old_id id b : ObjectId)
    → is_valid_ref name ≡ true
    → ref_or_zero r name ≡ id
    → id ≢ old_id
    → update_ref r name old_id b ≡ (r, some (swap_error (ref_or_zero r name) old_id))
unfolding update_ref
stale_update r name old_id id b valid at differ =
    ground (arith, bytes_eq_iff (ref_or_zero r name) old_id)

Outcome-stale :
    (r : Repo) (name : Bytes) (old_id a b : ObjectId) {p : Repo × Option Error}
    → Outcome r name old_id a p
    → p.1 ≡ none
    → a ≢ old_id
    → (e : Error) × (update_ref p.0 name old_id b ≡ (p.0, some e))
unfolding ref_or_zero
Outcome-stale r name old_id a b (refused e bad) success differ = absurd cc
Outcome-stale r name old_id a b (deleted valid at zero) success differ =
    let r' : Repo = record r { refs = erase name r.refs } in
    let gone : ref_or_zero r' name ≡ a =
      ground (arith, lookup-erase name name r.refs, bytes_eq_self name) in
    (swap_error (ref_or_zero r' name) old_id, stale_update r' name old_id a b valid gone differ)
Outcome-stale r name old_id a b (written obj valid at non_zero there) success differ =
    let r' : Repo = record r { refs = insert name a r.refs } in
    let put : ref_or_zero r' name ≡ a =
      ground (arith, lookup-insert name name a r.refs, bytes_eq_self name) in
    (swap_error (ref_or_zero r' name) old_id, stale_update r' name old_id a b valid put differ)

-- Of two updates from the same old ID to other values the second is refused and changes nothing: the
-- first is not overwritten.
pub update_ref-stale :
    (r : Repo) (name : Bytes) (old_id a b : ObjectId)
    → (update_ref r name old_id a).1 ≡ none
    → a ≢ old_id
    → let r' = (update_ref r name old_id a).0 in
      (e : Error) × (update_ref r' name old_id b ≡ (r', some e))
update_ref-stale r name old_id a b =
    Outcome-stale r name old_id a b (update_ref-Outcome r name old_id a)

-- PutObject never fails, returns the object's hash, and GetObject gives the object back under it; every
-- other ID reads as before, and so do the refs.
pub get_object-put_object :
    (sha1 : Bytes → ObjectId) (r : Repo) (obj : Object) (j : ObjectId)
    → (id : ObjectId) × (hash sha1 obj ≡ ok id)
      × ((put_object sha1 r obj).1 ≡ ok id)
      × (get_object (put_object sha1 r obj).0 j
          ≡ (if bytes_eq id j then ok obj else get_object r j))
      × ((put_object sha1 r obj).0.refs ≡ r.refs)
unfolding put_object get_object
get_object-put_object sha1 r obj j =
    let h = hash-eq-ok sha1 obj in
    let id = sha1 (header_of obj ++ (0 ∷ body_of obj)) in
    let e : put_object sha1 r obj ≡ (record r { objects = insert id obj r.objects }, ok id) =
      rw (h, put_object) in
    (
      id,
      h,
      ap (λ p. p.1) e,
      ap (λ p. get_object p.0 j) e ∙ ground (arith, lookup-insert j id obj r.objects),
      ap (λ p. p.0.refs) e,
    )
