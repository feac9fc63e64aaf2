-- ===== src/Repository/Mem/Swap.antt =====
-- UpdateRef is a compare-and-swap on one ref.
use go_git_scm.Base.{
  ◌≡◌, ◌≢◌, inl, inr, true, false, Option, some, none, bytes_eq, bytes_eq_iff, Bool-cases,
  Option-cases, arith, sym,
}
use go_git_scm.Base.Map.{lookup, insert, erase}
use go_git_scm.Object.{Bytes, ObjectId, zero_id, Object}
use go_git_scm.Repository.{
  Error, invalid_ref, ref_mismatch, ref_exist, ref_not_exist, object_not_exist,
}
use go_git_scm.Repository.Refs.{is_valid_ref}
use go_git_scm.Repository.Mem.{Repo, get_object, ref_or_zero, swap_error, set_ref, update_ref}

-- Why an update is refused.
pub data Refusal (r : Repo) (name : Bytes) (old_id new_id : ObjectId) : Error → Type 0 where
  malformed : is_valid_ref name ≡ false → Refusal r name old_id new_id invalid_ref
  missing :
      is_valid_ref name ≡ true
      → ref_or_zero r name ≢ old_id
      → ref_or_zero r name ≡ zero_id
      → Refusal r name old_id new_id ref_not_exist
  exists :
      is_valid_ref name ≡ true
      → ref_or_zero r name ≢ old_id
      → ref_or_zero r name ≢ zero_id
      → old_id ≡ zero_id
      → Refusal r name old_id new_id ref_exist
  moved :
      is_valid_ref name ≡ true
      → ref_or_zero r name ≢ old_id
      → ref_or_zero r name ≢ zero_id
      → old_id ≢ zero_id
      → Refusal r name old_id new_id ref_mismatch
  no_object :
      is_valid_ref name ≡ true
      → ref_or_zero r name ≡ old_id
      → new_id ≢ zero_id
      → lookup new_id r.objects ≡ none
      → Refusal r name old_id new_id object_not_exist

-- What an update does: it is refused and changes nothing, or deletes the ref, or writes it.
pub data Outcome (r : Repo) (name : Bytes) (old_id new_id : ObjectId)
    : Repo × Option Error → Type 0 where
  refused : (e : Error) → Refusal r name old_id new_id e → Outcome r name old_id new_id (r, some e)
  deleted :
      is_valid_ref name ≡ true
      → ref_or_zero r name ≡ old_id
      → new_id ≡ zero_id
      → Outcome r name old_id new_id (record r { refs = erase name r.refs }, none)
  written :
      (obj : Object)
      → is_valid_ref name ≡ true
      → ref_or_zero r name ≡ old_id
      → new_id ≢ zero_id
      → lookup new_id r.objects ≡ some obj
      → Outcome r name old_id new_id (record r { refs = insert name new_id r.refs }, none)

bytes_ne : (xs ys : Bytes) → bytes_eq xs ys ≡ false → xs ≢ ys
bytes_ne xs ys h e = ground (arith, bytes_eq_iff xs ys)

swap_error-Refusal :
    (r : Repo) (name : Bytes) (old_id new_id : ObjectId)
    → is_valid_ref name ≡ true
    → ref_or_zero r name ≢ old_id
    → Refusal r name old_id new_id (swap_error (ref_or_zero r name) old_id)
unfolding swap_error
swap_error-Refusal r name old_id new_id valid differ =
    let id = ref_or_zero r name in
    elim (Bool-cases (bytes_eq zero_id id)) [
      | inl z ↦ rw z (missing valid differ (sym ((bytes_eq_iff zero_id id).0 z)))
      | inr nz ↦ elim (Bool-cases (bytes_eq zero_id old_id)) [
        | inl zo ↦
            rw (nz, zo)
              (exists valid differ (λ e. bytes_ne zero_id id nz (sym e))
                (sym ((bytes_eq_iff zero_id old_id).0 zo)))
        | inr nzo ↦
            rw (nz, nzo)
              (moved valid differ (λ e. bytes_ne zero_id id nz (sym e))
                (λ e. bytes_ne zero_id old_id nzo (sym e)))
      ]
    ]

set_ref-Outcome :
    (r : Repo) (name : Bytes) (old_id new_id : ObjectId)
    → is_valid_ref name ≡ true
    → ref_or_zero r name ≡ old_id
    → Outcome r name old_id new_id (set_ref r name new_id)
unfolding set_ref get_object
set_ref-Outcome r name old_id new_id valid at = elim (Bool-cases (bytes_eq new_id zero_id)) [
  | inl z ↦ rw z (deleted valid at ((bytes_eq_iff new_id zero_id).0 z))
  | inr nz ↦ elim (Option-cases (lookup new_id r.objects)) [
    | inl gone ↦
        rw (nz, gone, get_object)
          (refused object_not_exist (no_object valid at (bytes_ne new_id zero_id nz) gone))
    | inr (obj, there) ↦
        rw (nz, there, get_object) (written obj valid at (bytes_ne new_id zero_id nz) there)
  ]
]

-- UpdateRef does what the ref's value and the object's presence call for, and nothing else.
pub update_ref-Outcome :
    (r : Repo) (name : Bytes) (old_id new_id : ObjectId)
    → Outcome r name old_id new_id (update_ref r name old_id new_id)
unfolding update_ref
update_ref-Outcome r name old_id new_id = elim (Bool-cases (is_valid_ref name)) [
  | inl valid ↦ elim (Bool-cases (bytes_eq (ref_or_zero r name) old_id)) [
    | inl at ↦
        rw (valid, at)
          (set_ref-Outcome r name old_id new_id valid
            ((bytes_eq_iff (ref_or_zero r name) old_id).0 at))
    | inr differ ↦
        rw (valid, differ)
          (refused (swap_error (ref_or_zero r name) old_id) (
            swap_error-Refusal r name old_id new_id valid
              (bytes_ne (ref_or_zero r name) old_id differ)))
  ]
  | inr bad ↦ rw bad (refused invalid_ref (malformed bad))
]
