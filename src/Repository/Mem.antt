-- ===== src/Repository/Mem.antt =====
-- repository/mem/mem.go: a repository in main memory. Each method is one step: it holds its lock from the
-- first access to the last. `sha1` is the parameter of `hash`.
pub mod Invariant
pub mod Swap
pub mod Reads
use go_git_scm.Base.{
  ℕ, Bool, true, false, List, [], ◌∷◌, Option, some, none, Result, ok, err, if◌then◌else◌, codes,
  bytes_eq, map,
}
use go_git_scm.Base.Map.{lookup, insert, erase}
use go_git_scm.Object.{Bytes, ObjectId, zero_id, Object}
use go_git_scm.Object.Marshal.{hash, sort_strings}
use go_git_scm.Object.Marshal
use go_git_scm.Repository.{
  Error, invalid_ref, ref_mismatch, ref_exist, ref_not_exist, object_not_exist,
}
use go_git_scm.Repository.Refs.{is_valid_ref}

pub record Repo : Type 0 where
  pub objects : List (ObjectId × Object)
  pub refs : List (Bytes × ObjectId)
  pub head : Bytes

unfoldable pub new_repository : Repo
new_repository = record { objects = []; refs = []; head = codes "refs/heads/master" }

unfoldable pub get_object : Repo → ObjectId → Result Error Object
get_object r id = elim (lookup id r.objects) [ none ↦ err object_not_exist | some obj ↦ ok obj ]

unfoldable pub put_object :
    (Bytes → ObjectId) → Repo → Object → Repo × Result Marshal.Error ObjectId
put_object sha1 r obj = elim (hash sha1 obj) [
  | err e ↦ (r, err e)
  | ok id ↦ (record r { objects = insert id obj r.objects }, ok id)
]

unfoldable pub get_ref : Repo → Bytes → Result Error ObjectId
get_ref r name =
    let found : Result Error ObjectId = elim (lookup name r.refs) [
      | none ↦ err ref_not_exist
      | some id ↦ ok id
    ] in
    if is_valid_ref name then found else err invalid_ref

-- `r.refs[name]`, which is the zero ID if there is none
unfoldable pub ref_or_zero : Repo → Bytes → ObjectId
ref_or_zero r name = elim (lookup name r.refs) [ none ↦ zero_id | some id ↦ id ]

-- The error where the ref is not at `oldID`.
unfoldable pub swap_error : ObjectId → ObjectId → Error
swap_error id old_id =
    if bytes_eq zero_id id
    then ref_not_exist
    else (if bytes_eq zero_id old_id then ref_exist else ref_mismatch)

-- The switch on `newID`.
unfoldable pub set_ref : Repo → Bytes → ObjectId → Repo × Option Error
set_ref r name new_id =
    let put : Repo × Option Error = elim (get_object r new_id) [
      | err e ↦ (r, some e)
      | ok obj ↦ (record r { refs = insert name new_id r.refs }, none)
    ] in
    if bytes_eq new_id zero_id then (record r { refs = erase name r.refs }, none) else put

-- The new state, and the error that is returned.
unfoldable pub update_ref : Repo → Bytes → ObjectId → ObjectId → Repo × Option Error
update_ref r name old_id new_id =
    let id = ref_or_zero r name in
    if is_valid_ref name
    then (if bytes_eq id old_id then set_ref r name new_id else (r, some (swap_error id old_id)))
    else (r, some invalid_ref)

unfoldable pub list_refs : Repo → List Bytes × List ObjectId
list_refs r = let names = sort_strings (map (λ e. e.0) r.refs) in (names, map (ref_or_zero r) names)

unfoldable pub get_head : Repo → Bytes
get_head r = r.head

unfoldable pub set_head : Repo → Bytes → Repo
set_head r name = record r { head = name }
