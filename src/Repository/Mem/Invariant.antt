-- ===== src/Repository/Mem/Invariant.antt =====
-- Every method keeps the repository well formed.
use go_git_scm.Base.{
  ◌≡◌, ◌≢◌, inl, inr, true, List, Option, some, ok, bytes_eq, bytes_eq_iff, Bool-cases,
  Result-cases, arith,
}
use go_git_scm.Base.Map.{lookup, insert, erase, lookup-insert, lookup-erase}
use go_git_scm.Object.{Bytes, ObjectId, zero_id, Object}
use go_git_scm.Object.Marshal.{hash}
use go_git_scm.Repository.{Error}
use go_git_scm.Repository.Refs.{is_valid_ref}
use go_git_scm.Repository.Mem.{Repo, new_repository, put_object, update_ref}
use go_git_scm.Repository.Mem.Swap.{Outcome, refused, deleted, written, update_ref-Outcome}

-- A ref has a well-formed name, is not zero and names an object that is there.
pub record IsGoodRef (r : Repo) (name : Bytes) (id : ObjectId) : Type 0 where
  pub well_formed : is_valid_ref name ≡ true
  pub non_zero : id ≢ zero_id
  pub object : Object
  pub present : lookup id r.objects ≡ some object

-- Objects are stored under their hashes, and all refs are good.
pub record IsValid (sha1 : Bytes → ObjectId) (r : Repo) : Type 0 where
  pub hashed :
      (id : ObjectId) (obj : Object) → lookup id r.objects ≡ some obj → hash sha1 obj ≡ ok id
  pub good : (name : Bytes) (id : ObjectId) → lookup name r.refs ≡ some id → IsGoodRef r name id

-- A new repository is well formed.
pub new_repository-IsValid : (sha1 : Bytes → ObjectId) → IsValid sha1 new_repository
unfolding new_repository lookup
new_repository-IsValid sha1 = record {
  hashed = λ id obj e. absurd cc;
  good = λ name id e. absurd cc;
}

still_there :
    (id j : ObjectId) (obj : Object) (m : List (ObjectId × Object)) {old : Object}
    → lookup j m ≡ some old
    → (new : Object) × (lookup j (insert id obj m) ≡ some new)
still_there id j obj m {old} e = elim (Bool-cases (bytes_eq id j)) [
  | inl same ↦ (obj, rw (lookup-insert j id obj m, same))
  | inr other ↦ (old, rw (lookup-insert j id obj m, other) e)
]

stored :
    (sha1 : Bytes → ObjectId) (id j : ObjectId) (obj old : Object) (m : List (ObjectId × Object))
    → hash sha1 obj ≡ ok id
    → ((k : ObjectId) (o : Object) → lookup k m ≡ some o → hash sha1 o ≡ ok k)
    → lookup j (insert id obj m) ≡ some old
    → hash sha1 old ≡ ok j
stored sha1 id j obj old m h all e = elim (Bool-cases (bytes_eq id j)) [
  | inl same ↦ ground (arith, bytes_eq_iff id j, lookup-insert j id obj m)
  | inr other ↦ all j old (ground (arith, lookup-insert j id obj m))
]

-- PutObject keeps the repository well formed.
pub put_object-IsValid :
    (sha1 : Bytes → ObjectId) (r : Repo) (obj : Object)
    → IsValid sha1 r
    → IsValid sha1 (put_object sha1 r obj).0
unfolding put_object
put_object-IsValid sha1 r obj v = elim (Result-cases (hash sha1 obj)) [
  | inl (id, e) ↦
      rw (e, put_object)
        (record {
          hashed = λ j old. stored sha1 id j obj old r.objects e v.hashed;
          good = λ name j at.
              let g = v.good name j at in
              let (new, there) = still_there id j obj r.objects g.present in
              record {
                well_formed = g.well_formed;
                non_zero = g.non_zero;
                object = new;
                present = there;
              };
        })
  | inr (x, e) ↦ rw (e, put_object) v
]

-- A repository with other refs, all of them good.
with_refs :
    (sha1 : Bytes → ObjectId) (r : Repo) (refs : List (Bytes × ObjectId))
    → IsValid sha1 r
    → ((name : Bytes) (id : ObjectId) → lookup name refs ≡ some id → IsGoodRef r name id)
    → IsValid sha1 (record r { refs = refs })
with_refs sha1 r refs v good = record {
  hashed = v.hashed;
  good = λ name id e.
      let g = good name id e in
      record {
        well_formed = g.well_formed;
        non_zero = g.non_zero;
        object = g.object;
        present = g.present;
      };
}

Outcome-IsValid :
    (sha1 : Bytes → ObjectId) (r : Repo) (name : Bytes) (old_id new_id : ObjectId)
    {p : Repo × Option Error}
    → Outcome r name old_id new_id p
    → IsValid sha1 r
    → IsValid sha1 p.0
Outcome-IsValid sha1 r name old_id new_id (refused e bad) v = v
Outcome-IsValid sha1 r name old_id new_id (deleted valid at zero) v =
    with_refs sha1 r (erase name r.refs) v (λ j id e. elim (Bool-cases (bytes_eq name j)) [
      | inl same ↦ absurd (ground (arith, lookup-erase j name r.refs))
      | inr other ↦ v.good j id (ground (arith, lookup-erase j name r.refs))
    ])
Outcome-IsValid sha1 r name old_id new_id (written obj valid at non_zero there) v =
    with_refs sha1 r (insert name new_id r.refs) v (λ j id e. elim (Bool-cases (bytes_eq name j)) [
      | inl same ↦
          let same_name : name ≡ j = (bytes_eq_iff name j).0 same in
          let same_id : new_id ≡ id = ground (arith, lookup-insert j name new_id r.refs) in
          record {
            well_formed = rw (← same_name) valid;
            non_zero = rw (← same_id) non_zero;
            object = obj;
            present = rw (← same_id) there;
          }
      | inr other ↦ v.good j id (ground (arith, lookup-insert j name new_id r.refs))
    ])

-- UpdateRef keeps the repository well formed, whatever it is asked.
pub update_ref-IsValid :
    (sha1 : Bytes → ObjectId) (r : Repo) (name : Bytes) (old_id new_id : ObjectId)
    → IsValid sha1 r
    → IsValid sha1 (update_ref r name old_id new_id).0
update_ref-IsValid sha1 r name old_id new_id =
    Outcome-IsValid sha1 r name old_id new_id (update_ref-Outcome r name old_id new_id)
