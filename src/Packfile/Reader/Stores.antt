-- ===== src/Packfile/Reader/Stores.antt =====
-- What a Reader asks of its repository, and that the repository in memory gives it.
use go_git_scm.Base.{
  ◌≡◌, refl, Option, none, some, Result, ok, err, if◌then◌else◌, bytes_eq, Bool-cases, inl, inr,
}
use go_git_scm.Base.Map.{lookup-insert}
use go_git_scm.Object.{Bytes, ObjectId, Object, type_of}
use go_git_scm.Object.Marshal.{hash-eq-ok, body_of}
use go_git_scm.Repository.Mem.{Repo, get_object, put_object}
use go_git_scm.Packfile.Writer.{hash_obj}
use go_git_scm.Packfile.Reader.{Store}

-- The value without the error.
unfoldable pub value_of : {E A : Type 0} → Result E A → Option A
value_of (ok a) = some a
value_of (err e) = none

-- The methods of the repository in memory.
unfoldable pub mem_store : (Bytes → ObjectId) → Store Repo
mem_store sha1 = record {
  get = λ r id. value_of (get_object r id);
  put = λ r obj. ((put_object sha1 r obj).0, value_of (put_object sha1 r obj).1);
}

abbrev pub id_of : (Bytes → ObjectId) → Object → ObjectId
id_of sha1 obj = hash_obj sha1 (type_of obj) (body_of obj)

-- PutObject stores an object under its ID and nothing else, and never fails.
pub record IsStore {R : Type 0} (sha1 : Bytes → ObjectId) (store : Store R) : Type 0 where
  pub put_id : (r : R) (obj : Object) → (store.put r obj).1 ≡ some (id_of sha1 obj)
  pub get_put :
      (r : R) (obj : Object) (j : ObjectId)
      → store.get (store.put r obj).0 j
        ≡ (if bytes_eq (id_of sha1 obj) j then some obj else store.get r j)

mem_get :
    (sha1 : Bytes → ObjectId) (r : Repo) (obj : Object) (j : ObjectId)
    → value_of (get_object (put_object sha1 r obj).0 j)
      ≡ (if bytes_eq (id_of sha1 obj) j then some obj else value_of (get_object r j))
unfolding put_object get_object value_of hash_obj
mem_get sha1 r obj j =
    rw (hash-eq-ok sha1 obj, put_object, get_object, lookup-insert j (id_of sha1 obj) obj r.objects)
      (elim (Bool-cases (bytes_eq (id_of sha1 obj) j)) [
        | inl e ↦ rw (e, value_of) refl
        | inr e ↦ rw (e, value_of) refl
      ])

pub mem_store-IsStore : (sha1 : Bytes → ObjectId) → IsStore sha1 (mem_store sha1)
unfolding mem_store put_object value_of hash_obj
mem_store-IsStore sha1 = record {
  put_id = λ r obj. rw (hash-eq-ok sha1 obj, put_object) refl;
  get_put = λ r obj j. mem_get sha1 r obj j;
}
