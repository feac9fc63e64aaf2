-- ===== src/Repository/AppEngine/Objects.antt =====
-- repository/appengine/objects.go: objects, stored by their types and IDs and cached as their bytes.
use go_git_scm.Base.{
  ℕ, zero, suc, ◌+◌, ◌-◌, ◌++◌, Option, none, some, Result, ok, err, if◌then◌else◌,
}
use go_git_scm.Object.{Bytes, ObjectId, Object, type_of, type_string, type_commit, type_reserved}
use go_git_scm.Object.Print.{id_string}
use go_git_scm.Object.Marshal.{marshal_binary}
use go_git_scm.Object.Unmarshal.{unmarshal}
use go_git_scm.Object.Properties.Kinds.{save, load}
use go_git_scm.Repository.{object_not_exist}
use go_git_scm.Repository.AppEngine.{
  Error, is_cache_miss, is_no_such_entity, malformed, refused, Services, Repo,
}

module _ {K W E : Type 0} (services : Services K W E) (r : Repo K) where
  unfoldable pub obj_key : ℕ → ObjectId → K
  obj_key t id = services.new_key (r.prefix ++ type_string t) (id_string id) none

  unfoldable pub obj_key_memcache : ObjectId → Bytes
  obj_key_memcache id = r.prefix ++ id_string id

  -- The loop over the types `t` and up, of which there are so many.
  unfoldable pub try_types : W → ObjectId → ℕ → ℕ → W × Result (Error E) Object
  try_types w id t zero = (w, err (refused object_not_exist))
  try_types w id t (suc left) =
      let (w', found) = services.fetch w (some (obj_key t id)) in
      let rest = try_types w' id (t + 1) left in
      elim found [
        | ok props ↦ elim (load t props) [ some obj ↦ (w', ok obj) | none ↦ (w', err malformed) ]
        | err e ↦ if is_no_such_entity e then rest else (w', err e)
      ]

  unfoldable pub get_object_stored : W → ObjectId → W × Result (Error E) Object
  get_object_stored w id = try_types w id type_commit (type_reserved - type_commit)

  -- What GetObject does after a cache miss.
  unfoldable pub get_uncached : W → ObjectId → W × Result (Error E) Object
  get_uncached w id =
      let (w', found) = get_object_stored w id in
      elim found [
        | err e ↦ (w', err e)
        | ok obj ↦ elim (marshal_binary obj) [
          | ok item ↦ (services.remember w' (obj_key_memcache id) item, ok obj)
          | err e ↦ (w', ok obj)
        ]
      ]

  unfoldable pub get_object : W → ObjectId → W × Result (Error E) Object
  get_object w id =
      let (w', cached) = services.recall w (obj_key_memcache id) in
      elim cached [
        | ok item ↦ elim (unmarshal item) [ some obj ↦ (w', ok obj) | none ↦ (w', err malformed) ]
        | err e ↦ if is_cache_miss e then get_uncached w' id else (w', err e)
      ]

  -- putObject of an object whose bytes and ID are given.
  unfoldable pub put_object_stored : W → Object → ObjectId → W × Option (Error E)
  put_object_stored w obj id = services.store w (some (obj_key (type_of obj) id)) (save obj)

  unfoldable pub put_object : (Bytes → ObjectId) → W → Object → W × Result (Error E) ObjectId
  put_object sha1 w obj = elim (marshal_binary obj) [
    | err e ↦ (w, err malformed)
    | ok item ↦
        let id = sha1 item in
        let (w', e) = put_object_stored w obj id in
        elim e [
          | some x ↦ (w', err x)
          | none ↦ (services.remember w' (obj_key_memcache id) item, ok id)
        ]
  ]
