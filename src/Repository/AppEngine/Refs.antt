-- ===== src/Repository/AppEngine/Refs.antt =====
-- repository/appengine/refs.go: refs, stored below the root key by their names.
use go_git_scm.Base.{
  List, [], ◌∷◌, ◌++◌, Option, none, some, Result, ok, err, if◌then◌else◌, codes, bytes_eq,
}
use go_git_scm.Object.{Bytes, ObjectId, zero_id}
use go_git_scm.Object.Properties.{Property, save_id, load_id}
use go_git_scm.Repository.{invalid_ref, ref_not_exist}
use go_git_scm.Repository.Refs.{is_valid_ref}
use go_git_scm.Repository.Mem.{swap_error}
use go_git_scm.Repository.AppEngine.{
  Error, is_no_such_entity, no_such_entity, malformed, refused, Services, Stored, Repo, get, put,
  del,
}
use go_git_scm.Repository.AppEngine.Heads.{Gob}
use go_git_scm.Repository.AppEngine.Objects.{get_object}

-- Save and Load of object.ID, an error of Load being malformed.
unfoldable pub load_stored_id : {E : Type 0} → List Property → Result (Error E) ObjectId
load_stored_id props = elim (load_id props) [ some id ↦ ok id | none ↦ err malformed ]

unfoldable pub stored_id : {E : Type 0} → Gob ObjectId → Stored E ObjectId
stored_id gob = record {
  save_entity = save_id;
  load_entity = load_stored_id;
  gob = gob.encode;
  from_gob = gob.decode;
}

unfoldable pub map_ref_err : {E : Type 0} → Error E → Error E
map_ref_err no_such_entity = refused ref_not_exist
map_ref_err e = e

module _ {K W E : Type 0} (services : Services K W E) (r : Repo K) where
  unfoldable pub ref_key : Bytes → Result (Error E) K
  ref_key name =
      if is_valid_ref name
      then ok (services.new_key (r.prefix ++ codes "ref") name (some r.root))
      else err (refused invalid_ref)

  -- `key, _ := r.refKey(name)`: the key of a name that is not well formed is nil.
  unfoldable pub update_key : Bytes → Option K
  update_key name = elim (ref_key name) [ ok key ↦ some key | err e ↦ none ]

  -- The names and the IDs of the entities that the query gives.
  unfoldable pub split_refs :
      List (K × List Property) → Result (Error E) (List Bytes × List ObjectId)
  split_refs [] = ok ([], [])
  split_refs ((key, props) ∷ found) =
      let rest = split_refs found in
      elim (load_stored_id props) [
        | err e ↦ err e
        | ok id ↦ elim rest [
          | err e ↦ err e
          | ok (names, ids) ↦ ok (services.string_id key ∷ names, id ∷ ids)
        ]
      ]

  unfoldable pub list_refs : W → W × Result (Error E) (List Bytes × List ObjectId)
  list_refs w =
      let (w', found) = services.fetch_all w (r.prefix ++ codes "ref") r.root in
      elim found [ err e ↦ (w', err e) | ok entities ↦ (w', split_refs entities) ]

module _ {K W E : Type 0} (services : Services K W E) (gob : Gob ObjectId) (r : Repo K) where
  unfoldable pub get_ref : W → Bytes → W × Result (Error E) ObjectId
  get_ref w name = elim (ref_key services r name) [
    | err e ↦ (w, err e)
    | ok key ↦
        let (w', found) = get services (stored_id gob) r w (some key) in
        elim found [ ok id ↦ (w', ok id) | err e ↦ (w', err (map_ref_err e)) ]
  ]

  -- The switch on `newID`, where the ref is at `oldID`.
  unfoldable pub set_ref : W → Option K → ObjectId → ObjectId → W × Option (Error E)
  set_ref w key old_id new_id =
      let removed : W × Option (Error E) =
        let (w', e) = del services r w key in
        elim e [ none ↦ (w', none) | some x ↦ (w', some (map_ref_err x)) ] in
      let written : W × Option (Error E) =
        let (w', found) = get_object services r w new_id in
        elim found [
          | err e ↦ (w', some e)
          | ok obj ↦ put services (stored_id gob) r w' key new_id
        ] in
      if bytes_eq new_id zero_id
      then (if bytes_eq old_id zero_id then (w, none) else removed)
      else written

  unfoldable pub swap : W → Option K → ObjectId → ObjectId → ObjectId → W × Option (Error E)
  swap w key id old_id new_id =
      if bytes_eq id old_id
      then set_ref w key old_id new_id
      else (w, some (refused (swap_error id old_id)))

  -- The function that is run in the transaction: a ref that is not there is zero.
  unfoldable pub update_body : Option K → ObjectId → ObjectId → W → W × Option (Error E)
  update_body key old_id new_id w =
      let (w', found) = get services (stored_id gob) r w key in
      elim found [
        | ok id ↦ swap w' key id old_id new_id
        | err e ↦ if is_no_such_entity e then swap w' key zero_id old_id new_id else (w', some e)
      ]

  unfoldable pub update_ref : W → Bytes → ObjectId → ObjectId → W × Option (Error E)
  update_ref w name old_id new_id =
      services.transaction (update_body (update_key services r name) old_id new_id) w
