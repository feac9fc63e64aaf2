-- ===== src/Repository/AppEngine/Sound/History.antt =====
-- repository/appengine: any sequence of calls of the methods.
use go_git_scm.Base.{
  ◌<◌, ◌^◌, ◌++◌, codes, Result-cases, inl, inr, List, [], ◌∷◌, some, ok, length, ◌≡◌, ◌≢◌, All, ℕ,
}
use go_git_scm.Object.{Bytes, ObjectId, Object}
use go_git_scm.Object.Marshal.{hash, body_of}
use go_git_scm.Object.Scan.Text.{IsId}
use go_git_scm.Object.Unmarshal.Binary.{IsReadable}
use go_git_scm.Repository.AppEngine.{Services, Repo}
use go_git_scm.Repository.AppEngine.Heads.{Gob, stored_head, get_head, set_head}
use go_git_scm.Repository.AppEngine.Objects.{obj_key, get_object, put_object}
use go_git_scm.Repository.AppEngine.Refs.{get_ref, update_ref, list_refs}
use go_git_scm.Repository.AppEngine.Laws.{View, IsFaithful}
use go_git_scm.Repository.AppEngine.Sound.{IsSound, Reads-IsSound}
use go_git_scm.Repository.AppEngine.Sound.Objects.{hash-get_object, put_object-Sound}
use go_git_scm.Repository.AppEngine.Sound.Methods.{
  get-Sound, put-Sound, get_ref-Sound, update_ref-Sound,
}

-- The calls of the methods.
pub data Request : Type 0 where
  ask_head ask_refs : Request
  tell_head : Bytes → Request
  ask_object : ObjectId → Request
  give_object : Object → Request
  ask_ref : Bytes → Request
  change_ref : Bytes → ObjectId → ObjectId → Request

-- The IDs have twenty bytes, and an object that is put is readable and has a body of less than 2^63 bytes.
unfoldable pub IsProper : Request → Type 0
IsProper (ask_object id) = IsId id
IsProper (give_object obj) = IsReadable obj × (length (body_of obj) < 2 ^ 63)
IsProper (change_ref name old_id new_id) = IsId new_id
IsProper q = Unit

module _ {K W E : Type 0} (sha1 : Bytes → ObjectId) (services : Services K W E) (heads : Gob Bytes)
    (ids : Gob ObjectId) (r : Repo K) where
  -- The state after a call.
  unfoldable pub request : W → Request → W
  request w ask_head = (get_head services heads r w).0
  request w ask_refs = (list_refs services r w).0
  request w (tell_head name) = (set_head services heads r w name).0
  request w (ask_object id) = (get_object services r w id).0
  request w (give_object obj) = (put_object services r sha1 w obj).0
  request w (ask_ref name) = (get_ref services ids r w name).0
  request w (change_ref name old_id new_id) = (update_ref services ids r w name old_id new_id).0

  unfoldable pub requests : W → List Request → W
  requests w [] = w
  requests w (q ∷ qs) = requests (request w q) qs

module _ {K W E : Type 0} (sha1 : Bytes → ObjectId) (services : Services K W E) (view : View K W)
    (laws : IsFaithful services view) (heads : Gob Bytes) (ids : Gob ObjectId) (r : Repo K)
    (hashes : (b : Bytes) → IsId (sha1 b))
    (rooted : (t : ℕ) (id : ObjectId) → r.root ≢ obj_key services r t id) where
  request-IsSound :
      (w : W) (q : Request)
      → IsProper q
      → IsSound sha1 services view r w
      → IsSound sha1 services view r (request sha1 services heads ids r w q)
  unfolding request IsProper get_head set_head list_refs
  request-IsSound w ask_head h v =
      get-Sound sha1 services view laws r (stored_head heads) w (some r.root) v
  request-IsSound w ask_refs h v =
      let kind = r.prefix ++ codes "ref" in
      let v' = Reads-IsSound sha1 services view r (laws.fetch_all w kind r.root) v in
      elim (Result-cases (services.fetch_all w kind r.root).1) [
        | inl (found, e) ↦ rw (e, request, list_refs) v'
        | inr (x, e) ↦ rw (e, request, list_refs) v'
      ]
  request-IsSound w (tell_head name) h v =
      put-Sound sha1 services view laws r (stored_head heads) w (some r.root) name
        (λ t id e. rooted t id cc) v
  request-IsSound w (ask_object id) h v = (hash-get_object sha1 services view laws r w id h v).0
  request-IsSound w (give_object obj) (readable, small) v =
      put_object-Sound sha1 services view laws r w obj readable small hashes v
  request-IsSound w (ask_ref name) h v = get_ref-Sound sha1 services view laws r ids w name v
  request-IsSound w (change_ref name old_id new_id) h v =
      update_ref-Sound sha1 services view laws r ids w name old_id new_id h v

  -- Every sequence of calls, whatever fails in them, keeps the objects sound: in calls with IDs of twenty bytes and
  -- readable objects with bodies of less than 2^63 bytes, for a root key that is no object's.
  pub requests-IsSound :
      (qs : List Request) (w : W)
      → All IsProper qs
      → IsSound sha1 services view r w
      → IsSound sha1 services view r (requests sha1 services heads ids r w qs)
  unfolding requests
  requests-IsSound [] w h v = v
  requests-IsSound (q ∷ qs) w (h, hs) v =
      requests-IsSound qs (request sha1 services heads ids r w q) hs (request-IsSound w q h v)

  -- From a state in which what is stored and cached under an ID is an object of that ID, readable and with a body of
  -- less than 2^63 bytes, after any sequence of calls with IDs of twenty bytes in which each object that is put is
  -- readable and has such a body, an object that GetObject returns for an ID of twenty bytes has that ID, whatever calls
  -- of the datastore and of memcache fail and whatever items are lost: for a hash of twenty bytes, services that are
  -- faithful, and a root key that is no key of an object.
  pub hash-get_object-requests :
      (qs : List Request) (w : W) (id : ObjectId) (obj : Object)
      → All IsProper qs
      → IsSound sha1 services view r w
      → IsId id
      → (get_object services r (requests sha1 services heads ids r w qs) id).1 ≡ ok obj
      → hash sha1 obj ≡ ok id
  hash-get_object-requests qs w id obj h v hid e =
      (hash-get_object sha1 services view laws r (requests sha1 services heads ids r w qs) id hid
          (requests-IsSound qs w h v)).1
        obj e
