-- ===== src/Repository/AppEngine/Heads.antt =====
-- repository/appengine/heads.go, InitRepository and OpenRepository: the HEAD, stored at the root key.
use go_git_scm.Base.{List, [], ◌∷◌, Option, some, Result, ok, err, if◌then◌else◌, codes, bytes_eq}
use go_git_scm.Object.{Bytes}
use go_git_scm.Object.Properties.{Property, text, plain_prop}
use go_git_scm.Repository.AppEngine.{Error, invalid_entity_type, Services, Stored, Repo, get, put}

unfoldable pub load_head : {E : Type 0} → List Property → Result (Error E) Bytes
load_head (p ∷ []) =
    let target : Result (Error _) Bytes = elim p.value [
      | text s ↦ ok s
      | v ↦ err invalid_entity_type
    ] in
    if bytes_eq p.name (codes "HEAD") then target else err invalid_entity_type
load_head props = err invalid_entity_type

unfoldable pub save_head : Bytes → List Property
save_head h = plain_prop (codes "HEAD") (text h) ∷ []

-- encoding/gob of a string
pub record Gob (A : Type 0) : Type 0 where
  pub encode : A → Bytes
  pub decode : Bytes → Option A

unfoldable pub stored_head : {E : Type 0} → Gob Bytes → Stored E Bytes
stored_head gob = record {
  save_entity = save_head;
  load_entity = load_head;
  gob = gob.encode;
  from_gob = gob.decode;
}

module _ {K W E : Type 0} (services : Services K W E) (gob : Gob Bytes) where
  unfoldable pub get_head : Repo K → W → W × Result (Error E) Bytes
  get_head r w = get services (stored_head gob) r w (some r.root)

  unfoldable pub set_head : Repo K → W → Bytes → W × Option (Error E)
  set_head r w name = put services (stored_head gob) r w (some r.root) name

  unfoldable pub open_repository : K → Bytes → Repo K
  open_repository root prefix = record { root = root; prefix = prefix }

  -- The repository, the new state and the error.
  unfoldable pub init_repository : W → K → Bytes → Repo K × W × Option (Error E)
  init_repository w root prefix =
      let r : Repo K = record { root = root; prefix = prefix } in
      let (w', e) = set_head r w (codes "refs/heads/master") in (r, w', e)
