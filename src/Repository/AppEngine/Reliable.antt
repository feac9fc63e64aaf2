-- ===== src/Repository/AppEngine/Reliable.antt =====
-- repository/appengine: services that answer, and what it means that they hold a repository in memory. Memcache may
-- still lose an item at any time.
pub mod Entities
pub mod Objects
pub mod PutObject
pub mod Represents
pub mod Refines
pub mod UpdateRef
use go_git_scm.Base.{
  ℕ, ◌<◌, ◌^◌, List, ◌++◌, Option, none, some, Result, ok, err, length, ◌≡◌, ◌≢◌, ◌⊎◌, codes, true,
}
use go_git_scm.Base.Map.{lookup}
use go_git_scm.Object.{Bytes, ObjectId, Object, type_of}
use go_git_scm.Object.Marshal.{marshal_binary, body_of}
use go_git_scm.Object.Properties.{Property, save_id}
use go_git_scm.Object.Properties.Kinds.{save}
use go_git_scm.Object.Scan.Text.{IsId}
use go_git_scm.Object.Unmarshal.Lines.{IsType}
use go_git_scm.Object.Unmarshal.Binary.{IsReadable}
use go_git_scm.Repository.Refs.{is_valid_ref}
use go_git_scm.Repository.Mem
use go_git_scm.Repository.AppEngine.{Error, no_such_entity, cache_miss, Services, Stored, Repo}
use go_git_scm.Repository.AppEngine.Heads.{Gob, save_head}
use go_git_scm.Repository.AppEngine.Objects.{obj_key, obj_key_memcache}
use go_git_scm.Repository.AppEngine.Laws.{View, Reads}

-- The datastore answers from what it holds. Memcache answers with what it holds, or misses; what is set
-- replaces what was there, if it is kept, and a delete deletes. Two keys are never encoded alike. A transaction
-- runs its function once, and takes back what the function did to the datastore if that fails.
pub record IsReliable {K W E : Type 0} (services : Services K W E) (view : View K W) : Type 0 where
  pub encodes : (k : K) → (s : Bytes) × (services.encode (some k) ≡ some s)
  pub encode_injective :
      (j k : K) (s : Bytes)
      → services.encode (some j) ≡ some s
      → services.encode (some k) ≡ some s
      → j ≡ k
  pub fetch_none :
      (w : W) (k : K) → view.stored w k ≡ none → (services.fetch w (some k)).1 ≡ err no_such_entity
  pub fetch_some :
      (w : W) (k : K) (ps : List Property)
      → view.stored w k ≡ some ps
      → (services.fetch w (some k)).1 ≡ ok ps
  pub recall :
      (w : W) (s : Bytes)
      → ((services.recall w s).1 ≡ err cache_miss)
        ⊎ ((b : Bytes) × ((services.recall w s).1 ≡ ok b))
  pub remember : (w : W) (s b c : Bytes) → view.cached (services.remember w s b) s ≡ some c → c ≡ b
  pub forget : (w : W) (s c : Bytes) → view.cached (services.forget w s) s ≢ some c
  pub store :
      (w : W) (k : K) (ps : List Property)
      → let p = services.store w (some k) ps in
        (p.1 ≡ none)
        × (view.stored p.0 k ≡ some ps)
        × ((j : K) → k ≢ j → view.stored p.0 j ≡ view.stored w j)
  pub remove :
      (w : W) (k : K)
      → let p = services.remove w (some k) in
        (p.1 ≡ none)
        × (view.stored p.0 k ≡ none)
        × ((j : K) → k ≢ j → view.stored p.0 j ≡ view.stored w j)
  pub commits :
      (f : W → W × Option (Error E)) (w : W)
      → (f w).1 ≡ none
      → ((services.transaction f w).1 ≡ none) × Reads view (f w).0 (services.transaction f w).0
  pub rolls_back :
      (f : W → W × Option (Error E)) (w : W) (e : Error E)
      → (f w).1 ≡ some e
      → ((services.transaction f w).1 ≡ some e)
        × ((k : K) → view.stored (services.transaction f w).0 k ≡ view.stored w k)
        × ((s b : Bytes)
            → view.cached (services.transaction f w).0 s ≡ some b
            → view.cached (f w).0 s ≡ some b)

-- That entity and those items are all that may be new.
pub record Touches {K W : Type 0} (view : View K W) (k : K) (items : Bytes → Type 0) (w w' : W)
    : Type 0 where
  pub stored : (j : K) → k ≢ j → view.stored w' j ≡ view.stored w j
  pub cached : (s b : Bytes) → view.cached w' s ≡ some b → items s ⊎ (view.cached w s ≡ some b)

-- The item of a key.
abbrev pub Item : {K W E : Type 0} → Services K W E → Repo K → K → Bytes → Type 0
Item services r k s = (c : Bytes) × (services.encode (some k) ≡ some c) × (s ≡ r.prefix ++ c)

-- The entity of a key holds that value or is not there, and memcache has no other value for it.
pub record Holds {K W E A : Type 0} (services : Services K W E) (view : View K W) (r : Repo K)
    (kept : Stored E A) (k : K) (value : Option A) (w : W) : Type 0 where
  pub absent : value ≡ none → view.stored w k ≡ none
  pub present : (a : A) → value ≡ some a → view.stored w k ≡ some (kept.save_entity a)
  pub coherent :
      (s b : Bytes)
      → Item services r k s
      → view.cached w s ≡ some b
      → (a : A) × (value ≡ some a) × (b ≡ kept.gob a)
