-- ===== src/Repository/AppEngine/Laws.antt =====
-- repository/appengine: what the datastore and memcache are relied on for. Any call of either may fail, and memcache
-- may lose an item at any time.
use go_git_scm.Base.{List, Option, some, ok, ◌≡◌, ◌≢◌, ◌⊎◌}
use go_git_scm.Object.{Bytes, ObjectId}
use go_git_scm.Object.Print.{id_string}
use go_git_scm.Object.Properties.{Property}
use go_git_scm.Object.Scan.Text.{IsId}
use go_git_scm.Repository.AppEngine.{Error, Services}

-- What the datastore and memcache hold.
pub record View (K W : Type 0) : Type 0 where
  pub stored : W → K → Option (List Property)
  pub cached : W → Bytes → Option Bytes

-- The same entities, and no other items.
pub record Reads {K W : Type 0} (view : View K W) (w w' : W) : Type 0 where
  pub stored : (k : K) → view.stored w' k ≡ view.stored w k
  pub cached : (s b : Bytes) → view.cached w' s ≡ some b → view.cached w s ≡ some b

-- At most that item is new.
pub record Remembers {K W : Type 0} (view : View K W) (s b : Bytes) (w w' : W) : Type 0 where
  pub stored : (k : K) → view.stored w' k ≡ view.stored w k
  pub cached :
      (j c : Bytes) → view.cached w' j ≡ some c → ((j ≡ s) × (c ≡ b)) ⊎ (view.cached w j ≡ some c)

-- At most that entity is new.
pub record Stores {K W : Type 0} (view : View K W) (key : Option K) (ps : List Property) (w w' : W)
    : Type 0 where
  pub stored :
      (k : K) (qs : List Property)
      → view.stored w' k ≡ some qs
      → ((key ≡ some k) × (qs ≡ ps)) ⊎ (view.stored w k ≡ some qs)
  pub cached : (s b : Bytes) → view.cached w' s ≡ some b → view.cached w s ≡ some b

-- No new entities, and no new items.
pub record Removes {K W : Type 0} (view : View K W) (w w' : W) : Type 0 where
  pub stored : (k : K) (qs : List Property) → view.stored w' k ≡ some qs → view.stored w k ≡ some qs
  pub cached : (s b : Bytes) → view.cached w' s ≡ some b → view.cached w s ≡ some b

-- Keys differ in their kinds, names or parents, and an encoded key is not the text of an ID. A get reads what
-- is there or fails; nothing but a put or a set makes anything, whether it fails or not. A transaction runs its
-- function any number of times, and after it the datastore is as after one of these or as before: what the
-- function keeps of the entities and of the items is kept.
pub record IsFaithful {K W E : Type 0} (services : Services K W E) (view : View K W) : Type 1 where
  pub keys_differ :
      (a b m n : Bytes) (p q : Option K)
      → services.new_key a m p ≡ services.new_key b n q
      → (a ≡ b) × (m ≡ n) × (p ≡ q)
  pub encoded : (k : Option K) (id : ObjectId) → IsId id → services.encode k ≢ some (id_string id)
  pub fetch : (w : W) (k : Option K) → Reads view w (services.fetch w k).0
  pub fetched :
      (w : W) (k : K) (ps : List Property)
      → (services.fetch w (some k)).1 ≡ ok ps
      → view.stored w k ≡ some ps
  pub fetch_all :
      (w : W) (kind : Bytes) (root : K) → Reads view w (services.fetch_all w kind root).0
  pub recall : (w : W) (s : Bytes) → Reads view w (services.recall w s).0
  pub recalled : (w : W) (s b : Bytes) → (services.recall w s).1 ≡ ok b → view.cached w s ≡ some b
  pub remember : (w : W) (s b : Bytes) → Remembers view s b w (services.remember w s b)
  pub forget : (w : W) (s : Bytes) → Reads view w (services.forget w s)
  pub store :
      (w : W) (k : Option K) (ps : List Property) → Stores view k ps w (services.store w k ps).0
  pub remove : (w : W) (k : Option K) → Removes view w (services.remove w k).0
  pub transaction :
      (P : (K → Option (List Property)) → Type 0) (Q : (Bytes → Option Bytes) → Type 0)
      (f : W → W × Option (Error E)) (w : W)
      → P (view.stored w)
      → Q (view.cached w)
      → ((v : W)
          → P (view.stored v)
          → Q (view.cached v)
          → P (view.stored (f v).0) × Q (view.cached (f v).0))
      → P (view.stored (services.transaction f w).0) × Q (view.cached (services.transaction f w).0)
