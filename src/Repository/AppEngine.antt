-- ===== src/Repository/AppEngine.antt =====
-- repository/appengine: a repository in the datastore and memcache. Both services are parameters, with the state of
-- the world that they share, the context included; a method is a step of that state.
pub mod Heads
pub mod Objects
pub mod Refs
pub mod Laws
pub mod Sound
pub mod Reliable
mod Local
mod Tests
use go_git_scm.Base.{
  ℕ, zero, suc, ◌+◌, ◌-◌, Bool, true, false, List, [], ◌∷◌, ◌++◌, Option, none, some, Result, ok,
  err, ◌==◌, if◌then◌else◌, codes, bytes_eq,
}
use go_git_scm.Object.{
  Bytes, ObjectId, zero_id, Object, type_of, type_string, type_commit, type_reserved,
}
use go_git_scm.Object.Print.{id_string}
use go_git_scm.Object.Marshal.{marshal_binary}
use go_git_scm.Object.Unmarshal.{unmarshal}
use go_git_scm.Object.Properties.{Property, Value, text, plain_prop, save_id, load_id}
use go_git_scm.Object.Properties.Kinds.{save, load}
use go_git_scm.Repository
use go_git_scm.Repository.{invalid_ref, ref_not_exist, object_not_exist}
use go_git_scm.Repository.Refs.{is_valid_ref}
use go_git_scm.Repository.Mem.{swap_error}

-- ErrNoSuchEntity, ErrCacheMiss and ErrInvalidEntityType, any other error of the services, an error of the
-- package repository, one of Load, Unmarshal or Marshal, and a panic on a key that is nil.
pub data Error (E : Type 0) : Type 0 where
  no_such_entity cache_miss invalid_entity_type malformed nil_key : Error E
  service : E → Error E
  refused : Repository.Error → Error E

-- The comparisons with the errors of the services.
unfoldable pub is_cache_miss : {E : Type 0} → Error E → Bool
is_cache_miss cache_miss = true
is_cache_miss e = false

unfoldable pub is_no_such_entity : {E : Type 0} → Error E → Bool
is_no_such_entity no_such_entity = true
is_no_such_entity e = false

-- What the package calls of the datastore and of memcache.
pub record Services (K W E : Type 0) : Type 0 where
  -- datastore.NewKey of a kind, a name and a parent, and the methods Encode and StringID; Encode is none if it
  -- panics
  pub new_key : Bytes → Bytes → Option K → K
  pub encode : Option K → Option Bytes
  pub string_id : K → Bytes
  -- datastore.Get, Put and Delete, where an entity is the list of its properties
  pub fetch : W → Option K → W × Result (Error E) (List Property)
  pub store : W → Option K → List Property → W × Option (Error E)
  pub remove : W → Option K → W × Option (Error E)
  -- GetAll of the query for a kind below a key, in the order of the keys
  pub fetch_all : W → Bytes → K → W × Result (Error E) (List (K × List Property))
  -- memcache.Get, Set and Delete; no caller reads the error of the last two
  pub recall : W → Bytes → W × Result (Error E) Bytes
  pub remember : W → Bytes → Bytes → W
  pub forget : W → Bytes → W
  -- datastore.RunInTransaction
  pub transaction : (W → W × Option (Error E)) → W → W × Option (Error E)

-- A type that is stored: its Save and Load, and its encoding by encoding/gob in memcache.
pub record Stored (E A : Type 0) : Type 0 where
  pub save_entity : A → List Property
  pub load_entity : List Property → Result (Error E) A
  pub gob : A → Bytes
  pub from_gob : Bytes → Option A

pub record Repo (K : Type 0) : Type 0 where
  pub root : K
  pub prefix : Bytes

unfoldable pub memkey : {K W E : Type 0} → Services K W E → Repo K → Option K → Option Bytes
memkey services r key = elim (services.encode key) [ none ↦ none | some s ↦ some (r.prefix ++ s) ]

module _ {K W E A : Type 0} (services : Services K W E) (stored : Stored E A) (r : Repo K) where
  -- datastore.Get into a value of the type
  unfoldable pub load_stored : W → Option K → W × Result (Error E) A
  load_stored w key =
      let (w', found) = services.fetch w key in
      (w', elim found [ err e ↦ err e | ok props ↦ stored.load_entity props ])

  -- What get does after a cache miss.
  unfoldable pub get_stored : W → Option K → Bytes → W × Result (Error E) A
  get_stored w key s =
      let (w', found) = load_stored w key in
      elim found [ err e ↦ (w', err e) | ok a ↦ (services.remember w' s (stored.gob a), ok a) ]

  unfoldable pub get_at : W → Option K → Bytes → W × Result (Error E) A
  get_at w key s =
      let (w', cached) = services.recall w s in
      elim cached [
        | ok item ↦ elim (stored.from_gob item) [ some a ↦ (w', ok a) | none ↦ (w', err malformed) ]
        | err e ↦ if is_cache_miss e then get_stored w' key s else (w', err e)
      ]

  unfoldable pub get : W → Option K → W × Result (Error E) A
  get w key = elim (memkey services r key) [ none ↦ (w, err nil_key) | some s ↦ get_at w key s ]

  unfoldable pub put : W → Option K → A → W × Option (Error E)
  put w key a =
      let (w', e) = services.store w key (stored.save_entity a) in
      elim e [
        | some x ↦ (w', some x)
        | none ↦ elim (memkey services r key) [
          | none ↦ (w', some nil_key)
          | some s ↦ (services.remember w' s (stored.gob a), none)
        ]
      ]

unfoldable pub del :
    {K W E : Type 0} → Services K W E → Repo K → W → Option K → W × Option (Error E)
del services r w key = elim (memkey services r key) [
  | none ↦ (w, some nil_key)
  | some s ↦ services.remove (services.forget w s) key
]
