-- ===== src/Repository/AppEngine/Sound.antt =====
-- repository/appengine: the objects that are stored and cached are those of their IDs.
pub mod Objects
pub mod Methods
pub mod History
use go_git_scm.Base.{
  ℕ, ◌<◌, ◌^◌, List, ◌++◌, Option, none, some, Result, ok, err, length, ◌≡◌, ◌≢◌, refl, sym, ap,
  ◌∙◌, subst, inl, inr, ◌⊎◌, codes, bytes_eq, drop, [], ◌∷◌,
}
use go_git_scm.Object.{Bytes, ObjectId, Object, type_of, type_string}
use go_git_scm.Object.Print.{id_string}
use go_git_scm.Object.Marshal.{hash, marshal_binary, body_of}
use go_git_scm.Object.Properties.{Property, must_decode_id, must_decode_type}
use go_git_scm.Object.Properties.Kinds.{save, load}
use go_git_scm.Object.Properties.RoundTrip.{must_decode_id-id_string, must_decode_type-type_string}
use go_git_scm.Object.Scan.Text.{IsId}
use go_git_scm.Object.Unmarshal.Lines.{IsType, is_commit, is_tree, is_blob, is_tag}
use go_git_scm.Object.Unmarshal.Binary.{IsReadable}
use go_git_scm.Repository.AppEngine.{Error, Services, Repo}
use go_git_scm.Repository.AppEngine.Objects.{obj_key, obj_key_memcache}
use go_git_scm.Repository.AppEngine.Laws.{View, Reads, Remembers, Stores, Removes, IsFaithful}

-- A readable object with a body of less than 2^63 bytes, and its ID.
pub record IsNamed (sha1 : Bytes → ObjectId) (obj : Object) (id : ObjectId) : Type 0 where
  pub readable : IsReadable obj
  pub small : length (body_of obj) < 2 ^ 63
  pub hashed : hash sha1 obj ≡ ok id

-- The entity of a type and an ID is an object of that type with that ID.
abbrev pub IsStoredSound :
    {K W E : Type 0} (sha1 : Bytes → ObjectId)
    → Services K W E
    → Repo K
    → (K → Option (List Property))
    → Type 0
IsStoredSound sha1 services r stored =
    (t : ℕ) (id : ObjectId) (ps : List Property)
    → IsType t
    → IsId id
    → stored (obj_key services r t id) ≡ some ps
    → (obj : Object) × IsNamed sha1 obj id × (ps ≡ save obj) × (type_of obj ≡ t)

-- The item of an ID is the canonical bytes of an object with that ID.
abbrev pub IsCachedSound :
    {K W E : Type 0} (sha1 : Bytes → ObjectId)
    → Services K W E
    → Repo K
    → (Bytes → Option Bytes)
    → Type 0
IsCachedSound sha1 services r cached =
    (id : ObjectId) (b : Bytes)
    → IsId id
    → cached (obj_key_memcache services r id) ≡ some b
    → (obj : Object) × IsNamed sha1 obj id × (marshal_binary obj ≡ ok b)

pub record IsSound {K W E : Type 0} (sha1 : Bytes → ObjectId) (services : Services K W E)
    (view : View K W) (r : Repo K) (w : W) : Type 0 where
  pub stored : IsStoredSound sha1 services r (view.stored w)
  pub cached : IsCachedSound sha1 services r (view.cached w)

pub append_cancel : (xs ys zs : Bytes) → xs ++ ys ≡ xs ++ zs → ys ≡ zs
append_cancel [] ys zs e = e
append_cancel (x ∷ xs) ys zs e = append_cancel xs ys zs (ap (drop 1) e)

pub id_string_injective : (a b : ObjectId) → IsId a → IsId b → id_string a ≡ id_string b → a ≡ b
id_string_injective a b ha hb e =
    let same : some a ≡ some b =
      sym (must_decode_id-id_string a ha) ∙ ap must_decode_id e ∙ must_decode_id-id_string b hb in
    cc

pub type_string_injective : (t u : ℕ) → IsType t → IsType u → type_string t ≡ type_string u → t ≡ u
type_string_injective t u ht hu e =
    let same : some t ≡ some u =
      sym (must_decode_type-type_string t ht)
      ∙ ap must_decode_type e
      ∙ must_decode_type-type_string u hu in
    cc

module _ {K W E : Type 0} (sha1 : Bytes → ObjectId) (services : Services K W E) (view : View K W)
    (r : Repo K) where
  pub Reads-IsSound :
      {w w' : W}
      → Reads view w w'
      → IsSound sha1 services view r w
      → IsSound sha1 services view r w'
  Reads-IsSound h v = record {
    stored = λ t id ps ht hid e. v.stored t id ps ht hid (sym (h.stored _) ∙ e);
    cached = λ id b hid e. v.cached id b hid (h.cached _ b e);
  }

  pub Removes-IsSound :
      {w w' : W}
      → Removes view w w'
      → IsSound sha1 services view r w
      → IsSound sha1 services view r w'
  Removes-IsSound h v = record {
    stored = λ t id ps ht hid e. v.stored t id ps ht hid (h.stored _ ps e);
    cached = λ id b hid e. v.cached id b hid (h.cached _ b e);
  }

  -- An item that is remembered for an object is its bytes; one for a key is for no object.
  pub Remembers-IsSound :
      (s c : Bytes) {w w' : W}
      → Remembers view s c w w'
      → IsSound sha1 services view r w
      → ((id : ObjectId)
          → IsId id
          → obj_key_memcache services r id ≡ s
          → (obj : Object) × IsNamed sha1 obj id × (marshal_binary obj ≡ ok c))
      → IsSound sha1 services view r w'
  Remembers-IsSound s c h v new = record {
    stored = λ t id ps ht hid e. v.stored t id ps ht hid (sym (h.stored _) ∙ e);
    cached = λ id b hid e. elim (h.cached _ b e) [
      | inl (at, same) ↦
          let (obj, named, bytes) = new id hid at in (obj, named, bytes ∙ ap ok (sym same))
      | inr old ↦ v.cached id b hid old
    ];
  }

  pub Stores-IsSound :
      (key : Option K) (qs : List Property) {w w' : W}
      → Stores view key qs w w'
      → IsSound sha1 services view r w
      → ((t : ℕ) (id : ObjectId)
          → IsType t
          → IsId id
          → key ≡ some (obj_key services r t id)
          → (obj : Object) × IsNamed sha1 obj id × (qs ≡ save obj) × (type_of obj ≡ t))
      → IsSound sha1 services view r w'
  Stores-IsSound key qs h v new = record {
    stored = λ t id ps ht hid e. elim (h.stored _ ps e) [
      | inl (at, same) ↦
          let (obj, named, saved, kind) = new t id ht hid at in (obj, named, same ∙ saved, kind)
      | inr old ↦ v.stored t id ps ht hid old
    ];
    cached = λ id b hid e. v.cached id b hid (h.cached _ b e);
  }

-- The key of an object is that of no other type or ID, and no ref's.
pub obj_key_injective :
    {K W E : Type 0} (services : Services K W E) (view : View K W)
    → IsFaithful services view
    → (r : Repo K) (t u : ℕ) (id j : ObjectId) → IsType t
    → IsType u
    → IsId id
    → IsId j
    → obj_key services r t id ≡ obj_key services r u j
    → (t ≡ u) × (id ≡ j)
unfolding obj_key
obj_key_injective services view laws r t u id j ht hu hid hj e =
    let (kinds, names, parents) = laws.keys_differ _ _ _ _ _ _ e in
    (
      type_string_injective t u ht hu (append_cancel r.prefix _ _ kinds),
      id_string_injective id j hid hj names,
    )

pub obj_key-ne-ref :
    {K W E : Type 0} (services : Services K W E) (view : View K W)
    → IsFaithful services view
    → (r : Repo K) (name : Bytes) (t : ℕ) (id : ObjectId)
    → services.new_key (r.prefix ++ codes "ref") name (some r.root) ≢ obj_key services r t id
unfolding obj_key
obj_key-ne-ref services view laws r name t id e =
    let (kinds, names, parents) = laws.keys_differ _ _ _ _ _ _ e in absurd cc
