-- ===== src/Repository/AppEngine/Reliable/Objects.antt =====
-- repository/appengine/objects.go: getObject, GetObject and PutObject of an ID whose object is known.
use go_git_scm.Base.{
  ℕ, zero, suc, ◌+◌, ◌<◌, ◌≤◌, ◌^◌, ◌++◌, ◌∷◌, Option, none, some, Result, ok, err, ◌≡◌, ◌≢◌, inl,
  inr, sym, ap, ◌∙◌, refl, length, Bool-cases, ◌==◌, ==_iff, arith, subst,
}
use go_git_scm.Object.{Bytes, ObjectId, Object, commit, tree, blob, tag, type_of}
use go_git_scm.Object.Marshal.{marshal_binary, marshal_binary-eq-ok, header_of, body_of}
use go_git_scm.Object.Properties.Kinds.{save, load}
use go_git_scm.Object.Properties.Loads.{load-save}
use go_git_scm.Object.Unmarshal.{unmarshal}
use go_git_scm.Object.Unmarshal.Lines.{IsType}
use go_git_scm.Object.Unmarshal.Binary.{IsReadable, Same, Restores, unmarshal-marshal_binary}
use go_git_scm.Repository.{object_not_exist}
use go_git_scm.Repository.AppEngine.{
  Error, refused, is_cache_miss, is_no_such_entity, Services, Repo,
}
use go_git_scm.Repository.AppEngine.Objects.{
  obj_key, obj_key_memcache, try_types, get_object_stored, get_uncached, get_object,
}
use go_git_scm.Repository.AppEngine.Laws.{View, Reads, IsFaithful}
use go_git_scm.Repository.AppEngine.Sound.Objects.{IsType-of_bounds}
use go_git_scm.Repository.AppEngine.Reliable.{IsReliable, Touches}
use go_git_scm.Repository.AppEngine.Reliable.Entities.{Reads-Touches, trans-Touches}

-- The object of an ID is stored under its type and no other, and memcache has nothing else for it.
pub record HoldsObject {K W E : Type 0} (services : Services K W E) (view : View K W) (r : Repo K)
    (id : ObjectId) (value : Option Object) (w : W) : Type 0 where
  pub absent : (t : ℕ) → IsType t → value ≡ none → view.stored w (obj_key services r t id) ≡ none
  pub present :
      (obj : Object)
      → value ≡ some obj
      → view.stored w (obj_key services r (type_of obj) id) ≡ some (save obj)
  pub only :
      (t : ℕ) (obj : Object)
      → IsType t
      → value ≡ some obj
      → t ≢ type_of obj
      → view.stored w (obj_key services r t id) ≡ none
  pub coherent :
      (b : Bytes)
      → view.cached w (obj_key_memcache services r id) ≡ some b
      → (obj : Object) × (value ≡ some obj) × (marshal_binary obj ≡ ok b)
  pub readable : (obj : Object) → value ≡ some obj → IsReadable obj
  pub small : (obj : Object) → value ≡ some obj → length (body_of obj) < 2 ^ 63

-- What GetObject returns for an object that is there, up to the order of a tree's entries, or is not.
abbrev pub Answers : {E : Type 0} → Option Object → Result (Error E) Object → Type 0
Answers none result = result ≡ err (refused object_not_exist)
Answers (some obj) result = (obj' : Object) × (result ≡ ok obj') × Same obj obj'

type_of-le : (obj : Object) → type_of obj ≤ 4
unfolding type_of
type_of-le (commit c) = omega arith
type_of-le (tree t) = omega arith
type_of-le (blob b) = omega arith
type_of-le (tag g) = omega arith

type_of-ge : (obj : Object) → 1 ≤ type_of obj
unfolding type_of
type_of-ge (commit c) = omega arith
type_of-ge (tree t) = omega arith
type_of-ge (blob b) = omega arith
type_of-ge (tag g) = omega arith

unmarshal_same :
    (obj : Object) (b : Bytes)
    → IsReadable obj
    → length (body_of obj) < 2 ^ 63
    → marshal_binary obj ≡ ok b
    → (obj' : Object) × (unmarshal b ≡ some obj') × Same obj obj'
unfolding Restores
unmarshal_same obj b readable small bytes =
    let (c, marshalled, restored) = unmarshal-marshal_binary obj readable small in
    let (obj', loaded, same, kind, body) = restored in
    let at : c ≡ b = let both : ok c ≡ ok b = sym marshalled ∙ bytes in cc in
    (obj', ap unmarshal (sym at) ∙ loaded, same)

module _ {K W E : Type 0} (services : Services K W E) (view : View K W)
    (laws : IsFaithful services view) (sure : IsReliable services view) (r : Repo K) where
  abbrev pub IdTouches : K → ObjectId → W → W → Type 0
  IdTouches k id = Touches view k (λ s. s ≡ obj_key_memcache services r id)

  pub Reads-HoldsObject :
      (id : ObjectId) (value : Option Object) {w w' : W}
      → Reads view w w'
      → HoldsObject services view r id value w
      → HoldsObject services view r id value w'
  Reads-HoldsObject id value f h = record {
    absent = λ t ht e. f.stored _ ∙ h.absent t ht e;
    present = λ obj e. f.stored _ ∙ h.present obj e;
    only = λ t obj ht e other. f.stored _ ∙ h.only t obj ht e other;
    coherent = λ b e. h.coherent b (f.cached _ b e);
    readable = h.readable;
    small = h.small;
  }

  trans-Reads : {u v w : W} → Reads view u v → Reads view v w → Reads view u w
  trans-Reads f g = record {
    stored = λ k. g.stored k ∙ f.stored k;
    cached = λ s b e. f.cached s b (g.cached s b e);
  }

  -- Of an object that is there the loop finds the type, if it has not passed it.
  try_types-present :
      (w : W) (id : ObjectId) (obj : Object) (t left : ℕ)
      → HoldsObject services view r id (some obj) w
      → 1 ≤ t
      → t + left ≡ 5
      → t ≤ type_of obj
      → Reads view w (try_types services r w id t left).0
        × ((try_types services r w id t left).1 ≡ ok obj)
  unfolding try_types is_no_such_entity
  try_types-present w id obj t zero h low sum reach =
      let bound = type_of-le obj in absurd (omega arith)
  try_types-present w id obj t (suc left) h low sum reach =
      let key = obj_key services r t id in
      let w' = (services.fetch w (some key)).0 in
      let f = laws.fetch w (some key) in
      elim (Bool-cases (t == type_of obj)) [
        | inl here ↦
            let is_t : t ≡ type_of obj = (==_iff t (type_of obj)).0 here in
            let found = sure.fetch_some w key (save obj) (
              subst (λ u. view.stored w (obj_key services r u id) ≡ some (save obj)) (sym is_t)
                (h.present obj refl)) in
            let loaded : load t (save obj) ≡ some obj =
              ap (λ u. load u (save obj)) is_t ∙ load-save obj (h.readable obj refl) in
            rw (found, try_types, loaded) (f, refl)
        | inr other ↦
            let differ : t ≢ type_of obj =
              λ e. let same = (==_iff t (type_of obj)).1 e in absurd cc in
            let above : t + 1 ≤ type_of obj = ground arith in
            let gone =
              sure.fetch_none w key
                (h.only t obj (IsType-of_bounds t low (omega arith)) refl differ) in
            let (g, found) =
              try_types-present w' id obj (t + 1) left (Reads-HoldsObject id (some obj) f h)
                (omega arith) (omega arith) above in
            rw (gone, try_types) (trans-Reads f g, found)
      ]

  try_types-absent :
      (w : W) (id : ObjectId) (t left : ℕ)
      → HoldsObject services view r id none w
      → 1 ≤ t
      → t + left ≡ 5
      → Reads view w (try_types services r w id t left).0
        × ((try_types services r w id t left).1 ≡ err (refused object_not_exist))
  unfolding try_types is_no_such_entity
  try_types-absent w id t zero h low sum =
      (record { stored = λ k. refl; cached = λ s b e. e }, refl)
  try_types-absent w id t (suc left) h low sum =
      let key = obj_key services r t id in
      let w' = (services.fetch w (some key)).0 in
      let f = laws.fetch w (some key) in
      let gone = sure.fetch_none w key (h.absent t (IsType-of_bounds t low (omega arith)) refl) in
      let (g, found) =
        try_types-absent w' id (t + 1) left (Reads-HoldsObject id none f h) (omega arith)
          (omega arith) in
      rw (gone, try_types) (trans-Reads f g, found)

  -- The item of an object that is there is remembered.
  remember-HoldsObject :
      (w : W) (id : ObjectId) (obj : Object) (b : Bytes)
      → marshal_binary obj ≡ ok b
      → HoldsObject services view r id (some obj) w
      → (k : K)
      → let w' = services.remember w (obj_key_memcache services r id) b in
        HoldsObject services view r id (some obj) w' × IdTouches k id w w'
  remember-HoldsObject w id obj b bytes h k =
      let s = obj_key_memcache services r id in
      let f = laws.remember w s b in
      (
        record {
          absent = λ t ht e. f.stored _ ∙ h.absent t ht e;
          present = λ o e. f.stored _ ∙ h.present o e;
          only = λ t o ht e other. f.stored _ ∙ h.only t o ht e other;
          coherent = λ c e. (obj, refl, bytes ∙ ap ok (sym (sure.remember w s b c e)));
          readable = h.readable;
          small = h.small;
        },
        record {
          stored = λ j other. f.stored j;
          cached = λ j c e. elim (f.cached j c e) [ inl (at, is_b) ↦ inl at | inr old ↦ inr old ];
        },
      )

  Same-refl : (obj : Object) → Same obj obj
  unfolding Same
  Same-refl (commit c) = refl
  Same-refl (tree t) = λ n. refl
  Same-refl (blob b) = refl
  Same-refl (tag g) = refl

  get_uncached_lem :
      (w : W) (id : ObjectId) (value : Option Object) (k : K)
      → HoldsObject services view r id value w
      → let p = get_uncached services r w id in
        Answers value p.1 × HoldsObject services view r id value p.0 × IdTouches k id w p.0
  unfolding get_uncached get_object_stored
  get_uncached_lem w id none k h =
      let (f, gone) = try_types-absent w id 1 4 h (omega arith) (omega arith) in
      rw (gone, get_uncached)
        (refl, Reads-HoldsObject id none f h, Reads-Touches services view laws sure r k f)
  get_uncached_lem w id (some obj) k h =
      let (f, found) =
        try_types-present w id obj 1 4 h (omega arith) (omega arith) (type_of-ge obj) in
      let w' = (try_types services r w id 1 4).0 in
      let b = header_of obj ++ (0 ∷ body_of obj) in
      let (held, touched) =
        remember-HoldsObject w' id obj b (marshal_binary-eq-ok obj)
          (Reads-HoldsObject id (some obj) f h) k in
      rw (found, get_uncached, marshal_binary-eq-ok obj)
        (
          (obj, refl, Same-refl obj),
          held,
          trans-Touches services view laws sure r k (Reads-Touches services view laws sure r k f)
              touched,
        )

  -- GetObject returns the object of the ID, up to the order of a tree's entries, cached or not, and leaves it
  -- and everything else as it was.
  pub get_object_lem :
      (w : W) (id : ObjectId) (value : Option Object) (k : K)
      → HoldsObject services view r id value w
      → let p = get_object services r w id in
        Answers value p.1 × HoldsObject services view r id value p.0 × IdTouches k id w p.0
  unfolding get_object is_cache_miss
  get_object_lem w id value k h =
      let s = obj_key_memcache services r id in
      let w' = (services.recall w s).0 in
      let f = laws.recall w s in
      let h' = Reads-HoldsObject id value f h in
      elim (sure.recall w s) [
        | inl miss ↦
            let (answered, held, touched) = get_uncached_lem w' id value k h' in
            rw (miss, get_object)
              (
                answered,
                held,
                trans-Touches services view laws sure r k
                    (Reads-Touches services view laws sure r k f) touched,
              )
        | inr (b, there) ↦
            let (obj, is_obj, bytes) = h.coherent b (laws.recalled w s b there) in
            let (obj', loaded, same) =
              unmarshal_same obj b (h.readable obj is_obj) (h.small obj is_obj) bytes in
            rw (there, get_object, loaded)
              (
                subst (λ v. Answers {E = E} v (ok obj')) (sym is_obj) (obj', refl, same),
                h',
                Reads-Touches services view laws sure r k f,
              )
      ]
