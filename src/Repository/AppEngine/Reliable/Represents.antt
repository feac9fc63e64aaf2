-- ===== src/Repository/AppEngine/Reliable/Represents.antt =====
-- repository/appengine: the services hold the refs, the HEAD and the objects of a repository in memory.
use go_git_scm.Base.{
  ℕ, ◌++◌, Option, some, ◌≡◌, ◌≢◌, inl, inr, sym, ap, ◌∙◌, refl, subst, codes, Bool-cases, bytes_eq,
  bytes_eq_iff, if◌then◌else◌,
}
use go_git_scm.Base.Map.{lookup}
use go_git_scm.Object.{Bytes, ObjectId, Object, type_of, zero_id}
use go_git_scm.Object.Print.{id_string}
use go_git_scm.Object.Scan.Text.{IsId}
use go_git_scm.Object.Unmarshal.Lines.{IsType}
use go_git_scm.Object.Unmarshal.Binary.{type_of-IsType}
use go_git_scm.Repository.Mem
use go_git_scm.Repository.AppEngine.{Services, Stored, Repo}
use go_git_scm.Repository.AppEngine.Heads.{Gob, stored_head}
use go_git_scm.Repository.AppEngine.Refs.{stored_id}
use go_git_scm.Repository.AppEngine.Objects.{obj_key, obj_key_memcache}
use go_git_scm.Repository.AppEngine.Laws.{View, IsFaithful}
use go_git_scm.Repository.AppEngine.Sound.{
  append_cancel, obj_key_injective, obj_key-ne-ref, id_string_injective,
}
use go_git_scm.Repository.AppEngine.Reliable.{IsReliable, Holds}
use go_git_scm.Repository.AppEngine.Reliable.Entities.{KeyTouches, Touches-Holds}
use go_git_scm.Repository.AppEngine.Reliable.Objects.{HoldsObject, IdTouches}

-- The key of a ref.
abbrev pub ref_at : {K W E : Type 0} → Services K W E → Repo K → Bytes → K
ref_at services r name = services.new_key (r.prefix ++ codes "ref") name (some r.root)

-- The root key is the key of no object, and is not below itself.
pub record IsRoot {K W E : Type 0} (services : Services K W E) (r : Repo K) : Type 0 where
  pub no_object : (t : ℕ) (id : ObjectId) → r.root ≢ obj_key services r t id
  pub no_ref : (name : Bytes) → r.root ≢ ref_at services r name

pub record Represents {K W E : Type 0} (services : Services K W E) (view : View K W)
    (heads : Gob Bytes) (ids : Gob ObjectId) (r : Repo K) (w : W) (m : Mem.Repo) : Type 0 where
  pub refs :
      (name : Bytes)
      → Holds services view r (stored_id ids) (ref_at services r name) (lookup name m.refs) w
  pub are_ids :
      (name : Bytes) (id : ObjectId) → lookup name m.refs ≡ some id → IsId id × (id ≢ zero_id)
  pub head : Holds services view r (stored_head heads) r.root (some m.head) w
  pub objects : (id : ObjectId) → IsId id → HoldsObject services view r id (lookup id m.objects) w

module _ {K W E : Type 0} (services : Services K W E) (view : View K W)
    (laws : IsFaithful services view) (sure : IsReliable services view) (heads : Gob Bytes)
    (ids : Gob ObjectId) (r : Repo K) (rooted : IsRoot services r) where
  -- What is done to the key of a ref or the root leaves the objects.
  object_stays :
      (k : K) (id : ObjectId) (value : Option Object) {w w' : W}
      → KeyTouches services view laws sure r k w w'
      → ((t : ℕ) → k ≢ obj_key services r t id)
      → IsId id
      → HoldsObject services view r id value w
      → HoldsObject services view r id value w'
  unfolding obj_key_memcache
  object_stays k id value f other hid h = record {
    absent = λ t ht e. f.stored _ (other t) ∙ h.absent t ht e;
    present = λ obj e. f.stored _ (other (type_of obj)) ∙ h.present obj e;
    only = λ t obj ht e differs. f.stored _ (other t) ∙ h.only t obj ht e differs;
    coherent = λ b e. elim (f.cached _ b e) [
      | inr old ↦ h.coherent b old
      | inl (c, here, at) ↦ absurd (
          laws.encoded (some k) id hid
            (here ∙ ap some (sym (append_cancel r.prefix (id_string id) c at))))
    ];
    readable = h.readable;
    small = h.small;
  }

  -- What is done to an object leaves the others.
  other_object_stays :
      (t : ℕ) (id j : ObjectId) (value : Option Object) {w w' : W}
      → IdTouches services view laws sure r (obj_key services r t id) id w w'
      → IsType t
      → IsId id
      → IsId j
      → id ≢ j
      → HoldsObject services view r j value w
      → HoldsObject services view r j value w'
  unfolding obj_key_memcache
  other_object_stays t id j value f ht hid hj other h =
      let apart : (u : ℕ) → IsType u → obj_key services r t id ≢ obj_key services r u j =
        λ u hu e. other (obj_key_injective services view laws r t u id j ht hu hid hj e).1 in
      record {
        absent = λ u hu e. f.stored _ (apart u hu) ∙ h.absent u hu e;
        present = λ obj e. f.stored _ (apart (type_of obj) (type_of-IsType obj)) ∙ h.present obj e;
        only = λ u obj hu e differs. f.stored _ (apart u hu) ∙ h.only u obj hu e differs;
        coherent = λ b e. elim (f.cached _ b e) [
          | inr old ↦ h.coherent b old
          | inl at ↦
              absurd (other (sym (id_string_injective j id hj hid (append_cancel r.prefix _ _ at))))
        ];
        readable = h.readable;
        small = h.small;
      }

  -- What is done to an object leaves the refs and the HEAD.
  key_stays :
      {A : Type 0} (kept : Stored E A) (t : ℕ) (id : ObjectId) (k : K) (value : Option A) {w w' : W}
      → IdTouches services view laws sure r (obj_key services r t id) id w w'
      → IsId id
      → obj_key services r t id ≢ k
      → Holds services view r kept k value w
      → Holds services view r kept k value w'
  unfolding obj_key_memcache
  key_stays kept t id k value f hid other h = record {
    absent = λ e. f.stored k other ∙ h.absent e;
    present = λ a e. f.stored k other ∙ h.present a e;
    coherent = λ s b (c, here, at) e. elim (f.cached s b e) [
      | inr old ↦ h.coherent s b (c, here, at) old
      | inl at' ↦ absurd (
          laws.encoded (some k) id hid
            (here ∙ ap some (append_cancel r.prefix c (id_string id) (sym at ∙ at'))))
    ];
  }

  ref_at_injective : (name j : Bytes) → ref_at services r name ≡ ref_at services r j → name ≡ j
  ref_at_injective name j e = let (kinds, names, parents) = laws.keys_differ _ _ _ _ _ _ e in names

  -- A ref is changed, and nothing else.
  pub Represents-ref :
      (w w' : W) (m m' : Mem.Repo) (name : Bytes) (value : Option ObjectId)
      → Represents services view heads ids r w m
      → KeyTouches services view laws sure r (ref_at services r name) w w'
      → Holds services view r (stored_id ids) (ref_at services r name) value w'
      → ((id : ObjectId) → value ≡ some id → IsId id × (id ≢ zero_id))
      → m'.head ≡ m.head
      → m'.objects ≡ m.objects
      → ((j : Bytes) → lookup j m'.refs ≡ (if bytes_eq name j then value else lookup j m.refs))
      → Represents services view heads ids r w' m'
  Represents-ref w w' m m' name value h f new are same_head same_objects changed =
      let k = ref_at services r name in
      record {
        refs = λ j. elim (Bool-cases (bytes_eq name j)) [
          | inl e ↦
              let same = (bytes_eq_iff name j).0 e in
              let is_value : lookup j m'.refs ≡ value = rw (changed j, e) refl in
              subst (λ v. Holds services view r (stored_id ids) (ref_at services r j) v w')
                (sym is_value)
                (subst (λ n. Holds services view r (stored_id ids) (ref_at services r n) value w')
                  same new)
          | inr e ↦
              let is_old : lookup j m'.refs ≡ lookup j m.refs = rw (changed j, e) refl in
              subst (λ v. Holds services view r (stored_id ids) (ref_at services r j) v w')
                (sym is_old)
                (Touches-Holds services view laws sure r (stored_id ids) (ref_at services r j) k
                  (lookup j m.refs) f
                  (λ at.
                    let same = (bytes_eq_iff name j).1 (ref_at_injective name j at) in absurd cc)
                  (h.refs j))
        ];
        are_ids = λ j id at. elim (Bool-cases (bytes_eq name j)) [
          | inl e ↦ are id (sym (rw (changed j, e) refl) ∙ at)
          | inr e ↦ h.are_ids j id (sym (rw (changed j, e) refl) ∙ at)
        ];
        head =
            subst (λ v. Holds services view r (stored_head heads) r.root (some v) w')
              (sym same_head)
              (Touches-Holds services view laws sure r (stored_head heads) r.root k (some m.head) f
                (λ at. rooted.no_ref name (sym at)) h.head);
        objects = λ id hid.
            subst (λ o. HoldsObject services view r id (lookup id o) w') (sym same_objects)
              (object_stays k id (lookup id m.objects) f
                (λ t. obj_key-ne-ref services view laws r name t id) hid (h.objects id hid));
      }

  -- The HEAD is changed, and nothing else.
  pub Represents-head :
      (w w' : W) (m : Mem.Repo) (name : Bytes)
      → Represents services view heads ids r w m
      → KeyTouches services view laws sure r r.root w w'
      → Holds services view r (stored_head heads) r.root (some name) w'
      → Represents services view heads ids r w' (record m { head = name })
  Represents-head w w' m name h f new = record {
    refs = λ j.
        Touches-Holds services view laws sure r (stored_id ids) (ref_at services r j) r.root
          (lookup j m.refs) f (rooted.no_ref j) (h.refs j);
    are_ids = h.are_ids;
    head = new;
    objects = λ id hid.
        object_stays r.root id (lookup id m.objects) f (λ t. rooted.no_object t id) hid
          (h.objects id hid);
  }

  -- An object is changed, and nothing else.
  pub Represents-object :
      (w w' : W) (m m' : Mem.Repo) (t : ℕ) (id : ObjectId) (value : Option Object)
      → Represents services view heads ids r w m
      → IsType t
      → IsId id
      → IdTouches services view laws sure r (obj_key services r t id) id w w'
      → HoldsObject services view r id value w'
      → m'.head ≡ m.head
      → m'.refs ≡ m.refs
      → ((j : ObjectId)
          → lookup j m'.objects ≡ (if bytes_eq id j then value else lookup j m.objects))
      → Represents services view heads ids r w' m'
  Represents-object w w' m m' t id value h ht hid f new same_head same_refs changed = record {
    refs = λ j.
        subst (λ o. Holds services view r (stored_id ids) (ref_at services r j) (lookup j o) w')
          (sym same_refs)
          (key_stays (stored_id ids) t id (ref_at services r j) (lookup j m.refs) f hid
            (λ e. obj_key-ne-ref services view laws r j t id (sym e)) (h.refs j));
    are_ids = λ j i at. h.are_ids j i (ap (lookup j) (sym same_refs) ∙ at);
    head =
        subst (λ v. Holds services view r (stored_head heads) r.root (some v) w') (sym same_head)
          (key_stays (stored_head heads) t id r.root (some m.head) f hid
            (λ e. rooted.no_object t id (sym e)) h.head);
    objects = λ j hj. elim (Bool-cases (bytes_eq id j)) [
      | inl e ↦
          let is_value : lookup j m'.objects ≡ value = rw (changed j, e) refl in
          subst (λ v. HoldsObject services view r j v w') (sym is_value)
            (subst (λ i. HoldsObject services view r i value w') ((bytes_eq_iff id j).0 e) new)
      | inr e ↦
          let is_old : lookup j m'.objects ≡ lookup j m.objects = rw (changed j, e) refl in
          subst (λ v. HoldsObject services view r j v w') (sym is_old)
            (other_object_stays t id j (lookup j m.objects) f ht hid hj
              (λ at. let same = (bytes_eq_iff id j).1 at in absurd cc) (h.objects j hj))
    ];
  }

  -- The entities of one state, and at most the items of another.
  pub Represents-mixed :
      (u v w : W) (m : Mem.Repo)
      → Represents services view heads ids r u m
      → Represents services view heads ids r v m
      → ((k : K) → view.stored w k ≡ view.stored u k)
      → ((s b : Bytes) → view.cached w s ≡ some b → view.cached v s ≡ some b)
      → Represents services view heads ids r w m
  Represents-mixed u v w m a b stored cached = record {
    refs = λ j. record {
      absent = λ e. stored _ ∙ (a.refs j).absent e;
      present = λ i e. stored _ ∙ (a.refs j).present i e;
      coherent = λ s c at e. (b.refs j).coherent s c at (cached s c e);
    };
    are_ids = a.are_ids;
    head = record {
      absent = λ e. stored _ ∙ a.head.absent e;
      present = λ i e. stored _ ∙ a.head.present i e;
      coherent = λ s c at e. b.head.coherent s c at (cached s c e);
    };
    objects = λ id hid.
        let x = a.objects id hid in
        record {
          absent = λ t ht e. stored _ ∙ x.absent t ht e;
          present = λ obj e. stored _ ∙ x.present obj e;
          only = λ t obj ht e other. stored _ ∙ x.only t obj ht e other;
          coherent = λ c e. (b.objects id hid).coherent c (cached _ c e);
          readable = x.readable;
          small = x.small;
        };
  }
