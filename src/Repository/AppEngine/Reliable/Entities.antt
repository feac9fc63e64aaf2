-- ===== src/Repository/AppEngine/Reliable/Entities.antt =====
-- repository/appengine/appengine.go: get, put and del of a key whose entity is known.
use go_git_scm.Base.{
  ◌++◌, Option, none, some, Result, ok, err, ◌≡◌, ◌≢◌, inl, inr, sym, ap, ◌∙◌, refl,
}
use go_git_scm.Object.{Bytes}
use go_git_scm.Repository.AppEngine.{
  Error, no_such_entity, is_cache_miss, Services, Stored, Repo, memkey, load_stored, get_stored,
  get_at, get, put, del,
}
use go_git_scm.Repository.AppEngine.Laws.{View, Reads, IsFaithful}
use go_git_scm.Repository.AppEngine.Sound.{append_cancel}
use go_git_scm.Repository.AppEngine.Reliable.{IsReliable, Touches, Item, Holds}

-- What datastore.Get of a value returns.
unfoldable pub found_of : {E A : Type 0} → Option A → Result (Error E) A
found_of none = err no_such_entity
found_of (some a) = ok a

-- The value that the datastore and memcache give back.
abbrev pub Loads : {E A : Type 0} → Stored E A → Option A → Type 0
Loads kept value =
    (a : _)
    → value ≡ some a
    → (kept.load_entity (kept.save_entity a) ≡ ok a) × (kept.from_gob (kept.gob a) ≡ some a)

module _ {K W E : Type 0} (services : Services K W E) (view : View K W)
    (laws : IsFaithful services view) (sure : IsReliable services view) (r : Repo K) where
  abbrev pub KeyTouches : K → W → W → Type 0
  KeyTouches k = Touches view k (Item services r k)

  pub Reads-Touches :
      {w w' : W} {items : Bytes → Type 0} (k : K) → Reads view w w' → Touches view k items w w'
  Reads-Touches k h = record {
    stored = λ j other. h.stored j;
    cached = λ s b e. inr (h.cached s b e);
  }

  pub trans-Touches :
      {u v w : W} {items : Bytes → Type 0} (k : K)
      → Touches view k items u v
      → Touches view k items v w
      → Touches view k items u w
  trans-Touches k f g = record {
    stored = λ j other. g.stored j other ∙ f.stored j other;
    cached = λ s b e. elim (g.cached s b e) [ inl at ↦ inl at | inr old ↦ f.cached s b old ];
  }

  pub Reads-Holds :
      {A : Type 0} (kept : Stored E A) (k : K) (value : Option A) {w w' : W}
      → Reads view w w'
      → Holds services view r kept k value w
      → Holds services view r kept k value w'
  Reads-Holds kept k value h v = record {
    absent = λ e. h.stored k ∙ v.absent e;
    present = λ a e. h.stored k ∙ v.present a e;
    coherent = λ s b at e. v.coherent s b at (h.cached s b e);
  }

  -- What is done to one key leaves the others.
  pub Touches-Holds :
      {A : Type 0} (kept : Stored E A) (j k : K) (value : Option A) {w w' : W}
      → KeyTouches k w w'
      → k ≢ j
      → Holds services view r kept j value w
      → Holds services view r kept j value w'
  Touches-Holds kept j k value h other v = record {
    absent = λ e. h.stored j other ∙ v.absent e;
    present = λ a e. h.stored j other ∙ v.present a e;
    coherent = λ s b (c, here, at) e. elim (h.cached s b e) [
      | inr old ↦ v.coherent s b (c, here, at) old
      | inl (d, there, at') ↦
          let same : c ≡ d = append_cancel r.prefix c d (sym at ∙ at') in
          absurd (other (sure.encode_injective k j d there (here ∙ ap some same)))
    ];
  }

  remember_key :
      (w : W) (k : K) (c b : Bytes)
      → services.encode (some k) ≡ some c
      → KeyTouches k w (services.remember w (r.prefix ++ c) b)
  remember_key w k c b e =
      let h = laws.remember w (r.prefix ++ c) b in
      record {
        stored = λ j other. h.stored j;
        cached = λ s d at. elim (h.cached s d at) [
          | inl (same, is_b) ↦ inl (c, e, same)
          | inr old ↦ inr old
        ];
      }

  -- A key holds a value that is stored and then remembered.
  remember_value :
      {A : Type 0} (kept : Stored E A) (w : W) (k : K) (a : A) (c : Bytes)
      → services.encode (some k) ≡ some c
      → view.stored w k ≡ some (kept.save_entity a)
      → Holds services view r kept k (some a) (services.remember w (r.prefix ++ c) (kept.gob a))
  remember_value kept w k a c e there =
      let key = r.prefix ++ c in
      let h = laws.remember w key (kept.gob a) in
      record {
        absent = λ no_value. absurd cc;
        present = λ a' same. h.stored k ∙ there ∙ ap (λ x. some (kept.save_entity x)) cc;
        coherent = λ s b (d, here, at) found.
            let same : d ≡ c = cc in
            let at_key : s ≡ key = at ∙ ap (λ x. r.prefix ++ x) same in
            (a, refl, sure.remember w key (kept.gob a) b (ap (view.cached _) (sym at_key) ∙ found));
      }

  -- What get, put and del return and leave for a key.
  pub record Left {A R : Type 0} (kept : Stored E A) (k : K) (value : Option A) (result : R) (w : W)
      (p : W × R) : Type 0 where
    pub touches : KeyTouches k w p.0
    pub holds : Holds services view r kept k value p.0
    pub returns : p.1 ≡ result

  memkey_lem :
      (k : K) (c : Bytes)
      → services.encode (some k) ≡ some c
      → memkey services r (some k) ≡ some (r.prefix ++ c)
  unfolding memkey
  memkey_lem k c e = rw (e, memkey) refl

  get_stored_lem :
      {A : Type 0} (kept : Stored E A) (w : W) (k : K) (value : Option A) (c : Bytes)
      → Loads kept value
      → services.encode (some k) ≡ some c
      → Holds services view r kept k value w
      → Left kept k value (found_of value) w (get_stored services kept r w (some k) (r.prefix ++ c))
  unfolding get_stored load_stored found_of
  get_stored_lem kept w k none c loads e h =
      let f = laws.fetch w (some k) in
      rw (sure.fetch_none w k (h.absent refl), get_stored, load_stored)
        (record {
          touches = Reads-Touches k f;
          holds = Reads-Holds kept k none f h;
          returns = refl;
        })
  get_stored_lem kept w k (some a) c loads e h =
      let f = laws.fetch w (some k) in
      let w' = (services.fetch w (some k)).0 in
      rw
        (
          sure.fetch_some w k (kept.save_entity a) (h.present a refl),
          get_stored,
          load_stored,
          (loads a refl).0,
        )
        (record {
          touches = trans-Touches k (Reads-Touches k f) (remember_key w' k c (kept.gob a) e);
          holds = remember_value kept w' k a c e (f.stored k ∙ h.present a refl);
          returns = refl;
        })

  -- get returns the value of the key, and leaves it and every other key with its value.
  pub get_lem :
      {A : Type 0} (kept : Stored E A) (w : W) (k : K) (value : Option A)
      → Loads kept value
      → Holds services view r kept k value w
      → Left kept k value (found_of value) w (get services kept r w (some k))
  unfolding get get_at found_of is_cache_miss
  get_lem kept w k value loads h =
      let (c, e) = sure.encodes k in
      let s = r.prefix ++ c in
      let f = laws.recall w s in
      let w' = (services.recall w s).0 in
      let h' = Reads-Holds kept k value f h in
      elim (sure.recall w s) [
        | inl miss ↦
            let l = get_stored_lem kept w' k value c loads e h' in
            rw (memkey_lem k c e, get, miss, get_at)
              (record {
                touches = trans-Touches k (Reads-Touches k f) l.touches;
                holds = l.holds;
                returns = l.returns;
              })
        | inr (b, there) ↦
            let (a, is_a, is_b) = h.coherent s b (c, e, refl) (laws.recalled w s b there) in
            rw (memkey_lem k c e, get, there, get_at, ap kept.from_gob is_b ∙ (loads a is_a).1)
              (record { touches = Reads-Touches k f; holds = h'; returns = sym (ap found_of is_a) })
      ]

  -- put returns no error, and leaves the key with the value.
  pub put_lem :
      {A : Type 0} (kept : Stored E A) (w : W) (k : K) (a : A)
      → Left kept k (some a) none w (put services kept r w (some k) a)
  unfolding put
  put_lem kept w k a =
      let (c, e) = sure.encodes k in
      let (fine, here, others) = sure.store w k (kept.save_entity a) in
      let w' = (services.store w (some k) (kept.save_entity a)).0 in
      let stores : KeyTouches k w w' = record {
        stored = others;
        cached = λ s b at. inr ((laws.store w (some k) (kept.save_entity a)).cached s b at);
      } in
      rw (fine, put, memkey_lem k c e)
        (record {
          touches = trans-Touches k stores (remember_key w' k c (kept.gob a) e);
          holds = remember_value kept w' k a c e here;
          returns = refl;
        })

  -- del returns no error, and leaves the key with no value.
  pub del_lem :
      {A : Type 0} (kept : Stored E A) (w : W) (k : K)
      → Left kept k none none w (del services r w (some k))
  unfolding del
  del_lem kept w k =
      let (c, e) = sure.encodes k in
      let s = r.prefix ++ c in
      let w' = services.forget w s in
      let f = laws.forget w s in
      let g = laws.remove w' (some k) in
      let (fine, gone, others) = sure.remove w' k in
      rw (memkey_lem k c e, del)
        (record {
          touches =
              trans-Touches k (Reads-Touches k f)
                (record { stored = others; cached = λ j b at. inr (g.cached j b at) });
          holds = record {
            absent = λ no_value. gone;
            present = λ a at. absurd cc;
            coherent = λ j b (d, here, at) found.
                let same : j ≡ s = at ∙ ap (λ x. r.prefix ++ x) cc in
                absurd (sure.forget w s b (ap (view.cached w') (sym same) ∙ g.cached j b found));
          };
          returns = fine;
        })
