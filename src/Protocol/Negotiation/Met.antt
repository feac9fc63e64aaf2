-- ===== src/Protocol/Negotiation/Met.antt =====
-- protocol/upload-pack.go: what a round of the negotiation finds common.
use go_git_scm.Base.{
  ℕ, zero, suc, Bool, true, ◌||◌, List, [], ◌∷◌, ◌++◌, some, Result, ok, err, ◌≡◌, ◌⊎◌, inl, inr,
  refl, sym, ap, ◌∙◌, subst, bytes_eq, bytes_eq_iff, Bool-cases, Option-cases, Result-cases, arith,
}
use go_git_scm.Base.Map.{lookup, insert, lookup-insert}
use go_git_scm.Object.{ObjectId, Object}
use go_git_scm.Repository.Walk.{
  Verdict, proceed, skip_object, fail, Walked, finished, failed, out_of_fuel, visit, walk_loop,
  walk, mem, refs_of, push_all,
}
use go_git_scm.Protocol.Upload.{Error, in_walk, out_of_walk, remove_key}
use go_git_scm.Protocol.Negotiation.{Talk, meet, walk_wants}

-- The state at the end of a walk, if it has one.
abbrev pub AtEnd : {E S : Type 0} → (S → Type 0) → Walked E S → Type 0
AtEnd P (finished s) = P s
AtEnd P (failed e s) = P s
AtEnd P out_of_fuel = Unit

module _ {E S : Type 0} (get : ObjectId → Result E Object)
    (walk_fn : S → ObjectId → Result E Object → S × Verdict E) (P : S → Type 0)
    (keeps : (s : S) (id : ObjectId) → P s → P (walk_fn s id (get id)).0) where
  visit-AtEnd :
      (next : List ObjectId → S → Walked E S) (pending refs : List ObjectId) (p : S × Verdict E)
      → ((ids : List ObjectId) → AtEnd P (next ids p.0))
      → P p.0
      → AtEnd P (visit next pending refs p)
  unfolding visit
  visit-AtEnd next pending refs (s, proceed) h here = h (push_all refs pending)
  visit-AtEnd next pending refs (s, skip_object) h here = h pending
  visit-AtEnd next pending refs (s, fail e) h here = here

  walk_loop-AtEnd :
      (fuel : ℕ) (visited pending : List ObjectId) (s : S)
      → P s
      → AtEnd P (walk_loop get walk_fn fuel visited pending s)
  unfolding walk_loop
  walk_loop-AtEnd zero visited [] s h = h
  walk_loop-AtEnd (suc fuel) visited [] s h = h
  walk_loop-AtEnd zero visited (id ∷ pending) s h = tt
  walk_loop-AtEnd (suc fuel) visited (id ∷ pending) s h = elim (Bool-cases (mem id visited)) [
    | inl seen ↦ rw (seen, walk_loop) (walk_loop-AtEnd fuel visited pending s h)
    | inr fresh ↦
        let p = walk_fn s id (get id) in
        rw (fresh, walk_loop)
          (visit-AtEnd (walk_loop get walk_fn fuel (id ∷ visited)) pending (refs_of (get id)) p
            (λ ids. walk_loop-AtEnd fuel (id ∷ visited) ids p.0 (keeps s id h)) (keeps s id h))
  ]

  -- What the function keeps holds when the walk ends, however it does.
  pub walk-AtEnd :
      (fuel : ℕ) (start end : List ObjectId) (s : S)
      → P s
      → AtEnd P (walk get walk_fn fuel start end s)
  unfolding walk
  walk-AtEnd fuel start end s h = walk_loop-AtEnd fuel (push_all end []) (push_all start []) s h

mem-append : (id : ObjectId) (xs ys : List ObjectId) → mem id (xs ++ ys) ≡ mem id xs || mem id ys
unfolding mem
mem-append id [] ys = refl
mem-append id (x ∷ xs) ys = ground (arith, mem-append id xs ys)

module _ {E : Type 0} (get : ObjectId → Result E Object) (P : Talk → Type 0)
    (keeps : (want_id : ObjectId) (t : Talk) (id : ObjectId)
      → P t
      → P (meet want_id t id (get id)).0) where
  next_walks :
      (walked : Walked E Talk) (rest : Talk → Result (Error E) Talk) (t' : Talk)
      → AtEnd P walked
      → ((s : Talk) → P s → rest s ≡ ok t' → P t')
      → elim walked [
        | finished s ↦ rest s
        | failed e s ↦ err (in_walk e)
        | out_of_fuel ↦ err out_of_walk
      ]
        ≡ ok t'
      → P t'
  next_walks (finished s) rest t' met go e = go s met e
  next_walks (failed x s) rest t' met go e = absurd cc
  next_walks out_of_fuel rest t' met go e = absurd cc

  -- What every meeting keeps holds when the walks have ended.
  pub walk_wants-keeps :
      (walk_fuel : ℕ) (ids : List ObjectId) (t t' : Talk)
      → P t
      → walk_wants get walk_fuel ids t ≡ ok t'
      → P t'
  unfolding walk_wants
  walk_wants-keeps walk_fuel [] t t' h e = let same : t ≡ t' = cc in subst P same h
  walk_wants-keeps walk_fuel (id ∷ ids) t t' h e =
      next_walks (walk get (meet id) walk_fuel (id ∷ []) [] t) (walk_wants get walk_fuel ids) t'
        (walk-AtEnd get (meet id) P (keeps id) walk_fuel (id ∷ []) [] t h)
        (λ s met. walk_wants-keeps walk_fuel ids s t' met) e

module _ {E : Type 0} (get : ObjectId → Result E Object) (before : Talk) where
  -- The client has said that it has the object, and the repository has it; or it was common before.
  abbrev pub IsCommon : ObjectId → Type 0
  IsCommon id =
      (mem id before.ends ≡ true)
      ⊎ ((b : Bool) × (obj : Object) × (lookup id before.have ≡ some b) × (get id ≡ ok obj))

  -- The map has the same keys, what is marked in it or stands at the end is common, and what was common is there.
  pub record IsMet (t : Talk) : Type 0 where
    pub heard :
        (id : ObjectId) (b : Bool)
        → lookup id t.have ≡ some b
        → (c : Bool) × (lookup id before.have ≡ some c)
    pub common : (id : ObjectId) → mem id t.ends ≡ true → IsCommon id
    pub marked :
        (id : ObjectId)
        → lookup id t.have ≡ some true
        → (lookup id before.have ≡ some true) ⊎ (mem id t.ends ≡ true)

  found_common :
      (t : Talk) (want_id id : ObjectId) (b : Bool) (obj : Object)
      → lookup id t.have ≡ some b
      → get id ≡ ok obj
      → IsMet t
      → IsMet (record {
        want = remove_key want_id t.want;
        have = insert id true t.have;
        ends = t.ends ++ (id ∷ []);
      })
  unfolding mem
  found_common t want_id id b obj there has_it h = record {
    heard = λ j c e. elim (Bool-cases (bytes_eq id j)) [
      | inl same ↦
          let (d, at) = h.heard id b there in
          (d, ap (λ x. lookup x before.have) (sym ((bytes_eq_iff id j).0 same)) ∙ at)
      | inr other ↦ h.heard j c (sym (rw (lookup-insert j id true t.have, other) refl) ∙ e)
    ];
    common = λ j e. elim (Bool-cases (mem j t.ends)) [
      | inl old ↦ h.common j old
      | inr new ↦
          let (d, at) = h.heard id b there in
          let last : bytes_eq id j ≡ true = ground (arith, mem-append j t.ends (id ∷ [])) in
          subst IsCommon ((bytes_eq_iff id j).0 last) (inr (d, obj, at, has_it))
    ];
    marked = λ j e. elim (Bool-cases (bytes_eq id j)) [
      | inl same ↦ inr (ground (arith, mem-append j t.ends (id ∷ [])))
      | inr other ↦
          let marked_before =
            h.marked j (sym (rw (lookup-insert j id true t.have, other) refl) ∙ e) in
          elim marked_before [
            | inl old ↦ inl old
            | inr old ↦ inr (ground (arith, mem-append j t.ends (id ∷ [])))
          ]
    ];
  }

  meet-IsMet :
      (want_id : ObjectId) (t : Talk) (id : ObjectId)
      → IsMet t
      → IsMet (meet want_id t id (get id)).0
  unfolding meet
  meet-IsMet want_id t id h = elim (Result-cases (get id)) [
    | inr (e, bad) ↦ rw (bad, meet) h
    | inl (obj, has_it) ↦ elim (Option-cases (lookup id t.have)) [
      | inl unknown ↦ rw (has_it, meet, unknown) h
      | inr (b, there) ↦ rw (has_it, meet, there) (found_common t want_id id b obj there has_it h)
    ]
  ]

  -- Every object that a round finds common, and so ACKs or ends its packfile at, is one that the client has said in
  -- this round that it has and that the repository has, or was found common in a round before; and of the client's
  -- objects those that are marked as common, which are ACKed in detailed mode, are among them.
  pub walk_wants-IsMet :
      (walk_fuel : ℕ) (t : Talk) → walk_wants get walk_fuel before.want before ≡ ok t → IsMet t
  walk_wants-IsMet walk_fuel t e =
      walk_wants-keeps get IsMet meet-IsMet walk_fuel before.want before t
        (record { heard = λ id b at. (b, at); common = λ id at. inl at; marked = λ id at. inl at })
        e
