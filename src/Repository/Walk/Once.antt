-- ===== src/Repository/Walk/Once.antt =====
-- What a walk passes to the WalkFunc: each object at most once, no end object, and only objects that the
-- start objects lead to.
use go_git_scm.Base.{
  ℕ, zero, suc, ◌≡◌, inl, inr, refl, Bool, true, false, ◌||◌, List, [], ◌∷◌, Result, All, bytes_eq,
  bytes_eq_iff, bytes_eq_self, Bool-cases, arith,
}
use go_git_scm.Object.{ObjectId, Object}
use go_git_scm.Repository.Walk.{
  mem, refs_of, push_all, visit, Verdict, proceed, skip_object, fail, Walked, finished, failed,
  out_of_fuel, walk_loop, walk,
}

pub mem-push_all :
    (x : ObjectId) (xs p : List ObjectId) → mem x (push_all xs p) ≡ mem x xs || mem x p
unfolding push_all mem
mem-push_all x [] p = refl
mem-push_all x (y ∷ xs) p = ground (arith, mem-push_all x xs (y ∷ p))

All-push_all {κ} :
    (R : ObjectId → Type κ) (xs p : List ObjectId) → All R xs → All R p → All R (push_all xs p)
unfolding push_all
All-push_all R [] p h k = k
All-push_all R (x ∷ xs) p h k = All-push_all R xs (x ∷ p) h.1 (h.0, k)

-- The state behind a walk, however it ended.
abbrev pub Ended {κ} : {E S : Type 0} → (S → Type κ) → Walked E S → Type κ
Ended P (finished s) = P s
Ended P (failed e s) = P s
Ended P out_of_fuel = Unit

module _ {E S : Type 0} (get : ObjectId → Result E Object)
    (walk_fn : S → ObjectId → Result E Object → S × Verdict E) (R : ObjectId → Type 0)
    (closed : (id : ObjectId) → R id → All R (refs_of (get id))) (Inv : List ObjectId → S → Type 0)
    (keep : (visited : List ObjectId) (s : S) (id : ObjectId)
      → mem id visited ≡ false
      → R id
      → Inv visited s
      → Inv (id ∷ visited) (walk_fn s id (get id)).0) where
  abbrev Kept : S → Type 0
  Kept s = (visited : List ObjectId) × Inv visited s

  visit-Kept :
      (next : List ObjectId → S → Walked E S) (visited pending refs : List ObjectId)
      (r : S × Verdict E)
      → ((p : List ObjectId) → All R p → Ended Kept (next p r.0))
      → All R pending
      → All R refs
      → Inv visited r.0
      → Ended Kept (visit next pending refs r)
  unfolding visit
  visit-Kept next visited pending refs (s, skip_object) go hp hr inv = go pending hp
  visit-Kept next visited pending refs (s, fail e) go hp hr inv = (visited, inv)
  visit-Kept next visited pending refs (s, proceed) go hp hr inv =
      go (push_all refs pending) (All-push_all R refs pending hr hp)

  -- The rule for invariants of the walk.
  walk_loop-Kept :
      (fuel : ℕ) (visited pending : List ObjectId) (s : S)
      → All R pending
      → Inv visited s
      → Ended Kept (walk_loop get walk_fn fuel visited pending s)
  unfolding walk_loop
  walk_loop-Kept fuel visited [] s hp inv = (visited, inv)
  walk_loop-Kept zero visited (id ∷ pending) s hp inv = tt
  walk_loop-Kept (suc fuel) visited (id ∷ pending) s hp inv = elim (Bool-cases (mem id visited)) [
    | inl old ↦ rw old (walk_loop-Kept fuel visited pending s hp.1 inv)
    | inr new ↦
        let inv' = keep visited s id new hp.0 inv in
        rw new (
          visit-Kept (walk_loop get walk_fn fuel (id ∷ visited)) (id ∷ visited) pending
            (refs_of (get id)) (walk_fn s id (get id))
            (λ p hq. walk_loop-Kept fuel (id ∷ visited) p (walk_fn s id (get id)).0 hq inv') hp.1
            (closed id hp.0) inv')
  ]

-- The IDs that the references lead to from `start`.
pub data Reaches {E : Type 0} (get : ObjectId → Result E Object) (start : List ObjectId)
    : ObjectId → Type 0 where
  from : {id : ObjectId} → mem id start ≡ true → Reaches get start id
  along :
      {a b : ObjectId} → Reaches get start a → mem b (refs_of (get a)) ≡ true → Reaches get start b

-- No ID is in the list twice.
abbrev pub Distinct : List ObjectId → Type 0
Distinct [] = Unit
Distinct (x ∷ xs) = (mem x xs ≡ false) × Distinct xs

-- A WalkFunc that also notes the IDs it is called with, the last one first.
unfoldable pub noting :
    {E S : Type 0}
    → (S → ObjectId → Result E Object → S × Verdict E)
    → S × List ObjectId
    → ObjectId
    → Result E Object
    → (S × List ObjectId) × Verdict E
noting f (s, calls) id obj = let (s', verdict) = f s id obj in ((s', id ∷ calls), verdict)

All-mem :
    (R : ObjectId → Type 0) (xs : List ObjectId)
    → ((x : ObjectId) → mem x xs ≡ true → R x)
    → All R xs
unfolding mem
All-mem R [] h = tt
All-mem R (x ∷ xs) h = (
  h x (ground (arith, bytes_eq_self x)),
  All-mem R xs (λ y m. h y (or_right (bytes_eq x y) (mem y xs) m)),
)
  where
    or_right : (a b : Bool) → b ≡ true → (a || b) ≡ true
    or_right a b e = ground arith

-- The calls so far: each once, all of them visited and led to, none of an end object, and the end objects
-- are visited.
record Calls {E : Type 0} (get : ObjectId → Result E Object)
    (start end visited calls : List ObjectId) : Type 0 where
  distinct : Distinct calls
  within : (x : ObjectId) → mem x visited ≡ false → mem x calls ≡ false
  no_end : (x : ObjectId) → mem x end ≡ true → mem x calls ≡ false
  ends : (x : ObjectId) → mem x visited ≡ false → mem x end ≡ false
  reached : All (Reaches get start) calls

Calls-cons :
    {E : Type 0} (get : ObjectId → Result E Object) (start end visited calls : List ObjectId)
    (id : ObjectId)
    → mem id visited ≡ false
    → Reaches get start id
    → Calls get start end visited calls
    → Calls get start end (id ∷ visited) (id ∷ calls)
unfolding mem
Calls-cons get start end visited calls id new r c = record {
  distinct = (c.within id new, c.distinct);
  within = λ x h. ground (arith, c.within x);
  no_end = λ x h. ground (arith, c.no_end x, c.ends id new, bytes_eq_iff id x);
  ends = λ x h. c.ends x (ground arith);
  reached = (r, c.reached);
}

Ended-map :
    {E S : Type 0} {P Q : S → Type 0} (w : Walked E S)
    → ((s : S) → P s → Q s)
    → Ended P w
    → Ended Q w
Ended-map (finished s) f h = f s h
Ended-map (failed e s) f h = f s h
Ended-map out_of_fuel f h = tt

-- However a walk ends, with whatever WalkFunc: it has been called with no ID twice, with no end ID, and
-- only with IDs that the references lead to from the start.
pub walk-Distinct :
    {E S : Type 0} (get : ObjectId → Result E Object)
    (walk_fn : S → ObjectId → Result E Object → S × Verdict E) (fuel : ℕ)
    (start end : List ObjectId) (s : S)
    → Ended
        (λ (r : S × List ObjectId).
          Distinct r.1 × All (λ x. mem x end ≡ false) r.1 × All (Reaches get start) r.1)
        (walk get (noting walk_fn) fuel start end (s, []))
unfolding walk noting mem
walk-Distinct {E} get walk_fn fuel start end s =
    Ended-map (walk get (noting walk_fn) fuel start end (s, []))
      (λ r k.
        (k.1.distinct, All-mem (λ x. mem x end ≡ false) r.1 (not_end (k.0) r.1 k.1), k.1.reached))
      (walk_loop-Kept get (noting walk_fn) (Reaches get start)
        (λ id r. All-mem (Reaches get start) (refs_of (get id)) (λ x m. along r m))
        (λ visited r. Calls get start end visited r.1)
        (λ visited r id new reach c. Calls-cons get start end visited r.1 id new reach c) fuel
        (push_all end []) (push_all start []) (s, [])
        (All-push_all (Reaches get start) start []
          (All-mem (Reaches get start) start (λ x m. from m)) tt)
        (record {
          distinct = tt;
          within = λ x h. refl;
          no_end = λ x h. refl;
          ends = λ x h. ground (arith, mem-push_all x end []);
          reached = tt;
        }))
  where
    not_end :
        (visited calls : List ObjectId)
        → Calls get start end visited calls
        → (x : ObjectId) → mem x calls ≡ true
        → mem x end ≡ false
    not_end visited calls c x m = elim (Bool-cases (mem x end)) [
      | inl is_end ↦ absurd (ground (arith, c.no_end x is_end))
      | inr no_end ↦ no_end
    ]
