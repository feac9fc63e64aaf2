-- ===== src/Repository/Walk/Complete.antt =====
-- A walk whose WalkFunc always returns nil visits everything that it can reach without passing an end.
use go_git_scm.Base.{
  ℕ, zero, suc, ◌+◌, ◌≤◌, ◌≡◌, ◌≢◌, inl, inr, refl, true, false, ◌||◌, List, [], ◌∷◌, Result,
  length, bytes_eq, bytes_eq_iff, Bool-cases, arith, subst, sym,
}
use go_git_scm.Object.{ObjectId, Object}
use go_git_scm.Repository.Walk.{
  mem, refs_of, push_all, visit, Verdict, proceed, finished, out_of_fuel, walk_loop, walk,
}
use go_git_scm.Repository.Walk.Once.{mem-push_all}
use go_git_scm.Repository.Walk.Ends.{references_left, walk-ne-out_of_fuel}

-- What the references lead to from `start` by a path that meets no end object.
pub data ReachesPast {E : Type 0} (get : ObjectId → Result E Object) (start end : List ObjectId)
    : ObjectId → Type 0 where
  from : {id : ObjectId} → mem id start ≡ true → mem id end ≡ false → ReachesPast get start end id
  along :
      {a b : ObjectId}
      → ReachesPast get start end a
      → mem b (refs_of (get a)) ≡ true
      → mem b end ≡ false
      → ReachesPast get start end b

-- A WalkFunc that returns nil and notes the ID.
unfoldable pub collect :
    {E : Type 0} → List ObjectId → ObjectId → Result E Object → List ObjectId × Verdict E
collect calls id obj = (id ∷ calls, proceed)

module _ {E : Type 0} (get : ObjectId → Result E Object) (start end : List ObjectId) where
  -- Every start, and every reference of a visited object, is visited or pending; and what is visited and
  -- no end has been passed to the WalkFunc.
  record Frontier (visited pending calls : List ObjectId) : Type 0 where
    starts : (x : ObjectId) → mem x start ≡ true → (mem x visited || mem x pending) ≡ true
    edges :
        (a x : ObjectId)
        → mem a calls ≡ true
        → mem x (refs_of (get a)) ≡ true
        → (mem x visited || mem x pending) ≡ true
    called : (x : ObjectId) → mem x visited ≡ true → (mem x calls || mem x end) ≡ true

  Frontier-old :
      (id : ObjectId) (visited pending calls : List ObjectId)
      → mem id visited ≡ true
      → Frontier visited (id ∷ pending) calls
      → Frontier visited pending calls
  unfolding mem
  Frontier-old id visited pending calls old f = record {
    starts = λ x h. ground (arith, f.starts x, bytes_eq_iff id x);
    edges = λ a x h k. ground (arith, f.edges a x, bytes_eq_iff id x);
    called = f.called;
  }

  Frontier-new :
      (id : ObjectId) (visited pending calls : List ObjectId)
      → Frontier visited (id ∷ pending) calls
      → Frontier (id ∷ visited) (push_all (refs_of (get id)) pending) (id ∷ calls)
  unfolding mem
  Frontier-new id visited pending calls f = record {
    starts = λ x h. ground (arith, f.starts x, mem-push_all x (refs_of (get id)) pending);
    edges = λ a x h k. elim (Bool-cases (bytes_eq id a)) [
      | inl same ↦
          let k' : mem x (refs_of (get id)) ≡ true =
            subst (λ t. mem x (refs_of (get t)) ≡ true) (sym ((bytes_eq_iff id a).0 same)) k in
          ground (arith, k', mem-push_all x (refs_of (get id)) pending)
      | inr other ↦
          ground (arith, f.edges a x (ground arith) k, mem-push_all x (refs_of (get id)) pending)
    ];
    called = λ x h. ground (arith, f.called x);
  }

  -- With nothing pending the calls are closed under references that are no ends.
  Frontier-closed :
      (visited calls : List ObjectId)
      → Frontier visited [] calls
      → (x : ObjectId) → ReachesPast get start end x
      → mem x calls ≡ true
  unfolding mem
  Frontier-closed visited calls f x (from m no_end) = ground (arith, f.starts x m, f.called x)
  Frontier-closed visited calls f x (along {a} r m no_end) =
      ground (arith, f.edges a x (Frontier-closed visited calls f a r) m, f.called x)

  walk_loop_complete :
      (fuel : ℕ) (visited pending calls : List ObjectId)
      → Frontier visited pending calls
      → walk_loop get collect fuel visited pending calls ≢ out_of_fuel
      → (r : List ObjectId) × (walk_loop get collect fuel visited pending calls ≡ finished r)
        × ((x : ObjectId) → ReachesPast get start end x → mem x r ≡ true)
  unfolding walk_loop visit collect
  walk_loop_complete fuel visited [] calls f h = (calls, refl, Frontier-closed visited calls f)
  walk_loop_complete zero visited (id ∷ pending) calls f h = absurd (h refl)
  walk_loop_complete (suc fuel) visited (id ∷ pending) calls f h =
      elim (Bool-cases (mem id visited)) [
        | inl old ↦ rw old (
            walk_loop_complete fuel visited pending calls
              (Frontier-old id visited pending calls old f) (rw old at h))
        | inr new ↦ rw new (
            walk_loop_complete fuel (id ∷ visited) (push_all (refs_of (get id)) pending)
              (id ∷ calls) (Frontier-new id visited pending calls f) (rw new at h))
      ]

  -- With a WalkFunc that always returns nil, and the fuel that always ends the walk, the walk finishes, and
  -- the WalkFunc has been called with every ID that the references lead to past no end.
  pub walk_complete :
      (stored : List ObjectId) (fuel : ℕ)
      → ((id : ObjectId) → mem id stored ≡ false → refs_of (get id) ≡ [])
      → length start + references_left get (push_all end []) stored ≤ fuel
      → (r : List ObjectId) × (walk get collect fuel start end [] ≡ finished r)
        × ((x : ObjectId) → ReachesPast get start end x → mem x r ≡ true)
  unfolding walk mem
  walk_complete stored fuel known enough =
      walk_loop_complete fuel (push_all end []) (push_all start []) []
        (record {
          starts = λ x h. ground (arith, mem-push_all x start []);
          edges = λ a x h k. absurd cc;
          called = λ x h. ground (arith, mem-push_all x end []);
        })
        (walk-ne-out_of_fuel get collect stored known fuel start end [] enough)
