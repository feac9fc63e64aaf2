-- ===== src/Repository/Walk/Ends.antt =====
-- A walk of a repository with finitely many objects ends.
use go_git_scm.Base.{
  ℕ, zero, suc, ◌+◌, ◌≤◌, ◌≡◌, ◌≢◌, ap, true, false, List, [], ◌∷◌, Result, length, if◌then◌else◌,
  bytes_eq, bytes_eq_iff, Bool-cases, inl, inr, arith,
}
use go_git_scm.Object.{ObjectId, Object}
use go_git_scm.Repository.Walk.{
  mem, refs_of, push_all, visit, Verdict, proceed, skip_object, fail, Walked, out_of_fuel,
  walk_loop, walk,
}

pub length-push_all : (xs p : List ObjectId) → length (push_all xs p) ≡ length xs + length p
unfolding push_all
length-push_all [] p = omega arith
length-push_all (x ∷ xs) p = omega (arith, length-push_all xs (x ∷ p))

module _ {E : Type 0} (get : ObjectId → Result E Object) where
  -- The references of the objects among `stored` that are not visited yet.
  unfoldable pub references_left : List ObjectId → List ObjectId → ℕ
  references_left visited [] = 0
  references_left visited (x ∷ stored) =
      (if mem x visited then 0 else length (refs_of (get x))) + references_left visited stored

  references_left_visit :
      (id : ObjectId) (visited stored : List ObjectId)
      → references_left (id ∷ visited) stored ≤ references_left visited stored
  unfolding references_left mem
  references_left_visit id visited [] = omega arith
  references_left_visit id visited (x ∷ stored) =
      ground (arith, references_left_visit id visited stored)

  references_left_new :
      (id : ObjectId) (visited stored : List ObjectId)
      → mem id visited ≡ false
      → mem id stored ≡ true
      → length (refs_of (get id)) + references_left (id ∷ visited) stored
        ≤ references_left visited stored
  unfolding references_left mem
  references_left_new id visited [] new h = absurd cc
  references_left_new id visited (x ∷ stored) new h = elim (Bool-cases (bytes_eq x id)) [
    | inl here ↦
        let e = (bytes_eq_iff x id).0 here in
        ground (arith, e, references_left_visit id visited stored)
    | inr there ↦ ground (arith, references_left_new id visited stored new)
  ]

module _ {E S : Type 0} (get : ObjectId → Result E Object)
    (walk_fn : S → ObjectId → Result E Object → S × Verdict E) where
  visit-ne-out_of_fuel :
      (next : List ObjectId → S → Walked E S) (pending refs : List ObjectId) (r : S × Verdict E)
      → ((p : List ObjectId) (s : S)
          → length p ≤ length refs + length pending
          → next p s ≢ out_of_fuel)
      → visit next pending refs r ≢ out_of_fuel
  unfolding visit
  visit-ne-out_of_fuel next pending refs (s, skip_object) h = h pending s (omega arith)
  visit-ne-out_of_fuel next pending refs (s, fail e) h = λ x. cc
  visit-ne-out_of_fuel next pending refs (s, proceed) h =
      h (push_all refs pending) s (omega (arith, length-push_all refs pending))

  walk_loop-ne-out_of_fuel :
      (stored : List ObjectId)
      → ((id : ObjectId) → mem id stored ≡ false → refs_of (get id) ≡ [])
      → (fuel : ℕ) (visited pending : List ObjectId) (s : S)
      → length pending + references_left get visited stored ≤ fuel
      → walk_loop get walk_fn fuel visited pending s ≢ out_of_fuel
  unfolding walk_loop
  walk_loop-ne-out_of_fuel stored known fuel visited [] s h = λ e. cc
  walk_loop-ne-out_of_fuel stored known zero visited (id ∷ pending) s h = absurd (omega arith)
  walk_loop-ne-out_of_fuel stored known (suc fuel) visited (id ∷ pending) s h =
      elim (Bool-cases (mem id visited)) [
        | inl old ↦
            rw old (walk_loop-ne-out_of_fuel stored known fuel visited pending s (omega arith))
        | inr new ↦ rw new (
            visit-ne-out_of_fuel (walk_loop get walk_fn fuel (id ∷ visited)) pending
              (refs_of (get id)) (walk_fn s id (get id))
              (λ p s' hp.
                walk_loop-ne-out_of_fuel stored known fuel (id ∷ visited) p s'
                  (enough id visited pending p new hp h)))
      ]
    where
      enough :
          (id : ObjectId) (visited pending p : List ObjectId)
          → mem id visited ≡ false
          → length p ≤ length (refs_of (get id)) + length pending
          → suc (length pending) + references_left get visited stored ≤ suc fuel
          → length p + references_left get (id ∷ visited) stored ≤ fuel
      enough id visited pending p new hp h = elim (Bool-cases (mem id stored)) [
        | inl there ↦ omega (arith, references_left_new get id visited stored new there)
        | inr gone ↦
            let none_left = ap (λ (t : List ObjectId). length t) (known id gone) in
            omega (arith, references_left_visit get id visited stored)
      ]

  -- Of a repository whose objects are all among `stored`, a walk from any start to any end returns, cycles
  -- or not, and whatever the WalkFunc does: a round for each start and for each reference of an object
  -- that is not an end is enough.
  pub walk-ne-out_of_fuel :
      (stored : List ObjectId)
      → ((id : ObjectId) → mem id stored ≡ false → refs_of (get id) ≡ [])
      → (fuel : ℕ) (start end : List ObjectId) (s : S)
      → length start + references_left get (push_all end []) stored ≤ fuel
      → walk get walk_fn fuel start end s ≢ out_of_fuel
  unfolding walk
  walk-ne-out_of_fuel stored known fuel start end s h =
      walk_loop-ne-out_of_fuel stored known fuel (push_all end []) (push_all start []) s
        (omega (arith, length-push_all start []))
