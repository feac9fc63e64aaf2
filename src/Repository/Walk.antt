-- ===== src/Repository/Walk.antt =====
-- repository/objects.go: Walk. `get` is the repository's GetObject. The WalkFunc is a function on a state
-- of its own, `walk_fn s id obj`, which answers nil, SkipObject or another error. The slice `pending`
-- has its last element first, and `visited` is the set of the IDs that the map holds.
pub mod Once
pub mod Ends
pub mod Complete
use go_git_scm.Base.{
  ℕ, zero, suc, Bool, true, false, ◌||◌, List, [], ◌∷◌, ◌++◌, Result, ok, err, if◌then◌else◌,
  bytes_eq, map,
}
use go_git_scm.Object.{Bytes, ObjectId, Object, commit, tree, blob, tag, TreeInfo, Commit, Tag}

-- `visited[id]`
unfoldable pub mem : ObjectId → List ObjectId → Bool
mem id [] = false
mem id (x ∷ xs) = bytes_eq x id || mem id xs

-- What the switch on the object appends to `pending`, in order. An object that was not read is nil.
unfoldable pub refs_of : {E : Type 0} → Result E Object → List ObjectId
refs_of (err e) = []
refs_of (ok (commit c)) = c.tree ∷ c.parent
refs_of (ok (tree t)) = map (λ e. e.1.object) t
refs_of (ok (blob b)) = []
refs_of (ok (tag g)) = g.object ∷ []

-- Appends, one after the other.
unfoldable pub push_all : List ObjectId → List ObjectId → List ObjectId
push_all [] pending = pending
push_all (x ∷ xs) pending = push_all xs (x ∷ pending)

-- What a WalkFunc returns.
pub data Verdict (E : Type 0) : Type 0 where
  proceed skip_object : Verdict E
  fail : E → Verdict E

-- How a walk ends; `out_of_fuel` is no end of the program.
pub data Walked (E S : Type 0) : Type 0 where
  finished : S → Walked E S
  failed : E → S → Walked E S
  out_of_fuel : Walked E S

-- The rest of a round behind the call of walkFn: `next` goes on with the loop.
unfoldable pub visit :
    {E S : Type 0}
    → (List ObjectId → S → Walked E S)
    → List ObjectId
    → List ObjectId
    → S × Verdict E
    → Walked E S
visit next pending refs (s, skip_object) = next pending s
visit next pending refs (s, fail e) = failed e s
visit next pending refs (s, proceed) = next (push_all refs pending) s

module _ {E S : Type 0} (get : ObjectId → Result E Object)
    (walk_fn : S → ObjectId → Result E Object → S × Verdict E) where
  unfoldable pub walk_loop : ℕ → List ObjectId → List ObjectId → S → Walked E S
  walk_loop fuel visited [] s = finished s
  walk_loop zero visited (id ∷ pending) s = out_of_fuel
  walk_loop (suc fuel) visited (id ∷ pending) s =
      let again = walk_loop fuel visited pending s in
      let obj = get id in
      let first = visit (walk_loop fuel (id ∷ visited)) pending (refs_of obj) (walk_fn s id obj) in
      if mem id visited then again else first

  unfoldable pub walk : ℕ → List ObjectId → List ObjectId → S → Walked E S
  walk fuel start end s = walk_loop fuel (push_all end []) (push_all start []) s
