-- ===== src/Repository/Deref.antt =====
-- repository/objects.go: HasObject, GetCommit, GetTag, GetTree and GetPath, and FindRef of repository/refs.go.
-- `get` is the repository's GetObject. A result that comes with an error keeps the ID that is returned.
pub mod Sound
pub mod Complete
mod Tests
use go_git_scm.Base.{
  ℕ, zero, suc, Bool, true, false, ◌||◌, List, [], ◌∷◌, ◌++◌, Option, none, some, Result, ok, err,
  ◌>>=◌, if◌then◌else◌, ◌==◌, bytes_eq, codes,
}
use go_git_scm.Base.Map.{lookup}
use go_git_scm.Object.{
  Bytes, ObjectId, Object, commit, tree, blob, tag, Commit, Tree, Tag, type_commit, type_tree,
  type_tag,
}
use go_git_scm.Repository.{Error, object_not_exist, ref_not_exist}
use go_git_scm.Repository.Refs.{find_ref_list}

-- The error of GetObject, the TypeError with the object, and the missing component of a path;
-- `out_of_fuel` is no error of the program.
pub data DerefError : Type 0 where
  get_error : Error → DerefError
  type_error : Object → DerefError
  no_such_entry : Bytes → DerefError
  out_of_fuel : DerefError

abbrev pub Deref : Type 0 → Type 0
Deref A = Result (ObjectId × DerefError) (A × ObjectId)

unfoldable pub has_object : Result Error Object → Result Error Bool
has_object (ok obj) = ok true
has_object (err object_not_exist) = ok false
has_object (err e) = err e

-- The rest of GetCommit behind GetObject; `next` is the recursive call.
unfoldable pub commit_of : (ObjectId → Deref Commit) → ObjectId → Result Error Object → Deref Commit
commit_of next id (err e) = err (id, get_error e)
commit_of next id (ok (commit c)) = ok (c, id)
commit_of next id (ok (tag g)) =
    let again = next g.object in
    if g.type_code == type_commit || g.type_code == type_tag
    then again
    else err (id, type_error (tag g))
commit_of next id (ok (tree t)) = err (id, type_error (tree t))
commit_of next id (ok (blob b)) = err (id, type_error (blob b))

-- The rest of GetTag.
unfoldable pub tag_of : (ObjectId → Deref Tag) → ObjectId → Result Error Object → Deref Tag
tag_of next id (err e) = err (id, get_error e)
tag_of next id (ok (tag g)) =
    let again = next g.object in if g.type_code == type_tag then again else ok (g, id)
tag_of next id (ok (commit c)) = err (id, type_error (commit c))
tag_of next id (ok (tree t)) = err (id, type_error (tree t))
tag_of next id (ok (blob b)) = err (id, type_error (blob b))

-- The rest of GetTree.
unfoldable pub tree_of : (ObjectId → Deref Tree) → ObjectId → Result Error Object → Deref Tree
tree_of next id (err e) = err (id, get_error e)
tree_of next id (ok (tree t)) = ok (t, id)
tree_of next id (ok (commit c)) = next c.tree
tree_of next id (ok (tag g)) =
    let again = next g.object in
    if g.type_code == type_tree || (g.type_code == type_commit || g.type_code == type_tag)
    then again
    else err (id, type_error (tag g))
tree_of next id (ok (blob b)) = err (id, type_error (blob b))

-- The components of a path between its slashes; `comp` is the one that is read, backwards.
unfoldable pub split_slash : Bytes → Bytes → List Bytes
split_slash comp [] = comp ∷ []
split_slash comp (c ∷ name) =
    let next = split_slash [] name in
    let more = split_slash (comp ++ (c ∷ [])) name in if c == b'/' then comp ∷ next else more

unfoldable pub drop_last : List Bytes → List Bytes
drop_last [] = []
drop_last (c ∷ []) = []
drop_last (c ∷ d ∷ cs) = c ∷ drop_last (d ∷ cs)

-- path.Clean on the components of a rooted path: `cleaned` are those that are kept of what is behind.
unfoldable pub clean : List Bytes → List Bytes → List Bytes
clean cleaned [] = cleaned
clean cleaned (c ∷ comps) =
    let skip = clean cleaned comps in
    let up = clean (drop_last cleaned) comps in
    let keep = clean (cleaned ++ (c ∷ [])) comps in
    if bytes_eq c [] || bytes_eq c (codes ".")
    then skip
    else (if bytes_eq c (codes "..") then up else keep)

module _ (get : ObjectId → Result Error Object) where
  unfoldable pub get_commit : ℕ → ObjectId → Deref Commit
  get_commit zero id = err (id, out_of_fuel)
  get_commit (suc fuel) id = commit_of (get_commit fuel) id (get id)

  unfoldable pub get_tag : ℕ → ObjectId → Deref Tag
  get_tag zero id = err (id, out_of_fuel)
  get_tag (suc fuel) id = tag_of (get_tag fuel) id (get id)

  unfoldable pub get_tree : ℕ → ObjectId → Deref Tree
  get_tree zero id = err (id, out_of_fuel)
  get_tree (suc fuel) id = tree_of (get_tree fuel) id (get id)

  -- The switch on `obj` at the start of a round of GetPath: the tree to look in, and `id`.
  unfoldable pub enter : ℕ → Object → ObjectId → Deref Tree
  enter fuel (tree t) id = ok (t, id)
  enter fuel (commit c) id = get_tree fuel c.tree
  enter fuel (blob b) id = err (id, type_error (blob b))
  enter fuel (tag g) id = err (id, type_error (tag g))

  -- The rest of a round: `id` stays the tree's.
  unfoldable pub fetch_entry : Bytes → Tree × ObjectId → Deref Object
  fetch_entry comp (t, id) = elim (lookup comp t) [
    | none ↦ err (id, no_such_entry comp)
    | some ti ↦ elim (get ti.object) [ err e ↦ err (id, get_error e) | ok obj ↦ ok (obj, id) ]
  ]

  unfoldable pub path_loop : ℕ → List Bytes → Object → ObjectId → Deref Object
  path_loop fuel [] obj id = ok (obj, id)
  path_loop fuel (comp ∷ comps) obj id = do
    r ← enter fuel obj id
    s ← fetch_entry comp r
    path_loop fuel comps s.0 s.1

  -- With no component, the loop returns the tree, as the test of `comps[0]` does.
  unfoldable pub get_path : ℕ → ObjectId → Bytes → Deref Object
  get_path fuel root name = do
    r ← get_tree fuel root
    path_loop fuel (clean [] (split_slash [] name)) (tree r.0) r.1

-- The loop of FindRef over `formats`, with GetRef as a parameter.
unfoldable pub find_ref_loop :
    List Bytes → (Bytes → Result Error ObjectId) → Bytes → Result Error ObjectId
find_ref_loop [] get_ref name = err ref_not_exist
find_ref_loop (prefix ∷ formats) get_ref name = elim (get_ref (prefix ++ name)) [
  | ok id ↦ ok id
  | err e ↦ find_ref_loop formats get_ref name
]

unfoldable pub find_ref : (Bytes → Result Error ObjectId) → Bytes → Result Error ObjectId
find_ref get_ref name = find_ref_loop find_ref_list get_ref name
