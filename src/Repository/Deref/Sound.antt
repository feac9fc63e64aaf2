-- ===== src/Repository/Deref/Sound.antt =====
-- What GetCommit, GetTag, GetTree and GetPath return: the objects of the repository, and their IDs.
use go_git_scm.Base.{
  ℕ, zero, suc, Bool-cases, ◌||◌, Result, ok, err, ◌≡◌, ◌≢◌, inl, inr, List, [], ◌∷◌, ◌>>=◌,
  Option-cases, ◌==◌, refl, arith, Result-cases,
}
use go_git_scm.Object.{
  ObjectId, Object, commit, tree, blob, tag, Commit, Tree, Tag, type_commit, type_tag, type_tree,
  Bytes,
}
use go_git_scm.Base.Map.{lookup}
use go_git_scm.Repository.{Error}
use go_git_scm.Repository.Deref.{
  Deref, commit_of, get_commit, tag_of, get_tag, tree_of, get_tree, enter, fetch_entry, path_loop,
  get_path, split_slash, clean,
}

-- A result that comes without an error satisfies P.
pub Found : {A : Type 0} → (A → ObjectId → Type 0) → Deref A → Type 0
Found P (err e) = Unit
Found P (ok (a, id)) = P a id

Found-map :
    {A : Type 0} (P Q : A → ObjectId → Type 0) (r : Deref A)
    → Found P r
    → ((a : A) (i : ObjectId) → P a i → Found Q (ok (a, i)))
    → Found Q r
unfolding Found
Found-map P Q (err e) h f = tt
Found-map P Q (ok (a, i)) h f = f a i h

Found-bind :
    {A B : Type 0} (P : A → ObjectId → Type 0) (Q : B → ObjectId → Type 0) (r : Deref A)
    (next : A × ObjectId → Deref B)
    → Found P r
    → ((a : A) (i : ObjectId) → P a i → Found Q (next (a, i)))
    → Found Q (r >>= next)
unfolding Found
Found-bind P Q (err e) next h f = tt
Found-bind P Q (ok (a, i)) next h f = f a i h

module _ (get : ObjectId → Result Error Object) where
  commit_of-Found :
      (next : ObjectId → Deref Commit) (id : ObjectId) (o : Result Error Object)
      → get id ≡ o
      → ((j : ObjectId) → Found (λ c i. get i ≡ ok (commit c)) (next j))
      → Found (λ c i. get i ≡ ok (commit c)) (commit_of next id o)
  unfolding commit_of Found
  commit_of-Found next id (err e) at all = tt
  commit_of-Found next id (ok (commit c)) at all = at
  commit_of-Found next id (ok (tree t)) at all = tt
  commit_of-Found next id (ok (blob b)) at all = tt
  commit_of-Found next id (ok (tag g)) at all =
      elim (Bool-cases (g.type_code == type_commit || g.type_code == type_tag)) [
        | inl follow ↦ rw follow (all g.object)
        | inr stop ↦ rw stop tt
      ]

  -- What GetCommit returns without an error is the commit that the repository has under the returned ID.
  pub get_commit-Found :
      (fuel : ℕ) (id : ObjectId) → Found (λ c i. get i ≡ ok (commit c)) (get_commit get fuel id)
  unfolding get_commit
  get_commit-Found zero id = unfold Found in tt
  get_commit-Found (suc fuel) id =
      commit_of-Found (get_commit get fuel) id (get id) refl (get_commit-Found fuel)

  tag_of-Found :
      (next : ObjectId → Deref Tag) (id : ObjectId) (o : Result Error Object)
      → get id ≡ o
      → ((j : ObjectId) → Found (λ g i. (get i ≡ ok (tag g)) × (g.type_code ≢ type_tag)) (next j))
      → Found (λ g i. (get i ≡ ok (tag g)) × (g.type_code ≢ type_tag)) (tag_of next id o)
  unfolding tag_of Found
  tag_of-Found next id (err e) at all = tt
  tag_of-Found next id (ok (commit c)) at all = tt
  tag_of-Found next id (ok (tree t)) at all = tt
  tag_of-Found next id (ok (blob b)) at all = tt
  tag_of-Found next id (ok (tag g)) at all = elim (Bool-cases (g.type_code == type_tag)) [
    | inl follow ↦ rw follow (all g.object)
    | inr stop ↦ rw stop (at, ground arith)
  ]

  -- What GetTag returns without an error is the tag that the repository has under the returned ID, and it
  -- points at no tag.
  pub get_tag-Found :
      (fuel : ℕ) (id : ObjectId)
      → Found (λ g i. (get i ≡ ok (tag g)) × (g.type_code ≢ type_tag)) (get_tag get fuel id)
  unfolding get_tag
  get_tag-Found zero id = unfold Found in tt
  get_tag-Found (suc fuel) id =
      tag_of-Found (get_tag get fuel) id (get id) refl (get_tag-Found fuel)

  tree_of-Found :
      (next : ObjectId → Deref Tree) (id : ObjectId) (o : Result Error Object)
      → get id ≡ o
      → ((j : ObjectId) → Found (λ t i. get i ≡ ok (tree t)) (next j))
      → Found (λ t i. get i ≡ ok (tree t)) (tree_of next id o)
  unfolding tree_of Found
  tree_of-Found next id (err e) at all = tt
  tree_of-Found next id (ok (commit c)) at all = all c.tree
  tree_of-Found next id (ok (tree t)) at all = at
  tree_of-Found next id (ok (blob b)) at all = tt
  tree_of-Found next id (ok (tag g)) at all =
      elim (Bool-cases
        (g.type_code == type_tree || (g.type_code == type_commit || g.type_code == type_tag))) [
          | inl follow ↦ rw follow (all g.object)
          | inr stop ↦ rw stop tt
        ]

  -- What GetTree returns without an error is the tree that the repository has under the returned ID.
  pub get_tree-Found :
      (fuel : ℕ) (id : ObjectId) → Found (λ t i. get i ≡ ok (tree t)) (get_tree get fuel id)
  unfolding get_tree
  get_tree-Found zero id = unfold Found in tt
  get_tree-Found (suc fuel) id =
      tree_of-Found (get_tree get fuel) id (get id) refl (get_tree-Found fuel)

  -- The ID names a tree.
  abbrev pub IsTreeId : ObjectId → Type 0
  IsTreeId i = (t : Tree) × (get i ≡ ok (tree t))

  enter-Found :
      (fuel : ℕ) (obj : Object) (id : ObjectId)
      → IsTreeId id
      → Found (λ t i. IsTreeId i) (enter get fuel obj id)
  unfolding enter
  enter-Found fuel (tree t) id h = unfold Found in h
  enter-Found fuel (commit c) id h =
      Found-map (λ t i. get i ≡ ok (tree t)) (λ t i. IsTreeId i) (get_tree get fuel c.tree)
        (get_tree-Found fuel c.tree) (λ t i e. unfold Found in (t, e))
  enter-Found fuel (blob b) id h = unfold Found in tt
  enter-Found fuel (tag g) id h = unfold Found in tt

  fetch_entry-Found :
      (comp : Bytes) (t : Tree) (id : ObjectId)
      → IsTreeId id
      → Found (λ obj i. IsTreeId i) (fetch_entry get comp (t, id))
  unfolding fetch_entry Found
  fetch_entry-Found comp t id h = elim (Option-cases (lookup comp t)) [
    | inl missing ↦ rw (missing, Found) tt
    | inr (ti, there) ↦ elim (Result-cases (get ti.object)) [
      | inl (obj, e) ↦ rw (there, Found, e) h
      | inr (e, failed) ↦ rw (there, Found, failed) tt
    ]
  ]

  path_loop-Found :
      (fuel : ℕ) (comps : List Bytes) (obj : Object) (id : ObjectId)
      → IsTreeId id
      → Found (λ o i. IsTreeId i) (path_loop get fuel comps obj id)
  unfolding path_loop
  path_loop-Found fuel [] obj id h = unfold Found in h
  path_loop-Found fuel (comp ∷ comps) obj id h =
      Found-bind (λ t i. IsTreeId i) (λ o i. IsTreeId i) (enter get fuel obj id) _
        (enter-Found fuel obj id h)
        (λ t i at.
          Found-bind (λ o j. IsTreeId j) (λ o j. IsTreeId j) (fetch_entry get comp (t, i)) _
            (fetch_entry-Found comp t i at) (λ o j there. path_loop-Found fuel comps o j there))

  -- The ID that GetPath returns with an object is that of a tree, whatever the object is.
  pub get_path-Found :
      (fuel : ℕ) (root : ObjectId) (name : Bytes)
      → Found (λ obj i. IsTreeId i) (get_path get fuel root name)
  unfolding get_path
  get_path-Found fuel root name =
      Found-bind (λ t i. get i ≡ ok (tree t)) (λ o i. IsTreeId i) (get_tree get fuel root) _
        (get_tree-Found fuel root)
        (λ t i at. path_loop-Found fuel (clean [] (split_slash [] name)) (tree t) i (t, at))
