-- ===== src/Repository/Deref/Complete.antt =====
-- repository/objects.go: the chains of references that GetCommit, GetTag and GetTree follow.
use go_git_scm.Base.{ℕ, zero, suc, ◌<◌, ◌≡◌, refl, Result, ok, ◌||◌, ◌==◌, true, false, arith}
use go_git_scm.Object.{
  ObjectId, Object, commit, tree, tag, Commit, Tree, Tag, type_commit, type_tree, type_tag,
}
use go_git_scm.Repository.{Error}
use go_git_scm.Repository.Deref.{commit_of, tag_of, tree_of, get_commit, get_tag, get_tree}

-- `n` tags lead from an ID to a commit.
pub data LeadsToCommit (get : ObjectId → Result Error Object) (c : Commit) (i : ObjectId)
    : ObjectId → ℕ → Type 0 where
  at_commit : get i ≡ ok (commit c) → LeadsToCommit get c i i 0
  by_commit_tag :
      {id : ObjectId} {n : ℕ} (g : Tag)
      → get id ≡ ok (tag g)
      → (g.type_code == type_commit || g.type_code == type_tag) ≡ true
      → LeadsToCommit get c i g.object n
      → LeadsToCommit get c i id (suc n)

-- Where n tags of commits and of tags lead to a commit, GetCommit on a fuel above n returns that commit
-- and its ID.
pub get_commit-eq-ok :
    (get : ObjectId → Result Error Object) (c : Commit) (i id : ObjectId) (n fuel : ℕ)
    → LeadsToCommit get c i id n
    → n < fuel
    → get_commit get fuel id ≡ ok (c, i)
unfolding get_commit commit_of
get_commit-eq-ok get c i id n zero leads h = absurd (omega arith)
get_commit-eq-ok get c i id n (suc fuel) (at_commit e) h = rw e refl
get_commit-eq-ok get c i j k (suc fuel) (by_commit_tag {id} {n} g e follow leads) h =
    rw (e, follow) (get_commit-eq-ok get c i g.object n fuel leads (omega arith))

-- `n` tags of tags lead from an ID to a tag of something else.
pub data LeadsToTag (get : ObjectId → Result Error Object) (t : Tag) (i : ObjectId)
    : ObjectId → ℕ → Type 0 where
  at_tag : get i ≡ ok (tag t) → (t.type_code == type_tag) ≡ false → LeadsToTag get t i i 0
  by_tag_tag :
      {id : ObjectId} {n : ℕ} (g : Tag)
      → get id ≡ ok (tag g)
      → (g.type_code == type_tag) ≡ true
      → LeadsToTag get t i g.object n
      → LeadsToTag get t i id (suc n)

-- Where n tags of tags lead to a tag of something else, GetTag on a fuel above n returns that tag and
-- its ID.
pub get_tag-eq-ok :
    (get : ObjectId → Result Error Object) (t : Tag) (i id : ObjectId) (n fuel : ℕ)
    → LeadsToTag get t i id n
    → n < fuel
    → get_tag get fuel id ≡ ok (t, i)
unfolding get_tag tag_of
get_tag-eq-ok get t i id n zero leads h = absurd (omega arith)
get_tag-eq-ok get t i id n (suc fuel) (at_tag e stop) h = rw (e, stop) refl
get_tag-eq-ok get t i j k (suc fuel) (by_tag_tag {id} {n} g e follow leads) h =
    rw (e, follow) (get_tag-eq-ok get t i g.object n fuel leads (omega arith))

-- `n` tags and commits lead from an ID to a tree.
pub data LeadsToTree (get : ObjectId → Result Error Object) (t : Tree) (i : ObjectId)
    : ObjectId → ℕ → Type 0 where
  at_tree : get i ≡ ok (tree t) → LeadsToTree get t i i 0
  by_commit :
      {id : ObjectId} {n : ℕ} (c : Commit)
      → get id ≡ ok (commit c)
      → LeadsToTree get t i c.tree n
      → LeadsToTree get t i id (suc n)
  by_tree_tag :
      {id : ObjectId} {n : ℕ} (g : Tag)
      → get id ≡ ok (tag g)
      → (g.type_code == type_tree || (g.type_code == type_commit || g.type_code == type_tag)) ≡ true
      → LeadsToTree get t i g.object n
      → LeadsToTree get t i id (suc n)

-- Where n tags and commits lead to a tree, GetTree on a fuel above n returns that tree and its ID.
pub get_tree-eq-ok :
    (get : ObjectId → Result Error Object) (t : Tree) (i id : ObjectId) (n fuel : ℕ)
    → LeadsToTree get t i id n
    → n < fuel
    → get_tree get fuel id ≡ ok (t, i)
unfolding get_tree tree_of
get_tree-eq-ok get t i id n zero leads h = absurd (omega arith)
get_tree-eq-ok get t i id n (suc fuel) (at_tree e) h = rw e refl
get_tree-eq-ok get t i j k (suc fuel) (by_commit {id} {n} c e leads) h =
    rw e (get_tree-eq-ok get t i c.tree n fuel leads (omega arith))
get_tree-eq-ok get t i j k (suc fuel) (by_tree_tag {id} {n} g e follow leads) h =
    rw (e, follow) (get_tree-eq-ok get t i g.object n fuel leads (omega arith))
