-- ===== src/Protocol/Order.antt =====
-- protocol/upload-pack.go: objectSizeOf and the order objHeaderSlice of the objects in a pack.
use go_git_scm.Base.{
  ℕ, ◌+◌, ◌≡◌, ◌⊎◌, Bool, true, false, ◌||◌, List, [], ◌∷◌, length, ltb, leb, if◌then◌else◌, arith,
}
use go_git_scm.Object.{ObjectId, Object, commit, tree, blob, tag, type_string, Tree}

-- The loop over the parents, and over the entries of a tree.
unfoldable pub parents_size : List ObjectId → ℕ → ℕ
parents_size [] n = n
parents_size (p ∷ ps) n = parents_size ps (n + (8 + 40))

unfoldable pub entries_size : Tree → ℕ → ℕ
entries_size [] n = n
entries_size ((filename, ti) ∷ t) n = entries_size t (n + (28 + length filename))

-- The last case of the switch is none of the four objects.
unfoldable pub object_size_of : Object → ℕ
object_size_of (commit c) =
    parents_size c.parent (6 + 40)
    + (28 + length c.author.name + length c.author.email)
    + (31 + length c.committer.name + length c.committer.email)
    + (1 + length c.message)
object_size_of (tree t) = entries_size t 0
object_size_of (blob b) = length b
object_size_of (tag g) =
    8
    + 40
    + (6 + length (type_string g.type_code))
    + (5 + length g.tag)
    + (28 + length g.tagger.name + length g.tagger.email)
    + (1 + length g.message)

pub record ObjHeader : Type 0 where
  pub id : ObjectId
  pub type_code : ℕ
  pub size : ℕ

unfoldable pub less : ObjHeader → ObjHeader → Bool
less a b =
    if ltb a.type_code b.type_code
    then true
    else (if ltb b.type_code a.type_code then false else leb b.size a.size)

-- Less is total, and holds of a header and itself.
pub less-total : (a b : ObjHeader) → (less a b || less b a ≡ true) × (less a a ≡ true)
unfolding less
less-total a b = (ground arith, ground arith)

-- Less is transitive, and two headers that are less than each other have the same type and size.
pub less_trans :
    (a b c : ObjHeader)
    → less a b ≡ true
    → less b c ≡ true
    → (less a c ≡ true) × ((less c a ≡ false) ⊎ ((a.type_code ≡ c.type_code) × (a.size ≡ c.size)))
unfolding less
less_trans a b c h k = (ground arith, ground arith)
