-- ===== src/Object/Unmarshal/Binary.antt =====
-- The header is taken off, and Unmarshal reads back what MarshalBinary gives.
use go_git_scm.Base.{
  ℕ, ◌^◌, ◌<◌, ◌≡◌, refl, ◌∷◌, ◌++◌, none, some, ok, length, ◌==◌, pos, ==_self, Bool-cases, inl,
  inr, Option, if◌then◌else◌,
}
use go_git_scm.Base.Map.{lookup}
use go_git_scm.Object.Unmarshal.Canonical.{Once}
use go_git_scm.Object.Unmarshal.Trees.{IsTree, lookup-tree_from_entries}
use go_git_scm.Object.{Bytes, Commit, Tree, Tag, Object, commit, tree, blob, tag, type_of}
use go_git_scm.Object.Marshal.{marshal_binary, marshal_binary-eq-ok, body_of, header_of}
use go_git_scm.Object.Unmarshal.{
  strip_header, checked, and_then, commit_from_binary, tree_from_binary, blob_from_binary,
  tag_from_binary, unmarshal_as, unmarshal, scan_header,
}
use go_git_scm.Object.Unmarshal.Lines.{IsType, is_commit, is_tree, is_blob, is_tag, scan_header_lem}
use go_git_scm.Object.Unmarshal.RoundTrip.{
  IsCommit, IsTag, commit_from_text-commit_text, tag_from_text-tag_text,
}

pub type_of-IsType : (obj : Object) → IsType (type_of obj)
unfolding type_of
type_of-IsType (commit c) = is_commit
type_of-IsType (tree t) = is_tree
type_of-IsType (blob b) = is_blob
type_of-IsType (tag g) = is_tag

header_reads :
    (obj : Object)
    → length (body_of obj) < 2 ^ 63
    → scan_header (header_of obj ++ (0 ∷ body_of obj))
      ≡ (some (type_of obj, pos (length (body_of obj))), body_of obj)
header_reads obj small =
    scan_header_lem (type_of obj) (length (body_of obj)) (body_of obj) (type_of-IsType obj) small

-- stripHeader for the object's own type takes off the header that MarshalBinary puts in front, and for every
-- other type it is an error.
pub strip_header-header_of :
    (obj : Object) (t : ℕ)
    → length (body_of obj) < 2 ^ 63
    → strip_header t (header_of obj ++ (0 ∷ body_of obj))
      ≡ (if type_of obj == t then some (body_of obj) else none)
unfolding strip_header checked
strip_header-header_of obj t small =
    rw (header_reads obj small, checked, ==_self (length (body_of obj)))
      (elim (Bool-cases (type_of obj == t)) [ inl e ↦ rw e refl | inr e ↦ rw e refl ])

-- The objects that are read back: blobs, and the commits, trees and tags that IsCommit, IsTree and IsTag
-- describe.
pub data IsReadable : Object → Type 0 where
  a_commit : (c : Commit) → IsCommit c → IsReadable (commit c)
  a_tree : (t : Tree) → IsTree t → Once t → IsReadable (tree t)
  a_blob : (b : Bytes) → IsReadable (blob b)
  a_tag : (g : Tag) → IsTag g → IsReadable (tag g)

-- The same object: of a tree, the map has the same entries, whatever their order.
unfoldable pub Same : Object → Object → Type 0
Same (tree t) (tree t') = (n : Bytes) → lookup n t' ≡ lookup n t
Same obj obj' = obj' ≡ obj

own_header :
    (obj : Object)
    → length (body_of obj) < 2 ^ 63
    → strip_header (type_of obj) (header_of obj ++ (0 ∷ body_of obj)) ≡ some (body_of obj)
own_header obj small =
    rw (strip_header-header_of obj (type_of obj) small, ==_self (type_of obj)) refl

-- The result is the object again, of the same type and with the same body.
unfoldable pub Restores : Object → Option Object → Type 0
Restores obj r =
    (obj' : Object) × (r ≡ some obj')
    × Same obj obj'
    × (type_of obj' ≡ type_of obj)
    × (body_of obj' ≡ body_of obj)

-- The body of an object is read back by the methods of its type.
pub as_own_type :
    (obj : Object)
    → IsReadable obj
    → length (body_of obj) < 2 ^ 63
    → Restores obj (unmarshal_as (type_of obj) (header_of obj ++ (0 ∷ body_of obj)))
unfolding Restores Same unmarshal_as and_then type_of body_of commit_from_binary tree_from_binary
    blob_from_binary tag_from_binary
as_own_type obj (a_commit c h) small = (
  commit c,
  rw (own_header (commit c) small, and_then, commit_from_text-commit_text c h) refl,
  refl,
  refl,
  refl,
)
as_own_type obj (a_tree t h once) small =
    let (t', reads, same, bytes) = lookup-tree_from_entries t h once in
    (tree t', rw (own_header (tree t) small, and_then, reads) refl, same, refl, bytes)
as_own_type obj (a_blob b) small =
    (blob b, rw (own_header (blob b) small, and_then) refl, refl, refl, refl)
as_own_type obj (a_tag g h) small = (
  tag g,
  rw (own_header (tag g) small, and_then, tag_from_text-tag_text g h) refl,
  refl,
  refl,
  refl,
)

-- Of a readable object with a body of less than 2^63 bytes, Unmarshal reads back what MarshalBinary gives:
-- the same commit, blob or tag, or a tree with the same entry under every name; its type is the same, and so
-- is its body, the text that the hash is taken of.
pub unmarshal-marshal_binary :
    (obj : Object)
    → IsReadable obj
    → length (body_of obj) < 2 ^ 63
    → (bytes : Bytes) × (marshal_binary obj ≡ ok bytes) × Restores obj (unmarshal bytes)
unfolding unmarshal and_then unmarshal_as
unmarshal-marshal_binary obj h small = (
  header_of obj ++ (0 ∷ body_of obj),
  marshal_binary-eq-ok obj,
  rw (header_reads obj small, and_then) (as_own_type obj h small),
)
