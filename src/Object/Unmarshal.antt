-- ===== src/Object/Unmarshal.antt =====
-- UnmarshalText, UnmarshalBinary and Unmarshal of the objects. A result of none is an error: which one, and
-- what the receiver holds then, is not modelled.
pub mod Lines
pub mod RoundTrip
pub mod Binary
pub mod Ordered
pub mod Sorted
pub mod Names
pub mod Canonical
pub mod Trees
mod Tests
use go_git_scm.Base.{
  ℕ, zero, suc, ◌&&◌, List, [], ◌∷◌, Option, none, some, length, take, drop, ltb, ◌==◌,
  if◌then◌else◌, codes, ℤ, pos, negsuc,
}
use go_git_scm.Base.Map.{insert}
use go_git_scm.Fmt.Scan.{
  Scanned, Scan, ◌>>=◌, ◌>>◌, pure, after, skip_space, literal, literals, space, newline, scan_int,
  scan_uint, scan_word,
}
use go_git_scm.Object.{
  Bytes, ObjectId, id_size, Commit, TreeInfo, Tree, Tag, Object, commit, tree, blob, tag,
  type_commit, type_tree, type_blob, type_tag,
}
use go_git_scm.Object.Scan.{scan_id, scan_type, scan_signature, scan_filename}

-- `Fscanf(buf, "word %s\n", &value)`
unfoldable pub scan_line : {A : Type 0} → Bytes → Scan A → Scan A
scan_line word verb = literals word >> (space >> skip_space >> verb) >>= λ a. newline >> pure a

-- The loop over the parents, which the first error ends; what it has read then is gone. Each round reads a
-- byte at least, so as many rounds as there are bytes are enough.
unfoldable pub parents_after : Scan (List ObjectId) → Scanned ObjectId → Scanned (List ObjectId)
parents_after next (none, s) = (some [], s)
parents_after next (some id, s) = after (next s) (λ ids. pure (id ∷ ids))

unfoldable pub parents_loop : ℕ → Scan (List ObjectId)
parents_loop zero s = (some [], s)
parents_loop (suc fuel) s = parents_after (parents_loop fuel) (scan_line (codes "parent") scan_id s)

unfoldable pub scan_parents : Scan (List ObjectId)
scan_parents s = parents_loop (length s) s

-- fmtErr keeps the first error while the later fields are read: with an error the result is one.
unfoldable pub scan_commit : Scan Commit
scan_commit = do
  root ← scan_line (codes "tree") scan_id
  parent ← scan_parents
  author ← scan_line (codes "author") scan_signature
  committer ← scan_line (codes "committer") scan_signature
  x ← newline
  λ s. (
    some (record {
      tree = root;
      parent = parent;
      author = author;
      committer = committer;
      message = s;
    }),
    [],
  )

unfoldable pub commit_from_text : Bytes → Option Commit
commit_from_text text = (scan_commit text).0

unfoldable pub scan_tag : Scan Tag
scan_tag = do
  object ← scan_line (codes "object") scan_id
  t ← scan_line (codes "type") scan_type
  name ← scan_line (codes "tag") scan_word
  tagger ← scan_line (codes "tagger") scan_signature
  x ← newline
  λ s. (
    some (record { object = object; type_code = t; tag = name; tagger = tagger; message = s }),
    [],
  )

unfoldable pub tag_from_text : Bytes → Option Tag
tag_from_text text = (scan_tag text).0

-- `Fscanf(buf, "%s %d\x00", &bufType, &length)`
unfoldable pub scan_header : Scan (ℕ × ℤ)
scan_header = do t ← scan_type; u ← space; n ← scan_int none; v ← literal 0; pure (t, n)

-- The tests of stripHeader on the type and the length.
unfoldable pub checked : ℕ → Scanned (ℕ × ℤ) → Option Bytes
checked obj_type (none, s) = none
checked obj_type (some (t, negsuc k), s) = none
checked obj_type (some (t, pos n), s) = if t == obj_type && n == length s then some s else none

-- The four callers ask for standard types only.
unfoldable pub strip_header : ℕ → Bytes → Option Bytes
strip_header obj_type text = checked obj_type (scan_header text)

-- io.ReadFull of the 20 bytes of an ID
unfoldable pub read_id : Scan ObjectId
read_id s = if ltb (length s) id_size then (none, []) else (some (take id_size s), drop id_size s)

-- `Fscanf(buf, "%o %s\x00", &ti.Mode, &name)`, and the ID
unfoldable pub scan_entry : Scan (Bytes × TreeInfo)
scan_entry = do
  mode ← scan_uint 8 32 none
  u ← space
  name ← scan_filename
  v ← literal 0
  id ← read_id
  pure (name, record { mode = mode; object = id })

-- `Fscanf(buf, "%06o %s %s\t%s\n", &ti.Mode, &objType, &ti.Object, &name)`; the type is not used.
unfoldable pub scan_text_entry : Scan (Bytes × TreeInfo)
scan_text_entry = do
  mode ← scan_uint 8 32 (some 6)
  u ← space
  t ← scan_type
  v ← space
  id ← scan_id
  w ← space
  name ← scan_filename
  x ← newline
  pure (name, record { mode = mode; object = id })

-- The loop over the entries, with the map so far; each round reads a byte at least.
unfoldable pub entries_loop : Scan (Bytes × TreeInfo) → ℕ → Tree → Scan Tree
entries_loop entry fuel t [] = (some t, [])
entries_loop entry zero t (c ∷ s) = (none, c ∷ s)
entries_loop entry (suc fuel) t (c ∷ s) =
    after (entry (c ∷ s)) (λ e. entries_loop entry fuel (insert e.0 e.1 t))

unfoldable pub tree_from_entries : Bytes → Option Tree
tree_from_entries text = (entries_loop scan_entry (length text) [] text).0

unfoldable pub tree_from_text : Bytes → Option Tree
tree_from_text text = (entries_loop scan_text_entry (length text) [] text).0

-- UnmarshalBinary of each object, into a new one
unfoldable pub and_then : {A B : Type 0} → Option A → (A → Option B) → Option B
and_then none f = none
and_then (some a) f = f a

unfoldable pub commit_from_binary : Bytes → Option Object
commit_from_binary bytes =
    and_then (strip_header type_commit bytes)
      (λ text. and_then (commit_from_text text) (λ c. some (commit c)))

unfoldable pub tree_from_binary : Bytes → Option Object
tree_from_binary bytes =
    and_then (strip_header type_tree bytes)
      (λ text. and_then (tree_from_entries text) (λ t. some (tree t)))

unfoldable pub blob_from_binary : Bytes → Option Object
blob_from_binary bytes = and_then (strip_header type_blob bytes) (λ text. some (blob text))

unfoldable pub tag_from_binary : Bytes → Option Object
tag_from_binary bytes =
    and_then (strip_header type_tag bytes)
      (λ text. and_then (tag_from_text text) (λ g. some (tag g)))

-- UnmarshalBinary of what New returns for the type; New fails for other types than the four.
unfoldable pub unmarshal_as : ℕ → Bytes → Option Object
unmarshal_as t bytes =
    if t == type_commit
    then commit_from_binary bytes
    else (if t == type_tree
        then tree_from_binary bytes
        else (if t == type_blob
            then blob_from_binary bytes
            else (if t == type_tag then tag_from_binary bytes else none)))

unfoldable pub unmarshal : Bytes → Option Object
unmarshal bytes = and_then (scan_header bytes).0 (λ h. unmarshal_as h.0 bytes)
