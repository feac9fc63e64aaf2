-- ===== src/Object/Marshal.antt =====
-- MarshalText and MarshalBinary of the four objects, and Marshal and Hash. crypto/sha1 is the parameter
-- `sha1`: nothing is assumed of it.
use go_git_scm.Base.{
  ◌-◌, replicate, ℕ, Bool, true, false, ◌&&◌, ◌||◌, List, [], ◌∷◌, ◌++◌, some, none, Result, ok,
  err, length, ltb, ◌==◌, ◌>>=◌, ◌≡◌, refl, if◌then◌else◌, codes, bytes_eq, map,
}
use go_git_scm.Base.Map.{lookup}
use go_git_scm.Object.{
  mode_type, Bytes, ObjectId, zero_id, Commit, TreeInfo, Tree, Tag, Object, commit, tree, blob, tag,
  type_of, type_string, mode_tree, type_commit, type_tree, type_blob, type_tag,
}
use go_git_scm.Object.Print.{print_nat, print_octal, id_string, signature_string}

-- fmt.Fprintln of a word and a value
unfoldable pub print_line : Bytes → Bytes → Bytes
print_line word value = word ++ codes " " ++ value ++ (10 ∷ [])

unfoldable pub parent_lines : List ObjectId → Bytes
parent_lines [] = []
parent_lines (p ∷ ps) = print_line (codes "parent") (id_string p) ++ parent_lines ps

unfoldable pub commit_text : Commit → Bytes
commit_text c =
    print_line (codes "tree") (id_string c.tree)
    ++ parent_lines c.parent
    ++ print_line (codes "author") (signature_string c.author)
    ++ print_line (codes "committer") (signature_string c.committer)
    ++ (10 ∷ c.message)

unfoldable pub tag_text : Tag → Bytes
tag_text g =
    print_line (codes "object") (id_string g.object)
    ++ print_line (codes "type") (type_string g.type_code)
    ++ print_line (codes "tag") g.tag
    ++ print_line (codes "tagger") (signature_string g.tagger)
    ++ (10 ∷ g.message)

-- Go's `<` on strings.
unfoldable pub bytes_lt : Bytes → Bytes → Bool
bytes_lt xs [] = false
bytes_lt [] (y ∷ ys) = true
bytes_lt (x ∷ xs) (y ∷ ys) = ltb x y || (x == y && bytes_lt xs ys)

-- sort.StringSlice.Sort, as an insertion sort: equal strings are the same string.
unfoldable pub insert_sorted : Bytes → List Bytes → List Bytes
insert_sorted x [] = x ∷ []
insert_sorted x (y ∷ ys) = if bytes_lt y x then y ∷ insert_sorted x ys else x ∷ y ∷ ys

unfoldable pub sort_strings : List Bytes → List Bytes
sort_strings [] = []
sort_strings (x ∷ xs) = insert_sorted x (sort_strings xs)

-- strings.TrimSuffix(name, "/")
unfoldable pub trim_slash : Bytes → Bytes
trim_slash [] = []
trim_slash (x ∷ []) = if x == b'/' then [] else x ∷ []
trim_slash (x ∷ y ∷ ys) = x ∷ trim_slash (y ∷ ys)

-- The name that an entry is sorted by.
unfoldable pub sort_name : Bytes × TreeInfo → Bytes
sort_name (name, ti) = if ti.mode == mode_tree then name ++ codes "/" else name

unfoldable pub names : Tree → List Bytes
names t = map trim_slash (sort_strings (map sort_name t))

-- `(*t)[name]`, which is the zero TreeInfo for a name that is not there
unfoldable pub entry_of : Tree → Bytes → TreeInfo
entry_of t name = elim (lookup name t) [
  | none ↦ record { mode = 0; object = zero_id }
  | some ti ↦ ti
]

unfoldable pub tree_entry : Tree → Bytes → Bytes
tree_entry t name =
    let ti = entry_of t name in print_octal ti.mode ++ codes " " ++ name ++ (0 ∷ ti.object)

unfoldable pub tree_entries : Tree → List Bytes → Bytes
tree_entries t [] = []
tree_entries t (name ∷ ns) = tree_entry t name ++ tree_entries t ns

-- A line of MarshalText of a tree: `%06o %s %s\t%s\n`.
unfoldable pub tree_line : Tree → Bytes → Bytes
tree_line t name =
    let ti = entry_of t name in
    let mode = print_octal ti.mode in
    replicate (6 - length mode) b'0'
    ++ mode
    ++ codes " "
    ++ type_string (mode_type ti.mode)
    ++ codes " "
    ++ id_string ti.object
    ++ (9 ∷ name)
    ++ (10 ∷ [])

unfoldable pub tree_text : Tree → List Bytes → Bytes
tree_text t [] = []
tree_text t (name ∷ ns) = tree_line t name ++ tree_text t ns

-- MarshalText; that of a blob is the blob.
unfoldable pub marshal_text : Object → Bytes
marshal_text (commit c) = commit_text c
marshal_text (tree t) = tree_text t (names t)
marshal_text (blob b) = b
marshal_text (tag g) = tag_text g

pub data Error : Type 0 where
  -- TypeError with the type code
  type_error : ℕ → Error

unfoldable pub prepend_header : ℕ → Bytes → Result Error Bytes
prepend_header t text =
    if bytes_eq (type_string t) []
    then err (type_error t)
    else ok (type_string t ++ codes " " ++ print_nat (length text) ++ (0 ∷ text))

unfoldable pub commit_binary : Commit → Result Error Bytes
commit_binary c = prepend_header type_commit (commit_text c)

unfoldable pub tree_binary : Tree → Result Error Bytes
tree_binary t = prepend_header type_tree (tree_entries t (names t))

unfoldable pub blob_binary : Bytes → Result Error Bytes
blob_binary b = prepend_header type_blob b

unfoldable pub tag_binary : Tag → Result Error Bytes
tag_binary g = prepend_header type_tag (tag_text g)

-- MarshalBinary of the interface.
unfoldable pub marshal_binary : Object → Result Error Bytes
marshal_binary (commit c) = commit_binary c
marshal_binary (tree t) = tree_binary t
marshal_binary (blob b) = blob_binary b
marshal_binary (tag g) = tag_binary g

-- Hash, which is Marshal without the bytes. The test for an unknown type never holds of the four objects.
unfoldable pub hash : (Bytes → ObjectId) → Object → Result Error ObjectId
hash sha1 obj = do bytes ← marshal_binary obj; ok (sha1 bytes)

-- The text behind the header of an object's bytes.
unfoldable pub body_of : Object → Bytes
body_of (commit c) = commit_text c
body_of (tree t) = tree_entries t (names t)
body_of (blob b) = b
body_of (tag g) = tag_text g

abbrev pub header_of : Object → Bytes
header_of obj = type_string (type_of obj) ++ codes " " ++ print_nat (length (body_of obj))

-- Every object has canonical bytes: its type, its size, a zero byte and its text.
pub marshal_binary-eq-ok :
    (obj : Object) → marshal_binary obj ≡ ok (header_of obj ++ (0 ∷ body_of obj))
unfolding marshal_binary commit_binary tree_binary blob_binary tag_binary prepend_header type_string
    type_of body_of bytes_eq
marshal_binary-eq-ok (commit c) = refl
marshal_binary-eq-ok (tree t) = refl
marshal_binary-eq-ok (blob b) = refl
marshal_binary-eq-ok (tag g) = refl

-- So Hash never fails.
pub hash-eq-ok :
    (sha1 : Bytes → ObjectId) (obj : Object)
    → hash sha1 obj ≡ ok (sha1 (header_of obj ++ (0 ∷ body_of obj)))
unfolding hash
hash-eq-ok sha1 obj = rw (marshal_binary-eq-ok obj)
