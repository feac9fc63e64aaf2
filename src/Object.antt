-- ===== src/Object.antt =====
-- object: the Git objects, their types and their canonical bytes. Strings and byte slices are lists of
-- bytes. A `Tree` is the list of its entries in the order in which the map is walked, each name once.
pub mod Print
pub mod Marshal
pub mod Decode
pub mod Scan
pub mod Unmarshal
pub mod Properties
mod Tests
use go_git_scm.Base.{ℕ, ◌||◌, List, [], ◌∷◌, ℤ, ◌==◌, if◌then◌else◌, replicate, codes}

abbrev pub Bytes : Type 0
Bytes = List ℕ

-- An ID: `sha1.Size` bytes.
abbrev pub ObjectId : Type 0
ObjectId = List ℕ

abbrev pub id_size : ℕ
id_size = 20

abbrev pub zero_id : ObjectId
zero_id = replicate id_size 0

-- `Date` is its Unix time and the offset of its zone in seconds.
pub record Signature : Type 0 where
  pub name : Bytes
  pub email : Bytes
  pub unix : ℤ
  pub offset : ℤ

pub record Commit : Type 0 where
  pub tree : ObjectId
  pub parent : List ObjectId
  pub author : Signature
  pub committer : Signature
  pub message : Bytes

pub record TreeInfo : Type 0 where
  pub mode : ℕ
  pub object : ObjectId

abbrev pub Tree : Type 0
Tree = List (Bytes × TreeInfo)

pub record Tag : Type 0 where
  pub object : ObjectId
  pub type_code : ℕ
  pub tag : Bytes
  pub tagger : Signature
  pub message : Bytes

-- The four implementations of Interface.
pub data Object : Type 0 where
  commit : Commit → Object
  tree : Tree → Object
  blob : Bytes → Object
  tag : Tag → Object

-- The constants of Type.
abbrev pub type_unknown : ℕ
type_unknown = 0

abbrev pub type_commit : ℕ
type_commit = 1

abbrev pub type_tree : ℕ
type_tree = 2

abbrev pub type_blob : ℕ
type_blob = 3

abbrev pub type_tag : ℕ
type_tag = 4

abbrev pub type_reserved : ℕ
type_reserved = 5

unfoldable pub type_of : Object → ℕ
type_of (commit c) = type_commit
type_of (tree t) = type_tree
type_of (blob b) = type_blob
type_of (tag g) = type_tag

-- The method String of Type.
unfoldable pub type_string : ℕ → Bytes
type_string t =
    if t == type_commit
    then codes "commit"
    else (if t == type_tree
        then codes "tree"
        else (if t == type_blob then codes "blob" else (if t == type_tag then codes "tag" else [])))

-- The modes of tree entries.
abbrev pub mode_tree : ℕ
mode_tree = 0o040000

abbrev pub mode_blob : ℕ
mode_blob = 0o100644

abbrev pub mode_exec : ℕ
mode_exec = 0o100755

abbrev pub mode_symlink : ℕ
mode_symlink = 0o120000

abbrev pub mode_gitlink : ℕ
mode_gitlink = 0o160000

-- The method Type of TreeMode.
unfoldable pub mode_type : ℕ → ℕ
mode_type m =
    if m == mode_tree
    then type_tree
    else (if m == mode_blob || (m == mode_exec || m == mode_symlink)
        then type_blob
        else (if m == mode_gitlink then type_commit else type_unknown))
