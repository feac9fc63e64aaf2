-- ===== src/Object/Properties.antt =====
-- object/appengine.go: the lists of properties that objects are saved as and loaded from. The datastore is not in the
-- repository; `Property` has the fields of its properties that the file sets. An error, also a panic that the
-- deferred handler turns into one, is none.
pub mod RoundTrip
pub mod Trees
pub mod Kinds
pub mod Loads
use go_git_scm.Base.{
  ℕ, Bool, true, false, not, List, [], ◌∷◌, ◌++◌, Option, none, some, Result, ok, err, ℤ, pos,
  negsuc, ◌-◌, ◌%◌, ◌^◌, ◌==◌, if◌then◌else◌, codes, map,
}
use go_git_scm.Base.Map.{lookup, insert}
use go_git_scm.Fmt.Rune.{is_space}
use go_git_scm.Fmt.Scan.{span, after, token}
use go_git_scm.Object.{Bytes, ObjectId, Signature, Commit, TreeInfo, Tree, Tag, type_string}
use go_git_scm.Object.Print.{id_string}
use go_git_scm.Object.Decode.{decode_id}
use go_git_scm.Object.Scan.{type_named}

-- A string, a byte slice, an int64, and a time.Time with its Unix time and the offset of its zone.
pub data Value : Type 0 where
  text : Bytes → Value
  bytes : Bytes → Value
  int : ℤ → Value
  date : ℤ → ℤ → Value

-- datastore.Property
pub record Property : Type 0 where
  pub name : Bytes
  pub value : Value
  pub no_index : Bool
  pub multiple : Bool

-- The values of the map that parseProps makes.
pub data Field : Type 0 where
  single : Value → Field
  many : List Value → Field
  nested : List Property → Field

abbrev pub Fields : Type 0
Fields = List (Bytes × Field)

-- strings.SplitN(s, ".", 2), where none is one component
unfoldable pub split_dot : Bytes → Option (Bytes × Bytes)
split_dot [] = none
split_dot (c ∷ s) =
    let rest : Option (Bytes × Bytes) = elim (split_dot s) [
      | none ↦ none
      | some (a, b) ↦ some (c ∷ a, b)
    ] in
    if c == b'.' then some ([], s) else rest

-- `m[name].([]datastore.Property)` and `m[name].([]interface{})`, which are nil if there is another value
unfoldable pub nested_of : Option Field → List Property
nested_of (some (nested props)) = props
nested_of f = []

unfoldable pub many_of : Option Field → List Value
many_of (some (many values)) = values
many_of f = []

unfoldable pub parse_prop : Fields → Property → Fields
parse_prop m prop = elim (split_dot prop.name) [
  | some (name, rest) ↦
      insert name (nested (nested_of (lookup name m) ++ (record prop { name = rest } ∷ []))) m
  | none ↦
      if prop.multiple
      then insert prop.name (many (many_of (lookup prop.name m) ++ (prop.value ∷ []))) m
      else insert prop.name (single prop.value) m
]

unfoldable pub parse_props : Fields → List Property → Fields
parse_props m [] = m
parse_props m (p ∷ ps) = parse_props (parse_prop m p) ps

unfoldable pub prefix_props : Bytes → List Property → List Property
prefix_props prefix [] = []
prefix_props prefix (p ∷ ps) =
    record p { name = prefix ++ codes "." ++ p.name } ∷ prefix_props prefix ps

-- The assertions on the type of a value.
unfoldable pub as_text : Option Field → Option Bytes
as_text (some (single (text s))) = some s
as_text f = none

unfoldable pub as_bytes : Option Field → Option Bytes
as_bytes (some (single (bytes s))) = some s
as_bytes f = none

unfoldable pub as_int : Option Field → Option ℤ
as_int (some (single (int n))) = some n
as_int f = none

-- The Unix time is all that is used of a time.
unfoldable pub as_unix : Option Field → Option ℤ
as_unix (some (single (date unix offset))) = some unix
as_unix f = none

unfoldable pub as_nested : Option Field → Option (List Property)
as_nested (some (nested props)) = some props
as_nested f = none

infixl 5 ◌>>=◌
abbrev ◌>>=◌ : {A B : Type 0} → Option A → (A → Option B) → Option B
none >>= f = none
some a >>= f = f a

unfoldable pub must_decode_id : Bytes → Option ObjectId
must_decode_id s = elim (decode_id s) [ ok id ↦ some id | err e ↦ none ]

-- fmt.Sscan, for which a newline is a space
unfoldable pub must_decode_type : Bytes → Option ℕ
must_decode_type s = (after (token (λ r. not (is_space r)) (span is_space s).1) type_named).0

unfoldable pub plain_prop : Bytes → Value → Property
plain_prop name value = record { name = name; value = value; no_index = false; multiple = false }

unfoldable pub no_index_prop : Bytes → Value → Property
no_index_prop name value = record { name = name; value = value; no_index = true; multiple = false }

unfoldable pub multiple_prop : Bytes → Value → Property
multiple_prop name value = record { name = name; value = value; no_index = false; multiple = true }

unfoldable pub save_id : ObjectId → List Property
save_id id = plain_prop (codes "ID") (text (id_string id)) ∷ []

unfoldable pub load_id : List Property → Option ObjectId
load_id props = as_text (lookup (codes "ID") (parse_props [] props)) >>= must_decode_id

unfoldable pub save_signature : Signature → List Property
save_signature s =
    plain_prop (codes "Name") (text s.name)
    ∷ plain_prop (codes "Email") (text s.email)
    ∷ plain_prop (codes "Date") (date s.unix s.offset)
    ∷ plain_prop (codes "TZ") (int s.offset)
    ∷ []

unfoldable pub load_signature : List Property → Option Signature
load_signature props =
    let m = parse_props [] props in
    do
      name ← as_text (lookup (codes "Name") m)
      email ← as_text (lookup (codes "Email") m)
      unix ← as_unix (lookup (codes "Date") m)
      offset ← as_int (lookup (codes "TZ") m)
      some (record { name = name; email = email; unix = unix; offset = offset })

unfoldable pub save_type : ℕ → List Property
save_type t = plain_prop (codes "Type") (text (type_string t)) ∷ []

unfoldable pub load_type : List Property → Option ℕ
load_type props = as_text (lookup (codes "Type") (parse_props [] props)) >>= must_decode_type

unfoldable pub save_blob : Bytes → List Property
save_blob b = no_index_prop (codes "Contents") (bytes b) ∷ []

unfoldable pub load_blob : List Property → Option Bytes
load_blob props = as_bytes (lookup (codes "Contents") (parse_props [] props))

unfoldable pub save_tag : Tag → List Property
save_tag g =
    (plain_prop (codes "Object") (text (id_string g.object))
      ∷ plain_prop (codes "Type") (text (type_string g.type_code))
      ∷ plain_prop (codes "Tag") (text g.tag)
      ∷ no_index_prop (codes "Message") (text g.message)
      ∷ [])
    ++ prefix_props (codes "Tagger") (save_signature g.tagger)

unfoldable pub load_tag : List Property → Option Tag
load_tag props =
    let m = parse_props [] props in
    do
      object ← as_text (lookup (codes "Object") m) >>= must_decode_id
      t ← as_text (lookup (codes "Type") m) >>= must_decode_type
      name ← as_text (lookup (codes "Tag") m)
      message ← as_text (lookup (codes "Message") m)
      tagger ← as_nested (lookup (codes "Tagger") m) >>= load_signature
      some (record {
        object = object;
        type_code = t;
        tag = name;
        tagger = tagger;
        message = message;
      })

unfoldable pub parent_props : List ObjectId → List Property
parent_props [] = []
parent_props (p ∷ ps) = multiple_prop (codes "Parent") (text (id_string p)) ∷ parent_props ps

unfoldable pub save_commit : Commit → List Property
save_commit c =
    (plain_prop (codes "Tree") (text (id_string c.tree))
      ∷ no_index_prop (codes "Message") (text c.message)
      ∷ [])
    ++ (parent_props c.parent
        ++ (prefix_props (codes "Author") (save_signature c.author)
            ++ prefix_props (codes "Committer") (save_signature c.committer)))

-- `parent.(string)` of each parent
unfoldable pub load_parents : List Value → Option (List ObjectId)
load_parents [] = some []
load_parents (v ∷ vs) = do
  p ← as_text (some (single v)) >>= must_decode_id
  ps ← load_parents vs
  some (p ∷ ps)

unfoldable pub load_commit : List Property → Option Commit
load_commit props =
    let m = parse_props [] props in
    do
      root ← as_text (lookup (codes "Tree") m) >>= must_decode_id
      message ← as_text (lookup (codes "Message") m)
      parent ← load_parents (many_of (lookup (codes "Parent") m))
      author ← as_nested (lookup (codes "Author") m) >>= load_signature
      committer ← as_nested (lookup (codes "Committer") m) >>= load_signature
      some (record {
        tree = root;
        parent = parent;
        author = author;
        committer = committer;
        message = message;
      })

-- A mode is a uint32.
unfoldable pub save_tree : Tree → List Property
save_tree [] = []
save_tree ((name, ti) ∷ t) =
    multiple_prop (codes "Name") (text name)
    ∷ multiple_prop (codes "Mode") (int (pos ti.mode))
    ∷ multiple_prop (codes "Object") (text (id_string ti.object))
    ∷ save_tree t

-- `TreeMode(n)` of an int64
unfoldable pub tree_mode : ℤ → ℕ
tree_mode (pos n) = n % 2 ^ 32
tree_mode (negsuc n) = 2 ^ 32 - 1 - n % 2 ^ 32

-- The loop over the names: a mode or an object that is missing is a panic.
unfoldable pub load_entries : Tree → List Value → List Value → List Value → Option Tree
load_entries t [] modes objects = some t
load_entries t (n ∷ ns) (m ∷ modes) (o ∷ objects) = do
  name ← as_text (some (single n))
  mode ← as_int (some (single m))
  object ← as_text (some (single o)) >>= must_decode_id
  load_entries (insert name (record { mode = tree_mode mode; object = object }) t) ns modes objects
load_entries t (n ∷ ns) modes objects = none

unfoldable pub load_tree : List Property → Option Tree
load_tree props =
    let m = parse_props [] props in
    load_entries [] (many_of (lookup (codes "Name") m)) (many_of (lookup (codes "Mode") m))
      (many_of (lookup (codes "Object") m))
