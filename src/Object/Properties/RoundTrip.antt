-- ===== src/Object/Properties/RoundTrip.antt =====
-- What is saved is loaded again.
use go_git_scm.Base.{
  append-nil, sym, ℕ, ◌≡◌, refl, ap, ◌∙◌, List, [], ◌∷◌, ◌++◌, append_assoc, some, All, bytes_eq,
  codes,
}
use go_git_scm.Base.Map.{lookup, insert}
use go_git_scm.Fmt.Rune.{is_space, read_rune, decode_rune, encode_rune}
use go_git_scm.Fmt.Scan.{span, span_loop, token}
use go_git_scm.Object.{Bytes, ObjectId, Signature, Commit, Tag, type_string}
use go_git_scm.Object.Print.{id_string}
use go_git_scm.Object.Decode.RoundTrip.{decode_id-id_string}
use go_git_scm.Object.Scan.{type_named}
use go_git_scm.Object.Scan.Text.{IsId}
use go_git_scm.Object.Unmarshal.Lines.{IsType, is_commit, is_tree, is_blob, is_tag}
use go_git_scm.Object.Properties.{
  Value, text, Property, Field, single, many, Fields, split_dot, nested_of, many_of, parse_prop,
  parse_props, prefix_props, as_text, as_unix, as_int, as_nested, must_decode_id, must_decode_type,
  plain_prop, no_index_prop, multiple_prop, save_signature, load_signature, save_tag, load_tag,
  parent_props, save_commit, load_parents, load_commit,
}

pub must_decode_id-id_string : (id : ObjectId) → IsId id → must_decode_id (id_string id) ≡ some id
unfolding must_decode_id
must_decode_id-id_string id (n, h) = rw (decode_id-id_string id h, must_decode_id, n) refl

pub must_decode_type-type_string : (t : ℕ) → IsType t → must_decode_type (type_string t) ≡ some t
unfolding must_decode_type type_string span span_loop read_rune decode_rune encode_rune is_space
    token type_named bytes_eq
must_decode_type-type_string t is_commit = refl
must_decode_type-type_string t is_tree = refl
must_decode_type-type_string t is_blob = refl
must_decode_type-type_string t is_tag = refl

-- A signature is loaded from the properties that it is saved as.
pub load_signature-save_signature : (s : Signature) → load_signature (save_signature s) ≡ some s
unfolding load_signature save_signature parse_props parse_prop split_dot plain_prop lookup insert
    bytes_eq as_text as_unix as_int
load_signature-save_signature s = refl

-- A tag of a standard type that names an object by twenty bytes is loaded from the properties that it is saved as.
pub load_tag-save_tag :
    (g : Tag) → IsId g.object → IsType g.type_code → load_tag (save_tag g) ≡ some g
unfolding load_tag save_tag prefix_props save_signature load_signature parse_props parse_prop
    split_dot plain_prop no_index_prop lookup insert bytes_eq as_text as_unix as_int as_nested
    nested_of
load_tag-save_tag g id t =
    rw (must_decode_id-id_string g.object id, load_tag, must_decode_type-type_string g.type_code t)
      refl

parse_props-append :
    (m : Fields) (xs ys : List Property)
    → parse_props m (xs ++ ys) ≡ parse_props (parse_props m xs) ys
unfolding parse_props
parse_props-append m [] ys = refl
parse_props-append m (x ∷ xs) ys = parse_props-append (parse_prop m x) xs ys

unfoldable values : List ObjectId → List Value
values [] = []
values (p ∷ ps) = text (id_string p) ∷ values ps

load_parents-values : (ps : List ObjectId) → All IsId ps → load_parents (values ps) ≡ some ps
unfolding load_parents values as_text
load_parents-values [] h = refl
load_parents-values (p ∷ ps) (h, hs) =
    rw (must_decode_id-id_string p h, load_parents, load_parents-values ps hs) refl

-- The fields of a commit up to its parents.
unfoldable first_fields : Field → Field → List Value → Fields
first_fields a b vs = (codes "Tree", a) ∷ (codes "Message", b) ∷ (codes "Parent", many vs) ∷ []

more_parents :
    (a b : Field) (vs : List Value) (ps : List ObjectId)
    → parse_props (first_fields a b vs) (parent_props ps) ≡ first_fields a b (vs ++ values ps)
unfolding parse_props parse_prop parent_props values first_fields split_dot multiple_prop lookup
    insert bytes_eq many_of
more_parents a b vs [] = ap (first_fields a b) (sym (append-nil vs))
more_parents a b vs (p ∷ ps) =
    more_parents a b (vs ++ (text (id_string p) ∷ [])) ps
    ∙ ap (first_fields a b) (append_assoc vs (text (id_string p) ∷ []) (values ps))

load_commit_lem :
    (root : ObjectId) (ps : List ObjectId) (author committer : Signature) (message : Bytes)
    → IsId root
    → All IsId ps
    → let c : Commit = record {
      tree = root;
      parent = ps;
      author = author;
      committer = committer;
      message = message;
    } in
      load_commit (save_commit c) ≡ some c
unfolding load_commit save_commit prefix_props save_signature load_signature parse_props parse_prop
    split_dot plain_prop no_index_prop parent_props multiple_prop lookup insert bytes_eq as_text
    as_unix as_int as_nested nested_of many_of load_parents first_fields values
load_commit_lem root [] author committer message h hs =
    rw (must_decode_id-id_string root h, load_commit) refl
load_commit_lem root (p ∷ ps) author committer message h (k, ks) =
    let a = single (text (id_string root)) in
    let b = single (text message) in
    let rest =
      prefix_props (codes "Author") (save_signature author)
      ++ prefix_props (codes "Committer") (save_signature committer) in
    rw
      (
        parse_props-append (first_fields a b (text (id_string p) ∷ [])) (parent_props ps) rest,
        more_parents a b (text (id_string p) ∷ []) ps,
        must_decode_id-id_string root h,
        load_commit,
        must_decode_id-id_string p k,
        load_parents-values ps ks,
      )
      refl

-- A commit whose IDs have twenty bytes is loaded from the properties that it is saved as.
pub load_commit-save_commit :
    (c : Commit) → IsId c.tree → All IsId c.parent → load_commit (save_commit c) ≡ some c
load_commit-save_commit c h hs = load_commit_lem c.tree c.parent c.author c.committer c.message h hs
