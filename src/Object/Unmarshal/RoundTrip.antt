-- ===== src/Object/Unmarshal/RoundTrip.antt =====
-- What the commits, tags and blobs marshal to is read back by Unmarshal.
use go_git_scm.Base.{
  ℕ, ◌≤◌, ◌≡◌, ◌≢◌, refl, true, not, List, [], ◌∷◌, ◌++◌, some, length, length-append, append_assoc,
  All, arith, codes,
}
use go_git_scm.Fmt.Rune.{is_space}
use go_git_scm.Fmt.Scan.{scan_word, word_at}
use go_git_scm.Fmt.Reads.{Stops, IsAscii, skip_space_lem, token_lem, newline_lem}
use go_git_scm.Object.{Bytes, ObjectId, Commit, Tag, type_string}
use go_git_scm.Object.Print.{id_string, signature_string}
use go_git_scm.Object.Marshal.{print_line, parent_lines, commit_text, tag_text}
use go_git_scm.Object.Scan.{scan_type}
use go_git_scm.Object.Scan.Text.{IsId, IsSignature}
use go_git_scm.Object.Unmarshal.{
  scan_line, scan_parents, scan_commit, commit_from_text, scan_tag, tag_from_text,
}
use go_git_scm.Object.Unmarshal.Lines.{
  print_line_text, solid_line, id_line, signature_line, parents_loop-parent_lines, IsType,
  is_commit, is_tree, is_blob, is_tag, scan_type-type_string,
}

parents_length : (ids : List ObjectId) → length ids ≤ length (parent_lines ids)
unfolding parent_lines
parents_length [] = omega arith
parents_length (id ∷ ids) =
    let line : 1 ≤ length (print_line (codes "parent") (id_string id)) =
      unfold print_line in omega arith in
    omega (
      arith,
      parents_length ids,
      length-append (print_line (codes "parent") (id_string id)) (parent_lines ids),
    )

scan_parents-parent_lines :
    (ids : List ObjectId) (ys : Bytes)
    → All IsId ids
    → scan_parents (parent_lines ids ++ (b'a' ∷ ys)) ≡ (some ids, b'a' ∷ ys)
unfolding scan_parents
scan_parents-parent_lines ids ys h =
    parents_loop-parent_lines (length (parent_lines ids ++ (b'a' ∷ ys))) ids ys h
      (omega (arith, parents_length ids, length-append (parent_lines ids) (b'a' ∷ ys)))

before_author :
    (ids : List ObjectId) (v ys : Bytes)
    → All IsId ids
    → scan_parents (parent_lines ids ++ (print_line (codes "author") v ++ ys))
      ≡ (some ids, print_line (codes "author") v ++ ys)
before_author ids v ys h =
    rw (print_line_text (codes "author") v ys) (scan_parents-parent_lines ids _ h)

-- A commit whose IDs have 20 bytes and whose signatures can be read back.
pub record IsCommit (c : Commit) : Type 0 where
  pub tree : IsId c.tree
  pub parent : All IsId c.parent
  pub author : IsSignature c.author
  pub committer : IsSignature c.committer

commit_layout :
    (c : Commit)
    → commit_text c
      ≡ print_line (codes "tree") (id_string c.tree)
        ++ (parent_lines c.parent
            ++ (print_line (codes "author") (signature_string c.author)
                ++ (print_line (codes "committer") (signature_string c.committer)
                    ++ (10 ∷ c.message))))
unfolding commit_text
commit_layout c = simp (append_assoc) refl

-- A commit is read back from its text.
pub commit_from_text-commit_text :
    (c : Commit) → IsCommit c → commit_from_text (commit_text c) ≡ some c
unfolding commit_from_text scan_commit
commit_from_text-commit_text c h =
    let rest = print_line (codes "committer") (signature_string c.committer) ++ (10 ∷ c.message) in
    let lines = print_line (codes "author") (signature_string c.author) ++ rest in
    rw
      (
        commit_layout c,
        commit_from_text,
        scan_commit,
        id_line (codes "tree") c.tree (parent_lines c.parent ++ lines) (omega arith) h.tree,
        before_author c.parent (signature_string c.author) rest h.parent,
        signature_line (codes "author") c.author rest (omega arith) h.author,
        signature_line (codes "committer") c.committer (10 ∷ c.message) (omega arith) h.committer,
        newline_lem c.message,
      )
      refl

-- A tag name that is read as one word.
abbrev pub IsWord : Bytes → Type 0
IsWord w = (w ≢ []) × All (λ r. IsAscii r × (not (is_space r) ≡ true)) w

-- A tag of a standard type, whose ID has 20 bytes, whose name is one word and whose signature can be read back.
pub record IsTag (g : Tag) : Type 0 where
  pub object : IsId g.object
  pub type_code : IsType g.type_code
  pub tag : IsWord g.tag
  pub tagger : IsSignature g.tagger

Stops-word : (w ys : Bytes) → IsWord w → Stops is_space (w ++ ys)
Stops-word [] ys (some_byte, h) = absurd (some_byte refl)
Stops-word (c ∷ w) ys (some_byte, ((small, solid), h)) = (small, ground arith)

scan_word_lem :
    (w ys : Bytes)
    → IsWord w
    → Stops (λ r. not (is_space r)) ys
    → scan_word (w ++ ys) ≡ (some w, ys)
unfolding scan_word word_at
scan_word_lem [] ys (some_byte, h) stop = absurd (some_byte refl)
scan_word_lem (c ∷ w) ys h stop =
    rw (skip_space_lem ((c ∷ w) ++ ys) (Stops-word (c ∷ w) ys h))
      (token_lem (λ r. not (is_space r)) (c ∷ w) ys (h.1) stop)

Stops-type_string : (t : ℕ) (ys : Bytes) → IsType t → Stops is_space (type_string t ++ ys)
unfolding type_string
Stops-type_string t ys is_commit = (omega arith, unfold is_space in refl)
Stops-type_string t ys is_tree = (omega arith, unfold is_space in refl)
Stops-type_string t ys is_blob = (omega arith, unfold is_space in refl)
Stops-type_string t ys is_tag = (omega arith, unfold is_space in refl)

newline_stop : (ys : Bytes) → Stops (λ r. not (is_space r)) (10 ∷ ys)
newline_stop ys = (omega arith, unfold is_space in refl)

type_line :
    (t : ℕ) (ys : Bytes)
    → IsType t
    → scan_line (codes "type") scan_type (print_line (codes "type") (type_string t) ++ ys)
      ≡ (some t, ys)
type_line t ys h =
    solid_line (codes "type") (type_string t) ys scan_type t (omega arith)
      (Stops-type_string t (10 ∷ ys) h) (scan_type-type_string t (10 ∷ ys) h (newline_stop ys))

word_line :
    (w ys : Bytes)
    → IsWord w
    → scan_line (codes "tag") scan_word (print_line (codes "tag") w ++ ys) ≡ (some w, ys)
word_line w ys h =
    solid_line (codes "tag") w ys scan_word w (omega arith) (Stops-word w (10 ∷ ys) h)
      (scan_word_lem w (10 ∷ ys) h (newline_stop ys))

tag_layout :
    (g : Tag)
    → tag_text g
      ≡ print_line (codes "object") (id_string g.object)
        ++ (print_line (codes "type") (type_string g.type_code)
            ++ (print_line (codes "tag") g.tag
                ++ (print_line (codes "tagger") (signature_string g.tagger) ++ (10 ∷ g.message))))
unfolding tag_text
tag_layout g = simp (append_assoc) refl

-- A tag is read back from its text.
pub tag_from_text-tag_text : (g : Tag) → IsTag g → tag_from_text (tag_text g) ≡ some g
unfolding tag_from_text scan_tag
tag_from_text-tag_text g h =
    let rest = print_line (codes "tagger") (signature_string g.tagger) ++ (10 ∷ g.message) in
    let named = print_line (codes "tag") g.tag ++ rest in
    rw
      (
        tag_layout g,
        tag_from_text,
        scan_tag,
        id_line (codes "object") g.object
            (print_line (codes "type") (type_string g.type_code) ++ named) (omega arith) h.object,
        type_line g.type_code named h.type_code,
        word_line g.tag rest h.tag,
        signature_line (codes "tagger") g.tagger (10 ∷ g.message) (omega arith) h.tagger,
        newline_lem g.message,
      )
      refl
