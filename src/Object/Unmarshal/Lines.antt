-- ===== src/Object/Unmarshal/Lines.antt =====
-- The lines of commits and tags, and the header of an object, are scanned as they are printed.
use go_git_scm.Base.{
  ℕ, zero, suc, ◌^◌, ◌<◌, ◌≡◌, refl, true, not, List, [], ◌∷◌, ◌++◌, none, some, pos, length,
  append_assoc, All, arith, codes, bytes_eq,
}
use go_git_scm.Fmt.Rune.{is_space}
use go_git_scm.Fmt.Scan.{Scan, ◌>>◌, skip_space, literal, literals, space}
use go_git_scm.Fmt.Reads.{
  Stops, IsAscii, skip_space_lem, read_rune_ascii, token_lem, literal_lem, literals_lem, space_lem,
  newline_lem,
}
use go_git_scm.Object.{Bytes, ObjectId, Signature, type_string}
use go_git_scm.Object.Print.{id_string, signature_string, print_nat}
use go_git_scm.Object.Marshal.{print_line, parent_lines}
use go_git_scm.Object.Scan.{scan_id, scan_type, type_named, scan_signature}
use go_git_scm.Object.Scan.Number.{scan_int-print_nat, Stops-digits}
use go_git_scm.Object.Scan.Text.{
  IsId, Stops-id_string, scan_id-id_string, IsSignature, space_signature,
}
use go_git_scm.Object.Unmarshal.{scan_line, parents_after, parents_loop, scan_header}

pub print_line_text :
    (word v ys : Bytes) → print_line word v ++ ys ≡ word ++ (32 ∷ (v ++ (10 ∷ ys)))
unfolding print_line
print_line_text word v ys = simp (append_assoc) refl

-- Where the verb scans the value up to the newline, so is the line.
line_lem :
    {A : Type 0} (word v ys : Bytes) (verb : Scan A) (a : A)
    → All IsAscii word
    → (space >> skip_space >> verb) (32 ∷ (v ++ (10 ∷ ys))) ≡ (some a, 10 ∷ ys)
    → scan_line word verb (print_line word v ++ ys) ≡ (some a, ys)
unfolding scan_line
line_lem word v ys verb a ascii reads =
    rw
      (
        print_line_text word v ys,
        literals_lem word (32 ∷ (v ++ (10 ∷ ys))) ascii,
        reads,
        newline_lem ys,
      )
      refl

-- A value that begins with no space is scanned behind the one space.
pub solid_line :
    {A : Type 0} (word v ys : Bytes) (verb : Scan A) (a : A)
    → All IsAscii word
    → Stops is_space (v ++ (10 ∷ ys))
    → verb (v ++ (10 ∷ ys)) ≡ (some a, 10 ∷ ys)
    → scan_line word verb (print_line word v ++ ys) ≡ (some a, ys)
solid_line word v ys verb a ascii solid reads =
    line_lem word v ys verb a ascii
      (rw (space_lem (v ++ (10 ∷ ys)) solid, skip_space_lem (v ++ (10 ∷ ys)) solid) reads)

pub id_line :
    (word : Bytes) (id ys : Bytes)
    → All IsAscii word
    → IsId id
    → scan_line word scan_id (print_line word (id_string id) ++ ys) ≡ (some id, ys)
id_line word id ys ascii h =
    solid_line word (id_string id) ys scan_id id ascii (Stops-id_string id (10 ∷ ys) h)
      (scan_id-id_string id (10 ∷ ys) h)

pub signature_line :
    (word : Bytes) (s : Signature) (ys : Bytes)
    → All IsAscii word
    → IsSignature s
    → scan_line word scan_signature (print_line word (signature_string s) ++ ys) ≡ (some s, ys)
signature_line word s ys ascii h =
    line_lem word (signature_string s) ys scan_signature s ascii (space_signature s ys h)

-- One of the four types.
pub data IsType : ℕ → Type 0 where
  is_commit : IsType 1
  is_tree : IsType 2
  is_blob : IsType 3
  is_tag : IsType 4

type_reads :
    (c : ℕ) (w ys : Bytes) (t : ℕ)
    → All (λ r. IsAscii r × (not (is_space r) ≡ true)) (c ∷ w)
    → Stops (λ r. not (is_space r)) ys
    → ((s : Bytes) → type_named (c ∷ w) s ≡ (some t, s))
    → scan_type ((c ∷ w) ++ ys) ≡ (some t, ys)
unfolding scan_type
type_reads c w ys t h stop named =
    rw
      (
        skip_space_lem ((c ∷ w) ++ ys) (h.0.0, ground arith),
        token_lem (λ r. not (is_space r)) (c ∷ w) ys h stop,
      )
      (named ys)

-- The name of a type is scanned up to a space.
pub scan_type-type_string :
    (t : ℕ) (ys : Bytes)
    → IsType t
    → Stops (λ r. not (is_space r)) ys
    → scan_type (type_string t ++ ys) ≡ (some t, ys)
unfolding type_string type_named bytes_eq is_space
scan_type-type_string t ys is_commit stop =
    type_reads b'c' (codes "ommit") ys 1
      (
        (omega arith, refl),
        (
          (omega arith, refl),
          (
            (omega arith, refl),
            ((omega arith, refl), ((omega arith, refl), ((omega arith, refl), tt))),
          ),
        ),
      )
      stop (λ s. refl)
scan_type-type_string t ys is_tree stop =
    type_reads b't' (codes "ree") ys 2
      ((omega arith, refl), ((omega arith, refl), ((omega arith, refl), ((omega arith, refl), tt))))
      stop (λ s. refl)
scan_type-type_string t ys is_blob stop =
    type_reads b'b' (codes "lob") ys 3
      ((omega arith, refl), ((omega arith, refl), ((omega arith, refl), ((omega arith, refl), tt))))
      stop (λ s. refl)
scan_type-type_string t ys is_tag stop =
    type_reads b't' (codes "ag") ys 4
      ((omega arith, refl), ((omega arith, refl), ((omega arith, refl), tt))) stop (λ s. refl)

no_parent : (ys : Bytes) → scan_line (codes "parent") scan_id (b'a' ∷ ys) ≡ (none, b'a' ∷ ys)
unfolding scan_line literals literal
no_parent ys = rw (read_rune_ascii b'a' ys (omega arith), literal) refl

-- The parents are scanned up to the line of the author.
pub parents_loop-parent_lines :
    (fuel : ℕ) (ids : List ObjectId) (ys : Bytes)
    → All IsId ids
    → length ids < fuel
    → parents_loop fuel (parent_lines ids ++ (b'a' ∷ ys)) ≡ (some ids, b'a' ∷ ys)
unfolding parents_loop parents_after parent_lines
parents_loop-parent_lines zero ids ys h enough = absurd (omega arith)
parents_loop-parent_lines (suc fuel) [] ys h enough = rw (no_parent ys) refl
parents_loop-parent_lines (suc fuel) (id ∷ ids) ys (h, hs) enough =
    rw
      (
        append_assoc (print_line (codes "parent") (id_string id)) (parent_lines ids) (b'a' ∷ ys),
        id_line (codes "parent") id (parent_lines ids ++ (b'a' ∷ ys)) (omega arith) h,
        parents_loop-parent_lines fuel ids ys hs (omega arith),
      )
      refl

header_text :
    (t n : ℕ) (ys : Bytes)
    → (type_string t ++ codes " " ++ print_nat n) ++ (0 ∷ ys)
      ≡ type_string t ++ (32 ∷ (print_nat n ++ (0 ∷ ys)))
header_text t n ys = simp (append_assoc) refl

-- The header of an object is scanned as its type and its size.
pub scan_header_lem :
    (t n : ℕ) (ys : Bytes)
    → IsType t
    → n < 2 ^ 63
    → scan_header ((type_string t ++ codes " " ++ print_nat n) ++ (0 ∷ ys)) ≡ (some (t, pos n), ys)
unfolding scan_header
scan_header_lem t n ys h small =
    let size = print_nat n ++ (0 ∷ ys) in
    rw
      (
        header_text t n ys,
        scan_type-type_string t (32 ∷ size) h (omega arith, unfold is_space in refl),
        space_lem size (unfold print_nat in Stops-digits 10 n (0 ∷ ys) (omega arith) (omega arith)),
        scan_int-print_nat n (0 ∷ ys) small (omega arith, refl),
        literal_lem 0 ys (omega arith),
      )
      refl
