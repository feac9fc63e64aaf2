-- ===== src/Object/Unmarshal/Trees.antt =====
-- A tree is read back from its entries.
use go_git_scm.Base.{
  ℕ, zero, suc, ◌^◌, ◌≤◌, ◌<◌, ◌≡◌, ◌≢◌, refl, sym, ap, subst, Bool-cases, inl, inr, le→ltb, ◌∙◌,
  true, not, List, [], ◌∷◌, ◌++◌, some, length, length-append, append_assoc, All, arith,
  take-append, drop-append, codes, bytes_eq, bytes_eq_iff,
}
use go_git_scm.Base.Map.{lookup, insert}
use go_git_scm.Fmt.Rune.{is_space}
use go_git_scm.Fmt.Scan.{Scan}
use go_git_scm.Fmt.Reads.{Stops, IsAscii, skip_space_lem, token_lem, space_lem, literal_lem}
use go_git_scm.Object.{Bytes, TreeInfo, Tree}
use go_git_scm.Object.Print.{print_octal}
use go_git_scm.Object.Marshal.{names, entry_of, tree_entry, tree_entries}
use go_git_scm.Object.Scan.{
  one_of, trim_left, trim_right, trim, get_token, name_delims, scan_filename,
}
use go_git_scm.Object.Scan.Number.{scan_uint-print_octal}
use go_git_scm.Object.Scan.Text.{IsId}
use go_git_scm.Object.Unmarshal.{read_id, scan_entry, entries_loop, tree_from_entries}
use go_git_scm.Object.Unmarshal.Canonical.{Once, tree_entries-put_all}
use go_git_scm.Object.Unmarshal.Names.{
  has-names, is_some, Plain, put_all, lookup-put_all-names, All-has,
}

-- A name of a tree's entry that is read back: ASCII, without a zero byte, a newline or a slash, and with no
-- space in front.
pub record IsFilename (s : Bytes) : Type 0 where
  pub bytes : All (λ c. IsAscii c × (not (one_of name_delims c) ≡ true)) s
  pub begins : Stops is_space s

trim_left_none : (s : Bytes) → trim_left [] s ≡ s
unfolding trim_left one_of
trim_left_none [] = refl
trim_left_none (c ∷ s) = refl

trim_right_none : (s : Bytes) → trim_right [] s ≡ s
unfolding trim_right one_of
trim_right_none [] = refl
trim_right_none (c ∷ []) = refl
trim_right_none (c ∷ d ∷ s) = rw (trim_right_none (d ∷ s)) refl

trim_none : (s : Bytes) → trim [] s ≡ s
unfolding trim
trim_none s = ap (trim_right []) (trim_left_none s) ∙ trim_right_none s

-- A name is scanned up to a delimiter.
scan_filename_lem :
    (s ys : Bytes)
    → IsFilename s
    → Stops is_space (s ++ ys)
    → Stops (λ r. not (one_of name_delims r)) ys
    → scan_filename (s ++ ys) ≡ (some s, ys)
unfolding scan_filename get_token
scan_filename_lem s ys h solid stop =
    rw
      (
        skip_space_lem (s ++ ys) solid,
        token_lem (λ r. not (one_of name_delims r)) s ys h.bytes stop,
        trim_none s,
      )
      refl

-- An entry of a tree that is read back.
pub record IsEntry (n : Bytes) (ti : TreeInfo) : Type 0 where
  pub name : IsFilename n
  pub mode : ti.mode < 2 ^ 32
  pub object : IsId ti.object

entry_layout :
    (t : Tree) (n ys : Bytes)
    → tree_entry t n ++ ys
      ≡ print_octal (entry_of t n).mode ++ (32 ∷ (n ++ (0 ∷ ((entry_of t n).object ++ ys))))
unfolding tree_entry
entry_layout t n ys = simp (append_assoc) refl

Stops-name : (s ys : Bytes) → IsFilename s → Stops is_space (s ++ (0 ∷ ys))
Stops-name [] ys h = (omega arith, unfold is_space in refl)
Stops-name (c ∷ s) ys h = h.begins

read_id_lem : (id ys : Bytes) → IsId id → read_id (id ++ ys) ≡ (some id, ys)
unfolding read_id
read_id_lem id ys (n, h) =
    let short = le→ltb (length (id ++ ys)) 20 (omega (arith, length-append id ys)) in
    rw (take-append id ys 20 n, drop-append id ys 20 n) (rw short refl)

scan_entry-tree_entry :
    (t : Tree) (n ys : Bytes)
    → IsEntry n (entry_of t n)
    → scan_entry (tree_entry t n ++ ys) ≡ (some (n, entry_of t n), ys)
unfolding scan_entry
scan_entry-tree_entry t n ys h =
    let rest = (entry_of t n).object ++ ys in
    rw
      (
        entry_layout t n ys,
        scan_entry,
        scan_uint-print_octal 32 (entry_of t n).mode (32 ∷ (n ++ (0 ∷ rest))) h.mode
            (omega arith, refl),
        space_lem (n ++ (0 ∷ rest)) (Stops-name n rest h.name),
        scan_filename_lem n (0 ∷ rest) h.name (Stops-name n rest h.name)
            (omega arith, unfold one_of in refl),
        literal_lem 0 rest (omega arith),
        read_id_lem (entry_of t n).object ys h.object,
      )
      refl

-- One round of the loop.
round :
    (verb : Scan (Bytes × TreeInfo)) (fuel : ℕ) (acc : Tree) (s ys n : Bytes) (ti : TreeInfo)
    → 1 ≤ length s
    → verb s ≡ (some (n, ti), ys)
    → entries_loop verb (suc fuel) acc s ≡ entries_loop verb fuel (insert n ti acc) ys
unfolding entries_loop
round verb fuel acc [] ys n ti some_byte reads = absurd (omega arith)
round verb fuel acc (c ∷ s) ys n ti some_byte reads = rw reads refl

entry_length : (t : Tree) (n : Bytes) → 1 ≤ length (tree_entry t n)
unfolding tree_entry
entry_length t n = omega (
  arith,
  length-append (print_octal (entry_of t n).mode ++ codes " " ++ n) (0 ∷ (entry_of t n).object),
)

entries_loop-tree_entries :
    (t : Tree) (fuel : ℕ) (ns : List Bytes) (acc : Tree)
    → All (λ n. IsEntry n (entry_of t n)) ns
    → length ns ≤ fuel
    → entries_loop scan_entry fuel acc (tree_entries t ns) ≡ (some (put_all t ns acc), [])
unfolding tree_entries put_all entries_loop
entries_loop-tree_entries t fuel [] acc h enough = refl
entries_loop-tree_entries t zero (n ∷ ns) acc h enough = absurd (omega arith)
entries_loop-tree_entries t (suc fuel) (n ∷ ns) acc (h, hs) enough =
    round scan_entry fuel acc (tree_entry t n ++ tree_entries t ns) (tree_entries t ns) n
      (entry_of t n)
      (omega (arith, entry_length t n, length-append (tree_entry t n) (tree_entries t ns)))
      (scan_entry-tree_entry t n (tree_entries t ns) h)
    ∙ entries_loop-tree_entries t fuel ns (insert n (entry_of t n) acc) hs (omega arith)

entries_length : (t : Tree) (ns : List Bytes) → length ns ≤ length (tree_entries t ns)
unfolding tree_entries
entries_length t [] = omega arith
entries_length t (n ∷ ns) = omega (
  arith,
  entry_length t n,
  entries_length t ns,
  length-append (tree_entry t n) (tree_entries t ns),
)

-- Every entry of the tree can be read back.
abbrev pub IsTree : Tree → Type 0
IsTree = All (λ e. IsEntry (e.0) (e.1))

no_slash :
    (s : Bytes)
    → All (λ c. IsAscii c × (not (one_of name_delims c) ≡ true)) s
    → All (λ c. c ≢ b'/') s
no_slash [] h = tt
no_slash (c ∷ s) ((small, h), hs) = (unfold one_of in ground arith, no_slash s hs)

plain : (t : Tree) → IsTree t → Plain t
plain [] h = tt
plain ((n, ti) ∷ t) (h, hs) = (no_slash n h.name.bytes, plain t hs)

entry_of-IsEntry :
    (t : Tree) (n : Bytes) → IsTree t → is_some (lookup n t) ≡ true → IsEntry n (entry_of t n)
unfolding lookup entry_of
entry_of-IsEntry [] n h e = absurd (unfold is_some in cc)
entry_of-IsEntry ((m, ti) ∷ t) n (h, hs) e = elim (Bool-cases (bytes_eq m n)) [
  | inl b ↦ rw (b, entry_of) (subst (λ k. IsEntry k ti) ((bytes_eq_iff m n).0 b) h)
  | inr b ↦ rw (b, entry_of) (entry_of-IsEntry t n hs (rw b at e))
]

-- A tree is read back from its entries: the map that is read has the same entry under every name, and the
-- same entries in the same order are written for it.
pub lookup-tree_from_entries :
    (t : Tree)
    → IsTree t
    → Once t
    → (t' : Tree) × (tree_from_entries (tree_entries t (names t)) ≡ some t')
      × ((n : Bytes) → lookup n t' ≡ lookup n t)
      × (tree_entries t' (names t') ≡ tree_entries t (names t))
unfolding tree_from_entries
lookup-tree_from_entries t h once =
    let good =
      All-has {P = λ n. IsEntry n (entry_of t n)} (names t)
        (λ n k. entry_of-IsEntry t n h (sym (has-names t n (plain t h)) ∙ k)) in
    (
      put_all t (names t) [],
      rw
          (
            tree_from_entries,
            entries_loop-tree_entries t (length (tree_entries t (names t))) (names t) [] good
                (entries_length t (names t)),
          )
          refl,
      λ n. lookup-put_all-names t n (plain t h),
      tree_entries-put_all t (plain t h) once,
    )
