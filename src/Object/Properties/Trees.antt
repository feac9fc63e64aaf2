-- ===== src/Object/Properties/Trees.antt =====
-- A tree that is saved is loaded again.
use go_git_scm.Base.{
  append-nil, sym, ◌%◌, ◌^◌, ◌<◌, ◌≡◌, refl, ap, ◌∙◌, Bool-cases, inl, inr, List, [], ◌∷◌, ◌++◌,
  append_assoc, none, some, All, arith, bytes_eq, bytes_eq_iff, codes, pos,
}
use go_git_scm.Base.Map.{lookup, insert, lookup-insert}
use go_git_scm.Object.{Bytes, TreeInfo, Tree}
use go_git_scm.Object.Print.{id_string}
use go_git_scm.Object.Scan.Text.{IsId}
use go_git_scm.Object.Unmarshal.Canonical.{Once, insert_new}
use go_git_scm.Object.Properties.{
  Value, text, int, many, Fields, split_dot, many_of, parse_prop, parse_props, as_text, as_int,
  multiple_prop, save_tree, load_tree, load_entries, tree_mode,
}
use go_git_scm.Object.Properties.RoundTrip.{must_decode_id-id_string}

unfoldable names_of : Tree → List Value
names_of [] = []
names_of (e ∷ t) = text (e.0) ∷ names_of t

unfoldable modes_of : Tree → List Value
modes_of [] = []
modes_of (e ∷ t) = int (pos (e.1).mode) ∷ modes_of t

unfoldable objects_of : Tree → List Value
objects_of [] = []
objects_of (e ∷ t) = text (id_string (e.1).object) ∷ objects_of t

-- The fields of a tree.
unfoldable columns : List Value → List Value → List Value → Fields
columns ns ms os =
    (codes "Name", many ns) ∷ (codes "Mode", many ms) ∷ (codes "Object", many os) ∷ []

more_entries :
    (ns ms os : List Value) (t : Tree)
    → parse_props (columns ns ms os) (save_tree t)
      ≡ columns (ns ++ names_of t) (ms ++ modes_of t) (os ++ objects_of t)
unfolding parse_props parse_prop save_tree columns split_dot multiple_prop lookup insert bytes_eq
    many_of names_of modes_of objects_of
more_entries ns ms os [] = rw (append-nil ns, append-nil ms, append-nil os) refl
more_entries ns ms os ((n, ti) ∷ t) =
    more_entries (ns ++ (text n ∷ [])) (ms ++ (int (pos ti.mode) ∷ []))
      (os ++ (text (id_string ti.object) ∷ [])) t
    ∙ rw
        (
          append_assoc ns (text n ∷ []) (names_of t),
          append_assoc ms (int (pos ti.mode) ∷ []) (modes_of t),
          append_assoc os (text (id_string ti.object) ∷ []) (objects_of t),
        )
        refl

-- None of the entries is in the map yet.
unfoldable Fresh : Tree → Tree → Type 0
Fresh acc t = All (λ e. lookup (e.0) acc ≡ none) t

Fresh-insert :
    (n : Bytes) (ti : TreeInfo) (acc t : Tree)
    → lookup n t ≡ none
    → Fresh acc t
    → Fresh (insert n ti acc) t
unfolding Fresh lookup
Fresh-insert n ti acc [] gone h = tt
Fresh-insert n ti acc ((m, tj) ∷ t) gone (h, hs) = elim (Bool-cases (bytes_eq m n)) [
  | inl e ↦ absurd (let gone' = rw e at gone in cc)
  | inr e ↦ (
    lookup-insert m n ti acc ∙ ground (arith, bytes_eq_iff m n, bytes_eq_iff n m),
    Fresh-insert n ti acc t (rw e at gone) hs,
  )
]

-- An entry of a tree that can be saved: a mode of 32 bits and an ID of twenty bytes.
abbrev pub IsSaved : Bytes × TreeInfo → Type 0
IsSaved e = ((e.1).mode < 2 ^ 32) × IsId (e.1).object

load_entries_lem :
    (acc t : Tree)
    → All IsSaved t
    → Once t
    → Fresh acc t
    → load_entries acc (names_of t) (modes_of t) (objects_of t) ≡ some (acc ++ t)
unfolding load_entries names_of modes_of objects_of Once as_text as_int tree_mode Fresh
load_entries_lem acc [] h once fresh = ap some (sym (append-nil acc))
load_entries_lem acc ((n, ti) ∷ t) ((small, id), hs) (gone, once) (new, fresh) =
    let mode : ti.mode % 2 ^ 32 ≡ ti.mode = omega arith in
    rw (must_decode_id-id_string ti.object id, load_entries, mode)
      (load_entries_lem (insert n ti acc) t hs once (Fresh-insert n ti acc t gone fresh)
        ∙ ap (λ m. some (m ++ t)) (insert_new n ti acc new)
        ∙ ap some (append_assoc acc ((n, ti) ∷ []) t))

Fresh-nil : (t : Tree) → Fresh [] t
unfolding Fresh lookup
Fresh-nil [] = tt
Fresh-nil (e ∷ t) = (refl, Fresh-nil t)

-- A tree with every name once, modes of 32 bits and IDs of twenty bytes is loaded from the properties that it is saved
-- as.
pub load_tree-save_tree : (t : Tree) → All IsSaved t → Once t → load_tree (save_tree t) ≡ some t
unfolding load_tree parse_props parse_prop save_tree split_dot multiple_prop lookup insert bytes_eq
    many_of columns names_of modes_of objects_of
load_tree-save_tree [] h once = unfold load_entries in refl
load_tree-save_tree ((n, ti) ∷ t) h once =
    rw
      (
        more_entries (text n ∷ []) (int (pos ti.mode) ∷ []) (text (id_string ti.object) ∷ []) t,
        load_tree,
      )
      (load_entries_lem [] ((n, ti) ∷ t) h once (Fresh-nil ((n, ti) ∷ t)))
