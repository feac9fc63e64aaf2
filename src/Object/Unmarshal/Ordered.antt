-- ===== src/Object/Unmarshal/Ordered.antt =====
-- object/tree.go: the order of Names, in which a tree is written.
use go_git_scm.Base.{
  ◌+◌, length, length-map, arith, ◌≡◌, ◌≢◌, refl, ap, sym, subst, ◌∙◌, List, [], ◌∷◌, ◌++◌, some,
  All, map, ◌==◌, if◌then◌else◌,
}
use go_git_scm.Base.Map.{lookup}
use go_git_scm.Object.{Bytes, TreeInfo, Tree, mode_tree}
use go_git_scm.Object.Marshal.{insert_sorted, sort_strings, trim_slash, sort_name, names, entry_of}
use go_git_scm.Object.Unmarshal.Sorted.{IsSorted, sort_strings-IsSorted, All-sort_strings}
use go_git_scm.Object.Unmarshal.Names.{Plain, has, is_some, has-names, trim_slash-sort_name}

-- Each entry is the one that its name finds, as in a map.
abbrev pub IsMap : Tree → Type 0
IsMap t = All (λ e. lookup e.0 t ≡ some e.1) t

-- The name that Git orders an entry by: that of a subtree has a slash behind it.
abbrev pub git_name : Tree → Bytes → Bytes
git_name t n = if (entry_of t n).mode == mode_tree then n ++ (b'/' ∷ []) else n

git_name-sort_name :
    (t : Tree) (e : Bytes × TreeInfo)
    → All (λ c. c ≢ b'/') e.0
    → lookup e.0 t ≡ some e.1
    → git_name t (trim_slash (sort_name e)) ≡ sort_name e
unfolding entry_of sort_name
git_name-sort_name t (n, ti) plain there =
    ap (git_name t) (trim_slash-sort_name (n, ti) plain) ∙ rw (there, entry_of) refl

git_name-entries :
    (t entries : Tree)
    → Plain entries
    → All (λ e. lookup e.0 t ≡ some e.1) entries
    → All (λ x. git_name t (trim_slash x) ≡ x) (map sort_name entries)
git_name-entries t [] plain there = tt
git_name-entries t (e ∷ entries) (p, ps) (h, hs) =
    (git_name-sort_name t e p h, git_name-entries t entries ps hs)

map-git_name :
    (t : Tree) (xs : List Bytes)
    → All (λ x. git_name t (trim_slash x) ≡ x) xs
    → map (git_name t) (map trim_slash xs) ≡ xs
map-git_name t [] h = refl
map-git_name t (x ∷ xs) (h, hs) =
    ap (λ y. y ∷ map (git_name t) (map trim_slash xs)) h ∙ ap (λ ys. x ∷ ys) (map-git_name t xs hs)

length-insert_sorted : (x : Bytes) (ys : List Bytes) → length (insert_sorted x ys) ≡ length ys + 1
unfolding insert_sorted
length-insert_sorted x [] = refl
length-insert_sorted x (y ∷ ys) = ground (arith, length-insert_sorted x ys)

length-names :
    (entries : Tree)
    → length (map trim_slash (sort_strings (map sort_name entries))) ≡ length entries
unfolding sort_strings
length-names [] = refl
length-names (e ∷ entries) =
    let xs = sort_strings (map sort_name entries) in
    omega (
      arith,
      length-names entries,
      length-map trim_slash xs,
      length-map trim_slash (insert_sorted (sort_name e) xs),
      length-insert_sorted (sort_name e) xs,
    )

-- Names gives the keys of the map and no others, as many as there are entries, in the order of Git, that of the names
-- with a slash behind those of subtrees, whatever order the map is iterated in: for entries that are each the one which
-- its name finds, if no name has a slash itself.
pub names-IsSorted :
    (t : Tree)
    → Plain t
    → IsMap t
    → IsSorted (map (git_name t) (names t))
      × ((n : Bytes) → has n (names t) ≡ is_some (lookup n t))
      × (length (names t) ≡ length t)
unfolding names
names-IsSorted t plain is_map =
    let xs = sort_strings (map sort_name t) in
    let named = All-sort_strings _ (map sort_name t) (git_name-entries t t plain is_map) in
    (
      subst IsSorted (sym (map-git_name t xs named)) (sort_strings-IsSorted (map sort_name t)),
      λ n. has-names t n plain,
      length-names t,
    )
