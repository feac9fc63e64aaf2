-- ===== src/Object/Unmarshal/Canonical.antt =====
-- A tree that is read back has the bytes that it was read from.
use go_git_scm.Base.{
  ◌+◌, ◌≤◌, ◌≡◌, refl, sym, ap, ◌∙◌, subst, Bool, true, false, Bool-cases, inl, inr, List, [], ◌∷◌,
  ◌++◌, append_assoc, append-nil, none, some, All, map, arith, bytes_eq, bytes_eq_self,
  bytes_eq_iff, if◌then◌else◌,
}
use go_git_scm.Base.Map.{lookup, insert, lookup-insert}
use go_git_scm.Object.{Bytes, TreeInfo, Tree}
use go_git_scm.Object.Marshal.{
  sort_strings, trim_slash, sort_name, names, entry_of, tree_entry, tree_entries,
}
use go_git_scm.Object.Unmarshal.Sorted.{
  count, count-sort_strings, sort_strings-IsSorted, sort_strings-sorted, All-sort_strings,
}
use go_git_scm.Object.Unmarshal.Names.{
  any, has, Plain, put_all, lookup-put_all-names, trim_slash-sort_name,
}

-- The map has every name once.
unfoldable pub Once : Tree → Type 0
Once [] = Unit
Once (e ∷ t) = (lookup (e.0) t ≡ none) × Once t

-- No name is in the list twice.
unfoldable NoDup : List Bytes → Type 0
NoDup [] = Unit
NoDup (n ∷ ns) = (has n ns ≡ false) × NoDup ns

unfoldable pairs : Tree → List Bytes → Tree
pairs t [] = []
pairs t (n ∷ ns) = (n, entry_of t n) ∷ pairs t ns

pub insert_new :
    (n : Bytes) (ti : TreeInfo) (t : Tree) → lookup n t ≡ none → insert n ti t ≡ t ++ ((n, ti) ∷ [])
unfolding lookup insert
insert_new n ti [] h = refl
insert_new n ti ((m, tj) ∷ t) h = elim (Bool-cases (bytes_eq m n)) [
  | inl e ↦ absurd (let h' = rw e at h in cc)
  | inr e ↦ rw e (ap (λ l. (m, tj) ∷ l) (insert_new n ti t (rw e at h)))
]

put_all_new :
    (t : Tree) (ns : List Bytes) (acc : Tree)
    → NoDup ns
    → ((n : Bytes) → has n ns ≡ true → lookup n acc ≡ none)
    → put_all t ns acc ≡ acc ++ pairs t ns
unfolding put_all pairs NoDup any
put_all_new t [] acc h fresh = sym (append-nil acc)
put_all_new t (n ∷ ns) acc (h, hs) fresh =
    put_all_new t ns (insert n (entry_of t n) acc) hs
      (λ m k. lookup-insert m n (entry_of t n) acc ∙ still m k)
    ∙ rw (insert_new n (entry_of t n) acc (fresh n (rw (bytes_eq_self n) refl)))
        (append_assoc acc ((n, entry_of t n) ∷ []) (pairs t ns))
  where
    still :
        (m : Bytes)
        → has m ns ≡ true
        → (if bytes_eq n m then some (entry_of t n) else lookup m acc) ≡ none
    still m k = elim (Bool-cases (bytes_eq n m)) [
      | inl e ↦ absurd (
          let same : n ≡ m = (bytes_eq_iff n m).0 e in
          let h' : has m ns ≡ false = subst (λ x. has x ns ≡ false) same h in cc)
      | inr e ↦ rw e (fresh m (rw (e, k) refl))
    ]

any_none : (p : Bytes → Bool) (ns : List Bytes) → count p ns ≡ 0 → any p ns ≡ false
unfolding count any
any_none p [] h = refl
any_none p (n ∷ ns) h = ground (arith, any_none p ns)

NoDup-count : (ns : List Bytes) → ((n : Bytes) → count (λ x. bytes_eq x n) ns ≤ 1) → NoDup ns
unfolding NoDup count
NoDup-count [] h = tt
NoDup-count (n ∷ ns) h = (
  any_none (λ x. bytes_eq x n) ns (let k = rw (bytes_eq_self n) at (h n) in omega arith),
  NoDup-count ns (λ m. omega (arith, h m)),
)

count-map :
    (p : Bytes → Bool) (f : Bytes → Bytes) (xs : List Bytes)
    → count p (map f xs) ≡ count (λ x. p (f x)) xs
unfolding count
count-map p f [] = refl
count-map p f (x ∷ xs) = ap (λ k. (if p (f x) then 1 else 0) + k) (count-map p f xs)

keys_none :
    (t : Tree) (n : Bytes)
    → Plain t
    → lookup n t ≡ none
    → count (λ x. bytes_eq (trim_slash x) n) (map sort_name t) ≡ 0
unfolding count lookup
keys_none [] n h e = refl
keys_none ((m, ti) ∷ t) n (h, hs) e = elim (Bool-cases (bytes_eq m n)) [
  | inl b ↦ absurd (let e' = rw b at e in cc)
  | inr b ↦ rw (trim_slash-sort_name (m, ti) h, b) (omega (arith, keys_none t n hs (rw b at e)))
]

count_keys_le :
    (t : Tree) (n : Bytes)
    → Plain t
    → Once t
    → count (λ x. bytes_eq (trim_slash x) n) (map sort_name t) ≤ 1
unfolding count Once
count_keys_le [] n h o = omega arith
count_keys_le ((m, ti) ∷ t) n (h, hs) (new, o) = elim (Bool-cases (bytes_eq m n)) [
  | inl b ↦
      let gone = keys_none t n hs (subst (λ k. lookup k t ≡ none) ((bytes_eq_iff m n).0 b) new) in
      rw (trim_slash-sort_name (m, ti) h, b) (omega (arith, gone))
  | inr b ↦ rw (trim_slash-sort_name (m, ti) h, b) (omega (arith, count_keys_le t n hs o))
]

NoDup-names : (t : Tree) → Plain t → Once t → NoDup (names t)
unfolding names
NoDup-names t h o = NoDup-count (names t) (λ n.
    rw
      (
        count-map (λ x. bytes_eq x n) trim_slash (sort_strings (map sort_name t)),
        count-sort_strings (λ x. bytes_eq (trim_slash x) n) (map sort_name t),
      )
      (count_keys_le t n h o))

-- The name that is sorted tells the entry.
unfoldable Names : Tree → Bytes → Type 0
Names t s = sort_name (trim_slash s, entry_of t (trim_slash s)) ≡ s

behind :
    (e : Bytes × TreeInfo) (t u : Tree)
    → lookup (e.0) t ≡ none
    → All (λ x. lookup (x.0) t ≡ some (x.1)) u
    → All (λ x. lookup (x.0) (e ∷ t) ≡ some (x.1)) u
unfolding lookup
behind e t [] new h = tt
behind e t (x ∷ u) new (h, hs) = (
  elim (Bool-cases (bytes_eq (e.0) (x.0))) [
    | inl b ↦
        absurd
          (let gone = subst (λ k. lookup k t ≡ none) ((bytes_eq_iff (e.0) (x.0)).0 b) new in cc)
    | inr b ↦ rw b h
  ],
  behind e t u new hs,
)

lookup_own : (t : Tree) → Once t → All (λ e. lookup (e.0) t ≡ some (e.1)) t
unfolding Once lookup
lookup_own [] o = tt
lookup_own (e ∷ t) (new, o) = (rw (bytes_eq_self (e.0)) refl, behind e t t new (lookup_own t o))

own-Names :
    (t u : Tree)
    → Plain u
    → All (λ e. lookup (e.0) t ≡ some (e.1)) u
    → All (Names t) (map sort_name u)
unfolding Names entry_of
own-Names t [] h k = tt
own-Names t (e ∷ u) (h, hs) (k, ks) =
    (rw (trim_slash-sort_name e h, k, entry_of) refl, own-Names t u hs ks)

sort_name-pairs :
    (t : Tree) (ss : List Bytes)
    → All (Names t) ss
    → map sort_name (pairs t (map trim_slash ss)) ≡ ss
unfolding Names pairs
sort_name-pairs t [] h = refl
sort_name-pairs t (s ∷ ss) (h, hs) = rw (h, sort_name-pairs t ss hs) refl

-- What is stored under the names has the same names, in the same order.
names-put_all : (t : Tree) → Plain t → Once t → names (put_all t (names t) []) ≡ names t
unfolding names
names-put_all t h o =
    let ss = sort_strings (map sort_name t) in
    let own = All-sort_strings (Names t) (map sort_name t) (own-Names t t h (lookup_own t o)) in
    rw
      (
        put_all_new t (map trim_slash ss) [] (NoDup-names t h o) (λ n k. unfold lookup in refl),
        sort_name-pairs t ss own,
        sort_strings-sorted ss (sort_strings-IsSorted (map sort_name t)),
      )
      refl

entry_of_same : (t t' : Tree) (n : Bytes) → lookup n t' ≡ lookup n t → entry_of t' n ≡ entry_of t n
unfolding entry_of
entry_of_same t t' n h = rw (h, entry_of) refl

tree_entries_same :
    (t t' : Tree) (ns : List Bytes)
    → ((n : Bytes) → lookup n t' ≡ lookup n t)
    → tree_entries t' ns ≡ tree_entries t ns
unfolding tree_entries tree_entry
tree_entries_same t t' [] h = refl
tree_entries_same t t' (n ∷ ns) h =
    rw (entry_of_same t t' n (h n), tree_entries_same t t' ns h) refl

-- A tree without slashes in its names, stored entry by entry in the order of Names, has the same bytes.
pub tree_entries-put_all :
    (t : Tree)
    → Plain t
    → Once t
    → let t' = put_all t (names t) [] in tree_entries t' (names t') ≡ tree_entries t (names t)
tree_entries-put_all t h o =
    rw (names-put_all t h o)
      (tree_entries_same t (put_all t (names t) []) (names t) (λ n. lookup-put_all-names t n h))
