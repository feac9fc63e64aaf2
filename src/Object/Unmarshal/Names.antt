-- ===== src/Object/Unmarshal/Names.antt =====
-- The names that a tree is written in are its keys, whatever their order, and what is stored under them
-- one after the other is the tree again.
use go_git_scm.Base.{
  ◌≡◌, ◌≢◌, ◌⊎◌, refl, ap, ◌∙◌, Bool, true, false, ◌||◌, Bool-cases, inl, inr, List, [], ◌∷◌, ◌++◌,
  Option, none, some, All, map, ◌==◌, arith, bytes_eq, bytes_eq_self, bytes_eq_iff, if◌then◌else◌,
}
use go_git_scm.Base.Map.{lookup, insert, lookup-insert}
use go_git_scm.Object.{Bytes, TreeInfo, Tree, mode_tree}
use go_git_scm.Object.Marshal.{insert_sorted, sort_strings, trim_slash, sort_name, names, entry_of}

unfoldable pub any : (Bytes → Bool) → List Bytes → Bool
any p [] = false
any p (x ∷ xs) = p x || any p xs

any-insert_sorted :
    (p : Bytes → Bool) (x : Bytes) (ys : List Bytes)
    → any p (insert_sorted x ys) ≡ (p x || any p ys)
unfolding any insert_sorted
any-insert_sorted p x [] = refl
any-insert_sorted p x (y ∷ ys) = ground (arith, any-insert_sorted p x ys)

any-sort_strings : (p : Bytes → Bool) (xs : List Bytes) → any p (sort_strings xs) ≡ any p xs
unfolding any sort_strings
any-sort_strings p [] = refl
any-sort_strings p (x ∷ xs) =
    any-insert_sorted p x (sort_strings xs) ∙ ap (λ b. p x || b) (any-sort_strings p xs)

any-map :
    (p : Bytes → Bool) (f : Bytes → Bytes) (xs : List Bytes)
    → any p (map f xs) ≡ any (λ x. p (f x)) xs
unfolding any
any-map p f [] = refl
any-map p f (x ∷ xs) = ap (λ b. p (f x) || b) (any-map p f xs)

-- TrimSuffix takes off the slash that was put behind.
trim_slash-slash : (s : Bytes) → trim_slash (s ++ (b'/' ∷ [])) ≡ s
unfolding trim_slash
trim_slash-slash [] = refl
trim_slash-slash (x ∷ []) = refl
trim_slash-slash (x ∷ y ∷ s) = ap (λ m. x ∷ m) (trim_slash-slash (y ∷ s))

trim_slash-plain : (s : Bytes) → All (λ c. c ≢ b'/') s → trim_slash s ≡ s
unfolding trim_slash
trim_slash-plain [] h = refl
trim_slash-plain (x ∷ []) (h, _) = ground arith
trim_slash-plain (x ∷ y ∷ s) (_, h) = ap (λ m. x ∷ m) (trim_slash-plain (y ∷ s) h)

pub trim_slash-sort_name :
    (e : Bytes × TreeInfo) → All (λ c. c ≢ b'/') (e.0) → trim_slash (sort_name e) ≡ e.0
unfolding sort_name
trim_slash-sort_name (name, ti) h = elim (Bool-cases (ti.mode == mode_tree)) [
  | inl e ↦ rw e (trim_slash-slash name)
  | inr e ↦ rw e (trim_slash-plain name h)
]

-- Whether the list has the name.
abbrev pub has : Bytes → List Bytes → Bool
has n = any (λ x. bytes_eq x n)

unfoldable pub is_some : Option TreeInfo → Bool
is_some none = false
is_some (some ti) = true

-- The keys of the entries have no slash.
abbrev pub Plain : Tree → Type 0
Plain = All (λ e. All (λ c. c ≢ b'/') (e.0))

keys_has :
    (t : Tree) (n : Bytes)
    → Plain t
    → any (λ x. bytes_eq (trim_slash x) n) (map sort_name t) ≡ is_some (lookup n t)
unfolding any lookup
keys_has [] n k = unfold is_some in refl
keys_has (e ∷ t) n (k, ks) =
    rw (trim_slash-sort_name e k, keys_has t n ks) (here (Bool-cases (bytes_eq (e.0) n)))
  where
    here :
        (bytes_eq (e.0) n ≡ true) ⊎ (bytes_eq (e.0) n ≡ false)
        → (bytes_eq (e.0) n || is_some (lookup n t))
          ≡ is_some (if bytes_eq (e.0) n then some (e.1) else lookup n t)
    here (inl b) = unfold is_some in rw b refl
    here (inr b) = rw b refl

-- Names gives the keys of the map: a name is among them just if the map has it.
pub has-names : (t : Tree) (n : Bytes) → Plain t → has n (names t) ≡ is_some (lookup n t)
unfolding names
has-names t n h =
    any-map (λ x. bytes_eq x n) trim_slash (sort_strings (map sort_name t))
    ∙ any-sort_strings (λ x. bytes_eq (trim_slash x) n) (map sort_name t)
    ∙ keys_has t n h

-- The entries of `t` under the names, one after the other, stored in `acc`.
unfoldable pub put_all : Tree → List Bytes → Tree → Tree
put_all t [] acc = acc
put_all t (n ∷ ns) acc = put_all t ns (insert n (entry_of t n) acc)

lookup-put_all :
    (t : Tree) (ns : List Bytes) (acc : Tree) (n : Bytes)
    → lookup n (put_all t ns acc) ≡ (if has n ns then some (entry_of t n) else lookup n acc)
unfolding put_all any
lookup-put_all t [] acc n = refl
lookup-put_all t (m ∷ ns) acc n =
    lookup-put_all t ns (insert m (entry_of t m) acc) n
    ∙ ground (arith, lookup-insert n m (entry_of t m) acc, bytes_eq_iff m n)

-- What is stored under all the names of a map is the map again.
pub lookup-put_all-names :
    (t : Tree) (n : Bytes) → Plain t → lookup n (put_all t (names t) []) ≡ lookup n t
lookup-put_all-names t n h =
    lookup-put_all t (names t) [] n ∙ rw (has-names t n h) (go (lookup n t) refl)
  where
    go :
        (o : Option TreeInfo)
        → lookup n t ≡ o
        → (if is_some o then some (entry_of t n) else lookup n []) ≡ o
    go none e = unfold is_some lookup in refl
    go (some ti) e = unfold is_some entry_of in rw (e, entry_of) refl

-- What holds of every name that the list has holds of all its elements.
pub All-has :
    {P : Bytes → Type 0} (ns : List Bytes) → ((n : Bytes) → has n ns ≡ true → P n) → All P ns
unfolding any
All-has [] h = tt
All-has (n ∷ ns) h = (h n (rw (bytes_eq_self n) refl), All-has ns (λ m k. h m (ground arith)))
