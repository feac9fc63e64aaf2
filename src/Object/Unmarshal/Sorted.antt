-- ===== src/Object/Unmarshal/Sorted.antt =====
-- sort.StringSlice.Sort: the strings in ascending order, each as often as before.
use go_git_scm.Base.{
  ℕ, ◌+◌, ◌≡◌, refl, Bool, true, false, Bool-cases, inl, inr, List, [], ◌∷◌, All, arith,
  if◌then◌else◌,
}
use go_git_scm.Object.{Bytes}
use go_git_scm.Object.Marshal.{insert_sorted, sort_strings, bytes_lt}

-- No string is below the one in front of it.
unfoldable pub IsSorted : List Bytes → Type 0
IsSorted [] = Unit
IsSorted (x ∷ []) = Unit
IsSorted (x ∷ y ∷ ys) = (bytes_lt y x ≡ false) × IsSorted (y ∷ ys)

-- How often the test holds.
unfoldable pub count : (Bytes → Bool) → List Bytes → ℕ
count p [] = 0
count p (x ∷ xs) = (if p x then 1 else 0) + count p xs

bytes_lt-asym : (x y : Bytes) → bytes_lt y x ≡ true → bytes_lt x y ≡ false
unfolding bytes_lt
bytes_lt-asym x [] h = refl
bytes_lt-asym [] (d ∷ y) h = absurd (ground arith)
bytes_lt-asym (c ∷ x) (d ∷ y) h = ground (arith, bytes_lt-asym x y)

insert_sorted-IsSorted : (x : Bytes) (ys : List Bytes) → IsSorted ys → IsSorted (insert_sorted x ys)
unfolding IsSorted insert_sorted
insert_sorted-IsSorted x [] h = tt
insert_sorted-IsSorted x (y ∷ []) h = elim (Bool-cases (bytes_lt y x)) [
  | inl e ↦ rw e (bytes_lt-asym x y e, tt)
  | inr e ↦ rw e (e, tt)
]
insert_sorted-IsSorted x (y ∷ z ∷ ys) (h, hs) =
    let ih = insert_sorted-IsSorted x (z ∷ ys) hs in
    elim (Bool-cases (bytes_lt y x)) [
      | inl e ↦ rw e (elim (Bool-cases (bytes_lt z x)) [
        | inl e' ↦ rw e' (h, rw e' at ih)
        | inr e' ↦ rw e' (bytes_lt-asym x y e, rw e' at ih)
      ])
      | inr e ↦ rw e (e, (h, hs))
    ]

pub sort_strings-IsSorted : (xs : List Bytes) → IsSorted (sort_strings xs)
unfolding sort_strings
sort_strings-IsSorted [] = unfold IsSorted in tt
sort_strings-IsSorted (x ∷ xs) =
    insert_sorted-IsSorted x (sort_strings xs) (sort_strings-IsSorted xs)

-- What is sorted stays as it is.
pub sort_strings-sorted : (xs : List Bytes) → IsSorted xs → sort_strings xs ≡ xs
unfolding IsSorted sort_strings insert_sorted
sort_strings-sorted [] h = refl
sort_strings-sorted (x ∷ []) h = refl
sort_strings-sorted (x ∷ y ∷ ys) (h, hs) = rw (sort_strings-sorted (y ∷ ys) hs, h) refl

count-insert_sorted :
    (p : Bytes → Bool) (x : Bytes) (ys : List Bytes)
    → count p (insert_sorted x ys) ≡ (if p x then 1 else 0) + count p ys
unfolding count insert_sorted
count-insert_sorted p x [] = refl
count-insert_sorted p x (y ∷ ys) = ground (arith, count-insert_sorted p x ys)

pub count-sort_strings :
    (p : Bytes → Bool) (xs : List Bytes) → count p (sort_strings xs) ≡ count p xs
unfolding count sort_strings
count-sort_strings p [] = refl
count-sort_strings p (x ∷ xs) =
    omega (arith, count-insert_sorted p x (sort_strings xs), count-sort_strings p xs)

All-insert_sorted :
    (P : Bytes → Type 0) (x : Bytes) (ys : List Bytes) → P x → All P ys → All P (insert_sorted x ys)
unfolding insert_sorted
All-insert_sorted P x [] h hs = (h, tt)
All-insert_sorted P x (y ∷ ys) h (k, ks) =
    let ih = All-insert_sorted P x ys h ks in
    elim (Bool-cases (bytes_lt y x)) [ inl e ↦ rw e (k, ih) | inr e ↦ rw e (h, (k, ks)) ]

pub All-sort_strings : (P : Bytes → Type 0) (xs : List Bytes) → All P xs → All P (sort_strings xs)
unfolding sort_strings
All-sort_strings P [] h = tt
All-sort_strings P (x ∷ xs) (h, hs) =
    All-insert_sorted P x (sort_strings xs) h (All-sort_strings P xs hs)
