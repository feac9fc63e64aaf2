-- ===== src/Packfile/Delta/Substring/Table.antt =====
-- The table of the search: after the round for a byte of `b`, its entry for a byte of `a` is the length
-- of the longest common suffix of the two prefixes that end there.
use go_git_scm.Base.{
  ℕ, suc, ◌+◌, ◌≤◌, ◌<◌, ◌≡◌, refl, ap, ap₂, ◌⊎◌, inl, inr, ◌&&◌, List, [], ◌∷◌, length, replicate,
  All, ltb, ◌==◌, if◌then◌else◌, arith, Bool-cases,
}
use go_git_scm.Packfile.Delta.Substring.{Best, no_match, entry, improve, substring_row}

-- Prefixes are kept reversed, so that their last bytes come first.
abbrev pub rev_append : List ℕ → List ℕ → List ℕ
rev_append [] ys = ys
rev_append (x ∷ xs) ys = rev_append xs (x ∷ ys)

-- The length of the longest common suffix of two reversed prefixes.
unfoldable pub common_suffix : List ℕ → List ℕ → ℕ
common_suffix [] ys = 0
common_suffix (x ∷ xs) [] = 0
common_suffix (x ∷ xs) (y ∷ ys) = if x == y then suc (common_suffix xs ys) else 0

pub common_suffix-nil : (xs : List ℕ) → common_suffix xs [] ≡ 0
unfolding common_suffix
common_suffix-nil [] = refl
common_suffix-nil (x ∷ xs) = refl

-- The entries for the bytes of `a`, behind the prefix `ra`, against the prefix `rb` of `b`.
unfoldable pub row_of : List ℕ → List ℕ → List ℕ → List ℕ
row_of ra [] rb = []
row_of ra (x ∷ a) rb = common_suffix (x ∷ ra) rb ∷ row_of (x ∷ ra) a rb

pub row_of-nil : (ra a : List ℕ) → row_of ra a [] ≡ replicate (length a) 0
unfolding row_of
row_of-nil ra [] = refl
row_of-nil ra (x ∷ a) = ground (arith, common_suffix-nil (x ∷ ra), row_of-nil (x ∷ ra) a)

entry-common_suffix :
    (x y : ℕ) (ra rb : List ℕ) → entry x y (common_suffix ra rb) ≡ common_suffix (x ∷ ra) (y ∷ rb)
unfolding entry common_suffix
entry-common_suffix x y ra rb = ground arith

pub substring_row-row_of :
    (ra a : List ℕ) (y : ℕ) (rb : List ℕ) (i j : ℕ) (best : Best)
    → (substring_row a (row_of ra a rb) y i j (common_suffix ra rb) best).0 ≡ row_of ra a (y ∷ rb)
unfolding substring_row row_of
substring_row-row_of ra [] y rb i j best = refl
substring_row-row_of ra (x ∷ a) y rb i j best = ap₂ ◌∷◌ (entry-common_suffix x y ra rb) (
    substring_row-row_of (x ∷ ra) a y rb (i + 1) j
      (improve x y i j (entry x y (common_suffix ra rb)) best))

-- A match of `best.n` bytes that ends at the indices of `best`, or no match yet.
pub record Found (a b : List ℕ) (best : Best) : Type 0 where
  pub ra : List ℕ
  pub rest_a : List ℕ
  pub rb : List ℕ
  pub rest_b : List ℕ
  pub splits_a : rev_append ra rest_a ≡ a
  pub splits_b : rev_append rb rest_b ≡ b
  pub ends_a : length ra ≡ suc best.ai
  pub ends_b : length rb ≡ suc best.bj
  pub positive : 0 < best.n
  pub common : best.n ≤ common_suffix ra rb

abbrev pub Attained : List ℕ → List ℕ → Best → Type 0
Attained a b best = (best ≡ no_match) ⊎ Found a b best

improve-Attained :
    (all_a all_b ra a : List ℕ) (x y : ℕ) (rb b : List ℕ) (i j ci : ℕ) (best : Best)
    → ci ≡ common_suffix (x ∷ ra) (y ∷ rb)
    → rev_append ra (x ∷ a) ≡ all_a
    → rev_append rb (y ∷ b) ≡ all_b
    → length ra ≡ i
    → length rb ≡ j
    → Attained all_a all_b best
    → let best' = improve x y i j ci best in
      Attained all_a all_b best' × (best.n ≤ best'.n) × (ci ≤ best'.n)
unfolding improve
improve-Attained all_a all_b ra a x y rb b i j ci best e sa sb li lj h =
    elim (Bool-cases (x == y && ltb best.n ci)) [
      | inl better ↦ rw better (
        inr (record {
          ra = x ∷ ra;
          rest_a = a;
          rb = y ∷ rb;
          rest_b = b;
          splits_a = sa;
          splits_b = sb;
          ends_a = ap suc li;
          ends_b = ap suc lj;
          positive = ground arith;
          common = omega arith;
        }),
        ground arith,
        omega arith,
      )
      | inr worse ↦ rw worse (h, omega arith, unfold common_suffix in ground arith)
    ]

-- The round keeps a match that was found, or finds a longer one, and misses none of its entries.
pub substring_row-Attained :
    (all_a all_b ra a : List ℕ) (y : ℕ) (rb b : List ℕ) (i j : ℕ) (best : Best)
    → rev_append ra a ≡ all_a
    → rev_append rb (y ∷ b) ≡ all_b
    → length ra ≡ i
    → length rb ≡ j
    → Attained all_a all_b best
    → let best' = (substring_row a (row_of ra a rb) y i j (common_suffix ra rb) best).1 in
      Attained all_a all_b best'
      × (best.n ≤ best'.n)
      × All (λ v. v ≤ best'.n) (row_of ra a (y ∷ rb))
unfolding substring_row row_of
substring_row-Attained all_a all_b ra [] y rb b i j best sa sb li lj h = (h, omega arith, tt)
substring_row-Attained all_a all_b ra (x ∷ a) y rb b i j best sa sb li lj h =
    let e = entry-common_suffix x y ra rb in
    let ci = entry x y (common_suffix ra rb) in
    let (found, more, entered) =
      improve-Attained all_a all_b ra a x y rb b i j ci best e sa sb li lj h in
    let best' = improve x y i j ci best in
    let (found', more', all) =
      substring_row-Attained all_a all_b (x ∷ ra) a y rb b (i + 1) j best' sa sb (omega arith) lj
        found in
    (found', omega arith, (omega arith, all))
