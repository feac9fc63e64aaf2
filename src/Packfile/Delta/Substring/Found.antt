-- ===== src/Packfile/Delta/Substring/Found.antt =====
-- What the search finds is a common substring.
use go_git_scm.Base.{
  ℕ, zero, suc, ◌+◌, ◌-◌, ◌≤◌, ◌<◌, ◌≡◌, refl, sym, ap, subst, ◌⊎◌, inl, inr, List, [], ◌∷◌, length,
  replicate, take, drop, All, ◌==◌, arith, Bool-cases,
}
use go_git_scm.Packfile.Delta.Substring.{
  Best, no_match, substring_row, substring_rows, substring_main,
}
use go_git_scm.Packfile.Delta.Substring.Table.{
  rev_append, common_suffix, row_of, row_of-nil, substring_row-row_of, substring_row-Attained,
  Attained,
}

All-le_trans : (m n : ℕ) (xs : List ℕ) → m ≤ n → All (λ v. v ≤ m) xs → All (λ v. v ≤ n) xs
All-le_trans m n [] h k = tt
All-le_trans m n (x ∷ xs) h k = (omega arith, All-le_trans m n xs h k.1)

-- No entry in a round for the bytes of `b`, behind `rb`, is above `n`.
abbrev pub RowsBelow : ℕ → List ℕ → List ℕ → List ℕ → Type 0
RowsBelow n a rb [] = Unit
RowsBelow n a rb (y ∷ b) = All (λ v. v ≤ n) (row_of [] a (y ∷ rb)) × RowsBelow n a (y ∷ rb) b

-- What the rounds for the bytes of `b`, behind `rb`, make of the match `best`.
abbrev pub RowsFind : List ℕ → List ℕ → List ℕ → List ℕ → Best → Best → Type 0
RowsFind a all_b rb b best best' =
    Attained a all_b best' × (best.n ≤ best'.n) × RowsBelow best'.n a rb b

substring_rows-RowsFind :
    (a all_b rb b : List ℕ) (j : ℕ) (best : Best)
    → rev_append rb b ≡ all_b
    → length rb ≡ j
    → Attained a all_b best
    → RowsFind a all_b rb b best (substring_rows a (row_of [] a rb) b j best)
unfolding substring_rows common_suffix
substring_rows-RowsFind a all_b rb [] j best sb lj h = (h, omega arith, tt)
substring_rows-RowsFind a all_b rb (y ∷ b) j best sb lj h =
    let row = substring_row a (row_of [] a rb) y 0 j 0 best in
    let (found, more, all) =
      substring_row-Attained a all_b [] a y rb b 0 j best refl sb refl lj h in
    let (found', more', rows) =
      substring_rows-RowsFind a all_b (y ∷ rb) b (j + 1) row.1 sb (omega arith) found in
    let table : row.0 ≡ row_of [] a (y ∷ rb) = substring_row-row_of [] a y rb 0 j best in
    let best' = substring_rows a (row_of [] a (y ∷ rb)) b (j + 1) row.1 in
    subst (λ c. RowsFind a all_b rb (y ∷ b) best (substring_rows a c b (j + 1) row.1)) (sym table)
      (found', omega arith, (All-le_trans row.1.n best'.n (row_of [] a (y ∷ rb)) more' all, rows))

drop-rev_append_add :
    (xs ys : List ℕ) (i k : ℕ) → i ≡ length xs + k → drop i (rev_append xs ys) ≡ drop k ys
drop-rev_append_add [] ys i k h = let e : i ≡ k = omega arith in ap (λ t. drop t ys) e
drop-rev_append_add (x ∷ xs) ys i k h = drop-rev_append_add xs (x ∷ ys) i (suc k) (omega arith)

pub drop-rev_append : (xs ys : List ℕ) (i : ℕ) → i ≡ length xs → drop i (rev_append xs ys) ≡ ys
drop-rev_append xs ys i h = drop-rev_append_add xs ys i 0 (omega arith)

pub length-rev_append : (xs ys : List ℕ) → length (rev_append xs ys) ≡ length xs + length ys
length-rev_append [] ys = omega arith
length-rev_append (x ∷ xs) ys = omega (arith, length-rev_append xs (x ∷ ys))

common_suffix-le :
    (xs ys : List ℕ) → (common_suffix xs ys ≤ length xs) × (common_suffix xs ys ≤ length ys)
unfolding common_suffix
common_suffix-le [] ys = omega arith
common_suffix-le (x ∷ xs) [] = omega arith
common_suffix-le (x ∷ xs) (y ∷ ys) = ground (arith, common_suffix-le xs ys)

-- A common suffix of `n` bytes, followed by `k` more common bytes.
take-rev_append :
    (n k m i j : ℕ) (ra rb a b : List ℕ)
    → n ≤ common_suffix ra rb
    → m ≡ n + k
    → i + n ≡ length ra
    → j + n ≡ length rb
    → take k a ≡ take k b
    → take m (drop i (rev_append ra a)) ≡ take m (drop j (rev_append rb b))
unfolding common_suffix
take-rev_append zero k m i j ra rb a b h hm hi hj e =
    let whole_a = drop-rev_append ra a i (omega arith) in
    let whole_b = drop-rev_append rb b j (omega arith) in
    let size : m ≡ k = omega arith in rw (whole_a, whole_b, size) e
take-rev_append (suc n) k m i j [] rb a b h hm hi hj e = absurd (omega arith)
take-rev_append (suc n) k m i j (x ∷ ra) [] a b h hm hi hj e = absurd (omega arith)
take-rev_append (suc n) k m i j (x ∷ ra) (y ∷ rb) a b h hm hi hj e = elim (Bool-cases (x == y)) [
  | inl same ↦
      take-rev_append n (suc k) m i j ra rb (x ∷ a) (y ∷ b) (ground arith) (omega arith)
        (omega arith) (omega arith) (ground (arith, e))
  | inr differ ↦ absurd (ground arith)
]

-- The positions `ai` and `bj` hold a common substring of `n` bytes, at least one.
pub record IsCommon (a b : List ℕ) (r : Best) : Type 0 where
  pub positive : 0 < r.n
  pub within_a : r.ai + r.n ≤ length a
  pub within_b : r.bj + r.n ≤ length b
  pub same : take r.n (drop r.ai a) ≡ take r.n (drop r.bj b)

-- The result if there is no match.
abbrev pub nothing_found : Best
nothing_found = record { ai = 1; bj = 1; n = 0 }

unfoldable pub start_of : Best → Best
start_of best = record { ai = best.ai + 1 - best.n; bj = best.bj + 1 - best.n; n = best.n }

start_of-Attained :
    (a b : List ℕ) (best : Best)
    → Attained a b best
    → (start_of best ≡ nothing_found) ⊎ IsCommon a b (start_of best)
unfolding start_of
start_of-Attained a b best (inl e) = inl (rw e refl)
start_of-Attained a b best (inr f) =
    let (la, lb) = common_suffix-le f.ra f.rb in
    let size_a = length-rev_append f.ra f.rest_a in
    let size_b = length-rev_append f.rb f.rest_b in
    let same_a = ap (λ (t : List ℕ). length t) f.splits_a in
    let same_b = ap (λ (t : List ℕ). length t) f.splits_b in
    inr (record {
      positive = f.positive;
      within_a = omega (arith, f.ends_a, f.common);
      within_b = omega (arith, f.ends_b, f.common);
      same =
          rw (← f.splits_a, ← f.splits_b)
            (take-rev_append best.n 0 best.n (best.ai + 1 - best.n) (best.bj + 1 - best.n) f.ra f.rb
              f.rest_a f.rest_b f.common (omega arith) (omega (arith, f.ends_a, f.common))
              (omega (arith, f.ends_b, f.common)) refl);
    })

pub substring_main-RowsFind :
    (a b : List ℕ)
    → (best : Best) × (substring_main a b ≡ start_of best) × RowsFind a b [] b no_match best
unfolding substring_main start_of
substring_main-RowsFind a b =
    let find = substring_rows-RowsFind a b [] b 0 no_match refl refl (inl refl) in
    (
      substring_rows a (replicate (length a) 0) b 0 no_match,
      refl,
      subst (λ c. RowsFind a b [] b no_match (substring_rows a c b 0 no_match)) (row_of-nil [] a)
          find,
    )

pub substring_main-IsCommon :
    (a b : List ℕ) → (substring_main a b ≡ nothing_found) ⊎ IsCommon a b (substring_main a b)
substring_main-IsCommon a b =
    let (best, e, find) = substring_main-RowsFind a b in rw e (start_of-Attained a b best find.0)
