-- ===== src/Packfile/Delta/Substring.antt =====
-- packfile/delta.go: longestCommonSubstring. The table `c` has an entry for each byte of `a`; the
-- rounds over `b` and over `a` are recursions on what is left of them.
pub mod Table
pub mod Found
pub mod Longest
use go_git_scm.Base.{
  ℕ, zero, suc, ◌+◌, ◌-◌, ◌&&◌, List, [], ◌∷◌, length, replicate, ltb, ◌==◌, if◌then◌else◌,
}

-- The named results: where the longest match so far ends in `a` and in `b`, and how long it is.
pub record Best : Type 0 where
  pub ai : ℕ
  pub bj : ℕ
  pub n : ℕ

-- The named results' zero values.
abbrev pub no_match : Best
no_match = record { ai = 0; bj = 0; n = 0 }

-- The new entry for the bytes `x` of `a` and `y` of `b`, with the old entry `d` of the byte before.
unfoldable pub entry : ℕ → ℕ → ℕ → ℕ
entry x y d = if x == y then d + 1 else 0

-- `if c[i] > n`, in the branch of equal bytes
unfoldable pub improve : ℕ → ℕ → ℕ → ℕ → ℕ → Best → Best
improve x y i j ci best =
    if x == y && ltb best.n ci then record { ai = i; bj = j; n = ci } else best

-- The loop over `a` for the byte `y` at `j` of `b`: it gives the new table and the best match.
unfoldable pub substring_row : List ℕ → List ℕ → ℕ → ℕ → ℕ → ℕ → Best → List ℕ × Best
unfolding entry improve
substring_row [] c y i j d best = (c, best)
substring_row (x ∷ a) [] y i j d best = ([], best)
substring_row (x ∷ a) (tmp ∷ c) y i j d best =
    let ci = entry x y d in
    let (c', best') = substring_row a c y (i + 1) j tmp (improve x y i j ci best) in
    (ci ∷ c', best')

-- The loop over `b`.
unfoldable pub substring_rows : List ℕ → List ℕ → List ℕ → ℕ → Best → Best
substring_rows a c [] j best = best
substring_rows a c (y ∷ b) j best =
    let (c', best') = substring_row a c y 0 j 0 best in substring_rows a c' b (j + 1) best'

-- The body behind the swap. `ai -= n - 1` is `ai + 1 - n`; a match of n bytes ends at n - 1 or later.
unfoldable pub substring_main : List ℕ → List ℕ → Best
substring_main a b =
    let best = substring_rows a (replicate (length a) 0) b 0 no_match in
    record { ai = best.ai + 1 - best.n; bj = best.bj + 1 - best.n; n = best.n }

-- The call with the slices swapped does not swap again.
unfoldable pub longest_common_substring : List ℕ → List ℕ → Best
longest_common_substring a b =
    if ltb (length b) (length a)
    then (let r = substring_main b a in record { ai = r.bj; bj = r.ai; n = r.n })
    else substring_main a b
