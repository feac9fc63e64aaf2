-- ===== src/Packfile/Delta/Substring/Longest.antt =====
-- longestCommonSubstring finds a common substring, and none is longer.
use go_git_scm.Base.{
  ℕ, zero, suc, ◌+◌, ◌≤◌, ◌≡◌, refl, sym, ap, ap₂, subst, ◌∙◌, ◌⊎◌, inl, inr, List, [], ◌∷◌, ◌++◌,
  append_assoc, length, replicate, take, drop, All, ltb, arith, Bool-cases, length-take,
  length-drop, take-append-drop, ==_self,
}
use go_git_scm.Packfile.Delta.Substring.{Best, substring_main, longest_common_substring}
use go_git_scm.Packfile.Delta.Substring.Table.{rev_append, common_suffix, row_of, row_of-nil}
use go_git_scm.Packfile.Delta.Substring.Found.{
  RowsBelow, start_of, substring_main-RowsFind, IsCommon, nothing_found, substring_main-IsCommon,
}

-- Every prefix that ends in a round has its entry there.
entry-le :
    (n : ℕ) (u ra a rb : List ℕ)
    → common_suffix ra rb ≤ n
    → All (λ v. v ≤ n) (row_of ra (u ++ a) rb)
    → common_suffix (rev_append u ra) rb ≤ n
unfolding row_of
entry-le n [] ra a rb h all = h
entry-le n (x ∷ u) ra a rb h all = entry-le n u (x ∷ ra) a rb all.0 all.1

round-le :
    (n : ℕ) (a w rb b : List ℕ)
    → All (λ v. v ≤ n) (row_of [] a rb)
    → RowsBelow n a rb (w ++ b)
    → All (λ v. v ≤ n) (row_of [] a (rev_append w rb))
round-le n a [] rb b h rows = h
round-le n a (y ∷ w) rb b h rows = round-le n a w (y ∷ rb) b rows.0 rows.1

zeros-le : (n k : ℕ) → All (λ v. v ≤ n) (replicate k 0)
zeros-le n zero = tt
zeros-le n (suc k) = (omega arith, zeros-le n k)

rev_append-append : (u w z : List ℕ) → rev_append (u ++ w) z ≡ rev_append w (rev_append u z)
rev_append-append [] w z = refl
rev_append-append (x ∷ u) w z = rev_append-append u w (x ∷ z)

-- Two prefixes that end in the same bytes `w`.
length-le-common_suffix :
    (w x y : List ℕ)
    → length w + common_suffix x y ≤ common_suffix (rev_append w x) (rev_append w y)
unfolding common_suffix
length-le-common_suffix [] x y = omega arith
length-le-common_suffix (c ∷ w) x y =
    omega (arith, length-le-common_suffix w (c ∷ x) (c ∷ y), same_head)
  where
    same_head : common_suffix (c ∷ x) (c ∷ y) ≡ suc (common_suffix x y)
    same_head = rw (==_self c)

split_at : (xs : List ℕ) (i m : ℕ) → (take i xs ++ take m (drop i xs)) ++ drop m (drop i xs) ≡ xs
split_at xs i m =
    append_assoc (take i xs) (take m (drop i xs)) (drop m (drop i xs))
    ∙ ap (◌++◌ (take i xs)) (take-append-drop m (drop i xs))
    ∙ take-append-drop i xs

substring_main-le :
    (a b : List ℕ) (i j m : ℕ)
    → i + m ≤ length a
    → j + m ≤ length b
    → take m (drop i a) ≡ take m (drop j b)
    → m ≤ (substring_main a b).n
unfolding common_suffix start_of
substring_main-le a b i j m ha hb e =
    let (best, found, find) = substring_main-RowsFind a b in
    let w = take m (drop i a) in
    let w' = take m (drop j b) in
    let p = rev_append (take i a) [] in
    let q = rev_append (take j b) [] in
    let row : All (λ v. v ≤ best.n) (row_of [] a (rev_append (take j b ++ w') [])) =
      round-le best.n a (take j b ++ w') [] (drop m (drop j b))
        (subst (λ c. All (λ v. v ≤ best.n) c) (sym (row_of-nil [] a)) (zeros-le best.n (length a)))
        (subst (λ c. RowsBelow best.n a [] c) (sym (split_at b j m)) find.2) in
    let below : common_suffix (rev_append (take i a ++ w) []) (rev_append (take j b ++ w') [])
        ≤ best.n =
      entry-le best.n (take i a ++ w) [] (drop m (drop i a)) (rev_append (take j b ++ w') [])
        (omega arith)
        (subst (λ c. All (λ v. v ≤ best.n) (row_of [] c (rev_append (take j b ++ w') [])))
          (sym (split_at a i m)) row) in
    let enough : length w + common_suffix p q ≤ common_suffix (rev_append w p) (rev_append w q) =
      length-le-common_suffix w p q in
    let ends : common_suffix (rev_append (take i a ++ w) []) (rev_append (take j b ++ w') [])
        ≡ common_suffix (rev_append w p) (rev_append w q) =
      ap₂ common_suffix (rev_append-append (take i a) w [])
        (rev_append-append (take j b) w' [] ∙ ap (λ t. rev_append t q) (sym e)) in
    let same_n : (substring_main a b).n ≡ best.n = ap (λ (r : Best). r.n) found in
    omega (arith, length-take m (drop i a), length-drop i a)

-- The search finds nothing, and answers 1, 1 and 0, or it finds a common substring, at positions within
-- both slices.
pub longest_common_substring-IsCommon :
    (a b : List ℕ)
    → (longest_common_substring a b ≡ nothing_found) ⊎ IsCommon a b (longest_common_substring a b)
unfolding longest_common_substring
longest_common_substring-IsCommon a b = elim (Bool-cases (ltb (length b) (length a))) [
  | inl swapped ↦ rw swapped (turned (substring_main-IsCommon b a))
  | inr straight ↦ rw straight (substring_main-IsCommon a b)
]
  where
    turned :
        (substring_main b a ≡ nothing_found) ⊎ IsCommon b a (substring_main b a)
        → (record {
          ai = (substring_main b a).bj;
          bj = (substring_main b a).ai;
          n = (substring_main b a).n;
        }
            ≡ nothing_found)
          ⊎ IsCommon a b (record {
            ai = (substring_main b a).bj;
            bj = (substring_main b a).ai;
            n = (substring_main b a).n;
          })
    turned (inl e) = inl (rw e refl)
    turned (inr c) = inr (record {
      positive = c.positive;
      within_a = c.within_b;
      within_b = c.within_a;
      same = sym c.same;
    })

-- No common substring of the two slices is longer than the one that is found.
pub longest_common_substring-le :
    (a b : List ℕ) (i j m : ℕ)
    → i + m ≤ length a
    → j + m ≤ length b
    → take m (drop i a) ≡ take m (drop j b)
    → m ≤ (longest_common_substring a b).n
unfolding longest_common_substring
longest_common_substring-le a b i j m ha hb e = elim (Bool-cases (ltb (length b) (length a))) [
  | inl swapped ↦ rw swapped (substring_main-le b a j i m hb ha (sym e))
  | inr straight ↦ rw straight (substring_main-le a b i j m ha hb e)
]
