-- ===== src/Packfile/Delta/Match.antt =====
-- What a round of computeDelta copies is the same in the result and in the base.
use go_git_scm.Base.{
  ℕ, zero, suc, ◌+◌, ◌≤◌, ◌≡◌, refl, sym, ap, ap₂, ◌∙◌, ◌⊎◌, ◌&&◌, inl, inr, List, [], ◌∷◌, ◌++◌,
  length, take, drop, ltb, leb, ◌==◌, arith, Bool-cases, length-take, length-drop, take-add,
  drop-drop,
}
use go_git_scm.Packfile.Delta.Substring.{Best, longest_common_substring}
use go_git_scm.Packfile.Delta.Substring.Found.{IsCommon, nothing_found}
use go_git_scm.Packfile.Delta.Substring.Longest.{longest_common_substring-IsCommon}
use go_git_scm.Packfile.Delta.Compute.{
  extend_match, extended, worth_copying, choose_match, max_copy_len, max_insert_len,
}

-- The extension takes `k` more bytes.
record Extends (result base : List ℕ) (n n' : ℕ) : Type 0 where
  k : ℕ
  sum : n' ≡ n + k
  same : take k result ≡ take k base
  fits : k ≤ length result
  fits_base : k ≤ length base
  small : n + k ≤ max_copy_len

extend_match-Extends :
    (result base : List ℕ) (n : ℕ)
    → n ≤ max_copy_len
    → Extends result base n (extend_match result base n)
unfolding extend_match
extend_match-Extends [] base n h = record {
  k = 0;
  sum = omega arith;
  same = refl;
  fits = omega arith;
  fits_base = omega arith;
  small = omega arith;
}
extend_match-Extends (x ∷ result) [] n h = record {
  k = 0;
  sum = omega arith;
  same = refl;
  fits = omega arith;
  fits_base = omega arith;
  small = omega arith;
}
extend_match-Extends (x ∷ result) (y ∷ base) n h =
    elim (Bool-cases (ltb n max_copy_len && x == y)) [
      | inl go ↦
          let e = extend_match-Extends result base (n + 1) (ground arith) in
          rw go (record {
            k = suc e.k;
            sum = omega (arith, e.sum);
            same = ground (arith, e.same);
            fits = omega (arith, e.fits);
            fits_base = omega (arith, e.fits_base);
            small = omega (arith, e.small);
          })
      | inr stop ↦ rw stop (record {
        k = 0;
        sum = omega arith;
        same = refl;
        fits = omega arith;
        fits_base = omega arith;
        small = omega arith;
      })
    ]

take-drop-take :
    (n i k : ℕ) (xs : List ℕ) → i + n ≤ k → take n (drop i (take k xs)) ≡ take n (drop i xs)
take-drop-take zero i k xs h = refl
take-drop-take (suc n) zero zero xs h = absurd (omega arith)
take-drop-take (suc n) zero (suc k) [] h = refl
take-drop-take (suc n) zero (suc k) (x ∷ xs) h =
    ap (◌∷◌ x) (take-drop-take n zero k xs (omega arith))
take-drop-take (suc n) (suc i) zero xs h = absurd (omega arith)
take-drop-take (suc n) (suc i) (suc k) [] h = refl
take-drop-take (suc n) (suc i) (suc k) (x ∷ xs) h = take-drop-take (suc n) i k xs (omega arith)

-- A match that can be copied: `i`, `j` and `n` lie within the slices, and the bytes are the same.
pub record CanCopy (result base : List ℕ) (m : Best) : Type 0 where
  pub within : m.ai + m.n ≤ length result
  pub within_base : m.bj + m.n ≤ length base
  pub near : m.ai ≤ max_insert_len
  pub near_base : m.bj ≤ max_insert_len
  pub small : m.n ≤ max_copy_len
  pub same : take m.n (drop m.ai result) ≡ take m.n (drop m.bj base)

module _ (result base : List ℕ) (w : ℕ) (m : Best) (hw : w ≤ max_insert_len) where
  common-CanCopy : IsCommon (take w result) (take w base) m → CanCopy result base m
  common-CanCopy c =
      let a = length-take w result in
      let b = length-take w base in
      record {
        within = omega (arith, c.within_a);
        within_base = omega (arith, c.within_b);
        near = omega (arith, c.within_a);
        near_base = omega (arith, c.within_b);
        small = omega (arith, c.within_a);
        same =
            sym (take-drop-take m.n m.ai w result (omega (arith, c.within_a)))
            ∙ c.same
            ∙ take-drop-take m.n m.bj w base (omega (arith, c.within_b));
      }

  longer-CanCopy :
      (n : ℕ)
      → CanCopy result base m
      → Extends (drop (m.ai + m.n) result) (drop (m.bj + m.n) base) m.n n
      → CanCopy result base (record m { n = n })
  longer-CanCopy n c e =
      let a = length-drop (m.ai + m.n) result in
      let b = length-drop (m.bj + m.n) base in
      record {
        within = omega (arith, c.within, e.fits, e.sum);
        within_base = omega (arith, c.within_base, e.fits_base, e.sum);
        near = c.near;
        near_base = c.near_base;
        small = omega (arith, e.small, e.sum);
        same =
            take-add (drop m.ai result) m.n e.k n (sym e.sum)
            ∙ ap₂ ◌++◌ c.same (
                ap (take e.k) (drop-drop result m.ai m.n (m.ai + m.n) refl)
                ∙ e.same
                ∙ ap (take e.k) (sym (drop-drop base m.bj m.n (m.bj + m.n) refl)))
            ∙ sym (take-add (drop m.bj base) m.n e.k n (sym e.sum));
      }

  extended-CanCopy :
      IsCommon (take w result) (take w base) m
      → CanCopy result base (record m { n = extended result base m })
  unfolding extended
  extended-CanCopy c =
      let start = common-CanCopy c in
      elim (Bool-cases (m.bj + m.n == max_insert_len)) [
        | inl at_end ↦ rw at_end (
            longer-CanCopy _ start (
              extend_match-Extends (drop (m.ai + m.n) result) (drop (m.bj + m.n) base) m.n
                start.small))
        | inr before ↦ rw before start
      ]

-- The reset values insert the whole window and copy nothing.
reset-CanCopy :
    (result base : List ℕ)
    → max_insert_len ≤ length result
    → max_insert_len ≤ length base
    → CanCopy result base (record { ai = max_insert_len; bj = max_insert_len; n = 0 })
reset-CanCopy result base h hb = record {
  within = omega arith;
  within_base = omega arith;
  near = omega arith;
  near_base = omega arith;
  small = omega arith;
  same = refl;
}

abbrev pub RoundFits : List ℕ → List ℕ → Best → Type 0
RoundFits result base m = CanCopy result base m × (7 ≤ m.ai + m.n)

worth_copying-RoundFits :
    (result base : List ℕ) (m : Best)
    → max_insert_len ≤ length result
    → max_insert_len ≤ length base
    → (m.n ≤ 6) ⊎ CanCopy result base m
    → RoundFits result base (worth_copying m)
unfolding worth_copying
worth_copying-RoundFits result base m h hb c = elim (Bool-cases (leb m.n 6)) [
  | inl short ↦ rw short (reset-CanCopy result base h hb, omega arith)
  | inr long ↦ rw long (elim c [ inl s ↦ absurd (ground arith) | inr c' ↦ (c', ground arith) ])
]

extended_or_short :
    (result base : List ℕ) (w : ℕ) (m : Best)
    → w ≤ max_insert_len
    → (m ≡ nothing_found) ⊎ IsCommon (take w result) (take w base) m
    → (extended result base m ≤ 6) ⊎ CanCopy result base (record m { n = extended result base m })
unfolding extended
extended_or_short result base w m hw (inl e) = inl (rw e (omega arith))
extended_or_short result base w m hw (inr c) = inr (extended-CanCopy result base w m hw c)

-- In a round the match can be copied, and the round takes seven bytes of the result at least.
pub choose_match-RoundFits :
    (result base : List ℕ)
    → max_insert_len ≤ length result
    → max_insert_len ≤ length base
    → RoundFits result base (choose_match result base)
unfolding choose_match
choose_match-RoundFits result base h hb =
    let m = longest_common_substring (take max_insert_len result) (take max_insert_len base) in
    worth_copying-RoundFits result base (record m { n = extended result base m }) h hb
      (extended_or_short result base max_insert_len m (omega arith)
        (longest_common_substring-IsCommon (take max_insert_len result) (take max_insert_len base)))
