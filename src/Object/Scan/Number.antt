-- ===== src/Object/Scan/Number.antt =====
-- The numbers that fmt prints are scanned again.
use go_git_scm.Base.{
  ℕ, zero, suc, ◌+◌, ◌-◌, ◌*◌, ◌/◌, ◌%◌, ◌^◌, ◌≤◌, ◌<◌, ◌≡◌, refl, Bool, true, false, ◌&&◌,
  Bool-cases, inl, inr, [], ◌∷◌, ◌++◌, none, some, ℤ, pos, negsuc, length, length-append, All,
  All-append, ltb, leb, lt→ltb, le→leb, ◌==◌, arith, ltb→lt,
}
use native.Mathlib.Nat.{div-add-mod', div-lt_self, mod-lt}
use go_git_scm.Fmt.Rune.{is_space}
use go_git_scm.Fmt.Scan.{take_digits, value, bounded, width_or, scan_uint, scan_int, int_at, signed}
use go_git_scm.Fmt.Reads.{Stops, skip_space_lem}
use go_git_scm.Object.{Bytes}
use go_git_scm.Object.Print.{digits, print_nat, print_int, print_octal}

abbrev pub is_digit : ℕ → ℕ → Bool
is_digit base c = leb b'0' c && ltb c (b'0' + base)

take_digits_stop :
    (base limit : ℕ) (s : Bytes) → Stops (is_digit base) s → take_digits base limit s ≡ ([], s)
unfolding take_digits
take_digits_stop base zero s h = refl
take_digits_stop base (suc limit) [] h = refl
take_digits_stop base (suc limit) (c ∷ s) (small, bad) = rw bad refl

pub take_digits_lem :
    (base limit : ℕ) (xs ys : Bytes)
    → All (λ c. is_digit base c ≡ true) xs
    → Stops (is_digit base) ys
    → length xs ≤ limit
    → take_digits base limit (xs ++ ys) ≡ (xs, ys)
unfolding take_digits
take_digits_lem base limit [] ys h stop enough = take_digits_stop base limit ys stop
take_digits_lem base zero (x ∷ xs) ys h stop enough = absurd (omega arith)
take_digits_lem base (suc limit) (x ∷ xs) ys (good, h) stop enough =
    rw (good, take_digits_lem base limit xs ys h stop (omega arith)) refl

value-append :
    (base n : ℕ) (xs ys : Bytes) → value base n (xs ++ ys) ≡ value base (value base n xs) ys
unfolding value
value-append base n [] ys = refl
value-append base n (x ∷ xs) ys = value-append base (n * base + (x - b'0')) xs ys

module _ (base : ℕ) (two : 2 ≤ base) where
  digit_of_lt : (d : ℕ) → d < base → is_digit base (d + b'0') ≡ true
  digit_of_lt d h =
      rw (le→leb b'0' (d + b'0') (omega arith), lt→ltb (d + b'0') (b'0' + base) (omega arith)) refl

  pub digits-digit : (fuel n : ℕ) → All (λ c. is_digit base c ≡ true) (digits base fuel n)
  unfolding digits
  digits-digit zero n = tt
  digits-digit (suc fuel) n = elim (Bool-cases (ltb n base)) [
    | inl small ↦ rw small (digit_of_lt n (ltb→lt n base small), tt)
    | inr more ↦ rw more (
        All-append (λ c. is_digit base c ≡ true) (digits base fuel (n / base)) _
          (digits-digit fuel (n / base)) (digit_of_lt (n % base) (mod-lt n (omega arith)), tt))
  ]

  shorter : (n fuel : ℕ) → n < suc fuel → ltb n base ≡ false → n / base < fuel
  shorter zero fuel h more = absurd (ground (arith, lt→ltb 0 base))
  shorter (suc n) fuel h more =
      omega (arith, div-lt_self {n = suc n} {k = base} (omega arith) (omega arith))

  pub value-digits : (fuel n : ℕ) → n < fuel → value base 0 (digits base fuel n) ≡ n
  unfolding digits value
  value-digits zero n h = absurd (omega arith)
  value-digits (suc fuel) n h = elim (Bool-cases (ltb n base)) [
    | inl small ↦ rw small (omega arith)
    | inr more ↦
        rw
          (
            more,
            value-append base 0 (digits base fuel (n / base)) ((n % base + b'0') ∷ []),
            value-digits fuel (n / base) (shorter n fuel h more),
          )
          (unfold value in omega (arith, div-add-mod' n base))
  ]

  pub digits-cons :
      (fuel n : ℕ) → n < fuel → (c : ℕ) × (tok : Bytes) × (digits base fuel n ≡ c ∷ tok)
  unfolding digits
  digits-cons zero n h = absurd (omega arith)
  digits-cons (suc fuel) n h = elim (Bool-cases (ltb n base)) [
    | inl small ↦ (n + b'0', [], rw small refl)
    | inr more ↦
        let (c, tok, e) = digits-cons fuel (n / base) (shorter n fuel h more) in
        (c, tok ++ ((n % base + b'0') ∷ []), rw (more, e) refl)
  ]

  -- A printed number below the bound is read as itself.
  pub bounded-digits :
      (bound n limit : ℕ) (ys : Bytes)
      → n < bound
      → length (digits base (n + 1) n) ≤ limit
      → Stops (is_digit base) ys
      → bounded base bound (take_digits base limit (digits base (n + 1) n ++ ys)) ≡ (some n, ys)
  unfolding bounded
  bounded-digits bound n limit ys small enough stop =
      let (c, tok, e) = digits-cons (n + 1) n (omega arith) in
      let v : value base 0 (c ∷ tok) ≡ n = rw (← e) (value-digits (n + 1) n (omega arith)) in
      rw
        (
          take_digits_lem base limit (digits base (n + 1) n) ys (digits-digit (n + 1) n) stop
              enough,
          e,
        )
        (rw (v, lt→ltb n bound small) refl)

-- int64
abbrev pub IsInt64 : ℤ → Type 0
IsInt64 (pos n) = n < 2 ^ 63
IsInt64 (negsuc k) = k < 2 ^ 63

digit_solid :
    (base c : ℕ)
    → base ≤ 10
    → is_digit base c ≡ true
    → (c < 128) × (is_space c ≡ false) × ((c == b'-') ≡ false) × ((c == b'+') ≡ false)
unfolding is_space
digit_solid base c ten h = (ground arith, ground arith, ground arith, ground arith)

-- What digits begin with is no space and no sign.
pub Stops-digits :
    (base n : ℕ) (ys : Bytes) → 2 ≤ base → base ≤ 10 → Stops is_space (digits base (n + 1) n ++ ys)
Stops-digits base n ys two ten =
    go (digits base (n + 1) n) (digits-cons base two (n + 1) n (omega arith))
      (digits-digit base two (n + 1) n)
  where
    go :
        (ds : Bytes)
        → (c : ℕ) × (tok : Bytes) × (ds ≡ c ∷ tok)
        → All (λ c. is_digit base c ≡ true) ds
        → Stops is_space (ds ++ ys)
    go [] (c, tok, e) h = absurd cc
    go (d ∷ ds) e (h, hs) = let (a, b, _, _) = digit_solid base d ten h in (a, b)

pub scan_int-print_nat :
    (n : ℕ) (ys : Bytes)
    → n < 2 ^ 63
    → Stops (is_digit 10) ys
    → scan_int none (print_nat n ++ ys) ≡ (some (pos n), ys)
unfolding scan_int print_nat
scan_int-print_nat n ys h stop =
    rw
      (skip_space_lem (digits 10 (n + 1) n ++ ys)
        (Stops-digits 10 n ys (omega arith) (omega arith)))
      (go (digits 10 (n + 1) n) (digits-cons 10 (omega arith) (n + 1) n (omega arith))
        (digits-digit 10 (omega arith) (n + 1) n)
        (λ limit enough. bounded-digits 10 (omega arith) (2 ^ 63) n limit ys h enough stop))
  where
    go :
        (ds : Bytes)
        → (c : ℕ) × (tok : Bytes) × (ds ≡ c ∷ tok)
        → All (λ c. is_digit 10 c ≡ true) ds
        → ((limit : ℕ)
            → length ds ≤ limit
            → bounded 10 (2 ^ 63) (take_digits 10 limit (ds ++ ys)) ≡ (some n, ys))
        → int_at none (ds ++ ys) ≡ (some (pos n), ys)
    go [] (c, tok, e) h reads = absurd cc
    go (d ∷ ds) e (h, hs) reads =
        let (_, _, minus, plus) = digit_solid 10 d (omega arith) h in
        unfold int_at signed width_or in
        rw (minus, plus, reads (suc (length (ds ++ ys))) (omega (arith, length-append ds ys))) refl

scan_int-print_neg :
    (k : ℕ) (ys : Bytes)
    → k < 2 ^ 63
    → Stops (is_digit 10) ys
    → scan_int none (b'-' ∷ (print_nat (k + 1) ++ ys)) ≡ (some (negsuc k), ys)
unfolding scan_int print_nat int_at signed width_or
scan_int-print_neg k ys h stop =
    rw
      (
        skip_space_lem (b'-' ∷ (digits 10 (k + 1 + 1) (k + 1) ++ ys))
            (omega arith, unfold is_space in refl),
        bounded-digits 10 (omega arith) (2 ^ 63 + 1) (k + 1)
            (suc (length (digits 10 (k + 1 + 1) (k + 1) ++ ys)) - 1) ys (omega arith)
            (omega (arith, length-append (digits 10 (k + 1 + 1) (k + 1)) ys)) stop,
      )
      (ground arith)

-- A printed int64 is scanned up to what is no digit.
pub scan_int-print_int :
    (z : ℤ) (ys : Bytes)
    → IsInt64 z
    → Stops (is_digit 10) ys
    → scan_int none (print_int z ++ ys) ≡ (some z, ys)
unfolding print_int
scan_int-print_int (pos n) ys h stop = scan_int-print_nat n ys h stop
scan_int-print_int (negsuc k) ys h stop = scan_int-print_neg k ys h stop

-- A printed mode is scanned up to what is no digit.
pub scan_uint-print_octal :
    (bits n : ℕ) (ys : Bytes)
    → n < 2 ^ bits
    → Stops (is_digit 8) ys
    → scan_uint 8 bits none (print_octal n ++ ys) ≡ (some n, ys)
unfolding scan_uint print_octal width_or
scan_uint-print_octal bits n ys h stop =
    rw (skip_space_lem (digits 8 (n + 1) n ++ ys) (Stops-digits 8 n ys (omega arith) (omega arith)))
      (bounded-digits 8 (omega arith) (2 ^ bits) n (length (digits 8 (n + 1) n ++ ys)) ys h
        (omega (arith, length-append (digits 8 (n + 1) n) ys)) stop)
