-- ===== src/Object/Scan/Zone.antt =====
-- The zone that a signature is printed with is scanned as its offset.
use go_git_scm.Base.{
  ℕ, zero, suc, ◌+◌, ◌*◌, ◌/◌, ◌%◌, ◌^◌, ◌≤◌, ◌<◌, ◌≡◌, refl, ap, true, [], ◌∷◌, ◌++◌, some, ℤ, pos,
  negsuc, lt→ltb, arith, all_below, all_below_sound, bytes_eq, bytes_eq_iff,
}
use go_git_scm.Fmt.Rune.{is_space}
use go_git_scm.Fmt.Scan.{take_digits, value, bounded, width_or, scan_int, int_at, signed}
use go_git_scm.Fmt.Reads.{Stops, skip_space_lem}
use go_git_scm.Object.{Bytes}
use go_git_scm.Object.Print.{digits, print_nat, two_digits, zone_string}
use go_git_scm.Object.Scan.{seconds, negated, zone_offset}
use go_git_scm.Object.Scan.Number.{is_digit, take_digits_lem}

two_digits_table :
    all_below 100 (λ n. bytes_eq (two_digits n) ((n / 10 + b'0') ∷ (n % 10 + b'0') ∷ [])) ≡ true
unfolding all_below two_digits print_nat digits bytes_eq
two_digits_table = refl

two_digits_lem : (n : ℕ) → n < 100 → two_digits n ≡ (n / 10 + b'0') ∷ (n % 10 + b'0') ∷ []
two_digits_lem n h =
    (bytes_eq_iff (two_digits n) ((n / 10 + b'0') ∷ (n % 10 + b'0') ∷ [])).0
      (all_below_sound 100 _ n two_digits_table h)

-- The four digits of hours and minutes, read as one number.
four_digits :
    (bound h m : ℕ) (ys : Bytes)
    → h < 100
    → m < 100
    → 10000 ≤ bound
    → Stops (is_digit 10) ys
    → bounded 10 bound (take_digits 10 4 ((two_digits h ++ two_digits m) ++ ys))
      ≡ (some (h * 100 + m), ys)
unfolding bounded value
four_digits bound h m ys hh hm hb stop =
    let ds : Bytes = (h / 10 + b'0') ∷ (h % 10 + b'0') ∷ (m / 10 + b'0') ∷ (m % 10 + b'0') ∷ [] in
    let v : value 10 0 ds ≡ h * 100 + m = omega arith in
    rw
      (
        two_digits_lem h hh,
        two_digits_lem m hm,
        take_digits_lem 10 4 ds ys
            (ground arith, (ground arith, (ground arith, (ground arith, tt)))) stop (omega arith),
        v,
        lt→ltb (h * 100 + m) bound (omega arith),
      )
      refl

-- A whole number of minutes, below a hundred hours.
abbrev pub IsZone : ℤ → Type 0
IsZone (pos s) = (s % 60 ≡ 0) × (s < 360000)
IsZone (negsuc k) = ((k + 1) % 60 ≡ 0) × (k + 1 < 360000)

negated_lem : (n k : ℕ) → n ≡ k + 1 → negated n ≡ negsuc k
unfolding negated
negated_lem zero k e = absurd (omega arith)
negated_lem (suc n) k e = ap negsuc (omega arith)

zone_offset_lem :
    (n k : ℕ)
    → 0 < n
    → n / 100 * 60 * 60 + n % 100 * 60 ≡ k + 1
    → zone_offset (negated n) ≡ negsuc k
unfolding zone_offset negated seconds
zone_offset_lem zero k h e = absurd (omega arith)
zone_offset_lem (suc n) k h e = negated_lem (seconds (n + 1)) k (omega arith)

-- The printed zone is scanned, to the width of the verb, as the number of its digits, which stands for the
-- same offset.
pub scan_int-zone_string :
    (z : ℤ) (ys : Bytes)
    → IsZone z
    → Stops (is_digit 10) ys
    → (n : ℤ) × (scan_int (some 5) (zone_string z ++ ys) ≡ (some n, ys)) × (zone_offset n ≡ z)
unfolding scan_int int_at signed width_or zone_string zone_offset seconds negated
scan_int-zone_string (pos s) ys (whole, small) stop =
    let h = s / 60 / 60 in
    let m = s / 60 % 60 in
    (
      pos (h * 100 + m),
      rw
          (
            skip_space_lem (b'+' ∷ ((two_digits h ++ two_digits m) ++ ys))
                (omega arith, unfold is_space in refl),
            four_digits (2 ^ 63) h m ys (omega arith) (omega arith) (omega arith) stop,
          )
          refl,
      ap pos (omega arith),
    )
scan_int-zone_string (negsuc k) ys (whole, small) stop =
    let h = (k + 1) / 60 / 60 in
    let m = (k + 1) / 60 % 60 in
    (
      negated (h * 100 + m),
      rw
          (
            lt→ltb 0 ((k + 1) / 60) (omega arith),
            skip_space_lem (b'-' ∷ ((two_digits h ++ two_digits m) ++ ys))
                (omega arith, unfold is_space in refl),
            four_digits (2 ^ 63 + 1) h m ys (omega arith) (omega arith) (omega arith) stop,
          )
          refl,
      zone_offset_lem (h * 100 + m) k (omega arith) (omega arith),
    )
