-- ===== src/Fmt/Reads.antt =====
-- Steps of Fscanf at ASCII text.
use go_git_scm.Base.{
  ℕ, zero, suc, ◌≤◌, ◌<◌, ◌≡◌, refl, Bool, true, false, [], ◌∷◌, ◌++◌, some, length, length-append,
  All, arith, ==_self,
}
use go_git_scm.Fmt.Rune.{Bytes, read_rune, encode_rune, is_space, is_blank}
use go_git_scm.Fmt.Scan.{
  span_loop, span, token, no_newline, skip_space, literal, literals, space, end_line, newline,
}

abbrev pub IsAscii : ℕ → Type 0
IsAscii c = c < 128

-- The first byte, if there is one, is ASCII and does not satisfy `p`.
abbrev pub Stops : (ℕ → Bool) → Bytes → Type 0
Stops p [] = Unit
Stops p (c ∷ s) = IsAscii c × (p c ≡ false)

pub read_rune_ascii : (c : ℕ) (s : Bytes) → IsAscii c → read_rune (c ∷ s) ≡ some (c, s)
unfolding read_rune
read_rune_ascii c s h = ground arith

encode_rune_ascii : (c : ℕ) → IsAscii c → encode_rune c ≡ c ∷ []
unfolding encode_rune
encode_rune_ascii c h = ground arith

span_loop_stop : (fuel : ℕ) (p : ℕ → Bool) (s : Bytes) → Stops p s → span_loop fuel p s ≡ ([], s)
unfolding span_loop
span_loop_stop zero p s h = refl
span_loop_stop (suc fuel) p [] h = unfold read_rune in refl
span_loop_stop (suc fuel) p (c ∷ s) (small, bad) =
    rw (read_rune_ascii c s small, span_loop, bad) refl

span_loop_lem :
    (fuel : ℕ) (p : ℕ → Bool) (xs ys : Bytes)
    → All (λ c. IsAscii c × (p c ≡ true)) xs
    → Stops p ys
    → length xs ≤ fuel
    → span_loop fuel p (xs ++ ys) ≡ (xs, ys)
unfolding span_loop
span_loop_lem fuel p [] ys h stop enough = span_loop_stop fuel p ys stop
span_loop_lem zero p (x ∷ xs) ys h stop enough = absurd (omega arith)
span_loop_lem (suc fuel) p (x ∷ xs) ys ((small, good), h) stop enough =
    rw
      (
        read_rune_ascii x (xs ++ ys) small,
        span_loop,
        good,
        span_loop_lem fuel p xs ys h stop (omega arith),
        encode_rune_ascii x small,
      )
      refl

-- The runes in front that satisfy `p`, up to one that does not.
pub span_lem :
    (p : ℕ → Bool) (xs ys : Bytes)
    → All (λ c. IsAscii c × (p c ≡ true)) xs
    → Stops p ys
    → span p (xs ++ ys) ≡ (xs, ys)
unfolding span
span_lem p xs ys h stop =
    span_loop_lem (length (xs ++ ys)) p xs ys h stop (omega (arith, length-append xs ys))

pub token_lem :
    (p : ℕ → Bool) (xs ys : Bytes)
    → All (λ c. IsAscii c × (p c ≡ true)) xs
    → Stops p ys
    → token p (xs ++ ys) ≡ (some xs, ys)
unfolding token
token_lem p xs ys h stop = rw (span_lem p xs ys h stop) refl

not_blank : (s : Bytes) → Stops is_space s → Stops is_blank s
not_blank [] h = tt
not_blank (c ∷ s) (small, bad) = (small, unfold is_blank in ground arith)

blank_stop : (s : Bytes) → Stops is_space s → span is_blank s ≡ ([], s)
blank_stop s h = span_lem is_blank [] s tt (not_blank s h)

solid : (s : Bytes) → Stops is_space s → no_newline s ≡ (some tt, s)
unfolding no_newline is_space
solid [] h = refl
solid (c ∷ s) (small, bad) = ground arith

pub skip_space_lem : (s : Bytes) → Stops is_space s → skip_space s ≡ (some tt, s)
unfolding skip_space
skip_space_lem s h = rw (blank_stop s h) (solid s h)

-- A space in front is skipped.
pub skip_space_blank : (s : Bytes) → Stops is_space s → skip_space (32 ∷ s) ≡ (some tt, s)
unfolding skip_space
skip_space_blank s h =
    rw
      (span_lem is_blank (32 ∷ []) s ((omega arith, unfold is_blank is_space in refl), tt)
        (not_blank s h))
      (solid s h)

pub literal_lem : (c : ℕ) (s : Bytes) → IsAscii c → literal c (c ∷ s) ≡ (some tt, s)
unfolding literal
literal_lem c s small = rw (read_rune_ascii c s small, literal, ==_self c) refl

pub literals_lem : (cs s : Bytes) → All IsAscii cs → literals cs (cs ++ s) ≡ (some tt, s)
unfolding literals
literals_lem [] s h = refl
literals_lem (c ∷ cs) s (small, h) = rw (literal_lem c (cs ++ s) small) (literals_lem cs s h)

pub space_lem : (s : Bytes) → Stops is_space s → space (32 ∷ s) ≡ (some tt, s)
unfolding space
space_lem s h =
    rw (read_rune_ascii 32 s (omega arith), space, blank_stop s h)
      (unfold is_blank is_space in refl)

-- Two spaces are taken as one.
pub space_two : (s : Bytes) → Stops is_space s → space (32 ∷ 32 ∷ s) ≡ (some tt, s)
unfolding space
space_two s h =
    rw
      (
        read_rune_ascii 32 (32 ∷ s) (omega arith),
        space,
        span_lem is_blank (32 ∷ []) s ((omega arith, unfold is_blank is_space in refl), tt)
            (not_blank s h),
      )
      (unfold is_blank is_space in refl)

pub newline_lem : (s : Bytes) → newline (10 ∷ s) ≡ (some tt, s)
unfolding newline end_line
newline_lem s =
    rw
      (
        span_lem is_blank [] (10 ∷ s) tt (omega arith, unfold is_blank in refl),
        read_rune_ascii 10 s (omega arith),
        end_line,
      )
      refl
