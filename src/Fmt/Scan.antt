-- ===== src/Fmt/Scan.antt =====
-- The steps of Fscanf.
use go_git_scm.Base.{
  ℕ, zero, suc, ◌+◌, ◌-◌, ◌*◌, ◌^◌, Bool, true, false, not, ◌&&◌, [], ◌∷◌, ◌++◌, Option, none, some,
  ℤ, pos, negsuc, length, ltb, leb, ◌==◌, if◌then◌else◌,
}
use go_git_scm.Fmt.Rune.{Bytes, read_rune, encode_rune, is_space, is_blank}

abbrev pub Scanned : Type 0 → Type 0
Scanned A = Option A × Bytes

abbrev pub Scan : Type 0 → Type 0
Scan A = Bytes → Scanned A

abbrev pub after : {A B : Type 0} → Scanned A → (A → Scan B) → Scanned B
after (none, s) f = (none, s)
after (some a, s) f = f a s

infixl 5 ◌>>=◌
abbrev pub ◌>>=◌ : {A B : Type 0} → Scan A → (A → Scan B) → Scan B
m >>= f = λ s. after (m s) f

infixl 5 ◌>>◌
abbrev pub ◌>>◌ : {A B : Type 0} → Scan A → Scan B → Scan B
m >> k = λ s. after (m s) (λ a. k)

abbrev pub pure : {A : Type 0} → A → Scan A
pure a = λ s. (some a, s)

abbrev pub fail : {A : Type 0} → Scan A
fail = λ s. (none, s)

-- The runes in front that satisfy `p`, written again, and what follows; the length of the input is a fuel
-- that is enough, since a rune has a byte at least.
unfoldable pub span_loop : ℕ → (ℕ → Bool) → Bytes → Bytes × Bytes
span_loop zero p s = ([], s)
span_loop (suc fuel) p s = elim (read_rune s) [
  | none ↦ ([], s)
  | some (r, s') ↦
      let more = span_loop fuel p s' in if p r then (encode_rune r ++ more.0, more.1) else ([], s)
]

unfoldable pub span : (ℕ → Bool) → Bytes → Bytes × Bytes
span p s = span_loop (length s) p s

-- Token(false, p)
unfoldable pub token : (ℕ → Bool) → Scan Bytes
token p s = let r = span p s in (some r.0, r.1)

-- SkipSpace, which refuses a newline, and has read it then
unfoldable pub no_newline : Bytes → Scanned (Unit {0})
no_newline [] = (some tt, [])
no_newline (c ∷ s) = if c == 10 then (none, s) else (some tt, c ∷ s)

unfoldable pub skip_space : Scan (Unit {0})
skip_space s = no_newline (span is_blank s).1

-- A rune of the format, below 0x80, that is no space.
unfoldable pub literal : ℕ → Scan (Unit {0})
literal c s = elim (read_rune s) [
  | none ↦ (none, s)
  | some (r, s') ↦ if r == c then (some tt, s') else (none, s)
]

unfoldable pub literals : Bytes → Scan (Unit {0})
literals [] s = (some tt, s)
literals (c ∷ cs) s = after (literal c s) (λ u. literals cs)

-- A space of the format: one space at least, or the end of the input.
unfoldable pub space : Scan (Unit {0})
space s = elim (read_rune s) [
  | none ↦ (some tt, s)
  | some (r, s') ↦ if is_blank r then (some tt, (span is_blank s').1) else (none, s')
]

-- A newline of the format: spaces, and a newline or the end of the input.
unfoldable pub end_line : Bytes → Scanned (Unit {0})
end_line s = elim (read_rune s) [
  | none ↦ (some tt, s)
  | some (r, s') ↦ if r == 10 then (some tt, s') else (none, s')
]

unfoldable pub newline : Scan (Unit {0})
newline s = end_line (span is_blank s).1

-- The digits in front, `limit` at most; a digit is one byte.
unfoldable pub take_digits : ℕ → ℕ → Bytes → Bytes × Bytes
take_digits base zero s = ([], s)
take_digits base (suc limit) [] = ([], [])
take_digits base (suc limit) (c ∷ s) =
    let more = take_digits base limit s in
    if leb b'0' c && ltb c (b'0' + base) then (c ∷ more.0, more.1) else ([], c ∷ s)

-- The number that digits spell, behind `n`.
unfoldable pub value : ℕ → ℕ → Bytes → ℕ
value base n [] = n
value base n (c ∷ tok) = value base (n * base + (c - b'0')) tok

-- scanNumber, and the test that the number is below `bound`
unfoldable pub bounded : ℕ → ℕ → Bytes × Bytes → Scanned ℕ
bounded base bound ([], s) = (none, s)
bounded base bound (c ∷ tok, s) =
    if ltb (value base 0 (c ∷ tok)) bound then (some (value base 0 (c ∷ tok)), s) else (none, s)

-- An unsigned integer of `bits` bits, with the width that is given, if one is.
unfoldable pub width_or : Option ℕ → Bytes → ℕ
width_or none s = length s
width_or (some width) s = width

unfoldable pub scan_uint : ℕ → ℕ → Option ℕ → Scan ℕ
scan_uint base bits width =
    skip_space >> λ s. bounded base (2 ^ bits) (take_digits base (width_or width s) s)

-- The sign has been read, or there is none: an int64 of that sign, of `limit` digits at most.
unfoldable pub signed : Bool → ℕ → Scan ℤ
signed negative limit =
    (λ s. bounded 10 (2 ^ 63 + (if negative then 1 else 0)) (take_digits 10 limit s)) >>= λ n.
    pure (if negative then (elim n [ zero ↦ pos 0 | suc k ↦ negsuc k ]) else pos n)

unfoldable pub int_at : Option ℕ → Scan ℤ
int_at width [] = (none, [])
int_at width (c ∷ s) =
    if c == b'-'
    then signed true (width_or width (c ∷ s) - 1) s
    else (if c == b'+'
        then signed false (width_or width (c ∷ s) - 1) s
        else signed false (width_or width (c ∷ s)) (c ∷ s))

-- %d into an int or an int64, of `width` runes at most
unfoldable pub scan_int : Option ℕ → Scan ℤ
scan_int width = skip_space >> int_at width

-- %s into a string: a word that is not empty
unfoldable pub word_at : Scan Bytes
word_at [] = (none, [])
word_at (c ∷ s) = token (λ r. not (is_space r)) (c ∷ s)

unfoldable pub scan_word : Scan Bytes
scan_word = skip_space >> word_at
