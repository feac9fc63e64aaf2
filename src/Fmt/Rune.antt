-- ===== src/Fmt/Rune.antt =====
-- unicode/utf8 and the spaces of fmt.
use go_git_scm.Base.{
  ℕ, ◌+◌, ◌*◌, ◌/◌, ◌%◌, Bool, ◌&&◌, ◌||◌, List, [], ◌∷◌, Option, none, some, ltb, leb, ◌==◌,
  if◌then◌else◌,
}

abbrev pub Bytes : Type 0
Bytes = List ℕ

abbrev pub between : ℕ → ℕ → ℕ → Bool
between lo hi c = leb lo c && leb c hi

-- utf8.RuneError, for a byte that begins no rune
abbrev pub rune_error : ℕ
rune_error = 0xfffd

-- The second bytes that may follow a first byte `a`.
unfoldable pub second_ok : ℕ → ℕ → Bool
second_ok a b =
    between (if a == 0xe0 then 0xa0 else (if a == 0xf0 then 0x90 else 0x80))
      (if a == 0xed then 0x9f else (if a == 0xf4 then 0x8f else 0xbf)) b

unfoldable pub two_bytes : ℕ → Bytes → ℕ × Bytes
two_bytes a [] = (rune_error, [])
two_bytes a (b ∷ s) = if second_ok a b then (a % 32 * 64 + b % 64, s) else (rune_error, b ∷ s)

unfoldable pub three_bytes : ℕ → Bytes → ℕ × Bytes
three_bytes a [] = (rune_error, [])
three_bytes a (b ∷ []) = (rune_error, b ∷ [])
three_bytes a (b ∷ c ∷ s) =
    if second_ok a b && between 0x80 0xbf c
    then ((a % 16 * 64 + b % 64) * 64 + c % 64, s)
    else (rune_error, b ∷ c ∷ s)

unfoldable pub four_bytes : ℕ → Bytes → ℕ × Bytes
four_bytes a [] = (rune_error, [])
four_bytes a (b ∷ []) = (rune_error, b ∷ [])
four_bytes a (b ∷ c ∷ []) = (rune_error, b ∷ c ∷ [])
four_bytes a (b ∷ c ∷ d ∷ s) =
    if second_ok a b && (between 0x80 0xbf c && between 0x80 0xbf d)
    then (((a % 8 * 64 + b % 64) * 64 + c % 64) * 64 + d % 64, s)
    else (rune_error, b ∷ c ∷ d ∷ s)

-- utf8.DecodeRune behind a first byte that is no ASCII
unfoldable pub decode_rune : ℕ → Bytes → ℕ × Bytes
decode_rune a s =
    if between 0xc2 0xdf a
    then two_bytes a s
    else (if between 0xe0 0xef a
        then three_bytes a s
        else (if between 0xf0 0xf4 a then four_bytes a s else (rune_error, s)))

-- ReadRune: none at the end of the input
unfoldable pub read_rune : Bytes → Option (ℕ × Bytes)
read_rune [] = none
read_rune (a ∷ s) = some (if ltb a 0x80 then (a, s) else decode_rune a s)

-- utf8.EncodeRune
unfoldable pub encode_rune : ℕ → Bytes
encode_rune r =
    if ltb r 0x80
    then r ∷ []
    else (if ltb r 0x800
        then (0xc0 + r / 64) ∷ (0x80 + r % 64) ∷ []
        else (if ltb r 0x10000
            then (0xe0 + r / 4096) ∷ (0x80 + r / 64 % 64) ∷ (0x80 + r % 64) ∷ []
            else (0xf0 + r / 262144)
              ∷ (0x80 + r / 4096 % 64)
              ∷ (0x80 + r / 64 % 64)
              ∷ (0x80 + r % 64)
              ∷ []))

-- isSpace of fmt
unfoldable pub is_space : ℕ → Bool
is_space r =
    between 0x09 0x0d r
    || (r == 0x20
        || (r == 0x85
            || (r == 0xa0
                || (r == 0x1680
                    || (between 0x2000 0x200a r
                        || (between 0x2028 0x2029 r
                            || (r == 0x202f || (r == 0x205f || r == 0x3000))))))))

-- A space that is no newline.
unfoldable pub is_blank : ℕ → Bool
is_blank r = if r == 10 then go_git_scm.Base.false else is_space r
