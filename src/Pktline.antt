-- ===== src/Pktline.antt =====
-- pktline/pktline.go: lines of bytes behind four hexadecimal digits of length. The underlying reader is
-- the list of the bytes that are left, and the underlying writer takes every byte it is given.
pub mod RoundTrip
pub mod Malformed
mod Tests
use go_git_scm.Base.{
  ℕ, zero, suc, ◌+◌, ◌-◌, ◌*◌, ◌/◌, ◌%◌, Bool, true, false, ◌&&◌, List, [], ◌∷◌, ◌++◌, Option, some,
  none, ℤ, pos, negsuc, Result, ok, err, length, take, drop, get_or, ltb, leb, ◌==◌, if◌then◌else◌,
}

pub data Error : Type 0 where
  -- io.EOF, io.ErrUnexpectedEOF and ErrTooLong
  eof unexpected_eof too_long : Error

abbrev pub max_payload_len : ℕ
max_payload_len = 65520

-- The value of a digit; any other byte adds nothing to the length.
unfoldable pub digit_value : ℕ → ℕ
digit_value c =
    if leb b'A' c && leb c b'F'
    then c - b'A' + 10
    else (if leb b'a' c && leb c b'f'
        then c - b'a' + 10
        else (if leb b'0' c && leb c b'9' then c - b'0' else 0))

-- `x - 4` on an int
unfoldable pub less_four : ℕ → ℤ
less_four x = if ltb x 4 then negsuc (3 - x) else pos (x - 4)

-- The length, or an error, and what is left of the stream: a stream of less than four bytes is used up.
unfoldable pub read_line_len : List ℕ → Result Error ℤ × List ℕ
read_line_len (a ∷ b ∷ c ∷ d ∷ r) = (
  ok (less_four (digit_value a * 4096 + digit_value b * 256 + digit_value c * 16 + digit_value d)),
  r,
)
read_line_len _ = (err unexpected_eof, [])

abbrev pub hex_digits : List ℕ
hex_digits =
    b'0' ∷ b'1' ∷ b'2' ∷ b'3' ∷ b'4' ∷ b'5' ∷ b'6' ∷ b'7' ∷ b'8' ∷ b'9' ∷ b'a' ∷ b'b' ∷ b'c' ∷ b'd'
    ∷ b'e' ∷ b'f' ∷ []

-- `hexDigits[d]` at a digit, which is below 16
unfoldable pub hex_digit : ℕ → ℕ
hex_digit d = get_or hex_digits d 0

-- The bytes that are written for the length `x`.
unfoldable pub write_line_len : ℕ → List ℕ
write_line_len x =
    hex_digit ((x + 4) / 4096 % 16)
    ∷ hex_digit ((x + 4) / 256 % 16)
    ∷ hex_digit ((x + 4) / 16 % 16)
    ∷ hex_digit ((x + 4) % 16)
    ∷ []

pub record Reader : Type 0 where
  pub stream : List ℕ
  pub at_eof : Bool

unfoldable pub new_reader : List ℕ → Reader
new_reader r = record { stream = r; at_eof = false }

unfoldable pub next : Reader → Reader
next r = record r { at_eof = false }

-- What ReadLine returns beside the new state: the line, as far as it was read, and the error.
pub record Line : Type 0 where
  pub text : List ℕ
  pub error : Option Error

-- Behind the length: io.CopyN reads `n` bytes, or all there are and io.EOF.
unfoldable pub read_payload : Reader → Result Error ℤ × List ℕ → Reader × Line
read_payload r (err e, rest) = (record r { stream = rest }, record { text = []; error = some e })
read_payload r (ok (negsuc k), rest) =
    (record { stream = rest; at_eof = true }, record { text = []; error = some eof })
read_payload r (ok (pos n), rest) = (
  record r { stream = drop n rest },
  record { text = take n rest; error = if ltb (length rest) n then some unexpected_eof else none },
)

unfoldable pub read_line : Reader → Reader × Line
read_line r = read_payload r (read_line_len r.stream)

-- The bytes that Flush and WriteLine send.
abbrev pub flush : List ℕ
flush = b'0' ∷ b'0' ∷ b'0' ∷ b'0' ∷ []

unfoldable pub write_line : List ℕ → Result Error (List ℕ)
write_line s =
    if ltb max_payload_len (length s) then err too_long else ok (write_line_len (length s) ++ s)
