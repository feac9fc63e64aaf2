-- ===== src/Packfile/Base128.antt =====
-- packfile/base128.go: the two variable-length encodings of a uint64.
-- `binary.Uvarint`, `binary.PutUvarint` and `binary.ReadUvarint` of Go's standard library are
-- written out, since base128.go only calls them. A byte reader is the list of the bytes that are
-- left; it ends in io.EOF. An `or` of numbers with no bit in common is a sum.
pub mod Little
pub mod Big
use go_git_scm.Base.{
  ℕ, zero, suc, ◌+◌, ◌-◌, ◌*◌, ◌/◌, ◌%◌, ◌^◌, Bool, ◌&&◌, List, [], ◌∷◌, Result, ok, err, ltb, leb,
  ◌==◌, ◌>>=◌, if◌then◌else◌,
}
use go_git_scm.Packfile.Errors.{Error, eof, unexpected_eof, overflow, too_small, panic}

-- binary.MaxVarintLen64
abbrev pub max_varint_len64 : ℕ
max_varint_len64 = 10

-- The loop of binary.Uvarint at index `i`. The result is the number and the count of bytes read.
unfoldable pub uvarint_loop : ℕ → ℕ → ℕ → List ℕ → Result Error (ℕ × ℕ)
uvarint_loop i x s [] = err too_small
uvarint_loop i x s (b ∷ rest) =
    let more = uvarint_loop (i + 1) (x + b % 128 * 2 ^ s % 2 ^ 64) (s + 7) rest in
    if i == max_varint_len64
    then err overflow
    else if ltb b 128
    then (if i == max_varint_len64 - 1 && ltb 1 b
        then err overflow
        else ok (x + b * 2 ^ s % 2 ^ 64, i + 1))
    else more

unfoldable pub base128_le : List ℕ → Result Error (ℕ × ℕ)
base128_le buf = uvarint_loop 0 0 0 buf

-- binary.PutUvarint into a buffer with `room` bytes; a write past its end panics.
unfoldable pub put_uvarint : ℕ → ℕ → Result Error (List ℕ)
put_uvarint zero x = err panic
put_uvarint (suc room) x =
    let more = put_uvarint room (x / 128) in
    if ltb x 128 then ok (x ∷ []) else (do bytes ← more; ok ((x % 128 + 128) ∷ bytes))

unfoldable pub put_base128_le : ℕ → ℕ → Result Error (List ℕ)
put_base128_le room x = put_uvarint room x

-- binary.ReadUvarint: io.EOF is io.ErrUnexpectedEOF behind the first byte.
unfoldable pub read_uvarint_loop : ℕ → ℕ → ℕ → List ℕ → Result Error (ℕ × List ℕ)
read_uvarint_loop i x s [] =
    if i == max_varint_len64 then err overflow else (if i == 0 then err eof else err unexpected_eof)
read_uvarint_loop i x s (b ∷ rest) =
    let more = read_uvarint_loop (i + 1) (x + b % 128 * 2 ^ s % 2 ^ 64) (s + 7) rest in
    if i == max_varint_len64
    then err overflow
    else if ltb b 128
    then (if i == max_varint_len64 - 1 && ltb 1 b
        then err overflow
        else ok (x + b * 2 ^ s % 2 ^ 64, rest))
    else more

unfoldable pub read_base128_le : List ℕ → Result Error (ℕ × List ℕ)
read_base128_le r = read_uvarint_loop 0 0 0 r

-- The bytes that are written; the buffer has MaxVarintLen64 bytes.
unfoldable pub write_base128_le : ℕ → Result Error (List ℕ)
write_base128_le x = put_uvarint max_varint_len64 x

-- The loop of readBase128MBE, with the number `x` so far and the last byte `c`.
unfoldable pub read_mbe_loop : ℕ → ℕ → List ℕ → Result Error (ℕ × List ℕ)
read_mbe_loop x c [] =
    if c / 128 == 0 then ok (x, []) else (if leb (2 ^ 57 - 1) x then err overflow else err eof)
read_mbe_loop x c (c' ∷ rest) =
    let more = read_mbe_loop ((x + 1) * 128 % 2 ^ 64 + c' % 128) c' rest in
    if c / 128 == 0 then ok (x, c' ∷ rest) else (if leb (2 ^ 57 - 1) x then err overflow else more)

unfoldable pub read_base128_mbe : List ℕ → Result Error (ℕ × List ℕ)
read_base128_mbe [] = err eof
read_base128_mbe (c ∷ rest) = read_mbe_loop (c % 128) c rest

-- `x>>7 - 1` on a uint64
abbrev pub next_group : ℕ → ℕ
next_group x = (x / 128 + (2 ^ 64 - 1)) % 2 ^ 64

-- The loop of writeBase128MBE: `i` bytes of the buffer are free, and `p` is its filled end.
unfoldable pub write_mbe_loop : ℕ → ℕ → List ℕ → Result Error (List ℕ)
write_mbe_loop zero x p = if x == 2 ^ 64 - 1 then ok p else err panic
write_mbe_loop (suc i) x p =
    let more = write_mbe_loop i (next_group x) ((x % 128 + 128) ∷ p) in
    if x == 2 ^ 64 - 1 then ok p else more

unfoldable pub write_base128_mbe : ℕ → Result Error (List ℕ)
write_base128_mbe x = write_mbe_loop (max_varint_len64 - 1) (next_group x) ((x % 128) ∷ [])
