-- ===== src/Packfile/Header.antt =====
-- packfile/object.go: the header of an object in a packfile, a little-endian base128 number with
-- the object's type in bits 4 to 6 and its size in the others.
use go_git_scm.Base.{
  ℕ, ◌+◌, ◌-◌, ◌*◌, ◌/◌, ◌%◌, ◌^◌, ◌≤◌, ◌<◌, ◌≡◌, refl, List, ◌++◌, ℤ, pos, negsuc, err, Result, ok,
  length, All, IsByte, ltb, if◌then◌else◌, arith, ◌>>=◌,
}
use go_git_scm.Packfile.Errors.{Error, size_out_of_range}
use go_git_scm.Packfile.Base128.{read_base128_le, write_base128_le}
use go_git_scm.Packfile.Base128.Little.{read-write_base128_le}

-- The object's type code, its size and the bytes behind the header. The codes are bytes, and
-- `x &^ 0xF` clears the four low bits.
unfoldable pub read_obj_header : List ℕ → Result Error (ℕ × ℕ × List ℕ)
read_obj_header r = do
  (hdr, rest) ← read_base128_le r
  ok (hdr / 16 % 8, (hdr / 8 - hdr / 8 % 16) + hdr % 16, rest)

-- The largest size that leaves room for the type.
abbrev pub max_size : ℕ
max_size = 0x1fff_ffff_ffff_ffff

-- `size` is an int64, and `objType<<4` is a shift of a byte.
unfoldable pub write_obj_header : ℕ → ℤ → Result Error (List ℕ)
write_obj_header obj_type (negsuc n) = err size_out_of_range
write_obj_header obj_type (pos size) =
    if ltb max_size size
    then err size_out_of_range
    else write_base128_le ((size - size % 16) * 8 % 2 ^ 64 + obj_type * 16 % 256 + size % 16)

-- For the type codes of a packfile, 0 to 7, and every size that is in range, the header is written in
-- 1 to 10 bytes, and it reads back as the type and the size, with what follows it unread.
pub read-write_obj_header :
    (obj_type size : ℕ) (rest : List ℕ)
    → obj_type < 8
    → size ≤ max_size
    → (bytes : List ℕ) × (write_obj_header obj_type (pos size) ≡ ok bytes)
      × (read_obj_header (bytes ++ rest) ≡ ok (obj_type, size, rest))
      × All IsByte bytes
      × (1 ≤ length bytes)
      × (length bytes ≤ 10)
unfolding write_obj_header read_obj_header
read-write_obj_header obj_type size rest ht hs =
    let hdr = (size - size % 16) * 8 % 2 ^ 64 + obj_type * 16 % 256 + size % 16 in
    let (bytes, wrote, _, reads, good, lo, hi) = read-write_base128_le hdr rest (omega arith) in
    let type_bits : hdr / 16 % 8 ≡ obj_type = omega arith in
    let size_bits : (hdr / 8 - hdr / 8 % 16) + hdr % 16 ≡ size = omega arith in
    (bytes, ground arith, rw (reads, type_bits, size_bits), good, lo, hi)

-- A negative size, and one with more than 61 bits, is refused, whatever the type.
pub write_obj_header-out_of_range :
    (obj_type n size : ℕ)
    → max_size < size
    → (write_obj_header obj_type (negsuc n) ≡ err size_out_of_range)
      × (write_obj_header obj_type (pos size) ≡ err size_out_of_range)
unfolding write_obj_header
write_obj_header-out_of_range obj_type n size h = (refl, ground arith)
