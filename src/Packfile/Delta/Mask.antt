-- ===== src/Packfile/Delta/Mask.antt =====
-- packfile/delta.go: uvarintMask and putUvarintMask. Both run eight rounds, `i` from 0 to 7.
pub mod RoundTrip
use go_git_scm.Base.{
  ℕ, zero, suc, ◌+◌, ◌*◌, ◌/◌, ◌%◌, ◌^◌, Bool, true, false, List, [], ◌∷◌, ◌++◌, Option, some, none,
  Result, ok, err, length, ltb, ◌==◌, if◌then◌else◌,
}
use go_git_scm.Packfile.Errors.{Error, panic}

-- `buf` is what is left of the buffer and `n` how many bytes were read. `none` is the count -1.
unfoldable pub uvarint_mask_loop : ℕ → ℕ → List ℕ → ℕ → ℕ → ℕ → Option (ℕ × ℕ)
uvarint_mask_loop zero i buf mask x n = some (x, n)
uvarint_mask_loop (suc rounds) i [] mask x n =
    let skip = uvarint_mask_loop rounds (i + 1) [] mask x n in
    if mask / 2 ^ i % 2 == 0 then skip else none
uvarint_mask_loop (suc rounds) i (c ∷ buf) mask x n =
    let skip = uvarint_mask_loop rounds (i + 1) (c ∷ buf) mask x n in
    let read = uvarint_mask_loop rounds (i + 1) buf mask (x + c * 2 ^ (i * 8)) (n + 1) in
    if mask / 2 ^ i % 2 == 0 then skip else read

-- The number and the count of bytes read.
unfoldable pub uvarint_mask : List ℕ → ℕ → Option (ℕ × ℕ)
uvarint_mask buf mask = uvarint_mask_loop 8 0 buf mask 0 0

-- `buf` holds what is written so far, of `room` bytes.
unfoldable pub put_uvarint_mask_loop : ℕ → ℕ → ℕ → ℕ → ℕ → List ℕ → Result Error (ℕ × List ℕ)
put_uvarint_mask_loop zero i room x mask buf = ok (mask, buf)
put_uvarint_mask_loop (suc rounds) i room x mask buf =
    let c = x / 2 ^ (i * 8) % 256 in
    let skip = put_uvarint_mask_loop rounds (i + 1) room x mask buf in
    let write = put_uvarint_mask_loop rounds (i + 1) room x (mask + 2 ^ i) (buf ++ (c ∷ [])) in
    if c == 0 then skip else (if ltb (length buf) room then write else err panic)

-- The mask and the bytes, for a buffer of `room` bytes.
unfoldable pub put_uvarint_mask : ℕ → ℕ → Result Error (ℕ × List ℕ)
put_uvarint_mask room x = put_uvarint_mask_loop 8 0 room x 0 []
