-- ===== src/Packfile/Delta/Apply.antt =====
-- packfile/delta.go: applyDelta. The result buffer is the list of its bytes that are written: it has
-- room for `result_len`, and what is not written holds zeros. A run-time panic becomes an error, as
-- the deferred function makes it.
pub mod Steps
pub mod Ends
use go_git_scm.Base.{
  ℕ, zero, suc, ◌+◌, ◌-◌, ◌*◌, ◌/◌, ◌%◌, ◌^◌, List, [], ◌∷◌, ◌++◌, Option, some, none, Result, ok,
  err, ◌>>=◌, ◌>>◌, guard, length, take, drop, ltb, leb, ◌==◌, ◌&&◌, if◌then◌else◌,
}
use go_git_scm.Packfile.Errors.{Error, panic, delta, delta_length, out_of_fuel}
use go_git_scm.Packfile.Base128.{base128_le}
use go_git_scm.Packfile.Delta.Mask.{uvarint_mask}

-- A byte slice: its bytes, and those of the same array between its length and its capacity.
pub record Slice : Type 0 where
  pub bytes : List ℕ
  pub spare : List ℕ

-- `s[lo:hi]`: Go bounds `hi` by the capacity, not by the length.
unfoldable pub slice : Slice → ℕ → ℕ → Result Error (List ℕ)
slice s lo hi =
    if leb lo hi && leb hi (length s.bytes + length s.spare)
    then ok (take (hi - lo) (drop lo (s.bytes ++ s.spare)))
    else err panic

-- `j += copy(result[j:], s)`
unfoldable pub copy_into : ℕ → List ℕ → List ℕ → List ℕ
copy_into result_len out s = out ++ take (result_len - length out) s

unfoldable pub uvarint_mask_or_error : List ℕ → ℕ → Result Error (ℕ × ℕ)
uvarint_mask_or_error buf mask = elim (uvarint_mask buf mask) [
  | none ↦ err delta_length
  | some r ↦ ok r
]

-- One round of the loop, on an opcode and `rest`, the bytes of `delta[i:]`. It gives those at the new
-- `i`: none if `i` has passed the end.
unfoldable pub insert_instruction :
    List ℕ → ℕ → ℕ → List ℕ → List ℕ → Result Error (List ℕ × List ℕ)
insert_instruction spare result_len n rest out = do
  s ← slice (record { bytes = rest; spare = spare }) 0 n
  ok (drop n rest, copy_into result_len out s)

unfoldable pub copy_instruction : Slice → ℕ → ℕ → List ℕ → List ℕ → Result Error (List ℕ × List ℕ)
copy_instruction base result_len opcode rest out = do
  (off, n) ← uvarint_mask_or_error rest (opcode % 16)
  (len, m) ← uvarint_mask_or_error (drop n rest) (opcode / 16 % 8)
  let len' = if len == 0 then 2 ^ 16 else len
  s ← slice base off (off + len')
  ok (drop m (drop n rest), copy_into result_len out s)

unfoldable pub instruction :
    Slice → List ℕ → ℕ → ℕ → List ℕ → List ℕ → Result Error (List ℕ × List ℕ)
instruction base spare result_len opcode rest out =
    if opcode / 128 == 0
    then insert_instruction spare result_len opcode rest out
    else copy_instruction base result_len opcode rest out

unfoldable pub apply_loop : ℕ → Slice → List ℕ → ℕ → List ℕ → List ℕ → Result Error (List ℕ)
apply_loop fuel base spare result_len [] out = ok out
apply_loop zero base spare result_len (opcode ∷ rest) out = err out_of_fuel
apply_loop (suc fuel) base spare result_len (opcode ∷ rest) out = do
  (rest', out') ← instruction base spare result_len opcode rest out
  apply_loop fuel base spare result_len rest' out'

-- base128LE, and ErrDeltaLength where its count is not positive
unfoldable pub length_field : List ℕ → Result Error (ℕ × ℕ)
length_field buf = elim (base128_le buf) [ ok r ↦ ok r | err e ↦ err delta_length ]

-- `alloc_limit` is the largest length that `make` can allocate. Each round takes a byte of the delta
-- at least, so as many rounds as it has bytes are enough.
unfoldable pub apply_delta : ℕ → Slice → Slice → Result Error (List ℕ)
apply_delta alloc_limit base d = do
  (base_len, n) ← length_field d.bytes
  guard (base_len == length base.bytes) delta
  (result_len, m) ← length_field (drop n d.bytes)
  guard (leb result_len alloc_limit) panic
  let body = drop m (drop n d.bytes)
  out ← apply_loop (length body) base d.spare result_len body []
  guard (result_len == length out) delta
  ok out
