-- ===== src/Packfile/Delta/Apply/Steps.antt =====
-- How a delta's instructions run: each of them as an equation, the loop as a relation, and
-- that the loop never runs out of fuel.
use go_git_scm.Base.{
  ℕ, zero, suc, ◌+◌, ◌-◌, ◌/◌, ◌%◌, ◌≤◌, ◌<◌, ◌≡◌, refl, ap, ◌∙◌, List, [], ◌∷◌, ◌++◌, some, ok,
  length, take, drop, ◌==◌, arith, length-append, length-take, length-drop, take-append,
  drop-append, take-all, take-append_le, drop-append_le, true, false,
}
use go_git_scm.Packfile.Delta.Mask.{uvarint_mask}
use go_git_scm.Packfile.Delta.Apply.{
  Slice, slice, copy_into, uvarint_mask_or_error, insert_instruction, copy_instruction, instruction,
  apply_loop,
}

-- `rest` and `out` are what a run of the loop starts from, and `final` the bytes that it ends with.
pub data Runs (base : Slice) (spare : List ℕ) (result_len : ℕ)
    : List ℕ → List ℕ → List ℕ → Type 0 where
  done : (out : List ℕ) → Runs base spare result_len [] out out
  step :
      {opcode : ℕ} {rest out rest' out' final : List ℕ}
      → instruction base spare result_len opcode rest out ≡ ok (rest', out')
      → Runs base spare result_len rest' out' final
      → Runs base spare result_len (opcode ∷ rest) out final

slice_within :
    (s : Slice) (lo n : ℕ)
    → lo + n ≤ length s.bytes
    → slice s lo (lo + n) ≡ ok (take n (drop lo s.bytes))
unfolding slice
slice_within s lo n h =
    let room = length-drop lo s.bytes in
    let width : lo + n - lo ≡ n = omega arith in
    let part : take (lo + n - lo) (drop lo (s.bytes ++ s.spare)) ≡ take n (drop lo s.bytes) =
      ap (λ t. take t (drop lo (s.bytes ++ s.spare))) width
      ∙ ap (take n) (drop-append_le s.bytes s.spare lo (omega arith))
      ∙ take-append_le (drop lo s.bytes) s.spare n (omega arith) in
    ground (arith, part)

pub insert_lem :
    (base : Slice) (spare : List ℕ) (result_len n : ℕ) (s rest out : List ℕ)
    → n ≡ length s
    → n < 128
    → length out + n ≤ result_len
    → instruction base spare result_len n (s ++ rest) out ≡ ok (rest, out ++ s)
unfolding instruction insert_instruction copy_into
insert_lem base spare result_len n s rest out hn hb room =
    let whole : Slice = record { bytes = s ++ rest; spare = spare } in
    let upto : 0 + n ≡ n = omega arith in
    let e = length-append s rest in
    let read : slice whole 0 n ≡ ok s =
      ap (slice whole 0) (omega arith)
      ∙ slice_within whole 0 n (omega arith)
      ∙ ap ok (take-append s rest n (omega arith)) in
    let branch : (n / 128 == 0) ≡ true = ground arith in
    rw (
      branch,
      read,
      take-all s (result_len - length out) (omega arith),
      drop-append s rest n (omega arith),
    )

mask_read :
    (buf : List ℕ) (mask : ℕ) {r : ℕ × ℕ}
    → uvarint_mask buf mask ≡ some r
    → uvarint_mask_or_error buf mask ≡ ok r
unfolding uvarint_mask_or_error
mask_read buf mask h = rw (h, uvarint_mask_or_error)

pub copy_lem :
    (base : Slice) (spare : List ℕ) (result_len opcode off len : ℕ) (buf buf' rest out : List ℕ)
    → opcode / 128 ≡ 1
    → uvarint_mask (buf ++ (buf' ++ rest)) (opcode % 16) ≡ some (off, length buf)
    → uvarint_mask (buf' ++ rest) (opcode / 16 % 8) ≡ some (len, length buf')
    → 0 < len
    → off + len ≤ length base.bytes
    → length out + len ≤ result_len
    → instruction base spare result_len opcode (buf ++ (buf' ++ rest)) out
      ≡ ok (rest, out ++ take len (drop off base.bytes))
unfolding instruction copy_instruction copy_into
copy_lem base spare result_len opcode off len buf buf' rest out hb ho hl pos within room =
    let branch : (opcode / 128 == 0) ≡ false = ground arith in
    let size : (len == 0) ≡ false = ground arith in
    let l = length-take len (drop off base.bytes) in
    let l' = length-drop off base.bytes in
    rw (
      branch,
      mask_read _ _ ho,
      drop-append buf (buf' ++ rest) (length buf) refl,
      mask_read _ _ hl,
      drop-append buf' rest (length buf') refl,
      size,
      slice_within base off len within,
      take-all (take len (drop off base.bytes)) (result_len - length out) (omega arith),
    )

drop_shorter : (n : ℕ) (xs : List ℕ) → length (drop n xs) ≤ length xs
drop_shorter n xs = omega (arith, length-drop n xs)

-- An instruction never gives back bytes that it has taken.
pub instruction_shrinks :
    (base : Slice) (spare : List ℕ) (result_len opcode : ℕ) (rest out rest' out' : List ℕ)
    → instruction base spare result_len opcode rest out ≡ ok (rest', out')
    → length rest' ≤ length rest
unfolding instruction insert_instruction copy_instruction
instruction_shrinks base spare result_len opcode rest out rest' out' e = grind (arith, drop_shorter)

module _ (base : Slice) (spare : List ℕ) (result_len : ℕ) where
  pub apply_loop-Runs :
      {rest out final : List ℕ} (fuel : ℕ)
      → Runs base spare result_len rest out final
      → length rest ≤ fuel
      → apply_loop fuel base spare result_len rest out ≡ ok final
  unfolding apply_loop
  apply_loop-Runs fuel (done out) h = refl
  apply_loop-Runs zero (step e r) h = absurd (omega arith)
  apply_loop-Runs (suc fuel) (step {opcode} {rest} {out} {rest'} {out'} e r) h =
      let small = instruction_shrinks base spare result_len opcode rest out rest' out' e in
      rw e (apply_loop-Runs fuel r (omega arith))
