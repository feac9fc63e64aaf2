-- ===== src/Packfile/Delta/Apply/Ends.antt =====
-- How applyDelta ends on any base and any delta.
use go_git_scm.Base.{
  ℕ, zero, suc, ◌+◌, ◌%◌, ◌/◌, ◌^◌, ◌≤◌, ◌≡◌, refl, Bool, true, false, ◌&&◌, Bool-cases,
  Option-cases, List, [], ◌∷◌, Result, ok, err, Result-cases, ◌>>=◌, guard, inl, inr, length, drop,
  length-drop, leb, ◌==◌, if◌then◌else◌, arith,
}
use go_git_scm.Packfile.Errors.{Error, panic, delta, delta_length}
use go_git_scm.Packfile.Base128.{base128_le}
use go_git_scm.Packfile.Delta.Mask.{uvarint_mask}
use go_git_scm.Packfile.Delta.Apply.{
  Slice, slice, copy_into, uvarint_mask_or_error, insert_instruction, copy_instruction, instruction,
  apply_loop, length_field, apply_delta,
}

-- The errors that applyDelta returns: ErrDelta, ErrDeltaLength and a recovered panic.
pub data IsApplyError : Error → Type 0 where
  does_not_apply : IsApplyError delta
  bad_length : IsApplyError delta_length
  out_of_range : IsApplyError panic

-- An error of applyDelta, or a value that satisfies P.
pub Ends : {A : Type 0} → (A → Type 0) → Result Error A → Type 0
Ends P (ok a) = P a
Ends P (err e) = IsApplyError e

Ends-bind :
    {A B : Type 0} (P : A → Type 0) (Q : B → Type 0) (r : Result Error A)
    (next : A → Result Error B)
    → Ends P r
    → ((a : A) → P a → Ends Q (next a))
    → Ends Q (r >>= next)
unfolding Ends
Ends-bind P Q (ok a) next h f = f a h
Ends-bind P Q (err e) next h f = h

slice-Ends : (s : Slice) (lo hi : ℕ) → Ends (λ x. Unit {0}) (slice s lo hi)
unfolding slice Ends
slice-Ends s lo hi = elim (Bool-cases (leb lo hi && leb hi (length s.bytes + length s.spare))) [
  | inl within ↦ rw within tt
  | inr beyond ↦ rw beyond out_of_range
]

uvarint_mask_or_error-Ends :
    (buf : List ℕ) (mask : ℕ) → Ends (λ x. Unit {0}) (uvarint_mask_or_error buf mask)
unfolding uvarint_mask_or_error
uvarint_mask_or_error-Ends buf mask = elim (Option-cases (uvarint_mask buf mask)) [
  | inl e ↦ rw (e, uvarint_mask_or_error) (unfold Ends in bad_length)
  | inr (a, e) ↦ rw (e, uvarint_mask_or_error) (unfold Ends in tt)
]

length_field-Ends : (buf : List ℕ) → Ends (λ x. Unit {0}) (length_field buf)
unfolding length_field
length_field-Ends buf = elim (Result-cases (base128_le buf)) [
  | inl (a, e) ↦ rw (e, length_field) (unfold Ends in tt)
  | inr (a, e) ↦ rw (e, length_field) (unfold Ends in bad_length)
]

guard-Ends : (b : Bool) (e : Error) → IsApplyError e → Ends (λ x. b ≡ true) (guard b e)
unfolding Ends
guard-Ends true e h = refl
guard-Ends false e h = h

abbrev Takes : ℕ → List ℕ × List ℕ → Type 0
Takes n (rest, out) = length rest ≤ n

slice-take :
    (s : Slice) (lo hi result_len : ℕ) (n : ℕ) (rest' out : List ℕ)
    → length rest' ≤ n
    → Ends (Takes n) (slice s lo hi >>= λ x. ok (rest', copy_into result_len out x))
slice-take s lo hi result_len n rest' out h =
    Ends-bind (λ x. Unit) (Takes n) (slice s lo hi) (λ x. ok (rest', copy_into result_len out x))
      (slice-Ends s lo hi) (λ x t. unfold Ends in h)

-- An instruction takes no byte back.
instruction-Ends :
    (base : Slice) (spare : List ℕ) (result_len opcode : ℕ) (rest out : List ℕ)
    → Ends (Takes (length rest)) (instruction base spare result_len opcode rest out)
unfolding instruction insert_instruction copy_instruction
instruction-Ends base spare result_len opcode rest out = elim (Bool-cases (opcode / 128 == 0)) [
  | inl insert ↦ rw insert (
      slice-take (record { bytes = rest; spare = spare }) 0 opcode result_len (length rest)
        (drop opcode rest) out (omega (arith, length-drop opcode rest)))
  | inr copy ↦ rw copy (
      Ends-bind (λ x. Unit) (Takes (length rest)) _ _
        (uvarint_mask_or_error-Ends rest (opcode % 16))
        (λ off h.
          Ends-bind (λ x. Unit) (Takes (length rest)) _ _
            (uvarint_mask_or_error-Ends (drop off.1 rest) (opcode / 16 % 8))
            (λ len k.
              slice-take base off.0 (off.0 + (if len.0 == 0 then 2 ^ 16 else len.0)) result_len
                (length rest) (drop len.1 (drop off.1 rest)) out
                (omega (arith, length-drop len.1 (drop off.1 rest), length-drop off.1 rest)))))
]

apply_loop-Ends :
    (base : Slice) (spare : List ℕ) (result_len fuel : ℕ) (rest out : List ℕ)
    → length rest ≤ fuel
    → Ends (λ x. Unit {0}) (apply_loop fuel base spare result_len rest out)
unfolding apply_loop
apply_loop-Ends base spare result_len fuel [] out h = unfold Ends in tt
apply_loop-Ends base spare result_len zero (opcode ∷ rest) out h = absurd (omega arith)
apply_loop-Ends base spare result_len (suc fuel) (opcode ∷ rest) out h =
    Ends-bind (Takes (length rest)) (λ x. Unit) _ _
      (instruction-Ends base spare result_len opcode rest out)
      (λ r k. apply_loop-Ends base spare result_len fuel r.0 r.1 (omega arith))

within_limit :
    (n limit : ℕ) (out : List ℕ)
    → leb n limit ≡ true
    → (n == length out) ≡ true
    → Ends (λ (x : List ℕ). length x ≤ limit) (ok out)
unfolding Ends
within_limit n limit out h k = ground arith

-- On any base and delta applyDelta ends, with a result no longer than what can be allocated, or with
-- ErrDelta, ErrDeltaLength or a recovered panic.
pub apply_delta-Ends :
    (alloc_limit : ℕ) (base d : Slice)
    → Ends (λ out. length out ≤ alloc_limit) (apply_delta alloc_limit base d)
unfolding apply_delta
apply_delta-Ends alloc_limit base d =
    let P : List ℕ → Type 0 = λ out. length out ≤ alloc_limit in
    Ends-bind (λ x. Unit) P _ _ (length_field-Ends d.bytes)
      (λ a _.
        Ends-bind (λ x. (a.0 == length base.bytes) ≡ true) P _ _
          (guard-Ends (a.0 == length base.bytes) delta does_not_apply)
          (λ _ _.
            Ends-bind (λ x. Unit) P _ _ (length_field-Ends (drop a.1 d.bytes))
              (λ b _.
                Ends-bind (λ x. leb b.0 alloc_limit ≡ true) P _ _
                  (guard-Ends (leb b.0 alloc_limit) panic out_of_range)
                  (λ _ fits.
                    Ends-bind (λ x. Unit) P _ _
                      (apply_loop-Ends base d.spare b.0 _ (drop b.1 (drop a.1 d.bytes)) []
                        (omega arith))
                      (λ out _.
                        Ends-bind (λ x. (b.0 == length out) ≡ true) P _ _
                          (guard-Ends (b.0 == length out) delta does_not_apply)
                          (λ _ full. within_limit b.0 alloc_limit out fits full))))))
