-- ===== src/Packfile/Delta/Emits.antt =====
-- What computeDelta appends to the delta, as what applyDelta makes of it.
use go_git_scm.Base.{
  ℕ, zero, suc, ◌+◌, ◌-◌, ◌*◌, ◌/◌, ◌%◌, ◌^◌, ◌≤◌, ◌<◌, ◌≡◌, refl, sym, ap, ap₂, subst, ◌∙◌, true,
  List, [], ◌∷◌, ◌++◌, append_assoc, append-nil, ok, length, take, drop, ◌==◌, ==_iff, bit_or,
  arith, lt→ltb, length-append, length-drop, length-take_of_le, take-append-drop, all_below,
  all_below_sound,
}
use go_git_scm.Packfile.Delta.Mask.{uvarint_mask}
use go_git_scm.Packfile.Delta.Mask.RoundTrip.{
  mask_of, bytes_of, mask_of-lt, length-bytes_of, put_uvarint_mask_lem, uvarint_mask-bytes_of,
}
use go_git_scm.Packfile.Delta.Apply.{Slice, instruction}
use go_git_scm.Packfile.Delta.Apply.Steps.{Runs, step, insert_lem, copy_lem}
use go_git_scm.Packfile.Delta.Compute.{emit_insert, emit_copy, insert_rest, insert_size, buf_len}

-- `d'` is `d` and instructions that add the bytes `s` to a result that holds `out`.
pub record Emits (base : Slice) (spare : List ℕ) (result_len : ℕ) (d d' out s : List ℕ)
    : Type 0 where
  pub instructions : List ℕ
  pub appended : d' ≡ d ++ instructions
  pub runs :
      (rest final : List ℕ)
      → Runs base spare result_len rest (out ++ s) final
      → Runs base spare result_len (instructions ++ rest) out final

-- The copy opcode's three fields.
abbrev pub copy_opcode : ℕ → ℕ → ℕ
copy_opcode lenmask offmask = bit_or (bit_or 0x80 (lenmask * 16 % 256)) offmask

copy_opcode_table :
    all_below 128 (λ t. bit_or (bit_or 0x80 (t / 16 * 16 % 256)) (t % 16) == 128 + t) ≡ true
unfolding all_below
copy_opcode_table = refl

copy_opcode_sum :
    (lenmask offmask : ℕ)
    → lenmask < 8
    → offmask < 16
    → copy_opcode lenmask offmask ≡ 128 + (lenmask * 16 + offmask)
copy_opcode_sum lenmask offmask hl ho =
    let t = lenmask * 16 + offmask in
    let high : t / 16 ≡ lenmask = omega arith in
    let low : t % 16 ≡ offmask = omega arith in
    ap₂ (λ l o. copy_opcode l o) (sym high) (sym low)
    ∙ (==_iff _ (128 + t)).0 (all_below_sound 128 _ t copy_opcode_table (omega arith))

insert_size_bounds :
    (len : ℕ) → 0 < len → (insert_size len < 128) × (insert_size len ≤ len) × (0 < insert_size len)
unfolding insert_size
insert_size_bounds len h = ground arith

module _ (base : Slice) (spare : List ℕ) (result_len : ℕ) where
  pub Emits-nothing : (d out : List ℕ) → Emits base spare result_len d d out []
  Emits-nothing d out = record {
    instructions = [];
    appended = sym (append-nil d);
    runs = λ rest final r. subst (λ t. Runs base spare result_len rest t final) (append-nil out) r;
  }

  pub Emits-trans :
      {d d' d'' out s s' : List ℕ}
      → Emits base spare result_len d d' out s
      → Emits base spare result_len d' d'' (out ++ s) s'
      → Emits base spare result_len d d'' out (s ++ s')
  Emits-trans {d} {d'} {d''} {out} {s} {s'} e f = record {
    instructions = e.instructions ++ f.instructions;
    appended =
        f.appended
        ∙ ap (λ t. t ++ f.instructions) e.appended
        ∙ append_assoc d e.instructions f.instructions;
    runs = λ rest final r.
        subst (λ t. Runs base spare result_len t out final)
          (sym (append_assoc e.instructions f.instructions rest))
          (e.runs (f.instructions ++ rest) final (
            f.runs rest final (
              subst (λ t. Runs base spare result_len rest t final) (sym (append_assoc out s s'))
                r)));
  }

  -- One insert of the bytes `s`.
  insert-Emits :
      (n : ℕ) (d out s : List ℕ)
      → n ≡ length s
      → n < 128
      → length out + n ≤ result_len
      → Emits base spare result_len d (d ++ ((n % 256) ∷ s)) out s
  insert-Emits n d out s hn hb room =
      let byte : n % 256 ≡ n = omega arith in
      record {
        instructions = (n % 256) ∷ s;
        appended = refl;
        runs = λ rest final r.
            step
              (insert_lem base spare result_len (n % 256) s rest out (byte ∙ hn) (omega arith)
                (omega arith))
              r;
      }

  pub emit_insert-Emits :
      (i : ℕ) (result d out : List ℕ)
      → i < 128
      → i ≤ length result
      → length out + i ≤ result_len
      → Emits base spare result_len d (emit_insert result i d) out (take i result)
  unfolding emit_insert
  emit_insert-Emits zero result d out hb hi room = Emits-nothing d out
  emit_insert-Emits (suc i) result d out hb hi room = rw (lt→ltb 0 (suc i) (omega arith)) (
      insert-Emits (suc i) d out (take (suc i) result) (sym (length-take_of_le (suc i) result hi))
        hb room)

  pub emit_copy-Emits :
      (off n : ℕ) (d out : List ℕ)
      → off < 256 ^ 4
      → n < 256 ^ 3
      → off + n ≤ length base.bytes
      → length out + n ≤ result_len
      → (d' : List ℕ) × (emit_copy off n d ≡ ok d')
        × Emits base spare result_len d d' out (take n (drop off base.bytes))
  unfolding emit_copy
  emit_copy-Emits off zero d out ho hn within room = (d, refl, Emits-nothing d out)
  emit_copy-Emits off (suc n) d out ho hn within room =
      let go = lt→ltb 0 (suc n) (omega arith) in
      let offmask = mask_of 8 off in
      let lenmask = mask_of 8 (suc n) in
      let off_bytes = bytes_of 8 off in
      let len_bytes = bytes_of 8 (suc n) in
      let short = length-bytes_of 8 off in
      let put = put_uvarint_mask_lem buf_len off (omega arith) in
      let put' = put_uvarint_mask_lem (buf_len - length off_bytes) (suc n) (omega arith) in
      let small = mask_of-lt 8 4 off ho in
      let small' = mask_of-lt 8 3 (suc n) hn in
      let opcode = copy_opcode lenmask offmask in
      let sum = copy_opcode_sum lenmask offmask small' small in
      let low : opcode % 16 ≡ offmask = omega arith in
      let high : opcode / 16 % 8 ≡ lenmask = omega arith in
      (
        d ++ (opcode ∷ (off_bytes ++ len_bytes)),
        rw (go, put, put'),
        record {
          instructions = opcode ∷ (off_bytes ++ len_bytes);
          appended = refl;
          runs = λ rest final r.
              step
                (ap (λ t. instruction base spare result_len opcode t out)
                    (append_assoc off_bytes len_bytes rest)
                  ∙ copy_lem base spare result_len opcode off (suc n) off_bytes len_bytes rest out
                      (omega arith)
                      (ap (uvarint_mask (off_bytes ++ (len_bytes ++ rest))) low
                        ∙ uvarint_mask-bytes_of off (len_bytes ++ rest) (omega arith))
                      (ap (uvarint_mask (len_bytes ++ rest)) high
                        ∙ uvarint_mask-bytes_of (suc n) rest (omega arith))
                      (omega arith) within room)
                r;
        },
      )

  pub insert_rest-Emits :
      (fuel : ℕ) (result d out : List ℕ)
      → length result ≤ fuel
      → length out + length result ≤ result_len
      → (d' : List ℕ) × (insert_rest fuel result d ≡ ok d')
        × Emits base spare result_len d d' out result
  unfolding insert_rest
  insert_rest-Emits fuel [] d out h room = (d, refl, Emits-nothing d out)
  insert_rest-Emits zero (x ∷ result) d out h room = absurd (omega arith)
  insert_rest-Emits (suc fuel) (x ∷ result) d out h room =
      let all = x ∷ result in
      let n = insert_size (length all) in
      let (small, fits, some_left) = insert_size_bounds (length all) (omega arith) in
      let taken = length-take_of_le n all fits in
      let (d', e, rest) =
        insert_rest-Emits fuel (drop n all) (d ++ ((n % 256) ∷ take n all)) (out ++ take n all)
          (omega (arith, length-drop n all))
          (omega (arith, length-drop n all, length-append out (take n all))) in
      (
        d',
        e,
        subst (λ t. Emits base spare result_len d d' out t) (take-append-drop n all)
            (Emits-trans (insert-Emits n d out (take n all) (sym taken) (omega arith) (omega arith))
              rest),
      )
