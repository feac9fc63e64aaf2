-- ===== src/Packfile/Delta/RoundTrip.antt =====
-- applyDelta undoes computeDelta.
use go_git_scm.Base.{
  ℕ, zero, suc, ◌+◌, ◌-◌, ◌≤◌, ◌<◌, ◌≡◌, refl, sym, ap, subst, ◌∙◌, true, inl, inr, List, [], ◌++◌,
  append_assoc, append-nil, ok, length, take, drop, arith, Bool-cases, IsU64, le→leb, ==_self,
  length-append, length-take_of_le, length-take, length-drop, take-append-drop, drop-drop,
  drop-append,
}
use go_git_scm.Packfile.Base128.{base128_le, put_base128_le}
use go_git_scm.Packfile.Base128.Little.{put-base128_le}
use go_git_scm.Packfile.Delta.Apply.{Slice, length_field, apply_delta}
use go_git_scm.Packfile.Delta.Apply.Steps.{Runs, done, apply_loop-Runs}
use go_git_scm.Packfile.Delta.Compute.{
  choose_match, emit_insert, emit_copy, slice_from, copies_left, compute_loop, compute_delta,
  max_copy_off, max_insert_len, buf_len,
}
use go_git_scm.Packfile.Delta.Match.{choose_match-RoundFits}
use go_git_scm.Packfile.Delta.Emits.{
  Emits, Emits-trans, emit_insert-Emits, emit_copy-Emits, insert_rest-Emits,
}

slice_from_lem : (s : List ℕ) (lo : ℕ) → lo ≤ length s → slice_from s lo ≡ ok (drop lo s)
unfolding slice_from
slice_from_lem s lo h = rw (le→leb lo (length s) h)

-- A slice in three parts.
three_parts : (xs : List ℕ) (i n : ℕ) → take i xs ++ (take n (drop i xs) ++ drop (i + n) xs) ≡ xs
three_parts xs i n =
    ap (λ t. take i xs ++ (take n (drop i xs) ++ t)) (sym (drop-drop xs i n (i + n) refl))
    ∙ ap (◌++◌ (take i xs)) (take-append-drop n (drop i xs))
    ∙ take-append-drop i xs

round_runs :
    (fuel : ℕ) (result b : List ℕ) (base_off : ℕ) (d d1 d' : List ℕ)
    → copies_left result b base_off ≡ true
    → let m = choose_match result b in
      emit_copy (base_off + m.bj) m.n (emit_insert result m.ai d) ≡ ok d1
      → m.ai + m.n ≤ length result
      → m.bj + m.n ≤ length b
      → compute_loop fuel
          (drop (m.ai + m.n) result)
          (drop (m.bj + m.n) b)
          (base_off + (m.bj + m.n))
          d1
        ≡ ok d'
      → compute_loop (suc fuel) result b base_off d ≡ ok d'
unfolding compute_loop
round_runs fuel result b base_off d d1 d' go copied within within_base rest =
    let m = choose_match result b in
    rw
      (
        go,
        copied,
        slice_from_lem result (m.ai + m.n) within,
        slice_from_lem b (m.bj + m.n) within_base,
      )
      rest

module _ (base : Slice) (spare : List ℕ) (result_len : ℕ) where
  -- What a call for the rest of the result, and the rest `b` of the base, gives.
  abbrev Computes : ℕ → List ℕ → List ℕ → ℕ → List ℕ → List ℕ → Type 0
  Computes fuel result b base_off d out =
      (d' : List ℕ) × (compute_loop fuel result b base_off d ≡ ok d')
      × Emits base spare result_len d d' out result

  -- A round that copies, with `m` for its match.
  round-Computes :
      (fuel : ℕ) (result b : List ℕ) (base_off : ℕ) (d out : List ℕ)
      → b ≡ drop base_off base.bytes
      → base_off ≤ length base.bytes
      → length out + length result ≤ result_len
      → copies_left result b base_off ≡ true
      → let m = choose_match result b in
        ((d' : List ℕ)
          → Computes fuel
              (drop (m.ai + m.n) result)
              (drop (m.bj + m.n) b)
              (base_off + (m.bj + m.n))
              d'
              ((out ++ take m.ai result) ++ take m.n (drop m.ai result)))
        → Computes (suc fuel) result b base_off d out
  unfolding copies_left
  round-Computes fuel result b base_off d out hb hoff room go next =
      let m = choose_match result b in
      let left = length-drop base_off base.bytes in
      let size = ap (λ (t : List ℕ). length t) hb in
      let (can, progress) = choose_match-RoundFits result b (ground arith) (ground arith) in
      let start : base_off < max_copy_off - max_insert_len = ground arith in
      let inserted = length-take_of_le m.ai result (omega (arith, can.within)) in
      let first =
        emit_insert-Emits base spare result_len m.ai result d out (omega (arith, can.near))
          (omega (arith, can.within)) (omega (arith, can.within)) in
      let (d1, copied, second) =
        emit_copy-Emits base spare result_len (base_off + m.bj) m.n (emit_insert result m.ai d)
          (out ++ take m.ai result) (omega (arith, can.near_base)) (omega (arith, can.small))
          (omega (arith, can.within_base))
          (omega (arith, can.within, length-append out (take m.ai result))) in
      let same : take m.n (drop (base_off + m.bj) base.bytes) ≡ take m.n (drop m.ai result) =
        ap (take m.n) (sym (drop-drop base.bytes base_off m.bj (base_off + m.bj) refl))
        ∙ ap (λ t. take m.n (drop m.bj t)) (sym hb)
        ∙ sym can.same in
      let (d', rest, third) = next d1 in
      (
        d',
        round_runs fuel result b base_off d d1 d' go copied can.within can.within_base rest,
        subst (λ t. Emits base spare result_len d d' out t) (three_parts result m.ai m.n)
            (Emits-trans base spare result_len first (
              Emits-trans base spare result_len
                (subst
                  (λ t.
                    Emits base spare result_len (emit_insert result m.ai d) d1
                      (out ++ take m.ai result) t)
                  same second)
                third)),
      )

  compute_loop-Emits :
      (fuel : ℕ) (result b : List ℕ) (base_off : ℕ) (d out : List ℕ)
      → length result < fuel
      → b ≡ drop base_off base.bytes
      → base_off ≤ length base.bytes
      → length out + length result ≤ result_len
      → Computes fuel result b base_off d out
  unfolding compute_loop
  compute_loop-Emits zero result b base_off d out h hb hoff room = absurd (omega arith)
  compute_loop-Emits (suc fuel) result b base_off d out h hb hoff room =
      elim (Bool-cases (copies_left result b base_off)) [
        | inl go ↦
            let m = choose_match result b in
            let (can, progress) =
              choose_match-RoundFits result b (unfold copies_left in ground arith)
                (unfold copies_left in ground arith) in
            let left = length-drop base_off base.bytes in
            let size = ap (λ (t : List ℕ). length t) hb in
            let first = length-append out (take m.ai result) in
            let both = length-append (out ++ take m.ai result) (take m.n (drop m.ai result)) in
            let inserted = length-take_of_le m.ai result (omega (arith, can.within)) in
            let copied = length-take m.n (drop m.ai result) in
            let dropped = length-drop (m.ai + m.n) result in
            round-Computes fuel result b base_off d out hb hoff room go (λ d'.
              compute_loop-Emits fuel (drop (m.ai + m.n) result) (drop (m.bj + m.n) b)
                (base_off + (m.bj + m.n)) d'
                ((out ++ take m.ai result) ++ take m.n (drop m.ai result))
                (omega (arith, can.within))
                (ap (drop (m.bj + m.n)) hb ∙ drop-drop base.bytes base_off (m.bj + m.n) _ refl)
                (omega (arith, can.within_base))
                (omega (arith, can.within, length-drop m.ai result)))
        | inr stop ↦ rw stop (
            insert_rest-Emits base spare result_len (length result) result d out (omega arith) room)
      ]

put_reads :
    (room v : ℕ) (bytes rest : List ℕ)
    → 10 ≤ room
    → IsU64 v
    → put_base128_le room v ≡ ok bytes
    → base128_le (bytes ++ rest) ≡ ok (v, length bytes)
put_reads room v bytes rest hr hv put =
    let (bytes', put', reads, _) = put-base128_le room v rest hr hv in
    let same : bytes' ≡ bytes = cc in
    subst (λ t. base128_le (t ++ rest) ≡ ok (v, length t)) same reads

-- A length in the delta's head.
length_field_ok : (buf : List ℕ) {r : ℕ × ℕ} → base128_le buf ≡ ok r → length_field buf ≡ ok r
unfolding length_field
length_field_ok buf e = rw (e, length_field)

-- applyDelta on a head of two lengths and a body that runs.
apply_delta_runs :
    (alloc_limit : ℕ) (base : Slice) (spare head head' body result : List ℕ)
    → base128_le (head ++ (head' ++ body)) ≡ ok (length base.bytes, length head)
    → base128_le (head' ++ body) ≡ ok (length result, length head')
    → length result ≤ alloc_limit
    → Runs base spare (length result) body [] result
    → apply_delta alloc_limit base (record { bytes = head ++ (head' ++ body); spare = spare })
      ≡ ok result
unfolding apply_delta
apply_delta_runs alloc_limit base spare head head' body result e e' limit runs = rw (
  length_field_ok _ e,
  ==_self (length base.bytes),
  drop-append head (head' ++ body) (length head) refl,
  length_field_ok _ e',
  le→leb (length result) alloc_limit limit,
  drop-append head' body (length head') refl,
  apply_loop-Runs base spare (length result) (length body) runs (omega arith),
  ==_self (length result),
)

-- For a base and a result whose lengths are 64-bit, the result no longer than what can be allocated,
-- computeDelta ends, without a panic, and applyDelta makes the result of the base and the delta,
-- whatever stands behind the base and the delta in their arrays.
pub apply_delta-compute_delta :
    (alloc_limit : ℕ) (base : Slice) (result spare : List ℕ)
    → IsU64 (length base.bytes)
    → IsU64 (length result)
    → length result ≤ alloc_limit
    → (d : List ℕ) × (compute_delta result base.bytes ≡ ok d)
      × (apply_delta alloc_limit base (record { bytes = d; spare = spare }) ≡ ok result)
unfolding compute_delta
apply_delta-compute_delta alloc_limit base result spare hb hr limit =
    let (head, put, _, short) = put-base128_le buf_len (length base.bytes) [] (omega arith) hb in
    let (head', put', _, _) =
      put-base128_le (buf_len - length head) (length result) [] (omega arith) hr in
    let (d, computed, emits) =
      compute_loop-Emits base spare (length result) (length result + 1) result base.bytes 0
        (head ++ head') [] (omega arith) refl (omega arith) (omega arith) in
    let body = emits.instructions in
    let whole : d ≡ head ++ (head' ++ body) = emits.appended ∙ append_assoc head head' body in
    let runs =
      subst (λ t. Runs base spare (length result) t [] result) (append-nil body)
        (emits.runs [] result (done result)) in
    (
      d,
      rw (put, put') computed,
      ap (λ t. apply_delta alloc_limit base (record { bytes = t; spare = spare })) whole
          ∙ apply_delta_runs alloc_limit base spare head head' body result
              (put_reads buf_len (length base.bytes) head (head' ++ body) (omega arith) hb put)
              (put_reads (buf_len - length head) (length result) head' body (omega arith) hr put')
              limit runs,
    )
