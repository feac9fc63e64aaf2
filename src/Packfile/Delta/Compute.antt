-- ===== src/Packfile/Delta/Compute.antt =====
-- packfile/delta.go: computeDelta. `append` to `delta` is `++`; `result` and `base` are what is left
-- of the slices. An index or a bound out of range, and a full buffer, is a panic.
use go_git_scm.Base.{
  ℕ, zero, suc, ◌+◌, ◌-◌, ◌*◌, ◌%◌, Bool, ◌&&◌, List, [], ◌∷◌, ◌++◌, Result, ok, err, ◌>>=◌, length,
  take, drop, ltb, leb, ◌==◌, if◌then◌else◌, bit_or,
}
use go_git_scm.Packfile.Errors.{Error, panic, out_of_fuel}
use go_git_scm.Packfile.Base128.{put_base128_le, max_varint_len64}
use go_git_scm.Packfile.Delta.Mask.{put_uvarint_mask}
use go_git_scm.Packfile.Delta.Substring.{Best, longest_common_substring}

-- Delta instruction parameter limits.
abbrev pub max_copy_off : ℕ
max_copy_off = 0x7fff_ffff

abbrev pub max_copy_len : ℕ
max_copy_len = 0xff_ffff

abbrev pub max_insert_len : ℕ
max_insert_len = 0x7f

-- The bytes of `buf`.
abbrev pub buf_len : ℕ
buf_len = 2 * max_varint_len64

-- `s[lo:]`
unfoldable pub slice_from : List ℕ → ℕ → Result Error (List ℕ)
slice_from s lo = if leb lo (length s) then ok (drop lo s) else err panic

-- The inner loop, on `result[i+n:]` and `base[j+n:]`.
unfoldable pub extend_match : List ℕ → List ℕ → ℕ → ℕ
extend_match [] base n = n
extend_match (x ∷ result) [] n = n
extend_match (x ∷ result) (y ∷ base) n =
    let more = extend_match result base (n + 1) in if ltb n max_copy_len && x == y then more else n

-- `n` behind the extension of a match that ends at the end of the base's window.
unfoldable pub extended : List ℕ → List ℕ → Best → ℕ
extended result base m =
    if m.bj + m.n == max_insert_len
    then extend_match (drop (m.ai + m.n) result) (drop (m.bj + m.n) base) m.n
    else m.n

-- `if n <= 6 { … }`: a match that is not worth a copy.
unfoldable pub worth_copying : Best → Best
worth_copying m =
    if leb m.n 6 then record { ai = max_insert_len; bj = max_insert_len; n = 0 } else m

-- The values of i, j and n in a round.
unfoldable pub choose_match : List ℕ → List ℕ → Best
choose_match result base =
    let m = longest_common_substring (take max_insert_len result) (take max_insert_len base) in
    worth_copying (record m { n = extended result base m })

-- `if i > 0 { … }`
unfoldable pub emit_insert : List ℕ → ℕ → List ℕ → List ℕ
emit_insert result i d = if ltb 0 i then d ++ ((i % 256) ∷ take i result) else d

-- `if n > 0 { … }`, for a copy from `off`
unfoldable pub emit_copy : ℕ → ℕ → List ℕ → Result Error (List ℕ)
emit_copy off n d =
    let instruction = do
      (offmask, off_bytes) ← put_uvarint_mask buf_len off
      (lenmask, len_bytes) ← put_uvarint_mask (buf_len - length off_bytes) n
      ok (d ++ (bit_or (bit_or 0x80 (lenmask * 16 % 256)) offmask ∷ (off_bytes ++ len_bytes)))
    in if ltb 0 n then instruction else ok d

-- The bytes that the next insert takes, of `len` that are left.
unfoldable pub insert_size : ℕ → ℕ
insert_size len = if ltb max_insert_len len then max_insert_len else len

-- The last loop: the rest of `result` in inserts.
unfoldable pub insert_rest : ℕ → List ℕ → List ℕ → Result Error (List ℕ)
insert_rest fuel [] d = ok d
insert_rest zero (x ∷ result) d = err out_of_fuel
insert_rest (suc fuel) (x ∷ result) d =
    let all = x ∷ result in
    let n = insert_size (length all) in
    insert_rest fuel (drop n all) (d ++ ((n % 256) ∷ take n all))

-- The condition of the first loop.
unfoldable pub copies_left : List ℕ → List ℕ → ℕ → Bool
copies_left result base base_off =
    leb max_insert_len (length result)
    && leb max_insert_len (length base)
    && ltb base_off (max_copy_off - max_insert_len)

-- The first loop, and the last behind it.
unfoldable pub compute_loop : ℕ → List ℕ → List ℕ → ℕ → List ℕ → Result Error (List ℕ)
compute_loop zero result base base_off d = err out_of_fuel
compute_loop (suc fuel) result base base_off d =
    let m = choose_match result base in
    let round = do
      d' ← emit_copy (base_off + m.bj) m.n (emit_insert result m.ai d)
      result' ← slice_from result (m.ai + m.n)
      base' ← slice_from base (m.bj + m.n)
      compute_loop fuel result' base' (base_off + (m.bj + m.n)) d'
    in if copies_left result base base_off then round else insert_rest (length result) result d

-- A round takes seven bytes of `result` at least, so one round more than it has bytes is enough.
unfoldable pub compute_delta : List ℕ → List ℕ → Result Error (List ℕ)
compute_delta result base = do
  base_len ← put_base128_le buf_len (length base)
  result_len ← put_base128_le (buf_len - length base_len) (length result)
  compute_loop (length result + 1) result base 0 (base_len ++ result_len)
