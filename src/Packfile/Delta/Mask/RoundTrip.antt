-- ===== src/Packfile/Delta/Mask/RoundTrip.antt =====
-- A number that is written with its mask reads back.
use native.Mathlib.Nat.{div-div-eq-div-mul, mul_comm, pow-suc, one-le-pow, pow-le-pow_right}
use native.Mathlib.Numerals.{towards_suc}
use go_git_scm.Base.{
  ℕ, zero, suc, ◌+◌, ◌*◌, ◌/◌, ◌%◌, ◌^◌, ◌≤◌, ◌<◌, ◌≡◌, refl, sym, ap, ◌∙◌, List, [], ◌∷◌, ◌++◌,
  append-nil, append_assoc, some, ok, length, ◌==◌, lt→ltb, if◌then◌else◌, arith, Bool-cases, inl,
  inr, length-append, All, IsByte,
}
use go_git_scm.Packfile.Delta.Mask.{
  uvarint_mask_loop, uvarint_mask, put_uvarint_mask_loop, put_uvarint_mask,
}

-- The mask and the bytes of a number of at most `k` bytes, by recursion on its bytes.
unfoldable pub mask_of : ℕ → ℕ → ℕ
mask_of zero y = 0
mask_of (suc k) y = (if y % 256 == 0 then 0 else 1) + 2 * mask_of k (y / 256)

unfoldable pub bytes_of : ℕ → ℕ → List ℕ
bytes_of zero y = []
bytes_of (suc k) y =
    let rest = bytes_of k (y / 256) in if y % 256 == 0 then rest else (y % 256) ∷ rest

pub length-bytes_of : (k y : ℕ) → length (bytes_of k y) ≤ k
unfolding bytes_of
length-bytes_of zero y = omega arith
length-bytes_of (suc k) y = ground (arith, length-bytes_of k (y / 256))

pub bytes_of-IsByte : (k y : ℕ) → All IsByte (bytes_of k y)
unfolding bytes_of
bytes_of-IsByte zero y = tt
bytes_of-IsByte (suc k) y = ground (arith, bytes_of-IsByte k (y / 256))

mask_of-zero : (k : ℕ) → mask_of k 0 ≡ 0
unfolding mask_of
mask_of-zero zero = refl
mask_of-zero (suc k) = omega (arith, mask_of-zero k)

two_pow : (m : ℕ) → 2 ^ suc m ≡ 2 * 2 ^ m
two_pow m = omega (arith, pow-suc 2 m)

div_below : (m y : ℕ) → y < 256 ^ suc m → y / 256 < 256 ^ m
div_below m y h = let e = pow-suc 256 m in omega arith

-- A number of `m` bytes has a mask of `m` bits.
pub mask_of-lt : (k m y : ℕ) → y < 256 ^ m → mask_of k y < 2 ^ m
unfolding mask_of
mask_of-lt k zero y h =
    let none_left : y ≡ 0 = omega arith in rw (none_left, mask_of-zero k) (omega arith)
mask_of-lt zero (suc m) y h = let p = one-le-pow (suc m) 2 (omega arith) in omega arith
mask_of-lt (suc k) (suc m) y h =
    let p = two_pow m in ground (arith, mask_of-lt k m (y / 256) (div_below m y h))

eight_more_bits : (i : ℕ) → 2 ^ ((i + 1) * 8) ≡ 2 ^ (i * 8) * 256
eight_more_bits i =
    let e : (i + 1) * 8 ≡ i * 8 + 8 = omega arith in
    ap (λ (t : ℕ). 2 ^ t) e ∙ simp towards_suc (omega arith)

next_byte : (x i : ℕ) → x / 2 ^ ((i + 1) * 8) ≡ x / 2 ^ (i * 8) / 256
next_byte x i = ap (λ t. x / t) (eight_more_bits i) ∙ sym (div-div-eq-div-mul x (2 ^ (i * 8)) 256)

one_more_bit : (i : ℕ) → 2 ^ (i + 1) ≡ 2 * 2 ^ i
one_more_bit i = simp towards_suc (omega arith)

next_bytes : (x i y : ℕ) → x / 2 ^ (i * 8) ≡ y → x / 2 ^ ((i + 1) * 8) ≡ y / 256
next_bytes x i y e = next_byte x i ∙ ap (λ t. t / 256) e

-- From round `i` on the loop adds the mask and the bytes of `y`, what is left of the number.
put_uvarint_mask_loop_lem :
    (k i room x mask : ℕ) (buf : List ℕ) (y : ℕ)
    → x / 2 ^ (i * 8) ≡ y
    → length buf + k ≤ room
    → put_uvarint_mask_loop k i room x mask buf
      ≡ ok (mask + mask_of k y * 2 ^ i, buf ++ bytes_of k y)
unfolding put_uvarint_mask_loop mask_of bytes_of
put_uvarint_mask_loop_lem zero i room x mask buf y e h =
    let none_left : mask ≡ mask + 0 * 2 ^ i = omega arith in cc (append-nil buf)
put_uvarint_mask_loop_lem (suc k) i room x mask buf y e h =
    let e' = next_bytes x i y e in
    let p = one_more_bit i in
    let more = mask_of k (y / 256) in
    let p' = ap (λ (t : ℕ). more * t) p in
    elim (Bool-cases (y % 256 == 0)) [
      | inl z ↦
          let v : mask + more * 2 ^ (i + 1) ≡ mask + (0 + 2 * more) * 2 ^ i = omega arith in
          rw (e, z)
            (cc (put_uvarint_mask_loop_lem k (i + 1) room x mask buf (y / 256) e' (omega arith), v))
      | inr z ↦
          let v : mask + 2 ^ i + more * 2 ^ (i + 1) ≡ mask + (1 + 2 * more) * 2 ^ i = omega arith in
          let byte : List ℕ = y % 256 ∷ [] in
          rw (e, z, lt→ltb (length buf) room (omega arith))
            (cc (
              put_uvarint_mask_loop_lem k (i + 1) room x (mask + 2 ^ i) (buf ++ byte) (y / 256) e'
                  (omega (arith, length-append buf byte)),
              v,
              append_assoc buf byte (bytes_of k (y / 256)),
            ))
    ]

pub put_uvarint_mask_lem :
    (room x : ℕ) → 8 ≤ room → put_uvarint_mask room x ≡ ok (mask_of 8 x, bytes_of 8 x)
unfolding put_uvarint_mask
put_uvarint_mask_lem room x h =
    ground (arith, put_uvarint_mask_loop_lem 8 0 room x 0 [] x (omega arith))

shift_mask :
    (mask i k y : ℕ) → mask / 2 ^ i ≡ mask_of (suc k) y → mask / 2 ^ (i + 1) ≡ mask_of k (y / 256)
unfolding mask_of
shift_mask mask i k y e =
    ap (λ t. mask / t) (one_more_bit i)
    ∙ ap (λ t. mask / t) (mul_comm 2 (2 ^ i))
    ∙ sym (div-div-eq-div-mul mask (2 ^ i) 2)
    ∙ ground arith

skip_byte :
    (k i : ℕ) (buf : List ℕ) (mask x n : ℕ)
    → mask / 2 ^ i % 2 ≡ 0
    → uvarint_mask_loop (suc k) i buf mask x n ≡ uvarint_mask_loop k (i + 1) buf mask x n
unfolding uvarint_mask_loop
skip_byte k i [] mask x n h = ground arith
skip_byte k i (c ∷ buf) mask x n h = ground arith

read_byte :
    (k i c : ℕ) (buf : List ℕ) (mask x n : ℕ)
    → mask / 2 ^ i % 2 ≡ 1
    → uvarint_mask_loop (suc k) i (c ∷ buf) mask x n
      ≡ uvarint_mask_loop k (i + 1) buf mask (x + c * 2 ^ (i * 8)) (n + 1)
unfolding uvarint_mask_loop
read_byte k i c buf mask x n h = ground arith

-- The reader at round `i`, on the bytes of `y` and a mask whose bits from `i` on are those of `y`.
uvarint_mask_loop_lem :
    (k i : ℕ) (rest : List ℕ) (mask x n y : ℕ)
    → mask / 2 ^ i ≡ mask_of k y
    → y < 256 ^ k
    → uvarint_mask_loop k i (bytes_of k y ++ rest) mask x n
      ≡ some (x + y * 2 ^ (i * 8), n + length (bytes_of k y))
unfolding uvarint_mask_loop mask_of bytes_of
uvarint_mask_loop_lem zero i rest mask x n y e h =
    let v : x + y * 2 ^ (i * 8) ≡ x = rw (none_left) (omega arith) in
    let w : n + 0 ≡ n = omega arith in cc (v, w)
  where
    none_left : y ≡ 0
    none_left = omega arith
uvarint_mask_loop_lem (suc k) i rest mask x n y e h =
    let p = eight_more_bits i in
    let e' = shift_mask mask i k y e in
    let below = div_below k y h in
    elim (Bool-cases (y % 256 == 0)) [
      | inl z ↦
          let q : y ≡ y / 256 * 256 = ground arith in
          let v : x + y / 256 * 2 ^ ((i + 1) * 8) ≡ x + y * 2 ^ (i * 8) =
            omega (arith, ap (λ (t : ℕ). t * 2 ^ (i * 8)) q, ap (λ (t : ℕ). y / 256 * t) p) in
          let clear : mask / 2 ^ i % 2 ≡ 0 = rw (e, z) (omega arith) in
          rw z (
            skip_byte k i (bytes_of k (y / 256) ++ rest) mask x n clear
            ∙ uvarint_mask_loop_lem k (i + 1) rest mask x n (y / 256) e' below
            ∙ cc v)
      | inr z ↦
          let q : y ≡ y / 256 * 256 + y % 256 = omega arith in
          let v : x + y % 256 * 2 ^ (i * 8) + y / 256 * 2 ^ ((i + 1) * 8) ≡ x + y * 2 ^ (i * 8) =
            omega (arith, ap (λ (t : ℕ). t * 2 ^ (i * 8)) q, ap (λ (t : ℕ). y / 256 * t) p) in
          let present : mask / 2 ^ i % 2 ≡ 1 = rw (e, z) (omega arith) in
          let count : n + 1 + length (bytes_of k (y / 256))
              ≡ n + suc (length (bytes_of k (y / 256))) =
            omega arith in
          rw z (
            read_byte k i (y % 256) (bytes_of k (y / 256) ++ rest) mask x n present
            ∙ uvarint_mask_loop_lem k (i + 1) rest mask (x + y % 256 * 2 ^ (i * 8)) (n + 1)
                (y / 256) e' below
            ∙ cc (v, count))
    ]

-- What is written for a number of at most eight bytes reads back under its mask.
pub uvarint_mask-bytes_of :
    (x : ℕ) (rest : List ℕ)
    → x < 256 ^ 8
    → uvarint_mask (bytes_of 8 x ++ rest) (mask_of 8 x) ≡ some (x, length (bytes_of 8 x))
unfolding uvarint_mask
uvarint_mask-bytes_of x rest h =
    uvarint_mask_loop_lem 8 0 rest (mask_of 8 x) 0 0 x (omega arith) (omega arith) ∙ ground arith

-- For a number of at most `m` bytes, at most eight, and a buffer with room: what is written has a mask
-- of `m` bits, and reads back under it, whatever follows.
pub uvarint_mask-put_uvarint_mask :
    (room x m : ℕ) (rest : List ℕ)
    → 8 ≤ room
    → m ≤ 8
    → x < 256 ^ m
    → (mask : ℕ) × (buf : List ℕ) × (put_uvarint_mask room x ≡ ok (mask, buf))
      × (uvarint_mask (buf ++ rest) mask ≡ some (x, length buf))
      × (mask < 2 ^ m)
      × (length buf ≤ 8)
      × All IsByte buf
uvarint_mask-put_uvarint_mask room x m rest hr hm h =
    let grows = pow-le-pow_right {n = 256} (omega arith) hm in
    (
      mask_of 8 x,
      bytes_of 8 x,
      put_uvarint_mask_lem room x hr,
      uvarint_mask-bytes_of x rest (omega arith),
      mask_of-lt 8 m x h,
      length-bytes_of 8 x,
      bytes_of-IsByte 8 x,
    )
