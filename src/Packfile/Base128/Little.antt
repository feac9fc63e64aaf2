-- ===== src/Packfile/Base128/Little.antt =====
-- The little-endian encoding: what is written reads back, from a slice and from a stream.
use go_git_scm.Base.{
  ℕ, zero, suc, ◌+◌, ◌*◌, ◌/◌, ◌%◌, ◌^◌, ◌≤◌, ◌<◌, ◌≡◌, refl, ap, List, [], ◌∷◌, ◌++◌, ok, length,
  All, IsByte, IsU64, arith, inl, inr, Bool-cases, Result-cases, ◌==◌, ltb,
}
use native.Mathlib.Nat.{div-add-mod}
use native.Mathlib.Numerals.{towards_suc}
use go_git_scm.Packfile.Base128.{
  uvarint_loop, put_uvarint, read_uvarint_loop, base128_le, put_base128_le, read_base128_le,
  write_base128_le,
}

seven_more_bits : (s : ℕ) → 2 ^ (s + 7) ≡ 128 * 2 ^ s
seven_more_bits s = simp towards_suc (omega arith)

-- A number at bit `s` is its low group at `s` and the rest at `s + 7`.
low_group : (x s : ℕ) → x * 2 ^ s ≡ x % 128 * 2 ^ s + x / 128 * 2 ^ (s + 7)
low_group x s = omega (
  arith,
  ap (λ (t : ℕ). t * 2 ^ s) (div-add-mod x 128),
  ap (λ (t : ℕ). x / 128 * t) (seven_more_bits s),
)

-- What is written for `v`, read at index `i` on top of the `7 * i` bits `x`.
abbrev Reads : ℕ → ℕ → ℕ → ℕ → List ℕ → List ℕ → Type 0
Reads i x s v bytes rest =
    (uvarint_loop i x s (bytes ++ rest) ≡ ok (x + v * 2 ^ s, i + length bytes))
    × (read_uvarint_loop i x s (bytes ++ rest) ≡ ok (x + v * 2 ^ s, rest))

top_group : (s x v : ℕ) → s ≡ 63 → x + v * 2 ^ s < 2 ^ 64 → v ≤ 1
top_group s x v e h = let h' : x + v * 2 ^ 63 < 2 ^ 64 = rw e at h in omega arith

last_group :
    (i x s v : ℕ) (rest : List ℕ)
    → i ≤ 9
    → s ≡ 7 * i
    → v < 128
    → x + v * 2 ^ s < 2 ^ 64
    → Reads i x s v (v ∷ []) rest
unfolding uvarint_loop read_uvarint_loop
last_group i x s v rest hi hs hv fits = elim (Bool-cases (i == 9)) [
  | inl e ↦ (ground (arith, top_group s x v), ground (arith, top_group s x v))
  | inr e ↦ (ground arith, ground arith)
]

inner_group :
    (i x s v : ℕ) (bytes rest : List ℕ)
    → i ≤ 8
    → x + v * 2 ^ s < 2 ^ 64
    → Reads (i + 1) (x + v % 128 * 2 ^ s) (s + 7) (v / 128) bytes rest
    → Reads i x s v ((v % 128 + 128) ∷ bytes) rest
unfolding uvarint_loop read_uvarint_loop
inner_group i x s v bytes rest hi fits more =
    let split = low_group v s in
    let digit : (v % 128 + 128) % 128 ≡ v % 128 = omega arith in
    let small : v % 128 * 2 ^ s % 2 ^ 64 ≡ v % 128 * 2 ^ s = omega arith in
    rw (digit, small) (ground arith, ground arith)

below_top : (s x v : ℕ) → s ≡ 63 → 128 ≤ v → x + v * 2 ^ s < 2 ^ 64 → ⊥
below_top s x v e hv h = omega (arith, top_group s x v e h)

-- With `room` bytes left in the buffer and `10 - room` bytes read.
put_uvarint-Reads :
    (room i x s v : ℕ) (rest : List ℕ)
    → room + i ≡ 9
    → s ≡ 7 * i
    → x + v * 2 ^ s < 2 ^ 64
    → (bytes : List ℕ) × (put_uvarint (suc room) v ≡ ok bytes)
      × Reads i x s v bytes rest
      × All IsByte bytes
      × (1 ≤ length bytes)
      × (length bytes ≤ suc room)
unfolding put_uvarint
put_uvarint-Reads zero i x s v rest hr hs fits =
    let small : v ≤ 1 = top_group s x v (omega arith) fits in
    (
      v ∷ [],
      ground arith,
      last_group i x s v rest (omega arith) hs (omega arith) fits,
      omega arith,
      omega arith,
      omega arith,
    )
put_uvarint-Reads (suc room) i x s v rest hr hs fits = elim (Bool-cases (ltb v 128)) [
  | inl short ↦ (
    v ∷ [],
    rw short,
    last_group i x s v rest (omega arith) hs (ground arith) fits,
    ground arith,
    omega arith,
    omega arith,
  )
  | inr long ↦
      let split = low_group v s in
      let (bytes, put, reads, good, lo, hi) =
        put_uvarint-Reads room (i + 1) (x + v % 128 * 2 ^ s) (s + 7) (v / 128) rest (omega arith)
          (omega arith) (omega arith) in
      (
        (v % 128 + 128) ∷ bytes,
        rw (long, put),
        inner_group i x s v bytes rest (omega arith) fits reads,
        (omega arith, good),
        omega arith,
        omega arith,
      )
]

-- A uint64 is written in 1 to 10 bytes, also through a buffer of ten bytes at least; a slice that
-- begins with them gives the number and how many they are, a stream the number and what follows.
pub read-write_base128_le :
    (v : ℕ) (rest : List ℕ)
    → IsU64 v
    → (bytes : List ℕ) × (write_base128_le v ≡ ok bytes)
      × (base128_le (bytes ++ rest) ≡ ok (v, length bytes))
      × (read_base128_le (bytes ++ rest) ≡ ok (v, rest))
      × All IsByte bytes
      × (1 ≤ length bytes)
      × (length bytes ≤ 10)
unfolding write_base128_le base128_le read_base128_le
read-write_base128_le v rest h =
    let (bytes, put, reads, good, lo, hi) =
      put_uvarint-Reads 9 0 0 0 v rest refl refl (omega arith) in
    let value : 0 + v * 2 ^ 0 ≡ v = omega arith in
    (bytes, put, ground (arith, reads.0), ground (arith, reads.1), good, lo, hi)

put_uvarint_room :
    (room more v : ℕ) (bytes : List ℕ)
    → room ≤ more
    → put_uvarint room v ≡ ok bytes
    → put_uvarint more v ≡ ok bytes
unfolding put_uvarint
put_uvarint_room zero more v bytes h e = absurd cc
put_uvarint_room (suc room) zero v bytes h e = absurd (omega arith)
put_uvarint_room (suc room) (suc more) v bytes h e = elim (Bool-cases (ltb v 128)) [
  | inl short ↦ rw short (rw short at e)
  | inr long ↦ elim (Result-cases (put_uvarint room (v / 128))) [
    | inl (part, p) ↦ ground (arith, put_uvarint_room room more (v / 128) part (omega arith) p)
    | inr (x, p) ↦ absurd (ground arith)
  ]
]

-- In a buffer with ten bytes of room at least, a uint64 takes at most ten, and reads back.
pub put-base128_le :
    (room v : ℕ) (rest : List ℕ)
    → 10 ≤ room
    → IsU64 v
    → (bytes : List ℕ) × (put_base128_le room v ≡ ok bytes)
      × (base128_le (bytes ++ rest) ≡ ok (v, length bytes))
      × (length bytes ≤ 10)
unfolding put_base128_le write_base128_le
put-base128_le room v rest hr h =
    let (bytes, put, reads, _, _, _, short) = read-write_base128_le v rest h in
    (bytes, put_uvarint_room 10 room v bytes hr put, reads, short)
