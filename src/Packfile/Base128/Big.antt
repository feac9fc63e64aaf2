-- ===== src/Packfile/Base128/Big.antt =====
-- The modified big-endian encoding: what is written reads back, and what is read is what is written.
use go_git_scm.Base.{
  ℕ, zero, suc, ◌+◌, ◌-◌, ◌*◌, ◌/◌, ◌%◌, ◌^◌, ◌≤◌, ◌<◌, ◌≡◌, refl, ap, ◌∙◌, List, [], ◌∷◌, ◌++◌, ok,
  length, All, IsByte, IsU64, arith, inl, inr, Bool-cases, ◌==◌,
}
use go_git_scm.Packfile.Base128.{
  read_mbe_loop, read_base128_mbe, write_mbe_loop, write_base128_mbe, next_group,
}

-- The numbers below this fit `i` bytes.
abbrev mbe_bound : ℕ → ℕ
mbe_bound zero = 0
mbe_bound (suc i) = 128 * (mbe_bound i + 1)

write_mbe_loop_step :
    (i y : ℕ) (p : List ℕ)
    → y < 2 ^ 57 - 1
    → write_mbe_loop (suc i) y p ≡ write_mbe_loop i (next_group y) ((y % 128 + 128) ∷ p)
unfolding write_mbe_loop
write_mbe_loop_step i y p h = ground arith

-- The first byte of a number, and a byte behind the prefix `y / 128 - 1`.
read_last :
    (y : ℕ) (r : List ℕ)
    → y < 128
    → read_base128_mbe ((y % 128 + 128) ∷ r) ≡ read_mbe_loop y (y + 128) r
unfolding read_base128_mbe
read_last y r h =
    let a : (y % 128 + 128) % 128 ≡ y = omega arith in
    let b : y % 128 + 128 ≡ y + 128 = omega arith in rw (a, b) refl

read_inner :
    (y c : ℕ) (r : List ℕ)
    → 128 ≤ c
    → 128 ≤ y
    → y < 2 ^ 57 - 1
    → read_mbe_loop (y / 128 - 1) c ((y % 128 + 128) ∷ r) ≡ read_mbe_loop y (y % 128 + 128) r
unfolding read_mbe_loop
read_inner y c r hc hy h =
    let a : (y / 128 - 1 + 1) * 128 % 2 ^ 64 + (y % 128 + 128) % 128 ≡ y = omega arith in
    ground (arith, a)

-- The last byte of a number, alone and behind a prefix.
read_single : (v : ℕ) (rest : List ℕ) → v < 128 → read_base128_mbe ((v % 128) ∷ rest) ≡ ok (v, rest)
unfolding read_base128_mbe read_mbe_loop
read_single v [] h = ground arith
read_single v (c ∷ r) h = ground arith

read_stop : (x c : ℕ) (r : List ℕ) → c < 128 → read_mbe_loop x c r ≡ ok (x, r)
unfolding read_mbe_loop
read_stop x c [] h = ground arith
read_stop x c (c' ∷ r) h = ground arith

read_end :
    (v c : ℕ) (rest : List ℕ)
    → 128 ≤ c
    → 128 ≤ v
    → v < 2 ^ 64
    → read_mbe_loop (v / 128 - 1) c ((v % 128) ∷ rest) ≡ ok (v, rest)
unfolding read_mbe_loop
read_end v c rest hc hv h =
    let a : (v / 128 - 1 + 1) * 128 % 2 ^ 64 + v % 128 % 128 ≡ v = omega arith in
    ground (arith, a, read_stop v (v % 128) rest (omega arith))

write_mbe_loop_max : (i : ℕ) (p : List ℕ) → write_mbe_loop i (2 ^ 64 - 1) p ≡ ok p
unfolding write_mbe_loop
write_mbe_loop_max zero p = refl
write_mbe_loop_max (suc i) p = refl

-- What the writer has put down in front of `p` reads back as the number `v`.
write_mbe_loop_reads :
    (i y : ℕ) (p rest : List ℕ) (v : ℕ)
    → y < mbe_bound i
    → y < 2 ^ 57 - 1
    → ((c : ℕ) → 128 ≤ c → read_mbe_loop y c (p ++ rest) ≡ ok (v, rest))
    → All IsByte p
    → (q : List ℕ) × (write_mbe_loop i y p ≡ ok q)
      × (read_base128_mbe (q ++ rest) ≡ ok (v, rest))
      × All IsByte q
      × (length q ≤ length p + i)
      × (length p ≤ length q)
write_mbe_loop_reads zero y p rest v h hy k bytes = absurd (omega arith)
write_mbe_loop_reads (suc i) y p rest v h hy k bytes =
    let front : List ℕ = (y % 128 + 128) ∷ p in
    elim (Bool-cases (y / 128 == 0)) [
      | inl last ↦
          let stop : next_group y ≡ 2 ^ 64 - 1 = ground arith in
          (
            front,
            write_mbe_loop_step i y p hy ∙ rw stop (write_mbe_loop_max i front),
            read_last y (p ++ rest) (ground arith) ∙ k (y + 128) (omega arith),
            (omega arith, bytes),
            omega arith,
            omega arith,
          )
      | inr more ↦
          let y' = y / 128 - 1 in
          let go : next_group y ≡ y' = ground arith in
          let (q, wrote, reads, good, hi, lo) =
            write_mbe_loop_reads i y' front rest v (ground arith) (omega arith)
              (λ c hc.
                read_inner y c (p ++ rest) hc (ground arith) hy ∙ k (y % 128 + 128) (omega arith))
              (omega arith, bytes) in
          (
            q,
            write_mbe_loop_step i y p hy ∙ ap (λ t. write_mbe_loop i t front) go ∙ wrote,
            reads,
            good,
            omega arith,
            omega arith,
          )
    ]

-- Every uint64 is written, in 1 to 10 bytes, and reads back with what follows it left unread.
pub read-write_base128_mbe :
    (v : ℕ) (rest : List ℕ)
    → IsU64 v
    → (p : List ℕ) × (write_base128_mbe v ≡ ok p)
      × (read_base128_mbe (p ++ rest) ≡ ok (v, rest))
      × All IsByte p
      × (1 ≤ length p)
      × (length p ≤ 10)
unfolding write_base128_mbe
read-write_base128_mbe v rest h = elim (Bool-cases (v / 128 == 0)) [
  | inl short ↦
      let stop : next_group v ≡ 2 ^ 64 - 1 = ground arith in
      (
        (v % 128) ∷ [],
        rw stop (write_mbe_loop_max 9 ((v % 128) ∷ [])),
        read_single v rest (ground arith),
        omega arith,
        omega arith,
        omega arith,
      )
  | inr long ↦
      let y = v / 128 - 1 in
      let go : next_group v ≡ y = ground arith in
      let (q, wrote, reads, good, hi, lo) =
        write_mbe_loop_reads 9 y ((v % 128) ∷ []) rest v (omega arith) (omega arith)
          (λ c hc. read_end v c rest hc (ground arith) h) (omega arith) in
      (
        q,
        ap (λ t. write_mbe_loop 9 t ((v % 128) ∷ [])) go ∙ wrote,
        reads,
        good,
        omega arith,
        omega arith,
      )
]
