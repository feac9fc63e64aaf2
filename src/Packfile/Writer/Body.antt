-- ===== src/Packfile/Writer/Body.antt =====
-- marshalObj gives the text of an object without its header.
use go_git_scm.Base.{
  ℕ, zero, suc, ◌+◌, ◌/◌, ◌≡◌, ◌≢◌, refl, ap, Bool-cases, inl, inr, [], ◌∷◌, ◌++◌, ok, length, All,
  All-append, ltb, arith,
}
use go_git_scm.Object.{Bytes, Object, commit, tree, blob, tag, type_of, type_string}
use go_git_scm.Object.Print.{digits, print_nat}
use go_git_scm.Object.Marshal.{marshal_binary-eq-ok, body_of, header_of}
use go_git_scm.Packfile.Writer.{after_zero, marshal_obj}

digits-ne_zero : (fuel n : ℕ) → All (λ c. c ≢ 0) (digits 10 fuel n)
unfolding digits
digits-ne_zero zero n = tt
digits-ne_zero (suc fuel) n = elim (Bool-cases (ltb n 10)) [
  | inl small ↦ rw small (omega arith, tt)
  | inr more ↦ rw more (
      All-append (λ c. c ≢ 0) (digits 10 fuel (n / 10)) _ (digits-ne_zero fuel (n / 10))
        (omega arith, tt))
]

header_of-ne_zero : (obj : Object) → All (λ c. c ≢ 0) (header_of obj)
unfolding type_of type_string print_nat
header_of-ne_zero (commit c) = (
  omega arith,
  (
    omega arith,
    (
      omega arith,
      (
        omega arith,
        (
          omega arith,
          (
            omega arith,
            (
              omega arith,
              digits-ne_zero (length (body_of (commit c)) + 1) (length (body_of (commit c))),
            ),
          ),
        ),
      ),
    ),
  ),
)
header_of-ne_zero (tree t) = (
  omega arith,
  (
    omega arith,
    (
      omega arith,
      (
        omega arith,
        (omega arith, digits-ne_zero (length (body_of (tree t)) + 1) (length (body_of (tree t)))),
      ),
    ),
  ),
)
header_of-ne_zero (blob b) = (
  omega arith,
  (
    omega arith,
    (
      omega arith,
      (
        omega arith,
        (omega arith, digits-ne_zero (length (body_of (blob b)) + 1) (length (body_of (blob b)))),
      ),
    ),
  ),
)
header_of-ne_zero (tag g) = (
  omega arith,
  (
    omega arith,
    (
      omega arith,
      (omega arith, digits-ne_zero (length (body_of (tag g)) + 1) (length (body_of (tag g)))),
    ),
  ),
)

after_zero_lem :
    (whole xs ys : Bytes) → All (λ c. c ≢ 0) xs → after_zero whole (xs ++ (0 ∷ ys)) ≡ ys
unfolding after_zero
after_zero_lem whole [] ys h = refl
after_zero_lem whole (x ∷ xs) ys (h, hs) = ground (arith, after_zero_lem whole xs ys hs)

-- The body that goes into a packfile is the object's text without its header.
pub marshal_obj-eq-ok : (obj : Object) → marshal_obj obj ≡ ok (body_of obj)
unfolding marshal_obj
marshal_obj-eq-ok obj = rw (marshal_binary-eq-ok obj) (
    ap ok (
      after_zero_lem (header_of obj ++ (0 ∷ body_of obj)) (header_of obj) (body_of obj)
        (header_of-ne_zero obj)))
