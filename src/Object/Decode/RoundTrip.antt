-- ===== src/Object/Decode/RoundTrip.antt =====
-- DecodeID reads what the method String of ID prints, and New makes objects of the type it is asked for.
use go_git_scm.Base.{
  ℕ, ◌+◌, ◌*◌, ◌/◌, ◌%◌, ◌<◌, ◌≡◌, refl, ap, true, [], ◌∷◌, ok, err, length, All, IsByte, ◌==◌,
  ==_iff, all_below, ◌≤◌, ◌⊎◌, zero, suc, if◌then◌else◌, all_below_sound, lt→ltb, arith, inl, inr,
}
use go_git_scm.Object.{Bytes, ObjectId, id_size, Object, commit, tree, blob, tag, type_of}
use go_git_scm.Object.Print.{hex_digit, hex_encode, id_string}
use go_git_scm.Object.Decode.{
  hex_value, hex_decode, decode_id, new_object, bad_id_len, zero_commit, zero_tag,
}
use go_git_scm.Object.Marshal.{type_error}

hex_table : all_below 16 (λ d. hex_value (hex_digit d) == d) ≡ true
unfolding all_below hex_value hex_digit
hex_table = refl

pub hex_value-hex_digit : (d : ℕ) → d < 16 → hex_value (hex_digit d) ≡ d
hex_value-hex_digit d h = (==_iff _ d).0 (all_below_sound 16 _ d hex_table h)

hex_decode-hex_encode : (bs : Bytes) → All IsByte bs → hex_decode (hex_encode bs) ≡ ok bs
unfolding hex_decode hex_encode
hex_decode-hex_encode [] h = refl
hex_decode-hex_encode (b ∷ bs) (small, h) =
    let hi : b / 16 < 16 = omega arith in
    let lo : b % 16 < 16 = omega arith in
    let sum : b / 16 * 16 + b % 16 ≡ b = omega arith in
    rw
      (
        hex_value-hex_digit (b / 16) hi,
        hex_value-hex_digit (b % 16) lo,
        lt→ltb (b / 16) 16 hi,
        lt→ltb (b % 16) 16 lo,
        hex_decode-hex_encode bs h,
      )
      (ap (λ x. ok (x ∷ bs)) sum)

-- Bytes print as twice as many digits, which DecodeID reads as the same ID if there are twenty of them,
-- and refuses otherwise.
pub decode_id-id_string :
    (id : ObjectId)
    → All IsByte id
    → decode_id (id_string id) ≡ (if length id == id_size then ok id else err bad_id_len)
unfolding decode_id id_string
decode_id-id_string id h = rw (hex_decode-hex_encode id h) refl

-- What New returns for a type code: an object of that type, or, for any other code, the error.
pub type_of-new_object :
    (t : ℕ)
    → ((o : Object) × (new_object t ≡ ok o) × (type_of o ≡ t) × (1 ≤ t) × (t ≤ 4))
      ⊎ ((new_object t ≡ err (type_error t)) × ((t ≡ 0) ⊎ (4 < t)))
unfolding new_object type_of
type_of-new_object zero = inr (refl, inl refl)
type_of-new_object (suc zero) = inl (commit zero_commit, refl, refl, omega arith, omega arith)
type_of-new_object (suc (suc zero)) = inl (tree [], refl, refl, omega arith, omega arith)
type_of-new_object (suc (suc (suc zero))) = inl (blob [], refl, refl, omega arith, omega arith)
type_of-new_object (suc (suc (suc (suc zero)))) =
    inl (tag zero_tag, refl, refl, omega arith, omega arith)
type_of-new_object (suc (suc (suc (suc (suc n))))) = inr (ground arith, inr (omega arith))
