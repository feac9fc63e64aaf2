-- ===== src/Object/Print.antt =====
-- What fmt prints for the verbs that the package uses: %d, %o, %s of an ID, and a Signature.
use go_git_scm.Base.{
  ℕ, zero, suc, ◌+◌, ◌-◌, ◌/◌, ◌%◌, [], ◌∷◌, ◌++◌, ℤ, pos, negsuc, ltb, if◌then◌else◌, codes,
}
use go_git_scm.Object.{Bytes, ObjectId, Signature}

-- The digits of `n` in a base up to ten; a fuel above `n` is enough.
unfoldable pub digits : ℕ → ℕ → ℕ → Bytes
digits base zero n = []
digits base (suc fuel) n =
    let more = digits base fuel (n / base) ++ ((n % base + b'0') ∷ []) in
    if ltb n base then (n + b'0') ∷ [] else more

-- %d of a number that is not negative, and of an int
unfoldable pub print_nat : ℕ → Bytes
print_nat n = digits 10 (n + 1) n

unfoldable pub print_int : ℤ → Bytes
print_int (pos n) = print_nat n
print_int (negsuc n) = b'-' ∷ print_nat (n + 1)

-- %o
unfoldable pub print_octal : ℕ → Bytes
print_octal n = digits 8 (n + 1) n

unfoldable pub hex_digit : ℕ → ℕ
hex_digit d = if ltb d 10 then d + b'0' else d - 10 + b'a'

-- hex.EncodeToString
unfoldable pub hex_encode : Bytes → Bytes
hex_encode [] = []
hex_encode (b ∷ bs) = hex_digit (b / 16) ∷ hex_digit (b % 16) ∷ hex_encode bs

-- The method String of ID.
unfoldable pub id_string : ObjectId → Bytes
id_string id = hex_encode id

-- A number in two digits at least.
unfoldable pub two_digits : ℕ → Bytes
two_digits n = if ltb n 10 then b'0' ∷ print_nat n else print_nat n

-- The zone in minutes, cut towards zero, as sign, hours and minutes.
unfoldable pub zone_string : ℤ → Bytes
zone_string (pos s) = b'+' ∷ (two_digits (s / 60 / 60) ++ two_digits (s / 60 % 60))
zone_string (negsuc s) =
    let minutes = (s + 1) / 60 in
    (if ltb 0 minutes then b'-' else b'+')
    ∷ (two_digits (minutes / 60) ++ two_digits (minutes % 60))

-- The method String of Signature.
unfoldable pub signature_string : Signature → Bytes
signature_string s =
    s.name
    ++ codes " <"
    ++ s.email
    ++ codes "> "
    ++ print_int s.unix
    ++ codes " "
    ++ zone_string s.offset
