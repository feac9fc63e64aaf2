-- ===== src/Object/Scan/Text.antt =====
-- IDs, types, names and signatures are scanned as they are printed.
use go_git_scm.Base.{
  ℕ, ◌+◌, ◌*◌, ◌/◌, ◌%◌, ◌<◌, ◌≡◌, refl, sym, ap, ◌∙◌, true, false, not, ◌&&◌, ◌||◌, Bool-cases,
  inl, inr, [], ◌∷◌, ◌++◌, some, ℤ, pos, negsuc, length, append_assoc, All, All-append, IsByte, ltb,
  lt→ltb, arith, all_below, all_below_sound,
}
use go_git_scm.Fmt.Rune.{is_space}
use go_git_scm.Fmt.Scan.{skip_space, space, ◌>>◌}
use go_git_scm.Fmt.Reads.{
  Stops, IsAscii, skip_space_lem, skip_space_blank, read_rune_ascii, token_lem, literal_lem,
  space_lem, space_two,
}
use go_git_scm.Object.{Bytes, ObjectId, Signature}
use go_git_scm.Object.Print.{
  print_nat, print_int, zone_string, hex_digit, hex_encode, id_string, signature_string,
}
use go_git_scm.Object.Decode.RoundTrip.{hex_value-hex_digit}
use go_git_scm.Object.Scan.{
  hex_string, scan_id, one_of, trim_left, trim_right, trim, get_token, safe_delims, safe_trims,
  scan_safe_string, scan_signature,
}
use go_git_scm.Object.Scan.Number.{IsInt64, scan_int-print_int, Stops-digits}
use go_git_scm.Object.Scan.Zone.{IsZone, scan_int-zone_string}

hex_table : all_below 16 (λ d. ltb (hex_digit d) 128 && not (is_space (hex_digit d))) ≡ true
unfolding all_below hex_digit is_space
hex_table = refl

hex_solid : (d : ℕ) → d < 16 → (hex_digit d < 128) × (is_space (hex_digit d) ≡ false)
hex_solid d h =
    let e =
      all_below_sound 16 (λ d. ltb (hex_digit d) 128 && not (is_space (hex_digit d))) d hex_table
        h in
    ground arith

pub hex_string-hex_encode :
    (id s : Bytes) → All IsByte id → hex_string (length id) (hex_encode id ++ s) ≡ (some id, s)
unfolding hex_string hex_encode
hex_string-hex_encode [] s h = refl
hex_string-hex_encode (b ∷ bs) s (small, h) =
    let hi : b / 16 < 16 = omega arith in
    let lo : b % 16 < 16 = omega arith in
    let sum : b / 16 * 16 + b % 16 ≡ b = omega arith in
    rw
      (
        read_rune_ascii (hex_digit (b / 16)) (hex_digit (b % 16) ∷ (hex_encode bs ++ s))
            ((hex_solid (b / 16) hi).0),
        hex_string,
        hex_value-hex_digit (b / 16) hi,
        lt→ltb (b / 16) 16 hi,
        read_rune_ascii (hex_digit (b % 16)) (hex_encode bs ++ s) ((hex_solid (b % 16) lo).0),
        hex_value-hex_digit (b % 16) lo,
        lt→ltb (b % 16) 16 lo,
        hex_string-hex_encode bs s h,
        hex_value-hex_digit (b / 16) hi,
        sum,
      )
      refl

abbrev pub IsId : ObjectId → Type 0
IsId id = (length id ≡ 20) × All IsByte id

pub Stops-id_string : (id s : Bytes) → IsId id → Stops is_space (id_string id ++ s)
unfolding id_string hex_encode
Stops-id_string [] s (h, _) = absurd (omega arith)
Stops-id_string (b ∷ bs) s (h, (small, hs)) = hex_solid (b / 16) (omega arith)

pub scan_id-id_string : (id s : Bytes) → IsId id → scan_id (id_string id ++ s) ≡ (some id, s)
unfolding scan_id
scan_id-id_string id s (n, h) =
    rw (skip_space_lem (id_string id ++ s) (Stops-id_string id s (n, h)))
      (unfold id_string in rw (rw n at (hex_string-hex_encode id s h), n) refl)

-- A name that is printed and scanned: ASCII, with none of the delimiters, and with no space and none of the
-- trimmed bytes at either end.
pub record IsSafe (s : Bytes) : Type 0 where
  pub ascii : All (λ c. IsAscii c × (not (one_of safe_delims c) ≡ true)) s
  pub begins : Stops (λ r. is_space r || one_of safe_trims r) s
  pub ends : trim_right safe_trims s ≡ s

trim_right_space : (s : Bytes) → trim_right safe_trims (s ++ (32 ∷ [])) ≡ trim_right safe_trims s
unfolding trim_right
trim_right_space [] = unfold one_of in refl
trim_right_space (c ∷ s) = rw (trim_right_space s, trim_right) refl

trim_begins :
    (s : Bytes) → Stops (λ r. is_space r || one_of safe_trims r) s → trim_left safe_trims s ≡ s
unfolding trim_left
trim_begins [] h = refl
trim_begins (c ∷ s) (small, h) = ground arith

solid_name :
    (s ys : Bytes)
    → Stops (λ r. is_space r || one_of safe_trims r) s
    → Stops is_space ys
    → Stops is_space (s ++ ys)
solid_name [] ys h k = k
solid_name (c ∷ s) ys (small, h) k = (small, ground arith)

-- A name up to the closing bracket.
scan_email : (s ys : Bytes) → IsSafe s → scan_safe_string (s ++ (b'>' ∷ ys)) ≡ (some s, b'>' ∷ ys)
unfolding scan_safe_string get_token trim
scan_email s ys h =
    rw
      (
        skip_space_lem (s ++ (b'>' ∷ ys))
            (solid_name s (b'>' ∷ ys) h.begins (omega arith, unfold is_space in refl)),
        token_lem (λ r. not (one_of safe_delims r)) s (b'>' ∷ ys) h.ascii
            (omega arith, unfold one_of in refl),
        trim_begins s h.begins,
        h.ends,
      )
      refl

-- A name and the space behind it, up to the opening bracket.
scan_name :
    (s ys : Bytes) → IsSafe s → scan_safe_string (s ++ (32 ∷ b'<' ∷ ys)) ≡ (some s, b'<' ∷ ys)
unfolding scan_safe_string get_token trim
scan_name [] ys h =
    rw
      (
        skip_space_blank (b'<' ∷ ys) (omega arith, unfold is_space in refl),
        token_lem (λ r. not (one_of safe_delims r)) [] (b'<' ∷ ys) tt
            (omega arith, unfold one_of in refl),
      )
      (unfold trim_left trim_right in refl)
scan_name (c ∷ s) ys h =
    rw
      (
        skip_space_lem ((c ∷ s) ++ (32 ∷ b'<' ∷ ys)) (solid_name (c ∷ s) [] h.begins tt),
        ← append_assoc (c ∷ s) (32 ∷ []) (b'<' ∷ ys),
        token_lem (λ r. not (one_of safe_delims r)) ((c ∷ s) ++ (32 ∷ [])) (b'<' ∷ ys)
            (All-append (λ r. IsAscii r × (not (one_of safe_delims r) ≡ true)) (c ∷ s) (32 ∷ [])
              h.ascii ((omega arith, unfold one_of in refl), tt))
            (omega arith, unfold one_of in refl),
        trim_begins (c ∷ (s ++ (32 ∷ []))) h.begins,
        trim_right_space (c ∷ s),
        h.ends,
      )
      refl

scan_no_name : (ys : Bytes) → scan_safe_string (b'<' ∷ ys) ≡ (some [], b'<' ∷ ys)
unfolding scan_safe_string get_token trim
scan_no_name ys =
    rw
      (
        skip_space_lem (b'<' ∷ ys) (omega arith, unfold is_space in refl),
        token_lem (λ r. not (one_of safe_delims r)) [] (b'<' ∷ ys) tt
            (omega arith, unfold one_of in refl),
      )
      (unfold trim_left trim_right in refl)

-- A signature whose names are safe, with a 64-bit time and a zone of whole minutes.
pub record IsSignature (s : Signature) : Type 0 where
  pub name : IsSafe s.name
  pub email : IsSafe s.email
  pub unix : IsInt64 s.unix
  pub offset : IsZone s.offset

signature_text :
    (s : Signature) (ys : Bytes)
    → signature_string s ++ ys
      ≡ s.name
        ++ (32
            ∷ b'<'
            ∷ (s.email ++ (b'>' ∷ 32 ∷ (print_int s.unix ++ (32 ∷ (zone_string s.offset ++ ys))))))
unfolding signature_string
signature_text s ys = simp (append_assoc) refl

-- What follows the name of a printed signature.
abbrev pub signature_tail : Signature → Bytes → Bytes
signature_tail s ys =
    b'<'
    ∷ (s.email ++ (b'>' ∷ 32 ∷ (print_int s.unix ++ (32 ∷ (zone_string s.offset ++ (10 ∷ ys))))))

Stops-print_int : (z : ℤ) (ys : Bytes) → Stops is_space (print_int z ++ ys)
unfolding print_int print_nat
Stops-print_int (pos n) ys = Stops-digits 10 n ys (omega arith) (omega arith)
Stops-print_int (negsuc k) ys = (omega arith, unfold is_space in refl)

Stops-zone_string : (z : ℤ) (ys : Bytes) → Stops is_space (zone_string z ++ ys)
unfolding zone_string
Stops-zone_string (pos n) ys = (omega arith, unfold is_space in refl)
Stops-zone_string (negsuc k) ys = elim (Bool-cases (ltb 0 ((k + 1) / 60))) [
  | inl e ↦ rw e (omega arith, unfold is_space in refl)
  | inr e ↦ rw e (omega arith, unfold is_space in refl)
]

-- Where the name has been scanned, so is the rest of the signature.
scan_signature_tail :
    (s : Signature) (start ys : Bytes)
    → IsSignature s
    → scan_safe_string start ≡ (some s.name, signature_tail s ys)
    → scan_signature start ≡ (some s, 10 ∷ ys)
unfolding scan_signature
scan_signature_tail s start ys h named =
    let zone = zone_string s.offset ++ (10 ∷ ys) in
    let (n, read, same) = scan_int-zone_string s.offset (10 ∷ ys) h.offset (omega arith, refl) in
    rw
      (
        named,
        literal_lem b'<' (s.email ++ (b'>' ∷ 32 ∷ (print_int s.unix ++ (32 ∷ zone)))) (omega arith),
        scan_email s.email (32 ∷ (print_int s.unix ++ (32 ∷ zone))) h.email,
        literal_lem b'>' (32 ∷ (print_int s.unix ++ (32 ∷ zone))) (omega arith),
        space_lem (print_int s.unix ++ (32 ∷ zone)) (Stops-print_int s.unix (32 ∷ zone)),
        scan_int-print_int s.unix (32 ∷ zone) h.unix (omega arith, refl),
        space_lem zone (Stops-zone_string s.offset (10 ∷ ys)),
        read,
        same,
      )
      refl

-- A signature is scanned as it is printed behind a space, up to the end of its line.
pub space_signature :
    (s : Signature) (ys : Bytes)
    → IsSignature s
    → (space >> skip_space >> scan_signature) (32 ∷ (signature_string s ++ (10 ∷ ys)))
      ≡ (some s, 10 ∷ ys)
space_signature s ys h = rw (signature_text s (10 ∷ ys)) (named s.name h.name refl)
  where
    named :
        (name : Bytes)
        → IsSafe name
        → s.name ≡ name
        → (space >> skip_space >> scan_signature) (32 ∷ (name ++ (32 ∷ signature_tail s ys)))
          ≡ (some s, 10 ∷ ys)
    named [] safe e =
        let bracket : Stops is_space (signature_tail s ys) =
          (omega arith, unfold is_space in refl) in
        rw (space_two (signature_tail s ys) bracket, skip_space_lem (signature_tail s ys) bracket)
          (scan_signature_tail s (signature_tail s ys) ys h (
            scan_no_name (
              s.email
              ++ (b'>' ∷ 32 ∷ (print_int s.unix ++ (32 ∷ (zone_string s.offset ++ (10 ∷ ys))))))
            ∙ ap (λ m. (some m, signature_tail s ys)) (sym e)))
    named (c ∷ cs) safe e =
        rw
          (
            space_lem ((c ∷ cs) ++ (32 ∷ signature_tail s ys))
                (solid_name (c ∷ cs) [] safe.begins tt),
            skip_space_lem ((c ∷ cs) ++ (32 ∷ signature_tail s ys))
                (solid_name (c ∷ cs) [] safe.begins tt),
          )
          (scan_signature_tail s ((c ∷ cs) ++ (32 ∷ signature_tail s ys)) ys h
            (scan_name (c ∷ cs) _ safe ∙ ap (λ m. (some m, signature_tail s ys)) (sym e)))
