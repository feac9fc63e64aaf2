-- ===== src/Object/Scan.antt =====
-- The methods Scan of ID (object.go), Type (type.go), safeString and Signature (shared.go) and filename
-- (tree.go), as steps of Fscanf. Fscanf skips the spaces in front of a verb before it calls them.
pub mod Number
pub mod Zone
pub mod Text
use go_git_scm.Base.{
  ℕ, zero, suc, ◌+◌, ◌*◌, ◌/◌, ◌%◌, Bool, false, not, ◌||◌, [], ◌∷◌, none, some, ℤ, pos, negsuc,
  length, ltb, ◌==◌, if◌then◌else◌, codes, bytes_eq,
}
use go_git_scm.Fmt.Rune.{read_rune}
use go_git_scm.Fmt.Scan.{
  Scanned, Scan, ◌>>=◌, ◌>>◌, pure, fail, after, token, skip_space, literal, space, scan_int,
}
use go_git_scm.Object.{
  Bytes, ObjectId, id_size, Signature, type_commit, type_tree, type_blob, type_tag,
}
use go_git_scm.Object.Decode.{hex_value}

-- hexString of fmt: pairs of digits, `pairs` at most
unfoldable pub hex_string : ℕ → Scan Bytes
hex_string zero s = (some [], s)
hex_string (suc pairs) s = elim (read_rune s) [
  | none ↦ (some [], s)
  | some (a, s') ↦
      let second : Scanned Bytes = elim (read_rune s') [
        | none ↦ (none, s')
        | some (b, s'') ↦
            let more =
              after (hex_string pairs s'') (λ bs. pure ((hex_value a * 16 + hex_value b) ∷ bs)) in
            if ltb (hex_value b) 16 then more else (none, s'')
      ] in
      if ltb (hex_value a) 16 then second else (some [], s)
]

-- `%40x` is 20 pairs; an ID with fewer is refused.
unfoldable pub scan_id : Scan ObjectId
scan_id = skip_space >> hex_string 20 >>= λ p. if length p == id_size then pure p else fail

unfoldable pub type_named : Bytes → Scan ℕ
type_named tok =
    if bytes_eq tok (codes "commit")
    then pure type_commit
    else (if bytes_eq tok (codes "tree")
        then pure type_tree
        else (if bytes_eq tok (codes "blob")
            then pure type_blob
            else (if bytes_eq tok (codes "tag") then pure type_tag else fail)))

unfoldable pub scan_type : Scan ℕ
scan_type = skip_space >> token (λ r. not (go_git_scm.Fmt.Rune.is_space r)) >>= type_named

-- Whether a set of ASCII runes has the rune.
unfoldable pub one_of : Bytes → ℕ → Bool
one_of [] r = false
one_of (c ∷ cs) r = c == r || one_of cs r

unfoldable pub trim_left : Bytes → Bytes → Bytes
trim_left trimset [] = []
trim_left trimset (c ∷ s) =
    let rest = trim_left trimset s in if one_of trimset c then rest else c ∷ s

unfoldable pub trim_right : Bytes → Bytes → Bytes
trim_right trimset [] = []
trim_right trimset (c ∷ s) = elim (trim_right trimset s) [
  | [] ↦ if one_of trimset c then [] else c ∷ []
  | d ∷ t ↦ c ∷ d ∷ t
]

-- strings.Trim with a set of ASCII bytes, which are part of no other rune
unfoldable pub trim : Bytes → Bytes → Bytes
trim trimset s = trim_right trimset (trim_left trimset s)

unfoldable pub get_token : Bytes → Bytes → Scan Bytes
get_token delimset trimset = token (λ r. not (one_of delimset r)) >>= λ tok. pure (trim trimset tok)

-- NUL, newline and the angle brackets, and ` .,:;<>"'`
abbrev pub safe_delims : Bytes
safe_delims = 0 ∷ 10 ∷ b'<' ∷ b'>' ∷ []

abbrev pub safe_trims : Bytes
safe_trims = b' ' ∷ b'.' ∷ b',' ∷ b':' ∷ b';' ∷ b'<' ∷ b'>' ∷ 34 ∷ 39 ∷ []

unfoldable pub scan_safe_string : Scan Bytes
scan_safe_string = skip_space >> get_token safe_delims safe_trims

-- NUL, newline and the slash
abbrev pub name_delims : Bytes
name_delims = 0 ∷ 10 ∷ b'/' ∷ []

unfoldable pub scan_filename : Scan Bytes
scan_filename = skip_space >> get_token name_delims []

-- `(offset/100)*60*60 + (offset%100)*60` on an int, whose division cuts towards zero
unfoldable pub seconds : ℕ → ℕ
seconds n = n / 100 * 60 * 60 + n % 100 * 60

unfoldable pub negated : ℕ → ℤ
negated zero = pos 0
negated (suc k) = negsuc k

unfoldable pub zone_offset : ℤ → ℤ
zone_offset (pos n) = pos (seconds n)
zone_offset (negsuc k) = negated (seconds (k + 1))

-- `%s<%s> %d %05d`
unfoldable pub scan_signature : Scan Signature
scan_signature = do
  name ← scan_safe_string
  u ← literal b'<'
  email ← scan_safe_string
  v ← literal b'>'
  w ← space
  unix ← scan_int none
  x ← space
  offset ← scan_int (some 5)
  pure (record { name = name; email = email; unix = unix; offset = zone_offset offset })
