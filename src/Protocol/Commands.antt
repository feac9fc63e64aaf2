-- ===== src/Protocol/Commands.antt =====
-- What the protocol scans of the lines of a client: refName and Scan of CapList, and fmtLscanf with the formats
-- of receive-pack.go and upload-pack.go. A line counts as read if so many of its operands were scanned as its
-- reader asks for, whatever follows them.
use go_git_scm.Base.{
  ℕ, zero, suc, ◌%◌, Bool, true, false, not, ◌&&◌, ◌||◌, [], ◌∷◌, Option, none, some, length, leb,
  ◌==◌, if◌then◌else◌, codes,
}
use go_git_scm.Base.Map.{insert}
use go_git_scm.Fmt.Rune.{is_space}
use go_git_scm.Fmt.Scan.{
  Scan, Scanned, ◌>>=◌, ◌>>◌, pure, span, skip_space, token, literal, literals, space,
}
use go_git_scm.Object.{Bytes, ObjectId}
use go_git_scm.Object.Scan.{scan_id}
use go_git_scm.Protocol.Capabilities.{CapList}
use go_git_scm.Protocol.Report.{ReceiveCmd}

-- The runes of a refName: none below 0x20, and none of ` *:?[^~`.
unfoldable pub ref_rune : ℕ → Bool
ref_rune r =
    leb 0x20 r
    && not (
        r == b' '
        || (r == b'*' || (r == b':' || (r == b'?' || (r == b'[' || (r == b'^' || r == b'~'))))))

unfoldable pub scan_ref_name : Scan Bytes
scan_ref_name = skip_space >> token ref_rune

-- The loop of Scan: it ends at the end of the line, at a newline too, and each round reads a byte at least.
unfoldable pub scan_caps_loop : ℕ → CapList → Bytes → CapList
scan_caps_loop zero c s = c
scan_caps_loop (suc fuel) c s =
    let skipped = skip_space s in
    let word = span (λ r. not (is_space r)) skipped.1 in
    let more = scan_caps_loop fuel (insert word.0 true c) word.1 in
    elim (skipped.0) [ none ↦ c | some u ↦ if length word.0 == 0 then c else more ]

unfoldable pub scan_caps : CapList → Bytes → CapList
scan_caps c s = scan_caps_loop (length s) c s

-- `%s %s %s` of the IDs and the name
unfoldable pub scan_update : Scan ReceiveCmd
scan_update = do
  old_id ← scan_id
  u ← space
  new_id ← scan_id
  v ← space
  name ← scan_ref_name
  pure (record { old_id = old_id; new_id = new_id; name = name })

-- The fourth operand behind a step of the format: the listing is as before if the step fails.
unfoldable pub caps_after : {A : Type 0} → Scanned A → CapList → CapList
caps_after (none, s) c = c
caps_after (some a, s) c = scan_caps c s

-- A line of ReceivePack, `%s %s %s\x00%s`: none if fewer than three operands are scanned.
unfoldable pub accept_command : CapList → Scanned ReceiveCmd → Option (ReceiveCmd × CapList)
accept_command c (none, rest) = none
accept_command c (some cmd, rest) = some (cmd, caps_after (literal 0 rest) c)

unfoldable pub scan_command : CapList → Bytes → Option (ReceiveCmd × CapList)
scan_command c s = accept_command c (scan_update s)

-- A line of UploadPack, `want %s %s`: none if the ID is not scanned.
unfoldable pub accept_want : CapList → Scanned ObjectId → Option (ObjectId × CapList)
accept_want c (none, rest) = none
accept_want c (some id, rest) = some (id, caps_after (space rest) c)

unfoldable pub scan_want : CapList → Bytes → Option (ObjectId × CapList)
scan_want c s = accept_want c ((literals (codes "want") >> space >> scan_id) s)

-- A line of readHaveLines, `%s %s`: nothing at all, an error before a word, a word and an error, and a word and
-- an ID. The error behind a word is io.ErrUnexpectedEOF if the line ends where a digit is asked for.
pub data HaveLine : Type 0 where
  nothing no_word : HaveLine
  word : Bytes → Bool → HaveLine
  word_and_id : Bytes → ObjectId → HaveLine

unfoldable pub hex_rune : ℕ → Bool
hex_rune r =
    (leb b'0' r && leb r b'9') || ((leb b'a' r && leb r b'f') || (leb b'A' r && leb r b'F'))

-- Where an ID was not scanned: no digits, or half a byte, and nothing behind them.
unfoldable pub ends_early : Scanned (Unit {0}) → Bool
ends_early (none, s) = false
ends_early (some u, s) =
    let digits = span hex_rune s in
    length digits.1 == 0 && (length digits.0 == 0 || length digits.0 % 2 == 1)

unfoldable pub have_id : Bytes → Bytes → HaveLine
have_id cmd s = elim ((space >> scan_id) s).0 [
  | none ↦ word cmd (ends_early (space s))
  | some id ↦ word_and_id cmd id
]

unfoldable pub have_word : Bytes → HaveLine
have_word [] = nothing
have_word (c ∷ s) = let cmd = span (λ r. not (is_space r)) (c ∷ s) in have_id cmd.0 cmd.1

unfoldable pub scan_have : Bytes → HaveLine
scan_have s =
    let (found, rest) = skip_space s in elim found [ none ↦ no_word | some u ↦ have_word rest ]
