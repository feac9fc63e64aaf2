-- ===== src/Pktline/RoundTrip.antt =====
-- Lines and flush-pkts that are written read back.
use go_git_scm.Base.{
  ℕ, ◌+◌, ◌*◌, ◌/◌, ◌%◌, ◌≤◌, ◌<◌, ◌≡◌, refl, ap, ◌∙◌, Bool, true, List, [], ◌∷◌, ◌++◌,
  append_assoc, some, none, pos, Result, ok, err, length, ◌==◌, ==_iff, arith, all_below,
  all_below_sound, take-append, drop-append, length-append, le→ltb, lt→ltb, ◌>>=◌, All,
}
use go_git_scm.Pktline.{
  Error, eof, too_long, max_payload_len, digit_value, less_four, read_line_len, hex_digit,
  write_line_len, Reader, read_payload, read_line, flush, write_line,
}

digit_table : all_below 16 (λ d. digit_value (hex_digit d) == d) ≡ true
unfolding all_below digit_value hex_digit
digit_table = refl

digit_value-hex_digit : (d : ℕ) → d < 16 → digit_value (hex_digit d) ≡ d
digit_value-hex_digit d h = (==_iff _ d).0 (all_below_sound 16 _ d digit_table h)

-- The four digits of every length that WriteLine sends give that length.
pub read-write_line_len :
    (x : ℕ) (rest : List ℕ)
    → x ≤ max_payload_len
    → read_line_len (write_line_len x ++ rest) ≡ (ok (pos x), rest)
unfolding read_line_len write_line_len less_four
read-write_line_len x rest h =
    let y = x + 4 in
    let sum : y / 4096 % 16 * 4096 + y / 256 % 16 * 256 + y / 16 % 16 * 16 + y % 16 ≡ y =
      omega arith in
    rw
      (
        digit_value-hex_digit (y / 4096 % 16) (omega arith),
        digit_value-hex_digit (y / 256 % 16) (omega arith),
        digit_value-hex_digit (y / 16 % 16) (omega arith),
        digit_value-hex_digit (y % 16) (omega arith),
      )
      (ground (arith, sum))

-- A line of at most MaxPayloadLen bytes is sent, behind four digits, and ReadLine returns it, with no
-- error and with what follows it unread.
pub read_line-write_line :
    (s rest : List ℕ) (at_eof : Bool)
    → length s ≤ max_payload_len
    → (bytes : List ℕ) × (write_line s ≡ ok bytes)
      × (length bytes ≡ length s + 4)
      × (read_line (record { stream = bytes ++ rest; at_eof = at_eof })
          ≡ (record { stream = rest; at_eof = at_eof }, record { text = s; error = none }))
unfolding write_line read_line read_payload
read_line-write_line s rest at_eof h = (
  write_line_len (length s) ++ s,
  rw (le→ltb max_payload_len (length s) h),
  unfold write_line_len in omega arith,
  rw (
    append_assoc (write_line_len (length s)) s rest,
    read-write_line_len (length s) (s ++ rest) h,
    drop-append s rest (length s) refl,
    take-append s rest (length s) refl,
    le→ltb (length (s ++ rest)) (length s) (omega (arith, length-append s rest)),
  ),
)

pub write_line-too_long : (s : List ℕ) → max_payload_len < length s → write_line s ≡ err too_long
unfolding write_line
write_line-too_long s h = rw (lt→ltb max_payload_len (length s) h)

-- The bytes of the lines `ls`, one WriteLine each, and of a Flush.
unfoldable pub sent : List (List ℕ) → Result Error (List ℕ)
sent [] = ok flush
sent (s ∷ ls) = do bytes ← write_line s; more ← sent ls; ok (bytes ++ more)

-- Calls of ReadLine return the lines `ls`, and the next one returns "", io.EOF.
abbrev pub Reads : Reader → List (List ℕ) → Reader → Type 0
Reads r [] r' = read_line r ≡ (r', record { text = []; error = some eof })
Reads r (s ∷ ls) r' =
    (r1 : Reader) × (read_line r ≡ (r1, record { text = s; error = none })) × Reads r1 ls r'

-- Lines of at most MaxPayloadLen bytes, empty ones too, and the flush-pkt behind them are read in order,
-- and what follows is left.
pub Reads-sent :
    (ls : List (List ℕ)) (rest : List ℕ) (at_eof : Bool)
    → All (λ s. length s ≤ max_payload_len) ls
    → (bytes : List ℕ) × (sent ls ≡ ok bytes)
      × Reads
          (record { stream = bytes ++ rest; at_eof = at_eof })
          ls
          (record { stream = rest; at_eof = true })
unfolding sent
Reads-sent [] rest at_eof h =
    (flush, refl, unfold read_line read_line_len read_payload digit_value less_four in refl)
Reads-sent (s ∷ ls) rest at_eof h =
    let (more, sends, reads) = Reads-sent ls rest at_eof h.1 in
    let (bytes, wrote, _, got) = read_line-write_line s (more ++ rest) at_eof h.0 in
    (
      bytes ++ more,
      rw (wrote, sends),
      (
        record { stream = more ++ rest; at_eof = at_eof },
        ap (λ t. read_line (record { stream = t; at_eof = at_eof })) (append_assoc bytes more rest)
            ∙ got,
        reads,
      ),
    )
