-- ===== src/Pktline/Malformed.antt =====
-- ReadLine on streams that no Writer sends.
use go_git_scm.Base.{
  ℕ, none, ap, codes, All, ◌≢◌, ◌≤◌, ◌<◌, ◌≡◌, refl, Bool, true, List, [], ◌∷◌, ◌++◌, some, ok,
  length, arith, lt→ltb, take-all,
}
use go_git_scm.Pktline.{
  eof, unexpected_eof, max_payload_len, digit_value, less_four, read_line_len, write_line_len,
  write_line, flush, Reader, read_payload, read_line,
}
use go_git_scm.Pktline.RoundTrip.{read-write_line_len, read_line-write_line}

-- After a flush-pkt, of which ReadLine returns "", io.EOF, the next ReadLine returns the line behind it and leaves what
-- follows, for a line of at most MaxPayloadLen bytes, though Next is not called in between.
pub read_line-flush :
    (s rest : List ℕ) (at_eof : Bool)
    → length s ≤ max_payload_len
    → (bytes : List ℕ) × (r : Reader) × (write_line s ≡ ok bytes)
      × (read_line (record { stream = flush ++ bytes ++ rest; at_eof = at_eof })
          ≡ (r, record { text = []; error = some eof }))
      × ((read_line r).0.stream ≡ rest)
      × ((read_line r).1 ≡ record { text = s; error = none })
read_line-flush s rest at_eof h =
    let (bytes, wrote, size, reads) = read_line-write_line s rest true h in
    (
      bytes,
      record { stream = bytes ++ rest; at_eof = true },
      wrote,
      unfold read_line read_line_len read_payload digit_value less_four in refl,
      ap (λ p. p.0.stream) reads,
      ap (λ p. p.1) reads,
    )

-- A stream that ends within a length is an unexpected end.
pub read_line-short :
    (bytes : List ℕ) (at_eof : Bool)
    → length bytes < 4
    → read_line (record { stream = bytes; at_eof = at_eof })
      ≡ (record { stream = []; at_eof = at_eof }, record { text = []; error = some unexpected_eof })
unfolding read_line read_line_len read_payload
read_line-short [] at_eof h = refl
read_line-short (a ∷ []) at_eof h = refl
read_line-short (a ∷ b ∷ []) at_eof h = refl
read_line-short (a ∷ b ∷ c ∷ []) at_eof h = refl
read_line-short (a ∷ b ∷ c ∷ d ∷ r) at_eof h = absurd (omega arith)

-- A stream that ends within a line gives what there is of it, and an unexpected end.
pub read_line-cut :
    (x : ℕ) (bytes : List ℕ) (at_eof : Bool)
    → x ≤ max_payload_len
    → length bytes < x
    → (read_line (record { stream = write_line_len x ++ bytes; at_eof = at_eof })).1
      ≡ record { text = bytes; error = some unexpected_eof }
unfolding read_line read_payload
read_line-cut x bytes at_eof hx h =
    rw (read-write_line_len x bytes hx, lt→ltb (length bytes) x h, take-all bytes x (omega arith))

-- None of the hexadecimal digits, of either case.
abbrev pub IsNoDigit : ℕ → Type 0
IsNoDigit c = All (λ d. c ≢ d) (codes "0123456789abcdefABCDEF")

no_value : (c : ℕ) → IsNoDigit c → digit_value c ≡ 0
unfolding digit_value
no_value c h = ground arith

-- Four bytes that are no hexadecimal digits are not refused: ReadLine takes them for a flush-pkt.
pub read_line-no_digits :
    (a b c d : ℕ) (rest : List ℕ) (at_eof : Bool)
    → IsNoDigit a
    → IsNoDigit b
    → IsNoDigit c
    → IsNoDigit d
    → read_line (record { stream = a ∷ b ∷ c ∷ d ∷ rest; at_eof = at_eof })
      ≡ (record { stream = rest; at_eof = true }, record { text = []; error = some eof })
unfolding read_line read_line_len read_payload less_four
read_line-no_digits a b c d rest at_eof ha hb hc hd =
    rw (no_value a ha, no_value b hb, no_value c hc, no_value d hd) refl
