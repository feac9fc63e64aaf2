-- ===== src/Protocol/Lines.antt =====
-- protocol/fmt.go: lines that are sent with their errors ignored.
use go_git_scm.Base.{◌≤◌, ◌≡◌, refl, List, [], ◌∷◌, ◌++◌, ok, err, length, All, ap, ◌∙◌, false, sym}
use go_git_scm.Object.{Bytes}
use go_git_scm.Pktline.{write_line, flush, max_payload_len}
use go_git_scm.Pktline.RoundTrip.{sent, read_line-write_line}

-- WriteLine, whose error no caller looks at: a line that is too long sends nothing.
unfoldable pub send_line : Bytes → Bytes
send_line s = elim (write_line s) [ ok bytes ↦ bytes | err e ↦ [] ]

-- The lines in order, and Flush.
unfoldable pub send_lines : List Bytes → Bytes
send_lines [] = flush
send_lines (s ∷ ls) = send_line s ++ send_lines ls

send_line_lem : (s : Bytes) → length s ≤ max_payload_len → write_line s ≡ ok (send_line s)
unfolding send_line
send_line_lem s h =
    let (bytes, wrote, _, _) = read_line-write_line s [] false h in
    wrote ∙ ap ok (sym (rw (wrote, send_line) refl))

-- Lines within bounds are sent as they are with the errors looked at.
pub send_lines-sent :
    (ls : List Bytes) → All (λ s. length s ≤ max_payload_len) ls → sent ls ≡ ok (send_lines ls)
unfolding send_lines sent
send_lines-sent [] h = refl
send_lines-sent (s ∷ ls) h = rw (send_line_lem s h.0, send_lines-sent ls h.1) refl
