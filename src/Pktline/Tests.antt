-- ===== src/Pktline/Tests.antt =====
-- Runs of the package pktline, and its theorems at concrete inputs.
use go_git_scm.Base.{ℕ, ◌≡◌, refl, true, false, List, [], ◌∷◌, ◌++◌, some, none, ok, arith, codes}
use go_git_scm.Pktline.{eof, flush, hex_digit, Reader, read_line, write_line_len, write_line}
use go_git_scm.Pktline.RoundTrip.{sent, Reads, Reads-sent}
use go_git_scm.Pktline.Malformed.{IsNoDigit, read_line-flush, read_line-no_digits}

write_line_run : write_line (codes "hi") ≡ ok (codes "0006hi")
unfolding write_line write_line_len hex_digit
write_line_run = refl

Reads-sent_example :
    (bytes : List ℕ) × (sent (codes "hi" ∷ [] ∷ []) ≡ ok bytes)
    × Reads
        (record { stream = bytes ++ (7 ∷ []); at_eof = false })
        (codes "hi" ∷ [] ∷ [])
        (record { stream = 7 ∷ []; at_eof = true })
Reads-sent_example = Reads-sent (codes "hi" ∷ [] ∷ []) (7 ∷ []) false (omega arith)

read_line-flush_example :
    (bytes : List ℕ) × (r : Reader) × (write_line (codes "hi") ≡ ok bytes)
    × (read_line (record { stream = flush ++ bytes ++ (7 ∷ []); at_eof = false })
        ≡ (r, record { text = []; error = some eof }))
    × ((read_line r).0.stream ≡ 7 ∷ [])
    × ((read_line r).1 ≡ record { text = codes "hi"; error = none })
read_line-flush_example = read_line-flush (codes "hi") (7 ∷ []) false (omega arith)

z-IsNoDigit : IsNoDigit b'z'
z-IsNoDigit = omega arith

read_line-no_digits_example :
    read_line (record { stream = codes "zzzz"; at_eof = false })
    ≡ (record { stream = []; at_eof = true }, record { text = []; error = some eof })
read_line-no_digits_example =
    read_line-no_digits b'z' b'z' b'z' b'z' [] false z-IsNoDigit z-IsNoDigit z-IsNoDigit z-IsNoDigit
