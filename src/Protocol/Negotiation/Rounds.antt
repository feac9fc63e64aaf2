-- ===== src/Protocol/Negotiation/Rounds.antt =====
-- protocol/upload-pack.go: the loops that read a client end, with the fuel that UploadPack gives them.
use go_git_scm.Base.{
  ℕ, zero, suc, ◌≤◌, ◌<◌, Bool, false, List, [], ◌∷◌, none, some, Result, ok, err, ℤ, pos, negsuc,
  length, ◌≡◌, ◌≢◌, ◌⊎◌, inl, inr, refl, arith, length-drop, codes, Bool-cases, Option-cases,
  bytes_eq,
}
use go_git_scm.Base.Map.{insert}
use go_git_scm.Object.{Bytes, ObjectId}
use go_git_scm.Pktline
use go_git_scm.Pktline.{
  eof, unexpected_eof, too_long, Line, new_reader, next, read_line, read_line_len, read_payload,
}
use go_git_scm.Protocol.Commands.{
  scan_want, scan_have, HaveLine, nothing, no_word, word, word_and_id,
}
use go_git_scm.Protocol.Upload.{
  Error, out_of_rounds, Wants, want_error, want_round, read_wants, Ending, flushed, done, broken,
  Haves, have_line, have_error, have_round, read_have_lines,
}

payload_le :
    (r : Pktline.Reader) (n : ℤ) (rest : Bytes)
    → length (read_payload r (ok n, rest)).0.stream ≤ length rest
unfolding read_payload
payload_le r (negsuc k) rest = omega arith
payload_le r (pos n) rest = omega (arith, length-drop n rest)

shorter :
    (r : Pktline.Reader) (s : Bytes)
    → (length (read_payload r (read_line_len s)).0.stream < length s)
      ⊎ ((read_payload r (read_line_len s)).1.error ≡ some unexpected_eof)
unfolding read_line_len read_payload
shorter r [] = inr refl
shorter r (a ∷ []) = inr refl
shorter r (a ∷ b ∷ []) = inr refl
shorter r (a ∷ b ∷ c ∷ []) = inr refl
shorter r (a ∷ b ∷ c ∷ d ∷ s) = inl (omega (arith, payload_le r _ s))

-- A line, or a flush-pkt, takes a byte at least, or the stream has ended.
pub read_line-shorter :
    (r : Pktline.Reader)
    → (length (read_line r).0.stream < length r.stream)
      ⊎ ((read_line r).1.error ≡ some unexpected_eof)
unfolding read_line
read_line-shorter r = shorter r r.stream

want_error-ends :
    {E : Type 0} (w : Wants) (r : Pktline.Reader) (e : Pktline.Error)
    → want_error {E = E} w r e ≢ err out_of_rounds
unfolding want_error
want_error-ends w r eof = λ at. absurd cc
want_error-ends w r unexpected_eof = λ at. absurd cc
want_error-ends w r too_long = λ at. absurd cc

-- A line without an error takes a byte at least.
pub unfinished :
    (r : Pktline.Reader) (line : Line) (n : ℕ)
    → line.error ≡ none
    → (length r.stream < n) ⊎ (line.error ≡ some unexpected_eof)
    → length r.stream < n
unfinished r line n fine (inl h) = h
unfinished r line n fine (inr h) = absurd cc

want_round-ends :
    {E : Type 0} (go : Wants → Pktline.Reader → Result (Error E) Wants) (w : Wants)
    (r : Pktline.Reader) (line : Line) (n : ℕ)
    → (length r.stream < n) ⊎ (line.error ≡ some unexpected_eof)
    → ((w' : Wants) (r' : Pktline.Reader) → length r'.stream < n → go w' r' ≢ err out_of_rounds)
    → want_round go w (r, line) ≢ err out_of_rounds
unfolding want_round
want_round-ends go w r line n less ends = elim (Option-cases line.error) [
  | inr (e, bad) ↦ rw (bad, want_round) (want_error-ends w r e)
  | inl fine ↦ elim (Option-cases (scan_want w.caps line.text)) [
    | inl bad ↦ rw (fine, want_round, bad) (λ at. absurd cc)
    | inr (found, good) ↦ rw (fine, want_round, good) (ends _ r (unfinished r line n fine less))
  ]
]

pub read_wants-ends :
    {E : Type 0} (fuel : ℕ) (w : Wants) (r : Pktline.Reader)
    → length r.stream < fuel
    → read_wants {E = E} fuel w r ≢ err out_of_rounds
unfolding read_wants
read_wants-ends zero w r h = absurd (omega arith)
read_wants-ends {E = E} (suc fuel) w r h =
    want_round-ends (λ w2 r2. read_wants {E = E} fuel w2 r2) w (read_line r).0 (read_line r).1
      (length r.stream) (read_line-shorter r) (λ w2 r2 h2. read_wants-ends fuel w2 r2 (omega arith))

-- What readHaveLines returns is no lack of fuel, and it has taken a byte at least if it returns no other error.
abbrev pub IsEnd : {E : Type 0} → ℕ → ℕ → Ending E → Type 0
IsEnd m n flushed = m < n
IsEnd m n done = m < n
IsEnd m n (broken e) = e ≢ out_of_rounds

abbrev pub IsRead : {E : Type 0} → ℕ → Haves E → Type 0
IsRead n h = IsEnd (length h.rest.stream) n h.ending

have_error-IsEnd :
    (E : Type 0) (r : Pktline.Reader) (line : Line) (n : ℕ) (e : Pktline.Error)
    → line.error ≡ some e
    → (length r.stream < n) ⊎ (line.error ≡ some unexpected_eof)
    → IsEnd {E = E} (length r.stream) n (have_error e)
unfolding have_error
have_error-IsEnd E r line n eof bad (inl h) = h
have_error-IsEnd E r line n eof bad (inr h) = absurd cc
have_error-IsEnd E r line n unexpected_eof bad h = λ at. absurd cc
have_error-IsEnd E r line n too_long bad h = λ at. absurd cc

have_line-IsRead :
    {E : Type 0} (go : List (ObjectId × Bool) → Haves E) (have : List (ObjectId × Bool))
    (r : Pktline.Reader) (l : HaveLine) (n : ℕ)
    → length r.stream < n
    → ((more : List (ObjectId × Bool)) → IsRead n (go more))
    → IsRead n (have_line go have r l)
unfolding have_line
have_line-IsRead go have r nothing n less ends = less
have_line-IsRead go have r no_word n less ends = λ at. absurd cc
have_line-IsRead go have r (word cmd early) n less ends =
    elim (Bool-cases (bytes_eq cmd (codes "done"))) [
      | inl yes_done ↦ rw (yes_done, have_line) less
      | inr other ↦ elim (Bool-cases early) [
        | inl soon ↦ rw (other, have_line, soon) (λ at. absurd cc)
        | inr late ↦ rw (other, have_line, late) (λ at. absurd cc)
      ]
    ]
have_line-IsRead go have r (word_and_id cmd id) n less ends =
    elim (Bool-cases (bytes_eq cmd (codes "have"))) [
      | inl yes_have ↦ rw (yes_have, have_line) (ends (insert id false have))
      | inr other ↦ rw (other, have_line) (λ at. absurd cc)
    ]

have_round-IsRead :
    {E : Type 0} (go : List (ObjectId × Bool) → Pktline.Reader → Haves E)
    (have : List (ObjectId × Bool)) (r : Pktline.Reader) (line : Line) (n : ℕ)
    → (length r.stream < n) ⊎ (line.error ≡ some unexpected_eof)
    → ((more : List (ObjectId × Bool)) → length r.stream < n → IsRead n (go more r))
    → IsRead n (have_round go have (r, line))
unfolding have_round
have_round-IsRead {E = E} go have r line n less ends = elim (Option-cases line.error) [
  | inr (e, bad) ↦ rw (bad, have_round) (have_error-IsEnd E r line n e bad less)
  | inl fine ↦
      let left = unfinished r line n fine less in
      rw (fine, have_round)
        (have_line-IsRead (λ more. go more r) have r (scan_have line.text) n left
          (λ more. ends more left))
]

IsEnd-le : {E : Type 0} (k m n : ℕ) (e : Ending E) → m ≤ n → IsEnd k m e → IsEnd k n e
IsEnd-le k m n flushed le h = omega arith
IsEnd-le k m n done le h = omega arith
IsEnd-le k m n (broken e) le h = h

pub read_have_lines-IsRead :
    (E : Type 0) (fuel : ℕ) (have : List (ObjectId × Bool)) (r : Pktline.Reader)
    → length r.stream < fuel
    → IsRead {E = E} (length r.stream) (read_have_lines fuel have r)
unfolding read_have_lines
read_have_lines-IsRead E zero have r h = absurd (omega arith)
read_have_lines-IsRead E (suc fuel) have r h =
    have_round-IsRead (λ more r2. read_have_lines {E = E} fuel more r2) have (read_line r).0
      (read_line r).1 (length r.stream) (read_line-shorter r)
      (λ more less.
        let found = read_have_lines {E = E} fuel more (read_line r).0 in
        IsEnd-le (length found.rest.stream) (length (read_line r).0.stream) (length r.stream)
          found.ending (omega arith)
          (read_have_lines-IsRead E fuel more (read_line r).0 (omega arith)))
