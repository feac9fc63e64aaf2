-- ===== src/Protocol/Receive/Ends.antt =====
-- protocol/receive-pack.go: the loop of ReceivePack that reads commands ends, with the fuel that it is given.
use go_git_scm.Base.{
  ℕ, zero, suc, ◌+◌, ◌<◌, false, List, [], ◌∷◌, Option, some, length, ◌≡◌, ◌≢◌, ◌⊎◌, inl, inr, ap,
  arith, ◌==◌, Bool-cases, Option-cases,
}
use go_git_scm.Object.{Bytes, ObjectId}
use go_git_scm.Pktline
use go_git_scm.Pktline.{eof, unexpected_eof, too_long, Line, new_reader, read_line}
use go_git_scm.Repository.Mem.{Repo}
use go_git_scm.Packfile.Reader
use go_git_scm.Packfile.Reader.{Zlib}
use go_git_scm.Protocol.Capabilities.{CapList, capabilities, sub}
use go_git_scm.Protocol.Commands.{scan_command}
use go_git_scm.Protocol.Report.{ReceiveCmd}
use go_git_scm.Protocol.Negotiation.Rounds.{read_line-shorter, unfinished}
use go_git_scm.Protocol.Receive.{
  Error, out_of_fuel, Commands, commands, unreadable, add_command, line_error, read_round,
  read_commands, run_commands, receive_pack,
}

line_error-ends :
    (c : CapList) (r : Pktline.Reader) (e : Pktline.Error)
    → line_error c r e ≢ unreadable out_of_fuel
unfolding line_error
line_error-ends c r eof = λ at. absurd cc
line_error-ends c r unexpected_eof = λ at. absurd cc
line_error-ends c r too_long = λ at. absurd cc

add_command-ends :
    (cmd : ReceiveCmd) (found : Commands)
    → found ≢ unreadable out_of_fuel
    → add_command cmd found ≢ unreadable out_of_fuel
unfolding add_command
add_command-ends cmd (commands cmds c s) h = λ at. absurd cc
add_command-ends cmd (unreadable e) h = h

read_round-ends :
    (go : ReceiveCmd → CapList → Pktline.Reader → Commands) (c : CapList) (r : Pktline.Reader)
    (line : Line) (n : ℕ)
    → (length r.stream < n) ⊎ (line.error ≡ some unexpected_eof)
    → ((cmd : ReceiveCmd) (c' : CapList)
        → length r.stream < n
        → go cmd c' r ≢ unreadable out_of_fuel)
    → read_round go c (r, line) ≢ unreadable out_of_fuel
unfolding read_round
read_round-ends go c r line n less ends = elim (Option-cases line.error) [
  | inr (e, bad) ↦ rw (bad, read_round) (line_error-ends c r e)
  | inl fine ↦ elim (Option-cases (scan_command c line.text)) [
    | inl bad ↦ rw (fine, read_round, bad) (λ at. absurd cc)
    | inr (found, good) ↦
        rw (fine, read_round, good) (ends found.0 found.1 (unfinished r line n fine less))
  ]
]

read_commands-ends :
    (fuel : ℕ) (c : CapList) (r : Pktline.Reader)
    → length r.stream < fuel
    → read_commands fuel c r ≢ unreadable out_of_fuel
unfolding read_commands
read_commands-ends zero c r h = absurd (omega arith)
read_commands-ends (suc fuel) c r h =
    read_round-ends (λ cmd c2 r2. add_command cmd (read_commands fuel c2 r2)) c (read_line r).0
      (read_line r).1 (length r.stream) (read_line-shorter r)
      (λ cmd c2 less.
        add_command-ends cmd (read_commands fuel c2 (read_line r).0)
          (read_commands-ends fuel c2 (read_line r).0 (omega arith)))

module _ (sha1 : Bytes → ObjectId) (limit : ℕ) (spare spare' : List ℕ) {Z : Type 0} (zlib : Zlib Z)
    (error_text : Reader.Error → Bytes) where
  run_commands-ends :
      (repo : Repo) (cmds : List ReceiveCmd) (c : CapList) (s : Bytes)
      → (run_commands sha1 limit spare spare' zlib error_text repo cmds c s).2 ≢ some out_of_fuel
  unfolding run_commands
  run_commands-ends repo [] c s = λ at. absurd cc
  run_commands-ends repo (cmd ∷ cmds) c s = elim (Bool-cases (length (sub c capabilities) == 0)) [
    | inl fine ↦ rw (fine, run_commands) (λ at. absurd cc)
    | inr bad ↦ rw (bad, run_commands) (λ at. absurd cc)
  ]

  after_commands :
      (repo : Repo) (found : Commands)
      → found ≢ unreadable out_of_fuel
      → let p : Repo × Bytes × Option Error = elim found [
        | unreadable x ↦ (repo, [], some x)
        | commands all c rest ↦ run_commands sha1 limit spare spare' zlib error_text repo all c rest
      ] in
        p.2 ≢ some out_of_fuel
  after_commands repo (unreadable x) h =
      λ at. h (let same : x ≡ out_of_fuel = cc in ap unreadable same)
  after_commands repo (commands all c rest) h = run_commands-ends repo all c rest

  -- Whatever a client sends, the loop of ReceivePack that reads its commands ends within the rounds that it is given, one
  -- more than there are bytes.
  pub receive_pack-ne-out_of_fuel :
      (repo : Repo) (s : Bytes)
      → (receive_pack sha1 limit spare spare' zlib error_text repo s).2 ≢ some out_of_fuel
  unfolding receive_pack new_reader
  receive_pack-ne-out_of_fuel repo s =
      after_commands repo (read_commands (length s + 1) [] (record { stream = s; at_eof = false }))
        (read_commands-ends (length s + 1) [] (record { stream = s; at_eof = false }) (omega arith))
