-- ===== src/Protocol/Receive/Sent.antt =====
-- protocol/receive-pack.go: what ReceivePack reads of the lines that a client sends.
use go_git_scm.Base.{
  ℕ, zero, suc, ◌+◌, ◌≤◌, ◌<◌, true, false, List, [], ◌∷◌, ◌++◌, Option, none, some, length, All,
  map, ◌≡◌, refl, sym, ap, ◌∙◌, inl, inr, Bool-cases, arith, length-append, length-map,
  append_assoc, append-nil, ◌==◌,
}
use go_git_scm.Fmt.Rune.{is_space}
use go_git_scm.Fmt.Scan.{literal}
use go_git_scm.Fmt.Rune.{read_rune}
use go_git_scm.Fmt.Reads.{IsAscii, Stops, token_lem, skip_space_lem, space_lem, literal_lem}
use go_git_scm.Object.{Bytes, ObjectId}
use go_git_scm.Object.Print.{id_string}
use go_git_scm.Object.Scan.Text.{IsId, Stops-id_string, scan_id-id_string}
use go_git_scm.Pktline.{
  eof, read_line, new_reader, write_line, flush, max_payload_len, read_line_len, read_payload,
  digit_value, less_four,
}
use go_git_scm.Pktline
use go_git_scm.Pktline.RoundTrip.{read_line-write_line}
use go_git_scm.Protocol.Capabilities.{CapList, capabilities, sub}
use go_git_scm.Repository.Mem.{Repo}
use go_git_scm.Packfile.Reader
use go_git_scm.Packfile.Reader.{Zlib}
use go_git_scm.Protocol.Lines.{send_line, send_lines}
use go_git_scm.Protocol.Report.{ReceiveCmd}
use go_git_scm.Protocol.Commands.{
  ref_rune, scan_ref_name, scan_update, scan_caps, caps_after, accept_command, scan_command,
}
use go_git_scm.Protocol.Receive.{
  Commands, commands, add_command, line_error, read_round, unreadable, bad_line, read_commands,
  run_commands, receive_pack, Error,
}

-- IDs of twenty bytes, and a name of the ASCII characters that a refName may have.
pub record IsCommand (cmd : ReceiveCmd) : Type 0 where
  pub old_id : IsId cmd.old_id
  pub new_id : IsId cmd.new_id
  pub name : All (λ c. IsAscii c × (ref_rune c ≡ true)) cmd.name

-- The line of an update: the IDs and the name.
abbrev pub update_text : ReceiveCmd → Bytes
update_text cmd = id_string cmd.old_id ++ (32 ∷ (id_string cmd.new_id ++ (32 ∷ cmd.name)))

-- The first line, with the capabilities behind a zero byte.
abbrev pub first_text : ReceiveCmd → Bytes → Bytes
first_text cmd caps = update_text cmd ++ (0 ∷ caps)

no_space : (c : ℕ) → IsAscii c → ref_rune c ≡ true → is_space c ≡ false
unfolding ref_rune is_space
no_space c small h = ground arith

Stops-name :
    (name ys : Bytes)
    → All (λ c. IsAscii c × (ref_rune c ≡ true)) name
    → Stops is_space ys
    → Stops is_space (name ++ ys)
Stops-name [] ys h stop = stop
Stops-name (c ∷ name) ys ((small, good), h) stop = (small, no_space c small good)

scan_update_lem :
    (cmd : ReceiveCmd) (ys : Bytes)
    → IsCommand cmd
    → Stops ref_rune ys
    → Stops is_space ys
    → scan_update (update_text cmd ++ ys) ≡ (some cmd, ys)
unfolding scan_update scan_ref_name
scan_update_lem cmd ys h stop stop' =
    let name_there = Stops-name cmd.name ys h.name stop' in
    let text = update_text cmd in
    rw
      (
        append_assoc (id_string cmd.old_id) (32 ∷ (id_string cmd.new_id ++ (32 ∷ cmd.name))) ys,
        append_assoc (id_string cmd.new_id) (32 ∷ cmd.name) ys,
        scan_id-id_string cmd.old_id (32 ∷ (id_string cmd.new_id ++ (32 ∷ (cmd.name ++ ys))))
            h.old_id,
        space_lem (id_string cmd.new_id ++ (32 ∷ (cmd.name ++ ys)))
            (Stops-id_string cmd.new_id (32 ∷ (cmd.name ++ ys)) h.new_id),
        scan_id-id_string cmd.new_id (32 ∷ (cmd.name ++ ys)) h.new_id,
        space_lem (cmd.name ++ ys) name_there,
        skip_space_lem (cmd.name ++ ys) name_there,
        token_lem ref_rune cmd.name ys h.name stop,
      )
      refl

scan_first :
    (c : CapList) (cmd : ReceiveCmd) (caps : Bytes)
    → IsCommand cmd
    → scan_command c (first_text cmd caps) ≡ some (cmd, scan_caps c caps)
unfolding scan_command accept_command caps_after
scan_first c cmd caps h =
    let zero_stops : Stops ref_rune (0 ∷ caps) = (omega arith, unfold ref_rune in ground arith) in
    let zero_is_none : Stops is_space (0 ∷ caps) = (omega arith, unfold is_space in ground arith) in
    ap (accept_command c) (scan_update_lem cmd (0 ∷ caps) h zero_stops zero_is_none)
    ∙ ap (λ step. some (cmd, caps_after step c)) (literal_lem 0 caps (omega arith))

scan_other :
    (c : CapList) (cmd : ReceiveCmd)
    → IsCommand cmd
    → scan_command c (update_text cmd) ≡ some (cmd, c)
unfolding scan_command accept_command caps_after literal read_rune
scan_other c cmd h =
    ap (λ s. accept_command c (scan_update s)) (sym (append-nil (update_text cmd)))
    ∙ ap (accept_command c) (scan_update_lem cmd [] h tt tt)

-- A line that is sent is read.
pub read_line-send_line :
    (s rest : Bytes)
    → length s ≤ max_payload_len
    → (length (send_line s) ≡ length s + 4)
      × (read_line (record { stream = send_line s ++ rest; at_eof = false })
          ≡ (record { stream = rest; at_eof = false }, record { text = s; error = none }))
unfolding send_line
read_line-send_line s rest h =
    let (bytes, wrote, size, reads) = read_line-write_line s rest false h in
    let is_sent : send_line s ≡ bytes = rw (wrote, send_line) refl in
    (
      ap length is_sent ∙ size,
      ap (λ b. read_line (record { stream = b ++ rest; at_eof = false })) is_sent ∙ reads,
    )

-- What is left of the stream behind the lines, and how many bytes they have.
pub length-send_lines :
    (ls : List Bytes)
    → All (λ s. length s ≤ max_payload_len) ls
    → length ls < length (send_lines ls)
unfolding send_lines
length-send_lines [] h = omega arith
length-send_lines (s ∷ ls) (h, hs) = omega (
  arith,
  length-append (send_line s) (send_lines ls),
  (read_line-send_line s [] h).0,
  length-send_lines ls hs,
)

read_commands-flush :
    (fuel : ℕ) (c : CapList) (rest : Bytes)
    → read_commands (suc fuel) c (record { stream = flush ++ rest; at_eof = false })
      ≡ commands [] c rest
unfolding read_commands line_error read_line read_line_len read_payload digit_value less_four
    read_round
read_commands-flush fuel c rest = refl

read_commands-line :
    (fuel : ℕ) (c c' : CapList) (cmd : ReceiveCmd) (s rest : Bytes)
    → length s ≤ max_payload_len
    → scan_command c s ≡ some (cmd, c')
    → read_commands (suc fuel) c (record { stream = send_line s ++ rest; at_eof = false })
      ≡ add_command cmd (read_commands fuel c' (record { stream = rest; at_eof = false }))
unfolding read_commands read_round
read_commands-line fuel c c' cmd s rest h e =
    let next : ReceiveCmd → CapList → Pktline.Reader → Commands =
      λ d c2 r. add_command d (read_commands fuel c2 r) in
    let after_line : Pktline.Reader = record { stream = rest; at_eof = false } in
    ap (read_round next c) (read_line-send_line s rest h).1
    ∙ ap (λ found. elim found [ none ↦ unreadable bad_line | some d ↦ next d.0 d.1 after_line ]) e

read_commands-updates :
    (fuel : ℕ) (c : CapList) (cmds : List ReceiveCmd) (rest : Bytes)
    → All IsCommand cmds
    → All (λ s. length s ≤ max_payload_len) (map update_text cmds)
    → length cmds < fuel
    → read_commands fuel c
        (record { stream = send_lines (map update_text cmds) ++ rest; at_eof = false })
      ≡ commands cmds c rest
unfolding send_lines add_command
read_commands-updates zero c cmds rest h small enough = absurd (omega arith)
read_commands-updates (suc fuel) c [] rest h small enough = read_commands-flush fuel c rest
read_commands-updates (suc fuel) c (cmd ∷ cmds) rest (h, hs) (small, smalls) enough =
    let others = send_lines (map update_text cmds) in
    ap (λ s. read_commands (suc fuel) c (record { stream = s; at_eof = false }))
      (append_assoc (send_line (update_text cmd)) others rest)
    ∙ read_commands-line fuel c c cmd (update_text cmd) (others ++ rest) small (scan_other c cmd h)
    ∙ ap (add_command cmd) (read_commands-updates fuel c cmds rest hs smalls (omega arith))

-- What a client sends before its packfile: the updates, with its capabilities behind the first.
abbrev pub pushed : ReceiveCmd → Bytes → List ReceiveCmd → Bytes
pushed cmd caps cmds = send_lines (first_text cmd caps ∷ map update_text cmds)

read_commands-pushed :
    (fuel : ℕ) (cmd : ReceiveCmd) (caps : Bytes) (cmds : List ReceiveCmd) (rest : Bytes)
    → All IsCommand (cmd ∷ cmds)
    → All (λ s. length s ≤ max_payload_len) (first_text cmd caps ∷ map update_text cmds)
    → length cmds + 1 < fuel
    → read_commands fuel [] (new_reader (pushed cmd caps cmds ++ rest))
      ≡ commands (cmd ∷ cmds) (scan_caps [] caps) rest
unfolding send_lines add_command new_reader
read_commands-pushed zero cmd caps cmds rest h small enough = absurd (omega arith)
read_commands-pushed (suc fuel) cmd caps cmds rest (h, hs) (small, smalls) enough =
    let others = send_lines (map update_text cmds) in
    let c = scan_caps [] caps in
    ap (λ s. read_commands (suc fuel) [] (record { stream = s; at_eof = false }))
      (append_assoc (send_line (first_text cmd caps)) others rest)
    ∙ read_commands-line fuel [] c cmd (first_text cmd caps) (others ++ rest) small
        (scan_first [] cmd caps h)
    ∙ ap (add_command cmd) (read_commands-updates fuel c cmds rest hs smalls (omega arith))

module _ (sha1 : Bytes → ObjectId) (limit : ℕ) (spare spare' : List ℕ) {Z : Type 0} (zlib : Zlib Z)
    (error_text : Reader.Error → Bytes) where
  run_commands-error :
      (repo : Repo) (cmds : List ReceiveCmd) (c : CapList) (s : Bytes) (e : Error)
      → (run_commands sha1 limit spare spare' zlib error_text repo cmds c s).2 ≡ some e
      → ((run_commands sha1 limit spare spare' zlib error_text repo cmds c s).0 ≡ repo)
        × ((run_commands sha1 limit spare spare' zlib error_text repo cmds c s).1 ≡ [])
  unfolding run_commands
  run_commands-error repo [] c s e = λ at. absurd cc
  run_commands-error repo (cmd ∷ cmds) c s e =
      elim (Bool-cases (length (sub c capabilities) == 0)) [
        | inl fine ↦ rw (fine, run_commands) (λ at. absurd cc)
        | inr bad ↦ rw (bad, run_commands) (λ at. (refl, refl))
      ]

  error_changes_nothing :
      (repo : Repo) (found : Commands) (e : Error)
      → let p : Repo × Bytes × Option Error = elim found [
        | unreadable x ↦ (repo, [], some x)
        | commands all c rest ↦ run_commands sha1 limit spare spare' zlib error_text repo all c rest
      ] in
        p.2 ≡ some e → (p.0 ≡ repo) × (p.1 ≡ [])
  error_changes_nothing repo (unreadable x) e at = (refl, refl)
  error_changes_nothing repo (commands all c rest) e at = run_commands-error repo all c rest e at

  -- Of the updates and capabilities that a client sends, with a packfile behind them, ReceivePack runs those
  -- updates with those capabilities on that packfile, if the IDs have twenty bytes, the names are of ASCII characters
  -- of a refname, and the lines are within bounds.
  pub receive_pack-pushed :
      (repo : Repo) (cmd : ReceiveCmd) (caps : Bytes) (cmds : List ReceiveCmd) (pack : Bytes)
      → All IsCommand (cmd ∷ cmds)
      → All (λ s. length s ≤ max_payload_len) (first_text cmd caps ∷ map update_text cmds)
      → receive_pack sha1 limit spare spare' zlib error_text repo (pushed cmd caps cmds ++ pack)
        ≡ run_commands sha1 limit spare spare' zlib error_text repo
            (cmd ∷ cmds)
            (scan_caps [] caps)
            pack
  unfolding receive_pack
  receive_pack-pushed repo cmd caps cmds pack h small =
      let s = pushed cmd caps cmds ++ pack in
      let enough : length cmds + 1 < length s + 1 = omega (
        arith,
        length-append (pushed cmd caps cmds) pack,
        length-send_lines (first_text cmd caps ∷ map update_text cmds) small,
        length-map update_text cmds,
      ) in
      ap
        (λ found. elim found [
          | unreadable e ↦ (repo, [], some e)
          | commands all c rest ↦
              run_commands sha1 limit spare spare' zlib error_text repo all c rest
        ])
        (read_commands-pushed (length s + 1) cmd caps cmds pack h small enough)

  -- If ReceivePack returns an error, it has sent nothing and left the repository as it was.
  pub receive_pack-error :
      (repo : Repo) (s : Bytes) (e : Error)
      → (receive_pack sha1 limit spare spare' zlib error_text repo s).2 ≡ some e
      → ((receive_pack sha1 limit spare spare' zlib error_text repo s).0 ≡ repo)
        × ((receive_pack sha1 limit spare spare' zlib error_text repo s).1 ≡ [])
  unfolding receive_pack
  receive_pack-error repo s e =
      error_changes_nothing repo (read_commands (length s + 1) [] (new_reader s)) e
