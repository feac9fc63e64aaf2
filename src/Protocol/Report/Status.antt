-- ===== src/Protocol/Report/Status.antt =====
-- protocol/receive-pack.go: what a client reads of the report.
use go_git_scm.Base.{
  ◌+◌, ◌≡◌, ◌≤◌, List, [], ◌∷◌, ◌++◌, Option, none, some, true, false, length, length-append, All,
  arith, ok, codes,
}
use go_git_scm.Object.{Bytes}
use go_git_scm.Repository.{
  Error, invalid_ref, ref_mismatch, ref_exist, ref_not_exist, object_not_exist,
}
use go_git_scm.Repository.Mem.{Repo, update_ref}
use go_git_scm.Repository.Mem.Swap.{Refusal, Outcome, refused, deleted, written, update_ref-Outcome}
use go_git_scm.Pktline.{max_payload_len}
use go_git_scm.Pktline.RoundTrip.{sent, Reads, Reads-sent}
use go_git_scm.Protocol.Lines.{send_lines, send_lines-sent}
use go_git_scm.Protocol.Report.{
  ReceiveCmd, error_string, status_line, update_all, unpack_line, report,
}

-- The commands in turn, from a repository to another, with a line for each: "ok" and the name, where the ref is deleted
-- or written, or "ng", the name and the reason, where there is one to refuse the update, which then changes nothing.
pub data IsReported : Repo → List ReceiveCmd → List Bytes → Repo → Type 0 where
  all_done : (r : Repo) → IsReported r [] [] r
  accepted :
      (r r' last : Repo) (c : ReceiveCmd) (cmds : List ReceiveCmd) (ls : List Bytes)
      → Outcome r c.name c.old_id c.new_id (r', none)
      → IsReported r' cmds ls last
      → IsReported r (c ∷ cmds) ((codes "ok " ++ c.name ++ codes "\n") ∷ ls) last
  rejected :
      (r last : Repo) (c : ReceiveCmd) (cmds : List ReceiveCmd) (ls : List Bytes) (e : Error)
      → Refusal r c.name c.old_id c.new_id e
      → IsReported r cmds ls last
      → IsReported r
          (c ∷ cmds)
          ((codes "ng " ++ c.name ++ codes " " ++ error_string e ++ codes "\n") ∷ ls)
          last

after_update :
    (r last : Repo) (c : ReceiveCmd) (cmds : List ReceiveCmd) (ls : List Bytes)
    {p : Repo × Option Error}
    → Outcome r c.name c.old_id c.new_id p
    → IsReported p.0 cmds ls last
    → IsReported r (c ∷ cmds) (status_line c.name p.1 ∷ ls) last
unfolding status_line
after_update r last c cmds ls (refused e bad) rest = rejected r last c cmds ls e bad rest
after_update r last c cmds ls (deleted valid at zero) rest =
    accepted r _ last c cmds ls (deleted valid at zero) rest
after_update r last c cmds ls (written obj valid at non_zero there) rest =
    accepted r _ last c cmds ls (written obj valid at non_zero there) rest

update_all-IsReported :
    (r : Repo) (cmds : List ReceiveCmd)
    → IsReported r cmds (update_all r cmds).1 (update_all r cmds).0
unfolding update_all
update_all-IsReported r [] = all_done r
update_all-IsReported r (c ∷ cmds) =
    let p = update_ref r c.name c.old_id c.new_id in
    after_update r (update_all p.0 cmds).0 c cmds (update_all p.0 cmds).1
      (update_ref-Outcome r c.name c.old_id c.new_id) (update_all-IsReported p.0 cmds)

error_string_le : (e : Error) → length (error_string e) ≤ 48
unfolding error_string
error_string_le invalid_ref = omega arith
error_string_le ref_mismatch = omega arith
error_string_le ref_exist = omega arith
error_string_le ref_not_exist = omega arith
error_string_le object_not_exist = omega arith

-- A name that came in a line with two IDs goes into the line of its status.
status_line_le :
    (name : Bytes) (e : Option Error)
    → length name + 82 ≤ max_payload_len
    → length (status_line name e) ≤ max_payload_len
unfolding status_line
status_line_le name none h = omega (arith, length-append (codes "ok " ++ name) (codes "\n"))
status_line_le name (some e) h =
    let named = codes "ng " ++ name in
    omega (
      arith,
      length-append (named ++ codes " " ++ error_string e) (codes "\n"),
      length-append (named ++ codes " ") (error_string e),
      length-append named (codes " "),
      error_string_le e,
    )

update_all_le :
    (r : Repo) (cmds : List ReceiveCmd)
    → All (λ (c : ReceiveCmd). length c.name + 82 ≤ max_payload_len) cmds
    → All (λ s. length s ≤ max_payload_len) (update_all r cmds).1
unfolding update_all
update_all_le r [] h = tt
update_all_le r (c ∷ cmds) (h, hs) =
    let p = update_ref r c.name c.old_id c.new_id in
    (status_line_le c.name p.1 h, update_all_le p.0 cmds hs)

same_bytes :
    (ls : List Bytes) (b : Bytes)
    → All (λ s. length s ≤ max_payload_len) ls
    → sent ls ≡ ok b
    → send_lines ls ≡ b
same_bytes ls b h e = let f = send_lines-sent ls h in cc

-- A client that asked for the report reads the outcome of the unpacking, and then for each command in its order "ok"
-- and the name, where the ref was deleted or written, or "ng", the name and the reason for which nothing was changed,
-- up to the flush-pkt: for names that fit into a line with two IDs and an outcome that fits into a line.
pub Reads-report :
    (unpacked : Option Bytes) (r : Repo) (cmds : List ReceiveCmd) (rest : Bytes)
    → length (unpack_line unpacked) ≤ max_payload_len
    → All (λ (c : ReceiveCmd). length c.name + 82 ≤ max_payload_len) cmds
    → (ls : List Bytes) × IsReported r cmds ls (report true unpacked r cmds).0
      × Reads
          (record { stream = (report true unpacked r cmds).1 ++ rest; at_eof = false })
          (unpack_line unpacked ∷ ls)
          (record { stream = rest; at_eof = true })
unfolding report
Reads-report unpacked r cmds rest small h =
    let ls = unpack_line unpacked ∷ (update_all r cmds).1 in
    let within : All (λ s. length s ≤ max_payload_len) ls = (small, update_all_le r cmds h) in
    let (bytes, sends, reads) = Reads-sent ls rest false within in
    (
      (update_all r cmds).1,
      update_all-IsReported r cmds,
      rw (same_bytes ls bytes within sends) reads,
    )
