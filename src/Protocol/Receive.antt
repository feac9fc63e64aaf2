-- ===== src/Protocol/Receive.antt =====
-- protocol/receive-pack.go: ReceivePack on a repository in memory. `error_text` is what an error of unpack prints as,
-- and the other parameters are those of unpack.
pub mod Sent
pub mod Ends
pub mod Valid
pub mod Others
mod Tests
use go_git_scm.Base.{
  ℕ, zero, suc, ◌+◌, Bool, true, false, not, ◌&&◌, List, [], ◌∷◌, ◌++◌, Option, none, some, length,
  ◌==◌, codes, bytes_eq, if◌then◌else◌,
}
use go_git_scm.Object.{Bytes, ObjectId, zero_id}
use go_git_scm.Pktline
use go_git_scm.Pktline.{eof, unexpected_eof, too_long, Line, new_reader, read_line}
use go_git_scm.Repository.Mem.{Repo}
use go_git_scm.Packfile.Reader
use go_git_scm.Packfile.Reader.{Zlib}
use go_git_scm.Packfile.Reader.Stores.{mem_store}
use go_git_scm.Protocol.Capabilities.{CapList, capabilities, has, sub}
use go_git_scm.Protocol.Commands.{scan_command}
use go_git_scm.Protocol.Report.{ReceiveCmd, report}
use go_git_scm.Protocol.Unpack.{unpack}

-- An error of ReadLine, a line that is not scanned, and capabilities that are not known.
pub data Error : Type 0 where
  in_line : Pktline.Error → Error
  bad_line out_of_fuel : Error
  unrecognized : CapList → Error

-- The end of the loop that reads commands: they and their capabilities, with what is left of the stream, or an error.
pub data Commands : Type 0 where
  commands : List ReceiveCmd → CapList → Bytes → Commands
  unreadable : Error → Commands

unfoldable pub add_command : ReceiveCmd → Commands → Commands
add_command cmd (commands cmds c s) = commands (cmd ∷ cmds) c s
add_command cmd (unreadable e) = unreadable e

-- What follows a line that cannot be read: io.EOF, of a flush-pkt, ends the loop.
unfoldable pub line_error : CapList → Pktline.Reader → Pktline.Error → Commands
line_error c r eof = commands [] c r.stream
line_error c r e = unreadable (in_line e)

-- A round of the loop behind the reading of its line; `next` goes on with a command.
unfoldable pub read_round :
    (ReceiveCmd → CapList → Pktline.Reader → Commands) → CapList → Pktline.Reader × Line → Commands
read_round next c (r, line) = elim line.error [
  | some e ↦ line_error c r e
  | none ↦ elim (scan_command c line.text) [
    | none ↦ unreadable bad_line
    | some found ↦ next found.0 found.1 r
  ]
]

unfoldable pub read_commands : ℕ → CapList → Pktline.Reader → Commands
read_commands zero c r = unreadable out_of_fuel
read_commands (suc fuel) c r =
    read_round (λ cmd c' r'. add_command cmd (read_commands fuel c' r')) c (read_line r)

-- `deleteCommandsOnly`
unfoldable pub deletes_only : List ReceiveCmd → Bool
deletes_only [] = true
deletes_only (c ∷ cmds) = bytes_eq c.new_id zero_id && deletes_only cmds

module _ (sha1 : Bytes → ObjectId) (limit : ℕ) (spare spare' : List ℕ) {Z : Type 0} (zlib : Zlib Z)
    (error_text : Reader.Error → Bytes) where
  -- The packfile, if there is one, and its error as it is printed.
  unfoldable pub unpack_some : Bool → Repo → Bytes → Repo × Option Bytes
  unpack_some none_sent repo s =
      let (repo', e) = unpack (mem_store sha1) sha1 limit spare spare' zlib repo s in
      let text : Option Bytes = elim e [ none ↦ none | some x ↦ some (error_text x) ] in
      if none_sent then (repo, none) else (repo', text)

  -- ReceivePack once the commands are read: the repository, the bytes that are sent and the error.
  unfoldable pub run_commands :
      Repo → List ReceiveCmd → CapList → Bytes → Repo × Bytes × Option Error
  run_commands repo [] c s = (repo, [], none)
  run_commands repo (cmd ∷ cmds) c s =
      let (repo', text) = unpack_some (deletes_only (cmd ∷ cmds)) repo s in
      let (last, sent) = report (has c (codes "report-status")) text repo' (cmd ∷ cmds) in
      let unknown = sub c capabilities in
      if length unknown == 0 then (last, sent, none) else (repo, [], some (unrecognized unknown))

  unfoldable pub receive_pack : Repo → Bytes → Repo × Bytes × Option Error
  receive_pack repo s = elim (read_commands (length s + 1) [] (new_reader s)) [
    | unreadable e ↦ (repo, [], some e)
    | commands cmds c rest ↦ run_commands repo cmds c rest
  ]
