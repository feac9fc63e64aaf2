-- ===== src/Protocol/Report.antt =====
-- protocol/receive-pack.go: what ReceivePack does once the commands are read and the packfile is unpacked.
-- The commands, their capabilities and the outcome of the unpacking are arguments.
pub mod Updates
pub mod Status
mod Tests
use go_git_scm.Base.{Bool, List, [], ◌∷◌, ◌++◌, Option, none, some, codes, if◌then◌else◌}
use go_git_scm.Object.{Bytes, ObjectId}
use go_git_scm.Repository.{
  Error, invalid_ref, ref_mismatch, ref_exist, ref_not_exist, object_not_exist,
}
use go_git_scm.Repository.Mem.{Repo, update_ref}
use go_git_scm.Protocol.Lines.{send_lines}

pub record ReceiveCmd : Type 0 where
  pub old_id : ObjectId
  pub new_id : ObjectId
  pub name : Bytes

-- The texts of the errors of interface.go.
unfoldable pub error_string : Error → Bytes
error_string invalid_ref = codes "repository: malformed refname"
error_string ref_mismatch = codes "repository: ref value is different from expected"
error_string ref_exist = codes "repository: ref already exists"
error_string ref_not_exist = codes "repository: ref does not exist"
error_string object_not_exist = codes "repository: object does not exist"

unfoldable pub status_line : Bytes → Option Error → Bytes
status_line name none = codes "ok " ++ name ++ codes "\n"
status_line name (some e) = codes "ng " ++ name ++ codes " " ++ error_string e ++ codes "\n"

-- The loop over the commands, with the lines that it sends.
unfoldable pub update_all : Repo → List ReceiveCmd → Repo × List Bytes
update_all r [] = (r, [])
update_all r (c ∷ cmds) =
    let p = update_ref r c.name c.old_id c.new_id in
    let q = update_all p.0 cmds in (q.0, status_line c.name p.1 ∷ q.1)

unfoldable pub unpack_line : Option Bytes → Bytes
unpack_line none = codes "unpack ok\n"
unpack_line (some e) = codes "unpack " ++ e ++ codes "\n"

-- The new repository, and the bytes that are sent: none without report-status.
unfoldable pub report : Bool → Option Bytes → Repo → List ReceiveCmd → Repo × Bytes
report report_status unpacked r cmds =
    let q = update_all r cmds in
    let bytes = send_lines (unpack_line unpacked ∷ q.1) in
    (q.0, if report_status then bytes else [])
