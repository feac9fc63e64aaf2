-- ===== src/Protocol/Report/Updates.antt =====
-- The commands of a push: the repository stays well formed, and refs that no command names stay.
use go_git_scm.Base.{◌≡◌, ◌≢◌, refl, ◌∙◌, List, [], ◌∷◌, Option, Bool, All, bytes_eq_iff, arith}
use go_git_scm.Base.Map.{lookup-insert, lookup-erase}
use go_git_scm.Object.{Bytes, ObjectId}
use go_git_scm.Repository.{Error}
use go_git_scm.Repository.Mem.{Repo, update_ref, get_ref}
use go_git_scm.Repository.Mem.Swap.{Outcome, refused, deleted, written, update_ref-Outcome}
use go_git_scm.Repository.Mem.Invariant.{IsValid, update_ref-IsValid}
use go_git_scm.Protocol.Report.{ReceiveCmd, update_all, report}

-- The updates keep the repository well formed, whatever they are.
pub report-IsValid :
    (sha1 : Bytes → ObjectId) (report_status : Bool) (unpacked : Option Bytes) (r : Repo)
    (cmds : List ReceiveCmd)
    → IsValid sha1 r
    → IsValid sha1 (report report_status unpacked r cmds).0
unfolding report update_all
report-IsValid sha1 report_status unpacked r [] v = v
report-IsValid sha1 report_status unpacked r (c ∷ cmds) v =
    report-IsValid sha1 report_status unpacked (update_ref r c.name c.old_id c.new_id).0 cmds
      (update_ref-IsValid sha1 r c.name c.old_id c.new_id v)

Outcome-other :
    (r : Repo) (name : Bytes) (old_id new_id : ObjectId) (j : Bytes) {p : Repo × Option Error}
    → Outcome r name old_id new_id p
    → name ≢ j
    → get_ref p.0 j ≡ get_ref r j
unfolding get_ref
Outcome-other r name old_id new_id j (refused e bad) other = refl
Outcome-other r name old_id new_id j (deleted valid at zero) other =
    ground (arith, lookup-erase j name r.refs, bytes_eq_iff name j)
Outcome-other r name old_id new_id j (written obj valid at non_zero there) other =
    ground (arith, lookup-insert j name new_id r.refs, bytes_eq_iff name j)

-- A ref that no command of a push names reads as before.
pub get_ref-report :
    (report_status : Bool) (unpacked : Option Bytes) (r : Repo) (cmds : List ReceiveCmd) (j : Bytes)
    → All (λ (c : ReceiveCmd). c.name ≢ j) cmds
    → get_ref (report report_status unpacked r cmds).0 j ≡ get_ref r j
unfolding report update_all
get_ref-report report_status unpacked r [] j h = refl
get_ref-report report_status unpacked r (c ∷ cmds) j (other, others) =
    get_ref-report report_status unpacked (update_ref r c.name c.old_id c.new_id).0 cmds j others
    ∙ Outcome-other r c.name c.old_id c.new_id j (update_ref-Outcome r c.name c.old_id c.new_id)
        other
