-- ===== src/Protocol/Report/Tests.antt =====
-- A push of two commands to an empty repository: the one creates a ref to an object that is not there, the
-- other deletes a ref that is not there.
use go_git_scm.Base.{
  ◌≡◌, refl, List, [], ◌∷◌, ◌++◌, none, true, false, codes, length, arith, bytes_eq,
}
use go_git_scm.Base.Map.{lookup, erase}
use go_git_scm.Object.{Bytes, ObjectId, zero_id}
use go_git_scm.Repository.Refs.{
  has_prefix, contains, has_suffix, bad_byte, any_bad_byte, is_valid_ref,
}
use go_git_scm.Repository.Mem.{new_repository, ref_or_zero, set_ref, get_object, update_ref}
use go_git_scm.Pktline.RoundTrip.{Reads}
use go_git_scm.Protocol.Report.{
  ReceiveCmd, update_all, unpack_line, status_line, error_string, report,
}
use go_git_scm.Protocol.Report.Status.{IsReported, Reads-report}

abbrev main : Bytes
main = codes "refs/heads/main"

abbrev old : Bytes
old = codes "refs/heads/old"

abbrev size_hash : Bytes → ObjectId
size_hash bytes = length bytes ∷ []

abbrev push : List ReceiveCmd
push =
    record { old_id = zero_id; new_id = 1 ∷ []; name = main }
    ∷ record { old_id = zero_id; new_id = zero_id; name = old }
    ∷ []

Reads-report_example :
    (ls : List Bytes) × IsReported new_repository push ls (report true none new_repository push).0
    × Reads
        (record { stream = (report true none new_repository push).1 ++ (7 ∷ []); at_eof = false })
        (unpack_line none ∷ ls)
        (record { stream = 7 ∷ []; at_eof = true })
unfolding unpack_line
Reads-report_example =
    Reads-report none new_repository push (7 ∷ []) (omega arith) (omega arith, (omega arith, tt))

lines_run :
    (update_all new_repository push).1
    ≡ codes "ng refs/heads/main repository: object does not exist\n"
      ∷ codes "ok refs/heads/old\n"
      ∷ []
unfolding update_all update_ref set_ref get_object ref_or_zero new_repository is_valid_ref
    has_prefix contains has_suffix bad_byte any_bad_byte bytes_eq lookup erase status_line
    error_string
lines_run = refl
