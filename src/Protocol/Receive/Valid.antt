-- ===== src/Protocol/Receive/Valid.antt =====
-- protocol/receive-pack.go: what ReceivePack keeps of the repository in memory.
use go_git_scm.Base.{
  ℕ, ◌+◌, codes, Bool, true, false, List, [], ◌∷◌, Option, some, length, inl, inr, Bool-cases, ◌==◌,
}
use go_git_scm.Object.{Bytes, ObjectId}
use go_git_scm.Pktline.{new_reader}
use go_git_scm.Repository.Mem.{Repo}
use go_git_scm.Repository.Mem.Invariant.{IsValid, put_object-IsValid}
use go_git_scm.Packfile.Reader
use go_git_scm.Packfile.Reader.{Zlib}
use go_git_scm.Packfile.Reader.Stores.{mem_store}
use go_git_scm.Protocol.Capabilities.{CapList, capabilities, sub, has}
use go_git_scm.Protocol.Report.{ReceiveCmd}
use go_git_scm.Protocol.Report.Updates.{report-IsValid}
use go_git_scm.Protocol.Unpack.{unpack}
use go_git_scm.Protocol.Unpack.Rounds.{unpack-IsDone}
use go_git_scm.Protocol.Receive.{
  Error, Commands, commands, unreadable, unpack_some, deletes_only, read_commands, run_commands,
  receive_pack,
}

module _ (sha1 : Bytes → ObjectId) (limit : ℕ) (spare spare' : List ℕ) {Z : Type 0} (zlib : Zlib Z)
    (error_text : Reader.Error → Bytes) where
  -- unpack puts objects and does nothing else to the repository.
  unpack-IsValid :
      (repo : Repo) (s : Bytes)
      → IsValid sha1 repo
      → IsValid sha1 (unpack (mem_store sha1) sha1 limit spare spare' zlib repo s).0
  unfolding mem_store
  unpack-IsValid repo s v =
      (unpack-IsDone (mem_store sha1) sha1 limit spare spare' (IsValid sha1)
        (put_object-IsValid sha1) zlib repo s v).0

  unpack_some-IsValid :
      (none_sent : Bool) (repo : Repo) (s : Bytes)
      → IsValid sha1 repo
      → IsValid sha1 (unpack_some sha1 limit spare spare' zlib error_text none_sent repo s).0
  unfolding unpack_some
  unpack_some-IsValid true repo s v = v
  unpack_some-IsValid false repo s v = unpack-IsValid repo s v

  run_commands-IsValid :
      (repo : Repo) (cmds : List ReceiveCmd) (c : CapList) (s : Bytes)
      → IsValid sha1 repo
      → IsValid sha1 (run_commands sha1 limit spare spare' zlib error_text repo cmds c s).0
  unfolding run_commands
  run_commands-IsValid repo [] c s v = v
  run_commands-IsValid repo (cmd ∷ cmds) c s v =
      elim (Bool-cases (length (sub c capabilities) == 0)) [
        | inr unknown ↦ rw (unknown, run_commands) v
        | inl known ↦
            let p =
              unpack_some sha1 limit spare spare' zlib error_text (deletes_only (cmd ∷ cmds)) repo
                s in
            rw (known, run_commands)
              (report-IsValid sha1 (has c (codes "report-status")) p.1 p.0 (cmd ∷ cmds)
                (unpack_some-IsValid (deletes_only (cmd ∷ cmds)) repo s v))
      ]

  commands_run :
      (repo : Repo) (found : Commands)
      → IsValid sha1 repo
      → let p : Repo × Bytes × Option Error = elim found [
        | unreadable x ↦ (repo, [], some x)
        | commands all c rest ↦ run_commands sha1 limit spare spare' zlib error_text repo all c rest
      ] in
        IsValid sha1 p.0
  commands_run repo (unreadable x) v = v
  commands_run repo (commands all c rest) v = run_commands-IsValid repo all c rest v

  -- ReceivePack keeps the repository well formed, whatever bytes the client sends, commands and packfile, and whichever
  -- of unpack and the updates fail: each object stands under its hash, and each ref has a valid name, is not zero and
  -- names an object that is there.
  pub receive_pack-IsValid :
      (repo : Repo) (s : Bytes)
      → IsValid sha1 repo
      → IsValid sha1 (receive_pack sha1 limit spare spare' zlib error_text repo s).0
  unfolding receive_pack
  receive_pack-IsValid repo s v =
      commands_run repo (read_commands (length s + 1) [] (new_reader s)) v
