-- ===== src/Protocol/Receive/Others.antt =====
-- protocol/receive-pack.go: the refs that no command of a push names.
use go_git_scm.Base.{
  ℕ, ◌≤◌, codes, Bool, true, false, List, [], ◌∷◌, ◌++◌, length, All, map, ◌≡◌, ◌≢◌, refl, ap, ◌∙◌,
  inl, inr, Bool-cases, Result-cases, ◌==◌,
}
use go_git_scm.Object.{Bytes, ObjectId, Object}
use go_git_scm.Object.Marshal.{hash}
use go_git_scm.Pktline.{max_payload_len}
use go_git_scm.Repository.Mem.{Repo, get_ref, put_object}
use go_git_scm.Packfile.Reader
use go_git_scm.Packfile.Reader.{Zlib}
use go_git_scm.Packfile.Reader.Stores.{mem_store}
use go_git_scm.Protocol.Capabilities.{CapList, capabilities, sub, has}
use go_git_scm.Protocol.Commands.{scan_caps}
use go_git_scm.Protocol.Report.{ReceiveCmd}
use go_git_scm.Protocol.Report.Updates.{get_ref-report}
use go_git_scm.Protocol.Unpack.Rounds.{unpack-IsDone}
use go_git_scm.Protocol.Receive.{unpack_some, deletes_only, run_commands, receive_pack}
use go_git_scm.Protocol.Receive.Sent.{
  IsCommand, update_text, first_text, pushed, receive_pack-pushed,
}

put_object-refs :
    (sha1 : Bytes → ObjectId) (r : Repo) (obj : Object) → (put_object sha1 r obj).0.refs ≡ r.refs
unfolding put_object
put_object-refs sha1 r obj = elim (Result-cases (hash sha1 obj)) [
  | inl (id, e) ↦ rw (e, put_object) refl
  | inr (x, e) ↦ rw (e, put_object) refl
]

same_refs : (r r' : Repo) (j : Bytes) → r.refs ≡ r'.refs → get_ref r j ≡ get_ref r' j
unfolding get_ref
same_refs r r' j same = rw same refl

module _ (sha1 : Bytes → ObjectId) (limit : ℕ) (spare spare' : List ℕ) {Z : Type 0} (zlib : Zlib Z)
    (error_text : Reader.Error → Bytes) where
  refs-unpack_some :
      (none_sent : Bool) (repo : Repo) (s : Bytes)
      → (unpack_some sha1 limit spare spare' zlib error_text none_sent repo s).0.refs ≡ repo.refs
  unfolding unpack_some mem_store
  refs-unpack_some true repo s = refl
  refs-unpack_some false repo s =
      (unpack-IsDone (mem_store sha1) sha1 limit spare spare' (λ r. r.refs ≡ repo.refs)
        (λ r obj same. put_object-refs sha1 r obj ∙ same) zlib repo s refl).0

  get_ref-run_commands :
      (repo : Repo) (cmds : List ReceiveCmd) (c : CapList) (s j : Bytes)
      → All (λ (cmd : ReceiveCmd). cmd.name ≢ j) cmds
      → get_ref (run_commands sha1 limit spare spare' zlib error_text repo cmds c s).0 j
        ≡ get_ref repo j
  unfolding run_commands get_ref
  get_ref-run_commands repo [] c s j others = refl
  get_ref-run_commands repo (cmd ∷ cmds) c s j others =
      elim (Bool-cases (length (sub c capabilities) == 0)) [
        | inr unknown ↦ rw (unknown, run_commands) refl
        | inl known ↦
            let none_sent = deletes_only (cmd ∷ cmds) in
            let p = unpack_some sha1 limit spare spare' zlib error_text none_sent repo s in
            rw (known, run_commands)
              (get_ref-report (has c (codes "report-status")) p.1 p.0 (cmd ∷ cmds) j others
                ∙ same_refs p.0 repo j (refs-unpack_some none_sent repo s))
      ]

  -- A ref that no command of a push names reads as before, whatever the packfile behind the commands is: for commands
  -- as clients send them, with IDs of twenty bytes, names of ASCII characters of a refname, and lines within bounds.
  pub get_ref-receive_pack :
      (repo : Repo) (cmd : ReceiveCmd) (caps : Bytes) (cmds : List ReceiveCmd) (pack j : Bytes)
      → All IsCommand (cmd ∷ cmds)
      → All (λ s. length s ≤ max_payload_len) (first_text cmd caps ∷ map update_text cmds)
      → All (λ (c : ReceiveCmd). c.name ≢ j) (cmd ∷ cmds)
      → get_ref
          (receive_pack sha1 limit spare spare' zlib error_text repo
            (pushed cmd caps cmds ++ pack)).0
          j
        ≡ get_ref repo j
  get_ref-receive_pack repo cmd caps cmds pack j h small others =
      ap (λ p. get_ref p.0 j)
        (receive_pack-pushed sha1 limit spare spare' zlib error_text repo cmd caps cmds pack h
          small)
      ∙ get_ref-run_commands repo (cmd ∷ cmds) (scan_caps [] caps) pack j others
