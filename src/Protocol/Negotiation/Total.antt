-- ===== src/Protocol/Negotiation/Total.antt =====
-- protocol/upload-pack.go: UploadPack on the bytes of any client, with the fuel that it gives its loops.
use go_git_scm.Base.{
  ℕ, zero, suc, ◌+◌, ◌<◌, false, List, [], ◌++◌, Option, none, some, Result, ok, err, length, ◌≡◌,
  ◌≢◌, inl, inr, ap, arith, ◌==◌, Bool-cases, map,
}
use go_git_scm.Object.{Bytes, ObjectId, Object}
use go_git_scm.Pktline
use go_git_scm.Pktline.{new_reader, next}
use go_git_scm.Repository.Walk.{Walked, finished, failed, out_of_fuel, walk}
use go_git_scm.Packfile.Reader.Stores.{value_of}
use go_git_scm.Protocol.Capabilities.{CapList, capabilities, sub}
use go_git_scm.Protocol.Order.{ObjHeader}
use go_git_scm.Protocol.Unpack.{SendError, send_pack}
use go_git_scm.Protocol.Upload.{
  Error, in_walk, in_pack, out_of_walk, out_of_rounds, Wants, read_wants, read_have_lines,
}
use go_git_scm.Protocol.Negotiation.{
  collect, Negotiated, gone, wrong, agreed, negotiate, send_wanted, serve, upload_pack,
}
use go_git_scm.Protocol.Negotiation.Rounds.{read_wants-ends, read_have_lines-IsRead}
use go_git_scm.Protocol.Negotiation.Ends.{HasEnded, talk_step-HasEnded}

-- The loop of the rounds ends.
pub negotiate-HasEnded :
    {E : Type 0} (get : ObjectId → Result E Object) (walk_fuel : ℕ) (caps : CapList) (fuel : ℕ)
    (want done_at : List ObjectId) (r : Pktline.Reader) (sent : Bytes)
    → length r.stream < fuel
    → HasEnded (negotiate get walk_fuel caps fuel want done_at r sent)
unfolding negotiate next
negotiate-HasEnded get walk_fuel caps zero want done_at r sent h = absurd (omega arith)
negotiate-HasEnded {E = E} get walk_fuel caps (suc fuel) want done_at r sent h =
    talk_step-HasEnded get walk_fuel caps (negotiate get walk_fuel caps fuel) (length r.stream)
      (λ want2 done2 r2 sent2 less.
        negotiate-HasEnded get walk_fuel caps fuel want2 done2 r2 sent2 (omega arith))
      want done_at sent (read_have_lines (length r.stream + 1) [] (next r))
      (read_have_lines-IsRead E (length r.stream + 1) [] (next r) (omega arith))

module _ {E : Type 0} (get : ObjectId → Result E Object) (walk_fuel : ℕ)
    (sort : List ObjHeader → List ObjHeader) (deflate : Bytes → Bytes)
    (sha1 : Bytes → ObjectId) where
  sent_error :
      (e : Option SendError)
      → let sent : Option (Error E) = elim e [ none ↦ none | some x ↦ some (in_pack x) ] in
        sent ≢ some out_of_rounds
  sent_error none = λ at. absurd cc
  sent_error (some x) = λ at. absurd cc

  after_walk :
      (walked : Walked E (List ObjHeader))
      → let p : Bytes × Option (Error E) = elim walked [
        | failed e hdrs ↦ ([], some (in_walk e))
        | out_of_fuel ↦ ([], some out_of_walk)
        | finished hdrs ↦
            let (pack, e) =
              send_pack (λ id. value_of (get id)) deflate sha1 (map (λ h. h.id) (sort hdrs)) in
            (pack, elim e [ none ↦ none | some x ↦ some (in_pack x) ])
      ] in
        p.1 ≢ some out_of_rounds
  after_walk (failed e hdrs) = λ at. absurd cc
  after_walk out_of_fuel = λ at. absurd cc
  after_walk (finished hdrs) =
      sent_error (send_pack (λ id. value_of (get id)) deflate sha1 (map (λ h. h.id) (sort hdrs))).1

  send_wanted-ends :
      (start done_at : List ObjectId)
      → (send_wanted get walk_fuel sort deflate sha1 start done_at).1 ≢ some out_of_rounds
  unfolding send_wanted
  send_wanted-ends start done_at = after_walk (walk get collect walk_fuel start done_at [])

  after_talk :
      (w : Wants) (talk : Negotiated E)
      → HasEnded talk
      → let p : Bytes × Option (Error E) = elim talk [
        | gone sent ↦ (sent, none)
        | wrong sent e ↦ (sent, some e)
        | agreed sent ends ↦
            let (pack, e) = send_wanted get walk_fuel sort deflate sha1 w.start ends in
            (sent ++ pack, e)
      ] in
        p.1 ≢ some out_of_rounds
  after_talk w (gone sent) h = λ at. absurd cc
  after_talk w (wrong sent e) h = λ at. h cc
  after_talk w (agreed sent done_at) h = send_wanted-ends w.start done_at

  serve-ends : (w : Wants) → (serve get walk_fuel sort deflate sha1 w).1 ≢ some out_of_rounds
  unfolding serve
  serve-ends w = elim (Bool-cases (length w.want == 0)) [
    | inl no_wants ↦ rw (no_wants, serve) (λ at. absurd cc)
    | inr some_left ↦ elim (Bool-cases (length (sub w.caps capabilities) == 0)) [
      | inr unknown ↦ rw (some_left, serve, unknown) (λ at. absurd cc)
      | inl known ↦
          let fuel = length w.rest.stream + 1 in
          rw (some_left, serve, known)
            (after_talk w (negotiate get walk_fuel w.caps fuel w.want [] w.rest [])
              (negotiate-HasEnded get walk_fuel w.caps fuel w.want [] w.rest [] (omega arith)))
    ]
  ]

  after_wants :
      (found : Result (Error E) Wants)
      → found ≢ err out_of_rounds
      → let p : Bytes × Option (Error E) = elim found [
        | err e ↦ ([], some e)
        | ok w ↦ serve get walk_fuel sort deflate sha1 w
      ] in
        p.1 ≢ some out_of_rounds
  after_wants (err e) h = λ at. h (let same : e ≡ out_of_rounds = cc in ap err same)
  after_wants (ok w) h = serve-ends w

  -- Whatever a client sends, the loops of UploadPack that read it end within the rounds that they are given, one more
  -- than the bytes that are left, and so does the loop of the negotiation.
  pub upload_pack-ne-out_of_rounds :
      (s : Bytes) → (upload_pack get walk_fuel sort deflate sha1 s).1 ≢ some out_of_rounds
  unfolding upload_pack new_reader
  upload_pack-ne-out_of_rounds s =
      let none_yet : Wants = record {
        want = [];
        start = [];
        caps = [];
        rest = record { stream = s; at_eof = false };
      } in
      after_wants (read_wants (length s + 1) none_yet (record { stream = s; at_eof = false })) (
        read_wants-ends (length s + 1) none_yet (record { stream = s; at_eof = false })
          (omega arith))
