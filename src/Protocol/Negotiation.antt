-- ===== src/Protocol/Negotiation.antt =====
-- protocol/upload-pack.go: the rounds of the negotiation, and what UploadPack sends. The repository is the parameter
-- `get`, a GetObject; `walk_fuel` is the fuel of each Walk, and `sort` is what sort.Sort makes of the headers.
pub mod Met
pub mod Clone
pub mod Rounds
pub mod Ends
pub mod Total
mod Tests
use go_git_scm.Base.{
  ℕ, zero, suc, ◌+◌, Bool, true, false, not, ◌&&◌, ◌||◌, List, [], ◌∷◌, ◌++◌, Option, none, some,
  Result, ok, err, length, ◌==◌, codes, bytes_eq, if◌then◌else◌, map, take, drop,
}
use go_git_scm.Base.Map.{lookup, insert, erase}
use go_git_scm.Object.{Bytes, ObjectId, Object, commit, tree, blob, tag, type_of}
use go_git_scm.Object.Print.{id_string}
use go_git_scm.Pktline
use go_git_scm.Pktline.{eof, unexpected_eof, too_long, Line, new_reader, next, read_line}
use go_git_scm.Repository.Walk.{
  Verdict, proceed, skip_object, fail, Walked, finished, failed, out_of_fuel, walk, mem,
}
use go_git_scm.Protocol.Capabilities.{CapList, capabilities, has, sub}
use go_git_scm.Protocol.Commands.{
  HaveLine, nothing, no_word, word, word_and_id, scan_want, scan_have,
}
use go_git_scm.Protocol.Lines.{send_line}
use go_git_scm.Packfile.Reader.Stores.{value_of}
use go_git_scm.Protocol.Order.{ObjHeader, object_size_of}
use go_git_scm.Protocol.Unpack.{SendError, send_pack}
use go_git_scm.Protocol.Upload.{
  Error, in_line, no_common, out_of_rounds, out_of_walk, in_walk, in_pack, unrecognized, Wants,
  read_wants, remove_key, Haves, flushed, done, broken, read_have_lines,
}

-- The maps and the slice that a round changes.
pub record Talk : Type 0 where
  pub want : List ObjectId
  pub have : List (ObjectId × Bool)
  pub ends : List ObjectId

-- Commits and tags are walked through.
unfoldable pub through : {E : Type 0} → Object → Verdict E
through (commit c) = proceed
through (tag g) = proceed
through (tree t) = skip_object
through (blob b) = skip_object

-- The function that Walk calls, from the want `want_id`.
unfoldable pub meet : {E : Type 0} → ObjectId → Talk → ObjectId → Result E Object → Talk × Verdict E
meet want_id t id (err e) = (t, fail e)
meet want_id t id (ok obj) = elim (lookup id t.have) [
  | none ↦ (t, through obj)
  | some common ↦ (
    record {
      want = remove_key want_id t.want;
      have = insert id true t.have;
      ends = t.ends ++ (id ∷ []);
    },
    skip_object,
  )
]

module _ {E : Type 0} (get : ObjectId → Result E Object) (walk_fuel : ℕ) where
  -- The walks from the wants in turn.
  unfoldable pub walk_wants : List ObjectId → Talk → Result (Error E) Talk
  walk_wants [] t = ok t
  walk_wants (id ∷ ids) t = elim (walk get (meet id) walk_fuel (id ∷ []) [] t) [
    | finished t' ↦ walk_wants ids t'
    | failed e t' ↦ err (in_walk e)
    | out_of_fuel ↦ err out_of_walk
  ]

unfoldable pub ack : ObjectId → Bytes → Bytes
ack id status = send_line (codes "ACK " ++ id_string id ++ status ++ codes "\n")

unfoldable pub nak : Bytes
nak = send_line (codes "NAK\n")

-- The lines of the common objects.
unfoldable pub ack_common : List (ObjectId × Bool) → Bytes
ack_common [] = []
ack_common ((id, common) ∷ have) =
    (if common then ack id (codes " common") else []) ++ ack_common have

-- `end[len(end)-1]`
unfoldable pub last_of : List ObjectId → Option ObjectId
last_of [] = none
last_of (id ∷ []) = some id
last_of (id ∷ id' ∷ ids) = last_of (id' ∷ ids)

-- What the detailed mode sends of a round, and whether a packfile follows: `no_done` is that of the client.
unfoldable pub detailed : {E : Type 0} → Bool → Bool → Talk → Result (Error E) (Bytes × Bool)
detailed no_done is_done t =
    let common = ack_common t.have in
    let ready : Result (Error _) (Bytes × Bool) = elim (last_of t.ends) [
      | none ↦ err no_common
      | some id ↦
          if no_done && not is_done
          then ok (common ++ ack id (codes " ready") ++ nak, true)
          else ok (common ++ ack id (codes " ready"), is_done)
    ] in
    if length t.want == 0 then ready else ok (common, is_done)

-- The line that ends a round.
unfoldable pub last_line : Bool → Bool → List ObjectId → Bytes
last_line multi_ack is_done ends = elim (last_of ends) [
  | none ↦ nak
  | some id ↦ if (is_done && multi_ack) || not (is_done || multi_ack) then ack id [] else nak
]

-- What a round sends, and whether it is the last.
unfoldable pub answer : {E : Type 0} → CapList → Bool → Talk → Result (Error E) (Bytes × Bool)
answer caps is_done t =
    let multi_ack = has caps (codes "multi_ack_detailed") in
    let first : Result (Error _) (Bytes × Bool) =
      if multi_ack then detailed (has caps (codes "no-done")) is_done t else ok ([], is_done) in
    elim first [
      | err e ↦ err e
      | ok (sent, is_done') ↦ ok (sent ++ last_line multi_ack is_done' t.ends, is_done')
    ]

-- How the negotiation ends: the client is gone, an error is returned, or a packfile is to be sent. All of what
-- has been sent is with it.
pub data Negotiated (E : Type 0) : Type 0 where
  gone : Bytes → Negotiated E
  wrong : Bytes → Error E → Negotiated E
  agreed : Bytes → List ObjectId → Negotiated E

-- The error of readHaveLines at the end of the stream.
unfoldable pub at_end : {E : Type 0} → List (ObjectId × Bool) → Error E → Bool
at_end [] (in_line unexpected_eof) = true
at_end have e = false

module _ {E : Type 0} (get : ObjectId → Result E Object) (walk_fuel : ℕ) (caps : CapList) where
  -- A round behind the reading of its lines; `next` goes on with what the maps are then.
  unfoldable pub talk_round :
      (List ObjectId → List ObjectId → Pktline.Reader → Bytes → Negotiated E)
      → List ObjectId
      → List ObjectId
      → Bytes
      → Haves E
      → Bool
      → Negotiated E
  talk_round next want ends sent h is_done =
      elim (walk_wants get walk_fuel want (record { want = want; have = h.have; ends = ends })) [
        | err e ↦ wrong sent e
        | ok t ↦ elim (answer caps is_done t) [
          | err e ↦ wrong sent e
          | ok (more, last) ↦
              let again = next t.want t.ends h.rest (sent ++ more) in
              if last then agreed (sent ++ more) t.ends else again
        ]
      ]

  unfoldable pub talk_step :
      (List ObjectId → List ObjectId → Pktline.Reader → Bytes → Negotiated E)
      → List ObjectId
      → List ObjectId
      → Bytes
      → Haves E
      → Negotiated E
  talk_step again want ends sent h = elim (h.ending) [
    | flushed ↦ talk_round again want ends sent h false
    | done ↦ talk_round again want ends sent h true
    | broken e ↦ if at_end h.have e then gone sent else wrong sent e
  ]

  -- The loop: the wants that are left, the common objects, and what has been sent.
  unfoldable pub negotiate :
      ℕ → List ObjectId → List ObjectId → Pktline.Reader → Bytes → Negotiated E
  negotiate zero want ends r sent = wrong sent out_of_rounds
  negotiate (suc fuel) want ends r sent =
      talk_step (negotiate fuel) want ends sent (read_have_lines (length r.stream + 1) [] (next r))

-- The headers of the objects, in the order of Walk.
unfoldable pub collect :
    {E : Type 0} → List ObjHeader → ObjectId → Result E Object → List ObjHeader × Verdict E
collect hdrs id (err e) = (hdrs, fail e)
collect hdrs id (ok obj) =
    (hdrs ++ (record { id = id; type_code = type_of obj; size = object_size_of obj } ∷ []), proceed)

module _ {E : Type 0} (get : ObjectId → Result E Object) (walk_fuel : ℕ)
    (sort : List ObjHeader → List ObjHeader) (deflate : Bytes → Bytes)
    (sha1 : Bytes → ObjectId) where
  -- The packfile of what the wants lead to and the common objects do not.
  unfoldable pub send_wanted : List ObjectId → List ObjectId → Bytes × Option (Error E)
  send_wanted start ends = elim (walk get collect walk_fuel start ends []) [
    | failed e hdrs ↦ ([], some (in_walk e))
    | out_of_fuel ↦ ([], some out_of_walk)
    | finished hdrs ↦
        let (pack, e) =
          send_pack (λ id. value_of (get id)) deflate sha1 (map (λ h. h.id) (sort hdrs)) in
        (pack, elim e [ none ↦ none | some x ↦ some (in_pack x) ])
  ]

  -- UploadPack once the wants are read.
  unfoldable pub serve : Wants → Bytes × Option (Error E)
  serve w =
      let unknown = sub w.caps capabilities in
      let talked : Bytes × Option (Error E) =
        elim (negotiate get walk_fuel w.caps (length w.rest.stream + 1) w.want [] w.rest []) [
          | gone sent ↦ (sent, none)
          | wrong sent e ↦ (sent, some e)
          | agreed sent ends ↦ let (pack, e) = send_wanted w.start ends in (sent ++ pack, e)
        ] in
      if length w.want == 0
      then ([], none)
      else (if length unknown == 0 then talked else ([], some (unrecognized unknown)))

  unfoldable pub upload_pack : Bytes → Bytes × Option (Error E)
  upload_pack s =
      let r = new_reader s in
      let none_yet : Wants = record { want = []; start = []; caps = []; rest = r } in
      elim (read_wants (length s + 1) none_yet r) [ err e ↦ ([], some e) | ok w ↦ serve w ]
