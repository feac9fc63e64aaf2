-- ===== src/Protocol/Negotiation/Ends.antt =====
-- protocol/upload-pack.go: UploadPack never runs out of the rounds that its loops are given.
use go_git_scm.Base.{
  ℕ, ◌<◌, Bool, true, false, not, ◌&&◌, List, [], ◌∷◌, ◌++◌, Result, ok, err, length, ◌≡◌, ◌≢◌, inl,
  inr, ap, ◌∙◌, ◌==◌, if◌then◌else◌, codes, Bool-cases, Option-cases, Result-cases,
}
use go_git_scm.Object.{Bytes, ObjectId, Object}
use go_git_scm.Pktline
use go_git_scm.Pktline.{new_reader, next}
use go_git_scm.Repository.Walk.{Walked, finished, failed, out_of_fuel, walk}
use go_git_scm.Protocol.Capabilities.{CapList, has}
use go_git_scm.Protocol.Upload.{
  Error, in_walk, out_of_walk, out_of_rounds, Ending, flushed, done, broken, Haves,
}
use go_git_scm.Protocol.Negotiation.{
  Talk, meet, walk_wants, detailed, last_of, answer, Negotiated, gone, wrong, agreed, at_end,
  talk_round, talk_step,
}
use go_git_scm.Protocol.Negotiation.Rounds.{IsRead, IsEnd}

detailed-ends :
    {E : Type 0} (no_done is_done : Bool) (t : Talk)
    → detailed {E = E} no_done is_done t ≢ err out_of_rounds
unfolding detailed
detailed-ends no_done is_done t = elim (Bool-cases (length t.want == 0)) [
  | inr some_left ↦ rw (some_left, detailed) (λ at. absurd cc)
  | inl all_met ↦ elim (Option-cases (last_of t.ends)) [
    | inl nobody ↦ rw (all_met, detailed, nobody) (λ at. absurd cc)
    | inr (id, there) ↦ elim (Bool-cases (no_done && not is_done)) [
      | inl e ↦ rw (all_met, detailed, there, e) (λ at. absurd cc)
      | inr e ↦ rw (all_met, detailed, there, e) (λ at. absurd cc)
    ]
  ]
]

answer-ends :
    {E : Type 0} (caps : CapList) (is_done : Bool) (t : Talk)
    → answer {E = E} caps is_done t ≢ err out_of_rounds
unfolding answer
answer-ends {E = E} caps is_done t = elim (Bool-cases (has caps (codes "multi_ack_detailed"))) [
  | inr simple ↦ rw (simple, answer) (λ at. absurd cc)
  | inl multi ↦
      let p = detailed {E = E} (has caps (codes "no-done")) is_done t in
      elim (Result-cases p) [
        | inl (x, e) ↦ rw (multi, answer, e) (λ at. absurd cc)
        | inr (x, e) ↦
            rw (multi, answer, e)
              (λ at.
                detailed-ends (has caps (codes "no-done")) is_done t
                  (let same : x ≡ out_of_rounds = cc in e ∙ ap err same))
      ]
]

module _ {E : Type 0} (get : ObjectId → Result E Object) (walk_fuel : ℕ) where
  after_walk-ends :
      (walked : Walked E Talk) (rest : Talk → Result (Error E) Talk)
      → ((t : Talk) → rest t ≢ err out_of_rounds)
      → elim walked [
        | finished s ↦ rest s
        | failed e s ↦ err (in_walk e)
        | out_of_fuel ↦ err out_of_walk
      ]
        ≢ err out_of_rounds
  after_walk-ends (finished s) rest ends = ends s
  after_walk-ends (failed e s) rest ends = λ at. absurd cc
  after_walk-ends out_of_fuel rest ends = λ at. absurd cc

  walk_wants-ends :
      (ids : List ObjectId) (t : Talk) → walk_wants get walk_fuel ids t ≢ err out_of_rounds
  unfolding walk_wants
  walk_wants-ends [] t = λ at. absurd cc
  walk_wants-ends (id ∷ ids) t =
      after_walk-ends (walk get (meet id) walk_fuel (id ∷ []) [] t) (walk_wants get walk_fuel ids)
        (walk_wants-ends ids)

-- The negotiation does not end for lack of rounds.
abbrev pub HasEnded : {E : Type 0} → Negotiated E → Type 0
HasEnded (gone sent) = Unit
HasEnded (wrong sent e) = e ≢ out_of_rounds
HasEnded (agreed sent ends) = Unit

module _ {E : Type 0} (get : ObjectId → Result E Object) (walk_fuel : ℕ) (caps : CapList)
    (go : List ObjectId → List ObjectId → Pktline.Reader → Bytes → Negotiated E) (n : ℕ)
    (ends : (want done_at : List ObjectId) (r : Pktline.Reader) (sent : Bytes)
      → length r.stream < n
      → HasEnded (go want done_at r sent)) where
  after_answer-HasEnded :
      (t : Talk) (h : Haves E) (sent : Bytes) (p : Result (Error E) (Bytes × Bool))
      → length h.rest.stream < n
      → p ≢ err out_of_rounds
      → HasEnded (elim p [
        | err e ↦ wrong sent e
        | ok (more, last) ↦
            let again = go t.want t.ends h.rest (sent ++ more) in
            if last then agreed (sent ++ more) t.ends else again
      ])
  after_answer-HasEnded t h sent (err e) less fine = λ at. fine (ap err at)
  after_answer-HasEnded t h sent (ok (more, true)) less fine = tt
  after_answer-HasEnded t h sent (ok (more, false)) less fine =
      ends t.want t.ends h.rest (sent ++ more) less

  after_walks-HasEnded :
      (h : Haves E) (sent : Bytes) (is_done : Bool) (p : Result (Error E) Talk)
      → length h.rest.stream < n
      → p ≢ err out_of_rounds
      → HasEnded (elim p [
        | err e ↦ wrong sent e
        | ok t ↦ elim (answer caps is_done t) [
          | err e ↦ wrong sent e
          | ok (more, last) ↦
              let again = go t.want t.ends h.rest (sent ++ more) in
              if last then agreed (sent ++ more) t.ends else again
        ]
      ])
  after_walks-HasEnded h sent is_done (err e) less fine = λ at. fine (ap err at)
  after_walks-HasEnded h sent is_done (ok t) less fine =
      after_answer-HasEnded t h sent (answer caps is_done t) less (answer-ends caps is_done t)

  talk_round-HasEnded :
      (want done_at : List ObjectId) (sent : Bytes) (h : Haves E) (is_done : Bool)
      → length h.rest.stream < n
      → HasEnded (talk_round get walk_fuel caps go want done_at sent h is_done)
  unfolding talk_round
  talk_round-HasEnded want done_at sent h is_done less =
      let before : Talk = record { want = want; have = h.have; ends = done_at } in
      after_walks-HasEnded h sent is_done (walk_wants get walk_fuel want before) less
        (walk_wants-ends get walk_fuel want before)

  by_ending :
      (want done_at : List ObjectId) (sent : Bytes) (h : Haves E) (e : Ending E)
      → IsEnd (length h.rest.stream) n e
      → HasEnded (elim e [
        | flushed ↦ talk_round get walk_fuel caps go want done_at sent h false
        | done ↦ talk_round get walk_fuel caps go want done_at sent h true
        | broken x ↦ if at_end h.have x then gone sent else wrong sent x
      ])
  by_ending want done_at sent h flushed less = talk_round-HasEnded want done_at sent h false less
  by_ending want done_at sent h done less = talk_round-HasEnded want done_at sent h true less
  by_ending want done_at sent h (broken x) fine = elim (Bool-cases (at_end h.have x)) [
    | inl e ↦ rw e tt
    | inr e ↦ rw e fine
  ]

  pub talk_step-HasEnded :
      (want done_at : List ObjectId) (sent : Bytes) (h : Haves E)
      → IsRead n h
      → HasEnded (talk_step get walk_fuel caps go want done_at sent h)
  unfolding talk_step
  talk_step-HasEnded want done_at sent h found = by_ending want done_at sent h h.ending found
