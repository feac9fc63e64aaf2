-- ===== src/Protocol/Negotiation/Clone.antt =====
-- protocol/upload-pack.go: UploadPack of a client that has nothing.
use go_git_scm.Base.{
  length-map, ℕ, zero, suc, ◌+◌, ◌≤◌, ◌<◌, Bool, true, false, List, [], ◌∷◌, ◌++◌, none, some,
  Result, ok, err, length, All, map, ◌≡◌, refl, sym, ap, ◌∙◌, arith, length-append, append_assoc,
  append-nil, ◌==◌, if◌then◌else◌, codes, Bool-cases, inl, inr, bytes_eq, Result-cases,
}
use go_git_scm.Base.Map.{lookup}
use go_git_scm.Fmt.Rune.{is_space, is_blank, read_rune, encode_rune}
use go_git_scm.Fmt.Scan.{space, skip_space, no_newline, span, span_loop}
use go_git_scm.Fmt.Reads.{Stops, space_lem, literals_lem}
use go_git_scm.Object.{Bytes, ObjectId, Object}
use go_git_scm.Object.Print.{id_string}
use go_git_scm.Object.Scan.{scan_id, hex_string}
use go_git_scm.Object.Scan.Text.{IsId, Stops-id_string, scan_id-id_string}
use go_git_scm.Pktline
use go_git_scm.Pktline.{
  new_reader, next, read_line, flush, max_payload_len, read_line_len, read_payload, digit_value,
  less_four,
}
use go_git_scm.Repository.Walk.{mem}
use go_git_scm.Protocol.Capabilities.{CapList, capabilities, sub, has}
use go_git_scm.Protocol.Commands.{
  scan_caps, scan_caps_loop, caps_after, accept_want, scan_want, scan_have, have_word, have_id,
  ends_early, word,
}
use go_git_scm.Protocol.Lines.{send_line, send_lines}
use go_git_scm.Protocol.Order.{ObjHeader}
use go_git_scm.Protocol.Receive.Sent.{read_line-send_line, length-send_lines}
use go_git_scm.Protocol.Upload.{
  Error, bad_line, Wants, add_key, want_round, want_error, read_wants, read_have_lines, have_round,
  have_line, done, Haves,
}
use go_git_scm.Protocol.Negotiation.{
  Talk, agreed, wrong, Negotiated, meet, walk_wants, nak, last_of, last_line, detailed, answer,
  ack_common, talk_round, talk_step, negotiate, send_wanted, serve, upload_pack,
}
use go_git_scm.Protocol.Negotiation.Met.{walk_wants-keeps}

-- The line of a want, and the first one, with the capabilities.
abbrev pub want_text : ObjectId → Bytes
want_text id = codes "want" ++ (32 ∷ id_string id)

abbrev pub first_want : ObjectId → Bytes → Bytes
first_want id caps = want_text id ++ (32 ∷ caps)

-- The map after those wants.
unfoldable pub add_keys : List ObjectId → List ObjectId → List ObjectId
add_keys want [] = want
add_keys want (id ∷ ids) = add_keys (add_key id want) ids

scan_want_text :
    (c : CapList) (id ys : Bytes)
    → IsId id
    → scan_want c (want_text id ++ ys) ≡ some (id, caps_after (space ys) c)
unfolding scan_want accept_want
scan_want_text c id ys h =
    let s = 32 ∷ (id_string id ++ ys) in
    rw
      (
        literals_lem (codes "want") s
            (omega arith, (omega arith, (omega arith, (omega arith, tt)))),
        space_lem (id_string id ++ ys) (Stops-id_string id ys h),
      )
      (ap (accept_want c) (scan_id-id_string id ys h))

scan_first_want :
    (c : CapList) (id caps : Bytes)
    → IsId id
    → Stops is_space caps
    → scan_want c (first_want id caps) ≡ some (id, scan_caps c caps)
unfolding caps_after
scan_first_want c id caps h stop =
    scan_want_text c id (32 ∷ caps) h
    ∙ ap (λ step. some (id, caps_after step c)) (space_lem caps stop)

scan_other_want :
    (c : CapList) (id : Bytes) → IsId id → scan_want c (want_text id) ≡ some (id, scan_caps c [])
unfolding caps_after space read_rune
scan_other_want c id h =
    ap (scan_want c) (sym (append-nil (want_text id))) ∙ scan_want_text c id [] h

scan_caps-nil : (c : CapList) → scan_caps c [] ≡ c
unfolding scan_caps scan_caps_loop
scan_caps-nil c = refl

want_line :
    {E : Type 0} (fuel : ℕ) (w : Wants) (id : ObjectId) (c : CapList) (s rest : Bytes)
    → length s ≤ max_payload_len
    → scan_want w.caps s ≡ some (id, c)
    → read_wants {E = E} (suc fuel) w (record { stream = send_line s ++ rest; at_eof = false })
      ≡ read_wants fuel
          (record w { want = add_key id w.want; start = w.start ++ (id ∷ []); caps = c })
          (record { stream = rest; at_eof = false })
unfolding read_wants want_round
want_line {E = E} fuel w id c s rest h e =
    let r : Pktline.Reader = record { stream = rest; at_eof = false } in
    let next_want : Wants → Pktline.Reader → Result (Error E) Wants =
      λ w2 r2. read_wants fuel w2 r2 in
    ap (want_round next_want w) (read_line-send_line s rest h).1
    ∙ ap
        (λ found. elim found [
          | none ↦ err bad_line
          | some d ↦
              next_want
                (record w {
                  want = add_key (d.0) w.want;
                  start = w.start ++ (d.0 ∷ []);
                  caps = d.1;
                })
                r
        ])
        e

other_wants :
    {E : Type 0} (fuel : ℕ) (w : Wants) (ids : List ObjectId) (rest : Bytes)
    → All IsId ids
    → All (λ s. length s ≤ max_payload_len) (map want_text ids)
    → length ids < fuel
    → read_wants {E = E} fuel w
        (record { stream = send_lines (map want_text ids) ++ rest; at_eof = false })
      ≡ ok (record {
        want = add_keys w.want ids;
        start = w.start ++ ids;
        caps = w.caps;
        rest = record { stream = rest; at_eof = true };
      })
unfolding send_lines add_keys
other_wants zero w ids rest h small enough = absurd (omega arith)
other_wants (suc fuel) w [] rest h small enough =
    unfold read_wants want_round want_error read_line read_line_len read_payload digit_value
      less_four in
    ap (λ start. ok (record w { start = start; rest = record { stream = rest; at_eof = true } }))
      (sym (append-nil w.start))
other_wants {E = E} (suc fuel) w (id ∷ ids) rest (h, hs) (small, smalls) enough =
    let others = send_lines (map want_text ids) in
    let w' : Wants = record w { want = add_key id w.want; start = w.start ++ (id ∷ []) } in
    ap (λ s. read_wants {E = E} (suc fuel) w (record { stream = s; at_eof = false }))
      (append_assoc (send_line (want_text id)) others rest)
    ∙ want_line fuel w id w.caps (want_text id) (others ++ rest) small
        (scan_other_want w.caps id h ∙ ap (λ c. some (id, c)) (scan_caps-nil w.caps))
    ∙ other_wants fuel w' ids rest hs smalls (omega arith)
    ∙ ap
        (λ start. ok (record w {
          want = add_keys (add_key id w.want) ids;
          start = start;
          rest = record { stream = rest; at_eof = true };
        }))
        (append_assoc w.start (id ∷ []) ids)

-- What a client without objects sends: its wants, with its capabilities behind the first, and "done".
abbrev pub asked : ObjectId → Bytes → List ObjectId → Bytes
asked id caps ids = send_lines (first_want id caps ∷ map want_text ids) ++ send_line (codes "done")

scan_have-done : scan_have (codes "done") ≡ word (codes "done") true
unfolding scan_have have_word have_id scan_id skip_space no_newline span span_loop read_rune
    encode_rune is_blank is_space space hex_string ends_early
scan_have-done = refl

read_have_lines-done :
    {E : Type 0} (fuel : ℕ)
    → read_have_lines {E = E}
        (suc fuel)
        []
        (record { stream = send_line (codes "done") ++ []; at_eof = false })
      ≡ record { have = []; ending = done; rest = record { stream = []; at_eof = false } }
unfolding read_have_lines have_round have_line bytes_eq
read_have_lines-done {E = E} fuel =
    let after_line : Pktline.Reader = record { stream = []; at_eof = false } in
    let again : List (ObjectId × Bool) → Pktline.Reader → Haves E =
      λ more r. read_have_lines fuel more r in
    ap (have_round again []) (read_line-send_line (codes "done") [] (omega arith)).1
    ∙ ap (have_line (λ more. again more after_line) [] after_line) scan_have-done

answer-nothing :
    {E : Type 0} (caps : CapList) (want : List ObjectId)
    → (length want == 0) ≡ false
    → answer {E = E} caps true (record { want = want; have = []; ends = [] }) ≡ ok (nak, true)
unfolding answer detailed last_line last_of ack_common
answer-nothing caps want some_left = elim (Bool-cases (has caps (codes "multi_ack_detailed"))) [
  | inl e ↦ rw (e, answer, some_left) refl
  | inr e ↦ rw (e, answer) refl
]

module _ {E : Type 0} (get : ObjectId → Result E Object) (walk_fuel : ℕ) where
  not_met :
      (before : Talk) (want_id : ObjectId) (s : Talk) (id : ObjectId)
      → before.have ≡ []
      → s ≡ before
      → (meet want_id s id (get id)).0 ≡ before
  unfolding meet
  not_met before want_id s id none_there same = elim (Result-cases (get id)) [
    | inr (e, bad) ↦ rw (bad, meet) same
    | inl (obj, has_it) ↦
        let unknown : lookup id s.have ≡ none =
          ap (λ t. lookup id t.have) same ∙ ap (lookup id) none_there ∙ unfold lookup in refl in
        rw (has_it, meet, unknown) same
  ]

  nothing_found :
      (before t : Talk)
      → before.have ≡ []
      → walk_wants get walk_fuel before.want before ≡ ok t
      → t ≡ before
  nothing_found before t none_there =
      walk_wants-keeps get (λ s. s ≡ before)
        (λ want_id s id same. not_met before want_id s id none_there same) walk_fuel before.want
        before t refl

  negotiate-nothing :
      (caps : CapList) (fuel : ℕ) (want : List ObjectId) (t : Talk)
      → (length want == 0) ≡ false
      → walk_wants get walk_fuel want (record { want = want; have = []; ends = [] }) ≡ ok t
      → negotiate get walk_fuel caps
          (suc fuel)
          want
          []
          (record { stream = send_line (codes "done") ++ []; at_eof = true })
          []
        ≡ agreed nak []
  unfolding negotiate talk_step talk_round next
  negotiate-nothing caps fuel want t some_left walked =
      let r : Pktline.Reader = record { stream = send_line (codes "done") ++ []; at_eof = false } in
      let n = length (send_line (codes "done") ++ []) in
      let start : Talk = record { want = want; have = []; ends = [] } in
      let again : List ObjectId → List ObjectId → Pktline.Reader → Bytes → Negotiated E =
        λ a b c d. negotiate get walk_fuel caps fuel a b c d in
      let one_more : n + 1 ≡ suc n = omega arith in
      let haves = ap (λ k. read_have_lines {E = E} k [] r) one_more ∙ read_have_lines-done n in
      let kept = walked ∙ ap ok (nothing_found start t refl walked) in
      ap (talk_step get walk_fuel caps again want [] []) haves
      ∙ ap
          (λ found. elim found [
            | err e ↦ wrong [] e
            | ok u ↦ elim (answer caps true u) [
              | err e ↦ wrong [] e
              | ok (more, last) ↦
                  if last
                  then agreed more u.ends
                  else again u.want u.ends (record { stream = []; at_eof = false }) more
            ]
          ])
          kept
      ∙ ap
          (λ found. elim found [
            | err e ↦ wrong [] e
            | ok (more, last) ↦
                if last
                then agreed more []
                else again want [] (record { stream = []; at_eof = false }) more
          ])
          (answer-nothing caps want some_left)

le-add_key : (id : ObjectId) (want : List ObjectId) → length want ≤ length (add_key id want)
unfolding add_key
le-add_key id want = ground (arith, length-append want (id ∷ []))

le-add_keys : (want ids : List ObjectId) → length want ≤ length (add_keys want ids)
unfolding add_keys
le-add_keys want [] = omega arith
le-add_keys want (id ∷ ids) = omega (arith, le-add_key id want, le-add_keys (add_key id want) ids)

wants_there : (id : ObjectId) (ids : List ObjectId) → (length (add_keys [] (id ∷ ids)) == 0) ≡ false
unfolding add_keys add_key mem
wants_there id ids = ground (arith, le-add_keys (id ∷ []) ids)

asked_wants :
    {E : Type 0} (fuel : ℕ) (w : Wants) (id : ObjectId) (caps : Bytes) (ids : List ObjectId)
    (rest : Bytes)
    → All IsId (id ∷ ids)
    → Stops is_space caps
    → All (λ s. length s ≤ max_payload_len) (first_want id caps ∷ map want_text ids)
    → length ids + 1 < fuel
    → read_wants {E = E} fuel w (record {
      stream = send_lines (first_want id caps ∷ map want_text ids) ++ rest;
      at_eof = false;
    })
      ≡ ok (record {
        want = add_keys w.want (id ∷ ids);
        start = w.start ++ (id ∷ ids);
        caps = scan_caps w.caps caps;
        rest = record { stream = rest; at_eof = true };
      })
unfolding send_lines add_keys
asked_wants zero w id caps ids rest h stop small enough = absurd (omega arith)
asked_wants {E = E} (suc fuel) w id caps ids rest (h, hs) stop (small, smalls) enough =
    let others = send_lines (map want_text ids) in
    let c = scan_caps w.caps caps in
    let w' : Wants = record w {
      want = add_key id w.want;
      start = w.start ++ (id ∷ []);
      caps = c;
    } in
    ap (λ s. read_wants {E = E} (suc fuel) w (record { stream = s; at_eof = false }))
      (append_assoc (send_line (first_want id caps)) others rest)
    ∙ want_line fuel w id c (first_want id caps) (others ++ rest) small
        (scan_first_want w.caps id caps h stop)
    ∙ other_wants fuel w' ids rest hs smalls (omega arith)
    ∙ ap
        (λ start. ok (record {
          want = add_keys (add_key id w.want) ids;
          start = start;
          caps = c;
          rest = record { stream = rest; at_eof = true };
        }))
        (append_assoc w.start (id ∷ []) ids)

module _ {E : Type 0} (get : ObjectId → Result E Object) (walk_fuel : ℕ)
    (sort : List ObjHeader → List ObjHeader) (deflate : Bytes → Bytes)
    (sha1 : Bytes → ObjectId) where
  serve-nothing :
      (w : Wants) (t : Talk)
      → (length w.want == 0) ≡ false
      → sub w.caps capabilities ≡ []
      → w.rest ≡ record { stream = send_line (codes "done") ++ []; at_eof = true }
      → walk_wants get walk_fuel w.want (record { want = w.want; have = []; ends = [] }) ≡ ok t
      → serve get walk_fuel sort deflate sha1 w ≡ (
        nak ++ (send_wanted get walk_fuel sort deflate sha1 w.start []).0,
        (send_wanted get walk_fuel sort deflate sha1 w.start []).1,
      )
  unfolding serve
  serve-nothing w t some_left known there walked =
      let n = length (send_line (codes "done") ++ []) in
      let one_more : n + 1 ≡ suc n = omega arith in
      let r : Pktline.Reader = record { stream = send_line (codes "done") ++ []; at_eof = true } in
      let all_known : (length (sub w.caps capabilities) == 0) ≡ true =
        ap (λ c. length c == 0) known in
      let talked =
        ap (λ x. negotiate get walk_fuel w.caps (length x.stream + 1) w.want [] x []) there
        ∙ ap (λ k. negotiate get walk_fuel w.caps k w.want [] r []) one_more
        ∙ negotiate-nothing get walk_fuel w.caps n w.want t some_left walked in
      rw (some_left, serve, all_known, talked) refl

  -- A client that wants objects, knows no other capabilities than the server and has nothing is sent NAK and the
  -- packfile of what its wants lead to, if the walks from its wants end without an error: for IDs of twenty bytes, lines
  -- within bounds, and capabilities that begin with no space.
  pub upload_pack-asked :
      (id : ObjectId) (caps : Bytes) (ids : List ObjectId) (t : Talk)
      → All IsId (id ∷ ids)
      → Stops is_space caps
      → All (λ s. length s ≤ max_payload_len) (first_want id caps ∷ map want_text ids)
      → sub (scan_caps [] caps) capabilities ≡ []
      → let want = add_keys [] (id ∷ ids) in
        walk_wants get walk_fuel want (record { want = want; have = []; ends = [] }) ≡ ok t
        → let (pack, e) = send_wanted get walk_fuel sort deflate sha1 (id ∷ ids) [] in
          upload_pack get walk_fuel sort deflate sha1 (asked id caps ids) ≡ (nak ++ pack, e)
  unfolding upload_pack new_reader
  upload_pack-asked id caps ids t h stop small known walked =
      let s = asked id caps ids in
      let last = send_line (codes "done") in
      let none_yet : Wants = record {
        want = [];
        start = [];
        caps = [];
        rest = record { stream = s; at_eof = false };
      } in
      let w : Wants = record {
        want = add_keys [] (id ∷ ids);
        start = id ∷ ids;
        caps = scan_caps [] caps;
        rest = record { stream = last; at_eof = true };
      } in
      let enough : length ids + 1 < length s + 1 = omega (
        arith,
        length-append (send_lines (first_want id caps ∷ map want_text ids)) last,
        length-send_lines (first_want id caps ∷ map want_text ids) small,
        length-map want_text ids,
      ) in
      ap
        (λ found. elim found [
          | err e ↦ ([], some e)
          | ok x ↦ serve get walk_fuel sort deflate sha1 x
        ])
        (asked_wants {E = E} (length s + 1) none_yet id caps ids last h stop small enough)
      ∙ serve-nothing w t (wants_there id ids) known
          (ap (λ x. record { stream = x; at_eof = true }) (sym (append-nil last))) walked
