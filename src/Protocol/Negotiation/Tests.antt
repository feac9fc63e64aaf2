-- ===== src/Protocol/Negotiation/Tests.antt =====
-- A repository of one blob: a client asks for it, and another says that it has it.
use go_git_scm.Base.{
  ◌≢◌, ◌≡◌, refl, [], ◌∷◌, ◌++◌, Result, ok, err, true, false, codes, arith, replicate, bytes_eq,
  if◌then◌else◌, some,
}
use go_git_scm.Base.Map.{lookup, insert}
use go_git_scm.Object.{Bytes, ObjectId, Object, blob}
use go_git_scm.Object.Print.{id_string, hex_encode}
use go_git_scm.Fmt.Rune.{is_space, is_blank, read_rune, encode_rune}
use go_git_scm.Fmt.Scan.{skip_space, no_newline, span, span_loop}
use go_git_scm.Packfile.Reader.Plain.{plain_deflate, short_hash}
use go_git_scm.Repository.Walk.{mem, refs_of, push_all, visit, walk_loop, walk}
use go_git_scm.Protocol.Capabilities.{sub, sub_loop, has, capabilities}
use go_git_scm.Protocol.Commands.{scan_caps, scan_caps_loop}
use go_git_scm.Protocol.Upload.{add_key, remove_key, out_of_rounds}
use go_git_scm.Protocol.Negotiation.{Talk, through, meet, walk_wants, nak, send_wanted, upload_pack}
use go_git_scm.Protocol.Negotiation.Met.{IsMet, walk_wants-IsMet}
use go_git_scm.Protocol.Negotiation.Clone.{add_keys, asked, upload_pack-asked}
use go_git_scm.Protocol.Negotiation.Total.{upload_pack-ne-out_of_rounds}

abbrev sevens : ObjectId
sevens = replicate 20 7

abbrev get : ObjectId → Result Bytes Object
get id = if bytes_eq id sevens then ok (blob (codes "hello")) else err id

abbrev has_it : Talk
has_it = record { want = sevens ∷ []; have = (sevens, false) ∷ []; ends = [] }

abbrev met : Talk
met = record { want = []; have = (sevens, true) ∷ []; ends = sevens ∷ [] }

met_run : walk_wants get 3 (sevens ∷ []) has_it ≡ ok met
unfolding walk_wants walk walk_loop visit mem push_all refs_of bytes_eq meet through lookup insert
    remove_key
met_run = refl

walk_wants-IsMet_example : IsMet get has_it met
walk_wants-IsMet_example = walk_wants-IsMet get has_it 3 met met_run

abbrev nothing_yet : Talk
nothing_yet = record { want = sevens ∷ []; have = []; ends = [] }

asked_run : walk_wants get 3 (add_keys [] (sevens ∷ [])) nothing_yet ≡ ok nothing_yet
unfolding walk_wants walk walk_loop visit mem push_all refs_of bytes_eq meet through lookup add_keys
    add_key
asked_run = refl

known_run : sub (scan_caps [] (codes "ofs-delta")) capabilities ≡ []
unfolding scan_caps scan_caps_loop skip_space no_newline span span_loop read_rune encode_rune
    is_blank is_space insert sub sub_loop has lookup bytes_eq
known_run = refl

upload_pack-asked_example :
    let (pack, e) = send_wanted get 3 (λ hdrs. hdrs) plain_deflate short_hash (sevens ∷ []) [] in
    upload_pack get 3 (λ hdrs. hdrs) plain_deflate short_hash (asked sevens (codes "ofs-delta") [])
    ≡ (nak ++ pack, e)
unfolding id_string hex_encode is_space add_keys add_key mem
upload_pack-asked_example =
    upload_pack-asked get 3 (λ hdrs. hdrs) plain_deflate short_hash sevens (codes "ofs-delta") []
      nothing_yet ((refl, omega arith), tt) (omega arith, refl) (omega arith, tt) known_run
      asked_run

upload_pack-ne-out_of_rounds_example :
    (upload_pack get 3
      (λ hdrs. hdrs)
      plain_deflate
      short_hash
      (asked sevens (codes "ofs-delta") [])).1
    ≢ some out_of_rounds
upload_pack-ne-out_of_rounds_example =
    upload_pack-ne-out_of_rounds get 3 (λ hdrs. hdrs) plain_deflate short_hash
      (asked sevens (codes "ofs-delta") [])
