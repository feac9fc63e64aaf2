-- ===== src/Protocol/Upload.antt =====
-- protocol/upload-pack.go: what UploadPack reads of a client. Maps are lists in the order of an iteration.
use go_git_scm.Base.{
  ℕ, zero, suc, Bool, false, List, [], ◌∷◌, ◌++◌, none, some, Result, ok, err, codes, bytes_eq,
  if◌then◌else◌,
}
use go_git_scm.Base.Map.{insert}
use go_git_scm.Object.{Bytes, ObjectId}
use go_git_scm.Pktline
use go_git_scm.Pktline.{eof, unexpected_eof, too_long, Line, new_reader, next, read_line}
use go_git_scm.Repository.Walk.{mem}
use go_git_scm.Protocol.Capabilities.{CapList}
use go_git_scm.Protocol.Commands.{
  HaveLine, nothing, no_word, word, word_and_id, scan_want, scan_have,
}
use go_git_scm.Protocol.Unpack.{SendError}

-- An error of ReadLine, a line that is not scanned, capabilities that are not known, a command other than "have",
-- an error of Walk, an index into an empty slice, and an error of sending the packfile. The fuel of
-- the rounds, or of a walk, may run out.
pub data Error (E : Type 0) : Type 0 where
  in_line : Pktline.Error → Error E
  bad_line bad_have no_common out_of_rounds out_of_walk : Error E
  unrecognized : CapList → Error E
  bad_command : Bytes → Error E
  in_walk : E → Error E
  in_pack : SendError → Error E

-- The map `want` and the slice `start`.
pub record Wants : Type 0 where
  pub want : List ObjectId
  pub start : List ObjectId
  pub caps : CapList
  pub rest : Pktline.Reader

-- `want[id] = true`
unfoldable pub add_key : ObjectId → List ObjectId → List ObjectId
add_key id want = if mem id want then want else want ++ (id ∷ [])

-- `delete(want, id)`
unfoldable pub remove_key : ObjectId → List ObjectId → List ObjectId
remove_key id [] = []
remove_key id (x ∷ xs) = let rest = remove_key id xs in if bytes_eq x id then rest else x ∷ rest

-- io.EOF, of a flush-pkt, ends the loop.
unfoldable pub want_error :
    {E : Type 0} → Wants → Pktline.Reader → Pktline.Error → Result (Error E) Wants
want_error w r eof = ok (record w { rest = r })
want_error w r e = err (in_line e)

unfoldable pub want_round :
    {E : Type 0}
    → (Wants → Pktline.Reader → Result (Error E) Wants)
    → Wants
    → Pktline.Reader × Line
    → Result (Error E) Wants
want_round next w (r, line) = elim line.error [
  | some e ↦ want_error w r e
  | none ↦ elim (scan_want w.caps line.text) [
    | none ↦ err bad_line
    | some found ↦
        next
          (record w {
            want = add_key (found.0) w.want;
            start = w.start ++ (found.0 ∷ []);
            caps = found.1;
          })
          r
  ]
]

unfoldable pub read_wants : {E : Type 0} → ℕ → Wants → Pktline.Reader → Result (Error E) Wants
read_wants zero w r = err out_of_rounds
read_wants (suc fuel) w r = want_round (λ w' r'. read_wants fuel w' r') w (read_line r)

-- What readHaveLines returns: the map, with the error nil, io.EOF or another.
pub data Ending (E : Type 0) : Type 0 where
  flushed done : Ending E
  broken : Error E → Ending E

pub record Haves (E : Type 0) : Type 0 where
  pub have : List (ObjectId × Bool)
  pub ending : Ending E
  pub rest : Pktline.Reader

abbrev ends_with : {E : Type 0} → List (ObjectId × Bool) → Pktline.Reader → Ending E → Haves E
ends_with have r e = record { have = have; ending = e; rest = r }

-- A line that is no io.EOF and no error goes through the switch.
unfoldable pub have_line :
    {E : Type 0}
    → (List (ObjectId × Bool) → Haves E)
    → List (ObjectId × Bool)
    → Pktline.Reader
    → HaveLine
    → Haves E
have_line next have r nothing = ends_with have r flushed
have_line next have r no_word = ends_with have r (broken bad_have)
have_line next have r (word cmd early) = ends_with have r (
    if bytes_eq cmd (codes "done")
    then done
    else (if early then broken (in_line unexpected_eof) else broken bad_have))
have_line next have r (word_and_id cmd id) =
    let more = next (insert id false have) in
    if bytes_eq cmd (codes "have") then more else ends_with have r (broken (bad_command cmd))

unfoldable pub have_error : {E : Type 0} → Pktline.Error → Ending E
have_error eof = flushed
have_error e = broken (in_line e)

unfoldable pub have_round :
    {E : Type 0}
    → (List (ObjectId × Bool) → Pktline.Reader → Haves E)
    → List (ObjectId × Bool)
    → Pktline.Reader × Line
    → Haves E
have_round next have (r, line) = elim line.error [
  | some e ↦ ends_with have r (have_error e)
  | none ↦ have_line (λ more. next more r) have r (scan_have line.text)
]

unfoldable pub read_have_lines :
    {E : Type 0} → ℕ → List (ObjectId × Bool) → Pktline.Reader → Haves E
read_have_lines zero have r = ends_with have r (broken out_of_rounds)
read_have_lines (suc fuel) have r =
    have_round (λ more r'. read_have_lines fuel more r') have (read_line r)
