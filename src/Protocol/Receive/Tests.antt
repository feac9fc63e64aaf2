-- ===== src/Protocol/Receive/Tests.antt =====
-- A push that deletes a ref, and one whose first line is no update.
use go_git_scm.Base.{replicate, ◌≢◌, ◌≡◌, refl, [], ◌∷◌, ◌++◌, some, codes, arith}
use go_git_scm.Object.{Bytes, zero_id, blob}
use go_git_scm.Repository.Mem.Invariant.{IsValid, new_repository-IsValid}
use go_git_scm.Protocol.Unpack.{send_pack}
use go_git_scm.Protocol.Receive.Valid.{receive_pack-IsValid}
use go_git_scm.Protocol.Receive.Others.{get_ref-receive_pack}
use go_git_scm.Fmt.Rune.{is_space, is_blank, read_rune, encode_rune}
use go_git_scm.Fmt.Scan.{space, skip_space, no_newline, span, span_loop}
use go_git_scm.Object.Scan.{scan_id, hex_string}
use go_git_scm.Object.Decode.{hex_value}
use go_git_scm.Object.Print.{id_string, hex_encode}
use go_git_scm.Pktline.{new_reader, read_line, read_line_len, read_payload, digit_value, less_four}
use go_git_scm.Packfile.Reader.Plain.{plain, plain_deflate, short_hash}
use go_git_scm.Repository.Mem.{new_repository, get_ref}
use go_git_scm.Protocol.Report.{ReceiveCmd}
use go_git_scm.Protocol.Commands.{ref_rune, scan_caps, scan_command, scan_update, accept_command}
use go_git_scm.Protocol.Receive.{
  out_of_fuel, bad_line, read_commands, read_round, run_commands, receive_pack,
}
use go_git_scm.Protocol.Receive.Sent.{pushed, IsCommand, receive_pack-pushed, receive_pack-error}
use go_git_scm.Protocol.Receive.Ends.{receive_pack-ne-out_of_fuel}

abbrev delete_old : ReceiveCmd
delete_old = record { old_id = zero_id; new_id = zero_id; name = codes "refs/old" }

abbrev status : Bytes
status = codes "report-status"

delete_old-IsCommand : IsCommand delete_old
unfolding ref_rune
delete_old-IsCommand = record {
  old_id = (refl, omega arith);
  new_id = (refl, omega arith);
  name = (
    (omega arith, refl),
    (
      (omega arith, refl),
      (
        (omega arith, refl),
        (
          (omega arith, refl),
          (
            (omega arith, refl),
            ((omega arith, refl), ((omega arith, refl), ((omega arith, refl), tt))),
          ),
        ),
      ),
    ),
  );
}

receive_pack-pushed_example :
    receive_pack short_hash 100 [] [] plain
      (λ e. [])
      new_repository
      (pushed delete_old status [] ++ (7 ∷ []))
    ≡ run_commands short_hash 100 [] [] plain
        (λ e. [])
        new_repository
        (delete_old ∷ [])
        (scan_caps [] status)
        (7 ∷ [])
unfolding id_string hex_encode
receive_pack-pushed_example =
    receive_pack-pushed short_hash 100 [] [] plain (λ e. []) new_repository delete_old status []
      (7 ∷ []) (delete_old-IsCommand, tt) (omega arith, tt)

not_read :
    (receive_pack short_hash 100 [] [] plain (λ e. []) new_repository (codes "0005x")).2
    ≡ some bad_line
unfolding receive_pack read_commands read_round new_reader read_line read_line_len read_payload
    digit_value less_four scan_command accept_command scan_update scan_id skip_space no_newline span
    span_loop read_rune encode_rune is_blank is_space space hex_string hex_value
not_read = refl

receive_pack-error_example :
    ((receive_pack short_hash 100 [] [] plain (λ e. []) new_repository (codes "0005x")).0
      ≡ new_repository)
    × ((receive_pack short_hash 100 [] [] plain (λ e. []) new_repository (codes "0005x")).1 ≡ [])
receive_pack-error_example =
    receive_pack-error short_hash 100 [] [] plain (λ e. []) new_repository (codes "0005x") bad_line
      not_read

receive_pack-ne-out_of_fuel_example :
    (receive_pack short_hash 100 [] [] plain (λ e. []) new_repository (codes "0005x")).2
    ≢ some out_of_fuel
receive_pack-ne-out_of_fuel_example =
    receive_pack-ne-out_of_fuel short_hash 100 [] [] plain (λ e. []) new_repository (codes "0005x")

-- A blob and a ref that names it.
abbrev create_main : ReceiveCmd
create_main = record {
  old_id = zero_id;
  new_id = 1 ∷ 12 ∷ replicate 18 0;
  name = codes "refs/heads/main";
}

abbrev blob_pack : Bytes
blob_pack =
    (send_pack (λ id. some (blob (codes "hello"))) plain_deflate short_hash ((1 ∷ []) ∷ [])).0

receive_pack-IsValid_example :
    IsValid short_hash
      (receive_pack short_hash 100 [] [] plain
        (λ e. [])
        new_repository
        (pushed create_main status [] ++ blob_pack)).0
receive_pack-IsValid_example =
    receive_pack-IsValid short_hash 100 [] [] plain (λ e. []) new_repository
      (pushed create_main status [] ++ blob_pack) (new_repository-IsValid short_hash)

get_ref-receive_pack_example :
    get_ref
      (receive_pack short_hash 100 [] [] plain
        (λ e. [])
        new_repository
        (pushed delete_old status [] ++ blob_pack)).0
      (codes "refs/heads/main")
    ≡ get_ref new_repository (codes "refs/heads/main")
unfolding id_string hex_encode
get_ref-receive_pack_example =
    get_ref-receive_pack short_hash 100 [] [] plain (λ e. []) new_repository delete_old status []
      blob_pack (codes "refs/heads/main") (delete_old-IsCommand, tt) (omega arith, tt)
      (λ e. absurd cc, tt)
