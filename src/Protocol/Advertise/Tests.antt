-- ===== src/Protocol/Advertise/Tests.antt =====
-- The advertisement of an empty repository.
use go_git_scm.Base.{bytes_eq, ◌≡◌, refl, List, [], ◌∷◌, ◌++◌, false, true, codes, arith}
use go_git_scm.Base.Map.{lookup}
use go_git_scm.Object.{Bytes}
use go_git_scm.Object.Marshal.{sort_strings}
use go_git_scm.Object.Print.{id_string, hex_encode, hex_digit}
use go_git_scm.Repository.Refs.{
  has_prefix, contains, has_suffix, bad_byte, any_bad_byte, is_valid_ref,
}
use go_git_scm.Repository.Deref.{get_tag, tag_of}
use go_git_scm.Repository.Mem.{new_repository, get_object, get_ref, list_refs, get_head}
use go_git_scm.Pktline.RoundTrip.{Reads}
use go_git_scm.Protocol.Advertise.{
  advertised, or_capabilities, with_head, zip_refs, peeled_line, ref_lines, first_lines,
  advertise_refs,
}
use go_git_scm.Protocol.Advertise.Sent.{Reads-advertise_refs}

first_lines_run :
    first_lines 1 (codes "no-done") new_repository (advertised new_repository)
    ≡ ((codes "0000000000000000000000000000000000000000 capabilities^{}" ++ (0 ∷ codes "no-done"))
        ++ codes "\n")
      ∷ []
unfolding first_lines ref_lines advertised or_capabilities with_head zip_refs peeled_line get_tag
    tag_of get_object get_ref list_refs get_head new_repository sort_strings lookup is_valid_ref
    has_prefix contains has_suffix bad_byte any_bad_byte id_string hex_encode hex_digit bytes_eq
first_lines_run = refl

Reads-advertise_refs_example :
    Reads
      (record { stream = advertise_refs 1 (codes "no-done") new_repository ++ []; at_eof = false })
      (first_lines 1 (codes "no-done") new_repository (advertised new_repository))
      (record { stream = []; at_eof = true })
    × ((before : Bytes) × (more : List Bytes) × (first_lines 1
            (codes "no-done")
            new_repository
            (advertised new_repository)
          ≡ (before ++ (0 ∷ codes "no-done") ++ codes "\n") ∷ more))
Reads-advertise_refs_example =
    Reads-advertise_refs 1 (codes "no-done") new_repository []
      (rw first_lines_run (omega arith, tt))
