-- ===== src/Object/Unmarshal/Tests.antt =====
-- Objects that are written and read, and the theorems at concrete inputs.
use go_git_scm.Base.{
  map, bytes_eq, ◌<◌, ◌^◌, ◌≡◌, refl, [], ◌∷◌, some, ok, codes, replicate, pos, negsuc, length,
  arith,
}
use go_git_scm.Base.Map.{lookup}
use go_git_scm.Object.Unmarshal.Ordered.{git_name, names-IsSorted}
use go_git_scm.Object.Unmarshal.Names.{has, is_some}
use go_git_scm.Object.Marshal.{names}
use go_git_scm.Fmt.Rune.{is_space}
use go_git_scm.Object.{type_of, Bytes, Signature, Commit, commit, Tree}
use go_git_scm.Object.Marshal.{marshal_binary, body_of, commit_text, parent_lines, print_line}
use go_git_scm.Object.Print.{
  digits, print_nat, print_int, hex_encode, id_string, two_digits, zone_string, signature_string,
}
use go_git_scm.Object.Scan.{one_of, trim_right}
use go_git_scm.Object.Scan.Text.{IsSafe, IsSignature}
use go_git_scm.Object.Properties.Kinds.{save, load}
use go_git_scm.Object.Properties.Loads.{load-save}
use go_git_scm.Object.Unmarshal.{unmarshal}
use go_git_scm.Object.Unmarshal.Sorted.{IsSorted}
use go_git_scm.Object.Unmarshal.RoundTrip.{IsCommit}
use go_git_scm.Object.Unmarshal.Binary.{Restores, a_commit, unmarshal-marshal_binary}

abbrev al : Signature
al = record { name = codes "Al"; email = codes "a@b"; unix = pos 12345; offset = negsuc 5399 }

abbrev first : Commit
first = record {
  tree = replicate 20 7;
  parent = replicate 20 255 ∷ [];
  author = al;
  committer = al;
  message = codes "hi\n";
}

al-name : IsSafe (codes "Al")
unfolding one_of trim_right is_space
al-name = record {
  ascii = ((omega arith, refl), ((omega arith, refl), tt));
  begins = (omega arith, refl);
  ends = refl;
}

al-email : IsSafe (codes "a@b")
unfolding one_of trim_right is_space
al-email = record {
  ascii = ((omega arith, refl), ((omega arith, refl), ((omega arith, refl), tt)));
  begins = (omega arith, refl);
  ends = refl;
}

al-IsSignature : IsSignature al
al-IsSignature = record {
  name = al-name;
  email = al-email;
  unix = omega arith;
  offset = omega arith;
}

first-IsCommit : IsCommit first
first-IsCommit = record {
  tree = (refl, omega arith);
  parent = ((refl, omega arith), tt);
  author = al-IsSignature;
  committer = al-IsSignature;
}

first_size : length (body_of (commit first)) < 2 ^ 63
unfolding body_of commit_text parent_lines print_line id_string hex_encode signature_string
    print_int print_nat digits zone_string two_digits
first_size = omega arith

unmarshal-marshal_binary_example :
    (bytes : Bytes) × (marshal_binary (commit first) ≡ ok bytes)
    × Restores (commit first) (unmarshal bytes)
unmarshal-marshal_binary_example =
    unmarshal-marshal_binary (commit first) (a_commit first first-IsCommit) first_size

load-save_example : load (type_of (commit first)) (save (commit first)) ≡ some (commit first)
load-save_example = load-save (commit first) (a_commit first first-IsCommit)

abbrev two_entries : Tree
two_entries =
    (codes "b", record { mode = 0o100644; object = replicate 20 3 })
    ∷ (codes "a", record { mode = 0o40000; object = replicate 20 4 })
    ∷ []

names-IsSorted_example :
    IsSorted (map (git_name two_entries) (names two_entries))
    × ((n : Bytes) → has n (names two_entries) ≡ is_some (lookup n two_entries))
    × (length (names two_entries) ≡ 2)
unfolding lookup bytes_eq
names-IsSorted_example = names-IsSorted two_entries (omega arith) (refl, (refl, tt))
