-- ===== src/Packfile/Tests.antt =====
-- Runs of the package packfile, and its theorems at concrete inputs.
use go_git_scm.Base.{ℕ, ◌≤◌, ◌≡◌, ◌⊎◌, refl, List, [], ◌∷◌, ok, length, arith, codes}
use go_git_scm.Packfile.Base128.{
  put_uvarint, write_base128_le, read_mbe_loop, read_base128_mbe, write_mbe_loop, write_base128_mbe,
}
use go_git_scm.Packfile.Delta.Mask.{put_uvarint_mask_loop, put_uvarint_mask}
use go_git_scm.Packfile.Delta.Apply.{Slice, apply_delta}
use go_git_scm.Packfile.Delta.Apply.Ends.{Ends, apply_delta-Ends}
use go_git_scm.Packfile.Delta.Substring.{
  substring_row, substring_rows, substring_main, longest_common_substring,
}
use go_git_scm.Packfile.Delta.Substring.Found.{IsCommon, nothing_found}
use go_git_scm.Packfile.Delta.Substring.Longest.{
  longest_common_substring-IsCommon, longest_common_substring-le,
}
use go_git_scm.Packfile.Delta.Compute.{compute_delta}
use go_git_scm.Packfile.Delta.RoundTrip.{apply_delta-compute_delta}

write_mbe_300 : write_base128_mbe 300 ≡ ok (0x81 ∷ 0x2c ∷ [])
unfolding write_base128_mbe write_mbe_loop
write_mbe_300 = refl

read_mbe_300 : read_base128_mbe (0x81 ∷ 0x2c ∷ 7 ∷ []) ≡ ok (300, 7 ∷ [])
unfolding read_base128_mbe read_mbe_loop
read_mbe_300 = refl

write_le_300 : write_base128_le 300 ≡ ok (0xac ∷ 0x02 ∷ [])
unfolding write_base128_le put_uvarint
write_le_300 = refl

mask_65536 : put_uvarint_mask 20 0x010002 ≡ ok (5, 2 ∷ 1 ∷ [])
unfolding put_uvarint_mask put_uvarint_mask_loop
mask_65536 = refl

substring_run :
    longest_common_substring (codes "xabcy") (codes "zzabc") ≡ record { ai = 1; bj = 2; n = 3 }
unfolding longest_common_substring substring_main substring_rows substring_row
substring_run = refl

substring_none : longest_common_substring (1 ∷ 2 ∷ []) (3 ∷ 4 ∷ 5 ∷ []) ≡ nothing_found
unfolding longest_common_substring substring_main substring_rows substring_row
substring_none = refl

abbrev base : Slice
base = record { bytes = codes "hello"; spare = 0 ∷ [] }

apply_delta-compute_delta_example :
    (d : List ℕ) × (compute_delta (codes "help") (codes "hello") ≡ ok d)
    × (apply_delta 100 base (record { bytes = d; spare = 9 ∷ [] }) ≡ ok (codes "help"))
apply_delta-compute_delta_example =
    apply_delta-compute_delta 100 base (codes "help") (9 ∷ []) (omega arith) (omega arith)
      (omega arith)

longest_common_substring-IsCommon_example :
    (longest_common_substring (codes "xabcy") (codes "zzabc") ≡ nothing_found)
    ⊎ IsCommon
        (codes "xabcy")
        (codes "zzabc")
        (longest_common_substring (codes "xabcy") (codes "zzabc"))
longest_common_substring-IsCommon_example =
    longest_common_substring-IsCommon (codes "xabcy") (codes "zzabc")

longest_common_substring-le_example :
    2 ≤ (longest_common_substring (codes "xabcy") (codes "zzabc")).n
longest_common_substring-le_example =
    longest_common_substring-le (codes "xabcy") (codes "zzabc") 1 2 2 (omega arith) (omega arith)
      refl

apply_delta-Ends_example :
    Ends
      (λ out. length out ≤ 100)
      (apply_delta 100 base (record { bytes = 5 ∷ 3 ∷ 0x90 ∷ 3 ∷ []; spare = [] }))
apply_delta-Ends_example =
    apply_delta-Ends 100 base (record { bytes = 5 ∷ 3 ∷ 0x90 ∷ 3 ∷ []; spare = [] })
