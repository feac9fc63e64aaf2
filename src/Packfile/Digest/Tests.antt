-- ===== src/Packfile/Digest/Tests.antt =====
-- A digestReader whose reads are mixed with sums, and a digestWriter whose writer takes three bytes a call.
use go_git_scm.Base.{
  ℕ, [], ◌∷◌, ◌++◌, none, ok, err, length, take, drop, min, ◌≡◌, refl, arith, codes, append-nil,
  append_assoc,
}
use go_git_scm.Object.{Bytes}
use go_git_scm.Packfile.Digest.{
  Source, Sink, Hash, read, read_byte, new_digest_reader, read_sum, read_tell,
}
use go_git_scm.Packfile.Digest.Counts.{
  IsHash, IsSink, call, read_some, read_one, take_sum, calls, read_sum-calls,
}

-- A stream that gives what is asked, and at its end the error 0.
abbrev stream : Source ℕ Bytes
stream = record {
  read = λ s n. (drop n s, take n s, none);
  read_byte = λ s. elim s [ [] ↦ ([], err 0) | c ∷ more ↦ (more, ok c) ];
}

abbrev three_a_call : Sink ℕ Bytes
three_a_call = record { write = λ w p. (w ++ take 3 p, min 3 (length p), none) }

-- A hash that keeps what it is written.
abbrev keeping : Hash Bytes
keeping = record { write = λ h p. h ++ p; sum = λ h b. b ++ h; block_size = 4 }

keeping-IsHash : IsHash keeping
keeping-IsHash = record {
  write_nil = λ h. append-nil h;
  write_append = λ h xs ys. append_assoc h xs ys;
}

three_a_call-IsSink : IsSink three_a_call
three_a_call-IsSink = record { taken = λ w p. omega arith }

read_sum-calls_example :
    let (r, given) =
      calls stream keeping
        (read_some 3 ∷ read_one ∷ take_sum [] ∷ read_some 9 ∷ read_one ∷ [])
        (new_digest_reader keeping (codes "a packfile") []) in
    ((read_sum keeping r (codes ":")).1 ≡ codes ":" ++ given) × (read_tell r ≡ length given)
read_sum-calls_example =
    read_sum-calls stream keeping keeping-IsHash
      (read_some 3 ∷ read_one ∷ take_sum [] ∷ read_some 9 ∷ read_one ∷ []) (codes "a packfile") []
      (codes ":")

-- All ten bytes are given, through a buffer of four.
ten_bytes :
    (calls stream keeping
      (read_some 3 ∷ read_one ∷ take_sum [] ∷ read_some 9 ∷ read_one ∷ [])
      (new_digest_reader keeping (codes "a packfile") [])).1
    ≡ codes "a packfile"
unfolding calls call read read_byte new_digest_reader read_sum
ten_bytes = refl
