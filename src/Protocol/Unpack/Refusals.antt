-- ===== src/Protocol/Unpack/Refusals.antt =====
-- packfile/packfile.go: the errors with which the Reader refuses an entry, its header or its trailer; they are never the
-- lack of fuel of a loop.
use go_git_scm.Base.{
  ℕ, ◌≡◌, ◌≢◌, refl, Bool-cases, inl, inr, some, Option-cases, Result, ok, err, Result-cases, leb,
  ◌&&◌, ◌==◌, ◌^◌, length, take, drop, bytes_eq, codes,
}
use go_git_scm.Object.{Bytes, ObjectId, id_size}
use go_git_scm.Packfile.Base128.{read_base128_mbe}
use go_git_scm.Packfile.Writer.{ref_delta}
use go_git_scm.Packfile.Reader.{
  Zlib, Reader, offset_delta, read_base, read_data, copy_n, flush_zlib, Error, out_of_fuel,
  new_reader, header_size, close, from_big_endian,
}

pub read_base-ends :
    {R : Type 0} (r : Reader R) (t : ℕ) (s : Bytes) → read_base r t s ≢ err out_of_fuel
unfolding read_base
read_base-ends r t s = elim (Bool-cases (t == offset_delta)) [
  | inl by_offset ↦ elim (Result-cases (read_base128_mbe s)) [
    | inr (e, u) ↦ rw (by_offset, read_base, u) (λ at. absurd cc)
    | inl ((neg_ofs, s'), u) ↦ elim (Bool-cases (leb (2 ^ 63) neg_ofs)) [
      | inl big ↦ rw (by_offset, read_base, u, big) (λ at. absurd cc)
      | inr small ↦ rw (by_offset, read_base, u, small) (λ at. absurd cc)
    ]
  ]
  | inr other ↦ elim (Bool-cases (t == ref_delta)) [
    | inr whole ↦ rw (other, read_base, whole) (λ at. absurd cc)
    | inl by_id ↦ elim (Bool-cases (leb id_size (length s))) [
      | inl enough ↦ rw (other, read_base, by_id, enough) (λ at. absurd cc)
      | inr short ↦ elim (Bool-cases (length s == 0)) [
        | inl gone ↦ rw (other, read_base, by_id, short, gone) (λ at. absurd cc)
        | inr cut ↦ rw (other, read_base, by_id, short, cut) (λ at. absurd cc)
      ]
    ]
  ]
]

pub read_data-ends :
    {Z : Type 0} (zlib : Zlib Z) (size : ℕ) (s : Bytes) → read_data zlib size s ≢ err out_of_fuel
unfolding read_data
read_data-ends zlib size s = elim (Option-cases (zlib.start s)) [
  | inl e ↦ rw (e, read_data) (λ at. absurd cc)
  | inr (z, e) ↦ elim (Option-cases (copy_n zlib size z)) [
    | inl u ↦ rw (e, read_data, u) (λ at. absurd cc)
    | inr ((text, z'), u) ↦ elim (Option-cases (flush_zlib zlib z')) [
      | inl v ↦ rw (e, read_data, u, v) (λ at. absurd cc)
      | inr (z'', v) ↦ rw (e, read_data, u, v) (λ at. absurd cc)
    ]
  ]
]

pub same_error :
    {A : Type 0} (e : Error) (result : Result Error A)
    → result ≡ err out_of_fuel
    → result ≡ err e
    → e ≡ out_of_fuel
same_error e result at also = cc

pub close-ends :
    {R : Type 0} (sha1 : Bytes → ObjectId) (r : Reader R) → close sha1 r ≢ some out_of_fuel
unfolding close
close-ends sha1 r = elim (Bool-cases (leb id_size (length r.rest))) [
  | inl enough ↦ elim (Bool-cases (bytes_eq (take id_size r.rest) (sha1 r.digested))) [
    | inl good ↦ rw (enough, good) (λ at. absurd cc)
    | inr bad ↦ rw (enough, bad) (λ at. absurd cc)
  ]
  | inr short ↦ elim (Bool-cases (length r.rest == 0)) [
    | inl gone ↦ rw (short, gone) (λ at. absurd cc)
    | inr cut ↦ rw (short, cut) (λ at. absurd cc)
  ]
]

-- NewReader fails with an error of its own, or gives a Reader with that repository.
abbrev pub Opens : {R : Type 0} → R → Result Error (Reader R) → Type 0
Opens repo (err e) = e ≢ out_of_fuel
Opens repo (ok r) = r.repo ≡ repo

pub new_reader-Opens : {R : Type 0} (repo : R) (s : Bytes) → Opens repo (new_reader repo s)
unfolding new_reader
new_reader-Opens repo s = elim (Bool-cases (leb header_size (length s))) [
  | inr short ↦ elim (Bool-cases (length s == 0)) [
    | inl gone ↦ rw (short, gone) (λ at. absurd cc)
    | inr cut ↦ rw (short, cut) (λ at. absurd cc)
  ]
  | inl enough ↦ elim (Bool-cases (bytes_eq (take 4 s) (codes "PACK"))) [
    | inr bad ↦ rw (enough, bad) (λ at. absurd cc)
    | inl pack ↦
        let v = from_big_endian 0 (take 4 (drop 4 s)) in
        elim (Bool-cases (leb 2 v && leb v 3)) [
          | inr old ↦ rw (enough, pack, old) (λ at. absurd cc)
          | inl known ↦ rw (enough, pack, known) refl
        ]
  ]
]
