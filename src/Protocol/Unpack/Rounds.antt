-- ===== src/Protocol/Unpack/Rounds.antt =====
-- protocol/receive-pack.go: the loop of unpack, and what its calls of ReadObject keep. `P` is a property of the
-- repository that every PutObject keeps.
use go_git_scm.Base.{
  ℕ, zero, suc, ◌-◌, ◌≤◌, ◌≡◌, ◌≢◌, refl, ap, sym, subst, ◌∙◌, Bool-cases, inl, inr, List, Option,
  none, some, Option-cases, Result, ok, err, Result-cases, arith, leb, ◌&&◌, ◌==◌, ==_iff, length,
  bytes_eq,
}
use go_git_scm.Object.{Bytes, ObjectId, zero_id, Object, type_of}
use go_git_scm.Packfile.Delta.Apply.{apply_delta}
use go_git_scm.Packfile.Header.{read_obj_header}
use go_git_scm.Packfile.Writer.{marshal_obj}
use go_git_scm.Packfile.Reader.{
  Zlib, Store, Reader, Outcome, failed, refused, put_error, got, store_object, unmarshal_obj,
  finish, finish_delta, resolve, read_base, read_data, read_entry, read_object, advance, Error,
  out_of_fuel, new_reader,
}
use go_git_scm.Protocol.Unpack.Refusals.{
  read_base-ends, read_data-ends, same_error, close-ends, Opens, new_reader-Opens,
}
use go_git_scm.Protocol.Unpack.{unpack_loop, after_object, unpack}

-- The errors are those of the code, the repository has the property, and the Reader that goes on expects `n` objects.
unfoldable pub IsFair : {R : Type 0} → (R → Type 0) → ℕ → Outcome R → Type 0
IsFair P n (failed e) = e ≢ out_of_fuel
IsFair P n (refused r e) = P r.repo × (e ≢ out_of_fuel)
IsFair P n (put_error r obj) = P r.repo
IsFair P n (got r obj) = P r.repo × (r.n ≡ n)

-- The same of the end of unpack.
abbrev pub IsDone : {R : Type 0} → (R → Type 0) → R × Option Error → Type 0
IsDone P p = P p.0 × (p.1 ≢ some out_of_fuel)

after_object-IsDone :
    {R : Type 0} (P : R → Type 0) (n : ℕ) (repo : R) (go : Reader R → R × Option Error)
    (o : Outcome R)
    → P repo
    → ((r : Reader R) → P r.repo → r.n ≡ n → IsDone P (go r))
    → IsFair P n o
    → IsDone P (after_object go repo o)
unfolding after_object IsFair
after_object-IsDone P n repo go (failed e) h ends fair = (h, λ at. fair cc)
after_object-IsDone P n repo go (refused r e) h ends (k, fair) = (k, λ at. fair cc)
after_object-IsDone P n repo go (put_error r obj) h ends k = (k, λ at. absurd cc)
after_object-IsDone P n repo go (got r obj) h ends (k, same) = ends r k same

module _ {R : Type 0} (store : Store R) (sha1 : Bytes → ObjectId) (limit : ℕ)
    (spare spare' : List ℕ) (P : R → Type 0)
    (keeps : (r : R) (obj : Object) → P r → P (store.put r obj).0) where
  store_object-IsFair :
      (r : Reader R) (i t : ℕ) (body : Bytes) (obj : Object)
      → P r.repo
      → IsFair P r.n (store_object store sha1 limit spare spare' r i t body obj)
  unfolding IsFair store_object
  store_object-IsFair r i t body obj h = elim (Option-cases (store.put r.repo obj).1) [
    | inl e ↦ rw (e, store_object) (keeps r.repo obj h)
    | inr (id, e) ↦ rw (e, store_object) (keeps r.repo obj h, refl)
  ]

  finish-IsFair :
      (r : Reader R) (i t : ℕ) (body : Bytes)
      → P r.repo
      → IsFair P r.n (finish store sha1 limit spare spare' r i t body)
  unfolding IsFair finish
  finish-IsFair r i t body h = elim (Bool-cases (leb 1 t && leb t 4)) [
    | inl e ↦ rw e (elim (Option-cases (unmarshal_obj t body)) [
      | inl u ↦ rw (u, finish) (h, λ at. absurd cc)
      | inr (obj, u) ↦ rw (u, finish) (store_object-IsFair r i t body obj h)
    ])
    | inr e ↦ rw e (h, λ at. absurd cc)
  ]

  finish_delta-IsFair :
      (r : Reader R) (i : ℕ) (base : Object) (delta : Bytes)
      → P r.repo
      → IsFair P r.n (finish_delta store sha1 limit spare spare' r i base delta)
  unfolding IsFair finish_delta
  finish_delta-IsFair r i base delta h = elim (Result-cases (marshal_obj base)) [
    | inl (body, e) ↦
        elim (Result-cases (
          apply_delta limit (record { bytes = body; spare = spare })
            (record { bytes = delta; spare = spare' }))) [
              | inl (made, u) ↦
                  rw (e, finish_delta, u, finish_delta) (finish-IsFair r i (type_of base) made h)
              | inr (x, u) ↦ rw (e, finish_delta, u, finish_delta) (h, λ at. absurd cc)
            ]
    | inr (x, e) ↦ rw (e, finish_delta) (h, λ at. absurd cc)
  ]

  resolve-IsFair :
      (r : Reader R) (i t : ℕ) (id : Option ObjectId) (text : Bytes)
      → P r.repo
      → IsFair P r.n (resolve store sha1 limit spare spare' r i t id text)
  unfolding IsFair resolve
  resolve-IsFair r i t none text h = (h, λ at. absurd cc)
  resolve-IsFair r i t (some id) text h = elim (Bool-cases (bytes_eq id zero_id)) [
    | inl e ↦ rw e (finish-IsFair r i t text h)
    | inr e ↦ rw e (elim (Option-cases (store.get r.repo id)) [
      | inl u ↦ rw (u, resolve) (h, λ at. absurd cc)
      | inr (base, u) ↦ rw (u, resolve) (finish_delta-IsFair r i base text h)
    ])
  ]

  module _ {Z : Type 0} (zlib : Zlib Z) where
    read_entry-ends :
        (r : Reader R) → read_entry store sha1 limit spare spare' zlib r ≢ err out_of_fuel
    unfolding read_entry
    read_entry-ends r = elim (Result-cases (read_obj_header r.rest)) [
      | inr (e, u) ↦ rw (u, read_entry) (λ at. absurd cc)
      | inl ((t, size, s), u) ↦ elim (Result-cases (read_base r t s)) [
        | inr (e, v) ↦
            rw (u, read_entry, v) (λ at. read_base-ends r t s (v ∙ ap err (same_error e _ at refl)))
        | inl ((base, s'), v) ↦ elim (Result-cases (read_data zlib size s')) [
          | inr (e, w) ↦
              rw (u, read_entry, v, w)
                (λ at. read_data-ends zlib size s' (w ∙ ap err (same_error e _ at refl)))
          | inl (found, w) ↦ rw (u, read_entry, v, w) (λ at. absurd cc)
        ]
      ]
    ]

    -- Whatever ReadObject does, it takes the object off Len.
    pub read_object-IsFair :
        (r : Reader R)
        → P r.repo
        → IsFair P (r.n - 1) (read_object store sha1 limit spare spare' zlib r)
    unfolding IsFair read_object advance
    read_object-IsFair r h = elim (Bool-cases (r.n == 0)) [
      | inl e ↦ rw e (h, λ at. absurd cc)
      | inr e ↦ rw e (elim (Result-cases (read_entry store sha1 limit spare spare' zlib r)) [
        | inl (((t, base, text), s), u) ↦
            rw (u, read_object)
              (resolve-IsFair (record (advance r s) { n = r.n - 1 }) (length r.digested) t base text
                h)
        | inr (x, u) ↦ rw (u, read_object) (λ same. read_entry-ends r (u ∙ ap err same))
      ])
    ]

    unpack_loop-IsDone :
        (fuel : ℕ) (r : Reader R)
        → r.n ≤ fuel
        → P r.repo
        → IsDone P (unpack_loop store sha1 limit spare spare' zlib fuel r)
    unfolding unpack_loop
    unpack_loop-IsDone zero r enough h = rw ((==_iff r.n 0).1 (omega arith)) (h, close-ends sha1 r)
    unpack_loop-IsDone (suc fuel) r enough h = elim (Bool-cases (r.n == 0)) [
      | inl e ↦ rw e (h, close-ends sha1 r)
      | inr e ↦ rw e (
          after_object-IsDone P (r.n - 1) r.repo _
            (read_object store sha1 limit spare spare' zlib r) h
            (λ r' k same.
              unpack_loop-IsDone fuel r' (let some_left = (==_iff r.n 0).1 in ground arith) k)
            (read_object-IsFair r h))
    ]

    -- Whatever the bytes are, unpack keeps such a property of the repository, and its loop ends within as many rounds
    -- as NewReader says that there are objects.
    pub unpack-IsDone :
        (repo : R) (s : Bytes)
        → P repo
        → IsDone P (unpack store sha1 limit spare spare' zlib repo s)
    unfolding unpack
    unpack-IsDone repo s h = opened (new_reader repo s) (new_reader-Opens repo s)
      where
        opened :
            (found : Result Error (Reader R))
            → Opens repo found
            → IsDone P (elim found [
              | err e ↦ (repo, some e)
              | ok r ↦ unpack_loop store sha1 limit spare spare' zlib r.n r
            ])
        opened (err e) other = (h, λ at. other cc)
        opened (ok r) same = unpack_loop-IsDone r.n r (omega arith) (subst P (sym same) h)

-- Whatever the bytes are, and whatever zlib, the hash and the repository do, the loop of unpack ends within as many
-- rounds as the header says that there are objects.
pub unpack-ne-out_of_fuel :
    {R : Type 0} (store : Store R) (sha1 : Bytes → ObjectId) (limit : ℕ) (spare spare' : List ℕ)
    {Z : Type 0} (zlib : Zlib Z) (repo : R) (s : Bytes)
    → (unpack store sha1 limit spare spare' zlib repo s).1 ≢ some out_of_fuel
unpack-ne-out_of_fuel store sha1 limit spare spare' zlib repo s =
    (unpack-IsDone store sha1 limit spare spare' (λ r. Unit) (λ r obj u. tt) zlib repo s tt).1
