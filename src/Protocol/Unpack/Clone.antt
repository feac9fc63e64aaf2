-- ===== src/Protocol/Unpack/Clone.antt =====
-- The objects that one side sends, the other has when it has unpacked them.
use go_git_scm.Base.{
  ℕ, ◌+◌, ◌-◌, ◌/◌, ◌%◌, ◌*◌, ◌^◌, ◌≤◌, ◌<◌, ◌≡◌, ◌≢◌, inl, inr, refl, sym, ap, ◌∙◌, true,
  Bool-cases, List, [], ◌∷◌, ◌++◌, append_assoc, append-nil, Option, none, some, ok, length,
  take-all, All, arith, ◌==◌, ==_self, le→leb, bytes_eq, bytes_eq_self, codes,
}
use go_git_scm.Object.{Bytes, ObjectId, id_size, zero_id, Object, type_of}
use go_git_scm.Object.Marshal.{body_of}
use go_git_scm.Object.Unmarshal.Binary.{IsReadable}
use go_git_scm.Packfile.Header.{max_size}
use go_git_scm.Packfile.Writer.{hash_obj, Writer, new_writer, set_prev, write_object, big_endian}
use go_git_scm.Packfile.Writer
use go_git_scm.Packfile.Writer.Stream.{Fits}
use go_git_scm.Packfile.Reader.{
  Zlib, Store, Reader, advance, new_reader, from_big_endian, store_object, set_ofs, read_object,
  got,
}
use go_git_scm.Packfile.Reader
use go_git_scm.Packfile.Reader.Data.{Inflates}
use go_git_scm.Packfile.Reader.Stores.{IsStore}
use go_git_scm.Packfile.Reader.Entries.{written_entry}
use go_git_scm.Protocol.Unpack.Steps.{Reads, Reads-nil, Reads-cons}
use go_git_scm.Protocol.Unpack.Holds.{Holds, Kept}
use go_git_scm.Protocol.Unpack.{send_all, send_pack, unpack_loop, unpack}

-- The objects that the IDs stand for.
pub data Found (get : ObjectId → Option Object) : List ObjectId → List Object → Type 0 where
  found_none : Found get [] []
  found_one :
      {id : ObjectId} {obj : Object} {ids : List ObjectId} {objs : List Object}
      → get id ≡ some obj
      → Found get ids objs
      → Found get (id ∷ ids) (obj ∷ objs)

Found-length :
    (get : ObjectId → Option Object) (ids : List ObjectId) (objs : List Object)
    → Found get ids objs
    → length ids ≡ length objs
Found-length get [] [] found_none = refl
Found-length get [] (obj ∷ objs) found = elim found [ ]
Found-length get (id ∷ ids) [] found = elim found [ ]
Found-length get (id ∷ ids) (obj ∷ objs) (found_one e found) =
    omega (arith, Found-length get ids objs found)

new_reader_lem :
    {R : Type 0} (repo : R) (n : ℕ) (rest : Bytes)
    → n < 2 ^ 32
    → new_reader repo ((codes "PACK" ++ big_endian 3 ++ big_endian n) ++ rest)
      ≡ ok (record {
        rest = rest;
        digested = codes "PACK" ++ big_endian 3 ++ big_endian n;
        n = n;
        ofs = λ i. none;
        repo = repo;
      })
unfolding new_reader big_endian from_big_endian bytes_eq
new_reader_lem repo n rest small =
    let sum : (((0 * 256 + n / 2 ^ 24 % 256) * 256 + n / 2 ^ 16 % 256) * 256 + n / 2 ^ 8 % 256)
            * 256
          + n % 256
        ≡ n =
      omega arith in
    let started = codes "PACK" ++ big_endian 3 ++ big_endian n in
    rw (le→leb 12 (length (started ++ rest)) (omega arith), sum) refl

module _ {Z : Type 0} (zlib : Zlib Z) (deflate : Bytes → Bytes) (inflates : Inflates zlib deflate)
    (sha1 : Bytes → ObjectId) (sizes : (x : Bytes) → length (sha1 x) ≡ id_size) {R : Type 0}
    (store : Store R) (laws : IsStore sha1 store) (limit : ℕ) (spare spare' : List ℕ)
    (Good : ℕ → Bytes → Type 0)
    (apart : (t u : ℕ) (b c : Bytes)
      → Good t b
      → Good u c
      → hash_obj sha1 t b ≡ hash_obj sha1 u c
      → (t ≡ u) × (b ≡ c))
    (non_zero : (t : ℕ) (b : Bytes) → Good t b → hash_obj sha1 t b ≢ zero_id) where
  -- An object that can be sent and read back.
  pub record IsSent (obj : Object) : Type 0 where
    pub readable : IsReadable obj
    pub small : length (body_of obj) ≤ max_size
    pub fits : length (body_of obj) ≤ limit
    pub good : Good (type_of obj) (body_of obj)

  Fits-set_prev :
      (prev : ℕ → Option Bytes) (u : ℕ) (body : Bytes)
      → length body ≤ max_size
      → ((t : ℕ) → Fits (prev t))
      → (t : ℕ) → Fits (set_prev prev u body t)
  unfolding set_prev Fits
  Fits-set_prev prev u body small fits t = elim (Bool-cases (t == u)) [
    | inl e ↦ rw e (omega arith)
    | inr e ↦ rw e (fits t)
  ]

  send_all-Reads :
      (get : ObjectId → Option Object) (ids : List ObjectId) (objs : List Object) (w : Writer)
      → Found get ids objs
      → All IsSent objs
      → w.n ≡ length objs
      → ((t : ℕ) → Fits (w.prev t))
      → (tail : Bytes) × (w' : Writer) × (send_all get deflate sha1 w ids ≡ (w', none))
        × (w'.written ≡ w.written ++ tail)
        × Reads zlib deflate inflates sha1 sizes store laws limit spare spare' Good apart non_zero w
            objs tail w'.written
  unfolding send_all
  send_all-Reads get [] [] w found_none sent n_eq fits = (
    [],
    w,
    refl,
    sym (append-nil w.written),
    Reads-nil zlib deflate inflates sha1 sizes store laws limit spare spare' Good apart non_zero w,
  )
  send_all-Reads get [] (obj ∷ objs) w found sent n_eq fits = elim found [ ]
  send_all-Reads get (id ∷ ids) [] w found sent n_eq fits = elim found [ ]
  send_all-Reads get (id ∷ ids) (obj ∷ objs) w (found_one e found) (h, sent) n_eq fits =
      let (entry, obj', wrote, same, same_type, same_body, reads) =
        written_entry zlib deflate inflates store sha1 sizes limit spare spare' w obj (omega arith)
          h.small h.fits (fits (type_of obj)) h.readable in
      let w1 = record w {
        written = w.written ++ entry;
        n = w.n - 1;
        prev = set_prev w.prev (type_of obj) (body_of obj);
      } in
      let (tail, w', sends, written, next) =
        send_all-Reads get ids objs w1 found sent (omega arith)
          (Fits-set_prev w.prev (type_of obj) (body_of obj) h.small fits) in
      (
        entry ++ tail,
        w',
        rw (e, send_all, wrote, send_all, wrote) sends,
        written ∙ append_assoc w.written entry tail,
        Reads-cons zlib deflate inflates sha1 sizes store laws limit spare spare' Good apart
            non_zero w obj obj' objs entry tail w'.written h.good same_type same_body reads next,
      )

  close_lem :
      (r : Reader R) (last : Bytes)
      → Reader.close sha1 (record r { rest = sha1 last; digested = last; n = 0 }) ≡ none
  unfolding Reader.close
  close_lem r last =
      rw
        (
          le→leb id_size (length (sha1 last)) (omega (arith, sizes last)),
          take-all (sha1 last) id_size (omega (arith, sizes last)),
          bytes_eq_self (sha1 last),
        )
        refl

  had_before :
      (repo repo' : R)
      → ((t : ℕ) (b : Bytes) → Good t b → Holds sha1 store repo t b → Holds sha1 store repo' t b)
      → (before : List Object) → All (λ o. Good (type_of o) (body_of o)) before
      → All (λ o. Holds sha1 store repo (type_of o) (body_of o)) before
      → All (λ o. Holds sha1 store repo' (type_of o) (body_of o)) before
  had_before repo repo' still [] g h = tt
  had_before repo repo' still (o ∷ os) (g, gs) (h, hs) =
      (still (type_of o) (body_of o) g h, had_before repo repo' still os gs hs)

  unpack_started :
      (repo : R) (n : ℕ) (rest : Bytes)
      → n < 2 ^ 32
      → unpack store sha1 limit spare spare' zlib repo
          ((codes "PACK" ++ big_endian 3 ++ big_endian n) ++ rest)
        ≡ unpack_loop store sha1 limit spare spare' zlib n (record {
          rest = rest;
          digested = codes "PACK" ++ big_endian 3 ++ big_endian n;
          n = n;
          ofs = λ i. none;
          repo = repo;
        })
  unfolding unpack
  unpack_started repo n rest small = rw (new_reader_lem repo n rest small, unpack) refl

  -- Where the objects under the IDs can be sent and there are less than 2^32 of them, they are sent without an
  -- error; unpack of the bytes, into any repository, ends without an error, and afterwards the repository has under
  -- the ID of each object one of the same type and body, and still has those that it had before.
  pub unpack-send_pack :
      (get : ObjectId → Option Object) (ids : List ObjectId) (objs before : List Object) (repo : R)
      → Found get ids objs
      → All IsSent objs
      → length objs < 2 ^ 32
      → All (λ o. Good (type_of o) (body_of o)) before
      → All (λ o. Holds sha1 store repo (type_of o) (body_of o)) before
      → (bytes : Bytes) × (repo' : R) × (send_pack get deflate sha1 ids ≡ (bytes, none))
        × (unpack store sha1 limit spare spare' zlib repo bytes ≡ (repo', none))
        × All (λ o. Holds sha1 store repo' (type_of o) (body_of o)) objs
        × All (λ o. Holds sha1 store repo' (type_of o) (body_of o)) before
  unfolding send_pack new_writer Writer.close Reads
  unpack-send_pack get ids objs before repo found sent few good had =
      let same = Found-length get ids objs found in
      let started = codes "PACK" ++ big_endian 3 ++ big_endian (length ids) in
      let w : Writer = record { written = started; n = length ids; prev = λ t. none } in
      let (tail, w', sends, written, reads) =
        send_all-Reads get ids objs w found sent same (λ t. unfold Fits in tt) in
      let last = w'.written in
      let wraps : length ids % 2 ^ 32 ≡ length ids = omega arith in
      let fits_header : ((length ids % 2 ^ 32) == length ids) ≡ true =
        rw wraps (==_self (length ids)) in
      let r : Reader R = record {
        rest = tail ++ sha1 last;
        digested = started;
        n = length ids;
        ofs = λ i. none;
        repo = repo;
      } in
      let (repo', looped, held, still) =
        reads r (sha1 last) same refl refl (λ t. unfold Kept in tt) in
      (
        last ++ sha1 last,
        repo',
        rw (fits_header, send_pack, sends, send_pack, sends) refl,
        ap (λ s. unpack store sha1 limit spare spare' zlib repo (s ++ sha1 last)) written
            ∙ ap (unpack store sha1 limit spare spare' zlib repo)
                (append_assoc started tail (sha1 last))
            ∙ unpack_started repo (length ids) (tail ++ sha1 last) (omega arith)
            ∙ ap (λ k. unpack_loop store sha1 limit spare spare' zlib k r) same
            ∙ looped
            ∙ ap (λ c. (repo', c)) (close_lem r last),
        held,
        had_before repo repo' still before good had,
      )
