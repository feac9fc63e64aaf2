-- ===== src/Protocol/Unpack/Steps.antt =====
-- A Reader in step with the Writer of the packfile that it reads.
use go_git_scm.Base.{
  ℕ, ◌-◌, ◌<◌, ◌≡◌, ◌≢◌, refl, sym, ap, ◌∙◌, subst, List, [], ◌∷◌, ◌++◌, append_assoc, Option, none,
  some, length, length-append, take-append, All, arith, ==_of_ne,
}
use go_git_scm.Object.{Bytes, ObjectId, id_size, zero_id, Object, type_of}
use go_git_scm.Object.Marshal.{body_of}
use go_git_scm.Packfile.Writer.{hash_obj, Writer, set_prev}
use go_git_scm.Packfile.Reader.{
  Zlib, Store, Reader, advance, new_reader, from_big_endian, store_object, set_ofs, read_object,
  got,
}
use go_git_scm.Packfile.Reader
use go_git_scm.Packfile.Reader.Data.{Inflates}
use go_git_scm.Packfile.Reader.Stores.{IsStore, id_of}
use go_git_scm.Packfile.Reader.Entries.{Has}
use go_git_scm.Protocol.Unpack.Holds.{Holds, Kept, Holds-new, Holds-put, Kept-put}
use go_git_scm.Protocol.Unpack.{unpack_loop, after_object}

module _ {Z : Type 0} (zlib : Zlib Z) (deflate : Bytes → Bytes) (inflates : Inflates zlib deflate)
    (sha1 : Bytes → ObjectId) (sizes : (x : Bytes) → length (sha1 x) ≡ id_size) {R : Type 0}
    (store : Store R) (laws : IsStore sha1 store) (limit : ℕ) (spare spare' : List ℕ)
    (Good : ℕ → Bytes → Type 0)
    (apart : (t u : ℕ) (b c : Bytes)
      → Good t b
      → Good u c
      → hash_obj sha1 t b ≡ hash_obj sha1 u c
      → (t ≡ u) × (b ≡ c))
    (non_zero : (t : ℕ) (b : Bytes) → Good t b → hash_obj sha1 t b ≢ zero_id) where
  Kept-Has :
      (repo : R) (t : ℕ) (prev : Option Bytes)
      → Kept sha1 store Good repo t prev
      → Has zlib deflate inflates store sha1 sizes limit spare spare' repo t prev
  unfolding Kept Has Holds
  Kept-Has repo t none h = tt
  Kept-Has repo t (some b) (g, (o, found, same, same')) = (o, found, same, same', non_zero t b g)

  -- What the rest of the packfile does to a Reader in step with the Writer.
  unfoldable pub Reads : Writer → List Object → Bytes → Bytes → Type 0
  Reads w objs tail last =
      (r : Reader R) (more : Bytes)
      → r.n ≡ length objs
      → r.rest ≡ tail ++ more
      → r.digested ≡ w.written
      → ((t : ℕ) → Kept sha1 store Good r.repo t (w.prev t))
      → (repo' : R) × (unpack_loop store sha1 limit spare spare' zlib (length objs) r
          ≡ (repo', Reader.close sha1 (record r { rest = more; digested = last; n = 0 })))
        × All (λ o. Holds sha1 store repo' (type_of o) (body_of o)) objs
        × ((t : ℕ) (b : Bytes)
            → Good t b
            → Holds sha1 store r.repo t b
            → Holds sha1 store repo' t b)

  advance_lem :
      (r : Reader R) (entry more : Bytes)
      → r.rest ≡ entry ++ more
      → advance r more ≡ record r { rest = more; digested = r.digested ++ entry }
  unfolding advance
  advance_lem r entry more e =
      let size : length (entry ++ more) - length more ≡ length entry =
        omega (arith, length-append entry more) in
      rw (e, size, take-append entry more (length entry) refl) refl

  pub Reads-nil : (w : Writer) → Reads w [] [] w.written
  unfolding Reads unpack_loop Reader.close
  Reads-nil w r more none_left e same kept =
      (r.repo, rw (none_left, e, same) refl, tt, λ t b g h. h)

  -- After an object has been put.
  unfoldable taken : Reader R → Object → Object → Bytes → Bytes → Reader R
  taken r obj obj' entry more = record r {
    rest = more;
    digested = r.digested ++ entry;
    n = r.n - 1;
    repo = (store.put r.repo obj').0;
    ofs = set_ofs r.ofs (length r.digested) (id_of sha1 obj');
  }

  put_lem :
      (r : Reader R) (i t : ℕ) (body : Bytes) (obj : Object)
      → store_object store sha1 limit spare spare' r i t body obj
        ≡ got
            (record r { repo = (store.put r.repo obj).0; ofs = set_ofs r.ofs i (id_of sha1 obj) })
            obj
  unfolding store_object
  put_lem r i t body obj = rw (laws.put_id r.repo obj, store_object) refl

  store_object_lem :
      (r : Reader R) (obj obj' : Object) (entry more : Bytes)
      → r.rest ≡ entry ++ more
      → store_object store sha1 limit spare spare'
          (record (advance r more) { n = r.n - 1 })
          (length r.digested)
          (type_of obj)
          (body_of obj)
          obj'
        ≡ got (taken r obj obj' entry more) obj'
  unfolding taken
  store_object_lem r obj obj' entry more e =
      ap
        (λ a.
          store_object store sha1 limit spare spare' (record a { n = r.n - 1 }) (length r.digested)
            (type_of obj) (body_of obj) obj')
        (advance_lem r entry more e)
      ∙ put_lem _ (length r.digested) (type_of obj) (body_of obj) obj'

  pub Reads-cons :
      (w : Writer) (obj obj' : Object) (objs : List Object) (entry tail last : Bytes)
      → Good (type_of obj) (body_of obj)
      → type_of obj' ≡ type_of obj
      → body_of obj' ≡ body_of obj
      → ((r : Reader R) (more : Bytes)
          → 0 < r.n
          → Has zlib deflate inflates store sha1 sizes limit spare spare' r.repo
              (type_of obj)
              (w.prev (type_of obj))
          → r.rest ≡ entry ++ more
          → read_object store sha1 limit spare spare' zlib r
            ≡ store_object store sha1 limit spare spare'
                (record (advance r more) { n = r.n - 1 })
                (length r.digested)
                (type_of obj)
                (body_of obj)
                obj')
      → Reads
          (record w {
            written = w.written ++ entry;
            n = w.n - 1;
            prev = set_prev w.prev (type_of obj) (body_of obj);
          })
          objs
          tail
          last
      → Reads w (obj ∷ objs) (entry ++ tail) last
  unfolding Reads unpack_loop after_object taken Reader.close
  Reads-cons w obj obj' objs entry tail last g same_type same_body reads next r more n_eq e same
        kept =
      let e' = e ∙ append_assoc entry tail more in
      let good' =
        subst (λ t. Good t (body_of obj')) (sym same_type)
          (subst (Good (type_of obj)) (sym same_body) g) in
      let read =
        reads r (tail ++ more) (omega arith)
          (Kept-Has r.repo (type_of obj) (w.prev (type_of obj)) (kept (type_of obj))) e'
        ∙ store_object_lem r obj obj' entry (tail ++ more) e' in
      let r1 = taken r obj obj' entry (tail ++ more) in
      let (repo', looped, held, still) =
        next r1 more (omega arith) refl (ap (λ d. d ++ entry) same) (λ t.
          rw (same_type, same_body) at
            (Kept-put sha1 store laws Good apart r.repo obj' w.prev good' kept t)) in
      (
        repo',
        rw (==_of_ne r.n 0 (omega arith), read, unpack_loop) looped,
        (
          still (type_of obj) (body_of obj) g
              (rw (same_type, same_body) at (Holds-new sha1 store laws r.repo obj')),
          held,
        ),
        λ t b k h. still t b k (Holds-put sha1 store laws Good apart r.repo obj' t b good' k h),
      )
