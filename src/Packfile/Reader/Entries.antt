-- ===== src/Packfile/Reader/Entries.antt =====
-- ReadObject gives back what WriteObject has written.
use go_git_scm.Base.{
  ℕ, ◌+◌, ◌-◌, ◌≤◌, ◌<◌, ◌≡◌, ◌≢◌, refl, sym, ap, subst, ◌∙◌, false, List, ◌++◌, append_assoc,
  Option, none, some, ok, length, length-append, drop, take-append, drop-append, ==_of_ne, le→leb,
  arith, bytes_eq, bytes_eq_iff, bytes_eq_self,
}
use go_git_scm.Object.{Bytes, ObjectId, id_size, zero_id, Object, commit, tree, blob, tag, type_of}
use go_git_scm.Object.Marshal.{body_of}
use go_git_scm.Object.Unmarshal.Binary.{IsReadable, Same, Restores, as_own_type}
use go_git_scm.Packfile.Header.{max_size}
use go_git_scm.Packfile.Writer.{hash_obj, ref_delta, Writer, set_prev, write_object}
use go_git_scm.Packfile.Writer.Body.{marshal_obj-eq-ok}
use go_git_scm.Packfile.Writer.Stream.{
  Heads, Makes, Entry, whole, difference, Fits, Wrote, write_object-Wrote,
}
use go_git_scm.Packfile.Reader.{
  Zlib, Store, Reader, advance, read_base, unmarshal_obj, store_object, finish, finish_delta,
  resolve, read_entry, read_object,
}
use go_git_scm.Packfile.Reader.Data.{Inflates, read_data-deflate}

pub bytes_ne : (a b : Bytes) → a ≢ b → bytes_eq a b ≡ false
bytes_ne a b h = ground (arith, bytes_eq_iff a b)

append_cancel : (xs ys zs : Bytes) → xs ++ ys ≡ xs ++ zs → ys ≡ zs
append_cancel xs ys zs e =
    sym (drop-append xs ys (length xs) refl)
    ∙ ap (drop (length xs)) e
    ∙ drop-append xs zs (length xs) refl

type_of-range : (obj : Object) → (1 ≤ type_of obj) × (type_of obj ≤ 4)
unfolding type_of
type_of-range (commit c) = omega arith
type_of-range (tree t) = omega arith
type_of-range (blob b) = omega arith
type_of-range (tag g) = omega arith

module _ {R : Type 0} (store : Store R) (sha1 : Bytes → ObjectId) (limit : ℕ)
    (spare spare' : List ℕ) where
  -- A delta that makes a body out of the base.
  pub finish_delta_lem :
      (r : Reader R) (pos : ℕ) (base : Object) (d body : Bytes)
      → Makes (body_of base) d body
      → length body ≤ limit
      → finish_delta store sha1 limit spare spare' r pos base d
        ≡ finish store sha1 limit spare spare' r pos (type_of base) body
  unfolding finish_delta Makes
  finish_delta_lem r pos base d body makes room =
      let applied = makes (limit - length body) spare spare' in
      let same : length body + (limit - length body) ≡ limit = omega arith in
      rw (marshal_obj-eq-ok base, finish_delta, rw same at applied) refl

module _ {Z : Type 0} (zlib : Zlib Z) (deflate : Bytes → Bytes) (inflates : Inflates zlib deflate)
    {R : Type 0} (store : Store R) (sha1 : Bytes → ObjectId)
    (sizes : (x : Bytes) → length (sha1 x) ≡ id_size) (limit : ℕ) (spare spare' : List ℕ) where
  id_length : (t : ℕ) (body : Bytes) → length (hash_obj sha1 t body) ≡ id_size
  unfolding hash_obj
  id_length t body = sizes _

  -- The repository has an object of type `t` with the body, if there is one, under its ID, which is not zero.
  unfoldable pub Has : R → ℕ → Option Bytes → Type 0
  Has repo t none = Unit
  Has repo t (some body) =
      (obj : Object) × (store.get repo (hash_obj sha1 t body) ≡ some obj)
      × (type_of obj ≡ t)
      × (body_of obj ≡ body)
      × (hash_obj sha1 t body ≢ zero_id)

  whole_lem :
      (r : Reader R) (t : ℕ) (body head more : Bytes)
      → 1 ≤ t
      → t ≤ 4
      → Heads t (length body) head
      → r.rest ≡ (head ++ deflate body) ++ more
      → read_entry store sha1 limit spare spare' zlib r ≡ ok ((t, some zero_id, body), more)
  unfolding read_entry read_base Heads
  whole_lem r t body head more lo hi heads e =
      rw
        (
          e,
          append_assoc head (deflate body) more,
          heads (deflate body ++ more),
          read_entry,
          ==_of_ne t 6 (omega arith),
          ==_of_ne t 7 (omega arith),
          read_data-deflate zlib deflate inflates body more,
        )
        refl

  difference_lem :
      (r : Reader R) (id d head more : Bytes)
      → length id ≡ id_size
      → Heads ref_delta (length d) head
      → r.rest ≡ (head ++ (id ++ deflate d)) ++ more
      → read_entry store sha1 limit spare spare' zlib r ≡ ok ((ref_delta, some id, d), more)
  unfolding read_entry read_base Heads
  difference_lem r id d head more size heads e =
      let text = id ++ (deflate d ++ more) in
      let enough : id_size ≤ length text = omega (arith, length-append id (deflate d ++ more)) in
      rw
        (
          e,
          append_assoc head (id ++ deflate d) more,
          append_assoc id (deflate d) more,
          heads text,
          read_entry,
          le→leb id_size (length text) enough,
          take-append id (deflate d ++ more) id_size size,
          drop-append id (deflate d ++ more) id_size size,
          read_data-deflate zlib deflate inflates d more,
        )
        refl

  -- What the body of an entry makes.
  unfoldable Finishes : Reader R → ℕ → Bytes → Bytes → Type 0
  Finishes r t body more =
      read_object store sha1 limit spare spare' zlib r
      ≡ finish store sha1 limit spare spare' (record (advance r more) { n = r.n - 1 })
          (length r.digested) t body

  read_object-whole :
      (r : Reader R) (t : ℕ) (body head more : Bytes)
      → 0 < r.n
      → 1 ≤ t
      → t ≤ 4
      → Heads t (length body) head
      → r.rest ≡ (head ++ deflate body) ++ more
      → Finishes r t body more
  unfolding Finishes read_object resolve
  read_object-whole r t body head more room lo hi heads e =
      rw
        (
          ==_of_ne r.n 0 (omega arith),
          whole_lem r t body head more lo hi heads e,
          read_object,
          bytes_eq_self zero_id,
        )
        refl

  read_object-difference :
      (r : Reader R) (t : ℕ) (base d body head more : Bytes)
      → 0 < r.n
      → Has r.repo t (some base)
      → Makes base d body
      → length body ≤ limit
      → Heads ref_delta (length d) head
      → r.rest ≡ (head ++ (hash_obj sha1 t base ++ deflate d)) ++ more
      → Finishes r t body more
  unfolding Finishes read_object resolve Has advance
  read_object-difference r t base d body head more room (obj, found, of_type, same, some_id) makes
        fits heads e =
      let id = hash_obj sha1 t base in
      let r' = record (advance r more) { n = r.n - 1 } in
      let made =
        finish_delta_lem store sha1 limit spare spare' r' (length r.digested) obj d body
          (subst (λ b. Makes b d body) (sym same) makes) fits in
      rw
        (
          ==_of_ne r.n 0 (omega arith),
          difference_lem r id d head more (id_length t base) heads e,
          read_object,
          bytes_ne id zero_id some_id,
          found,
          resolve,
        )
        (rw of_type at made)

  -- An entry of the packfile is read as the body it was made of, with the delta applied if it is one.
  read_object-Entry :
      (r : Reader R) (t : ℕ) (prev : Option Bytes) (body entry more : Bytes)
      → 0 < r.n
      → 1 ≤ t
      → t ≤ 4
      → Has r.repo t prev
      → length body ≤ limit
      → Entry deflate sha1 t prev body entry
      → r.rest ≡ entry ++ more
      → Finishes r t body more
  read_object-Entry r t prev body entry more room lo hi has fits (whole head heads) e =
      read_object-whole r t body head more room lo hi heads e
  read_object-Entry r t prev body entry more room lo hi has fits
        (difference base d head at makes short heads) e =
      read_object-difference r t base d body head more room (subst (Has r.repo t) at has) makes fits
        heads e

  -- What WriteObject adds to the packfile, ReadObject takes off the stream.
  pub written_entry :
      (w : Writer) (obj : Object)
      → 0 < w.n
      → length (body_of obj) ≤ max_size
      → length (body_of obj) ≤ limit
      → Fits (w.prev (type_of obj))
      → IsReadable obj
      → (entry : Bytes) × (obj' : Object) × (write_object deflate sha1 w obj ≡ (
        record w {
          written = w.written ++ entry;
          n = w.n - 1;
          prev = set_prev w.prev (type_of obj) (body_of obj);
        },
        none,
      ))
        × Same obj obj'
        × (type_of obj' ≡ type_of obj)
        × (body_of obj' ≡ body_of obj)
        × ((r : Reader R) (more : Bytes)
            → 0 < r.n
            → Has r.repo (type_of obj) (w.prev (type_of obj))
            → r.rest ≡ entry ++ more
            → read_object store sha1 limit spare spare' zlib r
              ≡ store_object store sha1 limit spare spare'
                  (record (advance r more) { n = r.n - 1 })
                  (length r.digested)
                  (type_of obj)
                  (body_of obj)
                  obj')
  unfolding Wrote Restores finish unmarshal_obj Finishes
  written_entry w obj room small fits fits' readable =
      let (entry, is_entry, wrote) = write_object-Wrote deflate sha1 w obj room small fits' in
      let (obj', reads, same, same_type, same_body) = as_own_type obj readable (omega arith) in
      let (lo, hi) = type_of-range obj in
      (
        entry,
        obj',
        wrote,
        same,
        same_type,
        same_body,
        λ r more some_left has e.
            read_object-Entry r (type_of obj) (w.prev (type_of obj)) (body_of obj) entry more
              some_left lo hi has fits is_entry e
            ∙ rw (le→leb 1 (type_of obj) lo, finish, le→leb (type_of obj) 4 hi, reads) refl,
      )

  -- WriteObject of a readable object within bounds, by a writer that has room, makes no error. A Reader whose stream
  -- goes on with the bytes that it has added, that expects an object more, and whose repository has under its ID,
  -- which is not zero, the last object that was written of the type, if there is one, reads that object, of the same
  -- type and body: it takes it off the stream, counts it, and puts it into its repository and its map of offsets. This is
  -- for a zlib that gives back what was deflated and a hash of twenty bytes.
  pub read_object-write_object :
      (w : Writer) (obj : Object) (entry : Bytes) (r : Reader R) (more : Bytes)
      → 0 < w.n
      → length (body_of obj) ≤ max_size
      → length (body_of obj) ≤ limit
      → Fits (w.prev (type_of obj))
      → IsReadable obj
      → (write_object deflate sha1 w obj).0.written ≡ w.written ++ entry
      → r.rest ≡ entry ++ more
      → 0 < r.n
      → Has r.repo (type_of obj) (w.prev (type_of obj))
      → (obj' : Object) × ((write_object deflate sha1 w obj).1 ≡ none)
        × Same obj obj'
        × (type_of obj' ≡ type_of obj)
        × (body_of obj' ≡ body_of obj)
        × (read_object store sha1 limit spare spare' zlib r
            ≡ store_object store sha1 limit spare spare'
                (record (advance r more) { n = r.n - 1 })
                (length r.digested)
                (type_of obj)
                (body_of obj)
                obj')
  read_object-write_object w obj entry r more room small fits fits' readable added e some_left has =
      let (entry', obj', wrote, same, same_type, same_body, reads) =
        written_entry w obj room small fits fits' readable in
      let same_entry =
        append_cancel w.written entry' entry (sym (ap (λ p. p.0.written) wrote) ∙ added) in
      (
        obj',
        ap (λ p. p.1) wrote,
        same,
        same_type,
        same_body,
        reads r more some_left has (e ∙ ap (λ s. s ++ more) (sym same_entry)),
      )
