-- ===== src/Packfile/Writer/Stream.antt =====
-- What WriteObject adds to a packfile: one entry that gives the object's body back.
use go_git_scm.Base.{
  ℕ, ◌+◌, ◌-◌, ◌≤◌, ◌<◌, ◌≡◌, refl, ap, ◌∙◌, Bool-cases, inl, inr, [], ◌++◌, Option, some, none, ok,
  pos, length, IsU64, ltb, ltb→lt, ==_of_ne, arith,
}
use go_git_scm.Object.{Bytes, ObjectId, Object, commit, tree, blob, tag, type_of}
use go_git_scm.Object.Marshal.{body_of}
use go_git_scm.Packfile.Errors.{Error}
use go_git_scm.Packfile.Header.{write_obj_header, read_obj_header, read-write_obj_header, max_size}
use go_git_scm.Packfile.Delta.Apply.{apply_delta}
use go_git_scm.Packfile.Delta.Compute.{compute_delta}
use go_git_scm.Packfile.Delta.RoundTrip.{apply_delta-compute_delta}
use go_git_scm.Packfile.Writer.{
  hash_obj, ref_delta, Writer, set_prev, encode, base_ref, write_entry, write_data, write_object,
  write_based,
}
use go_git_scm.Packfile.Writer.Body.{marshal_obj-eq-ok}

-- The bytes read as the header of an entry of that type and size.
unfoldable pub Heads : ℕ → ℕ → Bytes → Type 0
Heads t size head = (rest : Bytes) → read_obj_header (head ++ rest) ≡ ok (t, size, rest)

write_obj_header-Heads :
    (t size : ℕ)
    → t < 8
    → size ≤ max_size
    → (head : Bytes) × (write_obj_header t (pos size) ≡ ok head) × Heads t size head
unfolding Heads
write_obj_header-Heads t size ht hs =
    let (head, wrote, reads, _, _, _) = read-write_obj_header t size [] ht hs in
    (
      head,
      wrote,
      λ rest. let (head', wrote', reads', _, _, _) = read-write_obj_header t size rest ht hs in cc,
    )

-- The delta makes the body of the base, whatever stands behind both in their arrays.
unfoldable pub Makes : Bytes → Bytes → Bytes → Type 0
Makes base d body =
    (more : ℕ) (spare spare' : Bytes)
    → apply_delta (length body + more) (record { bytes = base; spare = spare })
        (record { bytes = d; spare = spare' })
      ≡ ok body

compute_delta-Makes :
    (base body : Bytes)
    → IsU64 (length base)
    → IsU64 (length body)
    → (d : Bytes) × (compute_delta body base ≡ ok d) × Makes base d body
unfolding Makes
compute_delta-Makes base body hb hd =
    let (d, made, applied) =
      apply_delta-compute_delta (length body) (record { bytes = base; spare = [] }) body [] hb hd
        (omega arith) in
    (
      d,
      made,
      λ more spare spare'.
          let (d', made', applied') =
            apply_delta-compute_delta (length body + more) (record { bytes = base; spare = spare })
              body spare' hb hd (omega arith) in
          cc,
    )

-- The bytes of an object of type `t` in a packfile: its body as it is, or a shorter delta to the last
-- body of the type.
pub data Entry (deflate : Bytes → Bytes) (sha1 : Bytes → ObjectId) (t : ℕ) (prev : Option Bytes)
    (body : Bytes) : Bytes → Type 0 where
  whole :
      (head : Bytes)
      → Heads t (length body) head
      → Entry deflate sha1 t prev body (head ++ deflate body)
  difference :
      (base d head : Bytes)
      → prev ≡ some base
      → Makes base d body
      → length d < length body
      → Heads ref_delta (length d) head
      → Entry deflate sha1 t prev body (head ++ (hash_obj sha1 t base ++ deflate d))

-- The length of the body before, if there is one, is 64-bit.
unfoldable pub Fits : Option Bytes → Type 0
Fits none = Unit
Fits (some base) = IsU64 (length base)

module _ (deflate : Bytes → Bytes) (sha1 : Bytes → ObjectId) where
  -- One entry for the body has been written, and nothing else.
  unfoldable pub Wrote : Writer → ℕ → Option Bytes → Bytes → Writer × Option Error → Type 0
  Wrote w t base body r =
      (entry : Bytes) × Entry deflate sha1 t base body entry
      × (r ≡ (record w { written = w.written ++ entry; n = w.n - 1 }, none))

  write_entry_lem :
      (w : Writer) (t u : ℕ) (base : Option Bytes) (body : Bytes)
      → u < 8
      → length body ≤ max_size
      → (head : Bytes) × Heads u (length body) head
        × (write_entry deflate sha1 w t base (u, body) ≡ (
          record w {
            written = w.written ++ (head ++ (base_ref sha1 u t base ++ deflate body));
            n = w.n - 1;
          },
          none,
        ))
  unfolding write_entry
  write_entry_lem w t u base body hu hs =
      let (head, wrote, reads) = write_obj_header-Heads u (length body) hu hs in
      (head, reads, rw (wrote, write_entry) refl)

  write_entry-Wrote :
      (w : Writer) (t : ℕ) (base : Option Bytes) (body : Bytes)
      → t < 7
      → length body ≤ max_size
      → Wrote w t base body (write_entry deflate sha1 w t base (t, body))
  unfolding Wrote
  write_entry-Wrote w t base body ht hs =
      let (head, reads, eq) = write_entry_lem w t t base body (omega arith) hs in
      (
        head ++ deflate body,
        whole head reads,
        eq
            ∙ ap
                (λ id. (
                  record w { written = w.written ++ (head ++ (id ++ deflate body)); n = w.n - 1 },
                  none,
                ))
                (no_ref base),
      )
    where
      no_ref : (b : Option Bytes) → base_ref sha1 t t b ≡ []
      no_ref none = unfold base_ref in refl
      no_ref (some b) = unfold base_ref in ground arith

  write_entry-difference :
      (w : Writer) (t : ℕ) (base d body : Bytes)
      → Makes base d body
      → length d < length body
      → length body ≤ max_size
      → Wrote w t (some base) body (write_entry deflate sha1 w t (some base) (ref_delta, d))
  unfolding Wrote
  write_entry-difference w t base d body makes short hs =
      let (head, reads, eq) = write_entry_lem w t 7 (some base) d (omega arith) (omega arith) in
      (
        head ++ (hash_obj sha1 t base ++ deflate d),
        difference base d head refl makes short reads,
        unfold base_ref in eq,
      )

  write_based-Wrote :
      (w : Writer) (t : ℕ) (base : Option Bytes) (body : Bytes)
      → t < 7
      → length body ≤ max_size
      → Fits base
      → Wrote w t base body (write_based deflate sha1 w t body base)
  unfolding write_based encode Fits
  write_based-Wrote w t none body ht hs fits = write_entry-Wrote w t none body ht hs
  write_based-Wrote w t (some base) body ht hs fits =
      let (d, made, makes) = compute_delta-Makes base body fits (omega arith) in
      elim (Bool-cases (ltb (length d) (length body))) [
        | inl short ↦
            rw (made, write_based, short)
              (write_entry-difference w t base d body makes (ltb→lt (length d) (length body) short)
                hs)
        | inr long ↦ rw (made, write_based, long) (write_entry-Wrote w t (some base) body ht hs)
      ]

  -- WriteObject of a writer that has room, for an object and a last body of its type that are within
  -- bounds: the count goes down by one, the body becomes the last of its type, and one entry is written,
  -- the body as it is or a shorter delta that applyDelta turns into it.
  pub write_object-Wrote :
      (w : Writer) (obj : Object)
      → 0 < w.n
      → length (body_of obj) ≤ max_size
      → Fits (w.prev (type_of obj))
      → Wrote
          (record w { prev = set_prev w.prev (type_of obj) (body_of obj) })
          (type_of obj)
          (w.prev (type_of obj))
          (body_of obj)
          (write_object deflate sha1 w obj)
  unfolding write_object write_data
  write_object-Wrote w obj room hs fits =
      rw (==_of_ne w.n 0 (omega arith), marshal_obj-eq-ok obj)
        (write_based-Wrote (record w { prev = set_prev w.prev (type_of obj) (body_of obj) })
          (type_of obj) (w.prev (type_of obj)) (body_of obj) (type_of-lt obj) hs fits)
    where
      type_of-lt : (o : Object) → type_of o < 7
      type_of-lt (commit c) = unfold type_of in omega arith
      type_of-lt (tree t) = unfold type_of in omega arith
      type_of-lt (blob b) = unfold type_of in omega arith
      type_of-lt (tag g) = unfold type_of in omega arith
