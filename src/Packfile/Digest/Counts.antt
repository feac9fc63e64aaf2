-- ===== src/Packfile/Digest/Counts.antt =====
-- What Sum and Tell of a digestReader and a digestWriter return after any sequence of calls.
use go_git_scm.Base.{
  ℕ, ◌+◌, ◌-◌, ◌≤◌, true, false, List, [], ◌∷◌, ◌++◌, ok, err, length, take, drop, leb, ◌==◌, ◌≡◌,
  refl, sym, ap, ◌∙◌, arith, Bool-cases, Result-cases, ◌⊎◌, inl, inr, length-append,
  length-take_of_le, take-append-drop, append_assoc,
}
use go_git_scm.Object.{Bytes}
use go_git_scm.Packfile.Digest.{
  Source, Sink, Hash, Buffer, new_buffer, flush, put_byte, put_rest, put, DigestReader,
  new_digest_reader, read, read_byte, read_sum, read_tell, DigestWriter, new_digest_writer, write,
  write_sum, write_tell,
}

-- hash.Hash adds what it is written to a running hash: where one Write ends makes no difference.
pub record IsHash {H : Type 0} (hash : Hash H) : Type 0 where
  pub write_nil : (h : H) → hash.write h [] ≡ h
  pub write_append :
      (h : H) (xs ys : Bytes) → hash.write (hash.write h xs) ys ≡ hash.write h (xs ++ ys)

-- io.Writer takes no more bytes than it is given.
pub record IsSink {E W : Type 0} (sink : Sink E W) : Type 0 where
  pub taken : (w : W) (p : Bytes) → (sink.write w p).1 ≤ length p

empty_or : (xs : Bytes) → (((length xs == 0) ≡ true) × (xs ≡ [])) ⊎ ((length xs == 0) ≡ false)
empty_or [] = inl (refl, refl)
empty_or (x ∷ xs) = inr (ground arith)

module _ {H : Type 0} (hash : Hash H) (laws : IsHash hash) where
  -- The hash when all that is buffered is written to it.
  abbrev total : Buffer H → H
  total b = hash.write b.below b.buffered

  -- Flush leaves nothing in the buffer.
  flush-eq : (b : Buffer H) → flush hash b ≡ record b { buffered = []; below = total b }
  unfolding flush
  flush-eq b = elim (empty_or b.buffered) [
    | inl (yes_empty, e) ↦
        rw (yes_empty, flush)
          (ap (λ xs. record b { buffered = xs }) e
            ∙ ap (λ h. record b { buffered = []; below = h })
                (sym (ap (hash.write b.below) e ∙ laws.write_nil b.below)))
    | inr e ↦ rw (e, flush) refl
  ]

  put_rest-total : (b : Buffer H) (p : Bytes) → total (put_rest hash b p) ≡ hash.write b.below p
  unfolding put_rest
  put_rest-total b p = elim (Bool-cases (leb (length p) b.size)) [
    | inl e ↦ rw (e, put_rest) refl
    | inr e ↦ rw (e, put_rest) (laws.write_nil (hash.write b.below p))
  ]

  put-total : (b : Buffer H) (p : Bytes) → total (put hash b p) ≡ hash.write (total b) p
  unfolding put
  put-total b p =
      let available = b.size - length b.buffered in
      elim (Bool-cases (leb (length p) available)) [
        | inl e ↦ rw (e, put) (sym (laws.write_append b.below b.buffered p))
        | inr e ↦ elim (empty_or b.buffered) [
          | inl (yes_empty, none_there) ↦
              rw (e, put, yes_empty, put)
                (put_rest-total b p
                  ∙ ap (λ h. hash.write h p)
                      (sym (ap (hash.write b.below) none_there ∙ laws.write_nil b.below)))
          | inr some_there ↦
              rw (e, put, some_there, put)
                (put_rest-total
                    (record b { below = hash.write b.below (b.buffered ++ take available p) })
                    (drop available p)
                  ∙ laws.write_append b.below (b.buffered ++ take available p) (drop available p)
                  ∙ ap (hash.write b.below) (
                      append_assoc b.buffered (take available p) (drop available p)
                      ∙ ap (λ xs. b.buffered ++ xs) (take-append-drop available p))
                  ∙ sym (laws.write_append b.below b.buffered p))
        ]
      ]

  put_byte-total :
      (b : Buffer H) (c : ℕ) → total (put_byte hash b c) ≡ hash.write (total b) (c ∷ [])
  unfolding put_byte
  put_byte-total b c = elim (Bool-cases (leb b.size (length b.buffered))) [
    | inl e ↦ rw (e, put_byte) (ap (λ r. hash.write r.below (r.buffered ++ (c ∷ []))) (flush-eq b))
    | inr e ↦ rw (e, put_byte) (sym (laws.write_append b.below b.buffered (c ∷ [])))
  ]

-- The calls of a digestReader.
pub data Call : Type 0 where
  read_some : ℕ → Call
  read_one : Call
  take_sum : Bytes → Call

-- A call, and the bytes that it gives.
unfoldable pub call :
    {E S H : Type 0} → Source E S → Hash H → Call → DigestReader S H → DigestReader S H × Bytes
call source hash (read_some n) r = ((read source hash r n).0, (read source hash r n).1)
call source hash read_one r =
    let given : Bytes = elim ((read_byte source hash r).1) [ ok c ↦ c ∷ [] | err e ↦ [] ] in
    ((read_byte source hash r).0, given)
call source hash (take_sum b) r = ((read_sum hash r b).0, [])

unfoldable pub calls :
    {E S H : Type 0} → Source E S → Hash H → List Call → DigestReader S H → DigestReader S H × Bytes
calls source hash [] r = (r, [])
calls source hash (c ∷ cs) r =
    let (r', given) = call source hash c r in
    let (last, more) = calls source hash cs r' in (last, given ++ more)

module _ {E S H : Type 0} (source : Source E S) (hash : Hash H) (laws : IsHash hash) where
  call-total :
      (c : Call) (r : DigestReader S H)
      → let (r', given) = call source hash c r in
        (total hash laws r'.digest ≡ hash.write (total hash laws r.digest) given)
        × (r'.position ≡ r.position + length given)
  unfolding call read read_byte read_sum
  call-total (read_some n) r = (put-total hash laws r.digest _, refl)
  call-total read_one r = elim (Result-cases ((source.read_byte r.source).1)) [
    | inl (c, e) ↦ rw (e, call, read_byte) (put_byte-total hash laws r.digest c, refl)
    | inr (x, e) ↦
        rw (e, call, read_byte) (sym (laws.write_nil (total hash laws r.digest)), omega arith)
  ]
  call-total (take_sum b) r =
      (ap (λ d. total hash laws d) (flush-eq hash laws r.digest), omega arith)

  calls-total :
      (cs : List Call) (r : DigestReader S H)
      → let (r', given) = calls source hash cs r in
        (total hash laws r'.digest ≡ hash.write (total hash laws r.digest) given)
        × (r'.position ≡ r.position + length given)
  unfolding calls
  calls-total [] r = (sym (laws.write_nil (total hash laws r.digest)), omega arith)
  calls-total (c ∷ cs) r =
      let (one, count) = call-total c r in
      let (rest, counts) = calls-total cs (call source hash c r).0 in
      (
        rest
            ∙ ap (λ h. hash.write h (calls source hash cs (call source hash c r).0).1) one
            ∙ laws.write_append (total hash laws r.digest) _ _,
        omega (
          arith,
          length-append (call source hash c r).1 (calls source hash cs (call source hash c r).0).1,
        ),
      )

  -- After any calls of a new digestReader, Tell returns the number of the bytes that they gave, and Sum the
  -- sum of a hash that those bytes are written to, whatever the buffer holds, given that the hash adds what
  -- it is written to a running hash.
  pub read_sum-calls :
      (cs : List Call) (s : S) (h : H) (b : Bytes)
      → let (r, given) = calls source hash cs (new_digest_reader hash s h) in
        ((read_sum hash r b).1 ≡ hash.sum (hash.write h given) b) × (read_tell r ≡ length given)
  unfolding read_sum new_digest_reader new_buffer
  read_sum-calls cs s h b =
      let r0 = new_digest_reader hash s h in
      let (all, count) = calls-total cs r0 in
      let r = (calls source hash cs r0).0 in
      (
        ap (λ d. hash.sum d b)
            (ap (λ d. d.below) (flush-eq hash laws r.digest)
              ∙ all
              ∙ ap (λ d. hash.write d (calls source hash cs r0).1) (laws.write_nil h)),
        omega arith,
      )

-- Writes of those slices, and the bytes of them that the writer below takes.
unfoldable pub writes :
    {E W H : Type 0} → Sink E W → Hash H → List Bytes → DigestWriter W H → DigestWriter W H × Bytes
writes sink hash [] w = (w, [])
writes sink hash (p ∷ ps) w =
    let (w', n, e) = write sink hash w p in
    let (last, more) = writes sink hash ps w' in (last, take n p ++ more)

module _ {E W H : Type 0} (sink : Sink E W) (hash : Hash H) (laws : IsHash hash)
    (taking : IsSink sink) where
  writes-total :
      (ps : List Bytes) (w : DigestWriter W H)
      → let (w', taken) = writes sink hash ps w in
        (w'.digest ≡ hash.write w.digest taken) × (w'.position ≡ w.position + length taken)
  unfolding writes write
  writes-total [] w = (sym (laws.write_nil w.digest), omega arith)
  writes-total (p ∷ ps) w =
      let (rest, counts) = writes-total ps (write sink hash w p).0 in
      let n = (write sink hash w p).1 in
      let given = (writes sink hash ps (write sink hash w p).0).1 in
      (
        rest ∙ laws.write_append w.digest (take n p) given,
        omega
            (arith, length-append (take n p) given, length-take_of_le n p (taking.taken w.sink p)),
      )

  -- After any writes to a new digestWriter, Tell returns the number of the bytes that the writer below took,
  -- and Sum the sum of a hash that those bytes are written to, given that the hash adds what it is written
  -- to a running hash and that the writer takes no more than it is given.
  pub write_sum-writes :
      (ps : List Bytes) (s : W) (h : H) (b : Bytes)
      → let (w, taken) = writes sink hash ps (new_digest_writer s h) in
        (write_sum hash w b ≡ hash.sum (hash.write h taken) b) × (write_tell w ≡ length taken)
  unfolding write_sum
  write_sum-writes ps s h b =
      let (all, count) = writes-total ps (new_digest_writer s h) in
      (ap (λ d. hash.sum d b) all, omega arith)
