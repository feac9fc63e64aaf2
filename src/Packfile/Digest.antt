-- ===== src/Packfile/Digest.antt =====
-- packfile/digest.go: digestReader and digestWriter. The reader and the writer below them and hash.Hash are
-- parameters. A bufio.Writer is modelled as bufio documents it: WriteByte and Write fill its buffer, and
-- write to the hash when the buffer is full.
pub mod Counts
mod Tests
use go_git_scm.Base.{
  ℕ, ◌+◌, ◌-◌, Bool, List, [], ◌∷◌, ◌++◌, Option, none, some, Result, ok, err, length, take, drop,
  leb, ◌==◌, if◌then◌else◌,
}
use go_git_scm.Object.{Bytes}

-- flate.Reader: what Read puts into a slice of that length and its error, and ReadByte.
pub record Source (E S : Type 0) : Type 0 where
  pub read : S → ℕ → S × Bytes × Option E
  pub read_byte : S → S × Result E ℕ

-- io.Writer: how many bytes Write takes, and its error.
pub record Sink (E W : Type 0) : Type 0 where
  pub write : W → Bytes → W × ℕ × Option E

-- hash.Hash, whose Write returns no error.
pub record Hash (H : Type 0) : Type 0 where
  pub write : H → Bytes → H
  pub sum : H → Bytes → Bytes
  pub block_size : ℕ

-- bufio.Writer over a hash
pub record Buffer (H : Type 0) : Type 0 where
  pub buffered : Bytes
  pub size : ℕ
  pub below : H

-- bufio.NewWriterSize, with its default for a size that is not positive
unfoldable pub new_buffer : {H : Type 0} → H → ℕ → Buffer H
new_buffer h size = record { buffered = []; size = if size == 0 then 4096 else size; below = h }

unfoldable pub flush : {H : Type 0} → Hash H → Buffer H → Buffer H
flush hash b =
    if length b.buffered == 0
    then b
    else record b { buffered = []; below = hash.write b.below b.buffered }

unfoldable pub put_byte : {H : Type 0} → Hash H → Buffer H → ℕ → Buffer H
put_byte hash b c =
    let room = if leb b.size (length b.buffered) then flush hash b else b in
    record room { buffered = room.buffered ++ (c ∷ []) }

-- The loop of Write: bytes that the empty buffer has no room for go to the hash at once.
unfoldable pub put_rest : {H : Type 0} → Hash H → Buffer H → Bytes → Buffer H
put_rest hash b p =
    if leb (length p) b.size
    then record b { buffered = p }
    else record b { buffered = []; below = hash.write b.below p }

unfoldable pub put : {H : Type 0} → Hash H → Buffer H → Bytes → Buffer H
put hash b p =
    let available = b.size - length b.buffered in
    if leb (length p) available
    then record b { buffered = b.buffered ++ p }
    else (if length b.buffered == 0
        then put_rest hash b p
        else put_rest hash
            (record b { below = hash.write b.below (b.buffered ++ take available p) })
            (drop available p))

pub record DigestReader (S H : Type 0) : Type 0 where
  pub source : S
  pub position : ℕ
  pub digest : Buffer H

unfoldable pub new_digest_reader : {S H : Type 0} → Hash H → S → H → DigestReader S H
new_digest_reader hash s h = record {
  source = s;
  position = 0;
  digest = new_buffer h hash.block_size;
}

unfoldable pub read :
    {E S H : Type 0}
    → Source E S
    → Hash H
    → DigestReader S H
    → ℕ
    → DigestReader S H × Bytes × Option E
read source hash r size =
    let (s, p, e) = source.read r.source size in
    (record { source = s; position = r.position + length p; digest = put hash r.digest p }, p, e)

unfoldable pub read_byte :
    {E S H : Type 0} → Source E S → Hash H → DigestReader S H → DigestReader S H × Result E ℕ
read_byte source hash r =
    let (s, found) = source.read_byte r.source in
    elim found [
      | err e ↦ (record r { source = s }, err e)
      | ok c ↦ (
        record { source = s; position = r.position + 1; digest = put_byte hash r.digest c },
        ok c,
      )
    ]

unfoldable pub read_sum :
    {S H : Type 0} → Hash H → DigestReader S H → Bytes → DigestReader S H × Bytes
read_sum hash r b =
    let flushed = flush hash r.digest in (record r { digest = flushed }, hash.sum flushed.below b)

abbrev pub read_tell : {S H : Type 0} → DigestReader S H → ℕ
read_tell r = r.position

pub record DigestWriter (W H : Type 0) : Type 0 where
  pub sink : W
  pub position : ℕ
  pub digest : H

abbrev pub new_digest_writer : {W H : Type 0} → W → H → DigestWriter W H
new_digest_writer w h = record { sink = w; position = 0; digest = h }

unfoldable pub write :
    {E W H : Type 0}
    → Sink E W
    → Hash H
    → DigestWriter W H
    → Bytes
    → DigestWriter W H × ℕ × Option E
write sink hash w p =
    let (s, n, e) = sink.write w.sink p in
    (record { sink = s; position = w.position + n; digest = hash.write w.digest (take n p) }, n, e)

unfoldable pub write_sum : {W H : Type 0} → Hash H → DigestWriter W H → Bytes → Bytes
write_sum hash w b = hash.sum w.digest b

abbrev pub write_tell : {W H : Type 0} → DigestWriter W H → ℕ
write_tell w = w.position
