-- ===== src/Packfile/Reader/Data.antt =====
-- The compressed body of an entry: what CopyN and flushZlib read of it.
use go_git_scm.Base.{
  ℕ, zero, suc, ◌+◌, ◌≤◌, ◌<◌, ◌≡◌, refl, [], ◌∷◌, ◌++◌, none, some, ok, err, length, take,
  take-all, ltb, ltb→lt, if◌then◌else◌, Bool-cases, inl, inr, arith,
}
use go_git_scm.Object.{Bytes}
use go_git_scm.Packfile.Reader.{Zlib, byte, at_end, copy_n, flush_zlib, read_data, zlib_error}

-- The reader gives these bytes and then io.EOF, and leaves `rest` of its stream.
pub data Yields {Z : Type 0} (zlib : Zlib Z) : Z → Bytes → Bytes → Type 0 where
  ends : {z z' : Z} → zlib.read z ≡ at_end z' → Yields zlib z [] (zlib.unread z')
  more :
      {z z' : Z} {b : ℕ} {s rest : Bytes}
      → zlib.read z ≡ byte b z'
      → Yields zlib z' s rest
      → Yields zlib z (b ∷ s) rest

-- What the documentation of zlib says of a reader on compressed bytes with others behind them.
abbrev pub Inflates : {Z : Type 0} → Zlib Z → (Bytes → Bytes) → Type 0
Inflates {Z} zlib deflate =
    (s rest : Bytes) → (z : Z) × (zlib.start (deflate s ++ rest) ≡ some z) × Yields zlib z s rest

module _ {Z : Type 0} (zlib : Zlib Z) where
  -- CopyN of as many bytes as there are, or fewer.
  copy_n_lem :
      (size : ℕ) (z : Z) (s rest : Bytes)
      → Yields zlib z s rest
      → size ≤ length s
      → (z' : Z) × (tail : Bytes) × (copy_n zlib size z ≡ some (take size s, z'))
        × Yields zlib z' tail rest
        × (size + length tail ≡ length s)
  unfolding copy_n
  copy_n_lem zero z s rest y h = (z, s, refl, y, omega arith)
  copy_n_lem (suc size) z [] rest y h = absurd (omega arith)
  copy_n_lem (suc size) z (b ∷ s) rest (more {z' = z1} e y) h =
      let (z', tail, copied, y', n) = copy_n_lem size z1 s rest y (omega arith) in
      (z', tail, rw (e, copy_n, copied) refl, y', omega arith)

  copy_n_short :
      (size : ℕ) (z : Z) (s rest : Bytes)
      → Yields zlib z s rest
      → length s < size
      → copy_n zlib size z ≡ none
  unfolding copy_n
  copy_n_short zero z s rest y h = absurd (omega arith)
  copy_n_short (suc size) z [] rest (ends e) h = rw (e, copy_n) refl
  copy_n_short (suc size) z (b ∷ s) rest (more {z' = z1} e y) h =
      rw (e, copy_n, copy_n_short size z1 s rest y (omega arith)) refl

  flush_end :
      (z : Z) (tail rest : Bytes)
      → Yields zlib z tail rest
      → length tail ≡ 0
      → (z' : Z) × (flush_zlib zlib z ≡ some z') × (zlib.unread z' ≡ rest)
  unfolding flush_zlib
  flush_end z [] rest (ends {z' = z1} e) h = (z1, rw (e, flush_zlib) refl, refl)
  flush_end z (b ∷ tail) rest y h = absurd (omega arith)

  flush_any :
      (z : Z) (tail rest : Bytes)
      → Yields zlib z tail rest
      → (z' : Z) × (flush_zlib zlib z ≡ some z')
  unfolding flush_zlib
  flush_any z [] rest (ends {z' = z1} e) = (z1, rw (e, flush_zlib) refl)
  flush_any z (b ∷ tail) rest (more {z' = z1} e y) = (z1, rw (e, flush_zlib) refl)

  module _ (deflate : Bytes → Bytes) (inflates : Inflates zlib deflate) where
    -- Of a body of the size that the header says, the body is read, and the stream stands behind it.
    pub read_data-deflate :
        (s rest : Bytes) → read_data zlib (length s) (deflate s ++ rest) ≡ ok (s, rest)
    unfolding read_data
    read_data-deflate s rest =
        let (z, started, y) = inflates s rest in
        let (z', tail, copied, y', n) = copy_n_lem (length s) z s rest y (omega arith) in
        let (z'', flushed, left) = flush_end z' tail rest y' (omega arith) in
        rw
          (
            started,
            read_data,
            copied,
            read_data,
            flushed,
            read_data,
            take-all s (length s) (omega arith),
            left,
          )
          refl

    read_data_short :
        (size : ℕ) (s rest : Bytes)
        → length s < size
        → read_data zlib size (deflate s ++ rest) ≡ err zlib_error
    unfolding read_data
    read_data_short size s rest short =
        let (z, started, y) = inflates s rest in
        rw (started, read_data, copy_n_short size z s rest y short) refl

    read_data_enough :
        (size : ℕ) (s rest : Bytes)
        → size ≤ length s
        → (left : Bytes) × (read_data zlib size (deflate s ++ rest) ≡ ok (take size s, left))
    unfolding read_data
    read_data_enough size s rest long =
        let (z, started, y) = inflates s rest in
        let (z', tail, copied, y', n) = copy_n_lem size z s rest y long in
        let (z'', flushed) = flush_any z' tail rest y' in
        (zlib.unread z'', rw (started, read_data, copied, read_data, flushed) refl)

    -- Where zlib inflates what was deflated: a body that is shorter than its header says is an error, and of one that
    -- is longer no error is made: as much is read of it as the header says.
    pub read_data-wrong_size :
        (size : ℕ) (s rest : Bytes)
        → (left : Bytes) × (read_data zlib size (deflate s ++ rest)
            ≡ (if ltb (length s) size then err zlib_error else ok (take size s, left)))
    read_data-wrong_size size s rest = elim (Bool-cases (ltb (length s) size)) [
      | inl e ↦ ([], rw e (read_data_short size s rest (ltb→lt (length s) size e)))
      | inr e ↦
          let (left, reads) = read_data_enough size s rest (ground arith) in (left, rw e reads)
    ]
