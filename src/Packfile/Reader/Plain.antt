-- ===== src/Packfile/Reader/Plain.antt =====
-- A stand-in for zlib and SHA-1 in the tests: compressed bytes are the length and the bytes themselves.
use go_git_scm.Base.{
  refl, [], ◌∷◌, Option, none, some, length, take, drop, take-append, drop-append, replicate,
}
use go_git_scm.Object.{Bytes, ObjectId}
use go_git_scm.Packfile.Reader.{Zlib, Read, byte, at_end}
use go_git_scm.Packfile.Reader.Data.{Yields, ends, more, Inflates}

unfoldable plain_read : Bytes × Bytes → Read (Bytes × Bytes)
plain_read ([], rest) = at_end ([], rest)
plain_read (b ∷ s, rest) = byte b (s, rest)

unfoldable plain_start : Bytes → Option (Bytes × Bytes)
plain_start [] = none
plain_start (n ∷ s) = some (take n s, drop n s)

pub plain : Zlib (Bytes × Bytes)
plain = record { start = plain_start; read = plain_read; unread = λ z. z.1 }

abbrev pub plain_deflate : Bytes → Bytes
plain_deflate s = length s ∷ s

plain-Yields : (s rest : Bytes) → Yields plain (s, rest) s rest
unfolding plain plain_read
plain-Yields [] rest = ends refl
plain-Yields (b ∷ s) rest = more refl (plain-Yields s rest)

pub plain-Inflates : Inflates plain plain_deflate
unfolding plain plain_start
plain-Inflates s rest = (
  (s, rest),
  rw (take-append s rest (length s) refl, drop-append s rest (length s) refl) refl,
  plain-Yields s rest,
)

-- A hash that tells the lengths apart.
abbrev pub short_hash : Bytes → ObjectId
short_hash s = 1 ∷ length s ∷ replicate 18 0
