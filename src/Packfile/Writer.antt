-- ===== src/Packfile/Writer.antt =====
-- packfile/packfile.go: Writer, with marshalObj and hashObj of packfile/object.go. compress/zlib is the
-- parameter `deflate`, and crypto/sha1 the parameter `sha1`: nothing is assumed of them. The underlying
-- writer takes every byte.
pub mod Body
pub mod Stream
use go_git_scm.Base.{
  ℕ, ◌-◌, ◌/◌, ◌%◌, ◌^◌, Bool, List, [], ◌∷◌, ◌++◌, Option, none, some, Result, ok, err, ◌>>=◌, ℤ,
  pos, negsuc, length, ltb, ◌==◌, if◌then◌else◌, codes,
}
use go_git_scm.Object.{Bytes, ObjectId, Object, type_of, type_string}
use go_git_scm.Object.Print.{print_nat}
use go_git_scm.Object.Marshal.{marshal_binary, type_error}
use go_git_scm.Object.Marshal
use go_git_scm.Packfile.Errors.{Error, too_many_objects, bad_type}
use go_git_scm.Packfile.Header.{write_obj_header}
use go_git_scm.Packfile.Delta.Compute.{compute_delta}

-- `data[bytes.IndexByte(data, 0)+1:]`, which is `data` itself if it has no zero byte
unfoldable pub after_zero : Bytes → Bytes → Bytes
after_zero body [] = body
after_zero body (c ∷ cs) = if c == 0 then cs else after_zero body cs

unfoldable pub marshal_obj : Object → Result Marshal.Error Bytes
marshal_obj obj = do body ← marshal_binary obj; ok (after_zero body body)

unfoldable pub hash_obj : (Bytes → ObjectId) → ℕ → Bytes → ObjectId
hash_obj sha1 t body = sha1 (type_string t ++ codes " " ++ print_nat (length body) ++ (0 ∷ body))

-- The type code of a delta that names its base.
abbrev pub ref_delta : ℕ
ref_delta = 7

-- `written` are the bytes that went through the digest writer; `prev` holds the last body of each type.
pub record Writer : Type 0 where
  pub written : Bytes
  pub n : ℕ
  pub prev : ℕ → Option Bytes

-- binary.BigEndian on a uint32
unfoldable pub big_endian : ℕ → Bytes
big_endian x = x / 2 ^ 24 % 256 ∷ x / 2 ^ 16 % 256 ∷ x / 2 ^ 8 % 256 ∷ x % 256 ∷ []

unfoldable pub new_writer : ℤ → Result Error Writer
new_writer (negsuc k) = err too_many_objects
new_writer (pos n) =
    let w : Writer = record {
      written = codes "PACK" ++ big_endian 3 ++ big_endian n;
      n = n;
      prev = λ t. none;
    } in
    if n % 2 ^ 32 == n then ok w else err too_many_objects

unfoldable pub set_prev : (ℕ → Option Bytes) → ℕ → Bytes → ℕ → Option Bytes
set_prev prev t body u = if u == t then some body else prev u

-- The type code and the bytes that are written for an object: the delta to `base` if it is shorter.
unfoldable pub encode : ℕ → Bytes → Option Bytes → Result Error (ℕ × Bytes)
encode t body none = ok (t, body)
encode t body (some base) = do
  delta ← compute_delta body base
  ok (if ltb (length delta) (length body) then (ref_delta, delta) else (t, body))

-- The ID behind the header of a delta.
unfoldable pub base_ref : (Bytes → ObjectId) → ℕ → ℕ → Option Bytes → Bytes
base_ref sha1 obj_type t none = []
base_ref sha1 obj_type t (some base) = if obj_type == ref_delta then hash_obj sha1 t base else []

module _ (deflate : Bytes → Bytes) (sha1 : Bytes → ObjectId) where
  -- The header, the ID of the base and the compressed bytes.
  unfoldable pub write_entry : Writer → ℕ → Option Bytes → ℕ × Bytes → Writer × Option Error
  write_entry w t base (obj_type, text) = elim (write_obj_header obj_type (pos (length text))) [
    | err e ↦ (w, some e)
    | ok head ↦ (
      record w {
        written = w.written ++ (head ++ (base_ref sha1 obj_type t base ++ deflate text));
        n = w.n - 1;
      },
      none,
    )
  ]

  -- The rest of WriteObject behind the change of `prev`, with the body that was there before.
  unfoldable pub write_based : Writer → ℕ → Bytes → Option Bytes → Writer × Option Error
  write_based w t body base = elim (encode t body base) [
    | err e ↦ (w, some e)
    | ok entry ↦ write_entry w t base entry
  ]

  unfoldable pub write_data : Writer → ℕ → Bytes → Writer × Option Error
  write_data w t body = write_based (record w { prev = set_prev w.prev t body }) t body (w.prev t)

  unfoldable pub write_object : Writer → Object → Writer × Option Error
  write_object w obj =
      let go : Writer × Option Error = elim (marshal_obj obj) [
        | err (type_error t) ↦ (w, some (bad_type t))
        | ok body ↦ write_data w (type_of obj) body
      ] in
      if w.n == 0 then (w, some too_many_objects) else go

  -- The bytes of the packfile after Close.
  unfoldable pub close : Writer → Bytes
  close w = w.written ++ sha1 w.written
