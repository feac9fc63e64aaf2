-- ===== src/Packfile/Reader.antt =====
-- packfile/packfile.go: Reader, with digestReader of packfile/digest.go and unmarshalObj of
-- packfile/object.go. compress/zlib is the parameter `zlib`, crypto/sha1 the parameter `sha1`, and the repository
-- the parameter `store`: nothing is assumed of them. `limit` is the largest length that `make` can allocate, and
-- `spare` is what stands behind a slice in its array.
pub mod Data
pub mod Stores
pub mod Entries
pub mod Offsets
pub mod Plain
mod Tests
use go_git_scm.Base.{
  ℕ, zero, suc, ◌+◌, ◌-◌, ◌*◌, ◌^◌, Bool, ◌||◌, ◌&&◌, List, [], ◌∷◌, ◌++◌, Option, none, some,
  Result, ok, err, ◌>>=◌, ◌>>◌, guard, length, take, drop, ltb, leb, ◌==◌, if◌then◌else◌, codes,
  bytes_eq,
}
use go_git_scm.Object.{Bytes, ObjectId, id_size, zero_id, Object, type_of, type_string}
use go_git_scm.Object.Print.{print_nat}
use go_git_scm.Object.Unmarshal.{unmarshal_as}
use go_git_scm.Packfile.Base128.{read_base128_mbe}
use go_git_scm.Packfile.Header.{read_obj_header}
use go_git_scm.Packfile.Delta.Apply.{apply_delta}
use go_git_scm.Packfile.Errors
use go_git_scm.Packfile.Writer.{marshal_obj, hash_obj, ref_delta}

-- The errors of Reader. `in_number` is one of the numbers of an entry, `zlib_error` any of zlib, the data that
-- ends too early included, and `not_an_object` any of UnmarshalBinary.
pub data Error : Type 0 where
  eof unexpected_eof out_of_fuel header version checksum offset_overflow zlib_error bad_offset
        object_not_exist put_failed not_an_object :
      Error
  in_number : Errors.Error → Error
  in_delta : Errors.Error → Error
  type_error : ℕ → Error

-- What one byte asked of a zlib reader gives: the byte, io.EOF or an error.
pub data Read (Z : Type 0) : Type 0 where
  byte : ℕ → Z → Read Z
  at_end : Z → Read Z
  broken : Read Z

-- zlib.NewReader or Reset on a stream, the reads of that, and what it has left of the stream. It reads from an
-- io.ByteReader, so it takes no byte behind the compressed data.
pub record Zlib (Z : Type 0) : Type 0 where
  pub start : Bytes → Option Z
  pub read : Z → Read Z
  pub unread : Z → Bytes

-- GetObject and PutObject; none is an error.
pub record Store (R : Type 0) : Type 0 where
  pub get : R → ObjectId → Option Object
  pub put : R → Object → R × Option ObjectId

-- `rest` is what is left of the stream, and `digested` what has been read of it: Tell is its length, and
-- Sum its hash. The map `ofs` goes from offsets to IDs.
pub record Reader (R : Type 0) : Type 0 where
  pub rest : Bytes
  pub digested : Bytes
  pub n : ℕ
  pub ofs : ℕ → Option ObjectId
  pub repo : R

-- The bytes up to `rest` have been read.
unfoldable pub advance : {R : Type 0} → Reader R → Bytes → Reader R
advance r rest = record r {
  rest = rest;
  digested = r.digested ++ take (length r.rest - length rest) r.rest;
}

unfoldable pub from_big_endian : ℕ → Bytes → ℕ
from_big_endian x [] = x
from_big_endian x (c ∷ s) = from_big_endian (x * 256 + c) s

abbrev pub header_size : ℕ
header_size = 12

-- NewReader with the repository `repo`.
unfoldable pub new_reader : {R : Type 0} → R → Bytes → Result Error (Reader R)
new_reader repo s = do
  guard (leb header_size (length s)) (if length s == 0 then eof else unexpected_eof)
  guard (bytes_eq (take 4 s) (codes "PACK")) header
  let v = from_big_endian 0 (take 4 (drop 4 s))
  guard (leb 2 v && leb v 3) version
  ok (record {
    rest = drop header_size s;
    digested = take header_size s;
    n = from_big_endian 0 (take 4 (drop 8 s));
    ofs = λ i. none;
    repo = repo;
  })

-- What ReadObject does. After `failed` the Reader is not in a consistent state, and is not modelled; after
-- `refused` and `put_error` reading can go on. With `put_error` the object is returned beside the error.
pub data Outcome (R : Type 0) : Type 0 where
  failed : Error → Outcome R
  refused : Reader R → Error → Outcome R
  put_error : Reader R → Object → Outcome R
  got : Reader R → Object → Outcome R

abbrev pub offset_delta : ℕ
offset_delta = 6

-- `r.ofs[pos-int64(negOfs)]`, where a negative offset is in no map
unfoldable pub base_at : {R : Type 0} → Reader R → ℕ → Option ObjectId
base_at r neg_ofs =
    if leb neg_ofs (length r.digested) then r.ofs (length r.digested - neg_ofs) else none

-- The base that an entry names, and what follows: the ID is zero if the entry is no delta, and none is
-- ErrBadOffset.
unfoldable pub read_base :
    {R : Type 0} → Reader R → ℕ → Bytes → Result Error (Option ObjectId × Bytes)
read_base r obj_type s =
    let by_offset : Result Error (Option ObjectId × Bytes) = elim (read_base128_mbe s) [
      | err e ↦ err (in_number e)
      | ok (neg_ofs, s') ↦
          if leb (2 ^ 63) neg_ofs then err offset_overflow else ok (base_at r neg_ofs, s')
    ] in
    let by_id : Result Error (Option ObjectId × Bytes) =
      if leb id_size (length s)
      then ok (some (take id_size s), drop id_size s)
      else err (if length s == 0 then eof else unexpected_eof) in
    if obj_type == offset_delta
    then by_offset
    else (if obj_type == ref_delta then by_id else ok (some zero_id, s))

-- unmarshalObj
unfoldable pub unmarshal_obj : ℕ → Bytes → Option Object
unmarshal_obj t body =
    unmarshal_as t (type_string t ++ codes " " ++ print_nat (length body) ++ (0 ∷ body))

-- `r.ofs[pos] = id`
unfoldable pub set_ofs : (ℕ → Option ObjectId) → ℕ → ObjectId → ℕ → Option ObjectId
set_ofs ofs pos id i = if i == pos then some id else ofs i

module _ {Z : Type 0} (zlib : Zlib Z) where
  -- io.CopyN from a zlib reader
  unfoldable pub copy_n : ℕ → Z → Option (Bytes × Z)
  copy_n zero z = some ([], z)
  copy_n (suc size) z = elim (zlib.read z) [
    | broken ↦ none
    | at_end z' ↦ none
    | byte b z' ↦ elim (copy_n size z') [ none ↦ none | some (text, z'') ↦ some (b ∷ text, z'') ]
  ]

  -- A byte more is no error: the first test of flushZlib returns the nil error that its second one asks for.
  unfoldable pub flush_zlib : Z → Option Z
  flush_zlib z = elim (zlib.read z) [ broken ↦ none | at_end z' ↦ some z' | byte b z' ↦ some z' ]

  -- The body of an entry: the data of a size, and what follows.
  unfoldable pub read_data : ℕ → Bytes → Result Error (Bytes × Bytes)
  read_data size s = elim (zlib.start s) [
    | none ↦ err zlib_error
    | some z ↦ elim (copy_n size z) [
      | none ↦ err zlib_error
      | some (text, z') ↦ elim (flush_zlib z') [
        | none ↦ err zlib_error
        | some z'' ↦ ok (text, zlib.unread z'')
      ]
    ]
  ]

module _ {R : Type 0} (store : Store R) (sha1 : Bytes → ObjectId) (limit : ℕ)
    (spare spare' : List ℕ) where
  -- PutObject, and the new entry of the map: on an error the ID is computed here.
  unfoldable pub store_object : Reader R → ℕ → ℕ → Bytes → Object → Outcome R
  store_object r pos t body obj =
      let put = store.put r.repo obj in
      elim (put.1) [
        | none ↦
            put_error (record r { repo = put.0; ofs = set_ofs r.ofs pos (hash_obj sha1 t body) })
              obj
        | some id ↦ got (record r { repo = put.0; ofs = set_ofs r.ofs pos id }) obj
      ]

  -- New and unmarshalObj
  unfoldable pub finish : Reader R → ℕ → ℕ → Bytes → Outcome R
  finish r pos t body =
      let made : Outcome R = elim (unmarshal_obj t body) [
        | none ↦ refused r not_an_object
        | some obj ↦ store_object r pos t body obj
      ] in
      if leb 1 t && leb t 4 then made else refused r (type_error t)

  -- The delta is applied to the object.
  unfoldable pub finish_delta : Reader R → ℕ → Object → Bytes → Outcome R
  finish_delta r pos base delta = elim (marshal_obj base) [
    | err e ↦ refused r (type_error (type_of base))
    | ok text ↦
        elim (apply_delta limit (record { bytes = text; spare = spare })
          (record { bytes = delta; spare = spare' })) [
            | err e ↦ refused r (in_delta e)
            | ok body ↦ finish r pos (type_of base) body
          ]
  ]

  -- The part of ReadObject that does not read the stream.
  unfoldable pub resolve : Reader R → ℕ → ℕ → Option ObjectId → Bytes → Outcome R
  resolve r pos t none text = refused r bad_offset
  resolve r pos t (some id) text =
      let based : Outcome R = elim (store.get r.repo id) [
        | none ↦ refused r object_not_exist
        | some base ↦ finish_delta r pos base text
      ] in
      if bytes_eq id zero_id then finish r pos t text else based

  module _ {Z : Type 0} (zlib : Zlib Z) where
    -- The entry: its type, the base it names, and its data.
    unfoldable pub read_entry : Reader R → Result Error ((ℕ × Option ObjectId × Bytes) × Bytes)
    read_entry r = elim (read_obj_header r.rest) [
      | err e ↦ err (in_number e)
      | ok (t, size, s) ↦ do
        (base, s') ← read_base r t s
        (text, s'') ← read_data zlib size s'
        ok ((t, base, text), s'')
    ]

    unfoldable pub read_object : Reader R → Outcome R
    read_object r =
        let go : Outcome R = elim (read_entry r) [
          | err e ↦ failed e
          | ok ((t, base, text), s) ↦
              resolve (record (advance r s) { n = r.n - 1 }) (length r.digested) t base text
        ] in
        if r.n == 0 then refused r eof else go

-- Close: the hash has 20 bytes.
unfoldable pub close : {R : Type 0} → (Bytes → ObjectId) → Reader R → Option Error
close sha1 r =
    if leb id_size (length r.rest)
    then (if bytes_eq (take id_size r.rest) (sha1 r.digested) then none else some checksum)
    else some (if length r.rest == 0 then eof else unexpected_eof)
