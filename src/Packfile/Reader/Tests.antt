-- ===== src/Packfile/Reader/Tests.antt =====
-- The Reader at concrete inputs.
use go_git_scm.Base.{
  ℕ, ◌≡◌, refl, [], ◌∷◌, ◌++◌, Option, none, some, ok, err, length, take, codes, arith, ltb,
  if◌then◌else◌, bytes_eq,
}
use go_git_scm.Object.{Bytes, ObjectId, Object, blob, type_of, type_string}
use go_git_scm.Object.Print.{print_nat, digits}
use go_git_scm.Object.Marshal.{body_of, marshal_binary, blob_binary, prepend_header}
use go_git_scm.Object.Unmarshal.Binary.{a_blob, Same}
use go_git_scm.Repository.Mem.{Repo, new_repository}
use go_git_scm.Packfile.Base128.{write_base128_le, put_uvarint}
use go_git_scm.Packfile.Header.{write_obj_header}
use go_git_scm.Packfile.Writer.{
  Writer, write_object, write_data, write_based, write_entry, encode, base_ref, marshal_obj,
  after_zero,
}
use go_git_scm.Packfile.Writer.Stream.{Fits}
use go_git_scm.Packfile.Reader.{
  Store, Reader, advance, read_data, zlib_error, store_object, read_object,
}
use go_git_scm.Packfile.Reader.Data.{read_data-wrong_size}
use go_git_scm.Packfile.Reader.Entries.{Has, read_object-write_object}
use go_git_scm.Packfile.Reader.Plain.{plain, plain_deflate, plain-Inflates, short_hash}
use go_git_scm.Packfile.Reader.Stores.{mem_store}

read_data-wrong_size_example :
    (left : Bytes) × (read_data plain 1 (plain_deflate (codes "hi") ++ [])
      ≡ (if ltb (length (codes "hi")) 1 then err zlib_error else ok (take 1 (codes "hi"), left)))
read_data-wrong_size_example =
    read_data-wrong_size plain plain_deflate plain-Inflates 1 (codes "hi") []

abbrev first_entry : Writer
first_entry = record { written = codes "PACK"; n = 1; prev = λ t. none }

-- The entry of a blob: type 3 and size 4, and the compressed body.
abbrev help_entry : Bytes
help_entry = 52 ∷ 4 ∷ codes "help"

abbrev before_help : Reader Repo
before_help = record {
  rest = help_entry ++ codes "more";
  digested = codes "PACK";
  n = 1;
  ofs = λ i. none;
  repo = new_repository;
}

help_written :
    (write_object plain_deflate short_hash first_entry (blob (codes "help"))).0.written
    ≡ codes "PACK" ++ help_entry
unfolding write_object marshal_obj marshal_binary blob_binary prepend_header type_string print_nat
    digits after_zero bytes_eq write_data write_based encode write_entry write_obj_header
    write_base128_le put_uvarint base_ref type_of
help_written = refl

read_object-write_object_example :
    (obj' : Object) × ((write_object plain_deflate short_hash first_entry (blob (codes "help"))).1
      ≡ none)
    × Same (blob (codes "help")) obj'
    × (type_of obj' ≡ type_of (blob (codes "help")))
    × (body_of obj' ≡ body_of (blob (codes "help")))
    × (read_object (mem_store short_hash) short_hash 100 [] [] plain before_help
        ≡ store_object
            (mem_store short_hash)
            short_hash
            100
            []
            []
            (record (advance before_help (codes "more")) { n = 0 })
            4
            (type_of (blob (codes "help")))
            (body_of (blob (codes "help")))
            obj')
unfolding body_of Fits Has
read_object-write_object_example =
    read_object-write_object plain plain_deflate plain-Inflates (mem_store short_hash) short_hash
      (λ x. refl) 100 [] [] first_entry (blob (codes "help")) help_entry before_help (codes "more")
      (omega arith) (omega arith) (omega arith) tt (a_blob (codes "help")) help_written refl
      (omega arith) tt

-- A repository that has the empty blob under every ID.
abbrev empty_blobs : Store (Unit {0})
empty_blobs = record { get = λ r id. some (blob []); put = λ r obj. (tt, none) }

abbrev before_delta : (ℕ → Option ObjectId) → Reader (Unit {0})
before_delta ofs = record {
  rest = 98 ∷ 1 ∷ 2 ∷ 0 ∷ 0 ∷ [];
  digested = codes "PACK";
  n = 1;
  ofs = ofs;
  repo = tt;
}
