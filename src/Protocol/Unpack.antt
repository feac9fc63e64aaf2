-- ===== src/Protocol/Unpack.antt =====
-- The packfile between protocol/upload-pack.go and protocol/receive-pack.go: the end of UploadPack, which sends the
-- objects under a list of IDs, and unpack, which puts those of a packfile into a repository.
pub mod Refusals
pub mod Rounds
pub mod Holds
pub mod Steps
pub mod Clone
mod Tests
use go_git_scm.Base.{
  ℕ, zero, suc, List, [], ◌∷◌, Option, none, some, Result, ok, err, pos, length, ◌==◌,
  if◌then◌else◌,
}
use go_git_scm.Object.{Bytes, ObjectId, Object}
use go_git_scm.Packfile.Errors
use go_git_scm.Packfile.Writer.{Writer, new_writer, write_object}
use go_git_scm.Packfile.Writer
use go_git_scm.Packfile.Reader.{
  Zlib, Store, Reader, new_reader, read_object, Error, out_of_fuel, put_failed, Outcome, failed,
  refused, put_error, got,
}
use go_git_scm.Packfile.Reader

-- An error of GetObject, or one of the Writer.
pub data SendError : Type 0 where
  object_not_exist : SendError
  in_writer : Errors.Error → SendError

module _ (get : ObjectId → Option Object) (deflate : Bytes → Bytes) (sha1 : Bytes → ObjectId) where
  -- The loop over the headers, which the first error ends.
  unfoldable pub send_all : Writer → List ObjectId → Writer × Option SendError
  send_all w [] = (w, none)
  send_all w (id ∷ ids) = elim (get id) [
    | none ↦ (w, some object_not_exist)
    | some obj ↦
        let p = write_object deflate sha1 w obj in
        elim (p.1) [ some e ↦ (p.0, some (in_writer e)) | none ↦ send_all p.0 ids ]
  ]

  -- The bytes that are sent, and the error.
  unfoldable pub send_pack : List ObjectId → Bytes × Option SendError
  send_pack ids = elim (new_writer (pos (length ids))) [
    | err e ↦ ([], some (in_writer e))
    | ok w ↦
        let p = send_all w ids in
        elim (p.1) [ some e ↦ (p.0.written, some e) | none ↦ (Writer.close deflate sha1 p.0, none) ]
  ]

-- What unpack does after a ReadObject: any error ends it.
unfoldable pub after_object :
    {R : Type 0} → (Reader R → R × Option Error) → R → Outcome R → R × Option Error
after_object next repo (failed e) = (repo, some e)
after_object next repo (refused r e) = (r.repo, some e)
after_object next repo (put_error r obj) = (r.repo, some put_failed)
after_object next repo (got r obj) = next r

module _ {R : Type 0} (store : Store R) (sha1 : Bytes → ObjectId) (limit : ℕ)
    (spare spare' : List ℕ) {Z : Type 0} (zlib : Zlib Z) where
  -- The loop of unpack, while Len is above zero, and Close; a round takes one off Len.
  unfoldable pub unpack_loop : ℕ → Reader R → R × Option Error
  unpack_loop zero r = (r.repo, if r.n == 0 then Reader.close sha1 r else some out_of_fuel)
  unpack_loop (suc fuel) r =
      let go =
        after_object (unpack_loop fuel) r.repo (read_object store sha1 limit spare spare' zlib r) in
      if r.n == 0 then (r.repo, Reader.close sha1 r) else go

  -- The repository after unpack, and its error.
  unfoldable pub unpack : R → Bytes → R × Option Error
  unpack repo s = elim (new_reader repo s) [ err e ↦ (repo, some e) | ok r ↦ unpack_loop r.n r ]
