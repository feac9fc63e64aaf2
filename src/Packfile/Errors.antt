-- ===== src/Packfile/Errors.antt =====
-- The errors that the functions of the package packfile return, by the names of base128.go,
-- delta.go, object.go and packfile.go.
use go_git_scm.Base.{ℕ}

pub data Error : Type 0 where
  -- io.EOF, io.ErrUnexpectedEOF, and the overflow errors of both encodings
  eof unexpected_eof overflow : Error
  -- binary.Uvarint with n == 0: the slice ends inside the number
  too_small : Error
  -- a run-time panic: an index or a slice bound out of range, or a length that cannot be allocated
  panic : Error
  -- "packfile: object size out of range"
  size_out_of_range : Error
  -- ErrTooManyObjects
  too_many_objects : Error
  -- TypeError with the type code
  bad_type : ℕ → Error
  -- ErrDelta and ErrDeltaLength
  delta delta_length : Error
  -- no Go error: a loop of the model ran out of fuel
  out_of_fuel : Error
