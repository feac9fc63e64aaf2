-- ===== src/Repository.antt =====
-- repository: the errors of a repository, and the parts of the package.
pub mod AppEngine
pub mod Refs
pub mod Mem
pub mod Walk
pub mod Deref
mod Tests

-- The error conditions of interface.go.
pub data Error : Type 0 where
  invalid_ref ref_mismatch ref_exist ref_not_exist object_not_exist : Error
