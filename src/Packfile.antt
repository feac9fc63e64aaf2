-- ===== src/Packfile.antt =====
-- packfile: number encodings, object headers, deltas and the writer of packfiles.
pub mod Digest
pub mod Errors
pub mod Base128
pub mod Header
pub mod Delta
pub mod Writer
pub mod Reader
mod Tests
