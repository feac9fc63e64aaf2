-- ===== src/Packfile/Delta.antt =====
-- packfile/delta.go, by its functions: `Mask` has the bitmask-compressed integers, `Apply` resolves
-- a delta, `Substring` finds a longest common substring, `Compute` writes a delta, and
-- `Emits`, `Match` and `RoundTrip` join the two.
pub mod Mask
pub mod Apply
pub mod Substring
pub mod Compute
pub mod Emits
pub mod Match
pub mod RoundTrip
