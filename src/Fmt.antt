-- ===== src/Fmt.antt =====
-- Go's fmt, as far as the packages scan with it: the runes of a text, and the steps that Fscanf takes for the
-- pieces of a format. A step runs on the bytes that are left of the input. It gives what it has read, or none
-- for an error, and the bytes that are left then: on an error too, since what was read is gone.
pub mod Rune
pub mod Scan
pub mod Reads
