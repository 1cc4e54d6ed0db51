-- ===== src/Limits.antt =====
-- src/snaplen.c and src/truncate.c with their headers: the limits on the bytes of a packet that are
-- kept. The contexts and the buffers are there (no NULL), and a flag is a Bool.
pub mod Snaplen
pub mod Truncate
mod Tests
