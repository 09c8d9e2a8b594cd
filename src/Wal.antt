-- ===== src/Wal.antt =====
-- src/wal.rs: the write-ahead log. `Record` is the format of one piece, `Writer` and `Reader` are
-- the two ends, `Entry` is the payload of one write; the other modules are about these.
pub mod Record
pub mod Writer
pub mod Reader
pub mod Entry
pub mod EntryCodec
pub mod Pieces
pub mod Scans
pub mod Trailer
pub mod Rounds
pub mod RoundTrip
pub mod Crash
pub mod Loop
mod Tests
