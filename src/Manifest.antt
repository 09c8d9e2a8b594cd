-- ===== src/Manifest.antt =====
-- src/manifest.rs: `VersionEdit` and its codec. The comparator is the list of its bytes; that it is
-- valid UTF-8 is decided by `is_utf8`, a parameter, since `String::from_utf8` is the library's.
pub mod Current
pub mod Edit
pub mod Codec
pub mod Fields
pub mod Written
pub mod RoundTrip
pub mod Log
pub mod Tests
