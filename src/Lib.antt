-- ===== src/Lib.antt =====
-- A model of mulan-lsm, a storage engine on log-structured merge trees, and proofs about it. It covers
-- the data that the engine keeps on disk and the state that it recovers from it.
--
-- Prelude holds the shared names: numbers and lists, byte strings with little-endian words and their
-- comparison (Prelude/Bytes, Prelude/Compare), prefixes, and src/error.rs (Prelude/Outcome). A byte
-- is a number below 256 and a byte string a list of numbers. `Result` has a third case for a panic.
--
-- Varint is src/varint.rs. The encoders recurse on the value, which a division by 128 makes smaller;
-- the decoders recurse on the rounds that `take(max_len)` leaves, five or ten.
--
-- InternalKey is src/internal_key.rs: keys with a sequence number and a type, their encoding, `Ord`,
-- and `internal_key_cmp` on encodings.
--
-- Wal is src/wal.rs. Wal/Record is the format of a piece; the checksum (`crc::CRC_32_ISCSI`, of a
-- package) is a parameter of every definition that uses it, with the one hypothesis that it is a 32-bit
-- word. Wal/Writer is `WalWriter`: the file is the list of its bytes, of which the first `synced` are
-- known to be on disk. Wal/Reader is `WalReader::read_records`, one round at a time. Wal/Entry is
-- `encode_entry` and `decode_entry`. The loop of `add_record` runs on the fuel `length payload + 2`: the
-- first round may have room for no data, and every later one writes a byte at least. The loop of the
-- reader runs on the fuel `length file + 1`: every round moves on by a byte at least. Both are proved to
-- be enough.
--
-- Bloom is src/bloom.rs. The floating-point formula for the number of probes is a parameter.
--
-- FileMeta is src/file_meta.rs: the metadata of tables and the allocator of file numbers; FileMeta/Names
-- has the paths of files and the parsing of their names, with 20 digits for a number of 64 bits.
--
-- Manifest is src/manifest.rs: Manifest/Edit is `VersionEdit`, Manifest/Codec its encoding and decoding,
-- Manifest/Log is `ManifestWriter` and `recover_manifest`, which keep edits as the records of a log of
-- Wal. Whether bytes are UTF-8 is decided by a parameter. The loop of `decode` runs on the length of its
-- input as fuel: every field takes a byte at least. A manifest is the bytes of its file.
-- Manifest/Current is the file CURRENT, which names the manifest: a write of it is five steps, of which
-- any number may be done when the machine stops; of what is not synced then any part may be lost.
--
-- Version is src/version.rs: the tables of every level, edits of them, and `VersionSet`, whose
-- `write_new_version` appends an edit to the manifest and applies it, and whose `recover` replays the
-- manifest. A level is an index of a list of seven; an index out of range is a panic.
--
-- TableCache is src/table_cache.rs: entries, their order and the capacity. `get` locks twice; TableCache
-- has an operation for each lock and the whole call, TableCache/Steps the locked sections of any number
-- of calls in any order, TableCache/Capacity calls that do not overlap. Opening a table is a parameter.
--
-- Reads says what a sequence of versions, newest first, answers to a read of a user key at a snapshot; it
-- models no file, and Iterator and Compaction are held against it.
--
-- Iterator is src/iterator.rs: `MergingIterator`, `VecIterator` and `DBIter`. A source is the list of what
-- it has still to give. Iterator/Streams says what calls of `next` give; Iterator/Merge is about the merge,
-- Iterator/Scan about a scan, whose loops run on fuel: more than the number of versions is enough.
--
-- Memtable is src/memtable.rs: the counters and the versions in memory, over an interface of
-- src/skiplist.rs (`SkipLists`). Memtable/Gets and Memtable/Writes are about reads and writes over lists
-- with the laws `IsOrderedList` (an insert goes in front of what is not smaller, and `lower_bound` is the
-- first that is not smaller), which are not proved of src/skiplist.rs. Counters wrap at 64 bits.
--
-- Sstable/Block is src/sstable/block.rs: the builder, with keys that share prefixes, and the reader of its
-- bytes. Sstable/Block/Restarts says where the restart points of a builder lead, and Sstable/Block/Seek,
-- Rounds and LowerBound are about the search for the first key that is not smaller. Sstable/Block/Search
-- has the searches, whose loops run on fuel: a round of the binary search
-- takes a restart point, a round of the scan a byte at least. Sstable/Table is src/sstable/table.rs: the
-- builder, whose file is the list of its bytes, the reader and the iterator over a whole table.
-- Sstable/Table/Built says what a builder holds between two calls (`IsTable`): blocks that can be read
-- wherever the file goes on, and whether the last one is still missing from the index. Sums of 64 bits
-- wrap as in a release build. The loop of the iterator runs on two rounds more than there are blocks.
-- What a list of calls returns is collected on fuel, as a parameter.
--
-- Tables is what Memtable and Compaction ask of `TableBuilder` and `TableReader` of src/sstable/table.rs,
-- with the laws `IsReliable`: what was added to a builder is what a reader of the finished table gives, as
-- long as the file is small. Sstable/Table/Reliable fills it with the builder and the reader of
-- Sstable/Table and proves the laws: entries with a key and a value below 2^32 fit, and a file of less than
-- 4 GiB is small. Compaction/Tests and Memtable/Tests run over these tables.
--
-- Compaction is src/compaction.rs. Compaction has the scores and the choice of inputs, Compaction/Drop
-- the rule by which versions are dropped, Compaction/Run `do_compaction` with the local variables of its
-- loop as a record. A score is an `f64`, whose operations are a parameter (`Float`). The loop
-- runs on fuel: more than the number of entries is enough.
--
-- Not modelled: src/skiplist.rs and src/db.rs; that get_entry of
-- Sstable/Table finds the right version is not proved; failing system
-- calls; threads and locks; the texts of errors.
pub mod Prelude
pub mod Varint
pub mod InternalKey
pub mod Wal
pub mod Bloom
pub mod FileMeta
pub mod Manifest
pub mod Version
pub mod Compaction
pub mod Iterator
pub mod Memtable
pub mod Reads
pub mod Sstable
pub mod TableCache
pub mod Tables
