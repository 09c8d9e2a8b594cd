-- ===== src/Version.antt =====
-- src/version.rs: `Version`, the tables of every level, and `VersionSet`, the state of the database
-- with its manifest. A level is an index into a list of seven; an index out of range is a panic.
pub mod Apply
pub mod Levels
pub mod Tracks
pub mod Durable
pub mod Snapshots
mod Tests
use Prim.Native.Nat.{Ordering}
use mulan_lsm.Prelude.{
  ℕ, ◌%◌, ◌^◌, zero, suc, ◌+◌, min, List, [], ◌∷◌, ◌++◌, map, foldl, length, set, get_elem?,
  replicate, filter, not, ltb, leb, ◌==◌, if◌then◌else◌, Bool, true, false, Option, none, some,
  Result, ok, err, panic, MulanError, ◌>>=◌,
}
use mulan_lsm.Prelude.Bytes.{Bytes, cmp_bytes}
use mulan_lsm.Prelude.Compare.{is_lt}
use mulan_lsm.InternalKey.{InternalKey, max_sequence}
use mulan_lsm.FileMeta.{FileNumber, FileMetaData}
use mulan_lsm.Wal.Writer.{create}
use mulan_lsm.Manifest.Edit.{DeletedFile, NewFile, VersionEdit}
use mulan_lsm.Manifest.Log.{ManifestWriter, append, recover_manifest}

abbrev pub num_levels : ℕ
num_levels = 7

-- Are the user keys of a file in touch with the range?
unfoldable pub user_key_overlap : FileMetaData → Bytes → Bytes → Bool
user_key_overlap file range_smallest range_largest =
    if is_lt (cmp_bytes file.largest.user_key range_smallest)
    then false
    else if is_lt (cmp_bytes range_largest file.smallest.user_key)
    then false
    else true

pub record Version : Type 0 where
  pub files : List (List FileMetaData)

unfoldable pub empty : Version
empty = record { files = replicate num_levels [] }

-- `&self.files[level]`
unfoldable pub files_at : Version → ℕ → Result (List FileMetaData)
files_at v level = elim (get_elem? v.files level) [ none ↦ panic | some fs ↦ ok fs ]

unfoldable pub num_files : Version → ℕ → Result ℕ
num_files v level = do fs ← files_at v level; ok (length fs)

-- The sum is not reduced: a sum of 64 bits that overflows is a panic or wraps, by the build.
unfoldable pub total_size : Version → ℕ → Result ℕ
total_size v level = do
  fs ← files_at v level
  ok (foldl (λ sum f. (sum + f.file_size) % 2 ^ 64) 0 fs)

unfoldable pub get_overlaps : Version → ℕ → Bytes → Bytes → Result (List FileMetaData)
get_overlaps v level range_smallest range_largest = do
  fs ← files_at v level
  ok (filter (λ f. user_key_overlap f range_smallest range_largest) fs)

-- `files[level].retain(|f| f.number != d.number)`, behind the check of the level
unfoldable pub delete_file :
    List (List FileMetaData) → DeletedFile → Result (List (List FileMetaData))
delete_file files d =
    if leb num_levels d.level then err MulanError.corrupted else elim (get_elem? files d.level) [
      | none ↦ panic
      | some fs ↦ ok (set files d.level (filter (λ f. not (f.number == d.number)) fs))
    ]

unfoldable pub push_file : List (List FileMetaData) → NewFile → Result (List (List FileMetaData))
push_file files f =
    if leb num_levels f.level then err MulanError.corrupted else elim (get_elem? files f.level) [
      | none ↦ panic
      | some fs ↦ ok (set files f.level (fs ++ f.meta ∷ []))
    ]

unfoldable pub delete_files :
    List (List FileMetaData) → List DeletedFile → Result (List (List FileMetaData))
delete_files files [] = ok files
delete_files files (d ∷ ds) = do files' ← delete_file files d; delete_files files' ds

unfoldable pub push_files :
    List (List FileMetaData) → List NewFile → Result (List (List FileMetaData))
push_files files [] = ok files
push_files files (f ∷ fs) = do files' ← push_file files f; push_files files' fs

unfoldable pub apply_edit : Version → VersionEdit → Result Version
apply_edit base edit = do
  kept ← delete_files base.files edit.deleted_files
  files ← push_files kept edit.new_files
  ok (record { files = files })

pub record VersionSet : Type 0 where
  pub current : Version
  pub log_number : ℕ
  pub prev_log_number : ℕ
  pub next_file_number : ℕ
  pub last_sequence : ℕ
  pub manifest_number : FileNumber
  pub manifest_writer : ManifestWriter
  pub compact_pointer : List Bytes
  pub snapshots : List ℕ

-- `if let Some(n) = field { x = n; }`
abbrev pub or_keep : Option ℕ → ℕ → ℕ
or_keep none x = x
or_keep (some n) x = n

-- Over what the manifest's file holds.
unfoldable pub new_pending : FileNumber → Bytes → VersionSet
new_pending manifest_number contents = record {
  current = empty;
  log_number = 0;
  prev_log_number = 0;
  next_file_number = 0;
  last_sequence = 0;
  manifest_number = manifest_number;
  manifest_writer = create contents;
  compact_pointer = replicate num_levels [];
  snapshots = [];
}

-- The local variables of `recover`.
pub record Replay : Type 0 where
  pub version : Version
  pub log_number : ℕ
  pub prev_log_number : ℕ
  pub next_file_number : ℕ
  pub last_sequence : ℕ
  pub compact_pointer : List Bytes

abbrev pub replay_start : Replay
unfolding empty
replay_start = record {
  version = empty;
  log_number = 0;
  prev_log_number = 0;
  next_file_number = 0;
  last_sequence = 0;
  compact_pointer = replicate num_levels [];
}

-- A pointer of a level that there is not is passed over.
unfoldable pub replay_pointers : List Bytes → List (ℕ × Bytes) → List Bytes
replay_pointers pointers [] = pointers
replay_pointers pointers ((level, key) ∷ ps) =
    replay_pointers (if ltb level num_levels then set pointers level key else pointers) ps

unfoldable pub replay_edit : Replay → VersionEdit → Result Replay
replay_edit r edit = do
  version ← apply_edit r.version edit
  ok (record {
    version = version;
    log_number = or_keep edit.log_number r.log_number;
    prev_log_number = or_keep edit.prev_log_number r.prev_log_number;
    next_file_number = or_keep edit.next_file_number r.next_file_number;
    last_sequence = or_keep edit.last_sequence r.last_sequence;
    compact_pointer = replay_pointers r.compact_pointer edit.compact_pointers;
  })

unfoldable pub replay : Replay → List VersionEdit → Result Replay
replay r [] = ok r
replay r (edit ∷ edits) = do r' ← replay_edit r edit; replay r' edits

-- From the bytes of the manifest that CURRENT names.
unfoldable pub recover : (Bytes → Bool) → (Bytes → ℕ) → FileNumber → Bytes → Result VersionSet
recover is_utf8 crc32c manifest_number file = do
  edits ← recover_manifest is_utf8 crc32c file
  r ← replay replay_start edits
  ok (record {
    current = r.version;
    log_number = r.log_number;
    prev_log_number = r.prev_log_number;
    next_file_number = r.next_file_number;
    last_sequence = r.last_sequence;
    manifest_number = manifest_number;
    manifest_writer = create file;
    compact_pointer = r.compact_pointer;
    snapshots = [];
  })

-- `self.compact_pointer[*level as usize] = key.clone()`
unfoldable pub set_compact_pointer : List Bytes → ℕ → Bytes → Result (List Bytes)
set_compact_pointer pointers level key =
    if ltb level (length pointers) then ok (set pointers level key) else panic

unfoldable pub set_pointers : List Bytes → List (ℕ × Bytes) → Result (List Bytes)
set_pointers pointers [] = ok pointers
set_pointers pointers ((level, key) ∷ ps) = do
  pointers' ← set_compact_pointer pointers level key
  set_pointers pointers' ps

-- The set with the edit's fields, in the version that the edit made.
abbrev pub switched : VersionSet → VersionEdit → Version → VersionSet
switched vs edit version = record vs {
  current = version;
  log_number = or_keep edit.log_number vs.log_number;
  prev_log_number = or_keep edit.prev_log_number vs.prev_log_number;
  next_file_number = or_keep edit.next_file_number vs.next_file_number;
  last_sequence = or_keep edit.last_sequence vs.last_sequence;
}

-- What the call leaves of the set, and its result. The edit is in the manifest before it is checked.
unfoldable pub write_new_version :
    (Bytes → ℕ) → VersionSet → VersionEdit → VersionSet × Result Version
write_new_version crc32c vs edit = elim (append crc32c vs.manifest_writer edit) [
  | none ↦ (vs, panic)
  | some writer ↦
      let logged = record vs { manifest_writer = writer } in
      elim (apply_edit vs.current edit) [
        | err e ↦ (logged, err e)
        | panic ↦ (logged, panic)
        | ok version ↦
            let set = switched logged edit version in
            elim (set_pointers vs.compact_pointer edit.compact_pointers) [
              | ok pointers ↦ (record set { compact_pointer = pointers }, ok version)
              | err e ↦ (set, err e)
              | panic ↦ (set, panic)
            ]
      ]
]

unfoldable pub acquire_snapshot : ℕ → VersionSet → VersionSet
acquire_snapshot seq vs = record vs { snapshots = vs.snapshots ++ seq ∷ [] }

unfoldable pub release_snapshot : ℕ → VersionSet → VersionSet
release_snapshot seq vs = record vs { snapshots = filter (λ s. not (s == seq)) vs.snapshots }

-- `iter().min()`
abbrev pub least : List ℕ → Option ℕ
least [] = none
least (s ∷ ss) = some (elim (least ss) [ none ↦ s | some m ↦ min s m ])

unfoldable pub oldest_snapshot_seq : VersionSet → ℕ
oldest_snapshot_seq vs = elim (least vs.snapshots) [ none ↦ max_sequence | some m ↦ m ]
