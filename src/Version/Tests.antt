-- ===== src/Version/Tests.antt =====
-- The theorems about src/version.rs at concrete edits.
use mulan_lsm.Prelude.{
  ℕ, ◌+◌, ◌%◌, ◌^◌, ◌≤◌, arith, ◌≡◌, refl, [], ◌∷◌, ◌++◌, foldl, length, take, get_elem?, some, ok,
  err, panic, MulanError, ◌⊎◌,
}
use mulan_lsm.Prelude.Bytes.{Bytes, IsU32}
use mulan_lsm.FileMeta.{FileMetaData}
use mulan_lsm.Manifest.Tests.{any, low_key, high_key, one_edit, one_edit-IsEdit}
use mulan_lsm.Version.{
  Version, VersionSet, num_levels, apply_edit, delete_files, push_files, delete_file, push_file,
  new_pending, recover, write_new_version, acquire_snapshot, release_snapshot, oldest_snapshot_seq,
}
use mulan_lsm.Version.Apply.{survivors, additions, apply_edit_lem}
use mulan_lsm.Version.Levels.{IsLeveled, apply_edit_total}
use mulan_lsm.Version.Tracks.{IsWritable}
use mulan_lsm.Version.Durable.{write_edits, reopened, recover-write_edits, recover_atomic}
use mulan_lsm.Version.Snapshots.{snapshot_protected, release-acquire_twice}

abbrev sum32 : Bytes → ℕ
sum32 d = foldl ◌+◌ 0 d % 2 ^ 32

sum32-IsU32 : (d : Bytes) → IsU32 (sum32 d)
sum32-IsU32 d = omega arith

one_edit-IsWritable : IsWritable any one_edit
one_edit-IsWritable = record {
  fits = one_edit-IsEdit;
  leveled = record { deleted = (omega arith, _); added = (omega arith, _) };
  pointed = (omega arith, _);
}

recover-write_edits_example :
    (vs : VersionSet) × (write_edits sum32 (new_pending 2 []) (one_edit ∷ one_edit ∷ []) ≡ ok vs)
    × (recover any sum32 2 vs.manifest_writer.file ≡ ok (reopened vs vs.manifest_writer.file))
recover-write_edits_example =
    recover-write_edits any sum32 sum32-IsU32 2 (one_edit ∷ one_edit ∷ [])
      (one_edit-IsWritable, (one_edit-IsWritable, _))

one_written :
    (vs : VersionSet) × (write_edits sum32 (new_pending 2 []) (one_edit ∷ []) ≡ ok vs)
    × (recover any sum32 2 vs.manifest_writer.file ≡ ok (reopened vs vs.manifest_writer.file))
one_written = recover-write_edits any sum32 sum32-IsU32 2 (one_edit ∷ []) (one_edit-IsWritable, _)

abbrev written : VersionSet
written = one_written.0

-- Five bytes of the second write are left.
abbrev left_over : Bytes
left_over =
    take (written.manifest_writer.synced + 5)
      (write_new_version sum32 written one_edit).0.manifest_writer.file

recover_atomic_example :
    (recover any sum32 2 left_over ≡ ok (reopened written left_over))
    ⊎ (recover any sum32 2 left_over
        ≡ ok (reopened (write_new_version sum32 written one_edit).0 left_over))
recover_atomic_example =
    recover_atomic any sum32 sum32-IsU32 2 (one_edit ∷ []) one_edit written
      (written.manifest_writer.synced + 5) (one_edit-IsWritable, _) one_edit-IsWritable
      one_written.1 (omega arith)

abbrev table : ℕ → FileMetaData
table n = record {
  number = n;
  file_size = 10;
  smallest = low_key;
  largest = high_key;
  allowed_seeks = 0;
}

abbrev two_tables : Version
two_tables = record { files = (table 5 ∷ table 8 ∷ []) ∷ [] ∷ [] ∷ [] ∷ [] ∷ [] ∷ [] ∷ [] }

abbrev applied : Version
unfolding apply_edit delete_files push_files delete_file push_file
applied = elim (apply_edit two_tables one_edit) [
  | ok v ↦ v
  | err e ↦ two_tables
  | panic ↦ two_tables
]

applied_lem : apply_edit two_tables one_edit ≡ ok applied
unfolding apply_edit delete_files push_files delete_file push_file
applied_lem = refl

apply_edit_example :
    get_elem? applied.files 0
    ≡ some (
        survivors 0 one_edit.deleted_files (table 5 ∷ table 8 ∷ [])
        ++ additions 0 one_edit.new_files)
apply_edit_example =
    apply_edit_lem two_tables applied one_edit 0 (table 5 ∷ table 8 ∷ []) applied_lem refl

apply_edit_total_example :
    (IsLeveled one_edit
      × ((made : Version) × (apply_edit two_tables one_edit ≡ ok made)
          × (length made.files ≡ num_levels)))
    ⊎ (¬ IsLeveled one_edit × (apply_edit two_tables one_edit ≡ err MulanError.corrupted))
apply_edit_total_example = apply_edit_total two_tables one_edit refl

abbrev fresh : VersionSet
unfolding new_pending
fresh = new_pending 1 []

snapshot_protected_example :
    oldest_snapshot_seq
      (foldl (λ v r. release_snapshot r v) (acquire_snapshot 5 fresh) (3 ∷ 9 ∷ []))
    ≤ 5
snapshot_protected_example =
    snapshot_protected fresh 5 (3 ∷ 9 ∷ []) ((λ e. omega (arith, e)), ((λ e. omega (arith, e)), _))

release-acquire_twice_example :
    release_snapshot 4 (acquire_snapshot 4 (acquire_snapshot 4 fresh)) ≡ release_snapshot 4 fresh
release-acquire_twice_example = release-acquire_twice fresh 4
