-- ===== src/Manifest/Edit.antt =====
-- src/manifest.rs: `VersionEdit`, a change of the database's state, as data.
use mulan_lsm.Prelude.{ℕ, List, [], ◌∷◌, ◌++◌, Option, none, some}
use mulan_lsm.Prelude.Bytes.{Bytes}
use mulan_lsm.FileMeta.{FileNumber, FileMetaData}

pub record DeletedFile : Type 0 where
  pub level : ℕ
  pub number : FileNumber

pub record NewFile : Type 0 where
  pub level : ℕ
  pub meta : FileMetaData

pub record VersionEdit : Type 0 where
  pub comparator : Option Bytes
  pub log_number : Option ℕ
  pub prev_log_number : Option ℕ
  pub next_file_number : Option ℕ
  pub last_sequence : Option ℕ
  pub deleted_files : List DeletedFile
  pub new_files : List NewFile
  pub compact_pointers : List (ℕ × Bytes)

abbrev pub new_edit : VersionEdit
new_edit = record {
  comparator = none;
  log_number = none;
  prev_log_number = none;
  next_file_number = none;
  last_sequence = none;
  deleted_files = [];
  new_files = [];
  compact_pointers = [];
}

unfoldable pub set_comparator : Bytes → VersionEdit → VersionEdit
set_comparator c e = record e { comparator = some c }

unfoldable pub set_log_number : ℕ → VersionEdit → VersionEdit
set_log_number n e = record e { log_number = some n }

unfoldable pub set_prev_log_number : ℕ → VersionEdit → VersionEdit
set_prev_log_number n e = record e { prev_log_number = some n }

unfoldable pub set_next_file_number : ℕ → VersionEdit → VersionEdit
set_next_file_number n e = record e { next_file_number = some n }

unfoldable pub set_last_sequence : ℕ → VersionEdit → VersionEdit
set_last_sequence s e = record e { last_sequence = some s }

unfoldable pub add_delete : ℕ → FileNumber → VersionEdit → VersionEdit
add_delete level number e = record e {
  deleted_files = e.deleted_files ++ (record { level = level; number = number }) ∷ [];
}

unfoldable pub add_file : ℕ → FileMetaData → VersionEdit → VersionEdit
add_file level meta e = record e {
  new_files = e.new_files ++ (record { level = level; meta = meta }) ∷ [];
}

unfoldable pub set_compact_pointer : ℕ → Bytes → VersionEdit → VersionEdit
set_compact_pointer level key e = record e {
  compact_pointers = e.compact_pointers ++ (level, key) ∷ [];
}
