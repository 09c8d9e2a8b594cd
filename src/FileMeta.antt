-- ===== src/FileMeta.antt =====
-- src/file_meta.rs: file numbers, the metadata of a table, and the allocator of numbers. A
-- `FileNumber` is its number.
pub mod Names
use mulan_lsm.Prelude.{ℕ, ◌%◌, ◌^◌, ◌+◌, ltb, if◌then◌else◌}
use mulan_lsm.InternalKey.{InternalKey}

abbrev pub FileNumber : Type 0
FileNumber = ℕ

pub record FileMetaData : Type 0 where
  pub number : FileNumber
  pub file_size : ℕ
  pub smallest : InternalKey
  pub largest : InternalKey
  pub allowed_seeks : ℕ

unfoldable pub new_meta : FileNumber → ℕ → InternalKey → InternalKey → FileMetaData
new_meta number file_size smallest largest = record {
  number = number;
  file_size = file_size;
  smallest = smallest;
  largest = largest;
  allowed_seeks = 0;
}

pub record IdGenerator : Type 0 where
  pub next : ℕ

-- The number that is given out, and the generator behind it.
unfoldable pub new_file_number : IdGenerator → FileNumber × IdGenerator
new_file_number g = (g.next, record { next = (g.next + 1) % 2 ^ 64 })

-- Only ever forward.
unfoldable pub bump_to : IdGenerator → ℕ → IdGenerator
bump_to g n = if ltb g.next n then record { next = n } else g
