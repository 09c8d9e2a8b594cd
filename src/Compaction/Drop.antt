-- ===== src/Compaction/Drop.antt =====
-- The versions that `do_compaction` of src/compaction.rs drops while it merges.
use mulan_lsm.Prelude.{
  ℕ, leb, List, [], ◌∷◌, ◌&&◌, ◌||◌, if◌then◌else◌, Bool, true, false, Option, none, some,
}
use mulan_lsm.Prelude.Bytes.{Bytes, bytes_eq}
use mulan_lsm.InternalKey.{InternalKey, ValueType}
use mulan_lsm.Reads.{Entry}

-- The user key and the sequence number of the entry before.
pub record Last : Type 0 where
  pub user_key : Option Bytes
  pub seq : ℕ

abbrev pub no_last : Last
no_last = record { user_key = none; seq = 0 }

abbrev pub same_as_last : Option Bytes → Bytes → Bool
same_as_last none user_key = false
same_as_last (some key) user_key = bytes_eq key user_key

abbrev pub is_delete : ValueType → Bool
is_delete ValueType.put = false
is_delete ValueType.delete = true

-- `base` is `is_base_level_for_user_key`.
unfoldable pub drops : (Bytes → Bool) → ℕ → Last → InternalKey → Bool
drops base oldest_snapshot_seq last ik =
    (same_as_last last.user_key ik.user_key && leb last.seq oldest_snapshot_seq)
    || (is_delete ik.vtype && leb ik.seq oldest_snapshot_seq && base ik.user_key)

-- The entries that are written, of those that the merge gives.
unfoldable pub kept : (Bytes → Bool) → ℕ → Last → List Entry → List Entry
kept base oldest last [] = []
kept base oldest last ((ik, value) ∷ entries) =
    let rest = kept base oldest (record { user_key = some ik.user_key; seq = ik.seq }) entries in
    if drops base oldest last ik then rest else (ik, value) ∷ rest
