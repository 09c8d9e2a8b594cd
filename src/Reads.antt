-- ===== src/Reads.antt =====
-- What a sequence of versions says about a user key at a snapshot: the description of reads that
-- src/memtable.rs, src/iterator.rs and src/compaction.rs are held against. A version is an internal
-- key with its value; a sequence is sorted as `Ord for InternalKey` sorts, newest version first.
pub mod Sorted
use mulan_lsm.Prelude.{
  ℕ, ◌<◌, ◌≤◌, ◌≡◌, List, [], ◌∷◌, leb, Bool, true, false, ◌&&◌, Option, none, some, All, ◌⊎◌,
  if◌then◌else◌,
}
use Prim.Native.Nat.{Ordering}
use mulan_lsm.Prelude.Bytes.{Bytes, cmp_bytes, bytes_eq}
use mulan_lsm.InternalKey
use mulan_lsm.InternalKey.{InternalKey, ValueType}

abbrev pub Entry : Type 0
Entry = InternalKey × Bytes

-- The first version of the key that the snapshot sees.
abbrev pub visible : ℕ → Bytes → List Entry → Option (ValueType × Bytes)
visible snapshot key [] = none
visible snapshot key ((ik, value) ∷ rest) =
    if bytes_eq ik.user_key key && leb ik.seq snapshot
    then some (ik.vtype, value)
    else visible snapshot key rest

-- A deletion reads as nothing.
abbrev pub value_of : Option (ValueType × Bytes) → Option Bytes
value_of none = none
value_of (some (ValueType.put, value)) = some value
value_of (some (ValueType.delete, value)) = none

abbrev pub read : ℕ → Bytes → List Entry → Option Bytes
read snapshot key entries = value_of (visible snapshot key entries)

-- An entry before another: a smaller user key, or a newer version of the same.
abbrev pub Before : Entry → Entry → Type 0
Before x y =
    (cmp_bytes x.0.user_key y.0.user_key ≡ Ordering.lt)
    ⊎ ((x.0.user_key ≡ y.0.user_key) × (y.0.seq < x.0.seq))

abbrev pub IsOrdered : List Entry → Type 0
IsOrdered [] = Unit {0}
IsOrdered (x ∷ xs) = All (Before x) xs × IsOrdered xs

-- An entry as an iterator gives it.
abbrev pub bytes_of : Entry → Bytes × Bytes
bytes_of (ik, value) = (InternalKey.encode ik, value)
