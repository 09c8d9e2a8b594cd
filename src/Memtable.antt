-- ===== src/Memtable.antt =====
-- src/memtable.rs: the versions in memory over an ordered list of them. The list is src/skiplist.rs
-- behind an interface, `SkipLists` with the laws `IsOrderedList`; the heights that `insert` draws are
-- of the list. Counters are of 64 bits.
pub mod Writes
pub mod Gets
pub mod Flush
mod Tests
use Prim.Native.Nat.{Ordering}
use mulan_lsm.Prelude.{
  ℕ, ◌+◌, ◌%◌, ◌^◌, ◌≡◌, ltb, leb, List, [], ◌∷◌, map, filter, length, if◌then◌else◌, Bool, true,
  false, Option, none, some, Result, ok, ◌>>=◌,
}
use mulan_lsm.Prelude.Bytes.{Bytes, bytes_eq}
use mulan_lsm.Prelude.Compare.{is_lt}
use mulan_lsm.InternalKey
use mulan_lsm.InternalKey.{InternalKey, ValueType, max_sequence}
use mulan_lsm.Reads.{Entry, bytes_of}
use mulan_lsm.Iterator.{Item}
use mulan_lsm.Tables.{Tables}

-- `SkipList<InternalKey, Vec<u8>>`
pub record SkipLists : Type 1 where
  pub SkipList : Type 0
  pub empty : SkipList
  pub insert : InternalKey → Bytes → SkipList → SkipList
  pub lower_bound : InternalKey → SkipList → Option Entry
  pub iter : SkipList → List Entry

-- Behind the entries of smaller keys, in front of the others.
unfoldable pub insert_before : InternalKey → Bytes → List Entry → List Entry
insert_before ik value [] = (ik, value) ∷ []
insert_before ik value (x ∷ xs) =
    let rest = insert_before ik value xs in
    if is_lt (InternalKey.cmp x.0 ik) then x ∷ rest else (ik, value) ∷ x ∷ xs

-- The first entry whose key is not smaller.
unfoldable pub first_at_least : InternalKey → List Entry → Option Entry
first_at_least ik [] = none
first_at_least ik (x ∷ xs) = if is_lt (InternalKey.cmp x.0 ik) then first_at_least ik xs else some x

pub record IsOrderedList (S : SkipLists) : Type 0 where
  pub iter_empty : S.iter S.empty ≡ []
  pub iter_insert :
      (ik : InternalKey) (value : Bytes) (s : S.SkipList)
      → S.iter (S.insert ik value s) ≡ insert_before ik value (S.iter s)
  pub lower_bound_iter :
      (ik : InternalKey) (s : S.SkipList) → S.lower_bound ik s ≡ first_at_least ik (S.iter s)

pub record FlushResult : Type 0 where
  pub num_entries : ℕ
  pub smallest : Option InternalKey
  pub largest : Option InternalKey

-- The version found, where it is one of the key.
abbrev pub entry_of : Bytes → Option Entry → Option (ValueType × Bytes)
entry_of key none = none
entry_of key (some (ik, value)) = if bytes_eq ik.user_key key then some (ik.vtype, value) else none

abbrev pub or_first : Option InternalKey → InternalKey → Option InternalKey
or_first none ik = some ik
or_first (some first) ik = some first

module _ (S : SkipLists) where
  pub record MemTable : Type 0 where
    pub skiplist : S.SkipList
    pub seq : ℕ
    pub entries : ℕ
    pub approx_bytes : ℕ

  unfoldable pub with_initial_sequence : ℕ → MemTable
  with_initial_sequence seq = record {
    skiplist = S.empty;
    seq = seq;
    entries = 0;
    approx_bytes = 0;
  }

  unfoldable pub new : MemTable
  new = record { skiplist = S.empty; seq = 0; entries = 0; approx_bytes = 0 }

  unfoldable pub snapshot_entries : MemTable → ℕ → List Item
  snapshot_entries m snapshot_seq =
      map bytes_of (filter (λ x. leb x.0.seq snapshot_seq) (S.iter m.skiplist))

  unfoldable pub put : Bytes → Bytes → MemTable → MemTable
  put key value m =
      let seq = (m.seq + 1) % 2 ^ 64 in
      record {
        skiplist =
            S.insert (record { user_key = key; seq = seq; vtype = ValueType.put }) value m.skiplist;
        seq = seq;
        entries = (m.entries + 1) % 2 ^ 64;
        approx_bytes = (m.approx_bytes + (length key + length value)) % 2 ^ 64;
      }

  unfoldable pub delete : Bytes → MemTable → MemTable
  delete key m =
      let seq = (m.seq + 1) % 2 ^ 64 in
      record {
        skiplist =
            S.insert (record { user_key = key; seq = seq; vtype = ValueType.delete }) [] m.skiplist;
        seq = seq;
        entries = (m.entries + 1) % 2 ^ 64;
        approx_bytes = (m.approx_bytes + length key) % 2 ^ 64;
      }

  unfoldable pub apply : ValueType → ℕ → Bytes → Bytes → MemTable → MemTable
  apply vtype seq key value m = record {
    skiplist = S.insert (record { user_key = key; seq = seq; vtype = vtype }) value m.skiplist;
    seq = if ltb m.seq seq then seq else m.seq;
    entries = (m.entries + 1) % 2 ^ 64;
    approx_bytes = (m.approx_bytes + (length key + length value)) % 2 ^ 64;
  }

  unfoldable pub get_entry : MemTable → Bytes → ℕ → Result (Option (ValueType × Bytes))
  get_entry m key snapshot_seq =
      let lookup : InternalKey = record {
        user_key = key;
        seq = snapshot_seq;
        vtype = ValueType.put;
      } in
      ok (entry_of key (S.lower_bound lookup m.skiplist))

  -- `match`: a deletion and nothing are both `None`.
  abbrev pub value_found : Option (ValueType × Bytes) → Option Bytes
  value_found none = none
  value_found (some (ValueType.put, value)) = some value
  value_found (some (ValueType.delete, value)) = none

  unfoldable pub get : MemTable → Bytes → Result (Option Bytes)
  get m key = do found ← get_entry m key max_sequence; ok (value_found found)

  module _ (T : Tables) where
    -- The loop of a flush, with the first key and the one of the round before.
    unfoldable pub flush_loop :
        List Entry
        → T.Builder
        → Option InternalKey
        → Option InternalKey
        → Result (T.Builder × Option InternalKey × Option InternalKey)
    flush_loop [] b smallest largest = ok (b, smallest, largest)
    flush_loop ((ik, value) ∷ rest) b smallest largest = do
      b' ← T.add b ik.user_key (InternalKey.encode ik) value
      flush_loop rest b' (or_first smallest ik) (some ik)

    -- With the file that is written.
    unfoldable pub flush_to_sstable_with_options : MemTable → Result (FlushResult × T.File)
    flush_to_sstable_with_options m = do
      written ← flush_loop (S.iter m.skiplist) T.create none none
      file ← T.finish written.0
      ok (
        record { num_entries = T.num_entries written.0; smallest = written.1; largest = written.2 },
        file,
      )
