-- ===== src/Memtable/Tests.antt =====
-- Runs of src/memtable.rs over lists that are kept in order.
use mulan_lsm.Prelude.{
  ℕ, sym, ap, All, Result, err, panic, ◌%◌, ◌^◌, ◌≡◌, refl, List, [], ◌∷◌, map, length, none, ok,
  arith,
}
use mulan_lsm.InternalKey.{ValueType}
use mulan_lsm.Reads.{Entry, bytes_of}
use mulan_lsm.Tables.{Tables, IsReliable}
use native.Mathlib.Decide.{dec_le}
use mulan_lsm.Prelude.Bytes.{Bytes, le_bytes}
use mulan_lsm.Prelude.Order.{lt_wf}
use mulan_lsm.Varint.{encode_loop, encode_varint32, encode_varint64}
use mulan_lsm.Bloom
use mulan_lsm.InternalKey
use mulan_lsm.Sstable.Block
use mulan_lsm.Sstable.Table.{
  add, with_options, note_pending, flush_data_block, finish, write_raw, metaindex_bytes,
  footer_bytes, encode_handle, read_all,
}
use mulan_lsm.Sstable.Table.Reliable.{sstables, reliable_sstables}
use mulan_lsm.Memtable.{
  SkipLists, insert_before, first_at_least, MemTable, FlushResult, flush_loop,
  flush_to_sstable_with_options,
}
use mulan_lsm.Memtable.Flush.{first_key, last_key, flush-holds}

abbrev lists : SkipLists
lists = record {
  SkipList = List Entry;
  empty = [];
  insert = insert_before;
  lower_bound = first_at_least;
  iter = λ s. s;
}

abbrev versions : List Entry
versions =
    (record { user_key = 1 ∷ []; seq = 2; vtype = ValueType.delete }, [])
    ∷ (record { user_key = 1 ∷ []; seq = 1; vtype = ValueType.put }, 7 ∷ [])
    ∷ []

abbrev two_versions : MemTable lists
two_versions = record { skiplist = versions; seq = 2; entries = 2; approx_bytes = 3 }

-- The tables of src/sstable/table.rs, with the smallest filters.
abbrev tables : Tables
tables = sstables (λ bits. 1) 4096 0

abbrev reliable : IsReliable tables
reliable = reliable_sstables (λ bits. 1) 4096 0

abbrev size_of : Result (FlushResult × Bytes) → ℕ
size_of (ok (result, file)) = length file
size_of (err e) = 0
size_of panic = 0

flushed_size : size_of (flush_to_sstable_with_options lists tables two_versions) ≡ 151
unfolding flush_to_sstable_with_options flush_loop add with_options note_pending flush_data_block
    finish write_raw metaindex_bytes footer_bytes encode_handle Block.add Block.new
    Block.current_size_estimate Block.append_entry Block.common_prefix_len Block.is_empty
    Block.finish Bloom.insert Bloom.ensure_capacity Bloom.insert_loop Bloom.new Bloom.double_hash
    Bloom.set_bit Bloom.bloom_hash Bloom.finish le_bytes encode_varint32 encode_varint64 encode_loop
    lt_wf dec_le InternalKey.encode
flushed_size = refl

versions-Fit : All (λ x. reliable.Fits (bytes_of x)) versions
unfolding InternalKey.encode le_bytes
versions-Fit = ((omega arith, omega arith), ((omega arith, omega arith), _))

flush-holds_example :
    (result : FlushResult) × (file : Bytes) × (flush_to_sstable_with_options lists tables
        two_versions
      ≡ ok (result, file))
    × (read_all file ≡ ok (map bytes_of versions))
    × (result.num_entries ≡ length (map bytes_of versions) % 2 ^ 64)
    × (result.smallest ≡ first_key versions)
    × (result.largest ≡ last_key none versions)
flush-holds_example = flush-holds lists tables reliable two_versions versions-Fit (λ result file e.
    let sized : length file ≡ size_of (flush_to_sstable_with_options lists tables two_versions) =
      ap size_of (sym e) in
    omega (arith, sized, flushed_size))
