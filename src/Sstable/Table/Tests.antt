-- ===== src/Sstable/Table/Tests.antt =====
-- Runs of src/sstable/table.rs: two entries, a block for each.
use mulan_lsm.Prelude.{
  ℕ, ◌<◌, ◌^◌, ◌≡◌, refl, List, [], ◌∷◌, map, length, some, true, Result, ok, err, panic, arith,
}
use mulan_lsm.Prelude.Bytes.{Bytes, le_bytes}
use native.Mathlib.Decide.{dec_le}
use mulan_lsm.Prelude.Order.{lt_wf}
use mulan_lsm.Varint.{encode_loop, encode_varint32, encode_varint64}
use mulan_lsm.Bloom
use mulan_lsm.Sstable.Block
use mulan_lsm.Sstable.Table.{
  TableReader, open_table, read_table, add, with_options, note_pending, flush_data_block, finish,
  write_raw, metaindex_bytes, footer_bytes, encode_handle,
}
use mulan_lsm.Sstable.Table.RoundTrip.{
  Row, item_of, Fits, build, read_table-build, open_table-build,
}

abbrev rows : List Row
rows = (1 ∷ [], 1 ∷ 1 ∷ [], 7 ∷ []) ∷ (2 ∷ [], 2 ∷ 1 ∷ [], 8 ∷ []) ∷ []

rows-Fits : Fits rows
rows-Fits = ((omega arith, omega arith), ((omega arith, omega arith), _))

abbrev bytes_or_none : Result Bytes → Bytes
bytes_or_none (ok bytes) = bytes
bytes_or_none (err e) = []
bytes_or_none panic = []

abbrev one_probe : ℕ → ℕ
one_probe n = 1

abbrev file : Bytes
file = bytes_or_none (build one_probe 1 0 rows)

built : build one_probe 1 0 rows ≡ ok file
unfolding add with_options note_pending flush_data_block finish write_raw metaindex_bytes
    footer_bytes encode_handle Block.add Block.new Block.current_size_estimate Block.append_entry
    Block.common_prefix_len Block.is_empty Block.finish Bloom.insert Bloom.ensure_capacity
    Bloom.insert_loop Bloom.new Bloom.double_hash Bloom.set_bit Bloom.bloom_hash Bloom.finish
    le_bytes encode_varint32 encode_varint64 encode_loop lt_wf dec_le
built = refl

size : length file ≡ 144
unfolding add with_options note_pending flush_data_block finish write_raw metaindex_bytes
    footer_bytes encode_handle Block.add Block.new Block.current_size_estimate Block.append_entry
    Block.common_prefix_len Block.is_empty Block.finish Bloom.insert Bloom.ensure_capacity
    Bloom.insert_loop Bloom.new Bloom.double_hash Bloom.set_bit Bloom.bloom_hash Bloom.finish
    le_bytes encode_varint32 encode_varint64 encode_loop lt_wf dec_le
size = refl

small : length file < 2 ^ 32
small = omega (arith, size)

read_table-build_example : read_table 3 file ≡ ok (map item_of rows)
read_table-build_example =
    read_table-build one_probe 1 0 3 rows file rows-Fits built small (omega arith)

open_table-build_example :
    (r : TableReader) × (bloom : Bloom.BloomFilter) × (open_table file ≡ ok r)
    × (r.bloom ≡ some bloom)
    × (Bloom.may_contain bloom (2 ∷ []) ≡ true)
open_table-build_example =
    open_table-build one_probe 1 0 ((1 ∷ [], 1 ∷ 1 ∷ [], 7 ∷ []) ∷ []) []
      (2 ∷ [], 2 ∷ 1 ∷ [], 8 ∷ []) file rows-Fits built small (omega arith)
