-- ===== src/Sstable/Table.antt =====
-- src/sstable/table.rs: the builder of a table, its reader, and the iterator over it. A file is the list
-- of its bytes; a write appends, and failing writes are not modelled. The formula of the filter for
-- its number of probes, on floating-point numbers, is a parameter, as in Bloom.
pub mod Footer
pub mod Built
pub mod Steps
pub mod Finish
pub mod Reliable
pub mod Walk
pub mod RoundTrip
mod Tests
use Prim.Native.Nat.{Ordering}
use mulan_lsm.Prelude.{
  ℕ, zero, suc, ◌+◌, ◌-◌, ◌*◌, ◌/◌, ◌%◌, ◌^◌, max, List, [], ◌∷◌, ◌++◌, length, take, drop, slice,
  replicate, get_elem?, leb, ltb, not, ◌==◌, if◌then◌else◌, Bool, true, false, Option, none, some,
  Result, ok, err, panic, ok_or, MulanError, ◌>>=◌,
}
use mulan_lsm.Prelude.Bytes.{Bytes, le_bytes, from_le_bytes, cmp_bytes, bytes_eq}
use mulan_lsm.Varint.{encode_varint64, decode_varint64}
use mulan_lsm.Bloom
use mulan_lsm.Bloom.{BloomFilter}
use mulan_lsm.InternalKey.{
  ValueType, internal_key_cmp, lookup_key, user_key_of_internal_key, vtype_of_internal_key,
  max_sequence,
}
use mulan_lsm.Sstable.Block
use mulan_lsm.Sstable.Block.{
  BlockBuilder, is_empty, open_block, items_of, get_range, and_then, to_option,
}
use mulan_lsm.Sstable.Block.Search
use mulan_lsm.Sstable.Block.Search.{lower_bound, lower_bound_kv}

abbrev pub data_block_target : ℕ
data_block_target = 4 * 1024

abbrev pub footer_len : ℕ
footer_len = 48

abbrev pub magic : ℕ
magic = 0xdb47_7524_8b80_fb57

pub record BlockHandle : Type 0 where
  pub offset : ℕ
  pub size : ℕ

unfoldable pub encode_handle : Bytes → BlockHandle → Bytes
encode_handle buf h = (encode_varint64 (encode_varint64 buf h.offset).0 h.size).0

-- A start behind the end of the buffer is a panic.
unfoldable pub decode_handle : Bytes → Result (BlockHandle × ℕ)
decode_handle buf = do
  (offset, n1) ← decode_varint64 buf
  rest ← (if leb n1 (length buf) then ok (drop n1 buf) else panic)
  (size, n2) ← decode_varint64 rest
  ok (record { offset = offset; size = size }, n1 + n2)

pub record TableBuilder : Type 0 where
  pub file : Bytes
  pub data_block : BlockBuilder
  pub index_block : BlockBuilder
  pub file_offset : ℕ
  pub last_key : Bytes
  pub pending_index_key : Option Bytes
  pub pending_handle : Option BlockHandle
  pub num_entries : ℕ
  pub finished : Bool
  pub block_target : ℕ
  pub bloom : BloomFilter

-- `b"filter.mulan.BloomFilter"`
abbrev pub filter_meta_key : Bytes
filter_meta_key =
    102 ∷ 105 ∷ 108 ∷ 116 ∷ 101 ∷ 114 ∷ 46 ∷ 109 ∷ 117 ∷ 108 ∷ 97 ∷ 110 ∷ 46 ∷ 66 ∷ 108 ∷ 111 ∷ 111
    ∷ 109 ∷ 70 ∷ 105 ∷ 108 ∷ 116 ∷ 101 ∷ 114 ∷ []

-- Over a new file.
unfoldable pub with_options : (ℕ → ℕ) → ℕ → ℕ → TableBuilder
with_options optimal_k block_target bits_per_key =
    let estimated_keys = max (50 * block_target % 2 ^ 64 / 32) 1000 in
    record {
      file = [];
      data_block = Block.new;
      index_block = Block.new;
      file_offset = 0;
      last_key = [];
      pending_index_key = none;
      pending_handle = none;
      num_entries = 0;
      finished = false;
      block_target = block_target;
      bloom = Bloom.ensure_capacity (Bloom.new optimal_k bits_per_key) estimated_keys bits_per_key;
    }

unfoldable pub new : (ℕ → ℕ) → TableBuilder
new optimal_k = with_options optimal_k data_block_target 10

unfoldable pub with_block_target : (ℕ → ℕ) → ℕ → TableBuilder
with_block_target optimal_k target = with_options optimal_k target 10

-- The handle of what is written, and the builder behind it.
unfoldable pub write_raw : TableBuilder → Bytes → BlockHandle × TableBuilder
write_raw t bytes = (
  record { offset = t.file_offset; size = length bytes % 2 ^ 64 },
  record t { file = t.file ++ bytes; file_offset = (t.file_offset + length bytes) % 2 ^ 64 },
)

-- The entry of the index for the block that was written last, where it is still due.
abbrev pub index_entry : Option Bytes → Option BlockHandle → TableBuilder → Result TableBuilder
index_entry none handle t = ok t
index_entry (some key) none t = ok (record t { pending_index_key = none })
index_entry (some key) (some handle) t = do
  index_block ← Block.add t.index_block key (encode_handle [] handle)
  ok (record t { index_block = index_block; pending_index_key = none; pending_handle = none })

unfoldable pub note_pending : TableBuilder → Result TableBuilder
note_pending t = index_entry t.pending_index_key t.pending_handle t

unfoldable pub flush_data_block : TableBuilder → TableBuilder
flush_data_block t =
    if is_empty t.data_block
    then t
    else (let (handle, written) =
          write_raw (record t { data_block = Block.new }) (Block.finish t.data_block) in
        record written { pending_index_key = some written.last_key; pending_handle = some handle })

abbrev pub flush_full : TableBuilder → TableBuilder
flush_full t =
    if leb t.block_target (Block.current_size_estimate t.data_block) then flush_data_block t else t

-- `assert!(!self.finished)` is a panic.
unfoldable pub add : TableBuilder → Bytes → Bytes → Bytes → Result TableBuilder
add t user_key internal_key value =
    if t.finished
    then panic
    else note_pending t >>= λ noted. Block.add noted.data_block internal_key value >>= λ data_block.
        ok (
          flush_full (record noted {
            data_block = data_block;
            last_key = internal_key;
            bloom = Bloom.insert noted.bloom user_key;
            num_entries = (noted.num_entries + 1) % 2 ^ 64;
          }))

-- `footer.resize(len, 0)`
abbrev pub resize : ℕ → Bytes → Bytes
resize len buf = take len (buf ++ replicate len 0)

unfoldable pub footer_bytes : BlockHandle → BlockHandle → Bytes
footer_bytes metaindex_handle index_handle =
    resize (footer_len - 8) (encode_handle (encode_handle [] metaindex_handle) index_handle)
    ++ le_bytes 8 magic

-- The metaindex block for a filter.
unfoldable pub metaindex_bytes : BlockHandle → Result Bytes
metaindex_bytes filter_handle = do
  builder ← Block.add Block.new filter_meta_key (encode_handle [] filter_handle)
  ok (Block.finish builder)

-- What is written behind the data blocks: filter, metaindex, index and footer.
abbrev pub write_tail : TableBuilder → Result Bytes
write_tail t =
    let (filter_handle, with_filter) = write_raw t (Bloom.finish t.bloom) in
    metaindex_bytes filter_handle >>= λ metaindex.
    let (metaindex_handle, with_metaindex) = write_raw with_filter metaindex in
    let (index_handle, with_index) = write_raw with_metaindex (Block.finish t.index_block) in
    ok (with_index.file ++ footer_bytes metaindex_handle index_handle)

-- The file, all of it on disk.
unfoldable pub finish : TableBuilder → Result Bytes
finish t =
    if t.finished
    then err MulanError.corrupted
    else note_pending (flush_data_block (record t { finished = true })) >>= write_tail

unfoldable pub current_size_estimate : TableBuilder → ℕ
current_size_estimate t = (t.file_offset + Block.current_size_estimate t.data_block) % 2 ^ 64

pub record TableReader : Type 0 where
  pub bytes : Bytes
  pub index_handle : BlockHandle
  pub bloom : Option BloomFilter

-- `data.get(start..start + size)`; the sum is one of 64 bits.
abbrev pub handle_range : Bytes → BlockHandle → Option Bytes
handle_range all h = get_range all h.offset ((h.offset + h.size) % 2 ^ 64)

-- `(BlockHandle::decode(bytes).ok()?).0`, where a panic stays one.
abbrev pub handle_of : Result (BlockHandle × ℕ) → Result (Option BlockHandle)
handle_of (ok (handle, n)) = ok (some handle)
handle_of (err e) = ok none
handle_of panic = panic

-- The filter that a metaindex block names.
unfoldable pub filter_at : Bytes → Block.Block → Result (Option BloomFilter)
filter_at all meta_block = Block.Search.get meta_block cmp_bytes filter_meta_key >>= λ found.
    elim found [
      | none ↦ ok none
      | some handle_bytes ↦ handle_of (decode_handle handle_bytes) >>= λ handle. elim handle [
        | none ↦ ok none
        | some filter_handle ↦ ok (and_then (handle_range all filter_handle) Bloom.from_bytes)
      ]
    ]

unfoldable pub read_filter : Bytes → BlockHandle → Result (Option BloomFilter)
read_filter all metaindex_handle = elim (handle_range all metaindex_handle) [
  | none ↦ ok none
  | some bytes ↦ elim (to_option (open_block bytes)) [
    | none ↦ ok none
    | some meta_block ↦ filter_at all meta_block
  ]
]

-- `TableReader::open` on the bytes of the file.
unfoldable pub open_table : Bytes → Result TableReader
open_table all =
    if ltb (length all) footer_len
    then err MulanError.corrupted
    else (let footer = drop (length all - footer_len) all in
        if not (from_le_bytes (drop (footer_len - 8) footer) == magic)
        then err MulanError.corrupted
        else (do
          (metaindex_handle, n1) ← decode_handle footer
          rest ← (if leb n1 (length footer) then ok (drop n1 footer) else panic)
          (index_handle, n2) ← decode_handle rest
          bloom ← read_filter all metaindex_handle
          ok (record { bytes = all; index_handle = index_handle; bloom = bloom })))

-- A range whose end is before its start is a panic.
unfoldable pub block_bytes : TableReader → BlockHandle → Result Bytes
block_bytes r h =
    let end = (h.offset + h.size) % 2 ^ 64 in
    if ltb (length r.bytes) end
    then err MulanError.corrupted
    else if ltb end h.offset
    then panic
    else ok (slice r.bytes h.offset end)

abbrev pub filtered : Option BloomFilter → Bytes → Bool
filtered none user_key = false
filtered (some bloom) user_key = not (Bloom.may_contain bloom user_key)

-- The version that was found, where it is one of the key.
abbrev pub checked : Bytes → Option (Bytes × Bytes) → Result (Option (ValueType × Bytes))
checked user_key none = ok none
checked user_key (some (key, value)) =
    if bytes_eq (user_key_of_internal_key key) user_key
    then (do
      vtype ← ok_or (vtype_of_internal_key key) MulanError.corrupted
      ok (some (vtype, value)))
    else ok none

-- The block that an entry of the index names.
abbrev pub get_in_block :
    TableReader → Bytes → Bytes → Option Bytes → Result (Option (ValueType × Bytes))
get_in_block r user_key lookup none = ok none
get_in_block r user_key lookup (some handle_bytes) = do
  (data_handle, _) ← decode_handle handle_bytes
  bytes ← block_bytes r data_handle
  block ← open_block bytes
  found ← lower_bound_kv block internal_key_cmp lookup
  checked user_key found

unfoldable pub get_entry : TableReader → Bytes → ℕ → Result (Option (ValueType × Bytes))
get_entry r user_key snapshot_seq = if filtered r.bloom user_key then ok none else (do
  index_bytes ← block_bytes r r.index_handle
  index_block ← open_block index_bytes
  handle_bytes ← lower_bound index_block internal_key_cmp (lookup_key user_key snapshot_seq)
  get_in_block r user_key (lookup_key user_key snapshot_seq) handle_bytes)

abbrev pub put_value : Option (ValueType × Bytes) → Option Bytes
put_value none = none
put_value (some (ValueType.put, value)) = some value
put_value (some (ValueType.delete, value)) = none

unfoldable pub get : TableReader → Bytes → Result (Option Bytes)
get r user_key = do found ← get_entry r user_key max_sequence; ok (put_value found)

pub record TableIter : Type 0 where
  pub bytes : Bytes
  pub handles : List BlockHandle
  pub handle_idx : ℕ
  pub current : List (Bytes × Bytes)
  pub current_pos : ℕ

abbrev pub decode_handles : List (Bytes × Bytes) → Result (List BlockHandle)
decode_handles [] = ok []
decode_handles ((key, handle_bytes) ∷ entries) = do
  (handle, _) ← decode_handle handle_bytes
  handles ← decode_handles entries
  ok (handle ∷ handles)

unfoldable pub parse_data_handles : Bytes → BlockHandle → Result (List BlockHandle)
parse_data_handles all index_handle = do
  index_bytes ← ok_or (handle_range all index_handle) MulanError.corrupted
  index_block ← open_block index_bytes
  decode_handles (items_of index_block)

unfoldable pub into_table_iter : TableReader → Result TableIter
into_table_iter r = do
  handles ← parse_data_handles r.bytes r.index_handle
  ok (record { bytes = r.bytes; handles = handles; handle_idx = 0; current = []; current_pos = 0 })

-- The entries of the block at a handle, where there is a block.
abbrev pub load : Bytes → BlockHandle → Option (List (Bytes × Bytes))
load all h =
    and_then (handle_range all h)
      (λ bytes. and_then (to_option (open_block bytes)) (λ block. some (items_of block)))

-- The loop over the handles that are left; a block that cannot be read is passed over.
unfoldable pub advance_over : List BlockHandle → TableIter → Bool × TableIter
advance_over [] it = (false, record it { current = [] })
advance_over (h ∷ hs) it =
    let rest = advance_over hs (record it { handle_idx = it.handle_idx + 1 }) in
    elim (load it.bytes h) [
      | none ↦ rest
      | some items ↦
          (true, record it { handle_idx = it.handle_idx + 1; current = items; current_pos = 0 })
    ]

unfoldable pub advance_to_next_block : TableIter → Bool × TableIter
advance_to_next_block it = advance_over (drop it.handle_idx it.handles) it

-- The loop of `next`, on fuel.
unfoldable pub next_entry : ℕ → TableIter → Option (Bytes × Bytes) × TableIter
next_entry zero it = (none, it)
next_entry (suc fuel) it = elim (get_elem? it.current it.current_pos) [
  | some item ↦ (some item, record it { current_pos = it.current_pos + 1 })
  | none ↦
      let (more, moved) = advance_to_next_block it in
      let rest = next_entry fuel moved in if more then rest else (none, moved)
]

-- Every round but the last moves on to a further handle.
unfoldable pub next : TableIter → Option (Bytes × Bytes) × TableIter
next it = next_entry (length it.handles + 2) it

-- What has been loaded; in front of the first entry of a block that is nothing.
unfoldable pub peek : TableIter → Option (Bytes × Bytes)
peek it = get_elem? it.current it.current_pos

-- What calls of `next` give, until nothing comes or there were `fuel`.
unfoldable pub collect : ℕ → TableIter → List (Bytes × Bytes)
collect zero it = []
collect (suc fuel) it =
    let (item, rest) = next it in
    let more = collect fuel rest in elim item [ none ↦ [] | some kv ↦ kv ∷ more ]

-- `TableReader::open(path)?.into_table_iter()?.collect()`, on fuel.
unfoldable pub read_table : ℕ → Bytes → Result (List (Bytes × Bytes))
read_table fuel all = do reader ← open_table all; it ← into_table_iter reader; ok (collect fuel it)

-- How many entries the blocks at the handles have, where they can be read.
abbrev pub count_entries : Bytes → List BlockHandle → ℕ
count_entries all [] = 0
count_entries all (h ∷ hs) = elim (load all h) [
  | none ↦ count_entries all hs
  | some items ↦ length items + count_entries all hs
]

-- The same, with fuel for every entry of every block and for the end.
unfoldable pub read_all : Bytes → Result (List (Bytes × Bytes))
read_all all = do
  reader ← open_table all
  it ← into_table_iter reader
  ok (collect (count_entries it.bytes it.handles + 1) it)
