-- ===== src/Sstable/Table/Finish.antt =====
-- The end of a table of src/sstable/table.rs: what finish writes behind the data blocks, and what open
-- reads of it.
use mathlib.Core.Path.{subst}
use mulan_lsm.Prelude.{
  ℕ, arith, ◌+◌, ◌-◌, ◌%◌, ◌^◌, ◌≡◌, refl, sym, ap, ◌∙◌, List, [], ◌∷◌, ◌++◌, map, length,
  length-append, append_assoc, append-nil, All, drop, drop-append_exact, leb, ltb, true, false,
  some, ok,
}
use mulan_lsm.Prelude.Bytes.{Bytes, IsU32, cmp_bytes}
use mulan_lsm.Prelude.Compare.{cmp_bytes_self}
use mulan_lsm.Bloom
use mulan_lsm.Bloom.{BloomFilter}
use mulan_lsm.Bloom.Members.{from_bytes-finish}
use mulan_lsm.Sstable.Block
use mulan_lsm.Sstable.Block.{BlockBuilder, push, open_block, items_of, and_then, to_option}
use mulan_lsm.Sstable.Block.RoundTrip.{
  IsBuilder, length-finish, finished_block, open_block-finish, items_of-finish,
}
use mulan_lsm.Sstable.Block.Single.{add-single, get-single}
use mulan_lsm.Sstable.Table.{
  BlockHandle, TableBuilder, decode_handle, filter_meta_key, write_raw, metaindex_bytes,
  footer_bytes, footer_len, write_tail, handle_range, filter_at, read_filter, open_table,
  decode_handles, parse_data_handles,
}
use mulan_lsm.Sstable.Table.Footer.{
  IsHandle, handle_bytes, encode_handle_lem, length-handle_bytes, decode_handle_lem,
  length-footer_bytes, magic-footer_bytes, behind_first, first-footer_bytes, second-behind_first,
}
use mulan_lsm.Sstable.Table.Built.{
  IsSmall, handle_at, handle_at-IsHandle, handle_range_at, index_item,
}

write_raw_lem :
    (t : TableBuilder) (bytes : Bytes)
    → t.file_offset ≡ length t.file % 2 ^ 64
    → write_raw t bytes ≡ (
      handle_at t.file bytes,
      record t { file = t.file ++ bytes; file_offset = length (t.file ++ bytes) % 2 ^ 64 },
    )
unfolding write_raw
write_raw_lem t bytes h =
    let offset : (t.file_offset + length bytes) % 2 ^ 64 ≡ length (t.file ++ bytes) % 2 ^ 64 =
      omega (arith, h, length-append t.file bytes) in
    ap
      (λ (n : ℕ). (
        record { offset = n; size = length bytes % 2 ^ 64 },
        record t { file = t.file ++ bytes; file_offset = (t.file_offset + length bytes) % 2 ^ 64 },
      ))
      h
    ∙ ap (λ (n : ℕ). (handle_at t.file bytes, record t { file = t.file ++ bytes; file_offset = n }))
        offset

-- The metaindex block.
abbrev pub meta_block : BlockHandle → BlockBuilder
meta_block h = push (0, Block.new) filter_meta_key (handle_bytes h)

small_handle : (h : BlockHandle) → IsU32 (length (handle_bytes h))
small_handle h = omega (arith, length-handle_bytes h)

metaindex_bytes_lem :
    (h : BlockHandle) → IsHandle h → metaindex_bytes h ≡ ok (Block.finish (meta_block h))
unfolding metaindex_bytes
metaindex_bytes_lem h fits =
    rw
      (
        metaindex_bytes,
        encode_handle_lem [] h fits,
        add-single filter_meta_key (handle_bytes h) (omega arith) (small_handle h),
      )
      refl

module _ (before : Bytes) (bloom : BloomFilter) (index : BlockBuilder) where
  abbrev pub filter_handle : BlockHandle
  filter_handle = handle_at before (Bloom.finish bloom)

  abbrev pub with_filter : Bytes
  with_filter = before ++ Bloom.finish bloom

  abbrev pub metaindex : Bytes
  metaindex = Block.finish (meta_block filter_handle)

  abbrev pub metaindex_handle : BlockHandle
  metaindex_handle = handle_at with_filter metaindex

  abbrev pub with_metaindex : Bytes
  with_metaindex = with_filter ++ metaindex

  abbrev pub index_handle : BlockHandle
  index_handle = handle_at with_metaindex (Block.finish index)

  -- All in front of the footer.
  abbrev pub with_index : Bytes
  with_index = with_metaindex ++ Block.finish index

  abbrev pub footer : Bytes
  footer = footer_bytes metaindex_handle index_handle

  -- The whole file.
  abbrev pub whole : Bytes
  whole = with_index ++ footer

  fits_metaindex : IsHandle metaindex_handle
  fits_metaindex = handle_at-IsHandle with_filter metaindex

  fits_index : IsHandle index_handle
  fits_index = handle_at-IsHandle with_metaindex (Block.finish index)

pub write_tail_lem :
    (t : TableBuilder)
    → t.file_offset ≡ length t.file % 2 ^ 64
    → write_tail t ≡ ok (whole t.file t.bloom t.index_block)
write_tail_lem t h =
    let F = Bloom.finish t.bloom in
    let t1 : TableBuilder = record t {
      file = t.file ++ F;
      file_offset = length (t.file ++ F) % 2 ^ 64;
    } in
    let M = metaindex t.file t.bloom t.index_block in
    let t2 : TableBuilder = record t1 {
      file = t1.file ++ M;
      file_offset = length (t1.file ++ M) % 2 ^ 64;
    } in
    let I = Block.finish t.index_block in
    let one = write_raw_lem t F h in
    let two = write_raw_lem t1 M refl in
    let three = write_raw_lem t2 I refl in
    let meta = metaindex_bytes_lem (handle_at t.file F) (handle_at-IsHandle t.file F) in
    rw
      (
        ap (λ r. r.0) one,
        ap (λ r. r.1) one,
        meta,
        ap (λ r. r.0) two,
        ap (λ r. r.1) two,
        ap (λ r. r.0) three,
        ap (λ r. r.1) three,
      )
      refl

module _ (before : Bytes) (bloom : BloomFilter) (index : BlockBuilder)
    (small : IsSmall (whole before bloom index)) where
  abbrev all : Bytes
  all = whole before bloom index

  abbrev mh : BlockHandle
  mh = metaindex_handle before bloom index

  abbrev ih : BlockHandle
  ih = index_handle before bloom index

  length-footer : length (footer before bloom index) ≡ 48
  length-footer =
      length-footer_bytes mh ih (fits_metaindex before bloom index) (fits_index before bloom index)

  length-whole : length all ≡ length (with_index before bloom index) + 48
  length-whole = omega (
    arith,
    length-append (with_index before bloom index) (footer before bloom index),
    length-footer,
  )

  behind : Bytes
  behind = behind_first mh ih (fits_metaindex before bloom index) (fits_index before bloom index)

  footer-first : footer before bloom index ≡ handle_bytes mh ++ behind
  unfolding behind
  footer-first =
      first-footer_bytes mh ih (fits_metaindex before bloom index) (fits_index before bloom index)

  decode-first : decode_handle (footer before bloom index) ≡ ok (mh, length (handle_bytes mh))
  decode-first =
      ap decode_handle footer-first
      ∙ decode_handle_lem mh behind (fits_metaindex before bloom index)

  drop-footer : drop (length (handle_bytes mh)) (footer before bloom index) ≡ behind
  drop-footer =
      ap (drop (length (handle_bytes mh))) footer-first
      ∙ drop-append_exact (length (handle_bytes mh)) (handle_bytes mh) behind refl

  decode-second : decode_handle behind ≡ ok (ih, length (handle_bytes ih))
  unfolding behind
  decode-second =
      second-behind_first mh ih (fits_metaindex before bloom index) (fits_index before bloom index)

  abbrev fh : BlockHandle
  fh = filter_handle before bloom index

  abbrev post : Bytes
  post = Block.finish index ++ footer before bloom index

  split_metaindex : all ≡ (with_filter before bloom index ++ metaindex before bloom index) ++ post
  split_metaindex =
      append_assoc (with_metaindex before bloom index) (Block.finish index)
        (footer before bloom index)

  split_filter : all ≡ (before ++ Bloom.finish bloom) ++ (metaindex before bloom index ++ post)
  split_filter =
      split_metaindex
      ∙ append_assoc (with_filter before bloom index) (metaindex before bloom index) post

  metaindex_range : handle_range all mh ≡ some (metaindex before bloom index)
  metaindex_range =
      ap (λ (a : Bytes). handle_range a mh) split_metaindex
      ∙ handle_range_at (with_filter before bloom index) (metaindex before bloom index) post
          (subst IsSmall split_metaindex small)

  filter_range : handle_range all fh ≡ some (Bloom.finish bloom)
  filter_range =
      ap (λ (a : Bytes). handle_range a fh) split_filter
      ∙ handle_range_at before (Bloom.finish bloom) (metaindex before bloom index ++ post)
          (subst IsSmall split_filter small)

  metaindex_opens : open_block (metaindex before bloom index) ≡ ok (finished_block (meta_block fh))
  unfolding Block.new
  metaindex_opens = open_block-finish (meta_block fh) (omega arith)

  filter_at_lem : filter_at all (finished_block (meta_block fh)) ≡ ok (some bloom)
  unfolding filter_at
  filter_at_lem =
      let found =
        get-single filter_meta_key (handle_bytes fh) (omega arith) (small_handle fh) cmp_bytes
          (cmp_bytes_self filter_meta_key) in
      let handle : decode_handle (handle_bytes fh) ≡ ok (fh, length (handle_bytes fh)) =
        ap decode_handle (sym (append-nil (handle_bytes fh)))
        ∙ decode_handle_lem fh [] (handle_at-IsHandle before (Bloom.finish bloom)) in
      rw (filter_at, found, handle, filter_range, from_bytes-finish bloom) refl

  read_filter_lem : read_filter all mh ≡ ok (some bloom)
  unfolding read_filter
  read_filter_lem = rw (read_filter, metaindex_range, metaindex_opens) filter_at_lem

  -- A file that was finished opens, with the filter that was built.
  pub open_table_lem :
      open_table all ≡ ok (record { bytes = all; index_handle = ih; bloom = some bloom })
  unfolding open_table
  open_table_lem =
      let long : ltb (length all) footer_len ≡ false = ground (arith, length-whole) in
      let at_end : length all - footer_len ≡ length (with_index before bloom index) =
        omega (arith, length-whole) in
      let last : drop (length all - footer_len) all ≡ footer before bloom index =
        drop-append_exact (length all - footer_len) (with_index before bloom index)
          (footer before bloom index) at_end in
      let magical =
        magic-footer_bytes mh ih (fits_metaindex before bloom index)
          (fits_index before bloom index) in
      let inside : leb (length (handle_bytes mh)) (length (footer before bloom index)) ≡ true =
        ground (arith, length-footer, length-handle_bytes mh) in
      rw
        (
          open_table, long, last, magical, decode-first, inside, drop-footer, decode-second,
          read_filter_lem,
        )
        refl

decode_handles_lem :
    (noted : List (Bytes × BlockHandle))
    → All (λ e. IsHandle e.1) noted
    → decode_handles (map index_item noted) ≡ ok (map (λ e. e.1) noted)
decode_handles_lem [] h = refl
decode_handles_lem ((key, handle) ∷ noted) h =
    let this : decode_handle (handle_bytes handle) ≡ ok (handle, length (handle_bytes handle)) =
      ap decode_handle (sym (append-nil (handle_bytes handle))) ∙ decode_handle_lem handle [] h.0 in
    rw (this, decode_handles_lem noted h.1) refl

-- The handles of the data blocks are read off the index.
pub parse_data_handles_lem :
    (before : Bytes) (bloom : BloomFilter) (index : BlockBuilder)
    (noted : List (Bytes × BlockHandle))
    → IsSmall (whole before bloom index)
    → IsBuilder index (map index_item noted)
    → All (λ e. IsHandle e.1) noted
    → parse_data_handles (whole before bloom index) (index_handle before bloom index)
      ≡ ok (map (λ e. e.1) noted)
unfolding parse_data_handles
parse_data_handles_lem before bloom index noted small built fits =
    let range =
      handle_range_at (with_metaindex before bloom index) (Block.finish index)
        (footer before bloom index) small in
    let few : IsU32 (length index.restarts) = omega (
      arith,
      small,
      length-append (with_index before bloom index) (footer before bloom index),
      length-append (with_metaindex before bloom index) (Block.finish index),
      length-finish index,
    ) in
    rw
      (
        parse_data_handles,
        range,
        open_block-finish index few,
        items_of-finish index (map index_item noted) built,
      )
      (decode_handles_lem noted fits)
