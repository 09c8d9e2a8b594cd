-- ===== src/Compaction/Tests.antt =====
-- A compaction of src/compaction.rs from a level of one table into a level of one table.
use mathlib.Core.Path.{subst}
use mulan_lsm.Prelude.{
  ℕ, sym, ap, ◌∙◌, ◌>>=◌, ◌*◌, ltb, ◌≡◌, refl, List, [], ◌∷◌, map, length, true, some, All, inl,
  inr, arith, ok, err, panic, Result, Has, ◌<◌, ◌^◌,
}
use mulan_lsm.Prelude.Bytes.{Bytes, le_bytes, from_le_bytes}
use mulan_lsm.InternalKey
use mulan_lsm.InternalKey.{
  InternalKey, ValueType, internal_key_cmp, vtype_of_internal_key, user_key_of_internal_key,
  seq_of_internal_key,
}
use mulan_lsm.FileMeta.{FileMetaData, IdGenerator, new_file_number}
use mulan_lsm.Version.{
  Version, VersionSet, new_pending, files_at, num_files, total_size, get_overlaps, user_key_overlap,
}
use mulan_lsm.Reads.{Entry, read, bytes_of}
use mulan_lsm.Iterator.{Item, merging, next, peek, pop, refill, fill_from}
use mulan_lsm.Iterator.Streams.{Streams, concat}
use mulan_lsm.Tables.{Tables, IsReliable}
use native.Mathlib.Decide.{dec_le}
use mulan_lsm.Prelude.Order.{lt_wf}
use mulan_lsm.Varint.{encode_loop, encode_varint32, encode_varint64}
use mulan_lsm.Bloom
use mulan_lsm.Sstable.Block
use mulan_lsm.Sstable.Table.{
  add, with_options, note_pending, flush_data_block, finish, write_raw, metaindex_bytes,
  footer_bytes, encode_handle,
}
use mulan_lsm.Sstable.Table.RoundTrip.{Row, build, read_all-build}
use mulan_lsm.Sstable.Table.Reliable.{sstables, reliable_sstables}
use mulan_lsm.Compaction.{
  Float, level_score, score_from, compaction_score, max_bytes_for_level, Compaction, pick_after,
  pick_inputs0, pick_inputs1, pick_grandparents, pick_level, pick_compaction, is_base_from,
  is_base_level_for_user_key, input_file_numbers,
}
use mulan_lsm.Compaction.Base.{IsOutside, is_base-IsAbsent}
use mulan_lsm.Compaction.Drop.{no_last, kept}
use mulan_lsm.Compaction.Reads.{kept-read}
use mulan_lsm.Compaction.Pick.{pick_compaction-inputs1}
use mulan_lsm.Compaction.Run.{
  Directory, open_table, open_inputs, CompactionOutput, do_compaction, merge_loop, merge_entry,
  write_entry, open_file, continue_with_entry, finish_current, finish_last, split,
  count_grandparents, overlap_scan, delete_droppable, start,
}
use mulan_lsm.Compaction.Run.Contents.{AllSmall}
use mulan_lsm.Compaction.Run.Answers.{do_compaction-read}
use mulan_lsm.Compaction.Run.Written.{is_base, do_compaction-kept}

-- A score as a fraction.
abbrev fractions : Float
fractions = record {
  F = ℕ × ℕ;
  quotient = λ n d. (n, d);
  zero_point = (0, 1);
  above = λ x y. ltb (y.0 * x.1) (x.0 * y.1);
}

abbrev put_key : ℕ → ℕ → InternalKey
put_key key seq = record { user_key = key ∷ []; seq = seq; vtype = ValueType.put }

abbrev file : ℕ → ℕ → ℕ → ℕ → FileMetaData
file number size low high = record {
  number = number;
  file_size = size;
  smallest = put_key low 9;
  largest = put_key high 1;
  allowed_seeks = 0;
}

abbrev upper : FileMetaData
upper = file 3 20000000 1 2

abbrev lower : FileMetaData
lower = file 4 1000 1 5

abbrev deep : FileMetaData
deep = file 2 1000 6 9

abbrev version : Version
version = record { files = [] ∷ (upper ∷ []) ∷ (lower ∷ []) ∷ [] ∷ (deep ∷ []) ∷ [] ∷ [] ∷ [] }

abbrev state : VersionSet
unfolding new_pending
state = record (new_pending 1 []) { current = version }

abbrev chosen : Compaction
chosen = record { level = 1; inputs0 = upper ∷ []; inputs1 = lower ∷ []; grandparents = [] }

picked : pick_compaction fractions state ≡ ok (some chosen)
unfolding pick_compaction compaction_score score_from level_score max_bytes_for_level num_files
    total_size files_at pick_level pick_inputs0 pick_inputs1 pick_after pick_grandparents
    get_overlaps user_key_overlap new_pending
picked = refl

lower_at : files_at version 2 ≡ ok (lower ∷ [])
unfolding files_at
lower_at = refl

in_touch : user_key_overlap lower (1 ∷ []) (2 ∷ []) ≡ true
unfolding user_key_overlap
in_touch = refl

pick_compaction-inputs1_example : Has lower chosen.inputs1
unfolding new_pending
pick_compaction-inputs1_example =
    pick_compaction-inputs1 fractions state chosen upper lower (lower ∷ []) picked (inl refl)
      lower_at (inl refl) in_touch

based : is_base_level_for_user_key chosen version (1 ∷ []) ≡ ok true
unfolding is_base_level_for_user_key is_base_from get_overlaps files_at user_key_overlap
based = refl

deep_at : files_at version 4 ≡ ok (deep ∷ [])
unfolding files_at
deep_at = refl

is_base-IsAbsent_example : All (IsOutside (1 ∷ [])) (deep ∷ [])
is_base-IsAbsent_example =
    is_base-IsAbsent chosen version (1 ∷ []) 4 (deep ∷ []) based (omega arith) (omega arith) deep_at

abbrev newer : Entry
newer = (put_key 1 9, 7 ∷ [])

abbrev older : Entry
older = (put_key 1 4, 8 ∷ [])

abbrev gone : Entry
gone = (record { user_key = 2 ∷ []; seq = 5; vtype = ValueType.delete }, [])

abbrev entries : List Entry
entries = newer ∷ older ∷ gone ∷ []

kept-read_example :
    read 10 (1 ∷ []) (kept (λ key. true) 10 no_last entries) ≡ read 10 (1 ∷ []) entries
kept-read_example =
    kept-read (λ key. true) 10 10 (omega arith) (1 ∷ []) entries
      ((inr (refl, omega arith), (inl refl, _)), ((inl refl, _), (_, _)))

-- The tables of src/sstable/table.rs, with the smallest filters.
abbrev tables : Tables
tables = sstables (λ bits. 1) 4096 0

abbrev reliable : IsReliable tables
reliable = reliable_sstables (λ bits. 1) 4096 0

abbrev bytes_or_none : Result Bytes → Bytes
bytes_or_none (ok bytes) = bytes
bytes_or_none (err e) = []
bytes_or_none panic = []

abbrev row : Entry → Row
row x = (x.0.user_key, (bytes_of x).0, (bytes_of x).1)

abbrev table : List Entry → Bytes
table entries = bytes_or_none (build (λ bits. 1) 4096 0 (map row entries))

abbrev sources : List (List Item)
sources = map bytes_of (older ∷ gone ∷ []) ∷ map bytes_of (newer ∷ []) ∷ []

abbrev directory : Directory tables
directory = (3, table (older ∷ gone ∷ [])) ∷ (4, table (newer ∷ [])) ∷ []

built_upper :
    build (λ bits. 1) 4096 0 (map row (older ∷ gone ∷ [])) ≡ ok (table (older ∷ gone ∷ []))
unfolding add with_options note_pending flush_data_block finish write_raw metaindex_bytes
    footer_bytes encode_handle Block.add Block.new Block.current_size_estimate Block.append_entry
    Block.common_prefix_len Block.is_empty Block.finish Bloom.insert Bloom.ensure_capacity
    Bloom.insert_loop Bloom.new Bloom.double_hash Bloom.set_bit Bloom.bloom_hash Bloom.finish
    le_bytes encode_varint32 encode_varint64 encode_loop lt_wf dec_le InternalKey.encode
built_upper = refl

size_upper : length (table (older ∷ gone ∷ [])) ≡ 152
unfolding add with_options note_pending flush_data_block finish write_raw metaindex_bytes
    footer_bytes encode_handle Block.add Block.new Block.current_size_estimate Block.append_entry
    Block.common_prefix_len Block.is_empty Block.finish Bloom.insert Bloom.ensure_capacity
    Bloom.insert_loop Bloom.new Bloom.double_hash Bloom.set_bit Bloom.bloom_hash Bloom.finish
    le_bytes encode_varint32 encode_varint64 encode_loop lt_wf dec_le InternalKey.encode
size_upper = refl

built_lower : build (λ bits. 1) 4096 0 (map row (newer ∷ [])) ≡ ok (table (newer ∷ []))
unfolding add with_options note_pending flush_data_block finish write_raw metaindex_bytes
    footer_bytes encode_handle Block.add Block.new Block.current_size_estimate Block.append_entry
    Block.common_prefix_len Block.is_empty Block.finish Bloom.insert Bloom.ensure_capacity
    Bloom.insert_loop Bloom.new Bloom.double_hash Bloom.set_bit Bloom.bloom_hash Bloom.finish
    le_bytes encode_varint32 encode_varint64 encode_loop lt_wf dec_le InternalKey.encode
built_lower = refl

size_lower : length (table (newer ∷ [])) ≡ 139
unfolding add with_options note_pending flush_data_block finish write_raw metaindex_bytes
    footer_bytes encode_handle Block.add Block.new Block.current_size_estimate Block.append_entry
    Block.common_prefix_len Block.is_empty Block.finish Bloom.insert Bloom.ensure_capacity
    Bloom.insert_loop Bloom.new Bloom.double_hash Bloom.set_bit Bloom.bloom_hash Bloom.finish
    le_bytes encode_varint32 encode_varint64 encode_loop lt_wf dec_le InternalKey.encode
size_lower = refl

opened : open_inputs tables directory (upper ∷ lower ∷ []) ≡ ok sources
unfolding open_inputs open_table InternalKey.encode le_bytes
opened =
    let first =
      read_all-build (λ bits. 1) 4096 0 (map row (older ∷ gone ∷ [])) (table (older ∷ gone ∷ []))
        ((omega arith, omega arith), ((omega arith, omega arith), _)) built_upper
        (omega (arith, size_upper)) in
    let second =
      read_all-build (λ bits. 1) 4096 0 (map row (newer ∷ [])) (table (newer ∷ []))
        ((omega arith, omega arith), _) built_lower (omega (arith, size_lower)) in
    rw (open_inputs, open_table, first, second) refl

streamed : Streams (merging sources) (map bytes_of entries)
unfolding merging fill_from refill next peek pop internal_key_cmp user_key_of_internal_key
    seq_of_internal_key InternalKey.encode le_bytes from_le_bytes
streamed =
    Streams.more refl refl
      (Streams.more refl refl (Streams.more refl refl (Streams.done refl refl)))

-- What do_compaction does once the inputs are open.
abbrev behind_opening :
    ℕ → Result (List (List Item)) → Result (CompactionOutput × Directory tables × IdGenerator)
behind_opening oldest r = do
  sources ← r
  merged ←
      merge_loop tables 4 chosen version oldest (merging sources)
        (start tables directory (record { next = 5 }))
  done ← finish_last tables merged
  ok (
    record { new_files = done.new_files; deleted_files = input_file_numbers chosen },
    done.dir,
    done.id_gen,
  )

abbrev left_behind : Result (CompactionOutput × Directory tables × IdGenerator) → List ℕ
left_behind (ok (output, dir, id_gen)) = map (λ e. length e.1) dir
left_behind (err e) = []
left_behind panic = []

sizes : left_behind (behind_opening 10 (ok sources)) ≡ 139 ∷ 152 ∷ 139 ∷ []
unfolding add with_options note_pending flush_data_block finish write_raw metaindex_bytes
    footer_bytes encode_handle Block.add Block.new Block.current_size_estimate Block.append_entry
    Block.common_prefix_len Block.is_empty Block.finish Bloom.insert Bloom.ensure_capacity
    Bloom.insert_loop Bloom.new Bloom.double_hash Bloom.set_bit Bloom.bloom_hash Bloom.finish
    le_bytes encode_varint32 encode_varint64 encode_loop lt_wf dec_le InternalKey.encode merge_loop
    merge_entry write_entry open_file new_file_number continue_with_entry finish_current finish_last
    split count_grandparents overlap_scan delete_droppable is_base_level_for_user_key is_base_from
    get_overlaps files_at user_key_overlap merging fill_from refill next peek pop internal_key_cmp
    user_key_of_internal_key vtype_of_internal_key InternalKey.decode seq_of_internal_key
    from_le_bytes
sizes = refl

small_sizes :
    (dir : Directory tables)
    → All (λ n. n < 2 ^ 32) (map (λ e. length e.1) dir)
    → AllSmall tables reliable dir
small_sizes [] h = _
small_sizes (e ∷ dir) h = (h.0, small_sizes dir h.1)

small :
    (output : CompactionOutput) (dir' : Directory tables) (id_gen' : IdGenerator)
    → do_compaction tables 4 directory chosen version (record { next = 5 }) 10
      ≡ ok (output, dir', id_gen')
    → AllSmall tables reliable dir'
unfolding do_compaction
small output dir' id_gen' e =
    let sized : map (λ e. length e.1) dir' ≡ 139 ∷ 152 ∷ 139 ∷ [] =
      ap left_behind (sym e ∙ ap (behind_opening 10) opened) ∙ sizes in
    small_sizes dir' (
      subst (All (λ (n : ℕ). n < 2 ^ 32)) (sym sized)
        (omega arith, (omega arith, (omega arith, _))))

entries-Fit : All (λ x. reliable.Fits (bytes_of x)) entries
unfolding InternalKey.encode le_bytes
entries-Fit =
    ((omega arith, omega arith), ((omega arith, omega arith), ((omega arith, omega arith), _)))

do_compaction-kept_example :
    (output : CompactionOutput) × (dir' : Directory tables) × (id_gen' : IdGenerator)
    × (written : List (List Item)) × (do_compaction tables 4 directory chosen version
          (record { next = 5 })
          10
        ≡ ok (output, dir', id_gen'))
    × (open_inputs tables dir' output.new_files ≡ ok written)
    × (concat written ≡ map bytes_of (kept (is_base chosen version) 10 no_last entries))
    × (output.deleted_files ≡ input_file_numbers chosen)
do_compaction-kept_example =
    do_compaction-kept tables reliable chosen version 10 refl 4 directory (record { next = 5 })
      sources entries opened streamed (omega arith, (omega arith, (omega arith, _))) entries-Fit
      (omega arith) (omega arith) small

do_compaction-read_example :
    (output : CompactionOutput) × (dir' : Directory tables) × (id_gen' : IdGenerator)
    × (written : List (List Item)) × (entries' : List Entry) × (do_compaction tables 4 directory
          chosen version
          (record { next = 5 })
          10
        ≡ ok (output, dir', id_gen'))
    × (open_inputs tables dir' output.new_files ≡ ok written)
    × (concat written ≡ map bytes_of entries')
    × (read 11 (1 ∷ []) entries' ≡ read 11 (1 ∷ []) entries)
do_compaction-read_example =
    do_compaction-read tables reliable chosen version 10 refl 4 directory (record { next = 5 })
      sources entries 11 (1 ∷ []) opened streamed (omega arith, (omega arith, (omega arith, _)))
      entries-Fit (omega arith) ((inr (refl, omega arith), (inl refl, _)), ((inl refl, _), (_, _)))
      (omega arith) (omega arith) small
