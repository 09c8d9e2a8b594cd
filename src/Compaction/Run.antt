-- ===== src/Compaction/Run.antt =====
-- `do_compaction` of src/compaction.rs. Tables are an interface, which Sstable/Table fills: what a
-- builder and a reader of tables do. The directory is the list of its finished tables, newest first; a
-- file that `File::create` makes counts as there from `finish` on. What an error leaves behind in the
-- directory is not kept. Fuel that is spent shows as a panic.
pub mod Lookups
pub mod Contents
pub mod Written
pub mod Answers
use mulan_lsm.Prelude.{
  ℕ, zero, suc, ◌+◌, ◌-◌, ◌*◌, ◌%◌, ◌^◌, List, [], ◌∷◌, ◌++◌, map, length, drop, ltb, leb, ◌==◌,
  if◌then◌else◌, Bool, true, false, ◌&&◌, ◌||◌, Option, none, some, Result, ok, err, panic, ok_or,
  MulanError, ◌>>=◌,
}
use mulan_lsm.Prelude.Bytes.{Bytes, cmp_bytes}
use mulan_lsm.Prelude.Compare.{is_lt}
use mulan_lsm.InternalKey
use mulan_lsm.InternalKey.{InternalKey, ValueType, user_key_of_internal_key, vtype_of_internal_key}
use mulan_lsm.FileMeta.{FileNumber, FileMetaData, new_meta, IdGenerator, new_file_number}
use mulan_lsm.Version.{Version}
use mulan_lsm.Iterator.{Item, MergingIterator, merging, next}
use mulan_lsm.Tables.{Tables}
use mulan_lsm.Compaction.{
  Compaction, is_base_level_for_user_key, input_file_numbers, target_file_size,
  max_grandparent_overlap_bytes,
}
use mulan_lsm.Compaction.Drop.{Last, no_last, same_as_last, is_delete}

-- A grandparent is counted when the key is within it, and then passed over.
unfoldable pub overlap_scan : Bytes → List FileMetaData → ℕ → ℕ → ℕ × ℕ
overlap_scan user_key [] idx overlap = (idx, overlap)
overlap_scan user_key (gp ∷ gps) idx overlap =
    let behind = overlap_scan user_key gps (idx + 1) overlap in
    let counted = overlap_scan user_key gps (idx + 1) ((overlap + gp.file_size) % 2 ^ 64) in
    if is_lt (cmp_bytes gp.largest.user_key user_key)
    then behind
    else if is_lt (cmp_bytes user_key gp.smallest.user_key)
    then (idx, overlap)
    else counted

-- `vtype == Delete && seq <= oldest_snapshot_seq && is_base_level_for_user_key(..)`
unfoldable pub delete_droppable : Compaction → Version → ℕ → ValueType → ℕ → Bytes → Result Bool
delete_droppable c version oldest vtype seq user_key =
    if is_delete vtype && leb seq oldest
    then is_base_level_for_user_key c version user_key
    else ok false

pub record CompactionOutput : Type 0 where
  pub new_files : List FileMetaData
  pub deleted_files : List (ℕ × FileNumber)

module _ (T : Tables) where
  abbrev pub Directory : Type 0
  Directory = List (FileNumber × T.File)

  abbrev pub lookup : FileNumber → Directory → Option T.File
  lookup number [] = none
  lookup number ((n, file) ∷ dir) = if n == number then some file else lookup number dir

  unfoldable pub open_table : Directory → FileNumber → Result (List Item)
  open_table dir number = do file ← ok_or (lookup number dir) MulanError.io; T.into_table_iter file

  unfoldable pub open_inputs : Directory → List FileMetaData → Result (List (List Item))
  open_inputs dir [] = ok []
  open_inputs dir (f ∷ fs) = do
    items ← open_table dir f.number
    more ← open_inputs dir fs
    ok (items ∷ more)

  -- The local variables of `do_compaction`, with the directory and the generator.
  pub record Work : Type 0 where
    pub dir : List (FileNumber × T.File)
    pub id_gen : IdGenerator
    pub new_files : List FileMetaData
    pub builder : Option T.Builder
    pub smallest : Option InternalKey
    pub largest : Option InternalKey
    pub grandparent_overlap : ℕ
    pub file_number : Option FileNumber
    pub grandparent_idx : ℕ
    pub last : Last

  unfoldable pub open_file : InternalKey → Work → Work
  open_file ik w =
      let (number, id_gen) = new_file_number w.id_gen in
      record w {
        id_gen = id_gen;
        file_number = some number;
        builder = some T.create;
        smallest = some ik;
        largest = some ik;
        grandparent_overlap = 0;
      }

  unfoldable pub continue_with_entry : Bytes → Bytes → Bytes → Work → Result Work
  continue_with_entry user_key ik_bytes value w = do
    b ← ok_or w.builder MulanError.corrupted
    b' ← T.add b user_key ik_bytes value
    ik ← InternalKey.decode ik_bytes
    ok (record w { builder = some b'; largest = some ik })

  -- With the metadata appended to the new files.
  unfoldable pub finish_current : Work → Result Work
  finish_current w = do
    b ← ok_or w.builder MulanError.corrupted
    file ← T.finish b
    number ← ok_or w.file_number MulanError.corrupted
    smallest ← ok_or w.smallest MulanError.corrupted
    largest ← ok_or w.largest MulanError.corrupted
    ok (record w {
      builder = none;
      dir = (number, file) ∷ w.dir;
      new_files = w.new_files ++ new_meta number (T.file_len file) smallest largest ∷ [];
    })

  abbrev pub should_split : T.Builder → Work → Bool
  should_split b w =
      leb target_file_size (T.current_size_estimate b)
      || ltb max_grandparent_overlap_bytes w.grandparent_overlap

  -- A new file, where the one that stands is full.
  unfoldable pub split : InternalKey → T.Builder → Work → Result Work
  split ik b w =
      if should_split b w
      then finish_current w >>= (λ done. ok (record (open_file ik done) { grandparent_idx = 0 }))
      else ok w

  unfoldable pub count_grandparents : Compaction → Bytes → Work → Work
  count_grandparents c user_key w =
      let (idx, overlap) =
        overlap_scan user_key (drop w.grandparent_idx c.grandparents) w.grandparent_idx
          w.grandparent_overlap in
      record w { grandparent_idx = idx; grandparent_overlap = overlap }

  abbrev pub write_to : Option T.Builder → Compaction → InternalKey → Item → Work → Result Work
  write_to none c ik (ik_bytes, value) w =
      continue_with_entry (user_key_of_internal_key ik_bytes) ik_bytes value (open_file ik w)
  write_to (some b) c ik (ik_bytes, value) w = do
    ready ← split ik b w
    continue_with_entry (user_key_of_internal_key ik_bytes) ik_bytes value
        (count_grandparents c (user_key_of_internal_key ik_bytes) ready)

  -- An entry that is not dropped.
  unfoldable pub write_entry : Compaction → InternalKey → Item → Work → Result Work
  write_entry c ik item w = write_to w.builder c ik item w

  -- The body of the loop.
  unfoldable pub merge_entry : Compaction → Version → ℕ → Item → Work → Result Work
  merge_entry c version oldest (ik_bytes, value) w = elim (vtype_of_internal_key ik_bytes) [
    | none ↦ ok w
    | some vtype ↦
        let user_key = user_key_of_internal_key ik_bytes in
        InternalKey.decode ik_bytes >>= λ ik.
        delete_droppable c version oldest vtype ik.seq user_key >>= λ droppable.
        let same = same_as_last w.last.user_key user_key in
        let now = record w { last = record { user_key = some user_key; seq = ik.seq } } in
        if (same && leb w.last.seq oldest) || droppable
        then ok now
        else write_entry c ik (ik_bytes, value) now
  ]

  unfoldable pub merge_loop : ℕ → Compaction → Version → ℕ → MergingIterator → Work → Result Work
  merge_loop zero c version oldest m w = panic
  merge_loop (suc fuel) c version oldest m w =
      let (item, m') = next m in
      elim item [
        | none ↦ ok w
        | some entry ↦ merge_entry c version oldest entry w >>= merge_loop fuel c version oldest m'
      ]

  abbrev pub finish_open : Option T.Builder → Work → Result Work
  finish_open none w = ok w
  finish_open (some b) w = finish_current w

  unfoldable pub finish_last : Work → Result Work
  finish_last w = finish_open w.builder w

  abbrev pub start : Directory → IdGenerator → Work
  start dir id_gen = record {
    dir = dir;
    id_gen = id_gen;
    new_files = [];
    builder = none;
    smallest = none;
    largest = none;
    grandparent_overlap = 0;
    file_number = none;
    grandparent_idx = 0;
    last = no_last;
  }

  -- The output, with the directory and the generator behind it.
  unfoldable pub do_compaction :
      ℕ
      → Directory
      → Compaction
      → Version
      → IdGenerator
      → ℕ
      → Result (CompactionOutput × Directory × IdGenerator)
  do_compaction fuel dir c version id_gen oldest = do
    sources ← open_inputs dir (c.inputs0 ++ c.inputs1)
    merged ← merge_loop fuel c version oldest (merging sources) (start dir id_gen)
    done ← finish_last merged
    ok (
      record { new_files = done.new_files; deleted_files = input_file_numbers c },
      done.dir,
      done.id_gen,
    )
