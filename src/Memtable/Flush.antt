-- ===== src/Memtable/Flush.antt =====
-- The flush of src/memtable.rs: the table that it writes and the bounds that it returns.
use mathlib.Core.Path.{subst}
use mulan_lsm.Prelude.{
  ◌%◌, ◌^◌, ◌≡◌, refl, ap, ◌∙◌, List, [], ◌∷◌, ◌++◌, map, length, append_assoc, append-nil, Option,
  none, some, ok, All,
}
use mulan_lsm.InternalKey
use mulan_lsm.InternalKey.{InternalKey}
use mulan_lsm.Reads.{Entry, bytes_of}
use mulan_lsm.Iterator.{Item}
use mulan_lsm.Tables.{Tables, IsReliable}
use mulan_lsm.Memtable.{
  SkipLists, MemTable, FlushResult, or_first, flush_loop, flush_to_sstable_with_options,
}

abbrev pub first_key : List Entry → Option InternalKey
first_key [] = none
first_key (x ∷ xs) = some x.0

-- The last key, or what stands for none.
abbrev pub last_key : Option InternalKey → List Entry → Option InternalKey
last_key before [] = before
last_key before (x ∷ xs) = last_key (some x.0) xs

abbrev or_keep : Option InternalKey → Option InternalKey → Option InternalKey
or_keep none found = found
or_keep (some first) found = some first

module _ (S : SkipLists) (T : Tables) (R : IsReliable T) where
  abbrev Flushed :
      T.Builder → List Item → Option InternalKey → Option InternalKey → List Entry → Type 0
  Flushed b items smallest largest xs =
      (b' : T.Builder) × ((flush_loop S T xs b smallest largest
          ≡ ok (b', or_keep smallest (first_key xs), last_key largest xs))
        × R.Holds b' (items ++ map bytes_of xs))

  flush_loop_lem :
      (xs : List Entry) (b : T.Builder) (items : List Item) (smallest largest : Option InternalKey)
      → R.Holds b items
      → All (λ x. R.Fits (bytes_of x)) xs
      → Flushed b items smallest largest xs
  unfolding flush_loop
  flush_loop_lem [] b items none largest h fits = (b, (refl, rw (append-nil items) h))
  flush_loop_lem [] b items (some first) largest h fits = (b, (refl, rw (append-nil items) h))
  flush_loop_lem (x ∷ xs) b items smallest largest h fits =
      let (b', (added, holds)) =
        R.add_holds b items x.0.user_key (InternalKey.encode x.0) x.1 h fits.0 in
      let (b'', (rest, more)) =
        flush_loop_lem xs b' (items ++ bytes_of x ∷ []) (or_first smallest x.0) (some x.0) holds
          fits.1 in
      (
        b'',
        (
          rw added
              (rest ∙ ap (λ first. ok (b'', first, last_key (some x.0) xs)) (first_lem smallest)),
          subst (R.Holds b'') (append_assoc items (bytes_of x ∷ []) (map bytes_of xs)) more,
        ),
      )
    where
      first_lem :
          (smallest : Option InternalKey)
          → or_keep (or_first smallest x.0) (first_key xs) ≡ or_keep smallest (some x.0)
      first_lem none = refl
      first_lem (some first) = refl

  -- A flush succeeds: the table that it writes gives back the encodings of all versions of the
  -- memtable, in order, and it returns their number, as a number of 64 bits, and the first and the
  -- last key. Builder and reader of tables keep the laws IsReliable, the versions fit, and the
  -- file that it writes is small in the sense of these laws.
  pub flush-holds :
      (m : MemTable S)
      → All (λ x. R.Fits (bytes_of x)) (S.iter m.skiplist)
      → ((result : FlushResult) (file : T.File)
          → flush_to_sstable_with_options S T m ≡ ok (result, file)
          → R.Small file)
      → (result : FlushResult) × (file : T.File) × (flush_to_sstable_with_options S T m
          ≡ ok (result, file))
        × (T.into_table_iter file ≡ ok (map bytes_of (S.iter m.skiplist)))
        × (result.num_entries ≡ length (map bytes_of (S.iter m.skiplist)) % 2 ^ 64)
        × (result.smallest ≡ first_key (S.iter m.skiplist))
        × (result.largest ≡ last_key none (S.iter m.skiplist))
  unfolding flush_to_sstable_with_options
  flush-holds m fits small =
      let versions = S.iter m.skiplist in
      let (b, (written, holds)) =
        flush_loop_lem versions T.create [] none none R.create_holds fits in
      let (file, (finished, read_back)) = R.finish_holds b (map bytes_of versions) holds in
      let result : FlushResult = record {
        num_entries = T.num_entries b;
        smallest = first_key versions;
        largest = last_key none versions;
      } in
      let flushed : flush_to_sstable_with_options S T m ≡ ok (result, file) =
        rw (flush_to_sstable_with_options, written, finished) refl in
      (
        result,
        file,
        flushed,
        read_back (small result file flushed),
        R.num_entries_holds b (map bytes_of versions) holds,
        refl,
        refl,
      )
