-- ===== src/Compaction/Run/Written.antt =====
-- `do_compaction` of src/compaction.rs as a whole: its output tables hold what the merge gives, less
-- what is dropped.
use mathlib.Core.Path.{subst}
use mulan_lsm.Prelude.{
  ℕ, zero, suc, arith, ◌+◌, ◌-◌, ◌^◌, ◌<◌, ◌≤◌, ◌≡◌, refl, sym, ap, ◌∙◌, List, [], ◌∷◌, ◌++◌, map,
  length, append_assoc, append-nil, All, filter, get_elem?, leb, if◌then◌else◌, Bool, true, false,
  ◌&&◌, Bool-cases, some, Result, ok, err, panic, ◌⊎◌, inl, inr,
}
use mulan_lsm.Prelude.Bytes.{Bytes, IsU64}
use mulan_lsm.InternalKey.{InternalKey}
use mulan_lsm.InternalKey.Codec.{
  user_key_of_internal_key-encode, vtype_of_internal_key-encode, decode-encode,
}
use mulan_lsm.FileMeta.{FileMetaData, IdGenerator}
use mulan_lsm.Version.{Version, num_levels, files_at, get_overlaps, user_key_overlap}
use mulan_lsm.Reads.{Entry, bytes_of}
use mulan_lsm.Iterator.{Item, MergingIterator, merging, next}
use mulan_lsm.Iterator.Streams.{Streams, concat}
use mulan_lsm.Iterator.Scan.{AreU64, nothing_left, starts}
use mulan_lsm.Tables.{Tables, IsReliable}
use mulan_lsm.Compaction.{
  Compaction, is_empty, is_base_from, is_base_level_for_user_key, input_file_numbers,
}
use mulan_lsm.Compaction.Drop.{Last, no_last, is_delete, drops, kept}
use mulan_lsm.Compaction.Run.{
  Directory, open_inputs, Work, write_entry, delete_droppable, merge_entry, merge_loop, start,
  CompactionOutput, do_compaction,
}
use mulan_lsm.Compaction.Run.Contents.{
  AllSmall, Closed, Ends, IsWork, move-IsWork, write_entry-Pending, finish_last-Closed,
}

abbrev pub decided : Result Bool → Bool
decided (ok b) = b
decided (err e) = false
decided panic = false

-- Whether a user key has its base level behind the output of the compaction.
abbrev pub is_base : Compaction → Version → Bytes → Bool
is_base c version key = decided (is_base_level_for_user_key c version key)

files_at-ok :
    (version : Version) (level : ℕ)
    → level < length version.files
    → (fs : List FileMetaData) × (files_at version level ≡ ok fs)
unfolding files_at
files_at-ok version level h =
    let (fs, found) = within version.files level h in (fs, rw (files_at, found) refl)
  where
    within :
        (xs : List (List FileMetaData)) (i : ℕ)
        → i < length xs
        → (x : List FileMetaData) × (get_elem? xs i ≡ some x)
    within [] i h = absurd (omega arith)
    within (x ∷ xs) zero h = (x, refl)
    within (x ∷ xs) (suc i) h = within xs i (omega arith)

is_base_from-ok :
    (rounds level : ℕ) (version : Version) (key : Bytes)
    → (rounds ≡ 0) ⊎ (level + rounds ≤ length version.files)
    → (b : Bool) × (is_base_from rounds level version key ≡ ok b)
unfolding is_base_from get_overlaps
is_base_from-ok zero level version key h = (true, refl)
is_base_from-ok (suc rounds) level version key (inl e) = absurd (omega (arith, e))
is_base_from-ok (suc rounds) level version key (inr h) =
    let (fs, found) = files_at-ok version level (omega (arith, h)) in
    let (b, more) = is_base_from-ok rounds (level + 1) version key (inr (omega (arith, h))) in
    let overlaps = filter (λ f. user_key_overlap f key key) fs in
    elim (Bool-cases (is_empty overlaps)) [
      | inl none_here ↦ (b, rw (found, none_here) more)
      | inr some_here ↦ (false, rw (found, some_here) refl)
    ]

is_base-ok :
    (c : Compaction) (version : Version) (key : Bytes)
    → length version.files ≡ num_levels
    → is_base_level_for_user_key c version key ≡ ok (is_base c version key)
unfolding is_base_level_for_user_key
is_base-ok c version key seven = elim (Bool-cases (leb num_levels (c.level + 2))) [
  | inl last ↦ finish (is_base_from-ok _ _ version key (inl (ground (arith, last))))
  | inr inner ↦ finish (is_base_from-ok _ _ version key (inr (ground (arith, inner, seven))))
]
  where
    finish :
        (b : Bool) × (is_base_from (num_levels - (c.level + 2)) (c.level + 2) version key ≡ ok b)
        → is_base_level_for_user_key c version key ≡ ok (is_base c version key)
    finish (b, e) = e ∙ ap (λ (r : Result Bool). ok (decided r)) (sym e)

delete_droppable-ok :
    (c : Compaction) (version : Version) (oldest : ℕ) (ik : InternalKey)
    → length version.files ≡ num_levels
    → delete_droppable c version oldest ik.vtype ik.seq ik.user_key
      ≡ ok (is_delete ik.vtype && leb ik.seq oldest && is_base c version ik.user_key)
unfolding delete_droppable
delete_droppable-ok c version oldest ik seven =
    let base = is_base-ok c version ik.user_key seven in
    elim (Bool-cases (is_delete ik.vtype)) [
      | inl deleted ↦ elim (Bool-cases (leb ik.seq oldest)) [
        | inl old ↦ rw (delete_droppable, deleted, old) base
        | inr recent ↦ rw (delete_droppable, deleted, recent) refl
      ]
      | inr present ↦ rw (delete_droppable, present) refl
    ]

module _ (T : Tables) (R : IsReliable T) (c : Compaction) (version : Version) (oldest : ℕ)
    (seven : length version.files ≡ num_levels) where
  abbrev after : InternalKey → Last
  after ik = record { user_key = some ik.user_key; seq = ik.seq }

  abbrev step : Bool → Entry → List Item → List Item
  step dropped x items = if dropped then items else items ++ bytes_of x ∷ []

  merge_entry-result :
      (x : Entry) (last : Last) (w : Work T)
      → IsU64 x.0.seq
      → w.last ≡ last
      → merge_entry T c version oldest (bytes_of x) w ≡ (
          if drops (is_base c version) oldest last x.0
          then ok (record w { last = after x.0 })
          else write_entry T c x.0 (bytes_of x) (record w { last = after x.0 }))
  unfolding merge_entry drops
  merge_entry-result x last w u same =
      rw
        (
          merge_entry,
          vtype_of_internal_key-encode x.0,
          user_key_of_internal_key-encode x.0,
          decode-encode x.0 u,
          delete_droppable-ok c version oldest x.0 seven,
          sym same,
        )
        refl

  IsWork-last :
      (left : ℕ) (last : Last) (w : Work T) (items : List Item)
      → IsWork T R left last w items
      → w.last ≡ last
  IsWork-last left last w items (inl c) = c.same_last
  IsWork-last left last w items (inr p) = p.same_last

  merge_entry-IsWork :
      (left : ℕ) (x : Entry) (last : Last) (w : Work T) (items : List Item)
      → IsU64 x.0.seq
      → R.Fits (bytes_of x)
      → IsWork T R (left + 1) last w items
      → Ends T R (merge_entry T c version oldest (bytes_of x) w) (λ w'.
        IsWork T R left (after x.0) w' (step (drops (is_base c version) oldest last x.0) x items))
  merge_entry-IsWork left x last w items u fits work =
      let result = merge_entry-result x last w u (IsWork-last (left + 1) last w items work) in
      let moved = move-IsWork T R (left + 1) left last (after x.0) w items (omega arith) work in
      let ready =
        move-IsWork T R (left + 1) (left + 1) last (after x.0) w items (omega arith) work in
      let now = record w { last = after x.0 } in
      elim (Bool-cases (drops (is_base c version) oldest last x.0)) [
        | inl dropped ↦ rw dropped (now, (result ∙ rw dropped refl, moved))
        | inr stays ↦
            let (w', (written, p)) =
              write_entry-Pending T R left c (after x.0) (bytes_of x).0 x.1 x.0 now items ready fits
                (decode-encode x.0 u) in
            rw stays (w', (result ∙ rw stays written, inr p))
      ]

  step-kept :
      (last : Last) (x : Entry) (xs : List Entry) (items : List Item)
      → step (drops (is_base c version) oldest last x.0) x items
          ++ map bytes_of (kept (is_base c version) oldest (after x.0) xs)
        ≡ items ++ map bytes_of (kept (is_base c version) oldest last (x ∷ xs))
  unfolding kept
  step-kept last x xs items = elim (Bool-cases (drops (is_base c version) oldest last x.0)) [
    | inl dropped ↦ rw dropped refl
    | inr stays ↦ rw stays (
        append_assoc items (bytes_of x ∷ [])
          (map bytes_of (kept (is_base c version) oldest (after x.0) xs)))
  ]

  merge_loop-IsWork :
      (fuel : ℕ) (entries : List Entry) (m : MergingIterator) (last : Last) (w : Work T)
      (items : List Item)
      → Streams m (map bytes_of entries)
      → length entries < fuel
      → AreU64 entries
      → All (λ x. R.Fits (bytes_of x)) entries
      → IsWork T R (length entries) last w items
      → Ends T R (merge_loop T fuel c version oldest m w) (λ w'.
        (end : Last) × IsWork T R 0 end w'
          (items ++ map bytes_of (kept (is_base c version) oldest last entries)))
  unfolding merge_loop kept
  merge_loop-IsWork zero entries m last w items s h u fits work = absurd (omega (arith, h))
  merge_loop-IsWork (suc fuel) [] m last w items s h u fits work = (
    w,
    (rw (merge_loop, ap (λ r. r.0) (nothing_left s).0) refl, (last, rw (append-nil items) work)),
  )
  merge_loop-IsWork (suc fuel) (x ∷ xs) m last w items s h u fits work =
      let (m', (gives, (_, rest))) = starts s in
      let (w', (written, work')) =
        merge_entry-IsWork (length xs) x last w items u.0 fits.0
          (subst (λ (n : ℕ). IsWork T R n last w items) (omega arith) work) in
      let items' = step (drops (is_base c version) oldest last x.0) x items in
      let item : (next m).0 ≡ some (bytes_of x) = ap (λ r. r.0) gives in
      let onward : (next m).1 ≡ m' = ap (λ r. r.1) gives in
      let shape = step-kept last x xs items in
      let one : merge_loop T (suc fuel) c version oldest m w
          ≡ merge_loop T fuel c version oldest m' w' =
        rw (merge_loop, item, written, onward) refl in
      let (end_state, (ends, (end, work''))) =
        merge_loop-IsWork fuel xs m' (after x.0) w' items' rest (omega (arith, h)) u.1 fits.1
          work' in
      (
        end_state,
        (one ∙ ends, (end, subst (λ (ys : List Item). IsWork T R 0 end end_state ys) shape work'')),
      )

  start-Closed :
      (left : ℕ) (dir : Directory T) (id_gen : IdGenerator)
      → id_gen.next + left < 2 ^ 64
      → Closed T R left no_last (start T dir id_gen) []
  unfolding open_inputs
  start-Closed left dir id_gen room = record {
    sources = [];
    opened = λ small. refl;
    room = room;
    below = _;
    none_open = refl;
    contents = refl;
    same_last = refl;
  }

  -- A compaction whose input tables open, and whose merge gives the encodings of some entries,
  -- succeeds: the tables it lists as new open in the directory it leaves, together they hold in
  -- order exactly the entries that its rule keeps, however it splits them, and it lists the tables
  -- of both inputs as deleted. The version has seven levels; builder and reader of tables keep the
  -- laws IsReliable, the entries fit and every table in the directory it leaves is small in the
  -- sense of these laws; sequence numbers are of 64 bits, there is a file number of 64 bits for
  -- every entry, and the fuel exceeds the number of entries.
  pub do_compaction-kept :
      (fuel : ℕ) (dir : Directory T) (id_gen : IdGenerator) (sources : List (List Item))
      (entries : List Entry)
      → open_inputs T dir (c.inputs0 ++ c.inputs1) ≡ ok sources
      → Streams (merging sources) (map bytes_of entries)
      → AreU64 entries
      → All (λ x. R.Fits (bytes_of x)) entries
      → length entries < fuel
      → id_gen.next + length entries < 2 ^ 64
      → ((output : CompactionOutput) (dir' : Directory T) (id_gen' : IdGenerator)
          → do_compaction T fuel dir c version id_gen oldest ≡ ok (output, dir', id_gen')
          → AllSmall T R dir')
      → (output : CompactionOutput) × (dir' : Directory T) × (id_gen' : IdGenerator)
        × (written : List (List Item)) × (do_compaction T fuel dir c version id_gen oldest
            ≡ ok (output, dir', id_gen'))
        × (open_inputs T dir' output.new_files ≡ ok written)
        × (concat written ≡ map bytes_of (kept (is_base c version) oldest no_last entries))
        × (output.deleted_files ≡ input_file_numbers c)
  unfolding do_compaction
  do_compaction-kept fuel dir id_gen sources entries opened streams u fits enough room small =
      let (merged, (loops, (last, work))) =
        merge_loop-IsWork fuel entries (merging sources) no_last (start T dir id_gen) [] streams
          enough u fits (inl (start-Closed (length entries) dir id_gen room)) in
      let (done, (finishes, closed)) = finish_last-Closed T R 0 last merged _ work in
      let output : CompactionOutput = record {
        new_files = done.new_files;
        deleted_files = input_file_numbers c;
      } in
      let ends : do_compaction T fuel dir c version id_gen oldest
          ≡ ok (output, done.dir, done.id_gen) =
        rw (do_compaction, opened, loops, finishes) refl in
      (
        output,
        done.dir,
        done.id_gen,
        closed.sources,
        ends,
        closed.opened (small output done.dir done.id_gen ends),
        closed.contents,
        refl,
      )
