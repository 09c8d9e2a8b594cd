-- ===== src/Sstable/Table/RoundTrip.antt =====
-- A table of src/sstable/table.rs that was built and finished is read back: its entries, and its filter.
use mathlib.Core.Path.{subst}
use mulan_lsm.Prelude.{
  ℕ, suc, arith, ◌*◌, ◌/◌, ◌%◌, ◌^◌, ◌-◌, ◌<◌, ◌≡◌, refl, sym, ap, ◌∙◌, List, [], ◌∷◌, ◌++◌, map,
  foldl, length, length-append, append_assoc, append-nil, All, true, false, Option, none, some,
  Result, ok, err, panic, ◌+◌, ◌>>=◌, max,
}
use mulan_lsm.Prelude.Bytes.{Bytes, IsU32}
use mulan_lsm.Bloom
use mulan_lsm.Bloom.{BloomFilter, may_contain}
use mulan_lsm.Bloom.Members.{inserts-contain, ensure_capacity-IsReady}
use mulan_lsm.Sstable.Block
use mulan_lsm.Sstable.Table.{
  BlockHandle, TableBuilder, TableReader, TableIter, with_options, flush_data_block, add,
  write_tail, finish, open_table, into_table_iter, collect, read_table, read_all, count_entries,
}
use mulan_lsm.Sstable.Table.Walk.{join, AllLoad, collect-start}
use mulan_lsm.Sstable.Table.Built.{IsSmall, AllLocated-append, AllLocated-AllLoad, IsTable}
use mulan_lsm.Sstable.Table.Steps.{
  with_options-IsTable, note_pending-IsTable, flush_data_block-IsTable, add-IsTable,
}
use mulan_lsm.Sstable.Table.Finish.{
  whole, with_filter, metaindex, with_metaindex, with_index, footer, index_handle, write_tail_lem,
  open_table_lem, parse_data_handles_lem,
}

-- A user key, the internal key and the value of it.
abbrev pub Row : Type 0
Row = Bytes × Bytes × Bytes

abbrev pub item_of : Row → Bytes × Bytes
item_of (user_key, internal_key, value) = (internal_key, value)

abbrev pub user_key_of : Row → Bytes
user_key_of (user_key, internal_key, value) = user_key

-- Internal keys and values of less than 4 GiB.
abbrev pub Fits : List Row → Type 0
Fits = All (λ row. IsU32 (length (item_of row).0) × IsU32 (length (item_of row).1))

abbrev pub add_all : TableBuilder → List Row → Result TableBuilder
add_all t [] = ok t
add_all t ((user_key, internal_key, value) ∷ rows) =
    add t user_key internal_key value >>= λ t'. add_all t' rows

-- The file of a table that is given the rows one after another.
abbrev pub build : (ℕ → ℕ) → ℕ → ℕ → List Row → Result Bytes
build optimal_k block_target bits_per_key rows =
    add_all (with_options optimal_k block_target bits_per_key) rows >>= finish

add_all-IsTable :
    (rows : List Row) (due : Option (Bytes × BlockHandle)) (t : TableBuilder)
    (items : List (Bytes × Bytes))
    → IsTable due t items
    → t.finished ≡ false
    → Fits rows
    → (due' : Option (Bytes × BlockHandle)) × (t' : TableBuilder) × (add_all t rows ≡ ok t')
      × IsTable due' t' (items ++ map item_of rows)
      × (t'.finished ≡ false)
      × (t'.bloom ≡ foldl Bloom.insert t.bloom (map user_key_of rows))
add_all-IsTable [] due t items h running fits =
    (due, t, refl, subst (IsTable due t) (sym (append-nil items)) h, running, refl)
add_all-IsTable ((user_key, internal_key, value) ∷ rows) due t items h running fits =
    let (due1, t1, added, h1, running1, bloom1) =
      add-IsTable due t items user_key internal_key value h running fits.0.0 fits.0.1 in
    let (due2, t2, rest, h2, running2, bloom2) =
      add_all-IsTable rows due1 t1 (items ++ (internal_key, value) ∷ []) h1 running1 fits.1 in
    (
      due2,
      t2,
      ap (λ r. r >>= λ t'. add_all t' rows) added ∙ rest,
      subst (IsTable due2 t2) (append_assoc items ((internal_key, value) ∷ []) (map item_of rows))
          h2,
      running2,
      bloom2 ∙ ap (λ f. foldl Bloom.insert f (map user_key_of rows)) bloom1,
    )

-- A builder with nothing due and nothing outside its file.
pub record IsDone (t : TableBuilder) (items : List (Bytes × Bytes)) : Type 0 where
  pub built : IsTable none t items
  pub gone : built.current ≡ []

-- `finish` writes such a builder out.
pub finish_lem :
    (due : Option (Bytes × BlockHandle)) (t : TableBuilder) (items : List (Bytes × Bytes))
    → IsTable due t items
    → t.finished ≡ false
    → (t' : TableBuilder) × (finish t ≡ ok (whole t'.file t'.bloom t'.index_block))
      × IsDone t' items
      × (t'.bloom ≡ t.bloom)
unfolding finish
finish_lem due t items h running =
    let (due1, h1, gone, keeps1) = flush_data_block-IsTable due t1 items closed in
    let (t2, noted, h2, same, keeps2) = note_pending-IsTable due1 (flush_data_block t1) items h1 in
    (
      t2,
      rw running (ap (λ r. r >>= write_tail) noted ∙ write_tail_lem t2 h2.offset),
      record { built = h2; gone = same ∙ gone },
      keeps2.bloom ∙ keeps1.bloom,
    )
  where
    t1 : TableBuilder
    t1 = record t { finished = true }

    closed : IsTable due t1 items
    closed = record {
      blocks = h.blocks;
      current = h.current;
      noted = h.noted;
      contents = h.contents;
      located = h.located;
      block = h.block;
      index = h.index;
      has_key = h.has_key;
      has_handle = h.has_handle;
      due_fits = h.due_fits;
      noted_fit = h.noted_fit;
      offset = h.offset;
      key_fits = h.key_fits;
      order = h.order;
      counted = h.counted;
    }

-- The builder that is written out, of the rows.
record Written (optimal_k : ℕ → ℕ) (block_target bits_per_key : ℕ) (rows : List Row) : Type 0 where
  last : TableBuilder
  file :
      build optimal_k block_target bits_per_key rows
      ≡ ok (whole last.file last.bloom last.index_block)
  done : IsDone last (map item_of rows)
  bloom :
      last.bloom
      ≡ foldl Bloom.insert
          (with_options optimal_k block_target bits_per_key).bloom
          (map user_key_of rows)

written :
    (optimal_k : ℕ → ℕ) (block_target bits_per_key : ℕ) (rows : List Row)
    → Fits rows
    → Written optimal_k block_target bits_per_key rows
unfolding with_options
written optimal_k block_target bits_per_key rows fits =
    let start = with_options optimal_k block_target bits_per_key in
    let (due, t, added, h, running, bloom) =
      add_all-IsTable rows none start [] (with_options-IsTable optimal_k block_target bits_per_key)
        refl fits in
    let (last, finished, done, kept) = finish_lem due t (map item_of rows) h running in
    record {
      last = last;
      file = ap (λ r. r >>= finish) added ∙ finished;
      done = done;
      bloom = kept ∙ bloom;
    }

length-map {ℓ ℓ'} :
    {A : Type ℓ} {B : Type ℓ'} (f : A → B) (xs : List A) → length (map f xs) ≡ length xs
length-map f [] = refl
length-map f (x ∷ xs) = ap suc (length-map f xs)

map-append {ℓ ℓ'} :
    {A : Type ℓ} {B : Type ℓ'} (f : A → B) (xs ys : List A)
    → map f (xs ++ ys) ≡ map f xs ++ map f ys
map-append f [] ys = refl
map-append f (x ∷ xs) ys = ap (◌∷◌ (f x)) (map-append f xs ys)

abbrev at_start : Bytes → List BlockHandle → TableIter
at_start all handles = record {
  bytes = all;
  handles = handles;
  handle_idx = 0;
  current = [];
  current_pos = 0;
}

count_entries_lem :
    (all : Bytes) (hs : List BlockHandle) (xss : List (List (Bytes × Bytes)))
    → AllLoad all hs xss
    → count_entries all hs ≡ length (join xss)
count_entries_lem all [] [] loads = refl
count_entries_lem all [] (xs ∷ xss) loads = elim loads [ ]
count_entries_lem all (h ∷ hs) [] loads = elim loads [ ]
count_entries_lem all (h ∷ hs) (xs ∷ xss) loads =
    rw (count_entries, loads.0)
      (omega (arith, length-append xs (join xss), count_entries_lem all hs xss loads.1))

-- The iterator over a file that was written: its handles, and what they lead to.
record Opens (all : Bytes) (items : List (Bytes × Bytes)) : Type 0 where
  handles : List BlockHandle
  blocks : List (List (Bytes × Bytes))
  opened : (open_table all >>= into_table_iter) ≡ ok (at_start all handles)
  loads : AllLoad all handles blocks
  contents : join blocks ≡ items

whole-Opens :
    (t : TableBuilder) (items : List (Bytes × Bytes))
    → IsDone t items
    → IsSmall (whole t.file t.bloom t.index_block)
    → Opens (whole t.file t.bloom t.index_block) items
unfolding into_table_iter
whole-Opens t items d small =
    let b = d.built in
    let all = whole t.file t.bloom t.index_block in
    let located =
      AllLocated-append (with_metaindex t.file t.bloom t.index_block) (Block.finish t.index_block)
        b.noted b.blocks
        (AllLocated-append (with_filter t.file t.bloom t.index_block)
          (metaindex t.file t.bloom t.index_block) b.noted b.blocks
          (AllLocated-append t.file (Bloom.finish t.bloom) b.noted b.blocks b.located)) in
    record {
      handles = map (λ e. e.1) b.noted;
      blocks = b.blocks;
      opened =
          ap (λ r. r >>= into_table_iter) (open_table_lem t.file t.bloom t.index_block small)
          ∙ ap (λ r. r >>= λ hs. ok (at_start all hs))
              (parse_data_handles_lem t.file t.bloom t.index_block b.noted small b.index
                b.noted_fit);
      loads =
          AllLocated-AllLoad (with_index t.file t.bloom t.index_block)
            (footer t.file t.bloom t.index_block) b.noted b.blocks small located;
      contents =
          sym (append-nil (join b.blocks)) ∙ ap (◌++◌ (join b.blocks)) (sym d.gone) ∙ b.contents;
    }

bind_assoc {ℓ ℓ' ℓ''} :
    {A : Type ℓ} {B : Type ℓ'} {C : Type ℓ''} (r : Result A) (f : A → Result B) (g : B → Result C)
    → (r >>= λ a. f a >>= g) ≡ ((r >>= f) >>= g)
bind_assoc (ok a) f g = refl
bind_assoc (err e) f g = refl
bind_assoc panic f g = refl

-- A file that was written is read.
read_table-whole :
    (fuel : ℕ) (t : TableBuilder) (items : List (Bytes × Bytes))
    → IsDone t items
    → IsSmall (whole t.file t.bloom t.index_block)
    → length items < fuel
    → read_table fuel (whole t.file t.bloom t.index_block) ≡ ok items
unfolding read_table
read_table-whole fuel t items d small enough =
    let o = whole-Opens t items d small in
    let all = whole t.file t.bloom t.index_block in
    bind_assoc (open_table all) into_table_iter (λ it. ok (collect fuel it))
    ∙ ap (λ r. r >>= λ it. ok (collect fuel it)) o.opened
    ∙ ap ok (
        collect-start fuel all o.handles o.blocks o.loads
          (omega (arith, enough, ap length o.contents))
        ∙ o.contents)

pub read_all-whole :
    (t : TableBuilder) (items : List (Bytes × Bytes))
    → IsDone t items
    → IsSmall (whole t.file t.bloom t.index_block)
    → read_all (whole t.file t.bloom t.index_block) ≡ ok items
unfolding read_all
read_all-whole t items d small =
    let o = whole-Opens t items d small in
    let all = whole t.file t.bloom t.index_block in
    let rest = λ (it : TableIter). ok (collect (count_entries it.bytes it.handles + 1) it) in
    bind_assoc (open_table all) into_table_iter rest
    ∙ ap (λ r. r >>= rest) o.opened
    ∙ ap ok (
        collect-start (count_entries all o.handles + 1) all o.handles o.blocks o.loads
          (omega (arith, count_entries_lem all o.handles o.blocks o.loads))
        ∙ o.contents)

ok-injective {ℓ} : {A : Type ℓ} {a b : A} → ok a ≡ ok b → a ≡ b
ok-injective e = cc

-- The finished file of a table that was given rows one after another, if it is of less than 4 GiB,
-- opens, and its iterator gives the internal keys and values of all rows, in order, given fuel of
-- more than their number. Internal keys and values are shorter than 2^32; whatever the block size
-- and the options of the filter.
pub read_table-build :
    (optimal_k : ℕ → ℕ) (block_target bits_per_key fuel : ℕ) (rows : List Row) (file : Bytes)
    → Fits rows
    → build optimal_k block_target bits_per_key rows ≡ ok file
    → IsSmall file
    → length rows < fuel
    → read_table fuel file ≡ ok (map item_of rows)
read_table-build optimal_k block_target bits_per_key fuel rows file fits built small enough =
    let w = written optimal_k block_target bits_per_key rows fits in
    let same : whole w.last.file w.last.bloom w.last.index_block ≡ file =
      ok-injective (sym w.file ∙ built) in
    subst (λ (f : Bytes). read_table fuel f ≡ ok (map item_of rows)) same
      (read_table-whole fuel w.last (map item_of rows) w.done (subst IsSmall (sym same) small)
        (omega (arith, enough, length-map item_of rows)))

-- The same with the fuel that a reader has.
pub read_all-build :
    (optimal_k : ℕ → ℕ) (block_target bits_per_key : ℕ) (rows : List Row) (file : Bytes)
    → Fits rows
    → build optimal_k block_target bits_per_key rows ≡ ok file
    → IsSmall file
    → read_all file ≡ ok (map item_of rows)
read_all-build optimal_k block_target bits_per_key rows file fits built small =
    let w = written optimal_k block_target bits_per_key rows fits in
    let same : whole w.last.file w.last.bloom w.last.index_block ≡ file =
      ok-injective (sym w.file ∙ built) in
    subst (λ (f : Bytes). read_all f ≡ ok (map item_of rows)) same
      (read_all-whole w.last (map item_of rows) w.done (subst IsSmall (sym same) small))

-- The finished file of a table of less than 4 GiB opens, the reader has a filter, and the filter
-- lets through the user key of every row that was added. The size in bits of the filter is below
-- 2^32 - 64; internal keys and values are shorter than 2^32.
pub open_table-build :
    (optimal_k : ℕ → ℕ) (block_target bits_per_key : ℕ) (before after : List Row) (row : Row)
    (file : Bytes)
    → Fits (before ++ row ∷ after)
    → build optimal_k block_target bits_per_key (before ++ row ∷ after) ≡ ok file
    → IsSmall file
    → max (50 * block_target % 2 ^ 64 / 32) 1000 * bits_per_key < 2 ^ 32 - 64
    → (r : TableReader) × (bloom : BloomFilter) × (open_table file ≡ ok r)
      × (r.bloom ≡ some bloom)
      × (may_contain bloom (user_key_of row) ≡ true)
unfolding with_options
open_table-build optimal_k block_target bits_per_key before after row file fits built small room =
    let rows = before ++ row ∷ after in
    let w = written optimal_k block_target bits_per_key rows fits in
    let same : whole w.last.file w.last.bloom w.last.index_block ≡ file =
      ok-injective (sym w.file ∙ built) in
    let r : TableReader = record {
      bytes = whole w.last.file w.last.bloom w.last.index_block;
      index_handle = index_handle w.last.file w.last.bloom w.last.index_block;
      bloom = some w.last.bloom;
    } in
    let opened =
      open_table_lem w.last.file w.last.bloom w.last.index_block (subst IsSmall (sym same) small) in
    let start = (with_options optimal_k block_target bits_per_key).bloom in
    let keys : map user_key_of rows
        ≡ map user_key_of before ++ user_key_of row ∷ map user_key_of after =
      map-append user_key_of before (row ∷ after) in
    let contains =
      inserts-contain start (map user_key_of before) (user_key_of row) (map user_key_of after) (
        ensure_capacity-IsReady (Bloom.new optimal_k bits_per_key)
          (max (50 * block_target % 2 ^ 64 / 32) 1000) bits_per_key room) in
    let here : may_contain w.last.bloom (user_key_of row) ≡ true =
      ap (λ f. may_contain f (user_key_of row)) (w.bloom ∙ ap (foldl Bloom.insert start) keys)
      ∙ contains in
    (r, w.last.bloom, ap open_table (sym same) ∙ opened, refl, here)
