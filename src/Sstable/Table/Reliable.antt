-- ===== src/Sstable/Table/Reliable.antt =====
-- The builder and the reader of src/sstable/table.rs, as src/memtable.rs and src/compaction.rs ask for them.
use mulan_lsm.Prelude.{ℕ, ◌≡◌, refl, List, [], ◌∷◌, ◌++◌, length, false, Option, none, ok}
use mulan_lsm.Prelude.Bytes.{Bytes, IsU32}
use mulan_lsm.Iterator.{Item}
use mulan_lsm.Tables.{Tables, IsReliable}
use mulan_lsm.Sstable.Table.{
  BlockHandle, TableBuilder, with_options, add, finish, current_size_estimate, read_all,
}
use mulan_lsm.Sstable.Table.Built.{IsSmall, IsTable}
use mulan_lsm.Sstable.Table.Steps.{with_options-IsTable, add-IsTable}
use mulan_lsm.Sstable.Table.Finish.{whole}
use mulan_lsm.Sstable.Table.RoundTrip.{finish_lem, read_all-whole}

abbrev pub sstables : (ℕ → ℕ) → ℕ → ℕ → Tables
sstables optimal_k block_target bits_per_key = record {
  Builder = TableBuilder;
  File = Bytes;
  create = with_options optimal_k block_target bits_per_key;
  add = add;
  num_entries = λ t. t.num_entries;
  current_size_estimate = current_size_estimate;
  finish = finish;
  file_len = length;
  into_table_iter = read_all;
}

-- A builder that is not finished and was given the entries.
abbrev pub Given : TableBuilder → List Item → Type 0
Given t items = (due : Option (Bytes × BlockHandle)) × (IsTable due t items × (t.finished ≡ false))

pub with_options-Given :
    (optimal_k : ℕ → ℕ) (block_target bits_per_key : ℕ)
    → Given (with_options optimal_k block_target bits_per_key) []
unfolding with_options
with_options-Given optimal_k block_target bits_per_key =
    (none, (with_options-IsTable optimal_k block_target bits_per_key, refl))

pub add-Given :
    (t : TableBuilder) (items : List Item) (user_key k v : Bytes)
    → Given t items
    → IsU32 (length k) × IsU32 (length v)
    → (t' : TableBuilder) × ((add t user_key k v ≡ ok t') × Given t' (items ++ (k, v) ∷ []))
add-Given t items user_key k v (due, (h, running)) fits =
    let (due', t', added, h', running', _) =
      add-IsTable due t items user_key k v h running fits.0 fits.1 in
    (t', (added, (due', (h', running'))))

pub finish-Given :
    (t : TableBuilder) (items : List Item)
    → Given t items
    → (file : Bytes) × ((finish t ≡ ok file) × (IsSmall file → read_all file ≡ ok items))
finish-Given t items (due, (h, running)) =
    let (t', finished, done, _) = finish_lem due t items h running in
    (whole t'.file t'.bloom t'.index_block, (finished, λ small. read_all-whole t' items done small))

-- The laws hold: an entry fits whose key and value are shorter than 2^32, and a file is small that is
-- of less than 4 GiB.
abbrev pub reliable_sstables :
    (optimal_k : ℕ → ℕ) (block_target bits_per_key : ℕ)
    → IsReliable (sstables optimal_k block_target bits_per_key)
reliable_sstables optimal_k block_target bits_per_key = record {
  Fits = λ item. IsU32 (length item.0) × IsU32 (length item.1);
  Holds = Given;
  Small = IsSmall;
  create_holds = with_options-Given optimal_k block_target bits_per_key;
  num_entries_holds = λ t items given. given.1.0.counted;
  add_holds = add-Given;
  finish_holds = finish-Given;
}
