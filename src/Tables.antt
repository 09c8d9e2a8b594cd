-- ===== src/Tables.antt =====
-- What src/memtable.rs and src/compaction.rs ask of the tables of src/sstable/table.rs: an interface,
-- with the laws that its callers rely on.
use mulan_lsm.Prelude.{ℕ, ◌%◌, ◌^◌, ◌≡◌, List, [], ◌∷◌, ◌++◌, length, Result, ok}
use mulan_lsm.Prelude.Bytes.{Bytes}
use mulan_lsm.Iterator.{Item}

-- `TableBuilder` and `TableReader`, as far as they are called; `create` is `with_options` over a new
-- file, and has the target of a block and the bits of a key.
pub record Tables : Type 1 where
  pub Builder : Type 0
  pub File : Type 0
  pub create : Builder
  pub add : Builder → Bytes → Bytes → Bytes → Result Builder
  pub num_entries : Builder → ℕ
  pub current_size_estimate : Builder → ℕ
  pub finish : Builder → Result File
  pub file_len : File → ℕ
  pub into_table_iter : File → Result (List Item)

-- Tables that give back what was put into them: `Holds` says what a builder was given. `Fits` are the
-- entries that they take, and `Small` the files that a reader can address.
pub record IsReliable (T : Tables) : Type 1 where
  pub Fits : Item → Type 0
  pub Holds : T.Builder → List Item → Type 0
  pub Small : T.File → Type 0
  pub create_holds : Holds T.create []
  pub num_entries_holds :
      (b : T.Builder) (items : List Item) → Holds b items → T.num_entries b ≡ length items % 2 ^ 64
  pub add_holds :
      (b : T.Builder) (items : List Item) (user_key k v : Bytes)
      → Holds b items
      → Fits (k, v)
      → (b' : T.Builder) × ((T.add b user_key k v ≡ ok b') × Holds b' (items ++ (k, v) ∷ []))
  pub finish_holds :
      (b : T.Builder) (items : List Item)
      → Holds b items
      → (file : T.File) × ((T.finish b ≡ ok file)
          × (Small file → T.into_table_iter file ≡ ok items))
