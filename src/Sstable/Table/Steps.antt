-- ===== src/Sstable/Table/Steps.antt =====
-- The steps of the builder of src/sstable/table.rs: a new one, the entry of the index that is due, a data
-- block that is written, and an entry that is added.
use mathlib.Core.Path.{subst}
use mulan_lsm.Prelude.{
  ℕ, arith, ◌+◌, ◌%◌, ◌^◌, ◌≡◌, refl, sym, ap, ◌∙◌, List, [], ◌∷◌, ◌++◌, map, length, length-append,
  append_assoc, append-nil, All, leb, ==_iff, if◌then◌else◌, Bool, true, false, Bool-cases, Option,
  none, some, ok, panic, ◌>>=◌, inl, inr,
}
use mulan_lsm.Prelude.Bytes.{Bytes, IsU32}
use mulan_lsm.Bloom
use mulan_lsm.Sstable.Block
use mulan_lsm.Sstable.Block.{BlockBuilder, is_empty}
use mulan_lsm.Sstable.Block.Entries.{Encodes-none, Encodes-empty}
use mulan_lsm.Sstable.Block.RoundTrip.{IsBuilder, new-IsBuilder, add-IsBuilder}
use mulan_lsm.Sstable.Table.{
  BlockHandle, TableBuilder, encode_handle, with_options, write_raw, index_entry, note_pending,
  flush_data_block, flush_full, add,
}
use mulan_lsm.Sstable.Table.Footer.{IsHandle, handle_bytes, encode_handle_lem, length-handle_bytes}
use mulan_lsm.Sstable.Table.Walk.{join}
use mulan_lsm.Sstable.Table.Built.{
  handle_at, handle_at-IsHandle, finish-Located, AllLocated-append, AllLocated-last, index_item,
  IsTable,
}

-- What a step leaves alone.
pub record Keeps (t t' : TableBuilder) : Type 0 where
  pub finished : t'.finished ≡ t.finished
  pub bloom : t'.bloom ≡ t.bloom

pub with_options-IsTable :
    (optimal_k : ℕ → ℕ) (block_target bits_per_key : ℕ)
    → IsTable none (with_options optimal_k block_target bits_per_key) []
unfolding with_options
with_options-IsTable optimal_k block_target bits_per_key = record {
  blocks = [];
  current = [];
  noted = [];
  contents = refl;
  located = _;
  block = new-IsBuilder;
  index = new-IsBuilder;
  has_key = refl;
  has_handle = refl;
  due_fits = _;
  noted_fit = _;
  offset = refl;
  key_fits = omega arith;
  order = inl refl;
  counted = refl;
}

map-snoc {ℓ ℓ'} :
    {A : Type ℓ} {B : Type ℓ'} (f : A → B) (xs : List A) (x : A)
    → map f (xs ++ x ∷ []) ≡ map f xs ++ f x ∷ []
map-snoc f [] x = refl
map-snoc f (y ∷ ys) x = ap (◌∷◌ (f y)) (map-snoc f ys x)

All-snoc :
    (es : List (Bytes × BlockHandle)) (e : Bytes × BlockHandle)
    → All (λ e. IsHandle e.1) es
    → IsHandle e.1
    → All (λ e. IsHandle e.1) (es ++ e ∷ [])
All-snoc [] e h p = (p, _)
All-snoc (d ∷ ds) e h p = (h.0, All-snoc ds e h.1 p)

pub join-snoc :
    (xss : List (List (Bytes × Bytes))) (xs : List (Bytes × Bytes))
    → join (xss ++ xs ∷ []) ≡ join xss ++ xs
join-snoc [] xs = append-nil xs
join-snoc (ys ∷ yss) xs = ap (◌++◌ ys) (join-snoc yss xs) ∙ sym (append_assoc ys (join yss) xs)

pub note_pending-IsTable :
    (due : Option (Bytes × BlockHandle)) (t : TableBuilder) (items : List (Bytes × Bytes))
    → (h : IsTable due t items)
    → (t' : TableBuilder) × (note_pending t ≡ ok t')
      × (h' : IsTable none t' items) × (h'.current ≡ h.current)
      × Keeps t t'
unfolding note_pending
note_pending-IsTable none t items h = (
  t,
  ap (λ key. index_entry key t.pending_handle t) h.has_key,
  h,
  refl,
  record { finished = refl; bloom = refl },
)
note_pending-IsTable (some (key, handle)) t items h =
    let bytes : encode_handle [] handle ≡ handle_bytes handle =
      encode_handle_lem [] handle h.due_fits.1 in
    let small : IsU32 (length (handle_bytes handle)) = omega (arith, length-handle_bytes handle) in
    let (index, (added, built)) =
      add-IsBuilder t.index_block (map index_item h.noted) key (handle_bytes handle) h.index
        h.due_fits.0 small in
    let t' : TableBuilder = record t {
      index_block = index;
      pending_index_key = none;
      pending_handle = none;
    } in
    (
      t',
      (rw (note_pending, h.has_key, h.has_handle, bytes, added) refl),
      record {
        blocks = h.blocks;
        current = h.current;
        noted = h.noted ++ (key, handle) ∷ [];
        contents = h.contents;
        located = h.located;
        block = h.block;
        index = subst (IsBuilder index) (sym (map-snoc index_item h.noted (key, handle))) built;
        has_key = refl;
        has_handle = refl;
        due_fits = _;
        noted_fit = All-snoc h.noted (key, handle) h.noted_fit h.due_fits.1;
        offset = h.offset;
        key_fits = h.key_fits;
        order = inl refl;
        counted = h.counted;
      },
      refl,
      record { finished = refl; bloom = refl },
    )

-- A block that is written while nothing is due.
write_block :
    (t : TableBuilder) (items : List (Bytes × Bytes))
    → (h : IsTable none t items) → (is_empty t.data_block ≡ false)
    → (h' : IsTable
        (some (t.last_key, handle_at t.file (Block.finish t.data_block)))
        (flush_data_block t)
        items)
      × (h'.current ≡ [])
      × Keeps t (flush_data_block t)
unfolding flush_data_block write_raw
write_block t items h full =
    let bytes = Block.finish t.data_block in
    let handle = handle_at t.file bytes in
    let written : TableBuilder = record t {
      data_block = Block.new;
      file = t.file ++ bytes;
      file_offset = (t.file_offset + length bytes) % 2 ^ 64;
      pending_index_key = some t.last_key;
      pending_handle = some (record { offset = t.file_offset; size = length bytes % 2 ^ 64 });
    } in
    let same : flush_data_block t ≡ written = rw (flush_data_block, full) refl in
    subst
      (λ (t' : TableBuilder).
        (h' : IsTable (some (t.last_key, handle)) t' items) × (h'.current ≡ []) × Keeps t t')
      (sym same)
      (
        record {
          blocks = h.blocks ++ h.current ∷ [];
          current = [];
          noted = h.noted;
          contents = append-nil _ ∙ join-snoc h.blocks h.current ∙ h.contents;
          located =
              AllLocated-last (t.file ++ bytes) h.noted h.blocks (t.last_key, handle) h.current
                (AllLocated-append t.file bytes h.noted h.blocks h.located)
                (finish-Located t.file t.data_block h.current h.block);
          block = new-IsBuilder;
          index = h.index;
          has_key = refl;
          has_handle =
              ap (λ (n : ℕ). some (record { offset = n; size = length bytes % 2 ^ 64 })) h.offset;
          due_fits = (h.key_fits, handle_at-IsHandle t.file bytes);
          noted_fit = h.noted_fit;
          offset = omega (arith, h.offset, length-append t.file bytes);
          key_fits = h.key_fits;
          order = inr refl;
          counted = h.counted;
        },
        refl,
        record { finished = refl; bloom = refl },
      )

is_empty_lem : (b : BlockBuilder) → b.buf ≡ [] → is_empty b ≡ true
unfolding is_empty
is_empty_lem b e = rw e refl

is_empty_length : (b : BlockBuilder) → is_empty b ≡ true → length b.buf ≡ 0
unfolding is_empty
is_empty_length b e = (==_iff (length b.buf) 0).0 e

-- Behind a flush no entry is left outside the file.
pub flush_data_block-IsTable :
    (due : Option (Bytes × BlockHandle)) (t : TableBuilder) (items : List (Bytes × Bytes))
    → IsTable due t items
    → (due' : Option (Bytes × BlockHandle)) × (h' : IsTable due' (flush_data_block t) items)
      × (h'.current ≡ [])
      × Keeps t (flush_data_block t)
unfolding flush_data_block
flush_data_block-IsTable due t items h = elim (Bool-cases (is_empty t.data_block)) [
  | inl empty ↦
      rw (flush_data_block, empty)
        (
          due,
          h,
          Encodes-empty h.block.encodes (is_empty_length t.data_block empty),
          record { finished = refl; bloom = refl },
        )
  | inr full ↦ elim h.order [
    | inl noted ↦
        let (h', gone, keeps) = write_block t items (subst (λ d. IsTable d t items) noted h) full in
        (some (t.last_key, handle_at t.file (Block.finish t.data_block)), h', gone, keeps)
    | inr none_left ↦
        let empty = is_empty_lem t.data_block (Encodes-none h.block.encodes none_left) in cc
  ]
]

flush_full-IsTable :
    (t : TableBuilder) (items : List (Bytes × Bytes))
    → IsTable none t items
    → (due' : Option (Bytes × BlockHandle)) × IsTable due' (flush_full t) items
      × Keeps t (flush_full t)
flush_full-IsTable t items h =
    elim (Bool-cases (leb t.block_target (Block.current_size_estimate t.data_block))) [
      | inl full ↦
          let (due', h', _, keeps) = flush_data_block-IsTable none t items h in
          rw full (due', h', keeps)
      | inr room ↦ rw room (none, h, record { finished = refl; bloom = refl })
    ]

-- The builder behind the new entry, before the block is written out.
abbrev with_entry : TableBuilder → BlockBuilder → Bytes → Bytes → TableBuilder
with_entry t block user_key internal_key = record t {
  data_block = block;
  last_key = internal_key;
  bloom = Bloom.insert t.bloom user_key;
  num_entries = (t.num_entries + 1) % 2 ^ 64;
}

with_entry-IsTable :
    (t : TableBuilder) (items : List (Bytes × Bytes)) (block : BlockBuilder)
    (user_key internal_key value : Bytes)
    → (h : IsTable none t items) → IsBuilder block (h.current ++ (internal_key, value) ∷ [])
    → IsU32 (length internal_key)
    → IsTable none (with_entry t block user_key internal_key) (items ++ (internal_key, value) ∷ [])
with_entry-IsTable t items block user_key internal_key value h built fits = record {
  blocks = h.blocks;
  current = h.current ++ (internal_key, value) ∷ [];
  noted = h.noted;
  contents =
      sym (append_assoc (join h.blocks) h.current ((internal_key, value) ∷ []))
      ∙ ap (λ (xs : List (Bytes × Bytes)). xs ++ (internal_key, value) ∷ []) h.contents;
  located = h.located;
  block = built;
  index = h.index;
  has_key = h.has_key;
  has_handle = h.has_handle;
  due_fits = _;
  noted_fit = h.noted_fit;
  offset = h.offset;
  key_fits = fits;
  order = inl refl;
  counted = omega (arith, h.counted, length-append items ((internal_key, value) ∷ []));
}

add_lem :
    (t noted : TableBuilder) (block : BlockBuilder) (user_key internal_key value : Bytes)
    → t.finished ≡ false
    → note_pending t ≡ ok noted
    → Block.add noted.data_block internal_key value ≡ ok block
    → add t user_key internal_key value
      ≡ ok (flush_full (with_entry noted block user_key internal_key))
unfolding add
add_lem t noted block user_key internal_key value running is_noted added =
    ap
      (λ (b : Bool).
        if b
        then panic
        else note_pending t >>= λ noted. Block.add noted.data_block internal_key value >>= λ block.
            ok (flush_full (with_entry noted block user_key internal_key)))
      running
    ∙ ap
        (λ r. r >>= λ noted. Block.add noted.data_block internal_key value >>= λ block.
          ok (flush_full (with_entry noted block user_key internal_key)))
        is_noted
    ∙ ap (λ r. r >>= λ block. ok (flush_full (with_entry noted block user_key internal_key))) added

-- An entry is added, whatever is due.
pub add-IsTable :
    (due : Option (Bytes × BlockHandle)) (t : TableBuilder) (items : List (Bytes × Bytes))
    (user_key internal_key value : Bytes)
    → IsTable due t items
    → t.finished ≡ false
    → IsU32 (length internal_key)
    → IsU32 (length value)
    → (due' : Option (Bytes × BlockHandle)) × (t' : TableBuilder) × (add t user_key internal_key
          value
        ≡ ok t')
      × IsTable due' t' (items ++ (internal_key, value) ∷ [])
      × (t'.finished ≡ false)
      × (t'.bloom ≡ Bloom.insert t.bloom user_key)
add-IsTable due t items user_key internal_key value h running hk hv =
    let (noted, is_noted, h1, _, keeps1) = note_pending-IsTable due t items h in
    let (block, (added, built)) =
      add-IsBuilder noted.data_block h1.current internal_key value h1.block hk hv in
    let (due', h3, keeps3) =
      flush_full-IsTable (with_entry noted block user_key internal_key)
        (items ++ (internal_key, value) ∷ [])
        (with_entry-IsTable noted items block user_key internal_key value h1 built hk) in
    (
      due',
      flush_full (with_entry noted block user_key internal_key),
      add_lem t noted block user_key internal_key value running is_noted added,
      h3,
      keeps3.finished ∙ keeps1.finished ∙ running,
      keeps3.bloom ∙ ap (λ bloom. Bloom.insert bloom user_key) keeps1.bloom,
    )
