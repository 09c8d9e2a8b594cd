-- ===== src/Compaction/Run/Contents.antt =====
-- The tables that `do_compaction` of src/compaction.rs writes: what is in them after every step.
use mulan_lsm.Prelude.{
  ℕ, arith, ◌+◌, ◌^◌, All, ◌≤◌, ◌<◌, ◌≡◌, refl, sym, ap, ◌∙◌, List, [], ◌∷◌, ◌++◌, append_assoc,
  append-nil, All-append, Bool-cases, Option, none, some, Result, ok, ◌>>=◌, ◌⊎◌, inl, inr,
}
use mulan_lsm.Prelude.Bytes.{Bytes}
use mulan_lsm.InternalKey
use mulan_lsm.InternalKey.{InternalKey, user_key_of_internal_key}
use mulan_lsm.FileMeta.{FileNumber, new_meta, new_file_number}
use mulan_lsm.Iterator.{Item}
use mulan_lsm.Iterator.Streams.{concat}
use mulan_lsm.Tables.{Tables, IsReliable}
use mulan_lsm.Compaction.{Compaction}
use mulan_lsm.Compaction.Drop.{Last}
use mulan_lsm.Compaction.Run.{
  Directory, open_inputs, Work, open_file, continue_with_entry, finish_current, should_split, split,
  count_grandparents, write_to, write_entry, finish_open, finish_last,
}
use mulan_lsm.Compaction.Run.Lookups.{
  AllBelow, AllBelow-weaken, concat-last, open_inputs-other, open_table-new, open_inputs-last,
}

module _ (T : Tables) (R : IsReliable T) where
  -- Every table of the directory is small.
  abbrev pub AllSmall : Directory T → Type 0
  AllSmall = All (λ e. R.Small e.1)

  -- There is a file number for each of `left` more entries.
  abbrev pub HasRoom : ℕ → Work T → Type 0
  HasRoom left w = w.id_gen.next + left < 2 ^ 64

  -- No table is being written.
  pub record Closed (left : ℕ) (last : Last) (w : Work T) (items : List Item) : Type 0 where
    pub sources : List (List Item)
    pub opened : AllSmall w.dir → open_inputs T w.dir w.new_files ≡ ok sources
    pub room : HasRoom left w
    pub below : AllBelow w.id_gen.next w.new_files
    pub none_open : w.builder ≡ none
    pub contents : concat sources ≡ items
    pub same_last : w.last ≡ last

  pub record Pending (left : ℕ) (last : Last) (w : Work T) (items : List Item) : Type 0 where
    pub sources : List (List Item)
    pub opened : AllSmall w.dir → open_inputs T w.dir w.new_files ≡ ok sources
    pub room : HasRoom left w
    pub b : T.Builder
    pub held : List Item
    pub holds : R.Holds b held
    pub has_builder : w.builder ≡ some b
    pub number : FileNumber
    pub has_number : w.file_number ≡ some number
    pub first : InternalKey
    pub has_smallest : w.smallest ≡ some first
    pub final : InternalKey
    pub has_largest : w.largest ≡ some final
    pub below : AllBelow number w.new_files
    pub fresh : number < w.id_gen.next
    pub contents : concat sources ++ held ≡ items
    pub same_last : w.last ≡ last

  open_file-Pending :
      (left : ℕ) (last : Last) (ik : InternalKey) (w : Work T) (items : List Item)
      → Closed (left + 1) last w items
      → Pending left last (open_file T ik w) items
  unfolding open_file new_file_number
  open_file-Pending left last ik w items c = record {
    sources = c.sources;
    opened = c.opened;
    room = omega (arith, c.room);
    b = T.create;
    held = [];
    holds = R.create_holds;
    has_builder = refl;
    number = w.id_gen.next;
    has_number = refl;
    first = ik;
    has_smallest = refl;
    final = ik;
    has_largest = refl;
    below = c.below;
    fresh = omega (arith, c.room);
    contents = append-nil _ ∙ c.contents;
    same_last = c.same_last;
  }

  -- The step ends well, in such a state.
  abbrev pub Ends : Result (Work T) → (Work T → Type 0) → Type 0
  Ends result P = (w : Work T) × ((result ≡ ok w) × P w)

  pub Ends-step : {P : Work T → Type 0} {r r' : Result (Work T)} → r ≡ r' → Ends r' P → Ends r P
  Ends-step e (w, (ends, p)) = (w, (e ∙ ends, p))

  continue_with_entry-Pending :
      (left : ℕ) (last : Last) (user_key k v : Bytes) (ik : InternalKey) (w : Work T)
      (items : List Item)
      → Pending left last w items
      → R.Fits (k, v)
      → InternalKey.decode k ≡ ok ik
      → Ends
          (continue_with_entry T user_key k v w)
          (λ w'. Pending left last w' (items ++ (k, v) ∷ []))
  unfolding continue_with_entry
  continue_with_entry-Pending left last user_key k v ik w items p fits decoded =
      let (b', (added, holds)) = R.add_holds p.b p.held user_key k v p.holds fits in
      (
        record w { builder = some b'; largest = some ik },
        (
          rw (continue_with_entry, p.has_builder, added, decoded) refl,
          record {
            sources = p.sources;
            opened = p.opened;
            room = p.room;
            b = b';
            held = p.held ++ (k, v) ∷ [];
            holds = holds;
            has_builder = refl;
            number = p.number;
            has_number = p.has_number;
            first = p.first;
            has_smallest = p.has_smallest;
            final = ik;
            has_largest = refl;
            below = p.below;
            fresh = p.fresh;
            contents =
                sym (append_assoc (concat p.sources) p.held ((k, v) ∷ []))
                ∙ ap (λ (xs : List Item). xs ++ (k, v) ∷ []) p.contents;
            same_last = p.same_last;
          },
        ),
      )

  pub finish_current-Closed :
      (left : ℕ) (last : Last) (w : Work T) (items : List Item)
      → Pending left last w items
      → Ends (finish_current T w) (λ w'. Closed left last w' items)
  unfolding finish_current new_meta
  finish_current-Closed left last w items p =
      let (file, (finished, holds)) = R.finish_holds p.b p.held p.holds in
      let dir = (p.number, file) ∷ w.dir in
      let meta = new_meta p.number (T.file_len file) p.first p.final in
      (
        record w { builder = none; dir = dir; new_files = w.new_files ++ meta ∷ [] },
        (
          rw (finish_current, p.has_builder, finished, p.has_number, p.has_smallest, p.has_largest)
              refl,
          record {
            sources = p.sources ++ p.held ∷ [];
            opened = λ small.
                open_inputs-last T dir w.new_files meta p.sources p.held
                  (open_inputs-other T w.dir p.number file w.new_files p.below ∙ p.opened small.1)
                  (open_table-new T w.dir p.number file ∙ holds small.0);
            room = p.room;
            below =
                All-append (λ f. f.number < w.id_gen.next) w.new_files (meta ∷ [])
                  (AllBelow-weaken p.number w.id_gen.next w.new_files (omega (arith, p.fresh))
                    p.below)
                  (p.fresh, _);
            none_open = refl;
            contents = concat-last p.sources p.held ∙ p.contents;
            same_last = p.same_last;
          },
        ),
      )

  abbrev pub IsWork : ℕ → Last → Work T → List Item → Type 0
  IsWork left last w items = Closed left last w items ⊎ Pending left last w items

  -- The counters of grandparents have no say in what is written.
  recount-Pending :
      (left left' : ℕ) (last : Last) (idx overlap : ℕ) (w : Work T) (items : List Item)
      → left' ≤ left
      → Pending left last w items
      → Pending left' last (record w { grandparent_idx = idx; grandparent_overlap = overlap }) items
  recount-Pending left left' last idx overlap w items less p = record {
    sources = p.sources;
    opened = p.opened;
    room = omega (arith, p.room, less);
    b = p.b;
    held = p.held;
    holds = p.holds;
    has_builder = p.has_builder;
    number = p.number;
    has_number = p.has_number;
    first = p.first;
    has_smallest = p.has_smallest;
    final = p.final;
    has_largest = p.has_largest;
    below = p.below;
    fresh = p.fresh;
    contents = p.contents;
    same_last = p.same_last;
  }

  -- With fewer entries to come.
  pub move-IsWork :
      (left left' : ℕ) (last next : Last) (w : Work T) (items : List Item)
      → left' ≤ left
      → IsWork left last w items
      → IsWork left' next (record w { last = next }) items
  move-IsWork left left' last next w items less (inl c) = inl (record {
    sources = c.sources;
    opened = c.opened;
    room = omega (arith, c.room, less);
    below = c.below;
    none_open = c.none_open;
    contents = c.contents;
    same_last = refl;
  })
  move-IsWork left left' last next w items less (inr p) = inr (record {
    sources = p.sources;
    opened = p.opened;
    room = omega (arith, p.room, less);
    b = p.b;
    held = p.held;
    holds = p.holds;
    has_builder = p.has_builder;
    number = p.number;
    has_number = p.has_number;
    first = p.first;
    has_smallest = p.has_smallest;
    final = p.final;
    has_largest = p.has_largest;
    below = p.below;
    fresh = p.fresh;
    contents = p.contents;
    same_last = refl;
  })

  split-Pending :
      (left : ℕ) (last : Last) (ik : InternalKey) (b : T.Builder) (w : Work T) (items : List Item)
      → Pending (left + 1) last w items
      → Ends (split T ik b w) (λ w'. Pending left last w' items)
  unfolding split open_file
  split-Pending left last ik b w items p = elim (Bool-cases (should_split T b w)) [
    | inl full ↦
        let (done, (finished, closed)) = finish_current-Closed (left + 1) last w items p in
        let q = open_file-Pending left last ik done items closed in
        (
          record (open_file T ik done) { grandparent_idx = 0 },
          (
            rw (split, full, finished) refl,
            recount-Pending left left last 0 0 (open_file T ik done) items (omega arith) q,
          ),
        )
    | inr fits ↦ (
      w,
      (
        rw (split, fits) refl,
        recount-Pending (left + 1) left last w.grandparent_idx w.grandparent_overlap w items
            (omega arith) p,
      ),
    )
  ]

  pub write_entry-Pending :
      (left : ℕ) (c : Compaction) (last : Last) (k v : Bytes) (ik : InternalKey) (w : Work T)
      (items : List Item)
      → IsWork (left + 1) last w items
      → R.Fits (k, v)
      → InternalKey.decode k ≡ ok ik
      → Ends (write_entry T c ik (k, v) w) (λ w'. Pending left last w' (items ++ (k, v) ∷ []))
  unfolding write_entry count_grandparents
  write_entry-Pending left c last k v ik w items (inl closed) fits decoded =
      Ends-step (ap (λ (o : Option T.Builder). write_to T o c ik (k, v) w) closed.none_open) (
        continue_with_entry-Pending left last (user_key_of_internal_key k) k v ik (open_file T ik w)
          items (open_file-Pending left last ik w items closed) fits decoded)
  write_entry-Pending left c last k v ik w items (inr p) fits decoded =
      let (ready, (divided, q)) = split-Pending left last ik p.b w items p in
      let next = λ (r : Work T).
        continue_with_entry T (user_key_of_internal_key k) k v
          (count_grandparents T c (user_key_of_internal_key k) r) in
      Ends-step
        (ap (λ (o : Option T.Builder). write_to T o c ik (k, v) w) p.has_builder
          ∙ ap (λ (r : Result (Work T)). r >>= next) divided)
        (continue_with_entry-Pending left last (user_key_of_internal_key k) k v ik
          (count_grandparents T c (user_key_of_internal_key k) ready) items
          (recount-Pending left left last _ _ ready items (omega arith) q) fits decoded)

  pub finish_last-Closed :
      (left : ℕ) (last : Last) (w : Work T) (items : List Item)
      → IsWork left last w items
      → Ends (finish_last T w) (λ w'. Closed left last w' items)
  unfolding finish_last
  finish_last-Closed left last w items (inl c) =
      (w, (ap (λ (o : Option T.Builder). finish_open T o w) c.none_open, c))
  finish_last-Closed left last w items (inr p) =
      Ends-step (ap (λ (o : Option T.Builder). finish_open T o w) p.has_builder)
        (finish_current-Closed left last w items p)
