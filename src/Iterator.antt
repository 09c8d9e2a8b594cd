-- ===== src/Iterator.antt =====
-- src/iterator.rs: the merge of sorted sources, and the iterator of a scan. A source behind
-- `dyn LsmIterator` is the list of what it has still to give; the `BinaryHeap` of the standard library
-- is the list of what it holds, whose `pop` takes a least element.
pub mod Order
pub mod Heap
pub mod Streams
pub mod Step
pub mod Run
pub mod Merge
pub mod Shown
pub mod Scan
mod Tests
use Prim.Native.Nat.{Ordering}
use mulan_lsm.Prelude.{
  ℕ, zero, suc, ◌+◌, List, [], ◌∷◌, ◌++◌, map, length, drop, get_elem?, set, ltb, if◌then◌else◌,
  Bool, true, false, Option, none, some, Result, ok, err, panic,
}
use mulan_lsm.Prelude.Bytes.{Bytes, bytes_eq}
use mulan_lsm.InternalKey
use mulan_lsm.InternalKey.{
  InternalKey, ValueType, internal_key_cmp, seq_of_internal_key, vtype_of_internal_key,
  user_key_of_internal_key,
}

-- An internal key's bytes and a value.
abbrev pub Item : Type 0
Item = Bytes × Bytes

pub record Buffered : Type 0 where
  pub key : Bytes
  pub value : Bytes
  pub src : ℕ

abbrev pub item_of : Buffered → Item
item_of b = (b.key, b.value)

-- `Ord for Buffered`
abbrev pub buffered_cmp : Buffered → Buffered → Ordering
buffered_cmp a b = internal_key_cmp a.key b.key

pub record MergingIterator : Type 0 where
  pub iters : List (List Item)
  pub heap : List Buffered

-- `heap.pop()`: of equal elements the one that stands first.
unfoldable pub pop : List Buffered → Option (Buffered × List Buffered)
pop [] = none
pop (b ∷ bs) = elim (pop bs) [
  | none ↦ some (b, [])
  | some (m, rest) ↦ elim (buffered_cmp b m) [
    | Ordering.gt ↦ some (m, b ∷ rest)
    | Ordering.lt ↦ some (b, bs)
    | Ordering.eq ↦ some (b, bs)
  ]
]

-- `if let Some((k, v)) = iters[src].next() { heap.push(..) }`
unfoldable pub refill : ℕ → List Item → MergingIterator → MergingIterator
refill src [] m = m
refill src ((k, v) ∷ rest) m = record {
  iters = set m.iters src rest;
  heap = record { key = k; value = v; src = src } ∷ m.heap;
}

-- The first entry of every source goes to the heap; `src` counts the sources.
unfoldable pub fill_from : ℕ → List (List Item) → MergingIterator → MergingIterator
fill_from src [] m = m
fill_from src (source ∷ sources) m = fill_from (src + 1) sources (refill src source m)

unfoldable pub merging : List (List Item) → MergingIterator
merging sources = fill_from 0 sources (record { iters = sources; heap = [] })

unfoldable pub peek : MergingIterator → Option Item
peek m = elim (pop m.heap) [ none ↦ none | some (top, rest) ↦ some (item_of top) ]

-- The source of what is popped is read again. A source that there is not would be a panic; every
-- buffered entry names one that there is.
unfoldable pub next : MergingIterator → Option Item × MergingIterator
next m = elim (pop m.heap) [
  | none ↦ (none, m)
  | some (top, rest) ↦
      let popped = record m { heap = rest } in
      elim (get_elem? m.iters top.src) [
        | none ↦ (some (item_of top), popped)
        | some source ↦ (some (item_of top), refill top.src source popped)
      ]
]

pub record VecIterator : Type 0 where
  pub items : List Item
  pub pos : ℕ

unfoldable pub vec_peek : VecIterator → Option Item
vec_peek v = get_elem? v.items v.pos

unfoldable pub vec_next : VecIterator → Option Item × VecIterator
vec_next v = elim (get_elem? v.items v.pos) [
  | none ↦ (none, v)
  | some item ↦ (some item, record v { pos = v.pos + 1 })
]

pub record DbIter : Type 0 where
  pub inner : MergingIterator
  pub snapshot_seq : ℕ
  pub pending : Option (Bytes × Bytes)

-- The later versions of a user key, which are older, are passed over. On fuel.
unfoldable pub skip_same : ℕ → Bytes → MergingIterator → MergingIterator
skip_same zero user_key m = m
skip_same (suc fuel) user_key m = elim (peek m) [
  | none ↦ m
  | some (key, _) ↦ elim (bytes_eq (user_key_of_internal_key key) user_key) [
    | true ↦ skip_same fuel user_key (next m).1
    | false ↦ m
  ]
]

-- One round of `advance`: what stands in front is passed over, or ends the loop.
pub data Round : Type 0 where
  again : MergingIterator → Round
  found : Bytes × Bytes → MergingIterator → Round

unfoldable pub visit : ℕ → ℕ → Item → MergingIterator → Round
visit fuel snapshot (ik_bytes, value) m = elim (seq_of_internal_key ik_bytes) [
  | none ↦ again m
  | some seq ↦ elim (ltb snapshot seq) [
    | true ↦ again m
    | false ↦ elim (vtype_of_internal_key ik_bytes) [
      | none ↦ again m
      | some vtype ↦
          let user_key = user_key_of_internal_key ik_bytes in
          let rest = skip_same fuel user_key m in
          elim vtype [
            | ValueType.put ↦ found (user_key, value) rest
            | ValueType.delete ↦ again rest
          ]
    ]
  ]
]

-- The loop of `advance`, on fuel: what is found, and the rest.
unfoldable pub advance_loop : ℕ → ℕ → MergingIterator → Option (Bytes × Bytes) × MergingIterator
advance_loop zero snapshot m = (none, m)
advance_loop (suc fuel) snapshot m =
    let (item, m') = next m in
    elim item [
      | none ↦ (none, m')
      | some entry ↦ elim (visit fuel snapshot entry m') [
        | again rest ↦ advance_loop fuel snapshot rest
        | found kv rest ↦ (some kv, rest)
      ]
    ]

unfoldable pub advance : ℕ → DbIter → DbIter
advance fuel it =
    let (pending, inner) = advance_loop fuel it.snapshot_seq it.inner in
    record it { inner = inner; pending = pending }

unfoldable pub db_iter : ℕ → MergingIterator → ℕ → DbIter
db_iter fuel inner snapshot_seq =
    advance fuel (record { inner = inner; snapshot_seq = snapshot_seq; pending = none })

unfoldable pub db_next : ℕ → DbIter → Option (Bytes × Bytes) × DbIter
db_next fuel it = elim it.pending [ none ↦ (none, it) | some item ↦ (some item, advance fuel it) ]
