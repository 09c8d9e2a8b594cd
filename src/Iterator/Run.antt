-- ===== src/Iterator/Run.antt =====
-- The merge of src/iterator.rs, run until nothing is left.
use mathlib.Core.List.{Permᴰ}
use mathlib.Core.List.Permᴰ
use mathlib.Core.Path.{subst}
use mulan_lsm.Prelude.{
  ℕ, zero, suc, ◌≤◌, arith, ◌≡◌, refl, sym, ap, ◌∙◌, List, [], ◌∷◌, ◌++◌, map, length, get_elem?,
  append-nil, none, some, All-permᴰ, length-permᴰ, Has, inl, inr,
}
use mulan_lsm.Iterator.{Item, Buffered, item_of, MergingIterator, pop, peek, next}
use mulan_lsm.Iterator.Order.{Leq, IsSorted}
use mulan_lsm.Iterator.Heap.{pop_lem}
use mulan_lsm.Iterator.Streams.{Streams, concat, left, IsMerging}
use mulan_lsm.Iterator.Step.{Stepped, step_lem}

-- Nothing is in the heap: no source has anything left.
ended : (m : MergingIterator) → IsMerging m → m.heap ≡ [] → concat m.iters ≡ []
ended m ok empty = all_empty m.iters (λ i x xs e. nowhere i x xs e)
  where
    nowhere : (i : ℕ) (x : Item) (xs : List Item) → get_elem? m.iters i ≡ some (x ∷ xs) → ⊥
    nowhere i x xs e =
        let (b, (has, _)) = ok.covered i x xs e in
        elim (subst (λ (h : List Buffered). Has b h) empty has) [ ]

    all_empty :
        (xss : List (List Item))
        → ((i : ℕ) (x : Item) (xs : List Item) → get_elem? xss i ≡ some (x ∷ xs) → ⊥)
        → concat xss ≡ []
    all_empty [] h = refl
    all_empty ([] ∷ xss) h = all_empty xss (λ i x xs e. h (suc i) x xs e)
    all_empty ((x ∷ xs) ∷ xss) h = elim (h 0 x xs refl) [ ]

abbrev Merged : MergingIterator → Type 0
Merged m = (xs : List Item) × (Streams m xs × (IsSorted xs × Permᴰ (left m) xs))

stream_end : (m : MergingIterator) → IsMerging m → m.heap ≡ [] → pop m.heap ≡ none → Merged m
unfolding next peek
stream_end m ok empty nothing = (
  [],
  (
    Streams.done (rw (next, nothing) refl) (rw (peek, nothing) refl),
    (
      _,
      subst (λ (xs : List Item). Permᴰ xs [])
          (sym (
            ap (◌++◌ (map item_of m.heap)) (ended m ok empty)
            ∙ append-nil _
            ∙ ap (map item_of) empty))
          (Permᴰ.refl []),
    ),
  ),
)

step_length :
    (m m' : MergingIterator) (x : Item) → Stepped m m' x → length (left m) ≡ suc (length (left m'))
step_length m m' x step = length-permᴰ step.perm

stream_more : (m m' : MergingIterator) (x : Item) → Stepped m m' x → Merged m' → Merged m
stream_more m m' x step (xs, (streams, (sorted, perm))) = (
  x ∷ xs,
  (
    Streams.more step.gives step.shows streams,
    (
      (All-permᴰ (Leq x) perm (All-permᴰ (Leq x) step.perm step.first).1, sorted),
      Permᴰ.trans step.perm (Permᴰ.cons refl perm),
    ),
  ),
)

-- The steps of the merge, until nothing is left.
pub stream_lem : (n : ℕ) (m : MergingIterator) → IsMerging m → length (left m) ≤ n → Merged m
stream_lem zero m ok small = elim (pop_lem m.heap) [
  | inl (empty, nothing) ↦ stream_end m ok empty nothing
  | inr (top, (rest, (found, p))) ↦
      let (m', step) = step_lem m ok top rest found p in
      absurd (omega (arith, small, step_length m m' (item_of top) step))
]
stream_lem (suc n) m ok small = elim (pop_lem m.heap) [
  | inl (empty, nothing) ↦ stream_end m ok empty nothing
  | inr (top, (rest, (found, p))) ↦
      let (m', step) = step_lem m ok top rest found p in
      let fewer = step_length m m' (item_of top) step in
      stream_more m m' (item_of top) step (stream_lem n m' step.fine (omega (arith, small, fewer)))
]
