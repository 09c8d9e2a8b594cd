-- ===== src/Iterator/Merge.antt =====
-- The merge of src/iterator.rs from its construction: what it gives is sorted, and all of its sources.
use mathlib.Core.List.{Permᴰ}
use mathlib.Core.List.Permᴰ
use mathlib.Core.Path.{subst}
use mulan_lsm.Prelude.{
  ℕ, suc, ◌+◌, ◌-◌, ltb, ◌<◌, arith, ◌≡◌, ◌≢◌, refl, sym, ap, ◌∙◌, List, [], ◌∷◌, map, length, set,
  get_elem?, get_elem?-set_ne, none, some, All, All-set, All-get, Has, ◌==◌, ==_iff, Bool-cases,
  inl, inr,
}
use mulan_lsm.Iterator.{Item, Buffered, item_of, MergingIterator, refill, fill_from, merging}
use mulan_lsm.Iterator.Order.{IsSorted}
use mulan_lsm.Iterator.Streams.{
  Streams, concat, left, Precedes, IsMerging, concat-set, ahead_of_new, ahead_set,
}
use mulan_lsm.Iterator.Run.{stream_lem}

-- The first entries of the sources in front of `src` are in the heap.
record IsFilling (src : ℕ) (m : MergingIterator) : Type 0 where
  sorted : All IsSorted m.iters
  ahead : All (Precedes m.iters) m.heap
  covered :
      (i : ℕ) (x : Item) (xs : List Item)
      → i < src
      → get_elem? m.iters i ≡ some (x ∷ xs)
      → (b : Buffered) × (Has b m.heap × (b.src ≡ i))

-- The sources from `src` on are as they were given.
abbrev Rest : ℕ → List (List Item) → MergingIterator → Type 0
Rest src sources m = (i : ℕ) → get_elem? m.iters (src + i) ≡ get_elem? sources i

abbrev Filled : MergingIterator → MergingIterator → Type 0
Filled m m' = IsMerging m' × Permᴰ (left m') (left m)

refill-IsFilling :
    (src : ℕ) (source : List Item) (m : MergingIterator)
    → IsFilling src m
    → get_elem? m.iters src ≡ some source
    → IsFilling (suc src) (refill src source m)
unfolding refill
refill-IsFilling src [] m ok e = record {
  sorted = ok.sorted;
  ahead = ok.ahead;
  covered = λ i x xs below h. elim (Bool-cases (i == src)) [
    | inl same ↦
        let clash : some (x ∷ xs) ≡ some [] =
          sym h ∙ ap (λ (j : ℕ). get_elem? m.iters j) ((==_iff _ _).0 same) ∙ e in
        cc
    | inr differ ↦ ok.covered i x xs (ground (arith, below, differ)) h
  ];
}
refill-IsFilling src ((k, v) ∷ ys) m ok e =
    let first_sorted = All-get IsSorted m.iters src ((k, v) ∷ ys) ok.sorted e in
    let new : Buffered = record { key = k; value = v; src = src } in
    record {
      sorted = All-set IsSorted m.iters src ys ok.sorted first_sorted.1;
      ahead = (
        ahead_of_new m.iters src (k, v) ys e new refl refl first_sorted.0,
        ahead_set m.iters src (k, v) ys e m.heap ok.ahead,
      );
      covered = λ i x xs below h. elim (Bool-cases (i == src)) [
        | inl same ↦ (new, (inl refl, sym ((==_iff _ _).0 same)))
        | inr differ ↦
            let other : src ≢ i = λ q. ground (arith, q, differ) in
            let old = sym (get_elem?-set_ne m.iters src i ys other) ∙ h in
            let (b, (has, owner)) = ok.covered i x xs (ground (arith, below, differ)) old in
            (b, (inr has, owner))
      ];
    }

refill_left :
    (src : ℕ) (source : List Item) (m : MergingIterator)
    → get_elem? m.iters src ≡ some source
    → Permᴰ (left (refill src source m)) (left m)
unfolding refill
refill_left src [] m e = Permᴰ.refl (left m)
refill_left src ((k, v) ∷ ys) m e = Permᴰ.symm (
    Permᴰ.trans (Permᴰ.append_left (map item_of m.heap) (concat-set m.iters src (k, v) ys e))
      (Permᴰ.middle (k, v) (map item_of m.heap) (concat (set m.iters src ys))))

refill-Rest :
    (src : ℕ) (source : List Item) (sources : List (List Item)) (m : MergingIterator)
    → Rest src (source ∷ sources) m
    → Rest (suc src) sources (refill src source m)
unfolding refill
refill-Rest src [] sources m h i = ap (λ (j : ℕ). get_elem? m.iters j) (omega arith) ∙ h (suc i)
refill-Rest src ((k, v) ∷ ys) sources m h i =
    get_elem?-set_ne m.iters src (suc src + i) ys (λ e. omega (arith, e))
    ∙ ap (λ (j : ℕ). get_elem? m.iters j) (omega arith)
    ∙ h (suc i)

fill_lem :
    (src : ℕ) (sources : List (List Item)) (m : MergingIterator)
    → IsFilling src m
    → Rest src sources m
    → Filled m (fill_from src sources m)
unfolding fill_from
fill_lem src [] m ok rest = (
  record {
    sorted = ok.sorted;
    ahead = ok.ahead;
    covered = λ i x xs h. elim (Bool-cases (ltb i src)) [
      | inl below ↦ ok.covered i x xs (ground (arith, below)) h
      | inr above ↦
          let at : src + (i - src) ≡ i = ground (arith, above) in
          let nothing : some (x ∷ xs) ≡ none =
            sym h ∙ ap (λ (j : ℕ). get_elem? m.iters j) (sym at) ∙ rest (i - src) in
          cc
    ];
  },
  Permᴰ.refl (left m),
)
fill_lem src (source ∷ sources) m ok rest =
    let this : get_elem? m.iters src ≡ some source =
      ap (λ (j : ℕ). get_elem? m.iters j) (omega arith) ∙ rest 0 in
    let filled = refill-IsFilling src source m ok this in
    let (fine, perm) =
      subst (λ (j : ℕ). Filled (refill src source m) (fill_from j sources (refill src source m)))
        (omega arith)
        (fill_lem (suc src) sources (refill src source m) filled
          (refill-Rest src source sources m rest)) in
    (fine, Permᴰ.trans perm (refill_left src source m this))

merging-IsMerging :
    (sources : List (List Item))
    → All IsSorted sources
    → IsMerging (merging sources) × Permᴰ (left (merging sources)) (concat sources)
unfolding merging
merging-IsMerging sources sorted =
    fill_lem 0 sources (record { iters = sources; heap = [] })
      (record {
        sorted = sorted;
        ahead = _;
        covered = λ i x xs below h. absurd (omega (arith, below));
      })
      (λ i. ap (λ (j : ℕ). get_elem? sources j) (omega arith))

-- A MergingIterator over any number of sorted sources gives, by calls of next whose items peek
-- shows before, every item of the sources and no other, in the order of internal_key_cmp, and then
-- ends.
pub merging-Streams :
    (sources : List (List Item))
    → All IsSorted sources
    → (xs : List Item) × (Streams (merging sources) xs × (IsSorted xs × Permᴰ (concat sources) xs))
merging-Streams sources sorted =
    let (fine, perm) = merging-IsMerging sources sorted in
    let (xs, (streams, (in_order, same))) =
      stream_lem (length (left (merging sources))) (merging sources) fine (omega arith) in
    (xs, (streams, (in_order, Permᴰ.trans (Permᴰ.symm perm) same)))
