-- ===== src/Iterator/Step.antt =====
-- One step of the merge of src/iterator.rs.
use mathlib.Core.List.{Permᴰ}
use mathlib.Core.List.Permᴰ
use mulan_lsm.Prelude.{
  ℕ, arith, ◌≡◌, ◌≢◌, refl, sym, ap, ◌∙◌, List, [], ◌∷◌, map, set, get_elem?, get_elem?-set_ne,
  some, All, All-set, All-get, All-permᴰ, Has-permᴰ, All-Has, ◌==◌, ==_iff, Bool-cases, inl, inr,
}
use mulan_lsm.Iterator.{Item, Buffered, item_of, MergingIterator, pop, refill, peek, next}
use mulan_lsm.Iterator.Order.{Leq, IsSorted}
use mulan_lsm.Iterator.Heap.{Popped}
use mulan_lsm.Iterator.Streams.{
  concat, left, Precedes, IsMerging, concat-set, ahead_of_new, ahead_set, top_first,
}

-- One step of the merge.
pub record Stepped (m m' : MergingIterator) (x : Item) : Type 0 where
  pub gives : next m ≡ (some x, m')
  pub shows : peek m ≡ some x
  pub first : All (Leq x) (left m)
  pub perm : Permᴰ (left m) (x ∷ left m')
  pub fine : IsMerging m'

module _ (m : MergingIterator) (ok : IsMerging m) (top : Buffered) (rest : List Buffered)
    (found : pop m.heap ≡ some (top, rest)) (p : Popped m.heap top rest) where
  shown : peek m ≡ some (item_of top)
  unfolding peek
  shown = rw (peek, found) refl

  map_perm : Permᴰ (map item_of m.heap) (item_of top ∷ map item_of rest)
  map_perm = Permᴰ.map item_of p.perm

  ahead_of_rest : All (Precedes m.iters) rest
  ahead_of_rest = (All-permᴰ (Precedes m.iters) p.perm ok.ahead).1

  -- The source is at its end.
  empty_step :
      get_elem? m.iters top.src ≡ some [] → Stepped m (record m { heap = rest }) (item_of top)
  unfolding next refill
  empty_step e = record {
    gives = rw (next, found, e) refl;
    shows = shown;
    first = top_first m top rest ok p;
    perm = Permᴰ.append_right (concat m.iters) map_perm;
    fine = record {
      sorted = ok.sorted;
      ahead = ahead_of_rest;
      covered = λ i x xs h.
          let (b, (has, src)) = ok.covered i x xs h in
          elim (Has-permᴰ b p.perm has) [
            | inl same ↦
                let clash : some (x ∷ xs) ≡ some [] =
                  sym h
                  ∙ ap (λ (j : ℕ). get_elem? m.iters j) (sym src ∙ ap (λ t. t.src) same)
                  ∙ e in
                cc
            | inr stays ↦ (b, (stays, src))
          ];
    };
  }

  refilled_IsMerging :
      (y : Item) (ys : List Item) (new : Buffered)
      → get_elem? m.iters top.src ≡ some (y ∷ ys)
      → item_of new ≡ y
      → new.src ≡ top.src
      → IsMerging (record { iters = set m.iters top.src ys; heap = new ∷ rest })
  refilled_IsMerging y ys new e item src =
      let source_sorted = All-get IsSorted m.iters top.src (y ∷ ys) ok.sorted e in
      record {
        sorted = All-set IsSorted m.iters top.src ys ok.sorted source_sorted.1;
        ahead = (
          ahead_of_new m.iters top.src y ys e new item src source_sorted.0,
          ahead_set m.iters top.src y ys e rest ahead_of_rest,
        );
        covered = λ i x xs h. elim (Bool-cases (top.src == i)) [
          | inl same ↦ (new, (inl refl, src ∙ (==_iff _ _).0 same))
          | inr differ ↦
              let other : top.src ≢ i = λ q. ground (arith, q, differ) in
              let (b, (has, owner)) =
                ok.covered i x xs (sym (get_elem?-set_ne m.iters top.src i ys other) ∙ h) in
              elim (Has-permᴰ b p.perm has) [
                | inl this ↦ absurd (other (ap (λ t. t.src) (sym this) ∙ owner))
                | inr stays ↦ (b, (inr stays, owner))
              ]
        ];
      }

  -- The source gives its next item to the heap.
  refill_step :
      (y : Item) (ys : List Item)
      → get_elem? m.iters top.src ≡ some (y ∷ ys)
      → (m' : MergingIterator) × Stepped m m' (item_of top)
  unfolding next refill
  refill_step y ys e =
      let new : Buffered = record { key = y.0; value = y.1; src = top.src } in
      let iters' = set m.iters top.src ys in
      (
        record { iters = iters'; heap = new ∷ rest },
        record {
          gives = rw (next, found, e) refl;
          shows = shown;
          first = top_first m top rest ok p;
          perm = Permᴰ.trans (Permᴰ.append_right (concat m.iters) map_perm) (
              Permᴰ.trans
                (Permᴰ.append_left (item_of top ∷ map item_of rest)
                  (concat-set m.iters top.src y ys e))
                (Permᴰ.cons refl (Permᴰ.middle y (map item_of rest) (concat iters'))));
          fine = refilled_IsMerging y ys new e refl refl;
        },
      )

  -- Whatever the source of the top has, the merge makes a step.
  pub step_lem : (m' : MergingIterator) × Stepped m m' (item_of top)
  step_lem =
      let (source, (held, _)) =
        All-Has (Precedes m.iters) m.heap ok.ahead top
          (Has-permᴰ top (Permᴰ.symm p.perm) (inl refl)) in
      split source held
    where
      split :
          (source : List Item)
          → get_elem? m.iters top.src ≡ some source
          → (m' : MergingIterator) × Stepped m m' (item_of top)
      split [] e = (record m { heap = rest }, empty_step e)
      split (y ∷ ys) e = refill_step y ys e
