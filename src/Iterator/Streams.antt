-- ===== src/Iterator/Streams.antt =====
-- What the merge of src/iterator.rs gives, and what holds between two of its steps.
use mathlib.Core.List.{Permᴰ}
use mathlib.Core.List.Permᴰ
use mathlib.Core.Path.{subst}
use mulan_lsm.Prelude.{
  ℕ, zero, suc, arith, ◌≡◌, refl, sym, ap, ◌∙◌, List, [], ◌∷◌, ◌++◌, map, set, get_elem?,
  get_elem?-set_ne, get_elem?-set_same, none, some, some_eq, All, All-append, Has, All-Has,
  All-tabulate, ◌==◌, ==_iff, Bool-cases, inl, inr,
}
use mulan_lsm.Iterator.{Item, Buffered, item_of, MergingIterator, peek, next}
use mulan_lsm.Iterator.Order.{Leq, Leq-trans, IsSorted}
use mulan_lsm.Iterator.Heap.{Least, Popped}

pub data Streams : MergingIterator → List Item → Type 0 where
  done : {m : MergingIterator} → next m ≡ (none, m) → peek m ≡ none → Streams m []
  more :
      {m m' : MergingIterator} {x : Item} {xs : List Item}
      → next m ≡ (some x, m')
      → peek m ≡ some x
      → Streams m' xs
      → Streams m (x ∷ xs)

abbrev pub concat : List (List Item) → List Item
concat [] = []
concat (xs ∷ xss) = xs ++ concat xss

-- What the merge has still to give, in no order.
abbrev pub left : MergingIterator → List Item
left m = map item_of m.heap ++ concat m.iters

-- A buffered entry comes from a source that there is, and stands before what the source has left.
abbrev pub Precedes : List (List Item) → Buffered → Type 0
Precedes iters b =
    (source : List Item) × ((get_elem? iters b.src ≡ some source) × All (Leq (item_of b)) source)

pub record IsMerging (m : MergingIterator) : Type 0 where
  pub sorted : All IsSorted m.iters
  pub ahead : All (Precedes m.iters) m.heap
  pub covered :
      (i : ℕ) (x : Item) (xs : List Item)
      → get_elem? m.iters i ≡ some (x ∷ xs)
      → (b : Buffered) × (Has b m.heap × (b.src ≡ i))

pub All-concat : (P : Item → Type 0) (xss : List (List Item)) → All (All P) xss → All P (concat xss)
All-concat P [] h = h
All-concat P (xs ∷ xss) h = All-append P xs (concat xss) h.0 (All-concat P xss h.1)

pub All-index :
    (P : List Item → Type 0) (xss : List (List Item))
    → ((i : ℕ) (xs : List Item) → get_elem? xss i ≡ some xs → P xs)
    → All P xss
All-index P [] h = _
All-index P (xs ∷ xss) h = (h 0 xs refl, All-index P xss (λ i ys e. h (suc i) ys e))

pub All-map_item :
    (P : Item → Type 0) (bs : List Buffered) → All (λ b. P (item_of b)) bs → All P (map item_of bs)
All-map_item P [] h = h
All-map_item P (b ∷ bs) h = (h.0, All-map_item P bs h.1)

pub All-Leq : (a b : Item) (xs : List Item) → Leq a b → All (Leq b) xs → All (Leq a) xs
All-Leq a b [] h k = k
All-Leq a b (x ∷ xs) h k = (Leq-trans a b x h k.0, All-Leq a b xs h k.1)

pub top_first :
    (m : MergingIterator) (top : Buffered) (rest : List Buffered)
    → IsMerging m
    → Popped m.heap top rest
    → All (Leq (item_of top)) (left m)
top_first m top rest ok p =
    All-append (Leq (item_of top)) (map item_of m.heap) (concat m.iters)
      (All-map_item (Leq (item_of top)) m.heap p.least)
      (All-concat (Leq (item_of top)) m.iters
        (All-index (All (Leq (item_of top))) m.iters source_after))
  where
    source_after :
        (i : ℕ) (xs : List Item) → get_elem? m.iters i ≡ some xs → All (Leq (item_of top)) xs
    source_after i [] e = _
    source_after i (x ∷ xs) e =
        let (b, (has, src)) = ok.covered i x xs e in
        let (source, (found, after)) = All-Has (Precedes m.iters) m.heap ok.ahead b has in
        let same : source ≡ x ∷ xs =
          some_eq (sym found ∙ ap (λ (j : ℕ). get_elem? m.iters j) src ∙ e) in
        All-Leq (item_of top) (item_of b) (x ∷ xs) (All-Has (Least top) m.heap p.least b has)
          (subst (λ (s : List Item). All (Leq (item_of b)) s) same after)

pub concat-set :
    (iters : List (List Item)) (i : ℕ) (y : Item) (ys : List Item)
    → get_elem? iters i ≡ some (y ∷ ys)
    → Permᴰ (concat iters) (y ∷ concat (set iters i ys))
concat-set [] i y ys e = cc
concat-set (xs ∷ xss) zero y ys e = rw (some_eq e) (Permᴰ.refl (y ∷ (ys ++ concat xss)))
concat-set (xs ∷ xss) (suc i) y ys e =
    Permᴰ.trans (Permᴰ.append_left xs (concat-set xss i y ys e))
      (Permᴰ.middle y xs (concat (set xss i ys)))

-- Source `j` gives its first item away.
module _ (iters : List (List Item)) (j : ℕ) (y : Item) (ys : List Item)
    (e : get_elem? iters j ≡ some (y ∷ ys)) where
  -- What the source still has stands behind what it gave before.
  pub ahead_elsewhere : (b : Buffered) → Precedes iters b → Precedes (set iters j ys) b
  ahead_elsewhere b (source, (held, after)) = elim (Bool-cases (j == b.src)) [
    | inl same ↦
        let equal : j ≡ b.src = (==_iff _ _).0 same in
        let this : source ≡ y ∷ ys =
          some_eq (sym held ∙ ap (λ (i : ℕ). get_elem? iters i) (sym equal) ∙ e) in
        (
          ys,
          (
            ap (λ (i : ℕ). get_elem? (set iters j ys) i) (sym equal)
                ∙ get_elem?-set_same iters j ys (y ∷ ys) e,
            (subst (λ (s : List Item). All (Leq (item_of b)) s) this after).1,
          ),
        )
    | inr differ ↦
        (source, (get_elem?-set_ne iters j b.src ys (λ h. ground (arith, h, differ)) ∙ held, after))
  ]

  pub ahead_of_new :
      (new : Buffered)
      → item_of new ≡ y
      → new.src ≡ j
      → All (Leq y) ys
      → Precedes (set iters j ys) new
  ahead_of_new new item src after = (
    ys,
    (
      ap (λ (i : ℕ). get_elem? (set iters j ys) i) src ∙ get_elem?-set_same iters j ys (y ∷ ys) e,
      subst (λ (z : Item). All (Leq z) ys) (sym item) after,
    ),
  )

  pub ahead_set :
      (bs : List Buffered) → All (Precedes iters) bs → All (Precedes (set iters j ys)) bs
  ahead_set bs h =
      All-tabulate (Precedes (set iters j ys)) bs
        (λ b has. ahead_elsewhere b (All-Has (Precedes iters) bs h b has))
