-- ===== src/Iterator/Heap.antt =====
-- The heap of the merge of src/iterator.rs.
use mathlib.Core.List.{Permᴰ}
use mathlib.Core.List.Permᴰ
use Prim.Native.Nat.{Ordering}
use mulan_lsm.Prelude.{arith, ◌≡◌, refl, List, [], ◌∷◌, none, some, All, ◌⊎◌, inl, inr}
use mulan_lsm.Prelude.Compare.{Ordering-cases}
use mulan_lsm.Iterator.{Buffered, item_of, buffered_cmp, pop}
use mulan_lsm.Iterator.Order.{Leq, Leq-trans, Leq-total, Leq-refl}

abbrev pub Least : Buffered → Buffered → Type 0
Least a b = Leq (item_of a) (item_of b)

-- `pop` takes a least element.
pub record Popped (heap : List Buffered) (top : Buffered) (rest : List Buffered) : Type 0 where
  pub perm : Permᴰ heap (top ∷ rest)
  pub least : All (Least top) heap

abbrev pub PopResult : List Buffered → Type 0
PopResult heap =
    ((heap ≡ []) × (pop heap ≡ none))
    ⊎ ((top : Buffered) × ((rest : List Buffered) × ((pop heap ≡ some (top, rest))
            × Popped heap top rest)))

All-Leq-trans :
    (a b : Buffered) (bs : List Buffered) → Least a b → All (Least b) bs → All (Least a) bs
All-Leq-trans a b [] h k = k
All-Leq-trans a b (c ∷ cs) h k =
    (Leq-trans (item_of a) (item_of b) (item_of c) h k.0, All-Leq-trans a b cs h k.1)

stays :
    (b m : Buffered) (bs : List Buffered)
    → All (Least m) bs
    → buffered_cmp b m ≡ Ordering.lt
    → Popped (b ∷ bs) b bs
stays b m bs least less = record {
  perm = Permᴰ.refl (b ∷ bs);
  least = (Leq-refl (item_of b), All-Leq-trans b m bs (λ e. ground (arith, e, less)) least);
}

keeps :
    (b m : Buffered) (bs : List Buffered)
    → All (Least m) bs
    → buffered_cmp b m ≡ Ordering.eq
    → Popped (b ∷ bs) b bs
keeps b m bs least same = record {
  perm = Permᴰ.refl (b ∷ bs);
  least = (Leq-refl (item_of b), All-Leq-trans b m bs (λ e. ground (arith, e, same)) least);
}

pub pop_lem : (heap : List Buffered) → PopResult heap
unfolding pop
pop_lem [] = inl (refl, refl)
pop_lem (b ∷ bs) = elim (pop_lem bs) [
  | inl (empty, nothing) ↦ inr (
    b,
    (
      [],
      (
        rw (pop, nothing) refl,
        record {
          perm = rw empty (Permᴰ.refl (b ∷ []));
          least = (Leq-refl (item_of b), rw empty _);
        },
      ),
    ),
  )
  | inr (m, (rest, (found, p))) ↦ elim (Ordering-cases (buffered_cmp b m)) [
    | inl greater ↦ inr (
      m,
      (
        b ∷ rest,
        (
          rw (pop, found, greater) refl,
          record {
            perm = Permᴰ.trans (Permᴰ.cons refl p.perm) (Permᴰ.swap refl refl);
            least = (Leq-total (item_of b) (item_of m) greater, p.least);
          },
        ),
      ),
    )
    | inr (inl less) ↦ inr (b, (bs, (rw (pop, found, less) refl, stays b m bs p.least less)))
    | inr (inr same) ↦ inr (b, (bs, (rw (pop, found, same) refl, keeps b m bs p.least same)))
  ]
]
