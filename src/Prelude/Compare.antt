-- ===== src/Prelude/Compare.antt =====
-- Three-way comparison: `Ordering`, `reverse`, and the laws of a total order, for numbers and for
-- byte slices.
use Prim.Native.Nat.{compare, Ordering}
use mathlib.Core.Path.{◌≡◌, refl}
use mathlib.Core.List.{[], ◌∷◌}
use mathlib.Core.Bool.{Bool, true, false}
use mathlib.Core.Logic.{◌⊎◌, inl, inr}
use native.Mathlib.Omega.{arith}
use mulan_lsm.Prelude.Bytes.{Bytes, cmp_bytes, bytes_eq}

abbrev pub reverse : Ordering → Ordering
reverse Ordering.lt = Ordering.gt
reverse Ordering.eq = Ordering.eq
reverse Ordering.gt = Ordering.lt

-- The first comparison that is not equal decides: `match a { Equal => {} ord => return ord }`.
abbrev pub or_else : Ordering → Ordering → Ordering
or_else Ordering.eq o = o
or_else Ordering.lt o = Ordering.lt
or_else Ordering.gt o = Ordering.gt

abbrev pub is_lt : Ordering → Bool
is_lt Ordering.lt = true
is_lt Ordering.eq = false
is_lt Ordering.gt = false

-- `Ord` as the program relies on it.
pub record IsTotalOrder {ℓ} {A : Type ℓ} (cmp : A → A → Ordering) : Type ℓ where
  pub same : (a b : A) → cmp a b ≡ Ordering.eq → a ≡ b
  pub self : (a : A) → cmp a a ≡ Ordering.eq
  pub flip : (a b : A) → cmp b a ≡ reverse (cmp a b)
  pub trans : (a b c : A) → cmp a b ≡ Ordering.lt → cmp b c ≡ Ordering.lt → cmp a c ≡ Ordering.lt

pub compare-IsTotalOrder : IsTotalOrder compare
compare-IsTotalOrder = record {
  same = λ a b h. ground arith;
  self = λ a. ground arith;
  flip = λ a b. ground arith;
  trans = λ a b c h k. ground arith;
}

cmp_bytes_same : (a b : Bytes) → cmp_bytes a b ≡ Ordering.eq → a ≡ b
cmp_bytes_same [] [] h = refl
cmp_bytes_same [] (y ∷ ys) h = cc
cmp_bytes_same (x ∷ xs) [] h = cc
cmp_bytes_same (x ∷ xs) (y ∷ ys) h = ground (arith, cmp_bytes_same xs ys)

pub cmp_bytes_self : (a : Bytes) → cmp_bytes a a ≡ Ordering.eq
cmp_bytes_self [] = refl
cmp_bytes_self (x ∷ xs) = ground (arith, cmp_bytes_self xs)

cmp_bytes_flip : (a b : Bytes) → cmp_bytes b a ≡ reverse (cmp_bytes a b)
cmp_bytes_flip [] [] = refl
cmp_bytes_flip [] (y ∷ ys) = refl
cmp_bytes_flip (x ∷ xs) [] = refl
cmp_bytes_flip (x ∷ xs) (y ∷ ys) = ground (arith, cmp_bytes_flip xs ys)

cmp_bytes_trans :
    (a b c : Bytes)
    → cmp_bytes a b ≡ Ordering.lt
    → cmp_bytes b c ≡ Ordering.lt
    → cmp_bytes a c ≡ Ordering.lt
cmp_bytes_trans [] [] c h k = cc
cmp_bytes_trans [] (y ∷ ys) [] h k = cc
cmp_bytes_trans [] (y ∷ ys) (z ∷ zs) h k = refl
cmp_bytes_trans (x ∷ xs) [] c h k = cc
cmp_bytes_trans (x ∷ xs) (y ∷ ys) [] h k = cc
cmp_bytes_trans (x ∷ xs) (y ∷ ys) (z ∷ zs) h k = ground (arith, cmp_bytes_trans xs ys zs)

pub cmp_bytes-IsTotalOrder : IsTotalOrder cmp_bytes
cmp_bytes-IsTotalOrder = record {
  same = cmp_bytes_same;
  self = cmp_bytes_self;
  flip = cmp_bytes_flip;
  trans = cmp_bytes_trans;
}

pub bytes_eq→eq : (a b : Bytes) → bytes_eq a b ≡ true → a ≡ b
bytes_eq→eq a b h = cmp_bytes_same a b (ground arith)

pub bytes_eq_self : (a : Bytes) → bytes_eq a a ≡ true
bytes_eq_self a = ground (arith, cmp_bytes_self a)

pub Ordering-cases : (o : Ordering) → (o ≡ Ordering.gt) ⊎ ((o ≡ Ordering.lt) ⊎ (o ≡ Ordering.eq))
Ordering-cases Ordering.gt = inl refl
Ordering-cases Ordering.lt = inr (inl refl)
Ordering-cases Ordering.eq = inr (inr refl)
