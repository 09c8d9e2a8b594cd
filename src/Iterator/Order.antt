-- ===== src/Iterator/Order.antt =====
-- `internal_key_cmp` of src/internal_key.rs as an order of the items of src/iterator.rs: total and
-- transitive on any bytes, valid encodings or not.
use Prim.Native.Nat.{Ordering, compare}
use mulan_lsm.Prelude.{ℕ, arith, ◌≡◌, ◌≢◌, List, [], ◌∷◌, All, if◌then◌else◌}
use mulan_lsm.Prelude.Bytes.{Bytes, cmp_bytes, bytes_eq}
use mulan_lsm.Prelude.Compare.{reverse, cmp_bytes-IsTotalOrder}
use mulan_lsm.InternalKey.{
  internal_key_cmp, user_key_of_internal_key, seq_of_internal_key, unwrap_or_zero,
}
use mulan_lsm.Iterator.{Item}

abbrev versions_cmp : Bytes → ℕ → Bytes → ℕ → Ordering
versions_cmp u s v t = if bytes_eq u v then reverse (compare s t) else cmp_bytes u v

versions_flip :
    (u : Bytes) (s : ℕ) (v : Bytes) (t : ℕ) → versions_cmp v t u s ≡ reverse (versions_cmp u s v t)
versions_flip u s v t = ground (arith, cmp_bytes-IsTotalOrder.flip u v)

versions_trans :
    (u : Bytes) (s : ℕ) (v : Bytes) (t : ℕ) (w : Bytes) (r : ℕ)
    → versions_cmp u s v t ≢ Ordering.gt
    → versions_cmp v t w r ≢ Ordering.gt
    → versions_cmp u s w r ≢ Ordering.gt
versions_trans u s v t w r h k = ground (
  arith,
  cmp_bytes-IsTotalOrder.same u v,
  cmp_bytes-IsTotalOrder.same v w,
  cmp_bytes-IsTotalOrder.self u,
  cmp_bytes-IsTotalOrder.trans u v w,
)

versions_refl : (u : Bytes) (s : ℕ) → versions_cmp u s u s ≢ Ordering.gt
versions_refl u s = ground (arith, cmp_bytes-IsTotalOrder.self u)

-- An item that may stand before another.
abbrev pub Leq : Item → Item → Type 0
Leq a b = internal_key_cmp a.0 b.0 ≢ Ordering.gt

pub Leq-trans : (a b c : Item) → Leq a b → Leq b c → Leq a c
unfolding internal_key_cmp
Leq-trans a b c h k =
    versions_trans _ _ (user_key_of_internal_key b.0) (unwrap_or_zero (seq_of_internal_key b.0)) _ _
      h k

pub Leq-total : (a b : Item) → internal_key_cmp a.0 b.0 ≡ Ordering.gt → Leq b a
unfolding internal_key_cmp
Leq-total a b h k = ground (
  arith,
  h,
  k,
  versions_flip (user_key_of_internal_key a.0) (unwrap_or_zero (seq_of_internal_key a.0))
      (user_key_of_internal_key b.0) (unwrap_or_zero (seq_of_internal_key b.0)),
)

pub Leq-refl : (a : Item) → Leq a a
unfolding internal_key_cmp
Leq-refl a = versions_refl (user_key_of_internal_key a.0) (unwrap_or_zero (seq_of_internal_key a.0))

abbrev pub IsSorted : List Item → Type 0
IsSorted [] = Unit {0}
IsSorted (x ∷ xs) = All (Leq x) xs × IsSorted xs
