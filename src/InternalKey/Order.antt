-- ===== src/InternalKey/Order.antt =====
-- The order of internal keys: `Ord` of src/internal_key.rs is a total order, newest version first,
-- and `internal_key_cmp` on encodings is that order up to the value type.
use Prim.Native.Nat.{compare, Ordering}
use mulan_lsm.Prelude.{◌<◌, arith, ◌≡◌, refl}
use mulan_lsm.Prelude.Bytes.{IsU64}
use mulan_lsm.Prelude.Compare.{reverse, or_else, IsTotalOrder, cmp_bytes-IsTotalOrder}
use mulan_lsm.InternalKey.{InternalKey, ValueType, as_u8, encode, internal_key_cmp, cmp}
use mulan_lsm.InternalKey.Codec.{user_key_of_internal_key-encode, seq_of_internal_key-encode}

as_u8_injective : (s t : ValueType) → as_u8 s ≡ as_u8 t → s ≡ t
as_u8_injective ValueType.put ValueType.put h = refl
as_u8_injective ValueType.put ValueType.delete h = absurd (omega arith)
as_u8_injective ValueType.delete ValueType.put h = absurd (omega arith)
as_u8_injective ValueType.delete ValueType.delete h = refl

-- What comes after the user keys.
abbrev tail_cmp : InternalKey → InternalKey → Ordering
tail_cmp a b = or_else (reverse (compare a.seq b.seq)) (compare (as_u8 a.vtype) (as_u8 b.vtype))

tail_trans :
    (a b c : InternalKey)
    → tail_cmp a b ≡ Ordering.lt
    → tail_cmp b c ≡ Ordering.lt
    → tail_cmp a c ≡ Ordering.lt
tail_trans a b c h k = ground arith

cmp_same : (a b : InternalKey) → cmp a b ≡ Ordering.eq → a ≡ b
unfolding cmp
cmp_same a b h =
    ground
      (arith, cmp_bytes-IsTotalOrder.same a.user_key b.user_key, as_u8_injective a.vtype b.vtype)

cmp_self : (a : InternalKey) → cmp a a ≡ Ordering.eq
unfolding cmp
cmp_self a = ground (arith, cmp_bytes-IsTotalOrder.self a.user_key)

cmp_flip : (a b : InternalKey) → cmp b a ≡ reverse (cmp a b)
unfolding cmp
cmp_flip a b = ground (arith, cmp_bytes-IsTotalOrder.flip a.user_key b.user_key)

cmp_trans :
    (a b c : InternalKey) → cmp a b ≡ Ordering.lt → cmp b c ≡ Ordering.lt → cmp a c ≡ Ordering.lt
unfolding cmp
cmp_trans a b c h k = ground (
  arith,
  cmp_bytes-IsTotalOrder.same a.user_key b.user_key,
  cmp_bytes-IsTotalOrder.same b.user_key c.user_key,
  cmp_bytes-IsTotalOrder.self a.user_key,
  cmp_bytes-IsTotalOrder.trans a.user_key b.user_key c.user_key,
  tail_trans a b c,
)

-- Ord for InternalKey is a total order: equal exactly at equal keys, antisymmetric and transitive.
pub cmp-IsTotalOrder : IsTotalOrder cmp
cmp-IsTotalOrder = record { same = cmp_same; self = cmp_self; flip = cmp_flip; trans = cmp_trans }

-- Of two versions of one user key the one with the larger sequence number sorts first.
pub cmp_newest_first :
    (a b : InternalKey) → a.user_key ≡ b.user_key → b.seq < a.seq → cmp a b ≡ Ordering.lt
unfolding cmp
cmp_newest_first a b same newer = rw (same, cmp_bytes-IsTotalOrder.self) (ground arith)

-- On the encodings of keys whose sequence numbers are of 64 bits, internal_key_cmp followed by the
-- comparison of the value types is Ord for InternalKey.
pub cmp-internal_key_cmp :
    (a b : InternalKey)
    → IsU64 a.seq
    → IsU64 b.seq
    → cmp a b
      ≡ or_else (internal_key_cmp (encode a) (encode b)) (compare (as_u8 a.vtype) (as_u8 b.vtype))
unfolding cmp internal_key_cmp
cmp-internal_key_cmp a b ha hb =
    rw
      (
        user_key_of_internal_key-encode a,
        user_key_of_internal_key-encode b,
        seq_of_internal_key-encode a ha,
        seq_of_internal_key-encode b hb,
      )
      (ground (
        arith,
        cmp_bytes-IsTotalOrder.same a.user_key b.user_key,
        cmp_bytes-IsTotalOrder.self b.user_key,
      ))
