-- ===== src/InternalKey/Tests.antt =====
-- The theorems about src/internal_key.rs at concrete keys.
use Prim.Native.Nat.{compare}
use mulan_lsm.Prelude.{arith, ◌≡◌, [], ◌∷◌, ok, some}
use mulan_lsm.Prelude.Compare.{or_else}
use mulan_lsm.InternalKey.{
  ValueType, InternalKey, as_u8, encode, decode, cmp, internal_key_cmp, user_key_of_internal_key,
  seq_of_internal_key, vtype_of_internal_key,
}
use mulan_lsm.InternalKey.Codec.{decode-encode, accessors-encode}
use mulan_lsm.InternalKey.Order.{cmp-internal_key_cmp}

abbrev newer : InternalKey
newer = record { user_key = 1 ∷ 2 ∷ []; seq = 9; vtype = ValueType.delete }

abbrev older : InternalKey
older = record { user_key = 1 ∷ 2 ∷ []; seq = 4; vtype = ValueType.put }

decode-encode_example : decode (encode newer) ≡ ok newer
decode-encode_example = decode-encode newer (omega arith)

cmp-internal_key_cmp_example :
    cmp newer older
    ≡ or_else
        (internal_key_cmp (encode newer) (encode older))
        (compare (as_u8 ValueType.delete) (as_u8 ValueType.put))
cmp-internal_key_cmp_example = cmp-internal_key_cmp newer older (omega arith) (omega arith)

accessors-encode_example :
    (user_key_of_internal_key (encode newer) ≡ 1 ∷ 2 ∷ [])
    × (seq_of_internal_key (encode newer) ≡ some 9)
    × (vtype_of_internal_key (encode newer) ≡ some ValueType.delete)
accessors-encode_example = accessors-encode newer (omega arith)
