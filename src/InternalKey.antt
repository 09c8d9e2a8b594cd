-- ===== src/InternalKey.antt =====
-- src/internal_key.rs: `(user_key, seq, vtype)`, its bytes and its order.
pub mod Codec
pub mod Order
mod Tests
use Prim.Native.Nat.{compare, Ordering}
use mulan_lsm.Prelude.{
  ℕ, zero, suc, ◌+◌, ◌-◌, ◌^◌, List, [], ◌∷◌, ◌++◌, length, take, slice, get_or, ltb, leb, ◌==◌,
  if◌then◌else◌, Option, none, some, Result, ok, err, MulanError, ok_or, ◌>>=◌, Bool,
}
use mulan_lsm.Prelude.Bytes.{Bytes, le_bytes, from_le_bytes, cmp_bytes, bytes_eq}
use mulan_lsm.Prelude.Compare.{reverse, or_else}

-- u64::MAX - 1
abbrev pub max_sequence : ℕ
max_sequence = 2 ^ 64 - 2

abbrev pub footer_len : ℕ
footer_len = 9

abbrev pub seq_len : ℕ
seq_len = 8

abbrev pub type_len : ℕ
type_len = 1

pub data ValueType : Type 0 where
  put delete : ValueType

-- `vtype as u8`
abbrev pub as_u8 : ValueType → ℕ
as_u8 ValueType.put = 0
as_u8 ValueType.delete = 1

abbrev pub from_u8 : ℕ → Option ValueType
from_u8 v = if v == 0 then some ValueType.put else if v == 1 then some ValueType.delete else none

pub record InternalKey : Type 0 where
  pub user_key : Bytes
  pub seq : ℕ
  pub vtype : ValueType

unfoldable pub encode : InternalKey → Bytes
encode ik = ik.user_key ++ le_bytes 8 ik.seq ++ as_u8 ik.vtype ∷ []

unfoldable pub decode : Bytes → Result InternalKey
decode bytes =
    if ltb (length bytes) footer_len
    then err MulanError.corrupted
    else let user_key = take (length bytes - footer_len) bytes in
      let seq_bytes = slice bytes (length bytes - footer_len) (length bytes - type_len) in
      let vtype_byte = get_or bytes (length bytes - type_len) 0 in
      ok_or (from_u8 vtype_byte) MulanError.corrupted >>= λ vtype.
      ok (record { user_key = user_key; seq = from_le_bytes seq_bytes; vtype = vtype })

unfoldable pub user_key_of_internal_key : Bytes → Bytes
user_key_of_internal_key bytes =
    if ltb (length bytes) footer_len then bytes else take (length bytes - footer_len) bytes

unfoldable pub seq_of_internal_key : Bytes → Option ℕ
seq_of_internal_key bytes =
    if ltb (length bytes) footer_len
    then none
    else let start = length bytes - footer_len in
      some (from_le_bytes (slice bytes start (start + seq_len)))

unfoldable pub vtype_of_internal_key : Bytes → Option ValueType
vtype_of_internal_key bytes =
    if ltb (length bytes) footer_len
    then none
    else from_u8 (get_or bytes (length bytes - type_len) 0)

-- `unwrap_or(0)`
abbrev pub unwrap_or_zero : Option ℕ → ℕ
unwrap_or_zero none = 0
unwrap_or_zero (some n) = n

unfoldable pub internal_key_cmp : Bytes → Bytes → Ordering
internal_key_cmp a b =
    let a_uk = user_key_of_internal_key a in
    let b_uk = user_key_of_internal_key b in
    let a_seq = unwrap_or_zero (seq_of_internal_key a) in
    let b_seq = unwrap_or_zero (seq_of_internal_key b) in
    if bytes_eq a_uk b_uk then reverse (compare a_seq b_seq) else cmp_bytes a_uk b_uk

unfoldable pub lookup_key : Bytes → ℕ → Bytes
unfolding encode
lookup_key user_key seq = encode (record { user_key = user_key; seq = seq; vtype = ValueType.put })

-- `Ord for InternalKey`
unfoldable pub cmp : InternalKey → InternalKey → Ordering
cmp a b =
    or_else (cmp_bytes a.user_key b.user_key)
      (or_else (reverse (compare a.seq b.seq)) (compare (as_u8 a.vtype) (as_u8 b.vtype)))

-- `PartialEq for InternalKey`
unfoldable pub key_eq : InternalKey → InternalKey → Bool
key_eq a b = elim (bytes_eq a.user_key b.user_key) [
  | Bool.true ↦ elim (a.seq == b.seq) [
    | Bool.true ↦ as_u8 a.vtype == as_u8 b.vtype
    | Bool.false ↦ Bool.false
  ]
  | Bool.false ↦ Bool.false
]
