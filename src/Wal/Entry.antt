-- ===== src/Wal/Entry.antt =====
-- src/wal.rs: `WalEntry`, the payload of one write, and its codec.
use mulan_lsm.Prelude.{
  ℕ, ◌+◌, ◌%◌, ◌^◌, ◌∷◌, ◌++◌, length, drop, slice, get_or, ltb, if◌then◌else◌, Result, ok, err,
  MulanError, ok_or, ◌>>=◌,
}
use mulan_lsm.Prelude.Bytes.{Bytes, le_bytes, from_le_bytes}
use mulan_lsm.Varint.{encode_varint32, decode_varint32}
use mulan_lsm.InternalKey.{ValueType, as_u8, from_u8}

pub record WalEntry : Type 0 where
  pub vtype : ValueType
  pub seq : ℕ
  pub key : Bytes
  pub value : Bytes

-- The lengths are cast to `u32`.
unfoldable pub encode_entry : ValueType → ℕ → Bytes → Bytes → Bytes
encode_entry vtype seq key value =
    let head = as_u8 vtype ∷ le_bytes 8 seq in
    let with_key = (encode_varint32 head (length key % 2 ^ 32)).0 ++ key in
    (encode_varint32 with_key (length value % 2 ^ 32)).0 ++ value

unfoldable pub decode_entry : Bytes → Result WalEntry
decode_entry payload = if ltb (length payload) 9 then err MulanError.corrupted else do
  vtype ← ok_or (from_u8 (get_or payload 0 0)) MulanError.corrupted
  let seq = from_le_bytes (slice payload 1 9)
  (key_len, consumed_kl) ← decode_varint32 (drop 9 payload)
  let key_end = 9 + consumed_kl + key_len
  if ltb (length payload) key_end then err MulanError.corrupted else do
    let key = slice payload (9 + consumed_kl) key_end
    (val_len, consumed_vl) ← decode_varint32 (drop key_end payload)
    let val_start = key_end + consumed_vl
    let val_end = val_start + val_len
    if ltb (length payload) val_end
        then err MulanError.corrupted
        else ok (record {
          vtype = vtype;
          seq = seq;
          key = key;
          value = slice payload val_start val_end;
        })
