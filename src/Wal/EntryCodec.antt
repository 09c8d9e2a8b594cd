-- ===== src/Wal/EntryCodec.antt =====
-- The entries of src/wal.rs read back.
use mulan_lsm.Prelude.{
  ℕ, ◌+◌, ◌%◌, ◌^◌, arith, ◌≡◌, refl, sym, ◌∙◌, [], ◌∷◌, ◌++◌, length, length-append, drop, slice,
  get_or, ltb_not, drop-append_exact, slice-append_middle, append_assoc, ok,
}
use mulan_lsm.Prelude.Bytes.{Bytes, IsU32, IsU64, le_bytes, length-le_bytes, from_le_bytes-le_bytes}
use mulan_lsm.Varint.Encode.{groups, encode_varint32_lem}
use mulan_lsm.Varint.RoundTrip.{decode_varint32-groups}
use mulan_lsm.InternalKey.{ValueType, as_u8}
use mulan_lsm.InternalKey.Codec.{from_u8-as_u8}
use mulan_lsm.Wal.Entry.{encode_entry, decode_entry}
use mulan_lsm.Prelude.{slice-append_last}

module _ (vtype : ValueType) (seq : ℕ) (key value : Bytes) (seq_fits : IsU64 seq)
    (key_fits : IsU32 (length key)) (value_fits : IsU32 (length value)) where
  abbrev kl : Bytes
  kl = groups 4 (length key)

  abbrev vl : Bytes
  vl = groups 4 (length value)

  abbrev head : Bytes
  head = as_u8 vtype ∷ le_bytes 8 seq

  payload : Bytes
  payload = head ++ (kl ++ (key ++ (vl ++ value)))

  abbrev key_start : ℕ
  key_start = 9 + length kl

  abbrev key_end : ℕ
  key_end = 9 + length kl + length key

  abbrev val_start : ℕ
  val_start = key_end + length vl

  encode_entry_lem : encode_entry vtype seq key value ≡ payload
  unfolding encode_entry payload
  encode_entry_lem =
      let k : length key % 2 ^ 32 ≡ length key = omega arith in
      let v : length value % 2 ^ 32 ≡ length value = omega arith in
      rw
        (
          k,
          v,
          encode_varint32_lem head (length key) key_fits,
          encode_varint32_lem (head ++ kl ++ key) (length value) value_fits,
        )
        (append_assoc (head ++ kl ++ key) vl value
          ∙ append_assoc (head ++ kl) key (vl ++ value)
          ∙ append_assoc head kl (key ++ (vl ++ value)))

  length-head : length head ≡ 9
  length-head = omega (arith, length-le_bytes 8 seq)

  length-payload : length payload ≡ val_start + length value
  unfolding payload
  length-payload = omega (
    arith,
    length-le_bytes 8 seq,
    length-append {0} head (kl ++ (key ++ (vl ++ value))),
    length-append {0} kl (key ++ (vl ++ value)),
    length-append {0} key (vl ++ value),
    length-append {0} vl value,
  )

  first_byte : get_or payload 0 0 ≡ as_u8 vtype
  unfolding payload
  first_byte = refl

  seq_bytes : slice payload 1 9 ≡ le_bytes 8 seq
  unfolding payload
  seq_bytes =
      slice-append_middle (as_u8 vtype ∷ []) (le_bytes 8 seq) (kl ++ (key ++ (vl ++ value))) 1 9
        refl (omega (arith, length-le_bytes 8 seq))

  -- What stands in front of each part.
  at_kl : drop 9 payload ≡ kl ++ (key ++ (vl ++ value))
  unfolding payload
  at_kl = drop-append_exact 9 head (kl ++ (key ++ (vl ++ value))) (sym length-head)

  up_to_key : payload ≡ head ++ kl ++ (key ++ (vl ++ value))
  unfolding payload
  up_to_key = sym (append_assoc head kl (key ++ (vl ++ value)))

  length-front : length (head ++ kl) ≡ key_start
  length-front = omega (arith, length-append {0} head kl, length-le_bytes 8 seq)

  key_slice : slice payload key_start key_end ≡ key
  key_slice = rw up_to_key (
      slice-append_middle (head ++ kl) key (vl ++ value) key_start key_end (sym length-front)
        (omega (arith, length-front)))

  up_to_vl : payload ≡ head ++ kl ++ key ++ (vl ++ value)
  up_to_vl = up_to_key ∙ sym (append_assoc (head ++ kl) key (vl ++ value))

  length-keyed : length (head ++ kl ++ key) ≡ key_end
  length-keyed = omega (arith, length-append {0} (head ++ kl) key, length-front)

  at_vl : drop key_end payload ≡ vl ++ value
  at_vl =
      rw up_to_vl (drop-append_exact key_end (head ++ kl ++ key) (vl ++ value) (sym length-keyed))

  value_slice : slice payload val_start (val_start + length value) ≡ value
  value_slice =
      let front : length (head ++ kl ++ key ++ vl) ≡ val_start =
        omega (arith, length-append {0} (head ++ kl ++ key) vl, length-keyed) in
      rw (up_to_vl ∙ sym (append_assoc (head ++ kl ++ key) vl value)) (
        slice-append_last (head ++ kl ++ key ++ vl) value val_start (val_start + length value)
          (sym front) (omega (arith, front)))

  -- A write's entry is read back with its type, sequence number, key and value. The sequence
  -- number is of 64 bits, the lengths of key and value of 32.
  pub decode-encode_entry :
      decode_entry (encode_entry vtype seq key value)
      ≡ ok (record { vtype = vtype; seq = seq; key = key; value = value })
  unfolding decode_entry
  decode-encode_entry = rw (
    encode_entry_lem,
    ltb_not (length payload) 9 (omega (arith, length-payload)),
    first_byte,
    from_u8-as_u8 vtype,
    at_kl,
    decode_varint32-groups (length key) (key ++ (vl ++ value)) key_fits,
    ltb_not (length payload) key_end (omega (arith, length-payload)),
    at_vl,
    decode_varint32-groups (length value) value value_fits,
    ltb_not (length payload) (val_start + length value) (omega (arith, length-payload)),
    seq_bytes,
    from_le_bytes-le_bytes 8 seq (omega arith),
    key_slice,
    value_slice,
  )
