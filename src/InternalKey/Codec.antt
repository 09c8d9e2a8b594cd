-- ===== src/InternalKey/Codec.antt =====
-- The bytes of an internal key: every accessor of src/internal_key.rs reads back its field.
use mulan_lsm.Prelude.{
  ℕ, ◌+◌, ◌-◌, arith, ◌≡◌, refl, [], ◌∷◌, ◌++◌, length, length-append, take, slice, get_or, ltb,
  some, ok, take-append_exact, drop-append_exact, false, append_assoc, get_or-append_exact,
}
use mulan_lsm.Prelude.Bytes.{
  Bytes, IsU64, le_bytes, from_le_bytes, length-le_bytes, from_le_bytes-le_bytes,
}
use mulan_lsm.InternalKey.{
  InternalKey, ValueType, as_u8, from_u8, encode, decode, user_key_of_internal_key,
  seq_of_internal_key, vtype_of_internal_key,
}

pub from_u8-as_u8 : (t : ValueType) → from_u8 (as_u8 t) ≡ some t
from_u8-as_u8 ValueType.put = refl
from_u8-as_u8 ValueType.delete = refl

-- A prefix, eight bytes and one more, taken apart again by counting from the end.
module _ (uk s : Bytes) (t : ℕ) (eight : length s ≡ 8) where
  footer_length : length (uk ++ s ++ t ∷ []) ≡ length uk + 9
  footer_length = omega (arith, length-append {0} (uk ++ s) (t ∷ []), length-append {0} uk s)

  footer_take : (n : ℕ) → n ≡ length uk → take n (uk ++ s ++ t ∷ []) ≡ uk
  footer_take n e = rw (append_assoc uk s (t ∷ [])) (take-append_exact n uk (s ++ t ∷ []) e)

  footer_slice : (i j : ℕ) → i ≡ length uk → j ≡ length uk + 8 → slice (uk ++ s ++ t ∷ []) i j ≡ s
  footer_slice i j ei ej =
      rw (append_assoc uk s (t ∷ []), drop-append_exact i uk (s ++ t ∷ []) ei)
        (take-append_exact (j - i) s (t ∷ []) (omega arith))

  footer_last : (n : ℕ) → n ≡ length uk + 8 → get_or (uk ++ s ++ t ∷ []) n 0 ≡ t
  footer_last n e =
      get_or-append_exact (uk ++ s) (t ∷ []) n 0 (omega (arith, length-append {0} uk s))

module _ (ik : InternalKey) where
  abbrev seq_part : Bytes
  seq_part = le_bytes 8 ik.seq

  pub length-encode : length (encode ik) ≡ length ik.user_key + 9
  unfolding encode
  length-encode = footer_length ik.user_key seq_part _ (length-le_bytes 8 ik.seq)

  long_enough : ltb (length (encode ik)) 9 ≡ false
  long_enough = ground (arith, length-encode)

  pub take-encode : take (length (encode ik) - 9) (encode ik) ≡ ik.user_key
  take-encode =
      let e : length (encode ik) - 9 ≡ length ik.user_key = omega (arith, length-encode) in
      rw e (unfold encode in footer_take ik.user_key seq_part _ (length-le_bytes 8 ik.seq) _ refl)

  slice-encode :
      (i j : ℕ)
      → i ≡ length (encode ik) - 9
      → j ≡ length (encode ik) - 1
      → slice (encode ik) i j ≡ le_bytes 8 ik.seq
  slice-encode i j ei ej =
      let p : i ≡ length ik.user_key = omega (arith, length-encode) in
      let q : j ≡ length ik.user_key + 8 = omega (arith, length-encode) in
      unfold encode in footer_slice ik.user_key seq_part _ (length-le_bytes 8 ik.seq) i j p q

  pub last-encode : get_or (encode ik) (length (encode ik) - 1) 0 ≡ as_u8 ik.vtype
  last-encode =
      let e : length (encode ik) - 1 ≡ length ik.user_key + 8 = omega (arith, length-encode) in
      rw e (unfold encode in footer_last ik.user_key seq_part _ (length-le_bytes 8 ik.seq) _ refl)

  pub user_key_of_internal_key-encode : user_key_of_internal_key (encode ik) ≡ ik.user_key
  unfolding user_key_of_internal_key
  user_key_of_internal_key-encode = rw (long_enough, take-encode)

  pub vtype_of_internal_key-encode : vtype_of_internal_key (encode ik) ≡ some ik.vtype
  unfolding vtype_of_internal_key
  vtype_of_internal_key-encode = rw (long_enough, last-encode) (from_u8-as_u8 ik.vtype)

  module _ (fits : IsU64 ik.seq) where
    seq-encode : from_le_bytes (le_bytes 8 ik.seq) ≡ ik.seq
    seq-encode = from_le_bytes-le_bytes 8 ik.seq (omega arith)

    pub seq_of_internal_key-encode : seq_of_internal_key (encode ik) ≡ some ik.seq
    unfolding seq_of_internal_key
    seq_of_internal_key-encode =
        let start : ℕ = length (encode ik) - 9 in
        let e : start + 8 ≡ length (encode ik) - 1 = omega (arith, length-encode) in
        rw (long_enough, slice-encode start (start + 8) refl e, seq-encode)

    -- Decoding the encoding of an internal key whose sequence number is of 64 bits gives the key
    -- back.
    pub decode-encode : decode (encode ik) ≡ ok ik
    unfolding decode
    decode-encode = rw (
      long_enough,
      last-encode,
      from_u8-as_u8 ik.vtype,
      take-encode,
      slice-encode _ _ refl refl,
      seq-encode,
    )

    -- The three accessors read the user key, the sequence number and the type off the encoding of
    -- a key whose sequence number is of 64 bits, without decoding it.
    pub accessors-encode :
        (user_key_of_internal_key (encode ik) ≡ ik.user_key)
        × (seq_of_internal_key (encode ik) ≡ some ik.seq)
        × (vtype_of_internal_key (encode ik) ≡ some ik.vtype)
    accessors-encode =
        (user_key_of_internal_key-encode, seq_of_internal_key-encode, vtype_of_internal_key-encode)
