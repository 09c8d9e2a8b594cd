-- ===== src/Varint/RoundTrip.antt =====
-- The decoders of src/varint.rs read back what the encoders wrote.
use native.Mathlib.Numerals.{towards_suc}
use mulan_lsm.Prelude.{
  ℕ, zero, suc, ◌+◌, ◌*◌, ◌/◌, ◌%◌, ◌^◌, ◌<◌, arith, ◌≡◌, ap, [], ◌∷◌, ◌++◌, length, ok,
}
use mulan_lsm.Prelude.Bits.{bit_and_payload, bit_and_more, bit_or_fields}
use mulan_lsm.Prelude.Bytes.{Bytes, IsU32, IsU64}
use mulan_lsm.Varint.{
  decode_loop, decode_varint, decode_varint32, decode_varint64, encode_varint32, encode_varint64,
}
use mulan_lsm.Varint.Encode.{groups, encode_varint32_lem, encode_varint64_lem}

module _ (m result shift i : ℕ) (rest : Bytes) (low : result < 2 ^ shift) where
  last_byte :
      (w : ℕ)
      → w < 128
      → IsU64 (result + w * 2 ^ shift)
      → decode_loop (suc m) result shift i (w ∷ rest) ≡ ok (result + w * 2 ^ shift, i + 1)
  unfolding decode_loop
  last_byte w hw fits =
      ground (arith, bit_and_payload w, bit_and_more w, bit_or_fields shift result w low)

  inner_byte :
      (g : ℕ)
      → g < 128
      → IsU64 (result + g * 2 ^ shift)
      → decode_loop (suc m) result shift i ((g + 128) ∷ rest)
        ≡ decode_loop m (result + g * 2 ^ shift) (shift + 7) (i + 1) rest
  unfolding decode_loop
  inner_byte g hg fits =
      ground
        (arith, bit_and_payload (g + 128), bit_and_more (g + 128), bit_or_fields shift result g low)

pow_seven : (s : ℕ) → 2 ^ (s + 7) ≡ 128 * 2 ^ s
pow_seven s = simp towards_suc (omega arith)

split_group :
    (value shift : ℕ) → value / 128 * 2 ^ (shift + 7) + value % 128 * 2 ^ shift ≡ value * 2 ^ shift
split_group value shift =
    let whole : (value / 128 * 128 + value % 128) * 2 ^ shift ≡ value * 2 ^ shift =
      ap (λ (n : ℕ). n * 2 ^ shift) (omega arith) in
    omega (arith, whole, ap (λ (n : ℕ). value / 128 * n) (pow_seven shift))

stays_low : (g r s : ℕ) → g < 128 → r < 2 ^ s → r + g * 2 ^ s < 2 ^ (s + 7)
stays_low g r s hg hr = grind (arith, pow_seven s)

decode_loop-groups :
    (k w r s i : ℕ) (rest : Bytes)
    → w < 128 ^ suc k
    → r < 2 ^ s
    → IsU64 (r + w * 2 ^ s)
    → decode_loop (suc k) r s i (groups k w ++ rest) ≡ ok (r + w * 2 ^ s, i + length (groups k w))
unfolding groups
decode_loop-groups zero w r s i rest hw low fits =
    last_byte zero r s i rest low w (omega arith) fits
decode_loop-groups (suc k) w r s i rest hw low fits = ground (
  arith,
  last_byte (suc k) r s i rest low w,
  split_group w s,
  inner_byte (suc k) r s i (groups k (w / 128) ++ rest) low (w % 128),
  stays_low (w % 128) r s (omega arith) low,
  decode_loop-groups k (w / 128) (r + w % 128 * 2 ^ s) (s + 7) (i + 1) rest (omega arith),
)

pub decode_varint64-groups :
    (v : ℕ) (rest : Bytes)
    → IsU64 v
    → decode_varint64 (groups 9 v ++ rest) ≡ ok (v, length (groups 9 v))
unfolding decode_varint64 decode_varint
decode_varint64-groups v rest h = ground (arith, decode_loop-groups 9 v 0 0 0 rest)

pub decode_varint32-groups :
    (v : ℕ) (rest : Bytes)
    → IsU32 v
    → decode_varint32 (groups 4 v ++ rest) ≡ ok (v, length (groups 4 v))
unfolding decode_varint32 decode_varint
decode_varint32-groups v rest h = ground (arith, decode_loop-groups 4 v 0 0 0 rest)

-- A u64 written to an empty buffer and followed by anything is read back, and the count of the
-- bytes that were taken is the count that was written.
pub decode-encode_varint64 :
    (v : ℕ) (rest : Bytes)
    → IsU64 v
    → decode_varint64 ((encode_varint64 [] v).0 ++ rest) ≡ ok (v, (encode_varint64 [] v).1)
decode-encode_varint64 v rest h = rw (encode_varint64_lem [] v h) (decode_varint64-groups v rest h)

-- A u32 written to an empty buffer and followed by anything is read back, and the count of the
-- bytes that were taken is the count that was written.
pub decode-encode_varint32 :
    (v : ℕ) (rest : Bytes)
    → IsU32 v
    → decode_varint32 ((encode_varint32 [] v).0 ++ rest) ≡ ok (v, (encode_varint32 [] v).1)
decode-encode_varint32 v rest h = rw (encode_varint32_lem [] v h) (decode_varint32-groups v rest h)
