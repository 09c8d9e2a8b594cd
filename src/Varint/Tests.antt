-- ===== src/Varint/Tests.antt =====
-- The theorems about src/varint.rs at concrete numbers.
use mulan_lsm.Prelude.{◌^◌, ◌≤◌, ◌<◌, arith, ◌≡◌, refl, [], ◌∷◌, ◌++◌, length, ok}
use mulan_lsm.Prelude.Bytes.{Bytes}
use mulan_lsm.Varint.{
  decode_loop, decode_varint, decode_varint32, decode_varint64, encode_varint32, encode_varint64,
}
use mulan_lsm.Varint.Decode.{decode_varint32_takes, decode_varint64_takes}
use mulan_lsm.Varint.RoundTrip.{decode-encode_varint32, decode-encode_varint64}

decode-encode_varint64_example :
    decode_varint64 ((encode_varint64 [] 300).0 ++ 7 ∷ []) ≡ ok (300, (encode_varint64 [] 300).1)
decode-encode_varint64_example = decode-encode_varint64 300 (7 ∷ []) (omega arith)

abbrev three_hundred : Bytes
three_hundred = 172 ∷ 2 ∷ 9 ∷ []

read32 : decode_varint32 three_hundred ≡ ok (300, 2)
unfolding decode_varint32 decode_varint decode_loop
read32 = refl

decode_varint32_takes_example : (300 < 2 ^ 32) × (1 ≤ 2) × (2 ≤ 5) × (2 ≤ length three_hundred)
decode_varint32_takes_example = decode_varint32_takes three_hundred 300 2 read32

decode-encode_varint32_example :
    decode_varint32 ((encode_varint32 [] 70000).0 ++ []) ≡ ok (70000, (encode_varint32 [] 70000).1)
decode-encode_varint32_example = decode-encode_varint32 70000 [] (omega arith)

read64 : decode_varint64 three_hundred ≡ ok (300, 2)
unfolding decode_varint64 decode_varint decode_loop
read64 = refl

decode_varint64_takes_example : (1 ≤ 2) × (2 ≤ 10) × (2 ≤ length three_hundred)
decode_varint64_takes_example = decode_varint64_takes three_hundred 300 2 read64
