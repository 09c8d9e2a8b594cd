-- ===== src/Varint.antt =====
-- src/varint.rs: integers in groups of seven bits, lowest group first, with the top bit set on
-- every byte but the last. A buffer is the list of its bytes; `value >>= 7` is `value / 128`.
pub mod Encode
pub mod Decode
pub mod RoundTrip
mod Tests
use mathlib.Core.Logic.{dite}
use mathlib.Core.WellFounded.{Acc}
use native.Mathlib.Decide.{dec_le}
use mulan_lsm.Prelude.{
  ℕ, zero, suc, ◌+◌, ◌-◌, ◌*◌, ◌/◌, ◌%◌, ◌^◌, ◌≤◌, ◌<◌, bit_and, bit_or, arith, List, [], ◌∷◌, ◌++◌,
  length, ◌==◌, if◌then◌else◌, Result, ok, err, MulanError, ◌>>=◌,
}
use mulan_lsm.Prelude.Bytes.{Bytes}
use mulan_lsm.Prelude.Order.{lt_wf}

abbrev pub more_bit : ℕ
more_bit = 0x80

abbrev pub payload_mask : ℕ
payload_mask = 0x7f

abbrev pub max_varint32_len : ℕ
max_varint32_len = 5

abbrev pub max_varint64_len : ℕ
max_varint64_len = 10

pub shift_shrinks : (v : ℕ) → more_bit ≤ v → v / 128 < v
shift_shrinks v h = omega arith

-- `while value >= 0x80 { push; value >>= 7 }`, then the last push
unfoldable pub encode_loop : Bytes → (value : ℕ) → Acc ◌<◌ value → Bytes
encode_loop buf value (Acc.intro _ smaller) =
    dite (dec_le more_bit value)
      (λ big.
        encode_loop (buf ++ bit_or (value % 256) more_bit ∷ []) (value / 128)
          (smaller _ (shift_shrinks value big)))
      (λ _. buf ++ (value % 256) ∷ [])

-- The buffer with the number appended, and how many bytes were written.
unfoldable pub encode_varint64 : Bytes → ℕ → Bytes × ℕ
encode_varint64 buf value =
    let out = encode_loop buf value (lt_wf.apply value) in (out, length out - length buf)

-- The same loop on a `u32`.
unfoldable pub encode_varint32 : Bytes → ℕ → Bytes × ℕ
encode_varint32 buf value =
    let out = encode_loop buf value (lt_wf.apply value) in (out, length out - length buf)

-- The rounds left come first: `take(max_len)` ends the loop. A `u64` shifted left keeps 64 bits.
decode_loop : ℕ → ℕ → ℕ → ℕ → Bytes → Result (ℕ × ℕ)
decode_loop zero result shift i buf = err MulanError.corrupted
decode_loop (suc n) result shift i [] = err MulanError.corrupted
decode_loop (suc n) result shift i (byte ∷ buf) =
    let result' = bit_or result (bit_and byte payload_mask * 2 ^ shift % 2 ^ 64) in
    let rest = decode_loop n result' (shift + 7) (i + 1) buf in
    if bit_and byte more_bit == 0 then ok (result', i + 1) else rest

decode_varint : Bytes → ℕ → Result (ℕ × ℕ)
decode_varint buf max_len = decode_loop max_len 0 0 0 buf

-- The number, and how many bytes it took.
pub decode_varint64 : Bytes → Result (ℕ × ℕ)
decode_varint64 buf = decode_varint buf max_varint64_len

pub decode_varint32 : Bytes → Result (ℕ × ℕ)
decode_varint32 buf = do (v, n) ← decode_varint buf max_varint32_len; ok (v % 2 ^ 32, n)
