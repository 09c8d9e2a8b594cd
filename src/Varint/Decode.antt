-- ===== src/Varint/Decode.antt =====
-- The decoder of src/varint.rs on any input, well formed or not.
use mulan_lsm.Prelude.{
  >>=-eq-ok, Result, ℕ, zero, suc, ◌+◌, ◌*◌, ◌%◌, ◌^◌, ◌≤◌, ◌<◌, bit_and, bit_or, arith, ◌≡◌, [],
  ◌∷◌, length, ok,
}
use mulan_lsm.Prelude.Bytes.{Bytes}
use mulan_lsm.Varint.{decode_loop, decode_varint, decode_varint32, decode_varint64}

abbrev pub add_group : ℕ → ℕ → ℕ → ℕ
add_group result byte shift = bit_or result (bit_and byte 0x7f * 2 ^ shift % 2 ^ 64)

decode_loop_takes :
    (m r s i : ℕ) (buf : Bytes) (v n : ℕ)
    → decode_loop m r s i buf ≡ ok (v, n)
    → (suc i ≤ n) × (n ≤ i + m) × (n ≤ i + length buf)
unfolding decode_loop
decode_loop_takes zero r s i buf v n e = cc
decode_loop_takes (suc m) r s i [] v n e = cc
decode_loop_takes (suc m) r s i (b ∷ buf) v n e =
    ground (arith, decode_loop_takes m (add_group r b s) (s + 7) (i + 1) buf v n)

-- A successful decode_varint32 gives a 32-bit number, takes at least a byte, never more than five,
-- and never more than there is.
pub decode_varint32_takes :
    (buf : Bytes) (v n : ℕ)
    → decode_varint32 buf ≡ ok (v, n)
    → (v < 2 ^ 32) × (1 ≤ n) × (n ≤ 5) × (n ≤ length buf)
unfolding decode_varint32 decode_varint
decode_varint32_takes buf v n e = from (>>=-eq-ok (decode_loop 5 0 0 0 buf) _ e)
  where
    from :
        (p : ℕ × ℕ) × (decode_loop 5 0 0 0 buf ≡ ok p)
          × (◌≡◌ {A = Result (ℕ × ℕ)} (ok (p.0 % 2 ^ 32, p.1)) (ok (v, n)))
        → (v < 2 ^ 32) × (1 ≤ n) × (n ≤ 5) × (n ≤ length buf)
    from ((w, k), p, q) = ground (arith, decode_loop_takes 5 0 0 0 buf w k p)

-- A successful decode_varint64 takes at least a byte, never more than ten, and never more than
-- there is.
pub decode_varint64_takes :
    (buf : Bytes) (v n : ℕ)
    → decode_varint64 buf ≡ ok (v, n)
    → (1 ≤ n) × (n ≤ 10) × (n ≤ length buf)
unfolding decode_varint64 decode_varint
decode_varint64_takes buf v n e = ground (arith, decode_loop_takes 10 0 0 0 buf v n e)
