-- ===== src/Bloom.antt =====
-- src/bloom.rs: the Bloom filter of a table. The bit array is a list of bytes; a `u32` keeps its
-- wrap-around. Floating point is left out: `optimal_k bits_per_key` stands for
-- `(bits_per_key as f64 * LN_2).round().max(1.0) as u8`.
pub mod Bits
pub mod Members
mod Tests
use mulan_lsm.Prelude.{
  ℕ, zero, suc, ◌+◌, ◌-◌, ◌*◌, ◌/◌, ◌%◌, ◌^◌, min, max, bit_and, bit_or, bit_xor, List, [], ◌∷◌,
  ◌++◌, length, take, get_or, set, replicate, foldl, ◌==◌, if◌then◌else◌, Bool, true, false, Option,
  none, some,
}
use mulan_lsm.Prelude.Bytes.{Bytes}

pub record BloomFilter : Type 0 where
  pub bits : Bytes
  pub k : ℕ

-- `h.wrapping_mul(0x0001_9360); h ^= b`
abbrev mix : ℕ → ℕ → ℕ
mix h b = bit_xor (h * 0x0001_9360 % 2 ^ 32) b

unfoldable pub bloom_hash : Bytes → ℕ
bloom_hash key = foldl mix (length key % 2 ^ 32) key * 0x9E37_79B1 % 2 ^ 32

unfoldable pub double_hash : Bytes → ℕ × ℕ
double_hash key = let h = bloom_hash key in (h, max (h / 2 ^ 17) 1)

abbrev pub total_bytes : ℕ → ℕ → ℕ
total_bytes num_keys bits_per_key = (max (num_keys * bits_per_key % 2 ^ 64) 64 + 7) / 8

unfoldable pub new : (ℕ → ℕ) → ℕ → BloomFilter
new optimal_k bits_per_key = record { bits = []; k = min (optimal_k bits_per_key) 30 }

unfoldable pub ensure_capacity : BloomFilter → ℕ → ℕ → BloomFilter
ensure_capacity f num_keys bits_per_key = record f {
  bits = replicate (total_bytes num_keys bits_per_key) 0;
}

-- `bits[bitpos / 8] |= 1 << (bitpos % 8)`
unfoldable pub set_bit : Bytes → ℕ → Bytes
set_bit bits bitpos = set bits (bitpos / 8) (bit_or (get_or bits (bitpos / 8) 0) (2 ^ (bitpos % 8)))

-- `bits[bitpos / 8] & (1 << (bitpos % 8)) == 0`
unfoldable pub bit_clear : Bytes → ℕ → Bool
bit_clear bits bitpos = bit_and (get_or bits (bitpos / 8) 0) (2 ^ (bitpos % 8)) == 0

-- The rounds `for _ in 0..k`, with the hash of the round.
unfoldable pub insert_loop : ℕ → ℕ → ℕ → ℕ → Bytes → Bytes
insert_loop zero h delta nbits bits = bits
insert_loop (suc rounds) h delta nbits bits =
    insert_loop rounds ((h + delta) % 2 ^ 32) delta nbits (set_bit bits (h % nbits))

unfoldable pub insert : BloomFilter → Bytes → BloomFilter
insert f key =
    let nbits = length f.bits * 8 % 2 ^ 32 in
    let (h, delta) = double_hash key in
    if nbits == 0 then f else record f { bits = insert_loop f.k h delta nbits f.bits }

unfoldable pub may_contain_loop : ℕ → ℕ → ℕ → ℕ → Bytes → Bool
may_contain_loop zero h delta nbits bits = true
may_contain_loop (suc rounds) h delta nbits bits =
    let rest = may_contain_loop rounds ((h + delta) % 2 ^ 32) delta nbits bits in
    if bit_clear bits (h % nbits) then false else rest

unfoldable pub may_contain : BloomFilter → Bytes → Bool
may_contain f key =
    let nbits = length f.bits * 8 % 2 ^ 32 in
    let (h, delta) = double_hash key in
    if nbits == 0 then false else may_contain_loop f.k h delta nbits f.bits

unfoldable pub from_keys : (ℕ → ℕ) → List Bytes → ℕ → BloomFilter
from_keys optimal_k keys bits_per_key =
    foldl insert
      (record (new optimal_k bits_per_key) {
        bits = replicate (total_bytes (length keys) bits_per_key) 0;
      })
      keys

unfoldable pub finish : BloomFilter → Bytes
finish f = f.bits ++ f.k ∷ []

unfoldable pub from_bytes : Bytes → Option BloomFilter
from_bytes payload =
    if length payload == 0
    then none
    else some (record {
      bits = take (length payload - 1) payload;
      k = get_or payload (length payload - 1) 0;
    })
