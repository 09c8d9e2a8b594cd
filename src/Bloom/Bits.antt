-- ===== src/Bloom/Bits.antt =====
-- Single bits of the array of src/bloom.rs.
use mulan_lsm.Prelude.{
  ℕ, zero, suc, ◌*◌, ◌/◌, ◌%◌, ◌^◌, ◌<◌, bit_and, bit_or, arith, ◌≡◌, refl, [], ◌∷◌, length,
  length-set, get_or, set, get_or-set_self, get_or-set_ne, All, ◌==◌, ==_iff, ltb, Bool, true,
  false, not, ◌&&◌, Bool-cases, inl, inr,
}
use mulan_lsm.Prelude.Bits.{all_below, all_below_sound}
use mulan_lsm.Prelude.Bytes.{Bytes, IsByte}
use mulan_lsm.Bloom.{set_bit, bit_clear}
use mulan_lsm.Prelude.{◌||◌}

-- For every byte and every two bits: setting one sets it, keeps the other if it was set, and gives a
-- byte.
abbrev bit_check : ℕ → ℕ → ℕ → Bool
bit_check i j b =
    not (bit_and (bit_or b (2 ^ i)) (2 ^ i) == 0)
    && (bit_and b (2 ^ j) == 0 || not (bit_and (bit_or b (2 ^ i)) (2 ^ j) == 0))
    && ltb (bit_or b (2 ^ i)) 256

bit_table : all_below 8 (λ i. all_below 8 (λ j. all_below 256 (λ b. bit_check i j b))) ≡ true
unfolding all_below
bit_table = refl

checked : (i j b : ℕ) → i < 8 → j < 8 → b < 256 → bit_check i j b ≡ true
checked i j b hi hj hb =
    all_below_sound 256 (λ b. bit_check i j b) b
      (all_below_sound 8 (λ j. all_below 256 (λ b. bit_check i j b)) j
        (all_below_sound 8 (λ i. all_below 8 (λ j. all_below 256 (λ b. bit_check i j b))) i
          bit_table hi)
        hj)
      hb

All-get_or : (bits : Bytes) (n : ℕ) → All IsByte bits → get_or bits n 0 < 256
All-get_or [] n h = omega arith
All-get_or (b ∷ bits) zero h = h.0
All-get_or (b ∷ bits) (suc n) h = All-get_or bits n h.1

All-set : (bits : Bytes) (n v : ℕ) → All IsByte bits → v < 256 → All IsByte (set bits n v)
All-set [] n v h k = tt
All-set (b ∷ bits) zero v h k = (k, h.1)
All-set (b ∷ bits) (suc n) v h k = (h.0, All-set bits n v h.1 k)

pub length-set_bit : (bits : Bytes) (p : ℕ) → length (set_bit bits p) ≡ length bits
unfolding set_bit
length-set_bit bits p = length-set bits _ _

module _ (bits : Bytes) (p : ℕ) (bytes : All IsByte bits) where
  fact : (q : ℕ) → bit_check (p % 8) (q % 8) (get_or bits (p / 8) 0) ≡ true
  fact q = checked (p % 8) (q % 8) _ (omega arith) (omega arith) (All-get_or bits (p / 8) bytes)

  pub set_bit-IsByte : All IsByte (set_bit bits p)
  unfolding set_bit
  set_bit-IsByte = All-set bits _ _ bytes (ground (arith, fact p))

  -- A bit that was set by this write is set.
  pub bit_clear-set_bit_self : p < length bits * 8 → bit_clear (set_bit bits p) p ≡ false
  unfolding bit_clear set_bit
  bit_clear-set_bit_self h =
      rw (get_or-set_self bits (p / 8) _ 0 (omega arith)) (ground (arith, fact p))

  -- A bit that was set before stays set.
  pub bit_clear-set_bit :
      (q : ℕ)
      → p < length bits * 8
      → bit_clear bits q ≡ false
      → bit_clear (set_bit bits p) q ≡ false
  unfolding bit_clear set_bit
  bit_clear-set_bit q h e = elim (Bool-cases (p / 8 == q / 8)) [
    | inl same ↦
        let s : p / 8 ≡ q / 8 = (==_iff (p / 8) (q / 8)).0 same in
        rw (← s, get_or-set_self bits (p / 8) _ 0 (omega arith))
          (ground (arith, fact q, rw (← s) at e))
    | inr other ↦ rw (get_or-set_ne bits (p / 8) (q / 8) _ 0 (ground arith)) e
  ]
