-- ===== src/Prelude/Bits.antt =====
-- The masks and shifts of single bytes as arithmetic, and `|` of disjoint fields.
use Prim.Native.Nat.{
  ℕ, zero, suc, ◌+◌, ◌-◌, ◌*◌, ◌/◌, ◌%◌, ◌^◌, ◌≤◌, ◌<◌, max, bit_and, bit_or, digits,
  bit_or-bitwise,
}
use mathlib.Core.Path.{◌≡◌, refl, ap, ◌∙◌}
use mathlib.Core.Bool.{Bool, true, ◌&&◌}
use native.Mathlib.Nat.{pow-suc}
use native.Mathlib.Omega.{arith}
use mulan_lsm.Prelude.Tests.{◌==◌, ==_iff}

-- A check of every value below a bound, by evaluation.
unfoldable pub all_below : ℕ → (ℕ → Bool) → Bool
all_below zero p = true
all_below (suc n) p = p n && all_below n p

pub all_below_sound :
    (n : ℕ) (test : ℕ → Bool) (v : ℕ) → all_below n test ≡ true → v < n → test v ≡ true
unfolding all_below
all_below_sound zero test v all low = absurd (omega (arith, low))
all_below_sound (suc n) test v all low = ground (arith, all_below_sound n test v)

payload_table : all_below 256 (λ b. bit_and b 0x7f == b % 128) ≡ true
unfolding all_below
payload_table = refl

-- `byte & 0x7f`
pub bit_and_payload : (b : ℕ) → b < 256 → bit_and b 0x7f ≡ b % 128
bit_and_payload b h = (==_iff _ _).0 (all_below_sound 256 _ b payload_table h)

more_table : all_below 256 (λ b. bit_and b 0x80 == b / 128 * 128) ≡ true
unfolding all_below
more_table = refl

-- `byte & 0x80`
pub bit_and_more : (b : ℕ) → b < 256 → bit_and b 0x80 ≡ b / 128 * 128
bit_and_more b h = (==_iff _ _).0 (all_below_sound 256 _ b more_table h)

set_more_table : all_below 256 (λ b. bit_or b 0x80 == b % 128 + 128) ≡ true
unfolding all_below
set_more_table = refl

-- `byte | 0x80`
pub bit_or_more : (b : ℕ) → b < 256 → bit_or b 0x80 ≡ b % 128 + 128
bit_or_more b h = (==_iff _ _).0 (all_below_sound 256 _ b set_more_table h)

-- The number that `|` computes on binary digits, within so many rounds.
abbrev union_within : ℕ → ℕ → ℕ → ℕ
union_within = digits (λ y. y) max

one_round_more :
    (rounds x y : ℕ) → x ≤ rounds → union_within (suc rounds) x y ≡ union_within rounds x y
one_round_more zero zero y h = refl
one_round_more zero (suc x) y h = absurd (omega (arith, h))
one_round_more (suc rounds) zero y h = refl
one_round_more (suc rounds) (suc x) y h =
    ap (λ (t : ℕ). t * 2 + max (suc x % 2) (y % 2))
      (one_round_more rounds (suc x / 2) (y / 2) (omega (arith, h)))

suc_first : (extra x : ℕ) → suc extra + x ≡ suc (extra + x)
suc_first extra x = omega arith

rounds_more : (extra x y : ℕ) → union_within (extra + x) x y ≡ union_within x x y
rounds_more zero x y = ap (λ (t : ℕ). union_within t x y) (omega arith)
rounds_more (suc extra) x y =
    ap (λ (t : ℕ). union_within t x y) (suc_first extra x)
    ∙ one_round_more (extra + x) x y (omega arith)
    ∙ rounds_more extra x y

pub bit_or_step : (x y : ℕ) → bit_or x y ≡ bit_or (x / 2) (y / 2) * 2 + max (x % 2) (y % 2)
bit_or_step zero y = simp bit_or-bitwise (omega arith)
bit_or_step (suc x) y =
    let half : ℕ = suc x / 2 in
    let split : x ≡ (x - half) + half = omega arith in
    let enough : union_within x half (y / 2) ≡ union_within half half (y / 2) =
      ap (λ (t : ℕ). union_within t half (y / 2)) split ∙ rounds_more (x - half) half (y / 2) in
    simp bit_or-bitwise (ap (λ (t : ℕ). t * 2 + max (suc x % 2) (y % 2)) enough)

shift_once : (k q : ℕ) → 2 * (q * 2 ^ k) ≡ q * 2 ^ suc k
shift_once k q = omega (arith, ap (λ (t : ℕ). q * t) (pow-suc 2 k))

zero-bit_or : (a : ℕ) → bit_or 0 a ≡ a
zero-bit_or a = simp bit_or-bitwise (omega arith)

-- `acc | (q << k)` is a sum when `acc` fits `k` bits.
pub bit_or_fields : (k acc q : ℕ) → acc < 2 ^ k → bit_or acc (q * 2 ^ k) ≡ acc + q * 2 ^ k
bit_or_fields zero zero q fits = rw zero-bit_or (omega arith)
bit_or_fields zero (suc acc) q fits = absurd (omega arith)
bit_or_fields (suc k) acc q fits = ground (
  arith,
  bit_or_step acc (q * 2 ^ suc k),
  shift_once k q,
  pow-suc 2 k,
  bit_or_fields k (acc / 2) q (omega (arith, pow-suc 2 k)),
)
