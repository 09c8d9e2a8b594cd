-- ===== src/Varint/Encode.antt =====
-- What the encoders of src/varint.rs write, in plain arithmetic.
use mathlib.Core.WellFounded.{Acc}
use mulan_lsm.Prelude.{
  ℕ, zero, suc, ◌+◌, ◌/◌, ◌%◌, ◌^◌, ◌≤◌, ◌<◌, arith, ◌≡◌, [], ◌∷◌, ◌++◌, length, length-append, All,
  ltb, if◌then◌else◌, append_assoc,
}
use mulan_lsm.Prelude.Bits.{bit_or_more}
use mulan_lsm.Prelude.Bytes.{Bytes, IsByte, IsU32, IsU64}
use mulan_lsm.Varint.{encode_loop, encode_varint32, encode_varint64}

-- The groups of `v`, lowest first, for `v` below 128 ^ (k + 1).
unfoldable pub groups : ℕ → ℕ → Bytes
groups zero v = v ∷ []
groups (suc k) v =
    let rest = groups k (v / 128) in if ltb v 128 then v ∷ [] else (v % 128 + 128) ∷ rest

encode_loop-groups :
    (k : ℕ) (buf : Bytes) (v : ℕ) (w : Acc ◌<◌ v)
    → v < 128 ^ suc k
    → encode_loop buf v w ≡ buf ++ groups k v
unfolding encode_loop groups
encode_loop-groups zero buf v (Acc.intro _ smaller) h = grind arith
encode_loop-groups (suc k) buf v (Acc.intro _ smaller) h = grind (
  arith,
  bit_or_more (v % 256) (omega arith),
  λ (w : Acc ◌<◌ (v / 128)).
      encode_loop-groups k (buf ++ (v % 128 + 128) ∷ []) (v / 128) w (omega arith),
  append_assoc buf ((v % 128 + 128) ∷ []) (groups k (v / 128)),
)

pub length-groups : (k v : ℕ) → (1 ≤ length (groups k v)) × (length (groups k v) ≤ k + 1)
unfolding groups
length-groups zero v = omega arith
length-groups (suc k) v = ground (arith, length-groups k (v / 128))

pub groups-IsByte : (k v : ℕ) → v < 128 ^ suc k → All IsByte (groups k v)
unfolding groups
groups-IsByte zero v h = omega arith
groups-IsByte (suc k) v h = ground (arith, groups-IsByte k (v / 128) (omega arith))

-- The two encoders append the groups, and return how many.
pub encode_varint64_lem :
    (buf : Bytes) (v : ℕ)
    → IsU64 v
    → encode_varint64 buf v ≡ (buf ++ groups 9 v, length (groups 9 v))
unfolding encode_varint64
encode_varint64_lem buf v h =
    rw (encode_loop-groups 9 buf v _ (omega arith)) (ground (arith, length-append buf (groups 9 v)))

pub encode_varint32_lem :
    (buf : Bytes) (v : ℕ)
    → IsU32 v
    → encode_varint32 buf v ≡ (buf ++ groups 4 v, length (groups 4 v))
unfolding encode_varint32
encode_varint32_lem buf v h =
    rw (encode_loop-groups 4 buf v _ (omega arith)) (ground (arith, length-append buf (groups 4 v)))
