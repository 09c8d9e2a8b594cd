-- ===== src/Sstable/Block/Search.antt =====
-- Searches in a block of src/sstable/block.rs: binary over the restart points, then entry by entry. The
-- order is a parameter, as `cmp` is there. The binary search runs on fuel, one for each restart point;
-- the scan on fuel of a byte for each entry.
use Prim.Native.Nat.{Ordering}
use mulan_lsm.Prelude.{
  ℕ, zero, suc, ◌+◌, ◌-◌, ◌/◌, min, length, ltb, ◌==◌, if◌then◌else◌, true, false, Option, none,
  some, Result, ok, panic, ◌>>=◌,
}
use mulan_lsm.Prelude.Bytes.{Bytes}
use mulan_lsm.Sstable.Block.{
  Block, restart_offset, entry_at, parse_entry, is_past_entries, to_option, and_then,
}

abbrev pub Compare : Type 0
Compare = Bytes → Bytes → Ordering

abbrev pub key_of : Bytes × Bytes × ℕ → Bytes
key_of (key, value, after) = key

abbrev pub value_of : Bytes × Bytes × ℕ → Bytes
value_of (key, value, after) = value

abbrev pub option_map {ℓ ℓ'} : {A : Type ℓ} {B : Type ℓ'} → (A → B) → Option A → Option B
option_map f none = none
option_map f (some a) = some (f a)

unfoldable pub restarting_key_at : Block → ℕ → Result (Option Bytes)
restarting_key_at block i = do
  offset ← restart_offset block i
  ok (option_map key_of (to_option (entry_at block offset)))

unfoldable pub value_at_restart : Block → ℕ → Result (Option Bytes)
value_at_restart block i = do
  offset ← restart_offset block i
  ok (option_map value_of (to_option (entry_at block offset)))

-- How the search over the restart points ends: behind the last step, at a restart point that has the
-- key, or at one that cannot be read.
pub data Found : Type 0 where
  position hit : ℕ → Found
  unreadable : Found

module _ (block : Block) (cmp : Compare) (target : Bytes) where
  unfoldable pub search_equal : ℕ → ℕ → ℕ → Result Found
  search_equal zero lo hi = ok (position lo)
  search_equal (suc fuel) lo hi = elim (ltb lo hi) [
    | false ↦ ok (position lo)
    | true ↦ restarting_key_at block ((lo + hi) / 2) >>= λ restart_key. elim restart_key [
      | none ↦ ok unreadable
      | some key ↦ elim (cmp target key) [
        | Ordering.lt ↦ search_equal fuel lo ((lo + hi) / 2)
        | Ordering.eq ↦ ok (hit ((lo + hi) / 2))
        | Ordering.gt ↦ search_equal fuel ((lo + hi) / 2 + 1) hi
      ]
    ]
  ]

  unfoldable pub search_lower : ℕ → ℕ → ℕ → Result Found
  search_lower zero lo hi = ok (position lo)
  search_lower (suc fuel) lo hi = elim (ltb lo hi) [
    | false ↦ ok (position lo)
    | true ↦ restarting_key_at block ((lo + hi) / 2) >>= λ restart_key. elim restart_key [
      | none ↦ ok unreadable
      | some key ↦ elim (cmp target key) [
        | Ordering.gt ↦ search_lower fuel ((lo + hi) / 2 + 1) hi
        | Ordering.lt ↦ search_lower fuel lo ((lo + hi) / 2)
        | Ordering.eq ↦ search_lower fuel lo ((lo + hi) / 2)
      ]
    ]
  ]

  unfoldable pub scan_equal : ℕ → ℕ → Bytes → Option Bytes
  scan_equal zero offset last_key = none
  scan_equal (suc fuel) offset last_key = elim (parse_entry block offset last_key) [
    | none ↦ none
    | some entry ↦ elim (cmp target entry.key) [
      | Ordering.lt ↦ none
      | Ordering.eq ↦ some entry.value
      | Ordering.gt ↦
          let rest = scan_equal fuel entry.next_offset entry.key in
          if is_past_entries block entry.next_offset then none else rest
    ]
  ]

  unfoldable pub scan_lower : ℕ → ℕ → Bytes → Option (Bytes × Bytes)
  scan_lower zero offset last_key = none
  scan_lower (suc fuel) offset last_key = elim (parse_entry block offset last_key) [
    | none ↦ none
    | some entry ↦ elim (cmp target entry.key) [
      | Ordering.gt ↦
          let rest = scan_lower fuel entry.next_offset entry.key in
          if is_past_entries block entry.next_offset then none else rest
      | Ordering.lt ↦ some (entry.key, entry.value)
      | Ordering.eq ↦ some (entry.key, entry.value)
    ]
  ]

  unfoldable pub get : Result (Option Bytes)
  get = search_equal block.num_restarts 0 block.num_restarts >>= λ found. elim found [
    | unreadable ↦ ok none
    | hit mid ↦ value_at_restart block mid
    | position lo ↦ if lo == 0 then ok none else (do
      offset ← restart_offset block (lo - 1)
      restart_key ← restarting_key_at block (lo - 1)
      ok (and_then restart_key (λ key. scan_equal (length block.bytes) offset key)))
  ]

  -- `self.num_restarts - 1` at no restart point is a panic.
  unfoldable pub lower_bound_kv : Result (Option (Bytes × Bytes))
  lower_bound_kv = search_lower block.num_restarts 0 block.num_restarts >>= λ found. elim found [
    | unreadable ↦ ok none
    | hit mid ↦ ok none
    | position lo ↦ if block.num_restarts == 0 then panic else (do
      offset ← restart_offset block (min (lo - 1) (block.num_restarts - 1))
      restart_key ← restarting_key_at block (min (lo - 1) (block.num_restarts - 1))
      ok (and_then restart_key (λ key. scan_lower (length block.bytes) offset key)))
  ]

  unfoldable pub scan_value : ℕ → ℕ → Bytes → Option Bytes
  scan_value zero offset last_key = none
  scan_value (suc fuel) offset last_key = elim (parse_entry block offset last_key) [
    | none ↦ none
    | some entry ↦ elim (cmp target entry.key) [
      | Ordering.gt ↦
          let rest = scan_value fuel entry.next_offset entry.key in
          if is_past_entries block entry.next_offset then none else rest
      | Ordering.lt ↦ some entry.value
      | Ordering.eq ↦ some entry.value
    ]
  ]

  unfoldable pub lower_bound : Result (Option Bytes)
  lower_bound = search_lower block.num_restarts 0 block.num_restarts >>= λ found. elim found [
    | unreadable ↦ ok none
    | hit mid ↦ ok none
    | position lo ↦ if block.num_restarts == 0 then panic else (do
      offset ← restart_offset block (min (lo - 1) (block.num_restarts - 1))
      restart_key ← restarting_key_at block (min (lo - 1) (block.num_restarts - 1))
      ok (and_then restart_key (λ key. scan_value (length block.bytes) offset key)))
  ]
