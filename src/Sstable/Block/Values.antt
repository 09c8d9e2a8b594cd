-- ===== src/Sstable/Block/Values.antt =====
-- lower_bound of src/sstable/block.rs gives the value of what lower_bound_kv gives.
use mulan_lsm.Prelude.{
  ℕ, zero, suc, ◌-◌, ◌≡◌, refl, ap, min, length, if◌then◌else◌, Bool-cases, Option, none, some,
  Option-cases, Result, ok, err, panic, ◌==◌, ◌>>=◌, inl, inr,
}
use mulan_lsm.Prelude.Bytes.{Bytes}
use mulan_lsm.Prelude.Compare.{Ordering-cases}
use mulan_lsm.Sstable.Block.{Block, restart_offset, parse_entry, is_past_entries, and_then}
use mulan_lsm.Sstable.Block.Search.{
  Compare, option_map, restarting_key_at, Found, search_lower, scan_lower, scan_value, lower_bound,
  lower_bound_kv,
}

abbrev pub value_part : Bytes × Bytes → Bytes
value_part kv = kv.1

module _ (block : Block) (cmp : Compare) (target : Bytes) where
  scan_value_lem :
      (fuel offset : ℕ) (last_key : Bytes)
      → scan_value block cmp target fuel offset last_key
        ≡ option_map value_part (scan_lower block cmp target fuel offset last_key)
  unfolding scan_value scan_lower
  scan_value_lem zero offset last_key = refl
  scan_value_lem (suc fuel) offset last_key =
      elim (Option-cases (parse_entry block offset last_key)) [
        | inl nothing ↦ rw (scan_value, scan_lower, nothing) refl
        | inr (entry, parsed) ↦ elim (Ordering-cases (cmp target entry.key)) [
          | inl greater ↦ elim (Bool-cases (is_past_entries block entry.next_offset)) [
            | inl past ↦ rw (scan_value, scan_lower, parsed, greater, past) refl
            | inr before ↦
                rw (scan_value, scan_lower, parsed, greater, before)
                  (scan_value_lem fuel entry.next_offset entry.key)
          ]
          | inr (inl less) ↦ rw (scan_value, scan_lower, parsed, less) refl
          | inr (inr same) ↦ rw (scan_value, scan_lower, parsed, same) refl
        ]
      ]

  from_key :
      (offset : ℕ) (restart_key : Option Bytes)
      → and_then restart_key (λ key. scan_value block cmp target (length block.bytes) offset key)
        ≡ option_map value_part (
            and_then restart_key
              (λ key. scan_lower block cmp target (length block.bytes) offset key))
  from_key offset none = refl
  from_key offset (some key) = scan_value_lem (length block.bytes) offset key

  abbrev start_of : Result ℕ → Result (Option Bytes) → Result (Option (Bytes × Bytes))
  start_of offset restart_key = offset >>= λ o. restart_key >>= λ r.
      ok (and_then r (λ key. scan_lower block cmp target (length block.bytes) o key))

  from_restart :
      (offset : Result ℕ) (restart_key : Result (Option Bytes))
      → (offset >>= λ o. restart_key >>= λ r.
          ok (and_then r (λ key. scan_value block cmp target (length block.bytes) o key)))
        ≡ (start_of offset restart_key >>= λ found. ok (option_map value_part found))
  from_restart (ok o) (ok r) = ap ok (from_key o r)
  from_restart (ok o) (err e) = refl
  from_restart (ok o) panic = refl
  from_restart (err e) r = refl
  from_restart panic r = refl

  abbrev behind : Found → Result (Option (Bytes × Bytes))
  behind Found.unreadable = ok none
  behind (Found.hit mid) = ok none
  behind (Found.position lo) =
      if block.num_restarts == 0
      then panic
      else start_of (restart_offset block (min (lo - 1) (block.num_restarts - 1)))
          (restarting_key_at block (min (lo - 1) (block.num_restarts - 1)))

  abbrev value_behind : Found → Result (Option Bytes)
  value_behind Found.unreadable = ok none
  value_behind (Found.hit mid) = ok none
  value_behind (Found.position lo) =
      if block.num_restarts == 0
      then panic
      else (restart_offset block (min (lo - 1) (block.num_restarts - 1)) >>= λ o.
          restarting_key_at block (min (lo - 1) (block.num_restarts - 1)) >>= λ r.
          ok (and_then r (λ key. scan_value block cmp target (length block.bytes) o key)))

  value_behind-behind :
      (found : Result Found)
      → (found >>= value_behind) ≡ ((found >>= behind) >>= λ kv. ok (option_map value_part kv))
  value_behind-behind (ok Found.unreadable) = refl
  value_behind-behind (ok (Found.hit mid)) = refl
  value_behind-behind (ok (Found.position lo)) = elim (Bool-cases (block.num_restarts == 0)) [
    | inl none_there ↦ rw none_there refl
    | inr some_there ↦ rw some_there (
        from_restart (restart_offset block (min (lo - 1) (block.num_restarts - 1)))
          (restarting_key_at block (min (lo - 1) (block.num_restarts - 1))))
  ]
  value_behind-behind (err e) = refl
  value_behind-behind panic = refl

  pub lower_bound_lem :
      lower_bound block cmp target
      ≡ (lower_bound_kv block cmp target >>= λ found. ok (option_map value_part found))
  unfolding lower_bound lower_bound_kv
  lower_bound_lem =
      value_behind-behind (search_lower block cmp target block.num_restarts 0 block.num_restarts)
