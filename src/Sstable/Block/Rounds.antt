-- ===== src/Sstable/Block/Rounds.antt =====
-- The two loops of lower_bound_kv in src/sstable/block.rs: the scan over entries, and the binary search
-- over the restart points.
use Prim.Native.Nat.{Ordering}
use mulan_lsm.Prelude.{
  ℕ, zero, suc, arith, ◌+◌, ◌-◌, ◌/◌, ◌<◌, ◌≤◌, ◌≡◌, refl, sym, ap, ◌∙◌, List, ◌∷◌, ◌++◌, length,
  length-append, append_assoc, take, leb, ltb, if◌then◌else◌, true, false, Bool-cases, none, some,
  ok, ◌⊎◌, inl, inr,
}
use mulan_lsm.Prelude.Bytes.{Bytes}
use mulan_lsm.Prelude.Compare.{Ordering-cases}
use mulan_lsm.Sstable.Block.{Block, is_past_entries}
use mulan_lsm.Sstable.Block.Entries.{entry_bytes, parse_entry_at, Encodes, entry_takes}
use mulan_lsm.Sstable.Block.Search.{Compare, restarting_key_at, Found, search_lower, scan_lower}
use mulan_lsm.Sstable.Block.Seek.{first_from}

-- The scan from an entry on, or none behind the last.
pub scan_lem :
    (fuel : ℕ) {last key' : Bytes} {items : List (Bytes × Bytes)} {bytes : Bytes} (block : Block)
    (cmp : Compare) (target pre post : Bytes)
    → Encodes last items bytes key'
    → block.bytes ≡ pre ++ (bytes ++ post)
    → block.restarts_offset ≡ length pre + length bytes
    → length bytes ≤ fuel
    → (if is_past_entries block (length pre)
        then none
        else scan_lower block cmp target fuel (length pre) last)
      ≡ first_from cmp target items
unfolding scan_lower is_past_entries
scan_lem zero block cmp target pre post Encodes.none_left e h k =
    let past : leb block.restarts_offset (length pre) ≡ true = ground (arith, h) in rw past refl
scan_lem (suc fuel) block cmp target pre post Encodes.none_left e h k =
    let past : leb block.restarts_offset (length pre) ≡ true = ground (arith, h) in rw past refl
scan_lem zero block cmp target pre post
      (Encodes.entry {rest = rest} s delta value shared hs hd hv more) e h k =
    absurd
      (omega (arith, k, length-append (entry_bytes s delta value) rest, entry_takes s delta value))
scan_lem (suc fuel) {last} block cmp target pre post
      (Encodes.entry {items = items} {rest = rest} s delta value shared hs hd hv more) e h k =
    let this = entry_bytes s delta value in
    let key = take s last ++ delta in
    let size = length-append this rest in
    let takes = entry_takes s delta value in
    let split : block.bytes ≡ pre ++ (this ++ (rest ++ post)) =
      e ∙ ap (◌++◌ pre) (append_assoc this rest post) in
    let split' : block.bytes ≡ (pre ++ this) ++ (rest ++ post) =
      split ∙ sym (append_assoc pre this (rest ++ post)) in
    let parsed =
      parse_entry_at block pre (rest ++ post) last s delta value hs hd hv split shared
        (omega (arith, h, size)) in
    let before : leb block.restarts_offset (length pre) ≡ false = ground (arith, h, size, takes) in
    let further : length (pre ++ this) ≡ length pre + length this = length-append pre this in
    let ih =
      scan_lem fuel block cmp target (pre ++ this) post more split'
        (omega (arith, h, size, further)) (omega (arith, k, size, takes)) in
    let onward =
      ap
        (λ (n : ℕ).
          if leb block.restarts_offset n then none else scan_lower block cmp target fuel n key)
        (sym further)
      ∙ ih in
    elim (Ordering-cases (cmp target key)) [
      | inl greater ↦
          let behind = length pre + length this in
          let step : scan_lower block cmp target (suc fuel) (length pre) last ≡ (
              if leb block.restarts_offset behind
              then none
              else scan_lower block cmp target fuel behind key) =
            rw (scan_lower, parsed, greater) refl in
          let skip : first_from cmp target ((key, value) ∷ items) ≡ first_from cmp target items =
            rw (first_from, greater) refl in
          rw before (step ∙ onward ∙ sym skip)
      | inr (inl less) ↦ rw (before, scan_lower, parsed, less) (sym (rw (first_from, less) refl))
      | inr (inr same) ↦ rw (before, scan_lower, parsed, same) (sym (rw (first_from, same) refl))
    ]

module _ (block : Block) (cmp : Compare) (target : Bytes) (n : ℕ)
    (readable : (i : ℕ) → i < n → (key : Bytes) × (restarting_key_at block i ≡ ok (some key))) where
  -- Where the scan may start: at the first entry, or at a key that is smaller.
  abbrev pub MayStart : ℕ → Type 0
  MayStart p =
      (p ≡ 0)
      ⊎ ((key : Bytes) × ((restarting_key_at block (p - 1) ≡ ok (some key))
            × (cmp target key ≡ Ordering.gt)))

  pub search_lower_lem :
      (fuel lo hi : ℕ)
      → lo ≤ hi
      → hi ≤ n
      → hi ≤ lo + fuel
      → MayStart lo
      → (p : ℕ) × (search_lower block cmp target fuel lo hi ≡ ok (Found.position p))
        × (p ≤ n)
        × MayStart p
  unfolding search_lower
  search_lower_lem zero lo hi h k f start = (lo, refl, omega (arith, h, k), start)
  search_lower_lem (suc fuel) lo hi h k f start = elim (Bool-cases (ltb lo hi)) [
    | inr over ↦ (lo, rw (search_lower, over) refl, omega (arith, h, k), start)
    | inl below ↦
        let less : lo < hi = ground (arith, below) in
        let mid = (lo + hi) / 2 in
        let inside : mid < n = omega (arith, less, k) in
        let (key, read) = readable mid inside in
        elim (Ordering-cases (cmp target key)) [
          | inl greater ↦
              let back : mid + 1 - 1 ≡ mid = omega arith in
              let (p, found, within, good) =
                search_lower_lem fuel (mid + 1) hi (omega (arith, less)) k (omega (arith, f, less))
                  (inr (key, (ap (restarting_key_at block) back ∙ read, greater))) in
              (p, rw (search_lower, below, read, greater) found, within, good)
          | inr (inl lesser) ↦
              let (p, found, within, good) =
                search_lower_lem fuel lo mid (omega (arith, less)) (omega (arith, inside))
                  (omega (arith, f, less)) start in
              (p, rw (search_lower, below, read, lesser) found, within, good)
          | inr (inr same) ↦
              let (p, found, within, good) =
                search_lower_lem fuel lo mid (omega (arith, less)) (omega (arith, inside))
                  (omega (arith, f, less)) start in
              (p, rw (search_lower, below, read, same) found, within, good)
        ]
  ]
