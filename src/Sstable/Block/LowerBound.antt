-- ===== src/Sstable/Block/LowerBound.antt =====
-- lower_bound_kv and lower_bound of src/sstable/block.rs over a block that was built.
use Prim.Native.Nat.{Ordering}
use mathlib.Core.Path.{subst}
use mulan_lsm.Prelude.{
  ℕ, zero, suc, arith, ◌+◌, ◌-◌, ◌%◌, ◌^◌, ◌<◌, ◌≡◌, refl, sym, ap, ◌∙◌, min, List, [], ◌∷◌, ◌++◌,
  length, length-append, append_assoc, get_elem?, All, leb, ◌==◌, if◌then◌else◌, Bool, false,
  Bool-cases, Option, none, some, Result, ok, ◌>>=◌, inl, inr,
}
use mulan_lsm.Prelude.Bytes.{Bytes, le_bytes}
use mulan_lsm.Sstable.Block
use mulan_lsm.Sstable.Block.{
  BlockBuilder, Block, finish, open_block, restart_offset, parse_entry, is_past_entries, and_then,
}
use mulan_lsm.Sstable.Block.Entries.{Encodes-empty}
use mulan_lsm.Sstable.Block.RoundTrip.{
  finished_block, finish_lem, restart_bytes, length-finish, open_block-finish, add_all, AreU32,
}
use mulan_lsm.Sstable.Block.Rounds.{scan_lem, search_lower_lem}
use mulan_lsm.Sstable.Block.Restarts.{Restart, HasRestarts, add_all-HasRestarts}
use mulan_lsm.Sstable.Block.Search.{
  Compare, restarting_key_at, scan_lower, lower_bound_kv, lower_bound, option_map,
}
use mulan_lsm.Sstable.Block.Values.{lower_bound_lem}
use mulan_lsm.Sstable.Block.Seek.{
  first_from, Ascending, IsTransitive, first_from-skip, restart_offset_at, restarting_key_at_lem,
  rebase,
}

All-get :
    (P : ℕ → Type 0) (rs : List ℕ) (i : ℕ)
    → All P rs
    → i < length rs
    → (r : ℕ) × ((get_elem? rs i ≡ some r) × P r)
All-get P [] i h k = absurd (omega (arith, k))
All-get P (x ∷ xs) zero h k = (x, (refl, h.0))
All-get P (x ∷ xs) (suc i) h k = All-get P xs i h.1 (omega (arith, k))

some_first : (rs : List ℕ) (r : ℕ) → get_elem? rs 0 ≡ some r → 0 < length rs
some_first [] r e = cc
some_first (x ∷ rs) r e = omega arith

some-injective {ℓ} : {A : Type ℓ} {a b : A} → some a ≡ some b → a ≡ b
some-injective e = cc

ok-injective {ℓ} : {A : Type ℓ} {a b : A} → ok a ≡ ok b → a ≡ b
ok-injective e = cc

-- What can be read at a restart point.
record Point (b : BlockBuilder) (items : List (Bytes × Bytes)) (i r : ℕ) : Type 0 where
  restart : Restart b.buf b.last_key items r
  offset : restart_offset (finished_block b) i ≡ ok (length restart.pre)
  key : restarting_key_at (finished_block b) i ≡ ok (some restart.first.0)
  split :
      finish b
      ≡ restart.pre
        ++ (restart.rest ++ (restart_bytes b.restarts ++ le_bytes 4 (length b.restarts % 2 ^ 32)))
  whole : length b.buf ≡ length restart.pre + length restart.rest

module _ (b : BlockBuilder) (items : List (Bytes × Bytes)) (h : HasRestarts b items)
    (small : length (finish b) < 2 ^ 32) where
  readable-Point :
      (i r : ℕ)
      → get_elem? b.restarts i ≡ some r
      → Restart b.buf b.last_key items r
      → Point b items i r
  readable-Point i r e restart =
      let tail = restart_bytes b.restarts ++ le_bytes 4 (length b.restarts % 2 ^ 32) in
      let size : length b.buf ≡ length restart.pre + length restart.rest =
        ap length restart.bytes ∙ length-append restart.pre restart.rest in
      let at : r ≡ length restart.pre =
        omega (arith, restart.offset, size, small, length-finish b) in
      let offset =
        restart_offset_at b i r e (omega (arith, at, size, small, length-finish b)) ∙ ap ok at in
      let split : finish b ≡ restart.pre ++ (restart.rest ++ tail) =
        finish_lem b
        ∙ append_assoc b.buf (restart_bytes b.restarts) _
        ∙ ap (λ (buf : Bytes). buf ++ tail) restart.bytes
        ∙ append_assoc restart.pre restart.rest tail in
      record {
        restart = restart;
        offset = offset;
        key =
            restarting_key_at_lem (finished_block b) i restart.pre tail restart.encodes split
              offset;
        split = split;
        whole = size;
      }

  at-Point : (i : ℕ) → i < length b.restarts → (r : ℕ) × Point b items i r
  at-Point i k =
      let (r, (e, restart)) = All-get (Restart b.buf b.last_key items) b.restarts i h.all k in
      (r, readable-Point i r e restart)

  module _ (cmp : Compare) (target : Bytes) where
    -- The scan from a restart point on.
    scan_at :
        (i r : ℕ)
        → (point : Point b items i r)
        → scan_lower
            (finished_block b)
            cmp
            target
            (length (finish b))
            (length point.restart.pre)
            point.restart.first.0
          ≡ first_from cmp target (point.restart.first ∷ point.restart.others)
    unfolding is_past_entries
    scan_at i r point =
        let p = point.restart in
        let tail = restart_bytes b.restarts ++ le_bytes 4 (length b.restarts % 2 ^ 32) in
        let scanned =
          scan_lem (length (finish b)) (finished_block b) cmp target p.pre tail
            (rebase p.first.0 p.encodes) point.split point.whole
            (omega (arith, point.whole, length-finish b)) in
        elim (Bool-cases (leb (length b.buf) (length p.pre))) [
          | inl past ↦
              let nothing : length p.rest ≡ 0 = ground (arith, past, point.whole) in
              let empty = Encodes-empty p.encodes nothing in cc
          | inr before ↦
              subst
                (λ (over : Bool).
                  (if over
                    then none
                    else scan_lower (finished_block b) cmp target (length (finish b)) (length p.pre)
                        p.first.0)
                  ≡ first_from cmp target (p.first ∷ p.others))
                before scanned
        ]

    abbrev from_restart : ℕ → Result (Option (Bytes × Bytes))
    from_restart i = restart_offset (finished_block b) i >>= λ offset.
        restarting_key_at (finished_block b) i >>= λ restart_key. ok (
          and_then restart_key
            (λ key. scan_lower (finished_block b) cmp target (length (finish b)) offset key))

    from_restart_lem :
        (i r : ℕ)
        → (point : Point b items i r)
        → from_restart i ≡ ok (first_from cmp target (point.restart.first ∷ point.restart.others))
    from_restart_lem i r point = rw (point.offset, point.key) (ap ok (scan_at i r point))

    at_start : from_restart 0 ≡ ok (first_from cmp target items)
    at_start =
        let (r, (e, restart)) =
          All-get (Restart b.buf b.last_key items) b.restarts 0 h.all
            (some_first b.restarts 0 h.leading) in
        let point = readable-Point 0 r e restart in
        let p = point.restart in
        let zeroth : r ≡ 0 = some-injective (sym e ∙ h.leading) in
        let nothing : length p.pre ≡ 0 =
          omega (arith, zeroth, p.offset, point.whole, small, length-finish b) in
        let contents : items ≡ p.first ∷ p.others =
          p.contents
          ∙ ap (λ (xs : List (Bytes × Bytes)). xs ++ p.first ∷ p.others)
              (Encodes-empty p.opening nothing) in
        from_restart_lem 0 r point ∙ ap (λ xs. ok (first_from cmp target xs)) (sym contents)

    after_smaller :
        (i : ℕ) (key : Bytes)
        → IsTransitive cmp
        → Ascending cmp items
        → i < length b.restarts
        → restarting_key_at (finished_block b) i ≡ ok (some key)
        → cmp target key ≡ Ordering.gt
        → from_restart i ≡ ok (first_from cmp target items)
    after_smaller i key trans up inside read greater =
        let (r, point) = at-Point i inside in
        let p = point.restart in
        let same : key ≡ p.first.0 = some-injective (ok-injective (sym read ∙ point.key)) in
        let skip =
          first_from-skip cmp target p.before p.first p.others trans
            (subst (Ascending cmp) p.contents up) (ap (cmp target) (sym same) ∙ greater) in
        from_restart_lem i r point
        ∙ ap ok (sym skip)
        ∙ ap (λ xs. ok (first_from cmp target xs)) (sym p.contents)

    -- The search over the restart points and the scan together find the first key that is not smaller.
    pub lower_bound_kv-first_from :
        IsTransitive cmp
        → Ascending cmp items
        → lower_bound_kv (finished_block b) cmp target ≡ ok (first_from cmp target items)
    unfolding lower_bound_kv
    lower_bound_kv-first_from trans up =
        let n = length b.restarts in
        let some_left : 0 < n = some_first b.restarts 0 h.leading in
        let (p, found, within, good) =
          search_lower_lem (finished_block b) cmp target n
            (λ i k. let (r, point) = at-Point i k in (point.restart.first.0, point.key)) n 0 n
            (omega arith) (omega arith) (omega arith) (inl refl) in
        let not_none : (n == 0) ≡ false = ground (arith, some_left) in
        rw (lower_bound_kv, found, not_none)
          (elim good [
            | inl zeroth ↦
                let i : min (p - 1) (n - 1) ≡ 0 = omega (arith, zeroth) in
                ap from_restart i ∙ at_start
            | inr (key, (read, greater)) ↦
                let i : min (p - 1) (n - 1) ≡ p - 1 = omega (arith, within) in
                ap from_restart i
                ∙ after_smaller (p - 1) key trans up (omega (arith, within, some_left)) read greater
          ])

-- In a block that was given entries with growing keys, at least one, lower_bound_kv finds the
-- first entry whose key is not smaller than the target, or nothing where there is none, and
-- lower_bound its value. The order is any whose greater-than is transitive; keys and values are
-- shorter than 2^32, and so is the block.
pub lower_bound_kv-add_all :
    (cmp : Compare) (target : Bytes) (item : Bytes × Bytes) (items : List (Bytes × Bytes))
    (b : BlockBuilder)
    → IsTransitive cmp
    → Ascending cmp (item ∷ items)
    → AreU32 (item ∷ items)
    → add_all Block.new (item ∷ items) ≡ ok b
    → length (finish b) < 2 ^ 32
    → (block : Block) × (open_block (finish b) ≡ ok block)
      × (lower_bound_kv block cmp target ≡ ok (first_from cmp target (item ∷ items)))
      × (lower_bound block cmp target
          ≡ ok (option_map (λ kv. kv.1) (first_from cmp target (item ∷ items))))
lower_bound_kv-add_all cmp target item items b trans up u built small =
    let found =
      lower_bound_kv-first_from b (item ∷ items) (add_all-HasRestarts item items b u built) small
        cmp target trans up in
    (
      finished_block b,
      open_block-finish b (omega (arith, small, length-finish b)),
      found,
      lower_bound_lem (finished_block b) cmp target
          ∙ ap (λ r. r >>= λ found. ok (option_map (λ kv. kv.1) found)) found,
    )
