-- ===== src/Memtable/Gets.antt =====
-- Reads of src/memtable.rs: `get_entry` gives the newest version that the snapshot sees.
use Prim.Native.Nat.{Ordering}
use mulan_lsm.Prelude.{
  ℕ, arith, ◌<◌, ◌≤◌, ◌≡◌, ◌≢◌, refl, sym, ap, ◌∙◌, ltb, List, [], ◌∷◌, true, false, Bool-cases, ok,
  ◌⊎◌, inl, inr,
}
use mulan_lsm.Prelude.Bytes.{Bytes, bytes_eq, cmp_bytes}
use mulan_lsm.Prelude.Compare.{is_lt, reverse, cmp_bytes-IsTotalOrder, bytes_eq_self}
use mulan_lsm.InternalKey
use mulan_lsm.InternalKey.{InternalKey, ValueType, as_u8}
use mulan_lsm.Reads.{Entry, visible, IsOrdered}
use mulan_lsm.Reads.Sorted.{
  bytes_eq_ne, Before-absent, Before-less, visible-miss, visible-late, visible-hit,
}
use mulan_lsm.Memtable.{SkipLists, IsOrderedList, first_at_least, entry_of, MemTable, get_entry}

abbrev sentinel : Bytes → ℕ → InternalKey
sentinel key snapshot = record { user_key = key; seq = snapshot; vtype = ValueType.put }

-- An entry of a smaller key stands before the sentinel, one of a larger key behind it, and a version
-- of the key itself before it exactly when it is too new.
cmp_smaller :
    (x : InternalKey) (key : Bytes) (snapshot : ℕ)
    → cmp_bytes x.user_key key ≡ Ordering.lt
    → is_lt (InternalKey.cmp x (sentinel key snapshot)) ≡ true
unfolding InternalKey.cmp
cmp_smaller x key snapshot h = rw h refl

cmp_larger :
    (x : InternalKey) (key : Bytes) (snapshot : ℕ)
    → cmp_bytes x.user_key key ≡ Ordering.gt
    → is_lt (InternalKey.cmp x (sentinel key snapshot)) ≡ false
unfolding InternalKey.cmp
cmp_larger x key snapshot h = rw h refl

cmp_late :
    (x : InternalKey) (key : Bytes) (snapshot : ℕ)
    → x.user_key ≡ key
    → snapshot < x.seq
    → is_lt (InternalKey.cmp x (sentinel key snapshot)) ≡ true
unfolding InternalKey.cmp
cmp_late x key snapshot own late =
    let same : cmp_bytes x.user_key key ≡ Ordering.eq = rw own (cmp_bytes-IsTotalOrder.self key) in
    rw same (ground (arith, late))

cmp_seen :
    (x : InternalKey) (key : Bytes) (snapshot : ℕ)
    → x.user_key ≡ key
    → x.seq ≤ snapshot
    → is_lt (InternalKey.cmp x (sentinel key snapshot)) ≡ false
unfolding InternalKey.cmp
cmp_seen x key snapshot own seen =
    let same : cmp_bytes x.user_key key ≡ Ordering.eq = rw own (cmp_bytes-IsTotalOrder.self key) in
    rw same (ground (arith, seen))

key_cases :
    (a key : Bytes)
    → (a ≡ key) ⊎ ((cmp_bytes a key ≡ Ordering.lt) ⊎ (cmp_bytes a key ≡ Ordering.gt))
key_cases a key = by_order (cmp_bytes a key) refl
  where
    by_order :
        (o : Ordering)
        → cmp_bytes a key ≡ o
        → (a ≡ key) ⊎ ((cmp_bytes a key ≡ Ordering.lt) ⊎ (cmp_bytes a key ≡ Ordering.gt))
    by_order Ordering.eq e = inl (cmp_bytes-IsTotalOrder.same a key e)
    by_order Ordering.lt e = inr (inl e)
    by_order Ordering.gt e = inr (inr e)

pub first_at_least_lem :
    (key : Bytes) (snapshot : ℕ) (xs : List Entry)
    → IsOrdered xs
    → entry_of key (first_at_least (sentinel key snapshot) xs) ≡ visible snapshot key xs
unfolding first_at_least
first_at_least_lem key snapshot [] ord = refl
first_at_least_lem key snapshot (x ∷ xs) ord =
    let ih = first_at_least_lem key snapshot xs ord.1 in
    elim (key_cases x.0.user_key key) [
      | inl own ↦ elim (Bool-cases (ltb snapshot x.0.seq)) [
        | inl late ↦
            let after : snapshot < x.0.seq = ground (arith, late) in
            rw (first_at_least, cmp_late x.0 key snapshot own after)
              (ih ∙ sym (visible-late snapshot key x xs after))
        | inr early ↦
            let seen : x.0.seq ≤ snapshot = ground (arith, early) in
            let same : bytes_eq x.0.user_key key ≡ true = rw own (bytes_eq_self key) in
            rw (first_at_least, cmp_seen x.0 key snapshot own seen)
              (rw (entry_of, same) refl ∙ sym (visible-hit snapshot key x xs own seen))
      ]
      | inr (inl smaller) ↦
          let other : x.0.user_key ≢ key =
            λ e. ground (arith, e, smaller, cmp_bytes-IsTotalOrder.self key) in
          rw (first_at_least, cmp_smaller x.0 key snapshot smaller)
            (ih ∙ sym (visible-miss snapshot key x xs other))
      | inr (inr larger) ↦
          let less : cmp_bytes key x.0.user_key ≡ Ordering.lt =
            cmp_bytes-IsTotalOrder.flip x.0.user_key key ∙ ap reverse larger in
          let other : x.0.user_key ≢ key =
            λ e. ground (arith, e, larger, cmp_bytes-IsTotalOrder.self key) in
          rw (first_at_least, cmp_larger x.0 key snapshot larger)
            (rw (entry_of, bytes_eq_ne x.0.user_key key other) refl
              ∙ sym (Before-absent snapshot key (x ∷ xs) (less, Before-less key x xs less ord.0)))
    ]

-- Over an ordered list whose versions are sorted, get_entry finds the newest version of the key
-- that is not later than the snapshot, a deletion included, and nothing where there is none.
pub get_entry-visible :
    (S : SkipLists) (laws : IsOrderedList S) (m : MemTable S) (key : Bytes) (snapshot : ℕ)
    → IsOrdered (S.iter m.skiplist)
    → get_entry S m key snapshot ≡ ok (visible snapshot key (S.iter m.skiplist))
unfolding get_entry
get_entry-visible S laws m key snapshot ord =
    ap (λ found. ok (entry_of key found)) (laws.lower_bound_iter (sentinel key snapshot) m.skiplist)
    ∙ ap ok (first_at_least_lem key snapshot (S.iter m.skiplist) ord)
