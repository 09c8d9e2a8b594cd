-- ===== src/Memtable/Writes.antt =====
-- Writes of src/memtable.rs: what a new version changes, and that the table stays in order.
use mathlib.Core.Path.{subst}
use Prim.Native.Nat.{Ordering}
use mulan_lsm.Prelude.{
  ℕ, arith, ◌+◌, ◌%◌, ◌^◌, ◌<◌, ◌≤◌, ◌≡◌, refl, sym, ap, ◌∙◌, leb, List, [], ◌∷◌, ◌&&◌,
  if◌then◌else◌, true, false, Bool-cases, Option, some, ok, All, ◌⊎◌, inl, inr,
}
use mulan_lsm.Prelude.Bytes.{Bytes, bytes_eq, cmp_bytes}
use mulan_lsm.Prelude.Compare.{is_lt, reverse, cmp_bytes-IsTotalOrder, bytes_eq→eq}
use mulan_lsm.InternalKey
use mulan_lsm.InternalKey.{InternalKey, ValueType, as_u8}
use mulan_lsm.Reads.{Entry, visible, Before, IsOrdered}
use mulan_lsm.Reads.Sorted.{bytes_eq_ne, cmp_bytes_irrefl}
use mulan_lsm.Memtable.{
  SkipLists, IsOrderedList, insert_before, MemTable, with_initial_sequence, put, delete, apply,
  get_entry,
}
use mulan_lsm.Memtable.Gets.{get_entry-visible}

-- Every version is older than `seq`.
abbrev pub AreOlder : ℕ → List Entry → Type 0
AreOlder seq = All (λ x. x.0.seq < seq)

-- Of an entry and a newer key one stands before the other.
front_or_behind :
    (x : Entry) (ik : InternalKey) (value : Bytes)
    → x.0.seq < ik.seq
    → ((is_lt (InternalKey.cmp x.0 ik) ≡ true) × (cmp_bytes x.0.user_key ik.user_key ≡ Ordering.lt))
      ⊎ ((is_lt (InternalKey.cmp x.0 ik) ≡ false) × Before (ik, value) x)
unfolding InternalKey.cmp
front_or_behind x ik value newer = by_order (cmp_bytes x.0.user_key ik.user_key) refl
  where
    by_order :
        (o : Ordering)
        → cmp_bytes x.0.user_key ik.user_key ≡ o
        → ((is_lt (InternalKey.cmp x.0 ik) ≡ true)
            × (cmp_bytes x.0.user_key ik.user_key ≡ Ordering.lt))
          ⊎ ((is_lt (InternalKey.cmp x.0 ik) ≡ false) × Before (ik, value) x)
    by_order Ordering.lt e = inl (rw e refl, e)
    by_order Ordering.gt e =
        inr (rw e refl, inl (cmp_bytes-IsTotalOrder.flip x.0.user_key ik.user_key ∙ ap reverse e))
    by_order Ordering.eq e = inr (
      rw e (ground (arith, newer)),
      inr (sym (cmp_bytes-IsTotalOrder.same x.0.user_key ik.user_key e), newer),
    )

Before-trans : (x y z : Entry) → Before x y → Before y z → Before x z
Before-trans x y z (inl h) (inl k) =
    inl (cmp_bytes-IsTotalOrder.trans x.0.user_key y.0.user_key z.0.user_key h k)
Before-trans x y z (inl h) (inr (e, k)) = inl (rw (sym e) h)
Before-trans x y z (inr (e, h)) (inl k) = inl (rw e k)
Before-trans x y z (inr (e, h)) (inr (f, k)) = inr (e ∙ f, omega (arith, h, k))

All-Before : (x y : Entry) (zs : List Entry) → Before x y → All (Before y) zs → All (Before x) zs
All-Before x y [] h k = k
All-Before x y (z ∷ zs) h k = (Before-trans x y z h k.0, All-Before x y zs h k.1)

All-insert_before :
    (P : Entry → Type 0) (ik : InternalKey) (value : Bytes) (xs : List Entry)
    → P (ik, value)
    → All P xs
    → All P (insert_before ik value xs)
unfolding insert_before
All-insert_before P ik value [] new h = (new, h)
All-insert_before P ik value (x ∷ xs) new h = elim (Bool-cases (is_lt (InternalKey.cmp x.0 ik))) [
  | inl front ↦ rw front (h.0, All-insert_before P ik value xs new h.1)
  | inr behind ↦ rw behind (new, h)
]

insert_before-IsOrdered :
    (ik : InternalKey) (value : Bytes) (xs : List Entry)
    → IsOrdered xs
    → AreOlder ik.seq xs
    → IsOrdered (insert_before ik value xs)
unfolding insert_before
insert_before-IsOrdered ik value [] ord older = (_, _)
insert_before-IsOrdered ik value (x ∷ xs) ord older = elim (front_or_behind x ik value older.0) [
  | inl (front, less) ↦ rw front (
    All-insert_before (Before x) ik value xs (inl less) ord.0,
    insert_before-IsOrdered ik value xs ord.1 older.1,
  )
  | inr (behind, before) ↦ rw behind ((before, All-Before (ik, value) x xs before ord.0), ord)
]

-- What a read finds once the version is there.
abbrev pub with_version :
    InternalKey → Bytes → ℕ → Bytes → Option (ValueType × Bytes) → Option (ValueType × Bytes)
with_version ik value snapshot key found =
    if bytes_eq ik.user_key key && leb ik.seq snapshot then some (ik.vtype, value) else found

visible-insert_before :
    (ik : InternalKey) (value : Bytes) (snapshot : ℕ) (key : Bytes) (xs : List Entry)
    → AreOlder ik.seq xs
    → visible snapshot key (insert_before ik value xs)
      ≡ with_version ik value snapshot key (visible snapshot key xs)
unfolding insert_before
visible-insert_before ik value snapshot key [] older = refl
visible-insert_before ik value snapshot key (x ∷ xs) older =
    elim (front_or_behind x ik value older.0) [
      | inr (behind, before) ↦ rw (insert_before, behind) refl
      | inl (front, less) ↦
          let ih = visible-insert_before ik value snapshot key xs older.1 in
          elim (Bool-cases (bytes_eq x.0.user_key key && leb x.0.seq snapshot)) [
            | inl hit ↦
                let own : bytes_eq x.0.user_key key ≡ true = ground (arith, hit) in
                let other : bytes_eq ik.user_key key ≡ false = bytes_eq_ne ik.user_key key (λ e.
                  cmp_bytes_irrefl x.0.user_key ik.user_key less
                    (bytes_eq→eq x.0.user_key key own ∙ sym e)) in
                rw (insert_before, front, visible, hit, other) refl
            | inr miss ↦ rw (insert_before, front, visible, miss) ih
          ]
    ]

-- The versions are in order, and the counter of sequence numbers is not behind any of them.
pub record IsMemTable (S : SkipLists) (m : MemTable S) : Type 0 where
  pub ordered : IsOrdered (S.iter m.skiplist)
  pub numbered : All (λ x. x.0.seq ≤ m.seq) (S.iter m.skiplist)

module _ (S : SkipLists) (laws : IsOrderedList S) where
  AreOlder-next : (seq : ℕ) (xs : List Entry) → All (λ x. x.0.seq ≤ seq) xs → AreOlder (seq + 1) xs
  AreOlder-next seq [] h = h
  AreOlder-next seq (x ∷ xs) h = (omega (arith, h.0), AreOlder-next seq xs h.1)

  next_seq : (seq : ℕ) → seq + 1 < 2 ^ 64 → (seq + 1) % 2 ^ 64 ≡ seq + 1
  next_seq seq h = ground (arith, h)

  -- A newer version, inserted.
  module _ (m m' : MemTable S) (ik : InternalKey) (value : Bytes) (ok_before : IsMemTable S m)
      (newer : m.seq < ik.seq) (skiplist : m'.skiplist ≡ S.insert ik value m.skiplist)
      (counter : m'.seq ≡ ik.seq) where
    older : AreOlder ik.seq (S.iter m.skiplist)
    older = All-weaken (S.iter m.skiplist) ok_before.numbered
      where
        All-weaken : (xs : List Entry) → All (λ x. x.0.seq ≤ m.seq) xs → AreOlder ik.seq xs
        All-weaken [] h = h
        All-weaken (x ∷ xs) h = (omega (arith, h.0, newer), All-weaken xs h.1)

    inserted : S.iter m'.skiplist ≡ insert_before ik value (S.iter m.skiplist)
    inserted = ap S.iter skiplist ∙ laws.iter_insert ik value m.skiplist

    insert-IsMemTable : IsMemTable S m'
    insert-IsMemTable = record {
      ordered = rw inserted (insert_before-IsOrdered ik value _ ok_before.ordered older);
      numbered =
          rw (inserted, counter)
            (All-insert_before (λ x. x.0.seq ≤ ik.seq) ik value (S.iter m.skiplist) (omega arith)
              (All-relax (S.iter m.skiplist) older));
    }
      where
        All-relax : (xs : List Entry) → AreOlder ik.seq xs → All (λ x. x.0.seq ≤ ik.seq) xs
        All-relax [] h = h
        All-relax (x ∷ xs) h = (omega (arith, h.0), All-relax xs h.1)

    insert-get_entry :
        (key : Bytes) (snapshot : ℕ)
        → get_entry S m' key snapshot ≡ (
            if bytes_eq ik.user_key key && leb ik.seq snapshot
            then ok (some (ik.vtype, value))
            else get_entry S m key snapshot)
    insert-get_entry key snapshot =
        let after =
          get_entry-visible S laws m' key snapshot insert-IsMemTable.ordered
          ∙ ap (λ xs. ok (visible snapshot key xs)) inserted
          ∙ ap ok (visible-insert_before ik value snapshot key (S.iter m.skiplist) older) in
        elim (Bool-cases (bytes_eq ik.user_key key && leb ik.seq snapshot)) [
          | inl hit ↦ rw hit (after ∙ rw hit refl)
          | inr miss ↦ rw miss (
              after
              ∙ rw miss refl
              ∙ sym (get_entry-visible S laws m key snapshot ok_before.ordered))
        ]

  -- An empty memtable has its versions in order and none newer than its counter, and put, delete
  -- and an apply of a newer sequence number leave it so, while the counter has room in 64 bits.
  pub writes-IsMemTable :
      (seq : ℕ) (m : MemTable S) (vtype : ValueType) (new_seq : ℕ) (key value : Bytes)
      → IsMemTable S m
      → m.seq + 1 < 2 ^ 64
      → m.seq < new_seq
      → IsMemTable S (with_initial_sequence S seq)
        × (IsMemTable S (put S key value m)
            × (IsMemTable S (delete S key m) × IsMemTable S (apply S vtype new_seq key value m)))
  unfolding with_initial_sequence put delete apply
  writes-IsMemTable seq m vtype new_seq key value fine room newer = (
    record { ordered = rw laws.iter_empty _; numbered = rw laws.iter_empty _ },
    (
      insert-IsMemTable m (put S key value m) _ value fine (omega (arith, next_seq m.seq room)) refl
          refl,
      (
        insert-IsMemTable m (delete S key m) _ [] fine (omega (arith, next_seq m.seq room)) refl
            refl,
        insert-IsMemTable m (apply S vtype new_seq key value m) _ value fine newer refl
            (ground (arith, newer)),
      ),
    ),
  )

  -- After a put, get_entry finds the new value where it asks for this key at a snapshot that is
  -- not before the new sequence number, and what it found before everywhere else. The memtable is
  -- in order, and the counter has room in 64 bits.
  pub put-get_entry :
      (m : MemTable S) (k value key : Bytes) (snapshot : ℕ)
      → IsMemTable S m
      → m.seq + 1 < 2 ^ 64
      → get_entry S (put S k value m) key snapshot ≡ (
          if bytes_eq k key && leb (m.seq + 1) snapshot
          then ok (some (ValueType.put, value))
          else get_entry S m key snapshot)
  unfolding put
  put-get_entry m k value key snapshot fine room =
      subst
        (λ (n : ℕ). get_entry S (put S k value m) key snapshot ≡ (
          if bytes_eq k key && leb n snapshot
          then ok (some (ValueType.put, value))
          else get_entry S m key snapshot))
        (next_seq m.seq room)
        (insert-get_entry m (put S k value m) _ value fine (omega (arith, next_seq m.seq room)) refl
          refl key snapshot)

  -- After a delete, get_entry finds a deletion where it asks for this key at a snapshot that is
  -- not before the new sequence number, and what it found before everywhere else. The memtable is
  -- in order, and the counter has room in 64 bits.
  pub delete-get_entry :
      (m : MemTable S) (k key : Bytes) (snapshot : ℕ)
      → IsMemTable S m
      → m.seq + 1 < 2 ^ 64
      → get_entry S (delete S k m) key snapshot ≡ (
          if bytes_eq k key && leb (m.seq + 1) snapshot
          then ok (some (ValueType.delete, []))
          else get_entry S m key snapshot)
  unfolding delete
  delete-get_entry m k key snapshot fine room =
      subst
        (λ (n : ℕ). get_entry S (delete S k m) key snapshot ≡ (
          if bytes_eq k key && leb n snapshot
          then ok (some (ValueType.delete, []))
          else get_entry S m key snapshot))
        (next_seq m.seq room)
        (insert-get_entry m (delete S k m) _ [] fine (omega (arith, next_seq m.seq room)) refl refl
          key snapshot)
