-- ===== src/Iterator/Scan.antt =====
-- `DBIter` of src/iterator.rs over a merge that gives the encodings of a list of entries.
use mulan_lsm.Prelude.{
  ℕ, zero, suc, arith, ◌<◌, ◌≤◌, ◌≡◌, refl, sym, ap, ◌∙◌, ltb, List, [], ◌∷◌, map, length,
  if◌then◌else◌, Option, none, some, All, Bool-cases, ◌⊎◌, inl, inr,
}
use mulan_lsm.Prelude.Bytes.{Bytes, bytes_eq, IsU64}
use mulan_lsm.InternalKey.{ValueType}
use mulan_lsm.InternalKey.Codec.{
  user_key_of_internal_key-encode, seq_of_internal_key-encode, vtype_of_internal_key-encode,
}
use mulan_lsm.Reads.{Entry, bytes_of}
use mulan_lsm.Iterator.{
  Item, MergingIterator, peek, next, DbIter, skip_same, visit, advance_loop, advance, db_iter,
  db_next,
}
use mulan_lsm.Iterator.Streams.{Streams}
use mulan_lsm.Iterator.Shown.{shown, shown-other}

-- What calls of `next` give, until nothing comes or there were `n`.
unfoldable pub collect : ℕ → ℕ → DbIter → List (Bytes × Bytes)
collect zero fuel it = []
collect (suc n) fuel it =
    let (item, rest) = db_next fuel it in
    let more = collect n fuel rest in elim item [ none ↦ [] | some kv ↦ kv ∷ more ]

-- Sequence numbers of 64 bits.
abbrev pub AreU64 : List Entry → Type 0
AreU64 = All (λ x. IsU64 x.0.seq)

-- The entries behind those of a user key.
abbrev pub drop_key : Bytes → List Entry → List Entry
drop_key key [] = []
drop_key key (x ∷ xs) = if bytes_eq x.0.user_key key then drop_key key xs else x ∷ xs

abbrev Gives : MergingIterator → List Entry → Type 0
Gives m entries = Streams m (map bytes_of entries)

-- How a stream starts.
pub nothing_left : {m : MergingIterator} → Streams m [] → (next m ≡ (none, m)) × (peek m ≡ none)
nothing_left (Streams.done e k) = (e, k)

abbrev Starts : MergingIterator → Item → List Item → Type 0
Starts m x xs =
    (m' : MergingIterator) × ((next m ≡ (some x, m')) × ((peek m ≡ some x) × Streams m' xs))

pub starts : {m : MergingIterator} {x : Item} {xs : List Item} → Streams m (x ∷ xs) → Starts m x xs
starts (Streams.more {m' = m'} e k s) = (m', (e, (k, s)))

pub skip_same_lem :
    (fuel : ℕ) (key : Bytes) (m : MergingIterator) (entries : List Entry)
    → Gives m entries
    → length entries ≤ fuel
    → Gives (skip_same fuel key m) (drop_key key entries)
unfolding skip_same
skip_same_lem zero key m [] s h = s
skip_same_lem zero key m (x ∷ xs) s h = absurd (omega (arith, h))
skip_same_lem (suc fuel) key m [] s h = rw (skip_same, (nothing_left s).1) s
skip_same_lem (suc fuel) key m (x ∷ xs) s h =
    let (m', (gives, (shows, rest))) = starts s in
    elim (Bool-cases (bytes_eq x.0.user_key key)) [
      | inl same ↦
          rw (skip_same, shows, user_key_of_internal_key-encode x.0, same, gives)
            (skip_same_lem fuel key m' xs rest (omega (arith, h)))
      | inr other ↦ rw (skip_same, shows, user_key_of_internal_key-encode x.0, other) s
    ]

length-drop_key : (key : Bytes) (xs : List Entry) → length (drop_key key xs) ≤ length xs
length-drop_key key [] = omega arith
length-drop_key key (x ∷ xs) = elim (Bool-cases (bytes_eq x.0.user_key key)) [
  | inl same ↦ rw same (omega (arith, length-drop_key key xs))
  | inr other ↦ rw other (omega arith)
]

AreU64-drop_key : (key : Bytes) (xs : List Entry) → AreU64 xs → AreU64 (drop_key key xs)
AreU64-drop_key key [] h = h
AreU64-drop_key key (x ∷ xs) h = elim (Bool-cases (bytes_eq x.0.user_key key)) [
  | inl same ↦ rw same (AreU64-drop_key key xs h.1)
  | inr other ↦ rw other h
]

shown-drop_key :
    (snapshot : ℕ) (key : Bytes) (xs : List Entry)
    → shown snapshot (some key) xs ≡ shown snapshot none (drop_key key xs)
unfolding shown
shown-drop_key snapshot key [] = refl
shown-drop_key snapshot key (x ∷ xs) = elim (Bool-cases (bytes_eq x.0.user_key key)) [
  | inl same ↦ rw same (shown-drop_key snapshot key xs)
  | inr other ↦
      let stays : drop_key key (x ∷ xs) ≡ x ∷ xs = rw (drop_key, other) refl in
      shown-other snapshot (some key) x xs other ∙ ap (shown snapshot none) (sym stays)
]

-- A round of the loop finds the next pair that is shown, or that there is none.
pub record Found (fuel snapshot : ℕ) (m : MergingIterator) (entries : List Entry) : Type 0 where
  pub kv : Bytes × Bytes
  pub rest : MergingIterator
  pub behind : List Entry
  pub result : advance_loop fuel snapshot m ≡ (some kv, rest)
  pub gives : Gives rest behind
  pub shows : shown snapshot none entries ≡ kv ∷ shown snapshot none behind
  pub fewer : length behind < length entries
  pub fine : AreU64 behind

pub record Ended (fuel snapshot : ℕ) (m : MergingIterator) (entries : List Entry) : Type 0 where
  pub rest : MergingIterator
  pub result : advance_loop fuel snapshot m ≡ (none, rest)
  pub shows : shown snapshot none entries ≡ []

abbrev pub Advanced : ℕ → ℕ → MergingIterator → List Entry → Type 0
Advanced fuel snapshot m entries = Found fuel snapshot m entries ⊎ Ended fuel snapshot m entries

-- The round goes on with other entries, of which there are no more.
later :
    (fuel fuel' snapshot : ℕ) (m m' : MergingIterator) (entries entries' : List Entry)
    → advance_loop fuel snapshot m ≡ advance_loop fuel' snapshot m'
    → shown snapshot none entries ≡ shown snapshot none entries'
    → length entries' ≤ length entries
    → Advanced fuel' snapshot m' entries'
    → Advanced fuel snapshot m entries
later fuel fuel' snapshot m m' entries entries' same shows fewer (inl f) = inl (record {
  kv = f.kv;
  rest = f.rest;
  behind = f.behind;
  result = same ∙ f.result;
  gives = f.gives;
  shows = shows ∙ f.shows;
  fewer = omega (arith, f.fewer, fewer);
  fine = f.fine;
})
later fuel fuel' snapshot m m' entries entries' same shows fewer (inr f) =
    inr (record { rest = f.rest; result = same ∙ f.result; shows = shows ∙ f.shows })

put_or_delete : (t : ValueType) → (t ≡ ValueType.put) ⊎ (t ≡ ValueType.delete)
put_or_delete ValueType.put = inl refl
put_or_delete ValueType.delete = inr refl

pub advance_loop_lem :
    (fuel snapshot : ℕ) (m : MergingIterator) (entries : List Entry)
    → Gives m entries
    → AreU64 entries
    → length entries < fuel
    → Advanced fuel snapshot m entries
unfolding advance_loop visit shown
advance_loop_lem zero snapshot m entries s u h = absurd (omega (arith, h))
advance_loop_lem (suc fuel) snapshot m [] s u h = inr (record {
  rest = m;
  result = rw (advance_loop, (nothing_left s).0) (ap (λ r. (none, r.1)) (nothing_left s).0);
  shows = refl;
})
advance_loop_lem (suc fuel) snapshot m (x ∷ xs) s u h =
    let (m', (gives, (_, rest))) = starts s in
    let item : (next m).0 ≡ some (bytes_of x) = ap (λ r. r.0) gives in
    let onward : (next m).1 ≡ m' = ap (λ r. r.1) gives in
    let ik = x.0 in
    let seq = seq_of_internal_key-encode ik u.0 in
    let skipped = skip_same fuel ik.user_key m' in
    let behind = drop_key ik.user_key xs in
    let less = length-drop_key ik.user_key xs in
    let gives' = skip_same_lem fuel ik.user_key m' xs rest (omega (arith, h)) in
    elim (Bool-cases (ltb snapshot ik.seq)) [
      | inl late ↦
          later (suc fuel) fuel snapshot m m' (x ∷ xs) xs
            (rw (advance_loop, item, visit, seq, late, onward) refl) (rw late refl) (omega arith)
            (advance_loop_lem fuel snapshot m' xs rest u.1 (omega (arith, h)))
      | inr early ↦
          let vtype = vtype_of_internal_key-encode ik in
          let key = user_key_of_internal_key-encode ik in
          let same = shown-drop_key snapshot ik.user_key xs in
          elim (put_or_delete ik.vtype) [
            | inl put ↦ inl (record {
              kv = (ik.user_key, x.1);
              rest = skipped;
              behind = behind;
              result = rw (advance_loop, item, visit, seq, early, vtype, put, onward, key) refl;
              gives = gives';
              shows = rw (early, put) (ap (◌∷◌ (ik.user_key, x.1)) same);
              fewer = omega (arith, less);
              fine = AreU64-drop_key ik.user_key xs u.1;
            })
            | inr delete ↦
                later (suc fuel) fuel snapshot m skipped (x ∷ xs) behind
                  (rw (advance_loop, item, visit, seq, early, vtype, delete, onward, key) refl)
                  (rw (early, delete) same) (omega (arith, less))
                  (advance_loop_lem fuel snapshot skipped behind gives'
                    (AreU64-drop_key ik.user_key xs u.1) (omega (arith, h, less)))
          ]
    ]

-- An iterator whose pending pair and whose merge are those of a list of entries.
abbrev iter_of : ℕ → Option (Bytes × Bytes) × MergingIterator → DbIter
iter_of snapshot (pending, inner) = record {
  inner = inner;
  snapshot_seq = snapshot;
  pending = pending;
}

collect_lem :
    (n fuel snapshot : ℕ) (m : MergingIterator) (entries : List Entry)
    → Gives m entries
    → AreU64 entries
    → length entries < fuel
    → length entries < n
    → collect n fuel (iter_of snapshot (advance_loop fuel snapshot m)) ≡ shown snapshot none entries
unfolding collect db_next advance
collect_lem zero fuel snapshot m entries s u h k = absurd (omega (arith, k))
collect_lem (suc n) fuel snapshot m entries s u h k =
    elim (advance_loop_lem fuel snapshot m entries s u h) [
      | inl f ↦
          let fewer = f.fewer in
          rw (f.result, f.shows)
            (ap (◌∷◌ f.kv) (
              collect_lem n fuel snapshot f.rest f.behind f.gives f.fine (omega (arith, h, fewer))
                (omega (arith, k, fewer))))
      | inr f ↦ rw (f.result, f.shows) refl
    ]

-- A DBIter over a merge that gives the encodings of a sequence of versions, sorted or not, gives
-- what one pass over them shows: of each run of versions of a user key the first that the snapshot
-- sees, unless that is a deletion. Sequence numbers are of 64 bits, and the fuel and the count of
-- calls exceed the number of versions.
pub collect-shown :
    (n fuel snapshot : ℕ) (m : MergingIterator) (entries : List Entry)
    → Streams m (map bytes_of entries)
    → AreU64 entries
    → length entries < fuel
    → length entries < n
    → collect n fuel (db_iter fuel m snapshot) ≡ shown snapshot none entries
unfolding db_iter advance
collect-shown n fuel snapshot m entries s u h k = collect_lem n fuel snapshot m entries s u h k
