-- ===== src/TableCache/Steps.antt =====
-- The locked sections of src/table_cache.rs in any order that threads may run them in, and what holds
-- behind each.
use mulan_lsm.Prelude.{
  ℕ, arith, ◌≡◌, ◌≢◌, refl, sym, ap, ◌∙◌, List, [], ◌∷◌, length, leb, ◌==◌, ==_iff, Bool-cases,
  Option-cases, some, some_eq, Result, ok, Result-cases, inl, inr,
}
use mulan_lsm.FileMeta.{FileNumber}
use mulan_lsm.TableCache.{
  find, remove, CacheInner, with_capacity, touch, drop_front, pop_oldest, insert_opened, get, evict,
}

module _ {R : Type 0} (opens : FileNumber → Result R) where
  -- One locked section: the hit of a lookup, the insertion of a table that was opened at any earlier
  -- time, or an eviction.
  pub data Step : CacheInner R → CacheInner R → Type 0 where
    hit : (number : FileNumber) (c : CacheInner R) → Step c (touch number c)
    filled :
        (number : FileNumber) (reader : R) (c : CacheInner R)
        → opens number ≡ ok reader
        → Step c (insert_opened number reader c)
    evicted : (number : FileNumber) (c : CacheInner R) → Step c (evict number c)

  pub data Reachable : ℕ → CacheInner R → Type 0 where
    fresh : (capacity : ℕ) → Reachable capacity (with_capacity capacity)
    next :
        {capacity : ℕ} {c c' : CacheInner R}
        → Reachable capacity c
        → Step c c'
        → Reachable capacity c'

  -- What is cached is what its file holds.
  abbrev IsSound : List (FileNumber × R) → Type 0
  IsSound entries =
      (number : FileNumber) (reader : R)
      → find entries number ≡ some reader
      → opens number ≡ ok reader

  find-remove :
      (entries : List (FileNumber × R)) (old number : FileNumber) (reader : R)
      → find (remove old entries) number ≡ some reader
      → (find entries number ≡ some reader) × (old ≢ number)
  find-remove [] old number reader h = cc
  find-remove ((n, r) ∷ rest) old number reader h = elim (Bool-cases (n == old)) [
    | inl gone ↦ ground (arith, gone, find-remove rest old number reader)
    | inr stays ↦ elim (Bool-cases (n == number)) [
      | inl here ↦ ground (arith, h, stays, here)
      | inr later ↦ ground (arith, h, stays, later, find-remove rest old number reader)
    ]
  ]

  remove-IsSound :
      (old : FileNumber) (entries : List (FileNumber × R))
      → IsSound entries
      → IsSound (remove old entries)
  remove-IsSound old entries sound number reader h =
      sound number reader (find-remove entries old number reader h).0

  cons-IsSound :
      (n : FileNumber) (r : R) (entries : List (FileNumber × R))
      → opens n ≡ ok r
      → IsSound entries
      → IsSound ((n, r) ∷ entries)
  cons-IsSound n r entries opened sound number reader h = elim (Bool-cases (n == number)) [
    | inl here ↦
        let same : n ≡ number = (==_iff n number).0 here in
        let found : r ≡ reader = some_eq (rw (find, here) at h) in
        ap opens (sym same) ∙ opened ∙ ap ok found
    | inr later ↦ sound number reader (rw (find, later) at h)
  ]

  drop_front-IsSound :
      (order : List FileNumber) (c : CacheInner R)
      → IsSound c.entries
      → IsSound (drop_front order c).entries
  unfolding drop_front
  drop_front-IsSound [] c sound = sound
  drop_front-IsSound (old ∷ rest) c sound = remove-IsSound old c.entries sound

  pop_oldest-IsSound : (c : CacheInner R) → IsSound c.entries → IsSound (pop_oldest c).entries
  unfolding pop_oldest
  pop_oldest-IsSound c sound = drop_front-IsSound c.order c sound

  insert_opened-IsSound :
      (number : FileNumber) (reader : R) (c : CacheInner R)
      → opens number ≡ ok reader
      → IsSound c.entries
      → IsSound (insert_opened number reader c).entries
  unfolding insert_opened
  insert_opened-IsSound number reader c opened sound =
      elim (Bool-cases (leb c.capacity (length c.entries))) [
        | inl full ↦
            rw (insert_opened, full)
              (cons-IsSound number reader _ opened
                (remove-IsSound number (pop_oldest c).entries (pop_oldest-IsSound c sound)))
        | inr room ↦
            rw (insert_opened, room)
              (cons-IsSound number reader _ opened (remove-IsSound number c.entries sound))
      ]

  Step-IsSound : {c c' : CacheInner R} → Step c c' → IsSound c.entries → IsSound c'.entries
  unfolding touch evict
  Step-IsSound (hit number c) sound = sound
  Step-IsSound (filled number reader c opened) sound =
      insert_opened-IsSound number reader c opened sound
  Step-IsSound (evicted number c) sound = remove-IsSound number c.entries sound

  Reachable-IsSound : {capacity : ℕ} {c : CacheInner R} → Reachable capacity c → IsSound c.entries
  unfolding with_capacity
  Reachable-IsSound (fresh capacity) number reader h = cc
  Reachable-IsSound (next before step) number reader h =
      Step-IsSound step (Reachable-IsSound before) number reader h

  -- After any sequence of hits, insertions of tables that were opened and evictions, in whatever
  -- order threads run these locked sections, get returns what opening the table returns, errors
  -- included, and leaves a cache that such a sequence can leave. Opening is a function of the
  -- table's number.
  pub get_transparent :
      (capacity : ℕ) (c : CacheInner R) (number : FileNumber)
      → Reachable capacity c
      → ((get opens number c).0 ≡ opens number) × Reachable capacity (get opens number c).1
  unfolding get
  get_transparent capacity c number r = elim (Bool-cases (c.capacity == 0)) [
    | inl off ↦ rw (get, off) (refl, r)
    | inr on ↦ elim (Option-cases (find c.entries number)) [
      | inr (reader, hit_it) ↦
          rw (get, on, hit_it)
            (sym (Reachable-IsSound r number reader hit_it), next r (hit number c))
      | inl missing ↦ elim (Result-cases (opens number)) [
        | inl (reader, opened) ↦
            rw (get, on, missing, opened) (refl, next r (filled number reader c opened))
        | inr (inl (e, failed)) ↦ rw (get, on, missing, failed) (refl, r)
        | inr (inr failed) ↦ rw (get, on, missing, failed) (refl, r)
      ]
    ]
  ]
