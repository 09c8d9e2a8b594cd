-- ===== src/TableCache/Capacity.antt =====
-- The size of the cache of src/table_cache.rs when no two calls of `get` overlap.
use mulan_lsm.Prelude.{
  ℕ, ◌<◌, ◌≤◌, arith, ◌≡◌, refl, ◌∙◌, List, [], ◌∷◌, length, leb, leb→le, ◌==◌, Bool-cases,
  Option-cases, true, none, some, Result, Result-cases, inl, inr,
}
use mulan_lsm.FileMeta.{FileNumber}
use mulan_lsm.TableCache.{
  find, CacheInner, with_capacity, touch, drop_front, pop_oldest, insert_opened, get, evict,
}
use mulan_lsm.TableCache.Listing.{
  holds, holds-find, IsMatched, touch-IsMatched, evict-IsMatched, push-IsMatched, length-remove,
  drop_front-Room,
}

pub data Call : Type 0 where
  got evicted : FileNumber → Call

module _ {R : Type 0} where
  -- Calls one after another.
  unfoldable pub run : (FileNumber → Result R) → List Call → CacheInner R → CacheInner R
  run opens [] c = c
  run opens (got number ∷ calls) c = run opens calls (get opens number c).1
  run opens (evicted number ∷ calls) c = run opens calls (evict number c)

  holds_found :
      (entries : List (FileNumber × R)) (number : FileNumber) (reader : R)
      → find entries number ≡ some reader
      → holds entries number ≡ true
  holds_found [] number reader h = cc
  holds_found ((n, r) ∷ rest) number reader h = ground (arith, h, holds_found rest number reader)

  -- The order lists the cached numbers, and the cache is within this capacity.
  record IsTidy (capacity : ℕ) (c : CacheInner R) : Type 0 where
    matched : IsMatched c.entries c.order
    bounded : length c.entries ≤ c.capacity
    fixed : c.capacity ≡ capacity

  insert_opened-IsTidy :
      (capacity : ℕ) (c : CacheInner R) (number : FileNumber) (reader : R)
      → IsTidy capacity c
      → 0 < c.capacity
      → find c.entries number ≡ none
      → IsTidy capacity (insert_opened number reader c)
  unfolding insert_opened pop_oldest
  insert_opened-IsTidy capacity c number reader t positive missing =
      let absent = holds-find number c.entries missing in
      elim (Bool-cases (leb c.capacity (length c.entries))) [
        | inl full ↦
            let enough : c.capacity ≤ length c.entries = leb→le _ _ full in
            let room =
              drop_front-Room c.order c number t.matched absent (omega (arith, enough, positive)) in
            let left = drop_front c.order c in
            rw (insert_opened, full)
              (record {
                matched =
                    push-IsMatched left.entries left.order number reader room.matched room.absent;
                bounded = omega (
                  arith,
                  length-remove number left.entries,
                  room.smaller,
                  room.capacity,
                  t.bounded,
                );
                fixed = room.capacity ∙ t.fixed;
              })
        | inr spare ↦
            let less : length c.entries < c.capacity = ground (arith, spare) in
            rw (insert_opened, spare)
              (record {
                matched = push-IsMatched c.entries c.order number reader t.matched absent;
                bounded = omega (arith, length-remove number c.entries, less);
                fixed = t.fixed;
              })
      ]

  get-IsTidy :
      (opens : FileNumber → Result R) (capacity : ℕ) (c : CacheInner R) (number : FileNumber)
      → IsTidy capacity c
      → IsTidy capacity (get opens number c).1
  unfolding get touch
  get-IsTidy opens capacity c number t = elim (Bool-cases (c.capacity == 0)) [
    | inl off ↦ rw (get, off) t
    | inr on ↦ elim (Option-cases (find c.entries number)) [
      | inr (reader, found) ↦
          rw (get, on, found)
            (record {
              matched =
                  touch-IsMatched c.entries c.order number t.matched
                    (holds_found c.entries number reader found);
              bounded = t.bounded;
              fixed = t.fixed;
            })
      | inl missing ↦ elim (Result-cases (opens number)) [
        | inl (reader, opened) ↦
            rw (get, on, missing, opened)
              (insert_opened-IsTidy capacity c number reader t (ground (arith, on)) missing)
        | inr (inl (e, failed)) ↦ rw (get, on, missing, failed) t
        | inr (inr failed) ↦ rw (get, on, missing, failed) t
      ]
    ]
  ]

  evict-IsTidy :
      (capacity : ℕ) (c : CacheInner R) (number : FileNumber)
      → IsTidy capacity c
      → IsTidy capacity (evict number c)
  unfolding evict
  evict-IsTidy capacity c number t = record {
    matched = evict-IsMatched c.entries c.order number t.matched;
    bounded = omega (arith, length-remove number c.entries, t.bounded);
    fixed = t.fixed;
  }

  run-IsTidy :
      (opens : FileNumber → Result R) (capacity : ℕ) (calls : List Call) (c : CacheInner R)
      → IsTidy capacity c
      → IsTidy capacity (run opens calls c)
  unfolding run
  run-IsTidy opens capacity [] c t = t
  run-IsTidy opens capacity (got number ∷ calls) c t =
      run-IsTidy opens capacity calls _ (get-IsTidy opens capacity c number t)
  run-IsTidy opens capacity (evicted number ∷ calls) c t =
      run-IsTidy opens capacity calls _ (evict-IsTidy capacity c number t)

  with_capacity-IsTidy : (capacity : ℕ) → IsTidy capacity (with_capacity capacity)
  unfolding with_capacity
  with_capacity-IsTidy capacity = record {
    matched = record { distinct = _; cached = λ n h. elim h [ ]; listed = λ n h. cc };
    bounded = omega arith;
    fixed = refl;
  }

  -- After any calls of get and evict one after another on a new cache, the cache holds no more
  -- tables than its capacity.
  pub run-with_capacity :
      (opens : FileNumber → Result R) (capacity : ℕ) (calls : List Call)
      → length (run opens calls (with_capacity capacity)).entries ≤ capacity
  run-with_capacity opens capacity calls =
      let t =
        run-IsTidy opens capacity calls (with_capacity capacity) (with_capacity-IsTidy capacity) in
      omega (arith, t.bounded, t.fixed)
