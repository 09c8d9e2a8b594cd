-- ===== src/TableCache.antt =====
-- src/table_cache.rs: the cache of open tables. A `HashMap` is an association list; opening a table is
-- a parameter, a function of its number, since a table's file does not change once it is written.
-- `get` locks twice, around the lookup and around the insertion, so these are operations of their own.
pub mod Steps
pub mod Listing
pub mod Capacity
mod Tests
use mulan_lsm.Prelude.{
  ℕ, List, [], ◌∷◌, ◌++◌, length, filter, not, leb, ◌==◌, if◌then◌else◌, Bool, true, false, Option,
  none, some, Result, ok, err, panic,
}
use mulan_lsm.FileMeta.{FileNumber}

abbrev pub default_cache_capacity : ℕ
default_cache_capacity = 100

module _ {R : Type 0} where
  abbrev pub find : List (FileNumber × R) → FileNumber → Option R
  find [] number = none
  find ((n, r) ∷ rest) number = if n == number then some r else find rest number

  abbrev pub remove : FileNumber → List (FileNumber × R) → List (FileNumber × R)
  remove number [] = []
  remove number ((n, r) ∷ rest) =
      if n == number then remove number rest else (n, r) ∷ remove number rest

-- `order.retain(|n| *n != number)`
abbrev pub forget : FileNumber → List FileNumber → List FileNumber
forget number = filter (λ n. not (n == number))

pub record CacheInner (R : Type 0) : Type 0 where
  pub entries : List (FileNumber × R)
  pub order : List FileNumber
  pub capacity : ℕ

module _ {R : Type 0} where
  unfoldable pub with_capacity : ℕ → CacheInner R
  with_capacity capacity = record { entries = []; order = []; capacity = capacity }

  -- A hit moves the number to the back of the order.
  unfoldable pub touch : FileNumber → CacheInner R → CacheInner R
  touch number c = record c { order = forget number c.order ++ number ∷ [] }

  -- The entry in front of the order goes.
  unfoldable pub drop_front : List FileNumber → CacheInner R → CacheInner R
  drop_front [] c = c
  drop_front (old ∷ rest) c = record c { entries = remove old c.entries; order = rest }

  unfoldable pub pop_oldest : CacheInner R → CacheInner R
  pop_oldest c = drop_front c.order c

  -- The second lock of `get`: makes room, and inserts what was opened.
  unfoldable pub insert_opened : FileNumber → R → CacheInner R → CacheInner R
  insert_opened number reader c =
      let room = if leb c.capacity (length c.entries) then pop_oldest c else c in
      record room {
        entries = (number, reader) ∷ remove number room.entries;
        order = room.order ++ number ∷ [];
      }

  -- `get`, when no other call comes between its locks.
  unfoldable pub get : (FileNumber → Result R) → FileNumber → CacheInner R → Result R × CacheInner R
  get opens number c = if c.capacity == 0 then (opens number, c) else elim (find c.entries number) [
    | some reader ↦ (ok reader, touch number c)
    | none ↦ elim (opens number) [
      | ok reader ↦ (ok reader, insert_opened number reader c)
      | err e ↦ (err e, c)
      | panic ↦ (panic, c)
    ]
  ]

  unfoldable pub evict : FileNumber → CacheInner R → CacheInner R
  evict number c = record c { entries = remove number c.entries; order = forget number c.order }
