-- ===== src/TableCache/Tests.antt =====
-- The theorems about src/table_cache.rs at a cache of two tables.
use mulan_lsm.Prelude.{ℕ, ◌*◌, ◌≤◌, ◌≡◌, refl, List, [], ◌∷◌, length, Result, ok}
use mulan_lsm.FileMeta.{FileNumber}
use mulan_lsm.TableCache.{CacheInner, with_capacity, insert_opened, get}
use mulan_lsm.TableCache.Steps.{Reachable, fresh, next, filled, get_transparent}
use mulan_lsm.TableCache.Capacity.{Call, got, evicted, run, run-with_capacity}

-- What a table holds is ten times its number.
abbrev tenfold : FileNumber → Result ℕ
tenfold number = ok (number * 10)

abbrev one_table : CacheInner ℕ
unfolding insert_opened with_capacity
one_table = insert_opened 3 30 (with_capacity 2)

one_table-Reachable : Reachable tenfold 2 one_table
unfolding insert_opened with_capacity
one_table-Reachable = next (fresh 2) (filled 3 30 (with_capacity 2) refl)

get_transparent_example :
    ((get tenfold 3 one_table).0 ≡ tenfold 3) × Reachable tenfold 2 (get tenfold 3 one_table).1
get_transparent_example = get_transparent tenfold 2 one_table 3 one_table-Reachable

abbrev calls : List Call
calls = got 1 ∷ got 2 ∷ got 1 ∷ got 3 ∷ evicted 2 ∷ got 4 ∷ []

run-with_capacity_example : length (run tenfold calls (with_capacity 2)).entries ≤ 2
run-with_capacity_example = run-with_capacity tenfold 2 calls
