-- ===== src/Bloom/Tests.antt =====
-- The theorems about src/bloom.rs at concrete filters.
use mulan_lsm.Prelude.{arith, ◌≡◌, [], ◌∷◌, ◌++◌, foldl, replicate, true, some}
use mulan_lsm.Bloom.{BloomFilter, insert, may_contain, finish, from_bytes}
use mulan_lsm.Bloom.Members.{IsReady, no_false_negatives}

abbrev eight_bytes : BloomFilter
eight_bytes = record { bits = replicate 8 0; k = 3 }

eight_bytes-IsReady : IsReady eight_bytes
eight_bytes-IsReady = record { allocated = omega arith; sized = omega arith; bytes = omega arith }

no_false_negatives_example :
    (g : BloomFilter) × (from_bytes
        (finish (foldl insert eight_bytes ((5 ∷ []) ∷ [] ++ (1 ∷ 2 ∷ []) ∷ [])))
      ≡ some g)
    × (may_contain g (1 ∷ 2 ∷ []) ≡ true)
no_false_negatives_example =
    no_false_negatives eight_bytes ((5 ∷ []) ∷ []) (1 ∷ 2 ∷ []) [] eight_bytes-IsReady
