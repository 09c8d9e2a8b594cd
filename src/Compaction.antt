-- ===== src/Compaction.antt =====
-- src/compaction.rs: which files a compaction takes, what it drops, and how it writes. The score is
-- an `f64`, so that its division and its comparison are parameters.
pub mod Base
pub mod Drop
pub mod Reads
pub mod Pick
pub mod Run
mod Tests
use Prim.Native.Nat.{Ordering}
use mulan_lsm.Prelude.{
  ℕ, zero, suc, ◌+◌, ◌-◌, ◌*◌, ◌^◌, List, [], ◌∷◌, ◌++◌, map, length, get_elem?, ltb, leb, ◌==◌,
  if◌then◌else◌, Bool, true, false, Option, none, some, Result, ok, err, panic, ◌>>=◌,
}
use mulan_lsm.Prelude.Bytes.{Bytes, cmp_bytes}
use mulan_lsm.Prelude.Compare.{is_lt}
use mulan_lsm.FileMeta.{FileNumber, FileMetaData}
use mulan_lsm.Version.{
  Version, VersionSet, num_levels, files_at, num_files, total_size, get_overlaps,
}

abbrev pub l0_compaction_trigger : ℕ
l0_compaction_trigger = 4

abbrev pub level0_stop_writes_trigger : ℕ
level0_stop_writes_trigger = 12

abbrev pub target_file_size : ℕ
target_file_size = 2 * 1024 * 1024

abbrev pub max_bytes_for_level_base : ℕ
max_bytes_for_level_base = 10 * 1024 * 1024

abbrev pub max_bytes_for_level_multiplier : ℕ
max_bytes_for_level_multiplier = 10

abbrev pub max_grandparent_overlap_bytes : ℕ
max_grandparent_overlap_bytes = 10 * target_file_size

-- No level of the program makes the power leave 64 bits.
unfoldable pub max_bytes_for_level : ℕ → ℕ
max_bytes_for_level level =
    if leb level 1
    then max_bytes_for_level_base
    else max_bytes_for_level_base * max_bytes_for_level_multiplier ^ (level - 1)

-- What `compaction_score` does with an `f64`: a quotient of two integers, `0.0` and `>`.
pub record Float : Type 1 where
  pub F : Type 0
  pub quotient : ℕ → ℕ → F
  pub zero_point : F
  pub above : F → F → Bool

module _ (float : Float) where
  -- A level's score, where it has one.
  unfoldable pub level_score : Version → ℕ → Result (Option float.F)
  level_score version zero = do
    n ← num_files version 0
    ok (some (float.quotient n l0_compaction_trigger))
  level_score version (suc level) = do
    size ← total_size version (suc level)
    ok (if size == 0 then none else some (float.quotient size (max_bytes_for_level (suc level))))

  abbrev pub is_better : Option (ℕ × float.F) → float.F → Bool
  is_better none score = true
  is_better (some (level, best)) score = float.above score best

  abbrev pub best_of : Option (ℕ × float.F) → ℕ → Option float.F → Option (ℕ × float.F)
  best_of best level none = best
  best_of best level (some score) =
      if float.above score float.zero_point
      then (if is_better best score then some (level, score) else best)
      else best

  -- `for level in level..level + rounds`
  unfoldable pub score_from : ℕ → ℕ → Version → Option (ℕ × float.F) → Result (Option (ℕ × float.F))
  score_from zero level version best = ok best
  score_from (suc rounds) level version best = do
    score ← level_score version level
    score_from rounds (level + 1) version (best_of best level score)

  unfoldable pub compaction_score : Version → Result (Option (ℕ × float.F))
  compaction_score version = score_from num_levels 0 version none

unfoldable pub level0_needs_slowdown : Version → Result Bool
level0_needs_slowdown version = do n ← num_files version 0; ok (leb level0_stop_writes_trigger n)

pub record Compaction : Type 0 where
  pub level : ℕ
  pub inputs0 : List FileMetaData
  pub inputs1 : List FileMetaData
  pub grandparents : List FileMetaData

abbrev pub last_of {ℓ} : {A : Type ℓ} → List A → Option A
last_of [] = none
last_of (x ∷ []) = some x
last_of (x ∷ y ∷ ys) = last_of (y ∷ ys)

abbrev pub first_of {ℓ} : {A : Type ℓ} → List A → Option A
first_of [] = none
first_of (x ∷ xs) = some x

unfoldable pub smallest_user_key : Compaction → Bytes
smallest_user_key c = elim (first_of c.inputs0) [
  | some f ↦ f.smallest.user_key
  | none ↦ elim (first_of c.inputs1) [ some f ↦ f.smallest.user_key | none ↦ [] ]
]

unfoldable pub largest_user_key : Compaction → Bytes
largest_user_key c = elim (last_of c.inputs0) [
  | some f ↦ f.largest.user_key
  | none ↦ elim (last_of c.inputs1) [ some f ↦ f.largest.user_key | none ↦ [] ]
]

abbrev pub is_empty {ℓ} : {A : Type ℓ} → List A → Bool
is_empty [] = true
is_empty (x ∷ xs) = false

-- `for level in level..level + rounds`
unfoldable pub is_base_from : ℕ → ℕ → Version → Bytes → Result Bool
is_base_from zero level version user_key = ok true
is_base_from (suc rounds) level version user_key = do
  overlaps ← get_overlaps version level user_key user_key
  if is_empty overlaps then is_base_from rounds (level + 1) version user_key else ok false

unfoldable pub is_base_level_for_user_key : Compaction → Version → Bytes → Result Bool
is_base_level_for_user_key c version user_key =
    is_base_from (num_levels - (c.level + 2)) (c.level + 2) version user_key

abbrev pub numbered : ℕ → List FileMetaData → List (ℕ × FileNumber)
numbered level = map (λ f. (level, f.number))

unfoldable pub input_file_numbers : Compaction → List (ℕ × FileNumber)
input_file_numbers c = numbered c.level c.inputs0 ++ numbered (c.level + 1) c.inputs1

-- `min()` and `max()` of user keys: the first of equal least ones, the last of equal greatest ones.
abbrev pub min_key : Bytes → List Bytes → Bytes
min_key key [] = key
min_key key (k ∷ ks) = min_key (if is_lt (cmp_bytes k key) then k else key) ks

abbrev pub max_key : Bytes → List Bytes → Bytes
max_key key [] = key
max_key key (k ∷ ks) = max_key (if is_lt (cmp_bytes k key) then key else k) ks

abbrev pub smallest_of : FileMetaData → List FileMetaData → Bytes
smallest_of f fs = min_key f.smallest.user_key (map (λ g. g.smallest.user_key) fs)

abbrev pub largest_of : FileMetaData → List FileMetaData → Bytes
largest_of f fs = max_key f.largest.user_key (map (λ g. g.largest.user_key) fs)

-- The first file behind the pointer.
unfoldable pub pick_after : Bytes → List FileMetaData → Option FileMetaData
pick_after pointer [] = none
pick_after pointer (f ∷ fs) =
    if is_empty pointer
    then some f
    else if is_lt (cmp_bytes pointer f.largest.user_key)
    then some f
    else pick_after pointer fs

-- The files of this level, where the level has some to take.
unfoldable pub pick_inputs0 : VersionSet → ℕ → Result (Option (List FileMetaData))
pick_inputs0 vs zero = do fs ← files_at vs.current 0; ok (some fs)
pick_inputs0 vs (suc level) = elim (get_elem? vs.compact_pointer (suc level)) [
  | none ↦ panic
  | some pointer ↦ do
    fs ← files_at vs.current (suc level)
    ok (elim (pick_after pointer fs) [ none ↦ none | some f ↦ some (f ∷ []) ])
]

unfoldable pub pick_inputs1 : Version → ℕ → List FileMetaData → Result (List FileMetaData)
pick_inputs1 version level [] = ok []
pick_inputs1 version level (f ∷ fs) =
    get_overlaps version (level + 1) (smallest_of f fs) (largest_of f fs)

unfoldable pub pick_grandparents :
    Version → ℕ → List FileMetaData → List FileMetaData → Result (List FileMetaData)
pick_grandparents version level [] inputs1 = ok []
pick_grandparents version level (f ∷ fs) inputs1 =
    if ltb (level + 2) num_levels
    then get_overlaps version (level + 2) (smallest_of f (fs ++ inputs1))
        (largest_of f (fs ++ inputs1))
    else ok []

unfoldable pub pick_level : VersionSet → ℕ → Result (Option Compaction)
pick_level vs level =
    if leb (num_levels - 1) level
    then ok none
    else pick_inputs0 vs level >>= λ picked. elim picked [
      | none ↦ ok none
      | some inputs0 ↦ do
        inputs1 ← pick_inputs1 vs.current level inputs0
        grandparents ← pick_grandparents vs.current level inputs0 inputs1
        ok (
            some (record {
              level = level;
              inputs0 = inputs0;
              inputs1 = inputs1;
              grandparents = grandparents;
            }))
    ]

unfoldable pub pick_compaction : Float → VersionSet → Result (Option Compaction)
pick_compaction float vs = compaction_score float vs.current >>= λ best. elim best [
  | none ↦ ok none
  | some (level, score) ↦ pick_level vs level
]
