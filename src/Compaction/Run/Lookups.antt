-- ===== src/Compaction/Run/Lookups.antt =====
-- The directory of tables that `do_compaction` of src/compaction.rs writes into.
use mulan_lsm.Prelude.{
  ℕ, arith, ◌<◌, ◌≤◌, ◌≡◌, refl, sym, ap, ◌∙◌, List, [], ◌∷◌, ◌++◌, append_assoc, append-nil, All,
  true, false, ok, >>=-eq-ok, ◌==◌,
}
use mulan_lsm.FileMeta.{FileNumber, FileMetaData}
use mulan_lsm.Iterator.{Item}
use mulan_lsm.Iterator.Streams.{concat}
use mulan_lsm.Tables.{Tables}
use mulan_lsm.Compaction.Run.{Directory, lookup, open_table, open_inputs}

abbrev pub AllBelow : ℕ → List FileMetaData → Type 0
AllBelow n fs = All (λ f. f.number < n) fs

pub concat-last :
    (xss : List (List Item)) (xs : List Item) → concat (xss ++ xs ∷ []) ≡ concat xss ++ xs
concat-last [] xs = append-nil xs
concat-last (ys ∷ yss) xs =
    ap (◌++◌ ys) (concat-last yss xs) ∙ sym (append_assoc ys (concat yss) xs)

pub AllBelow-weaken : (n m : ℕ) (fs : List FileMetaData) → n ≤ m → AllBelow n fs → AllBelow m fs
AllBelow-weaken n m [] h k = _
AllBelow-weaken n m (f ∷ fs) h k = (omega (arith, h, k.0), AllBelow-weaken n m fs h k.1)

module _ (T : Tables) where
  -- A table of a larger number does not change what others hold.
  pub open_table-other :
      (dir : Directory T) (n : FileNumber) (file : T.File) (number : FileNumber)
      → number < n
      → open_table T ((n, file) ∷ dir) number ≡ open_table T dir number
  unfolding open_table
  open_table-other dir n file number less =
      let differ : (n == number) ≡ false = ground (arith, less) in rw (lookup, differ) refl

  pub open_inputs-other :
      (dir : Directory T) (n : FileNumber) (file : T.File) (fs : List FileMetaData)
      → AllBelow n fs
      → open_inputs T ((n, file) ∷ dir) fs ≡ open_inputs T dir fs
  unfolding open_inputs
  open_inputs-other dir n file [] h = refl
  open_inputs-other dir n file (f ∷ fs) h =
      rw (open_table-other dir n file f.number h.0, open_inputs-other dir n file fs h.1) refl

  pub open_table-new :
      (dir : Directory T) (n : FileNumber) (file : T.File)
      → open_table T ((n, file) ∷ dir) n ≡ T.into_table_iter file
  unfolding open_table
  open_table-new dir n file = let same : (n == n) ≡ true = ground arith in rw (lookup, same) refl

  pub open_inputs-last :
      (dir : Directory T) (fs : List FileMetaData) (f : FileMetaData) (sources : List (List Item))
      (items : List Item)
      → open_inputs T dir fs ≡ ok sources
      → open_table T dir f.number ≡ ok items
      → open_inputs T dir (fs ++ f ∷ []) ≡ ok (sources ++ items ∷ [])
  unfolding open_inputs
  open_inputs-last dir [] f sources items e k =
      let nothing : sources ≡ [] = cc in rw (k, nothing) refl
  open_inputs-last dir (g ∷ gs) f sources items e k =
      let (first, table, step) = >>=-eq-ok (open_table T dir g.number) _ e in
      let (more, rest, step') = >>=-eq-ok (open_inputs T dir gs) _ step in
      let shape : sources ≡ first ∷ more = cc in
      rw (table, open_inputs-last dir gs f more items rest k, shape) refl
