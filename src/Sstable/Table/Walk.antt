-- ===== src/Sstable/Table/Walk.antt =====
-- The iterator of src/sstable/table.rs over blocks that can all be read.
use mathlib.Core.Path.{subst}
use mulan_lsm.Prelude.{
  ℕ, zero, suc, arith, ◌+◌, ◌<◌, ◌≡◌, refl, sym, ap, ◌∙◌, List, [], ◌∷◌, ◌++◌, length, length-drop,
  drop, get_elem?, Option, none, some, Option-cases, inl, inr,
}
use mulan_lsm.Prelude.Bytes.{Bytes}
use mulan_lsm.Sstable.Table.{
  BlockHandle, TableIter, load, advance_over, advance_to_next_block, next_entry, next, collect,
}

abbrev pub join : List (List (Bytes × Bytes)) → List (Bytes × Bytes)
join [] = []
join (xs ∷ xss) = xs ++ join xss

-- The blocks at the handles hold these entries.
abbrev pub AllLoad : Bytes → List BlockHandle → List (List (Bytes × Bytes)) → Type 0
AllLoad all [] [] = Unit {0}
AllLoad all [] (xs ∷ xss) = ⊥
AllLoad all (h ∷ hs) [] = ⊥
AllLoad all (h ∷ hs) (xs ∷ xss) = (load all h ≡ some xs) × AllLoad all hs xss

drop-some {ℓ} :
    {A : Type ℓ} (n : ℕ) (xs : List A) (x : A)
    → get_elem? xs n ≡ some x
    → drop n xs ≡ x ∷ drop (n + 1) xs
drop-some n [] x e = cc
drop-some zero (y ∷ ys) x e = cc
drop-some (suc n) (y ∷ ys) x e =
    let step : suc (n + 1) ≡ suc n + 1 = omega arith in
    drop-some n ys x e ∙ ap (λ (k : ℕ). x ∷ drop k (y ∷ ys)) step

drop-none {ℓ} : {A : Type ℓ} (n : ℕ) (xs : List A) → get_elem? xs n ≡ none → drop n xs ≡ []
drop-none zero [] e = refl
drop-none (suc n) [] e = refl
drop-none zero (y ∷ ys) e = cc
drop-none (suc n) (y ∷ ys) e = drop-none n ys e

drop_next {ℓ} :
    {A : Type ℓ} (n : ℕ) (xs : List A) (y : A) (ys : List A)
    → drop n xs ≡ y ∷ ys
    → drop (n + 1) xs ≡ ys
drop_next zero [] y ys e = cc
drop_next zero (x ∷ xs) y ys e = cc
drop_next (suc n) [] y ys e = cc
drop_next (suc n) (x ∷ xs) y ys e =
    let step : suc n + 1 ≡ suc (n + 1) = omega arith in
    ap (λ (k : ℕ). drop k (x ∷ xs)) step ∙ drop_next n xs y ys e

-- What the iterator has still to give.
record Reads (it : TableIter) (ys : List (Bytes × Bytes)) : Type 0 where
  ahead : List BlockHandle
  blocks : List (List (Bytes × Bytes))
  at : drop it.handle_idx it.handles ≡ ahead
  loads : AllLoad it.bytes ahead blocks
  rest : drop it.current_pos it.current ++ join blocks ≡ ys

-- A call of `next` gives the first of it.
abbrev Gives : Option (Bytes × Bytes) × TableIter → List BlockHandle → List (Bytes × Bytes) → Type 0
Gives r handles [] = r.0 ≡ none
Gives r handles (y ∷ ys) =
    (it' : TableIter) × ((r ≡ (some y, it')) × (Reads it' ys × (it'.handles ≡ handles)))

-- The next round, where nothing is left of the block.
next_block :
    (fuel : ℕ) (it : TableIter) (ys : List (Bytes × Bytes)) (hs : List BlockHandle)
    (xss : List (List (Bytes × Bytes)))
    → ((moved : TableIter) (r : Reads moved ys)
        → length r.ahead < fuel
        → Gives (next_entry fuel moved) moved.handles ys)
    → drop it.handle_idx it.handles ≡ hs
    → AllLoad it.bytes hs xss
    → get_elem? it.current it.current_pos ≡ none
    → join xss ≡ ys
    → length hs < suc fuel
    → Gives (next_entry (suc fuel) it) it.handles ys
unfolding next_entry advance_to_next_block advance_over
next_block fuel it ys [] [] go at loads nothing rest h =
    subst (Gives (next_entry (suc fuel) it) it.handles) rest (rw (next_entry, nothing, at) refl)
next_block fuel it ys [] (xs ∷ xss) go at loads nothing rest h = elim loads [ ]
next_block fuel it ys (a ∷ hs) [] go at loads nothing rest h = elim loads [ ]
next_block fuel it ys (a ∷ hs) (xs ∷ xss) go at loads nothing rest h =
    let moved : TableIter = record it {
      handle_idx = it.handle_idx + 1;
      current = xs;
      current_pos = 0;
    } in
    let same : next_entry (suc fuel) it ≡ next_entry fuel moved =
      rw (next_entry, nothing, advance_to_next_block, at, advance_over, loads.0) refl in
    subst (λ r. Gives r it.handles ys) (sym same)
      (go moved
        (record {
          ahead = hs;
          blocks = xss;
          at = drop_next it.handle_idx it.handles a hs at;
          loads = loads.1;
          rest = rest;
        })
        (omega (arith, h)))

next_entry_lem :
    (fuel : ℕ) (it : TableIter) (ys : List (Bytes × Bytes))
    → (r : Reads it ys) → length r.ahead < fuel
    → Gives (next_entry fuel it) it.handles ys
unfolding next_entry
next_entry_lem zero it ys r h = absurd (omega (arith, h))
next_entry_lem (suc fuel) it ys r h = elim (Option-cases (get_elem? it.current it.current_pos)) [
  | inl nothing ↦
      next_block fuel it ys r.ahead r.blocks (λ moved r'. next_entry_lem fuel moved ys r') r.at
        r.loads nothing
        (ap (λ (t : List (Bytes × Bytes)). t ++ join r.blocks)
            (sym (drop-none it.current_pos it.current nothing))
          ∙ r.rest)
        h
  | inr (item, found) ↦
      subst (Gives (next_entry (suc fuel) it) it.handles)
        (ap (λ (t : List (Bytes × Bytes)). t ++ join r.blocks)
            (sym (drop-some it.current_pos it.current item found))
          ∙ r.rest)
        (
          record it { current_pos = it.current_pos + 1 },
          (
            rw (next_entry, found) refl,
            (
              record {
                ahead = r.ahead;
                blocks = r.blocks;
                at = r.at;
                loads = r.loads;
                rest = refl;
              },
              refl,
            ),
          ),
        )
]

length-ahead :
    (it : TableIter) (ys : List (Bytes × Bytes)) (r : Reads it ys)
    → length r.ahead < length it.handles + 2
length-ahead it ys r = omega (arith, length-drop it.handle_idx it.handles, ap length r.at)

collect_lem :
    (fuel : ℕ) (it : TableIter) (ys : List (Bytes × Bytes))
    → Reads it ys
    → length ys < fuel
    → collect fuel it ≡ ys
unfolding collect next
collect_lem zero it ys r h = absurd (omega (arith, h))
collect_lem (suc fuel) it [] r h =
    let gives = next_entry_lem (length it.handles + 2) it [] r (length-ahead it [] r) in
    rw (collect, gives) refl
collect_lem (suc fuel) it (y ∷ ys) r h =
    let (it', (gives, (r', _))) =
      next_entry_lem (length it.handles + 2) it (y ∷ ys) r (length-ahead it (y ∷ ys) r) in
    let item = ap (λ r. r.0) gives in
    let onward = ap (λ r. r.1) gives in
    rw (collect, item, onward) (ap (◌∷◌ y) (collect_lem fuel it' ys r' (omega (arith, h))))

-- From the start the iterator gives all that the blocks hold.
pub collect-start :
    (fuel : ℕ) (all : Bytes) (hs : List BlockHandle) (xss : List (List (Bytes × Bytes)))
    → AllLoad all hs xss
    → length (join xss) < fuel
    → collect fuel
        (record { bytes = all; handles = hs; handle_idx = 0; current = []; current_pos = 0 })
      ≡ join xss
collect-start fuel all hs xss loads h =
    collect_lem fuel
      (record { bytes = all; handles = hs; handle_idx = 0; current = []; current_pos = 0 })
      (join xss) (record { ahead = hs; blocks = xss; at = refl; loads = loads; rest = refl }) h
