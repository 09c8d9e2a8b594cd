-- ===== src/Wal/Loop.antt =====
-- The loop of `WalWriter::add_record` in src/wal.rs: it ends, and the reader gets the record back.
use mathlib.Core.Path.{subst}
use mulan_lsm.Prelude.{
  ℕ, zero, suc, ◌+◌, ◌-◌, ◌≤◌, ◌<◌, arith, ◌≡◌, refl, ap, ◌∙◌, List, [], ◌∷◌, ◌++◌, length, take,
  drop, length-take, length-drop, take-append-drop, drop_some, leb, Bool, true, false, Bool-cases,
  Option, none, some, append_assoc, inl, inr, leb→le,
}
use mulan_lsm.Prelude.Bytes.{Bytes, IsU32}
use mulan_lsm.Wal.Writer.{WalWriter, piece_type, fill_trailer, write_piece, add_loop}
use mulan_lsm.Wal.Trailer.{IsAligned, ReadsTo, fill_trailer-Filled}
use mulan_lsm.Wal.Rounds.{
  in_progress, assemble_last, assemble_more, with_piece, write_piece_last, write_piece_more,
  Written, Written-trans, with_piece-Written,
}

module _ (crc32c : Bytes → ℕ) (fuel : ℕ) (first : Bool) (remaining : Bytes) (w w' : WalWriter) where
  add_loop_last :
      write_piece crc32c first remaining (fill_trailer w) ≡ (w', [])
      → add_loop crc32c (suc fuel) first remaining w ≡ some w'
  unfolding add_loop
  add_loop_last e = rw (e, add_loop) (ap (λ (p : WalWriter × Bytes). some p.0) e)

  add_loop_more :
      (y : ℕ) (ys : Bytes)
      → write_piece crc32c first remaining (fill_trailer w) ≡ (w', y ∷ ys)
      → add_loop crc32c (suc fuel) first remaining w ≡ add_loop crc32c fuel false (y ∷ ys) w'
  unfolding add_loop
  add_loop_more y ys e =
      rw (e, add_loop) (ap (λ (p : WalWriter × Bytes). add_loop crc32c fuel false p.1 p.0) e)

-- The rounds that are enough for what remains: only the first can find no room for data.
abbrev pub rounds : Bool → Bytes → ℕ
rounds true remaining = length remaining + 2
rounds false remaining = length remaining + 1

rounds-drop :
    (first : Bool) (remaining : Bytes) (n fuel : ℕ)
    → (first ≡ false → 0 < n)
    → n < length remaining
    → rounds first remaining ≤ suc fuel
    → rounds false (drop n remaining) ≤ fuel
rounds-drop true remaining n fuel h k enough = omega (arith, length-drop n remaining)
rounds-drop false remaining n fuel h k enough = omega (arith, length-drop n remaining, h refl)

rounds-pos : (first : Bool) (remaining : Bytes) → 0 < rounds first remaining
rounds-pos true remaining = omega arith
rounds-pos false remaining = omega arith

module _ (crc32c : Bytes → ℕ) (bounded : (d : Bytes) → IsU32 (crc32c d)) where
  abbrev pub Finishes : ℕ → Bool → Bytes → Bytes → WalWriter → List Bytes → Type 0
  Finishes fuel first acc remaining w records =
      (w' : WalWriter) × (add_loop crc32c fuel first remaining w ≡ some w')
      × Written crc32c bounded w w' none (records ++ (acc ++ remaining) ∷ [])

  loop_last :
      (fuel : ℕ) (first : Bool) (acc remaining : Bytes) (w : WalWriter) (records : List Bytes)
      → IsAligned w
      → (first ≡ true → acc ≡ [])
      → ReadsTo crc32c w.file (in_progress first acc) records
      → length remaining ≤ 32768 - 7 - (fill_trailer w).block_offset
      → Finishes (suc fuel) first acc remaining w records
  loop_last fuel first acc remaining w records a nothing reads fits =
      let w1 = fill_trailer w in
      let filled = fill_trailer-Filled crc32c w a in
      let w2 = with_piece crc32c bounded w1 (piece_type first true) remaining in
      let done =
        with_piece-Written crc32c bounded w w1 (piece_type first true) remaining
          (in_progress first acc) records filled (omega (arith, filled.room)) reads in
      (
        w2,
        add_loop_last crc32c fuel first remaining w w2
            (write_piece_last crc32c bounded first remaining w1 fits),
        subst (λ (p : Option Bytes × List Bytes). Written crc32c bounded w w2 p.0 p.1)
            (assemble_last first acc remaining records nothing) done,
      )

  module _ (fuel : ℕ) (first : Bool) (acc remaining : Bytes) (w : WalWriter)
      (records : List Bytes) where
    abbrev room : ℕ
    room = 32768 - 7 - (fill_trailer w).block_offset

    abbrev filled_block : WalWriter
    filled_block =
        with_piece crc32c bounded (fill_trailer w) (piece_type first false) (take room remaining)

    filled_block-Written :
        IsAligned w
        → (first ≡ true → acc ≡ [])
        → ReadsTo crc32c w.file (in_progress first acc) records
        → room < length remaining
        → Written crc32c bounded w filled_block (some (acc ++ take room remaining)) records
    filled_block-Written a nothing reads longer =
        let filled = fill_trailer-Filled crc32c w a in
        subst (λ (p : Option Bytes × List Bytes). Written crc32c bounded w filled_block p.0 p.1)
          (assemble_more first acc (take room remaining) records nothing)
          (with_piece-Written crc32c bounded w (fill_trailer w) (piece_type first false)
            (take room remaining) (in_progress first acc) records filled
            (omega (arith, filled.room, length-take room remaining)) reads)

    filled_block-full : IsAligned w → room < length remaining → filled_block.block_offset ≡ 32768
    filled_block-full a longer =
        let filled = fill_trailer-Filled crc32c w a in
        omega (arith, filled.room, length-take room remaining)

    loop_more :
        IsAligned w
        → room < length remaining
        → Written crc32c bounded w filled_block (some (acc ++ take room remaining)) records
        → Finishes fuel false
            (acc ++ take room remaining)
            (drop room remaining)
            filled_block
            records
        → Finishes (suc fuel) first acc remaining w records
    loop_more a longer wrote (w', runs, ends) =
        let (y, ys, e) = drop_some room remaining longer in
        let step =
          write_piece_more crc32c bounded first remaining (fill_trailer w) room refl longer in
        let whole : acc ++ take room remaining ++ drop room remaining ≡ acc ++ remaining =
          append_assoc acc _ _ ∙ ap (λ t. acc ++ t) (take-append-drop room remaining) in
        (
          w',
          add_loop_more crc32c fuel first remaining w filled_block y ys (rw e at step)
              ∙ rw (← e) runs,
          Written-trans crc32c bounded w filled_block w' _ none records _ wrote (
              subst (λ (t : Bytes). Written crc32c bounded filled_block w' none (records ++ t ∷ []))
                whole ends),
        )

  -- With rounds enough the loop ends, and what it wrote reads as one more record.
  pub add_loop-Written :
      (fuel : ℕ) (first : Bool) (acc remaining : Bytes) (w : WalWriter) (records : List Bytes)
      → IsAligned w
      → (first ≡ true → acc ≡ [])
      → (first ≡ false → w.block_offset ≡ 32768)
      → rounds first remaining ≤ fuel
      → ReadsTo crc32c w.file (in_progress first acc) records
      → Finishes fuel first acc remaining w records
  add_loop-Written zero first acc remaining w records a nothing fresh enough reads =
      absurd (omega (arith, rounds-pos first remaining))
  add_loop-Written (suc fuel) first acc remaining w records a nothing fresh enough reads =
      elim (Bool-cases (leb (length remaining) (room fuel first acc remaining w records))) [
        | inl fits ↦ loop_last fuel first acc remaining w records a nothing reads (leb→le _ _ fits)
        | inr tight ↦
            let n = room fuel first acc remaining w records in
            let longer : n < length remaining = ground arith in
            let wrote =
              filled_block-Written fuel first acc remaining w records a nothing reads longer in
            let full = filled_block-full fuel first acc remaining w records a longer in
            let filled = fill_trailer-Filled crc32c w a in
            let some_room : first ≡ false → 0 < n = λ e. omega (arith, filled.fresh (fresh e)) in
            loop_more fuel first acc remaining w records a longer wrote (
              add_loop-Written fuel false (acc ++ take n remaining) (drop n remaining)
                (filled_block fuel first acc remaining w records) records wrote.aligned (λ e. cc)
                (λ e. full) (rounds-drop first remaining n fuel some_room longer enough)
                wrote.reads)
      ]
