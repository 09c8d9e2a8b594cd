-- ===== src/Wal/Rounds.antt =====
-- One round of `WalWriter::add_record` in src/wal.rs, and the reader behind it.
use mathlib.Core.Path.{subst}
use mulan_lsm.Prelude.{
  ℕ, ◌+◌, ◌-◌, ◌%◌, ◌^◌, ◌≤◌, ◌<◌, min, arith, ◌≡◌, refl, sym, ap, ◌∙◌, List, [], ◌∷◌, ◌++◌, length,
  length-append, take, drop, length-take, take_all, ◌==◌, Bool, true, false, Option, none, some,
  append_assoc, ==_refl,
}
use mulan_lsm.Prelude.Bytes.{Bytes, IsU32}
use mulan_lsm.Prelude.Prefix.{IsPrefix, IsPrefix-trans, IsPrefix-append}
use mulan_lsm.Wal.Record.{RecordType, encode_piece}
use mulan_lsm.Wal.Writer.{WalWriter, piece_type, write_piece}
use mulan_lsm.Wal.Reader.{Scan, assemble, start}
use mulan_lsm.Wal.Scans.{Steps, here, next, Steps-trans}
use mulan_lsm.Wal.Pieces.{read_step-piece, length-encode_piece}
use mulan_lsm.Wal.Trailer.{IsAligned, ReadsTo, Filled}
use mulan_lsm.Prelude.{drop_all}

-- The reader's fragment while a record is being written: nothing before its first piece.
abbrev pub in_progress : Bool → Bytes → Option Bytes
in_progress true acc = none
in_progress false acc = some acc

pub assemble_last :
    (first : Bool) (acc piece : Bytes) (records : List Bytes)
    → (first ≡ true → acc ≡ [])
    → assemble (in_progress first acc) (piece_type first true) piece records
      ≡ (none, records ++ (acc ++ piece) ∷ [])
assemble_last true acc piece records h = rw (h refl)
assemble_last false acc piece records h = refl

pub assemble_more :
    (first : Bool) (acc piece : Bytes) (records : List Bytes)
    → (first ≡ true → acc ≡ [])
    → assemble (in_progress first acc) (piece_type first false) piece records
      ≡ (some (acc ++ piece), records)
assemble_more true acc piece records h = rw (h refl)
assemble_more false acc piece records h = refl

module _ (crc32c : Bytes → ℕ) (bounded : (d : Bytes) → IsU32 (crc32c d)) where
  module _ (file z piece post : Bytes) (rtype : RecordType) (fragment : Option Bytes)
      (records : List Bytes) where
    abbrev written : Bytes
    written = encode_piece crc32c [] rtype piece

    abbrev at_piece : Scan
    at_piece = record { pos = length (file ++ z); fragment = fragment; records = records }

    abbrev behind_piece : Scan
    behind_piece = record {
      pos = length (file ++ z) + 7 + length piece;
      fragment = (assemble fragment rtype piece records).0;
      records = (assemble fragment rtype piece records).1;
    }

    to_piece :
        Steps crc32c
          (file ++ (z ++ (written ++ post)))
          start
          (record { pos = length file; fragment = fragment; records = records })
        → Steps crc32c
            (file ++ (z ++ (written ++ post)))
            (record { pos = length file; fragment = fragment; records = records })
            (record { pos = length file + length z; fragment = fragment; records = records })
        → Steps crc32c (file ++ z ++ (written ++ post)) start at_piece
    to_piece reads skipped =
        rw (append_assoc file z (written ++ post), length-append file z)
          (Steps-trans crc32c (file ++ (z ++ (written ++ post))) reads skipped)

    past_piece :
        length (file ++ z) % 32768 + 7 + length piece ≤ 32768
        → length piece < 2 ^ 16
        → Steps crc32c (file ++ z ++ (written ++ post)) start at_piece
        → Steps crc32c (file ++ z ++ (written ++ post)) start behind_piece
    past_piece fits short steps = Steps-trans crc32c (file ++ z ++ (written ++ post)) steps (
        next
          (read_step-piece crc32c rtype piece bounded short (file ++ z) post fragment records fits)
          here)

  -- A trailer, if there is one, and a piece that fits behind it.
  ReadsTo-piece :
      (w w' : WalWriter) (rtype : RecordType) (piece : Bytes) (fragment : Option Bytes)
      (records : List Bytes)
      → Filled crc32c w w'
      → w'.block_offset + 7 + length piece ≤ 32768
      → ReadsTo crc32c w.file fragment records
      → ReadsTo crc32c
          (w'.file ++ encode_piece crc32c [] rtype piece)
          (assemble fragment rtype piece records).0
          (assemble fragment rtype piece records).1
  ReadsTo-piece w w' rtype piece fragment records filled fits reads post =
      let z = filled.zeros in
      let e = encode_piece crc32c [] rtype piece in
      let offset : length (w.file ++ z) % 32768 ≡ w'.block_offset =
        ap (λ (f : Bytes). length f % 32768) (sym filled.grown) ∙ sym filled.offset in
      let more : 7 ≤ length (e ++ post) =
        omega (arith, length-append {0} e post, length-encode_piece crc32c rtype piece) in
      let place : length (w'.file ++ e) ≡ length (w.file ++ z) + 7 + length piece = omega (
        arith,
        length-append {0} w'.file e,
        length-encode_piece crc32c rtype piece,
        ap (λ (f : Bytes). length f) filled.grown,
      ) in
      rw (append_assoc w'.file e post, place)
        (subst
          (λ f.
            Steps crc32c (f ++ (e ++ post)) start
              (behind_piece w.file z piece post rtype fragment records))
          (sym filled.grown)
          (past_piece w.file z piece post rtype fragment records (omega arith) (omega arith) (
            to_piece w.file z piece post rtype fragment records (reads (z ++ (e ++ post)))
              (filled.skipped (e ++ post) fragment records more))))

  -- A piece behind a trailer.
  abbrev pub with_piece : WalWriter → RecordType → Bytes → WalWriter
  with_piece w rtype piece = record w {
    file = w.file ++ encode_piece crc32c [] rtype piece;
    block_offset = w.block_offset + (7 + length piece);
  }

  pub write_piece_last :
      (first : Bool) (remaining : Bytes) (w : WalWriter)
      → length remaining ≤ 32768 - 7 - w.block_offset
      → write_piece crc32c first remaining w ≡ (with_piece w (piece_type first true) remaining, [])
  unfolding write_piece
  write_piece_last first remaining w h =
      let n : min (length remaining) (32768 - 7 - w.block_offset) ≡ length remaining =
        omega arith in
      rw (
        n,
        take_all (length remaining) remaining (omega arith),
        drop_all (length remaining) remaining (omega arith),
        ==_refl,
      )

  pub write_piece_more :
      (first : Bool) (remaining : Bytes) (w : WalWriter) (n : ℕ)
      → n ≡ 32768 - 7 - w.block_offset
      → n < length remaining
      → write_piece crc32c first remaining w
        ≡ (with_piece w (piece_type first false) (take n remaining), drop n remaining)
  unfolding write_piece
  write_piece_more first remaining w n e h =
      let m : min (length remaining) (32768 - 7 - w.block_offset) ≡ n = omega arith in
      let k : length (take n remaining) ≡ n = omega (arith, length-take n remaining) in
      let t : (n == length remaining) ≡ false = ground arith in rw (m, t, k)

  -- What writing leaves behind.
  pub record Written (w w' : WalWriter) (fragment : Option Bytes) (records : List Bytes)
      : Type 0 where
    pub aligned : IsAligned w'
    pub reads : ReadsTo crc32c w'.file fragment records
    pub synced : w'.synced ≡ w.synced
    pub grows : IsPrefix w.file w'.file

  pub Written-trans :
      (w w' w'' : WalWriter) (frag frag' : Option Bytes) (records records' : List Bytes)
      → Written w w' frag records
      → Written w' w'' frag' records'
      → Written w w'' frag' records'
  Written-trans w w' w'' frag frag' records records' a b = record {
    aligned = b.aligned;
    reads = b.reads;
    synced = b.synced ∙ a.synced;
    grows = IsPrefix-trans w.file w'.file w''.file a.grows b.grows;
  }

  pub with_piece-Written :
      (w w' : WalWriter) (rtype : RecordType) (piece : Bytes) (fragment : Option Bytes)
      (records : List Bytes)
      → Filled crc32c w w'
      → w'.block_offset + 7 + length piece ≤ 32768
      → ReadsTo crc32c w.file fragment records
      → Written w
          (with_piece w' rtype piece)
          (assemble fragment rtype piece records).0
          (assemble fragment rtype piece records).1
  with_piece-Written w w' rtype piece fragment records filled fits reads = record {
    aligned = omega (
      arith,
      filled.offset,
      length-append {0} w'.file (encode_piece crc32c [] rtype piece),
      length-encode_piece crc32c rtype piece,
    );
    reads = ReadsTo-piece w w' rtype piece fragment records filled fits reads;
    synced = filled.synced;
    grows =
        IsPrefix-trans w.file w'.file _ (filled.zeros, sym filled.grown)
          (IsPrefix-append w'.file _);
  }
