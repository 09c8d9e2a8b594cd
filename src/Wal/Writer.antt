-- ===== src/Wal/Writer.antt =====
-- src/wal.rs: `WalWriter`. The file is the list of its bytes, of which the first `synced` are
-- known to be on disk. Writes do not fail here; a crash keeps a prefix of the file that is at
-- least `synced` long.
use mulan_lsm.Prelude.{
  ℕ, zero, suc, ◌+◌, ◌-◌, ◌%◌, min, List, [], ◌∷◌, ◌++◌, length, take, drop, replicate, ltb, ◌==◌,
  if◌then◌else◌, Bool, true, false, Option, none, some,
}
use mulan_lsm.Prelude.Bytes.{Bytes}
use mulan_lsm.Wal.Record.{RecordType, block_size, header_size, encode_piece}

pub record WalWriter : Type 0 where
  pub file : Bytes
  pub synced : ℕ
  pub block_offset : ℕ

-- `create`: opens for appending; `contents` is what the file holds, all of it on disk.
unfoldable pub create : Bytes → WalWriter
create contents = record {
  file = contents;
  synced = length contents;
  block_offset = length contents % block_size;
}

unfoldable pub block_offset_safe : ℕ → ℕ
block_offset_safe off = if ltb block_size off then block_size else off

-- `(first, last)` of a piece
abbrev pub piece_type : Bool → Bool → RecordType
piece_type true true = RecordType.full
piece_type true false = RecordType.first
piece_type false true = RecordType.last
piece_type false false = RecordType.middle

-- What a block has left for no header is filled with zeros.
unfoldable pub fill_trailer : WalWriter → WalWriter
unfolding block_offset_safe
fill_trailer w =
    let leftover = block_size - block_offset_safe w.block_offset in
    if ltb leftover header_size
    then record w {
      file = if ltb 0 leftover then w.file ++ replicate leftover 0 else w.file;
      block_offset = 0;
    }
    else w

module _ (crc32c : Bytes → ℕ) where
  -- One round after the trailer: writes a piece, and returns what remains of the data.
  unfoldable pub write_piece : Bool → Bytes → WalWriter → WalWriter × Bytes
  write_piece first remaining w =
      let avail = block_size - header_size - w.block_offset in
      let piece_len = min (length remaining) avail in
      let piece = take piece_len remaining in
      let last = piece_len == length remaining in
      (
        record w {
          file = w.file ++ encode_piece crc32c [] (piece_type first last) piece;
          block_offset = w.block_offset + (header_size + piece_len);
        },
        drop piece_len remaining,
      )

  -- The rounds of `add_record`, on fuel.
  unfoldable pub add_loop : ℕ → Bool → Bytes → WalWriter → Option WalWriter
  add_loop zero first remaining w = none
  add_loop (suc fuel) first remaining w =
      let (w', remaining') = write_piece first remaining (fill_trailer w) in
      let rest = add_loop fuel false remaining' w' in
      elim remaining' [ [] ↦ some w' | x ∷ xs ↦ rest ]

  -- The first round may find room for a header and nothing more; every other one writes data.
  unfoldable pub add_record : WalWriter → Bytes → Option WalWriter
  add_record w payload = add_loop (length payload + 2) true payload w

  unfoldable pub add_records : WalWriter → List Bytes → Option WalWriter
  add_records w [] = some w
  add_records w (payload ∷ rest) = elim (add_record w payload) [
    | none ↦ none
    | some w' ↦ add_records w' rest
  ]

-- `sync`: everything written is on disk.
unfoldable pub sync : WalWriter → WalWriter
sync w = record w { synced = length w.file }
