-- ===== src/Wal/Reader.antt =====
-- src/wal.rs: `WalReader::read_records`. One round of the loop is `read_step`, over the position,
-- the fragment being put together and the records found so far.
use mulan_lsm.Prelude.{
  ℕ, zero, suc, ◌+◌, ◌-◌, ◌*◌, ◌/◌, List, [], ◌∷◌, ◌++◌, length, slice, get_or, ltb, leb, ◌==◌,
  if◌then◌else◌, Option, none, some, Result, ok, err, panic,
}
use mulan_lsm.Prelude.Bytes.{Bytes}
use mulan_lsm.Wal.Record.{
  RecordType, RecordHeader, block_size, header_size, decode_header, verify_checksum,
}

pub record Scan : Type 0 where
  pub pos : ℕ
  pub fragment : Option Bytes
  pub records : List Bytes

pub data Round : Type 0 where
  stop : List Bytes → Round
  continue : Scan → Round

-- The state machine: is a record being put together, and what type is the piece?
abbrev pub assemble : Option Bytes → RecordType → Bytes → List Bytes → Option Bytes × List Bytes
assemble none RecordType.full payload records = (none, records ++ payload ∷ [])
assemble none RecordType.first payload records = (some payload, records)
assemble none RecordType.middle payload records = (none, records)
assemble none RecordType.last payload records = (none, records)
assemble (some f) RecordType.middle payload records = (some (f ++ payload), records)
assemble (some f) RecordType.last payload records = (none, records ++ (f ++ payload) ∷ [])
assemble (some f) RecordType.full payload records = (none, records ++ payload ∷ [])
assemble (some f) RecordType.first payload records = (some payload, records)

module _ (crc32c : Bytes → ℕ) (bytes : Bytes) where
  unfoldable pub read_piece : Scan → RecordHeader → Round
  read_piece s header =
      let data_start = s.pos + header_size in
      let data_end = data_start + header.length in
      let payload = slice bytes data_start data_end in
      let next = assemble s.fragment header.rtype payload s.records in
      if ltb (length bytes) data_end
      then stop s.records
      else if verify_checksum crc32c header.rtype payload header.checksum
      then continue (record { pos = data_end; fragment = next.0; records = next.1 })
      else stop s.records

  -- `match decode_header(..) { Ok(h) => h, Err(_) => break }`
  unfoldable pub on_header : Scan → Result RecordHeader → Round
  on_header s (ok header) = read_piece s header
  on_header s (err e) = stop s.records
  on_header s panic = stop s.records

  unfoldable pub read_step : Scan → Round
  read_step s =
      let block_start = s.pos / block_size * block_size in
      let block_remaining = block_size - (s.pos - block_start) in
      let next_block = record s { pos = block_start + block_size } in
      if leb (s.pos + header_size) (length bytes)
      then if ltb block_remaining header_size
        then continue next_block
        else if get_or (slice bytes s.pos (s.pos + header_size)) 6 0 == 0
        then continue next_block
        else on_header s (decode_header (slice bytes s.pos (s.pos + header_size)))
      else stop s.records

  -- The loop, on fuel; `none` means that the fuel ran out.
  unfoldable pub scan : ℕ → Scan → Option (List Bytes)
  scan zero s = none
  scan (suc fuel) s = elim (read_step s) [ stop records ↦ some records | continue t ↦ scan fuel t ]

abbrev pub start : Scan
start = record { pos = 0; fragment = none; records = [] }

-- Every round moves at least one byte on.
unfoldable pub read_records : (Bytes → ℕ) → Bytes → Option (List Bytes)
read_records crc32c bytes = scan crc32c bytes (suc (length bytes)) start
