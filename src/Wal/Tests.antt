-- ===== src/Wal/Tests.antt =====
-- The theorems about src/wal.rs at concrete records, with the sum of the bytes as checksum.
use mulan_lsm.Prelude.{
  ℕ, ◌+◌, ◌%◌, ◌^◌, ◌≤◌, arith, ◌≡◌, refl, List, [], ◌∷◌, ◌++◌, foldl, take, none, some, ok,
}
use mulan_lsm.Prelude.Bytes.{Bytes, IsU32}
use mulan_lsm.Prelude.Prefix.{IsPrefix}
use mulan_lsm.InternalKey.{ValueType}
use mulan_lsm.Wal.Writer.{
  WalWriter, create, fill_trailer, write_piece, add_loop, add_record, add_records, sync,
}
use mulan_lsm.Wal.Reader.{scan, read_step, read_records}
use mulan_lsm.Wal.Entry.{encode_entry, decode_entry}
use mulan_lsm.Wal.EntryCodec.{decode-encode_entry}
use mulan_lsm.Wal.RoundTrip.{read_records-add_records, read_records-reopen}
use mulan_lsm.Wal.Crash.{Recovered, read_records_total, read_records-append, crash_recovery}
use mulan_lsm.Wal.Record.{encode_piece}
use mulan_lsm.Prelude.Bytes.{le_bytes}

abbrev sum32 : Bytes → ℕ
sum32 d = foldl ◌+◌ 0 d % 2 ^ 32

sum32-IsU32 : (d : Bytes) → IsU32 (sum32 d)
sum32-IsU32 d = omega arith

abbrev two_records : List Bytes
two_records = (1 ∷ 2 ∷ []) ∷ [] ∷ []

abbrev one_record : List Bytes
one_record = (7 ∷ 8 ∷ 9 ∷ []) ∷ []

abbrev written : WalWriter
unfolding add_records add_record create add_loop write_piece fill_trailer
written = elim (add_records sum32 (create []) two_records) [ none ↦ create [] | some w ↦ w ]

written_lem : add_records sum32 (create []) two_records ≡ some written
unfolding add_records add_record create add_loop write_piece fill_trailer
written_lem = refl

read_records-add_records_example :
    (w : WalWriter) × (add_records sum32 (create []) two_records ≡ some w)
    × (read_records sum32 w.file ≡ some two_records)
read_records-add_records_example = read_records-add_records sum32 sum32-IsU32 two_records

read_records-reopen_example :
    (w : WalWriter) × (add_records sum32 (create written.file) one_record ≡ some w)
    × (read_records sum32 w.file ≡ some (two_records ++ one_record))
read_records-reopen_example =
    read_records-reopen sum32 sum32-IsU32 two_records one_record written written_lem

read_records_total_example :
    (records : List Bytes) × (read_records sum32 (1 ∷ 2 ∷ 3 ∷ []) ≡ some records)
read_records_total_example = read_records_total sum32 (1 ∷ 2 ∷ 3 ∷ [])

one_byte : read_records sum32 (3 ∷ []) ≡ some []
unfolding read_records scan read_step
one_byte = refl

read_records-append_example : IsPrefix [] (read_records_total sum32 (3 ∷ 4 ∷ 5 ∷ [])).0
read_records-append_example =
    read_records-append sum32 (3 ∷ []) (4 ∷ 5 ∷ []) [] _ one_byte
      (read_records_total sum32 (3 ∷ 4 ∷ 5 ∷ [])).1

abbrev longer : WalWriter
unfolding add_records add_record create sync add_loop write_piece fill_trailer
longer = elim (add_records sum32 (sync written) one_record) [ none ↦ written | some w ↦ w ]

longer_lem : add_records sum32 (sync written) one_record ≡ some longer
unfolding add_records add_record create sync add_loop write_piece fill_trailer
longer_lem = refl

longer_synced : longer.synced ≤ 20
unfolding add_records add_record create sync add_loop write_piece fill_trailer encode_piece le_bytes
longer_synced = omega arith

crash_recovery_example : Recovered sum32 sum32-IsU32 two_records one_record (take 20 longer.file)
crash_recovery_example =
    crash_recovery sum32 sum32-IsU32 two_records one_record written longer 20 written_lem longer_lem
      longer_synced

decode-encode_entry_example :
    decode_entry (encode_entry ValueType.put 5 (1 ∷ []) (2 ∷ 3 ∷ []))
    ≡ ok (record { vtype = ValueType.put; seq = 5; key = 1 ∷ []; value = 2 ∷ 3 ∷ [] })
decode-encode_entry_example =
    decode-encode_entry ValueType.put 5 (1 ∷ []) (2 ∷ 3 ∷ []) (omega arith) (omega arith)
      (omega arith)
