-- ===== src/Wal/Crash.antt =====
-- What src/wal.rs recovers after a crash: the file may end anywhere behind its synced part, so that
-- the last write is torn.
use mathlib.Core.Path.{subst, subst₂}
use mulan_lsm.Prelude.{
  ℕ, suc, ◌≤◌, arith, ◌≡◌, sym, ap, ◌∙◌, List, [], ◌++◌, length, take, drop, take-append-drop, some,
  append_assoc, some_eq,
}
use mulan_lsm.Prelude.Bytes.{Bytes, IsU32}
use mulan_lsm.Prelude.Prefix.{IsPrefix, IsPrefix-cancel}
use mulan_lsm.Wal.Writer.{WalWriter, create, add_records, sync}
use mulan_lsm.Wal.Reader.{start, scan, read_records}
use mulan_lsm.Wal.Scans.{Steps-trans, scan-Steps, scan_total, Steps-IsPrefix, Steps-append}
use mulan_lsm.Prelude.{take-append_behind}
use mulan_lsm.Wal.RoundTrip.{add_records-create, add_records-Written, read_records-ReadsTo}
use mulan_lsm.Prelude.{◌-◌}

module _ (crc32c : Bytes → ℕ) where
  -- On any bytes at all the reader's loop ends and returns records: the fuel is enough.
  pub read_records_total :
      (file : Bytes) → (records : List Bytes) × (read_records crc32c file ≡ some records)
  unfolding read_records
  read_records_total file =
      let (u, steps, ends, result) =
        scan_total crc32c file (suc (length file)) start (omega arith) in
      (u.records, result)

  -- The records that the reader finds in a file begin those that it finds in the file with
  -- anything behind it: reading a torn file returns a beginning of what the whole file holds.
  pub read_records-append :
      (file more : Bytes) (records all : List Bytes)
      → read_records crc32c file ≡ some records
      → read_records crc32c (file ++ more) ≡ some all
      → IsPrefix records all
  unfolding read_records
  read_records-append file more records all e e' =
      let whole = file ++ more in
      let (u, steps, ends, result) =
        scan_total crc32c file (suc (length file)) start (omega arith) in
      let (v, steps', ends', _) = scan_total crc32c whole (suc (length whole)) u (omega arith) in
      let found : scan crc32c whole (suc (length whole)) start ≡ some v.records =
        scan-Steps crc32c whole (suc (length whole))
          (Steps-trans crc32c whole (Steps-append crc32c file more steps) steps') ends'
          (omega arith) in
      subst₂ (λ (a b : List Bytes). IsPrefix a b) (some_eq (sym result ∙ e))
        (some_eq (sym found ∙ e')) (Steps-IsPrefix crc32c whole steps')

module _ (crc32c : Bytes → ℕ) (bounded : (d : Bytes) → IsU32 (crc32c d)) where
  abbrev pub Recovered : List Bytes → List Bytes → Bytes → Type 0
  Recovered before after file =
      (kept : List Bytes) × (read_records crc32c file ≡ some (before ++ kept)) × IsPrefix kept after

  -- A file between a good one that holds `before` and a good one that holds more.
  between :
      (file tail rest : Bytes) (before after : List Bytes)
      → read_records crc32c file ≡ some before
      → read_records crc32c (file ++ tail ++ rest) ≡ some (before ++ after)
      → Recovered before after (file ++ tail)
  between file tail rest before after e e' =
      let (found, r) = read_records_total crc32c (file ++ tail) in
      let (kept, p) = read_records-append crc32c file tail before found e r in
      let q = read_records-append crc32c (file ++ tail) rest found (before ++ after) r e' in
      (
        kept,
        r ∙ ap some (sym p),
        IsPrefix-cancel before kept after
            (subst (λ (t : List Bytes). IsPrefix t (before ++ after)) (sym p) q),
      )

  pub torn :
      (before after : List Bytes) (file rest : Bytes) (n : ℕ)
      → length file ≤ n
      → read_records crc32c file ≡ some before
      → read_records crc32c (file ++ rest) ≡ some (before ++ after)
      → Recovered before after (take n (file ++ rest))
  torn before after file rest n h e e' =
      let m : ℕ = n - length file in
      rw (take-append_behind n m file rest (omega arith)) (
        between file (take m rest) (drop m rest) before after e
          (rw (append_assoc file (take m rest) (drop m rest), take-append-drop m rest) e'))

  -- Records are appended to an empty log, the log is synced, more records are appended, and the
  -- machine stops with at least the synced part of the file left: the reader returns every record
  -- from before the sync, then some of the later ones from the first on, and nothing else; the
  -- checksum is any function to 32-bit words.
  pub crash_recovery :
      (before after : List Bytes) (w w' : WalWriter) (n : ℕ)
      → add_records crc32c (create []) before ≡ some w
      → add_records crc32c (sync w) after ≡ some w'
      → w'.synced ≤ n
      → Recovered before after (take n w'.file)
  unfolding sync
  crash_recovery before after w w' n e e' h =
      let old = add_records-create crc32c bounded before w e in
      let (w2, runs, wrote) =
        add_records-Written crc32c bounded (sync w) after before
          (record { within = old.aligned.within; offset = old.aligned.offset }) old.reads in
      let same : w2 ≡ w' = some_eq (sym runs ∙ e') in
      let bound : length w.file ≤ n =
        omega (arith, wrote.synced, ap (λ (v : WalWriter). v.synced) same) in
      let (rest, grown) = wrote.grows in
      subst (λ (f : Bytes). Recovered before after (take n f))
        (grown ∙ ap (λ (v : WalWriter). v.file) same)
        (torn before after w.file rest n bound
          (read_records-ReadsTo crc32c bounded w.file before old.reads)
          (rw grown (read_records-ReadsTo crc32c bounded w2.file (before ++ after) wrote.reads)))
