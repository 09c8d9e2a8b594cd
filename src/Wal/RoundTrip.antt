-- ===== src/Wal/RoundTrip.antt =====
-- The reader of src/wal.rs returns the records that the writer was given.
use mathlib.Core.Path.{subst}
use mulan_lsm.Prelude.{
  ℕ, suc, ◌+◌, arith, ◌≡◌, refl, sym, ◌∙◌, List, [], ◌∷◌, ◌++◌, length, Option, true, none, some,
  append_assoc, append-nil, leb_not, some_eq,
}
use mulan_lsm.Prelude.Bytes.{Bytes, IsU32}
use mulan_lsm.Prelude.Prefix.{IsPrefix-refl}
use mulan_lsm.Wal.Writer.{WalWriter, create, add_record, add_records}
use mulan_lsm.Wal.Reader.{stop, read_step, read_records}
use mulan_lsm.Wal.Scans.{here, scan-Steps}
use mulan_lsm.Wal.Trailer.{IsAligned, create-IsAligned, ReadsTo}
use mulan_lsm.Wal.Rounds.{Written, Written-trans}
use mulan_lsm.Wal.Loop.{add_loop-Written}

module _ (crc32c : Bytes → ℕ) (bounded : (d : Bytes) → IsU32 (crc32c d)) where
  -- One record is written whole, in whatever state the block is.
  pub add_record-Written :
      (w : WalWriter) (payload : Bytes) (records : List Bytes)
      → IsAligned w
      → ReadsTo crc32c w.file none records
      → (w' : WalWriter) × (add_record crc32c w payload ≡ some w')
        × Written crc32c bounded w w' none (records ++ payload ∷ [])
  unfolding add_record
  add_record-Written w payload records a reads =
      add_loop-Written crc32c bounded (length payload + 2) true [] payload w records a (λ e. refl)
        (λ e. cc) (omega arith) reads

  -- Any number of records.
  pub add_records-Written :
      (w : WalWriter) (payloads records : List Bytes)
      → IsAligned w
      → ReadsTo crc32c w.file none records
      → (w' : WalWriter) × (add_records crc32c w payloads ≡ some w')
        × Written crc32c bounded w w' none (records ++ payloads)
  unfolding add_records
  add_records-Written w [] records a reads = (
    w,
    refl,
    record {
      aligned = a;
      reads = rw (append-nil records) reads;
      synced = refl;
      grows = IsPrefix-refl w.file;
    },
  )
  add_records-Written w (payload ∷ rest) records a reads =
      let (w1, runs, wrote) = add_record-Written w payload records a reads in
      let (w2, more, ends) =
        add_records-Written w1 rest (records ++ payload ∷ []) wrote.aligned wrote.reads in
      (
        w2,
        rw (runs, add_records) more,
        Written-trans crc32c bounded w w1 w2 _ none _ _ wrote (
            subst (λ (t : List Bytes). Written crc32c bounded w1 w2 none t)
              (append_assoc records (payload ∷ []) rest) ends),
      )

  pub ReadsTo-empty : ReadsTo crc32c [] none []
  ReadsTo-empty post = here

  -- A file that the reader comes to the end of, outside any record, holds these records.
  pub read_records-ReadsTo :
      (file : Bytes) (records : List Bytes)
      → ReadsTo crc32c file none records
      → read_records crc32c file ≡ some records
  unfolding read_records
  read_records-ReadsTo file records reads =
      scan-Steps crc32c file (suc (length file)) (rw (append-nil file) at (reads []))
        (at_end file none records) (omega arith)
    where
      at_end :
          (file : Bytes) (fragment : Option Bytes) (records : List Bytes)
          → read_step crc32c file
              (record { pos = length file; fragment = fragment; records = records })
            ≡ stop records
      at_end file fragment records =
          unfold read_step in rw (leb_not (length file + 7) (length file) (omega arith))

  -- Whatever records are appended to an empty log, of whatever sizes, every write succeeds and the
  -- reader returns exactly these records, in order; the checksum is any function to 32-bit words.
  pub read_records-add_records :
      (payloads : List Bytes)
      → (w : WalWriter) × (add_records crc32c (create []) payloads ≡ some w)
        × (read_records crc32c w.file ≡ some payloads)
  read_records-add_records payloads =
      let (w, runs, wrote) =
        add_records-Written (create []) payloads [] (create-IsAligned [])
          (unfold create in ReadsTo-empty) in
      (w, runs, read_records-ReadsTo w.file payloads wrote.reads)

  pub add_records-create :
      (payloads : List Bytes) (w : WalWriter)
      → add_records crc32c (create []) payloads ≡ some w
      → Written crc32c bounded (create []) w none payloads
  add_records-create payloads w e =
      let (w0, runs, wrote) =
        add_records-Written (create []) payloads [] (create-IsAligned [])
          (unfold create in ReadsTo-empty) in
      subst (λ (v : WalWriter). Written crc32c bounded (create []) v none payloads)
        (some_eq (sym runs ∙ e)) wrote

  -- A log that is closed and opened again for appending goes on where it was: the reader returns
  -- the old records and then the new ones; the checksum is any function to 32-bit words.
  pub read_records-reopen :
      (old more : List Bytes) (w : WalWriter)
      → add_records crc32c (create []) old ≡ some w
      → (w' : WalWriter) × (add_records crc32c (create w.file) more ≡ some w')
        × (read_records crc32c w'.file ≡ some (old ++ more))
  read_records-reopen old more w e =
      let (w', runs, wrote) =
        add_records-Written (create w.file) more old (create-IsAligned w.file)
          (unfold create in (add_records-create old w e).reads) in
      (w', runs, read_records-ReadsTo w'.file (old ++ more) wrote.reads)
