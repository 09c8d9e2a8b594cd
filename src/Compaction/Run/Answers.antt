-- ===== src/Compaction/Run/Answers.antt =====
-- Reads of what `do_compaction` of src/compaction.rs leaves in the directory.
use mulan_lsm.Prelude.{ℕ, ◌+◌, ◌^◌, ◌<◌, ◌≤◌, ◌≡◌, List, ◌++◌, map, length, All, ok}
use mulan_lsm.Prelude.Bytes.{Bytes}
use mulan_lsm.FileMeta.{IdGenerator}
use mulan_lsm.Version.{Version, num_levels}
use mulan_lsm.Reads.{Entry, IsOrdered, bytes_of, read}
use mulan_lsm.Iterator.{Item, merging}
use mulan_lsm.Iterator.Streams.{Streams, concat}
use mulan_lsm.Iterator.Scan.{AreU64}
use mulan_lsm.Tables.{Tables, IsReliable}
use mulan_lsm.Compaction.{Compaction}
use mulan_lsm.Compaction.Drop.{no_last, kept}
use mulan_lsm.Compaction.Reads.{kept-read}
use mulan_lsm.Compaction.Run.{Directory, open_inputs, CompactionOutput, do_compaction}
use mulan_lsm.Compaction.Run.Contents.{AllSmall}
use mulan_lsm.Compaction.Run.Written.{is_base, do_compaction-kept}

-- A compaction whose input tables open, and whose merge gives the encodings of a sorted sequence
-- of versions, succeeds, and its new tables together hold versions that read, for any key and at
-- any snapshot from the oldest live one on, as what was merged. The version has seven levels;
-- builder and reader of tables keep the laws IsReliable, the versions fit and every table in the
-- directory it leaves is small in the sense of these laws; sequence numbers are of 64 bits, there
-- is a file number of 64 bits for every version, and the fuel exceeds the number of versions.
pub do_compaction-read :
    (T : Tables) (R : IsReliable T) (c : Compaction) (version : Version) (oldest : ℕ)
    → length version.files ≡ num_levels
    → (fuel : ℕ) (dir : Directory T) (id_gen : IdGenerator) (sources : List (List Item))
      (entries : List Entry) (snapshot : ℕ) (key : Bytes)
    → open_inputs T dir (c.inputs0 ++ c.inputs1) ≡ ok sources
    → Streams (merging sources) (map bytes_of entries)
    → AreU64 entries
    → All (λ x. R.Fits (bytes_of x)) entries
    → length entries < fuel
    → IsOrdered entries
    → oldest ≤ snapshot
    → id_gen.next + length entries < 2 ^ 64
    → ((output : CompactionOutput) (dir' : Directory T) (id_gen' : IdGenerator)
        → do_compaction T fuel dir c version id_gen oldest ≡ ok (output, dir', id_gen')
        → AllSmall T R dir')
    → (output : CompactionOutput) × (dir' : Directory T) × (id_gen' : IdGenerator) × (written : List
        (List Item))
      × (entries' : List Entry) × (do_compaction T fuel dir c version id_gen oldest
          ≡ ok (output, dir', id_gen'))
      × (open_inputs T dir' output.new_files ≡ ok written)
      × (concat written ≡ map bytes_of entries')
      × (read snapshot key entries' ≡ read snapshot key entries)
do_compaction-read T R c version oldest seven fuel dir id_gen sources entries snapshot key opened
      streams u fits enough ordered recent room small =
    let (output, dir', id_gen', written, ends, reads_back, contents, _) =
      do_compaction-kept T R c version oldest seven fuel dir id_gen sources entries opened streams u
        fits enough room small in
    (
      output,
      dir',
      id_gen',
      written,
      kept (is_base c version) oldest no_last entries,
      ends,
      reads_back,
      contents,
      kept-read (is_base c version) oldest snapshot recent key entries ordered,
    )
