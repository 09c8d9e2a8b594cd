-- ===== src/Version/Tracks.antt =====
-- The steps of `write_new_version` of src/version.rs beside the manifest that they leave and its replay.
use mathlib.Core.Path.{subst}
use mathlib.Core.List.{map-append}
use mulan_lsm.Prelude.{
  ℕ, ◌<◌, arith, ◌≡◌, refl, sym, ap, ◌∙◌, List, [], ◌∷◌, ◌++◌, map, length, set, length-set, ltb,
  lt→ltb, Bool, true, none, some, All, ok, >>=-eq-ok, inl, inr,
}
use mulan_lsm.Prelude.Bytes.{Bytes, IsU32}
use mulan_lsm.Prelude.Prefix.{IsPrefix}
use mulan_lsm.FileMeta.{FileNumber}
use mulan_lsm.Wal.Writer.{create, sync}
use mulan_lsm.Wal.Reader.{read_records}
use mulan_lsm.Wal.Trailer.{IsAligned, create-IsAligned, ReadsTo}
use mulan_lsm.Wal.RoundTrip.{add_record-Written, ReadsTo-empty}
use mulan_lsm.Manifest.Edit.{VersionEdit}
use mulan_lsm.Manifest.Codec.{encode}
use mulan_lsm.Manifest.Written.{IsEdit}
use mulan_lsm.Manifest.Log.{ManifestWriter, append, recover_manifest, decode_all-map}
use mulan_lsm.Version.{
  Version, num_levels, VersionSet, or_keep, new_pending, empty, Replay, replay_start,
  replay_pointers, replay_edit, replay, recover, set_compact_pointer, set_pointers,
  write_new_version, apply_edit,
}
use mulan_lsm.Version.Levels.{IsLeveled, apply_edit_total}

-- An edit that the format can hold, of levels that are there.
pub record IsWritable (is_utf8 : Bytes → Bool) (edit : VersionEdit) : Type 0 where
  pub fits : IsEdit is_utf8 edit
  pub leveled : IsLeveled edit
  pub pointed : All (λ p. p.0 < num_levels) edit.compact_pointers

-- The set that a replay stands for.
abbrev pub set_of : FileNumber → ManifestWriter → List ℕ → Replay → VersionSet
set_of number writer snapshots r = record {
  current = r.version;
  log_number = r.log_number;
  prev_log_number = r.prev_log_number;
  next_file_number = r.next_file_number;
  last_sequence = r.last_sequence;
  manifest_number = number;
  manifest_writer = writer;
  compact_pointer = r.compact_pointer;
  snapshots = snapshots;
}

pub record IsWhole (r : Replay) : Type 0 where
  pub levels : length r.version.files ≡ num_levels
  pub pointers : length r.compact_pointer ≡ num_levels

set_pointers_lem :
    (pointers : List Bytes) (ps : List (ℕ × Bytes))
    → length pointers ≡ num_levels
    → All (λ p. p.0 < num_levels) ps
    → (set_pointers pointers ps ≡ ok (replay_pointers pointers ps))
      × (length (replay_pointers pointers ps) ≡ num_levels)
unfolding set_pointers replay_pointers set_compact_pointer
set_pointers_lem pointers [] whole h = (refl, whole)
set_pointers_lem pointers ((level, key) ∷ ps) whole h =
    let inside : ltb level (length pointers) ≡ true = lt→ltb _ _ (omega (arith, whole, h.0)) in
    let low : ltb level num_levels ≡ true = lt→ltb _ _ h.0 in
    rw (inside, low)
      (set_pointers_lem (set pointers level key) ps (length-set pointers level key ∙ whole) h.1)

replay_edit_total :
    (r : Replay) (edit : VersionEdit)
    → IsWhole r
    → IsLeveled edit
    → (made : Version) × (apply_edit r.version edit ≡ ok made) × (length made.files ≡ num_levels)
replay_edit_total r edit whole h = elim (apply_edit_total r.version edit whole.levels) [
  | inl (_, found) ↦ found
  | inr (over, _) ↦ absurd (over h)
]

abbrev replayed : Replay → VersionEdit → Version → Replay
replayed r edit made = record {
  version = made;
  log_number = or_keep edit.log_number r.log_number;
  prev_log_number = or_keep edit.prev_log_number r.prev_log_number;
  next_file_number = or_keep edit.next_file_number r.next_file_number;
  last_sequence = or_keep edit.last_sequence r.last_sequence;
  compact_pointer = replay_pointers r.compact_pointer edit.compact_pointers;
}

module _ (crc32c : Bytes → ℕ) where
  -- The set and the replay take the same step.
  write_new_version-replay_edit :
      (number : FileNumber) (w w' : ManifestWriter) (snapshots : List ℕ) (r : Replay)
      (edit : VersionEdit)
      → IsWhole r
      → IsLeveled edit
      → All (λ p. p.0 < num_levels) edit.compact_pointers
      → append crc32c w edit ≡ some w'
      → (r' : Replay) × (replay_edit r edit ≡ ok r')
        × ((write_new_version crc32c (set_of number w snapshots r) edit
              ≡ (set_of number w' snapshots r', ok r'.version))
            × IsWhole r')
  unfolding write_new_version replay_edit
  write_new_version-replay_edit number w w' snapshots r edit whole leveled pointed e =
      let (made, applied, levels) = replay_edit_total r edit whole leveled in
      let (stored, pointers) =
        set_pointers_lem r.compact_pointer edit.compact_pointers whole.pointers pointed in
      (
        replayed r edit made,
        rw applied refl,
        (
          rw (write_new_version, e, applied, stored) refl,
          record { levels = levels; pointers = pointers },
        ),
      )

replay-append :
    (r r1 r2 : Replay) (edits : List VersionEdit) (edit : VersionEdit)
    → replay r edits ≡ ok r1
    → replay_edit r1 edit ≡ ok r2
    → replay r (edits ++ edit ∷ []) ≡ ok r2
unfolding replay
replay-append r r1 r2 [] edit h e = let same : r ≡ r1 = cc in rw (same, e) refl
replay-append r r1 r2 (x ∷ xs) edit h e =
    let (r', first, rest) = >>=-eq-ok (replay_edit r x) _ h in
    rw first (replay-append r' r1 r2 xs edit rest e)

-- A file that these edits are read from is recovered to their replay.
pub recover_lem :
    (is_utf8 : Bytes → Bool) (crc32c : Bytes → ℕ) (number : FileNumber) (file : Bytes)
    (edits : List VersionEdit) (r : Replay)
    → read_records crc32c file ≡ some (map encode edits)
    → All (IsEdit is_utf8) edits
    → replay replay_start edits ≡ ok r
    → recover is_utf8 crc32c number file ≡ ok (set_of number (create file) [] r)
unfolding recover
recover_lem is_utf8 crc32c number file edits r found fits replays =
    let read : recover_manifest is_utf8 crc32c file ≡ ok edits =
      unfold recover_manifest in rw (recover_manifest, found) (decode_all-map is_utf8 edits fits) in
    rw (read, replays) refl

module _ (crc32c : Bytes → ℕ) (bounded : (d : Bytes) → IsU32 (crc32c d)) where
  -- A manifest that its reader finds these edits in, ready for more.
  pub record Holds (w : ManifestWriter) (edits : List VersionEdit) : Type 0 where
    pub aligned : IsAligned w
    pub reads : ReadsTo crc32c w.file none (map encode edits)
    pub synced : w.synced ≡ length w.file

  append-Holds :
      (w : ManifestWriter) (edits : List VersionEdit) (edit : VersionEdit)
      → Holds w edits
      → (w' : ManifestWriter) × (append crc32c w edit ≡ some w')
        × (Holds w' (edits ++ edit ∷ []) × IsPrefix w.file w'.file)
  unfolding append sync
  append-Holds w edits edit h =
      let (w1, runs, wrote) =
        add_record-Written crc32c bounded w (encode edit) (map encode edits) h.aligned h.reads in
      (
        sync w1,
        rw (append, runs) refl,
        (
          record {
            aligned = record { within = wrote.aligned.within; offset = wrote.aligned.offset };
            reads =
                subst (λ (t : List Bytes). ReadsTo crc32c w1.file none t)
                  (sym (map-append encode edits (edit ∷ []))) wrote.reads;
            synced = refl;
          },
          wrote.grows,
        ),
      )

  create-Holds : Holds (create []) []
  create-Holds = record {
    aligned = create-IsAligned [];
    reads = unfold create in ReadsTo-empty crc32c bounded;
    synced = unfold create in refl;
  }

  -- A set, the edits that led to it and the replay of these.
  pub record Tracks (vs : VersionSet) (edits : List VersionEdit) : Type 0 where
    pub state : Replay
    pub holds : Holds vs.manifest_writer edits
    pub same : vs ≡ set_of vs.manifest_number vs.manifest_writer [] state
    pub replays : replay replay_start edits ≡ ok state
    pub whole : IsWhole state

  pub new_pending-Tracks : (number : FileNumber) → Tracks (new_pending number []) []
  unfolding new_pending empty replay
  new_pending-Tracks number = record {
    state = replay_start;
    holds = create-Holds;
    same = refl;
    replays = refl;
    whole = record { levels = refl; pointers = refl };
  }

  pub record Step (vs vs' : VersionSet) (edits : List VersionEdit) (edit : VersionEdit)
      : Type 0 where
    pub writes : write_new_version crc32c vs edit ≡ (vs', ok vs'.current)
    pub tracks : Tracks vs' (edits ++ edit ∷ [])
    pub grows : IsPrefix vs.manifest_writer.file vs'.manifest_writer.file
    pub number : vs'.manifest_number ≡ vs.manifest_number

  pub write_new_version-Tracks :
      (is_utf8 : Bytes → Bool) (vs : VersionSet) (edits : List VersionEdit) (edit : VersionEdit)
      → Tracks vs edits
      → IsWritable is_utf8 edit
      → (vs' : VersionSet) × Step vs vs' edits edit
  write_new_version-Tracks is_utf8 vs edits edit t ok_edit =
      let w = vs.manifest_writer in
      let (w', runs, (holds, grows)) = append-Holds w edits edit t.holds in
      let (r', replays, (writes, whole)) =
        write_new_version-replay_edit crc32c vs.manifest_number w w' [] t.state edit t.whole
          ok_edit.leveled ok_edit.pointed runs in
      (
        set_of vs.manifest_number w' [] r',
        record {
          writes = ap (λ v. write_new_version crc32c v edit) t.same ∙ writes;
          tracks = record {
            state = r';
            holds = holds;
            same = refl;
            replays = replay-append replay_start t.state r' edits edit t.replays replays;
            whole = whole;
          };
          grows = grows;
          number = refl;
        },
      )
