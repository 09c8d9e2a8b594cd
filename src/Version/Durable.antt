-- ===== src/Version/Durable.antt =====
-- What `write_new_version` of src/version.rs has made is what `recover` finds, also behind a crash.
use mathlib.Core.Path.{subst}
use mathlib.Core.List.{map-append}
use mulan_lsm.Prelude.{
  ℕ, ◌≤◌, arith, ◌≡◌, refl, sym, ap, ◌∙◌, List, [], ◌∷◌, ◌++◌, map, Bool, some, All, All-append,
  Result, ok, err, panic, ◌>>=◌, ◌⊎◌, inl, inr, append-nil, append_assoc, take,
}
use mulan_lsm.Prelude.Bytes.{Bytes, IsU32}
use mulan_lsm.Prelude.Prefix.{IsPrefix}
use mulan_lsm.FileMeta.{FileNumber}
use mulan_lsm.Wal.Writer.{create}
use mulan_lsm.Wal.Reader.{read_records}
use mulan_lsm.Wal.RoundTrip.{read_records-ReadsTo}
use mulan_lsm.Wal.Crash.{torn}
use mulan_lsm.Manifest.Edit.{VersionEdit}
use mulan_lsm.Manifest.Codec.{encode}
use mulan_lsm.Manifest.Written.{IsEdit}
use mulan_lsm.Version.{VersionSet, new_pending, recover, write_new_version}
use mulan_lsm.Version.Tracks.{
  IsWritable, Tracks, Step, recover_lem, new_pending-Tracks, write_new_version-Tracks,
}

-- Edits one after another, up to the first that fails.
unfoldable pub write_edits : (Bytes → ℕ) → VersionSet → List VersionEdit → Result VersionSet
write_edits crc32c vs [] = ok vs
write_edits crc32c vs (edit ∷ edits) =
    let (vs', result) = write_new_version crc32c vs edit in
    do _ ← result; write_edits crc32c vs' edits

ok_eq {ℓ} : {A : Type ℓ} {a b : A} → ok a ≡ ok b → a ≡ b
ok_eq {a} {b} h = ap (λ r. elim r [ ok x ↦ x | err e ↦ a | panic ↦ a ]) h

-- A set whose manifest is opened again over this file.
abbrev pub reopened : VersionSet → Bytes → VersionSet
reopened vs file = record vs { manifest_writer = create file }

All-fits :
    (is_utf8 : Bytes → Bool) (edits : List VersionEdit)
    → All (IsWritable is_utf8) edits
    → All (IsEdit is_utf8) edits
All-fits is_utf8 [] h = h
All-fits is_utf8 (e ∷ es) h = (h.0.fits, All-fits is_utf8 es h.1)

module _ (is_utf8 : Bytes → Bool) (crc32c : Bytes → ℕ)
    (bounded : (d : Bytes) → IsU32 (crc32c d)) where
  record Wrote (vs vs' : VersionSet) (edits all : List VersionEdit) : Type 0 where
    runs : write_edits crc32c vs edits ≡ ok vs'
    tracks : Tracks crc32c bounded vs' all
    number : vs'.manifest_number ≡ vs.manifest_number

  write_edits-Tracks :
      (vs : VersionSet) (done edits : List VersionEdit)
      → Tracks crc32c bounded vs done
      → All (IsWritable is_utf8) edits
      → (vs' : VersionSet) × Wrote vs vs' edits (done ++ edits)
  unfolding write_edits
  write_edits-Tracks vs done [] t h = (
    vs,
    record {
      runs = refl;
      tracks =
          subst (λ (l : List VersionEdit). Tracks crc32c bounded vs l) (sym (append-nil done)) t;
      number = refl;
    },
  )
  write_edits-Tracks vs done (e ∷ es) t h =
      let (vs1, step) = write_new_version-Tracks crc32c bounded is_utf8 vs done e t h.0 in
      let (vs2, rest) = write_edits-Tracks vs1 (done ++ e ∷ []) es step.tracks h.1 in
      (
        vs2,
        record {
          runs = rw (write_edits, step.writes) rest.runs;
          tracks =
              subst (λ (l : List VersionEdit). Tracks crc32c bounded vs2 l)
                (append_assoc done (e ∷ []) es) rest.tracks;
          number = rest.number ∙ step.number;
        },
      )

  recover-Tracks :
      (vs : VersionSet) (number : FileNumber) (edits : List VersionEdit) (file : Bytes)
      → vs.manifest_number ≡ number
      → Tracks crc32c bounded vs edits
      → All (IsWritable is_utf8) edits
      → read_records crc32c file ≡ some (map encode edits)
      → recover is_utf8 crc32c number file ≡ ok (reopened vs file)
  recover-Tracks vs number edits file same t h found =
      ap (λ (n : FileNumber). recover is_utf8 crc32c n file) (sym same)
      ∙ recover_lem is_utf8 crc32c vs.manifest_number file edits t.state found
          (All-fits is_utf8 edits h) t.replays
      ∙ ap (λ (v : VersionSet). ok (reopened v file)) (sym t.same)

  -- A new database that writes edits one after another succeeds at each, and recovery from the
  -- bytes of its manifest gives the same version, numbers, sequence number and compaction
  -- pointers. The edits fit the format and name levels below seven; the checksum is any function
  -- to 32-bit words.
  pub recover-write_edits :
      (number : FileNumber) (edits : List VersionEdit)
      → All (IsWritable is_utf8) edits
      → (vs : VersionSet) × (write_edits crc32c (new_pending number []) edits ≡ ok vs)
        × (recover is_utf8 crc32c number vs.manifest_writer.file
            ≡ ok (reopened vs vs.manifest_writer.file))
  recover-write_edits number edits h =
      let (vs, wrote) =
        write_edits-Tracks (new_pending number []) [] edits
          (new_pending-Tracks crc32c bounded number) h in
      let found =
        read_records-ReadsTo crc32c bounded vs.manifest_writer.file (map encode edits)
          wrote.tracks.holds.reads in
      (
        vs,
        wrote.runs,
        recover-Tracks vs number edits vs.manifest_writer.file (unfold new_pending in wrote.number)
            wrote.tracks h found,
      )

  prefix_of_one :
      {A : Type 0} (xs : List A) (a : A) → IsPrefix xs (a ∷ []) → (xs ≡ []) ⊎ (xs ≡ a ∷ [])
  prefix_of_one [] a h = inl refl
  prefix_of_one (x ∷ []) a (rest, e) = inr (ground (arith, e))
  prefix_of_one (x ∷ y ∷ xs) a (rest, e) = ground (arith, e)

  -- A set that is written to and then loses a part of its manifest behind the synced one.
  recover_torn :
      (vs vs' : VersionSet) (number : FileNumber) (edits : List VersionEdit) (edit : VersionEdit)
      (n : ℕ)
      → vs.manifest_number ≡ number
      → Tracks crc32c bounded vs edits
      → All (IsWritable is_utf8) edits
      → IsWritable is_utf8 edit
      → Step crc32c bounded vs vs' edits edit
      → vs.manifest_writer.synced ≤ n
      → (recover is_utf8 crc32c number (take n vs'.manifest_writer.file)
          ≡ ok (reopened vs (take n vs'.manifest_writer.file)))
        ⊎ (recover is_utf8 crc32c number (take n vs'.manifest_writer.file)
            ≡ ok (reopened vs' (take n vs'.manifest_writer.file)))
  recover_torn vs vs' number edits edit n same t h ok_edit step bound =
      let file = vs.manifest_writer.file in
      let (rest, grown) = step.grows in
      let read = read_records-ReadsTo crc32c bounded file (map encode edits) t.holds.reads in
      let read' =
        read_records-ReadsTo crc32c bounded vs'.manifest_writer.file
          (map encode (edits ++ edit ∷ [])) step.tracks.holds.reads in
      let (kept, found, begins) =
        torn crc32c bounded (map encode edits) (encode edit ∷ []) file rest n
          (omega (arith, bound, t.holds.synced)) read
          (rw (grown, sym (map-append encode edits (edit ∷ []))) read') in
      let left = take n vs'.manifest_writer.file in
      let found' : read_records crc32c left ≡ some (map encode edits ++ kept) =
        subst (λ (f : Bytes). read_records crc32c (take n f) ≡ some (map encode edits ++ kept))
          grown found in
      elim (prefix_of_one kept (encode edit) begins) [
        | inl lost ↦ inl (
            recover-Tracks vs number edits left same t h (
              found'
              ∙ ap some (ap (λ k. map encode edits ++ k) lost ∙ append-nil (map encode edits))))
        | inr whole ↦ inr (
            recover-Tracks vs' number (edits ++ edit ∷ []) left (step.number ∙ same) step.tracks
              (All-append (IsWritable is_utf8) edits (edit ∷ []) h (ok_edit, _))
              (found'
                ∙ ap some (
                    ap (λ k. map encode edits ++ k) whole
                    ∙ sym (map-append encode edits (edit ∷ [])))))
      ]

  -- A new database writes edits and then one more, and the machine stops with at least the synced
  -- part of the manifest left: recovery gives the state before the last edit or the state behind
  -- it, and no other. The edits fit the format and name levels below seven; the checksum is any
  -- function to 32-bit words.
  pub recover_atomic :
      (number : FileNumber) (edits : List VersionEdit) (edit : VersionEdit) (vs : VersionSet)
      (n : ℕ)
      → All (IsWritable is_utf8) edits
      → IsWritable is_utf8 edit
      → write_edits crc32c (new_pending number []) edits ≡ ok vs
      → vs.manifest_writer.synced ≤ n
      → (recover is_utf8 crc32c number
            (take n (write_new_version crc32c vs edit).0.manifest_writer.file)
          ≡ ok (reopened vs (take n (write_new_version crc32c vs edit).0.manifest_writer.file)))
        ⊎ (recover is_utf8 crc32c number
              (take n (write_new_version crc32c vs edit).0.manifest_writer.file)
            ≡ ok (
                reopened
                  (write_new_version crc32c vs edit).0
                  (take n (write_new_version crc32c vs edit).0.manifest_writer.file)))
  recover_atomic number edits edit vs n h ok_edit e bound =
      let (vs0, wrote) =
        write_edits-Tracks (new_pending number []) [] edits
          (new_pending-Tracks crc32c bounded number) h in
      let same : vs0 ≡ vs = ok_eq (sym wrote.runs ∙ e) in
      let t = subst (λ (v : VersionSet). Tracks crc32c bounded v edits) same wrote.tracks in
      let numbered : vs.manifest_number ≡ number =
        subst (λ (v : VersionSet). v.manifest_number ≡ number) same
          (unfold new_pending in wrote.number) in
      let (vs', step) = write_new_version-Tracks crc32c bounded is_utf8 vs edits edit t ok_edit in
      rw step.writes (recover_torn vs vs' number edits edit n numbered t h ok_edit step bound)
