-- ===== src/Manifest/Log.antt =====
-- src/manifest.rs: `ManifestWriter` and `recover_manifest`. The manifest is a log of src/wal.rs whose
-- records are edits.
use mulan_lsm.Prelude.{
  ℕ, ◌≡◌, refl, List, [], ◌∷◌, map, Bool, Option, none, some, All, Result, ok, panic, ◌>>=◌,
}
use mulan_lsm.Prelude.Bytes.{Bytes}
use mulan_lsm.Wal.Writer.{WalWriter, add_record, sync}
use mulan_lsm.Wal.Reader.{read_records}
use mulan_lsm.Manifest.Edit.{VersionEdit}
use mulan_lsm.Manifest.Codec.{encode, decode}
use mulan_lsm.Manifest.Written.{IsEdit}
use mulan_lsm.Manifest.RoundTrip.{decode-encode_edit}

-- `ManifestWriter::create` over the file's contents is the log's `create`.
abbrev pub ManifestWriter : Type 0
ManifestWriter = WalWriter

-- `add_record(&edit.encode())` and `sync`
unfoldable pub append : (Bytes → ℕ) → ManifestWriter → VersionEdit → Option ManifestWriter
append crc32c w edit = elim (add_record crc32c w (encode edit)) [
  | none ↦ none
  | some w' ↦ some (sync w')
]

module _ (is_utf8 : Bytes → Bool) where
  -- The first record that is no edit fails the recovery.
  unfoldable pub decode_all : List Bytes → Result (List VersionEdit)
  decode_all [] = ok []
  decode_all (rec ∷ records) = do
    edit ← decode is_utf8 rec
    edits ← decode_all records
    ok (edit ∷ edits)

  -- `recover_manifest`, over the bytes of the manifest that CURRENT names.
  unfoldable pub recover_manifest : (Bytes → ℕ) → Bytes → Result (List VersionEdit)
  recover_manifest crc32c file = elim (read_records crc32c file) [
    | none ↦ panic
    | some records ↦ decode_all records
  ]

  pub decode_all-map :
      (edits : List VersionEdit)
      → All (IsEdit is_utf8) edits
      → decode_all (map encode edits) ≡ ok edits
  unfolding decode_all
  decode_all-map [] h = refl
  decode_all-map (e ∷ es) h = rw (decode-encode_edit is_utf8 e h.0, decode_all-map es h.1)
