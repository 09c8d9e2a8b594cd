-- ===== src/Manifest/Tests.antt =====
-- The theorem about src/manifest.rs at a concrete edit, which other tests use too.
use mulan_lsm.Prelude.{arith, ◌≡◌, refl, [], ◌∷◌, Bool, true, none, some, ok, ◌<◌, ◌≤◌, ◌⊎◌, take}
use mulan_lsm.Prelude.Bytes.{Bytes}
use mulan_lsm.InternalKey.{ValueType, InternalKey}
use mulan_lsm.InternalKey.Codec.{length-encode}
use mulan_lsm.Manifest.Current.{
  Files, IsSettled, crash, run_steps, write_steps, write_current, read_current,
  write_current_atomic,
}
use mulan_lsm.Manifest.Edit.{VersionEdit}
use mulan_lsm.Manifest.Codec.{encode, decode}
use mulan_lsm.Manifest.Fields.{IsKey}
use mulan_lsm.Manifest.Written.{IsEdit}
use mulan_lsm.Manifest.RoundTrip.{decode-encode_edit}

-- Every byte below 128 is UTF-8 by itself.
abbrev pub any : Bytes → Bool
any b = true

abbrev pub low_key : InternalKey
low_key = record { user_key = 1 ∷ []; seq = 3; vtype = ValueType.put }

abbrev pub high_key : InternalKey
high_key = record { user_key = 4 ∷ 5 ∷ []; seq = 2; vtype = ValueType.delete }

low_key-IsKey : IsKey low_key
low_key-IsKey = record { seq = omega arith; short = omega (arith, length-encode low_key) }

high_key-IsKey : IsKey high_key
high_key-IsKey = record { seq = omega arith; short = omega (arith, length-encode high_key) }

-- A flush and a compaction in one edit.
abbrev pub one_edit : VersionEdit
one_edit = record {
  comparator = some (98 ∷ 121 ∷ []);
  log_number = some 7;
  prev_log_number = none;
  next_file_number = some 300;
  last_sequence = some 70000;
  deleted_files = (record { level = 0; number = 5 }) ∷ [];
  new_files =
      (record {
        level = 1;
        meta = record {
          number = 6;
          file_size = 4096;
          smallest = low_key;
          largest = high_key;
          allowed_seeks = 0;
        };
      })
      ∷ [];
  compact_pointers = (1, 4 ∷ 5 ∷ []) ∷ [];
}

pub one_edit-IsEdit : IsEdit any one_edit
one_edit-IsEdit = record {
  comparator = ((refl, omega arith), _);
  log = (omega arith, _);
  prev = _;
  next = (omega arith, _);
  last = (omega arith, _);
  deleted = ((omega arith, omega arith), _);
  added = (
    record {
      level = omega arith;
      number = omega arith;
      size = omega arith;
      smallest = low_key-IsKey;
      largest = high_key-IsKey;
      seeks = refl;
    },
    _,
  );
  pointers = ((omega arith, omega arith), _);
}

decode-encode_edit_example : decode any (encode one_edit) ≡ ok one_edit
decode-encode_edit_example = decode-encode_edit any one_edit one_edit-IsEdit

-- The new text is on disk, and CURRENT still names manifest 3.
abbrev pointing : Files
unfolding write_current write_steps
pointing = write_current 3 (record { current = none; tmp = none })

write_current_atomic_example :
    (((4 < 5)
        × (read_current (crash 0 (run_steps (take 4 (write_steps 7)) pointing))
            ≡ read_current pointing))
      ⊎ ((5 ≤ 4) × (read_current (crash 0 (run_steps (take 4 (write_steps 7)) pointing)) ≡ ok 7)))
    × (read_current (write_current 7 pointing) ≡ ok 7)
    × IsSettled (write_current 7 pointing).current
unfolding pointing
write_current_atomic_example = write_current_atomic pointing 7 4 0 (omega arith) refl
