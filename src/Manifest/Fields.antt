-- ===== src/Manifest/Fields.antt =====
-- The fields of a version edit of src/manifest.rs one by one: their bytes, and what the decoder makes
-- of these.
use mulan_lsm.Prelude.{
  ℕ, arith, ◌≡◌, refl, ◌++◌, length, length-append, drop-append_exact, take-append_exact,
  append_assoc, ltb_not, Bool, true, some, ok,
}
use mulan_lsm.Prelude.Bytes.{Bytes, IsU32, IsU64}
use mulan_lsm.Varint.Encode.{groups}
use mulan_lsm.Varint.RoundTrip.{decode_varint32-groups, decode_varint64-groups}
use mulan_lsm.InternalKey
use mulan_lsm.InternalKey.{InternalKey}
use mulan_lsm.InternalKey.Codec.{decode-encode}
use mulan_lsm.FileMeta.{FileMetaData, new_meta}
use mulan_lsm.Manifest.Edit.{
  DeletedFile, NewFile, VersionEdit, add_delete, add_file, set_compact_pointer,
}
use mulan_lsm.Manifest.Codec.{
  get_number, get_word, get_sized, get_comparator, get_deleted, get_new_file, get_pointer,
  decode_field,
}

pub data Field : Type 0 where
  comparator : Bytes → Field
  log_number prev_log_number next_file_number last_sequence : ℕ → Field
  deleted : DeletedFile → Field
  added : NewFile → Field
  pointer : ℕ × Bytes → Field

abbrev pub tag_of : Field → ℕ
tag_of (comparator c) = 1
tag_of (log_number n) = 2
tag_of (prev_log_number n) = 9
tag_of (next_file_number n) = 3
tag_of (last_sequence n) = 4
tag_of (deleted d) = 6
tag_of (added f) = 7
tag_of (pointer p) = 5

abbrev pub sized : Bytes → Bytes
sized p = groups 4 (length p) ++ p

abbrev pub body_of : Field → Bytes
body_of (comparator c) = sized c
body_of (log_number n) = groups 9 n
body_of (prev_log_number n) = groups 9 n
body_of (next_file_number n) = groups 9 n
body_of (last_sequence n) = groups 9 n
body_of (deleted d) = groups 4 d.level ++ groups 9 d.number
body_of (added f) =
    groups 4 f.level
    ++ groups 9 f.meta.number
    ++ groups 9 f.meta.file_size
    ++ sized (InternalKey.encode f.meta.smallest)
    ++ sized (InternalKey.encode f.meta.largest)
body_of (pointer p) = groups 4 p.0 ++ sized p.1

abbrev pub apply_field : Field → VersionEdit → VersionEdit
apply_field (comparator c) e = record e { comparator = some c }
apply_field (log_number n) e = record e { log_number = some n }
apply_field (prev_log_number n) e = record e { prev_log_number = some n }
apply_field (next_file_number n) e = record e { next_file_number = some n }
apply_field (last_sequence n) e = record e { last_sequence = some n }
apply_field (deleted d) e = add_delete d.level d.number e
apply_field (added f) e = add_file f.level f.meta e
apply_field (pointer p) e = set_compact_pointer p.0 p.1 e

-- A key that its encoding holds, and whose encoding has a 32-bit length.
pub record IsKey (k : InternalKey) : Type 0 where
  pub seq : IsU64 k.seq
  pub short : IsU32 (length (InternalKey.encode k))

-- What the format can hold. The seek count is not written.
pub record IsFile (f : NewFile) : Type 0 where
  pub level : IsU32 f.level
  pub number : IsU64 f.meta.number
  pub size : IsU64 f.meta.file_size
  pub smallest : IsKey f.meta.smallest
  pub largest : IsKey f.meta.largest
  pub seeks : f.meta.allowed_seeks ≡ 0

abbrev pub IsField : (Bytes → Bool) → Field → Type 0
IsField is_utf8 (comparator c) = (is_utf8 c ≡ true) × IsU32 (length c)
IsField is_utf8 (log_number n) = IsU64 n
IsField is_utf8 (prev_log_number n) = IsU64 n
IsField is_utf8 (next_file_number n) = IsU64 n
IsField is_utf8 (last_sequence n) = IsU64 n
IsField is_utf8 (deleted d) = IsU32 d.level × IsU64 d.number
IsField is_utf8 (added f) = IsFile f
IsField is_utf8 (pointer p) = IsU32 p.0 × IsU32 (length p.1)

get_word-groups : (n : ℕ) (rest : Bytes) → IsU32 n → get_word (groups 4 n ++ rest) ≡ ok (n, rest)
unfolding get_word
get_word-groups n rest h =
    rw (decode_varint32-groups n rest h, drop-append_exact _ (groups 4 n) rest refl)

get_number-groups :
    (n : ℕ) (rest : Bytes) → IsU64 n → get_number (groups 9 n ++ rest) ≡ ok (n, rest)
unfolding get_number
get_number-groups n rest h =
    rw (decode_varint64-groups n rest h, drop-append_exact _ (groups 9 n) rest refl)

get_sized-sized : (p rest : Bytes) → IsU32 (length p) → get_sized (sized p ++ rest) ≡ ok (p, rest)
unfolding get_sized
get_sized-sized p rest h = rw (
  append_assoc (groups 4 (length p)) p rest,
  get_word-groups (length p) (p ++ rest) h,
  ltb_not (length (p ++ rest)) (length p) (omega (arith, length-append {0} p rest)),
  take-append_exact (length p) p rest refl,
  drop-append_exact (length p) p rest refl,
)

regroup_five :
    (a b c d l rest : Bytes) → a ++ b ++ c ++ d ++ l ++ rest ≡ a ++ (b ++ (c ++ (d ++ (l ++ rest))))
regroup_five a b c d l rest = simp append_assoc

-- The metadata that the decoder builds is the one that was written, up to the seek count.
new_meta_lem :
    (m : FileMetaData)
    → m.allowed_seeks ≡ 0
    → new_meta m.number m.file_size m.smallest m.largest ≡ m
unfolding new_meta
new_meta_lem m h = ground (arith, h)

module _ (is_utf8 : Bytes → Bool) (e : VersionEdit) (rest : Bytes) where
  get_comparator-body :
      (c : Bytes)
      → IsField is_utf8 (comparator c)
      → get_comparator is_utf8 e (sized c ++ rest) ≡ ok (apply_field (comparator c) e, rest)
  unfolding get_comparator
  get_comparator-body c (valid, short) = rw (get_sized-sized c rest short, valid)

  get_deleted-body :
      (d : DeletedFile)
      → IsField is_utf8 (deleted d)
      → get_deleted is_utf8 e (body_of (deleted d) ++ rest) ≡ ok (apply_field (deleted d) e, rest)
  unfolding get_deleted
  get_deleted-body d (level, number) = rw (
    append_assoc (groups 4 d.level) (groups 9 d.number) rest,
    get_word-groups d.level (groups 9 d.number ++ rest) level,
    get_number-groups d.number rest number,
  )

  get_pointer-body :
      (p : ℕ × Bytes)
      → IsField is_utf8 (pointer p)
      → get_pointer is_utf8 e (body_of (pointer p) ++ rest) ≡ ok (apply_field (pointer p) e, rest)
  unfolding get_pointer
  get_pointer-body p (level, short) = rw (
    append_assoc (groups 4 p.0) (sized p.1) rest,
    get_word-groups p.0 (sized p.1 ++ rest) level,
    get_sized-sized p.1 rest short,
  )

  get_new_file-body :
      (f : NewFile)
      → IsFile f
      → get_new_file is_utf8 e (body_of (added f) ++ rest) ≡ ok (apply_field (added f) e, rest)
  unfolding get_new_file
  get_new_file-body f h =
      let s = sized (InternalKey.encode f.meta.smallest) in
      let l = sized (InternalKey.encode f.meta.largest) in
      let n = groups 9 f.meta.number in
      let z = groups 9 f.meta.file_size in
      rw (
        regroup_five (groups 4 f.level) n z s l rest,
        get_word-groups f.level (n ++ (z ++ (s ++ (l ++ rest)))) h.level,
        get_number-groups f.meta.number (z ++ (s ++ (l ++ rest))) h.number,
        get_number-groups f.meta.file_size (s ++ (l ++ rest)) h.size,
        get_sized-sized (InternalKey.encode f.meta.smallest) (l ++ rest) h.smallest.short,
        decode-encode f.meta.smallest h.smallest.seq,
        get_sized-sized (InternalKey.encode f.meta.largest) rest h.largest.short,
        decode-encode f.meta.largest h.largest.seq,
        new_meta_lem f.meta h.seeks,
      )

  -- Behind its tag every field is read back and leaves what follows.
  pub decode_field-body :
      (f : Field)
      → IsField is_utf8 f
      → decode_field is_utf8 (tag_of f) e (body_of f ++ rest) ≡ ok (apply_field f e, rest)
  unfolding decode_field
  decode_field-body (comparator c) h = get_comparator-body c h
  decode_field-body (log_number n) h = rw (get_number-groups n rest h)
  decode_field-body (prev_log_number n) h = rw (get_number-groups n rest h)
  decode_field-body (next_file_number n) h = rw (get_number-groups n rest h)
  decode_field-body (last_sequence n) h = rw (get_number-groups n rest h)
  decode_field-body (deleted d) h = get_deleted-body d h
  decode_field-body (added f) h = get_new_file-body f h
  decode_field-body (pointer p) h = get_pointer-body p h
