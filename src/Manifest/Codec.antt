-- ===== src/Manifest/Codec.antt =====
-- src/manifest.rs: `VersionEdit::encode_to` and `VersionEdit::decode`. What the loop has not read is
-- the list `buf[i..]`; `i += n` drops `n` bytes of it.
use mulan_lsm.Prelude.{
  ℕ, zero, suc, ◌%◌, ◌^◌, [], ◌∷◌, ◌++◌, length, take, drop, foldl, ltb, ◌==◌, if◌then◌else◌, Bool,
  Option, none, some, Result, ok, err, panic, MulanError, ◌>>=◌,
}
use mulan_lsm.Prelude.Bytes.{Bytes}
use mulan_lsm.Varint.{encode_varint32, encode_varint64, decode_varint32, decode_varint64}
use mulan_lsm.InternalKey
use mulan_lsm.InternalKey.{InternalKey}
use mulan_lsm.FileMeta.{new_meta}
use mulan_lsm.Manifest.Edit.{
  DeletedFile, NewFile, VersionEdit, new_edit, add_delete, add_file, set_compact_pointer,
}

abbrev pub tag_comparator : ℕ
tag_comparator = 1

abbrev pub tag_log_number : ℕ
tag_log_number = 2

abbrev pub tag_next_file_number : ℕ
tag_next_file_number = 3

abbrev pub tag_last_sequence : ℕ
tag_last_sequence = 4

abbrev pub tag_compact_pointer : ℕ
tag_compact_pointer = 5

abbrev pub tag_deleted_file : ℕ
tag_deleted_file = 6

abbrev pub tag_new_file : ℕ
tag_new_file = 7

abbrev pub tag_prev_log_number : ℕ
tag_prev_log_number = 9

-- A byte string behind its length, which is cast to a `u32`.
unfoldable pub put_sized : Bytes → Bytes → Bytes
put_sized buf payload = (encode_varint32 buf (length payload % 2 ^ 32)).0 ++ payload

-- `if let Some(n) = field { push(tag); encode_varint64(n) }`
unfoldable pub put_number : ℕ → Option ℕ → Bytes → Bytes
put_number tag none buf = buf
put_number tag (some n) buf = (encode_varint64 (buf ++ tag ∷ []) n).0

unfoldable pub put_comparator : Option Bytes → Bytes → Bytes
put_comparator none buf = buf
put_comparator (some c) buf = put_sized (buf ++ tag_comparator ∷ []) c

unfoldable pub put_deleted : Bytes → DeletedFile → Bytes
put_deleted buf d =
    (encode_varint64 (encode_varint32 (buf ++ tag_deleted_file ∷ []) d.level).0 d.number).0

unfoldable pub put_new_file : Bytes → NewFile → Bytes
put_new_file buf f =
    let head = (encode_varint32 (buf ++ tag_new_file ∷ []) f.level).0 in
    let numbers = (encode_varint64 (encode_varint64 head f.meta.number).0 f.meta.file_size).0 in
    put_sized (put_sized numbers (InternalKey.encode f.meta.smallest))
      (InternalKey.encode f.meta.largest)

unfoldable pub put_pointer : Bytes → ℕ × Bytes → Bytes
put_pointer buf p = put_sized (encode_varint32 (buf ++ tag_compact_pointer ∷ []) p.0).0 p.1

unfoldable pub encode_to : VersionEdit → Bytes → Bytes
encode_to e buf =
    let comparator = put_comparator e.comparator buf in
    let log = put_number tag_log_number e.log_number comparator in
    let prev = put_number tag_prev_log_number e.prev_log_number log in
    let next = put_number tag_next_file_number e.next_file_number prev in
    let last = put_number tag_last_sequence e.last_sequence next in
    let deleted = foldl put_deleted last e.deleted_files in
    let added = foldl put_new_file deleted e.new_files in foldl put_pointer added e.compact_pointers

unfoldable pub encode : VersionEdit → Bytes
unfolding encode_to
encode e = encode_to e []

-- `decode_varint64(&buf[i..])?; i += used`
unfoldable pub get_number : Bytes → Result (ℕ × Bytes)
get_number buf = do (n, used) ← decode_varint64 buf; ok (n, drop used buf)

unfoldable pub get_word : Bytes → Result (ℕ × Bytes)
get_word buf = do (n, used) ← decode_varint32 buf; ok (n, drop used buf)

-- A length, the bytes that it announces, and what follows.
unfoldable pub get_sized : Bytes → Result (Bytes × Bytes)
get_sized buf = do
  (len, rest) ← get_word buf
  if ltb (length rest) len then err MulanError.corrupted else ok (take len rest, drop len rest)

module _ (is_utf8 : Bytes → Bool) where
  unfoldable pub get_comparator : VersionEdit → Bytes → Result (VersionEdit × Bytes)
  get_comparator e buf = do
    (c, rest) ← get_sized buf
    if is_utf8 c then ok (record e { comparator = some c }, rest) else err MulanError.corrupted

  unfoldable pub get_deleted : VersionEdit → Bytes → Result (VersionEdit × Bytes)
  get_deleted e buf = do
    (level, rest) ← get_word buf
    (number, rest') ← get_number rest
    ok (add_delete level number e, rest')

  unfoldable pub get_new_file : VersionEdit → Bytes → Result (VersionEdit × Bytes)
  get_new_file e buf = do
    (level, r1) ← get_word buf
    (number, r2) ← get_number r1
    (size, r3) ← get_number r2
    (s, r4) ← get_sized r3
    smallest ← InternalKey.decode s
    (l, r5) ← get_sized r4
    largest ← InternalKey.decode l
    ok (add_file level (new_meta number size smallest largest) e, r5)

  unfoldable pub get_pointer : VersionEdit → Bytes → Result (VersionEdit × Bytes)
  get_pointer e buf = do
    (level, rest) ← get_word buf
    (key, rest') ← get_sized rest
    ok (set_compact_pointer level key e, rest')

  -- One field, behind its tag.
  unfoldable pub decode_field : ℕ → VersionEdit → Bytes → Result (VersionEdit × Bytes)
  decode_field tag e buf =
      if tag == tag_comparator
      then get_comparator e buf
      else if tag == tag_log_number
      then (do (n, rest) ← get_number buf; ok (record e { log_number = some n }, rest))
      else if tag == tag_prev_log_number
      then (do (n, rest) ← get_number buf; ok (record e { prev_log_number = some n }, rest))
      else if tag == tag_next_file_number
      then (do (n, rest) ← get_number buf; ok (record e { next_file_number = some n }, rest))
      else if tag == tag_last_sequence
      then (do (s, rest) ← get_number buf; ok (record e { last_sequence = some s }, rest))
      else if tag == tag_deleted_file
      then get_deleted e buf
      else if tag == tag_new_file
      then get_new_file e buf
      else if tag == tag_compact_pointer
      then get_pointer e buf
      else err MulanError.corrupted

  -- `while i < buf.len()`, on fuel: every field takes a byte at least. `panic` where it runs out.
  unfoldable pub decode_loop : ℕ → VersionEdit → Bytes → Result VersionEdit
  decode_loop fuel e [] = ok e
  decode_loop zero e (tag ∷ buf) = panic
  decode_loop (suc fuel) e (tag ∷ buf) = do
    (e', rest) ← decode_field tag e buf
    decode_loop fuel e' rest

  unfoldable pub decode : Bytes → Result VersionEdit
  decode buf = decode_loop (length buf) new_edit buf
