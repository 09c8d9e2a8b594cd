-- ===== src/Wal/Pieces.antt =====
-- What the reader of src/wal.rs does on one piece, and on the zeros at the end of a block.
use mulan_lsm.Prelude.{
  ℕ, ◌+◌, ◌-◌, ◌*◌, ◌/◌, ◌%◌, ◌^◌, ◌≤◌, ◌<◌, arith, ◌≡◌, refl, sym, ◌∙◌, List, [], ◌∷◌, ◌++◌,
  length, length-append, take, slice, get_or, slice-append_middle, take-append_exact,
  get_or-append_exact, replicate, length-replicate, ◌==◌, ==_refl, le→leb, lt→ltb, ltb_not, false,
  Option, some, ok, append_assoc,
}
use mulan_lsm.Prelude.Bytes.{
  Bytes, le_bytes, from_le_bytes, length-le_bytes, from_le_bytes-le_bytes, IsU32,
}
use mulan_lsm.Wal.Record.{
  RecordType, RecordHeader, type_u8, type_from_u8, decode_header, encode_piece, verify_checksum,
}
use mulan_lsm.Wal.Reader.{Scan, continue, assemble, read_piece, on_header, read_step}

type_from_u8-type_u8 : (t : RecordType) → type_from_u8 (type_u8 t) ≡ some t
type_from_u8-type_u8 RecordType.full = refl
type_from_u8-type_u8 RecordType.first = refl
type_from_u8-type_u8 RecordType.middle = refl
type_from_u8-type_u8 RecordType.last = refl

type_u8-pos : (t : RecordType) → (type_u8 t == 0) ≡ false
type_u8-pos RecordType.full = refl
type_u8-pos RecordType.first = refl
type_u8-pos RecordType.middle = refl
type_u8-pos RecordType.last = refl

module _ (crc32c : Bytes → ℕ) (rtype : RecordType) (payload : Bytes) where
  abbrev sum_bytes : Bytes
  sum_bytes = le_bytes 4 (crc32c (type_u8 rtype ∷ payload))

  abbrev len_bytes : Bytes
  len_bytes = le_bytes 2 (length payload % 2 ^ 16)

  pub header_bytes : Bytes
  header_bytes = sum_bytes ++ len_bytes ++ type_u8 rtype ∷ []

  pub encode_piece_lem : encode_piece crc32c [] rtype payload ≡ header_bytes ++ payload
  unfolding encode_piece header_bytes
  encode_piece_lem = refl

  pub length-header_bytes : length header_bytes ≡ 7
  unfolding header_bytes
  length-header_bytes = omega (
    arith,
    length-append {0} (sum_bytes ++ len_bytes) (type_u8 rtype ∷ []),
    length-append {0} sum_bytes len_bytes,
    length-le_bytes 4 (crc32c (type_u8 rtype ∷ payload)),
    length-le_bytes 2 (length payload % 2 ^ 16),
  )

  pub length-encode_piece : length (encode_piece crc32c [] rtype payload) ≡ length payload + 7
  length-encode_piece =
      rw encode_piece_lem
        (omega (arith, length-append {0} header_bytes payload, length-header_bytes))

  type_of_header : get_or header_bytes 6 0 ≡ type_u8 rtype
  unfolding header_bytes
  type_of_header = get_or-append_exact (sum_bytes ++ len_bytes) (type_u8 rtype ∷ []) 6 0 (
      omega (
        arith,
        length-append {0} sum_bytes len_bytes,
        length-le_bytes 4 (crc32c (type_u8 rtype ∷ payload)),
        length-le_bytes 2 (length payload % 2 ^ 16),
      ))

  module _ (bounded : (d : Bytes) → IsU32 (crc32c d)) (short : length payload < 2 ^ 16) where
    mod_short : length payload % 2 ^ 16 ≡ length payload
    mod_short = omega arith

    sum_of_header : from_le_bytes (take 4 header_bytes) ≡ crc32c (type_u8 rtype ∷ payload)
    unfolding header_bytes
    sum_of_header =
        rw
          (
            append_assoc sum_bytes len_bytes (type_u8 rtype ∷ []),
            take-append_exact 4 sum_bytes (len_bytes ++ type_u8 rtype ∷ [])
                (sym (length-le_bytes 4 _)),
          )
          (from_le_bytes-le_bytes 4 _ (omega (arith, bounded (type_u8 rtype ∷ payload))))

    len_of_header : from_le_bytes (slice header_bytes 4 6) ≡ length payload
    unfolding header_bytes
    len_of_header =
        rw
          (
            append_assoc sum_bytes len_bytes (type_u8 rtype ∷ []),
            slice-append_middle sum_bytes len_bytes (type_u8 rtype ∷ []) 4 6
                (sym (length-le_bytes 4 _))
                (omega (
                  arith,
                  length-le_bytes 4 (crc32c (type_u8 rtype ∷ payload)),
                  length-le_bytes 2 (length payload % 2 ^ 16),
                )),
          )
          (from_le_bytes-le_bytes 2 _ (omega arith) ∙ mod_short)

    abbrev header_of : RecordHeader
    header_of = record {
      checksum = crc32c (type_u8 rtype ∷ payload);
      length = length payload;
      rtype = rtype;
    }

    decode_header-header_bytes : decode_header header_bytes ≡ ok header_of
    unfolding decode_header
    decode_header-header_bytes =
        rw (type_of_header, type_from_u8-type_u8 rtype, sum_of_header, len_of_header)

    -- The piece stands behind `pre`, inside one block.
    module _ (pre post : Bytes) (fragment : Option Bytes) (records : List Bytes) where
      abbrev whole_file : Bytes
      whole_file = pre ++ (header_bytes ++ (payload ++ post))

      abbrev before : Scan
      before = record { pos = length pre; fragment = fragment; records = records }

      abbrev after : Scan
      after = record {
        pos = length pre + 7 + length payload;
        fragment = (assemble fragment rtype payload records).0;
        records = (assemble fragment rtype payload records).1;
      }

      room : length pre + 7 + length payload ≤ length whole_file
      room = omega (
        arith,
        length-append {0} pre (header_bytes ++ (payload ++ post)),
        length-append {0} header_bytes (payload ++ post),
        length-append {0} payload post,
        length-header_bytes,
      )

      header_slice : slice whole_file (length pre) (length pre + 7) ≡ header_bytes
      header_slice =
          slice-append_middle pre header_bytes (payload ++ post) _ _ refl
            (omega (arith, length-header_bytes))

      payload_bytes : slice whole_file (length pre + 7) (length pre + 7 + length payload) ≡ payload
      payload_bytes = rw (← append_assoc pre header_bytes (payload ++ post)) (
          slice-append_middle (pre ++ header_bytes) payload post _ _
            (omega (arith, length-append {0} pre header_bytes, length-header_bytes))
            (omega (arith, length-append {0} pre header_bytes, length-header_bytes)))

      read_piece-header_of : read_piece crc32c whole_file before header_of ≡ continue after
      unfolding read_piece verify_checksum
      read_piece-header_of = rw (payload_bytes, ltb_not _ _ room, ==_refl)

      read_step-header :
          length pre % 32768 + 7 + length payload ≤ 32768
          → read_step crc32c whole_file before ≡ continue after
      unfolding read_step on_header
      read_step-header fits =
          rw
            (
              le→leb (length pre + 7) (length whole_file) (omega (arith, room)),
              ltb_not (32768 - (length pre - length pre / 32768 * 32768)) 7 (omega arith),
              header_slice,
              type_of_header,
              type_u8-pos rtype,
              decode_header-header_bytes,
            )
            read_piece-header_of

      pub read_step-piece :
          length pre % 32768 + 7 + length payload ≤ 32768
          → read_step crc32c (pre ++ (encode_piece crc32c [] rtype payload ++ post)) before
            ≡ continue after
      read_step-piece fits =
          rw (encode_piece_lem, append_assoc header_bytes payload post) (read_step-header fits)

-- The zeros that fill a block are skipped, once there is something behind them.
pub read_step-trailer :
    (crc32c : Bytes → ℕ) (pre post : Bytes) (k : ℕ) (fragment : Option Bytes) (records : List Bytes)
    → k < 7
    → 0 < k
    → length pre % 32768 + k ≡ 32768
    → 7 ≤ k + length post
    → read_step crc32c
        (pre ++ (replicate k 0 ++ post))
        (record { pos = length pre; fragment = fragment; records = records })
      ≡ continue (record { pos = length pre + k; fragment = fragment; records = records })
unfolding read_step
read_step-trailer crc32c pre post k fragment records short pos ends more =
    let e : length pre / 32768 * 32768 + 32768 ≡ length pre + k = omega arith in
    rw (
      le→leb (length pre + 7) (length (pre ++ (replicate k 0 ++ post))) (
          omega (
            arith,
            length-append {0} pre (replicate k 0 ++ post),
            length-append {0} (replicate k 0) post,
            length-replicate {A = ℕ} k 0,
          )),
      lt→ltb (32768 - (length pre - length pre / 32768 * 32768)) 7 (omega arith),
      e,
    )
