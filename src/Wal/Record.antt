-- ===== src/Wal/Record.antt =====
-- src/wal.rs: the constants of the log, and one piece: a header of seven bytes and its data. The
-- checksum crate is not part of the repository: `crc32c` is a parameter.
use mulan_lsm.Prelude.{
  ℕ, ◌-◌, ◌%◌, ◌^◌, [], ◌∷◌, ◌++◌, length, take, slice, get_or, ◌==◌, if◌then◌else◌, Bool, Option,
  none, some, Result, ok, MulanError, ok_or, ◌>>=◌,
}
use mulan_lsm.Prelude.Bytes.{Bytes, le_bytes, from_le_bytes}

abbrev pub block_size : ℕ
block_size = 32768

abbrev pub header_size : ℕ
header_size = 7

abbrev pub data_max : ℕ
data_max = block_size - header_size

pub data RecordType : Type 0 where
  full first middle last : RecordType

-- `rtype as u8`
abbrev pub type_u8 : RecordType → ℕ
type_u8 RecordType.full = 1
type_u8 RecordType.first = 2
type_u8 RecordType.middle = 3
type_u8 RecordType.last = 4

-- `RecordType::from_u8`
abbrev pub type_from_u8 : ℕ → Option RecordType
type_from_u8 v =
    if v == 1
    then some RecordType.full
    else if v == 2
    then some RecordType.first
    else if v == 3
    then some RecordType.middle
    else if v == 4
    then some RecordType.last
    else none

pub record RecordHeader : Type 0 where
  pub checksum : ℕ
  pub length : ℕ
  pub rtype : RecordType

unfoldable pub decode_header : Bytes → Result RecordHeader
decode_header buf =
    let checksum = from_le_bytes (take 4 buf) in
    let len = from_le_bytes (slice buf 4 6) in
    ok_or (type_from_u8 (get_or buf 6 0)) MulanError.corrupted >>= λ rtype.
    ok (record { checksum = checksum; length = len; rtype = rtype })

module _ (crc32c : Bytes → ℕ) where
  -- One piece appended to a buffer. The length is cast to a `u16`.
  unfoldable pub encode_piece : Bytes → RecordType → Bytes → Bytes
  encode_piece buf rtype payload =
      let crc_input = type_u8 rtype ∷ payload in
      buf
      ++ le_bytes 4 (crc32c crc_input)
      ++ le_bytes 2 (length payload % 2 ^ 16)
      ++ type_u8 rtype ∷ []
      ++ payload

  unfoldable pub encode_full : Bytes → Bytes → Bytes
  encode_full buf payload =
      let crc_input = type_u8 RecordType.full ∷ payload in
      buf
      ++ le_bytes 4 (crc32c crc_input)
      ++ le_bytes 2 (length payload % 2 ^ 16)
      ++ type_u8 RecordType.full ∷ []
      ++ payload

  unfoldable pub verify_checksum : RecordType → Bytes → ℕ → Bool
  verify_checksum rtype payload expected = crc32c (type_u8 rtype ∷ payload) == expected
