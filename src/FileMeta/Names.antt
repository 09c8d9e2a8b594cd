-- ===== src/FileMeta/Names.antt =====
-- The names of files in src/file_meta.rs. A name is the list of its ASCII bytes, and a path a directory
-- with a name in it.
pub mod RoundTrip
mod Tests
use mulan_lsm.Prelude.{
  ℕ, zero, suc, ◌+◌, ◌-◌, ◌*◌, ◌/◌, ◌%◌, ◌^◌, List, [], ◌∷◌, ◌++◌, length, take, drop, replicate,
  ltb, leb, if◌then◌else◌, Bool, true, false, ◌&&◌, Option, none, some,
}
use mulan_lsm.Prelude.Bytes.{Bytes, bytes_eq}
use mulan_lsm.FileMeta.{FileNumber}

pub record FilePath : Type 0 where
  pub dir : Bytes
  pub name : Bytes

-- The decimal digits of a number, on fuel for so many.
unfoldable pub digits : ℕ → ℕ → Bytes
digits zero n = []
digits (suc fuel) n = elim (ltb n 10) [
  | true ↦ (48 + n) ∷ []
  | false ↦ digits fuel (n / 10) ++ (48 + n % 10) ∷ []
]

-- `format!("{:06}", self.0)`: a number of 64 bits has at most 20 digits.
unfoldable pub to_name_part : FileNumber → Bytes
to_name_part number = let decimal = digits 20 number in replicate (6 - length decimal) 48 ++ decimal

abbrev pub sst_suffix : Bytes
sst_suffix = 115 ∷ 115 ∷ 116 ∷ []

abbrev pub log_suffix : Bytes
log_suffix = 108 ∷ 111 ∷ 103 ∷ []

abbrev pub tmp_suffix : Bytes
tmp_suffix = 100 ∷ 98 ∷ 116 ∷ 109 ∷ 112 ∷ []

abbrev pub manifest_prefix : Bytes
manifest_prefix = 77 ∷ 65 ∷ 78 ∷ 73 ∷ 70 ∷ 69 ∷ 83 ∷ 84 ∷ 45 ∷ []

abbrev pub current_name : Bytes
current_name = 67 ∷ 85 ∷ 82 ∷ 82 ∷ 69 ∷ 78 ∷ 84 ∷ []

-- `46` is the dot.
unfoldable pub numbered_file_path : Bytes → FileNumber → Bytes → FilePath
numbered_file_path dir number suffix = record {
  dir = dir;
  name = to_name_part number ++ 46 ∷ suffix;
}

unfoldable pub sst_path : Bytes → FileNumber → FilePath
sst_path dir number = numbered_file_path dir number sst_suffix

unfoldable pub log_path : Bytes → FileNumber → FilePath
log_path dir number = numbered_file_path dir number log_suffix

unfoldable pub manifest_path : Bytes → FileNumber → FilePath
manifest_path dir number = record { dir = dir; name = manifest_prefix ++ to_name_part number }

unfoldable pub current_path : Bytes → FilePath
current_path dir = record { dir = dir; name = current_name }

unfoldable pub current_tmp_path : Bytes → FilePath
current_tmp_path dir = record { dir = dir; name = current_name ++ 46 ∷ tmp_suffix }

abbrev pub strip_suffix : Bytes → Bytes → Option Bytes
strip_suffix suffix name =
    if leb (length suffix) (length name)
      && bytes_eq (drop (length name - length suffix) name) suffix
    then some (take (length name - length suffix) name)
    else none

abbrev pub strip_prefix : Bytes → Bytes → Option Bytes
strip_prefix prefix name =
    if bytes_eq (take (length prefix) name) prefix then some (drop (length prefix) name) else none

abbrev pub is_ascii_digit : ℕ → Bool
is_ascii_digit b = leb 48 b && leb b 57

abbrev pub all_digits : Bytes → Bool
all_digits [] = true
all_digits (b ∷ bs) = is_ascii_digit b && all_digits bs

-- The number that digits write, behind a number that was read.
abbrev pub value_from : ℕ → Bytes → ℕ
value_from value [] = value
value_from value (b ∷ bs) = value_from (value * 10 + (b - 48)) bs

-- `parse::<u64>()` refuses what does not fit.
unfoldable pub parse_number : Bytes → Option FileNumber
parse_number [] = none
parse_number (b ∷ bs) =
    if all_digits (b ∷ bs) && ltb (value_from 0 (b ∷ bs)) (2 ^ 64)
    then some (value_from 0 (b ∷ bs))
    else none

abbrev pub parse_stem : Option Bytes → Option FileNumber
parse_stem none = none
parse_stem (some stem) = parse_number stem

unfoldable pub parse_sst_name : Bytes → Option FileNumber
parse_sst_name name = parse_stem (strip_suffix (46 ∷ sst_suffix) name)

unfoldable pub parse_log_name : Bytes → Option FileNumber
parse_log_name name = parse_stem (strip_suffix (46 ∷ log_suffix) name)

unfoldable pub parse_manifest_name : Bytes → Option FileNumber
parse_manifest_name name = parse_stem (strip_prefix manifest_prefix name)
