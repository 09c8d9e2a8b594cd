-- ===== src/FileMeta/Names/Tests.antt =====
-- Names of src/file_meta.rs.
use mulan_lsm.Prelude.{arith, ◌≡◌, refl, [], ◌∷◌, none, some}
use mulan_lsm.FileMeta.Names.{
  digits, to_name_part, sst_path, log_path, manifest_path, parse_number, parse_sst_name,
  parse_log_name, parse_manifest_name,
}
use mulan_lsm.FileMeta.Names.RoundTrip.{parse_names}

padded : to_name_part 123 ≡ 48 ∷ 48 ∷ 48 ∷ 49 ∷ 50 ∷ 51 ∷ []
unfolding to_name_part digits
padded = refl

too_large :
    parse_number (
      49 ∷ 56 ∷ 52 ∷ 52 ∷ 54 ∷ 55 ∷ 52 ∷ 52 ∷ 48 ∷ 55 ∷ 51 ∷ 55 ∷ 48 ∷ 57 ∷ 53 ∷ 53 ∷ 49 ∷ 54 ∷ 49
      ∷ 54 ∷ [])
    ≡ none
unfolding parse_number
too_large = refl

parse_names_example :
    (parse_sst_name (sst_path [] 123).name ≡ some 123)
    × ((parse_log_name (log_path [] 123).name ≡ some 123)
        × (parse_manifest_name (manifest_path [] 123).name ≡ some 123))
parse_names_example = parse_names [] 123 (omega arith)
