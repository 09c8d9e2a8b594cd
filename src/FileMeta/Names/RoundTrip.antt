-- ===== src/FileMeta/Names/RoundTrip.antt =====
-- The names that src/file_meta.rs makes and reads back.
use mulan_lsm.Prelude.{
  ℕ, zero, suc, arith, ◌+◌, ◌-◌, ◌*◌, ◌/◌, ◌%◌, ◌^◌, ◌<◌, ◌≡◌, ◌≢◌, refl, ap, ◌∙◌, [], ◌∷◌, ◌++◌,
  length, length-append, take-append_exact, drop-append_exact, replicate, ltb, leb, true,
  Bool-cases, inl, inr, some,
}
use mulan_lsm.Prelude.Bytes.{Bytes, IsU64}
use mulan_lsm.Prelude.Compare.{bytes_eq_self}
use mulan_lsm.FileMeta.{FileNumber}
use mulan_lsm.FileMeta.Names.{
  digits, to_name_part, sst_suffix, log_suffix, manifest_prefix, numbered_file_path, sst_path,
  log_path, manifest_path, strip_suffix, strip_prefix, all_digits, value_from, parse_number,
  parse_stem, parse_sst_name, parse_log_name, parse_manifest_name,
}

value_from-append :
    (value : ℕ) (xs ys : Bytes) → value_from value (xs ++ ys) ≡ value_from (value_from value xs) ys
value_from-append value [] ys = refl
value_from-append value (x ∷ xs) ys = value_from-append (value * 10 + (x - 48)) xs ys

all_digits-append :
    (xs ys : Bytes) → all_digits xs ≡ true → all_digits ys ≡ true → all_digits (xs ++ ys) ≡ true
all_digits-append [] ys h k = k
all_digits-append (x ∷ xs) ys h k = ground (arith, h, all_digits-append xs ys)

all_digits-replicate : (n : ℕ) → all_digits (replicate n 48) ≡ true
all_digits-replicate zero = refl
all_digits-replicate (suc n) = ground (arith, all_digits-replicate n)

value_from-replicate : (n : ℕ) → value_from 0 (replicate n 48) ≡ 0
value_from-replicate zero = refl
value_from-replicate (suc n) = value_from-replicate n

digit_is : (d : ℕ) → d < 10 → all_digits ((48 + d) ∷ []) ≡ true
digit_is d h = ground (arith, h)

all_digits-digits : (fuel n : ℕ) → all_digits (digits fuel n) ≡ true
unfolding digits
all_digits-digits zero n = refl
all_digits-digits (suc fuel) n = elim (Bool-cases (ltb n 10)) [
  | inl small ↦ rw (digits, small) (digit_is n (ground (arith, small)))
  | inr large ↦
      rw (digits, large)
        (all_digits-append (digits fuel (n / 10)) ((48 + n % 10) ∷ [])
          (all_digits-digits fuel (n / 10)) (digit_is (n % 10) (omega arith)))
]

power_suc : (fuel : ℕ) → 10 ^ suc fuel ≡ 10 * 10 ^ fuel
power_suc fuel = omega arith

value_from-digits : (fuel n : ℕ) → n < 10 ^ fuel → value_from 0 (digits fuel n) ≡ n
unfolding digits
value_from-digits zero n h = omega (arith, h)
value_from-digits (suc fuel) n h = elim (Bool-cases (ltb n 10)) [
  | inl small ↦ rw (digits, small) (omega arith)
  | inr large ↦
      let ih = value_from-digits fuel (n / 10) (omega (arith, h, power_suc fuel)) in
      rw (digits, large)
        (value_from-append 0 (digits fuel (n / 10)) ((48 + n % 10) ∷ [])
          ∙ ap (λ (v : ℕ). v * 10 + (48 + n % 10 - 48)) ih
          ∙ omega arith)
]

pub parse_number-digits :
    (s : Bytes) (n : ℕ)
    → length s ≢ 0
    → all_digits s ≡ true
    → value_from 0 s ≡ n
    → IsU64 n
    → parse_number s ≡ some n
unfolding parse_number
parse_number-digits [] n some_digit digital value fits = absurd (some_digit refl)
parse_number-digits (b ∷ bs) n some_digit digital value fits =
    let small : ltb (value_from 0 (b ∷ bs)) (2 ^ 64) ≡ true = rw value (ground (arith, fits)) in
    rw (parse_number, digital, small) (ap some value)

length-digits : (fuel n : ℕ) → length (digits (suc fuel) n) ≢ 0
unfolding digits
length-digits fuel n = elim (Bool-cases (ltb n 10)) [
  | inl small ↦ rw (digits, small) (λ e. omega (arith, e))
  | inr large ↦
      rw (digits, large)
        (λ e. omega (arith, e, length-append (digits fuel (n / 10)) ((48 + n % 10) ∷ [])))
]

pub all_digits-to_name_part : (n : ℕ) → all_digits (to_name_part n) ≡ true
unfolding to_name_part
all_digits-to_name_part n =
    all_digits-append (replicate (6 - length (digits 20 n)) 48) (digits 20 n)
      (all_digits-replicate (6 - length (digits 20 n))) (all_digits-digits 20 n)

parse_number-to_name_part : (n : ℕ) → IsU64 n → parse_number (to_name_part n) ≡ some n
unfolding to_name_part
parse_number-to_name_part n fits =
    let decimal = digits 20 n in
    let zeros = replicate (6 - length decimal) 48 in
    parse_number-digits (zeros ++ decimal) n
      (λ e. length-digits 19 n (omega (arith, e, length-append zeros decimal)))
      (all_digits-to_name_part n)
      (value_from-append 0 zeros decimal
        ∙ ap (λ (v : ℕ). value_from v decimal) (value_from-replicate (6 - length decimal))
        ∙ value_from-digits 20 n (omega (arith, fits)))
      fits

strip_suffix-append : (stem suffix : Bytes) → strip_suffix suffix (stem ++ suffix) ≡ some stem
strip_suffix-append stem suffix =
    let size = length-append stem suffix in
    let at : length (stem ++ suffix) - length suffix ≡ length stem = omega (arith, size) in
    let enough : leb (length suffix) (length (stem ++ suffix)) ≡ true = ground (arith, size) in
    let ends = drop-append_exact (length stem) stem suffix refl in
    let begins = take-append_exact (length stem) stem suffix refl in
    rw (strip_suffix, enough, at, ends, bytes_eq_self suffix, begins) refl

strip_prefix-append : (prefix rest : Bytes) → strip_prefix prefix (prefix ++ rest) ≡ some rest
strip_prefix-append prefix rest =
    let begins = take-append_exact (length prefix) prefix rest refl in
    let ends = drop-append_exact (length prefix) prefix rest refl in
    rw (strip_prefix, begins, bytes_eq_self prefix, ends) refl

-- The number of a table, a log or a manifest, of 64 bits, is read back from the name of its file,
-- however many digits it has.
pub parse_names :
    (dir : Bytes) (n : FileNumber)
    → IsU64 n
    → (parse_sst_name (sst_path dir n).name ≡ some n)
      × ((parse_log_name (log_path dir n).name ≡ some n)
          × (parse_manifest_name (manifest_path dir n).name ≡ some n))
unfolding sst_path log_path manifest_path numbered_file_path parse_sst_name parse_log_name
    parse_manifest_name
parse_names dir n fits =
    let number = parse_number-to_name_part n fits in
    (
      ap parse_stem (strip_suffix-append (to_name_part n) (46 ∷ sst_suffix)) ∙ number,
      (
        ap parse_stem (strip_suffix-append (to_name_part n) (46 ∷ log_suffix)) ∙ number,
        ap parse_stem (strip_prefix-append manifest_prefix (to_name_part n)) ∙ number,
      ),
    )
