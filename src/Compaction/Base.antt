-- ===== src/Compaction/Base.antt =====
-- What `is_base_level_for_user_key` of src/compaction.rs says of the levels behind the output.
use Prim.Native.Nat.{Ordering}
use mulan_lsm.Prelude.{
  ℕ, zero, suc, arith, ◌+◌, ◌<◌, ◌≤◌, ◌≡◌, refl, sym, ap, ◌∙◌, List, [], ◌∷◌, All, filter, Bool,
  true, false, Bool-cases, ◌⊎◌, ok, >>=-eq-ok, inl, inr, ==_iff, ◌==◌,
}
use mulan_lsm.Prelude.Bytes.{Bytes, cmp_bytes}
use mulan_lsm.Prelude.Compare.{is_lt}
use mulan_lsm.FileMeta.{FileMetaData}
use mulan_lsm.Version.{Version, num_levels, files_at, get_overlaps, user_key_overlap}
use mulan_lsm.Compaction.{Compaction, is_empty, is_base_from, is_base_level_for_user_key}

filter-none :
    {A : Type 0} (p : A → Bool) (xs : List A)
    → is_empty (filter p xs) ≡ true
    → All (λ x. p x ≡ false) xs
filter-none p [] h = _
filter-none p (x ∷ xs) h = elim (Bool-cases (p x)) [
  | inl here ↦ let full : is_empty (filter p (x ∷ xs)) ≡ false = rw (filter, here) refl in cc
  | inr there ↦
      let same : filter p (x ∷ xs) ≡ filter p xs = rw (filter, there) refl in
      (there, filter-none p xs (ap is_empty (sym same) ∙ h))
]

-- No file of the level holds the key.
abbrev pub IsAbsent : Version → ℕ → Bytes → Type 0
IsAbsent version level key =
    (fs : List FileMetaData)
    → files_at version level ≡ ok fs
    → All (λ f. user_key_overlap f key key ≡ false) fs

is_base_from-IsAbsent :
    (rounds start level : ℕ) (version : Version) (key : Bytes)
    → is_base_from rounds start version key ≡ ok true
    → start ≤ level
    → level < start + rounds
    → IsAbsent version level key
unfolding is_base_from get_overlaps
is_base_from-IsAbsent zero start level version key e low high = absurd (omega (arith, low, high))
is_base_from-IsAbsent (suc rounds) start level version key e low high =
    let (overlaps, found, more) = >>=-eq-ok (get_overlaps version start key key) _ e in
    let (here, at, kept) = >>=-eq-ok (files_at version start) _ found in
    elim (Bool-cases (is_empty overlaps)) [
      | inl nothing ↦ elim (Bool-cases (start == level)) [
        | inl same ↦ λ fs at'.
            let equal : start ≡ level = (==_iff _ _).0 same in
            let files : here ≡ fs = ok_eq (sym at ∙ ap (files_at version) equal ∙ at') in
            let touching : is_empty (filter (λ f. user_key_overlap f key key) fs) ≡ true =
              ap (λ gs. is_empty (filter (λ f. user_key_overlap f key key) gs)) (sym files)
              ∙ ap is_empty (ok_eq kept)
              ∙ nothing in
            filter-none (λ f. user_key_overlap f key key) fs touching
        | inr differ ↦
            let rest : is_base_from rounds (start + 1) version key ≡ ok true =
              sym (rw nothing refl) ∙ more in
            is_base_from-IsAbsent rounds (start + 1) level version key rest
              (ground (arith, low, differ)) (omega (arith, high))
      ]
      | inr some_here ↦ let clash : ok false ≡ ok true = sym (rw some_here refl) ∙ more in cc
    ]
  where
    ok_eq : {A : Type 0} {a b : A} → ok a ≡ ok b → a ≡ b
    ok_eq e = cc

-- The key is in front of the file's smallest user key or behind its largest.
abbrev pub IsOutside : Bytes → FileMetaData → Type 0
IsOutside key f =
    (cmp_bytes key f.smallest.user_key ≡ Ordering.lt)
    ⊎ (cmp_bytes f.largest.user_key key ≡ Ordering.lt)

is_lt_lem : (o : Ordering) → is_lt o ≡ true → o ≡ Ordering.lt
is_lt_lem Ordering.lt h = refl
is_lt_lem Ordering.eq h = cc
is_lt_lem Ordering.gt h = cc

user_key_overlap-IsOutside :
    (key : Bytes) (f : FileMetaData) → user_key_overlap f key key ≡ false → IsOutside key f
unfolding user_key_overlap
user_key_overlap-IsOutside key f h = elim (Bool-cases (is_lt (cmp_bytes f.largest.user_key key))) [
  | inl behind ↦ inr (is_lt_lem _ behind)
  | inr upto ↦ elim (Bool-cases (is_lt (cmp_bytes key f.smallest.user_key))) [
    | inl before ↦ inl (is_lt_lem _ before)
    | inr within ↦
        let touching : user_key_overlap f key key ≡ true =
          rw (user_key_overlap, upto, within) refl in
        cc
  ]
]

All-IsOutside :
    (key : Bytes) (fs : List FileMetaData)
    → All (λ f. user_key_overlap f key key ≡ false) fs
    → All (IsOutside key) fs
All-IsOutside key [] h = _
All-IsOutside key (f ∷ fs) h = (user_key_overlap-IsOutside key f h.0, All-IsOutside key fs h.1)

-- Where is_base_level_for_user_key says yes, the key is, for every file of every level behind the
-- output, in front of the smallest user key of the file or behind its largest.
pub is_base-IsAbsent :
    (c : Compaction) (version : Version) (key : Bytes) (level : ℕ) (fs : List FileMetaData)
    → is_base_level_for_user_key c version key ≡ ok true
    → c.level + 2 ≤ level
    → level < num_levels
    → files_at version level ≡ ok fs
    → All (IsOutside key) fs
unfolding is_base_level_for_user_key
is_base-IsAbsent c version key level fs e low high at =
    All-IsOutside key fs
      (is_base_from-IsAbsent _ _ level version key e low (omega (arith, low, high)) fs at)
