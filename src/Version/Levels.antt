-- ===== src/Version/Levels.antt =====
-- When `apply_edit` of src/version.rs succeeds: the levels that it checks.
use mulan_lsm.Prelude.{
  ℕ, zero, suc, ◌<◌, arith, ◌≡◌, refl, ◌∙◌, List, [], ◌∷◌, ◌++◌, length, set, length-set, get_elem?,
  filter, not, leb, ◌==◌, Bool-cases, some, All, Result, ok, err, MulanError, ◌⊎◌, inl, inr,
}
use mulan_lsm.FileMeta.{FileMetaData}
use mulan_lsm.Manifest.Edit.{DeletedFile, NewFile, VersionEdit}
use mulan_lsm.Version.{
  Version, num_levels, delete_file, push_file, delete_files, push_files, apply_edit,
}

get_elem?-some {ℓ} :
    {A : Type ℓ} (xs : List A) (i : ℕ) → i < length xs → (a : A) × (get_elem? xs i ≡ some a)
get_elem?-some [] i h = absurd (omega (arith, h))
get_elem?-some (x ∷ xs) zero h = (x, refl)
get_elem?-some (x ∷ xs) (suc i) h = get_elem?-some xs i (omega (arith, h))

-- The levels that the edit names are there.
pub record IsLeveled (edit : VersionEdit) : Type 0 where
  pub deleted : All (λ d. d.level < num_levels) edit.deleted_files
  pub added : All (λ f. f.level < num_levels) edit.new_files

delete_file_total :
    (files : List (List FileMetaData)) (d : DeletedFile)
    → length files ≡ num_levels
    → ((d.level < num_levels)
        × ((files' : List (List FileMetaData)) × (delete_file files d ≡ ok files')
            × (length files' ≡ num_levels)))
      ⊎ (¬ (d.level < num_levels) × (delete_file files d ≡ err MulanError.corrupted))
unfolding delete_file
delete_file_total files d whole = elim (Bool-cases (leb num_levels d.level)) [
  | inl over ↦ inr (ground (arith, over))
  | inr fits ↦
      let small : d.level < num_levels = ground (arith, fits) in
      let (fs, e) = get_elem?-some files d.level (omega (arith, small, whole)) in
      let kept = filter (λ f. not (f.number == d.number)) fs in
      inl
        (small, (set files d.level kept, rw (fits, e) refl, length-set files d.level kept ∙ whole))
]

push_file_total :
    (files : List (List FileMetaData)) (f : NewFile)
    → length files ≡ num_levels
    → ((f.level < num_levels)
        × ((files' : List (List FileMetaData)) × (push_file files f ≡ ok files')
            × (length files' ≡ num_levels)))
      ⊎ (¬ (f.level < num_levels) × (push_file files f ≡ err MulanError.corrupted))
unfolding push_file
push_file_total files f whole = elim (Bool-cases (leb num_levels f.level)) [
  | inl over ↦ inr (ground (arith, over))
  | inr fits ↦
      let small : f.level < num_levels = ground (arith, fits) in
      let (fs, e) = get_elem?-some files f.level (omega (arith, small, whole)) in
      let more = fs ++ f.meta ∷ [] in
      inl
        (small, (set files f.level more, rw (fits, e) refl, length-set files f.level more ∙ whole))
]

abbrev Checked : Type 0 → Result (List (List FileMetaData)) → Type 0
Checked fits result =
    (fits
      × ((files' : List (List FileMetaData)) × (result ≡ ok files') × (length files' ≡ num_levels)))
    ⊎ (¬ fits × (result ≡ err MulanError.corrupted))

delete_files_total :
    (files : List (List FileMetaData)) (ds : List DeletedFile)
    → length files ≡ num_levels
    → Checked (All (λ d. d.level < num_levels) ds) (delete_files files ds)
unfolding delete_files
delete_files_total files [] whole = inl (_, (files, refl, whole))
delete_files_total files (d ∷ ds) whole = elim (delete_file_total files d whole) [
  | inr (over, e) ↦ inr ((λ h. over h.0), rw e refl)
  | inl (small, (files', e, whole')) ↦ elim (delete_files_total files' ds whole') [
    | inr (over, e') ↦ inr ((λ h. over h.1), rw (e, e') refl)
    | inl (all, (made, e', whole'')) ↦ inl ((small, all), (made, rw (e, e') refl, whole''))
  ]
]

push_files_total :
    (files : List (List FileMetaData)) (added : List NewFile)
    → length files ≡ num_levels
    → Checked (All (λ f. f.level < num_levels) added) (push_files files added)
unfolding push_files
push_files_total files [] whole = inl (_, (files, refl, whole))
push_files_total files (f ∷ fs) whole = elim (push_file_total files f whole) [
  | inr (over, e) ↦ inr ((λ h. over h.0), rw e refl)
  | inl (small, (files', e, whole')) ↦ elim (push_files_total files' fs whole') [
    | inr (over, e') ↦ inr ((λ h. over h.1), rw (e, e') refl)
    | inl (all, (made, e', whole'')) ↦ inl ((small, all), (made, rw (e, e') refl, whole''))
  ]
]

-- On a version of seven levels apply_edit never panics: either every level that the edit names is
-- below seven, and it makes a version of seven levels, or some level is not, and it reports
-- corruption.
pub apply_edit_total :
    (base : Version) (edit : VersionEdit)
    → length base.files ≡ num_levels
    → (IsLeveled edit
        × ((made : Version) × (apply_edit base edit ≡ ok made) × (length made.files ≡ num_levels)))
      ⊎ (¬ IsLeveled edit × (apply_edit base edit ≡ err MulanError.corrupted))
unfolding apply_edit
apply_edit_total base edit whole = elim (delete_files_total base.files edit.deleted_files whole) [
  | inr (over, e) ↦ inr ((λ h. over h.deleted), rw e refl)
  | inl (low, (kept, e, whole')) ↦ elim (push_files_total kept edit.new_files whole') [
    | inr (over, e') ↦ inr ((λ h. over h.added), rw (e, e') refl)
    | inl (low', (files, e', whole'')) ↦ inl (
      record { deleted = low; added = low' },
      ((record { files = files }), rw (e, e') refl, whole''),
    )
  ]
]
