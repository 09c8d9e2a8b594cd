-- ===== src/Version/Apply.antt =====
-- What `apply_edit` of src/version.rs makes of the files of every level.
use mulan_lsm.Prelude.{
  get_elem?-set_ne, get_elem?-set_same, ℕ, arith, ◌≡◌, ◌≢◌, Option-cases, refl, sym, ap, ◌∙◌, List,
  [], ◌∷◌, ◌++◌, set, get_elem?, filter, not, ◌&&◌, ◌||◌, append_assoc, append-nil, leb, ◌==◌,
  ==_iff, Bool-cases, if◌then◌else◌, Bool, true, false, some, some_eq, ok, >>=-eq-ok, inl, inr,
}
use mulan_lsm.FileMeta.{FileNumber, FileMetaData}
use mulan_lsm.Manifest.Edit.{DeletedFile, NewFile, VersionEdit}
use mulan_lsm.Version.{
  Version, num_levels, delete_file, push_file, delete_files, push_files, apply_edit,
}

-- Does the edit delete this file of this level?
abbrev pub is_deleted : ℕ → List DeletedFile → FileNumber → Bool
is_deleted level [] number = false
is_deleted level (d ∷ ds) number =
    ((d.level == level) && (number == d.number)) || is_deleted level ds number

abbrev pub survivors : ℕ → List DeletedFile → List FileMetaData → List FileMetaData
survivors level ds fs = filter (λ f. not (is_deleted level ds f.number)) fs

-- The files that the edit adds to this level.
abbrev pub additions : ℕ → List NewFile → List FileMetaData
additions level [] = []
additions level (f ∷ fs) =
    if f.level == level then f.meta ∷ additions level fs else additions level fs

filter-filter {ℓ} :
    {A : Type ℓ} (p q : A → Bool) (xs : List A)
    → filter q (filter p xs) ≡ filter (λ x. p x && q x) xs
filter-filter p q [] = refl
filter-filter p q (x ∷ xs) = ground (arith, filter-filter p q xs)

filter_all {ℓ} :
    {A : Type ℓ} (p : A → Bool) (xs : List A) → ((x : A) → p x ≡ true) → filter p xs ≡ xs
filter_all p [] h = refl
filter_all p (x ∷ xs) h = ground (arith, h x, filter_all p xs h)

filter_ext {ℓ} :
    {A : Type ℓ} (p q : A → Bool) (xs : List A) → ((x : A) → p x ≡ q x) → filter p xs ≡ filter q xs
filter_ext p q [] h = refl
filter_ext p q (x ∷ xs) h = ground (arith, h x, filter_ext p q xs h)

delete_file-ok :
    (files files' : List (List FileMetaData)) (d : DeletedFile)
    → delete_file files d ≡ ok files'
    → (fs : List FileMetaData) × (get_elem? files d.level ≡ some fs)
      × (files' ≡ set files d.level (filter (λ f. not (f.number == d.number)) fs))
unfolding delete_file
delete_file-ok files files' d h = elim (Bool-cases (leb num_levels d.level)) [
  | inl over ↦ ground (arith, h, over)
  | inr fits ↦ elim (Option-cases (get_elem? files d.level)) [
    | inl missing ↦ ground (arith, h, fits, missing)
    | inr (fs, e) ↦ (fs, e, ground (arith, h, fits, e))
  ]
]

push_file-ok :
    (files files' : List (List FileMetaData)) (f : NewFile)
    → push_file files f ≡ ok files'
    → (fs : List FileMetaData) × (get_elem? files f.level ≡ some fs)
      × (files' ≡ set files f.level (fs ++ f.meta ∷ []))
unfolding push_file
push_file-ok files files' f h = elim (Bool-cases (leb num_levels f.level)) [
  | inl over ↦ ground (arith, h, over)
  | inr fits ↦ elim (Option-cases (get_elem? files f.level)) [
    | inl missing ↦ ground (arith, h, fits, missing)
    | inr (fs, e) ↦ (fs, e, ground (arith, h, fits, e))
  ]
]

delete_file_lem :
    (files files' : List (List FileMetaData)) (d : DeletedFile) (level : ℕ) (fs : List FileMetaData)
    → delete_file files d ≡ ok files'
    → get_elem? files level ≡ some fs
    → get_elem? files' level ≡ some (survivors level (d ∷ []) fs)
delete_file_lem files files' d level fs h found =
    let (fs0, e, made) = delete_file-ok files files' d h in
    elim (Bool-cases (d.level == level)) [
      | inl hit ↦
          let same : d.level ≡ level = (==_iff d.level level).0 hit in
          let here : fs0 ≡ fs = some_eq (sym e ∙ ap (get_elem? files) same ∙ found) in
          rw (made, same, here)
            (get_elem?-set_same files level (filter (λ f. not (f.number == d.number)) fs) fs found
              ∙ ap some (filter_ext _ _ fs (λ f. ground (arith, hit))))
      | inr miss ↦
          let other : d.level ≢ level = λ same. ground (arith, same, miss) in
          rw made (
            get_elem?-set_ne files d.level level _ other
            ∙ found
            ∙ ap some (sym (filter_all _ fs (λ f. ground (arith, miss)))))
    ]

push_file_lem :
    (files files' : List (List FileMetaData)) (f : NewFile) (level : ℕ) (fs : List FileMetaData)
    → push_file files f ≡ ok files'
    → get_elem? files level ≡ some fs
    → get_elem? files' level ≡ some (fs ++ additions level (f ∷ []))
push_file_lem files files' f level fs h found =
    let (fs0, e, made) = push_file-ok files files' f h in
    elim (Bool-cases (f.level == level)) [
      | inl hit ↦
          let same : f.level ≡ level = (==_iff f.level level).0 hit in
          let here : fs0 ≡ fs = some_eq (sym e ∙ ap (get_elem? files) same ∙ found) in
          rw (made, same, here)
            (get_elem?-set_same files level (fs ++ f.meta ∷ []) fs found
              ∙ ap (λ t. some (fs ++ t)) (ground (arith, hit)))
      | inr miss ↦
          let other : f.level ≢ level = λ same. ground (arith, same, miss) in
          rw made (
            get_elem?-set_ne files f.level level _ other
            ∙ found
            ∙ ap some (sym (append-nil fs) ∙ ap (λ t. fs ++ t) (ground (arith, miss))))
    ]

delete_files_lem :
    (files files' : List (List FileMetaData)) (ds : List DeletedFile) (level : ℕ)
    (fs : List FileMetaData)
    → delete_files files ds ≡ ok files'
    → get_elem? files level ≡ some fs
    → get_elem? files' level ≡ some (survivors level ds fs)
unfolding delete_files
delete_files_lem files files' [] level fs h found =
    let same : files ≡ files' = cc in
    rw (sym same) (found ∙ ap some (sym (filter_all _ fs (λ f. refl))))
delete_files_lem files files' (d ∷ ds) level fs h found =
    let (between, first, rest) = >>=-eq-ok (delete_file files d) _ h in
    delete_files_lem between files' ds level _ rest
      (delete_file_lem files between d level fs first found)
    ∙ ap some (
        filter-filter _ _ fs
        ∙ filter_ext
            (λ f. not (is_deleted level (d ∷ []) f.number) && not (is_deleted level ds f.number))
            (λ f. not (is_deleted level (d ∷ ds) f.number)) fs (λ f. ground arith))

push_files_lem :
    (files files' : List (List FileMetaData)) (added : List NewFile) (level : ℕ)
    (fs : List FileMetaData)
    → push_files files added ≡ ok files'
    → get_elem? files level ≡ some fs
    → get_elem? files' level ≡ some (fs ++ additions level added)
unfolding push_files
push_files_lem files files' [] level fs h found =
    let same : files ≡ files' = cc in rw (sym same, append-nil fs) found
push_files_lem files files' (f ∷ added) level fs h found =
    let (between, first, rest) = >>=-eq-ok (push_file files f) _ h in
    push_files_lem between files' added level _ rest
      (push_file_lem files between f level fs first found)
    ∙ ap some (
        append_assoc fs (additions level (f ∷ [])) (additions level added)
        ∙ ap (λ t. fs ++ t) (ground arith))

-- An edit that is applied leaves at every level the files that it does not delete there, in their
-- order, and behind them the files that it adds there.
pub apply_edit_lem :
    (base made : Version) (edit : VersionEdit) (level : ℕ) (fs : List FileMetaData)
    → apply_edit base edit ≡ ok made
    → get_elem? base.files level ≡ some fs
    → get_elem? made.files level
      ≡ some (survivors level edit.deleted_files fs ++ additions level edit.new_files)
unfolding apply_edit
apply_edit_lem base made edit level fs h found =
    let (kept, first, rest) = >>=-eq-ok (delete_files base.files edit.deleted_files) _ h in
    let (files, second, last) = >>=-eq-ok (push_files kept edit.new_files) _ rest in
    let same : files ≡ made.files = cc in
    rw (sym same) (
      push_files_lem kept files edit.new_files level _ second
        (delete_files_lem base.files kept edit.deleted_files level fs first found))
