-- ===== src/Manifest/RoundTrip.antt =====
-- `VersionEdit::decode` of src/manifest.rs behind `VersionEdit::encode`.
use mathlib.Core.List.{foldl-append}
use mulan_lsm.Prelude.{
  ℕ, zero, suc, ◌≤◌, arith, ◌≡◌, refl, ap, ◌∙◌, List, [], ◌∷◌, ◌++◌, foldl, map, length,
  length-append, append_assoc, append-nil, Bool, Option, none, some, All, All-append, ok,
}
use mulan_lsm.Prelude.Bytes.{Bytes}
use mulan_lsm.Manifest.Edit.{DeletedFile, NewFile, VersionEdit, new_edit}
use mulan_lsm.Manifest.Codec.{put_deleted, put_new_file, put_pointer, encode, decode_loop, decode}
use mulan_lsm.Manifest.Fields.{
  Field, log_number, prev_log_number, next_file_number, last_sequence, deleted, added, pointer,
  body_of, apply_field, IsField, IsFile, decode_field-body,
}
use mulan_lsm.Manifest.Written.{
  pieces, pieces-append, comparator_field, number_field, fields_of, IsEdit, put_comparator_lem,
  put_number_lem, put_deleted_lem, put_new_file_lem, put_pointer_lem, foldl-put,
}
use mulan_lsm.Manifest.Edit.{add_delete, add_file, set_compact_pointer}

abbrev pub apply_fields : VersionEdit → List Field → VersionEdit
apply_fields = foldl (λ e f. apply_field f e)

apply_deleted :
    (ds : List DeletedFile) (e : VersionEdit)
    → apply_fields e (map deleted ds) ≡ record e { deleted_files = e.deleted_files ++ ds }
unfolding add_delete
apply_deleted [] e = rw (append-nil e.deleted_files) refl
apply_deleted (d ∷ ds) e =
    apply_deleted ds (apply_field (deleted d) e)
    ∙ ap (λ t. record e { deleted_files = t }) (append_assoc e.deleted_files (d ∷ []) ds)

apply_added :
    (fs : List NewFile) (e : VersionEdit)
    → apply_fields e (map added fs) ≡ record e { new_files = e.new_files ++ fs }
unfolding add_file
apply_added [] e = rw (append-nil e.new_files) refl
apply_added (f ∷ fs) e =
    apply_added fs (apply_field (added f) e)
    ∙ ap (λ t. record e { new_files = t }) (append_assoc e.new_files (f ∷ []) fs)

apply_pointers :
    (ps : List (ℕ × Bytes)) (e : VersionEdit)
    → apply_fields e (map pointer ps) ≡ record e { compact_pointers = e.compact_pointers ++ ps }
unfolding set_compact_pointer
apply_pointers [] e = rw (append-nil e.compact_pointers) refl
apply_pointers (p ∷ ps) e =
    apply_pointers ps (apply_field (pointer p) e)
    ∙ ap (λ t. record e { compact_pointers = t }) (append_assoc e.compact_pointers (p ∷ []) ps)

-- `g` is the edit by one of its fields, which is not set yet.
apply_number :
    (f : ℕ → Field) (n : Option ℕ) (g : Option ℕ → VersionEdit) (rest : List Field)
    → ((m : ℕ) → apply_field (f m) (g none) ≡ g (some m))
    → apply_fields (g none) (number_field f n ++ rest) ≡ apply_fields (g n) rest
apply_number f none g rest step = refl
apply_number f (some m) g rest step = ap (λ e. apply_fields e rest) (step m)

apply_comparator :
    (c : Option Bytes) (rest : List Field)
    → apply_fields new_edit (comparator_field c ++ rest)
      ≡ apply_fields (record new_edit { comparator = c }) rest
apply_comparator none rest = refl
apply_comparator (some c) rest = refl

apply_scalars :
    (c : Option Bytes) (l p n s : Option ℕ) (rest : List Field)
    → apply_fields new_edit (
        comparator_field c
        ++ (number_field log_number l
            ++ (number_field prev_log_number p
                ++ (number_field next_file_number n ++ (number_field last_sequence s ++ rest)))))
      ≡ apply_fields
          (record new_edit {
            comparator = c;
            log_number = l;
            prev_log_number = p;
            next_file_number = n;
            last_sequence = s;
          })
          rest
apply_scalars c l p n s rest =
    let e1 = record new_edit { comparator = c } in
    let e2 = record e1 { log_number = l } in
    let e3 = record e2 { prev_log_number = p } in
    let e4 = record e3 { next_file_number = n } in
    apply_comparator c _
    ∙ apply_number log_number l (λ t. record e1 { log_number = t }) _ (λ m. refl)
    ∙ apply_number prev_log_number p (λ t. record e2 { prev_log_number = t }) _ (λ m. refl)
    ∙ apply_number next_file_number n (λ t. record e3 { next_file_number = t }) _ (λ m. refl)
    ∙ apply_number last_sequence s (λ t. record e4 { last_sequence = t }) rest (λ m. refl)

apply_fields_of : (e : VersionEdit) → apply_fields new_edit (fields_of e) ≡ e
apply_fields_of e =
    let ds = map deleted e.deleted_files in
    let fs = map added e.new_files in
    let ps = map pointer e.compact_pointers in
    let scalars = record e { deleted_files = []; new_files = []; compact_pointers = [] } in
    apply_scalars e.comparator e.log_number e.prev_log_number e.next_file_number e.last_sequence
      (ds ++ (fs ++ ps))
    ∙ foldl-append _ scalars ds (fs ++ ps)
    ∙ ap (λ t. apply_fields t (fs ++ ps)) (apply_deleted e.deleted_files scalars)
    ∙ foldl-append _ (record scalars { deleted_files = e.deleted_files }) fs ps
    ∙ ap (λ t. apply_fields t ps)
        (apply_added e.new_files (record scalars { deleted_files = e.deleted_files }))
    ∙ apply_pointers e.compact_pointers (record e { compact_pointers = [] })

All-map :
    {A : Type 0} (field : A → Field) (P : Field → Type 0) (xs : List A)
    → All (λ x. P (field x)) xs
    → All P (map field xs)
All-map field P [] h = h
All-map field P (x ∷ xs) h = (h.0, All-map field P xs h.1)

module _ (is_utf8 : Bytes → Bool) where
  All-fields_of : (e : VersionEdit) → IsEdit is_utf8 e → All (IsField is_utf8) (fields_of e)
  All-fields_of e h =
      let V = IsField is_utf8 in
      All-append V _ _ h.comparator (
        All-append V _ _ h.log (
          All-append V _ _ h.prev (
            All-append V _ _ h.next (
              All-append V _ _ h.last (
                All-append V _ _ (All-map deleted V e.deleted_files h.deleted) (
                  All-append V _ _ (All-map added V e.new_files h.added)
                    (All-map pointer V e.compact_pointers h.pointers)))))))

  decode_loop-pieces :
      (fuel : ℕ) (fs : List Field) (e : VersionEdit)
      → All (IsField is_utf8) fs
      → length (pieces fs) ≤ fuel
      → decode_loop is_utf8 fuel e (pieces fs) ≡ ok (apply_fields e fs)
  unfolding decode_loop
  decode_loop-pieces fuel [] e h long = refl
  decode_loop-pieces zero (f ∷ fs) e h long = ground (arith, long)
  decode_loop-pieces (suc fuel) (f ∷ fs) e h long =
      rw (decode_field-body is_utf8 e (pieces fs) f h.0) (
        decode_loop-pieces fuel fs (apply_field f e) h.1
          (omega (arith, long, length-append {0} (body_of f) (pieces fs))))

  encode-pieces : (e : VersionEdit) → IsEdit is_utf8 e → encode e ≡ pieces (fields_of e)
  unfolding encode
  encode-pieces e h =
      let c = pieces (comparator_field e.comparator) in
      let l = c ++ pieces (number_field log_number e.log_number) in
      let p = l ++ pieces (number_field prev_log_number e.prev_log_number) in
      let n = p ++ pieces (number_field next_file_number e.next_file_number) in
      let s = n ++ pieces (number_field last_sequence e.last_sequence) in
      let d = s ++ pieces (map deleted e.deleted_files) in
      let a = d ++ pieces (map added e.new_files) in
      rw
        (
          put_comparator_lem is_utf8 [] e.comparator h.comparator,
          put_number_lem is_utf8 c 2 e.log_number log_number (λ m. refl) (λ m b. b) h.log,
          put_number_lem is_utf8 l 9 e.prev_log_number prev_log_number (λ m. refl) (λ m b. b)
              h.prev,
          put_number_lem is_utf8 p 3 e.next_file_number next_file_number (λ m. refl) (λ m b. b)
              h.next,
          put_number_lem is_utf8 n 4 e.last_sequence last_sequence (λ m. refl) (λ m b. b) h.last,
          foldl-put put_deleted deleted (λ d. IsField is_utf8 (deleted d)) (put_deleted_lem is_utf8)
              e.deleted_files s h.deleted,
          foldl-put put_new_file added IsFile (put_new_file_lem is_utf8) e.new_files d h.added,
          foldl-put put_pointer pointer (λ p. IsField is_utf8 (pointer p)) (put_pointer_lem is_utf8)
              e.compact_pointers a h.pointers,
        )
        (simp (append_assoc, pieces-append))

  -- A version edit that the format can hold (numbers of 64 bits, levels and lengths of 32, a
  -- comparator in UTF-8, files with no seek count) is read back as it was written, every field of
  -- it.
  pub decode-encode_edit : (e : VersionEdit) → IsEdit is_utf8 e → decode is_utf8 (encode e) ≡ ok e
  unfolding decode
  decode-encode_edit e h = rw (encode-pieces e h) (
      decode_loop-pieces (length (pieces (fields_of e))) (fields_of e) new_edit (All-fields_of e h)
        (omega arith)
      ∙ ap (λ t. ok t) (apply_fields_of e))
