-- ===== src/Manifest/Written.antt =====
-- What `VersionEdit::encode_to` of src/manifest.rs writes: its fields, each behind its tag.
use mulan_lsm.Prelude.{
  ℕ, ◌%◌, ◌^◌, arith, ◌≡◌, refl, sym, ap, ◌∙◌, List, [], ◌∷◌, ◌++◌, foldl, map, length,
  append_assoc, append-nil, Bool, Option, none, some, All,
}
use mulan_lsm.Prelude.Bytes.{Bytes, IsU32, IsU64}
use mulan_lsm.Varint.Encode.{groups, encode_varint32_lem, encode_varint64_lem}
use mulan_lsm.InternalKey
use mulan_lsm.Manifest.Edit.{DeletedFile, NewFile, VersionEdit}
use mulan_lsm.Manifest.Codec.{
  put_sized, put_number, put_comparator, put_deleted, put_new_file, put_pointer,
}
use mulan_lsm.Manifest.Fields.{
  Field, comparator, log_number, prev_log_number, next_file_number, last_sequence, deleted, added,
  pointer, tag_of, sized, body_of, IsField, IsFile,
}

abbrev pub piece_of : Field → Bytes
piece_of f = tag_of f ∷ body_of f

abbrev pub pieces : List Field → Bytes
pieces [] = []
pieces (f ∷ fs) = piece_of f ++ pieces fs

pub pieces-append : (fs gs : List Field) → pieces (fs ++ gs) ≡ pieces fs ++ pieces gs
pieces-append [] gs = refl
pieces-append (f ∷ fs) gs =
    ap (λ t. piece_of f ++ t) (pieces-append fs gs)
    ∙ sym (append_assoc (piece_of f) (pieces fs) (pieces gs))

put_sized_lem : (buf p : Bytes) → IsU32 (length p) → put_sized buf p ≡ buf ++ sized p
unfolding put_sized
put_sized_lem buf p h =
    let n : length p % 2 ^ 32 ≡ length p = omega arith in
    rw (n, encode_varint32_lem buf (length p) h) (append_assoc buf (groups 4 (length p)) p)

abbrev pub number_field : (ℕ → Field) → Option ℕ → List Field
number_field f none = []
number_field f (some n) = f n ∷ []

abbrev pub comparator_field : Option Bytes → List Field
comparator_field none = []
comparator_field (some c) = comparator c ∷ []

module _ (is_utf8 : Bytes → Bool) (buf : Bytes) where
  pub put_comparator_lem :
      (c : Option Bytes)
      → All (IsField is_utf8) (comparator_field c)
      → put_comparator c buf ≡ buf ++ pieces (comparator_field c)
  unfolding put_comparator
  put_comparator_lem none h = sym (append-nil buf)
  put_comparator_lem (some c) h =
      put_sized_lem (buf ++ 1 ∷ []) c h.0.1
      ∙ append_assoc buf (1 ∷ []) (sized c)
      ∙ ap (λ t. buf ++ t) (sym (append-nil (piece_of (comparator c))))

  pub put_number_lem :
      (tag : ℕ) (n : Option ℕ) (f : ℕ → Field)
      → ((m : ℕ) → piece_of (f m) ≡ tag ∷ groups 9 m)
      → ((m : ℕ) → IsField is_utf8 (f m) → IsU64 m)
      → All (IsField is_utf8) (number_field f n)
      → put_number tag n buf ≡ buf ++ pieces (number_field f n)
  unfolding put_number
  put_number_lem tag none f shape bound h = sym (append-nil buf)
  put_number_lem tag (some m) f shape bound h =
      rw (put_number, encode_varint64_lem (buf ++ tag ∷ []) m (bound m h.0))
        (append_assoc buf (tag ∷ []) (groups 9 m)
          ∙ ap (λ t. buf ++ t) (sym (append-nil (piece_of (f m)) ∙ shape m)))

  pub put_deleted_lem :
      (d : DeletedFile)
      → IsField is_utf8 (deleted d)
      → put_deleted buf d ≡ buf ++ piece_of (deleted d)
  unfolding put_deleted
  put_deleted_lem d h =
      rw
        (
          put_deleted,
          encode_varint32_lem (buf ++ 6 ∷ []) d.level h.0,
          encode_varint64_lem (buf ++ 6 ∷ [] ++ groups 4 d.level) d.number h.1,
        )
        (simp append_assoc)

  pub put_pointer_lem :
      (p : ℕ × Bytes)
      → IsField is_utf8 (pointer p)
      → put_pointer buf p ≡ buf ++ piece_of (pointer p)
  unfolding put_pointer
  put_pointer_lem p h =
      rw
        (
          encode_varint32_lem (buf ++ 5 ∷ []) p.0 h.0,
          put_sized_lem (buf ++ 5 ∷ [] ++ groups 4 p.0) p.1 h.1,
        )
        (simp append_assoc)

  pub put_new_file_lem : (f : NewFile) → IsFile f → put_new_file buf f ≡ buf ++ piece_of (added f)
  unfolding put_new_file
  put_new_file_lem f h =
      let s = InternalKey.encode f.meta.smallest in
      let l = InternalKey.encode f.meta.largest in
      let head = buf ++ 7 ∷ [] ++ groups 4 f.level in
      let numbers = head ++ groups 9 f.meta.number ++ groups 9 f.meta.file_size in
      rw
        (
          encode_varint32_lem (buf ++ 7 ∷ []) f.level h.level,
          encode_varint64_lem head f.meta.number h.number,
          encode_varint64_lem (head ++ groups 9 f.meta.number) f.meta.file_size h.size,
          put_sized_lem numbers s h.smallest.short,
          put_sized_lem (numbers ++ sized s) l h.largest.short,
        )
        (simp append_assoc)

-- A loop over a list of parts writes their pieces.
module _ {A : Type 0} (put : Bytes → A → Bytes) (field : A → Field) (P : A → Type 0) where
  pub foldl-put :
      ((buf : Bytes) (a : A) → P a → put buf a ≡ buf ++ piece_of (field a))
      → (xs : List A) (buf : Bytes) → All P xs
      → foldl put buf xs ≡ buf ++ pieces (map field xs)
  foldl-put each [] buf h = sym (append-nil buf)
  foldl-put each (x ∷ xs) buf h = rw (each buf x h.0) (
      foldl-put each xs (buf ++ piece_of (field x)) h.1
      ∙ append_assoc buf (piece_of (field x)) (pieces (map field xs)))

-- The fields of an edit, in the order they are written in.
abbrev pub fields_of : VersionEdit → List Field
fields_of e =
    comparator_field e.comparator
    ++ (number_field log_number e.log_number
        ++ (number_field prev_log_number e.prev_log_number
            ++ (number_field next_file_number e.next_file_number
                ++ (number_field last_sequence e.last_sequence
                    ++ (map deleted e.deleted_files
                        ++ (map added e.new_files ++ map pointer e.compact_pointers))))))

-- What the format can hold: numbers of 64 bits, levels and lengths of 32, a comparator in UTF-8, and
-- files without a seek count.
pub record IsEdit (is_utf8 : Bytes → Bool) (e : VersionEdit) : Type 0 where
  pub comparator : All (IsField is_utf8) (comparator_field e.comparator)
  pub log : All (IsField is_utf8) (number_field log_number e.log_number)
  pub prev : All (IsField is_utf8) (number_field prev_log_number e.prev_log_number)
  pub next : All (IsField is_utf8) (number_field next_file_number e.next_file_number)
  pub last : All (IsField is_utf8) (number_field last_sequence e.last_sequence)
  pub deleted : All (λ d. IsField is_utf8 (Field.deleted d)) e.deleted_files
  pub added : All IsFile e.new_files
  pub pointers : All (λ p. IsField is_utf8 (Field.pointer p)) e.compact_pointers
