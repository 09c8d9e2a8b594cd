-- ===== src/Sstable/Table/Built.antt =====
-- The builder of src/sstable/table.rs: what is in the file and what is still due, after every step.
use mathlib.Core.Path.{subst}
use mulan_lsm.Prelude.{
  arith, ◌+◌, ◌%◌, ◌^◌, ◌<◌, ◌≡◌, ap, ◌∙◌, List, [], ◌∷◌, ◌++◌, map, length, length-append, All,
  append_assoc, Option, none, some, ◌⊎◌,
}
use mulan_lsm.Prelude.Bytes.{Bytes, IsU32}
use mulan_lsm.Sstable.Block
use mulan_lsm.Sstable.Block.{
  BlockBuilder, Block, is_empty, open_block, items_of, get_range, and_then, to_option,
}
use mulan_lsm.Sstable.Block.Entries.{get_range_at}
use mulan_lsm.Sstable.Block.RoundTrip.{IsBuilder, length-finish, open_block-finish, items_of-finish}
use mulan_lsm.Sstable.Table.{BlockHandle, TableBuilder, handle_range, load}
use mulan_lsm.Sstable.Table.Footer.{IsHandle, handle_bytes}
use mulan_lsm.Sstable.Table.Walk.{join, AllLoad}

abbrev pub IsSmall : Bytes → Type 0
IsSmall bytes = length bytes < 2 ^ 32

-- The block at the handle holds the entries, whatever comes behind the bytes, as long as the file is of
-- less than 4 GiB.
abbrev pub Located : Bytes → BlockHandle → List (Bytes × Bytes) → Type 0
Located file h xs = (post : Bytes) → IsSmall (file ++ post) → load (file ++ post) h ≡ some xs

pub Located-append :
    (file more : Bytes) (h : BlockHandle) (xs : List (Bytes × Bytes))
    → Located file h xs
    → Located (file ++ more) h xs
Located-append file more h xs located post small =
    let e = append_assoc file more post in
    ap (λ (all : Bytes). load all h) e ∙ located (more ++ post) (subst IsSmall e small)

-- What `write_raw` returns for bytes behind a file.
abbrev pub handle_at : Bytes → Bytes → BlockHandle
handle_at file bytes = record { offset = length file % 2 ^ 64; size = length bytes % 2 ^ 64 }

pub handle_at-IsHandle : (file bytes : Bytes) → IsHandle (handle_at file bytes)
handle_at-IsHandle file bytes = record { offset = omega arith; size = omega arith }

pub handle_range_at :
    (file bytes post : Bytes)
    → IsSmall ((file ++ bytes) ++ post)
    → handle_range ((file ++ bytes) ++ post) (handle_at file bytes) ≡ some bytes
handle_range_at file bytes post small =
    let size = length-append (file ++ bytes) post in
    let size' = length-append file bytes in
    get_range_at ((file ++ bytes) ++ post) file bytes post ((handle_at file bytes).offset)
      (((handle_at file bytes).offset + (handle_at file bytes).size) % 2 ^ 64)
      (append_assoc file bytes post) (ground (arith, small, size, size'))
      (ground (arith, small, size, size'))

pub finish-Located :
    (file : Bytes) (b : BlockBuilder) (xs : List (Bytes × Bytes))
    → IsBuilder b xs
    → Located (file ++ Block.finish b) (handle_at file (Block.finish b)) xs
finish-Located file b xs h post small =
    let bytes = Block.finish b in
    let size = length-append (file ++ bytes) post in
    let size' = length-append file bytes in
    let few : IsU32 (length b.restarts) = omega (arith, small, size, size', length-finish b) in
    rw (handle_range_at file bytes post small, open_block-finish b few)
      (ap some (items_of-finish b xs h))

abbrev pub AllLocated : Bytes → List (Bytes × BlockHandle) → List (List (Bytes × Bytes)) → Type 0
AllLocated file [] [] = Unit {0}
AllLocated file [] (xs ∷ xss) = ⊥
AllLocated file (e ∷ es) [] = ⊥
AllLocated file (e ∷ es) (xs ∷ xss) = Located file e.1 xs × AllLocated file es xss

pub AllLocated-append :
    (file more : Bytes) (es : List (Bytes × BlockHandle)) (xss : List (List (Bytes × Bytes)))
    → AllLocated file es xss
    → AllLocated (file ++ more) es xss
AllLocated-append file more [] [] h = h
AllLocated-append file more [] (xs ∷ xss) h = h
AllLocated-append file more (e ∷ es) [] h = h
AllLocated-append file more (e ∷ es) (xs ∷ xss) h =
    (Located-append file more e.1 xs h.0, AllLocated-append file more es xss h.1)

pub AllLocated-last :
    (file : Bytes) (es : List (Bytes × BlockHandle)) (xss : List (List (Bytes × Bytes)))
    (e : Bytes × BlockHandle) (xs : List (Bytes × Bytes))
    → AllLocated file es xss
    → Located file e.1 xs
    → AllLocated file (es ++ e ∷ []) (xss ++ xs ∷ [])
AllLocated-last file [] [] e xs h k = (k, _)
AllLocated-last file [] (ys ∷ yss) e xs h k = elim h [ ]
AllLocated-last file (d ∷ ds) [] e xs h k = elim h [ ]
AllLocated-last file (d ∷ ds) (ys ∷ yss) e xs h k = (h.0, AllLocated-last file ds yss e xs h.1 k)

pub AllLocated-AllLoad :
    (file post : Bytes) (es : List (Bytes × BlockHandle)) (xss : List (List (Bytes × Bytes)))
    → IsSmall (file ++ post)
    → AllLocated file es xss
    → AllLoad (file ++ post) (map (λ e. e.1) es) xss
AllLocated-AllLoad file post [] [] small h = _
AllLocated-AllLoad file post [] (xs ∷ xss) small h = h
AllLocated-AllLoad file post (e ∷ es) [] small h = h
AllLocated-AllLoad file post (e ∷ es) (xs ∷ xss) small h =
    (h.0 post small, AllLocated-AllLoad file post es xss small h.1)

-- An entry of the index.
abbrev pub index_item : Bytes × BlockHandle → Bytes × Bytes
index_item (key, h) = (key, handle_bytes h)

abbrev pub due_key : Option (Bytes × BlockHandle) → Option Bytes
due_key none = none
due_key (some (key, h)) = some key

abbrev pub due_handle : Option (Bytes × BlockHandle) → Option BlockHandle
due_handle none = none
due_handle (some (key, h)) = some h

abbrev pub with_due :
    List (Bytes × BlockHandle) → Option (Bytes × BlockHandle) → List (Bytes × BlockHandle)
with_due noted none = noted
with_due noted (some e) = noted ++ e ∷ []

abbrev pub DueFits : Option (Bytes × BlockHandle) → Type 0
DueFits none = Unit {0}
DueFits (some (key, h)) = IsU32 (length key) × IsHandle h

-- A builder that was given `items`; the block that was written last may be missing from the index.
pub record IsTable (due : Option (Bytes × BlockHandle)) (t : TableBuilder)
    (items : List (Bytes × Bytes)) : Type 0 where
  pub blocks : List (List (Bytes × Bytes))
  pub current : List (Bytes × Bytes)
  pub noted : List (Bytes × BlockHandle)
  pub contents : join blocks ++ current ≡ items
  pub located : AllLocated t.file (with_due noted due) blocks
  pub block : IsBuilder t.data_block current
  pub index : IsBuilder t.index_block (map index_item noted)
  pub has_key : t.pending_index_key ≡ due_key due
  pub has_handle : t.pending_handle ≡ due_handle due
  pub due_fits : DueFits due
  pub noted_fit : All (λ e. IsHandle e.1) noted
  pub offset : t.file_offset ≡ length t.file % 2 ^ 64
  pub key_fits : IsU32 (length t.last_key)
  pub order : (due ≡ none) ⊎ (current ≡ [])
  pub counted : t.num_entries ≡ length items % 2 ^ 64
