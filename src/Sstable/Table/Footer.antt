-- ===== src/Sstable/Table/Footer.antt =====
-- Handles and the footer of src/sstable/table.rs, written and read back.
use mulan_lsm.Prelude.{
  ℕ, arith, ◌-◌, ◌≤◌, ◌≡◌, refl, sym, ap, ◌∙◌, [], ◌++◌, length, length-append, append_assoc, take,
  drop, replicate, length-replicate, length-take, take-append_behind, drop-append_exact, leb, ◌==◌,
  true, ok,
}
use mulan_lsm.Prelude.Bytes.{
  Bytes, IsU64, le_bytes, from_le_bytes, length-le_bytes, from_le_bytes-le_bytes,
}
use mulan_lsm.Varint.Encode.{groups, length-groups, encode_varint64_lem}
use mulan_lsm.Varint.RoundTrip.{decode_varint64-groups}
use mulan_lsm.Sstable.Table.{
  BlockHandle, encode_handle, decode_handle, footer_bytes, footer_len, magic,
}

pub record IsHandle (h : BlockHandle) : Type 0 where
  pub offset : IsU64 h.offset
  pub size : IsU64 h.size

abbrev pub zeros : Bytes
zeros = replicate 40 0

abbrev pub handle_bytes : BlockHandle → Bytes
handle_bytes h = groups 9 h.offset ++ groups 9 h.size

pub encode_handle_lem :
    (buf : Bytes) (h : BlockHandle) → IsHandle h → encode_handle buf h ≡ buf ++ handle_bytes h
unfolding encode_handle
encode_handle_lem buf h fits =
    let one = ap (λ r. r.0) (encode_varint64_lem buf h.offset fits.offset) in
    let two = ap (λ r. r.0) (encode_varint64_lem (buf ++ groups 9 h.offset) h.size fits.size) in
    rw (encode_handle, one, two) (append_assoc buf (groups 9 h.offset) (groups 9 h.size))

pub length-handle_bytes : (h : BlockHandle) → length (handle_bytes h) ≤ 20
length-handle_bytes h = omega (
  arith,
  length-append (groups 9 h.offset) (groups 9 h.size),
  (length-groups 9 h.offset).1,
  (length-groups 9 h.size).1,
)

pub decode_handle_lem :
    (h : BlockHandle) (rest : Bytes)
    → IsHandle h
    → decode_handle (handle_bytes h ++ rest) ≡ ok (h, length (handle_bytes h))
unfolding decode_handle
decode_handle_lem h rest fits =
    let shape : handle_bytes h ++ rest ≡ groups 9 h.offset ++ (groups 9 h.size ++ rest) =
      append_assoc (groups 9 h.offset) (groups 9 h.size) rest in
    let one = decode_varint64-groups h.offset (groups 9 h.size ++ rest) fits.offset in
    let two = decode_varint64-groups h.size rest fits.size in
    let n1 = length (groups 9 h.offset) in
    let inside : leb n1 (length (groups 9 h.offset ++ (groups 9 h.size ++ rest))) ≡ true =
      ground (arith, length-append (groups 9 h.offset) (groups 9 h.size ++ rest)) in
    let behind = drop-append_exact n1 (groups 9 h.offset) (groups 9 h.size ++ rest) refl in
    ap decode_handle shape
    ∙ rw (decode_handle, one, inside, behind, two)
        (ap (λ (n : ℕ). ok (h, n)) (sym (length-append (groups 9 h.offset) (groups 9 h.size))))

module _ (m i : BlockHandle) (fm : IsHandle m) (fi : IsHandle i) where
  abbrev both : Bytes
  both = handle_bytes m ++ handle_bytes i

  short : length both ≤ 40
  short = omega (
    arith,
    length-append (handle_bytes m) (handle_bytes i),
    length-handle_bytes m,
    length-handle_bytes i,
  )

  abbrev padding : Bytes
  padding = take (40 - length both) zeros

  footer_lem : footer_bytes m i ≡ (both ++ padding) ++ le_bytes 8 magic
  unfolding footer_bytes
  footer_lem =
      let written : encode_handle (encode_handle [] m) i ≡ both =
        encode_handle_lem (encode_handle [] m) i fi
        ∙ ap (λ (buf : Bytes). buf ++ handle_bytes i) (encode_handle_lem [] m fm) in
      rw written (
        ap (λ (t : Bytes). t ++ le_bytes 8 magic)
          (take-append_behind 40 (40 - length both) both zeros (omega (arith, short))))

  length-padded : length (both ++ padding) ≡ 40
  length-padded =
      let filled : length zeros ≡ 40 = length-replicate {A = ℕ} 40 0 in
      omega (arith, length-append both padding, length-take (40 - length both) zeros, filled, short)

  pub length-footer_bytes : length (footer_bytes m i) ≡ 48
  length-footer_bytes =
      ap length footer_lem
      ∙ omega (
        arith,
        length-append (both ++ padding) (le_bytes 8 magic),
        length-padded,
        length-le_bytes 8 magic,
      )

  pub magic-footer_bytes :
      (from_le_bytes (drop (footer_len - 8) (footer_bytes m i)) == magic) ≡ true
  magic-footer_bytes =
      let tail : drop 40 (footer_bytes m i) ≡ le_bytes 8 magic =
        ap (drop 40) footer_lem
        ∙ drop-append_exact 40 (both ++ padding) (le_bytes 8 magic) (sym length-padded) in
      rw (tail, from_le_bytes-le_bytes 8 magic (omega arith)) refl

  pub behind_first : Bytes
  behind_first = (handle_bytes i ++ padding) ++ le_bytes 8 magic

  pub first-footer_bytes : footer_bytes m i ≡ handle_bytes m ++ behind_first
  unfolding behind_first
  first-footer_bytes = footer_lem ∙ simp append_assoc refl

  -- Behind the first handle stands the second.
  pub second-behind_first : decode_handle behind_first ≡ ok (i, length (handle_bytes i))
  unfolding behind_first
  second-behind_first =
      ap decode_handle (append_assoc (handle_bytes i) padding (le_bytes 8 magic))
      ∙ decode_handle_lem i (padding ++ le_bytes 8 magic) fi
