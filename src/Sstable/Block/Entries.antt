-- ===== src/Sstable/Block/Entries.antt =====
-- The entries of a block of src/sstable/block.rs as bytes, and what the parser reads off them.
use mathlib.Core.Path.{subst}
use mulan_lsm.Prelude.{
  ℕ, zero, suc, arith, ◌+◌, ◌≤◌, ◌≡◌, refl, sym, ap, ◌∙◌, List, [], ◌∷◌, ◌++◌, length,
  length-append, append_assoc, take, drop-append_exact, leb, ltb, true, false, some, ok,
  slice-append_middle,
}
use mulan_lsm.Prelude.Bytes.{Bytes, IsU32}
use mulan_lsm.Varint.Encode.{groups, length-groups}
use mulan_lsm.Varint.RoundTrip.{decode_varint32-groups}
use mulan_lsm.Sstable.Block.{
  Block, get_from, get_range, entry_header, entry_at, parse_entry, is_past_entries, next, collect,
}

pub get_from_at :
    (all pre rest : Bytes) (n : ℕ) → all ≡ pre ++ rest → n ≡ length pre → get_from all n ≡ some rest
get_from_at all pre rest n e h =
    let inside : leb n (length all) ≡ true = rw e (ground (arith, h, length-append pre rest)) in
    rw (get_from, inside, e) (ap some (drop-append_exact n pre rest h))

pub get_range_at :
    (all pre mid post : Bytes) (from to : ℕ)
    → all ≡ pre ++ (mid ++ post)
    → from ≡ length pre
    → to ≡ length pre + length mid
    → get_range all from to ≡ some mid
get_range_at all pre mid post from to e h k =
    let ordered : leb from to ≡ true = ground (arith, h, k) in
    let size = length-append pre (mid ++ post) in
    let size' = length-append mid post in
    let inside : leb to (length all) ≡ true = rw e (ground (arith, k, size, size')) in
    rw (get_range, ordered, inside, e) (ap some (slice-append_middle pre mid post from to h k))

-- An entry that shares `shared` bytes with the key before it.
abbrev pub header_bytes : ℕ → ℕ → ℕ → Bytes
header_bytes shared non_shared value_len =
    groups 4 shared ++ (groups 4 non_shared ++ groups 4 value_len)

abbrev pub entry_bytes : ℕ → Bytes → Bytes → Bytes
entry_bytes shared key_delta value =
    header_bytes shared (length key_delta) (length value) ++ (key_delta ++ value)

module _ (all pre rest : Bytes) (s d v : ℕ) (hs : IsU32 s) (hd : IsU32 d) (hv : IsU32 v)
    (e : all ≡ pre ++ (header_bytes s d v ++ rest)) where
  at_first : all ≡ pre ++ (groups 4 s ++ (groups 4 d ++ (groups 4 v ++ rest)))
  at_first =
      e
      ∙ ap (◌++◌ pre) (
          append_assoc (groups 4 s) _ rest
          ∙ ap (◌++◌ (groups 4 s)) (append_assoc (groups 4 d) (groups 4 v) rest))

  at_second : all ≡ (pre ++ groups 4 s) ++ (groups 4 d ++ (groups 4 v ++ rest))
  at_second = at_first ∙ sym (append_assoc pre (groups 4 s) _)

  at_third : all ≡ ((pre ++ groups 4 s) ++ groups 4 d) ++ (groups 4 v ++ rest)
  at_third = at_second ∙ sym (append_assoc (pre ++ groups 4 s) (groups 4 d) _)

  length-header :
      length (header_bytes s d v) ≡ length (groups 4 s) + length (groups 4 d) + length (groups 4 v)
  length-header = omega (
    arith,
    length-append (groups 4 s) (groups 4 d ++ groups 4 v),
    length-append (groups 4 d) (groups 4 v),
  )

  pub entry_header_at : entry_header all (length pre) ≡ ok (s, d, v, length (header_bytes s d v))
  unfolding entry_header
  entry_header_at =
      let first = get_from_at all pre _ (length pre) at_first refl in
      let one = decode_varint32-groups s (groups 4 d ++ (groups 4 v ++ rest)) hs in
      let n1 = length (groups 4 s) in
      let n2 = length (groups 4 d) in
      let size = length-append pre (groups 4 s) in
      let second = get_from_at all (pre ++ groups 4 s) _ (length pre + n1) at_second (sym size) in
      let two = decode_varint32-groups d (groups 4 v ++ rest) hd in
      let third =
        get_from_at all ((pre ++ groups 4 s) ++ groups 4 d) _ (length pre + n1 + n2) at_third
          (omega (arith, size, length-append (pre ++ groups 4 s) (groups 4 d))) in
      let three = decode_varint32-groups v rest hv in
      rw (entry_header, first, one, second, two, third, three)
        (ap (λ n. ok (s, d, v, n)) (sym length-header))

module _ (block : Block) (pre post last : Bytes) (s : ℕ) (delta value : Bytes) (hs : IsU32 s)
    (hd : IsU32 (length delta)) (hv : IsU32 (length value))
    (e : block.bytes ≡ pre ++ (entry_bytes s delta value ++ post)) where
  abbrev header : Bytes
  header = header_bytes s (length delta) (length value)

  at_header : block.bytes ≡ pre ++ (header ++ ((delta ++ value) ++ post))
  at_header = e ∙ ap (◌++◌ pre) (append_assoc header (delta ++ value) post)

  at_delta : block.bytes ≡ (pre ++ header) ++ (delta ++ (value ++ post))
  at_delta =
      at_header
      ∙ sym (append_assoc pre header _)
      ∙ ap (◌++◌ (pre ++ header)) (append_assoc delta value post)

  at_value : block.bytes ≡ ((pre ++ header) ++ delta) ++ (value ++ post)
  at_value = at_delta ∙ sym (append_assoc (pre ++ header) delta (value ++ post))

  pub length-entry :
      length (entry_bytes s delta value) ≡ length header + length delta + length value
  length-entry = omega (arith, length-append header (delta ++ value), length-append delta value)

  pub parse_entry_at :
      s ≤ length last
      → length pre + length (entry_bytes s delta value) ≤ block.restarts_offset
      → parse_entry block (length pre) last
        ≡ some (record {
          key = take s last ++ delta;
          value = value;
          next_offset = length pre + length (entry_bytes s delta value);
        })
  unfolding parse_entry
  parse_entry_at shared inside =
      let head =
        entry_header_at block.bytes pre _ s (length delta) (length value) hs hd hv at_header in
      let to_delta = length-append pre header in
      let to_value = length-append (pre ++ header) delta in
      let start = length pre + length header in
      let found_delta =
        get_range_at block.bytes (pre ++ header) delta (value ++ post) start (start + length delta)
          at_delta (sym to_delta) (omega (arith, to_delta)) in
      let found_value =
        get_range_at block.bytes ((pre ++ header) ++ delta) value post (start + length delta)
          (start + length delta + length value) at_value (omega (arith, to_delta, to_value))
          (omega (arith, to_delta, to_value)) in
      let fits : ltb block.restarts_offset (start + length delta + length value) ≡ false =
        ground (arith, inside, length-entry) in
      let has : ltb (length last) s ≡ false = ground (arith, shared) in
      rw (parse_entry, head, fits, found_delta, has, found_value)
        (ap (λ n. some (record { key = take s last ++ delta; value = value; next_offset = n }))
          (omega (arith, length-entry)))

  pub entry_at_lem :
      entry_at block (length pre)
      ≡ ok (delta, value, length pre + length (entry_bytes s delta value))
  unfolding entry_at
  entry_at_lem =
      let head =
        entry_header_at block.bytes pre _ s (length delta) (length value) hs hd hv at_header in
      let to_delta = length-append pre header in
      let to_value = length-append (pre ++ header) delta in
      let start = length pre + length header in
      let found_delta =
        get_range_at block.bytes (pre ++ header) delta (value ++ post) start (start + length delta)
          at_delta (sym to_delta) (omega (arith, to_delta)) in
      let found_value =
        get_range_at block.bytes ((pre ++ header) ++ delta) value post (start + length delta)
          (start + length delta + length value) at_value (omega (arith, to_delta, to_value))
          (omega (arith, to_delta, to_value)) in
      rw (entry_at, head, found_delta, found_value)
        (ap (λ (n : ℕ). ok (delta, value, n)) (omega (arith, length-entry)))

-- The bytes of entries, where `last` is the key in front of them, and the last key among them.
pub data Encodes : Bytes → List (Bytes × Bytes) → Bytes → Bytes → Type 0 where
  none_left : {last : Bytes} → Encodes last [] [] last
  entry :
      {last key' : Bytes} {items : List (Bytes × Bytes)} {rest : Bytes}
      → (s : ℕ) (delta value : Bytes) → s ≤ length last
      → IsU32 s
      → IsU32 (length delta)
      → IsU32 (length value)
      → Encodes (take s last ++ delta) items rest key'
      → Encodes last
          ((take s last ++ delta, value) ∷ items)
          (entry_bytes s delta value ++ rest)
          key'

pub Encodes-bytes :
    {a b : Bytes} {xs : List (Bytes × Bytes)} {p q : Bytes}
    → p ≡ q
    → Encodes a xs p b
    → Encodes a xs q b
Encodes-bytes {a} {b} {xs} e h = subst (λ (bytes : Bytes). Encodes a xs bytes b) e h

pub Encodes-append :
    {a b c : Bytes} {xs ys : List (Bytes × Bytes)} {p q : Bytes}
    → Encodes a xs p b
    → Encodes b ys q c
    → Encodes a (xs ++ ys) (p ++ q) c
Encodes-append none_left k = k
Encodes-append {q = q} (entry {rest = rest} s delta value shared hs hd hv h) k =
    Encodes-bytes (sym (append_assoc (entry_bytes s delta value) rest q))
      (entry s delta value shared hs hd hv (Encodes-append h k))

pub entry_takes : (s : ℕ) (delta value : Bytes) → 1 ≤ length (entry_bytes s delta value)
entry_takes s delta value = omega (
  arith,
  length-append (header_bytes s (length delta) (length value)) (delta ++ value),
  length-append (groups 4 s) (groups 4 (length delta) ++ groups 4 (length value)),
  (length-groups 4 s).0,
)

pub Encodes-none :
    {last bytes key' : Bytes} {items : List (Bytes × Bytes)}
    → Encodes last items bytes key'
    → items ≡ []
    → bytes ≡ []
Encodes-none none_left e = refl
Encodes-none (entry s delta value shared hs hd hv more) e = cc

pub Encodes-empty :
    {last bytes key' : Bytes} {items : List (Bytes × Bytes)}
    → Encodes last items bytes key'
    → length bytes ≡ 0
    → items ≡ []
Encodes-empty none_left e = refl
Encodes-empty (entry {rest = rest} s delta value shared hs hd hv more) e =
    absurd
      (omega (arith, e, length-append (entry_bytes s delta value) rest, entry_takes s delta value))

-- The iterator gives the entries that the bytes encode.
pub collect_lem :
    (fuel : ℕ) {last key' : Bytes} {items : List (Bytes × Bytes)} {bytes : Bytes} (block : Block)
    (pre post : Bytes)
    → Encodes last items bytes key'
    → block.bytes ≡ pre ++ (bytes ++ post)
    → block.restarts_offset ≡ length pre + length bytes
    → length bytes ≤ fuel
    → collect fuel block (record { offset = length pre; last_key = last }) ≡ items
unfolding collect next is_past_entries
collect_lem zero block pre post none_left e h k = refl
collect_lem (suc fuel) block pre post none_left e h k =
    let past : leb block.restarts_offset (length pre) ≡ true = ground (arith, h) in
    rw (collect, past) refl
collect_lem zero block pre post (entry {rest = rest} s delta value shared hs hd hv more) e h k =
    absurd
      (omega (arith, k, length-append (entry_bytes s delta value) rest, entry_takes s delta value))
collect_lem (suc fuel) {last} block pre post
      (entry {rest = rest} s delta value shared hs hd hv more) e h k =
    let this = entry_bytes s delta value in
    let size = length-append this rest in
    let takes = entry_takes s delta value in
    let split : block.bytes ≡ pre ++ (this ++ (rest ++ post)) =
      e ∙ ap (◌++◌ pre) (append_assoc this rest post) in
    let split' : block.bytes ≡ (pre ++ this) ++ (rest ++ post) =
      split ∙ sym (append_assoc pre this (rest ++ post)) in
    let parsed =
      parse_entry_at block pre (rest ++ post) last s delta value hs hd hv split shared
        (omega (arith, h, size)) in
    let before : leb block.restarts_offset (length pre) ≡ false = ground (arith, h, size, takes) in
    let further : length (pre ++ this) ≡ length pre + length this = length-append pre this in
    let ih =
      collect_lem fuel block (pre ++ this) post more split' (omega (arith, h, size, further))
        (omega (arith, k, size, takes)) in
    rw (collect, before, parsed)
      (ap (◌∷◌ (take s last ++ delta, value)) (
        ap (λ (n : ℕ). collect fuel block (record { offset = n; last_key = take s last ++ delta }))
          (sym further)
        ∙ ih))
