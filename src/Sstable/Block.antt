-- ===== src/Sstable/Block.antt =====
-- src/sstable/block.rs: the builder of a block, and a block that is read. A key shares a prefix with
-- the key before it; a restart point has its whole key. Sums of a `usize` that would leave 64 bits are
-- not reduced: such an offset is out of bounds in any case.
pub mod Entries
pub mod Search
pub mod RoundTrip
pub mod Single
pub mod Restarts
pub mod Seek
pub mod Rounds
pub mod Values
pub mod LowerBound
mod Tests
use Prim.Native.Nat.{Ordering}
use mulan_lsm.Prelude.{
  ℕ, zero, suc, ◌+◌, ◌-◌, ◌*◌, ◌/◌, ◌%◌, ◌^◌, min, List, [], ◌∷◌, ◌++◌, length, take, drop, slice,
  leb, ltb, ◌==◌, if◌then◌else◌, Bool, true, false, Option, none, some, Result, ok, err, panic,
  ok_or, MulanError, ◌>>=◌,
}
use mulan_lsm.Prelude.Bytes.{Bytes, le_bytes, from_le_bytes}
use mulan_lsm.Varint.{encode_varint32, decode_varint32}

abbrev pub restart_interval : ℕ
restart_interval = 16

pub record BlockBuilder : Type 0 where
  pub buf : Bytes
  pub restarts : List ℕ
  pub last_key : Bytes
  pub count_since_restart : ℕ
  pub finished : Bool

unfoldable pub new : BlockBuilder
new = record {
  buf = [];
  restarts = 0 ∷ [];
  last_key = [];
  count_since_restart = 0;
  finished = false;
}

unfoldable pub common_prefix_len : Bytes → Bytes → ℕ
common_prefix_len [] b = 0
common_prefix_len (x ∷ xs) [] = 0
common_prefix_len (x ∷ xs) (y ∷ ys) =
    let rest = common_prefix_len xs ys in if x == y then rest + 1 else 0

-- The length of the shared prefix, and the builder with a new restart point where one is due.
abbrev pub share : BlockBuilder → Bytes → ℕ × BlockBuilder
share b key =
    if ltb b.count_since_restart restart_interval then (common_prefix_len b.last_key key, b) else (
      0,
      record b { restarts = b.restarts ++ (length b.buf % 2 ^ 32) ∷ []; count_since_restart = 0 },
    )

unfoldable pub append_entry : Bytes → ℕ → Bytes → Bytes → Bytes
append_entry buf shared key value =
    let with_shared = (encode_varint32 buf (shared % 2 ^ 32)).0 in
    let with_non_shared = (encode_varint32 with_shared ((length key - shared) % 2 ^ 32)).0 in
    let with_value_len = (encode_varint32 with_non_shared (length value % 2 ^ 32)).0 in
    (with_value_len ++ drop shared key) ++ value

-- The builder behind the entry, where the prefix to share is known.
abbrev pub push : ℕ × BlockBuilder → Bytes → Bytes → BlockBuilder
push (shared, b) key value = record b {
  buf = append_entry b.buf shared key value;
  last_key = key;
  count_since_restart = b.count_since_restart + 1;
}

unfoldable pub add : BlockBuilder → Bytes → Bytes → Result BlockBuilder
add b key value = if b.finished then err MulanError.corrupted else ok (push (share b key) key value)

abbrev pub put_restarts : Bytes → List ℕ → Bytes
put_restarts buf [] = buf
put_restarts buf (r ∷ rs) = put_restarts (buf ++ le_bytes 4 r) rs

unfoldable pub finish : BlockBuilder → Bytes
finish b = put_restarts b.buf b.restarts ++ le_bytes 4 (length b.restarts % 2 ^ 32)

unfoldable pub current_size_estimate : BlockBuilder → ℕ
current_size_estimate b = length b.buf + 4 * length b.restarts + 4

unfoldable pub is_empty : BlockBuilder → Bool
is_empty b = length b.buf == 0

pub record Block : Type 0 where
  pub bytes : Bytes
  pub restarts_offset : ℕ
  pub num_restarts : ℕ

unfoldable pub open_block : Bytes → Result Block
open_block all =
    if ltb (length all) 4
    then err MulanError.corrupted
    else (let num_restarts = from_le_bytes (drop (length all - 4) all) in
        if ltb (length all) (4 + num_restarts * 4)
        then err MulanError.corrupted
        else ok (record {
          bytes = all;
          restarts_offset = length all - 4 - num_restarts * 4;
          num_restarts = num_restarts;
        }))

-- `data.get(from..)` and `data.get(from..to)`
abbrev pub get_from : Bytes → ℕ → Option Bytes
get_from all from = if leb from (length all) then some (drop from all) else none

abbrev pub get_range : Bytes → ℕ → ℕ → Option Bytes
get_range all from to =
    if leb from to then (if leb to (length all) then some (slice all from to) else none) else none

-- The `?` on an `Option`, and `.ok()?` on a `Result`.
abbrev pub and_then {ℓ ℓ'} : {A : Type ℓ} {B : Type ℓ'} → Option A → (A → Option B) → Option B
and_then none next = none
and_then (some a) next = next a

abbrev pub to_option {ℓ} : {A : Type ℓ} → Result A → Option A
to_option (ok a) = some a
to_option (err e) = none
to_option panic = none

-- `&data[start..start + 4]`; a start that is out of bounds is a panic.
unfoldable pub restart_offset : Block → ℕ → Result ℕ
restart_offset block i =
    let start = block.restarts_offset + i * 4 in
    elim (get_range block.bytes start (start + 4)) [
      | none ↦ panic
      | some bytes ↦ ok (from_le_bytes bytes)
    ]

-- The three numbers in front of an entry, and how many bytes they take.
unfoldable pub entry_header : Bytes → ℕ → Result (ℕ × ℕ × ℕ × ℕ)
entry_header all offset = do
  first ← ok_or (get_from all offset) MulanError.corrupted
  (shared, n1) ← decode_varint32 first
  second ← ok_or (get_from all (offset + n1)) MulanError.corrupted
  (non_shared, n2) ← decode_varint32 second
  third ← ok_or (get_from all (offset + n1 + n2)) MulanError.corrupted
  (value_len, n3) ← decode_varint32 third
  ok (shared, non_shared, value_len, n1 + n2 + n3)

-- What stands at an offset: the rest of the key, the value and the next offset.
unfoldable pub entry_at : Block → ℕ → Result (Bytes × Bytes × ℕ)
entry_at block offset = do
  (_, non_shared, value_len, header_len) ← entry_header block.bytes offset
  let start = offset + header_len
  key_delta ← ok_or (get_range block.bytes start (start + non_shared)) MulanError.corrupted
  value ←
      ok_or (get_range block.bytes (start + non_shared) (start + non_shared + value_len))
        MulanError.corrupted
  ok (key_delta, value, start + non_shared + value_len)

pub record ParsedEntry : Type 0 where
  pub key : Bytes
  pub value : Bytes
  pub next_offset : ℕ

unfoldable pub parse_entry : Block → ℕ → Bytes → Option ParsedEntry
parse_entry block offset last_key =
    and_then (to_option (entry_header block.bytes offset)) (λ header.
      let (shared, non_shared, value_len, header_len) = header in
      let start = offset + header_len in
      let value_start = start + non_shared in
      let value_end = value_start + value_len in
      if ltb block.restarts_offset value_end
      then none
      else and_then (get_range block.bytes start value_start) (λ key_delta.
        if ltb (length last_key) shared
        then none
        else and_then (get_range block.bytes value_start value_end) (λ value. some (record {
          key = take shared last_key ++ key_delta;
          value = value;
          next_offset = value_end;
        }))))

unfoldable pub is_past_entries : Block → ℕ → Bool
is_past_entries block offset = leb block.restarts_offset offset

pub record BlockIter : Type 0 where
  pub offset : ℕ
  pub last_key : Bytes

unfoldable pub iter : Block → BlockIter
iter block = record { offset = 0; last_key = [] }

unfoldable pub next : Block → BlockIter → Option ((Bytes × Bytes) × BlockIter)
next block it =
    if is_past_entries block it.offset
    then none
    else and_then (parse_entry block it.offset it.last_key) (λ entry.
      some ((entry.key, entry.value), record { offset = entry.next_offset; last_key = entry.key }))

-- What calls of `next` give, until nothing comes or there were `fuel`.
unfoldable pub collect : ℕ → Block → BlockIter → List (Bytes × Bytes)
collect zero block it = []
collect (suc fuel) block it = elim (next block it) [
  | none ↦ []
  | some (item, rest) ↦ item ∷ collect fuel block rest
]

-- `block.iter().collect()`: an entry takes a byte at least.
abbrev pub items_of : Block → List (Bytes × Bytes)
items_of block = collect (length block.bytes) block (iter block)
