-- ===== src/Sstable/Block/Single.antt =====
-- A block of src/sstable/block.rs with one entry: get finds it.
use Prim.Native.Nat.{Ordering}
use mulan_lsm.Prelude.{
  ℕ, arith, ◌+◌, ◌*◌, ◌≡◌, refl, ap, ◌∙◌, [], ◌∷◌, ◌++◌, length, append_assoc, append-nil, some, ok,
}
use mulan_lsm.Prelude.Bytes.{Bytes, IsU32, le_bytes, length-le_bytes, from_le_bytes-le_bytes}
use mulan_lsm.Sstable.Block
use mulan_lsm.Sstable.Block.{BlockBuilder, push, Block, finish, restart_offset, entry_at}
use mulan_lsm.Sstable.Block.Entries.{entry_bytes, entry_at_lem, get_range_at}
use mulan_lsm.Sstable.Block.RoundTrip.{append_entry_lem, finished_block, finish_lem, restart_bytes}
use mulan_lsm.Sstable.Block.Search.{Compare, restarting_key_at, value_at_restart, search_equal, get}

module _ (key value : Bytes) (hk : IsU32 (length key)) (hv : IsU32 (length value)) where
  abbrev pub single : BlockBuilder
  single = push (0, Block.new) key value

  pub add-single : Block.add Block.new key value ≡ ok single
  unfolding Block.add Block.new Block.common_prefix_len
  add-single = refl

  abbrev all : Bytes
  all = finish single

  abbrev this : Bytes
  this = entry_bytes 0 key value

  abbrev tail : Bytes
  tail = le_bytes 4 0 ++ le_bytes 4 1

  buf-single : single.buf ≡ this
  unfolding Block.new
  buf-single = append_entry_lem [] 0 key value (omega arith) hk hv

  all_lem : all ≡ this ++ tail
  unfolding Block.new
  all_lem =
      finish_lem single
      ∙ ap (λ (buf : Bytes). (buf ++ restart_bytes (0 ∷ [])) ++ le_bytes 4 1) buf-single
      ∙ ap (λ (r : Bytes). (this ++ r) ++ le_bytes 4 1) (append-nil (le_bytes 4 0))
      ∙ append_assoc this (le_bytes 4 0) (le_bytes 4 1)

  restart_offset-single : restart_offset (finished_block single) 0 ≡ ok 0
  unfolding restart_offset
  restart_offset-single =
      let size = ap length buf-single in
      let found =
        get_range_at all this (le_bytes 4 0) (le_bytes 4 1) (length single.buf + 0 * 4)
          (length single.buf + 0 * 4 + 4) all_lem (omega (arith, size))
          (omega (arith, size, length-le_bytes 4 0)) in
      rw (restart_offset, found) (ap ok (from_le_bytes-le_bytes 4 0 (omega arith)))

  entry_at-single : entry_at (finished_block single) 0 ≡ ok (key, value, length this)
  entry_at-single =
      entry_at_lem (finished_block single) [] tail [] 0 key value (omega arith) hk hv all_lem
      ∙ ap (λ (n : ℕ). ok (key, value, n)) (omega arith)

  -- The one key is found.
  pub get-single :
      (cmp : Compare)
      → cmp key key ≡ Ordering.eq
      → get (finished_block single) cmp key ≡ ok (some value)
  unfolding get search_equal restarting_key_at value_at_restart Block.new
  get-single cmp same =
      rw
        (
          get, search_equal, restarting_key_at, restart_offset-single, entry_at-single, same,
          value_at_restart, restart_offset-single, entry_at-single,
        )
        refl
