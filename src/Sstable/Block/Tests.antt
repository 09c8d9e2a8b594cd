-- ===== src/Sstable/Block/Tests.antt =====
-- Runs of src/sstable/block.rs.
use mulan_lsm.Prelude.{
  ◌≡◌, ◌∙◌, refl, ap, List, [], ◌∷◌, length, some, Result, ok, err, panic, arith,
}
use mulan_lsm.Prelude.Bytes.{Bytes, le_bytes, cmp_bytes}
use mulan_lsm.Prelude.Compare.{cmp_bytes-IsTotalOrder, reverse}
use mulan_lsm.Prelude.Order.{lt_wf}
use native.Mathlib.Decide.{dec_le}
use mulan_lsm.Varint.{encode_varint32, encode_loop}
use mulan_lsm.Sstable.Block
use mulan_lsm.Sstable.Block.{BlockBuilder, open_block, finish, items_of}
use mulan_lsm.Sstable.Block.RoundTrip.{add_all, AreU32, items_of-add_all}
use mulan_lsm.Sstable.Block.Search.{lower_bound, lower_bound_kv}
use mulan_lsm.Sstable.Block.Seek.{IsTransitive}
use mulan_lsm.Sstable.Block.LowerBound.{lower_bound_kv-add_all}

abbrev two_entries : List (Bytes × Bytes)
two_entries = (1 ∷ 2 ∷ [], 7 ∷ []) ∷ (1 ∷ 3 ∷ [], []) ∷ []

items_of-add_all_example :
    (b : BlockBuilder) × (block : Block.Block) × (add_all Block.new two_entries ≡ ok b)
    × (open_block (finish b) ≡ ok block)
    × (items_of block ≡ two_entries)
items_of-add_all_example =
    items_of-add_all two_entries ((omega arith, omega arith), ((omega arith, omega arith), _))
      (omega arith)

two_entries-AreU32 : AreU32 two_entries
two_entries-AreU32 = ((omega arith, omega arith), ((omega arith, omega arith), _))

abbrev builder_or_new : Result BlockBuilder → BlockBuilder
builder_or_new (ok b) = b
builder_or_new (err e) = Block.new
builder_or_new panic = Block.new

abbrev two_added : BlockBuilder
two_added = builder_or_new (add_all Block.new two_entries)

two_added_lem : add_all Block.new two_entries ≡ ok two_added
unfolding Block.new Block.add
two_added_lem = refl

two_added_size : length (finish two_added) ≡ 18
unfolding Block.new Block.add finish Block.append_entry Block.common_prefix_len encode_varint32
    encode_loop lt_wf dec_le le_bytes
two_added_size = refl

greater_trans : IsTransitive cmp_bytes
greater_trans a b c h k =
    let order = cmp_bytes-IsTotalOrder in
    order.flip c a
    ∙ ap reverse (order.trans c b a (order.flip b c ∙ ap reverse k) (order.flip a b ∙ ap reverse h))

lower_bound_kv-add_all_example :
    (block : Block.Block) × (open_block (finish two_added) ≡ ok block)
    × (lower_bound_kv block cmp_bytes (1 ∷ 2 ∷ 5 ∷ []) ≡ ok (some (1 ∷ 3 ∷ [], [])))
    × (lower_bound block cmp_bytes (1 ∷ 2 ∷ 5 ∷ []) ≡ ok (some []))
lower_bound_kv-add_all_example =
    lower_bound_kv-add_all cmp_bytes (1 ∷ 2 ∷ 5 ∷ []) (1 ∷ 2 ∷ [], 7 ∷ []) ((1 ∷ 3 ∷ [], []) ∷ [])
      two_added greater_trans ((refl, _), (_, _)) two_entries-AreU32 two_added_lem
      (omega (arith, two_added_size))
