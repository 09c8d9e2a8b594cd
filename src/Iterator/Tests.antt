-- ===== src/Iterator/Tests.antt =====
-- Runs of src/iterator.rs on small sources.
use mathlib.Core.List.{Permᴰ}
use mulan_lsm.Prelude.{◌≡◌, refl, List, [], ◌∷◌, map, arith}
use Prim.Native.Nat.{Ordering}
use mulan_lsm.Prelude.Bytes.{le_bytes, from_le_bytes}
use mulan_lsm.InternalKey
use mulan_lsm.InternalKey.{
  InternalKey, ValueType, internal_key_cmp, user_key_of_internal_key, seq_of_internal_key,
}
use mulan_lsm.Reads.{Entry, bytes_of}
use mulan_lsm.Iterator.{Item, merging}
use mulan_lsm.Iterator.Order.{Leq, IsSorted}
use mulan_lsm.Iterator.Streams.{Streams, concat}
use mulan_lsm.Iterator.Merge.{merging-Streams}

abbrev newer : Entry
newer = (record { user_key = 1 ∷ []; seq = 9; vtype = ValueType.put }, 7 ∷ [])

abbrev older : Entry
older = (record { user_key = 1 ∷ []; seq = 4; vtype = ValueType.put }, 8 ∷ [])

abbrev gone : Entry
gone = (record { user_key = 2 ∷ []; seq = 5; vtype = ValueType.delete }, [])

abbrev two_sources : List (List Item)
two_sources = map bytes_of (older ∷ gone ∷ []) ∷ map bytes_of (newer ∷ []) ∷ []

abbrev entries : List Entry
entries = newer ∷ older ∷ gone ∷ []

older_less : internal_key_cmp (InternalKey.encode older.0) (InternalKey.encode gone.0) ≡ Ordering.lt
unfolding internal_key_cmp user_key_of_internal_key seq_of_internal_key InternalKey.encode le_bytes
    from_le_bytes
older_less = refl

older_first : Leq (bytes_of older) (bytes_of gone)
older_first e = ground (arith, e, older_less)

merging-Streams_example :
    (xs : List Item) × (Streams (merging two_sources) xs
      × (IsSorted xs × Permᴰ (concat two_sources) xs))
merging-Streams_example = merging-Streams two_sources (((older_first, _), (_, _)), ((_, _), _))
