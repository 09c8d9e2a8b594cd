-- ===== src/Sstable/Block/Seek.antt =====
-- The search for the first entry that is not smaller, in a block of src/sstable/block.rs that was built.
use Prim.Native.Nat.{Ordering}
use mulan_lsm.Prelude.{
  ℕ, zero, suc, arith, ◌+◌, ◌*◌, ◌%◌, ◌^◌, ◌≡◌, refl, sym, ap, ◌∙◌, List, [], ◌∷◌, ◌++◌, length,
  length-append, append_assoc, take, get_elem?, All, Option, none, some, ok,
}
use mulan_lsm.Prelude.Bytes.{Bytes, IsU32, le_bytes, length-le_bytes, from_le_bytes-le_bytes}
use mulan_lsm.Sstable.Block.{BlockBuilder, Block, finish, restart_offset}
use mulan_lsm.Sstable.Block.Entries.{get_range_at, entry_bytes, entry_at_lem, Encodes}
use mulan_lsm.Sstable.Block.RoundTrip.{finished_block, finish_lem, restart_bytes}
use mulan_lsm.Sstable.Block.Search.{Compare, restarting_key_at}

-- What the search is for.
abbrev pub first_from : Compare → Bytes → List (Bytes × Bytes) → Option (Bytes × Bytes)
first_from cmp target [] = none
first_from cmp target (x ∷ xs) = elim (cmp target x.0) [
  | Ordering.gt ↦ first_from cmp target xs
  | Ordering.lt ↦ some x
  | Ordering.eq ↦ some x
]

-- Keys that grow.
abbrev pub Ascending : Compare → List (Bytes × Bytes) → Type 0
Ascending cmp [] = Unit {0}
Ascending cmp (x ∷ xs) = All (λ y. cmp y.0 x.0 ≡ Ordering.gt) xs × Ascending cmp xs

abbrev pub IsTransitive : Compare → Type 0
IsTransitive cmp =
    (a b c : Bytes) → cmp a b ≡ Ordering.gt → cmp b c ≡ Ordering.gt → cmp a c ≡ Ordering.gt

All-middle :
    (P : Bytes × Bytes → Type 0) (xs : List (Bytes × Bytes)) (y : Bytes × Bytes)
    (ys : List (Bytes × Bytes))
    → All P (xs ++ y ∷ ys)
    → P y
All-middle P [] y ys h = h.0
All-middle P (x ∷ xs) y ys h = All-middle P xs y ys h.1

-- What stands before a key that is smaller does not matter.
pub first_from-skip :
    (cmp : Compare) (target : Bytes) (before : List (Bytes × Bytes)) (x : Bytes × Bytes)
    (xs : List (Bytes × Bytes))
    → IsTransitive cmp
    → Ascending cmp (before ++ x ∷ xs)
    → cmp target x.0 ≡ Ordering.gt
    → first_from cmp target (before ++ x ∷ xs) ≡ first_from cmp target (x ∷ xs)
first_from-skip cmp target [] x xs trans up h = refl
first_from-skip cmp target (b ∷ before) x xs trans up h =
    let above = All-middle (λ y. cmp y.0 b.0 ≡ Ordering.gt) before x xs up.0 in
    let skipped : cmp target b.0 ≡ Ordering.gt = trans target x.0 b.0 h above in
    rw skipped (first_from-skip cmp target before x xs trans up.1 h)

restart_bytes_at :
    (rs : List ℕ) (i r : ℕ)
    → get_elem? rs i ≡ some r
    → (p : Bytes) × (q : Bytes) × (restart_bytes rs ≡ p ++ (le_bytes 4 r ++ q)) × (length p ≡ 4 * i)
restart_bytes_at [] i r e = cc
restart_bytes_at (x ∷ rs) zero r e =
    let same : x ≡ r = cc in
    ([], restart_bytes rs, ap (λ (n : ℕ). le_bytes 4 n ++ restart_bytes rs) same, refl)
restart_bytes_at (x ∷ rs) (suc i) r e =
    let (p, q, split, size) = restart_bytes_at rs i r e in
    (
      le_bytes 4 x ++ p,
      q,
      ap (◌++◌ (le_bytes 4 x)) split ∙ sym (append_assoc (le_bytes 4 x) p (le_bytes 4 r ++ q)),
      omega (arith, size, length-append (le_bytes 4 x) p, length-le_bytes 4 x),
    )

pub restart_offset_at :
    (b : BlockBuilder) (i r : ℕ)
    → get_elem? b.restarts i ≡ some r
    → IsU32 r
    → restart_offset (finished_block b) i ≡ ok r
unfolding restart_offset
restart_offset_at b i r e small =
    let (p, q, split, size) = restart_bytes_at b.restarts i r e in
    let tail = le_bytes 4 (length b.restarts % 2 ^ 32) in
    let all : finish b ≡ (b.buf ++ p) ++ (le_bytes 4 r ++ (q ++ tail)) =
      finish_lem b ∙ ap (λ (m : Bytes). (b.buf ++ m) ++ tail) split ∙ simp append_assoc refl in
    let found =
      get_range_at (finish b) (b.buf ++ p) (le_bytes 4 r) (q ++ tail) (length b.buf + i * 4)
        (length b.buf + i * 4 + 4) all (omega (arith, size, length-append b.buf p))
        (omega (arith, size, length-append b.buf p, length-le_bytes 4 r)) in
    rw (restart_offset, found) (ap ok (from_le_bytes-le_bytes 4 r (omega (arith, small))))

take-none : (n : ℕ) → take {A = ℕ} n [] ≡ []
take-none zero = refl
take-none (suc n) = refl

-- The key at a restart point is that of the entry there.
pub restarting_key_at_lem :
    (block : Block) (i : ℕ) (pre post : Bytes) {first : Bytes × Bytes}
    {others : List (Bytes × Bytes)} {rest last : Bytes}
    → Encodes [] (first ∷ others) rest last
    → block.bytes ≡ pre ++ (rest ++ post)
    → restart_offset block i ≡ ok (length pre)
    → restarting_key_at block i ≡ ok (some first.0)
unfolding restarting_key_at
restarting_key_at_lem block i pre post
      (Encodes.entry {rest = rest} s delta value shared hs hd hv more) e at =
    let found =
      entry_at_lem block pre (rest ++ post) [] s delta value hs hd hv
        (e ∙ ap (◌++◌ pre) (append_assoc (entry_bytes s delta value) rest post)) in
    let whole : delta ≡ take s [] ++ delta = ap (λ (t : Bytes). t ++ delta) (sym (take-none s)) in
    rw (restarting_key_at, at, found) (ap (λ (k : Bytes). ok (some k)) whole)

-- An entry at a restart point does not need the key before it.
pub rebase :
    (key : Bytes) {first : Bytes × Bytes} {others : List (Bytes × Bytes)} {rest last : Bytes}
    → Encodes [] (first ∷ others) rest last
    → Encodes key (first ∷ others) rest last
rebase key (Encodes.entry zero delta value shared hs hd hv more) =
    Encodes.entry zero delta value (omega arith) hs hd hv more
rebase key (Encodes.entry (suc s) delta value shared hs hd hv more) = absurd (omega (arith, shared))
