-- ===== src/Sstable/Block/RoundTrip.antt =====
-- What a builder of src/sstable/block.rs was given is what an iterator over the finished block gives.
use mathlib.Core.Path.{subst}
use mulan_lsm.Prelude.{
  ℕ, suc, arith, ◌+◌, ◌-◌, ◌*◌, ◌%◌, ◌^◌, ◌<◌, ◌≤◌, ◌≡◌, refl, sym, ap, ◌∙◌, List, [], ◌∷◌, ◌++◌,
  length, length-append, append_assoc, append-nil, take, drop, take-append-drop, drop-append_exact,
  length-drop, All, ltb, ◌==◌, ==_iff, false, Bool-cases, Result, ok, ◌>>=◌, inl, inr,
}
use mulan_lsm.Prelude.Bytes.{
  Bytes, IsU32, le_bytes, from_le_bytes, length-le_bytes, from_le_bytes-le_bytes,
}
use mulan_lsm.Varint.Encode.{groups, encode_varint32_lem}
use mulan_lsm.Sstable.Block
use mulan_lsm.Sstable.Block.{
  BlockBuilder, restart_interval, common_prefix_len, share, append_entry, push, add, put_restarts,
  finish, current_size_estimate, Block, open_block, iter, collect, items_of,
}
use mulan_lsm.Sstable.Block.Entries.{
  entry_bytes, Encodes, Encodes-append, Encodes-bytes, collect_lem,
}

common_prefix_len-bound :
    (a b : Bytes) → (common_prefix_len a b ≤ length a) × (common_prefix_len a b ≤ length b)
unfolding common_prefix_len
common_prefix_len-bound [] b = (omega arith, omega arith)
common_prefix_len-bound (x ∷ xs) [] = (omega arith, omega arith)
common_prefix_len-bound (x ∷ xs) (y ∷ ys) =
    let (h, k) = common_prefix_len-bound xs ys in
    elim (Bool-cases (x == y)) [
      | inl same ↦ rw same (omega (arith, h), omega (arith, k))
      | inr differ ↦ rw differ (omega arith, omega arith)
    ]

-- The prefix is shared.
take-common_prefix_len :
    (a b : Bytes) → take (common_prefix_len a b) a ≡ take (common_prefix_len a b) b
unfolding common_prefix_len
take-common_prefix_len [] b = refl
take-common_prefix_len (x ∷ xs) [] = refl
take-common_prefix_len (x ∷ xs) (y ∷ ys) = elim (Bool-cases (x == y)) [
  | inl same ↦
      let n = common_prefix_len xs ys in
      let next : n + 1 ≡ suc n = omega arith in
      rw (same, next, (==_iff x y).0 same) (ap (◌∷◌ y) (take-common_prefix_len xs ys))
  | inr differ ↦ rw differ refl
]

-- The bytes of an entry are appended, where the lengths are of 32 bits.
pub append_entry_lem :
    (buf : Bytes) (shared : ℕ) (key value : Bytes)
    → shared ≤ length key
    → IsU32 (length key)
    → IsU32 (length value)
    → append_entry buf shared key value ≡ buf ++ entry_bytes shared (drop shared key) value
unfolding append_entry
append_entry_lem buf shared key value h hk hv =
    let delta = drop shared key in
    let rest : length delta ≡ length key - shared = length-drop shared key in
    let s : shared % 2 ^ 32 ≡ shared = ground (arith, h, hk) in
    let d : (length key - shared) % 2 ^ 32 ≡ length delta = ground (arith, h, hk, rest) in
    let v : length value % 2 ^ 32 ≡ length value = ground (arith, hv) in
    let one = ap (λ r. r.0) (encode_varint32_lem buf shared (omega (arith, h, hk))) in
    let two =
      ap (λ r. r.0)
        (encode_varint32_lem (buf ++ groups 4 shared) (length delta) (omega (arith, rest, hk))) in
    let three =
      ap (λ r. r.0)
        (encode_varint32_lem ((buf ++ groups 4 shared) ++ groups 4 (length delta)) (length value)
          hv) in
    rw (s, d, v, one, two, three) (simp append_assoc refl)

-- What the builder holds: its buffer encodes the entries that were added.
pub record IsBuilder (b : BlockBuilder) (items : List (Bytes × Bytes)) : Type 0 where
  pub encodes : Encodes [] items b.buf b.last_key
  pub running : b.finished ≡ false
  pub counted : length b.restarts ≤ length items + 1

pub new-IsBuilder : IsBuilder Block.new []
unfolding Block.new
new-IsBuilder = record { encodes = Encodes.none_left; running = refl; counted = omega arith }

-- One entry, behind a key whose first `shared` bytes it has.
pub one_entry :
    (last key value : Bytes) (shared : ℕ)
    → shared ≤ length last
    → shared ≤ length key
    → take shared last ≡ take shared key
    → IsU32 (length key)
    → IsU32 (length value)
    → Encodes last ((key, value) ∷ []) (entry_bytes shared (drop shared key) value) key
one_entry last key value shared h k same hk hv =
    let whole : take shared last ++ drop shared key ≡ key =
      ap (λ (t : Bytes). t ++ drop shared key) same ∙ take-append-drop shared key in
    let size = length-drop shared key in
    subst
      (λ (k' : Bytes).
        Encodes last ((k', value) ∷ []) (entry_bytes shared (drop shared key) value) k')
      whole
      (Encodes-bytes (append-nil (entry_bytes shared (drop shared key) value)) (
        Encodes.entry shared (drop shared key) value h (omega (arith, k, hk))
          (omega (arith, size, hk)) hv Encodes.none_left))

-- What `share` decides on.
pub record IsShare (b : BlockBuilder) (key : Bytes) (r : ℕ × BlockBuilder) : Type 0 where
  pub buf : r.1.buf ≡ b.buf
  pub finished : r.1.finished ≡ b.finished
  pub within_last : r.0 ≤ length b.last_key
  pub within_key : r.0 ≤ length key
  pub same : take r.0 b.last_key ≡ take r.0 key
  pub counted : length r.1.restarts ≤ length b.restarts + 1

pub share-IsShare : (b : BlockBuilder) (key : Bytes) → IsShare b key (share b key)
share-IsShare b key = elim (Bool-cases (ltb b.count_since_restart restart_interval)) [
  | inl near ↦
      let (h, k) = common_prefix_len-bound b.last_key key in
      rw near (record {
        buf = refl;
        finished = refl;
        within_last = h;
        within_key = k;
        same = take-common_prefix_len b.last_key key;
        counted = omega arith;
      })
  | inr due ↦ rw due (record {
    buf = refl;
    finished = refl;
    within_last = omega arith;
    within_key = omega arith;
    same = refl;
    counted = omega (arith, length-append b.restarts ((length b.buf % 2 ^ 32) ∷ []));
  })
]

push-IsBuilder :
    (b : BlockBuilder) (items : List (Bytes × Bytes)) (key value : Bytes) (r : ℕ × BlockBuilder)
    → IsBuilder b items
    → IsShare b key r
    → IsU32 (length key)
    → IsU32 (length value)
    → IsBuilder (push r key value) (items ++ (key, value) ∷ [])
push-IsBuilder b items key value r h share hk hv = record {
  encodes =
      Encodes-bytes
        (sym (
          append_entry_lem r.1.buf r.0 key value share.within_key hk hv
          ∙ ap (λ (buf : Bytes). buf ++ entry_bytes r.0 (drop r.0 key) value) share.buf))
        (Encodes-append h.encodes
          (one_entry b.last_key key value r.0 share.within_last share.within_key share.same hk hv));
  running = share.finished ∙ h.running;
  counted = omega (arith, share.counted, h.counted, length-append items ((key, value) ∷ []));
}

pub add-IsBuilder :
    (b : BlockBuilder) (items : List (Bytes × Bytes)) (key value : Bytes)
    → IsBuilder b items
    → IsU32 (length key)
    → IsU32 (length value)
    → (b' : BlockBuilder) × ((add b key value ≡ ok b') × IsBuilder b' (items ++ (key, value) ∷ []))
unfolding add
add-IsBuilder b items key value h hk hv = (
  push (share b key) key value,
  (
    rw (add, h.running) refl,
    push-IsBuilder b items key value (share b key) h (share-IsShare b key) hk hv,
  ),
)

-- The restart points behind the entries.
abbrev pub restart_bytes : List ℕ → Bytes
restart_bytes [] = []
restart_bytes (r ∷ rs) = le_bytes 4 r ++ restart_bytes rs

put_restarts_lem : (buf : Bytes) (rs : List ℕ) → put_restarts buf rs ≡ buf ++ restart_bytes rs
put_restarts_lem buf [] = sym (append-nil buf)
put_restarts_lem buf (r ∷ rs) =
    put_restarts_lem (buf ++ le_bytes 4 r) rs ∙ append_assoc buf (le_bytes 4 r) (restart_bytes rs)

length-restart_bytes : (rs : List ℕ) → length (restart_bytes rs) ≡ 4 * length rs
length-restart_bytes [] = refl
length-restart_bytes (r ∷ rs) = omega (
  arith,
  length-append (le_bytes 4 r) (restart_bytes rs),
  length-le_bytes 4 r,
  length-restart_bytes rs,
)

pub length-finish :
    (b : BlockBuilder) → length (finish b) ≡ length b.buf + 4 * length b.restarts + 4
unfolding finish
length-finish b = rw (put_restarts_lem b.buf b.restarts) (
    omega (
      arith,
      length-append (b.buf ++ restart_bytes b.restarts) (le_bytes 4 (length b.restarts % 2 ^ 32)),
      length-append b.buf (restart_bytes b.restarts),
      length-restart_bytes b.restarts,
      length-le_bytes 4 (length b.restarts % 2 ^ 32),
    ))

-- The block that is read back.
abbrev pub finished_block : BlockBuilder → Block
finished_block b = record {
  bytes = finish b;
  restarts_offset = length b.buf;
  num_restarts = length b.restarts;
}

open_block_at :
    (all pre : Bytes) (n m : ℕ)
    → all ≡ pre ++ le_bytes 4 m
    → IsU32 m
    → length pre ≡ n + 4 * m
    → open_block all ≡ ok (record { bytes = all; restarts_offset = n; num_restarts = m })
unfolding open_block
open_block_at all pre n m e h size =
    let total : length all ≡ n + 4 * m + 4 =
      ap length e ∙ omega (arith, length-append pre (le_bytes 4 m), length-le_bytes 4 m, size) in
    let enough : ltb (length all) 4 ≡ false = ground (arith, total) in
    let tail : drop (length all - 4) all ≡ le_bytes 4 m =
      ap (drop (length all - 4)) e
      ∙ drop-append_exact (length all - 4) pre (le_bytes 4 m) (omega (arith, total, size)) in
    let count : from_le_bytes (drop (length all - 4) all) ≡ m =
      ap from_le_bytes tail ∙ from_le_bytes-le_bytes 4 m (omega (arith, h)) in
    let room : ltb (length all) (4 + m * 4) ≡ false = ground (arith, total) in
    rw (open_block, enough, count, room)
      (ap (λ k. ok (record { bytes = all; restarts_offset = k; num_restarts = m }))
        (omega (arith, total)))

pub finish_lem :
    (b : BlockBuilder)
    → finish b ≡ (b.buf ++ restart_bytes b.restarts) ++ le_bytes 4 (length b.restarts % 2 ^ 32)
unfolding finish
finish_lem b =
    ap (λ (all : Bytes). all ++ le_bytes 4 (length b.restarts % 2 ^ 32))
      (put_restarts_lem b.buf b.restarts)

pub open_block-finish :
    (b : BlockBuilder) → IsU32 (length b.restarts) → open_block (finish b) ≡ ok (finished_block b)
open_block-finish b h =
    let fits : length b.restarts % 2 ^ 32 ≡ length b.restarts = ground (arith, h) in
    open_block_at (finish b) (b.buf ++ restart_bytes b.restarts) (length b.buf) (length b.restarts)
      (finish_lem b ∙ ap (λ (n : ℕ). (b.buf ++ restart_bytes b.restarts) ++ le_bytes 4 n) fits) h
      (omega
        (arith, length-append b.buf (restart_bytes b.restarts), length-restart_bytes b.restarts))

pub items_of-finish :
    (b : BlockBuilder) (items : List (Bytes × Bytes))
    → IsBuilder b items
    → items_of (finished_block b) ≡ items
unfolding iter
items_of-finish b items h =
    collect_lem (length (finish b)) (finished_block b) []
      (restart_bytes b.restarts ++ le_bytes 4 (length b.restarts % 2 ^ 32)) h.encodes
      (finish_lem b ∙ append_assoc b.buf (restart_bytes b.restarts) _) (omega arith)
      (omega (arith, length-finish b))

-- What a block that is built entry by entry gives back.
abbrev pub add_all : BlockBuilder → List (Bytes × Bytes) → Result BlockBuilder
add_all b [] = ok b
add_all b ((key, value) ∷ items) = add b key value >>= λ b'. add_all b' items

-- Keys and values of less than 4 GiB.
abbrev pub AreU32 : List (Bytes × Bytes) → Type 0
AreU32 = All (λ item. IsU32 (length item.0) × IsU32 (length item.1))

add_all-IsBuilder :
    (items : List (Bytes × Bytes)) (b : BlockBuilder) (before : List (Bytes × Bytes))
    → IsBuilder b before
    → AreU32 items
    → (b' : BlockBuilder) × ((add_all b items ≡ ok b') × IsBuilder b' (before ++ items))
add_all-IsBuilder [] b before h u =
    (b, (refl, subst (λ (xs : List (Bytes × Bytes)). IsBuilder b xs) (sym (append-nil before)) h))
add_all-IsBuilder ((key, value) ∷ items) b before h u =
    let (b', (added, h')) = add-IsBuilder b before key value h u.0.0 u.0.1 in
    let (b'', (rest, h'')) = add_all-IsBuilder items b' (before ++ (key, value) ∷ []) h' u.1 in
    (
      b'',
      (
        rw (add_all, added) rest,
        subst (λ (xs : List (Bytes × Bytes)). IsBuilder b'' xs)
            (append_assoc before ((key, value) ∷ []) items) h'',
      ),
    )

-- A block that is given entries one after another, fewer than 2^32 - 1 and with keys and values
-- shorter than 2^32, takes them all, its bytes open as a block, and the iterator over it gives the
-- entries, in order.
pub items_of-add_all :
    (items : List (Bytes × Bytes))
    → AreU32 items
    → length items + 1 < 2 ^ 32
    → (b : BlockBuilder) × (block : Block) × (add_all Block.new items ≡ ok b)
      × (open_block (finish b) ≡ ok block)
      × (items_of block ≡ items)
items_of-add_all items u few =
    let (b, (built, h)) = add_all-IsBuilder items Block.new [] new-IsBuilder u in
    (
      b,
      finished_block b,
      built,
      open_block-finish b (omega (arith, h.counted, few)),
      items_of-finish b items h,
    )
