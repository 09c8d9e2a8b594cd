-- ===== src/Sstable/Block/Restarts.antt =====
-- The restart points of a builder of src/sstable/block.rs: each is the offset of an entry with its whole
-- key, and the first is that of the first entry.
use mathlib.Core.Path.{subst}
use mulan_lsm.Prelude.{
  ℕ, arith, ◌%◌, ◌^◌, ◌≡◌, refl, sym, ap, ◌∙◌, List, [], ◌∷◌, ◌++◌, length, append_assoc,
  append-nil, drop, get_elem?, All, ltb, Bool-cases, some, ok, ◌>>=◌, ◌⊎◌, inl, inr,
}
use mulan_lsm.Prelude.Bytes.{Bytes, IsU32}
use mulan_lsm.Sstable.Block
use mulan_lsm.Sstable.Block.{BlockBuilder, restart_interval, common_prefix_len, share, push, add}
use mulan_lsm.Sstable.Block.Entries.{entry_bytes, Encodes, Encodes-append}
use mulan_lsm.Sstable.Block.RoundTrip.{
  append_entry_lem, IsBuilder, new-IsBuilder, add-IsBuilder, one_entry, IsShare, share-IsShare,
  add_all, AreU32,
}

ok-injective {ℓ} : {A : Type ℓ} {a b : A} → ok a ≡ ok b → a ≡ b
ok-injective e = cc

-- At the offset `r` of the buffer an entry starts that does not need the key before it.
pub record Restart (buf last : Bytes) (items : List (Bytes × Bytes)) (r : ℕ) : Type 0 where
  pub pre : Bytes
  pub rest : Bytes
  pub before : List (Bytes × Bytes)
  pub first : Bytes × Bytes
  pub others : List (Bytes × Bytes)
  pub key_before : Bytes
  pub bytes : buf ≡ pre ++ rest
  pub contents : items ≡ before ++ first ∷ others
  pub offset : r ≡ length pre % 2 ^ 32
  pub opening : Encodes [] before pre key_before
  pub encodes : Encodes [] (first ∷ others) rest last

pub record HasRestarts (b : BlockBuilder) (items : List (Bytes × Bytes)) : Type 0 where
  pub leading : get_elem? b.restarts 0 ≡ some 0
  pub all : All (Restart b.buf b.last_key items) b.restarts

-- An entry behind the buffer leaves a restart point one.
extend :
    (buf last : Bytes) (items : List (Bytes × Bytes)) (r : ℕ) (e key value : Bytes)
    → Encodes last ((key, value) ∷ []) e key
    → Restart buf last items r
    → Restart (buf ++ e) key (items ++ (key, value) ∷ []) r
extend buf last items r e key value grown h = record {
  pre = h.pre;
  rest = h.rest ++ e;
  before = h.before;
  first = h.first;
  others = h.others ++ (key, value) ∷ [];
  key_before = h.key_before;
  bytes = ap (λ (b : Bytes). b ++ e) h.bytes ∙ append_assoc h.pre h.rest e;
  contents =
      ap (λ (xs : List (Bytes × Bytes)). xs ++ (key, value) ∷ []) h.contents
      ∙ append_assoc h.before (h.first ∷ h.others) ((key, value) ∷ []);
  offset = h.offset;
  opening = h.opening;
  encodes = Encodes-append h.encodes grown;
}

extend_all :
    (buf last : Bytes) (items : List (Bytes × Bytes)) (rs : List ℕ) (e key value : Bytes)
    → Encodes last ((key, value) ∷ []) e key
    → All (Restart buf last items) rs
    → All (Restart (buf ++ e) key (items ++ (key, value) ∷ [])) rs
extend_all buf last items [] e key value grown h = _
extend_all buf last items (r ∷ rs) e key value grown h = (
  extend buf last items r e key value grown h.0,
  extend_all buf last items rs e key value grown h.1,
)

-- The new entry as a restart point.
new_restart :
    (buf last key value : Bytes) (items : List (Bytes × Bytes))
    → Encodes [] items buf last
    → IsU32 (length key)
    → IsU32 (length value)
    → Restart
        (buf ++ entry_bytes 0 key value)
        key
        (items ++ (key, value) ∷ [])
        (length buf % 2 ^ 32)
new_restart buf last key value items h hk hv = record {
  pre = buf;
  rest = entry_bytes 0 key value;
  before = items;
  first = (key, value);
  others = [];
  key_before = last;
  bytes = refl;
  contents = refl;
  offset = refl;
  opening = h;
  encodes = one_entry [] key value 0 (omega arith) (omega arith) refl hk hv;
}

All-snoc : (P : ℕ → Type 0) (rs : List ℕ) (r : ℕ) → All P rs → P r → All P (rs ++ r ∷ [])
All-snoc P [] r h p = (p, _)
All-snoc P (x ∷ xs) r h p = (h.0, All-snoc P xs r h.1 p)

leading-snoc : (rs : List ℕ) (r : ℕ) → get_elem? rs 0 ≡ some 0 → get_elem? (rs ++ r ∷ []) 0 ≡ some 0
leading-snoc [] r h = cc
leading-snoc (x ∷ xs) r h = h

-- What `push` makes of the buffer.
buf-push :
    (b : BlockBuilder) (key value : Bytes) (r : ℕ × BlockBuilder)
    → IsShare b key r
    → IsU32 (length key)
    → IsU32 (length value)
    → (push r key value).buf ≡ b.buf ++ entry_bytes r.0 (drop r.0 key) value
buf-push b key value r h hk hv =
    append_entry_lem r.1.buf r.0 key value h.within_key hk hv
    ∙ ap (λ (buf : Bytes). buf ++ entry_bytes r.0 (drop r.0 key) value) h.buf

share_restarts :
    (b : BlockBuilder) (key : Bytes)
    → ((share b key).1.restarts ≡ b.restarts)
      ⊎ (((share b key).0 ≡ 0)
          × ((share b key).1.restarts ≡ b.restarts ++ (length b.buf % 2 ^ 32) ∷ []))
share_restarts b key = elim (Bool-cases (ltb b.count_since_restart restart_interval)) [
  | inl near ↦ rw near (inl refl)
  | inr due ↦ rw due (inr (refl, refl))
]

push-HasRestarts :
    (b : BlockBuilder) (items : List (Bytes × Bytes)) (key value : Bytes) (r : ℕ × BlockBuilder)
    → IsBuilder b items
    → HasRestarts b items
    → IsShare b key r
    → (r.1.restarts ≡ b.restarts)
      ⊎ ((r.0 ≡ 0) × (r.1.restarts ≡ b.restarts ++ (length b.buf % 2 ^ 32) ∷ []))
    → IsU32 (length key)
    → IsU32 (length value)
    → HasRestarts (push r key value) (items ++ (key, value) ∷ [])
push-HasRestarts b items key value r built h is restarts hk hv =
    let buf = buf-push b key value r is hk hv in
    let all' = items ++ (key, value) ∷ [] in
    let e = entry_bytes r.0 (drop r.0 key) value in
    let grown = one_entry b.last_key key value r.0 is.within_last is.within_key is.same hk hv in
    let old = extend_all b.buf b.last_key items b.restarts e key value grown h.all in
    let back : All (Restart (b.buf ++ e) key all') r.1.restarts
        → All (Restart (push r key value).buf key all') r.1.restarts =
      subst (λ (bytes : Bytes). All (Restart bytes key all') r.1.restarts) (sym buf) in
    elim restarts [
      | inl same ↦ record {
        leading = ap (λ (rs : List ℕ). get_elem? rs 0) same ∙ h.leading;
        all = back (subst (All (Restart (b.buf ++ e) key all')) (sym same) old);
      }
      | inr (whole, more) ↦
          let this : Restart (b.buf ++ e) key all' (length b.buf % 2 ^ 32) =
            subst
              (λ (n : ℕ).
                Restart (b.buf ++ entry_bytes n (drop n key) value) key all'
                  (length b.buf % 2 ^ 32))
              (sym whole) (new_restart b.buf b.last_key key value items built.encodes hk hv) in
          record {
            leading =
                ap (λ (rs : List ℕ). get_elem? rs 0) more ∙ leading-snoc b.restarts _ h.leading;
            all = back (
                subst (All (Restart (b.buf ++ e) key all')) (sym more)
                  (All-snoc (Restart (b.buf ++ e) key all') b.restarts _ old this));
          }
    ]

-- The first entry of a block.
first-HasRestarts :
    (key value : Bytes)
    → IsU32 (length key)
    → IsU32 (length value)
    → HasRestarts (push (share Block.new key) key value) ((key, value) ∷ [])
unfolding Block.new common_prefix_len
first-HasRestarts key value hk hv = record {
  leading = refl;
  all = (
    subst (λ (bytes : Bytes). Restart bytes key ((key, value) ∷ []) 0)
        (sym (append_entry_lem [] 0 key value (omega arith) hk hv))
        (new_restart [] [] key value [] Encodes.none_left hk hv),
    _,
  );
}

later-HasRestarts :
    (items : List (Bytes × Bytes)) (b b' : BlockBuilder) (before : List (Bytes × Bytes))
    → IsBuilder b before
    → HasRestarts b before
    → AreU32 items
    → add_all b items ≡ ok b'
    → HasRestarts b' (before ++ items)
unfolding add
later-HasRestarts [] b b' before built h u e =
    subst (λ (xs : List (Bytes × Bytes)). HasRestarts b' xs) (sym (append-nil before))
      (subst (λ (c : BlockBuilder). HasRestarts c before) (ok-injective e) h)
later-HasRestarts ((key, value) ∷ items) b b' before built h u e =
    let next = push (share b key) key value in
    let added : add b key value ≡ ok next = rw (add, built.running) refl in
    let (c, (e', built')) = add-IsBuilder b before key value built u.0.0 u.0.1 in
    let same : c ≡ next = ok-injective (sym e' ∙ added) in
    let rest = sym (ap (λ r. r >>= λ b'. add_all b' items) added) ∙ e in
    subst (λ (xs : List (Bytes × Bytes)). HasRestarts b' xs)
      (append_assoc before ((key, value) ∷ []) items)
      (later-HasRestarts items next b' (before ++ (key, value) ∷ [])
        (subst (λ (c : BlockBuilder). IsBuilder c (before ++ (key, value) ∷ [])) same built')
        (push-HasRestarts b before key value (share b key) built h (share-IsShare b key)
          (share_restarts b key) u.0.0 u.0.1)
        u.1 rest)

-- Every block that is given an entry at least.
pub add_all-HasRestarts :
    (item : Bytes × Bytes) (items : List (Bytes × Bytes)) (b : BlockBuilder)
    → AreU32 (item ∷ items)
    → add_all Block.new (item ∷ items) ≡ ok b
    → HasRestarts b (item ∷ items)
unfolding add Block.new
add_all-HasRestarts (key, value) items b u e =
    let next = push (share Block.new key) key value in
    let (c, (e', built')) = add-IsBuilder Block.new [] key value new-IsBuilder u.0.0 u.0.1 in
    let same : c ≡ next = ok-injective (sym e') in
    later-HasRestarts items next b ((key, value) ∷ [])
      (subst (λ (c : BlockBuilder). IsBuilder c ((key, value) ∷ [])) same built')
      (first-HasRestarts key value u.0.0 u.0.1) u.1 e
