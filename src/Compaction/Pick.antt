-- ===== src/Compaction/Pick.antt =====
-- What `pick_compaction` of src/compaction.rs takes with the files of a level: everything at the two
-- levels below that is in touch with them.
use Prim.Native.Nat.{Ordering}
use mulan_lsm.Prelude.{
  ℕ, arith, ◌+◌, ◌-◌, ◌≡◌, ◌≢◌, refl, sym, ap, leb, List, [], ◌∷◌, map, filter, true, false, Option,
  none, some, Has, Has-filter, Bool-cases, ◌↔◌, inl, inr, ok, ◌>>=◌, >>=-eq-ok,
}
use mulan_lsm.Prelude.Bytes.{Bytes, cmp_bytes}
use mulan_lsm.Prelude.Compare.{is_lt, cmp_bytes-IsTotalOrder}
use mulan_lsm.FileMeta.{FileMetaData}
use mulan_lsm.Version.{Version, VersionSet, files_at, get_overlaps, user_key_overlap, num_levels}
use mulan_lsm.Compaction.{
  Compaction, min_key, max_key, smallest_of, largest_of, pick_inputs0, pick_inputs1,
  pick_grandparents, pick_level,
}
use mulan_lsm.Compaction.{pick_compaction, compaction_score, Float}

abbrev Leq : Bytes → Bytes → Type 0
Leq a b = cmp_bytes a b ≢ Ordering.gt

Leq-trans : (a b c : Bytes) → Leq a b → Leq b c → Leq a c
Leq-trans a b c h k = ground (
  arith,
  cmp_bytes-IsTotalOrder.same a b,
  cmp_bytes-IsTotalOrder.same b c,
  cmp_bytes-IsTotalOrder.trans a b c,
)

Leq-not_less : (a b : Bytes) → is_lt (cmp_bytes a b) ≡ false → Leq b a
Leq-not_less a b h = ground (arith, h, cmp_bytes-IsTotalOrder.flip a b)

Leq-less : (a b : Bytes) → is_lt (cmp_bytes a b) ≡ true → Leq a b
Leq-less a b h = ground (arith, h)

Leq-refl : (a : Bytes) → Leq a a
Leq-refl a = ground (arith, cmp_bytes-IsTotalOrder.self a)

min_key-Leq_first : (key : Bytes) (ks : List Bytes) → Leq (min_key key ks) key
min_key-Leq_first key [] = Leq-refl key
min_key-Leq_first key (k ∷ ks) = elim (Bool-cases (is_lt (cmp_bytes k key))) [
  | inl less ↦
      rw (min_key, less)
        (Leq-trans (min_key k ks) k key (min_key-Leq_first k ks) (Leq-less k key less))
  | inr more ↦ rw (min_key, more) (min_key-Leq_first key ks)
]

min_key-Leq : (key k : Bytes) (ks : List Bytes) → Has k (key ∷ ks) → Leq (min_key key ks) k
min_key-Leq key k ks (inl e) = rw e (min_key-Leq_first key ks)
min_key-Leq key k [] (inr h) = elim h [ ]
min_key-Leq key k (j ∷ ks) (inr h) = elim (Bool-cases (is_lt (cmp_bytes j key))) [
  | inl less ↦ rw (min_key, less) (min_key-Leq j k ks h)
  | inr more ↦ elim h [
    | inl e ↦
        rw (min_key, more, e)
          (Leq-trans (min_key key ks) key j (min_key-Leq_first key ks) (Leq-not_less j key more))
    | inr later ↦ rw (min_key, more) (min_key-Leq key k ks (inr later))
  ]
]

max_key-Leq_first : (key : Bytes) (ks : List Bytes) → Leq key (max_key key ks)
max_key-Leq_first key [] = Leq-refl key
max_key-Leq_first key (k ∷ ks) = elim (Bool-cases (is_lt (cmp_bytes k key))) [
  | inl less ↦ rw (max_key, less) (max_key-Leq_first key ks)
  | inr more ↦
      rw (max_key, more)
        (Leq-trans key k (max_key k ks) (Leq-not_less k key more) (max_key-Leq_first k ks))
]

max_key-Leq : (key k : Bytes) (ks : List Bytes) → Has k (key ∷ ks) → Leq k (max_key key ks)
max_key-Leq key k ks (inl e) = rw e (max_key-Leq_first key ks)
max_key-Leq key k [] (inr h) = elim h [ ]
max_key-Leq key k (j ∷ ks) (inr h) = elim (Bool-cases (is_lt (cmp_bytes j key))) [
  | inl less ↦ elim h [
    | inl e ↦
        rw (max_key, less, e)
          (Leq-trans j key (max_key key ks) (Leq-less j key less) (max_key-Leq_first key ks))
    | inr later ↦ rw (max_key, less) (max_key-Leq key k ks (inr later))
  ]
  | inr more ↦ rw (max_key, more) (max_key-Leq j k ks h)
]

Has-map : {A : Type 0} (f : A → Bytes) (x : A) (xs : List A) → Has x xs → Has (f x) (map f xs)
Has-map f x [] h = h
Has-map f x (y ∷ ys) (inl e) = inl (ap f e)
Has-map f x (y ∷ ys) (inr h) = inr (Has-map f x ys h)

not-lt_of_Leq : (a b : Bytes) → Leq b a → is_lt (cmp_bytes a b) ≡ false
not-lt_of_Leq a b h = ground (arith, h, cmp_bytes-IsTotalOrder.flip a b)

-- A file is in touch with a range as it neither ends before nor begins behind it.
user_key_overlap_iff :
    (g : FileMetaData) (low high : Bytes)
    → (user_key_overlap g low high ≡ true)
      ↔ (Leq low g.largest.user_key × Leq g.smallest.user_key high)
unfolding user_key_overlap
user_key_overlap_iff g low high = (
  λ h.
      ground (arith, h, Leq-not_less g.largest.user_key low, Leq-not_less high g.smallest.user_key),
  λ h.
      rw (not-lt_of_Leq g.largest.user_key low h.0, not-lt_of_Leq high g.smallest.user_key h.1)
        refl,
)

-- A file in touch with one of some files is in touch with the range of them all.
overlap_wider :
    (g f first : FileMetaData) (fs : List FileMetaData)
    → Has f (first ∷ fs)
    → user_key_overlap g f.smallest.user_key f.largest.user_key ≡ true
    → user_key_overlap g (smallest_of first fs) (largest_of first fs) ≡ true
overlap_wider g f first fs h touch =
    let low =
      min_key-Leq first.smallest.user_key f.smallest.user_key (map (λ t. t.smallest.user_key) fs)
        (Has-map (λ t. t.smallest.user_key) f (first ∷ fs) h) in
    let high =
      max_key-Leq first.largest.user_key f.largest.user_key (map (λ t. t.largest.user_key) fs)
        (Has-map (λ t. t.largest.user_key) f (first ∷ fs) h) in
    let (left, right) = (user_key_overlap_iff g f.smallest.user_key f.largest.user_key).0 touch in
    (user_key_overlap_iff g (smallest_of first fs) (largest_of first fs)).1 (
      Leq-trans (smallest_of first fs) f.smallest.user_key g.largest.user_key low left,
      Leq-trans g.smallest.user_key f.largest.user_key (largest_of first fs) right high,
    )

get_overlaps-Has :
    (version : Version) (level : ℕ) (low high : Bytes) (all found : List FileMetaData)
    (g : FileMetaData)
    → files_at version level ≡ ok all
    → get_overlaps version level low high ≡ ok found
    → Has g all
    → user_key_overlap g low high ≡ true
    → Has g found
unfolding get_overlaps
get_overlaps-Has version level low high all found g here got has touch =
    let same : filter (λ f. user_key_overlap f low high) all ≡ found = ground (arith, here, got) in
    rw (sym same) (Has-filter (λ f. user_key_overlap f low high) g all touch has)

pick_inputs1-Has :
    (version : Version) (level : ℕ) (inputs0 inputs1 all : List FileMetaData) (f g : FileMetaData)
    → pick_inputs1 version level inputs0 ≡ ok inputs1
    → Has f inputs0
    → files_at version (level + 1) ≡ ok all
    → Has g all
    → user_key_overlap g f.smallest.user_key f.largest.user_key ≡ true
    → Has g inputs1
unfolding pick_inputs1
pick_inputs1-Has version level [] inputs1 all f g picked taken here has touch = elim taken [ ]
pick_inputs1-Has version level (first ∷ fs) inputs1 all f g picked taken here has touch =
    get_overlaps-Has version (level + 1) (smallest_of first fs) (largest_of first fs) all inputs1 g
      here picked has (overlap_wider g f first fs taken touch)

pick_level-ok :
    (vs : VersionSet) (level : ℕ) (c : Compaction)
    → pick_level vs level ≡ ok (some c)
    → (c.level ≡ level) × (pick_inputs1 vs.current level c.inputs0 ≡ ok c.inputs1)
unfolding pick_level
pick_level-ok vs level c h = elim (Bool-cases (leb (num_levels - 1) level)) [
  | inl last ↦ ground (arith, h, last)
  | inr inner ↦
      let (picked, first, rest) =
        >>=-eq-ok (pick_inputs0 vs level) _ (rw (pick_level, inner) at h) in
      from picked rest
]
  where
    from :
        (picked : Option (List FileMetaData))
        → elim picked [
          | none ↦ ok none
          | some inputs0 ↦ pick_inputs1 vs.current level inputs0 >>= λ inputs1.
              pick_grandparents vs.current level inputs0 inputs1 >>= λ grandparents. ok (
                some (record {
                  level = level;
                  inputs0 = inputs0;
                  inputs1 = inputs1;
                  grandparents = grandparents;
                }))
        ]
          ≡ ok (some c)
        → (c.level ≡ level) × (pick_inputs1 vs.current level c.inputs0 ≡ ok c.inputs1)
    from none e = cc
    from (some inputs0) e =
        let (inputs1, second, rest) = >>=-eq-ok (pick_inputs1 vs.current level inputs0) _ e in
        let (gps, third, last) =
          >>=-eq-ok (pick_grandparents vs.current level inputs0 inputs1) _ rest in
        ground (arith, last, second)

-- Of the level below the one that pick_compaction takes, every file that is in touch with a file
-- taken is taken too. Division and comparison of scores are any functions.
pub pick_compaction-inputs1 :
    (float : Float) (vs : VersionSet) (c : Compaction) (f g : FileMetaData)
    (below : List FileMetaData)
    → pick_compaction float vs ≡ ok (some c)
    → Has f c.inputs0
    → files_at vs.current (c.level + 1) ≡ ok below
    → Has g below
    → user_key_overlap g f.smallest.user_key f.largest.user_key ≡ true
    → Has g c.inputs1
unfolding pick_compaction
pick_compaction-inputs1 float vs c f g below picked taken here has touch =
    let (best, scored, rest) = >>=-eq-ok (compaction_score float vs.current) _ picked in
    from best rest
  where
    from :
        (best : Option (ℕ × float.F))
        → elim best [ none ↦ ok none | some (level, score) ↦ pick_level vs level ] ≡ ok (some c)
        → Has g c.inputs1
    from none e = cc
    from (some (level, score)) e =
        let (same, second) = pick_level-ok vs level c e in
        pick_inputs1-Has vs.current level c.inputs0 c.inputs1 below f g second taken
          (rw (sym same) here) has touch
