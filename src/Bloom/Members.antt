-- ===== src/Bloom/Members.antt =====
-- The filter of src/bloom.rs has no false negatives.
use mulan_lsm.Prelude.{
  ℕ, zero, suc, ◌+◌, ◌-◌, ◌*◌, ◌%◌, ◌^◌, ◌≤◌, ◌<◌, arith, ◌≡◌, refl, ◌∙◌, List, [], ◌∷◌, ◌++◌,
  foldl, length, length-append, take-append_exact, get_or-append_exact, All, ◌==◌, true, false,
  Bool-cases, inl, inr, some,
}
use mulan_lsm.Prelude.Bytes.{Bytes, IsByte}
use mulan_lsm.Bloom.{
  BloomFilter, set_bit, bit_clear, insert_loop, insert, may_contain_loop, may_contain, double_hash,
  finish, from_bytes,
}
use mulan_lsm.Bloom.Bits.{length-set_bit, set_bit-IsByte, bit_clear-set_bit_self, bit_clear-set_bit}
use mulan_lsm.Prelude.{replicate, length-replicate}
use mulan_lsm.Bloom.{ensure_capacity, total_bytes}

-- A bit array of bytes, with as many bits as are used for the remainders.
pub record IsArray (nbits : ℕ) (bits : Bytes) : Type 0 where
  pub pos : 0 < nbits
  pub fits : nbits ≤ length bits * 8
  pub bytes : All IsByte bits

IsArray-set_bit : (nbits p : ℕ) (bits : Bytes) → IsArray nbits bits → IsArray nbits (set_bit bits p)
IsArray-set_bit nbits p bits a = record {
  pos = a.pos;
  fits = omega (arith, length-set_bit bits p, a.fits);
  bytes = set_bit-IsByte bits p a.bytes;
}

module _ (nbits delta : ℕ) where
  insert_loop-IsArray :
      (rounds h : ℕ) (bits : Bytes)
      → IsArray nbits bits
      → IsArray nbits (insert_loop rounds h delta nbits bits)
  unfolding insert_loop
  insert_loop-IsArray zero h bits a = a
  insert_loop-IsArray (suc rounds) h bits a =
      insert_loop-IsArray rounds _ (set_bit bits (h % nbits)) (IsArray-set_bit nbits _ bits a)

  length-insert_loop :
      (rounds h : ℕ) (bits : Bytes) → length (insert_loop rounds h delta nbits bits) ≡ length bits
  unfolding insert_loop
  length-insert_loop zero h bits = refl
  length-insert_loop (suc rounds) h bits =
      length-insert_loop rounds _ (set_bit bits (h % nbits)) ∙ length-set_bit bits (h % nbits)

  -- Inserting keeps every bit.
  insert_loop-keeps :
      (rounds h q : ℕ) (bits : Bytes)
      → IsArray nbits bits
      → bit_clear bits q ≡ false
      → bit_clear (insert_loop rounds h delta nbits bits) q ≡ false
  unfolding insert_loop
  insert_loop-keeps zero h q bits a e = e
  insert_loop-keeps (suc rounds) h q bits a e =
      insert_loop-keeps rounds _ q (set_bit bits (h % nbits)) (IsArray-set_bit nbits _ bits a)
        (bit_clear-set_bit bits (h % nbits) a.bytes q (grind (arith, a.pos, a.fits)) e)

  -- Inserting sets every bit that a query of the same hashes looks at.
  insert_loop-sets :
      (rounds h : ℕ) (bits : Bytes)
      → IsArray nbits bits
      → may_contain_loop rounds h delta nbits (insert_loop rounds h delta nbits bits) ≡ true
  unfolding insert_loop may_contain_loop
  insert_loop-sets zero h bits a = refl
  insert_loop-sets (suc rounds) h bits a =
      let bits' = set_bit bits (h % nbits) in
      let a' = IsArray-set_bit nbits (h % nbits) bits a in
      rw
        (insert_loop-keeps rounds ((h + delta) % 2 ^ 32) (h % nbits) bits' a'
          (bit_clear-set_bit_self bits (h % nbits) a.bytes (grind (arith, a.pos, a.fits))))
        (insert_loop-sets rounds ((h + delta) % 2 ^ 32) bits' a')

-- Whatever is inserted under other hashes, a query that held still holds.
may_contain_loop-insert_loop :
    (nbits delta delta' rounds rounds' h h' : ℕ) (bits : Bytes)
    → IsArray nbits bits
    → may_contain_loop rounds' h' delta' nbits bits ≡ true
    → may_contain_loop rounds' h' delta' nbits (insert_loop rounds h delta nbits bits) ≡ true
unfolding may_contain_loop
may_contain_loop-insert_loop nbits delta delta' rounds zero h h' bits a e = refl
may_contain_loop-insert_loop nbits delta delta' rounds (suc rounds') h h' bits a e =
    elim (Bool-cases (bit_clear bits (h' % nbits))) [
      | inl clear ↦ absurd (ground arith)
      | inr held ↦ rw (insert_loop-keeps nbits delta rounds h (h' % nbits) bits a held) (
          may_contain_loop-insert_loop nbits delta delta' rounds rounds' h ((h' + delta') % 2 ^ 32)
            bits a (ground arith))
    ]

-- The array is allocated, holds bytes, and its size in bits is a `u32`.
pub record IsReady (f : BloomFilter) : Type 0 where
  pub allocated : 0 < length f.bits
  pub sized : length f.bits * 8 < 2 ^ 32
  pub bytes : All IsByte f.bits

module _ (f : BloomFilter) (r : IsReady f) where
  abbrev nbits_of : ℕ
  nbits_of = length f.bits * 8 % 2 ^ 32

  nbits-pos : (nbits_of == 0) ≡ false
  nbits-pos = ground (arith, r.allocated, r.sized)

  ready-IsArray : IsArray nbits_of f.bits
  ready-IsArray = record { pos = omega arith; fits = omega arith; bytes = r.bytes }

  abbrev bits_with : Bytes → Bytes
  bits_with key = insert_loop f.k (double_hash key).0 (double_hash key).1 nbits_of f.bits

  insert_lem : (key : Bytes) → insert f key ≡ record f { bits = bits_with key }
  unfolding insert
  insert_lem key = rw nbits-pos

  length-bits_with : (key : Bytes) → length (bits_with key) ≡ length f.bits
  length-bits_with key =
      length-insert_loop nbits_of (double_hash key).1 f.k (double_hash key).0 f.bits

  pub insert-IsReady : (key : Bytes) → IsReady (insert f key)
  insert-IsReady key = rw (insert_lem key) (record {
    allocated = omega (arith, length-bits_with key, r.allocated);
    sized = omega (arith, length-bits_with key, r.sized);
    bytes =
        (insert_loop-IsArray nbits_of (double_hash key).1 f.k (double_hash key).0 f.bits
          ready-IsArray).bytes;
  })

  may_contain-insert_self : (key : Bytes) → may_contain (insert f key) key ≡ true
  unfolding may_contain
  may_contain-insert_self key =
      rw (insert_lem key, length-bits_with key, nbits-pos)
        (insert_loop-sets nbits_of (double_hash key).1 f.k (double_hash key).0 f.bits ready-IsArray)

  may_contain-insert :
      (key q : Bytes) → may_contain f q ≡ true → may_contain (insert f key) q ≡ true
  unfolding may_contain
  may_contain-insert key q e =
      rw (insert_lem key, length-bits_with key, nbits-pos)
        (may_contain_loop-insert_loop nbits_of (double_hash key).1 (double_hash q).1 f.k f.k
          (double_hash key).0 (double_hash q).0 f.bits ready-IsArray (rw nbits-pos at e))

inserts-keep :
    (f : BloomFilter) (keys : List Bytes) (q : Bytes)
    → IsReady f
    → may_contain f q ≡ true
    → may_contain (foldl insert f keys) q ≡ true
inserts-keep f [] q r e = e
inserts-keep f (key ∷ keys) q r e =
    inserts-keep (insert f key) keys q (insert-IsReady f r key) (may_contain-insert f r key q e)

pub inserts-contain :
    (f : BloomFilter) (before : List Bytes) (key : Bytes) (after : List Bytes)
    → IsReady f
    → may_contain (foldl insert f (before ++ key ∷ after)) key ≡ true
inserts-contain f [] key after r =
    inserts-keep (insert f key) after key (insert-IsReady f r key) (may_contain-insert_self f r key)
inserts-contain f (b ∷ before) key after r =
    inserts-contain (insert f b) before key after (insert-IsReady f r b)

pub from_bytes-finish : (f : BloomFilter) → from_bytes (finish f) ≡ some f
unfolding from_bytes finish
from_bytes-finish f =
    let n : length (f.bits ++ f.k ∷ []) - 1 ≡ length f.bits =
      omega (arith, length-append {0} f.bits (f.k ∷ [])) in
    let some_bytes : (length (f.bits ++ f.k ∷ []) == 0) ≡ false =
      ground (arith, length-append {0} f.bits (f.k ∷ [])) in
    rw (
      some_bytes,
      n,
      take-append_exact (length f.bits) f.bits (f.k ∷ []) refl,
      get_or-append_exact f.bits (f.k ∷ []) (length f.bits) 0 refl,
    )

-- A key that was inserted, among any others, before or after them, is found in the filter that is
-- written out and read back. The array was allocated, and its size in bits fits a u32.
pub no_false_negatives :
    (f : BloomFilter) (before : List Bytes) (key : Bytes) (after : List Bytes)
    → IsReady f
    → (g : BloomFilter) × (from_bytes (finish (foldl insert f (before ++ key ∷ after))) ≡ some g)
      × (may_contain g key ≡ true)
no_false_negatives f before key after r =
    let g = foldl insert f (before ++ key ∷ after) in
    (g, from_bytes-finish g, inserts-contain f before key after r)

replicate-IsByte : (n : ℕ) → All IsByte (replicate n 0)
replicate-IsByte zero = tt
replicate-IsByte (suc n) = (omega arith, replicate-IsByte n)

-- ensure_capacity makes an array that is allocated, holds bytes and has a size in bits below 2^32,
-- for any sizes whose product is below 2^32 - 64.
pub ensure_capacity-IsReady :
    (f : BloomFilter) (num_keys bits_per_key : ℕ)
    → num_keys * bits_per_key < 2 ^ 32 - 64
    → IsReady (ensure_capacity f num_keys bits_per_key)
unfolding ensure_capacity
ensure_capacity-IsReady f num_keys bits_per_key h = record {
  allocated = omega (arith, length-replicate {A = ℕ} (total_bytes num_keys bits_per_key) 0);
  sized = omega (arith, length-replicate {A = ℕ} (total_bytes num_keys bits_per_key) 0);
  bytes = replicate-IsByte (total_bytes num_keys bits_per_key);
}
