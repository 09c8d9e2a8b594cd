-- ===== src/Reads/Sorted.antt =====
-- Reads of sorted sequences.
use Prim.Native.Nat.{Ordering}
use mulan_lsm.Prelude.{
  ℕ, ◌<◌, ◌≤◌, arith, ◌≡◌, ◌≢◌, refl, sym, List, [], ◌∷◌, leb, true, false, none, some, All, inl,
  inr, Bool-cases,
}
use mulan_lsm.Prelude.Bytes.{Bytes, cmp_bytes, bytes_eq}
use mulan_lsm.Prelude.Compare.{cmp_bytes-IsTotalOrder, bytes_eq→eq, bytes_eq_self}
use mulan_lsm.Reads.{Entry, visible, Before}

pub bytes_eq_ne : (a b : Bytes) → a ≢ b → bytes_eq a b ≡ false
bytes_eq_ne a b other = elim (Bool-cases (bytes_eq a b)) [
  | inl same ↦ absurd (other (bytes_eq→eq a b same))
  | inr differ ↦ differ
]

pub cmp_bytes_irrefl : (a b : Bytes) → cmp_bytes a b ≡ Ordering.lt → a ≢ b
cmp_bytes_irrefl a b less same = ground (arith, same, less, cmp_bytes-IsTotalOrder.self a)

-- The entries behind one of a larger key are all of larger keys.
pub Before-absent :
    (snapshot : ℕ) (key : Bytes) (xs : List Entry)
    → All (λ y. cmp_bytes key y.0.user_key ≡ Ordering.lt) xs
    → visible snapshot key xs ≡ none
Before-absent snapshot key [] h = refl
Before-absent snapshot key (x ∷ xs) h =
    let differ =
      bytes_eq_ne x.0.user_key key (λ e. cmp_bytes_irrefl key x.0.user_key h.0 (sym e)) in
    rw (visible, differ) (Before-absent snapshot key xs h.1)

pub Before-less :
    (key : Bytes) (x : Entry) (xs : List Entry)
    → cmp_bytes key x.0.user_key ≡ Ordering.lt
    → All (Before x) xs
    → All (λ y. cmp_bytes key y.0.user_key ≡ Ordering.lt) xs
Before-less key x [] less h = h
Before-less key x (y ∷ ys) less h = (
  elim h.0 [
    | inl further ↦ cmp_bytes-IsTotalOrder.trans key x.0.user_key y.0.user_key less further
    | inr (same, older) ↦ rw (sym same) less
  ],
  Before-less key x ys less h.1,
)

pub visible-miss :
    (snapshot : ℕ) (key : Bytes) (x : Entry) (xs : List Entry)
    → x.0.user_key ≢ key
    → visible snapshot key (x ∷ xs) ≡ visible snapshot key xs
visible-miss snapshot key x xs other =
    let differ = bytes_eq_ne x.0.user_key key other in rw (visible, differ) refl

pub visible-late :
    (snapshot : ℕ) (key : Bytes) (x : Entry) (xs : List Entry)
    → snapshot < x.0.seq
    → visible snapshot key (x ∷ xs) ≡ visible snapshot key xs
visible-late snapshot key x xs late =
    let hidden : leb x.0.seq snapshot ≡ false = ground arith in
    elim (Bool-cases (bytes_eq x.0.user_key key)) [
      | inl same ↦ rw (visible, same, hidden) refl
      | inr differ ↦ rw (visible, differ) refl
    ]

pub visible-hit :
    (snapshot : ℕ) (key : Bytes) (x : Entry) (xs : List Entry)
    → x.0.user_key ≡ key
    → x.0.seq ≤ snapshot
    → visible snapshot key (x ∷ xs) ≡ some (x.0.vtype, x.1)
visible-hit snapshot key x xs same early =
    let shown : leb x.0.seq snapshot ≡ true = ground arith in
    let equal : bytes_eq x.0.user_key key ≡ true = rw same (bytes_eq_self key) in
    rw (visible, equal, shown) refl
