-- ===== src/Prelude/Lists.antt =====
-- Lists measured and cut by native numbers, under the library's names. A Rust slice `s[i..j]` is
-- `slice s i j`.
use Prim.Native.Nat.{ℕ, zero, suc, ◌+◌, ◌-◌, ◌≤◌, ◌<◌, min}
use mathlib.Core.Path.{◌≡◌, refl, ap, sym, ◌∙◌, subst}
use mathlib.Core.Logic.{◌≢◌, ◌⊎◌, inl, inr}
use mathlib.Core.Bool.{Bool, true, false}
use mathlib.Core.List.{List, [], ◌∷◌, ◌++◌}
use mathlib.Core.List.{Permᴰ}
use mathlib.Core.List.Permᴰ.{nil, cons, swap, trans}
use mathlib.Core.Option.{Option, none, some}
use native.Mathlib.Omega.{arith}

module _ {ℓ} {A : Type ℓ} where
  abbrev pub length : List A → ℕ
  length [] = 0
  length (x ∷ xs) = suc (length xs)

  abbrev pub get_elem? : List A → ℕ → Option A
  get_elem? [] i = none
  get_elem? (x ∷ xs) zero = some x
  get_elem? (x ∷ xs) (suc i) = get_elem? xs i

  abbrev pub get_or : List A → ℕ → A → A
  get_or [] i d = d
  get_or (x ∷ xs) zero d = x
  get_or (x ∷ xs) (suc i) d = get_or xs i d

  -- A write out of bounds changes nothing.
  abbrev pub set : List A → ℕ → A → List A
  set [] i v = []
  set (x ∷ xs) zero v = v ∷ xs
  set (x ∷ xs) (suc i) v = x ∷ set xs i v

  abbrev pub take : ℕ → List A → List A
  take zero xs = []
  take (suc n) [] = []
  take (suc n) (x ∷ xs) = x ∷ take n xs

  abbrev pub drop : ℕ → List A → List A
  drop zero xs = xs
  drop (suc n) [] = []
  drop (suc n) (x ∷ xs) = drop n xs

  abbrev pub slice : List A → ℕ → ℕ → List A
  slice xs i j = take (j - i) (drop i xs)

  abbrev pub replicate : ℕ → A → List A
  replicate zero a = []
  replicate (suc n) a = a ∷ replicate n a

  abbrev pub filter : (A → Bool) → List A → List A
  filter p [] = []
  filter p (x ∷ xs) = elim (p x) [ true ↦ x ∷ filter p xs | false ↦ filter p xs ]

module _ {ℓ} {A : Type ℓ} where
  pub length-append : (xs ys : List A) → length (xs ++ ys) ≡ length xs + length ys
  length-append [] ys = omega arith
  length-append (x ∷ xs) ys = omega (arith, length-append xs ys)

  pub length-set : (xs : List A) (i : ℕ) (v : A) → length (set xs i v) ≡ length xs
  length-set [] i v = refl
  length-set (x ∷ xs) zero v = refl
  length-set (x ∷ xs) (suc i) v = ap suc (length-set xs i v)

  pub length-replicate : (n : ℕ) (a : A) → length (replicate n a) ≡ n
  length-replicate zero a = refl
  length-replicate (suc n) a = ap suc (length-replicate n a)

  pub take-append-drop : (n : ℕ) (xs : List A) → take n xs ++ drop n xs ≡ xs
  take-append-drop zero xs = refl
  take-append-drop (suc n) [] = refl
  take-append-drop (suc n) (x ∷ xs) = ap (◌∷◌ x) (take-append-drop n xs)

  pub length-take : (n : ℕ) (xs : List A) → length (take n xs) ≡ min n (length xs)
  length-take zero xs = omega arith
  length-take (suc n) [] = omega arith
  length-take (suc n) (x ∷ xs) = omega (arith, length-take n xs)

  pub length-drop : (n : ℕ) (xs : List A) → length (drop n xs) ≡ length xs - n
  length-drop zero xs = omega arith
  length-drop (suc n) [] = omega arith
  length-drop (suc n) (x ∷ xs) = omega (arith, length-drop n xs)

  -- Cutting exactly at the seam of an append.
  pub take-append_exact : (n : ℕ) (xs ys : List A) → n ≡ length xs → take n (xs ++ ys) ≡ xs
  take-append_exact zero [] ys h = refl
  take-append_exact zero (x ∷ xs) ys h = absurd (omega arith)
  take-append_exact (suc n) [] ys h = absurd (omega arith)
  take-append_exact (suc n) (x ∷ xs) ys h = ap (◌∷◌ x) (take-append_exact n xs ys (omega arith))

  pub drop-append_exact : (n : ℕ) (xs ys : List A) → n ≡ length xs → drop n (xs ++ ys) ≡ ys
  drop-append_exact zero [] ys h = refl
  drop-append_exact zero (x ∷ xs) ys h = absurd (omega arith)
  drop-append_exact (suc n) [] ys h = absurd (omega arith)
  drop-append_exact (suc n) (x ∷ xs) ys h = drop-append_exact n xs ys (omega arith)

  pub take_all : (n : ℕ) (xs : List A) → length xs ≤ n → take n xs ≡ xs
  take_all zero [] h = refl
  take_all zero (x ∷ xs) h = absurd (omega arith)
  take_all (suc n) [] h = refl
  take_all (suc n) (x ∷ xs) h = ap (◌∷◌ x) (take_all n xs (omega arith))

  pub drop_all : (n : ℕ) (xs : List A) → length xs ≤ n → drop n xs ≡ []
  drop_all zero [] h = refl
  drop_all zero (x ∷ xs) h = absurd (omega arith)
  drop_all (suc n) [] h = refl
  drop_all (suc n) (x ∷ xs) h = drop_all n xs (omega arith)

  pub drop_some :
      (n : ℕ) (xs : List A) → n < length xs → (y : A) × (ys : List A) × (drop n xs ≡ y ∷ ys)
  drop_some n [] h = absurd (omega arith)
  drop_some zero (x ∷ xs) h = (x, xs, refl)
  drop_some (suc n) (x ∷ xs) h = drop_some n xs (omega arith)

  -- A cut behind the first part.
  pub take-append_behind :
      (n m : ℕ) (xs ys : List A) → n ≡ length xs + m → take n (xs ++ ys) ≡ xs ++ take m ys
  take-append_behind n m [] ys h = ap (λ k. take k ys) (omega arith)
  take-append_behind zero m (x ∷ xs) ys h = absurd (omega arith)
  take-append_behind (suc n) m (x ∷ xs) ys h =
      ap (◌∷◌ x) (take-append_behind n m xs ys (omega arith))

  -- A cut inside the first part does not see the second.
  pub take-append_inside : (n : ℕ) (xs ys : List A) → n ≤ length xs → take n (xs ++ ys) ≡ take n xs
  take-append_inside zero xs ys h = refl
  take-append_inside (suc n) [] ys h = absurd (omega arith)
  take-append_inside (suc n) (x ∷ xs) ys h = ap (◌∷◌ x) (take-append_inside n xs ys (omega arith))

  pub drop-append_inside :
      (n : ℕ) (xs ys : List A) → n ≤ length xs → drop n (xs ++ ys) ≡ drop n xs ++ ys
  drop-append_inside zero xs ys h = refl
  drop-append_inside (suc n) [] ys h = absurd (omega arith)
  drop-append_inside (suc n) (x ∷ xs) ys h = drop-append_inside n xs ys (omega arith)

  pub slice-append_inside :
      (xs ys : List A) (i j : ℕ) → i ≤ j → j ≤ length xs → slice (xs ++ ys) i j ≡ slice xs i j
  slice-append_inside xs ys i j h k =
      rw (drop-append_inside i xs ys (omega arith))
        (take-append_inside (j - i) (drop i xs) ys (omega (arith, length-drop i xs)))

  -- The middle of three parts.
  pub slice-append_middle :
      (pre mid post : List A) (i j : ℕ)
      → i ≡ length pre
      → j ≡ length pre + length mid
      → slice (pre ++ (mid ++ post)) i j ≡ mid
  slice-append_middle pre mid post i j ei ej =
      rw (drop-append_exact i pre (mid ++ post) ei)
        (take-append_exact (j - i) mid post (omega arith))

  pub slice-append_last :
      (pre post : List A) (i j : ℕ)
      → i ≡ length pre
      → j ≡ length pre + length post
      → slice (pre ++ post) i j ≡ post
  slice-append_last pre post i j ei ej =
      rw (drop-append_exact i pre post ei) (take_all (j - i) post (omega arith))

  pub get_or-append_exact :
      (xs ys : List A) (n : ℕ) (d : A) → n ≡ length xs → get_or (xs ++ ys) n d ≡ get_or ys 0 d
  get_or-append_exact [] ys zero d h = refl
  get_or-append_exact [] ys (suc n) d h = absurd (omega arith)
  get_or-append_exact (x ∷ xs) ys zero d h = absurd (omega arith)
  get_or-append_exact (x ∷ xs) ys (suc n) d h = get_or-append_exact xs ys n d (omega arith)

  pub get_elem?-set_self :
      (xs : List A) (i : ℕ) (v : A) → i < length xs → get_elem? (set xs i v) i ≡ some v
  get_elem?-set_self [] i v h = elim h [ ]
  get_elem?-set_self (x ∷ xs) zero v h = refl
  get_elem?-set_self (x ∷ xs) (suc i) v h = get_elem?-set_self xs i v (omega arith)

  pub get_or-set_self :
      (xs : List A) (i : ℕ) (v d : A) → i < length xs → get_or (set xs i v) i d ≡ v
  get_or-set_self [] i v d h = elim h [ ]
  get_or-set_self (x ∷ xs) zero v d h = refl
  get_or-set_self (x ∷ xs) (suc i) v d h = get_or-set_self xs i v d (omega arith)

  pub get_or-set_ne :
      (xs : List A) (i j : ℕ) (v d : A) → i ≢ j → get_or (set xs i v) j d ≡ get_or xs j d
  get_or-set_ne [] i j v d h = refl
  get_or-set_ne (x ∷ xs) zero zero v d h = absurd (h refl)
  get_or-set_ne (x ∷ xs) zero (suc j) v d h = refl
  get_or-set_ne (x ∷ xs) (suc i) zero v d h = refl
  get_or-set_ne (x ∷ xs) (suc i) (suc j) v d h = get_or-set_ne xs i j v d (λ e. h (ap suc e))

module _ {ℓ} {A : Type ℓ} where
  abbrev pub All {κ} : (A → Type κ) → List A → Type κ
  All P [] = Unit {κ}
  All P (x ∷ xs) = P x × All P xs

  pub All-append {κ} : (P : A → Type κ) (xs ys : List A) → All P xs → All P ys → All P (xs ++ ys)
  All-append P [] ys h k = k
  All-append P (x ∷ xs) ys h k = (h.0, All-append P xs ys h.1 k)

none≢some {ℓ} : {A : Type ℓ} {a : A} → ¬ (none ≡ some a)
none≢some e = cc

some_eq {ℓ} : {A : Type ℓ} {a b : A} → some a ≡ some b → a ≡ b
some_eq e = cc

module _ {A : Type 0} where
  -- Membership.
  abbrev pub Has : A → List A → Type 0
  Has x [] = ⊥
  Has x (y ∷ ys) = (x ≡ y) ⊎ Has x ys

  pub Has-last : (x : A) (xs : List A) → Has x (xs ++ x ∷ [])
  Has-last x [] = inl refl
  Has-last x (y ∷ ys) = inr (Has-last x ys)

  pub Has-left : (x : A) (xs ys : List A) → Has x xs → Has x (xs ++ ys)
  Has-left x [] ys h = elim h [ ]
  Has-left x (y ∷ xs) ys (inl e) = inl e
  Has-left x (y ∷ xs) ys (inr h) = inr (Has-left x xs ys h)

  pub Has-right : (x : A) (xs ys : List A) → Has x ys → Has x (xs ++ ys)
  Has-right x [] ys h = h
  Has-right x (y ∷ xs) ys h = inr (Has-right x xs ys h)

  pub Has-split : (x : A) (xs ys : List A) → Has x (xs ++ ys) → Has x xs ⊎ Has x ys
  Has-split x [] ys h = inr h
  Has-split x (y ∷ xs) ys (inl e) = inl (inl e)
  Has-split x (y ∷ xs) ys (inr h) = elim (Has-split x xs ys h) [
    | inl k ↦ inl (inr k)
    | inr k ↦ inr k
  ]

  pub All-Has {κ} : (P : A → Type κ) (xs : List A) → All P xs → (x : A) → Has x xs → P x
  All-Has P [] h x k = elim k [ ]
  All-Has P (y ∷ ys) h x (inl e) = subst P (sym e) h.0
  All-Has P (y ∷ ys) h x (inr k) = All-Has P ys h.1 x k

  pub All-tabulate {κ} : (P : A → Type κ) (xs : List A) → ((x : A) → Has x xs → P x) → All P xs
  All-tabulate P [] h = _
  All-tabulate P (y ∷ ys) h = (h y (inl refl), All-tabulate P ys (λ x k. h x (inr k)))

  pub Has-filter :
      (p : A → Bool) (x : A) (xs : List A) → p x ≡ true → Has x xs → Has x (filter p xs)
  Has-filter p x [] good h = h
  Has-filter p x (y ∷ ys) good (inl e) =
      let here : p y ≡ true = ap p (sym e) ∙ good in rw (filter, here) (inl e)
  Has-filter p x (y ∷ ys) good (inr h) =
      elim (p y) as (λ b. Has x (elim b [ true ↦ y ∷ filter p ys | false ↦ filter p ys ])) [
        | true ↦ inr (Has-filter p x ys good h)
        | false ↦ Has-filter p x ys good h
      ]

pub get_elem?-set_ne {ℓ} :
    {A : Type ℓ} (xs : List A) (i j : ℕ) (v : A) → i ≢ j → get_elem? (set xs i v) j ≡ get_elem? xs j
get_elem?-set_ne [] i j v h = refl
get_elem?-set_ne (x ∷ xs) zero zero v h = absurd (h refl)
get_elem?-set_ne (x ∷ xs) zero (suc j) v h = refl
get_elem?-set_ne (x ∷ xs) (suc i) zero v h = refl
get_elem?-set_ne (x ∷ xs) (suc i) (suc j) v h = get_elem?-set_ne xs i j v (λ e. h (ap suc e))

pub get_elem?-set_same {ℓ} :
    {A : Type ℓ} (xs : List A) (i : ℕ) (v a : A)
    → get_elem? xs i ≡ some a
    → get_elem? (set xs i v) i ≡ some v
get_elem?-set_same [] i v a h = absurd (none≢some h)
get_elem?-set_same (x ∷ xs) zero v a h = refl
get_elem?-set_same (x ∷ xs) (suc i) v a h = get_elem?-set_same xs i v a h

module _ {A : Type 0} where
  pub All-set {κ} :
      (P : A → Type κ) (xs : List A) (i : ℕ) (v : A) → All P xs → P v → All P (set xs i v)
  All-set P [] i v h good = h
  All-set P (x ∷ xs) zero v h good = (good, h.1)
  All-set P (x ∷ xs) (suc i) v h good = (h.0, All-set P xs i v h.1 good)

  pub All-get {κ} :
      (P : A → Type κ) (xs : List A) (i : ℕ) (a : A) → All P xs → get_elem? xs i ≡ some a → P a
  All-get P [] i a h e = absurd (none≢some e)
  All-get P (x ∷ xs) zero a h e = subst P (some_eq e) h.0
  All-get P (x ∷ xs) (suc i) a h e = All-get P xs i a h.1 e

  pub All-permᴰ {κ} : (P : A → Type κ) {xs ys : List A} → Permᴰ xs ys → All P xs → All P ys
  All-permᴰ P nil h = h
  All-permᴰ P (cons e p) h = (subst P e h.0, All-permᴰ P p h.1)
  All-permᴰ P (swap e f) h = (subst P f h.1.0, (subst P e h.0, h.1.1))
  All-permᴰ P (trans p q) h = All-permᴰ P q (All-permᴰ P p h)

  pub length-permᴰ : {xs ys : List A} → Permᴰ xs ys → length xs ≡ length ys
  length-permᴰ nil = refl
  length-permᴰ (cons e p) = omega (arith, length-permᴰ p)
  length-permᴰ (swap e f) = refl
  length-permᴰ (trans p q) = length-permᴰ p ∙ length-permᴰ q

  pub Has-permᴰ : (a : A) {xs ys : List A} → Permᴰ xs ys → Has a xs → Has a ys
  Has-permᴰ a nil h = h
  Has-permᴰ a (cons e p) (inl same) = inl (same ∙ e)
  Has-permᴰ a (cons e p) (inr h) = inr (Has-permᴰ a p h)
  Has-permᴰ a (swap e f) (inl same) = inr (inl (same ∙ e))
  Has-permᴰ a (swap e f) (inr (inl same)) = inl (same ∙ f)
  Has-permᴰ a (swap e f) (inr (inr h)) = inr (inr h)
  Has-permᴰ a (trans p q) h = Has-permᴰ a q (Has-permᴰ a p h)
