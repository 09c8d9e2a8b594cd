-- ===== src/TableCache/Listing.antt =====
-- The entries of the cache of src/table_cache.rs beside the order that lists them.
use mulan_lsm.Prelude.{
  Has, Has-last, Has-left, Has-split, ◌<◌, ◌≤◌, arith, ◌≡◌, ◌≢◌, refl, sym, ◌∙◌, List, [], ◌∷◌,
  ◌++◌, length, ◌==◌, ==_iff, ==_refl, Bool-cases, if◌then◌else◌, Bool, true, false, none, inl, inr,
}
use mulan_lsm.FileMeta.{FileNumber}
use mulan_lsm.TableCache.{find, remove, forget, CacheInner, drop_front}

-- No number twice.
abbrev pub Distinct : List FileNumber → Type 0
Distinct [] = Unit {0}
Distinct (x ∷ xs) = ¬ Has x xs × Distinct xs

Distinct-append :
    (m : FileNumber) (xs : List FileNumber) → Distinct xs → ¬ Has m xs → Distinct (xs ++ m ∷ [])
Distinct-append m [] d absent = ((λ h. h), _)
Distinct-append m (x ∷ xs) d absent = (
  λ h. elim (Has-split x xs (m ∷ []) h) [
    | inl k ↦ d.0 k
    | inr (inl e) ↦ absent (inl (sym e))
    | inr (inr none_left) ↦ elim none_left [ ]
  ],
  Distinct-append m xs d.1 (λ h. absent (inr h)),
)

Has-forget : (n m : FileNumber) (xs : List FileNumber) → Has n (forget m xs) → Has n xs × (n ≢ m)
Has-forget n m [] h = elim h [ ]
Has-forget n m (x ∷ xs) h = elim (Bool-cases (x == m)) [
  | inl gone ↦ let (k, other) = Has-forget n m xs (rw (Has, gone) at h) in (inr k, other)
  | inr stays ↦ elim (rw (Has, stays) at h) [
    | inl e ↦ (inl e, λ same. ground (arith, stays, same, e))
    | inr k ↦ let (k', other) = Has-forget n m xs k in (inr k', other)
  ]
]

Has-forget_ne : (n m : FileNumber) (xs : List FileNumber) → n ≢ m → Has n xs → Has n (forget m xs)
Has-forget_ne n m [] other h = h
Has-forget_ne n m (x ∷ xs) other h = elim (Bool-cases (x == m)) [
  | inl gone ↦ elim h [
    | inl e ↦ absurd (other (e ∙ (==_iff x m).0 gone))
    | inr k ↦ rw (Has, gone) (Has-forget_ne n m xs other k)
  ]
  | inr stays ↦ elim h [
    | inl e ↦ rw (Has, stays) (inl e)
    | inr k ↦ rw (Has, stays) (inr (Has-forget_ne n m xs other k))
  ]
]

Distinct-forget : (m : FileNumber) (xs : List FileNumber) → Distinct xs → Distinct (forget m xs)
Distinct-forget m [] d = d
Distinct-forget m (x ∷ xs) d = elim (Bool-cases (x == m)) [
  | inl gone ↦ rw (Distinct, gone) (Distinct-forget m xs d.1)
  | inr stays ↦ rw (Distinct, stays) ((λ h. d.0 (Has-forget x m xs h).0), Distinct-forget m xs d.1)
]

module _ {R : Type 0} where
  -- Is a table of this number cached?
  abbrev pub holds : List (FileNumber × R) → FileNumber → Bool
  holds [] number = false
  holds ((n, r) ∷ rest) number = if n == number then true else holds rest number

  pub length-remove :
      (number : FileNumber) (entries : List (FileNumber × R))
      → length (remove number entries) ≤ length entries
  length-remove number [] = omega arith
  length-remove number ((n, r) ∷ rest) = ground (arith, length-remove number rest)

  length-remove_held :
      (number : FileNumber) (entries : List (FileNumber × R))
      → holds entries number ≡ true
      → length (remove number entries) < length entries
  length-remove_held number [] h = cc
  length-remove_held number ((n, r) ∷ rest) h =
      ground (arith, h, length-remove number rest, length-remove_held number rest)

  holds-remove_ne :
      (old number : FileNumber) (entries : List (FileNumber × R))
      → old ≢ number
      → holds (remove old entries) number ≡ holds entries number
  holds-remove_ne old number [] h = refl
  holds-remove_ne old number ((n, r) ∷ rest) h =
      ground (arith, h, holds-remove_ne old number rest h)

  holds-remove_self :
      (old : FileNumber) (entries : List (FileNumber × R)) → holds (remove old entries) old ≡ false
  holds-remove_self old [] = refl
  holds-remove_self old ((n, r) ∷ rest) = ground (arith, holds-remove_self old rest)

  pub holds-find :
      (number : FileNumber) (entries : List (FileNumber × R))
      → find entries number ≡ none
      → holds entries number ≡ false
  holds-find number [] h = refl
  holds-find number ((n, r) ∷ rest) h = ground (arith, h, holds-find number rest)

  -- The order lists each cached number once and nothing else.
  pub record IsMatched (entries : List (FileNumber × R)) (order : List FileNumber) : Type 0 where
    pub distinct : Distinct order
    pub cached : (n : FileNumber) → Has n order → holds entries n ≡ true
    pub listed : (n : FileNumber) → holds entries n ≡ true → Has n order

  pub touch-IsMatched :
      (entries : List (FileNumber × R)) (order : List FileNumber) (number : FileNumber)
      → IsMatched entries order
      → holds entries number ≡ true
      → IsMatched entries (forget number order ++ number ∷ [])
  touch-IsMatched entries order number m held = record {
    distinct =
        Distinct-append number (forget number order) (Distinct-forget number order m.distinct)
          (λ h. (Has-forget number number order h).1 refl);
    cached = λ n h. elim (Has-split n (forget number order) (number ∷ []) h) [
      | inl k ↦ m.cached n (Has-forget n number order k).0
      | inr (inl e) ↦ rw e held
      | inr (inr none_left) ↦ elim none_left [ ]
    ];
    listed = λ n h. elim (Bool-cases (n == number)) [
      | inl same ↦ rw ((==_iff n number).0 same) (Has-last number (forget number order))
      | inr other ↦
          Has-left n (forget number order) (number ∷ [])
            (Has-forget_ne n number order (λ e. ground (arith, e, other)) (m.listed n h))
    ];
  }

  pub evict-IsMatched :
      (entries : List (FileNumber × R)) (order : List FileNumber) (number : FileNumber)
      → IsMatched entries order
      → IsMatched (remove number entries) (forget number order)
  evict-IsMatched entries order number m = record {
    distinct = Distinct-forget number order m.distinct;
    cached = λ n h.
        let (k, other) = Has-forget n number order h in
        holds-remove_ne number n entries (λ e. other (sym e)) ∙ m.cached n k;
    listed = λ n h. elim (Bool-cases (number == n)) [
      | inl same ↦
          let e : number ≡ n = (==_iff number n).0 same in
          ground (arith, e, h, holds-remove_self number entries)
      | inr miss ↦
          let other : number ≢ n = λ e. ground (arith, e, miss) in
          Has-forget_ne n number order (λ e. other (sym e))
            (m.listed n (sym (holds-remove_ne number n entries other) ∙ h))
    ];
  }

  drop-IsMatched :
      (entries : List (FileNumber × R)) (old : FileNumber) (rest : List FileNumber)
      → IsMatched entries (old ∷ rest)
      → IsMatched (remove old entries) rest
  drop-IsMatched entries old rest m = record {
    distinct = m.distinct.1;
    cached = λ n h.
        let other : old ≢ n = λ e. m.distinct.0 (rw e h) in
        holds-remove_ne old n entries other ∙ m.cached n (inr h);
    listed = λ n h. elim (Bool-cases (old == n)) [
      | inl same ↦
          let e : old ≡ n = (==_iff old n).0 same in
          ground (arith, e, h, holds-remove_self old entries)
      | inr miss ↦
          let other : old ≢ n = λ e. ground (arith, e, miss) in
          elim (m.listed n (sym (holds-remove_ne old n entries other) ∙ h)) [
            | inl e ↦ absurd (other (sym e))
            | inr k ↦ k
          ]
    ];
  }

  pub push-IsMatched :
      (entries : List (FileNumber × R)) (order : List FileNumber) (number : FileNumber) (reader : R)
      → IsMatched entries order
      → holds entries number ≡ false
      → IsMatched ((number, reader) ∷ remove number entries) (order ++ number ∷ [])
  push-IsMatched entries order number reader m absent = record {
    distinct =
        Distinct-append number order m.distinct (λ h. ground (arith, absent, m.cached number h));
    cached = λ n h. elim (Bool-cases (number == n)) [
      | inl same ↦ rw (holds, same) refl
      | inr miss ↦
          let other : number ≢ n = λ e. ground (arith, e, miss) in
          elim (Has-split n order (number ∷ []) h) [
            | inl k ↦ rw (holds, miss) (holds-remove_ne number n entries other ∙ m.cached n k)
            | inr (inl e) ↦ absurd (other (sym e))
            | inr (inr none_left) ↦ elim none_left [ ]
          ]
    ];
    listed = λ n h. elim (Bool-cases (number == n)) [
      | inl same ↦ rw (sym ((==_iff number n).0 same)) (Has-last number order)
      | inr miss ↦
          let other : number ≢ n = λ e. ground (arith, e, miss) in
          Has-left n order (number ∷ [])
            (m.listed n (sym (holds-remove_ne number n entries other) ∙ (rw (holds, miss) at h)))
    ];
  }

  first_held :
      (entries : List (FileNumber × R))
      → 0 < length entries
      → (n : FileNumber) × (holds entries n ≡ true)
  first_held [] h = absurd (omega (arith, h))
  first_held ((n, r) ∷ rest) h = (n, ground (arith, ==_refl n))

  -- What makes room: a table that is not cached stays out, and there is one fewer.
  pub record Room (c : CacheInner R) (number : FileNumber) (room : CacheInner R) : Type 0 where
    pub matched : IsMatched room.entries room.order
    pub absent : holds room.entries number ≡ false
    pub smaller : length room.entries < length c.entries
    pub capacity : room.capacity ≡ c.capacity

  holds-remove_absent :
      (old number : FileNumber) (entries : List (FileNumber × R))
      → holds entries number ≡ false
      → holds (remove old entries) number ≡ false
  holds-remove_absent old number [] h = h
  holds-remove_absent old number ((n, r) ∷ rest) h =
      ground (arith, h, holds-remove_absent old number rest)

  pub drop_front-Room :
      (order : List FileNumber) (c : CacheInner R) (number : FileNumber)
      → IsMatched c.entries order
      → holds c.entries number ≡ false
      → 0 < length c.entries
      → Room c number (drop_front order c)
  unfolding drop_front
  drop_front-Room [] c number m absent some_there =
      let (n, held) = first_held c.entries some_there in elim (m.listed n held) [ ]
  drop_front-Room (old ∷ rest) c number m absent some_there = record {
    matched = drop-IsMatched c.entries old rest m;
    absent = holds-remove_absent old number c.entries absent;
    smaller = length-remove_held old c.entries (m.cached old (inl refl));
    capacity = refl;
  }
