-- ===== src/Iterator/Shown.antt =====
-- What a scan of sorted versions shows, as one pass over them, and that it agrees with the reads of
-- single keys.
use Prim.Native.Nat.{Ordering}
use mulan_lsm.Prelude.{
  ℕ, arith, ◌≡◌, ◌≢◌, refl, sym, ap, ◌∙◌, ltb, List, [], ◌∷◌, if◌then◌else◌, Bool, true, false,
  Option, none, some, Bool-cases, inl, inr,
}
use mulan_lsm.Prelude.Bytes.{Bytes, bytes_eq, cmp_bytes}
use mulan_lsm.Prelude.Compare.{bytes_eq→eq, bytes_eq_self}
use mulan_lsm.InternalKey.{ValueType}
use mulan_lsm.Reads.{Entry, value_of, read, IsOrdered}
use mulan_lsm.Reads.Sorted.{
  bytes_eq_ne, Before-absent, Before-less, visible-miss, visible-late, visible-hit,
}

-- Whether the user key is the one that was dealt with.
abbrev pub is_done : Option Bytes → Bytes → Bool
is_done none user_key = false
is_done (some key) user_key = bytes_eq user_key key

abbrev pub cons_put : ValueType → Bytes × Bytes → List (Bytes × Bytes) → List (Bytes × Bytes)
cons_put ValueType.put kv kvs = kv ∷ kvs
cons_put ValueType.delete kv kvs = kvs

-- Of every user key the first version that the snapshot sees, unless that is a deletion.
unfoldable pub shown : ℕ → Option Bytes → List Entry → List (Bytes × Bytes)
shown snapshot last [] = []
shown snapshot last ((ik, value) ∷ rest) =
    let passed = shown snapshot last rest in
    let late = shown snapshot none rest in
    let after = shown snapshot (some ik.user_key) rest in
    if is_done last ik.user_key
    then passed
    else if ltb snapshot ik.seq
    then late
    else cons_put ik.vtype (ik.user_key, value) after

abbrev pub find : Bytes → List (Bytes × Bytes) → Option Bytes
find key [] = none
find key ((k, value) ∷ rest) = if bytes_eq k key then some value else find key rest

pub shown-other :
    (snapshot : ℕ) (last : Option Bytes) (x : Entry) (xs : List Entry)
    → is_done last x.0.user_key ≡ false
    → shown snapshot last (x ∷ xs) ≡ shown snapshot none (x ∷ xs)
unfolding shown
shown-other snapshot last x xs other = rw (shown, other) refl

module _ (snapshot : ℕ) (key : Bytes) where
  abbrev Agrees : Option Bytes → List Entry → Type 0
  Agrees last xs = find key (shown snapshot last xs) ≡ read snapshot key xs

  find-cons_put :
      (t : ValueType) (k v : Bytes) (kvs : List (Bytes × Bytes))
      → k ≢ key
      → find key (cons_put t (k, v) kvs) ≡ find key kvs
  find-cons_put ValueType.put k v kvs other = rw (find, bytes_eq_ne k key other) refl
  find-cons_put ValueType.delete k v kvs other = refl

  find-cons_put_own :
      (t : ValueType) (k v : Bytes) (kvs : List (Bytes × Bytes))
      → k ≡ key
      → find key kvs ≡ none
      → find key (cons_put t (k, v) kvs) ≡ value_of (some (t, v))
  find-cons_put_own ValueType.put k v kvs own nothing =
      let same : bytes_eq k key ≡ true = rw own (bytes_eq_self key) in rw (find, same) refl
  find-cons_put_own ValueType.delete k v kvs own nothing = nothing

  -- What is settled behind an entry `prev`.
  abbrev Behind : List Entry → Type 0
  Behind xs =
      (prev : Entry)
      → IsOrdered (prev ∷ xs)
      → (prev.0.user_key ≡ key → find key (shown snapshot (some prev.0.user_key) xs) ≡ none)
        × (prev.0.user_key ≢ key → Agrees (some prev.0.user_key) xs)

  first_shown :
      (x : Entry) (xs : List Entry)
      → IsOrdered (x ∷ xs)
      → Agrees none xs
      → Behind xs
      → Agrees none (x ∷ xs)
  unfolding shown
  first_shown x xs ord ih behind = elim (Bool-cases (ltb snapshot x.0.seq)) [
    | inl late ↦
        rw late (ih ∙ sym (ap value_of (visible-late snapshot key x xs (ground (arith, late)))))
    | inr early ↦
        let (gone, stays) = behind x ord in
        elim (Bool-cases (bytes_eq x.0.user_key key)) [
          | inl hit ↦
              let own : x.0.user_key ≡ key = bytes_eq→eq x.0.user_key key hit in
              rw early (
                find-cons_put_own x.0.vtype x.0.user_key x.1 (shown snapshot (some x.0.user_key) xs)
                  own (gone own)
                ∙ sym (ap value_of (visible-hit snapshot key x xs own (ground (arith, early)))))
          | inr miss ↦
              let other : x.0.user_key ≢ key = λ e. ground (arith, e, miss, bytes_eq_self key) in
              rw early (
                find-cons_put x.0.vtype x.0.user_key x.1 (shown snapshot (some x.0.user_key) xs)
                  other
                ∙ stays other
                ∙ sym (ap value_of (visible-miss snapshot key x xs other)))
        ]
  ]

  absent :
      (prev x : Entry) (xs : List Entry)
      → IsOrdered (prev ∷ x ∷ xs)
      → prev.0.user_key ≡ key
      → bytes_eq x.0.user_key prev.0.user_key ≡ false
      → read snapshot key (x ∷ xs) ≡ none
  absent prev x xs ord own miss = elim ord.0.0 [
    | inl less ↦
        let less' : cmp_bytes key x.0.user_key ≡ Ordering.lt = rw (sym own) less in
        ap value_of
          (Before-absent snapshot key (x ∷ xs) (less', Before-less key x xs less' ord.1.0))
    | inr (equal, _) ↦
        let e : bytes_eq x.0.user_key prev.0.user_key ≡ true =
          rw equal (bytes_eq_self x.0.user_key) in
        cc
  ]

  shown-lem : (xs : List Entry) → (IsOrdered xs → Agrees none xs) × Behind xs
  unfolding shown
  shown-lem [] = (λ ord. refl, λ prev ord. (λ e. refl, λ e. refl))
  shown-lem (x ∷ xs) =
      let (ih, behind) = shown-lem xs in
      let first = λ (ord : IsOrdered (x ∷ xs)). first_shown x xs ord (ih ord.1) behind in
      (
        first,
        λ prev ord.
            let without : IsOrdered (prev ∷ xs) = (ord.0.1, ord.1.1) in
            let (gone, stays) = behind prev without in
            elim (Bool-cases (bytes_eq x.0.user_key prev.0.user_key)) [
              | inl hit ↦
                  let same = bytes_eq→eq x.0.user_key prev.0.user_key hit in
                  (
                    λ own. rw hit (gone own),
                    λ other. rw hit (
                        stays other
                        ∙ sym (
                            ap value_of
                              (visible-miss snapshot key x xs (λ e. other (sym same ∙ e))))),
                  )
              | inr miss ↦
                  let through =
                    ap (find key) (shown-other snapshot (some prev.0.user_key) x xs miss)
                    ∙ first ord.1 in
                  (λ own. through ∙ absent prev x xs ord own miss, λ other. through)
            ],
      )

  pub shown-read :
      (entries : List Entry)
      → IsOrdered entries
      → find key (shown snapshot none entries) ≡ read snapshot key entries
  shown-read entries = (shown-lem entries).0
