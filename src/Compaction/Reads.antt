-- ===== src/Compaction/Reads.antt =====
-- What a compaction writes reads as what it merged, at every snapshot that may still be asked for.
use mulan_lsm.Prelude.{
  ℕ, arith, ◌<◌, ◌≤◌, ◌≡◌, ◌≢◌, refl, sym, ap, ◌∙◌, leb, leb→le, List, [], ◌∷◌, ◌&&◌, if◌then◌else◌,
  Bool, true, false, none, some, Bool-cases, ◌⊎◌, inl, inr,
}
use mulan_lsm.Prelude.Bytes.{Bytes, bytes_eq}
use mulan_lsm.Prelude.Compare.{bytes_eq→eq, bytes_eq_self}
use mulan_lsm.InternalKey.{InternalKey, ValueType}
use mulan_lsm.Reads.{Entry, value_of, read, IsOrdered}
use mulan_lsm.Reads.Sorted.{
  bytes_eq_ne, cmp_bytes_irrefl, Before-absent, Before-less, visible-miss, visible-late,
  visible-hit,
}
use mulan_lsm.Compaction.Drop.{Last, no_last, same_as_last, drops, kept}

module _ (base : Bytes → Bool) (oldest snapshot : ℕ) (recent : oldest ≤ snapshot)
    (key : Bytes) where
  abbrev after : InternalKey → Last
  after ik = record { user_key = some ik.user_key; seq = ik.seq }

  -- Behind an entry `prev`: of its own key nothing is left that a snapshot may ask for, once `prev` is
  -- old enough; else the key reads as before.
  abbrev Reads : Entry → List Entry → Type 0
  Reads prev xs =
      (prev.0.user_key ≡ key
        → prev.0.seq ≤ oldest
        → read snapshot key (kept base oldest (after prev.0) xs) ≡ none)
      × ((prev.0.user_key ≢ key ⊎ (oldest < prev.0.seq))
          → read snapshot key (kept base oldest (after prev.0) xs) ≡ read snapshot key xs)

  drops_stale :
      (prev ik : InternalKey)
      → prev.user_key ≡ ik.user_key
      → prev.seq ≤ oldest
      → drops base oldest (after prev) ik ≡ true
  unfolding drops
  drops_stale prev ik same old =
      let e : bytes_eq prev.user_key ik.user_key ≡ true = rw same (bytes_eq_self ik.user_key) in
      ground (arith, e, old)

  -- The entry before does not make this one superfluous.
  abbrev IsFresh : Last → InternalKey → Type 0
  IsFresh last ik = (same_as_last last.user_key ik.user_key && leb last.seq oldest) ≡ false

  drops-delete :
      (last : Last) (ik : InternalKey)
      → drops base oldest last ik ≡ true
      → IsFresh last ik
      → (ik.vtype ≡ ValueType.delete) × (ik.seq ≤ oldest)
  unfolding drops
  drops-delete last ik dropped fresh = ground (arith, dropped, fresh)

  IsFresh-after :
      (prev ik : InternalKey)
      → (prev.user_key ≢ ik.user_key) ⊎ (oldest < prev.seq)
      → IsFresh (after prev) ik
  IsFresh-after prev ik (inl other) =
      let e = bytes_eq_ne prev.user_key ik.user_key other in ground (arith, e)
  IsFresh-after prev ik (inr late) = ground (arith, late)

  -- The entry that stays or goes, where the entries behind it are settled.
  abbrev step : Bool → Entry → List Entry → List Entry
  step dropped x rest = if dropped then rest else x ∷ rest

  step_miss :
      (dropped : Bool) (x : Entry) (rest : List Entry)
      → x.0.user_key ≢ key
      → read snapshot key (step dropped x rest) ≡ read snapshot key rest
  step_miss true x rest other = refl
  step_miss false x rest other = ap value_of (visible-miss snapshot key x rest other)

  absent :
      (prev x : Entry) (xs : List Entry)
      → IsOrdered (prev ∷ x ∷ xs)
      → prev.0.user_key ≡ key
      → x.0.user_key ≢ key
      → read snapshot key xs ≡ none
  absent prev x xs ord same other = elim ord.0.0 [
    | inl less ↦
        ap value_of
          (Before-absent snapshot key xs (Before-less key x xs (rw (sym same) less) ord.1.0))
    | inr (equal, _) ↦ absurd (other (sym equal ∙ same))
  ]

  older :
      (prev x : Entry) (xs : List Entry)
      → IsOrdered (prev ∷ x ∷ xs)
      → prev.0.user_key ≡ key
      → x.0.user_key ≡ key
      → prev.0.seq ≤ oldest
      → x.0.seq ≤ oldest
  older prev x xs ord same own old = elim ord.0.0 [
    | inl less ↦ absurd (cmp_bytes_irrefl prev.0.user_key x.0.user_key less (same ∙ sym own))
    | inr (_, newer) ↦ omega (arith, newer, old)
  ]

  step_own :
      (last : Last) (x : Entry) (xs rest : List Entry)
      → IsFresh last x.0
      → x.0.user_key ≡ key
      → (x.0.seq ≤ oldest → read snapshot key rest ≡ none)
      → (oldest < x.0.seq → read snapshot key rest ≡ read snapshot key xs)
      → read snapshot key (step (drops base oldest last x.0) x rest) ≡ read snapshot key (x ∷ xs)
  step_own last x xs rest fresh own old new = elim (Bool-cases (drops base oldest last x.0)) [
    | inl dropped ↦
        let (deleted, early) = drops-delete last x.0 dropped fresh in
        let hit = visible-hit snapshot key x xs own (omega (arith, early, recent)) in
        rw (dropped, hit, deleted) (old early)
    | inr stays ↦ elim (Bool-cases (leb x.0.seq snapshot)) [
      | inl shown ↦
          let early = leb→le _ _ shown in
          rw stays (
            ap value_of (
              visible-hit snapshot key x rest own early
              ∙ sym (visible-hit snapshot key x xs own early)))
      | inr hidden ↦
          let late : snapshot < x.0.seq = ground (arith, hidden) in
          rw stays (
            ap value_of (visible-late snapshot key x rest late)
            ∙ new (omega (arith, late, recent))
            ∙ sym (ap value_of (visible-late snapshot key x xs late)))
    ]
  ]

  kept-Reads : (prev : Entry) (xs : List Entry) → IsOrdered (prev ∷ xs) → Reads prev xs
  unfolding kept
  kept-Reads prev [] ord = (λ e h. refl, λ h. refl)
  kept-Reads prev (x ∷ xs) ord =
      let ih = kept-Reads x xs ord.1 in
      let rest = kept base oldest (after x.0) xs in
      elim (Bool-cases (bytes_eq x.0.user_key key)) [
        | inl hit ↦
            let own : x.0.user_key ≡ key = bytes_eq→eq x.0.user_key key hit in
            let gone = ih.0 own in
            (
              λ same old.
                  let stale = drops_stale prev.0 x.0 (same ∙ sym own) old in
                  rw stale (gone (older prev x xs ord same own old)),
              λ h.
                  step_own (after prev.0) x xs rest (IsFresh-after prev.0 x.0 (rw own h)) own gone
                    (λ late. ih.1 (inr late)),
            )
        | inr miss ↦
            let other : x.0.user_key ≢ key = λ e. ground (arith, e, miss, bytes_eq_self key) in
            let through = step_miss (drops base oldest (after prev.0) x.0) x rest other in
            (
              λ same old. through ∙ ih.1 (inl other) ∙ absent prev x xs ord same other,
              λ h.
                  through
                  ∙ ih.1 (inl other)
                  ∙ sym (ap value_of (visible-miss snapshot key x xs other)),
            )
      ]

  -- Of a sorted sequence of versions the rule of do_compaction drops some; what it keeps reads,
  -- for every key and at every snapshot from the oldest live one on, as the whole sequence did.
  -- Which keys have their base level behind the output is any function of the key: a deletion that
  -- is dropped reads as nothing, as it did.
  pub kept-read :
      (entries : List Entry)
      → IsOrdered entries
      → read snapshot key (kept base oldest no_last entries) ≡ read snapshot key entries
  unfolding kept
  kept-read [] ord = refl
  kept-read (x ∷ xs) ord =
      let ih = kept-Reads x xs ord in
      let rest = kept base oldest (after x.0) xs in
      elim (Bool-cases (bytes_eq x.0.user_key key)) [
        | inl hit ↦
            let own : x.0.user_key ≡ key = bytes_eq→eq x.0.user_key key hit in
            step_own no_last x xs rest refl own (ih.0 own) (λ late. ih.1 (inr late))
        | inr miss ↦
            let other : x.0.user_key ≢ key = λ e. ground (arith, e, miss, bytes_eq_self key) in
            step_miss (drops base oldest no_last x.0) x rest other
            ∙ ih.1 (inl other)
            ∙ sym (ap value_of (visible-miss snapshot key x xs other))
      ]
