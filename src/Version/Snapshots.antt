-- ===== src/Version/Snapshots.antt =====
-- The snapshots of src/version.rs, whose oldest bounds what a compaction may drop.
use mulan_lsm.Prelude.{
  Has, Has-last, ℕ, ◌≤◌, min, arith, ◌≡◌, ◌≢◌, refl, sym, ap, ◌∙◌, List, [], ◌∷◌, ◌++◌, foldl,
  filter, not, ◌==◌, ==_iff, Bool-cases, some, Option-cases, All, inl, inr,
}
use mulan_lsm.Version.{VersionSet, acquire_snapshot, release_snapshot, least, oldest_snapshot_seq}

least-bound : (s : ℕ) (ss : List ℕ) → Has s ss → (m : ℕ) × (least ss ≡ some m) × (m ≤ s)
least-bound s [] h = elim h [ ]
least-bound s (x ∷ xs) (inl same) = elim (Option-cases (least xs)) [
  | inl empty ↦ (x, rw empty refl, omega (arith, same))
  | inr (m, e) ↦ (min x m, rw e refl, omega (arith, same))
]
least-bound s (x ∷ xs) (inr later) =
    let (m, e, bound) = least-bound s xs later in (min x m, rw e refl, omega (arith, bound))

Has-filter_ne : (s r : ℕ) (ss : List ℕ) → r ≢ s → Has s ss → Has s (filter (λ x. not (x == r)) ss)
Has-filter_ne s r [] other h = h
Has-filter_ne s r (x ∷ xs) other h = elim (Bool-cases (x == r)) [
  | inl hit ↦ elim h [
    | inl same ↦ absurd (other (sym (same ∙ (==_iff x r).0 hit)))
    | inr later ↦ rw (Has, hit) (Has-filter_ne s r xs other later)
  ]
  | inr miss ↦ elim h [
    | inl same ↦ rw (Has, miss) (inl same)
    | inr later ↦ rw (Has, miss) (inr (Has-filter_ne s r xs other later))
  ]
]

Has-release_each :
    (s : ℕ) (others : List ℕ) (vs : VersionSet)
    → All (λ r. r ≢ s) others
    → Has s vs.snapshots
    → Has s (foldl (λ v r. release_snapshot r v) vs others).snapshots
unfolding release_snapshot
Has-release_each s [] vs h has = has
Has-release_each s (r ∷ others) vs h has =
    Has-release_each s others (release_snapshot r vs) h.1 (Has-filter_ne s r vs.snapshots h.0 has)

-- From the moment a sequence number is registered and as long as only other numbers are released,
-- the oldest snapshot is at most that number.
pub snapshot_protected :
    (vs : VersionSet) (s : ℕ) (others : List ℕ)
    → All (λ r. r ≢ s) others
    → oldest_snapshot_seq (foldl (λ v r. release_snapshot r v) (acquire_snapshot s vs) others) ≤ s
unfolding oldest_snapshot_seq acquire_snapshot
snapshot_protected vs s others h =
    let (m, e, bound) =
      least-bound s _
        (Has-release_each s others (acquire_snapshot s vs) h (Has-last s vs.snapshots)) in
    rw (oldest_snapshot_seq, e) bound

filter-append_self :
    (s : ℕ) (ss : List ℕ)
    → filter (λ x. not (x == s)) (ss ++ s ∷ []) ≡ filter (λ x. not (x == s)) ss
filter-append_self s [] = ground arith
filter-append_self s (x ∷ xs) = ground (arith, filter-append_self s xs)

-- One release of a number undoes every registration of it: after two registrations and one release
-- the set is as after the release alone.
pub release-acquire_twice :
    (vs : VersionSet) (s : ℕ)
    → release_snapshot s (acquire_snapshot s (acquire_snapshot s vs)) ≡ release_snapshot s vs
unfolding release_snapshot acquire_snapshot
release-acquire_twice vs s =
    ap (λ l. record vs { snapshots = l })
      (filter-append_self s (vs.snapshots ++ s ∷ []) ∙ filter-append_self s vs.snapshots)
