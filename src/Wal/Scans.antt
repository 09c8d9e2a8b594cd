-- ===== src/Wal/Scans.antt =====
-- Runs of the reader's loop: progress, enough fuel, and what more input changes.
use mathlib.Core.Path.{subst}
use mulan_lsm.Prelude.{
  ℕ, zero, suc, ◌+◌, ◌-◌, ◌*◌, ◌/◌, ◌≤◌, ◌<◌, arith, ◌≡◌, refl, ap, ◌∙◌, List, ◌++◌, length,
  length-append, slice, slice-append_inside, get_or, ltb, leb, ◌==◌, Bool-cases, Option, none, some,
  Result, ok, err, panic, leb→le, inl, inr, ◌⊎◌,
}
use mulan_lsm.Prelude.Bytes.{Bytes}
use mulan_lsm.Prelude.Prefix.{IsPrefix, IsPrefix-refl, IsPrefix-trans, IsPrefix-append}
use mulan_lsm.Wal.Record.{RecordType, RecordHeader, decode_header, verify_checksum}
use mulan_lsm.Wal.Reader.{
  Scan, Round, stop, continue, assemble, read_piece, on_header, read_step, scan,
}

pub assemble-IsPrefix :
    (frag : Option Bytes) (rtype : RecordType) (payload : Bytes) (records : List Bytes)
    → IsPrefix records (assemble frag rtype payload records).1
assemble-IsPrefix none RecordType.full payload records = IsPrefix-append records _
assemble-IsPrefix none RecordType.first payload records = IsPrefix-refl records
assemble-IsPrefix none RecordType.middle payload records = IsPrefix-refl records
assemble-IsPrefix none RecordType.last payload records = IsPrefix-refl records
assemble-IsPrefix (some f) RecordType.middle payload records = IsPrefix-refl records
assemble-IsPrefix (some f) RecordType.last payload records = IsPrefix-append records _
assemble-IsPrefix (some f) RecordType.full payload records = IsPrefix-append records _
assemble-IsPrefix (some f) RecordType.first payload records = IsPrefix-refl records

Round-cases :
    (r : Round) → ((records : List Bytes) × (r ≡ stop records)) ⊎ ((t : Scan) × (r ≡ continue t))
Round-cases (stop records) = inl (records, refl)
Round-cases (continue t) = inr (t, refl)

-- What a round that goes on, or one that stops, has done.
abbrev pub Advances : Bytes → Scan → Round → Type 0
Advances bytes s (stop records) = records ≡ s.records
Advances bytes s (continue t) =
    (s.pos < t.pos) × (s.pos + 7 ≤ length bytes) × IsPrefix s.records t.records

module _ (crc32c : Bytes → ℕ) (bytes : Bytes) where
  read_piece-Advances :
      (s : Scan) (header : RecordHeader)
      → s.pos + 7 ≤ length bytes
      → Advances bytes s (read_piece crc32c bytes s header)
  unfolding read_piece
  read_piece-Advances s header h =
      elim (Bool-cases (ltb (length bytes) (s.pos + 7 + header.length))) [
        | inl short ↦ rw short refl
        | inr fits ↦
            elim (Bool-cases (
              verify_checksum crc32c header.rtype
                (slice bytes (s.pos + 7) (s.pos + 7 + header.length)) header.checksum)) [
                  | inl good ↦ rw (fits, good) (omega arith, h, assemble-IsPrefix _ _ _ _)
                  | inr bad ↦ rw (fits, bad) refl
                ]
      ]

  on_header-Advances :
      (s : Scan) (r : Result RecordHeader)
      → s.pos + 7 ≤ length bytes
      → Advances bytes s (on_header crc32c bytes s r)
  unfolding on_header
  on_header-Advances s (ok header) h = read_piece-Advances s header h
  on_header-Advances s (err e) h = refl
  on_header-Advances s panic h = refl

  -- A round that goes on moves the position on, saw a whole header, and only adds records; a round
  -- that stops returns the records found so far.
  pub read_step-Advances : (s : Scan) → Advances bytes s (read_step crc32c bytes s)
  unfolding read_step
  read_step-Advances s = elim (Bool-cases (leb (s.pos + 7) (length bytes))) [
    | inr short ↦ rw short refl
    | inl whole ↦
        let h : s.pos + 7 ≤ length bytes = leb→le _ _ whole in
        elim (Bool-cases (ltb (32768 - (s.pos - s.pos / 32768 * 32768)) 7)) [
          | inl trailer ↦ rw (whole, trailer) (omega arith, h, IsPrefix-refl s.records)
          | inr room ↦ elim (Bool-cases (get_or (slice bytes s.pos (s.pos + 7)) 6 0 == 0)) [
            | inl zeros ↦ rw (whole, room, zeros) (omega arith, h, IsPrefix-refl s.records)
            | inr header ↦ rw (whole, room, header) (on_header-Advances s _ h)
          ]
        ]
  ]

  step-Advances :
      (s t : Scan) → read_step crc32c bytes s ≡ continue t → Advances bytes s (continue t)
  step-Advances s t e = subst (Advances bytes s) e (read_step-Advances s)

  step_stops :
      (s : Scan) (records : List Bytes)
      → read_step crc32c bytes s ≡ stop records
      → read_step crc32c bytes s ≡ stop s.records
  step_stops s records e = e ∙ ap stop (subst (Advances bytes s) e (read_step-Advances s))

  abbrev pub Enough : ℕ → Scan → Type 0
  Enough fuel s = (0 < fuel) × (length bytes < fuel + s.pos)

  -- A run of rounds that all go on.
  pub data Steps : Scan → Scan → Type 0 where
    here : {s : Scan} → Steps s s
    next : {s t u : Scan} → read_step crc32c bytes s ≡ continue t → Steps t u → Steps s u

  pub Steps-IsPrefix : {s u : Scan} → Steps s u → IsPrefix s.records u.records
  Steps-IsPrefix here = IsPrefix-refl _
  Steps-IsPrefix (next {s} {t} {u} e more) =
      IsPrefix-trans s.records t.records u.records (step-Advances s t e).2 (Steps-IsPrefix more)

  pub Steps-trans : {s t u : Scan} → Steps s t → Steps t u → Steps s u
  Steps-trans here k = k
  Steps-trans (next e more) k = next e (Steps-trans more k)

  -- With enough fuel the loop ends by itself, at a state that a run of rounds reaches.
  pub scan_total :
      (fuel : ℕ) (s : Scan)
      → Enough fuel s
      → (u : Scan) × Steps s u
        × (read_step crc32c bytes u ≡ stop u.records)
        × (scan crc32c bytes fuel s ≡ some u.records)
  unfolding scan
  scan_total zero s h = absurd (omega arith)
  scan_total (suc fuel) s h = elim (Round-cases (read_step crc32c bytes s)) [
    | inl (records, e) ↦ (s, here, step_stops s records e, rw (step_stops s records e, scan))
    | inr (t, e) ↦
        let (past, whole, _) = step-Advances s t e in
        let (u, steps, ends, result) = scan_total fuel t (omega arith) in
        (u, next e steps, ends, rw (e, scan) result)
  ]

  -- Any run that ends determines what the loop returns.
  pub scan-Steps :
      (fuel : ℕ) {s u : Scan}
      → Steps s u
      → read_step crc32c bytes u ≡ stop u.records
      → Enough fuel s
      → scan crc32c bytes fuel s ≡ some u.records
  unfolding scan
  scan-Steps zero steps ends h = absurd (omega arith)
  scan-Steps (suc fuel) here ends h = rw (ends, scan)
  scan-Steps (suc fuel) (next {s} {t} e more) ends h =
      let (past, whole, _) = step-Advances s t e in
      rw (e, scan) (scan-Steps fuel more ends (omega arith))

-- What a round that goes on has read is not changed by bytes behind it.
module _ (crc32c : Bytes → ℕ) (bytes more : Bytes) where
  read_piece-append :
      (s : Scan) (header : RecordHeader) (t : Scan)
      → read_piece crc32c bytes s header ≡ continue t
      → read_piece crc32c (bytes ++ more) s header ≡ continue t
  unfolding read_piece
  read_piece-append s header t e = ground (
    arith,
    length-append bytes more,
    slice-append_inside bytes more (s.pos + 7) (s.pos + 7 + header.length),
  )

  on_header-append :
      (s : Scan) (r : Result RecordHeader) (t : Scan)
      → on_header crc32c bytes s r ≡ continue t
      → on_header crc32c (bytes ++ more) s r ≡ continue t
  unfolding on_header
  on_header-append s (ok header) t e = read_piece-append s header t e
  on_header-append s (err x) t e = cc
  on_header-append s panic t e = cc

  pub read_step-append :
      (s t : Scan)
      → read_step crc32c bytes s ≡ continue t
      → read_step crc32c (bytes ++ more) s ≡ continue t
  unfolding read_step
  read_step-append s t e = ground (
    arith,
    length-append bytes more,
    slice-append_inside bytes more s.pos (s.pos + 7),
    on_header-append s (decode_header (slice bytes s.pos (s.pos + 7))) t,
  )

  pub Steps-append : {s u : Scan} → Steps crc32c bytes s u → Steps crc32c (bytes ++ more) s u
  Steps-append here = here
  Steps-append (next {s} {t} e rest) = next (read_step-append s t e) (Steps-append rest)
