-- ===== src/Wal/Trailer.antt =====
-- The end of a block in src/wal.rs: what the writer fills in, the reader skips.
use native.Mathlib.Nat.{add-zero}
use mulan_lsm.Prelude.{
  ℕ, ◌+◌, ◌-◌, ◌%◌, ◌≤◌, ◌<◌, arith, ◌≡◌, refl, sym, List, [], ◌++◌, length, length-append,
  replicate, length-replicate, ltb, leb, Bool-cases, Option, append-nil, inl, inr,
}
use mulan_lsm.Prelude.Bytes.{Bytes}
use mulan_lsm.Wal.Writer.{WalWriter, create, fill_trailer}
use mulan_lsm.Wal.Reader.{start}
use mulan_lsm.Wal.Scans.{Steps, here, next}
use mulan_lsm.Wal.Pieces.{read_step-trailer}
use mulan_lsm.Prelude.{ltb_not, lt→ltb, ltb→lt, leb→le}

-- The offset in the block, as the writer keeps it: at the end of a block it may stand at the
-- block's size instead of 0.
pub record IsAligned (w : WalWriter) : Type 0 where
  pub within : w.block_offset ≤ 32768
  pub offset : w.block_offset % 32768 ≡ length w.file % 32768

pub create-IsAligned : (contents : Bytes) → IsAligned (create contents)
unfolding create
create-IsAligned contents = omega arith

-- The reader, on a file that begins with these bytes, comes to their end with this state.
abbrev pub ReadsTo : (Bytes → ℕ) → Bytes → Option Bytes → List Bytes → Type 0
ReadsTo crc32c file fragment records =
    (post : Bytes)
    → Steps crc32c (file ++ post) start
        (record { pos = length file; fragment = fragment; records = records })

-- After the trailer there is room for a header, and the reader skips what was filled in.
pub record Filled (crc32c : Bytes → ℕ) (w w' : WalWriter) : Type 0 where
  pub zeros : Bytes
  pub grown : w'.file ≡ w.file ++ zeros
  pub synced : w'.synced ≡ w.synced
  pub room : w'.block_offset + 7 ≤ 32768
  pub offset : w'.block_offset ≡ length w'.file % 32768
  pub fresh : w.block_offset ≡ 32768 → w'.block_offset ≡ 0
  pub skipped :
      (post : Bytes) (fragment : Option Bytes) (records : List Bytes)
      → 7 ≤ length post
      → Steps crc32c
          (w.file ++ (zeros ++ post))
          (record { pos = length w.file; fragment = fragment; records = records })
          (record { pos = length w.file + length zeros; fragment = fragment; records = records })

module _ (crc32c : Bytes → ℕ) (w : WalWriter) (a : IsAligned w) where
  fill_wide : w.block_offset + 7 ≤ 32768 → Filled crc32c w (fill_trailer w)
  unfolding fill_trailer
  fill_wide h =
      rw
        (
          ltb_not 32768 w.block_offset (omega arith),
          ltb_not (32768 - w.block_offset) 7 (omega arith),
        )
        (record {
          zeros = [];
          grown = sym (append-nil w.file);
          synced = refl;
          room = h;
          offset = omega arith;
          fresh = λ e. absurd (omega arith);
          skipped = λ post fragment records more. rw add-zero here;
        })

  fill_full : w.block_offset ≡ 32768 → Filled crc32c w (fill_trailer w)
  unfolding fill_trailer
  fill_full h = rw (h) (record {
    zeros = [];
    grown = sym (append-nil w.file);
    synced = refl;
    room = omega arith;
    offset = omega arith;
    fresh = λ e. refl;
    skipped = λ post fragment records more. rw add-zero here;
  })

  fill_tight :
      32768 < w.block_offset + 7 → w.block_offset < 32768 → Filled crc32c w (fill_trailer w)
  unfolding fill_trailer
  fill_tight h k =
      rw
        (
          ltb_not 32768 w.block_offset (omega arith),
          lt→ltb (32768 - w.block_offset) 7 (omega arith),
          lt→ltb 0 (32768 - w.block_offset) (omega arith),
        )
        (record {
          zeros = replicate (32768 - w.block_offset) 0;
          grown = refl;
          synced = refl;
          room = omega arith;
          offset = omega (
            arith,
            length-append {0} w.file (replicate (32768 - w.block_offset) 0),
            length-replicate {A = ℕ} (32768 - w.block_offset) 0,
          );
          fresh = λ e. absurd (omega arith);
          skipped = λ post fragment records more.
              rw (length-replicate {A = ℕ} (32768 - w.block_offset) 0) (
                next
                  (read_step-trailer crc32c w.file post (32768 - w.block_offset) fragment records
                    (omega arith) (omega arith) (omega arith) (omega arith))
                  here);
        })

  pub fill_trailer-Filled : Filled crc32c w (fill_trailer w)
  fill_trailer-Filled = elim (Bool-cases (leb (w.block_offset + 7) 32768)) [
    | inl wide ↦ fill_wide (leb→le _ _ wide)
    | inr tight ↦ elim (Bool-cases (ltb w.block_offset 32768)) [
      | inl inside ↦ fill_tight (ground arith) (ltb→lt _ _ inside)
      | inr full ↦ fill_full (ground (arith, a.within))
    ]
  ]
