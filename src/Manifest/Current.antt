-- ===== src/Manifest/Current.antt =====
-- The file CURRENT of src/manifest.rs, which names the manifest. Its texts are ASCII, so that the white
-- space that `trim_end` cuts off is that of ASCII. A rename is one step, as the system promises.
use mulan_lsm.Prelude.{
  ℕ, zero, suc, arith, max, ◌<◌, ◌≤◌, ◌≡◌, refl, ap, ◌∙◌, List, [], ◌∷◌, ◌++◌, take, length,
  take_all, All, All-append, leb, ◌==◌, if◌then◌else◌, Bool, true, false, ◌&&◌, ◌||◌, Option, none,
  some, Result, ok, err, MulanError, ok_or, ◌⊎◌, inl, inr,
}
use mulan_lsm.Prelude.Bytes.{Bytes, IsU64}
use mulan_lsm.FileMeta.{FileNumber}
use mulan_lsm.FileMeta.Names.{
  to_name_part, manifest_prefix, manifest_path, all_digits, is_ascii_digit, parse_manifest_name,
}
use mulan_lsm.FileMeta.Names.RoundTrip.{all_digits-to_name_part, parse_names}

-- A file, of which the first `synced` bytes are known to be on disk.
pub record Written : Type 0 where
  pub contents : Bytes
  pub synced : ℕ

-- The two files of the directory, where they are there.
pub record Files : Type 0 where
  pub current : Option Written
  pub tmp : Option Written

abbrev pub on_file : (Written → Written) → Option Written → Option Written
on_file step none = none
on_file step (some file) = some (step file)

abbrev pub write_all : Bytes → Option Written → Option Written
write_all text = on_file (λ file. record file { contents = file.contents ++ text })

abbrev pub sync_all : Option Written → Option Written
sync_all = on_file (λ file. record file { synced = length file.contents })

-- `create`, the two writes, `sync_all` and `rename`, in their order; `10` is the end of the line.
unfoldable pub write_steps : FileNumber → List (Files → Files)
write_steps number =
    (λ d. record d { tmp = some (record { contents = []; synced = 0 }) })
    ∷ (λ d. record d { tmp = write_all (manifest_prefix ++ to_name_part number) d.tmp })
    ∷ (λ d. record d { tmp = write_all (10 ∷ []) d.tmp })
    ∷ (λ d. record d { tmp = sync_all d.tmp })
    ∷ (λ d. record { current = d.tmp; tmp = none })
    ∷ []

-- The files after so many of the steps.
abbrev pub run_steps : List (Files → Files) → Files → Files
run_steps [] d = d
run_steps (step ∷ steps) d = run_steps steps (step d)

unfoldable pub write_current : FileNumber → Files → Files
write_current number d = run_steps (write_steps number) d

abbrev pub is_space : ℕ → Bool
is_space b = b == 32 || leb 9 b && leb b 13

abbrev pub cons_unless : ℕ → Bytes → Bytes
cons_unless b [] = if is_space b then [] else b ∷ []
cons_unless b (c ∷ cs) = b ∷ c ∷ cs

abbrev pub trim_end : Bytes → Bytes
trim_end [] = []
trim_end (b ∷ bs) = cons_unless b (trim_end bs)

-- What is left of a file when the machine stops: what is synced, and as much of the rest as `keep` says.
abbrev pub torn : ℕ → Written → Written
torn keep file = record file { contents = take (max file.synced keep) file.contents }

-- The directory as it is found after the machine has stopped.
abbrev pub crash : ℕ → Files → Files
crash keep d = record { current = on_file (torn keep) d.current; tmp = on_file (torn keep) d.tmp }

-- A file that is on disk as a whole, or none.
abbrev pub IsSettled : Option Written → Type 0
IsSettled none = Unit {0}
IsSettled (some file) = file.synced ≡ length file.contents

abbrev pub number_in : Option Bytes → Result FileNumber
number_in none = err MulanError.io
number_in (some text) = ok_or (parse_manifest_name (trim_end text)) MulanError.corrupted

abbrev pub text_of : Option Written → Option Bytes
text_of none = none
text_of (some file) = some file.contents

unfoldable pub read_current : Files → Result FileNumber
read_current d = number_in (text_of d.current)

-- No white space is in the text.
abbrev IsSolid : Bytes → Type 0
IsSolid = All (λ b. is_space b ≡ false)

all_digits-IsSolid : (bs : Bytes) → all_digits bs ≡ true → IsSolid bs
all_digits-IsSolid [] h = _
all_digits-IsSolid (b ∷ bs) h =
    let digit : is_ascii_digit b ≡ true = ground (arith, h) in
    (ground (arith, digit), all_digits-IsSolid bs (ground (arith, h)))

trim_end-line : (bs : Bytes) → IsSolid bs → trim_end (bs ++ 10 ∷ []) ≡ bs
trim_end-line [] h = refl
trim_end-line (c ∷ cs) h = ap (cons_unless c) (trim_end-line cs h.1) ∙ keeps c cs h.0
  where
    keeps : (c : ℕ) (cs : Bytes) → is_space c ≡ false → cons_unless c cs ≡ c ∷ cs
    keeps c [] solid = rw (cons_unless, solid) refl
    keeps c (d ∷ ds) solid = refl

manifest_name-IsSolid : (n : FileNumber) → IsSolid (manifest_prefix ++ to_name_part n)
manifest_name-IsSolid n =
    All-append (λ b. is_space b ≡ false) manifest_prefix (to_name_part n)
      (refl, (refl, (refl, (refl, (refl, (refl, (refl, (refl, (refl, _)))))))))
      (all_digits-IsSolid (to_name_part n) (all_digits-to_name_part n))

-- The manifest that the text names.
number_in-line :
    (n : FileNumber)
    → IsU64 n
    → number_in (some ((manifest_prefix ++ to_name_part n) ++ 10 ∷ [])) ≡ ok n
unfolding manifest_path
number_in-line n fits =
    ap (λ (text : Bytes). ok_or (parse_manifest_name text) MulanError.corrupted)
      (trim_end-line (manifest_prefix ++ to_name_part n) (manifest_name-IsSolid n))
    ∙ ap (λ (found : Option FileNumber). ok_or found MulanError.corrupted)
        (parse_names [] n fits).1.1

-- A settled file is found whole.
torn-IsSettled :
    (keep : ℕ) (file : Option Written) → IsSettled file → on_file (torn keep) file ≡ file
torn-IsSettled keep none h = refl
torn-IsSettled keep (some file) h =
    ap (λ (bytes : Bytes). some (record { contents = bytes; synced = file.synced }))
      (take_all (max file.synced keep) file.contents (omega (arith, h)))

-- The file that is renamed.
abbrev new_file : FileNumber → Written
new_file n =
    let text = (manifest_prefix ++ to_name_part n) ++ 10 ∷ [] in
    record { contents = text; synced = length text }

take_none : (n : ℕ) → take {A = Files → Files} n [] ≡ []
take_none zero = refl
take_none (suc n) = refl

-- What stands in CURRENT after so many steps.
current_after :
    (d : Files) (n : FileNumber) (done : ℕ)
    → ((done < 5) × ((run_steps (take done (write_steps n)) d).current ≡ d.current))
      ⊎ ((5 ≤ done) × ((run_steps (take done (write_steps n)) d).current ≡ some (new_file n)))
unfolding write_steps
current_after d n zero = inl (omega arith, refl)
current_after d n (suc zero) = inl (omega arith, refl)
current_after d n (suc (suc zero)) = inl (omega arith, refl)
current_after d n (suc (suc (suc zero))) = inl (omega arith, refl)
current_after d n (suc (suc (suc (suc zero)))) = inl (omega arith, refl)
current_after d n (suc (suc (suc (suc (suc done))))) = inr (
  omega arith,
  ap
      (λ (steps : List (Files → Files)).
        (run_steps steps (record { current = some (new_file n); tmp = none })).current)
      (take_none done),
)

read_crashed :
    (keep : ℕ) (d : Files) (file : Option Written)
    → d.current ≡ file
    → IsSettled file
    → read_current (crash keep d) ≡ number_in (text_of file)
unfolding read_current
read_crashed keep d file e settled =
    ap (λ (f : Option Written). number_in (text_of (on_file (torn keep) f))) e
    ∙ ap (λ (f : Option Written). number_in (text_of f)) (torn-IsSettled keep file settled)

-- However many of the five steps of write_current are done when the machine stops, and however
-- much of what is not synced is lost, read_current gives what it gave before, as long as the
-- rename is not done, or the new number, once it is; read_current behind a whole write_current
-- gives the new number, and CURRENT is then on disk as a whole. The number is of 64 bits, the
-- CURRENT before was on disk as a whole or not there, and a rename is one step.
pub write_current_atomic :
    (d : Files) (n : FileNumber) (done keep : ℕ)
    → IsU64 n
    → IsSettled d.current
    → (((done < 5)
          × (read_current (crash keep (run_steps (take done (write_steps n)) d)) ≡ read_current d))
        ⊎ ((5 ≤ done)
            × (read_current (crash keep (run_steps (take done (write_steps n)) d)) ≡ ok n)))
      × (read_current (write_current n d) ≡ ok n)
      × IsSettled (write_current n d).current
unfolding read_current write_current write_steps
write_current_atomic d n done keep fits settled = (
  elim (current_after d n done) [
    | inl (early, same) ↦
        inl (
          early,
          read_crashed keep (run_steps (take done (write_steps n)) d) d.current same settled,
        )
    | inr (late, new) ↦ inr (
      late,
      read_crashed keep (run_steps (take done (write_steps n)) d) (some (new_file n)) new refl
          ∙ number_in-line n fits,
    )
  ],
  number_in-line n fits,
  refl,
)
