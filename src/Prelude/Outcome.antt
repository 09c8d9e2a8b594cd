-- ===== src/Prelude/Outcome.antt =====
-- src/error.rs: `MulanError` and `Result`. The texts that an error carries are left out: nothing
-- in the program reads them. `panic` is no value of the source: it stands for a Rust panic, such
-- as an index out of range.
use mathlib.Core.Path.{◌≡◌, refl}
use mathlib.Core.Logic.{◌⊎◌, inl, inr}
use mathlib.Core.Option.{Option, none, some}

pub data MulanError : Type 0 where
  not_found invalid_argument corrupted io not_supported : MulanError

pub data Result {ℓ} (A : Type ℓ) : Type ℓ where
  ok : A → Result A
  err : MulanError → Result A
  panic : Result A

-- The `?` operator.
infixl 5 ◌>>=◌
abbrev pub ◌>>=◌ {ℓ ℓ'} : {T : Type ℓ} {U : Type ℓ'} → Result T → (T → Result U) → Result U
panic >>= next = panic
err e >>= next = err e
ok value >>= next = next value

-- `option.ok_or(e)`
abbrev pub ok_or {ℓ} : {A : Type ℓ} → Option A → MulanError → Result A
ok_or none e = err e
ok_or (some a) e = ok a

-- What stood before the `?` of a computation that succeeded.
pub >>=-eq-ok {ℓ ℓ'} :
    {T : Type ℓ} {U : Type ℓ'} (first : Result T) (next : T → Result U) {last : U}
    → (first >>= next) ≡ ok last
    → (value : T) × (first ≡ ok value) × (next value ≡ ok last)
>>=-eq-ok (err e) next done = cc
>>=-eq-ok panic next done = cc
>>=-eq-ok (ok value) next done = (value, refl, done)

pub Result-cases {ℓ} :
    {T : Type ℓ} (result : Result T)
    → ((value : T) × (result ≡ ok value))
      ⊎ (((e : MulanError) × (result ≡ err e)) ⊎ (result ≡ panic))
Result-cases (ok value) = inl (value, refl)
Result-cases (err e) = inr (inl (e, refl))
Result-cases panic = inr (inr refl)
