-- ===== src/Prelude/Runs.antt =====
-- A run on fuel: it comes back with a value, throws, or is out of fuel.
use Prim.Native.String.{String}
use mathlib.Core.Path.{◌≡◌, refl}
use mathlib.Core.Logic.{◌⊎◌, inl, inr, ◌≢◌}
use pafio_nightly.Prelude.Results.{ErrorKind, Result, ok, err}

pub data Run {ℓ} (A : Type ℓ) : Type ℓ where
  back : A → Run A
  thrown : ErrorKind → String → Run A
  out_of_fuel : Run A

-- a call that needs no fuel
abbrev pub run {ℓ} : {A : Type ℓ} → Result A → Run A
run (ok a) = back a
run (err kind message) = thrown kind message

abbrev pub follow {ℓ κ} : {A : Type ℓ} {B : Type κ} → Run A → (A → Run B) → Run B
follow (back a) next = next a
follow (thrown kind message) next = thrown kind message
follow out_of_fuel next = out_of_fuel

pub follow-eq-back {ℓ κ} :
    {A : Type ℓ} {B : Type κ} (first : Run A) (next : A → Run B) {b : B}
    → follow first next ≡ back b
    → (a : A) × (first ≡ back a) × (next a ≡ back b)
follow-eq-back (back a) next h = (a, refl, h)
follow-eq-back (thrown k e) next h = cc
follow-eq-back out_of_fuel next h = cc

pub run-eq-back {ℓ} : {A : Type ℓ} (r : Result A) {a : A} → run r ≡ back a → r ≡ ok a
run-eq-back (ok a) h = cc
run-eq-back (err k e) h = cc

pub back_injective {ℓ} : {A : Type ℓ} {a b : A} → back a ≡ back b → a ≡ b
back_injective h = cc

-- a block that runs out of fuel does so in its first call or behind it
pub follow-eq-out_of_fuel {ℓ κ} :
    {A : Type ℓ} {B : Type κ} (first : Run A) (next : A → Run B)
    → follow first next ≡ out_of_fuel
    → (first ≡ out_of_fuel) ⊎ ((a : A) × (first ≡ back a) × (next a ≡ out_of_fuel))
follow-eq-out_of_fuel (back a) next h = inr (a, refl, h)
follow-eq-out_of_fuel (thrown k e) next h = cc
follow-eq-out_of_fuel out_of_fuel next h = inl refl

pub run-returns {ℓ} : {A : Type ℓ} (r : Result A) → run r ≢ out_of_fuel
run-returns (ok a) h = cc
run-returns (err k e) h = cc

-- behind a call that needs no fuel
pub behind_run {ℓ κ} :
    {A : Type ℓ} {B : Type κ} (r : Result A) (next : A → Run B)
    → ((a : A) → r ≡ ok a → next a ≢ out_of_fuel)
    → follow (run r) next ≢ out_of_fuel
behind_run (ok a) next h e = h a refl e
behind_run (err k e) next h e' = cc

pub Run-cases {ℓ} :
    {A : Type ℓ} (r : Run A)
    → ((a : A) × (r ≡ back a))
      ⊎ (((kind : ErrorKind) × (message : String) × (r ≡ thrown kind message)) ⊎ (r ≡ out_of_fuel))
Run-cases (back a) = inl (a, refl)
Run-cases (thrown kind message) = inr (inl (kind, message, refl))
Run-cases out_of_fuel = inr (inr refl)
