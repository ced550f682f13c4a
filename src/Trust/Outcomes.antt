-- ===== src/Trust/Outcomes.antt =====
-- TufVerifier.cpp: what a check comes to. `Fail` records a code and a message and throws; other
-- exceptions pass through it.
use pafio_nightly.Prelude.{String, Bool, true, false, Option, none, some, ◌≡◌, refl}

-- `thrown` is a std::runtime_error that no call of `Fail` raised, `escaped` an exception of
-- another class, such as json::type_error, which the verifier does not catch.
pub data Outcome {ℓ} (A : Type ℓ) : Type ℓ where
  done : A → Outcome A
  refused : String → String → Outcome A
  thrown : Outcome A
  escaped : Outcome A

infixl 5 ◌>>=◌ ◌>>◌
abbrev pub ◌>>=◌ {ℓ κ} : {A : Type ℓ} {B : Type κ} → Outcome A → (A → Outcome B) → Outcome B
(done value) >>= next = next value
(refused code message) >>= next = refused code message
thrown >>= next = thrown
escaped >>= next = escaped

abbrev pub ◌>>◌ {κ} : {B : Type κ} → Outcome (Unit {0}) → Outcome B → Outcome B
check >> rest = check >>= λ _. rest

-- `if (!test) Fail(…);`
abbrev pub unless : Bool → String → String → Outcome (Unit {0})
unless true code message = done tt
unless false code message = refused code message

abbrev pub or_fail {ℓ} : {A : Type ℓ} → String → String → Option A → Outcome A
or_fail code message none = refused code message
or_fail code message (some value) = done value

pub done_injective {ℓ} : {A : Type ℓ} {a b : A} → done a ≡ done b → a ≡ b
done_injective h = cc

pub bind-eq-done {ℓ κ} :
    {A : Type ℓ} {B : Type κ} (first : Outcome A) (next : A → Outcome B) {b : B}
    → (first >>= next) ≡ done b
    → (a : A) × (first ≡ done a) × (next a ≡ done b)
bind-eq-done (done a) next h = (a, refl, h)
bind-eq-done (refused code message) next h = cc
bind-eq-done thrown next h = cc
bind-eq-done escaped next h = cc

pub unless-eq-done {κ} :
    {B : Type κ} (test : Bool) (code message : String) (rest : Outcome B) {b : B}
    → (unless test code message >> rest) ≡ done b
    → (test ≡ true) × (rest ≡ done b)
unless-eq-done true code message rest h = (refl, h)
unless-eq-done false code message rest h = cc

pub unless-done :
    (test : Bool) (code message : String) {u : Unit {0}}
    → unless test code message ≡ done u
    → test ≡ true
unless-done true code message h = refl
unless-done false code message h = cc

pub or_fail-eq-done {ℓ} :
    {A : Type ℓ} (code message : String) (o : Option A) {a : A}
    → or_fail code message o ≡ done a
    → o ≡ some a
or_fail-eq-done code message none h = cc
or_fail-eq-done code message (some a) h = cc
