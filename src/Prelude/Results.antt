-- ===== src/Prelude/Results.antt =====
-- Exceptions as values: the class that is thrown (PafioCore/Errors.hpp, `SyncError`, `LockHeldError`, and the
-- standard `std::runtime_error` and `std::logic_error`), and the fixed words of its message.
use Prim.Native.String.{String}
use mathlib.Core.Path.{◌≡◌, refl}
use mathlib.Core.Logic.{◌⊎◌, inl, inr}
use mathlib.Core.Bool.{Bool, true, false}
use mathlib.Core.List.{List, [], ◌∷◌}

pub data ErrorKind : Type 0 where
  validation workspace resolution fetch cache pack publish vendor plan : ErrorKind
  sync runtime logic lock_held : ErrorKind

pub data Result {ℓ} (A : Type ℓ) : Type ℓ where
  ok : A → Result A
  err : ErrorKind → String → Result A

module _ {ℓ κ} {A : Type ℓ} {B : Type κ} where
  infixl 5 ◌>>=◌
  -- what follows a call that did not throw
  abbrev pub ◌>>=◌ : Result A → (A → Result B) → Result B
  (ok value) >>= next = next value
  (err kind message) >>= next = err kind message

  -- A block that returns has a first call that returned.
  pub >>=-eq-ok :
      (first : Result A) (next : A → Result B) {result : B}
      → (first >>= next) ≡ ok result
      → (value : A) × (first ≡ ok value) × (next value ≡ ok result)
  >>=-eq-ok (ok value) next e = (value, refl, e)
  >>=-eq-ok (err kind message) next e = cc

infixl 5 ◌>>◌
-- a call that returns nothing, and what follows it
abbrev pub ◌>>◌ {κ} : {B : Type κ} → Result (Unit {0}) → Result B → Result B
check >> rest = check >>= λ _. rest

-- `if (!test) throw …;`
abbrev pub require : Bool → ErrorKind → String → Result (Unit {0})
require true k e = ok tt
require false k e = err k e

abbrev pub is_ok {ℓ} : {A : Type ℓ} → Result A → Bool
is_ok (ok a) = true
is_ok (err k e) = false

pub ok_injective {ℓ} : {A : Type ℓ} {a b : A} → ok a ≡ ok b → a ≡ b
ok_injective h = cc

pub require-eq-ok {ℓ} :
    {B : Type ℓ} (t : Bool) (k : ErrorKind) (e : String) (m : Result B) {b : B}
    → (require t k e >> m) ≡ ok b
    → (t ≡ true) × (m ≡ ok b)
require-eq-ok true k e m h = (refl, h)
require-eq-ok false k e m h = cc

pub require-ok :
    (t : Bool) (k : ErrorKind) (e : String) {u : Unit {0}} → require t k e ≡ ok u → t ≡ true
require-ok true k e h = refl
require-ok false k e h = cc

pub Result-cases {ℓ} :
    {A : Type ℓ} (r : Result A)
    → ((a : A) × (r ≡ ok a)) ⊎ ((k : ErrorKind) × (e : String) × (r ≡ err k e))
Result-cases (ok a) = inl (a, refl)
Result-cases (err k e) = inr (k, e, refl)

-- a loop that throws at the first element that fails
unfoldable pub map_result {ℓ κ} :
    {A : Type ℓ} {B : Type κ} → (A → Result B) → List A → Result (List B)
map_result f [] = ok []
map_result f (x ∷ xs) = do y ← f x; ys ← map_result f xs; ok (y ∷ ys)

unfoldable pub each {ℓ} : {A : Type ℓ} → (A → Result (Unit {0})) → List A → Result (Unit {0})
each f [] = ok tt
each f (x ∷ xs) = do f x; each f xs
