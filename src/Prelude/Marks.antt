-- ===== src/Prelude/Marks.antt =====
-- How many names of a list are not marked yet: what bounds the depth of a search that marks names.
use mathlib.Core.Path.{◌≡◌, subst, sym}
use mathlib.Core.Logic.{inl, inr}
use mathlib.Core.Bool.{Bool, true, false}
use mathlib.Core.List.{List, [], ◌∷◌}
use native.Mathlib.Omega.{arith}
use Prim.Native.Nat.{ℕ, suc, ◌≤◌, ◌<◌}
use pafio_nightly.Prelude.Tests.{if◌then◌else◌, Bool-cases}
use pafio_nightly.Prelude.Lists.{any, length}
use pafio_nightly.Prelude.Texts.{Text, text_eq, text_eq_iff}

abbrev pub unmarked : (Text → Bool) → List Text → ℕ
unmarked marked [] = 0
unmarked marked (name ∷ rest) = let n = unmarked marked rest in if marked name then n else suc n

pub unmarked_bound :
    (marked : Text → Bool) (names : List Text) → unmarked marked names ≤ length names
unmarked_bound marked [] = omega arith
unmarked_bound marked (name ∷ rest) = ground (arith, unmarked_bound marked rest)

module _ (marked after : Text → Bool) (more : (f : Text) → marked f ≡ true → after f ≡ true) where
  pub unmarked_less : (names : List Text) → unmarked after names ≤ unmarked marked names
  unmarked_less [] = omega arith
  unmarked_less (f ∷ rest) = ground (arith, unmarked_less rest, more f)

  pub unmarked_strict :
      (names : List Text) (name : Text)
      → any (λ s. text_eq s name) names ≡ true
      → marked name ≡ false
      → after name ≡ true
      → unmarked after names < unmarked marked names
  unmarked_strict [] name c new seen = cc
  unmarked_strict (f ∷ rest) name c new seen = elim (Bool-cases (text_eq f name)) [
    | inl e ↦
        let same = (text_eq_iff f name).0 e in
        let a : marked f ≡ false = subst (λ k. marked k ≡ false) (sym same) new in
        let b : after f ≡ true = subst (λ k. after k ≡ true) (sym same) seen in
        ground (arith, unmarked_less rest, a, b)
    | inr e ↦ ground (arith, unmarked_strict rest name (rw e at c) new seen, more f)
  ]
