-- ===== src/Prelude/Int.antt =====
-- `int` as a signed number: the values that the code reads and compares.
use Prim.Native.Nat.{ℕ, ◌≤◌}
use mathlib.Core.Path.{◌≡◌}
use mathlib.Core.Bool.{Bool, true, false}
use native.Mathlib.Omega.{arith}
use pafio_nightly.Prelude.Tests.{ltb}

-- `negsuc n` is -(n + 1).
pub data ℤ : Type 0 where
  pos : ℕ → ℤ
  negsuc : ℕ → ℤ

-- `a < b`
abbrev pub int_ltb : ℤ → ℤ → Bool
int_ltb (pos a) (pos b) = ltb a b
int_ltb (pos a) (negsuc b) = false
int_ltb (negsuc a) (pos b) = true
int_ltb (negsuc a) (negsuc b) = ltb b a

abbrev pub ◌≤ℤ◌ : ℤ → ℤ → Type 0

infix 50 ◌≤ℤ◌
pos a ≤ℤ pos b = a ≤ b
pos a ≤ℤ negsuc b = ⊥
negsuc a ≤ℤ pos b = Unit
negsuc a ≤ℤ negsuc b = b ≤ a

pub le_of_not_lt : (a b : ℤ) → int_ltb a b ≡ false → b ≤ℤ a
le_of_not_lt (pos a) (pos b) h = ground arith
le_of_not_lt (pos a) (negsuc b) h = tt
le_of_not_lt (negsuc a) (pos b) h = cc
le_of_not_lt (negsuc a) (negsuc b) h = ground arith

pub ≤ℤ_trans : (a b c : ℤ) → a ≤ℤ b → b ≤ℤ c → a ≤ℤ c
≤ℤ_trans (pos a) (pos b) (pos c) p q = omega arith
≤ℤ_trans (pos a) (pos b) (negsuc c) p q = q
≤ℤ_trans (pos a) (negsuc b) c p q = absurd p
≤ℤ_trans (negsuc a) b (pos c) p q = tt
≤ℤ_trans (negsuc a) (pos b) (negsuc c) p q = absurd q
≤ℤ_trans (negsuc a) (negsuc b) (negsuc c) p q = omega arith

-- `std::max`
abbrev pub max_int : ℤ → ℤ → ℤ
max_int a b = elim (int_ltb a b) [ true ↦ b | false ↦ a ]
