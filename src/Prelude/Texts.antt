-- ===== src/Prelude/Texts.antt =====
-- `std::string` as the list of its bytes, with the operations that the sources call. The order is
-- that of `operator<`: byte by byte, as unsigned numbers.
use Prim.Native.Nat.{ℕ}
use Prim.Native.Char.{code}
use Prim.Native.String.{String}
use mathlib.Core.Path.{◌≡◌, refl}
use mathlib.Core.Logic.{◌↔◌}
use mathlib.Core.Bool.{Bool, true, false, ◌&&◌, ◌||◌}
use mathlib.Core.Option.{Option, none, some}
use mathlib.Core.List.{List, [], ◌∷◌, reverse}
use native.Mathlib.Omega.{arith}
use pafio_nightly.Prelude.Tests.{ltb, ◌==◌, if◌then◌else◌}

abbrev pub Text : Type 0
Text = List ℕ

-- the bytes of an ASCII literal
abbrev pub text : String → Text
text String.[] = []
text (String.◌∷◌ c s) = code c ∷ text s

unfoldable pub text_eq : Text → Text → Bool
text_eq [] [] = true
text_eq (a ∷ s) (b ∷ t) = a == b && text_eq s t
text_eq _ _ = false

unfoldable pub text_ltb : Text → Text → Bool
text_ltb [] [] = false
text_ltb [] (b ∷ t) = true
text_ltb (a ∷ s) [] = false
text_ltb (a ∷ s) (b ∷ t) = ltb a b || (a == b && text_ltb s t)

-- `value.starts_with(prefix)`
unfoldable pub starts_with : Text → Text → Bool
starts_with s [] = true
starts_with [] (b ∷ t) = false
starts_with (a ∷ s) (b ∷ t) = a == b && starts_with s t

-- `value.ends_with(suffix)`
unfoldable pub ends_with : Text → Text → Bool
unfolding starts_with
ends_with s t = starts_with (reverse s) (reverse t)

-- `value.find(c) != npos`
unfoldable pub has_byte : ℕ → Text → Bool
has_byte c [] = false
has_byte c (a ∷ s) = a == c || has_byte c s

-- what stands before the first `c`, and behind it, if there is one: `find` with both `substr`s
unfoldable pub cut : ℕ → Text → Option (Text × Text)
cut c [] = none
cut c (a ∷ s) =
    let rest = cut c s in
    if a == c
    then some ([], s)
    else elim rest [ none ↦ none | some (before, behind) ↦ some (a ∷ before, behind) ]

-- the text before the first `c`, or all of it: `substr` up to a `find`, `npos` included
unfoldable pub before : ℕ → Text → Text
before c [] = []
before c (a ∷ s) = let rest = before c s in if a == c then [] else a ∷ rest

unfoldable pub drop_text : Text → Text → Text
drop_text [] s = s
drop_text (b ∷ t) [] = []
drop_text (b ∷ t) (a ∷ s) = drop_text t s

-- the text behind the first occurrence of `needle`, if there is one
unfoldable pub behind_text : Text → Text → Option Text
unfolding starts_with drop_text
behind_text needle [] = none
behind_text needle (a ∷ s) =
    let rest = behind_text needle s in
    if starts_with (a ∷ s) needle then some (drop_text needle (a ∷ s)) else rest

-- the loop `while (!s.empty() && p(s.back())) s.pop_back();`
unfoldable pub strip_back : (ℕ → Bool) → Text → Text
unfolding text_eq
strip_back p [] = []
strip_back p (a ∷ s) = let rest = strip_back p s in if p a && text_eq rest [] then [] else a ∷ rest

abbrev pub push_byte : ℕ → List Text → List Text
push_byte a [] = (a ∷ []) ∷ []
push_byte a (l ∷ ls) = (a ∷ l) ∷ ls

-- `std::getline(stream, part, c)` until it fails: a last part that is empty is not returned
unfoldable pub split_lines : ℕ → Text → List Text
split_lines c [] = []
split_lines c (a ∷ s) = let rest = split_lines c s in if a == c then [] ∷ rest else push_byte a rest

pub text_eq_iff : (s t : Text) → (text_eq s t ≡ true) ↔ (s ≡ t)
unfolding text_eq
text_eq_iff (x ∷ a) (y ∷ b) = ground (arith, text_eq_iff a b)
text_eq_iff _ _ = ground arith

pub text_eq_refl : (s : Text) → text_eq s s ≡ true
text_eq_refl s = (text_eq_iff s s).1 refl

pub text_ltb_irrefl : (s : Text) → text_ltb s s ≡ false
unfolding text_ltb
text_ltb_irrefl [] = refl
text_ltb_irrefl (a ∷ s) = ground (arith, text_ltb_irrefl s)

pub text_ltb_trans :
    (s t u : Text) → text_ltb s t ≡ true → text_ltb t u ≡ true → text_ltb s u ≡ true
unfolding text_ltb
text_ltb_trans (x ∷ s) (y ∷ t) (z ∷ u) p q = ground (arith, text_ltb_trans s t u)
text_ltb_trans _ _ _ p q = ground arith

pub text_ltb_total : (s t : Text) → text_ltb s t ≡ false → text_ltb t s ≡ false → s ≡ t
unfolding text_ltb
text_ltb_total (x ∷ s) (y ∷ t) p q = ground (arith, text_ltb_total s t)
text_ltb_total _ _ p q = ground arith
