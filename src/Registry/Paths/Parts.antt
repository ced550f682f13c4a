-- ===== src/Registry/Paths/Parts.antt =====
-- The parts of an object path, and what splitting and joining keeps.
use pafio_nightly.Prelude.{
  ℕ, Bool, true, false, ◌||◌, List, [], ◌∷◌, ◌++◌, ◌==◌, ltb, Text, has_byte, split_lines, any, All,
  arith, ◌≡◌, refl, Bool-cases, inl, inr, ap, push_byte,
}
use pafio_nightly.FilePath.{join, is_file_name}
use pafio_nightly.FilePath.Join.{NoSlash, IsSegment}
use pafio_nightly.Registry.Paths.{is_bad_part}

abbrev pub is_control : ℕ → Bool
is_control ch = ltb ch 32

-- one part of an object path: a name, and no separator, backslash or control character in it
abbrev pub IsObjectName : Text → Type 0
IsObjectName x = IsSegment x × (has_byte b'\\' x ≡ false) × (any is_control x ≡ false)

-- a row of such parts, at least one
abbrev pub IsObjectPath : Text → Type 0
IsObjectPath p = (x : Text) × (r : List Text) × (p ≡ join (x ∷ r)) × All IsObjectName (x ∷ r)

pub has_byte-any : (c : ℕ) (s : Text) → has_byte c s ≡ any (λ a. a == c) s
unfolding has_byte
has_byte-any c [] = refl
has_byte-any c (a ∷ s) = ap (λ b. a == c || b) (has_byte-any c s)

module _ (f : ℕ → Bool) where
  abbrev pub Without : Text → Type 0
  Without x = any f x ≡ false

  push_byte-Without :
      (a : ℕ) (l : List Text) → f a ≡ false → All Without l → All Without (push_byte a l)
  push_byte-Without a [] e h = (rw e, tt)
  push_byte-Without a (x ∷ r) e h = (rw e h.0, h.1)

  -- what the text lacks, its parts lack
  pub split-Without : (s : Text) → any f s ≡ false → All Without (split_lines b'/' s)
  unfolding split_lines
  split-Without [] h = tt
  split-Without (a ∷ s) h = elim (Bool-cases (a == b'/')) [
    | inl e ↦ rw e (refl, split-Without s (ground arith))
    | inr e ↦ rw e (push_byte-Without a _ (ground arith) (split-Without s (ground arith)))
  ]

  any-append : (s t : Text) → any f s ≡ false → any f t ≡ false → any f (s ++ t) ≡ false
  any-append [] t p q = q
  any-append (a ∷ s) t p q = ground (arith, any-append s t)

  pub join-Without :
      (x : Text) (r : List Text)
      → f b'/' ≡ false
      → All Without (x ∷ r)
      → any f (join (x ∷ r)) ≡ false
  unfolding join
  join-Without x [] e h = h.0
  join-Without x (y ∷ r) e h =
      any-append x (b'/' ∷ join (y ∷ r)) h.0 (rw e (join-Without y r e h.1))

push_byte-NoSlash :
    (a : ℕ) (l : List Text) → (a == b'/') ≡ false → All NoSlash l → All NoSlash (push_byte a l)
unfolding has_byte
push_byte-NoSlash a [] e h = (rw e, tt)
push_byte-NoSlash a (x ∷ r) e h = (rw e h.0, h.1)

pub split-NoSlash : (s : Text) → All NoSlash (split_lines b'/' s)
unfolding split_lines
split-NoSlash [] = tt
split-NoSlash (a ∷ s) = elim (Bool-cases (a == b'/')) [
  | inl e ↦ rw e (unfold has_byte in refl, split-NoSlash s)
  | inr e ↦ rw e (push_byte-NoSlash a _ e (split-NoSlash s))
]

abbrev pub IsName : Text → Type 0
IsName x = is_file_name x ≡ true

pub names_of_parts : (l : List Text) → any is_bad_part l ≡ false → All IsName l
unfolding is_file_name
names_of_parts [] h = tt
names_of_parts (x ∷ l) h = (ground arith, names_of_parts l (ground arith))

pub parts_of_names : (l : List Text) → All IsName l → any is_bad_part l ≡ false
unfolding is_file_name
parts_of_names [] h = refl
parts_of_names (x ∷ l) h = ground (arith, parts_of_names l h.1)

pub object_names :
    (l : List Text)
    → All IsName l
    → All NoSlash l
    → All (λ x. any (λ a. a == b'\\') x ≡ false) l
    → All (λ x. any is_control x ≡ false) l
    → All IsObjectName l
object_names [] n s b c = tt
object_names (x ∷ l) n s b c =
    (((n.0, s.0), rw has_byte-any b.0, c.0), object_names l n.1 s.1 b.1 c.1)
