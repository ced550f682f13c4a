-- ===== src/Registry/Paths/PackageNames.antt =====
-- The scan of a registry package name against the pattern of ContractLexicon.
use pafio_nightly.Prelude.{
  ℕ, Bool, true, false, ◌&&◌, ◌||◌, Option, none, some, [], ◌∷◌, ◌==◌, Text, cut, has_byte, all,
  arith, ◌≡◌, refl, is_ok, Bool-cases, inl, inr, ◌∙◌, sym,
}
use pafio_nightly.Lexicon.{
  once, star, regex_match, is_package_name, is_lower_or_digit, is_name_byte,
}
use pafio_nightly.Registry.Paths.{is_safe_package_segment, parts_of, split_registry_package_name}

-- a star at the end of a pattern
match_star : (p : ℕ → Bool) (s : Text) → regex_match (star p ∷ []) s ≡ all p s
unfolding regex_match
match_star p [] = refl
match_star p (c ∷ s) = ground (arith, match_star p s)

all-name_byte :
    (s : Text) → all (λ ch. is_lower_or_digit ch || ch == b'-' || ch == b'_') s ≡ all is_name_byte s
unfolding is_name_byte
all-name_byte [] = refl
all-name_byte (c ∷ s) = ground (arith, all-name_byte s)

match_segment_cons :
    (c : ℕ) (s : Text)
    → regex_match (once is_lower_or_digit ∷ star is_name_byte ∷ []) (c ∷ s)
      ≡ (is_lower_or_digit c && all is_name_byte s)
unfolding regex_match
match_segment_cons c s = rw (match_star is_name_byte s)

and_parts : (a b : Bool) → (a && b) ≡ true → (a ≡ true) × (b ≡ true)
and_parts a b h = ground arith

slash-not_name : (c : ℕ) → (c == b'/') ≡ true → is_name_byte c ≡ false
unfolding is_name_byte
slash-not_name c h = ground arith

slash-not_first : (c : ℕ) → (c == b'/') ≡ true → is_lower_or_digit c ≡ false
unfolding is_lower_or_digit
slash-not_first c h = ground arith

first-name_byte : (c : ℕ) → is_lower_or_digit c ≡ true → is_name_byte c ≡ true
unfolding is_name_byte
first-name_byte c h = ground arith

name_bytes-no_slash : (s : Text) → all is_name_byte s ≡ true → has_byte b'/' s ≡ false
unfolding has_byte
name_bytes-no_slash [] h = refl
name_bytes-no_slash (c ∷ s) h = ground (arith, slash-not_name c, name_bytes-no_slash s)

segment_cons :
    (c : ℕ) (s : Text)
    → is_safe_package_segment (c ∷ s) ≡ (is_lower_or_digit c && all is_name_byte s)
unfolding is_safe_package_segment
segment_cons c s = ground (arith, all-name_byte (c ∷ s), first-name_byte c)

segment-no_slash : (s : Text) → is_safe_package_segment s ≡ true → has_byte b'/' s ≡ false
segment-no_slash [] h = unfold has_byte in refl
segment-no_slash (c ∷ s) h =
    let parts = and_parts (is_lower_or_digit c) (all is_name_byte s) (rw segment_cons at h) in
    name_bytes-no_slash (c ∷ s) (rw (first-name_byte c parts.0) parts.1)

match_segment :
    (s : Text)
    → regex_match (once is_lower_or_digit ∷ star is_name_byte ∷ []) s ≡ is_safe_package_segment s
match_segment [] = unfold regex_match is_safe_package_segment in refl
match_segment (c ∷ s) = match_segment_cons c s ∙ sym (segment_cons c s)

abbrev halves : Option (Text × Text) → Bool
halves none = false
halves (some (name, rest)) = all is_name_byte name && is_safe_package_segment rest

or_false : (b : Bool) → (b || false) ≡ b
or_false b = ground arith

and_halves :
    (c : ℕ) (o : Option (Text × Text))
    → (is_name_byte c && halves o)
      ≡ halves (elim o [ none ↦ none | some (name, rest) ↦ some (c ∷ name, rest) ])
and_halves c o = ground arith

match_halves :
    (s : Text)
    → regex_match
        (star is_name_byte
          ∷ once (λ c. c == b'/')
          ∷ once is_lower_or_digit
          ∷ star is_name_byte
          ∷ [])
        s
      ≡ halves (cut b'/' s)
unfolding regex_match cut
match_halves [] = refl
match_halves (c ∷ s) = elim (Bool-cases (c == b'/')) [
  | inl e ↦ rw (e, slash-not_name c e, match_segment s) (or_false (is_safe_package_segment s))
  | inr e ↦ rw (e, match_halves s) (and_halves c (cut b'/' s))
]

abbrev pub both_safe : Option (Text × Text) → Bool
both_safe none = false
both_safe (some (name, rest)) = is_safe_package_segment name && is_safe_package_segment rest

first_halves :
    (c : ℕ) (o : Option (Text × Text))
    → (is_lower_or_digit c && halves o)
      ≡ both_safe (elim o [ none ↦ none | some (name, rest) ↦ some (c ∷ name, rest) ])
first_halves c none = ground arith
first_halves c (some (name, rest)) = rw segment_cons (ground arith)

-- A name matches the pattern when the texts before and behind its first slash are both safe.
pub package_name-cut : (s : Text) → is_package_name s ≡ both_safe (cut b'/' s)
unfolding is_package_name cut
package_name-cut [] = refl
package_name-cut (c ∷ s) = rw (match_halves s) (elim (Bool-cases (c == b'/')) [
  | inl e ↦ rw (e, slash-not_first c e) (unfold is_safe_package_segment in refl)
  | inr e ↦ rw e (first_halves c (cut b'/' s))
])

both_safe-split : (o : Option (Text × Text)) → is_ok (parts_of o) ≡ both_safe o
both_safe-split none = refl
both_safe-split (some (name, rest)) = elim (Bool-cases (is_safe_package_segment rest)) [
  | inl e ↦ rw (segment-no_slash rest e, e) (ground arith)
  | inr e ↦ rw e (ground arith)
]

-- The registry's scanner accepts exactly the names that match the pattern of the manifest's names.
pub split_registry_package_name-accepts :
    (name : Text) → is_ok (split_registry_package_name name) ≡ is_package_name name
unfolding split_registry_package_name
split_registry_package_name-accepts name =
    both_safe-split (cut b'/' name) ∙ sym (package_name-cut name)
