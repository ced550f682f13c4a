-- ===== src/Lexicon/Digests.antt =====
-- What the patterns of digests and commit ids accept.
use pafio_nightly.Prelude.{
  ℕ, zero, suc, Bool, ◌&&◌, [], ◌∷◌, true, Text, text, length, all, any, All, ◌==◌, ==_iff, ◌≡◌,
  ◌↔◌, refl, sym, ◌∙◌, arith,
}
use pafio_nightly.Lexicon.{times, regex_match, is_lower_hex, is_sha256_digest, is_git_commit_id}

and_left : (a b : Bool) → (a && b) ≡ true → a ≡ true
and_left a b h = ground arith

and_right : (a b : Bool) → (a && b) ≡ true → b ≡ true
and_right a b h = ground arith

and_both : {a b : Bool} → a ≡ true → b ≡ true → (a && b) ≡ true
and_both h k = ground arith

match_times :
    (n : ℕ) (p : ℕ → Bool) (s : Text) → regex_match (times n p) s ≡ length s == n && all p s
unfolding regex_match
match_times zero p [] = refl
match_times zero p (c ∷ s) = ground arith
match_times (suc n) p [] = ground arith
match_times (suc n) p (c ∷ s) = ground (arith, match_times n p s)

-- the digits of lower-case hexadecimal
abbrev pub hex_digits : Text
hex_digits = text "0123456789abcdef"

-- so many of them
abbrev pub IsLowerHex : ℕ → Text → Type 0
IsLowerHex n s = (length s ≡ n) × All (λ c. any (λ d. c == d) hex_digits ≡ true) s

hex_digit : (c : ℕ) → is_lower_hex c ≡ any (λ d. c == d) hex_digits
unfolding is_lower_hex
hex_digit c = ground arith

all_hex :
    (s : Text) → (all is_lower_hex s ≡ true) ↔ All (λ c. any (λ d. c == d) hex_digits ≡ true) s
all_hex [] = (λ h. tt, λ h. refl)
all_hex (c ∷ s) = (
  λ h. (sym (hex_digit c) ∙ and_left _ _ h, (all_hex s).0 (and_right _ _ h)),
  λ h. and_both (hex_digit c ∙ h.0) ((all_hex s).1 h.1),
)

exactly : (n : ℕ) (s : Text) → (regex_match (times n is_lower_hex) s ≡ true) ↔ IsLowerHex n s
exactly n s = (
  λ h.
      let both = sym (match_times n is_lower_hex s) ∙ h in
      ((==_iff (length s) n).0 (and_left _ _ both), (all_hex s).0 (and_right _ _ both)),
  λ h. match_times n is_lower_hex s ∙ and_both ((==_iff (length s) n).1 h.0) ((all_hex s).1 h.1),
)

-- A digest is a text of exactly 64 of the digits 0 to 9 and a to f, and a commit id one of 40.
pub is_sha256_digest_lem :
    (s : Text)
    → ((is_sha256_digest s ≡ true) ↔ IsLowerHex 64 s)
      × ((is_git_commit_id s ≡ true) ↔ IsLowerHex 40 s)
unfolding is_sha256_digest is_git_commit_id
is_sha256_digest_lem s = (exactly 64 s, exactly 40 s)
