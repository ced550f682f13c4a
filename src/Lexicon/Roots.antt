-- ===== src/Lexicon/Roots.antt =====
-- What `NormalizeRegistryRoot` takes away.
use pafio_nightly.Prelude.{
  ℕ, zero, suc, true, false, ◌&&◌, [], ◌∷◌, ◌++◌, Text, text_eq, strip_back, ◌==◌, ==_iff,
  text_eq_iff, ◌⊎◌, Bool-cases, ◌≡◌, ◌↔◌, inl, inr, refl, arith, ap, ◌∙◌,
}
use pafio_nightly.FilePath.{last_is}
use pafio_nightly.Lexicon.{normalize_registry_root}

abbrev pub slashes : ℕ → Text
slashes zero = []
slashes (suc n) = b'/' ∷ slashes n

strip_slashes : (n : ℕ) → strip_back (λ c. c == b'/') (slashes n) ≡ []
unfolding strip_back text_eq
strip_slashes zero = refl
strip_slashes (suc n) = rw (strip_slashes n) refl

strip_append :
    (s : Text) (n : ℕ)
    → strip_back (λ c. c == b'/') (s ++ slashes n) ≡ strip_back (λ c. c == b'/') s
unfolding strip_back
strip_append [] n = strip_slashes n ∙ refl
strip_append (c ∷ s) n = rw (strip_append s n) refl

-- what one byte in front does to the stripped text
strip_cons :
    (c : ℕ) (s : Text)
    → ((c == b'/') ≡ true)
        × (strip_back (λ a. a == b'/') s ≡ [])
        × (strip_back (λ a. a == b'/') (c ∷ s) ≡ [])
      ⊎ ((c == b'/' && text_eq (strip_back (λ a. a == b'/') s) []) ≡ false)
        × (strip_back (λ a. a == b'/') (c ∷ s) ≡ c ∷ strip_back (λ a. a == b'/') s)
unfolding strip_back text_eq
strip_cons c s = elim (Bool-cases (c == b'/' && text_eq (strip_back (λ a. a == b'/') s) [])) [
  | inl h ↦ inl (ground arith, (text_eq_iff _ _).0 (ground arith), rw h refl)
  | inr h ↦ inr (h, rw h refl)
]

strip_parts : (s : Text) → (n : ℕ) × (s ≡ strip_back (λ c. c == b'/') s ++ slashes n)
strip_parts [] = (0, unfold strip_back in refl)
strip_parts (c ∷ s) =
    let (n, e) = strip_parts s in
    elim (strip_cons c s) [
      | inl (slash, empty, whole) ↦
          (suc n, rw whole (rw (e, empty) (ap (λ x. x ∷ slashes n) ((==_iff c b'/').0 slash))))
      | inr (_, whole) ↦ (n, rw whole (ap (λ t. c ∷ t) e))
    ]

last_is-cons :
    (c : ℕ) (t : Text)
    → (c == b'/' && text_eq t []) ≡ false
    → last_is b'/' t ≡ false
    → last_is b'/' (c ∷ t) ≡ false
unfolding last_is text_eq
last_is-cons c [] h l = ground arith
last_is-cons c (d ∷ t) h l = l

strip-last_is : (s : Text) → last_is b'/' (strip_back (λ c. c == b'/') s) ≡ false
strip-last_is [] = unfold strip_back last_is in refl
strip-last_is (c ∷ s) = elim (strip_cons c s) [
  | inl (_, _, whole) ↦ rw whole (unfold last_is in refl)
  | inr (h, whole) ↦ rw whole (last_is-cons c _ h (strip-last_is s))
]

strip_kept : (s : Text) → last_is b'/' s ≡ false → strip_back (λ c. c == b'/') s ≡ s
unfolding last_is strip_back text_eq
strip_kept [] h = refl
strip_kept (c ∷ []) h = ground arith
strip_kept (c ∷ d ∷ s) h = rw (strip_kept (d ∷ s) h) (ground arith)

-- The normalized root is the one text without a slash at its end from which the value comes by
-- slashes behind it.
pub normalize_registry_root_lem :
    (value root : Text)
    → (normalize_registry_root value ≡ root)
      ↔ ((last_is b'/' root ≡ false) × ((n : ℕ) × (value ≡ root ++ slashes n)))
unfolding normalize_registry_root
normalize_registry_root_lem value root = (
  λ e. (rw (← e) (strip-last_is value), rw (← e) (strip_parts value)),
  λ (l, (n, e)). rw e (strip_append root n ∙ strip_kept root l),
)
