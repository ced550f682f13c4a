-- ===== src/FilePath/Join.antt =====
-- Paths that are rows of plain names: what they split into, and that they are in normal form.
use pafio_nightly.Prelude.{
  ℕ, Bool, true, false, List, [], ◌∷◌, ◌++◌, ◌==◌, Text, has_byte, split_lines, All, arith, ◌≡◌,
  refl, ap, ◌∙◌, append_assoc, append-nil, Bool-cases, inl, inr, ◌≢◌, push_byte, ==_iff,
}
use pafio_nightly.FilePath.{
  last_is, join, is_file_name, normal_components, lexically_normal, render, is_absolute,
}

-- no component holds the separator
abbrev pub NoSlash : Text → Type 0
NoSlash s = has_byte b'/' s ≡ false

-- A text without separators, a separator and a rest split into the text and the rest's parts.
split-separator :
    (x s : Text) → NoSlash x → split_lines b'/' (x ++ (b'/' ∷ s)) ≡ x ∷ split_lines b'/' s
unfolding split_lines has_byte
split-separator [] s h = refl
split-separator (a ∷ x) s h = ground (arith, split-separator x s)

split-name : (x : Text) → x ≢ [] → NoSlash x → split_lines b'/' x ≡ x ∷ []
unfolding split_lines has_byte
split-name [] ne h = absurd (ne refl)
split-name (a ∷ []) ne h = ground arith
split-name (a ∷ b ∷ x) ne h = ground (arith, split-name (b ∷ x))

abbrev IsNonEmpty : List Text → Type 0
IsNonEmpty [] = ⊥
IsNonEmpty (_ ∷ _) = Unit

split_nonempty : (a : ℕ) (s : Text) → IsNonEmpty (split_lines b'/' (a ∷ s))
unfolding split_lines
split_nonempty a s = elim (Bool-cases (a == b'/')) [
  | inl e ↦ rw e tt
  | inr e ↦ rw e (pushed (split_lines b'/' s))
]
  where
    pushed : (l : List Text) → IsNonEmpty (push_byte a l)
    pushed [] = tt
    pushed (x ∷ r) = tt

join_cons_empty : (l : List Text) → IsNonEmpty l → join ([] ∷ l) ≡ b'/' ∷ join l
unfolding join
join_cons_empty [] h = elim h [ ]
join_cons_empty (x ∷ r) h = refl

join-push_byte : (a : ℕ) (l : List Text) → IsNonEmpty l → join (push_byte a l) ≡ a ∷ join l
unfolding join
join-push_byte a [] h = elim h [ ]
join-push_byte a (x ∷ []) h = refl
join-push_byte a (x ∷ y ∷ r) h = refl

pub join-split : (s : Text) → last_is b'/' s ≡ false → join (split_lines b'/' s) ≡ s
unfolding split_lines last_is
join-split [] h = unfold join in refl
join-split (a ∷ []) h = unfold join in ground arith
join-split (a ∷ b ∷ s) h =
    let ih = join-split (b ∷ s) h in
    let full = split_nonempty b s in
    let rest = split_lines b'/' (b ∷ s) in
    elim (Bool-cases (a == b'/')) [
      | inl e ↦ rw e (join_cons_empty rest full ∙ cc (ih, (==_iff a b'/').0 e))
      | inr e ↦ rw e (join-push_byte a rest full ∙ cc ih)
    ]

-- a name without separators, as it can stand in a row
abbrev pub IsSegment : Text → Type 0
IsSegment x = (is_file_name x ≡ true) × NoSlash x

name-ne-nil : (x : Text) → is_file_name x ≡ true → x ≢ []
unfolding is_file_name
name-ne-nil [] h e = cc
name-ne-nil (a ∷ x) h e = cc

pub split-join :
    (x : Text) (r : List Text) → All IsSegment (x ∷ r) → split_lines b'/' (join (x ∷ r)) ≡ x ∷ r
unfolding join
split-join x [] h = split-name x (name-ne-nil x h.0.0) h.0.1
split-join x (y ∷ r) h = split-separator x (join (y ∷ r)) h.0.1 ∙ ap (◌∷◌ x) (split-join y r h.1)

-- plain names all stay
normal_components-names :
    (root : Bool) (done l : List Text)
    → All (λ x. is_file_name x ≡ true) l
    → normal_components root done false l ≡ (done ++ l, false)
unfolding normal_components
normal_components-names root done [] h = rw append-nil
normal_components-names root done (c ∷ l) h =
    rw h.0 (normal_components-names root (done ++ (c ∷ [])) l h.1 ∙ rw append_assoc)

-- A relative path of plain names, with no separator behind it, is in normal form.
pub lexically_normal-names :
    (a : ℕ) (s : Text)
    → is_absolute (a ∷ s) ≡ false
    → last_is b'/' (a ∷ s) ≡ false
    → All (λ x. is_file_name x ≡ true) (split_lines b'/' (a ∷ s))
    → lexically_normal (a ∷ s) ≡ a ∷ s
unfolding lexically_normal render
lexically_normal-names a s rel last names =
    let flat = normal_components-names false [] (split_lines b'/' (a ∷ s)) names in
    let back = join-split (a ∷ s) last in rw (rel, flat, last) (rw (append-nil, back) refl)
