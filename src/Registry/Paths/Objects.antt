-- ===== src/Registry/Paths/Objects.antt =====
-- Which object paths a registry accepts, and that they are taken as they are written.
use pafio_nightly.Prelude.{
  ℕ, Bool, true, false, not, ◌||◌, List, [], ◌∷◌, ◌++◌, ◌==◌, Text, text, text_eq, text_eq_iff,
  has_byte, starts_with, split_lines, any, All, arith, ◌≡◌, ◌≢◌, ◌↔◌, ◌⊎◌, refl, ok, Bool-cases,
  inl, inr, ◌∙◌, sym,
}
use pafio_nightly.FilePath.{join, last_is, is_absolute, is_file_name, lexically_normal}
use pafio_nightly.FilePath.Join.{IsSegment, join-split, split-join, lexically_normal-names}
use pafio_nightly.Registry.Paths.{is_bad_part, split_posix_path, normalize_registry_object_path}
use pafio_nightly.Registry.Paths.Parts.{
  is_control, IsObjectName, IsObjectPath, has_byte-any, Without, split-Without, join-Without,
  split-NoSlash, IsName, names_of_parts, parts_of_names, object_names,
}

starts_with-eq : (s t : Text) → starts_with s t ≡ true → (r : Text) × (s ≡ t ++ r)
unfolding starts_with
starts_with-eq s [] h = (s, refl)
starts_with-eq [] (b ∷ t) h = cc
starts_with-eq (a ∷ s) (b ∷ t) h =
    let (r, e) = starts_with-eq s t (ground arith) in (r, ground (arith, e))

not_or : {a b : Bool} → not (a || b) ≡ true → (a ≡ false) × (b ≡ false)
not_or h = ground arith

abbrev escapes : Text → Bool
escapes p =
    text_eq p [] || text_eq p (text ".") || text_eq p (text "..") || starts_with p (text "../")

abbrev Bad : Text → Type 0
Bad p = (p ≡ []) ⊎ (p ≡ text ".") ⊎ (p ≡ text "..") ⊎ ((r : Text) × (p ≡ text "../" ++ r))

or_cases : (a b : Bool) → (a || b) ≡ true → (a ≡ true) ⊎ (b ≡ true)
or_cases a b h = ground arith

part_kept : (p : Text) → All IsName (split_lines b'/' p) → p ≢ [] → ¬ Bad p
unfolding split_lines is_file_name text_eq
part_kept p names ne (inl e) = ne e
part_kept p names ne (inr (inl e)) = let q = rw e at names in cc q.0
part_kept p names ne (inr (inr (inl e))) = let q = rw e at names in cc q.0
part_kept p names ne (inr (inr (inr (r, e)))) = let q = rw e at names in cc q.0

escapes-Bad : (p : Text) → escapes p ≡ true → Bad p
escapes-Bad p h = elim (or_cases _ _ h) [
  | inr e ↦ inr (inr (inr (starts_with-eq p (text "../") e)))
  | inl g ↦ elim (or_cases _ _ g) [
    | inr e ↦ inr (inr (inl ((text_eq_iff p (text "..")).0 e)))
    | inl k ↦ elim (or_cases _ _ k) [
      | inr e ↦ inr (inl ((text_eq_iff p (text ".")).0 e))
      | inl e ↦ inl ((text_eq_iff p []).0 e)
    ]
  ]
]

no_escape : (p : Text) → All IsName (split_lines b'/' p) → p ≢ [] → escapes p ≡ false
no_escape p names ne = elim (Bool-cases (escapes p)) [
  | inl e ↦ absurd (part_kept p names ne (escapes-Bad p e))
  | inr e ↦ e
]

-- what the guards of the function say of a path
abbrev Guarded : Text → Type 0
Guarded p =
    (p ≢ [])
    × (last_is b'/' p ≡ false)
    × (has_byte b'\\' p ≡ false)
    × (starts_with p (b'/' ∷ []) ≡ false)
    × (any is_control p ≡ false)
    × All IsName (split_lines b'/' p)

normal_text : (p : Text) → Guarded p → lexically_normal p ≡ p
unfolding is_absolute
normal_text [] g = absurd (g.0 refl)
normal_text (a ∷ s) g = lexically_normal-names a s g.3 g.1 g.5

not-eq_nil : (p : Text) → p ≢ [] → text_eq p [] ≡ false
not-eq_nil [] h = absurd (h refl)
not-eq_nil (a ∷ s) h = unfold text_eq in refl

accepts_clean : (p : Text) → Guarded p → normalize_registry_object_path p ≡ ok p
unfolding normalize_registry_object_path split_posix_path is_absolute
accepts_clean p g =
    rw
      (
        not-eq_nil p g.0,
        g.1,
        g.2,
        g.3,
        g.4,
        parts_of_names _ g.5,
        normal_text p g,
        no_escape p g.5 g.0,
      )
      refl

abbrev pub Tested : Text → Type 0
Tested p =
    (text_eq p [] ≡ false)
    × (last_is b'/' p ≡ false)
    × (has_byte b'\\' p ≡ false)
    × (starts_with p (b'/' ∷ []) ≡ false)
    × (any is_control p ≡ false)
    × (any is_bad_part (split_lines b'/' p) ≡ false)

pub tests_of_accepted : (p : Text) {q : Text} → normalize_registry_object_path p ≡ ok q → Tested p
unfolding normalize_registry_object_path split_posix_path is_absolute
tests_of_accepted p h = ground arith

clean_of_checks : (p : Text) → Tested p → Guarded p
unfolding text_eq
clean_of_checks p t = ((λ e. cc (rw e at t.0)), t.1, t.2, t.3, t.4, names_of_parts _ t.5)

row_of_clean : (p : Text) → Guarded p → IsObjectPath p
unfolding join
row_of_clean p g = named (split_lines b'/' p) (join-split p g.1) (
    object_names _ g.5 (split-NoSlash p)
      (split-Without (λ a. a == b'\\') p (rw has_byte-any at g.2)) (split-Without is_control p g.4))
  where
    named : (l : List Text) → join l ≡ p → All IsObjectName l → IsObjectPath p
    named [] e n = absurd (g.0 (sym e))
    named (x ∷ r) e n = (x, r, sym e, n)

last_is-append :
    (c : ℕ) (x : Text) (b : ℕ) (t : Text) → last_is c (x ++ (b ∷ t)) ≡ last_is c (b ∷ t)
unfolding last_is
last_is-append c [] b t = refl
last_is-append c (a ∷ []) b t = refl
last_is-append c (a ∷ d ∷ x) b t = last_is-append c (d ∷ x) b t

last_is-has_byte : (c : ℕ) (x : Text) → has_byte c x ≡ false → last_is c x ≡ false
unfolding last_is has_byte
last_is-has_byte c [] h = refl
last_is-has_byte c (a ∷ []) h = ground arith
last_is-has_byte c (a ∷ b ∷ x) h = last_is-has_byte c (b ∷ x) (ground arith)

-- a row of names begins with a byte that is no separator
join_first :
    (x : Text) (r : List Text)
    → All IsObjectName (x ∷ r)
    → (a : ℕ) × (s : Text) × (join (x ∷ r) ≡ a ∷ s) × ((a == b'/') ≡ false)
unfolding join is_file_name text_eq has_byte
join_first [] r h = cc h.0.0.0
join_first (a ∷ x) [] h = (a, x, refl, ground arith)
join_first (a ∷ x) (y ∷ r) h = (a, x ++ (b'/' ∷ join (y ∷ r)), refl, ground arith)

last_behind_slash :
    (t : Text)
    → (a : ℕ) × (s : Text) × (t ≡ a ∷ s) × ((a == b'/') ≡ false)
    → last_is b'/' t ≡ false
    → last_is b'/' (b'/' ∷ t) ≡ false
unfolding last_is
last_behind_slash [] w h = cc w.2
last_behind_slash (a ∷ s) w h = h

join-last :
    (x : Text) (r : List Text) → All IsObjectName (x ∷ r) → last_is b'/' (join (x ∷ r)) ≡ false
unfolding join
join-last x [] h = last_is-has_byte b'/' x h.0.0.1
join-last x (y ∷ r) h =
    last_is-append b'/' x b'/' (join (y ∷ r))
    ∙ last_behind_slash (join (y ∷ r)) (join_first y r h.1) (join-last y r h.1)

segments : (l : List Text) → All IsObjectName l → All IsSegment l
segments [] h = tt
segments (x ∷ l) h = (h.0.0, segments l h.1)

names : (l : List Text) → All IsObjectName l → All IsName l
names [] h = tt
names (x ∷ l) h = (h.0.0.0, names l h.1)

no_backslashes : (l : List Text) → All IsObjectName l → All (Without (λ a. a == b'\\')) l
no_backslashes [] h = tt
no_backslashes (x ∷ l) h = (rw has_byte-any at h.0.1, no_backslashes l h.1)

no_controls : (l : List Text) → All IsObjectName l → All (Without is_control) l
no_controls [] h = tt
no_controls (x ∷ l) h = (h.0.2, no_controls l h.1)

clean_row : (x : Text) (r : List Text) → All IsObjectName (x ∷ r) → Guarded (join (x ∷ r))
unfolding starts_with
clean_row x r h =
    let (a, s, e, no_slash) = join_first x r h in
    (
      (λ n. cc (e, n)),
      join-last x r h,
      rw has_byte-any (join-Without (λ a. a == b'\\') x r refl (no_backslashes (x ∷ r) h)),
      rw e (rw no_slash refl),
      join-Without is_control x r refl (no_controls (x ∷ r) h),
      rw (split-join x r (segments (x ∷ r) h)) (names (x ∷ r) h),
    )

-- An object path is accepted exactly when it is a row of one or more names joined by single
-- slashes, none of them empty, `.` or `..`, and none with a backslash or a control character. What
-- is returned is then the path as it was written.
pub normalize_registry_object_path_lem :
    (p q : Text) → (normalize_registry_object_path p ≡ ok q) ↔ ((q ≡ p) × IsObjectPath p)
normalize_registry_object_path_lem p q = (sound, complete)
  where
    sound : normalize_registry_object_path p ≡ ok q → (q ≡ p) × IsObjectPath p
    sound h =
        let g = clean_of_checks p (tests_of_accepted p h) in
        (cc (accepts_clean p g, h), row_of_clean p g)

    complete : (q ≡ p) × IsObjectPath p → normalize_registry_object_path p ≡ ok q
    complete (e, (x, r, f, h)) = rw (e, f) (accepts_clean (join (x ∷ r)) (clean_row x r h))
