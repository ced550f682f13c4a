-- ===== src/Manifest/Serialize/Fields.antt =====
-- The lines of a document can be told apart: what is written for a key determines its value and
-- what follows it.
use pafio_nightly.Prelude.{
  Text, text, List, [], ◌∷◌, ◌++◌, append_assoc, arith, ◌≡◌, ◌≢◌, refl, sym, ap, ◌∙◌,
}
use pafio_nightly.Toml.{quote_toml_string}
use pafio_nightly.Toml.BasicString.{quote_toml_string_injective}
use pafio_nightly.Manifest.Serialize.{emit_string, emit_values, emit_string_array}

pub append_cancel : (k r s : Text) → k ++ r ≡ k ++ s → r ≡ s
append_cancel [] r s e = e
append_cancel (c ∷ k) r s e = append_cancel k r s (ground arith)

pub emit_string_injective :
    (key a b r s : Text) → emit_string key a ++ r ≡ emit_string key b ++ s → (a ≡ b) × (r ≡ s)
emit_string_injective key a b r s e =
    let behind_key = append_cancel key _ _ (sym (flat a r) ∙ e ∙ flat b s) in
    let behind_sign = append_cancel (text " = ") _ _ behind_key in
    let (value, behind_value) = quote_toml_string_injective a b _ _ behind_sign in
    (value, append_cancel (b'\n' ∷ []) r s behind_value)
  where
    flat :
        (v t : Text)
        → emit_string key v ++ t ≡ key ++ (text " = " ++ (quote_toml_string v ++ (b'\n' ∷ t)))
    flat v t = unfold emit_string in rw (append_assoc, append_assoc, append_assoc) refl

-- what stands behind the first value of an array
more_values : List Text → Text
more_values [] = []
more_values (x ∷ xs) = text ", " ++ emit_values (x ∷ xs)

emit_values_cons :
    (x : Text) (xs : List Text) (t : Text)
    → emit_values (x ∷ xs) ++ t ≡ quote_toml_string x ++ (more_values xs ++ t)
unfolding emit_values more_values
emit_values_cons x [] t = refl
emit_values_cons x (y ∷ ys) t = append_assoc (quote_toml_string x) _ t

more_values_cons :
    (x : Text) (xs : List Text) (t : Text)
    → more_values (x ∷ xs) ++ t ≡ text ", " ++ (quote_toml_string x ++ (more_values xs ++ t))
unfolding more_values
more_values_cons x xs t = ap (λ k. text ", " ++ k) (emit_values_cons x xs t)

-- a quoted value is not the end of an array
not_bracket : (v l r : Text) → b']' ∷ r ≢ quote_toml_string v ++ l
unfolding quote_toml_string
not_bracket v l r e = ground arith

more_values_injective :
    (xs ys : List Text) (r s : Text)
    → more_values xs ++ (b']' ∷ r) ≡ more_values ys ++ (b']' ∷ s)
    → (xs ≡ ys) × (r ≡ s)
more_values_injective [] [] r s e = (refl, unfold more_values in ground arith)
more_values_injective [] (y ∷ ys) r s e = unfold more_values in ground arith
more_values_injective (x ∷ xs) [] r s e = unfold more_values in ground arith
more_values_injective (x ∷ xs) (y ∷ ys) r s e =
    let behind =
      append_cancel (text ", ") _ _ (sym (more_values_cons x xs _) ∙ e ∙ more_values_cons y ys _) in
    let (one, rest) = quote_toml_string_injective x y _ _ behind in
    let (more, end) = more_values_injective xs ys r s rest in (cc (one, more), end)

emit_values_injective :
    (xs ys : List Text) (r s : Text)
    → emit_values xs ++ (b']' ∷ r) ≡ emit_values ys ++ (b']' ∷ s)
    → (xs ≡ ys) × (r ≡ s)
emit_values_injective [] [] r s e = (refl, unfold emit_values in ground arith)
emit_values_injective [] (y ∷ ys) r s e =
    absurd (not_bracket y _ r (sym no_values ∙ (e ∙ emit_values_cons y ys _)))
  where
    no_values : emit_values [] ++ (b']' ∷ r) ≡ b']' ∷ r
    no_values = unfold emit_values in refl
emit_values_injective (x ∷ xs) [] r s e =
    absurd (not_bracket x _ s (sym no_values ∙ (sym e ∙ emit_values_cons x xs _)))
  where
    no_values : emit_values [] ++ (b']' ∷ s) ≡ b']' ∷ s
    no_values = unfold emit_values in refl
emit_values_injective (x ∷ xs) (y ∷ ys) r s e =
    let (one, rest) =
      quote_toml_string_injective x y _ _
        (sym (emit_values_cons x xs _) ∙ e ∙ emit_values_cons y ys _) in
    let (more, end) = more_values_injective xs ys r s rest in (cc (one, more), end)

pub emit_string_array_injective :
    (key : Text) (xs ys : List Text) (r s : Text)
    → emit_string_array key xs ++ r ≡ emit_string_array key ys ++ s
    → (xs ≡ ys) × (r ≡ s)
emit_string_array_injective key xs ys r s e =
    let behind_key = append_cancel key _ _ (sym (flat xs r) ∙ e ∙ flat ys s) in
    let behind_sign = append_cancel (text " = [") _ _ behind_key in
    let (values, rest) = emit_values_injective xs ys _ _ behind_sign in
    (values, append_cancel (b'\n' ∷ []) r s rest)
  where
    flat :
        (v : List Text) (t : Text)
        → emit_string_array key v ++ t
          ≡ key ++ (text " = [" ++ (emit_values v ++ (b']' ∷ b'\n' ∷ t)))
    flat v t = unfold emit_string_array in rw (append_assoc, append_assoc, append_assoc) refl
