-- ===== src/Plan/Invocations/Names.antt =====
-- The name of an invocation's directory is read as two numbers, which do not wrap around.
use mathlib.Core.Path.{subst}
use pafio_nightly.Prelude.{
  ℕ, ◌+◌, ◌-◌, ◌*◌, ◌%◌, ◌^◌, ◌≤◌, ◌<◌, true, false, some, [], ◌∷◌, ◌++◌, ltb, within, all, Text,
  text_eq, text_eq_iff, cut, arith, ◌≡◌, ◌≢◌, refl, sym, ap, ◌∙◌, inl, inr, Bool-cases,
  Option-cases, ◌==◌, ==_iff,
}
use pafio_nightly.Plan.Invocations.{max_part, decimal_part, parse_parts, parse_invocation_dir_name}

some_injective : {A : Type 0} {a b : A} → some a ≡ some b → a ≡ b
some_injective h = cc

-- the number that decimal digits write, behind those whose value is given
abbrev pub decimal : ℕ → Text → ℕ
decimal value [] = value
decimal value (c ∷ rest) = decimal (value * 10 + (c - b'0')) rest

abbrev pub IsDecimal : Text → Type 0
IsDecimal digits = all (within b'0' b'9') digits ≡ true

no_wrap :
    (value c : ℕ)
    → within b'0' b'9' c ≡ true
    → value ≤ max_part
    → (value * 10 + (c - b'0')) % 2 ^ 64 ≡ value * 10 + (c - b'0')
no_wrap value c d le = ground arith

abbrev pub max_value : ℕ
max_value = 1000000000000000009

decimal_part-exact :
    (value : ℕ) (s : Text) {n : ℕ}
    → value ≤ max_value
    → decimal_part value s ≡ some n
    → IsDecimal s × ((n ≡ decimal value s) × (n ≤ max_value))
unfolding decimal_part
decimal_part-exact value [] {n} le h =
    let same : value ≡ n = some_injective h in (refl, (sym same, omega (arith, same, le)))
decimal_part-exact value (c ∷ rest) le h = elim (Bool-cases (within b'0' b'9' c)) [
  | inr out ↦ cc (rw out at h)
  | inl digit ↦ elim (Bool-cases (ltb max_part value)) [
    | inl big ↦ cc (rw (digit, big) at h)
    | inr small ↦
        let bound : value ≤ max_part = ground (arith, small) in
        let step : value * 10 + (c - b'0') ≤ max_value = ground (arith, bound, digit) in
        let (digits, rest_of) =
          decimal_part-exact (value * 10 + (c - b'0')) rest step
            (rw (digit, small, no_wrap value c digit bound) at h) in
        (rw digit digits, rest_of)
  ]
]

decimal-grows : (value : ℕ) (s : Text) → value ≤ decimal value s
decimal-grows value [] = omega arith
decimal-grows value (c ∷ rest) = omega (arith, decimal-grows (value * 10 + (c - b'0')) rest)

decimal_part-reads :
    (value : ℕ) (s : Text)
    → IsDecimal s
    → decimal value s < 1000000000000000000
    → decimal_part value s ≡ some (decimal value s)
unfolding decimal_part
decimal_part-reads value [] d lt = refl
decimal_part-reads value (c ∷ rest) d lt =
    let digit : within b'0' b'9' c ≡ true = ground (arith, d) in
    let more : IsDecimal rest = ground (arith, d) in
    let grows = decimal-grows (value * 10 + (c - b'0')) rest in
    let bound : value ≤ max_part = omega (arith, grows, lt) in
    let small : ltb max_part value ≡ false = ground (arith, bound) in
    rw (digit, small, no_wrap value c digit bound)
      (decimal_part-reads (value * 10 + (c - b'0')) rest more lt)

cut-joins :
    (c : ℕ) (s : Text) {first second : Text}
    → cut c s ≡ some (first, second)
    → s ≡ first ++ (c ∷ second)
unfolding cut
cut-joins c [] h = cc
cut-joins c (a ∷ s) {first} {second} h = elim (Bool-cases (a == c)) [
  | inl e ↦
      let pair = some_injective (rw e at h) in
      rw ((==_iff a c).0 e) (ap (λ (p : Text × Text). p.0 ++ (c ∷ p.1)) pair)
  | inr e ↦ elim (Option-cases (cut c s)) [
    | inl none_is ↦ cc (rw (e, none_is) at h)
    | inr ((x, y), some_is) ↦
        let pair = some_injective (rw (e, some_is) at h) in
        ap (◌∷◌ a) (cut-joins c s some_is) ∙ ap (λ (p : Text × Text). p.0 ++ (c ∷ p.1)) pair
  ]
]

cut-digits :
    (first second : Text)
    → IsDecimal first
    → cut b'-' (first ++ (b'-' ∷ second)) ≡ some (first, second)
unfolding cut
cut-digits [] second d = refl
cut-digits (a ∷ first) second d =
    let more : IsDecimal first = ground (arith, d) in
    let other : (a == b'-') ≡ false = ground (arith, d) in
    rw (other, cut-digits first second more) refl

-- a name of two decimal numbers with a dash between them, and their values
pub record IsName (name : Text) (tick sequence : ℕ) : Type 0 where
  pub first : Text
  pub second : Text
  pub joined : name ≡ first ++ (b'-' ∷ second)
  pub not_empty : (first ≢ []) × (second ≢ [])
  pub digits : IsDecimal first × IsDecimal second
  pub values : (tick ≡ decimal 0 first) × (sequence ≡ decimal 0 second)
  pub bounds : (tick ≤ max_value) × (sequence ≤ max_value)

filled : (s : Text) → text_eq s [] ≡ false → s ≢ []
filled s h e = cc (sym h ∙ (text_eq_iff s []).1 e)

parse_parts-IsName :
    (name first second : Text) (tick sequence : ℕ)
    → name ≡ first ++ (b'-' ∷ second)
    → parse_parts (some (first, second)) ≡ some (tick, sequence)
    → IsName name tick sequence
parse_parts-IsName name first second tick sequence joined h = elim (Bool-cases (text_eq first [])) [
  | inl e ↦ cc (rw e at h)
  | inr f ↦ elim (Bool-cases (text_eq second [])) [
    | inl e ↦ cc (rw (f, e) at h)
    | inr g ↦ elim (Option-cases (decimal_part 0 first)) [
      | inl e ↦ cc (rw (f, g, e) at h)
      | inr (t, e1) ↦ elim (Option-cases (decimal_part 0 second)) [
        | inl e ↦ cc (rw (f, g, e1, e) at h)
        | inr (s, e2) ↦
            let pair = some_injective (rw (f, g, e1, e2) at h) in
            let (d1, (v1, b1)) = decimal_part-exact 0 first (omega arith) e1 in
            let (d2, (v2, b2)) = decimal_part-exact 0 second (omega arith) e2 in
            subst (λ (p : ℕ × ℕ). IsName name p.0 p.1) pair
              (record {
                first = first;
                second = second;
                joined = joined;
                not_empty = (filled first f, filled second g);
                digits = (d1, d2);
                values = (v1, v2);
                bounds = (b1, b2);
              })
      ]
    ]
  ]
]

-- A name that `ParseInvocationDirName` accepts is two runs of decimal digits with a dash between
-- them, and the numbers that it returns are their values: nothing wraps around at 64 bits.
pub parse_invocation_dir_name-IsName :
    (name : Text) (tick sequence : ℕ)
    → parse_invocation_dir_name name ≡ some (tick, sequence)
    → IsName name tick sequence
unfolding parse_invocation_dir_name
parse_invocation_dir_name-IsName name tick sequence h = elim (Option-cases (cut b'-' name)) [
  | inl e ↦ cc (rw e at h)
  | inr ((first, second), e) ↦
      parse_parts-IsName name first second tick sequence (cut-joins b'-' name e) (rw e at h)
]

-- Two runs of digits with a dash between them are accepted, when their values are below 10^18, and
-- read as these values.
pub parse_invocation_dir_name-reads :
    (first second : Text)
    → first ≢ []
    → second ≢ []
    → IsDecimal first
    → IsDecimal second
    → decimal 0 first < 1000000000000000000
    → decimal 0 second < 1000000000000000000
    → parse_invocation_dir_name (first ++ (b'-' ∷ second))
      ≡ some (decimal 0 first, decimal 0 second)
unfolding parse_invocation_dir_name text_eq
parse_invocation_dir_name-reads [] second f g d e l m = absurd (f refl)
parse_invocation_dir_name-reads (a ∷ first) [] f g d e l m = absurd (g refl)
parse_invocation_dir_name-reads (a ∷ first) (b ∷ second) f g d e l m =
    rw
      (
        cut-digits (a ∷ first) (b ∷ second) d,
        decimal_part-reads 0 (a ∷ first) d l,
        decimal_part-reads 0 (b ∷ second) e m,
      )
      refl
