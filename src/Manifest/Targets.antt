-- ===== src/Manifest/Targets.antt =====
-- The targets and paths that the loops of the loader accept.
use pafio_nightly.Prelude.{
  Bool, true, false, not, List, [], ◌∷◌, map, Text, Result, ok, each, ◌>>=◌, All, arith, ◌≡◌, refl,
  >>=-eq-ok, require-eq-ok, ok_injective, ap,
}
use pafio_nightly.Manifest.{BinTarget, TestTarget}
use pafio_nightly.Manifest.Rules.{is_non_empty_relative_path, validate_relative_path}
use pafio_nightly.Manifest.Parse.{bin_of, test_of}
use pafio_nightly.Manifest.Sources.{IsValidTarget, DistinctNames}

names-bins :
    (ts : List (Text × Text)) → map (λ (t : BinTarget). t.name) (map bin_of ts) ≡ map (λ t. t.0) ts
names-bins [] = refl
names-bins (t ∷ ts) = ap (◌∷◌ t.0) (names-bins ts)

names-tests :
    (ts : List (Text × Text))
    → map (λ (t : TestTarget). t.name) (map test_of ts) ≡ map (λ t. t.0) ts
names-tests [] = refl
names-tests (t ∷ ts) = ap (◌∷◌ t.0) (names-tests ts)

abbrev pub ValidPairs : List (Text × Text) → Type 0
ValidPairs = All (λ t. IsValidTarget t.0 t.1)

valid-bins :
    (ts : List (Text × Text))
    → ValidPairs ts
    → All (λ (t : BinTarget). IsValidTarget t.name t.path) (map bin_of ts)
valid-bins [] h = tt
valid-bins (t ∷ ts) h = (h.0, valid-bins ts h.1)

valid-tests :
    (ts : List (Text × Text))
    → ValidPairs ts
    → All (λ (t : TestTarget). IsValidTarget t.name t.path) (map test_of ts)
valid-tests [] h = tt
valid-tests (t ∷ ts) h = (h.0, valid-tests ts h.1)

pub negated : {b : Bool} → not b ≡ true → b ≡ false
negated h = ground arith

pub each_relative :
    (l : List Text) {u : Unit {0}}
    → each validate_relative_path l ≡ ok u
    → All (λ m. is_non_empty_relative_path m ≡ true) l
unfolding each validate_relative_path
each_relative [] h = tt
each_relative (m ∷ l) h =
    let (m_ok, rest) =
      require-eq-ok (is_non_empty_relative_path m) _ _ (each validate_relative_path l) h in
    (m_ok, each_relative l rest)

pub bins_of_targets :
    (r : Result (List (Text × Text))) {bins : List BinTarget}
    → (r >>= λ ts. ok (map bin_of ts)) ≡ ok bins
    → ((ts : List (Text × Text)) → r ≡ ok ts → ValidPairs ts × DistinctNames [] (map (λ t. t.0) ts))
    → All (λ (t : BinTarget). IsValidTarget t.name t.path) bins
      × DistinctNames [] (map (λ (t : BinTarget). t.name) bins)
bins_of_targets r h valid =
    let (ts, e, whole) = >>=-eq-ok r _ h in
    let v = valid ts e in rw (← ok_injective whole) (valid-bins ts v.0, rw names-bins v.1)

pub tests_of_targets :
    (r : Result (List (Text × Text))) {tests : List TestTarget}
    → (r >>= λ ts. ok (map test_of ts)) ≡ ok tests
    → ((ts : List (Text × Text)) → r ≡ ok ts → ValidPairs ts × DistinctNames [] (map (λ t. t.0) ts))
    → All (λ (t : TestTarget). IsValidTarget t.name t.path) tests
      × DistinctNames [] (map (λ (t : TestTarget). t.name) tests)
tests_of_targets r h valid =
    let (ts, e, whole) = >>=-eq-ok r _ h in
    let v = valid ts e in rw (← ok_injective whole) (valid-tests ts v.0, rw names-tests v.1)
