-- ===== src/Workflow/Same.antt =====
-- What an operation leaves of the files: the same, others at one or two paths, or what a predicate
-- says where it throws.
use pafio_nightly.Prelude.{
  false, Option, ◌≡◌, refl, ap, sym, ◌∙◌, inl, inr, ◌⊎◌, Text, text_eq, text_eq_iff, Bool-cases,
  Result, ok, err,
}
use pafio_nightly.Prelude.Runs.{Run, back, thrown, out_of_fuel, run}
use pafio_nightly.Manifest.{Files}
use pafio_nightly.Workflow.Effects.{
  WriteOutcome, refused, unsynchronized, written, Effect, proceed, put,
}

-- the same files
abbrev pub Same : Files → Files → Type 0
Same files later = (path : Text) → later path ≡ files path

pub put_self :
    (files : Files) (path : Text) (content : Option Text)
    → files path ≡ content
    → Same files (put files path content)
put_self files path content e other = elim (Bool-cases (text_eq path other)) [
  | inl same ↦ rw same (sym e ∙ ap files ((text_eq_iff path other).0 same))
  | inr differs ↦ rw differs
]

pub put-Same :
    {files later : Files} (path : Text) (content : Option Text)
    → Same files later
    → Same (put files path content) (put later path content)
put-Same path content same other = rw (same other)

pub Same-trans :
    {files middle later : Files} → Same files middle → Same middle later → Same files later
Same-trans p q path = q path ∙ p path

-- nothing is another but at most two of the files
abbrev pub AtMost : Text → Text → Files → Files → Type 0
AtMost first second files later =
    (path : Text)
    → text_eq first path ≡ false
    → text_eq second path ≡ false
    → later path ≡ files path

pub put_second :
    (first second : Text) (content : Option Text) (files later : Files)
    → AtMost first second files later
    → AtMost first second files (put later second content)
put_second first second content files later h path p q = rw q (h path p q)

-- two files that are another, with their content put back
pub both_back :
    (first second : Text) (a b : Option Text) (files later : Files)
    → files first ≡ a
    → files second ≡ b
    → AtMost first second files later
    → Same files (put (put later first a) second b)
both_back first second a b files later at_first at_second h path =
    elim (Bool-cases (text_eq second path)) [
      | inl same ↦ rw same (sym at_second ∙ ap files ((text_eq_iff second path).0 same))
      | inr q ↦ elim (Bool-cases (text_eq first path)) [
        | inl same ↦ rw (q, same) (sym at_first ∙ ap files ((text_eq_iff first path).0 same))
        | inr p ↦ rw (q, p) (h path p q)
      ]
    ]

pub WriteOutcome-cases : (o : WriteOutcome) → (o ≡ refused) ⊎ ((o ≡ unsynchronized) ⊎ (o ≡ written))
WriteOutcome-cases refused = inl refl
WriteOutcome-cases unsynchronized = inr (inl refl)
WriteOutcome-cases written = inr (inr refl)

-- where an exception is thrown, the files are such
abbrev pub Leaves : {A : Type 0} → (Files → Type 0) → Run A × Files → Type 0
Leaves Q (back value, later) = Unit
Leaves Q (thrown kind message, later) = Q later
Leaves Q (out_of_fuel, later) = Unit

abbrev pub Safe : {A : Type 0} → Files → Run A × Files → Type 0
Safe files p = Leaves (Same files) p

pub Leaves-pure :
    {A B : Type 0} (Q : Files → Type 0) (files : Files) (r : Result A) (next : A → Effect B)
    → Q files
    → ((a : A) → r ≡ ok a → Leaves Q (next a files))
    → Leaves Q (proceed (run r, files) next)
Leaves-pure Q files (ok a) next q h = h a refl
Leaves-pure Q files (err kind message) next q h = q

pub Safe-pure :
    {A B : Type 0} (files : Files) (r : Result A) (next : A → Effect B)
    → ((a : A) → r ≡ ok a → Safe files (next a files))
    → Safe files (proceed (run r, files) next)
Safe-pure files r next h = Leaves-pure (Same files) files r next (λ path. refl) h

pub pure-eq-back :
    {A B : Type 0} (files : Files) (r : Result A) (next : A → Effect B) {b : B} {out : Files}
    → proceed (run r, files) next ≡ (back b, out)
    → (a : A) × (r ≡ ok a) × (next a files ≡ (back b, out))
pure-eq-back files (ok a) next h = (a, refl, h)
pure-eq-back files (err kind message) next h = cc

pub Safe-of_Same : {A : Type 0} (files : Files) (p : Run A × Files) → Same files p.1 → Safe files p
Safe-of_Same files (back value, later) h = tt
Safe-of_Same files (thrown kind message, later) h = h
Safe-of_Same files (out_of_fuel, later) h = tt
