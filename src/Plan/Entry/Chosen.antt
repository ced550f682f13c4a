-- ===== src/Plan/Entry/Chosen.antt =====
-- The entry is a root of the graph and a target that it declares, of the kind that is asked for.
use mathlib.Core.Path.{subst}
use mathlib.Core.List.{Memᴰ}
use pafio_nightly.Prelude.{
  Bool, true, false, not, ◌&&◌, Option, none, some, List, [], ◌∷◌, Text, text, text_eq, text_eq_iff,
  ok, plan, require-ok, require-eq-ok, >>=-eq-ok, ok_injective, arith, ◌≡◌, refl, sym, ◌∙◌, inl,
  inr, Bool-cases,
}
use pafio_nightly.Manifest.{LibTarget, BinTarget, TestTarget}
use pafio_nightly.Manifest.Parse.{is_some}
use pafio_nightly.Resolve.{Machine, exists}
use pafio_nightly.Resolve.Graph.{Node}
use pafio_nightly.Plan.Entry.{
  BuildPlanRequest, SelectedTarget, absolute_target_path, require_existing_source_file, target_at,
  declared_lib, selected_lib, selected_bin, selected_test, only_test, only_bin, implied_target,
  default_target, named_target, resolve_entry_target,
}

-- a target that the manifest of the package declares, with its kind, name and path
pub data Declares (p : Node) : Text → Text → Text → Type 0 where
  lib_declared :
      (lib : LibTarget) → p.pkg.lib ≡ some lib → Declares p (text "lib") p.pkg.name lib.path
  bin_declared : (bin : BinTarget) → Memᴰ bin p.pkg.bins → Declares p (text "bin") bin.name bin.path
  test_declared :
      (test : TestTarget) → Memᴰ test p.pkg.tests → Declares p (text "test") test.name test.path

-- What a request asks of the target, by its intent, `--lib`, `--bin` and `--test`: at most one of
-- the three is given. Without any, `run` takes a binary and `test` takes a test.
abbrev pub Asked : Text → Bool → Option Text → Option Text → SelectedTarget → Type 0
Asked intent true none none target =
    (target.kind ≡ text "lib")
    × ((text_eq intent (text "run") ≡ false) × (text_eq intent (text "test") ≡ false))
Asked intent false (some name) none target = (target.kind ≡ text "bin") × (target.name ≡ name)
Asked intent false none (some name) target = (target.kind ≡ text "test") × (target.name ≡ name)
Asked intent false none none target =
    (text_eq intent (text "run") ≡ true → target.kind ≡ text "bin")
    × (text_eq intent (text "test") ≡ true → target.kind ≡ text "test")
Asked _ _ _ _ _ = ⊥

negated_flag : {b : Bool} → not b ≡ true → b ≡ false
negated_flag h = ground arith

test_is_not_run : text_eq (text "test") (text "run") ≡ false
unfolding text_eq
test_is_not_run = refl

run_is_not_test :
    (intent : Text) → text_eq intent (text "test") ≡ true → text_eq intent (text "run") ≡ true → ⊥
run_is_not_test intent a b = cc (
    sym test_is_not_run
    ∙ subst (λ i. text_eq i (text "run") ≡ true) ((text_eq_iff intent (text "test")).0 a) b)

module _ (machine : Machine) (is_directory : Text → Bool) where
  -- a target of the package, with a file that is there
  pub record IsTarget (p : Node) (target : SelectedTarget) : Type 0 where
    pub of_package : target.pkg ≡ p
    pub relative_path : Text
    pub declared : Declares p target.kind target.name relative_path
    pub at_path : target.file ≡ absolute_target_path machine is_directory p relative_path
    pub is_there : exists machine target.file ≡ true

  abbrev pub IsTargetOf : Node → Text → SelectedTarget → Type 0
  IsTargetOf p kind target = IsTarget p target × (target.kind ≡ kind)

  target_at-IsTarget :
      (p : Node) (kind name path : Text) {target : SelectedTarget}
      → Declares p kind name path
      → target_at machine is_directory p kind name path ≡ ok target
      → IsTargetOf p kind target × (target.name ≡ name)
  unfolding target_at require_existing_source_file
  target_at-IsTarget p kind name path d h =
      let (u, e, h1) = >>=-eq-ok (require_existing_source_file machine is_directory _) _ h in
      let (_, e2) = require-eq-ok _ plan "source file not found" _ e in
      subst (λ t. IsTargetOf p kind t × (t.name ≡ name)) (ok_injective h1)
        (
          (
            record {
              of_package = refl;
              relative_path = path;
              declared = d;
              at_path = refl;
              is_there = require-ok _ plan "source path is not a file" e2;
            },
            refl,
          ),
          refl,
        )

  selected_bin-IsTarget :
      (p : Node) (name : Text) (bins : List BinTarget) {target : SelectedTarget}
      → ((bin : BinTarget) → Memᴰ bin bins → Memᴰ bin p.pkg.bins)
      → selected_bin machine is_directory p name bins ≡ ok target
      → IsTargetOf p (text "bin") target × (target.name ≡ name)
  unfolding selected_bin
  selected_bin-IsTarget p name [] within h = cc
  selected_bin-IsTarget p name (bin ∷ rest) within h = elim (Bool-cases (text_eq bin.name name)) [
    | inl e ↦
        let (t, n) =
          target_at-IsTarget p (text "bin") bin.name bin.path
            (bin_declared bin (within bin (Memᴰ.head refl))) (rw e at h) in
        (t, n ∙ (text_eq_iff bin.name name).0 e)
    | inr e ↦ selected_bin-IsTarget p name rest (λ b m. within b (Memᴰ.tail m)) (rw e at h)
  ]

  selected_test-IsTarget :
      (p : Node) (name : Text) (tests : List TestTarget) {target : SelectedTarget}
      → ((test : TestTarget) → Memᴰ test tests → Memᴰ test p.pkg.tests)
      → selected_test machine is_directory p name tests ≡ ok target
      → IsTargetOf p (text "test") target × (target.name ≡ name)
  unfolding selected_test
  selected_test-IsTarget p name [] within h = cc
  selected_test-IsTarget p name (test ∷ rest) within h =
      elim (Bool-cases (text_eq test.name name)) [
        | inl e ↦
            let (t, n) =
              target_at-IsTarget p (text "test") test.name test.path
                (test_declared test (within test (Memᴰ.head refl))) (rw e at h) in
            (t, n ∙ (text_eq_iff test.name name).0 e)
        | inr e ↦ selected_test-IsTarget p name rest (λ b m. within b (Memᴰ.tail m)) (rw e at h)
      ]

  declared_lib-IsTarget :
      (p : Node) (lib : Option LibTarget) {target : SelectedTarget}
      → p.pkg.lib ≡ lib
      → declared_lib machine is_directory p lib ≡ ok target
      → IsTargetOf p (text "lib") target
  declared_lib-IsTarget p none e h = cc
  declared_lib-IsTarget p (some lib) e h =
      (target_at-IsTarget p (text "lib") p.pkg.name lib.path (lib_declared lib e) h).0

  only_bin-IsTarget :
      (p : Node) (bins : List BinTarget) {target : SelectedTarget}
      → p.pkg.bins ≡ bins
      → only_bin machine is_directory p bins ≡ ok target
      → IsTargetOf p (text "bin") target
  only_bin-IsTarget p [] e h = cc
  only_bin-IsTarget p (bin ∷ []) e h =
      (target_at-IsTarget p (text "bin") bin.name bin.path
        (bin_declared bin (subst (Memᴰ bin) (sym e) (Memᴰ.head refl))) h).0
  only_bin-IsTarget p (bin ∷ other ∷ rest) e h = cc

  only_test-IsTarget :
      (p : Node) (tests : List TestTarget) {target : SelectedTarget}
      → p.pkg.tests ≡ tests
      → only_test machine is_directory p tests ≡ ok target
      → IsTargetOf p (text "test") target
  only_test-IsTarget p [] e h = cc
  only_test-IsTarget p (test ∷ []) e h =
      (target_at-IsTarget p (text "test") test.name test.path
        (test_declared test (subst (Memᴰ test) (sym e) (Memᴰ.head refl))) h).0
  only_test-IsTarget p (test ∷ other ∷ rest) e h = cc

  implied_target-IsTarget :
      (is_check : Bool) (p : Node) (lib : Option LibTarget) (bins : List BinTarget)
      (tests : List TestTarget) {target : SelectedTarget}
      → p.pkg.lib ≡ lib
      → p.pkg.bins ≡ bins
      → p.pkg.tests ≡ tests
      → implied_target machine is_directory is_check p lib bins tests ≡ ok target
      → IsTarget p target
  implied_target-IsTarget c p (some lib) [] tests l b t h =
      (declared_lib-IsTarget p (some lib) l h).0
  implied_target-IsTarget c p (some lib) (bin ∷ rest) tests l b t h = cc
  implied_target-IsTarget c p none (bin ∷ []) tests l b t h = (only_bin-IsTarget p (bin ∷ []) b h).0
  implied_target-IsTarget c p none (bin ∷ other ∷ rest) tests l b t h = cc
  implied_target-IsTarget true p none [] (test ∷ []) l b t h =
      (only_test-IsTarget p (test ∷ []) t h).0
  implied_target-IsTarget true p none [] [] l b t h = cc
  implied_target-IsTarget true p none [] (test ∷ other ∷ rest) l b t h = cc
  implied_target-IsTarget false p none [] tests l b t h = cc

  default_target-Asked :
      (intent : Text) (p : Node) {target : SelectedTarget}
      → default_target machine is_directory intent p ≡ ok target
      → IsTarget p target × Asked intent false none none target
  unfolding default_target
  default_target-Asked intent p h = elim (Bool-cases (text_eq intent (text "test"))) [
    | inl t ↦
        let (is_target, kind) = only_test-IsTarget p p.pkg.tests refl (rw t at h) in
        (is_target, ((λ r. absurd (run_is_not_test intent t r)), (λ _. kind)))
    | inr n ↦ elim (Bool-cases (text_eq intent (text "run"))) [
      | inl r ↦
          let (is_target, kind) = only_bin-IsTarget p p.pkg.bins refl (rw (n, r) at h) in
          (is_target, ((λ _. kind), (λ t. cc (sym n ∙ t))))
      | inr m ↦ (
        implied_target-IsTarget _ p p.pkg.lib p.pkg.bins p.pkg.tests refl refl refl
            (rw (n, m) at h),
        ((λ r. cc (sym m ∙ r)), (λ t. cc (sym n ∙ t))),
      )
    ]
  ]

  named_target-Asked :
      (intent : Text) (bin_name test_name : Option Text) (p : Node) {target : SelectedTarget}
      → not (is_some bin_name && is_some test_name) ≡ true
      → named_target machine is_directory intent bin_name test_name p ≡ ok target
      → IsTarget p target × Asked intent false bin_name test_name target
  named_target-Asked intent (some name) (some other) p g h = cc
  named_target-Asked intent (some name) none p g h =
      let (t, n) = selected_bin-IsTarget p name p.pkg.bins (λ b m. m) h in (t.0, (t.1, n))
  named_target-Asked intent none (some name) p g h =
      let (t, n) = selected_test-IsTarget p name p.pkg.tests (λ b m. m) h in (t.0, (t.1, n))
  named_target-Asked intent none none p g h = default_target-Asked intent p h

  selected_lib-Asked :
      (intent : Text) (bin_name test_name : Option Text) (p : Node) {target : SelectedTarget}
      → not (is_some bin_name) ≡ true
      → not (is_some test_name) ≡ true
      → selected_lib machine is_directory intent p ≡ ok target
      → IsTarget p target × Asked intent true bin_name test_name target
  unfolding selected_lib
  selected_lib-Asked intent (some name) test_name p b t h = cc
  selected_lib-Asked intent none (some name) p b t h = cc
  selected_lib-Asked intent none none p b t h =
      let (n, h1) = require-eq-ok _ plan "run does not accept --lib" _ h in
      let (m, h2) = require-eq-ok _ plan "test does not accept --lib" _ h1 in
      let (is_target, kind) = declared_lib-IsTarget p p.pkg.lib refl h2 in
      (is_target, (kind, (negated_flag n, negated_flag m)))

  choice-Asked :
      (intent : Text) (select_lib : Bool) (bin_name test_name : Option Text) (p : Node)
      {target : SelectedTarget}
      → not (select_lib && is_some bin_name) ≡ true
      → not (select_lib && is_some test_name) ≡ true
      → not (is_some bin_name && is_some test_name) ≡ true
      → (elim select_lib [
        | true ↦ selected_lib machine is_directory intent p
        | false ↦ named_target machine is_directory intent bin_name test_name p
      ])
        ≡ ok target
      → IsTarget p target × Asked intent select_lib bin_name test_name target
  choice-Asked intent true bin_name test_name p a b c h =
      selected_lib-Asked intent bin_name test_name p a b h
  choice-Asked intent false bin_name test_name p a b c h =
      named_target-Asked intent bin_name test_name p c h

  -- A target that `ResolveEntryTarget` returns is declared by the package, with a file that is
  -- there, and is what the request asks for: the library, the binary or the test that is named, of
  -- which at most one is, and without a name a binary to `run` and a test to `test`.
  pub resolve_entry_target-Asked :
      (request : BuildPlanRequest) (p : Node) (target : SelectedTarget)
      → resolve_entry_target machine is_directory request p ≡ ok target
      → IsTarget p target
        × Asked request.intent request.select_lib request.bin_name request.test_name target
  unfolding resolve_entry_target
  resolve_entry_target-Asked request p target h =
      let (a, h1) = require-eq-ok _ plan "cannot combine --lib and --bin" _ h in
      let (b, h2) = require-eq-ok _ plan "cannot combine --lib and --test" _ h1 in
      let (c, h3) = require-eq-ok _ plan "cannot combine --bin and --test" _ h2 in
      choice-Asked request.intent request.select_lib request.bin_name request.test_name p a b c h3
