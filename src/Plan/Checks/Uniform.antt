-- ===== src/Plan/Checks/Uniform.antt =====
-- A plan that goes through is for packages of one edition, and its entry stands in its order.
use mathlib.Core.Path.{subst}
use pafio_nightly.Prelude.{
  ℕ, Bool, true, false, List, [], ◌∷◌, Text, text_eq, text_eq_iff, ok, plan, require-eq-ok,
  require-ok, >>=-eq-ok, each, All, ◌≡◌, refl, sym, ◌∙◌, ok_injective, inl, inr, Bool-cases,
}
use pafio_nightly.Prelude.Runs.{back, run, follow-eq-back, run-eq-back, back_injective}
use pafio_nightly.Manifest.Parse.{contains_text}
use pafio_nightly.Resolve.{Machine}
use pafio_nightly.Resolve.Graph.{Node}
use pafio_nightly.Resolve.Roots.{ResolvedGraphResult}
use pafio_nightly.Plan.Order.{require_package_by_id, build_package_order}
use pafio_nightly.Plan.Order.Precede.{build_package_order-precedes}
use pafio_nightly.Plan.Entry.{BuildPlanRequest, resolve_entry_package, resolve_entry_target}
use pafio_nightly.Plan.Entry.Root.{resolve_entry_package-Wanted}
use pafio_nightly.Plan.Entry.Chosen.{IsTarget, resolve_entry_target-Asked}
use pafio_nightly.Plan.Checks.{
  validate_intent, resolve_profile, same_flag, require_uniform, uniform_packages,
  validate_uniform_build_config, PlanSelection, select_plan,
}

same_flag_equal : (a b : Bool) → same_flag a b ≡ true → a ≡ b
same_flag_equal true b h = sym h
same_flag_equal false true h = cc
same_flag_equal false false h = refl

abbrev pub IsLike : Node → Node → Type 0
IsLike baseline p =
    (p.pkg.edition ≡ baseline.pkg.edition)
    × (p.pkg.build.implicit_std ≡ baseline.pkg.build.implicit_std)

require_uniform-IsLike :
    (baseline p : Node) {u : Unit {0}} → require_uniform baseline p ≡ ok u → IsLike baseline p
unfolding require_uniform
require_uniform-IsLike baseline p h =
    let (edition, h1) = require-eq-ok _ plan "requires a uniform package.edition" _ h in
    let std = require-ok _ plan "requires a uniform [build].implicit-std" h1 in
    ((text_eq_iff p.pkg.edition baseline.pkg.edition).0 edition, same_flag_equal _ _ std)

each-IsLike :
    (baseline : Node) (packages : List Node) {u : Unit {0}}
    → each (require_uniform baseline) packages ≡ ok u
    → All (IsLike baseline) packages
unfolding each
each-IsLike baseline [] h = tt
each-IsLike baseline (p ∷ rest) h =
    let (v, e, h1) = >>=-eq-ok (require_uniform baseline p) _ h in
    (require_uniform-IsLike baseline p e, each-IsLike baseline rest h1)

contains_member :
    (order : List Text) (packages : List Node) (id : Text) {p : Node}
    → All (λ (q : Node). contains_text order q.id ≡ true) packages
    → require_package_by_id packages id ≡ ok p
    → contains_text order id ≡ true
unfolding require_package_by_id
contains_member order [] id all_in h = cc
contains_member order (q ∷ rest) id all_in h = elim (Bool-cases (text_eq q.id id)) [
  | inl e ↦ subst (λ i. contains_text order i ≡ true) ((text_eq_iff q.id id).0 e) all_in.0
  | inr e ↦ contains_member order rest id all_in.1 (rw e at h)
]

found-IsLike :
    (baseline : Node) (packages : List Node) (id : Text) {p : Node}
    → All (IsLike baseline) packages
    → require_package_by_id packages id ≡ ok p
    → IsLike baseline p
unfolding require_package_by_id
found-IsLike baseline [] id like h = cc
found-IsLike baseline (q ∷ rest) id like h = elim (Bool-cases (text_eq q.id id)) [
  | inl e ↦ subst (IsLike baseline) (ok_injective (rw e at h)) like.0
  | inr e ↦ found-IsLike baseline rest id like.1 (rw e at h)
]

rebase :
    (baseline p : Node)
    → IsLike baseline p
    → (packages : List Node) → All (IsLike baseline) packages
    → All (IsLike p) packages
rebase baseline p mine [] like = tt
rebase baseline p mine (q ∷ rest) like =
    ((like.0.0 ∙ sym mine.0, like.0.1 ∙ sym mine.1), rebase baseline p mine rest like.1)

all-IsLike :
    (p : Node) (packages : List Node) (id : Text) {u : Unit {0}}
    → uniform_packages packages ≡ ok u
    → require_package_by_id packages id ≡ ok p
    → All (IsLike p) packages
all-IsLike p [] id h e = cc
all-IsLike p (baseline ∷ rest) id h e =
    let like = each-IsLike baseline (baseline ∷ rest) h in
    let mine = found-IsLike baseline (baseline ∷ rest) id like e in
    rebase baseline p mine (baseline ∷ rest) like

-- What is selected for a plan: a package of the graph like which all others are in edition and
-- implicit standard library, with a place in the order, and a target that it declares.
pub record IsSound (machine : Machine) (is_directory : Text → Bool) (graph : ResolvedGraphResult)
    (s : PlanSelection) : Type 0 where
  pub is_uniform : All (IsLike s.entry_package) graph.packages
  pub is_ordered : contains_text s.package_order s.entry_package.id ≡ true
  pub has_target : IsTarget machine is_directory s.entry_package s.entry_target

-- When `WriteBuildCompilePlan` gets past its checks, all packages have the edition and the implicit
-- standard library of the entry package, which stands in the order, and whose target is there.
pub select_plan-IsSound :
    (machine : Machine) (is_directory : Text → Bool) (fuel : ℕ) (request : BuildPlanRequest)
    (graph : ResolvedGraphResult) (s : PlanSelection)
    → select_plan machine is_directory fuel request graph ≡ back s
    → IsSound machine is_directory graph s
unfolding select_plan validate_uniform_build_config
select_plan-IsSound machine is_directory fuel request graph s h =
    let (_, _, h1) = follow-eq-back (run (validate_intent request.intent)) _ h in
    let (_, u, h2) = follow-eq-back (run (validate_uniform_build_config graph)) _ h1 in
    let (p, e, h3) = follow-eq-back (run (resolve_entry_package request graph)) _ h2 in
    let (t, te, h4) =
      follow-eq-back (run (resolve_entry_target machine is_directory request p)) _ h3 in
    let (pr, _, h5) = follow-eq-back (run (resolve_profile request.profile)) _ h4 in
    let (order, oe, h6) = follow-eq-back (build_package_order fuel graph) _ h5 in
    let found = (resolve_entry_package-Wanted request graph p (run-eq-back _ e)).0.1 in
    subst (IsSound machine is_directory graph) (back_injective h6) (record {
      is_uniform = all-IsLike p graph.packages p.id (run-eq-back _ u) found;
      is_ordered =
          contains_member order graph.packages p.id
            (build_package_order-precedes fuel graph order oe).1 found;
      has_target =
          (resolve_entry_target-Asked machine is_directory request p t (run-eq-back _ te)).0;
    })
