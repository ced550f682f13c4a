-- ===== src/Plan/Entry/Root.antt =====
-- The package that `ResolveEntryPackage` returns is a root, and the one that is asked for.
use mathlib.Core.Path.{subst}
use pafio_nightly.Prelude.{
  true, Option, none, some, List, [], ◌∷◌, Text, text_eq, text_eq_iff, text_eq_refl, Result, ok,
  plan, require-eq-ok, >>=-eq-ok, ok_injective, map_result, All, All-perm, arith, ◌≡◌, refl, sym,
  ap, ◌∙◌, inl, inr, ◌⊎◌, Bool-cases,
}
use pafio_nightly.Prelude.Sort.{sort_by-members}
use pafio_nightly.Manifest.Parse.{contains_text}
use pafio_nightly.Resolve.Graph.{Node}
use pafio_nightly.Resolve.Roots.{ResolvedGraphResult, node_id}
use pafio_nightly.Plan.Order.{require_package_by_id}
use pafio_nightly.Plan.Entry.{
  BuildPlanRequest, collect_root_packages, first_named, active_root, only_root, choose_root,
  resolve_entry_package,
}

found_id :
    (packages : List Node) (id : Text) {p : Node}
    → require_package_by_id packages id ≡ ok p
    → p.id ≡ id
unfolding require_package_by_id
found_id [] id h = cc
found_id (q ∷ rest) id h = elim (Bool-cases (text_eq q.id id)) [
  | inl e ↦ subst (λ n. n.id ≡ id) (ok_injective (rw e at h)) ((text_eq_iff q.id id).0 e)
  | inr e ↦ found_id rest id (rw e at h)
]

-- a package of the graph whose id is one of the roots'
abbrev pub IsRoot : ResolvedGraphResult → Node → Type 0
IsRoot graph p =
    (contains_text graph.root_ids p.id ≡ true) × (require_package_by_id graph.packages p.id ≡ ok p)

-- The package of the name that is asked for. Without a name, that of the active manifest, or the
-- only root.
abbrev pub Wanted : Option Text → ResolvedGraphResult → Node → Type 0
Wanted (some name) graph p = p.pkg.name ≡ name
Wanted none graph p =
    (p.manifest_path ≡ graph.manifest_path) ⊎ (collect_root_packages graph ≡ ok (p ∷ []))

module _ (graph : ResolvedGraphResult) where
  roots_of :
      (ids : List Text) {roots : List Node}
      → ((x : Text) → contains_text ids x ≡ true → contains_text graph.root_ids x ≡ true)
      → map_result (require_package_by_id graph.packages) ids ≡ ok roots
      → All (IsRoot graph) roots
  unfolding map_result
  roots_of [] within h = subst (All (IsRoot graph)) (ok_injective h) tt
  roots_of (id ∷ rest) within h =
      let (p, e, h1) = >>=-eq-ok (require_package_by_id graph.packages id) _ h in
      let (ps, e1, h2) = >>=-eq-ok (map_result (require_package_by_id graph.packages) rest) _ h1 in
      let same = found_id graph.packages id e in
      let here : IsRoot graph p = (
        within p.id (rw same (rw (text_eq_refl id) refl)),
        subst (λ i. require_package_by_id graph.packages i ≡ ok p) (sym same) e,
      ) in
      subst (All (IsRoot graph)) (ok_injective h2)
        (here, roots_of rest (λ x m. within x (ground (arith, m))) e1)

  collect_root_packages-IsRoot :
      {roots : List Node} → collect_root_packages graph ≡ ok roots → All (IsRoot graph) roots
  unfolding collect_root_packages
  collect_root_packages-IsRoot h =
      let (found, e, h1) =
        >>=-eq-ok (map_result (require_package_by_id graph.packages) graph.root_ids) _ h in
      subst (All (IsRoot graph)) (ok_injective h1) (
        All-perm (IsRoot graph) (sort_by-members node_id found)
          (roots_of graph.root_ids (λ x m. m) e))

  first_named-IsRoot :
      (name : Text) (roots : List Node) {p : Node}
      → All (IsRoot graph) roots
      → first_named name roots ≡ ok p
      → IsRoot graph p × (p.pkg.name ≡ name)
  unfolding first_named
  first_named-IsRoot name [] held h = cc
  first_named-IsRoot name (q ∷ rest) held h = elim (Bool-cases (text_eq q.pkg.name name)) [
    | inl e ↦
        subst (λ n. IsRoot graph n × (n.pkg.name ≡ name)) (ok_injective (rw e at h))
          (held.0, (text_eq_iff q.pkg.name name).0 e)
    | inr e ↦ first_named-IsRoot name rest held.1 (rw e at h)
  ]

  active_root-IsRoot :
      (path : Text) (otherwise : Result Node) (roots : List Node) {p : Node}
      → All (IsRoot graph) roots
      → active_root path otherwise roots ≡ ok p
      → (IsRoot graph p × (p.manifest_path ≡ path)) ⊎ (otherwise ≡ ok p)
  unfolding active_root
  active_root-IsRoot path otherwise [] held h = inr h
  active_root-IsRoot path otherwise (q ∷ rest) held h =
      elim (Bool-cases (text_eq q.manifest_path path)) [
        | inl e ↦ inl (
            subst (λ n. IsRoot graph n × (n.manifest_path ≡ path)) (ok_injective (rw e at h))
              (held.0, (text_eq_iff q.manifest_path path).0 e))
        | inr e ↦ active_root-IsRoot path otherwise rest held.1 (rw e at h)
      ]

  only_root-is : (roots : List Node) {p : Node} → only_root roots ≡ ok p → roots ≡ p ∷ []
  only_root-is [] h = cc
  only_root-is (q ∷ []) h = rw (ok_injective h) refl
  only_root-is (q ∷ other ∷ rest) h = cc

  choose_root-Wanted :
      (name : Option Text) (roots : List Node) {p : Node}
      → collect_root_packages graph ≡ ok roots
      → choose_root name graph.manifest_path roots ≡ ok p
      → IsRoot graph p × Wanted name graph p
  choose_root-Wanted (some name) roots c h =
      first_named-IsRoot name roots (collect_root_packages-IsRoot c) h
  choose_root-Wanted none roots {p} c h =
      let held = collect_root_packages-IsRoot c in
      elim (active_root-IsRoot graph.manifest_path (only_root roots) roots held h) [
        | inl (root, at) ↦ (root, inl at)
        | inr only ↦
            let single = only_root-is roots only in
            ((subst (All (IsRoot graph)) single held).0, inr (c ∙ ap ok single))
      ]

-- The package that `ResolveEntryPackage` returns is a root of the graph: the one whose name is
-- asked for, or without a name that of the active manifest or the only root.
pub resolve_entry_package-Wanted :
    (request : BuildPlanRequest) (graph : ResolvedGraphResult) (p : Node)
    → resolve_entry_package request graph ≡ ok p
    → IsRoot graph p × Wanted request.package_name graph p
unfolding resolve_entry_package
resolve_entry_package-Wanted request graph p h =
    let (roots, c, h1) = >>=-eq-ok (collect_root_packages graph) _ h in
    let (_, h2) =
      require-eq-ok _ plan "compile-plan generation requires at least one root package" _ h1 in
    choose_root-Wanted graph request.package_name roots c h2
