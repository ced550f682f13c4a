-- ===== src/Plan/Order/Fuel.antt =====
-- Enough fuel: each level of the search marks a package of the graph that was unseen.
use pafio_nightly.Prelude.{
  ℕ, zero, suc, ◌≤◌, ◌<◌, Bool, true, false, List, [], ◌∷◌, map, length, Text, text_eq, ok, arith,
  ◌≡◌, ◌≢◌, refl, sym, ◌∙◌, ap, inl, inr, Bool-cases,
}
use pafio_nightly.Prelude.Sort.{sort_by}
use pafio_nightly.Prelude.Marks.{unmarked, unmarked_bound, unmarked_less, unmarked_strict}
use pafio_nightly.Prelude.Runs.{
  Run, out_of_fuel, run, follow-eq-out_of_fuel, run-eq-back, run-returns,
}
use pafio_nightly.Lockfile.{itself}
use pafio_nightly.Manifest.Parse.{contains_text}
use pafio_nightly.Resolve.Graph.{Node}
use pafio_nightly.Resolve.Roots.{ResolvedGraphResult, node_id}
use pafio_nightly.Plan.Order.{
  VisitState, unseen, active, done, Visits, no_visits, state_of, require_package_by_id, begin_visit,
  visit_each, visit_unseen, visit_package, build_package_order,
}
use pafio_nightly.Plan.Order.Precede.{
  Keeps, IsOrdered, Orders, visit_package-Orders, begin_visit-IsOrdered, begin_visit-keeps, begun,
  no_visits-IsOrdered, VisitState-cases,
}

abbrev is_seen : VisitState → Bool
is_seen unseen = false
is_seen active = true
is_seen done = true

abbrev seen : Visits → Text → Bool
seen visits id = is_seen (state_of id visits)

keeps_seen :
    {before after : Visits}
    → Keeps before after
    → (id : Text) → seen before id ≡ true
    → seen after id ≡ true
keeps_seen {before} {after} k id h = elim (VisitState-cases (state_of id before)) [
  | inl u ↦ cc (sym h ∙ ap is_seen u)
  | inr (inl a) ↦ ap is_seen (k.keeps_active id a)
  | inr (inr d) ↦ ap is_seen (k.keeps_done id d)
]

known_id :
    (packages : List Node) (id : Text) {found : Node}
    → require_package_by_id packages id ≡ ok found
    → contains_text (map node_id packages) id ≡ true
unfolding require_package_by_id
known_id [] id h = cc
known_id (p ∷ rest) id h = elim (Bool-cases (text_eq p.id id)) [
  | inl e ↦ rw e refl
  | inr e ↦ rw e (known_id rest id (rw e at h))
]

length-map : (packages : List Node) → length (map node_id packages) ≡ length packages
length-map [] = refl
length-map (p ∷ rest) = ap suc (length-map rest)

module _ (packages : List Node) where
  abbrev left : Visits → ℕ
  left visits = unmarked (seen visits) (map node_id packages)

  left_less : {before after : Visits} → Keeps before after → left after ≤ left before
  left_less {before} {after} k =
      unmarked_less (seen before) (seen after) (keeps_seen k) (map node_id packages)

  abbrev Answers : (Text → Visits → Run Visits) → ℕ → Type 0
  Answers visit n =
      (id : Text) (before : Visits)
      → IsOrdered packages before
      → left before < n
      → visit id before ≢ out_of_fuel

  visit_each-Answers :
      (visit : Text → Visits → Run Visits) (n : ℕ)
      → Orders packages visit
      → Answers visit n
      → (ids : List Text) (before : Visits) → IsOrdered packages before
      → left before < n
      → visit_each visit ids before ≢ out_of_fuel
  unfolding visit_each
  visit_each-Answers visit n orders answers [] before o lt h = cc
  visit_each-Answers visit n orders answers (id ∷ rest) before o lt h =
      elim (follow-eq-out_of_fuel (visit id before) _ h) [
        | inl e ↦ answers id before o lt e
        | inr (next, e, h1) ↦
            let (o1, (k, d)) = orders id before next o e in
            let less = left_less k in
            visit_each-Answers visit n orders answers rest next o1 (omega (arith, less, lt)) h1
      ]

  visit_unseen-Answers :
      (visit : Text → Visits → Run Visits) (n : ℕ)
      → Orders packages visit
      → Answers visit n
      → (id : Text) (before : Visits) → state_of id before ≡ unseen
      → IsOrdered packages before
      → left before < suc n
      → visit_unseen packages visit id before ≢ out_of_fuel
  unfolding visit_unseen
  visit_unseen-Answers visit n orders answers id before u o lt h =
      elim (follow-eq-out_of_fuel (run (require_package_by_id packages id)) _ h) [
        | inl e ↦ run-returns _ e
        | inr (found, e, h1) ↦
            let less =
              unmarked_strict (seen before) (seen (begin_visit id before))
                (keeps_seen (begin_visit-keeps packages id before u)) (map node_id packages) id
                (known_id packages id (run-eq-back _ e)) (ap is_seen u)
                (ap is_seen (begun id before)) in
            elim (follow-eq-out_of_fuel
              (visit_each visit found.dependencies (begin_visit id before)) _ h1) [
                | inl e1 ↦
                    visit_each-Answers visit n orders answers found.dependencies
                      (begin_visit id before) (begin_visit-IsOrdered packages id before u o)
                      (omega (arith, less, lt)) e1
                | inr (next, e1, h2) ↦ cc h2
              ]
      ]

  visit_package-Answers : (fuel : ℕ) → Answers (visit_package packages fuel) fuel
  unfolding visit_package
  visit_package-Answers zero id before o lt h = absurd (omega (arith, lt))
  visit_package-Answers (suc fuel) id before o lt h = elim (VisitState-cases (state_of id before)) [
    | inl u ↦
        visit_unseen-Answers (visit_package packages fuel) fuel (visit_package-Orders packages fuel)
          (visit_package-Answers fuel) id before u o lt (rw (visit_package, u) at h)
    | inr (inl a) ↦ cc (rw (visit_package, a) at h)
    | inr (inr d) ↦ cc (rw (visit_package, d) at h)
  ]

-- `BuildPackageOrder` comes to an end: with more fuel than the graph has packages it is not out of
-- fuel, whatever the dependencies are, cycles and unknown ids included.
pub build_package_order-returns :
    (fuel : ℕ) (graph : ResolvedGraphResult)
    → length graph.packages < fuel
    → build_package_order fuel graph ≢ out_of_fuel
unfolding build_package_order
build_package_order-returns fuel graph lt h =
    let ids = map node_id graph.packages in
    let bound = unmarked_bound (seen no_visits) ids in
    let same = length-map graph.packages in
    elim (follow-eq-out_of_fuel
      (visit_each (visit_package graph.packages fuel) (sort_by itself ids) no_visits) _ h) [
        | inl e ↦
            visit_each-Answers graph.packages (visit_package graph.packages fuel) fuel
              (visit_package-Orders graph.packages fuel) (visit_package-Answers graph.packages fuel)
              (sort_by itself ids) no_visits (no_visits-IsOrdered graph.packages)
              (omega (arith, bound, same, lt)) e
        | inr (after, e, h1) ↦ cc h1
      ]
