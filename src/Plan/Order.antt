-- ===== src/Plan/Order.antt =====
-- CompilePlan.cpp: `BuildPackageOrder`, the order in which the packages of a graph are compiled.
pub mod Precede
pub mod Fuel
use pafio_nightly.Prelude.{
  ℕ, zero, suc, Option, none, some, List, [], ◌∷◌, ◌++◌, map, if◌then◌else◌, Text, text_eq, Result,
  ok, err, plan,
}
use pafio_nightly.Prelude.Sort.{sort_by}
use pafio_nightly.Prelude.Runs.{Run, back, thrown, out_of_fuel, run, follow}
use pafio_nightly.Lockfile.{itself}
use pafio_nightly.Resolve.Graph.{Node}
use pafio_nightly.Resolve.Roots.{ResolvedGraphResult, node_id}

pub data VisitState : Type 0 where
  unseen active done : VisitState

-- `packages_by_id.find`: `emplace` keeps the first package of an id
unfoldable pub require_package_by_id : List Node → Text → Result Node
require_package_by_id [] package_id = err plan "resolver graph references unknown package id"
require_package_by_id (p ∷ rest) package_id =
    let later = require_package_by_id rest package_id in
    if text_eq p.id package_id then ok p else later

-- What a visit changes. The newest entry of the map stands first, and hides an older one of its
-- key. The stack has the newest id first.
pub record Visits : Type 0 where
  pub visit_state : List (Text × VisitState)
  pub stack : List Text
  pub order : List Text

abbrev pub no_visits : Visits
no_visits = record { visit_state = []; stack = []; order = [] }

-- `visit_state[package_id]`, which is `kUnseen` where there is no entry
abbrev pub look_up : Text → List (Text × VisitState) → VisitState
look_up package_id [] = unseen
look_up package_id ((id, state) ∷ rest) =
    let later = look_up package_id rest in if text_eq id package_id then state else later

abbrev pub state_of : Text → Visits → VisitState
state_of package_id visits = look_up package_id visits.visit_state

abbrev pub tail_of : List Text → List Text
tail_of [] = []
tail_of (id ∷ rest) = rest

unfoldable pub begin_visit : Text → Visits → Visits
begin_visit package_id visits = record visits {
  visit_state = (package_id, active) ∷ visits.visit_state;
  stack = package_id ∷ visits.stack;
}

unfoldable pub end_visit : Text → Visits → Visits
end_visit package_id visits = record {
  visit_state = (package_id, done) ∷ visits.visit_state;
  stack = tail_of visits.stack;
  order = visits.order ++ (package_id ∷ []);
}

-- a loop of visits
unfoldable pub visit_each : (Text → Visits → Run Visits) → List Text → Visits → Run Visits
visit_each visit [] visits = back visits
visit_each visit (id ∷ rest) visits = follow (visit id visits) λ next. visit_each visit rest next

module _ (packages : List Node) where
  -- the visit of an id that is unseen
  unfoldable pub visit_unseen : (Text → Visits → Run Visits) → Text → Visits → Run Visits
  visit_unseen visit package_id visits =
      follow (run (require_package_by_id packages package_id)) λ found.
        follow (visit_each visit found.dependencies (begin_visit package_id visits))
          λ next. back (end_visit package_id next)

  -- the lambda `visit`, on fuel for its depth; the ids of the cycle only go into the message
  unfoldable pub visit_package : ℕ → Text → Visits → Run Visits
  visit_package zero package_id visits = out_of_fuel
  visit_package (suc fuel) package_id visits = elim (state_of package_id visits) [
    | done ↦ back visits
    | active ↦ thrown plan "compile-plan requires an acyclic package graph"
    | unseen ↦ visit_unseen (visit_package fuel) package_id visits
  ]

unfoldable pub build_package_order : ℕ → ResolvedGraphResult → Run (List Text)
build_package_order fuel graph =
    follow
      (visit_each (visit_package graph.packages fuel) (sort_by itself (map node_id graph.packages))
        no_visits)
      λ visits. back visits.order
