-- ===== src/Resolve/Graph.antt =====
-- Resolver.cpp: the graph that `ResolveNode` builds, depth first. A call that throws leaves no
-- state behind: the handler in `ResolveNode` takes the node off the stack and throws again, and the
-- resolver ends. The chains of ids that only go into messages are left out.
pub mod Sources
pub mod Steps
pub mod Invariant
pub mod Single
pub mod Fuel
use pafio_nightly.Prelude.{
  ℕ, zero, suc, String, Bool, true, false, not, ◌||◌, ◌&&◌, Option, none, some, List, [], ◌∷◌, ◌++◌,
  length, any, ◌==◌, if◌then◌else◌, Text, text, text_eq, Result, ok, err, ErrorKind, resolution,
  logic, ◌>>=◌,
}
use pafio_nightly.Prelude.Sort.{sort_by}
use pafio_nightly.Prelude.Runs.{Run, back, thrown, out_of_fuel, run, follow}
use pafio_nightly.FilePath.{parent_path}
use pafio_nightly.Manifest.{
  DependencySourceKind, path, git, registry, Dependency, PackageConfig, ManifestDocument,
}
use pafio_nightly.Lockfile.{itself}
use pafio_nightly.Resolve.{
  SourceKind, SourceOrigin, ManifestSelection, Machine, canonical_absolute_path,
  build_source_fingerprint, build_lock_id, collect_dependencies,
}
use pafio_nightly.Resolve.Select.{
  Resolver, Materialized, find, load_document, resolve_path_dependency, resolve_git_dependency,
  resolve_registry_dependency,
}

pub record ResolvedDependencyAlias : Type 0 where
  pub alias : Text
  pub package_id : Text

pub record Node : Type 0 where
  pub manifest_path : Text
  pub package_dir : Text
  pub pkg : PackageConfig
  pub origin : SourceOrigin
  pub source_fingerprint : Text
  pub id : Text
  pub dependencies : List Text
  pub dependency_aliases : List ResolvedDependencyAlias

pub data VisitState : Type 0 where
  active done : VisitState

-- the members of `SingleVersionResolver` that a visit changes; the newest entry of a map stands
-- first, and hides an older one of its key
pub record GraphState : Type 0 where
  pub nodes : List Node
  pub node_by_source_fingerprint : List (Text × ℕ)
  pub node_by_package_name : List (Text × ℕ)
  pub visit_state_by_index : List (ℕ × VisitState)
  pub active_stack : List ℕ
  pub materialized_registry : Materialized

abbrev pub empty_graph : GraphState
empty_graph = record {
  nodes = [];
  node_by_source_fingerprint = [];
  node_by_package_name = [];
  visit_state_by_index = [];
  active_stack = [];
  materialized_registry = [];
}

abbrev pub nth : {A : Type 0} → List A → ℕ → Option A
nth [] i = none
nth (x ∷ xs) zero = some x
nth (x ∷ xs) (suc i) = nth xs i

-- `nodes_.at(index)`
abbrev pub node_at : GraphState → ℕ → Run Node
node_at st index = elim (nth st.nodes index) [
  | none ↦ thrown logic "out of range"
  | some node ↦ back node
]

abbrev pub visit_of : ℕ → List (ℕ × VisitState) → Option VisitState
visit_of i [] = none
visit_of i ((j, v) ∷ rest) = let later = visit_of i rest in if j == i then some v else later

abbrev is_active : Option VisitState → Bool
is_active (some active) = true
is_active _ = false

-- the node is new: it is added to the vector and the maps, and visited
unfoldable pub enter_node : Node → GraphState → GraphState
enter_node node st =
    let index = length st.nodes in
    record {
      nodes = st.nodes ++ (node ∷ []);
      node_by_source_fingerprint = (node.source_fingerprint, index) ∷ st.node_by_source_fingerprint;
      node_by_package_name = (node.pkg.name, index) ∷ st.node_by_package_name;
      visit_state_by_index = (index, active) ∷ st.visit_state_by_index;
      active_stack = index ∷ st.active_stack;
      materialized_registry = st.materialized_registry;
    }

-- `std::unique` of a sorted vector
abbrev pub unique_cons : Text → List Text → List Text
unique_cons a [] = a ∷ []
unique_cons a (b ∷ rest) = if text_eq a b then b ∷ rest else a ∷ b ∷ rest

unfoldable pub unique : List Text → List Text
unfolding text_eq
unique [] = []
unique (a ∷ rest) = unique_cons a (unique rest)

abbrev pub alias_key : ResolvedDependencyAlias → Text
alias_key a = a.alias

abbrev pub pop : List ℕ → List ℕ
pop [] = []
pop (i ∷ rest) = rest

abbrev finish_node : List Text → List ResolvedDependencyAlias → Node → Node
finish_node dependencies aliases node = record node {
  dependencies = unique (sort_by itself dependencies);
  dependency_aliases = sort_by alias_key aliases;
}

abbrev finish_at : ℕ → List Text → List ResolvedDependencyAlias → List Node → List Node
finish_at index dependencies aliases [] = []
finish_at zero dependencies aliases (node ∷ rest) = finish_node dependencies aliases node ∷ rest
finish_at (suc i) dependencies aliases (node ∷ rest) = node ∷ finish_at i dependencies aliases rest

-- every dependency has been visited
unfoldable pub leave_node : ℕ → List Text → List ResolvedDependencyAlias → GraphState → GraphState
unfolding unique
leave_node index dependencies aliases st = record st {
  nodes = finish_at index dependencies aliases st.nodes;
  visit_state_by_index = (index, done) ∷ st.visit_state_by_index;
  active_stack = pop st.active_stack;
}

module _ (r : Resolver) where
  abbrev pub with_memo :
      GraphState → Result ManifestSelection → Result (ManifestSelection × GraphState)
  with_memo st selected = selected >>= λ s. ok (s, st)

  abbrev pub select_by :
      DependencySourceKind
      → Node
      → Dependency
      → GraphState
      → Result (ManifestSelection × GraphState)
  select_by path node dependency st =
      with_memo st (resolve_path_dependency r node.package_dir node.origin dependency)
  select_by git node dependency st =
      with_memo st (resolve_git_dependency r node.package_dir dependency)
  select_by registry node dependency st =
      resolve_registry_dependency r dependency st.materialized_registry >>= λ (s, memo).
      ok (s, record st { materialized_registry = memo })

  unfoldable pub select_dependency :
      Node → Dependency → GraphState → Result (ManifestSelection × GraphState)
  select_dependency node dependency st = select_by dependency.source_kind node dependency st

  -- a dependency that names a package is that package
  abbrev pub names_package : Option Text → Text → Bool
  names_package none found = true
  names_package (some expected) found = text_eq expected found

  abbrev pub Found : Type 0
  Found = List Text × List ResolvedDependencyAlias × GraphState

  abbrev add_dependency : Dependency → Node → Found → Found
  add_dependency dependency dn (ids, aliases, st) =
      (dn.id ∷ ids, record { alias = dependency.alias; package_id = dn.id } ∷ aliases, st)

  -- the node that was found for a dependency, in front of what the rest of the loop finds
  abbrev pub keep_dependency : Dependency → Node → Run Found → Run Found
  keep_dependency dependency dn rest =
      if not (names_package dependency.pkg dn.pkg.name)
      then thrown resolution "dependency expected another package"
      else follow rest λ found. back (add_dependency dependency dn found)

  -- the loop over the dependencies of the node at `index`, by a function that visits a manifest
  unfoldable pub resolve_dependencies :
      (Text → SourceOrigin → GraphState → Run (ℕ × GraphState))
      → ℕ
      → List Dependency
      → GraphState
      → Run Found
  resolve_dependencies visit index [] st = back ([], [], st)
  resolve_dependencies visit index (dependency ∷ rest) st = follow (node_at st index) λ node.
      follow (run (select_dependency node dependency st)) λ (selected, st₁).
        follow (visit selected.manifest_path selected.origin st₁) λ (found, st₂).
          follow (node_at st₂ found) λ dependency_node.
            keep_dependency dependency dependency_node (resolve_dependencies visit index rest st₂)

  abbrev pub package_of : SourceOrigin → Option PackageConfig → Result PackageConfig
  package_of origin (some p) = ok p
  package_of origin none = elim origin.kind [
    | SourceKind.workspace ↦
        err ErrorKind.workspace "workspace package manifest must define [package]"
    | _ ↦ err resolution "resolved manifest must define [package]"
  ]

  -- the manifest is loaded, and the node made of it
  unfoldable pub make_node : Text → SourceOrigin → Text → Result Node
  make_node manifest_path origin fingerprint = do
    manifest ← load_document r manifest_path
    p ← package_of origin manifest.pkg
    id ← build_lock_id origin p
    ok (record {
      manifest_path = manifest_path;
      package_dir = parent_path manifest_path;
      pkg = p;
      origin = origin;
      source_fingerprint = fingerprint;
      id = id;
      dependencies = [];
      dependency_aliases = [];
    })

  -- a node of the same package name: another version or another source is a conflict
  abbrev pub same_name : Node → ℕ → Node → GraphState → Run (ℕ × GraphState)
  same_name node index other st =
      if not (text_eq other.pkg.version node.pkg.version)
      then thrown resolution "single-version-v1 conflict for package"
      else if not (text_eq other.source_fingerprint node.source_fingerprint)
      then thrown resolution "single-version-v1 source conflict for package"
      else back (index, st)

  -- a node whose source has been seen: under way, it closes a cycle
  abbrev pub same_source : ℕ → GraphState → Run (ℕ × GraphState)
  same_source index st =
      if is_active (visit_of index st.visit_state_by_index)
      then thrown resolution "single-version-v1 requires an acyclic dependency graph"
      else back (index, st)

  unfoldable pub visit_new :
      (Text → SourceOrigin → GraphState → Run (ℕ × GraphState))
      → Node
      → GraphState
      → Run (ℕ × GraphState)
  unfolding enter_node leave_node
  visit_new visit node st =
      let index = length st.nodes in
      follow (resolve_dependencies visit index (collect_dependencies node.pkg) (enter_node node st))
        λ (ids, aliases, st'). back (index, leave_node index ids aliases st')

  unfoldable pub visit_named :
      (Text → SourceOrigin → GraphState → Run (ℕ × GraphState))
      → Node
      → GraphState
      → Run (ℕ × GraphState)
  visit_named visit node st = elim (find node.pkg.name st.node_by_package_name) [
    | some index ↦ follow (node_at st index) λ other. same_name node index other st
    | none ↦ visit_new visit node st
  ]

  unfoldable pub visit_source :
      (Text → SourceOrigin → GraphState → Run (ℕ × GraphState))
      → Text
      → SourceOrigin
      → Text
      → GraphState
      → Run (ℕ × GraphState)
  visit_source visit manifest_path origin fingerprint st =
      elim (find fingerprint st.node_by_source_fingerprint) [
        | some index ↦ same_source index st
        | none ↦
            follow (run (make_node manifest_path origin fingerprint))
              λ node. visit_named visit node st
      ]

  -- `ResolveNode`, on fuel for the depth of the recursion
  unfoldable pub resolve_node : ℕ → Text → SourceOrigin → GraphState → Run (ℕ × GraphState)
  resolve_node zero manifest_path origin st = out_of_fuel
  resolve_node (suc fuel) manifest_path origin st =
      let normal = canonical_absolute_path r.machine manifest_path in
      follow (run (build_source_fingerprint r.machine origin (parent_path normal)))
        λ fingerprint. visit_source (resolve_node fuel) normal origin fingerprint st
