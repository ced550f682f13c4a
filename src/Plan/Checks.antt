-- ===== src/Plan/Checks.antt =====
-- CompilePlan.cpp: what a plan requires of the request and of the packages, and its profile.
pub mod Uniform
use pafio_nightly.Prelude.{
  ℕ, Bool, true, false, not, ◌&&◌, ◌||◌, List, [], ◌∷◌, ◌++◌, if◌then◌else◌, Text, text, text_eq,
  Result, ok, err, plan, require, each, ◌>>=◌, ◌>>◌,
}
use pafio_nightly.Prelude.Runs.{Run, back, run, follow}
use pafio_nightly.Resolve.{Machine}
use pafio_nightly.Resolve.Graph.{Node}
use pafio_nightly.Resolve.Roots.{ResolvedGraphResult}
use pafio_nightly.Plan.Order.{build_package_order}
use pafio_nightly.Plan.Entry.{
  BuildPlanRequest, SelectedTarget, resolve_entry_package, resolve_entry_target,
}

unfoldable pub validate_intent : Text → Result (Unit {0})
validate_intent intent =
    require
      (text_eq intent (text "check")
        || text_eq intent (text "build")
        || text_eq intent (text "run")
        || text_eq intent (text "test"))
      plan "unsupported compile-plan intent"

pub record ProfileConfig : Type 0 where
  pub name : Text
  pub opt_level : ℕ
  pub debug : Bool
  pub lto : Bool

unfoldable pub resolve_profile : Text → Result ProfileConfig
resolve_profile profile_name =
    if text_eq profile_name (text "dev")
    then ok (record { name = text "dev"; opt_level = 0; debug = true; lto = false })
    else if text_eq profile_name (text "release")
    then ok (record { name = text "release"; opt_level = 3; debug = false; lto = true })
    else err plan "unsupported build profile"

abbrev pub same_flag : Bool → Bool → Bool
same_flag true b = b
same_flag false b = not b

-- one round of the loop over the packages
unfoldable pub require_uniform : Node → Node → Result (Unit {0})
require_uniform baseline p = do
  require (text_eq p.pkg.edition baseline.pkg.edition) plan "requires a uniform package.edition"
  require (same_flag p.pkg.build.implicit_std baseline.pkg.build.implicit_std) plan
      "requires a uniform [build].implicit-std"

abbrev pub uniform_packages : List Node → Result (Unit {0})
uniform_packages [] = err plan "requires at least one resolved package"
uniform_packages (baseline ∷ rest) = each (require_uniform baseline) (baseline ∷ rest)

unfoldable pub validate_uniform_build_config : ResolvedGraphResult → Result (Unit {0})
validate_uniform_build_config graph = uniform_packages graph.packages

unfoldable pub build_std_package_id : Node → Text → Text
build_std_package_id entry_package compiler_channel =
    (if entry_package.pkg.build.implicit_std
      then text "builtin:std@"
      else text "builtin:std-disabled@")
    ++ (compiler_channel ++ (b'/' ∷ entry_package.pkg.edition))

-- what `WriteBuildCompilePlan` has found out before it reads the sources
pub record PlanSelection : Type 0 where
  pub entry_package : Node
  pub entry_target : SelectedTarget
  pub profile : ProfileConfig
  pub package_order : List Text

-- `WriteBuildCompilePlan` of a graph, from `ValidateIntent` to `BuildPackageOrder`
unfoldable pub select_plan :
    Machine → (Text → Bool) → ℕ → BuildPlanRequest → ResolvedGraphResult → Run PlanSelection
select_plan machine is_directory fuel request graph =
    follow (run (validate_intent request.intent)) λ _.
      follow (run (validate_uniform_build_config graph)) λ _.
        follow (run (resolve_entry_package request graph)) λ p.
          follow (run (resolve_entry_target machine is_directory request p)) λ target.
            follow (run (resolve_profile request.profile)) λ profile.
              follow (build_package_order fuel graph) λ order. back (record {
                entry_package = p;
                entry_target = target;
                profile = profile;
                package_order = order;
              })
