-- ===== src/Tests.antt =====
-- Runs of the definitions on concrete inputs.
pub mod SampleToml
pub mod Manifests
pub mod Lockfiles
pub mod Registries
pub mod Strings
pub mod Graphs
pub mod FiniteSources
pub mod Lexicons
pub mod SampleJson
pub mod Trusts
pub mod Workflows
pub mod Plans
