-- ===== src/Manifest.antt =====
-- PafioManifest/Manifest.hpp: the data of a manifest, and the files that a command sees.
pub mod Targets
pub mod Rules
pub mod Parse
pub mod Sources
pub mod Valid
pub mod Serialize
use pafio_nightly.Prelude.{Bool, Option, List, Text}

pub data DependencySourceKind : Type 0 where
  path git registry : DependencySourceKind

pub record Dependency : Type 0 where
  pub alias : Text
  pub pkg : Option Text
  pub source_kind : DependencySourceKind
  pub source : Text
  pub rev : Option Text
  pub version : Option Text

pub record BuildConfig : Type 0 where
  pub implicit_std : Bool

pub record LibTarget : Type 0 where
  pub path : Text

pub record BinTarget : Type 0 where
  pub name : Text
  pub path : Text

pub record TestTarget : Type 0 where
  pub name : Text
  pub path : Text

pub record WorkspaceConfig : Type 0 where
  pub members : List Text
  pub exclude : List Text
  pub resolver : Text

pub record PackageConfig : Type 0 where
  pub name : Text
  pub version : Text
  pub edition : Text
  pub publish : Bool
  pub build : BuildConfig
  pub lib : Option LibTarget
  pub bins : List BinTarget
  pub tests : List TestTarget
  pub dependencies : List Dependency
  pub dev_dependencies : List Dependency

pub record ManifestDocument : Type 0 where
  pub pkg : Option PackageConfig
  pub workspace : Option WorkspaceConfig

-- the files of the machine, by path: the content, where there is a file
abbrev pub Files : Type 0
Files = Text → Option Text
