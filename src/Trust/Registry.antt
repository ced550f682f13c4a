-- ===== src/Trust/Registry.antt =====
-- TufVerifier.cpp: `VerifyTufRegistryRoot`, which checks every entry of the snapshot and then the
-- chain of the first package that is listed.
pub mod Covers
use pafio_nightly.Prelude.{
  ℕ, String, Bool, true, false, not, ◌&&◌, Option, none, some, List, [], ◌∷◌, Text, text, text_eq,
  if◌then◌else◌,
}
use pafio_nightly.Prelude.Int.{ℤ, pos}
use pafio_nightly.Trust.Json.{members}
use pafio_nightly.Trust.Outcomes.{Outcome, done, ◌>>=◌, ◌>>◌}
use pafio_nightly.Trust.Fields.{
  Verifier, Objects, require_object_field, require_string_field, require_int_field,
  normalize_relative, verify_meta_hash,
}
use pafio_nightly.Trust.Roles.{read_envelope}
use pafio_nightly.Trust.Chain.{
  TufVerifyResult, initial_result, Verdict, verdict, attempt, TrustedRoot, verify_anchor,
  is_targets_object, verify_package_chain,
}

-- the package to go on with
pub record FirstPackage : Type 0 where
  pub name : Text
  pub namespace : Text
  pub targets_relative : Text

abbrev pub no_package : FirstPackage
no_package = record { name = []; namespace = []; targets_relative = [] }

module _ (V : Verifier) where
  open V use {json}
  open json use {Value}

  unfoldable pub replayable_timestamp : Objects → TrustedRoot V → Outcome (Value × ℤ)
  replayable_timestamp objects trusted = do
    signed ←
        read_envelope V objects (text "trust/timestamp.json") (text "timestamp")
          trusted.timestamp_role trusted.key_lookup
    version ← require_int_field json signed (text "version")
    done (signed, version)

  unfoldable pub replayable_snapshot : Objects → TrustedRoot V → Value → Outcome (Value × ℤ)
  replayable_snapshot objects trusted timestamp = do
    timestamp_meta ← require_object_field json timestamp (text "meta")
    snapshot_meta ← require_object_field json timestamp_meta (text "trust/snapshot.json")
    verify_meta_hash V snapshot_meta (text "trust/snapshot.json") objects true
    signed ←
        read_envelope V objects (text "trust/snapshot.json") (text "snapshot") trusted.snapshot_role
          trusted.key_lookup
    version ← require_int_field json signed (text "version")
    done (signed, version)

  -- the first package of a targets document, where none is known yet
  unfoldable pub first_of : FirstPackage → Value → Text → List (Text × Value) → Outcome FirstPackage
  first_of first targets path [] = done first
  first_of first targets path ((name, listed) ∷ rest) = elim (text_eq first.name []) [
    | false ↦ done first
    | true ↦ do
      namespace ← require_string_field json targets (text "namespace")
      done (record { name = name; namespace = namespace; targets_relative = path })
  ]

  abbrev pub first_if_targets :
      Objects → TrustedRoot V → FirstPackage → Text → Bool → Outcome FirstPackage
  first_if_targets objects trusted first path false = done first
  first_if_targets objects trusted first path true = do
    targets ← read_envelope V objects path (text "targets") trusted.targets_role trusted.key_lookup
    packages ← require_object_field json targets (text "packages")
    first_of first targets path (members json packages)

  unfoldable pub scan_entries :
      Objects → TrustedRoot V → FirstPackage → List (Text × Value) → Outcome FirstPackage
  scan_entries objects trusted first [] = done first
  scan_entries objects trusted first ((name, meta) ∷ rest) = do
    normalized ← normalize_relative name
    verify_meta_hash V meta normalized objects false
    is_targets ← is_targets_object V objects normalized
    next ← first_if_targets objects trusted first normalized is_targets
    scan_entries objects trusted next rest

  unfoldable pub scan_snapshot : Objects → TrustedRoot V → Value → Outcome FirstPackage
  scan_snapshot objects trusted snapshot = do
    entries ← require_object_field json snapshot (text "meta")
    log_meta ← require_object_field json snapshot (text "log_meta")
    checkpoint_meta ← require_object_field json log_meta (text "log/checkpoint.json")
    verify_meta_hash V checkpoint_meta (text "log/checkpoint.json") objects false
    _ ←
        read_envelope V objects (text "log/checkpoint.json") (text "checkpoint") trusted.log_role
          trusted.key_lookup
    scan_entries objects trusted no_package (members json entries)

  -- without a package there is nothing more to check
  unfoldable pub verify_first : Objects → TufVerifyResult V → FirstPackage → Verdict V
  verify_first objects result first = elim (text_eq first.name []) [
    | true ↦ verdict (record result { is_ok = true })
    | false ↦
        verify_package_chain V objects first.name first.namespace none first.targets_relative true
          (pos 0) (pos 0)
  ]

  unfoldable pub verify_tuf_registry_root : Objects → Verdict V
  verify_tuf_registry_root objects =
      attempt V (initial_result V) (verify_anchor V objects none) λ trusted.
        let r1 = record (initial_result V) { root_version = trusted.version } in
        attempt V r1 (replayable_timestamp objects trusted) λ (timestamp, t).
          let r2 = record r1 { timestamp_version = t } in
          attempt V r2 (replayable_snapshot objects trusted timestamp) λ (snapshot, s).
            let r3 = record r2 { snapshot_version = s } in
            attempt V r3 (scan_snapshot objects trusted snapshot)
              λ first. verify_first objects r3 first
