-- ===== src/Trust/Chain.antt =====
-- TufVerifier.cpp: the chain of documents, from the root to the targets of a namespace.
pub mod Log
pub mod Leaves
pub mod Refusals
use pafio_nightly.Prelude.{
  ℕ, ◌+◌, String, Bool, true, false, not, ◌&&◌, Option, none, some, List, [], ◌∷◌, if◌then◌else◌,
  Text, text, text_eq,
}
use pafio_nightly.Prelude.Int.{ℤ, pos, negsuc, int_ltb}
use pafio_nightly.Trust.Json.{JsonLibrary, member, members, object_at, string_at}
use pafio_nightly.Trust.Outcomes.{
  Outcome, done, refused, thrown, escaped, unless, or_fail, ◌>>=◌, ◌>>◌,
}
use pafio_nightly.Trust.Fields.{
  Verifier, Objects, require_object_bytes, parse_object, require_object_field, require_string_field,
  require_int_field, require_bool_field, normalize_relative, value_text, value_int,
  enforce_version_monotonic, verify_meta_hash,
}
use pafio_nightly.Trust.Roles.{
  RolePolicy, Keys, parse_role_policy, open_envelope, require_quorum, tally_root_signature,
  read_envelope, parse_keys,
}
use pafio_nightly.Trust.Chain.Log.{verify_log}

module _ (V : Verifier) where
  open V use {json, sha256_text}
  open json use {Value, parse}

  pub record TufVerifiedTargets : Type 0 where
    pub signed_payload : Value
    pub relative_path : Text
    pub sha256 : Text

  pub record TufVerifyResult : Type 0 where
    pub is_ok : Bool
    pub error : String
    pub error_code : String
    pub targets : Option TufVerifiedTargets
    pub root_version : ℤ
    pub timestamp_version : ℤ
    pub snapshot_version : ℤ

  abbrev pub initial_result : TufVerifyResult
  initial_result = record {
    is_ok = false;
    error = "";
    error_code = "";
    targets = none;
    root_version = pos 0;
    timestamp_version = pos 0;
    snapshot_version = pos 0;
  }

  -- what the verifier does: it returns, or an exception leaves it
  pub data Verdict : Type 0 where
    verdict : TufVerifyResult → Verdict
    uncaught : Verdict

  -- a part of the `try` block, the result so far, and what follows the part
  abbrev pub attempt : {A : Type 0} → TufVerifyResult → Outcome A → (A → Verdict) → Verdict
  attempt result (done value) next = next value
  attempt result (refused code message) next =
      verdict (record result { is_ok = false; error = message; error_code = code })
  attempt result thrown next = verdict (record result {
    is_ok = false;
    error = "registry v2 TUF verification failed";
    error_code = "tuf.failed";
  })
  attempt result escaped next = uncaught

  pub record TrustedRoot : Type 0 where
    pub signed_payload : Value
    pub key_lookup : Keys
    pub root_role : RolePolicy
    pub timestamp_role : RolePolicy
    pub snapshot_role : RolePolicy
    pub targets_role : RolePolicy
    pub log_role : RolePolicy
    pub version : ℤ

  abbrev pub pin_matches : Option Text → Text → Bool
  pin_matches none root_bytes = true
  pin_matches (some pin) root_bytes = text_eq (sha256_text root_bytes) pin

  -- the keys, the policies and the version that a signed root declares
  unfoldable pub read_root : Value → Outcome TrustedRoot
  read_root signed = do
    keys ← require_object_field json signed (text "keys")
    roles ← require_object_field json signed (text "roles")
    root_role ← parse_role_policy V roles (text "root")
    timestamp_role ← parse_role_policy V roles (text "timestamp")
    snapshot_role ← parse_role_policy V roles (text "snapshot")
    targets_role ← parse_role_policy V roles (text "targets")
    log_role ← parse_role_policy V roles (text "log")
    version ← require_int_field json signed (text "version")
    unless (not (int_ltb version (pos 1))) "tuf.version" "root version must be >= 1"
    key_lookup ← parse_keys V (members json keys)
    done (record {
      signed_payload = signed;
      key_lookup = key_lookup;
      root_role = root_role;
      timestamp_role = timestamp_role;
      snapshot_role = snapshot_role;
      targets_role = targets_role;
      log_role = log_role;
      version = version;
    })

  unfoldable pub verify_root : Objects → Option Text → Outcome TrustedRoot
  verify_root objects trusted_root_sha256 = do
    root_bytes ← require_object_bytes objects (text "trust/root.json")
    unless (pin_matches trusted_root_sha256 root_bytes) "tuf.root_pin"
        "root metadata does not match the imported platform descriptor pin"
    envelope ← parse_object json root_bytes
    (signed, signatures) ← open_envelope V envelope (text "root")
    trusted ← read_root signed
    require_quorum V (tally_root_signature V) trusted.root_role trusted.key_lookup signed signatures
    done trusted

  abbrev is_two : ℤ → Bool
  is_two version = not (int_ltb version (pos 2)) && not (int_ltb (pos 2) version)

  unfoldable pub verify_config : Objects → Outcome (Unit {0})
  verify_config objects = do
    bytes ← require_object_bytes objects (text "config.json")
    config ← parse_object json bytes
    protocol ← value_text json config (text "protocol")
    unless (text_eq protocol (text "pafio-static-registry")) "tuf.config"
        "config does not declare the expected protocol/version"
    version ← value_int json config (text "protocol_version")
    unless (is_two version) "tuf.config" "config does not declare the expected protocol/version"
    capabilities ← require_object_field json config (text "capabilities")
    _ ← require_bool_field json capabilities (text "append_only_index")
    _ ← require_bool_field json capabilities (text "source_artifacts")
    _ ← require_bool_field json capabilities (text "binary_artifacts")
    _ ← require_bool_field json capabilities (text "transparency_log")
    done tt

  abbrev declares_targets : Option Value → Outcome Bool
  declares_targets none = done false
  declares_targets (some signed) = do
    type ← value_text json signed (text "type")
    done (text_eq type (text "targets"))

  unfoldable pub is_targets_object : Objects → Text → Outcome Bool
  is_targets_object objects relative_path = elim (objects relative_path) [
    | none ↦ done false
    | some bytes ↦ elim (parse bytes) [
      | none ↦ done false
      | some envelope ↦ declares_targets (object_at json envelope (text "signed"))
    ]
  ]

  unfoldable pub verify_timestamp : Objects → TrustedRoot → ℤ → Outcome (Value × ℤ)
  verify_timestamp objects trusted floor = do
    signed ←
        read_envelope V objects (text "trust/timestamp.json") (text "timestamp")
          trusted.timestamp_role trusted.key_lookup
    enforce_version_monotonic json signed floor
    version ← require_int_field json signed (text "version")
    done (signed, version)

  unfoldable pub verify_snapshot : Objects → TrustedRoot → Value → ℤ → Outcome (Value × ℤ)
  verify_snapshot objects trusted timestamp floor = do
    timestamp_meta ← require_object_field json timestamp (text "meta")
    snapshot_meta ← require_object_field json timestamp_meta (text "trust/snapshot.json")
    verify_meta_hash V snapshot_meta (text "trust/snapshot.json") objects true
    signed ←
        read_envelope V objects (text "trust/snapshot.json") (text "snapshot") trusted.snapshot_role
          trusted.key_lookup
    enforce_version_monotonic json signed floor
    version ← require_int_field json signed (text "version")
    done (signed, version)

  -- the entries of the snapshot, and the checkpoint that it pins
  unfoldable pub verify_checkpoint : Objects → TrustedRoot → Value → Outcome (Value × Value)
  verify_checkpoint objects trusted snapshot = do
    entries ← require_object_field json snapshot (text "meta")
    log_meta ← require_object_field json snapshot (text "log_meta")
    checkpoint_meta ← require_object_field json log_meta (text "log/checkpoint.json")
    verify_meta_hash V checkpoint_meta (text "log/checkpoint.json") objects false
    checkpoint ←
        read_envelope V objects (text "log/checkpoint.json") (text "checkpoint") trusted.log_role
          trusted.key_lookup
    done (entries, checkpoint)

  -- the loop for the entry of the targets, which is left where it is found
  unfoldable pub verify_listed : Objects → Text → List (Text × Value) → Outcome (Unit {0})
  verify_listed objects targets_relative [] =
      refused "tuf.targets_missing" "snapshot does not list targets for namespace"
  verify_listed objects targets_relative ((name, meta) ∷ rest) = do
    normalized ← normalize_relative name
    elim (text_eq normalized targets_relative) [
      | true ↦ verify_meta_hash V meta normalized objects false
      | false ↦ verify_listed objects targets_relative rest
    ]

  unfoldable pub verify_targets :
      Objects → TrustedRoot → Value → Text → Text → Text → Outcome (Value × Text)
  verify_targets objects trusted entries package_name package_namespace targets_path = do
    targets_relative ← normalize_relative targets_path
    verify_listed objects targets_relative (members json entries)
    targets ←
        read_envelope V objects targets_relative (text "targets") trusted.targets_role
          trusted.key_lookup
    namespace ← require_string_field json targets (text "namespace")
    unless (text_eq namespace package_namespace) "tuf.namespace" "targets namespace mismatch"
    packages ← require_object_field json targets (text "packages")
    _ ←
        or_fail "tuf.package_missing" "targets metadata is missing package"
          (object_at json packages package_name)
    done (targets, targets_relative)

  abbrev pub verify_if_targets : Objects → TrustedRoot → Text → Bool → Outcome (Unit {0})
  verify_if_targets objects trusted path false = done tt
  verify_if_targets objects trusted path true = do
    _ ← read_envelope V objects path (text "targets") trusted.targets_role trusted.key_lookup
    done tt

  -- every entry of the snapshot
  unfoldable pub verify_entries : Objects → TrustedRoot → List (Text × Value) → Outcome (Unit {0})
  verify_entries objects trusted [] = done tt
  verify_entries objects trusted ((name, meta) ∷ rest) = do
    normalized ← normalize_relative name
    verify_meta_hash V meta normalized objects false
    is_targets ← is_targets_object objects normalized
    verify_if_targets objects trusted normalized is_targets
    verify_entries objects trusted rest

  abbrev pub verify_registry : Bool → Objects → TrustedRoot → Value → Value → Outcome (Unit {0})
  verify_registry false objects trusted entries checkpoint = done tt
  verify_registry true objects trusted entries checkpoint = do
    verify_entries objects trusted (members json entries)
    verify_log V objects checkpoint

  -- from the snapshot on: the checkpoint, the targets and, on demand, all of the registry
  unfoldable pub verify_rest :
      Objects → TrustedRoot → Value → Text → Text → Text → Bool → Outcome TufVerifiedTargets
  verify_rest objects trusted snapshot package_name package_namespace targets_path full = do
    (entries, checkpoint) ← verify_checkpoint objects trusted snapshot
    (targets, relative) ←
        verify_targets objects trusted entries package_name package_namespace targets_path
    verify_registry full objects trusted entries checkpoint
    bytes ← require_object_bytes objects relative
    done (record { signed_payload = targets; relative_path = relative; sha256 = sha256_text bytes })

  unfoldable pub verify_anchor : Objects → Option Text → Outcome TrustedRoot
  verify_anchor objects trusted_root_sha256 = do
    verify_config objects
    verify_root objects trusted_root_sha256

  unfoldable pub verify_package_chain :
      Objects → Text → Text → Option Text → Text → Bool → ℤ → ℤ → Verdict
  verify_package_chain objects package_name package_namespace pin targets_path full timestamp_floor
        snapshot_floor =
      attempt initial_result (verify_anchor objects pin) λ trusted.
        let r1 = record initial_result { root_version = trusted.version } in
        attempt r1 (verify_timestamp objects trusted timestamp_floor) λ (timestamp, t).
          let r2 = record r1 { timestamp_version = t } in
          attempt r2 (verify_snapshot objects trusted timestamp snapshot_floor) λ (snapshot, s).
            let r3 = record r2 { snapshot_version = s } in
            attempt r3
              (verify_rest objects trusted snapshot package_name package_namespace targets_path
                full)
              λ targets. verdict (record r3 { is_ok = true; targets = some targets })

  unfoldable pub verify_tuf_chain_for_package :
      Objects → Text → Text → Option Text → Text → ℤ → ℤ → Verdict
  verify_tuf_chain_for_package objects package_name package_namespace pin targets_path
        timestamp_floor snapshot_floor =
      verify_package_chain objects package_name package_namespace pin targets_path false
        timestamp_floor snapshot_floor
