-- ===== src/Trust/Accepted.antt =====
-- What an accepted package stands on: the documents from the root to the targets, each signed by a
-- quorum of its role, current, and pinned by the one before it.
pub mod Anchor
pub mod Stages
pub mod Verified
use mathlib.Core.Path.{subst}
use pafio_nightly.Prelude.{
  ℕ, String, Bool, true, false, not, Option, none, some, List, [], ◌∷◌, ◌≡◌, refl, ap, sym, ◌∙◌,
  inl, inr, ◌⊎◌, Text, text, text_eq, text_eq_iff, Bool-cases, Option-cases, arith,
}
use pafio_nightly.Prelude.Int.{ℤ, pos, int_ltb, ◌≤ℤ◌, le_of_not_lt}
use pafio_nightly.Manifest.Targets.{negated}
use pafio_nightly.Trust.Json.{members, object_at, string_at}
use pafio_nightly.Trust.Outcomes.{
  Outcome, done, refused, thrown, escaped, unless, or_fail, bind-eq-done, unless-eq-done,
  unless-done, or_fail-eq-done, done_injective, ◌>>=◌, ◌>>◌,
}
use pafio_nightly.Trust.Fields.{
  Verifier, Objects, require_object_bytes, parse_object, require_object_field, require_string_field,
  require_int_field, normalize_relative, enforce_version_monotonic, verify_meta_hash,
}
use pafio_nightly.Trust.Roles.{
  RolePolicy, Keys, parse_role_policy, parse_keys, open_envelope, require_quorum,
  tally_root_signature, read_envelope,
}
use pafio_nightly.Trust.Quorum.{Quorum, require_quorum-root}
use pafio_nightly.Trust.Attested.{
  Attested, Pinned, HasVersion, IsCurrent, parse_object-parses, open_envelope-parts,
  enforce_expires-IsCurrent, read_envelope-Attested, enforce_version-HasVersion,
  verify_meta_hash-Pinned,
}
use pafio_nightly.Trust.Chain.{
  TufVerifiedTargets, TufVerifyResult, initial_result, Verdict, verdict, uncaught, attempt,
  TrustedRoot, pin_matches, read_root, verify_root, verify_config, verify_timestamp,
  verify_snapshot, verify_checkpoint, verify_listed, verify_targets, verify_rest, verify_anchor,
  verify_package_chain,
}

module _ (V : Verifier) where
  open V use {json, sha256_text}
  open json use {Value}

  -- the entry of a document below a field of it
  abbrev pub Entry : Value → Text → Text → Value → Type 0
  Entry signed field name entry =
      (listed : Value) × (object_at json signed field ≡ some listed)
      × (object_at json listed name ≡ some entry)

  -- the snapshot lists the object, under a name that normalizes to its path, with its digest
  abbrev pub IsListed : Objects → List (Text × Value) → Text → Type 0
  IsListed objects [] path = ⊥
  IsListed objects ((name, meta) ∷ rest) path =
      ((normalize_relative name ≡ done path) × Pinned V objects meta path)
      ⊎ IsListed objects rest path

  -- the bytes of the root are those that the pin is for
  abbrev pub IsPinnedRoot : Objects → Option Text → Type 0
  IsPinnedRoot objects pin =
      (bytes : Text) × (objects (text "trust/root.json") ≡ some bytes)
      × ((pin ≡ none) ⊎ (pin ≡ some (sha256_text bytes)))

  pub record IsTrusted (objects : Objects) (package_name namespace : Text) (pin : Option Text)
      (targets_path : Text) (timestamp_floor snapshot_floor : ℤ) (result : TufVerifyResult V)
      : Type 0 where
    pub root_signed : Value
    pub root : TrustedRoot V
    pub timestamp : Value
    pub snapshot : Value
    pub checkpoint : Value
    pub targets : Value
    pub path : Text
    pub root_pinned : IsPinnedRoot objects pin
    pub root_attested :
        Attested V objects
          (text "trust/root.json")
          (text "root")
          root.root_role
          root.key_lookup
          root_signed
    pub root_read : read_root V root_signed ≡ done root
    pub root_version : result.root_version ≡ root.version
    pub timestamp_attested :
        Attested V objects
          (text "trust/timestamp.json")
          (text "timestamp")
          root.timestamp_role
          root.key_lookup
          timestamp
    pub timestamp_version : HasVersion V timestamp timestamp_floor result.timestamp_version
    pub snapshot_pinned :
        (entry : Value) × Entry timestamp (text "meta") (text "trust/snapshot.json") entry
        × Pinned V objects entry (text "trust/snapshot.json")
    pub snapshot_attested :
        Attested V objects
          (text "trust/snapshot.json")
          (text "snapshot")
          root.snapshot_role
          root.key_lookup
          snapshot
    pub snapshot_version : HasVersion V snapshot snapshot_floor result.snapshot_version
    pub checkpoint_pinned :
        (entry : Value) × Entry snapshot (text "log_meta") (text "log/checkpoint.json") entry
        × Pinned V objects entry (text "log/checkpoint.json")
    pub checkpoint_attested :
        Attested V objects
          (text "log/checkpoint.json")
          (text "checkpoint")
          root.log_role
          root.key_lookup
          checkpoint
    pub path_of_targets : normalize_relative targets_path ≡ done path
    pub targets_listed :
        (entries : Value) × (object_at json snapshot (text "meta") ≡ some entries)
        × IsListed objects (members json entries) path
    pub targets_attested :
        Attested V objects path (text "targets") root.targets_role root.key_lookup targets
    pub namespace_matches : string_at json targets (text "namespace") ≡ some namespace
    pub package_listed : (listed : Value) × Entry targets (text "packages") package_name listed
    pub result_targets :
        (bytes : Text) × (objects path ≡ some bytes)
        × (result.targets
            ≡ some (record {
              signed_payload = targets;
              relative_path = path;
              sha256 = sha256_text bytes;
            }))

  -- a result that is good comes from a part that was done
  pub attempt-ok :
      {A : Type 0} (before : TufVerifyResult V) (part : Outcome A) (next : A → Verdict V)
      {result : TufVerifyResult V}
      → attempt V before part next ≡ verdict result
      → result.is_ok ≡ true
      → (a : A) × (part ≡ done a) × (next a ≡ verdict result)
  attempt-ok before (done a) next h good = (a, refl, h)
  attempt-ok before (refused code message) next h good = cc
  attempt-ok before thrown next h good = cc
  attempt-ok before escaped next h good = cc
