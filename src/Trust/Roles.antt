-- ===== src/Trust/Roles.antt =====
-- TufVerifier.cpp: the policies of the roles, and the signatures under a document.
use pafio_nightly.Prelude.{
  ℕ, ◌+◌, Bool, true, false, not, ◌||◌, Option, none, some, List, [], ◌∷◌, if◌then◌else◌, Text,
  text, text_eq,
}
use pafio_nightly.Prelude.Int.{ℤ, pos, int_ltb}
use pafio_nightly.Manifest.Parse.{contains_text}
use pafio_nightly.Trust.Json.{member, filled_array_at}
use pafio_nightly.Trust.Outcomes.{Outcome, done, refused, thrown, unless, or_fail, ◌>>=◌, ◌>>◌}
use pafio_nightly.Trust.Fields.{
  Verifier, Objects, require_object_bytes, parse_object, require_object_field, require_string_field,
  require_int_field, enforce_expires,
}
use pafio_nightly.Trust.CanonicalJson.{canonical_json_bytes}

pub record RolePolicy : Type 0 where
  pub keyids : List Text
  pub threshold : ℤ

-- the public keys by their ids
abbrev pub Keys : Type 0
Keys = Text → Option Text

-- the counter and the set of the loop over the signatures
pub record Tally : Type 0 where
  pub valid_signatures : ℕ
  pub seen_keyids : List Text

abbrev pub no_tally : Tally
no_tally = record { valid_signatures = 0; seen_keyids = [] }

module _ (V : Verifier) where
  open V use {json, ed25519_verify_pem}
  open json use {Value, as_object, as_string}

  unfoldable pub parse_keyids : List Value → Outcome (List Text)
  parse_keyids [] = done []
  parse_keyids (item ∷ rest) = elim (as_string item) [
    | none ↦ refused "tuf.schema" "keyid must be a string"
    | some keyid ↦ do
      unless (not (text_eq keyid [])) "tuf.schema" "keyid must be a string"
      keyids ← parse_keyids rest
      done (keyid ∷ keyids)
  ]

  unfoldable pub parse_threshold : Value → Outcome ℤ
  parse_threshold role = elim (member json role (text "threshold")) [
    | none ↦ done (pos 1)
    | some _ ↦ do
      threshold ← require_int_field json role (text "threshold")
      unless (not (int_ltb threshold (pos 1))) "tuf.schema" "threshold must be >= 1"
      done threshold
  ]

  unfoldable pub parse_role_policy : Value → Text → Outcome RolePolicy
  parse_role_policy roles role_name = do
    role ← require_object_field json roles role_name
    items ←
        or_fail "tuf.schema" "keyids must be a non-empty array"
          (filled_array_at json role (text "keyids"))
    keyids ← parse_keyids items
    threshold ← parse_threshold role
    done (record { keyids = keyids; threshold = threshold })

  abbrev pub counted_vote : Option Bool → Tally → List Text → Outcome Tally
  counted_vote none tally seen = thrown
  counted_vote (some good) tally seen = done (record {
    valid_signatures = if good then tally.valid_signatures + 1 else tally.valid_signatures;
    seen_keyids = seen;
  })

  -- The rest of the loop's body, once the id of the key is read: `sig` is how the code comes by the
  -- signature, which throws where there is none.
  unfoldable pub tally_keyid :
      RolePolicy → Keys → Text → Tally → Text → Outcome Text → Outcome Tally
  tally_keyid policy keys message tally keyid sig =
      if not (contains_text policy.keyids keyid) || contains_text tally.seen_keyids keyid
      then done tally
      else elim (keys keyid) [
        | none ↦ done (record tally { seen_keyids = keyid ∷ tally.seen_keyids })
        | some pem ↦ do
          signature ← sig
          counted_vote (ed25519_verify_pem pem message signature) tally (keyid ∷ tally.seen_keyids)
      ]

  abbrev pub is_object : Value → Bool
  is_object value = elim (as_object value) [ none ↦ false | some fields ↦ true ]

  -- the body of the loop of `VerifyRoleEnvelope`, which reads the signature first
  unfoldable pub tally_signature : RolePolicy → Keys → Text → Tally → Value → Outcome Tally
  tally_signature policy keys message tally signature = do
    unless (is_object signature) "tuf.signature" "signature must be an object"
    keyid ← require_string_field json signature (text "keyid")
    sig ← require_string_field json signature (text "sig")
    tally_keyid policy keys message tally keyid (done sig)

  -- that of `VerifyRoot`, which reads it where it is checked
  unfoldable pub tally_root_signature : RolePolicy → Keys → Text → Tally → Value → Outcome Tally
  tally_root_signature policy keys message tally signature = do
    unless (is_object signature) "tuf.signature" "root signature must be an object"
    keyid ← require_string_field json signature (text "keyid")
    tally_keyid policy keys message tally keyid (require_string_field json signature (text "sig"))

  unfoldable pub tally_all : (Tally → Value → Outcome Tally) → Tally → List Value → Outcome Tally
  tally_all step tally [] = done tally
  tally_all step tally (signature ∷ rest) = do next ← step tally signature; tally_all step next rest

  -- the head of an envelope: its signed part and its signatures, the type and the version
  unfoldable pub open_envelope : Value → Text → Outcome (Value × List Value)
  open_envelope payload required_type = do
    signed ← require_object_field json payload (text "signed")
    signatures ←
        or_fail "tuf.signature" "must contain at least one signature"
          (filled_array_at json payload (text "signatures"))
    type ← require_string_field json signed (text "type")
    unless (text_eq type required_type) "tuf.schema" "type must equal the required one"
    version ← require_string_field json signed (text "spec_version")
    unless (text_eq version (text "1")) "tuf.schema" "spec_version must equal '1'"
    done (signed, signatures)

  unfoldable pub require_quorum :
      (RolePolicy → Keys → Text → Tally → Value → Outcome Tally)
      → RolePolicy
      → Keys
      → Value
      → List Value
      → Outcome (Unit {0})
  require_quorum step policy keys signed signatures = do
    tally ← tally_all (step policy keys (canonical_json_bytes json signed)) no_tally signatures
    unless (not (int_ltb (pos tally.valid_signatures) policy.threshold)) "tuf.signature"
        "does not contain a valid trusted signature"
    enforce_expires V signed

  unfoldable pub verify_role_envelope : Value → Text → RolePolicy → Keys → Outcome Value
  verify_role_envelope payload required_type policy keys = do
    (signed, signatures) ← open_envelope payload required_type
    require_quorum tally_signature policy keys signed signatures
    done signed

  -- an envelope that is parsed from an object
  unfoldable pub read_envelope : Objects → Text → Text → RolePolicy → Keys → Outcome Value
  read_envelope objects relative_path required_type policy keys = do
    bytes ← require_object_bytes objects relative_path
    payload ← parse_object json bytes
    verify_role_envelope payload required_type policy keys

  unfoldable pub parse_keys : List (Text × Value) → Outcome Keys
  parse_keys [] = done (λ keyid. none)
  parse_keys ((name, value) ∷ rest) = do
    unless (is_object value) "tuf.schema" "registry v2 key must be an object"
    keyval ← require_object_field json value (text "keyval")
    pem ← require_string_field json keyval (text "public")
    later ← parse_keys rest
    done (λ keyid. elim (later keyid) [
      | some other ↦ some other
      | none ↦ if text_eq name keyid then some pem else none
    ])
