-- ===== src/Trust/Chain/Refusals.antt =====
-- What the verifier answers where a check fails, and where an exception passes through it.
use pafio_nightly.Prelude.{Bool, Option, none, some, [], ◌≡◌, ap, ◌∙◌, Text, text}
use pafio_nightly.Prelude.Int.{ℤ}
use pafio_nightly.Trust.Json.{member}
use pafio_nightly.Trust.Outcomes.{done, escaped}
use pafio_nightly.Trust.Fields.{
  Verifier, Objects, require_object_bytes, parse_object, value_text, value_or,
}
use pafio_nightly.Trust.Chain.{uncaught, verify_config, verify_anchor, verify_package_chain}

some_injective : {A : Type 0} {a b : A} → some a ≡ some b → a ≡ b
some_injective h = cc

module _ (V : Verifier) where
  open V use {json}
  open json use {Value}

  value_or-escapes :
      (o : Option Value) (protocol : Value)
      → o ≡ some protocol
      → json.as_string protocol ≡ none
      → value_or json json.as_string [] o ≡ escaped
  value_or-escapes none protocol e p = cc
  value_or-escapes (some v) protocol e p = rw (ap json.as_string (some_injective e) ∙ p, value_or)

  value_text-escapes :
      (config protocol : Value)
      → member json config (text "protocol") ≡ some protocol
      → json.as_string protocol ≡ none
      → value_text json config (text "protocol") ≡ escaped
  unfolding value_text
  value_text-escapes config protocol there other =
      value_or-escapes (member json config (text "protocol")) protocol there other

  -- A configuration whose `protocol` is there and is no string makes json::value throw, and no
  -- handler of the verifier catches that: there is no verdict.
  pub verify_package_chain-uncaught :
      (objects : Objects) (package_name namespace : Text) (pin : Option Text) (targets_path : Text)
      (full : Bool) (timestamp_floor snapshot_floor : ℤ) (bytes : Text) (config protocol : Value)
      → objects (text "config.json") ≡ some bytes
      → parse_object json bytes ≡ done config
      → member json config (text "protocol") ≡ some protocol
      → json.as_string protocol ≡ none
      → verify_package_chain V objects package_name namespace pin targets_path full timestamp_floor
          snapshot_floor
        ≡ uncaught
  unfolding verify_package_chain verify_anchor verify_config require_object_bytes
  verify_package_chain-uncaught objects package_name namespace pin targets_path full tf sf bytes
        config protocol found parsed there other =
      rw (found, parsed, value_text-escapes config protocol there other)
