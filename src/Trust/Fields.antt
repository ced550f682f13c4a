-- ===== src/Trust/Fields.antt =====
-- TufVerifier.cpp: the typed fields of a document, digests, paths, expiry and versions.
use pafio_nightly.Prelude.{
  ℕ, ◌+◌, ◌-◌, ◌*◌, ◌^◌, Bool, true, false, not, ◌&&◌, Option, none, some, [], length, ltb, ◌==◌,
  Text, text, text_eq, Result, ok, err, fetch,
}
use pafio_nightly.Prelude.Int.{ℤ, pos, negsuc, int_ltb}
use pafio_nightly.Registry.Paths.{normalize_registry_object_path, is_registry_sha256_digest}
use pafio_nightly.Trust.Json.{
  JsonLibrary, member, member_as, object_at, string_at, integer_at, boolean_at,
}
use pafio_nightly.Trust.Outcomes.{
  Outcome, done, refused, thrown, escaped, unless, or_fail, ◌>>=◌, ◌>>◌,
}
use pafio_nightly.Trust.Time.{parse_utc_timestamp}

-- What the verifier is run on: the JSON library, the clock in nanoseconds of the epoch (without the
-- bound of 64 bits that the source has, which is reached in the year 2262), the
-- digests of Sha256.cpp, and the check of a signature, `none` where it throws.
pub record Verifier : Type 1 where
  pub json : JsonLibrary
  pub now : ℕ
  pub sha256_text : Text → Text
  pub sha256_raw : Text → Text
  pub ed25519_verify_pem : Text → Text → Text → Option Bool

-- the objects of a registry by their relative paths
abbrev pub Objects : Type 0
Objects = Text → Option Text

unfoldable pub require_object_bytes : Objects → Text → Outcome Text
require_object_bytes objects relative_path =
    or_fail "tuf.missing_object" "registry v2 object is missing" (objects relative_path)

-- an exception of the path check becomes a refusal where it is a FetchError
abbrev pub of_path : Result Text → Outcome Text
of_path (ok normalized) = done normalized
of_path (err fetch message) = refused "tuf.path" message
of_path (err kind message) = thrown

unfoldable pub normalize_relative : Text → Outcome Text
normalize_relative relative_path = of_path (normalize_registry_object_path relative_path)

-- a number of bytes against an `int` that is cast to `size_t`
abbrev pub size_of_int : ℤ → ℕ
size_of_int (pos n) = n
size_of_int (negsuc n) = 2 ^ 64 - (n + 1)

module _ (J : JsonLibrary) where
  open J use {Value, parse, as_object, as_string, to_int}

  abbrev pub object_or_fail : Value → Outcome Value
  object_or_fail payload = elim (as_object payload) [
    | none ↦ refused "tuf.invalid_json" "must be a JSON object"
    | some fields ↦ done payload
  ]

  unfoldable pub parse_object : Text → Outcome Value
  parse_object bytes = elim (parse bytes) [
    | none ↦ refused "tuf.invalid_json" "is not valid JSON"
    | some payload ↦ object_or_fail payload
  ]

  unfoldable pub require_object_field : Value → Text → Outcome Value
  require_object_field payload field =
      or_fail "tuf.schema" "must contain object field" (object_at J payload field)

  unfoldable pub require_string_field : Value → Text → Outcome Text
  require_string_field payload field =
      or_fail "tuf.schema" "must contain string field" (string_at J payload field)

  unfoldable pub require_int_field : Value → Text → Outcome ℤ
  require_int_field payload field =
      or_fail "tuf.schema" "must contain integer field" (integer_at J payload field)

  unfoldable pub require_bool_field : Value → Text → Outcome Bool
  require_bool_field payload field =
      or_fail "tuf.schema" "must contain boolean field" (boolean_at J payload field)

  abbrev pub digest_of : Option Text → Outcome Text
  digest_of none = refused "tuf.schema" "must be a lowercase sha256 digest"
  digest_of (some digest) = do
    unless (is_registry_sha256_digest digest) "tuf.schema" "must be a lowercase sha256 digest"
    done digest

  -- `RequireSha256` of a member, or of null where there is none
  unfoldable pub require_sha256 : Value → Text → Outcome Text
  require_sha256 payload field = digest_of (member_as J as_string payload field)

  abbrev pub value_or {ℓ} : {A : Type ℓ} → (Value → Option A) → A → Option Value → Outcome A
  value_or convert default none = done default
  value_or convert default (some inner) = elim (convert inner) [
    | none ↦ escaped
    | some value ↦ done value
  ]

  -- `payload.value(field, default)` of an object
  unfoldable pub value_text : Value → Text → Outcome Text
  value_text payload field = value_or as_string [] (member J payload field)

  unfoldable pub value_int : Value → Text → Outcome ℤ
  value_int payload field = value_or to_int (pos 0) (member J payload field)

  unfoldable pub enforce_version_monotonic : Value → ℤ → Outcome (Unit {0})
  enforce_version_monotonic signed previous_version = do
    version ← require_int_field signed (text "version")
    unless (not (int_ltb version (pos 1))) "tuf.version" "version must be >= 1"
    unless (not (int_ltb (pos 0) previous_version && int_ltb version previous_version))
        "tuf.version_regression" "version regressed"

module _ (V : Verifier) where
  open V use {json, now, sha256_text}
  open json use {Value}

  -- past by more than the five minutes that clocks may differ
  abbrev pub is_past : ℕ → Bool
  is_past seconds = ltb (1000000000 * (seconds + 300)) now

  abbrev pub check_expiry : Option ℕ → Outcome (Unit {0})
  check_expiry none = refused "tuf.expires" "expires is not a valid UTC timestamp"
  check_expiry (some seconds) = unless (not (is_past seconds)) "tuf.expired" "has expired"

  unfoldable pub enforce_expires : Value → Outcome (Unit {0})
  enforce_expires signed = do
    expires ← require_string_field json signed (text "expires")
    check_expiry (parse_utc_timestamp expires)

  abbrev pub check_size : Option ℤ → Text → Outcome (Unit {0})
  check_size none bytes = refused "tuf.schema" "must contain integer field"
  check_size (some expected) bytes =
      unless (size_of_int expected == length bytes) "tuf.length_mismatch"
        "length does not match file size"

  abbrev pub check_length_field : Bool → Value → Text → Outcome (Unit {0})
  check_length_field false meta bytes = done tt
  check_length_field true meta bytes = elim (member json meta (text "length")) [
    | none ↦ done tt
    | some inner ↦ check_size (json.as_integer inner) bytes
  ]

  unfoldable pub verify_meta_hash : Value → Text → Objects → Bool → Outcome (Unit {0})
  verify_meta_hash meta relative_path objects check_length = do
    hashes ← require_object_field json meta (text "hashes")
    expected ← require_sha256 json hashes (text "sha256")
    bytes ← require_object_bytes objects relative_path
    unless (text_eq (sha256_text bytes) expected) "tuf.hash_mismatch"
        "sha256 does not match file digest"
    check_length_field check_length meta bytes
