-- ===== src/Trust/Attested.antt =====
-- What the checks of one document come to: it is signed, current, at least of a version, and
-- pinned by a digest.
use mathlib.Core.Path.{subst}
use pafio_nightly.Prelude.{
  ℕ, zero, suc, ◌+◌, ◌*◌, ◌≤◌, Bool, false, not, ◌&&◌, Option, none, some, List, ◌≡◌, refl, ap, sym,
  ◌∙◌, inl, inr, Text, text, text_eq, text_eq_iff, Option-cases, arith,
}
use pafio_nightly.Prelude.Int.{ℤ, pos, negsuc, int_ltb, ◌≤ℤ◌, le_of_not_lt}
use pafio_nightly.Manifest.Targets.{negated}
use pafio_nightly.Registry.Paths.{is_registry_sha256_digest}
use pafio_nightly.Trust.Json.{member_as, object_at, string_at, integer_at, filled_array_at}
use pafio_nightly.Trust.Outcomes.{
  done, or_fail, bind-eq-done, unless-eq-done, unless-done, or_fail-eq-done, done_injective,
}
use pafio_nightly.Trust.Time.{parse_utc_timestamp}
use pafio_nightly.Trust.Fields.{
  Verifier, Objects, require_object_bytes, object_or_fail, parse_object, require_object_field,
  require_string_field, require_int_field, require_sha256, digest_of, enforce_expires, is_past,
  check_expiry, enforce_version_monotonic, verify_meta_hash,
}
use pafio_nightly.Trust.Roles.{
  RolePolicy, Keys, tally_signature, open_envelope, require_quorum, verify_role_envelope,
  read_envelope,
}
use pafio_nightly.Trust.CanonicalJson.{canonical_json_bytes}
use pafio_nightly.Trust.Quorum.{Quorum, require_quorum-role}

module _ (V : Verifier) where
  open V use {json, now, sha256_text}
  open json use {Value, parse, as_string}

  -- the date of expiry is not more than five minutes past
  abbrev pub IsCurrent : Value → Type 0
  IsCurrent signed =
      (expires : Text) × (seconds : ℕ) × (string_at json signed (text "expires") ≡ some expires)
      × (parse_utc_timestamp expires ≡ some seconds)
      × (now ≤ 1000000000 * (seconds + 300))

  -- An object of the registry is an envelope of the type, signed by a quorum of the role's keys,
  -- and current.
  pub record Attested (objects : Objects) (path type : Text) (policy : RolePolicy) (keys : Keys)
      (signed : Value) : Type 0 where
    pub bytes : Text
    pub envelope : Value
    pub found : objects path ≡ some bytes
    pub parsed : parse bytes ≡ some envelope
    pub signed_part : object_at json envelope (text "signed") ≡ some signed
    pub typed : string_at json signed (text "type") ≡ some type
    pub quorum : Quorum V policy keys (canonical_json_bytes json signed)
    pub current : IsCurrent signed

  -- the object at the path has the digest that the entry states
  abbrev pub Pinned : Objects → Value → Text → Type 0
  Pinned objects meta path =
      (bytes : Text) × (hashes : Value) × (objects path ≡ some bytes)
      × (object_at json meta (text "hashes") ≡ some hashes)
      × (member_as json as_string hashes (text "sha256") ≡ some (sha256_text bytes))

  -- the version, which is positive and not below the floor
  abbrev pub HasVersion : Value → ℤ → ℤ → Type 0
  HasVersion signed floor version =
      (integer_at json signed (text "version") ≡ some version)
      × (pos 1 ≤ℤ version)
      × (floor ≤ℤ version)

  check_expiry_current :
      (o : Option ℕ) {u : Unit {0}}
      → check_expiry V o ≡ done u
      → (seconds : ℕ) × (o ≡ some seconds) × (now ≤ 1000000000 * (seconds + 300))
  check_expiry_current none h = cc
  check_expiry_current (some seconds) h =
      let current = negated (unless-done (not (is_past V seconds)) _ _ h) in
      (seconds, refl, ground arith)

  pub enforce_expires-IsCurrent :
      (signed : Value) {u : Unit {0}} → enforce_expires V signed ≡ done u → IsCurrent signed
  unfolding enforce_expires require_string_field
  enforce_expires-IsCurrent signed h =
      let (expires, e, h1) = bind-eq-done (require_string_field json signed (text "expires")) _ h in
      let (seconds, p, current) = check_expiry_current (parse_utc_timestamp expires) h1 in
      (expires, seconds, or_fail-eq-done _ _ (string_at json signed (text "expires")) e, p, current)

  object_or_fail-same :
      (payload : Value) {kept : Value} → object_or_fail json payload ≡ done kept → payload ≡ kept
  object_or_fail-same payload h = elim (Option-cases (json.as_object payload)) [
    | inl no_object ↦ cc (rw (no_object, object_or_fail) at h)
    | inr (fields, object) ↦ done_injective (rw (object, object_or_fail) at h)
  ]

  pub parse_object-parses :
      (bytes : Text) {payload : Value}
      → parse_object json bytes ≡ done payload
      → parse bytes ≡ some payload
  unfolding parse_object
  parse_object-parses bytes h = elim (Option-cases (parse bytes)) [
    | inl invalid ↦ cc (rw (invalid, parse_object) at h)
    | inr (payload, valid) ↦
        valid ∙ ap some (object_or_fail-same payload (rw (valid, parse_object) at h))
  ]

  pub open_envelope-parts :
      (payload : Value) (type : Text) {signed : Value} {signatures : List Value}
      → open_envelope V payload type ≡ done (signed, signatures)
      → (object_at json payload (text "signed") ≡ some signed)
        × (string_at json signed (text "type") ≡ some type)
  unfolding open_envelope require_object_field require_string_field
  open_envelope-parts payload type h =
      let (inner, e0, h1) = bind-eq-done (require_object_field json payload (text "signed")) _ h in
      let (listed, _, h2) =
        bind-eq-done
          (or_fail "tuf.signature" "must contain at least one signature"
            (filled_array_at json payload (text "signatures")))
          _ h1 in
      let (declared, e2, h3) = bind-eq-done (require_string_field json inner (text "type")) _ h2 in
      let (same, h4) = unless-eq-done (text_eq declared type) _ _ _ h3 in
      let (version, _, h5) =
        bind-eq-done (require_string_field json inner (text "spec_version")) _ h4 in
      let (_, h6) = unless-eq-done (text_eq version (text "1")) _ _ _ h5 in
      let is_inner = ap (λ (p : Value × List Value). p.0) (done_injective h6) in
      let found = or_fail-eq-done _ _ (object_at json payload (text "signed")) e0 in
      let typed = or_fail-eq-done _ _ (string_at json inner (text "type")) e2 in
      subst
        (λ s.
          (object_at json payload (text "signed") ≡ some s)
          × (string_at json s (text "type") ≡ some type))
        is_inner (found, typed ∙ ap some ((text_eq_iff declared type).0 same))

  pub read_envelope-Attested :
      (objects : Objects) (path type : Text) (policy : RolePolicy) (keys : Keys) {signed : Value}
      → read_envelope V objects path type policy keys ≡ done signed
      → Attested objects path type policy keys signed
  unfolding read_envelope require_object_bytes verify_role_envelope
  read_envelope-Attested objects path type policy keys h =
      let (bytes, e0, h1) = bind-eq-done (require_object_bytes objects path) _ h in
      let (payload, e1, h2) = bind-eq-done (parse_object json bytes) _ h1 in
      let ((signed, signatures), e2, h3) = bind-eq-done (open_envelope V payload type) _ h2 in
      let (_, e3, h4) =
        bind-eq-done (require_quorum V (tally_signature V) policy keys signed signatures) _ h3 in
      let (part, typed) = open_envelope-parts payload type e2 in
      let (quorum, fresh) = require_quorum-role V policy keys signed signatures e3 in
      subst (Attested objects path type policy keys) (done_injective h4) (record {
        bytes = bytes;
        envelope = payload;
        found = or_fail-eq-done _ _ (objects path) e0;
        parsed = parse_object-parses bytes e1;
        signed_part = part;
        typed = typed;
        quorum = quorum;
        current = enforce_expires-IsCurrent signed fresh;
      })

  -- a floor that is not positive binds nothing that the first test leaves
  floor_or :
      (floor version : ℤ)
      → pos 1 ≤ℤ version
      → (int_ltb (pos 0) floor && int_ltb version floor) ≡ false
      → floor ≤ℤ version
  floor_or (pos zero) (pos v) p h = omega arith
  floor_or (pos (suc f)) (pos v) p h = ground arith
  floor_or (pos f) (negsuc v) p h = absurd p
  floor_or (negsuc f) (pos v) p h = tt
  floor_or (negsuc f) (negsuc v) p h = absurd p

  pub enforce_version-HasVersion :
      (signed : Value) (floor version : ℤ) {u : Unit {0}}
      → enforce_version_monotonic json signed floor ≡ done u
      → require_int_field json signed (text "version") ≡ done version
      → HasVersion signed floor version
  unfolding enforce_version_monotonic require_int_field
  enforce_version-HasVersion signed floor version h e =
      let (read, e0, h1) = bind-eq-done (require_int_field json signed (text "version")) _ h in
      let (positive, h2) = unless-eq-done (not (int_ltb read (pos 1))) _ _ _ h1 in
      let kept = negated (unless-done (not (int_ltb (pos 0) floor && int_ltb read floor)) _ _ h2) in
      let one = le_of_not_lt read (pos 1) (negated positive) in
      subst (HasVersion signed floor) (done_injective (sym e0 ∙ e)) (
        or_fail-eq-done _ _ (integer_at json signed (text "version")) e0,
        one,
        floor_or floor read one kept,
      )

  pub digest_of-same :
      (o : Option Text) {digest : Text} → digest_of json o ≡ done digest → o ≡ some digest
  digest_of-same none h = cc
  digest_of-same (some d) h =
      ap some (done_injective (unless-eq-done (is_registry_sha256_digest d) _ _ _ h).1)

  pub verify_meta_hash-Pinned :
      (meta : Value) (path : Text) (objects : Objects) (sized : Bool) {u : Unit {0}}
      → verify_meta_hash V meta path objects sized ≡ done u
      → Pinned objects meta path
  unfolding verify_meta_hash require_object_field require_sha256 require_object_bytes
  verify_meta_hash-Pinned meta path objects sized h =
      let (hashes, e0, h1) = bind-eq-done (require_object_field json meta (text "hashes")) _ h in
      let (digest, e1, h2) = bind-eq-done (require_sha256 json hashes (text "sha256")) _ h1 in
      let (bytes, e2, h3) = bind-eq-done (require_object_bytes objects path) _ h2 in
      let (same, _) = unless-eq-done (text_eq (sha256_text bytes) digest) _ _ _ h3 in
      let stated = digest_of-same (member_as json as_string hashes (text "sha256")) e1 in
      (
        bytes,
        hashes,
        or_fail-eq-done _ _ (objects path) e2,
        or_fail-eq-done _ _ (object_at json meta (text "hashes")) e0,
        stated ∙ ap some (sym ((text_eq_iff (sha256_text bytes) digest).0 same)),
      )
