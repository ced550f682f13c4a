-- ===== src/Trust/Accepted/Anchor.antt =====
-- The first documents of the chain: the root and the timestamp.
use mathlib.Core.Path.{subst}
use pafio_nightly.Prelude.{
  true, Option, none, some, ◌≡◌, refl, ap, sym, inl, inr, ◌⊎◌, Text, text, text_eq_iff,
}
use pafio_nightly.Prelude.Int.{ℤ}
use pafio_nightly.Trust.Outcomes.{
  done, bind-eq-done, unless-eq-done, or_fail-eq-done, done_injective,
}
use pafio_nightly.Trust.Fields.{
  Verifier, Objects, require_object_bytes, parse_object, require_int_field,
  enforce_version_monotonic,
}
use pafio_nightly.Trust.Roles.{open_envelope, require_quorum, tally_root_signature, read_envelope}
use pafio_nightly.Trust.Quorum.{require_quorum-root}
use pafio_nightly.Trust.Attested.{
  Attested, HasVersion, parse_object-parses, open_envelope-parts, enforce_expires-IsCurrent,
  read_envelope-Attested, enforce_version-HasVersion,
}
use pafio_nightly.Trust.Chain.{
  TrustedRoot, pin_matches, read_root, verify_root, verify_config, verify_timestamp, verify_anchor,
}
use pafio_nightly.Trust.Accepted.{IsPinnedRoot}

module _ (V : Verifier) where
  open V use {json, sha256_text}
  open json use {Value}

  pin_matches-same :
      (pin : Option Text) (bytes : Text)
      → pin_matches V pin bytes ≡ true
      → (pin ≡ none) ⊎ (pin ≡ some (sha256_text bytes))
  pin_matches-same none bytes h = inl refl
  pin_matches-same (some p) bytes h = inr (ap some (sym ((text_eq_iff _ p).0 h)))

  -- the root document alone
  unfoldable pub RootStands : Objects → Option Text → TrustedRoot V → Type 0
  RootStands objects pin root =
      (signed : Value) × IsPinnedRoot V objects pin
      × Attested V objects (text "trust/root.json") (text "root") root.root_role root.key_lookup
          signed
      × (read_root V signed ≡ done root)

  pub verify_anchor-stands :
      (objects : Objects) (pin : Option Text) {root : TrustedRoot V}
      → verify_anchor V objects pin ≡ done root
      → RootStands objects pin root
  unfolding verify_anchor verify_root require_object_bytes RootStands
  verify_anchor-stands objects pin h =
      let (_, _, h0) = bind-eq-done (verify_config V objects) _ h in
      let (bytes, e1, h1) =
        bind-eq-done (require_object_bytes objects (text "trust/root.json")) _ h0 in
      let (pinned, h2) = unless-eq-done (pin_matches V pin bytes) _ _ _ h1 in
      let (envelope, e3, h3) = bind-eq-done (parse_object json bytes) _ h2 in
      let ((signed, signatures), e4, h4) =
        bind-eq-done (open_envelope V envelope (text "root")) _ h3 in
      let (root, e5, h5) = bind-eq-done (read_root V signed) _ h4 in
      let (_, e6, h6) =
        bind-eq-done
          (require_quorum V (tally_root_signature V) root.root_role root.key_lookup signed
            signatures)
          _ h5 in
      let (part, typed) = open_envelope-parts V envelope (text "root") e4 in
      let (quorum, fresh) =
        require_quorum-root V root.root_role root.key_lookup signed signatures e6 in
      let found = or_fail-eq-done _ _ (objects (text "trust/root.json")) e1 in
      subst (RootStands objects pin) (done_injective h6) (
        signed,
        (bytes, found, pin_matches-same pin bytes pinned),
        record {
          bytes = bytes;
          envelope = envelope;
          found = found;
          parsed = parse_object-parses V bytes e3;
          signed_part = part;
          typed = typed;
          quorum = quorum;
          current = enforce_expires-IsCurrent V signed fresh;
        },
        e5,
      )

  pub verify_timestamp-stands :
      (objects : Objects) (root : TrustedRoot V) (floor : ℤ) {signed : Value} {version : ℤ}
      → verify_timestamp V objects root floor ≡ done (signed, version)
      → Attested V objects
          (text "trust/timestamp.json")
          (text "timestamp")
          root.timestamp_role
          root.key_lookup
          signed
        × HasVersion V signed floor version
  unfolding verify_timestamp
  verify_timestamp-stands objects root floor h =
      let (read, e0, h1) =
        bind-eq-done
          (read_envelope V objects (text "trust/timestamp.json") (text "timestamp")
            root.timestamp_role root.key_lookup)
          _ h in
      let (_, e1, h2) = bind-eq-done (enforce_version_monotonic json read floor) _ h1 in
      let (v, e2, h3) = bind-eq-done (require_int_field json read (text "version")) _ h2 in
      subst
        (λ (p : Value × ℤ).
          Attested V objects (text "trust/timestamp.json") (text "timestamp") root.timestamp_role
            root.key_lookup p.0
          × HasVersion V p.0 floor p.1)
        (done_injective h3)
        (
          read_envelope-Attested V objects _ _ root.timestamp_role root.key_lookup e0,
          enforce_version-HasVersion V read floor v e1 e2,
        )
