-- ===== src/Trust/Quorum.antt =====
-- What a check of signatures comes to: so many keys of the policy, no two the same, each of which
-- signed the bytes.
use pafio_nightly.Prelude.{
  Bool, true, false, not, ◌||◌, Option, none, some, List, [], ◌∷◌, ◌≡◌, refl, sym, inl, inr, All,
  length, Text, text, text_eq_refl, Bool-cases, Option-cases, arith,
}
use mathlib.Core.Path.{subst}
use pafio_nightly.Prelude.Int.{pos, int_ltb, ◌≤ℤ◌, le_of_not_lt}
use pafio_nightly.Manifest.Parse.{contains_text}
use pafio_nightly.Manifest.Targets.{negated}
use pafio_nightly.Prelude.Sort.{Distinct, Fresh}
use pafio_nightly.Trust.Outcomes.{Outcome, done, bind-eq-done, unless-eq-done, done_injective}
use pafio_nightly.Trust.Fields.{Verifier, require_string_field, enforce_expires}
use pafio_nightly.Trust.Roles.{
  RolePolicy, Keys, Tally, no_tally, counted_vote, is_object, tally_keyid, tally_signature,
  tally_root_signature, tally_all, require_quorum,
}
use pafio_nightly.Trust.CanonicalJson.{canonical_json_bytes}

-- a key that signed: its id, its public part and the signature
pub record Signer : Type 0 where
  pub keyid : Text
  pub pem : Text
  pub sig : Text

abbrev pub keyid_of : Signer → Text
keyid_of signer = signer.keyid

or_false : (a b : Bool) → (not a || b) ≡ false → (a ≡ true) × (b ≡ false)
or_false true b h = (refl, h)
or_false false b h = cc

-- a key that is seen stays so
contains_text-cons :
    (keyid other : Text) (seen : List Text)
    → contains_text seen other ≡ true
    → contains_text (keyid ∷ seen) other ≡ true
contains_text-cons keyid other seen h = ground arith

contains_text_self : (keyid : Text) (seen : List Text) → contains_text (keyid ∷ seen) keyid ≡ true
contains_text_self keyid seen = rw (text_eq_refl keyid)

module _ (V : Verifier) (policy : RolePolicy) (keys : Keys) (message : Text) where
  open V use {json, ed25519_verify_pem}
  open json use {Value}

  -- the policy names the key, and its signature of the message is good
  abbrev pub Signed : Signer → Type 0
  Signed s =
      (contains_text policy.keyids s.keyid ≡ true)
      × (keys s.keyid ≡ some s.pem)
      × (ed25519_verify_pem s.pem message s.sig ≡ some true)

  -- at least as many distinct keys as the policy asks for
  abbrev pub Quorum : Type 0
  Quorum =
      (signers : List Signer) × Distinct keyid_of signers
      × All Signed signers
      × (policy.threshold ≤ℤ pos (length signers))

  -- what holds of the tally after each round
  abbrev Backed : Tally → Type 0
  Backed tally =
      (signers : List Signer) × Distinct keyid_of signers
      × All Signed signers
      × All (λ s. contains_text tally.seen_keyids s.keyid ≡ true) signers
      × (length signers ≡ tally.valid_signatures)

  Backed-empty : Backed no_tally
  Backed-empty = ([], tt, tt, tt, refl)

  seen_cons :
      (keyid : Text) (seen : List Text) (signers : List Signer)
      → All (λ s. contains_text seen s.keyid ≡ true) signers
      → All (λ s. contains_text (keyid ∷ seen) s.keyid ≡ true) signers
  seen_cons keyid seen [] h = tt
  seen_cons keyid seen (s ∷ signers) h =
      (contains_text-cons keyid s.keyid seen h.0, seen_cons keyid seen signers h.1)

  unseen_Fresh :
      (signer : Signer) (seen : List Text) (signers : List Signer)
      → contains_text seen signer.keyid ≡ false
      → All (λ s. contains_text seen s.keyid ≡ true) signers
      → Fresh keyid_of signer signers
  unseen_Fresh signer seen [] h all = tt
  unseen_Fresh signer seen (s ∷ signers) h all =
      ((λ e. cc), unseen_Fresh signer seen signers h all.1)

  -- a round that marks a key as seen and counts nothing
  Backed-seen :
      (tally : Tally) (keyid : Text)
      → Backed tally
      → Backed (record tally { seen_keyids = keyid ∷ tally.seen_keyids })
  Backed-seen tally keyid (signers, distinct, signed, seen, count) =
      (signers, distinct, signed, seen_cons keyid tally.seen_keyids signers seen, count)

  counted-Backed :
      (answer : Option Bool) (tally : Tally) (signer : Signer) {after : Tally}
      → ed25519_verify_pem signer.pem message signer.sig ≡ answer
      → contains_text policy.keyids signer.keyid ≡ true
      → contains_text tally.seen_keyids signer.keyid ≡ false
      → keys signer.keyid ≡ some signer.pem
      → Backed tally
      → counted_vote V answer tally (signer.keyid ∷ tally.seen_keyids) ≡ done after
      → Backed after
  counted-Backed none tally signer a p u k b h = cc
  counted-Backed (some false) tally signer a p u k b h =
      subst Backed (done_injective h) (Backed-seen tally signer.keyid b)
  counted-Backed (some true) tally signer a p u k (signers, distinct, signed, seen, count) h =
      subst Backed (done_injective h) (
        signer ∷ signers,
        (unseen_Fresh signer tally.seen_keyids signers u seen, distinct),
        ((p, k, a), signed),
        (
          contains_text_self signer.keyid tally.seen_keyids,
          seen_cons signer.keyid tally.seen_keyids signers seen,
        ),
        omega (arith, count),
      )

  tally_keyid-Backed :
      (tally : Tally) (keyid : Text) (sig : Outcome Text) {after : Tally}
      → Backed tally
      → tally_keyid V policy keys message tally keyid sig ≡ done after
      → Backed after
  unfolding tally_keyid
  tally_keyid-Backed tally keyid sig b h =
      elim (Bool-cases
        (not (contains_text policy.keyids keyid) || contains_text tally.seen_keyids keyid)) [
          | inl skipped ↦ subst Backed (done_injective (rw skipped at h)) b
          | inr taken ↦
              let (named, unseen) = or_false _ _ taken in
              elim (Option-cases (keys keyid)) [
                | inl unknown ↦
                    subst Backed (done_injective (rw (taken, unknown) at h))
                      (Backed-seen tally keyid b)
                | inr (pem, known) ↦
                    let (signature, _, rest) = bind-eq-done sig _ (rw (taken, known) at h) in
                    counted-Backed (ed25519_verify_pem pem message signature) tally
                      (record { keyid = keyid; pem = pem; sig = signature }) refl named unseen known
                      b rest
              ]
        ]

  tally_signature-Backed :
      (tally : Tally) (signature : Value) {after : Tally}
      → Backed tally
      → tally_signature V policy keys message tally signature ≡ done after
      → Backed after
  unfolding tally_signature
  tally_signature-Backed tally signature b h =
      let (_, h1) = unless-eq-done (is_object V signature) _ _ _ h in
      let (keyid, _, h2) = bind-eq-done (require_string_field json signature (text "keyid")) _ h1 in
      let (sig, _, h3) = bind-eq-done (require_string_field json signature (text "sig")) _ h2 in
      tally_keyid-Backed tally keyid (done sig) b h3

  tally_root_signature-Backed :
      (tally : Tally) (signature : Value) {after : Tally}
      → Backed tally
      → tally_root_signature V policy keys message tally signature ≡ done after
      → Backed after
  unfolding tally_root_signature
  tally_root_signature-Backed tally signature b h =
      let (_, h1) = unless-eq-done (is_object V signature) _ _ _ h in
      let (keyid, _, h2) = bind-eq-done (require_string_field json signature (text "keyid")) _ h1 in
      tally_keyid-Backed tally keyid (require_string_field json signature (text "sig")) b h2

  tally_all-Backed :
      (step : Tally → Value → Outcome Tally)
      → ((t : Tally) (v : Value) (u : Tally) → Backed t → step t v ≡ done u → Backed u)
      → (tally : Tally) (signatures : List Value) {after : Tally} → Backed tally
      → tally_all V step tally signatures ≡ done after
      → Backed after
  unfolding tally_all
  tally_all-Backed step keep tally [] b h = subst Backed (done_injective h) b
  tally_all-Backed step keep tally (signature ∷ rest) b h =
      let (next, first, h1) = bind-eq-done (step tally signature) _ h in
      tally_all-Backed step keep next rest (keep tally signature next b first) h1

  pub Backed-Quorum :
      (tally : Tally)
      → Backed tally
      → int_ltb (pos tally.valid_signatures) policy.threshold ≡ false
      → Quorum
  Backed-Quorum tally (signers, distinct, signed, _, count) enough = (
    signers,
    distinct,
    signed,
    subst (λ n. policy.threshold ≤ℤ pos n) (sym count) (le_of_not_lt _ _ enough),
  )

module _ (V : Verifier) where
  open V use {json}
  open json use {Value}

  -- whichever of the two loops goes over the signatures
  quorum_of_step :
      (step : RolePolicy → Keys → Text → Tally → Value → Outcome Tally) (policy : RolePolicy)
      (keys : Keys) (signed : Value) (signatures : List Value) {u : Unit {0}}
      → ((t : Tally) (v : Value) (next : Tally)
          → Backed V policy keys (canonical_json_bytes json signed) t
          → step policy keys (canonical_json_bytes json signed) t v ≡ done next
          → Backed V policy keys (canonical_json_bytes json signed) next)
      → require_quorum V step policy keys signed signatures ≡ done u
      → Quorum V policy keys (canonical_json_bytes json signed)
        × (enforce_expires V signed ≡ done u)
  unfolding require_quorum
  quorum_of_step step policy keys signed signatures keep h =
      let message = canonical_json_bytes json signed in
      let (tally, all, h1) =
        bind-eq-done (tally_all V (step policy keys message) no_tally signatures) _ h in
      let (enough, fresh) =
        unless-eq-done (not (int_ltb (pos tally.valid_signatures) policy.threshold)) _ _ _ h1 in
      let backed =
        tally_all-Backed V policy keys message (step policy keys message) keep no_tally signatures
          (Backed-empty V policy keys message) all in
      (Backed-Quorum V policy keys message tally backed (negated enough), fresh)

  -- A document whose signatures pass is signed by a quorum of its role's keys, and has not expired.
  pub require_quorum-root :
      (policy : RolePolicy) (keys : Keys) (signed : Value) (signatures : List Value) {u : Unit {0}}
      → require_quorum V (tally_root_signature V) policy keys signed signatures ≡ done u
      → Quorum V policy keys (canonical_json_bytes json signed)
        × (enforce_expires V signed ≡ done u)
  require_quorum-root policy keys signed signatures h =
      let message = canonical_json_bytes json signed in
      quorum_of_step (tally_root_signature V) policy keys signed signatures
        (λ t v next b e. tally_root_signature-Backed V policy keys message t v b e) h

  pub require_quorum-role :
      (policy : RolePolicy) (keys : Keys) (signed : Value) (signatures : List Value) {u : Unit {0}}
      → require_quorum V (tally_signature V) policy keys signed signatures ≡ done u
      → Quorum V policy keys (canonical_json_bytes json signed)
        × (enforce_expires V signed ≡ done u)
  require_quorum-role policy keys signed signatures h =
      let message = canonical_json_bytes json signed in
      quorum_of_step (tally_signature V) policy keys signed signatures
        (λ t v next b e. tally_signature-Backed V policy keys message t v b e) h
