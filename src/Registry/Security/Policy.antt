-- ===== src/Registry/Security/Policy.antt =====
-- What the default chains let through.
use pafio_nightly.Prelude.{
  Bool, true, false, not, ◌||◌, [], text, starts_with, ok, err, publish, if◌then◌else◌, >>=-eq-ok,
  ok_injective, arith, ◌≡◌, refl, ◌⊎◌, ◌↔◌,
}
use pafio_nightly.Lexicon.{url_has_userinfo, normalize_registry_root}
use pafio_nightly.Registry.Security.{
  RegistryReadSecurityRequest, RegistryReadSecurityDecision, RegistryWriteSecurityRequest,
  RegistryWriteSecurityDecision, HandlerResult, continue, is_http_registry_root,
  is_file_registry_root, is_loopback_http_registry_root, no_write_decision,
}
use pafio_nightly.Registry.Security.Access.{
  resolve_default_registry_read_security, resolve_default_registry_write_security,
  validate_write_registry_root_scheme,
}

-- A read decision is given exactly for a root that, without the slashes behind it, begins with
-- file://, http:// or https:// and holds no userinfo. It carries that root and no headers.
pub resolve_default_registry_read_security_lem :
    (request : RegistryReadSecurityRequest) (decision : RegistryReadSecurityDecision)
    → (resolve_default_registry_read_security request ≡ ok decision) ↔ (
        ((is_file_registry_root (normalize_registry_root request.registry_root) ≡ true)
          ⊎ (is_http_registry_root (normalize_registry_root request.registry_root) ≡ true))
        × (url_has_userinfo (normalize_registry_root request.registry_root) ≡ false)
        × (decision.registry_root ≡ normalize_registry_root request.registry_root)
        × (decision.request_headers ≡ [])
        × (decision.provider_name ≡ text "public-default"))
unfolding resolve_default_registry_read_security
resolve_default_registry_read_security_lem request decision =
    ((λ h. ground arith), λ h. ground arith)

-- what the scheme check lets through, it leaves as it is
abbrev Allowed : RegistryWriteSecurityRequest → RegistryWriteSecurityDecision → Type 0
Allowed request d =
    (url_has_userinfo d.registry_root ≡ false)
    × ((starts_with d.registry_root (text "https://") ≡ true)
        ⊎ ((request.allow_plaintext_http ≡ true)
            × (is_loopback_http_registry_root d.registry_root ≡ true)))

allowed_root :
    (http https userinfo plaintext loopback : Bool) (d : RegistryWriteSecurityDecision)
    {o : HandlerResult RegistryWriteSecurityDecision}
    → (if not (http || https)
        then err publish "remote registry publish requires an https:// registry root"
        else if userinfo
        then err publish "registry root must not embed credentials in the URL userinfo"
        else if http
        then (if not plaintext
            then err publish "remote registry publish requires https://"
            else if not loopback
            then err publish "--allow-plaintext-http is limited to loopback registries"
            else ok (continue d))
        else ok (continue d))
      ≡ ok o
    → (o ≡ continue d)
      × (userinfo ≡ false)
      × ((https ≡ true) ⊎ ((plaintext ≡ true) × (loopback ≡ true)))
allowed_root http https userinfo plaintext loopback d h = ground arith

validate_write_registry_root_scheme-allows :
    (request : RegistryWriteSecurityRequest) (d : RegistryWriteSecurityDecision)
    {o : HandlerResult RegistryWriteSecurityDecision}
    → validate_write_registry_root_scheme request d ≡ ok o
    → (o ≡ continue d) × Allowed request d
unfolding validate_write_registry_root_scheme is_http_registry_root
validate_write_registry_root_scheme-allows request d h =
    let (same, userinfo, secure) =
      allowed_root (starts_with d.registry_root (text "http://"))
        (starts_with d.registry_root (text "https://")) (url_has_userinfo d.registry_root)
        request.allow_plaintext_http (is_loopback_http_registry_root d.registry_root) d h in
    (same, (userinfo, secure))

-- Every write decision is for an http:// or https:// root without userinfo, and one for an http://
-- root is given only to a request that allows plaintext, for a loopback registry.
pub resolve_default_registry_write_security-safe :
    (request : RegistryWriteSecurityRequest) (decision : RegistryWriteSecurityDecision)
    → resolve_default_registry_write_security request ≡ ok decision
    → (decision.registry_root ≡ normalize_registry_root request.registry_root)
      × (url_has_userinfo decision.registry_root ≡ false)
      × (decision.mode ≡ text "anonymous")
      × (decision.request_headers ≡ [])
      × ((starts_with decision.registry_root (text "https://") ≡ true)
          ⊎ ((request.allow_plaintext_http ≡ true)
              × (is_loopback_http_registry_root decision.registry_root ≡ true)))
unfolding resolve_default_registry_write_security
resolve_default_registry_write_security-safe request decision h =
    let root = record no_write_decision {
      registry_root = normalize_registry_root request.registry_root;
    } in
    let (outcome, e, later) = >>=-eq-ok (validate_write_registry_root_scheme request root) _ h in
    let (same, (userinfo, secure)) = validate_write_registry_root_scheme-allows request root e in
    let d = ok_injective (rw same at later) in rw (← d) (refl, userinfo, refl, refl, secure)
