-- ===== src/Registry/Security/Access.antt =====
-- The two default chains of RegistrySecurity.cpp, and the slots that hold the resolvers in force.
use pafio_nightly.Prelude.{
  not, ◌&&◌, Option, none, some, List, [], ◌∷◌, if◌then◌else◌, text, starts_with, Result, ok, err,
  fetch, publish,
}
use pafio_nightly.Lexicon.{url_has_userinfo, normalize_registry_root}
use pafio_nightly.Registry.Security.{
  RegistryReadSecurityRequest, RegistryReadSecurityDecision, RegistryWriteSecurityRequest,
  RegistryWriteSecurityDecision, no_read_decision, no_write_decision, continue, resolved, Handler,
  run_security_chain, is_http_registry_root, is_file_registry_root, is_loopback_http_registry_root,
}

unfoldable pub normalize_read_registry_root :
    Handler RegistryReadSecurityRequest RegistryReadSecurityDecision
normalize_read_registry_root request decision =
    ok
      (continue (record decision { registry_root = normalize_registry_root request.registry_root }))

unfoldable pub validate_read_registry_root_scheme :
    Handler RegistryReadSecurityRequest RegistryReadSecurityDecision
validate_read_registry_root_scheme request decision =
    if not (is_file_registry_root decision.registry_root)
      && not (is_http_registry_root decision.registry_root)
    then err fetch "registry root must use file://, http://, or https://"
    else if url_has_userinfo decision.registry_root
    then err fetch "registry root must not embed credentials in the URL userinfo"
    else ok (continue decision)

unfoldable pub resolve_public_default_read_access :
    Handler RegistryReadSecurityRequest RegistryReadSecurityDecision
resolve_public_default_read_access request decision =
    ok (resolved (record decision { request_headers = []; provider_name = text "public-default" }))

unfoldable pub normalize_write_registry_root :
    Handler RegistryWriteSecurityRequest RegistryWriteSecurityDecision
normalize_write_registry_root request decision =
    ok
      (continue (record decision { registry_root = normalize_registry_root request.registry_root }))

unfoldable pub validate_write_registry_root_scheme :
    Handler RegistryWriteSecurityRequest RegistryWriteSecurityDecision
validate_write_registry_root_scheme request decision =
    if not (is_http_registry_root decision.registry_root)
    then err publish "remote registry publish requires an https:// registry root"
    else if url_has_userinfo decision.registry_root
    then err publish "registry root must not embed credentials in the URL userinfo"
    else if starts_with decision.registry_root (text "http://")
    then (if not request.allow_plaintext_http
        then err publish "remote registry publish requires https://"
        else if not (is_loopback_http_registry_root decision.registry_root)
        then err publish "--allow-plaintext-http is limited to loopback registries"
        else ok (continue decision))
    else ok (continue decision)

unfoldable pub resolve_public_default_write_access :
    Handler RegistryWriteSecurityRequest RegistryWriteSecurityDecision
resolve_public_default_write_access request decision = ok (
    resolved (record decision {
      request_headers = [];
      provider_name = text "public-default";
      mode = text "anonymous";
    }))

abbrev pub default_read_security_handlers :
    List (Handler RegistryReadSecurityRequest RegistryReadSecurityDecision)
default_read_security_handlers =
    normalize_read_registry_root ∷ validate_read_registry_root_scheme
    ∷ resolve_public_default_read_access ∷ []

abbrev pub default_write_security_handlers :
    List (Handler RegistryWriteSecurityRequest RegistryWriteSecurityDecision)
default_write_security_handlers =
    normalize_write_registry_root ∷ validate_write_registry_root_scheme
    ∷ resolve_public_default_write_access ∷ []

unfoldable pub resolve_default_registry_read_security :
    RegistryReadSecurityRequest → Result RegistryReadSecurityDecision
unfolding run_security_chain normalize_read_registry_root validate_read_registry_root_scheme
    resolve_public_default_read_access
resolve_default_registry_read_security request =
    run_security_chain request no_read_decision default_read_security_handlers

unfoldable pub resolve_default_registry_write_security :
    RegistryWriteSecurityRequest → Result RegistryWriteSecurityDecision
unfolding run_security_chain normalize_write_registry_root resolve_public_default_write_access
resolve_default_registry_write_security request =
    run_security_chain request no_write_decision default_write_security_handlers

abbrev pub ReadResolver : Type 0
ReadResolver = RegistryReadSecurityRequest → Result RegistryReadSecurityDecision

abbrev pub WriteResolver : Type 0
WriteResolver = RegistryWriteSecurityRequest → Result RegistryWriteSecurityDecision

-- the two atomic slots
pub record ResolverSlots : Type 0 where
  pub read : ReadResolver
  pub write : WriteResolver

abbrev pub initial_slots : ResolverSlots
initial_slots = record {
  read = resolve_default_registry_read_security;
  write = resolve_default_registry_write_security;
}

abbrev or_default {ℓ} : {A : Type ℓ} → Option A → A → A
or_default (some r) d = r
or_default none d = d

-- `none` is the null pointer; the resolver that was in force is returned
unfoldable pub register_registry_read_security_resolver :
    Option ReadResolver → ResolverSlots → ReadResolver × ResolverSlots
register_registry_read_security_resolver resolver slots =
    (slots.read, record slots { read = or_default resolver resolve_default_registry_read_security })

unfoldable pub register_registry_write_security_resolver :
    Option WriteResolver → ResolverSlots → WriteResolver × ResolverSlots
register_registry_write_security_resolver resolver slots = (
  slots.write,
  record slots { write = or_default resolver resolve_default_registry_write_security },
)

unfoldable pub resolve_registry_read_security :
    ResolverSlots → RegistryReadSecurityRequest → Result RegistryReadSecurityDecision
resolve_registry_read_security slots request = slots.read request

unfoldable pub resolve_registry_write_security :
    ResolverSlots → RegistryWriteSecurityRequest → Result RegistryWriteSecurityDecision
resolve_registry_write_security slots request = slots.write request
