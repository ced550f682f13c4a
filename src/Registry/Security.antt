-- ===== src/Registry/Security.antt =====
-- PafioSecurity/RegistrySecurity.cpp: the chains of handlers that decide how a registry root may be
-- read and written. A decision that is passed by reference is returned.
pub mod Access
pub mod Loopback
pub mod Policy
use pafio_nightly.Prelude.{
  ℕ, zero, suc, String, ◌+◌, ◌*◌, ◌-◌, Bool, true, false, not, ◌&&◌, ◌||◌, Option, none, some, List,
  [], ◌∷◌, ◌++◌, ◌==◌, ltb, within, if◌then◌else◌, Text, text, text_eq, has_byte, cut, before,
  split_lines, starts_with, drop_text, length, any, all, map, Result, ok, err, fetch, publish,
  logic, require, ◌>>=◌, ◌>>◌,
}
use pafio_nightly.Lexicon.{is_digit, url_has_userinfo, normalize_registry_root}

unfoldable pub is_http_registry_root : Text → Bool
unfolding starts_with
is_http_registry_root value =
    starts_with value (text "http://") || starts_with value (text "https://")

unfoldable pub is_file_registry_root : Text → Bool
unfolding starts_with
is_file_registry_root value = starts_with value (text "file://")

-- `std::tolower` in the C locale
unfoldable pub to_lower : ℕ → ℕ
to_lower c = if within b'A' b'Z' c then c + 32 else c

-- the text before the last `c`, if there is one
unfoldable pub before_last : ℕ → Text → Option Text
before_last c [] = none
before_last c (a ∷ s) = elim (before_last c s) [
  | some t ↦ some (a ∷ t)
  | none ↦ if a == c then some [] else none
]

unfoldable pub count_byte : ℕ → Text → ℕ
count_byte c [] = 0
count_byte c (a ∷ s) = let n = count_byte c s in if a == c then suc n else n

-- `std::stoi` of a text of digits
unfoldable pub stoi_from : ℕ → Text → ℕ
stoi_from n [] = n
stoi_from n (c ∷ s) = stoi_from (n * 10 + (c - b'0')) s

unfoldable pub stoi : Text → ℕ
unfolding stoi_from
stoi s = stoi_from 0 s

-- the loop over the segments of the host, from the number of octets read so far
unfoldable pub read_octets : ℕ → List Text → Bool
read_octets octets [] = octets == 4
read_octets octets (segment ∷ rest) =
    let next = read_octets (octets + 1) rest in
    if not (ltb octets 4)
      || text_eq segment []
      || ltb 3 (length segment)
      || not (all is_digit segment)
      || ltb 255 (stoi segment)
    then false
    else if octets == 0 && not (stoi segment == 127)
    then false
    else next

unfoldable pub is_loopback_host : Text → Bool
is_loopback_host host =
    if text_eq host (text "localhost") || text_eq host (text "localhost.")
    then true
    else if not (count_byte b'.' host == 3)
    then false
    else read_octets 0 (split_lines b'.' host)

abbrev bracketed : Option (Text × Text) → Text
bracketed none = []
bracketed (some (inside, _)) = inside

abbrev without_port : Text → Option Text → Text
without_port host none = host
without_port host (some name) = name

-- the rest of the test, by the authority
unfoldable pub is_loopback_authority : Text → Bool
is_loopback_authority [] = is_loopback_host []
is_loopback_authority (a ∷ s) =
    if a == b'['
    then text_eq (bracketed (cut b']' s)) (text "::1")
    else is_loopback_host (map to_lower (without_port (a ∷ s) (before_last b':' (a ∷ s))))

unfoldable pub is_loopback_http_registry_root : Text → Bool
is_loopback_http_registry_root value =
    if not (starts_with value (text "http://"))
    then false
    else is_loopback_authority (before b'/' (drop_text (text "http://") value))

pub record RegistryReadSecurityRequest : Type 0 where
  pub registry_root : Text
  pub offline : Bool

pub record RegistryReadSecurityDecision : Type 0 where
  pub registry_root : Text
  pub request_headers : List Text
  pub provider_name : Text

pub record RegistryWriteSecurityRequest : Type 0 where
  pub registry_root : Text
  pub allow_plaintext_http : Bool

pub record RegistryWriteSecurityDecision : Type 0 where
  pub registry_root : Text
  pub request_headers : List Text
  pub provider_name : Text
  pub mode : Text

abbrev pub no_read_decision : RegistryReadSecurityDecision
no_read_decision = record {
  registry_root = [];
  request_headers = [];
  provider_name = text "public-default";
}

abbrev pub no_write_decision : RegistryWriteSecurityDecision
no_write_decision = record {
  registry_root = [];
  request_headers = [];
  provider_name = text "public-default";
  mode = text "anonymous";
}

pub data HandlerResult (D : Type 0) : Type 0 where
  continue : D → HandlerResult D
  resolved : D → HandlerResult D

abbrev pub Handler : Type 0 → Type 0 → Type 0
Handler R D = R → D → Result (HandlerResult D)

-- `RunSecurityChain`: the handlers in turn, until one resolves
unfoldable pub run_security_chain : {R D : Type 0} → R → D → List (Handler R D) → Result D
run_security_chain request decision [] = err logic "registry security chain did not resolve"
run_security_chain request decision (handler ∷ rest) = do
  outcome ← handler request decision
  elim outcome [ continue d ↦ run_security_chain request d rest | resolved d ↦ ok d ]
