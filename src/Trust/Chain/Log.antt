-- ===== src/Trust/Chain/Log.antt =====
-- TufVerifier.cpp: the leaves of the transparency log, hashed one after the other.
use pafio_nightly.Prelude.{
  ℕ, zero, suc, ◌+◌, ◌-◌, ◌*◌, ◌/◌, ◌%◌, Bool, false, not, ◌&&◌, [], ◌∷◌, ◌++◌, within,
  if◌then◌else◌, Text, text, text_eq, ◌==◌,
}
use pafio_nightly.Prelude.Int.{ℤ, pos, negsuc, int_ltb}
use pafio_nightly.Trust.Outcomes.{Outcome, done, unless, ◌>>=◌, ◌>>◌}
use pafio_nightly.Trust.Fields.{
  Verifier, Objects, require_object_bytes, parse_object, require_int_field, require_sha256,
}
use pafio_nightly.Trust.CanonicalJson.{canonical_json_bytes}

-- `std::setw(width) << std::setfill('0') << n`, of a number with no more digits
unfoldable pub padded : ℕ → ℕ → Text
padded zero n = []
padded (suc width) n = padded width (n / 10) ++ ((b'0' + n % 10) ∷ [])

unfoldable pub leaf_name : ℕ → Text
unfolding padded
leaf_name sequence = text "log/leaves/" ++ (padded 12 sequence ++ text ".json")

-- modulo 256, as the sum is cast to a `char`
abbrev pub nibble : ℕ → ℕ
nibble ch = if within b'0' b'9' ch then ch - b'0' else ch + 10 + 256 - b'a'

unfoldable pub raw_of_hex : Text → Text
raw_of_hex (hi ∷ lo ∷ rest) = ((nibble hi * 16 + nibble lo) % 256) ∷ raw_of_hex rest
raw_of_hex _ = []

abbrev pub hex_char : ℕ → ℕ
hex_char n = if within 0 9 n then b'0' + n else b'a' + n - 10

unfoldable pub hex_of_raw : Text → Text
hex_of_raw [] = []
hex_of_raw (c ∷ s) = hex_char (c / 16) ∷ hex_char (c % 16) ∷ hex_of_raw s

-- `std::string(32, '\0')`
abbrev pub zeros : ℕ → Text
zeros zero = []
zeros (suc n) = 0 ∷ zeros n

abbrev pub nat_of : ℤ → ℕ
nat_of (pos n) = n
nat_of (negsuc n) = 0

abbrev pub is_sequence : ℕ → ℤ → Bool
is_sequence sequence (pos n) = n == sequence
is_sequence sequence (negsuc n) = false

module _ (V : Verifier) where
  open V use {json, sha256_text, sha256_raw}
  open json use {Value}

  -- the leaf with a number, which must say so itself
  unfoldable pub read_leaf : Objects → ℕ → Outcome Value
  unfolding leaf_name
  read_leaf objects sequence = do
    bytes ← require_object_bytes objects (leaf_name sequence)
    leaf ← parse_object json bytes
    number ← require_int_field json leaf (text "sequence")
    unless (is_sequence sequence number) "tuf.log_sequence" "log leaf sequence mismatch"
    done leaf

  unfoldable pub extend : Text → Value → Text
  unfolding raw_of_hex
  extend computed leaf =
      sha256_raw (computed ++ raw_of_hex (sha256_text (canonical_json_bytes json leaf)))

  -- the loop, by the leaves that are left
  unfoldable pub verify_leaves : Objects → ℕ → ℕ → Text → Outcome Text
  verify_leaves objects zero sequence computed = done computed
  verify_leaves objects (suc left) sequence computed = do
    leaf ← read_leaf objects sequence
    verify_leaves objects left (sequence + 1) (extend computed leaf)

  unfoldable pub verify_log : Objects → Value → Outcome (Unit {0})
  unfolding hex_of_raw
  verify_log objects checkpoint = do
    tree_size ← require_int_field json checkpoint (text "tree_size")
    unless (not (int_ltb tree_size (pos 0)) && not (int_ltb (pos 1000000) tree_size)) "tuf.log_size"
        "checkpoint tree_size must be between 0 and 1000000"
    root_hash ← require_sha256 json checkpoint (text "root_hash")
    computed ← verify_leaves objects (nat_of tree_size) 1 (zeros 32)
    unless (text_eq (hex_of_raw computed) root_hash) "tuf.log_root"
        "transparency checkpoint root hash mismatch"
