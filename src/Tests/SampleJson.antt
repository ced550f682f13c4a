-- ===== src/Tests/SampleJson.antt =====
-- A small instance of the JSON interface, and of a verifier: documents as trees, a parser that knows
-- the texts of one registry, and signatures that repeat the key.
use pafio_nightly.Prelude.{
  ℕ, zero, suc, ◌%◌, ◌+◌, ◌/◌, false, Option, none, some, List, [], ◌∷◌, ◌++◌, if◌then◌else◌, Text,
  text_eq, length,
}
use pafio_nightly.Prelude.Int.{ℤ, pos}
use pafio_nightly.Trust.Json.{JsonLibrary}
use pafio_nightly.Trust.Fields.{Verifier, Objects}
use pafio_nightly.Tests.SampleToml.{Node, number, as_fields, as_items, as_text, as_boolean}

abbrev pub Documents : Type 0
Documents = List (Text × Node)

unfoldable pub find_document : Documents → Text → Option Node
unfolding text_eq
find_document [] name = none
find_document ((known, document) ∷ rest) name =
    let later = find_document rest name in if text_eq known name then some document else later

abbrev as_number : Node → Option ℤ
as_number (number n) = some (pos n)
as_number _ = none

-- the parser reads the names of the documents
abbrev pub sample_json : Documents → JsonLibrary
sample_json documents = record {
  Value = Node;
  parse = find_document documents;
  as_object = as_fields;
  as_array = as_items;
  as_string = as_text;
  as_boolean = as_boolean;
  is_null = λ v. false;
  as_integer = as_number;
  to_int = as_number;
  dump = λ v. [];
  dump_text = λ s. s;
  depth = λ v. 9;
}

abbrev repeated : ℕ → ℕ → Text
repeated zero c = []
repeated (suc n) c = c ∷ repeated n c

-- 62 zeros, and the length in two digits
abbrev pub sample_digest : Text → Text
sample_digest s = repeated 62 b'0' ++ ((b'0' + length s % 100 / 10) ∷ (b'0' + length s % 10) ∷ [])

abbrev pub sample_verifier : Documents → Verifier
sample_verifier documents = record {
  json = sample_json documents;
  now = 0;
  sha256_text = sample_digest;
  sha256_raw = λ s. repeated 32 (length s % 10);
  ed25519_verify_pem = λ pem message sig. some (text_eq pem sig);
}

-- an object under each name of a document, with the name as its bytes
abbrev pub sample_objects : Documents → Objects
sample_objects documents path = elim (find_document documents path) [
  | none ↦ none
  | some document ↦ some path
]
