-- ===== src/Toml/BasicString.antt =====
-- A reader of basic strings as the TOML specification defines them, over bytes, and the proof that
-- it reads back what `QuoteTomlString` writes. Of the `\u` escapes it knows the ASCII ones.
use pafio_nightly.Prelude.{
  ℕ, zero, suc, ◌+◌, ◌-◌, ◌*◌, ◌/◌, ◌%◌, ◌<◌, Bool, false, not, ◌||◌, ◌&&◌, Option, none, some, [],
  ◌∷◌, ◌++◌, ◌==◌, ltb, within, if◌then◌else◌, Text, arith, ◌≡◌, refl, append_assoc, ◌∙◌, ap,
}
use pafio_nightly.Toml.{hex_digit, quote_byte, quote_bytes, quote_toml_string}

-- inside the string, behind a backslash, or with so many hexadecimal digits to come
data Mode : Type 0 where
  plain escape : Mode
  hex : ℕ → ℕ → Mode

hex_value : ℕ → Option ℕ
hex_value c =
    if within b'0' b'9' c
    then some (c - b'0')
    else if within b'A' b'F' c
    then some (c - b'A' + 10)
    else if within b'a' b'f' c
    then some (c - b'a' + 10)
    else none

-- the byte that a one-letter escape stands for
escaped : ℕ → Option ℕ
escaped c =
    if c == b'"'
    then some b'"'
    else if c == b'\\'
    then some b'\\'
    else if c == b'b'
    then some 8
    else if c == b't'
    then some 9
    else if c == b'n'
    then some 10
    else if c == b'f'
    then some 12
    else if c == b'r'
    then some 13
    else none

abbrev with_byte : ℕ → Option (Text × Text) → Option (Text × Text)
with_byte c none = none
with_byte c (some (value, rest)) = some (c ∷ value, rest)

-- control characters but the tab may not stand in a string
is_forbidden : ℕ → Bool
is_forbidden c = (ltb c 32 || c == 127) && not (c == 9)

read : Mode → Text → Option (Text × Text)
read _ [] = none
read plain (c ∷ s) =
    let next = read plain s in
    let behind = read escape s in
    if c == b'"'
    then some ([], s)
    else if c == b'\\'
    then behind
    else if is_forbidden c
    then none
    else with_byte c next
read escape (c ∷ s) =
    let next = read plain s in
    let digits = read (hex 4 0) s in
    if c == b'u' then digits else elim (escaped c) [ none ↦ none | some b ↦ with_byte b next ]
read (hex zero n) (c ∷ s) = none
read (hex (suc zero) n) (c ∷ s) =
    let next = read plain s in
    elim (hex_value c) [
      | none ↦ none
      | some v ↦ if ltb (n * 16 + v) 128 then with_byte (n * 16 + v) next else none
    ]
read (hex (suc (suc k)) n) (c ∷ s) = elim (hex_value c) [
  | none ↦ none
  | some v ↦ read (hex (suc k) (n * 16 + v)) s
]

-- The value of the basic string at the front of a text, and what follows it.
pub read_basic_string : Text → Option (Text × Text)
read_basic_string [] = none
read_basic_string (c ∷ s) = if c == b'"' then read plain s else none

hex_value-hex_digit : (n : ℕ) → n < 16 → hex_value (hex_digit n) ≡ some n
unfolding hex_value hex_digit
hex_value-hex_digit n h = ground arith

read_hex_more :
    (k n c v : ℕ) (s : Text)
    → hex_value c ≡ some v
    → read (hex (suc (suc k)) n) (c ∷ s) ≡ read (hex (suc k) (n * 16 + v)) s
unfolding read
read_hex_more k n c v s e = rw (e, read) refl

read_hex_last :
    (n c v : ℕ) (s : Text)
    → hex_value c ≡ some v
    → n * 16 + v < 128
    → read (hex 1 n) (c ∷ s) ≡ with_byte (n * 16 + v) (read plain s)
unfolding read
read_hex_last n c v s e h = rw (e, read) (ground arith)

read_ascii_escape :
    (ch : ℕ) (s : Text)
    → ch < 128
    → read plain (b'\\' ∷ b'u' ∷ b'0' ∷ b'0' ∷ hex_digit (ch / 16) ∷ hex_digit (ch % 16) ∷ s)
      ≡ with_byte ch (read plain s)
read_ascii_escape ch s h =
    let tail = hex_digit (ch / 16) ∷ hex_digit (ch % 16) ∷ s in
    let whole : (0 * 16 + ch / 16) * 16 + ch % 16 ≡ ch = omega arith in
    to_digits tail
    ∙ read_hex_more 2 0 b'0' 0 (b'0' ∷ tail) (unfold hex_value in refl)
    ∙ read_hex_more 1 0 b'0' 0 tail (unfold hex_value in refl)
    ∙ read_hex_more 0 0 _ (ch / 16) (hex_digit (ch % 16) ∷ s)
        (hex_value-hex_digit (ch / 16) (omega arith))
    ∙ read_hex_last (0 * 16 + ch / 16) _ (ch % 16) s (hex_value-hex_digit (ch % 16) (omega arith))
        (omega arith)
    ∙ ap (λ n. with_byte n (read plain s)) whole
  where
    to_digits :
        (t : Text) → read plain (b'\\' ∷ b'u' ∷ b'0' ∷ b'0' ∷ t) ≡ read (hex 4 0) (b'0' ∷ b'0' ∷ t)
    to_digits t = unfold read in refl

read_escape :
    (b ch : ℕ) (s : Text)
    → escaped b ≡ some ch
    → (b == b'u') ≡ false
    → read plain (b'\\' ∷ b ∷ s) ≡ with_byte ch (read plain s)
unfolding read
read_escape b ch s e no_u = rw (no_u, e) refl

read_plain :
    (ch : ℕ) (s : Text)
    → (ch == b'"') ≡ false
    → (ch == b'\\') ≡ false
    → (ltb ch 32 || ch == 127) ≡ false
    → read plain (ch ∷ s) ≡ with_byte ch (read plain s)
unfolding read is_forbidden
read_plain ch s p q r = rw (p, q, r) refl

-- one byte of the value is read back from what it is written as
read-quote_byte :
    (ch : ℕ) (s : Text) → read plain (quote_byte ch ++ s) ≡ with_byte ch (read plain s)
unfolding escaped
read-quote_byte ch s =
    unfold quote_byte in
    ground (
      arith,
      read_escape b'"' b'"' s refl refl,
      read_escape b'\\' b'\\' s refl refl,
      read_escape b'b' 8 s refl refl,
      read_escape b't' 9 s refl refl,
      read_escape b'n' 10 s refl refl,
      read_escape b'f' 12 s refl refl,
      read_escape b'r' 13 s refl refl,
      read_ascii_escape ch s,
      read_plain ch s,
    )

read-quote_bytes :
    (value rest : Text) → read plain (quote_bytes value ++ (b'"' ∷ rest)) ≡ some (value, rest)
unfolding quote_bytes
read-quote_bytes [] rest = unfold read in refl
read-quote_bytes (ch ∷ s) rest =
    rw append_assoc (rw (read-quote_byte ch, read-quote_bytes s rest) refl)

-- Whatever bytes a value holds, quotes, backslashes and control characters included, the basic
-- string that is written for it is read back as that value, and what follows it in the document is
-- what was left unread: no value can end its string early.
pub read-quote_toml_string :
    (value rest : Text) → read_basic_string (quote_toml_string value ++ rest) ≡ some (value, rest)
unfolding read_basic_string quote_toml_string
read-quote_toml_string value rest = rw append_assoc (read-quote_bytes value rest)

-- Two values that are written alike, even with other text behind them, are equal.
pub quote_toml_string_injective :
    (a b r s : Text) → quote_toml_string a ++ r ≡ quote_toml_string b ++ s → (a ≡ b) × (r ≡ s)
quote_toml_string_injective a b r s e =
    both (cc (read-quote_toml_string a r, read-quote_toml_string b s, ap read_basic_string e))
  where
    both : ◌≡◌ {A = Option (Text × Text)} (some (a, r)) (some (b, s)) → (a ≡ b) × (r ≡ s)
    both p = ground arith
