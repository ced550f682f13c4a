-- ===== src/Trust/Chain/Leaves.antt =====
-- The transparency log against its description: the digests of the numbered leaves, folded from
-- zeros, are the root hash of the checkpoint.
use pafio_nightly.Prelude.{
  ℕ, zero, suc, ◌+◌, ◌≤◌, true, not, ◌&&◌, some, List, [], ◌∷◌, ◌≡◌, refl, ap, sym, ◌∙◌, length,
  Text, text, text_eq, text_eq_iff, arith,
}
use mathlib.Core.Path.{subst}
use mathlib.Core.List.{foldl}
use pafio_nightly.Prelude.Int.{ℤ, pos, negsuc, int_ltb}
use pafio_nightly.Trust.Json.{member_as, integer_at}
use pafio_nightly.Trust.Outcomes.{
  done, bind-eq-done, unless-eq-done, unless-done, or_fail-eq-done, done_injective,
}
use pafio_nightly.Trust.Fields.{
  Verifier, Objects, require_object_bytes, parse_object, require_int_field, require_sha256,
}
use pafio_nightly.Trust.Attested.{parse_object-parses, digest_of-same}
use pafio_nightly.Trust.Chain.Log.{
  leaf_name, zeros, nat_of, is_sequence, hex_of_raw, read_leaf, extend, verify_leaves, verify_log,
}

module _ (V : Verifier) where
  open V use {json}
  open json use {Value, parse, as_string}

  -- the object under the name of the number is a leaf that states the number
  abbrev pub IsLeaf : Objects → ℕ → Value → Type 0
  IsLeaf objects sequence leaf =
      (bytes : Text) × (objects (leaf_name sequence) ≡ some bytes)
      × (parse bytes ≡ some leaf)
      × (integer_at json leaf (text "sequence") ≡ some (pos sequence))

  abbrev pub AreLeaves : Objects → ℕ → List Value → Type 0
  AreLeaves objects sequence [] = Unit
  AreLeaves objects sequence (leaf ∷ rest) =
      IsLeaf objects sequence leaf × AreLeaves objects (sequence + 1) rest

  is_sequence-pos :
      (sequence : ℕ) (number : ℤ) → is_sequence sequence number ≡ true → number ≡ pos sequence
  is_sequence-pos sequence (pos n) h = ground arith
  is_sequence-pos sequence (negsuc n) h = cc

  read_leaf-IsLeaf :
      (objects : Objects) (sequence : ℕ) {leaf : Value}
      → read_leaf V objects sequence ≡ done leaf
      → IsLeaf objects sequence leaf
  unfolding read_leaf require_object_bytes require_int_field
  read_leaf-IsLeaf objects sequence h =
      let (bytes, e0, h0) = bind-eq-done (require_object_bytes objects (leaf_name sequence)) _ h in
      let (leaf, e1, h1) = bind-eq-done (parse_object json bytes) _ h0 in
      let (number, e2, h2) = bind-eq-done (require_int_field json leaf (text "sequence")) _ h1 in
      let (same, h3) = unless-eq-done (is_sequence sequence number) _ _ _ h2 in
      let stated = or_fail-eq-done _ _ (integer_at json leaf (text "sequence")) e2 in
      subst (IsLeaf objects sequence) (done_injective h3) (
        bytes,
        or_fail-eq-done _ _ (objects (leaf_name sequence)) e0,
        parse_object-parses V bytes e1,
        stated ∙ ap some (is_sequence-pos sequence number same),
      )

  verify_leaves-fold :
      (objects : Objects) (left sequence : ℕ) (computed : Text) {final : Text}
      → verify_leaves V objects left sequence computed ≡ done final
      → (leaves : List Value) × (length leaves ≡ left)
        × AreLeaves objects sequence leaves
        × (foldl (extend V) computed leaves ≡ final)
  unfolding verify_leaves
  verify_leaves-fold objects zero sequence computed h = ([], refl, tt, done_injective h)
  verify_leaves-fold objects (suc left) sequence computed h =
      let (leaf, e, h1) = bind-eq-done (read_leaf V objects sequence) _ h in
      let (leaves, count, are, folds) =
        verify_leaves-fold objects left (sequence + 1) (extend V computed leaf) h1 in
      (leaf ∷ leaves, ap suc count, (read_leaf-IsLeaf objects sequence e, are), folds)

  size_in_range :
      (n : ℤ)
      → (not (int_ltb n (pos 0)) && not (int_ltb (pos 1000000) n)) ≡ true
      → (n ≡ pos (nat_of n)) × (nat_of n ≤ 1000000)
  size_in_range (pos n) h = (refl, ground arith)
  size_in_range (negsuc n) h = cc

  -- Where the check of the log passes, the checkpoint's tree_size is the number of its leaves, at
  -- most a million; the objects numbered from 1 are leaves that state their numbers; and the
  -- checkpoint's root_hash is the hexadecimal form of their digests, folded from 32 zeros.
  pub verify_log-folds :
      (objects : Objects) (checkpoint : Value)
      → verify_log V objects checkpoint ≡ done tt
      → (leaves : List Value) × (integer_at json checkpoint (text "tree_size")
          ≡ some (pos (length leaves)))
        × (length leaves ≤ 1000000)
        × AreLeaves objects 1 leaves
        × (member_as json as_string checkpoint (text "root_hash")
            ≡ some (hex_of_raw (foldl (extend V) (zeros 32) leaves)))
  unfolding verify_log require_int_field require_sha256
  verify_log-folds objects checkpoint h =
      let (size, e0, h0) =
        bind-eq-done (require_int_field json checkpoint (text "tree_size")) _ h in
      let bounded = not (int_ltb size (pos 0)) && not (int_ltb (pos 1000000) size) in
      let (in_range, h1) = unless-eq-done bounded _ _ _ h0 in
      let (root_hash, e2, h2) =
        bind-eq-done (require_sha256 json checkpoint (text "root_hash")) _ h1 in
      let (computed, e3, h3) =
        bind-eq-done (verify_leaves V objects (nat_of size) 1 (zeros 32)) _ h2 in
      let same = unless-done (text_eq (hex_of_raw computed) root_hash) _ _ h3 in
      let (leaves, count, are, folds) = verify_leaves-fold objects (nat_of size) 1 (zeros 32) e3 in
      let (whole, bound) = size_in_range size in_range in
      let stated = or_fail-eq-done _ _ (integer_at json checkpoint (text "tree_size")) e0 in
      let digest = digest_of-same V (member_as json as_string checkpoint (text "root_hash")) e2 in
      (
        leaves,
        stated ∙ ap some (whole ∙ ap pos (sym count)),
        omega (arith, count),
        are,
        digest ∙ ap some (sym ((text_eq_iff _ _).0 same) ∙ ap hex_of_raw (sym folds)),
      )
