-- ===== src/Plan/Invocations.antt =====
-- CompilePlan.cpp: the directories of invocations in the cache, and which of them are removed.
pub mod Names
pub mod Retained
use pafio_nightly.Prelude.{
  ℕ, zero, suc, ◌+◌, ◌-◌, ◌*◌, ◌%◌, ◌^◌, Bool, true, false, not, ◌||◌, Option, none, some, List, [],
  ◌∷◌, map, length, ltb, leb, within, ◌==◌, if◌then◌else◌, Text, text_eq, cut,
}
use pafio_nightly.FilePath.{slash}

abbrev pub max_part : ℕ
max_part = 100000000000000000

-- one of the two parts, an `unsigned long long`, from its value so far
unfoldable pub decimal_part : ℕ → Text → Option ℕ
decimal_part value [] = some value
decimal_part value (c ∷ rest) =
    let next = decimal_part ((value * 10 + (c - b'0')) % 2 ^ 64) rest in
    if not (within b'0' b'9' c) || ltb max_part value then none else next

abbrev both_parts : Option ℕ → Option ℕ → Option (ℕ × ℕ)
both_parts (some tick) (some sequence) = some (tick, sequence)
both_parts _ _ = none

abbrev pub parse_parts : Option (Text × Text) → Option (ℕ × ℕ)
parse_parts none = none
parse_parts (some (first, second)) =
    if text_eq first [] || text_eq second []
    then none
    else both_parts (decimal_part 0 first) (decimal_part 0 second)

unfoldable pub parse_invocation_dir_name : Text → Option (ℕ × ℕ)
parse_invocation_dir_name name = parse_parts (cut b'-' name)

pub record InvocationDir : Type 0 where
  pub tick : ℕ
  pub sequence : ℕ
  pub path : Text

-- an entry of the directory: its name, and whether it is a directory, with no error
pub record DirectoryEntry : Type 0 where
  pub name : Text
  pub is_directory : Bool

abbrev pub retained_invocation_roots : ℕ
retained_invocation_roots = 8

-- the comparison of `std::sort`
abbrev pub newer : InvocationDir → InvocationDir → Bool
newer a b = if a.tick == b.tick then ltb b.sequence a.sequence else ltb b.tick a.tick

unfoldable pub insert_dir : InvocationDir → List InvocationDir → List InvocationDir
insert_dir a [] = a ∷ []
insert_dir a (b ∷ rest) =
    let later = insert_dir a rest in if newer b a then b ∷ later else a ∷ b ∷ rest

unfoldable pub newest_first : List InvocationDir → List InvocationDir
newest_first [] = []
newest_first (a ∷ rest) = insert_dir a (newest_first rest)

abbrev pub take : ℕ → List InvocationDir → List InvocationDir
take zero dirs = []
take (suc n) [] = []
take (suc n) (a ∷ rest) = a ∷ take n rest

abbrev pub drop : ℕ → List InvocationDir → List InvocationDir
drop zero dirs = dirs
drop (suc n) [] = []
drop (suc n) (a ∷ rest) = drop n rest

module _ (cache_root current preserve : Text) where
  abbrev pub keep_entry : Text → Option (ℕ × ℕ) → List InvocationDir → List InvocationDir
  keep_entry path none later = later
  keep_entry path (some (tick, sequence)) later =
      if text_eq path current || text_eq path preserve
      then later
      else record { tick = tick; sequence = sequence; path = path } ∷ later

  -- the loop over the directory
  unfoldable pub collect_invocations : List DirectoryEntry → List InvocationDir
  collect_invocations [] = []
  collect_invocations (entry ∷ rest) =
      let later = collect_invocations rest in
      if not entry.is_directory
      then later
      else keep_entry (slash cache_root entry.name) (parse_invocation_dir_name entry.name) later

  -- the directories that are removed, where the iteration ended with or without an error; a removal
  -- that fails is passed over
  unfoldable pub prune_invocation_roots : List DirectoryEntry → Bool → List Text
  prune_invocation_roots listing error =
      let entries = collect_invocations listing in
      if error || leb (length entries) retained_invocation_roots
      then []
      else map (λ (dir : InvocationDir). dir.path)
          (drop retained_invocation_roots (newest_first entries))
