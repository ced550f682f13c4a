-- ===== src/Plan/Invocations/Retained.antt =====
-- What the removal of old invocations keeps.
use mathlib.Core.Path.{subst}
use mathlib.Core.List.{Permᴰ}
use mathlib.Core.List.Permᴰ
use pafio_nightly.Prelude.{
  ℕ, zero, suc, ◌≤◌, Bool, true, false, ◌||◌, Option, none, some, List, [], ◌∷◌, ◌++◌, map, length,
  leb, not, if◌then◌else◌, Text, text_eq, All, All-perm, arith, ◌≡◌, refl, sym, ap, ◌∙◌, append-nil,
  inl, inr, ◌⊎◌, Bool-cases,
}
use pafio_nightly.FilePath.{slash}
use pafio_nightly.Plan.Invocations.{
  parse_invocation_dir_name, InvocationDir, DirectoryEntry, retained_invocation_roots, newer,
  insert_dir, newest_first, take, drop, keep_entry, collect_invocations, prune_invocation_roots,
}

abbrev pub NotNewer : InvocationDir → InvocationDir → Type 0
NotNewer a b = newer b a ≡ false

-- each is at least as new as those behind it
abbrev pub IsNewestFirst : List InvocationDir → Type 0
IsNewestFirst [] = Unit
IsNewestFirst (a ∷ rest) = All (NotNewer a) rest × IsNewestFirst rest

NotNewer-trans : (a b c : InvocationDir) → NotNewer a b → NotNewer b c → NotNewer a c
NotNewer-trans a b c p q = ground arith

newer-NotNewer : (a b : InvocationDir) → newer a b ≡ true → NotNewer a b
newer-NotNewer a b h = ground arith

All-NotNewer :
    (a b : InvocationDir) (rest : List InvocationDir)
    → NotNewer a b
    → All (NotNewer b) rest
    → All (NotNewer a) rest
All-NotNewer a b [] n h = tt
All-NotNewer a b (c ∷ rest) n h = (NotNewer-trans a b c n h.0, All-NotNewer a b rest n h.1)

insert_dir-perm : (a : InvocationDir) (l : List InvocationDir) → Permᴰ (a ∷ l) (insert_dir a l)
unfolding insert_dir
insert_dir-perm a [] = Permᴰ.cons refl Permᴰ.nil
insert_dir-perm a (b ∷ l) = elim (Bool-cases (newer b a)) [
  | inl h ↦ rw h (Permᴰ.trans (Permᴰ.swap refl refl) (Permᴰ.cons refl (insert_dir-perm a l)))
  | inr h ↦ rw h (Permᴰ.refl (a ∷ b ∷ l))
]

insert_dir-sorted :
    (a : InvocationDir) (l : List InvocationDir) → IsNewestFirst l → IsNewestFirst (insert_dir a l)
unfolding insert_dir
insert_dir-sorted a [] h = (tt, tt)
insert_dir-sorted a (b ∷ l) h = elim (Bool-cases (newer b a)) [
  | inl e ↦ rw e (
    All-perm (NotNewer b) (insert_dir-perm a l) (newer-NotNewer b a e, h.0),
    insert_dir-sorted a l h.1,
  )
  | inr e ↦ rw e ((e, All-NotNewer a b l e h.0), h)
]

newest_first-perm : (l : List InvocationDir) → Permᴰ l (newest_first l)
unfolding newest_first
newest_first-perm [] = Permᴰ.nil
newest_first-perm (a ∷ l) =
    Permᴰ.trans (Permᴰ.cons refl (newest_first-perm l)) (insert_dir-perm a (newest_first l))

newest_first-sorted : (l : List InvocationDir) → IsNewestFirst (newest_first l)
unfolding newest_first
newest_first-sorted [] = tt
newest_first-sorted (a ∷ l) = insert_dir-sorted a (newest_first l) (newest_first-sorted l)

length-perm : {xs ys : List InvocationDir} → Permᴰ xs ys → length xs ≡ length ys
length-perm Permᴰ.nil = refl
length-perm (Permᴰ.cons e p) = ap suc (length-perm p)
length-perm (Permᴰ.swap e d) = refl
length-perm (Permᴰ.trans p q) = length-perm p ∙ length-perm q

take-drop : (n : ℕ) (l : List InvocationDir) → take n l ++ drop n l ≡ l
take-drop zero l = refl
take-drop (suc n) [] = refl
take-drop (suc n) (a ∷ l) = ap (◌∷◌ a) (take-drop n l)

length-take : (n : ℕ) (l : List InvocationDir) → n ≤ length l → length (take n l) ≡ n
length-take zero l h = refl
length-take (suc n) [] h = absurd (omega (arith, h))
length-take (suc n) (a ∷ l) h = ap suc (length-take n l (omega (arith, h)))

All-drop :
    (P : InvocationDir → Type 0) (n : ℕ) (l : List InvocationDir) → All P l → All P (drop n l)
All-drop P zero l h = h
All-drop P (suc n) [] h = tt
All-drop P (suc n) (a ∷ l) h = All-drop P n l h.1

take-newest :
    (n : ℕ) (l : List InvocationDir)
    → IsNewestFirst l
    → All (λ kept. All (NotNewer kept) (drop n l)) (take n l)
take-newest zero l h = tt
take-newest (suc n) [] h = tt
take-newest (suc n) (a ∷ l) h = (All-drop (NotNewer a) n l h.0, take-newest n l h.1)

module _ (cache_root current preserve : Text) where
  -- An entry that is a directory whose name is that of an invocation, neither the current one nor
  -- the one to be preserved, as it is collected.
  pub record IsCandidate (entry : DirectoryEntry) (dir : InvocationDir) : Type 0 where
    pub is_directory : entry.is_directory ≡ true
    pub at_name : dir.path ≡ slash cache_root entry.name
    pub is_invocation : parse_invocation_dir_name entry.name ≡ some (dir.tick, dir.sequence)
    pub not_current : text_eq dir.path current ≡ false
    pub not_preserved : text_eq dir.path preserve ≡ false

  -- The candidates of a listing, in its order: each entry that is one is taken, and an entry is
  -- passed over only where it is none.
  pub data Candidates : List DirectoryEntry → List InvocationDir → Type 0 where
    ends : Candidates [] []
    takes :
        {entry : DirectoryEntry} {dir : InvocationDir} {rest : List DirectoryEntry}
        {dirs : List InvocationDir}
        → IsCandidate entry dir
        → Candidates rest dirs
        → Candidates (entry ∷ rest) (dir ∷ dirs)
    passes :
        {entry : DirectoryEntry} {rest : List DirectoryEntry} {dirs : List InvocationDir}
        → ((dir : InvocationDir) → IsCandidate entry dir → ⊥)
        → Candidates rest dirs
        → Candidates (entry ∷ rest) dirs

  -- neither the current directory nor the one to be preserved
  abbrev pub IsSpare : InvocationDir → Type 0
  IsSpare dir = (text_eq dir.path current ≡ false) × (text_eq dir.path preserve ≡ false)

  -- The candidates are those that are kept and those that are gone, whose paths are removed. What
  -- is kept is no older. Something is gone only where as many are kept as the limit allows, and
  -- without an error no more are kept.
  pub record Retains (listing : List DirectoryEntry) (error : Bool) (removed : List Text)
      : Type 0 where
    pub candidates : List InvocationDir
    pub kept : List InvocationDir
    pub gone : List InvocationDir
    pub collected : Candidates listing candidates
    pub all_dirs : Permᴰ candidates (kept ++ gone)
    pub removes : removed ≡ map (λ (dir : InvocationDir). dir.path) gone
    pub no_older : All (λ k. All (NotNewer k) gone) kept
    pub only_above : (gone ≡ []) ⊎ (length kept ≡ retained_invocation_roots)
    pub limited : error ≡ false → length kept ≤ retained_invocation_roots
    pub spares : All IsSpare gone

  differs :
      (path other limit : Text)
      → path ≡ other
      → text_eq other limit ≡ true
      → text_eq path limit ≡ true
  differs path other limit e h = rw e h

  keep_entry-Candidates :
      (entry : DirectoryEntry) (parts : Option (ℕ × ℕ)) (rest : List DirectoryEntry)
      (later : List InvocationDir)
      → entry.is_directory ≡ true
      → parse_invocation_dir_name entry.name ≡ parts
      → Candidates rest later
      → Candidates
          (entry ∷ rest)
          (keep_entry cache_root current preserve (slash cache_root entry.name) parts later)
  keep_entry-Candidates entry none rest later d e h =
      passes (λ dir c. cc (sym c.is_invocation ∙ e)) h
  keep_entry-Candidates entry (some (tick, sequence)) rest later d e h =
      let path = slash cache_root entry.name in
      elim (Bool-cases (text_eq path current)) [
        | inl c ↦
            rw c (
              passes (λ dir i. cc (sym i.not_current ∙ differs dir.path path current i.at_name c))
                h)
        | inr c ↦ elim (Bool-cases (text_eq path preserve)) [
          | inl p ↦
              rw (c, p)
                (passes
                  (λ dir i. cc (sym i.not_preserved ∙ differs dir.path path preserve i.at_name p))
                  h)
          | inr p ↦
              rw (c, p)
                (takes
                  (record {
                    is_directory = d;
                    at_name = refl;
                    is_invocation = e;
                    not_current = c;
                    not_preserved = p;
                  })
                  h)
        ]
      ]

  collect_entry-Candidates :
      (entry : DirectoryEntry) (rest : List DirectoryEntry) (later : List InvocationDir)
      (flag : Bool)
      → entry.is_directory ≡ flag
      → Candidates rest later
      → Candidates (entry ∷ rest) (
          if not flag
          then later
          else keep_entry cache_root current preserve
              (slash cache_root entry.name)
              (parse_invocation_dir_name entry.name)
              later)
  collect_entry-Candidates entry rest later true e h =
      keep_entry-Candidates entry _ rest later e refl h
  collect_entry-Candidates entry rest later false e h =
      passes (λ dir c. cc (sym c.is_directory ∙ e)) h

  collect_invocations-Candidates :
      (listing : List DirectoryEntry)
      → Candidates listing (collect_invocations cache_root current preserve listing)
  unfolding collect_invocations
  collect_invocations-Candidates [] = ends
  collect_invocations-Candidates (entry ∷ rest) =
      collect_entry-Candidates entry rest _ _ refl (collect_invocations-Candidates rest)

  Candidates-IsSpare :
      {listing : List DirectoryEntry} {dirs : List InvocationDir}
      → Candidates listing dirs
      → All IsSpare dirs
  Candidates-IsSpare ends = tt
  Candidates-IsSpare (takes c h) = ((c.not_current, c.not_preserved), Candidates-IsSpare h)
  Candidates-IsSpare (passes n h) = Candidates-IsSpare h

  none_gone :
      (listing : List DirectoryEntry) (candidates : List InvocationDir) (error : Bool)
      → Candidates listing candidates
      → (error ≡ false → length candidates ≤ retained_invocation_roots)
      → Retains listing error []
  none_gone listing candidates error collects limit = record {
    candidates = candidates;
    collected = collects;
    kept = candidates;
    gone = [];
    all_dirs = rw (append-nil candidates) (Permᴰ.refl candidates);
    removes = refl;
    no_older = trivially candidates;
    only_above = inl refl;
    limited = limit;
    spares = tt;
  }
    where
      trivially : (l : List InvocationDir) → All (λ k. All (NotNewer k) []) l
      trivially [] = tt
      trivially (a ∷ l) = (tt, trivially l)

  some_gone :
      (listing : List DirectoryEntry) (candidates : List InvocationDir) (error : Bool)
      → Candidates listing candidates
      → retained_invocation_roots ≤ length candidates
      → Retains listing error (
          map
            (λ (dir : InvocationDir). dir.path)
            (drop retained_invocation_roots (newest_first candidates)))
  some_gone listing candidates error collects enough =
      let sorted = newest_first candidates in
      let n = retained_invocation_roots in
      let full =
        length-take n sorted
          (subst (λ m. n ≤ m) (length-perm (newest_first-perm candidates)) enough) in
      record {
        candidates = candidates;
        collected = collects;
        kept = take n sorted;
        gone = drop n sorted;
        all_dirs =
            subst (Permᴰ candidates) (sym (take-drop n sorted)) (newest_first-perm candidates);
        removes = refl;
        no_older = take-newest n sorted (newest_first-sorted candidates);
        only_above = inr full;
        limited = λ _. omega (arith, full);
        spares =
            All-drop IsSpare n sorted
              (All-perm IsSpare (newest_first-perm candidates) (Candidates-IsSpare collects));
      }

  -- `PruneInvocationRoots` removes directories with names of invocations only, never the current one
  -- nor the one to be preserved. It keeps the newest of the others, eight of them where it removes
  -- any, and no more than eight where the directory is read without an error.
  pub prune_invocation_roots-Retains :
      (listing : List DirectoryEntry) (error : Bool)
      → Retains listing error (prune_invocation_roots cache_root current preserve listing error)
  unfolding prune_invocation_roots
  prune_invocation_roots-Retains listing error =
      let candidates = collect_invocations cache_root current preserve listing in
      let collects = collect_invocations-Candidates listing in
      elim (Bool-cases (error || leb (length candidates) retained_invocation_roots)) [
        | inl h ↦ rw h (none_gone listing candidates error collects (λ e. ground (arith, h, e)))
        | inr h ↦ rw h (some_gone listing candidates error collects (ground (arith, h)))
      ]
