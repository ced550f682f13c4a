-- ===== src/FilePath.antt =====
-- `std::filesystem::path` on POSIX, as the text that it holds: the operations that the sources use.
-- `lexically_normal` follows the rules of the C++ standard, component by component.
pub mod Join
use pafio_nightly.Prelude.{
  ℕ, zero, suc, Bool, true, false, not, ◌&&◌, ◌||◌, Option, none, some, List, [], ◌∷◌, ◌++◌, ◌==◌,
  if◌then◌else◌, Text, text, text_eq, has_byte, cut, before, split_lines, starts_with, any, map,
}

-- `value.ends_with(c)`, and `back() == c`
unfoldable pub last_is : ℕ → Text → Bool
last_is c [] = false
last_is c (a ∷ []) = a == c
last_is c (a ∷ b ∷ s) = last_is c (b ∷ s)

unfoldable pub join : List Text → Text
join [] = []
join (x ∷ []) = x
join (x ∷ y ∷ r) = x ++ (b'/' ∷ join (y ∷ r))

-- `path.is_absolute()`, which is `path.has_root_path()` on POSIX
unfoldable pub is_absolute : Text → Bool
unfolding starts_with
is_absolute p = starts_with p (b'/' ∷ [])

unfoldable pub components : Text → List Text
unfolding split_lines
components p = split_lines b'/' p

-- a component that names a file: not empty, `.` or `..`
unfoldable pub is_file_name : Text → Bool
unfolding text_eq
is_file_name c = not (text_eq c [] || text_eq c (text ".") || text_eq c (text ".."))

-- the last name of a relative or absolute path so far can be taken back by `..`
unfoldable pub ends_in_name : List Text → Bool
unfolding is_file_name
ends_in_name [] = false
ends_in_name (x ∷ []) = is_file_name x
ends_in_name (x ∷ y ∷ r) = ends_in_name (y ∷ r)

unfoldable pub drop_last : List Text → List Text
drop_last [] = []
drop_last (x ∷ []) = []
drop_last (x ∷ y ∷ r) = x ∷ drop_last (y ∷ r)

-- the components that stay, and whether a separator is left behind the last one
unfoldable pub normal_components : Bool → List Text → Bool → List Text → List Text × Bool
unfolding is_file_name ends_in_name drop_last text_eq
normal_components root done sep [] = (done, sep)
normal_components root done sep (c ∷ rest) =
    let name = normal_components root (done ++ (c ∷ [])) false rest in
    let taken = normal_components root (drop_last done) true rest in
    let same = normal_components root done true rest in
    if is_file_name c
    then name
    else if not (text_eq c (text ".."))
    then same
    else if ends_in_name done
    then taken
    else if root
    then same
    else name

unfoldable pub render : Bool → Bool → List Text → Text
unfolding join ends_in_name
render root sep done =
    let body = join done ++ (if sep && ends_in_name done then b'/' ∷ [] else []) in
    if root then b'/' ∷ body else if text_eq body [] then text "." else body

unfoldable pub lexically_normal : Text → Text
unfolding normal_components render components is_absolute last_is text_eq
lexically_normal [] = []
lexically_normal (a ∷ s) =
    let p : Text = a ∷ s in
    let (done, sep) = normal_components (is_absolute p) [] false (components p) in
    render (is_absolute p) (sep || last_is b'/' p) done

-- `left / right`
unfoldable pub slash : Text → Text → Text
unfolding is_absolute last_is text_eq
slash left right =
    if is_absolute right
    then right
    else if text_eq left [] || last_is b'/' left
    then left ++ right
    else left ++ (b'/' ∷ right)

-- the text in front of the last slash, if there is one, and the text behind it
unfoldable pub cut_last : Text → Option (Text × Text)
cut_last [] = none
cut_last (a ∷ s) = elim (cut_last s) [
  | some (dir, file) ↦ some (a ∷ dir, file)
  | none ↦ if a == b'/' then some ([], s) else none
]

abbrev directory : Option (Text × Text) → Text
directory none = []
directory (some ([], file)) = b'/' ∷ []
directory (some (a ∷ dir, file)) = a ∷ dir

-- `path.parent_path()` of a path with no doubled separators; the parent of `/` is `/`
unfoldable pub parent_path : Text → Text
unfolding cut_last
parent_path p = directory (cut_last p)

-- what is left of two rows of components behind their common beginning
unfoldable pub past_common : List Text → List Text → List Text × List Text
unfolding text_eq
past_common [] base = ([], base)
past_common (a ∷ path) [] = (a ∷ path, [])
past_common (a ∷ path) (b ∷ base) =
    let rest = past_common path base in if text_eq a b then rest else (a ∷ path, b ∷ base)

abbrev climb : List Text → List Text → Text
climb [] [] = text "."
climb up down = join (map (λ _. text "..") up ++ down)

-- `path.lexically_relative(base)` of two absolute paths in normal form with no slash at the end
unfoldable pub lexically_relative : Text → Text → Text
unfolding past_common components join
lexically_relative path base =
    let (down, up) = past_common (components path) (components base) in climb up down
