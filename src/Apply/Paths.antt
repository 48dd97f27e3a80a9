-- ===== src/Apply/Paths.antt =====
-- internal/service/apply_atomic.go, `validateSettingsPath`, over the code points of a path; with
-- Go's lexical `filepath.Clean` and `strings.Split` for a Unix separator.
use nrcc.Base.Texts.{Text, codes, text_eq}
use nrcc.Base.{
  ℕ, String, Bool, true, false, not, ◌&&◌, ◌||◌, Option, none, some, List, [], ◌∷◌, ◌++◌, ◌==◌,
  if◌then◌else◌,
}
use nrcc.Apply.{Cause, path_invalid}

abbrev pub separator : ℕ
separator = b'/'

abbrev pub dot_dot : Text
dot_dot = b'.' ∷ b'.' ∷ []

abbrev add_first : ℕ → List Text → List Text
add_first c [] = (c ∷ []) ∷ []
add_first c (part ∷ parts) = (c ∷ part) ∷ parts

-- `strings.Split(s, "/")`: one part more than there are separators.
unfoldable pub split : Text → List Text
split [] = [] ∷ []
split (c ∷ s) = let parts = split s in if c == separator then [] ∷ parts else add_first c parts

-- The stack of `filepath.Clean`, its top first, after one more component.
clean_step : Bool → List Text → Text → List Text
clean_step rooted [] part =
    if text_eq part [] || text_eq part (b'.' ∷ [])
    then []
    else if text_eq part dot_dot && rooted
    then []
    else part ∷ []
clean_step rooted (top ∷ stack) part =
    if text_eq part [] || text_eq part (b'.' ∷ [])
    then top ∷ stack
    else if text_eq part dot_dot && not (text_eq top dot_dot)
    then stack
    else part ∷ top ∷ stack

clean_all : Bool → List Text → List Text → List Text
unfolding clean_step
clean_all rooted stack [] = stack
clean_all rooted stack (part ∷ parts) = clean_all rooted (clean_step rooted stack part) parts

-- The components joined again; the stack holds the last one first.
join_onto : List Text → Text → Text
join_onto [] rest = rest
join_onto (part ∷ []) rest = part ++ rest
join_onto (part ∷ below ∷ stack) rest = join_onto (below ∷ stack) (separator ∷ part ++ rest)

abbrev is_rooted : Text → Bool
is_rooted [] = false
is_rooted (c ∷ s) = c == separator

rebuild : Bool → List Text → Text
unfolding join_onto
rebuild true stack = separator ∷ join_onto stack []
rebuild false [] = b'.' ∷ []
rebuild false (top ∷ stack) = join_onto (top ∷ stack) []

-- `filepath.Clean`
unfoldable pub clean : Text → Text
unfolding split clean_all rebuild
clean path = rebuild (is_rooted path) (clean_all (is_rooted path) [] (split path))

abbrev any_dot_dot : List Text → Bool
any_dot_dot [] = false
any_dot_dot (part ∷ parts) = text_eq part dot_dot || any_dot_dot parts

-- `validateSettingsPath`
unfoldable pub validate_settings_path : String → Option Cause
unfolding clean split
validate_settings_path path =
    let p = codes path in
    if not (text_eq (clean p) p)
    then some path_invalid
    else if any_dot_dot (split p)
    then some path_invalid
    else none
