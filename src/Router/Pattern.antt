-- ===== src/Router/Pattern.antt =====
-- router.go: `parsePattern`, which checks a route pattern and returns its parameter names, and the
-- meaning of a pattern's segments in `insert`.
use torge.Base.{ℕ, Bool, true, false, ◌&&◌, ◌||◌, not, List, [], ◌∷◌, ◌++◌, ◌==◌, if◌then◌else◌}
use torge.Base.Text.{Text, text_eq, has_byte}

-- The errors of `parsePattern`, with the part that the message quotes.
pub data PatternError : Type 0 where
  no_slash empty_segment unnamed : PatternError
  wildcard_not_last invalid_parameter repeats mixes : Text → PatternError

pub data Parsed : Type 0 where
  names : List Text → Parsed
  failed : PatternError → Parsed

-- `strings.Split(s, "/")`.
abbrev pub cons_head : ℕ → List Text → List Text
cons_head c [] = (c ∷ []) ∷ []
cons_head c (s ∷ ss) = (c ∷ s) ∷ ss

unfoldable pub split_slash : Text → List Text
split_slash [] = [] ∷ []
split_slash (c ∷ s) = let rest = split_slash s in if c == b'/' then [] ∷ rest else cons_head c rest

abbrev pub contains : Text → List Text → Bool
contains s [] = false
contains s (t ∷ ts) = if text_eq t s then true else contains s ts

abbrev pub is_nil {ℓ} : {A : Type ℓ} → List A → Bool
is_nil [] = true
is_nil (x ∷ xs) = false

-- `name == ""` becomes "*".
abbrev pub param_name : Text → Text
param_name [] = b'*' ∷ []
param_name (c ∷ s) = c ∷ s

abbrev pub then_parse : Parsed → (List Text → Parsed) → Parsed
then_parse (failed e) k = failed e
then_parse (names ns) k = k ns

-- One round of the loop for a segment that is not empty; `last` is `i == len(segs)-1`. The names so
-- far are also the keys of `seen`.
unfoldable pub parse_segment : ℕ → Text → Bool → List Text → Parsed
parse_segment c name last seen =
    if c == b':' || c == b'*'
    then (if (c == b':') && is_nil name
        then failed unnamed
        else if (c == b'*') && not last
        then failed (wildcard_not_last (c ∷ name))
        else if has_byte b':' name || has_byte b'*' name
        then failed (invalid_parameter (c ∷ name))
        else if contains (param_name name) seen
        then failed (repeats (param_name name))
        else names (seen ++ param_name name ∷ []))
    else if has_byte b':' (c ∷ name) || has_byte b'*' (c ∷ name)
    then failed (mixes (c ∷ name))
    else names seen

unfoldable pub parse_segments : List Text → List Text → Parsed
parse_segments [] seen = names seen
parse_segments ([] ∷ []) seen = names seen
parse_segments ([] ∷ s ∷ segs) seen = failed empty_segment
parse_segments ((c ∷ name) ∷ segs) seen =
    then_parse (parse_segment c name (is_nil segs) seen) (parse_segments segs)

unfoldable pub parse_pattern : Text → Parsed
unfolding parse_segments parse_segment split_slash has_byte text_eq
parse_pattern [] = failed no_slash
parse_pattern (c ∷ s) =
    if c == b'/'
    then (if is_nil s then names [] else parse_segments (split_slash s) [])
    else failed no_slash

-- What the loop of `insert` takes a segment for.
pub data Step : Type 0 where
  static : Text → Step
  param wildcard : Step

unfoldable pub step_of : Text → Step
step_of [] = static []
step_of (c ∷ s) = if c == b':' then param else if c == b'*' then wildcard else static (c ∷ s)

abbrev pub steps_of_segments : List Text → List Step
steps_of_segments [] = []
steps_of_segments (s ∷ ss) = step_of s ∷ steps_of_segments ss

-- The steps of `insert` from the root for the pattern `path`: none for "/".
unfoldable pub steps_of : Text → List Step
unfolding step_of split_slash
steps_of [] = []
steps_of (c ∷ []) = []
steps_of (c ∷ d ∷ s) = steps_of_segments (split_slash (d ∷ s))
