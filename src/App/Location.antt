-- ===== src/App/Location.antt =====
-- The Location of a redirect to a path: path.Clean and what http.Redirect does of it, for app.go. The
-- query is left out, and so is the escaping, which keeps slashes and dots.
mod Segments
pub mod Plain
use torge.Base.{ℕ, Bool, false, not, ◌&&◌, ◌||◌, List, [], ◌∷◌, ◌++◌, ◌==◌, if◌then◌else◌}
use torge.Base.Text.{Text, text, text_eq}

-- A first byte of the first segment.
abbrev pub onto_first : ℕ → List Text → List Text
onto_first c [] = (c ∷ []) ∷ []
onto_first c (s ∷ ss) = (c ∷ s) ∷ ss

-- The text between slashes.
unfoldable pub segments : Text → List Text
segments [] = [] ∷ []
segments (c ∷ s) = let rest = segments s in if c == b'/' then [] ∷ rest else onto_first c rest

abbrev pub dots : Text
dots = text ".."

-- The segments that are kept, the last first, with one more of the path.
abbrev pub push_segment : (rooted : Bool) → Text → List Text → List Text
push_segment rooted s [] = if text_eq s dots && rooted then [] else s ∷ []
push_segment rooted s (t ∷ ts) =
    if text_eq s dots then (if text_eq t dots then s ∷ t ∷ ts else ts) else s ∷ t ∷ ts

unfoldable pub clean_segments : (rooted : Bool) → List Text → List Text → List Text
clean_segments rooted [] kept = kept
clean_segments rooted (s ∷ ss) kept =
    clean_segments rooted ss
      (if text_eq s [] || text_eq s (text ".") then kept else push_segment rooted s kept)

-- The segments, given the last first, with slashes between them and before `after`.
unfoldable pub join_segments : List Text → Text → Text
join_segments [] after = after
join_segments (s ∷ []) after = s ++ after
join_segments (s ∷ t ∷ ss) after = join_segments (t ∷ ss) (b'/' ∷ s ++ after)

abbrev pub is_rooted : Text → Bool
is_rooted [] = false
is_rooted (c ∷ s) = c == b'/'

abbrev or_dot : Text → Text
or_dot [] = text "."
or_dot (c ∷ s) = c ∷ s

-- path.Clean.
unfoldable pub clean : Text → Text
unfolding segments clean_segments join_segments
clean p =
    let kept = join_segments (clean_segments (is_rooted p) (segments p) []) [] in
    if is_rooted p then b'/' ∷ kept else or_dot kept

-- strings.HasSuffix(path, "/").
unfoldable pub ends_in_slash : Text → Bool
ends_in_slash [] = false
ends_in_slash (c ∷ []) = c == b'/'
ends_in_slash (c ∷ d ∷ s) = ends_in_slash (d ∷ s)

abbrev pub keep_slash : (trailing : Bool) → Text → Text
keep_slash trailing p = if trailing && not (ends_in_slash p) then p ++ text "/" else p

-- The directory of path.Split.
unfoldable pub directory : Text → Text
directory [] = []
directory (c ∷ s) =
    let rest = directory s in
    if text_eq rest [] then (if c == b'/' then c ∷ [] else []) else c ∷ rest

-- The Location that http.Redirect writes for the path `p`, in answer to a request for `old`.
unfoldable pub location : (old p : Text) → Text
unfolding clean ends_in_slash directory
location old p =
    let whole = if is_rooted p then p else directory old ++ p in
    keep_slash (ends_in_slash whole) (clean whole)
