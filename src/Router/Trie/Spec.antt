-- ===== src/Router/Trie/Spec.antt =====
-- router.go: what a pattern matches, without a trie, and the order of preference among patterns:
-- "static over parameter over wildcard segments".
use torge.Base.{◌==◌, List, [], ◌∷◌, Option, none, some, if◌then◌else◌}
use torge.Base.Text.{Text, text_eq}
use torge.Router.Pattern.{Step, static, param, wildcard}
use torge.Router.Trie.{cut_slash, is_empty}

-- What follows a segment, against the steps that follow.
abbrev pub capture_rest : (Text → Option (List Text)) → List Step → Option Text → Option (List Text)
capture_rest go [] none = some []
capture_rest go [] (some next) = none
capture_rest go (s ∷ path) none = none
capture_rest go (s ∷ path) (some next) = go next

abbrev pub map_cons : Text → Option (List Text) → Option (List Text)
map_cons v none = none
map_cons v (some vs) = some (v ∷ vs)

-- The values that the pattern captures of a path behind its first '/'; `none` if it does not match.
unfoldable pub capture : List Step → Text → Option (List Text)
unfolding cut_slash
capture [] rem = none
capture (static s ∷ path) rem =
    let (seg, next) = cut_slash rem in
    if text_eq s seg then capture_rest (capture path) path next else none
capture (param ∷ path) rem =
    let (seg, next) = cut_slash rem in
    if is_empty seg then none else map_cons seg (capture_rest (capture path) path next)
capture (wildcard ∷ []) rem = some (rem ∷ [])
capture (wildcard ∷ s ∷ path) rem = none

-- The values that the pattern captures of a whole request path.
unfoldable pub capture_path : List Step → Text → Option (List Text)
unfolding capture
capture_path [] [] = some []
capture_path (wildcard ∷ []) [] = some ([] ∷ [])
capture_path path [] = none
capture_path [] (c ∷ []) = if c == b'/' then some [] else none
capture_path (wildcard ∷ []) (c ∷ []) = if c == b'/' then some ([] ∷ []) else none
capture_path path (c ∷ []) = none
capture_path path (c ∷ d ∷ s) = if c == b'/' then capture path (d ∷ s) else none

-- `p` is preferred to `q`, or is `q`.
pub data Preferred : List Step → List Step → Type 0 where
  root : {q : List Step} → Preferred [] q
  same : {s : Step} {p q : List Step} → Preferred p q → Preferred (s ∷ p) (s ∷ q)
  static_param : {s : Text} {p q : List Step} → Preferred (static s ∷ p) (param ∷ q)
  static_wildcard : {s : Text} {p q : List Step} → Preferred (static s ∷ p) (wildcard ∷ q)
  param_wildcard : {p q : List Step} → Preferred (param ∷ p) (wildcard ∷ q)
