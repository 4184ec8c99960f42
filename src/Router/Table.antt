-- ===== src/Router/Table.antt =====
-- router.go: `router`, one trie for each HTTP method, with `insert`, `find` and `allowed`.
pub mod Lookup
pub mod Names
pub mod Contents
pub mod Insert
pub mod Find
pub mod Allowed
use torge.Base.{
  ℕ, Bool, true, false, ◌&&◌, not, List, [], ◌∷◌, ◌++◌, Option, none, some, length, ltb,
  if◌then◌else◌,
}
use torge.Base.Text.{Text, text, text_lt}
use torge.Base.Assoc.{get, put}
use torge.Router.Pattern.{Parsed, names, failed, PatternError, parse_pattern, steps_of, contains}
use torge.Router.Trie.{Node, new_node, Route, insert_at, lookup, Found}

pub record Router : Type 0 where
  pub trees : List (Text × Node)
  pub max_params : ℕ

abbrev pub new_router : Router
new_router = record { trees = []; max_params = 0 }

-- The results of `insert`: the error, the conflicting route, or (nil, nil).
pub data Inserted : Type 0 where
  invalid : PatternError → Inserted
  conflict : Route → Inserted
  stored : Inserted

abbrev pub root_or_new : Option Node → Node
root_or_new none = new_node
root_or_new (some n) = n

abbrev pub conflict_or_stored : Option Route → Inserted
conflict_or_stored none = stored
conflict_or_stored (some old) = conflict old

abbrev insert_named : Route → List Text → Router → Router × Inserted
insert_named r ns rt =
    let (old, root) =
      insert_at (steps_of r.path) (record r { param_names = ns })
        (root_or_new (get r.method rt.trees)) in
    (
      record {
        trees = put r.method root rt.trees;
        max_params = if ltb rt.max_params (length ns) then length ns else rt.max_params;
      },
      conflict_or_stored old,
    )

unfoldable pub insert : Route → Router → Router × Inserted
insert r rt = elim (parse_pattern r.path) [
  | failed e ↦ (rt, invalid e)
  | names ns ↦ insert_named r ns rt
]

abbrev pub lookup_in : Option Node → Text → List Text → Found
lookup_in none path values = none
lookup_in (some root) path values = lookup root path values

unfoldable pub find : Router → Text → Text → List Text → Found
find rt method path values = lookup_in (get method rt.trees) path values

-- The loop of `allowed` over the tries.
abbrev pub is_found : Found → Bool
is_found none = false
is_found (some f) = true

unfoldable pub matching : Text → List (Text × Node) → List Text
matching path [] = []
matching path ((method, root) ∷ trees) =
    let rest = matching path trees in if is_found (lookup root path []) then method ∷ rest else rest

-- `sort.Strings`.
unfoldable pub insert_sorted : Text → List Text → List Text
insert_sorted s [] = s ∷ []
insert_sorted s (t ∷ ts) = if text_lt t s then t ∷ insert_sorted s ts else s ∷ t ∷ ts

unfoldable pub sort_strings : List Text → List Text
unfolding insert_sorted
sort_strings [] = []
sort_strings (s ∷ ss) = insert_sorted s (sort_strings ss)

abbrev pub with_head : List Text → List Text
with_head methods =
    if contains (text "GET") methods && not (contains (text "HEAD") methods)
    then methods ++ text "HEAD" ∷ []
    else methods

abbrev pub with_options : List Text → List Text
with_options methods =
    if not (contains (text "OPTIONS") methods) then methods ++ text "OPTIONS" ∷ [] else methods

abbrev pub allowed_of : List Text → List Text
allowed_of [] = []
allowed_of (m ∷ ms) = sort_strings (with_options (with_head (m ∷ ms)))

unfoldable pub allowed : Router → Text → List Text
unfolding matching sort_strings
allowed rt path = allowed_of (matching path rt.trees)
