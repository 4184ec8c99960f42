-- ===== src/App/Routes.antt =====
-- app.go: `addRoute` with `validMethod`, and `joinPaths` of group.go. A handler is a number, and nil is
-- none. The options of a typed handler only add diagnostics and are left out.
pub mod Laws
use torge.Base.{
  ℕ, suc, Bool, true, false, not, ◌&&◌, ◌||◌, List, [], ◌∷◌, ◌++◌, Option, none, some, leb, ◌==◌,
  if◌then◌else◌,
}
use torge.Base.Text.{Text, text, has_byte}
use torge.Router.Pattern.{PatternError, Parsed, names, failed, parse_pattern}
use torge.Router.Trie.{Route}
use torge.Router.Table.{Router, Inserted, invalid, conflict, stored, insert}

-- strings.TrimSuffix(s, "/").
unfoldable pub trim_slash : Text → Text
trim_slash [] = []
trim_slash (c ∷ []) = if c == b'/' then [] else c ∷ []
trim_slash (c ∷ d ∷ s) = c ∷ trim_slash (d ∷ s)

abbrev or_root : Text → Text
or_root [] = text "/"
or_root (c ∷ s) = c ∷ s

unfoldable pub join_paths : Text → Text → Text
unfolding trim_slash
join_paths prefix [] = or_root (trim_slash prefix)
join_paths prefix (c ∷ []) =
    if c == b'/' then or_root (trim_slash prefix) else trim_slash prefix ++ b'/' ∷ c ∷ []
join_paths prefix (c ∷ d ∷ path) =
    if c == b'/'
    then trim_slash prefix ++ c ∷ d ∷ path
    else trim_slash prefix ++ b'/' ∷ c ∷ d ∷ path

-- One byte of a method: an HTTP token's.
abbrev pub method_byte : ℕ → Bool
method_byte c = not (leb c b' ' || leb 0x7f c || has_byte c (text "()<>@,;:\\\"/[]?={}"))

unfoldable pub all_method_bytes : Text → Bool
all_method_bytes [] = true
all_method_bytes (c ∷ s) = method_byte c && all_method_bytes s

unfoldable pub valid_method : Text → Bool
unfolding all_method_bytes
valid_method [] = false
valid_method (c ∷ s) = all_method_bytes (c ∷ s)

-- The diagnostics of `addRoute`.
pub data RouteFault : Type 0 where
  nil_handler invalid_method : RouteFault
  invalid_route : PatternError → RouteFault
  duplicate_route : Route → RouteFault

pub record Table : Type 0 where
  pub frozen : Bool
  pub router : Router
  pub routes : List Route
  pub faults : List RouteFault

abbrev pub new_table : Router → Table
new_table rt = record { frozen = false; router = rt; routes = []; faults = [] }

-- `addRoute` returns, or panics on a frozen table.
pub data Registered : Type 0 where
  late returned : Registered

abbrev pub add_fault : RouteFault → Table → Table
add_fault f t = record t { faults = t.faults ++ f ∷ [] }

-- `insert` writes the names into the route, which the list shares.
abbrev pub with_names : Route → Parsed → Route
with_names r (failed e) = r
with_names r (names ns) = record r { param_names = ns }

abbrev pub after_insert : Route → Table → Router × Inserted → Table
after_insert r t (rt, invalid e) = add_fault (invalid_route e) (record t { router = rt })
after_insert r t (rt, conflict old) = add_fault (duplicate_route old) (record t { router = rt })
after_insert r t (rt, stored) = record t {
  router = rt;
  routes = t.routes ++ with_names r (parse_pattern r.path) ∷ [];
}

abbrev pub add_handler : Text → Text → Option ℕ → Table → Table
add_handler method path none t = add_fault nil_handler t
add_handler method path (some h) t =
    let r : Route = record { method = method; path = path; param_names = []; handler = h } in
    if valid_method method then after_insert r t (insert r t.router) else add_fault invalid_method t

unfoldable pub add_route : (prefix method path : Text) → Option ℕ → Table → Table × Registered
unfolding join_paths valid_method
add_route prefix method path h t =
    if t.frozen then (t, late) else (add_handler method (join_paths prefix path) h t, returned)
