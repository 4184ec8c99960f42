-- ===== src/App/Tests.antt =====
-- app.go: an application with three routes and with two hooks, and the theorems at these.
use torge.Base.{ℕ, ◌≡◌, ◌≢◌, ◌⊎◌, refl, true, false, [], ◌∷◌, some}
use torge.Base.Members.{In, here, there}
use torge.Base.Int.{ℤ, pos}
use torge.Base.Text.{Text, text, text_eq, has_byte, text_lt, has_prefix}
use torge.Base.Assoc.{get, put, DistinctKeys}
use torge.Router.Pattern.{parse_pattern, steps_of, contains}
use torge.Router.Trie.{Route, insert_at, lookup, at}
use torge.Router.Trie.Spec.{capture_path}
use torge.Router.Table.{new_router, insert, find, allowed}
use torge.App.Routes.{
  Table, new_table, add_route, join_paths, trim_slash, valid_method, all_method_bytes,
}
use torge.App.Routes.Laws.{TableOk, new_table-TableOk, add_route-TableOk}
use torge.App.Dispatch.{
  Config, Request, dispatch, no_route, redirect, redirect_code, method_not_allowed, other_slash,
  root_path, double_slash,
}
use torge.App.Location.{
  location, clean, segments, clean_segments, join_segments, directory, ends_in_slash,
}
use torge.App.Location.Plain.{is_plain_path}
use torge.App.Dispatch.Handling.{Handled}
use torge.App.Dispatch.Laws.{
  Arrives, dispatch-Handled, dispatch-redirect, dispatch-method_not_allowed,
}

program : Unit {0}
unfolding parse_pattern steps_of insert insert_at find lookup allowed get put text_eq has_byte
    text_lt capture_path at add_route join_paths trim_slash valid_method all_method_bytes dispatch
    no_route double_slash ends_in_slash has_prefix location clean segments clean_segments
    join_segments directory
program = tt

abbrev with_route : (prefix method path : Text) → ℕ → Table → Table
with_route prefix method path h t = (add_route prefix method path (some h) t).0

abbrev table : Table
table = with_route (text "/api/") (text "POST") (text "users") 3 (
    with_route (text "/api") (text "GET") (text "/users/:id") 2
      (with_route (text "") (text "GET") (text "/health") 1 (new_table new_router)))

table-TableOk : TableOk table
table-TableOk = add_route-TableOk (text "/api/") (text "POST") (text "users") (some 3) _ (
    add_route-TableOk (text "/api") (text "GET") (text "/users/:id") (some 2) _
      (add_route-TableOk (text "") (text "GET") (text "/health") (some 1) _ new_table-TableOk))

abbrev user : Route
user = record {
  method = text "GET";
  path = text "/api/users/:id";
  param_names = text "id" ∷ [];
  handler = 2;
}

abbrev config : Config
config = record { redirect_trailing_slash = true; body_limit = pos 100 }

abbrev request : (method path : Text) → Request
request method path = record {
  method = method;
  path = path;
  content_length = pos 0;
  has_body = false;
}

abbrev app_limit : Route → ℤ
app_limit r = pos 0

user_listed : In user table.routes
unfolding program
user_listed = there (here refl)

user_captured : capture_path (steps_of user.path) (text "/api/users/7") ≡ some (text "7" ∷ [])
unfolding program
user_captured = refl

redirected :
    dispatch config table.router app_limit (request (text "GET") (text "/health/"))
    ≡ redirect 301 (text "/health")
unfolding program
redirected = refl

-- The dot segment of the other path is not in the Location.
dot_location : location (text "/a/./") (text "/a/.") ≡ text "/a"
unfolding program
dot_location = refl

dots_location : location (text "/") (text "/a/../../b//c/") ≡ text "/b/c/"
unfolding program
dots_location = refl

not_allowed :
    dispatch config table.router app_limit (request (text "PUT") (text "/api/users"))
    ≡ method_not_allowed (text "OPTIONS" ∷ text "POST" ∷ [])
unfolding program
not_allowed = refl

table-DistinctKeys : DistinctKeys table.router.trees
unfolding program
table-DistinctKeys = (refl, (refl, tt))

dispatch-Handled_example :
    Handled config table.router app_limit
      (request (text "GET") (text "/api/users/7"))
      (text "GET")
      (text "/api/users/7")
      (dispatch config table.router app_limit (request (text "GET") (text "/api/users/7")))
dispatch-Handled_example =
    dispatch-Handled config table app_limit (request (text "GET") (text "/api/users/7")) user
      (text "7" ∷ []) table-TableOk user_listed refl user_captured

dispatch-redirect_example :
    (text "/health" ≡ location (text "/health/") (other_slash (root_path (text "/health/"))))
    × (301 ≡ redirect_code (text "GET"))
    × (((text "/health" ≢ other_slash (root_path (text "/health/")))
          × (is_plain_path (other_slash (root_path (text "/health/"))) ≡ false))
        ⊎ ((text "/health" ≡ other_slash (root_path (text "/health/")))
            × Arrives config table.router app_limit
                (request (text "GET") (text "/health/"))
                (text "/health")))
dispatch-redirect_example =
    dispatch-redirect config table.router app_limit (request (text "GET") (text "/health/")) 301
      (text "/health") table-TableOk.router_ok redirected

dispatch-method_not_allowed_example :
    ((text "OPTIONS" ∷ text "POST" ∷ []) ≡ allowed table.router (root_path (text "/api/users")))
    × (contains (text "PUT") (text "OPTIONS" ∷ text "POST" ∷ []) ≡ false)
dispatch-method_not_allowed_example =
    dispatch-method_not_allowed config table.router app_limit
      (request (text "PUT") (text "/api/users")) (text "OPTIONS" ∷ text "POST" ∷ [])
      table-DistinctKeys not_allowed
