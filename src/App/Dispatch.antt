-- ===== src/App/Dispatch.antt =====
-- app.go: `dispatch` and `noRoute`. What the route's composed handler does is not the application's.
mod Answers
pub mod Handling
pub mod Laws
use torge.Base.{
  ℕ, suc, Bool, true, false, not, ◌&&◌, ◌||◌, List, [], ◌∷◌, ◌++◌, Option, none, some, ltb, ◌==◌,
  if◌then◌else◌,
}
use torge.Base.Int.{ℤ, pos, negsuc}
use torge.Base.Text.{Text, text, text_eq, has_prefix}
use torge.Router.Pattern.{is_nil}
use torge.Router.Trie.{Route, Found}
use torge.Router.Table.{Router, find, allowed}
use torge.App.Routes.{trim_slash}
use torge.App.Location.{ends_in_slash, location}

pub record Config : Type 0 where
  pub redirect_trailing_slash : Bool
  pub body_limit : ℤ

-- `content_length` is -1 if it is not known; `has_body` is false for a nil body and http.NoBody.
pub record Request : Type 0 where
  pub method : Text
  pub path : Text
  pub content_length : ℤ
  pub has_body : Bool

-- The reader that the body is wrapped in.
pub data Limiter : Type 0 where
  unlimited : Limiter
  declared chunked : (limit : ℕ) → Limiter

pub data Outcome : Type 0 where
  handle : Route → (values : List Text) → Limiter → Outcome
  too_large not_found : Outcome
  redirect : (code : ℕ) → (location : Text) → Outcome
  no_content method_not_allowed : (allow : List Text) → Outcome

-- The limit of a route, where 0 is the application's; a limit that is not positive is none.
abbrev pub limit_or : ℤ → ℤ → ℤ
limit_or default (pos n) = if n == 0 then default else pos n
limit_or default (negsuc n) = negsuc n

abbrev pub limited : Route → List Text → ℕ → ℤ → Outcome
limited r vs limit (pos n) = if ltb limit n then too_large else handle r vs (declared limit)
limited r vs limit (negsuc n) = handle r vs (chunked limit)

abbrev pub serve_limited : Request → Route → List Text → ℤ → Outcome
serve_limited q r vs (pos limit) =
    if ltb 0 limit && q.has_body then limited r vs limit q.content_length else handle r vs unlimited
serve_limited q r vs (negsuc n) = handle r vs unlimited

-- strings.Contains(path, "//").
unfoldable pub double_slash : Text → Bool
double_slash [] = false
double_slash (c ∷ s) = has_prefix (c ∷ s) (text "//") || double_slash s

abbrev pub other_slash : Text → Text
other_slash path = if ends_in_slash path then trim_slash path else path ++ text "/"

abbrev pub get_for_head : Text → Text
get_for_head method = if text_eq method (text "HEAD") then text "GET" else method

abbrev pub redirect_code : Text → ℕ
redirect_code method =
    if text_eq method (text "GET") || text_eq method (text "HEAD") then 301 else 308

-- `noRoute` from the allowed methods on.
abbrev pub no_method : Text → List Text → Outcome
no_method method [] = not_found
no_method method (m ∷ ms) =
    if text_eq method (text "OPTIONS") then no_content (m ∷ ms) else method_not_allowed (m ∷ ms)

-- `c.Redirect` hands the path to http.Redirect; `path` is that of the request.
abbrev pub redirect_to : Text → Text → Text → Outcome → Found → Outcome
redirect_to method path alt rest none = rest
redirect_to method path alt rest (some r) = redirect (redirect_code method) (location path alt)

unfoldable pub no_route : Config → Router → Text → Text → Outcome
unfolding double_slash
no_route cfg rt method path =
    let alt = other_slash path in
    let rest = no_method method (allowed rt path) in
    if cfg.redirect_trailing_slash
      && not (text_eq path (text "/"))
      && not (double_slash path)
      && not (is_nil alt)
      && not (has_prefix alt (text "//"))
    then redirect_to method path alt rest (find rt (get_for_head method) alt [])
    else rest

abbrev pub root_path : Text → Text
root_path [] = text "/"
root_path (c ∷ s) = c ∷ s

-- `find`, with the routes of GET for HEAD.
abbrev pub or_get : Router → Text → Text → Found → Found
or_get rt method path none =
    if text_eq method (text "HEAD") then find rt (text "GET") path [] else none
or_get rt method path (some r) = some r

abbrev pub serve : Config → Router → (Route → ℤ) → Request → Text → Found → Outcome
serve cfg rt limit_of q path none = no_route cfg rt q.method path
serve cfg rt limit_of q path (some (r, vs)) =
    serve_limited q r vs (limit_or cfg.body_limit (limit_of r))

unfoldable pub dispatch : Config → Router → (Route → ℤ) → Request → Outcome
unfolding no_route
dispatch cfg rt limit_of q =
    let path = root_path q.path in
    serve cfg rt limit_of q path (or_get rt q.method path (find rt q.method path []))
