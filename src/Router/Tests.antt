-- ===== src/Router/Tests.antt =====
-- router.go: the router on a small table, and the theorems at these inputs.
use torge.Base.{ℕ, ◌≡◌, refl, ◌≢◌, ◌↔◌, ◌⊎◌, true, List, [], ◌∷◌, none, some}
use torge.Base.Text.{Text, text, text_eq, has_byte, text_lt}
use torge.Base.Assoc.{get, put, DistinctKeys}
use torge.Router.Pattern.{
  names, failed, no_slash, wildcard_not_last, repeats, mixes, empty_segment, unnamed, parse_pattern,
  steps_of, contains,
}
use torge.Router.Trie.{Route, insert_at, lookup, at}
use torge.Router.Trie.Spec.{capture_path, Preferred}
use torge.Router.Table.{Router, new_router, insert, conflict, stored, find, allowed}
use torge.Router.Table.Contents.{RouterOk, new_router-RouterOk, Stored}
use torge.Router.Table.Insert.{
  insert-RouterOk, insert-Stored, insert-keeps, insert-conflict_iff, named,
}
use torge.Router.Table.Find.{Hit, find-Hit, find_complete}
use torge.Router.Table.Allowed.{serves, contains-allowed_iff}

program : Unit {0}
unfolding parse_pattern steps_of insert insert_at find lookup allowed get put text_eq has_byte
    text_lt capture_path at
program = tt

abbrev me : Route
me = record { method = text "GET"; path = text "/users/me"; param_names = []; handler = 1 }

abbrev user : Route
user = record {
  method = text "GET";
  path = text "/users/:id";
  param_names = text "id" ∷ [];
  handler = 2;
}

abbrev files : Route
files = record {
  method = text "GET";
  path = text "/files/*path";
  param_names = text "path" ∷ [];
  handler = 3;
}

-- The same shape as `user`, with another name.
abbrev again : Route
again = record { method = text "GET"; path = text "/users/:name"; param_names = []; handler = 4 }

abbrev one : Router
one = (insert me new_router).0

abbrev two : Router
two = (insert user one).0

abbrev table : Router
table = (insert files two).0

table-RouterOk : RouterOk table
table-RouterOk =
    insert-RouterOk files two
      (insert-RouterOk user one (insert-RouterOk me new_router new_router-RouterOk))

find_tests :
    (find table (text "GET") (text "/users/me") [] ≡ some (me, []))
    × (find table (text "GET") (text "/users/42") [] ≡ some (user, text "42" ∷ []))
    × (find table (text "GET") (text "/files/a/b.txt") [] ≡ some (files, text "a/b.txt" ∷ []))
    × (find table (text "GET") (text "/users") [] ≡ none)
    × (find table (text "POST") (text "/users/me") [] ≡ none)
unfolding program
find_tests = (refl, refl, refl, refl, refl)

pattern_tests :
    (parse_pattern (text "users") ≡ failed no_slash)
    × (parse_pattern (text "/a/*rest/b") ≡ failed (wildcard_not_last (text "*rest")))
    × (parse_pattern (text "/:id/x/:id") ≡ failed (repeats (text "id")))
    × (parse_pattern (text "/v:id") ≡ failed (mixes (text "v:id")))
    × (parse_pattern (text "/a//b") ≡ failed empty_segment)
    × (parse_pattern (text "/:") ≡ failed unnamed)
    × (parse_pattern (text "/:id/*") ≡ names (text "id" ∷ text "*" ∷ []))
unfolding program
pattern_tests = (refl, refl, refl, refl, refl, refl, refl)

allowed_tests :
    (allowed table (text "/users/me") ≡ text "GET" ∷ text "HEAD" ∷ text "OPTIONS" ∷ [])
    × (allowed table (text "/none") ≡ [])
unfolding program
allowed_tests = (refl, refl)

insert_tests : ((insert again table).1 ≡ conflict user) × ((insert files two).1 ≡ stored)
unfolding program
insert_tests = (refl, refl)

user_parsed : parse_pattern user.path ≡ names (text "id" ∷ [])
unfolding program
user_parsed = refl

again_parsed : parse_pattern again.path ≡ names (text "name" ∷ [])
unfolding program
again_parsed = refl

user_stored : (insert user one).1 ≡ stored
unfolding program
user_stored = refl

one-RouterOk : RouterOk one
one-RouterOk = insert-RouterOk me new_router new_router-RouterOk

two-RouterOk : RouterOk two
two-RouterOk = insert-RouterOk user one one-RouterOk

user_is_Stored : Stored two user
user_is_Stored = insert-Stored user one (text "id" ∷ []) one-RouterOk user_parsed user_stored

user_captured : capture_path (steps_of user.path) (text "/users/42") ≡ some (text "42" ∷ [])
unfolding program
user_captured = refl

insert-RouterOk_example : RouterOk (insert user one).0
insert-RouterOk_example = insert-RouterOk user one one-RouterOk

insert-Stored_example : Stored (insert user one).0 (named user (text "id" ∷ []))
insert-Stored_example = insert-Stored user one (text "id" ∷ []) one-RouterOk user_parsed user_stored

insert-keeps_example : Stored table user
insert-keeps_example = insert-keeps files two user two-RouterOk user_is_Stored

insert-conflict_iff_example : ((insert again table).1 ≡ conflict user) ↔ (
    Stored table user × (user.method ≡ again.method) × (steps_of user.path ≡ steps_of again.path))
insert-conflict_iff_example =
    insert-conflict_iff again table (text "name" ∷ []) user table-RouterOk again_parsed

find-Hit_example :
    Hit table (text "GET") (text "/users/42") user (text "42" ∷ [])
    × (◌≡◌ {A = ℕ} 1 1)
    × ((x : Route) (cs : List Text)
        → Stored table x
        → x.method ≡ text "GET"
        → capture_path (steps_of x.path) (text "/users/42") ≡ some cs
        → Preferred (steps_of user.path) (steps_of x.path))
find-Hit_example =
    find-Hit table (text "GET") (text "/users/42") user (text "42" ∷ []) table-RouterOk find_tests.1

find_complete_example : find table user.method (text "/users/42") [] ≢ none
find_complete_example =
    find_complete table user (text "/users/42") (text "42" ∷ []) table-RouterOk
      (insert-keeps files two user two-RouterOk user_is_Stored) user_captured

table-DistinctKeys : DistinctKeys table.trees
unfolding program
table-DistinctKeys = (refl, tt)

contains-allowed_iff_example :
    (contains (text "HEAD") (allowed table (text "/users/me")) ≡ true) ↔ (
      ((n : Text) × (serves table n (text "/users/me") ≡ true))
      × ((serves table (text "HEAD") (text "/users/me") ≡ true)
          ⊎ ((text "HEAD" ≡ text "HEAD") × (serves table (text "GET") (text "/users/me") ≡ true))
          ⊎ (text "HEAD" ≡ text "OPTIONS")))
contains-allowed_iff_example =
    contains-allowed_iff table (text "/users/me") (text "HEAD") table-DistinctKeys
