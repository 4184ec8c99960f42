-- ===== src/App/Dispatch/Answers.antt =====
-- app.go: what each answer of `dispatch` and of `noRoute` says of the router.
use torge.Base.{
  ℕ, ◌≡◌, ◌≢◌, refl, sym, ◌∙◌, inl, inr, ◌&&◌, not, Bool, true, false, List, [], ◌∷◌, none, some,
  arith, Bool-cases, ltb, if_all,
}
use torge.Base.Int.{ℤ, pos, negsuc}
use torge.Base.Text.{Text, text, text_eq, text_eq_iff, has_prefix}
use torge.Router.Pattern.{is_nil}
use torge.Router.Trie.{Route, Found}
use torge.Router.Table.{Router, find, allowed}
use torge.App.Location.{location}
use torge.App.Dispatch.{
  Config, Request, Outcome, handle, too_large, not_found, redirect, no_content, method_not_allowed,
  limit_or, limited, serve_limited, other_slash, get_for_head, redirect_code, no_method,
  redirect_to, no_route, root_path, or_get, serve, dispatch, double_slash,
}

-- `find` finds a route for the method, or for HEAD one of GET.
pub or_get_found :
    (rt : Router) (method path : Text)
    → find rt (get_for_head method) path [] ≢ none
    → or_get rt method path (find rt method path []) ≢ none
or_get_found rt method path n = go (find rt method path []) refl
  where
    go : (f : Found) → find rt method path [] ≡ f → or_get rt method path f ≢ none
    go (some r) e = λ x. absurd (cc x)
    go none e = elim (Bool-cases (text_eq method (text "HEAD"))) [
      | inl b ↦ rw b (rw b at n)
      | inr b ↦ absurd (rw b at n (e))
    ]

fourth : (a b c d e : Bool) → (a && not b && not c && not d && not e) ≡ true → d ≡ false
fourth a b c d e h = ground (arith, h)

pub root_path_same : (s : Text) → is_nil s ≡ false → root_path s ≡ s
root_path_same [] e = absurd (cc e)
root_path_same (c ∷ s) e = refl

-- The path with the other ending, to which a request for `path` may be redirected.
pub record Redirected (rt : Router) (method path alt : Text) : Type 0 where
  pub not_empty : is_nil alt ≡ false
  pub target : find rt (get_for_head method) alt [] ≢ none

-- What each answer of `noRoute` says.
abbrev pub Answer : Router → Text → Text → Outcome → Type 0
Answer rt method path (handle r vs l) = Unit
Answer rt method path too_large = Unit
Answer rt method path not_found = allowed rt path ≡ []
Answer rt method path (redirect code alt) =
    Redirected rt method path (other_slash path)
    × (alt ≡ location path (other_slash path))
    × (code ≡ redirect_code method)
Answer rt method path (no_content ms) = (ms ≡ allowed rt path) × (method ≡ text "OPTIONS")
Answer rt method path (method_not_allowed ms) =
    (ms ≡ allowed rt path)
    × (method ≢ text "OPTIONS")
    × (or_get rt method path (find rt method path []) ≡ none)

no_method-Answer :
    (rt : Router) (method path : Text) (ms : List Text)
    → allowed rt path ≡ ms
    → or_get rt method path (find rt method path []) ≡ none
    → Answer rt method path (no_method method ms)
no_method-Answer rt method path [] e n = e
no_method-Answer rt method path (m ∷ ms) e n = elim (Bool-cases (text_eq method (text "OPTIONS"))) [
  | inl b ↦ rw b (sym e, (text_eq_iff method (text "OPTIONS")).0 b)
  | inr b ↦ rw b (sym e, (λ f. absurd (cc (sym b ∙ (text_eq_iff method (text "OPTIONS")).1 f))), n)
]

redirect_to-Answer :
    (rt : Router) (method path : Text) (rest : Outcome) (f : Found)
    → find rt (get_for_head method) (other_slash path) [] ≡ f
    → is_nil (other_slash path) ≡ false
    → Answer rt method path rest
    → Answer rt method path (redirect_to method path (other_slash path) rest f)
redirect_to-Answer rt method path rest none e n a = a
redirect_to-Answer rt method path rest (some r) e n a =
    (record { not_empty = n; target = λ x. cc (sym e ∙ x) }, refl, refl)

no_route-Answer :
    (cfg : Config) (rt : Router) (method path : Text)
    → or_get rt method path (find rt method path []) ≡ none
    → Answer rt method path (no_route cfg rt method path)
unfolding no_route
no_route-Answer cfg rt method path n =
    let rest = no_method-Answer rt method path (allowed rt path) refl n in
    if_all (Answer rt method path)
      (cfg.redirect_trailing_slash
        && not (text_eq path (text "/"))
        && not (double_slash path)
        && not (is_nil (other_slash path))
        && not (has_prefix (other_slash path) (text "//")))
      (λ b. redirect_to-Answer rt method path _ _ refl (fourth _ _ _ _ _ b) rest) (λ b. rest)

serve-Answer :
    (cfg : Config) (rt : Router) (limit_of : Route → ℤ) (q : Request) (path : Text) (f : Found)
    → or_get rt q.method path (find rt q.method path []) ≡ f
    → Answer rt q.method path (serve cfg rt limit_of q path f)
serve-Answer cfg rt limit_of q path none e = no_route-Answer cfg rt q.method path e
serve-Answer cfg rt limit_of q path (some (r, vs)) e = served (limit_or cfg.body_limit (limit_of r))
  where
    in_limit : (n : ℕ) (l : ℤ) → Answer rt q.method path (limited r vs n l)
    in_limit n (pos k) =
        if_all {A = Outcome} (Answer rt q.method path) (ltb n k) (λ b. tt) (λ b. tt)
    in_limit n (negsuc k) = tt

    served : (l : ℤ) → Answer rt q.method path (serve_limited q r vs l)
    served (pos n) =
        if_all {A = Outcome} (Answer rt q.method path) (ltb 0 n && q.has_body)
          (λ b. in_limit n q.content_length) (λ b. tt)
    served (negsuc n) = tt

pub dispatch-Answer :
    (cfg : Config) (rt : Router) (limit_of : Route → ℤ) (q : Request)
    → Answer rt q.method (root_path q.path) (dispatch cfg rt limit_of q)
unfolding dispatch
dispatch-Answer cfg rt limit_of q = serve-Answer cfg rt limit_of q (root_path q.path) _ refl
