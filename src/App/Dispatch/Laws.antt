-- ===== src/App/Dispatch/Laws.antt =====
-- app.go: whom `dispatch` hands a request to, and where it redirects and refuses it.
use mathlib.Core.Path.{subst}
use torge.Base.{
  ℕ, ◌≡◌, ◌≢◌, refl, sym, ◌∙◌, ap, ◌⊎◌, inl, inr, true, false, List, [], none, some, Bool-cases,
  Option-cases,
}
use torge.Base.Members.{In}
use torge.Base.Int.{ℤ}
use torge.Base.Text.{Text, text, text_eq, text_eq_iff}
use torge.Base.Assoc.{DistinctKeys}
use torge.Router.Pattern.{contains, is_nil, steps_of}
use torge.Router.Trie.{Route, Found}
use torge.Router.Trie.Spec.{capture_path}
use torge.Router.Table.{Router, find, is_found, allowed}
use torge.Router.Table.Allowed.{serves, contains-allowed_iff}
use torge.Router.Table.Find.{find_complete}
use torge.App.Routes.{Table}
use torge.App.Routes.Laws.{TableOk}
use torge.App.Location.{location}
use torge.App.Location.Plain.{is_plain_path, location-is_plain_path}
use torge.Router.Table.Contents.{RouterOk}
use torge.App.Dispatch.Handling.{Handled, Via, or_get-Via, serve-Handled}
use torge.App.Dispatch.{
  Config, Request, redirect, method_not_allowed, other_slash, get_for_head, redirect_code,
  root_path, or_get, serve, dispatch,
}
use torge.App.Dispatch.Answers.{or_get_found, root_path_same, Answer, dispatch-Answer}

-- A request whose path has what the pattern of a registered route of its method captures is handed to
-- the best stored route for it, with the values that this route's pattern captures, and with the limit
-- of that route, or of the application, on its body; or its declared length is over the limit.
pub dispatch-Handled :
    (cfg : Config) (t : Table) (limit_of : Route → ℤ) (q : Request) (r : Route) (vs : List Text)
    → TableOk t
    → In r t.routes
    → q.method ≡ r.method
    → capture_path (steps_of r.path) (root_path q.path) ≡ some vs
    → Handled cfg t.router limit_of q q.method (root_path q.path) (dispatch cfg t.router limit_of q)
unfolding dispatch
dispatch-Handled cfg t limit_of q r vs ok m same c =
    let stored = ok.all_stored r m in
    let path = root_path q.path in
    let found =
      subst (λ k. find t.router k path [] ≢ none) (sym same)
        (find_complete t.router r path vs ok.router_ok stored c) in
    elim (Option-cases (find t.router q.method path [])) [
      | inl e ↦ absurd (found e)
      | inr ((x, xs), e) ↦
          subst
            (λ f.
              Handled cfg t.router limit_of q q.method path
                (serve cfg t.router limit_of q path (or_get t.router q.method path f)))
            (sym e) (serve-Handled cfg t.router limit_of q q.method path x xs ok.router_ok e)
    ]

-- The request with the path `alt` is handed to a route of its method, or for HEAD to one of GET.
abbrev pub Arrives : Config → Router → (Route → ℤ) → Request → Text → Type 0
Arrives cfg rt limit_of q alt =
    (m : Text) × Via q m
    × Handled cfg rt limit_of (record q { path = alt }) m alt
        (dispatch cfg rt limit_of (record q { path = alt }))

redirect-Arrives :
    (cfg : Config) (rt : Router) (limit_of : Route → ℤ) (q : Request) (alt : Text)
    → RouterOk rt
    → is_nil alt ≡ false
    → find rt (get_for_head q.method) alt [] ≢ none
    → Arrives cfg rt limit_of q alt
unfolding dispatch
redirect-Arrives cfg rt limit_of q alt ok not_empty target =
    let next : Request = record q { path = alt } in
    let (m, r, vs, via, found, or_found) =
      or_get-Via rt next alt (find rt q.method alt []) refl (or_get_found rt q.method alt target) in
    (
      m,
      via,
      subst
          (λ p.
            Handled cfg rt limit_of next m alt
              (serve cfg rt limit_of next p (or_get rt q.method p (find rt q.method p []))))
          (sym (root_path_same alt not_empty))
          (subst (λ f. Handled cfg rt limit_of next m alt (serve cfg rt limit_of next alt f))
            (sym or_found) (serve-Handled cfg rt limit_of next m alt r vs ok found)),
    )

changed-is_plain_path :
    (alt path : Text)
    → alt ≡ location path (other_slash path)
    → text_eq alt (other_slash path) ≡ false
    → (alt ≢ other_slash path) × (is_plain_path (other_slash path) ≡ false)
changed-is_plain_path alt path at_location b =
    let changed : alt ≢ other_slash path =
      λ x. absurd (cc (sym b ∙ (text_eq_iff alt (other_slash path)).1 x)) in
    (
      changed,
      elim (Bool-cases (is_plain_path (other_slash path))) [
        | inl p ↦ absurd (changed (at_location ∙ location-is_plain_path path (other_slash path) p))
        | inr p ↦ p
      ],
    )

-- On a table that insertions build (`RouterOk`): a redirect is to the path with the other ending, as
-- http.Redirect cleans it, with 301 for GET and HEAD and 308 otherwise. Unless that path has a dot
-- segment, an empty segment before its end or no slash at its start, it is the Location, and whenever it
-- is, the request for it is not redirected again: for its method, or for GET in place of HEAD, it is
-- handed to the best stored route for the path, or its declared length is over the limit.
pub dispatch-redirect :
    (cfg : Config) (rt : Router) (limit_of : Route → ℤ) (q : Request) (code : ℕ) (alt : Text)
    → RouterOk rt
    → dispatch cfg rt limit_of q ≡ redirect code alt
    → (alt ≡ location (root_path q.path) (other_slash (root_path q.path)))
      × (code ≡ redirect_code q.method)
      × (((alt ≢ other_slash (root_path q.path))
            × (is_plain_path (other_slash (root_path q.path)) ≡ false))
          ⊎ ((alt ≡ other_slash (root_path q.path)) × Arrives cfg rt limit_of q alt))
dispatch-redirect cfg rt limit_of q code alt ok e =
    let (to, at_location, coded) =
      subst (Answer rt q.method (root_path q.path)) e (dispatch-Answer cfg rt limit_of q) in
    (
      at_location,
      coded,
      elim (Bool-cases (text_eq alt (other_slash (root_path q.path)))) [
        | inl b ↦
            let same = (text_eq_iff alt (other_slash (root_path q.path))).0 b in
            inr (
              same,
              redirect-Arrives cfg rt limit_of q alt ok (ap is_nil same ∙ to.not_empty)
                  (λ x. to.target (ap (λ p. find rt (get_for_head q.method) p []) (sym same) ∙ x)),
            )
        | inr b ↦ inl (changed-is_plain_path alt (root_path q.path) at_location b)
      ],
    )

-- A path that a method finds is found under the method; HEAD finds what GET finds.
served_found :
    (rt : Router) (method path : Text)
    → serves rt method path ≡ true
    → or_get rt method path (find rt method path []) ≢ none
served_found rt method path e = go (find rt method path []) e
  where
    go : (f : Found) → is_found f ≡ true → or_get rt method path f ≢ none
    go none e = absurd (cc e)
    go (some r) e = λ x. absurd (cc x)

head_found :
    (rt : Router) (method path : Text)
    → method ≡ text "HEAD"
    → serves rt (text "GET") path ≡ true
    → or_get rt method path (find rt method path []) ≢ none
unfolding text_eq
head_found rt method path h e = or_get_found rt method path (
    subst (λ m. find rt m path [] ≢ none) (sym (ap get_for_head h))
      (is_found-none (find rt (text "GET") path []) e))
  where
    is_found-none : (f : Found) → is_found f ≡ true → f ≢ none
    is_found-none none e = absurd (cc e)
    is_found-none (some r) e = λ x. absurd (cc x)

-- In a table with one trie for each method, a request is refused as not allowed with the methods
-- that `allowed` gives, of which its own is none.
pub dispatch-method_not_allowed :
    (cfg : Config) (rt : Router) (limit_of : Route → ℤ) (q : Request) (allow : List Text)
    → DistinctKeys rt.trees
    → dispatch cfg rt limit_of q ≡ method_not_allowed allow
    → (allow ≡ allowed rt (root_path q.path)) × (contains q.method allow ≡ false)
dispatch-method_not_allowed cfg rt limit_of q allow d e =
    let (same, other, missing) =
      subst (Answer rt q.method (root_path q.path)) e (dispatch-Answer cfg rt limit_of q) in
    (
      same,
      elim (Bool-cases (contains q.method (allowed rt (root_path q.path)))) [
        | inl b ↦ absurd (elim ((contains-allowed_iff rt (root_path q.path) q.method d).0 b).1 [
          | inl own ↦ served_found rt q.method (root_path q.path) own missing
          | inr (inl (h, get)) ↦ head_found rt q.method (root_path q.path) h get missing
          | inr (inr options) ↦ other options
        ])
        | inr b ↦ ap (contains q.method) same ∙ b
      ],
    )
