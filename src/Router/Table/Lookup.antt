-- ===== src/Router/Table/Lookup.antt =====
-- router.go: `lookup`, with the paths "" and "/" that it treats before `match`.
use torge.Base.{
  ℕ, ◌≡◌, refl, sym, ◌∙◌, ap, ◌≢◌, ◌⊎◌, inl, inr, true, false, List, [], ◌∷◌, ◌++◌, Option, none,
  some, ◌==◌, Bool-cases,
}
use mathlib.Core.List.{append-nil}
use torge.Base.Text.{Text}
use torge.Router.Pattern.{Step, static, param, wildcard}
use torge.Router.Trie.{Node, node, Route, Found, found, or_else, match, lookup, at}
use torge.Router.Trie.Spec.{capture, capture_path, Preferred, root, same}
use torge.Router.Trie.Capture.{none-ne-some}
use torge.Router.Trie.Match.{MatchSpec, match-MatchSpec, wildcard_route-at}

-- The preferred stored pattern that matches the whole request path.
pub record PathBest (n : Node) (req : Text) (values : List Text) (r : Route) (out : List Text)
    : Type 0 where
  pub path : List Step
  pub caps : List Text
  pub stored : at path n ≡ some r
  pub fits : capture_path path req ≡ some caps
  pub result : out ≡ values ++ caps
  pub first :
      (q : List Step) (x : Route) (cs : List Text)
      → at q n ≡ some x
      → capture_path q req ≡ some cs
      → Preferred path q

abbrev pub LookupSpec : Node → Text → List Text → Found → Type 0
LookupSpec n req values none =
    (q : List Step) (x : Route) (cs : List Text) → at q n ≡ some x → capture_path q req ≢ some cs
LookupSpec n req values (some (r, out)) = PathBest n req values r out

-- A path that names the root: "" or "/".
IsRoot : Text → Type 0
IsRoot req =
    (capture_path [] req ≡ some [])
    × (capture_path (wildcard ∷ []) req ≡ some ([] ∷ []))
    × ((q : List Step) (cs : List Text)
        → capture_path q req ≡ some cs
        → (q ≡ []) ⊎ (q ≡ wildcard ∷ []))

empty-IsRoot : IsRoot []
unfolding IsRoot capture_path
empty-IsRoot = (refl, refl, only)
  where
    only :
        (q : List Step) (cs : List Text)
        → capture_path q [] ≡ some cs
        → (q ≡ []) ⊎ (q ≡ wildcard ∷ [])
    only [] cs h = inl refl
    only (wildcard ∷ []) cs h = inr refl
    only (wildcard ∷ s ∷ q) cs h = absurd (none-ne-some h)
    only (static t ∷ q) cs h = absurd (none-ne-some h)
    only (param ∷ q) cs h = absurd (none-ne-some h)

slash-IsRoot : (c : ℕ) → (c == b'/') ≡ true → IsRoot (c ∷ [])
unfolding IsRoot capture_path
slash-IsRoot c e = (rw (e, capture_path) refl, rw (e, capture_path) refl, only)
  where
    only :
        (q : List Step) (cs : List Text)
        → capture_path q (c ∷ []) ≡ some cs
        → (q ≡ []) ⊎ (q ≡ wildcard ∷ [])
    only [] cs h = inl refl
    only (wildcard ∷ []) cs h = inr refl
    only (wildcard ∷ s ∷ q) cs h = absurd (none-ne-some h)
    only (static t ∷ q) cs h = absurd (none-ne-some h)
    only (param ∷ q) cs h = absurd (none-ne-some h)

root_search :
    (n : Node) (req : Text) (values : List Text) (o w : Option Route)
    → IsRoot req
    → at [] n ≡ o
    → at (wildcard ∷ []) n ≡ w
    → LookupSpec n req values (or_else (found o values) (found w (values ++ [] ∷ [])))
unfolding IsRoot
root_search n req values (some r) w h e k = record {
  path = [];
  caps = [];
  stored = e;
  fits = h.0;
  result = sym (append-nil values);
  first = λ q x cs a b. root;
}
root_search n req values none (some r) h e k = record {
  path = wildcard ∷ [];
  caps = [] ∷ [];
  stored = k;
  fits = h.1;
  result = refl;
  first = first;
}
  where
    first :
        (q : List Step) (x : Route) (cs : List Text)
        → at q n ≡ some x
        → capture_path q req ≡ some cs
        → Preferred (wildcard ∷ []) q
    first q x cs a b = elim (h.2 q cs b) [
      | inl i ↦ absurd (none-ne-some (sym e ∙ ap (λ t. at t n) (sym i) ∙ a))
      | inr i ↦ rw i (same root)
    ]
root_search n req values none none h e k = neither
  where
    neither :
        (q : List Step) (x : Route) (cs : List Text)
        → at q n ≡ some x
        → capture_path q req ≢ some cs
    neither q x cs a b = elim (h.2 q cs b) [
      | inl i ↦ none-ne-some (sym e ∙ ap (λ t. at t n) (sym i) ∙ a)
      | inr i ↦ none-ne-some (sym k ∙ ap (λ t. at t n) (sym i) ∙ a)
    ]

capture_path-no_slash :
    (q : List Step) (c : ℕ) (s : Text) → (c == b'/') ≡ false → capture_path q (c ∷ s) ≡ none
unfolding capture_path
capture_path-no_slash [] c [] e = rw (e, capture_path) refl
capture_path-no_slash (wildcard ∷ []) c [] e = rw (e, capture_path) refl
capture_path-no_slash (wildcard ∷ s ∷ q) c [] e = refl
capture_path-no_slash (static t ∷ q) c [] e = refl
capture_path-no_slash (param ∷ q) c [] e = refl
capture_path-no_slash q c (d ∷ s) e = rw (e, capture_path) refl

capture_path-slash :
    (q : List Step) (c d : ℕ) (s : Text)
    → (c == b'/') ≡ true
    → capture_path q (c ∷ d ∷ s) ≡ capture q (d ∷ s)
unfolding capture_path
capture_path-slash q c d s e = rw (e, capture_path) refl

root_lookup :
    (n : Node) (req : Text) (values : List Text)
    → IsRoot req
    → LookupSpec n req values (lookup n [] values)
unfolding lookup
root_lookup (node labels kids index p w r) req values h =
    rw (wildcard_route-at labels kids index p w r)
      (root_search (node labels kids index p w r) req values r _ h (unfold at in refl) refl)

match-LookupSpec :
    (n : Node) (c d : ℕ) (s : Text) (values : List Text) (res : Found)
    → (c == b'/') ≡ true
    → MatchSpec n (d ∷ s) values res
    → LookupSpec n (c ∷ d ∷ s) values res
match-LookupSpec n c d s values none e h =
    λ q x cs a b. h q x cs a (sym (capture_path-slash q c d s e) ∙ b)
match-LookupSpec n c d s values (some (r, out)) e b = record {
  path = b.path;
  caps = b.caps;
  stored = b.stored;
  fits = capture_path-slash b.path c d s e ∙ b.fits;
  result = b.result;
  first = λ q x cs a k. b.first q x cs a (sym (capture_path-slash q c d s e) ∙ k);
}

lookup-slash :
    (n : Node) (c : ℕ) (values : List Text)
    → (c == b'/') ≡ true
    → lookup n (c ∷ []) values ≡ lookup n [] values
unfolding lookup
lookup-slash (node labels kids index p w r) c values e = rw (e, lookup) refl

lookup-no_slash :
    (n : Node) (c : ℕ) (s : Text) (values : List Text)
    → (c == b'/') ≡ false
    → lookup n (c ∷ s) values ≡ none
unfolding lookup
lookup-no_slash (node labels kids index p w r) c [] values e = rw (e, lookup) refl
lookup-no_slash n c (d ∷ s) values e = rw (e, lookup) refl

lookup-match :
    (n : Node) (c d : ℕ) (s : Text) (values : List Text)
    → (c == b'/') ≡ true
    → lookup n (c ∷ d ∷ s) values ≡ match n (d ∷ s) values
unfolding lookup
lookup-match n c d s values e = rw (e, lookup) refl

lookup-LookupSpec_cons :
    (n : Node) (c : ℕ) (s : Text) (values : List Text)
    → LookupSpec n (c ∷ s) values (lookup n (c ∷ s) values)
lookup-LookupSpec_cons n c s values = elim (Bool-cases (c == b'/')) [
  | inr e ↦
      rw (lookup-no_slash n c s values e)
        (λ q x cs a b. none-ne-some (sym (capture_path-no_slash q c s e) ∙ b))
  | inl e ↦ behind s e
]
  where
    behind : (s : Text) → (c == b'/') ≡ true → LookupSpec n (c ∷ s) values (lookup n (c ∷ s) values)
    behind [] e = rw (lookup-slash n c values e) (root_lookup n (c ∷ []) values (slash-IsRoot c e))
    behind (d ∷ s) e =
        rw (lookup-match n c d s values e)
          (match-LookupSpec n c d s values _ e (match-MatchSpec n (d ∷ s) values))

-- `lookup` returns the preferred stored pattern that matches the request path, and nothing
-- exactly if no stored pattern matches.
pub lookup-LookupSpec :
    (n : Node) (req : Text) (values : List Text) → LookupSpec n req values (lookup n req values)
lookup-LookupSpec n [] values = root_lookup n [] values empty-IsRoot
lookup-LookupSpec n (c ∷ s) values = lookup-LookupSpec_cons n c s values
