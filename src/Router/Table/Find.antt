-- ===== src/Router/Table/Find.antt =====
-- router.go: `find` against the set of the routes that are stored.
use torge.Base.{◌≡◌, refl, sym, ◌∙◌, ap, ◌≢◌, inl, inr, List, [], none, some, length, Option-cases}
use mathlib.Core.Path.{subst}
use torge.Base.Text.{Text}
use torge.Base.Assoc.{get}
use torge.Router.Pattern.{steps_of}
use torge.Router.Trie.{Node, Route, Found, at, lookup}
use torge.Router.Trie.Spec.{capture_path, Preferred}
use torge.Router.Trie.Capture.{none-ne-some}
use torge.Router.Table.{Router, find}
use torge.Router.Table.Lookup.{LookupSpec, lookup-LookupSpec}
use torge.Router.Table.Names.{parse_pattern_count, capture_path-count}
use torge.Router.Table.Contents.{Stored, TreeOk, RouterOk, tree_ok}

find-lookup :
    (rt : Router) (method req : Text) (values : List Text) (root : Node)
    → get method rt.trees ≡ some root
    → find rt method req values ≡ lookup root req values
unfolding find
find-lookup rt method req values root e = rw e refl

-- The stored routes that match the request.
pub record Hit (rt : Router) (method req : Text) (r : Route) (values : List Text) : Type 0 where
  pub stored_route : Stored rt r
  pub own_method : r.method ≡ method
  pub captured : capture_path (steps_of r.path) req ≡ some values

abbrev IsSound : Router → Text → Text → Found → Type 0
IsSound rt method req none =
    (x : Route) (cs : List Text)
    → Stored rt x
    → x.method ≡ method
    → capture_path (steps_of x.path) req ≢ some cs
IsSound rt method req (some (r, values)) =
    Hit rt method req r values
    × (length values ≡ length r.param_names)
    × ((x : Route) (cs : List Text)
        → Stored rt x
        → x.method ≡ method
        → capture_path (steps_of x.path) req ≡ some cs
        → Preferred (steps_of r.path) (steps_of x.path))

-- A stored route of the method, in the method's trie.
in_root :
    (rt : Router) (method : Text) (root : Node) (x : Route)
    → get method rt.trees ≡ some root
    → Stored rt x
    → x.method ≡ method
    → at (steps_of x.path) root ≡ some x
in_root rt method root x e s m =
    ap (at (steps_of x.path)) (node_injective (sym e ∙ ap (λ t. get t rt.trees) (sym m) ∙ s.tree))
    ∙ s.stored_at
  where
    node_injective : {a b : Node} → some a ≡ some b → a ≡ b
    node_injective e = cc

lookup-IsSound :
    (rt : Router) (method req : Text) (root : Node) (res : Found)
    → TreeOk method root
    → get method rt.trees ≡ some root
    → LookupSpec root req [] res
    → IsSound rt method req res
lookup-IsSound rt method req root none h e spec =
    λ x cs s m c. spec (steps_of x.path) x cs (in_root rt method root x e s m) c
lookup-IsSound rt method req root (some (r, values)) h e b =
    let m = h.own_method b.path r b.stored in
    let p = h.own_steps b.path r b.stored in
    let captured : capture_path (steps_of r.path) req ≡ some values =
      ap (λ t. capture_path t req) p ∙ b.fits ∙ ap some (sym b.result) in
    (
      record {
        stored_route = record {
          root = root;
          tree = ap (λ t. get t rt.trees) m ∙ e;
          stored_at = ap (λ t. at t root) p ∙ b.stored;
        };
        own_method = m;
        captured = captured;
      },
      capture_path-count (steps_of r.path) req values captured
          ∙ sym (parse_pattern_count r.path r.param_names (h.own_names b.path r b.stored)),
      λ x cs s same c.
          subst (λ t. Preferred t (steps_of x.path)) (sym p)
            (b.first (steps_of x.path) x cs (in_root rt method root x e s same) c),
    )

find-IsSound :
    (rt : Router) (method req : Text) → RouterOk rt → IsSound rt method req (find rt method req [])
find-IsSound rt method req h = elim (Option-cases (get method rt.trees)) [
  | inr (root, e) ↦ subst (IsSound rt method req) (sym (find-lookup rt method req [] root e)) (
      lookup-IsSound rt method req root (lookup root req []) (tree_ok method root h e) e
        (lookup-LookupSpec root req []))
  | inl e ↦
      subst (IsSound rt method req) (sym (no_tree e))
        (λ x cs s m c. none-ne-some (sym e ∙ ap (λ t. get t rt.trees) (sym m) ∙ s.tree))
]
  where
    no_tree : get method rt.trees ≡ none → find rt method req [] ≡ none
    no_tree e = unfold find in rw e refl

-- On a table that insertions build (`RouterOk`), what `find` returns is a stored route of the
-- method whose pattern matches the path, with the values that the pattern captures, one for each of
-- its parameter names; and no stored route of the method that matches the path is preferred to it
-- (static over parameter over wildcard).
pub find-Hit :
    (rt : Router) (method req : Text) (r : Route) (values : List Text)
    → RouterOk rt
    → find rt method req [] ≡ some (r, values)
    → Hit rt method req r values
      × (length values ≡ length r.param_names)
      × ((x : Route) (cs : List Text)
          → Stored rt x
          → x.method ≡ method
          → capture_path (steps_of x.path) req ≡ some cs
          → Preferred (steps_of r.path) (steps_of x.path))
find-Hit rt method req r values h e = subst (IsSound rt method req) e (find-IsSound rt method req h)

-- On a table that insertions build (`RouterOk`), a request that a stored route matches is found.
pub find_complete :
    (rt : Router) (x : Route) (req : Text) (cs : List Text)
    → RouterOk rt
    → Stored rt x
    → capture_path (steps_of x.path) req ≡ some cs
    → find rt x.method req [] ≢ none
find_complete rt x req cs h s c e =
    subst (IsSound rt x.method req) e (find-IsSound rt x.method req h) x cs s refl c
