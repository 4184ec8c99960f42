-- ===== src/Router/Trie/Insert.antt =====
-- router.go: the walk of `insert` stores one route, under its own steps, and moves no other.
use torge.Base.{
  ◌≡◌, refl, sym, ◌∙◌, ap, ◌≢◌, inl, inr, List, [], ◌∷◌, Option, none, some, Option-cases,
}
use mathlib.Core.Path.{ap₂, subst}
use native.Mathlib.Decide.{ℕ_discrete}
use torge.Base.Text.{Text}
use torge.Router.Pattern.{Step, static, param, wildcard}
use torge.Router.Trie.{
  Node, node, new_node, Route, route_of, child_of, static_child, scan, add_static, append_static,
  grow, set_child, set_route, insert_at, at,
}
use torge.Router.Trie.Children.{
  NodeOk, grow-NodeOk, set_child-NodeOk, child_or_empty, child_of-grow_self, child_of-grow_ne,
  child_of-set_child_self, child_of-set_child_ne,
}

pub Step-discrete : Discrete Step
Step-discrete = hlevel ℕ_discrete

-- The node at the end of a sequence of steps.
abbrev pub walk : List Step → Node → Option Node
walk [] n = some n
walk (s ∷ path) n = elim (child_of s n) [ none ↦ none | some c ↦ walk path c ]

-- Every node of the trie is in order.
abbrev pub TrieOk : Node → Type 0
TrieOk n = (path : List Step) (c : Node) → walk path n ≡ some c → NodeOk c

some_injective : {b c : Node} → some b ≡ some c → b ≡ c
some_injective e = cc

none-ne-some : {c : Node} → none ≢ some c
none-ne-some = cc

child_of-new_node : (s : Step) → child_of s new_node ≡ none
unfolding child_of scan
child_of-new_node (static s) = refl
child_of-new_node param = refl
child_of-new_node wildcard = refl

pub new_node-TrieOk : TrieOk new_node
new_node-TrieOk [] c e =
    subst_ok (some_inj e) (record { distinct = tt; indexed = tt; sized = refl })
  where
    some_inj : some new_node ≡ some c → new_node ≡ c
    some_inj e = cc

    subst_ok : new_node ≡ c → NodeOk new_node → NodeOk c
    subst_ok e h = rw (← e) h
new_node-TrieOk (s ∷ path) c e = absurd (none-ne-some (rw (child_of-new_node s, walk) at e))

pub child-TrieOk : (s : Step) (n c : Node) → TrieOk n → child_of s n ≡ some c → TrieOk c
child-TrieOk s n c h e path d k = h (s ∷ path) d (rw (e, walk) k)

child_or_empty-TrieOk : (s : Step) (n : Node) → TrieOk n → TrieOk (child_or_empty (child_of s n))
child_or_empty-TrieOk s n h = elim (Option-cases (child_of s n)) [
  | inl e ↦ rw (e, child_or_empty) new_node-TrieOk
  | inr (c, e) ↦ rw (e, child_or_empty) (child-TrieOk s n c h e)
]

pub at-new_node : (path : List Step) → at path new_node ≡ none
unfolding at
at-new_node [] = refl
at-new_node (s ∷ path) = rw (child_of-new_node s, at) refl

at-cons :
    (s : Step) (path : List Step) (n : Node)
    → at (s ∷ path) n ≡ at path (child_or_empty (child_of s n))
unfolding at
at-cons s path n = elim (Option-cases (child_of s n)) [
  | inl e ↦ rw (e, at, child_or_empty) (sym (at-new_node path))
  | inr (c, e) ↦ rw (e, at, child_or_empty) refl
]

insert_at-cons :
    (s : Step) (path : List Step) (r : Route) (n : Node)
    → NodeOk n
    → insert_at (s ∷ path) r n ≡ (
      (insert_at path r (child_or_empty (child_of s n))).0,
      set_child s (insert_at path r (child_or_empty (child_of s n))).1 (grow s n),
    )
unfolding insert_at
insert_at-cons s path r n h = rw (child_of-grow_self s n h, insert_at) refl

-- What the new trie's children are.
child-insert_self :
    (s : Step) (c n : Node) → NodeOk n → child_of s (set_child s c (grow s n)) ≡ some c
child-insert_self s c n h =
    child_of-set_child_self s c _ (grow s n) (grow-NodeOk s n h) (child_of-grow_self s n h)

child-insert_ne :
    (s t : Step) (c n : Node)
    → NodeOk n
    → s ≢ t
    → child_of t (set_child s c (grow s n)) ≡ child_of t n
child-insert_ne s t c n h d =
    child_of-set_child_ne s t c (grow s n) (grow-NodeOk s n h) d ∙ child_of-grow_ne s t n h d

route_of-append_static : (s : Text) (n : Node) → route_of (append_static s n) ≡ route_of n
route_of-append_static s (node labels kids index p w r) = refl

route_of-grow : (s : Step) (n : Node) → route_of (grow s n) ≡ route_of n
unfolding grow add_static
route_of-grow (static s) n = elim (Option-cases (static_child s n)) [
  | inl e ↦ rw (e, route_of, add_static) (route_of-append_static s n)
  | inr (c, e) ↦ rw (e, route_of, add_static) refl
]
route_of-grow param (node labels kids index p w r) = refl
route_of-grow wildcard (node labels kids index p w r) = refl

route_of-set_child : (s : Step) (c n : Node) → route_of (set_child s c n) ≡ route_of n
unfolding set_child
route_of-set_child (static s) c (node labels kids index p w r) = refl
route_of-set_child param c (node labels kids index p w r) = refl
route_of-set_child wildcard c (node labels kids index p w r) = refl

abbrev pub kept_or_new : Option Route → Route → Option Route
kept_or_new none r = some r
kept_or_new (some old) r = some old

set_route_at : (r : Route) (n : Node) → (set_route r n).0 ≡ route_of n
set_route_at r (node labels kids index p w none) = refl
set_route_at r (node labels kids index p w (some old)) = refl

-- The conflict that `insert` reports is the route already stored under the same steps.
pub insert_at_conflict :
    (path : List Step) (r : Route) (n : Node) → TrieOk n → (insert_at path r n).0 ≡ at path n
unfolding insert_at at
insert_at_conflict [] r n h = set_route_at r n
insert_at_conflict (s ∷ path) r n h =
    ap (λ t. t.0) (insert_at-cons s path r n (h [] n refl))
    ∙ insert_at_conflict path r (child_or_empty (child_of s n)) (child_or_empty-TrieOk s n h)
    ∙ sym (at-cons s path n)

route_of-set_route :
    (r : Route) (n : Node) → route_of (set_route r n).1 ≡ kept_or_new (route_of n) r
route_of-set_route r (node labels kids index p w none) = refl
route_of-set_route r (node labels kids index p w (some old)) = refl

child_of-set_route : (t : Step) (r : Route) (n : Node) → child_of t (set_route r n).1 ≡ child_of t n
unfolding child_of
child_of-set_route (static t) r (node labels kids index p w none) = refl
child_of-set_route param r (node labels kids index p w none) = refl
child_of-set_route wildcard r (node labels kids index p w none) = refl
child_of-set_route t r (node labels kids index p w (some old)) = refl

set_route-NodeOk : (r : Route) (n : Node) → NodeOk n → NodeOk (set_route r n).1
set_route-NodeOk r (node labels kids index p w none) h = h
set_route-NodeOk r (node labels kids index p w (some old)) h = h

-- A trie is read through its children.
at_of_child :
    (s : Step) (path : List Step) (n c : Node) → child_of s n ≡ some c → at (s ∷ path) n ≡ at path c
unfolding at
at_of_child s path n c e = rw (e, at) refl

at_of_same :
    (s : Step) (path : List Step) (m n : Node)
    → child_of s m ≡ child_of s n
    → at (s ∷ path) m ≡ at (s ∷ path) n
unfolding at
at_of_same s path m n e = rw (e, at) refl

pub at-insert_at_self :
    (path : List Step) (r : Route) (n : Node)
    → TrieOk n
    → at path (insert_at path r n).1 ≡ kept_or_new (at path n) r
at-insert_at_self [] r n h = unfold at insert_at in (route_of-set_route r n)
at-insert_at_self (s ∷ path) r n h =
    let ok = h [] n refl in
    let c0 = child_or_empty (child_of s n) in
    ap (λ t. at (s ∷ path) t.1) (insert_at-cons s path r n ok)
    ∙ at_of_child s path _ _ (child-insert_self s (insert_at path r c0).1 n ok)
    ∙ at-insert_at_self path r c0 (child_or_empty-TrieOk s n h)
    ∙ ap (λ o. kept_or_new o r) (sym (at-cons s path n))

pub at-insert_at_ne :
    (path other : List Step) (r : Route) (n : Node)
    → TrieOk n
    → path ≢ other
    → at other (insert_at path r n).1 ≡ at other n
at-insert_at_ne [] [] r n h d = absurd (d refl)
at-insert_at_ne [] (t ∷ other) r n h d =
    unfold insert_at in (at_of_same t other _ n (child_of-set_route t r n))
at-insert_at_ne (s ∷ path) [] r n h d =
    ap (λ t. at [] t.1) (insert_at-cons s path r n (h [] n refl))
    ∙ unfold at in (route_of-set_child s _ (grow s n) ∙ route_of-grow s n)
at-insert_at_ne (s ∷ path) (t ∷ other) r n h d =
    let ok = h [] n refl in
    let c0 = child_or_empty (child_of s n) in
    let c' = (insert_at path r c0).1 in
    ap (λ q. at (t ∷ other) q.1) (insert_at-cons s path r n ok) ∙ elim (Step-discrete s t) [
      | yes e ↦ rw (← e) (
          at_of_child s other _ _ (child-insert_self s c' n ok)
          ∙ at-insert_at_ne path other r c0 (child_or_empty-TrieOk s n h) (λ k. d (ap₂ ◌∷◌ e k))
          ∙ sym (at-cons s other n))
      | no e ↦ at_of_same t other _ n (child-insert_ne s t c' n ok e)
    ]

pub insert_at-TrieOk :
    (path : List Step) (r : Route) (n : Node) → TrieOk n → TrieOk (insert_at path r n).1
insert_at-TrieOk [] r n h = unfold insert_at in (stored)
  where
    stored : TrieOk (set_route r n).1
    stored [] c e = rw (← (some_injective e)) (set_route-NodeOk r n (h [] n refl))
    stored (t ∷ q) c e = h (t ∷ q) c (rw (child_of-set_route t r n, walk) at e)
insert_at-TrieOk (s ∷ path) r n h =
    let c0 = child_or_empty (child_of s n) in
    let deep = insert_at-TrieOk path r c0 (child_or_empty-TrieOk s n h) in
    subst TrieOk (sym (ap (λ t. t.1) (insert_at-cons s path r n (h [] n refl))))
      (grown (insert_at path r c0).1 deep)
  where
    grown : (c' : Node) → TrieOk c' → TrieOk (set_child s c' (grow s n))
    grown c' k [] c e =
        rw (← (some_injective e)) (set_child-NodeOk s c' (grow s n) (grow-NodeOk s n (h [] n refl)))
    grown c' k (t ∷ q) c e = elim (Step-discrete s t) [
      | yes d ↦ k q c (rw (← d, child-insert_self s c' n (h [] n refl), walk) at e)
      | no d ↦ h (t ∷ q) c (rw (child-insert_ne s t c' n (h [] n refl) d, walk) at e)
    ]
