-- ===== src/Router/Table/Contents.antt =====
-- router.go: the routes that a table stores, and the invariant of its tries.
use torge.Base.{◌≡◌, refl, sym, ◌∙◌, ap, ◌⊎◌, inl, inr, List, Option, none, some, Option-cases}
use mathlib.Core.Path.{subst}
use torge.Base.Text.{Text}
use torge.Base.Assoc.{get}
use torge.Router.Pattern.{Step, names, parse_pattern, steps_of}
use torge.Router.Trie.{Node, new_node, Route, insert_at, at}
use torge.Router.Trie.Capture.{none-ne-some}
use torge.Router.Trie.Insert.{
  TrieOk, new_node-TrieOk, at-new_node, kept_or_new, at-insert_at_self, at-insert_at_ne,
  insert_at-TrieOk, Step-discrete,
}
use torge.Router.Table.{Router, new_router, root_or_new}

-- A route that the table holds, under its method and its steps.
pub record Stored (rt : Router) (r : Route) : Type 0 where
  pub root : Node
  pub tree : get r.method rt.trees ≡ some root
  pub stored_at : at (steps_of r.path) root ≡ some r

-- One trie of the table holds routes of its method, each under its steps, with its names.
pub record TreeOk (method : Text) (root : Node) : Type 0 where
  pub trie : TrieOk root
  pub own_method : (p : List Step) (r : Route) → at p root ≡ some r → r.method ≡ method
  pub own_steps : (p : List Step) (r : Route) → at p root ≡ some r → steps_of r.path ≡ p
  pub own_names :
      (p : List Step) (r : Route) → at p root ≡ some r → parse_pattern r.path ≡ names r.param_names

pub data RouterOk (rt : Router) : Type 0 where
  trees_ok :
      ((method : Text) (root : Node) → get method rt.trees ≡ some root → TreeOk method root)
      → RouterOk rt

pub tree_ok :
    {rt : Router} (method : Text) (root : Node)
    → RouterOk rt
    → get method rt.trees ≡ some root
    → TreeOk method root
tree_ok method root (trees_ok h) = h method root

pub new_router-RouterOk : RouterOk new_router
unfolding get
new_router-RouterOk = trees_ok (λ method root e. absurd (none-ne-some e))

new_node-TreeOk : (method : Text) → TreeOk method new_node
new_node-TreeOk method = record {
  trie = new_node-TrieOk;
  own_method = λ p r e. absurd (none-ne-some (sym (at-new_node p) ∙ e));
  own_steps = λ p r e. absurd (none-ne-some (sym (at-new_node p) ∙ e));
  own_names = λ p r e. absurd (none-ne-some (sym (at-new_node p) ∙ e));
}

pub root-TreeOk :
    (rt : Router) (method : Text) → RouterOk rt → TreeOk method (root_or_new (get method rt.trees))
root-TreeOk rt method h = elim (Option-cases (get method rt.trees)) [
  | inl e ↦ rw (e, root_or_new) (new_node-TreeOk method)
  | inr (root, e) ↦ rw (e, root_or_new) (tree_ok method root h e)
]

pub some_injective : {a b : Route} → some a ≡ some b → a ≡ b
some_injective e = cc

-- What a route of the new trie is: one of the old trie's, or the one inserted.
at-insert_at_cases :
    (p q : List Step) (r x : Route) (n : Node)
    → TrieOk n
    → at q (insert_at p r n).1 ≡ some x
    → (at q n ≡ some x) ⊎ ((p ≡ q) × (r ≡ x))
at-insert_at_cases p q r x n h e = elim (steps-discrete p q) [
  | no d ↦ inl (sym (at-insert_at_ne p q r n h d) ∙ e)
  | yes d ↦ old (at p n) refl d
]
  where
    steps-discrete : Discrete (List Step)
    steps-discrete = hlevel Step-discrete

    old : (o : Option Route) → at p n ≡ o → p ≡ q → (at q n ≡ some x) ⊎ ((p ≡ q) × (r ≡ x))
    old none k d = inr (
      d,
      some_injective (
          ap (λ o. kept_or_new o r) (sym k)
          ∙ sym (at-insert_at_self p r n h)
          ∙ ap (λ t. at t (insert_at p r n).1) d
          ∙ e),
    )
    old (some y) k d = inl (
        ap (λ t. at t n) (sym d)
        ∙ k
        ∙ ap (λ o. kept_or_new o r) (sym k)
        ∙ sym (at-insert_at_self p r n h)
        ∙ ap (λ t. at t (insert_at p r n).1) d
        ∙ e)

pub insert_at-TreeOk :
    (method : Text) (r : Route) (n : Node)
    → TreeOk method n
    → r.method ≡ method
    → parse_pattern r.path ≡ names r.param_names
    → TreeOk method (insert_at (steps_of r.path) r n).1
insert_at-TreeOk method r n h m ns = record {
  trie = insert_at-TrieOk (steps_of r.path) r n h.trie;
  own_method = λ p x e. elim (at-insert_at_cases (steps_of r.path) p r x n h.trie e) [
    | inl old ↦ h.own_method p x old
    | inr new ↦ ap (λ t. t.method) (sym new.1) ∙ m
  ];
  own_steps = λ p x e. elim (at-insert_at_cases (steps_of r.path) p r x n h.trie e) [
    | inl old ↦ h.own_steps p x old
    | inr new ↦ ap (λ t. steps_of t.path) (sym new.1) ∙ new.0
  ];
  own_names = λ p x e. elim (at-insert_at_cases (steps_of r.path) p r x n h.trie e) [
    | inl old ↦ h.own_names p x old
    | inr new ↦ subst (λ t. parse_pattern t.path ≡ names t.param_names) new.1 ns
  ];
}
