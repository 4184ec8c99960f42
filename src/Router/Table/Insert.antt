-- ===== src/Router/Table/Insert.antt =====
-- router.go: `insert` against the set of the routes that are stored.
use torge.Base.{
  ◌≡◌, refl, sym, ◌∙◌, ap, ◌⊎◌, inl, inr, ◌↔◌, Bool, true, false, List, Option, none, some,
  Bool-cases, if◌then◌else◌,
}
use mathlib.Core.Path.{subst}
use torge.Base.Text.{Text, text_eq, text_eq_iff}
use torge.Base.Assoc.{get, put, get-put, get-put_self}
use torge.Router.Pattern.{Step, Parsed, names, failed, parse_pattern, steps_of}
use torge.Router.Trie.{Node, Route, insert_at, at}
use torge.Router.Trie.Capture.{none-ne-some}
use torge.Router.Trie.Insert.{
  at-new_node, kept_or_new, insert_at_conflict, at-insert_at_self, at-insert_at_ne, Step-discrete,
}
use torge.Router.Table.{Router, invalid, conflict, stored, root_or_new, conflict_or_stored, insert}
use torge.Router.Table.Contents.{
  Stored, TreeOk, RouterOk, trees_ok, tree_ok, root-TreeOk, insert_at-TreeOk,
}

steps-discrete : Discrete (List Step)
steps-discrete = hlevel Step-discrete

-- The route as `insert` stores it, with its names.
abbrev pub named : Route → List Text → Route
named r ns = record r { param_names = ns }

abbrev old_root : Route → Router → Node
old_root r rt = root_or_new (get r.method rt.trees)

abbrev new_root : Route → List Text → Router → Node
new_root r ns rt = (insert_at (steps_of r.path) (named r ns) (old_root r rt)).1

pub insert-failed :
    (r : Route) (rt : Router) (e : torge.Router.Pattern.PatternError)
    → parse_pattern r.path ≡ failed e
    → insert r rt ≡ (rt, invalid e)
unfolding insert
insert-failed r rt e h = rw (h, insert) refl

insert-trees :
    (r : Route) (rt : Router) (ns : List Text)
    → parse_pattern r.path ≡ names ns
    → (insert r rt).0.trees ≡ put r.method (new_root r ns rt) rt.trees
unfolding insert
insert-trees r rt ns h = rw (h, insert) refl

insert-result :
    (r : Route) (rt : Router) (ns : List Text)
    → parse_pattern r.path ≡ names ns
    → (insert r rt).1
      ≡ conflict_or_stored (insert_at (steps_of r.path) (named r ns) (old_root r rt)).0
unfolding insert
insert-result r rt ns h = rw (h, insert) refl

pub Parsed-cases :
    (p : Parsed)
    → ((e : torge.Router.Pattern.PatternError) × (p ≡ failed e))
      ⊎ ((ns : List Text) × (p ≡ names ns))
Parsed-cases (failed e) = inl (e, refl)
Parsed-cases (names ns) = inr (ns, refl)

-- `insert` keeps the invariant of the table, whatever it returns.
pub insert-RouterOk : (r : Route) (rt : Router) → RouterOk rt → RouterOk (insert r rt).0
insert-RouterOk r rt h = elim (Parsed-cases (parse_pattern r.path)) [
  | inl (e, k) ↦ subst (λ t. RouterOk t.0) (sym (insert-failed r rt e k)) h
  | inr (ns, k) ↦ trees_ok (λ method root e. go ns k method root (text_eq r.method method) refl (
      sym (get-put r.method method (new_root r ns rt) rt.trees)
      ∙ ap (get method) (sym (insert-trees r rt ns k))
      ∙ e))
]
  where
    go :
        (ns : List Text)
        → parse_pattern r.path ≡ names ns
        → (method : Text) (root : Node) (b : Bool) → text_eq r.method method ≡ b
        → (if text_eq r.method method then some (new_root r ns rt) else get method rt.trees)
          ≡ some root
        → TreeOk method root
    go ns k method root true e h' =
        let same = (text_eq_iff r.method method).0 e in
        subst (TreeOk method) (cc (rw e at h')) (
          insert_at-TreeOk method (named r ns) (old_root r rt)
            (subst (λ t. TreeOk t (old_root r rt)) same (root-TreeOk rt r.method h)) same k)
    go ns k method root false e h' = tree_ok method root h (rw e at h')

-- The root under a route's method after `insert`.
tree-insert :
    (r : Route) (rt : Router) (ns : List Text) (method : Text)
    → parse_pattern r.path ≡ names ns
    → get method (insert r rt).0.trees
      ≡ (if text_eq r.method method then some (new_root r ns rt) else get method rt.trees)
tree-insert r rt ns method k =
    ap (get method) (insert-trees r rt ns k) ∙ get-put r.method method (new_root r ns rt) rt.trees

tree-insert_self :
    (r : Route) (rt : Router) (ns : List Text)
    → parse_pattern r.path ≡ names ns
    → get r.method (insert r rt).0.trees ≡ some (new_root r ns rt)
tree-insert_self r rt ns k =
    ap (get r.method) (insert-trees r rt ns k) ∙ get-put_self r.method (new_root r ns rt) rt.trees

conflict_or_stored-cases :
    (o : Option Route) (old : Route) → conflict_or_stored o ≡ conflict old → o ≡ some old
conflict_or_stored-cases none old e = cc
conflict_or_stored-cases (some x) old e = cc

stored-none : (o : Option Route) → conflict_or_stored o ≡ stored → o ≡ none
stored-none none e = refl
stored-none (some x) e = cc

-- On a table that insertions build (`RouterOk`), a route whose pattern is accepted and for which
-- `insert` reports no conflict is stored, with its names.
pub insert-Stored :
    (r : Route) (rt : Router) (ns : List Text)
    → RouterOk rt
    → parse_pattern r.path ≡ names ns
    → (insert r rt).1 ≡ stored
    → Stored (insert r rt).0 (named r ns)
insert-Stored r rt ns h k e =
    let ok = (root-TreeOk rt r.method h).trie in
    let path = steps_of r.path in
    let free : at path (old_root r rt) ≡ none =
      sym (insert_at_conflict path (named r ns) (old_root r rt) ok)
      ∙ stored-none _ (sym (insert-result r rt ns k) ∙ e) in
    record {
      root = new_root r ns rt;
      tree = tree-insert_self r rt ns k;
      stored_at =
          at-insert_at_self path (named r ns) (old_root r rt) ok
          ∙ ap (λ o. kept_or_new o (named r ns)) free;
    }

keeps-named :
    (r : Route) (rt : Router) (ns : List Text) (x : Route)
    → RouterOk rt
    → parse_pattern r.path ≡ names ns
    → Stored rt x
    → Stored (insert r rt).0 x
keeps-named r rt ns x h k s = elim (Bool-cases (text_eq r.method x.method)) [
  | inr other ↦ record {
    root = s.root;
    tree = tree-insert r rt ns x.method k ∙ rw other s.tree;
    stored_at = s.stored_at;
  }
  | inl same ↦ record {
    root = new_root r ns rt;
    tree = tree-insert r rt ns x.method k ∙ rw same refl;
    stored_at = moved ((text_eq_iff r.method x.method).0 same);
  }
]
  where
    moved : r.method ≡ x.method → at (steps_of x.path) (new_root r ns rt) ≡ some x
    moved m =
        let ok = (root-TreeOk rt r.method h).trie in
        let here : at (steps_of x.path) (old_root r rt) ≡ some x =
          ap (λ t. at (steps_of x.path) (root_or_new (get t rt.trees))) m
          ∙ ap (λ o. at (steps_of x.path) (root_or_new o)) s.tree
          ∙ s.stored_at in
        elim (steps-discrete (steps_of r.path) (steps_of x.path)) [
          | no d ↦ at-insert_at_ne (steps_of r.path) (steps_of x.path) (named r ns) _ ok d ∙ here
          | yes d ↦
              ap (λ t. at t (new_root r ns rt)) (sym d)
              ∙ at-insert_at_self (steps_of r.path) (named r ns) (old_root r rt) ok
              ∙ ap (λ o. kept_or_new o (named r ns)) (ap (λ t. at t (old_root r rt)) d ∙ here)
        ]

-- On a table that insertions build (`RouterOk`), no `insert`, accepted or refused, removes or
-- changes a stored route.
pub insert-keeps :
    (r : Route) (rt : Router) (x : Route) → RouterOk rt → Stored rt x → Stored (insert r rt).0 x
insert-keeps r rt x h s = elim (Parsed-cases (parse_pattern r.path)) [
  | inl (e, k) ↦ subst (λ t. Stored t.0 x) (sym (insert-failed r rt e k)) s
  | inr (ns, k) ↦ keeps-named r rt ns x h k s
]

-- For a pattern that is accepted, on a table that insertions build (`RouterOk`), `insert` reports a
-- conflict with `old` exactly if `old` is stored under the same method and the same sequence of
-- steps.
pub insert-conflict_iff :
    (r : Route) (rt : Router) (ns : List Text) (old : Route)
    → RouterOk rt
    → parse_pattern r.path ≡ names ns
    → ((insert r rt).1 ≡ conflict old)
      ↔ (Stored rt old × (old.method ≡ r.method) × (steps_of old.path ≡ steps_of r.path))
insert-conflict_iff r rt ns old h k = (to, from)
  where
    known :
        (insert_at (steps_of r.path) (named r ns) (old_root r rt)).0
        ≡ at (steps_of r.path) (old_root r rt)
    known =
        insert_at_conflict (steps_of r.path) (named r ns) (old_root r rt)
          (root-TreeOk rt r.method h).trie

    in_tree :
        (o : Option Node)
        → get r.method rt.trees ≡ o
        → at (steps_of r.path) (root_or_new o) ≡ some old
        → Stored rt old × (old.method ≡ r.method) × (steps_of old.path ≡ steps_of r.path)
    in_tree none e a = absurd (none-ne-some (sym (at-new_node (steps_of r.path)) ∙ a))
    in_tree (some root) e a =
        let ok = tree_ok r.method root h e in
        let m = ok.own_method (steps_of r.path) old a in
        let p = ok.own_steps (steps_of r.path) old a in
        (
          record {
            root = root;
            tree = ap (λ t. get t rt.trees) m ∙ e;
            stored_at = ap (λ t. at t root) p ∙ a;
          },
          m,
          p,
        )

    to :
        (insert r rt).1 ≡ conflict old
        → Stored rt old × (old.method ≡ r.method) × (steps_of old.path ≡ steps_of r.path)
    to e =
        in_tree (get r.method rt.trees) refl
          (sym known ∙ conflict_or_stored-cases _ old (sym (insert-result r rt ns k) ∙ e))

    from :
        Stored rt old × (old.method ≡ r.method) × (steps_of old.path ≡ steps_of r.path)
        → (insert r rt).1 ≡ conflict old
    from (s, m, p) =
        insert-result r rt ns k
        ∙ ap conflict_or_stored (
            known
            ∙ ap (λ t. at t (old_root r rt)) (sym p)
            ∙ ap (λ t. at (steps_of old.path) (root_or_new (get t rt.trees))) (sym m)
            ∙ ap (λ o. at (steps_of old.path) (root_or_new o)) s.tree
            ∙ s.stored_at)
