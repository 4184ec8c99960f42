-- ===== src/Router/Trie/Match.antt =====
-- router.go: `match` finds the preferred one among the stored patterns that match, with its values.
use torge.Base.{
  ℕ, zero, suc, ◌<◌, ◌≡◌, refl, sym, ◌∙◌, ap, ◌≢◌, inl, inr, List, [], ◌∷◌, ◌++◌, Option, none,
  some, arith, length, Option-cases, Bool, true, false, if◌then◌else◌,
}
use mathlib.Core.Path.{subst}
use mathlib.Core.List.{append-nil, append_assoc}
use torge.Base.Text.{Text}
use torge.Router.Pattern.{Step, static, param, wildcard}
use torge.Router.Trie.{
  Node, Kids, Child, node, nil, kid, absent, present, Route, route_of, child_of, static_child,
  static_pos, kid_of, of_child, cut_slash, Found, found, or_else, descend, is_empty, wildcard_route,
  match, at,
}
use torge.Router.Trie.Capture.{
  none-ne-some, capture-static, capture-static_self, capture-param, capture-param_some,
  capture-wildcard,
}
use torge.Router.Trie.Spec.{
  capture, capture_rest, Preferred, root, same, static_param, static_wildcard, param_wildcard,
}

-- A search that goes on at a child, if there is one.
abbrev pub search_child : Option Node → Option Text → List Text → Found
search_child none next values = none
search_child (some c) next values = descend (match c) (route_of c) next values

match_static-kid_of :
    (ks : Kids) (i : Option ℕ) (next : Option Text) (values : List Text)
    → torge.Router.Trie.match_static ks i next values ≡ search_child (kid_of ks i) next values
unfolding match
match_static-kid_of nil none next values = refl
match_static-kid_of nil (some i) next values = refl
match_static-kid_of (kid n ks) none next values = refl
match_static-kid_of (kid n ks) (some zero) next values = refl
match_static-kid_of (kid n ks) (some (suc i)) next values =
    match_static-kid_of ks (some i) next values

match_child-of_child :
    (c : Child) (next : Option Text) (values : List Text)
    → torge.Router.Trie.match_child c next values ≡ search_child (of_child c) next values
unfolding match
match_child-of_child absent next values = refl
match_child-of_child (present n) next values = refl

pub wildcard_route-at :
    (labels : List Text) (kids : Kids) (index : Option (List (Text × ℕ))) (p w : Child)
    (r : Option Route)
    → wildcard_route w ≡ at (wildcard ∷ []) (node labels kids index p w r)
unfolding at
wildcard_route-at labels kids index p absent r = refl
wildcard_route-at labels kids index p (present n) r = refl

-- `match` in terms of the node's children.
match_lem :
    (n : Node) (rem : Text) (values : List Text)
    → match n rem values
      ≡ or_else (search_child (child_of (static (cut_slash rem).0) n) (cut_slash rem).1 values) (
          or_else
            (if is_empty (cut_slash rem).0
              then none
              else search_child
                  (child_of param n)
                  (cut_slash rem).1
                  (values ++ (cut_slash rem).0 ∷ []))
            (found (at (wildcard ∷ []) n) (values ++ rem ∷ [])))
unfolding match child_of static_child
match_lem (node labels kids index p w r) rem values =
    let (seg, next) = cut_slash rem in
    rw (
      match_static-kid_of kids (static_pos seg labels index) next values,
      match_child-of_child p next (values ++ seg ∷ []),
      wildcard_route-at labels kids index p w r,
    )

length-cut_slash : (rem next : Text) → (cut_slash rem).1 ≡ some next → length next < length rem
unfolding cut_slash
length-cut_slash [] next h = cc
length-cut_slash (c ∷ s) next h = ground (arith, length-cut_slash s next)

-- What `match` is to return: the preferred pattern that matches, or nothing if none does.
pub record Best (n : Node) (rem : Text) (values : List Text) (r : Route) (out : List Text)
    : Type 0 where
  pub path : List Step
  pub caps : List Text
  pub stored : at path n ≡ some r
  pub fits : capture path rem ≡ some caps
  pub result : out ≡ values ++ caps
  pub first :
      (q : List Step) (x : Route) (cs : List Text)
      → at q n ≡ some x
      → capture q rem ≡ some cs
      → Preferred path q

abbrev pub MatchSpec : Node → Text → List Text → Found → Type 0
MatchSpec n rem values none =
    (q : List Step) (x : Route) (cs : List Text) → at q n ≡ some x → capture q rem ≢ some cs
MatchSpec n rem values (some (r, out)) = Best n rem values r out

abbrev at_child : List Step → Option Node → Option Route
at_child q none = none
at_child q (some c) = at q c

-- The same for what is behind a segment.
record RestBest (o : Option Node) (next : Option Text) (values : List Text) (r : Route)
    (out : List Text) : Type 0 where
  path : List Step
  caps : List Text
  stored : at_child path o ≡ some r
  fits : capture_rest (capture path) path next ≡ some caps
  result : out ≡ values ++ caps
  first :
      (q : List Step) (x : Route) (cs : List Text)
      → at_child q o ≡ some x
      → capture_rest (capture q) q next ≡ some cs
      → Preferred path q

abbrev RestSpec : Option Node → Option Text → List Text → Found → Type 0
RestSpec o next values none =
    (q : List Step) (x : Route) (cs : List Text)
    → at_child q o ≡ some x
    → capture_rest (capture q) q next ≢ some cs
RestSpec o next values (some (r, out)) = RestBest o next values r out

at_child-child_of : (s : Step) (q : List Step) (n : Node) → at (s ∷ q) n ≡ at_child q (child_of s n)
unfolding at
at_child-child_of s q n = elim (Option-cases (child_of s n)) [
  | inl e ↦ rw (e, at, at_child) refl
  | inr (c, e) ↦ rw (e, at, at_child) refl
]

capture_rest-some :
    (q : List Step) (next : Text) → capture_rest (capture q) q (some next) ≡ capture q next
unfolding capture
capture_rest-some [] next = refl
capture_rest-some (s ∷ q) next = refl

found-RestSpec :
    (c : Node) (values : List Text) → RestSpec (some c) none values (found (route_of c) values)
found-RestSpec c values = go (route_of c) refl
  where
    no_route : route_of c ≡ none → RestSpec (some c) none values none
    no_route e [] x cs k m = none-ne-some {a = x} (sym e ∙ (unfold at in k))
    no_route e (s ∷ q) x cs k m = none-ne-some m

    go : (o : Option Route) → route_of c ≡ o → RestSpec (some c) none values (found o values)
    go none e = no_route e
    go (some r) e = record {
      path = [];
      caps = [];
      stored = unfold at in e;
      fits = refl;
      result = sym (append-nil values);
      first = λ q x cs k m. root;
    }

search-RestSpec :
    (o : Option Node) (next : Option Text) (values : List Text)
    → ((c : Node) (rem : Text) → next ≡ some rem → MatchSpec c rem values (match c rem values))
    → RestSpec o next values (search_child o next values)
search-RestSpec none next values ih = λ q x cs k m. none-ne-some k
search-RestSpec (some c) none values ih = found-RestSpec c values
search-RestSpec (some c) (some rem) values ih = go (match c rem values) (ih c rem refl)
  where
    go : (res : Found) → MatchSpec c rem values res → RestSpec (some c) (some rem) values res
    go none h = λ q x cs k m. h q x cs k (sym (capture_rest-some q rem) ∙ m)
    go (some (r, out)) b = record {
      path = b.path;
      caps = b.caps;
      stored = b.stored;
      fits = capture_rest-some b.path rem ∙ b.fits;
      result = b.result;
      first = λ q x cs k m. b.first q x cs k (sym (capture_rest-some q rem) ∙ m);
    }

module _ (n : Node) (rem : Text) (values : List Text) where
  abbrev seg : Text
  seg = (cut_slash rem).0

  abbrev next : Option Text
  next = (cut_slash rem).1

  -- The three searches of `match`, in their order.
  static-Best :
      (r : Route) (out : List Text)
      → RestBest (child_of (static seg) n) next values r out
      → Best n rem values r out
  static-Best r out b = record {
    path = static seg ∷ b.path;
    caps = b.caps;
    stored = at_child-child_of (static seg) b.path n ∙ b.stored;
    fits = capture-static_self b.path rem ∙ b.fits;
    result = b.result;
    first = first;
  }
    where
      first :
          (q : List Step) (x : Route) (cs : List Text)
          → at q n ≡ some x
          → capture q rem ≡ some cs
          → Preferred (static seg ∷ b.path) q
      first [] x cs k m = absurd (none-ne-some {a = cs} (unfold capture in m))
      first (static s ∷ q) x cs k m =
          let (e, rest) = capture-static s q rem cs m in
          subst (λ t. Preferred (static seg ∷ b.path) (static t ∷ q)) (sym e)
            (same (
              b.first q x cs
                (sym (at_child-child_of (static seg) q n)
                  ∙ ap (λ t. at (static t ∷ q) n) (sym e)
                  ∙ k)
                rest))
      first (param ∷ q) x cs k m = static_param
      first (wildcard ∷ q) x cs k m = static_wildcard

  param-Best :
      (r : Route) (out : List Text)
      → RestSpec (child_of (static seg) n) next values none
      → is_empty seg ≡ false
      → RestBest (child_of param n) next (values ++ seg ∷ []) r out
      → Best n rem values r out
  param-Best r out no_static e b = record {
    path = param ∷ b.path;
    caps = seg ∷ b.caps;
    stored = at_child-child_of param b.path n ∙ b.stored;
    fits = capture-param_some b.path rem b.caps e b.fits;
    result = b.result ∙ append_assoc values (seg ∷ []) b.caps;
    first = first;
  }
    where
      first :
          (q : List Step) (x : Route) (cs : List Text)
          → at q n ≡ some x
          → capture q rem ≡ some cs
          → Preferred (param ∷ b.path) q
      first [] x cs k m = absurd (none-ne-some {a = cs} (unfold capture in m))
      first (static s ∷ q) x cs k m =
          let (e, rest) = capture-static s q rem cs m in
          absurd (
            no_static q x cs
              (sym (at_child-child_of (static seg) q n) ∙ ap (λ t. at (static t ∷ q) n) (sym e) ∙ k)
              rest)
      first (param ∷ q) x cs k m =
          let (_, more) = capture-param q rem cs m in
          let (ds, rest) = more in
          same (b.first q x ds (sym (at_child-child_of param q n) ∙ k) rest)
      first (wildcard ∷ q) x cs k m = param_wildcard

  NoParam : Type 0
  NoParam =
      (q : List Step) (x : Route) (cs : List Text)
      → at (param ∷ q) n ≡ some x
      → capture (param ∷ q) rem ≢ some cs

  no_static :
      RestSpec (child_of (static seg) n) next values none
      → (s : Text) (q : List Step) (x : Route) (cs : List Text) → at (static s ∷ q) n ≡ some x
      → capture (static s ∷ q) rem ≢ some cs
  no_static h s q x cs k m =
      let (e, rest) = capture-static s q rem cs m in
      h q x cs
        (sym (at_child-child_of (static seg) q n) ∙ ap (λ t. at (static t ∷ q) n) (sym e) ∙ k) rest

  wildcard-MatchSpec :
      (o : Option Route)
      → at (wildcard ∷ []) n ≡ o
      → RestSpec (child_of (static seg) n) next values none
      → NoParam
      → MatchSpec n rem values (found o (values ++ rem ∷ []))
  unfolding NoParam
  wildcard-MatchSpec none e h p = go
    where
      go : (q : List Step) (x : Route) (cs : List Text) → at q n ≡ some x → capture q rem ≢ some cs
      go [] x cs k m = none-ne-some {a = cs} (unfold capture in m)
      go (static s ∷ q) x cs k m = no_static h s q x cs k m
      go (param ∷ q) x cs k m = p q x cs k m
      go (wildcard ∷ q) x cs k m =
          let (nil_q, _) = capture-wildcard q rem cs m in
          none-ne-some (sym e ∙ ap (λ t. at (wildcard ∷ t) n) (sym nil_q) ∙ k)
  wildcard-MatchSpec (some r) e h p = record {
    path = wildcard ∷ [];
    caps = rem ∷ [];
    stored = e;
    fits = unfold capture in refl;
    result = refl;
    first = first;
  }
    where
      first :
          (q : List Step) (x : Route) (cs : List Text)
          → at q n ≡ some x
          → capture q rem ≡ some cs
          → Preferred (wildcard ∷ []) q
      first [] x cs k m = absurd (none-ne-some {a = cs} (unfold capture in m))
      first (static s ∷ q) x cs k m = absurd (no_static h s q x cs k m)
      first (param ∷ q) x cs k m = absurd (p q x cs k m)
      first (wildcard ∷ q) x cs k m = same root

  param-MatchSpec :
      (b : Bool) (res : Found)
      → is_empty seg ≡ b
      → RestSpec (child_of param n) next (values ++ seg ∷ []) res
      → RestSpec (child_of (static seg) n) next values none
      → MatchSpec n rem values
          (or_else (if b then none else res) (found (at (wildcard ∷ []) n) (values ++ rem ∷ [])))
  unfolding NoParam
  param-MatchSpec true res e p h = wildcard-MatchSpec _ refl h no_param
    where
      no_param :
          (q : List Step) (x : Route) (cs : List Text)
          → at (param ∷ q) n ≡ some x
          → capture (param ∷ q) rem ≢ some cs
      no_param q x cs k m = cc (capture-param q rem cs m).0
  param-MatchSpec false none e p h = wildcard-MatchSpec _ refl h no_param
    where
      no_param :
          (q : List Step) (x : Route) (cs : List Text)
          → at (param ∷ q) n ≡ some x
          → capture (param ∷ q) rem ≢ some cs
      no_param q x cs k m =
          let (_, more) = capture-param q rem cs m in
          p q x more.0 (sym (at_child-child_of param q n) ∙ k) more.1
  param-MatchSpec false (some (r, out)) e p h = param-Best r out h e p

  static-MatchSpec :
      (res res' : Found)
      → RestSpec (child_of (static seg) n) next values res
      → RestSpec (child_of param n) next (values ++ seg ∷ []) res'
      → MatchSpec n rem values (
          or_else res (
            or_else
              (if is_empty seg then none else res')
              (found (at (wildcard ∷ []) n) (values ++ rem ∷ []))))
  static-MatchSpec none res' h p = param-MatchSpec (is_empty seg) res' refl p h
  static-MatchSpec (some (r, out)) res' h p = static-Best r out h

-- With enough fuel for the recursion on what is behind a '/'.
match_fuel :
    (k : ℕ) (n : Node) (rem : Text) (values : List Text)
    → length rem < k
    → MatchSpec n rem values (match n rem values)
match_fuel zero n rem values lt = absurd (omega arith)
match_fuel (suc k) n rem values lt = subst (MatchSpec n rem values) (sym (match_lem n rem values)) (
    static-MatchSpec n rem values _ _
      (search-RestSpec (child_of (static (cut_slash rem).0) n) (cut_slash rem).1 values
        (λ c rest e. match_fuel k c rest _ (omega (arith, length-cut_slash rem rest e))))
      (search-RestSpec (child_of param n) (cut_slash rem).1 _
        (λ c rest e. match_fuel k c rest _ (omega (arith, length-cut_slash rem rest e)))))

-- `match` returns the preferred stored pattern that matches, with what it captures behind the
-- values so far, and nothing exactly if no stored pattern matches.
pub match-MatchSpec :
    (n : Node) (rem : Text) (values : List Text) → MatchSpec n rem values (match n rem values)
match-MatchSpec n rem values = match_fuel (suc (length rem)) n rem values (omega arith)
