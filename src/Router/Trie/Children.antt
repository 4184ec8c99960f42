-- ===== src/Router/Trie/Children.antt =====
-- router.go: the children of one node. `addStatic` and a write through a pointer to a child touch
-- that child only.
use torge.Base.{
  ℕ, zero, suc, ◌<◌, ◌≡◌, refl, sym, ◌∙◌, ap, ◌≢◌, inl, inr, false, List, [], ◌∷◌, ◌++◌, Option,
  none, some, arith, length, length-append, Option-cases,
}
use torge.Base.Text.{Text, text_eq, text_eq_iff, text_eq_refl}
use torge.Router.Pattern.{Step, static, param, wildcard}
use torge.Router.Trie.{
  Node, Kids, Child, node, nil, kid, absent, present, new_node, Route, scan, static_pos, kid_at,
  set_kid, add_kid, kid_of, set_at, static_child, child_of, append_static, add_static, grow,
  set_child,
}
use torge.Router.Trie.Index.{
  length_kids, LocalOk, scan-lt, scan_injective, scan-append, Distinct-append, IndexOk-grow_index,
  static_pos-scan,
}

kid_at-add_kid_lt :
    (ks : Kids) (c : Node) (i : ℕ) → i < length_kids ks → kid_at (add_kid ks c) i ≡ kid_at ks i
kid_at-add_kid_lt nil c i h = absurd (omega arith)
kid_at-add_kid_lt (kid n ks) c zero h = refl
kid_at-add_kid_lt (kid n ks) c (suc i) h = kid_at-add_kid_lt ks c i (omega arith)

kid_at-add_kid_last : (ks : Kids) (c : Node) → kid_at (add_kid ks c) (length_kids ks) ≡ some c
kid_at-add_kid_last nil c = refl
kid_at-add_kid_last (kid n ks) c = kid_at-add_kid_last ks c

length_kids-add_kid : (ks : Kids) (c : Node) → length_kids (add_kid ks c) ≡ suc (length_kids ks)
length_kids-add_kid nil c = refl
length_kids-add_kid (kid n ks) c = ap suc (length_kids-add_kid ks c)

length_kids-set_kid : (ks : Kids) (i : ℕ) (c : Node) → length_kids (set_kid ks i c) ≡ length_kids ks
length_kids-set_kid nil i c = refl
length_kids-set_kid (kid n ks) zero c = refl
length_kids-set_kid (kid n ks) (suc i) c = ap suc (length_kids-set_kid ks i c)

kid_at-set_kid_self :
    (ks : Kids) (i : ℕ) (c : Node) → i < length_kids ks → kid_at (set_kid ks i c) i ≡ some c
kid_at-set_kid_self nil i c h = absurd (omega arith)
kid_at-set_kid_self (kid n ks) zero c h = refl
kid_at-set_kid_self (kid n ks) (suc i) c h = kid_at-set_kid_self ks i c (omega arith)

kid_at-set_kid_ne :
    (ks : Kids) (i j : ℕ) (c : Node) → i ≢ j → kid_at (set_kid ks i c) j ≡ kid_at ks j
kid_at-set_kid_ne nil i j c h = refl
kid_at-set_kid_ne (kid n ks) zero zero c h = absurd (h refl)
kid_at-set_kid_ne (kid n ks) zero (suc j) c h = refl
kid_at-set_kid_ne (kid n ks) (suc i) zero c h = refl
kid_at-set_kid_ne (kid n ks) (suc i) (suc j) c h = kid_at-set_kid_ne ks i j c (λ e. h (ap suc e))

kid_of-set_at_self :
    (ks : Kids) (o : Option ℕ) (c d : Node)
    → kid_of ks o ≡ some d
    → kid_of (set_at ks o c) o ≡ some c
kid_of-set_at_self ks none c d h = cc
kid_of-set_at_self nil (some i) c d h = cc
kid_of-set_at_self (kid n ks) (some zero) c d h = refl
kid_of-set_at_self (kid n ks) (some (suc i)) c d h = kid_of-set_at_self ks (some i) c d h

kid_of-set_at_ne :
    (labels : List Text) (kids : Kids) (c : Node) (s t : Text)
    → s ≢ t
    → kid_of (set_at kids (scan s labels) c) (scan t labels) ≡ kid_of kids (scan t labels)
kid_of-set_at_ne labels kids c s t d =
    go (scan s labels) (scan t labels) (λ i e k. d (scan_injective s t labels i e k))
  where
    go :
        (o q : Option ℕ)
        → ((i : ℕ) → o ≡ some i → q ≢ some i)
        → kid_of (set_at kids o c) q ≡ kid_of kids q
    go none q h = refl
    go (some i) none h = refl
    go (some i) (some j) h = kid_at-set_kid_ne kids i j c (λ e. h i refl (ap some (sym e)))

length_kids-set_at :
    (ks : Kids) (o : Option ℕ) (c : Node) → length_kids (set_at ks o c) ≡ length_kids ks
length_kids-set_at ks none c = refl
length_kids-set_at ks (some i) c = length_kids-set_kid ks i c

-- The invariant of a node on its own: labels distinct, one child for each, index right.
abbrev pub NodeOk : Node → Type 0
NodeOk (node labels kids index p w r) = LocalOk labels kids index

-- A static child is the one at the scan's position, whether or not there is an index.
static_child-scan :
    (s : Text) (labels : List Text) (kids : Kids) (index : Option (List (Text × ℕ))) (p w : Child)
    (r : Option Route)
    → LocalOk labels kids index
    → static_child s (node labels kids index p w r) ≡ kid_of kids (scan s labels)
unfolding static_child
static_child-scan s labels kids index p w r h = ap (kid_of kids) (static_pos-scan s h)

static_child-none :
    (s : Text) (labels : List Text) (kids : Kids)
    → length_kids kids ≡ length labels
    → kid_of kids (scan s labels) ≡ none
    → scan s labels ≡ none
static_child-none s labels kids h e = elim (Option-cases (scan s labels)) [
  | inl k ↦ k
  | inr (i, k) ↦ absurd (kid_there kids i (rw h (scan-lt s labels i k)) (rw k at e))
]
  where
    kid_there : (ks : Kids) (i : ℕ) → i < length_kids ks → kid_at ks i ≢ none
    kid_there nil i h = absurd (omega arith)
    kid_there (kid n ks) zero h = cc
    kid_there (kid n ks) (suc i) h = kid_there ks i (omega arith)

pub append_static-NodeOk :
    (s : Text) (n : Node) → NodeOk n → static_child s n ≡ none → NodeOk (append_static s n)
append_static-NodeOk s (node labels kids index p w r) h e =
    let fresh =
      static_child-none s labels kids h.sized
        (sym (static_child-scan s labels kids index p w r h) ∙ e) in
    record {
      distinct = Distinct-append s labels fresh h.distinct;
      indexed = IndexOk-grow_index labels index s fresh h.distinct h.indexed;
      sized =
          omega (arith, h.sized, length_kids-add_kid kids new_node, length-append labels (s ∷ []));
    }

pub grow-NodeOk : (s : Step) (n : Node) → NodeOk n → NodeOk (grow s n)
unfolding grow add_static
grow-NodeOk (static s) n h = elim (Option-cases (static_child s n)) [
  | inl e ↦ rw (e, NodeOk) (append_static-NodeOk s n h e)
  | inr (c, e) ↦ rw (e, NodeOk) h
]
grow-NodeOk param (node labels kids index p w r) h = h
grow-NodeOk wildcard (node labels kids index p w r) h = h

append_static_self :
    (s : Text) (n : Node)
    → NodeOk n
    → static_child s n ≡ none
    → static_child s (append_static s n) ≡ some new_node
append_static_self s (node labels kids index p w r) h e =
    let fresh =
      static_child-none s labels kids h.sized
        (sym (static_child-scan s labels kids index p w r h) ∙ e) in
    static_child-scan s (labels ++ s ∷ []) (add_kid kids new_node) _ p w r
      (append_static-NodeOk s (node labels kids index p w r) h e)
    ∙ rw (scan-append s s labels fresh, text_eq_refl s, ← h.sized)
        (kid_at-add_kid_last kids new_node)

append_static-ne :
    (s t : Text) (n : Node)
    → NodeOk n
    → static_child s n ≡ none
    → s ≢ t
    → static_child t (append_static s n) ≡ static_child t n
append_static-ne s t (node labels kids index p w r) h e d =
    let fresh =
      static_child-none s labels kids h.sized
        (sym (static_child-scan s labels kids index p w r h) ∙ e) in
    let other : text_eq s t ≡ false = ground (arith, text_eq_iff s t) in
    static_child-scan t (labels ++ s ∷ []) (add_kid kids new_node) _ p w r
      (append_static-NodeOk s (node labels kids index p w r) h e)
    ∙ rw (scan-append t s labels fresh, other)
        (kept (scan t labels) (λ i k. rw h.sized (scan-lt t labels i k)))
    ∙ sym (static_child-scan t labels kids index p w r h)
  where
    kept :
        (o : Option ℕ)
        → ((i : ℕ) → o ≡ some i → i < length_kids kids)
        → kid_of (add_kid kids new_node) o ≡ kid_of kids o
    kept none b = refl
    kept (some i) b = kid_at-add_kid_lt kids new_node i (b i refl)

-- The child that `insert` goes to: the one that was there, or a new one.
abbrev pub child_or_empty : Option Node → Node
child_or_empty none = new_node
child_or_empty (some c) = c

add_static-none :
    (s : Text) (n : Node) → static_child s n ≡ none → add_static s n ≡ append_static s n
unfolding add_static
add_static-none s n e = rw (e, add_static)

add_static-some : (s : Text) (n c : Node) → static_child s n ≡ some c → add_static s n ≡ n
unfolding add_static
add_static-some s n c e = rw (e, add_static)

pub child_of-grow_self :
    (s : Step) (n : Node) → NodeOk n → child_of s (grow s n) ≡ some (child_or_empty (child_of s n))
unfolding grow child_of
child_of-grow_self (static s) n h = elim (Option-cases (static_child s n)) [
  | inl e ↦
      rw (add_static-none s n e)
        (append_static_self s n h e ∙ ap (λ o. some (child_or_empty o)) (sym e))
  | inr (c, e) ↦ rw (add_static-some s n c e) (e ∙ ap (λ o. some (child_or_empty o)) (sym e))
]
child_of-grow_self param (node labels kids index absent w r) h = refl
child_of-grow_self param (node labels kids index (present c) w r) h = refl
child_of-grow_self wildcard (node labels kids index p absent r) h = refl
child_of-grow_self wildcard (node labels kids index p (present c) r) h = refl

child_of-append_static :
    (s : Text) (t : Step) (n : Node)
    → NodeOk n
    → static_child s n ≡ none
    → static s ≢ t
    → child_of t (append_static s n) ≡ child_of t n
unfolding child_of
child_of-append_static s (static t) n h e d = append_static-ne s t n h e (λ k. d (ap static k))
child_of-append_static s param (node labels kids index p w r) h e d = refl
child_of-append_static s wildcard (node labels kids index p w r) h e d = refl

pub child_of-grow_ne :
    (s t : Step) (n : Node) → NodeOk n → s ≢ t → child_of t (grow s n) ≡ child_of t n
unfolding grow child_of
child_of-grow_ne (static s) t n h d = elim (Option-cases (static_child s n)) [
  | inl e ↦ rw (add_static-none s n e) (child_of-append_static s t n h e d)
  | inr (c, e) ↦ rw (add_static-some s n c e) refl
]
child_of-grow_ne param (static t) (node labels kids index p w r) h d = refl
child_of-grow_ne param param (node labels kids index p w r) h d = absurd (d refl)
child_of-grow_ne param wildcard (node labels kids index p w r) h d = refl
child_of-grow_ne wildcard (static t) (node labels kids index p w r) h d = refl
child_of-grow_ne wildcard param (node labels kids index p w r) h d = refl
child_of-grow_ne wildcard wildcard (node labels kids index p w r) h d = absurd (d refl)

pub child_of-set_child_self :
    (s : Step) (c d : Node) (n : Node)
    → NodeOk n
    → child_of s n ≡ some d
    → child_of s (set_child s c n) ≡ some c
unfolding child_of set_child static_child
child_of-set_child_self (static s) c d (node labels kids index p w r) h e =
    ground (arith, kid_of-set_at_self kids (static_pos s labels index) c d e)
child_of-set_child_self param c d (node labels kids index p w r) h e = refl
child_of-set_child_self wildcard c d (node labels kids index p w r) h e = refl

pub child_of-set_child_ne :
    (s t : Step) (c n : Node) → NodeOk n → s ≢ t → child_of t (set_child s c n) ≡ child_of t n
unfolding child_of set_child static_child
child_of-set_child_ne (static s) (static t) c (node labels kids index p w r) h d =
    rw (static_pos-scan s h, static_pos-scan t h)
      (kid_of-set_at_ne labels kids c s t (λ e. d (ap static e)))
child_of-set_child_ne (static s) param c (node labels kids index p w r) h d = refl
child_of-set_child_ne (static s) wildcard c (node labels kids index p w r) h d = refl
child_of-set_child_ne param (static t) c (node labels kids index p w r) h d = refl
child_of-set_child_ne param param c (node labels kids index p w r) h d = absurd (d refl)
child_of-set_child_ne param wildcard c (node labels kids index p w r) h d = refl
child_of-set_child_ne wildcard (static t) c (node labels kids index p w r) h d = refl
child_of-set_child_ne wildcard param c (node labels kids index p w r) h d = refl
child_of-set_child_ne wildcard wildcard c (node labels kids index p w r) h d = absurd (d refl)

pub set_child-NodeOk : (s : Step) (c n : Node) → NodeOk n → NodeOk (set_child s c n)
unfolding set_child
set_child-NodeOk (static s) c (node labels kids index p w r) h = record {
  distinct = h.distinct;
  indexed = h.indexed;
  sized = length_kids-set_at kids (static_pos s labels index) c ∙ h.sized;
}
set_child-NodeOk param c (node labels kids index p w r) h = h
set_child-NodeOk wildcard c (node labels kids index p w r) h = h
