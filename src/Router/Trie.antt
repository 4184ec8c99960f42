-- ===== src/Router/Trie.antt =====
-- router.go: the trie of one HTTP method, `staticChild`, `addStatic`, the walk of `insert` and the
-- search of `lookup`. A node's children are a list; the map `index` holds positions in that list,
-- where the code holds the same pointers twice.
pub mod Index
pub mod Children
pub mod Insert
pub mod Spec
pub mod Capture
pub mod Match
use torge.Base.{
  ℕ, zero, suc, Bool, true, false, ◌&&◌, List, [], ◌∷◌, ◌++◌, Option, none, some, length, ltb, ◌==◌,
  if◌then◌else◌,
}
use torge.Base.Text.{Text, text_eq}
use torge.Base.Assoc.{get, put}
use torge.Router.Pattern.{Step, static, param, wildcard}

pub record Route : Type 0 where
  pub method : Text
  pub path : Text
  pub param_names : List Text
  -- the handler, which the router only hands on
  pub handler : ℕ

mutual
  pub data Node : Type 0 where
    node : List Text → Kids → Option (List (Text × ℕ)) → Child → Child → Option Route → Node

  pub data Kids : Type 0 where
    nil : Kids
    kid : Node → Kids → Kids

  pub data Child : Type 0 where
    absent : Child
    present : Node → Child

-- `&node{}`
abbrev pub new_node : Node
new_node = node [] nil none absent absent none

abbrev pub max_linear_children : ℕ
max_linear_children = 8

abbrev pub route_of : Node → Option Route
route_of (node labels kids index p w r) = r

-- The test of one label: length, then first byte, then the bytes.
abbrev pub same_first : Text → Text → Bool
same_first [] seg = true
same_first (a ∷ l) [] = false
same_first (a ∷ l) (b ∷ seg) = a == b

abbrev pub label_test : Text → Text → Bool
label_test l seg = (length l == length seg) && same_first l seg && text_eq l seg

-- The linear scan of `staticChild`: the position of the child.
unfoldable pub scan : Text → List Text → Option ℕ
scan seg [] = none
scan seg (l ∷ ls) =
    let rest = scan seg ls in
    if label_test l seg then some 0 else elim rest [ none ↦ none | some i ↦ some (suc i) ]

unfoldable pub static_pos : Text → List Text → Option (List (Text × ℕ)) → Option ℕ
unfolding scan
static_pos seg labels none = scan seg labels
static_pos seg labels (some m) = get seg m

abbrev pub kid_at : Kids → ℕ → Option Node
kid_at nil i = none
kid_at (kid n ks) zero = some n
kid_at (kid n ks) (suc i) = kid_at ks i

abbrev pub set_kid : Kids → ℕ → Node → Kids
set_kid nil i c = nil
set_kid (kid n ks) zero c = kid c ks
set_kid (kid n ks) (suc i) c = kid n (set_kid ks i c)

abbrev pub add_kid : Kids → Node → Kids
add_kid nil c = kid c nil
add_kid (kid n ks) c = kid n (add_kid ks c)

abbrev pub kid_of : Kids → Option ℕ → Option Node
kid_of kids none = none
kid_of kids (some i) = kid_at kids i

abbrev pub of_child : Child → Option Node
of_child absent = none
of_child (present n) = some n

unfoldable pub static_child : Text → Node → Option Node
unfolding static_pos
static_child seg (node labels kids index p w r) = kid_of kids (static_pos seg labels index)

-- The child that `insert` and `match` go to for a step.
unfoldable pub child_of : Step → Node → Option Node
unfolding static_child
child_of (static s) n = static_child s n
child_of param (node labels kids index p w r) = of_child p
child_of wildcard (node labels kids index p w r) = of_child w

-- The loop that fills a new index.
unfoldable pub build_index : ℕ → List Text → List (Text × ℕ) → List (Text × ℕ)
build_index i [] m = m
build_index i (l ∷ ls) m = build_index (suc i) ls (put l i m)

abbrev pub index_or_new : List Text → Option (List (Text × ℕ)) → List (Text × ℕ)
index_or_new labels none = build_index 0 labels []
index_or_new labels (some m) = m

unfoldable pub grow_index :
    List Text → Option (List (Text × ℕ)) → Text → ℕ → Option (List (Text × ℕ))
unfolding build_index
grow_index labels index seg i =
    if ltb max_linear_children (length labels)
    then some (put seg i (index_or_new labels index))
    else index

-- The end of `addStatic`, where no child was found.
abbrev pub append_static : Text → Node → Node
append_static seg (node labels kids index p w r) =
    node (labels ++ seg ∷ []) (add_kid kids new_node)
      (grow_index (labels ++ seg ∷ []) index seg (length labels)) p w r

unfoldable pub add_static : Text → Node → Node
unfolding static_child grow_index
add_static seg n = elim (static_child seg n) [ none ↦ append_static seg n | some c ↦ n ]

abbrev pub child_or_new : Child → Child
child_or_new absent = present new_node
child_or_new (present n) = present n

-- One round of the loop of `insert`: make sure that the child is there.
unfoldable pub grow : Step → Node → Node
unfolding add_static
grow (static s) n = add_static s n
grow param (node labels kids index p w r) = node labels kids index (child_or_new p) w r
grow wildcard (node labels kids index p w r) = node labels kids index p (child_or_new w) r

abbrev pub set_at : Kids → Option ℕ → Node → Kids
set_at kids none c = kids
set_at kids (some i) c = set_kid kids i c

-- A write through the pointer to the child.
unfoldable pub set_child : Step → Node → Node → Node
unfolding static_pos
set_child (static s) c (node labels kids index p w r) =
    node labels (set_at kids (static_pos s labels index) c) index p w r
set_child param c (node labels kids index p w r) = node labels kids index (present c) w r
set_child wildcard c (node labels kids index p w r) = node labels kids index p (present c) r

-- The end of `insert`: the conflicting route, or the route stored.
abbrev pub set_route : Route → Node → Option Route × Node
set_route r (node labels kids index p w none) = (none, node labels kids index p w (some r))
set_route r (node labels kids index p w (some old)) =
    (some old, node labels kids index p w (some old))

-- The walk of `insert`. After `grow` the child is there.
unfoldable pub insert_at : List Step → Route → Node → Option Route × Node
unfolding grow set_child child_of
insert_at [] r n = set_route r n
insert_at (s ∷ path) r n = elim (child_of s (grow s n)) [
  | none ↦ (none, grow s n)
  | some c ↦ let (old, c') = insert_at path r c in (old, set_child s c' (grow s n))
]

-- The scan for '/' in `match`: the segment, and what follows the '/', if there is one (`more`).
unfoldable pub cut_slash : Text → Text × Option Text
cut_slash [] = ([], none)
cut_slash (c ∷ s) =
    let (seg, next) = cut_slash s in if c == b'/' then ([], some s) else (c ∷ seg, next)

-- The route found with the values; `none` is the nil route, with which the caller uses no values.
abbrev pub Found : Type 0
Found = Option (Route × List Text)

abbrev pub found : Option Route → List Text → Found
found none values = none
found (some r) values = some (r, values)

abbrev pub or_else : Found → Found → Found
or_else none g = g
or_else (some f) g = some f

-- `descend`, with the `match` of the child.
abbrev pub descend : (Text → List Text → Found) → Option Route → Option Text → List Text → Found
descend go r none values = found r values
descend go r (some next) values = go next values

abbrev pub is_empty : Text → Bool
is_empty [] = true
is_empty (c ∷ s) = false

abbrev pub wildcard_route : Child → Option Route
wildcard_route absent = none
wildcard_route (present n) = route_of n

unfoldable mutual
  pub match : Node → Text → List Text → Found
  match (node labels kids index p w r) rem values =
      let (seg, next) = cut_slash rem in
      let by_param = match_child p next (values ++ seg ∷ []) in
      or_else (match_static kids (static_pos seg labels index) next values) (
        or_else (if is_empty seg then none else by_param)
          (found (wildcard_route w) (values ++ rem ∷ [])))

  pub match_static : Kids → Option ℕ → Option Text → List Text → Found
  match_static nil i next values = none
  match_static (kid n ks) none next values = none
  match_static (kid n ks) (some zero) next values = descend (match n) (route_of n) next values
  match_static (kid n ks) (some (suc i)) next values = match_static ks (some i) next values

  pub match_child : Child → Option Text → List Text → Found
  match_child absent next values = none
  match_child (present n) next values = descend (match n) (route_of n) next values

-- `lookup`, at the root.
unfoldable pub lookup : Node → Text → List Text → Found
unfolding match match_static match_child
lookup (node labels kids index p w r) [] values =
    or_else (found r values) (found (wildcard_route w) (values ++ [] ∷ []))
lookup (node labels kids index p w r) (c ∷ []) values =
    if c == b'/'
    then or_else (found r values) (found (wildcard_route w) (values ++ [] ∷ []))
    else none
lookup n (c ∷ d ∷ s) values = if c == b'/' then match n (d ∷ s) values else none

-- The route stored at the end of a sequence of steps.
unfoldable pub at : List Step → Node → Option Route
unfolding child_of
at [] n = route_of n
at (s ∷ path) n = elim (child_of s n) [ none ↦ none | some c ↦ at path c ]
