-- ===== src/Router/Table/Allowed.antt =====
-- router.go: `allowed`, the methods for 405 responses and automatic OPTIONS.
use torge.Base.{
  ◌≡◌, refl, sym, ◌∙◌, ap, ◌⊎◌, ◌↔◌, Bool, true, false, ◌&&◌, ◌||◌, List, [], ◌∷◌, ◌++◌, arith,
}
use torge.Base.Text.{Text, text, text_eq, text_eq_iff, text_eq_refl}
use torge.Base.Assoc.{get, DistinctKeys}
use torge.Router.Pattern.{contains}
use torge.Router.Trie.{Node}
use torge.Router.Table.{
  Router, is_found, lookup_in, find, matching, insert_sorted, sort_strings, with_head, with_options,
  allowed_of, allowed,
}

contains-insert_sorted :
    (m s : Text) (ts : List Text) → contains m (insert_sorted s ts) ≡ contains m (s ∷ ts)
unfolding insert_sorted
contains-insert_sorted m s [] = refl
contains-insert_sorted m s (t ∷ ts) = ground (arith, contains-insert_sorted m s ts)

contains-sort_strings : (m : Text) (ts : List Text) → contains m (sort_strings ts) ≡ contains m ts
unfolding sort_strings
contains-sort_strings m [] = refl
contains-sort_strings m (t ∷ ts) =
    contains-insert_sorted m t (sort_strings ts) ∙ ground (arith, contains-sort_strings m ts)

contains-append_one :
    (m s : Text) (ts : List Text) → contains m (ts ++ s ∷ []) ≡ contains m ts || text_eq s m
contains-append_one m s [] = ground arith
contains-append_one m s (t ∷ ts) = ground (arith, contains-append_one m s ts)

contains-with_head :
    (m : Text) (ms : List Text)
    → contains m (with_head ms)
      ≡ (contains m ms || (contains (text "GET") ms && text_eq (text "HEAD") m))
contains-with_head m ms =
    ground (arith, contains-append_one m (text "HEAD") ms, text_eq_iff (text "HEAD") m)

contains-with_options :
    (m : Text) (ms : List Text)
    → contains m (with_options ms) ≡ (contains m ms || text_eq (text "OPTIONS") m)
contains-with_options m ms =
    ground (arith, contains-append_one m (text "OPTIONS") ms, text_eq_iff (text "OPTIONS") m)

-- Whether a method's trie matches the path.
matching-find :
    (m path : Text) (trees : List (Text × Node))
    → DistinctKeys trees
    → contains m (matching path trees) ≡ is_found (lookup_in (get m trees) path [])
unfolding matching get
matching-find m path [] d = refl
matching-find m path ((k, root) ∷ trees) d =
    ground (arith, matching-find m path trees d.1, text_eq_iff k m)

abbrev not_empty : List Text → Bool
not_empty [] = false
not_empty (m ∷ ms) = true

contains-allowed_of :
    (m : Text) (ms : List Text)
    → contains m (allowed_of ms) ≡ (
        not_empty ms
        && ((contains m ms || (contains (text "GET") ms && text_eq (text "HEAD") m))
            || text_eq (text "OPTIONS") m))
contains-allowed_of m [] = refl
contains-allowed_of m (k ∷ ms) =
    contains-sort_strings m (with_options (with_head (k ∷ ms)))
    ∙ contains-with_options m (with_head (k ∷ ms))
    ∙ ap (λ b. b || text_eq (text "OPTIONS") m) (contains-with_head m (k ∷ ms))

-- `found` for a method of the request path.
abbrev pub serves : Router → Text → Text → Bool
serves rt m path = is_found (find rt m path [])

serves-matching :
    (rt : Router) (m path : Text)
    → DistinctKeys rt.trees
    → contains m (matching path rt.trees) ≡ serves rt m path
unfolding find
serves-matching rt m path d = matching-find m path rt.trees d

not_empty-contains : (m : Text) (ms : List Text) → contains m ms ≡ true → not_empty ms ≡ true
not_empty-contains m [] h = cc
not_empty-contains m (k ∷ ms) h = refl

head_contained : (m : Text) (ms : List Text) → contains m (m ∷ ms) ≡ true
head_contained m ms = ground (arith, text_eq_refl m)

-- In a table with one trie for each method, a method is allowed for a path exactly if the path is
-- served under some method, and it is that of a route that serves the path, or HEAD where GET
-- serves it, or OPTIONS.
pub contains-allowed_iff :
    (rt : Router) (path m : Text)
    → DistinctKeys rt.trees
    → (contains m (allowed rt path) ≡ true) ↔ (
        ((n : Text) × (serves rt n path ≡ true))
        × ((serves rt m path ≡ true)
            ⊎ ((m ≡ text "HEAD") × (serves rt (text "GET") path ≡ true))
            ⊎ (m ≡ text "OPTIONS")))
unfolding allowed
contains-allowed_iff rt path m d = (to, from)
  where
    some_method :
        (ms : List Text)
        → ((n : Text) → contains n ms ≡ serves rt n path)
        → not_empty ms ≡ true
        → (n : Text) × (serves rt n path ≡ true)
    some_method [] h e = cc
    some_method (k ∷ ms) h e = (k, sym (h k) ∙ head_contained k ms)

    all : (n : Text) → contains n (matching path rt.trees) ≡ serves rt n path
    all n = serves-matching rt n path d

    to :
        contains m (allowed_of (matching path rt.trees)) ≡ true
        → ((n : Text) × (serves rt n path ≡ true))
          × ((serves rt m path ≡ true)
              ⊎ ((m ≡ text "HEAD") × (serves rt (text "GET") path ≡ true))
              ⊎ (m ≡ text "OPTIONS"))
    to e =
        let parts = sym (contains-allowed_of m (matching path rt.trees)) ∙ e in
        (
          some_method (matching path rt.trees) all (ground (arith, parts)),
          ground (
            arith,
            parts,
            all m,
            all (text "GET"),
            text_eq_iff (text "HEAD") m,
            text_eq_iff (text "OPTIONS") m,
          ),
        )

    from :
        ((n : Text) × (serves rt n path ≡ true))
          × ((serves rt m path ≡ true)
              ⊎ ((m ≡ text "HEAD") × (serves rt (text "GET") path ≡ true))
              ⊎ (m ≡ text "OPTIONS"))
        → contains m (allowed_of (matching path rt.trees)) ≡ true
    from ((n, s), c) =
        let full = not_empty-contains n (matching path rt.trees) (all n ∙ s) in
        contains-allowed_of m (matching path rt.trees)
        ∙ ground (
          arith,
          full,
          all m,
          all (text "GET"),
          text_eq_iff (text "HEAD") m,
          text_eq_iff (text "OPTIONS") m,
        )
