-- ===== src/Router/Table/Names.antt =====
-- router.go: `parsePattern` returns one name for each parameter of the pattern, and `match` one
-- value.
use torge.Base.{
  ℕ, suc, ◌+◌, ◌≡◌, refl, Bool, List, [], ◌∷◌, Option, none, some, arith, length, length-append,
}
use torge.Base.Text.{Text}
use torge.Router.Pattern.{
  Step, static, param, wildcard, step_of, Parsed, names, failed, parse_segment, parse_segments,
  parse_pattern, param_name, then_parse, is_nil, steps_of, steps_of_segments, split_slash,
}
use torge.Router.Trie.{cut_slash}
use torge.Router.Trie.Spec.{capture, capture_path, capture_rest}

abbrev pub count_params : List Step → ℕ
count_params [] = 0
count_params (static s ∷ path) = count_params path
count_params (param ∷ path) = suc (count_params path)
count_params (wildcard ∷ path) = suc (count_params path)

parse_segment_count :
    (c : ℕ) (name : Text) (last : Bool) (seen ns : List Text)
    → parse_segment c name last seen ≡ names ns
    → length ns ≡ length seen + count_params (step_of (c ∷ name) ∷ [])
unfolding parse_segment step_of
parse_segment_count c name last seen ns h =
    ground (arith, length-append seen (param_name name ∷ []))

count-step_of-cons :
    (s : Text) (path : List Step)
    → count_params (step_of s ∷ path) ≡ count_params (step_of s ∷ []) + count_params path
count-step_of-cons s path = go (step_of s)
  where
    go : (t : Step) → count_params (t ∷ path) ≡ count_params (t ∷ []) + count_params path
    go (static t) = omega arith
    go param = omega arith
    go wildcard = omega arith

parse_segments_count :
    (segs seen ns : List Text)
    → parse_segments segs seen ≡ names ns
    → length ns ≡ length seen + count_params (steps_of_segments segs)
unfolding parse_segments
parse_segments_count [] seen ns h = ground arith
parse_segments_count ([] ∷ []) seen ns h = unfold step_of in ground arith
parse_segments_count ([] ∷ s ∷ segs) seen ns h = ground arith
parse_segments_count ((c ∷ name) ∷ segs) seen ns h =
    go (parse_segments_count segs) (parse_segment c name (is_nil segs) seen) refl h
  where
    go :
        ((more ns : List Text)
          → parse_segments segs more ≡ names ns
          → length ns ≡ length more + count_params (steps_of_segments segs))
        → (p : Parsed) → parse_segment c name (is_nil segs) seen ≡ p
        → then_parse p (parse_segments segs) ≡ names ns
        → length ns ≡ length seen + count_params (step_of (c ∷ name) ∷ steps_of_segments segs)
    go ih (failed e) k h = cc
    go ih (names more) k h = omega (
      arith,
      ih more ns h,
      parse_segment_count c name (is_nil segs) seen more k,
      count-step_of-cons (c ∷ name) (steps_of_segments segs),
    )

-- One name for each parameter of the pattern.
pub parse_pattern_count :
    (path : Text) (ns : List Text)
    → parse_pattern path ≡ names ns
    → length ns ≡ count_params (steps_of path)
unfolding parse_pattern steps_of
parse_pattern_count [] ns h = ground arith
parse_pattern_count (c ∷ []) ns h = ground arith
parse_pattern_count (c ∷ d ∷ s) ns h =
    ground (arith, parse_segments_count (split_slash (d ∷ s)) [] ns)

capture_rest-count :
    (q : List Step) (next : Option Text) (cs : List Text)
    → ((rem : Text) (ds : List Text) → capture q rem ≡ some ds → length ds ≡ count_params q)
    → capture_rest (capture q) q next ≡ some cs
    → length cs ≡ count_params q
capture_rest-count [] none cs ih h = ground arith
capture_rest-count [] (some next) cs ih h = ground arith
capture_rest-count (s ∷ q) none cs ih h = ground arith
capture_rest-count (s ∷ q) (some next) cs ih h = ih next cs h

capture-count :
    (q : List Step) (rem : Text) (cs : List Text)
    → capture q rem ≡ some cs
    → length cs ≡ count_params q
unfolding capture
capture-count [] rem cs h = ground arith
capture-count (static s ∷ q) rem cs h =
    capture_rest-count q (cut_slash rem).1 cs (capture-count q) (ground arith)
capture-count (param ∷ q) rem cs h =
    go (λ ds. capture_rest-count q (cut_slash rem).1 ds (capture-count q))
      (capture_rest (capture q) q (cut_slash rem).1) refl
  where
    go :
        ((ds : List Text)
          → capture_rest (capture q) q (cut_slash rem).1 ≡ some ds
          → length ds ≡ count_params q)
        → (o : Option (List Text)) → capture_rest (capture q) q (cut_slash rem).1 ≡ o
        → length cs ≡ suc (count_params q)
    go ih none e = ground arith
    go ih (some ds) e = ground (arith, ih ds e)
capture-count (wildcard ∷ []) rem cs h = ground arith
capture-count (wildcard ∷ s ∷ q) rem cs h = ground arith

-- One captured value for each parameter.
pub capture_path-count :
    (q : List Step) (req : Text) (cs : List Text)
    → capture_path q req ≡ some cs
    → length cs ≡ count_params q
unfolding capture_path
capture_path-count [] [] cs h = ground arith
capture_path-count (wildcard ∷ []) [] cs h = ground arith
capture_path-count (wildcard ∷ s ∷ q) [] cs h = ground arith
capture_path-count (static t ∷ q) [] cs h = ground arith
capture_path-count (param ∷ q) [] cs h = ground arith
capture_path-count [] (c ∷ []) cs h = ground arith
capture_path-count (wildcard ∷ []) (c ∷ []) cs h = ground arith
capture_path-count (wildcard ∷ s ∷ q) (c ∷ []) cs h = ground arith
capture_path-count (static t ∷ q) (c ∷ []) cs h = ground arith
capture_path-count (param ∷ q) (c ∷ []) cs h = ground arith
capture_path-count q (c ∷ d ∷ s) cs h = ground (arith, capture-count q (d ∷ s) cs)
