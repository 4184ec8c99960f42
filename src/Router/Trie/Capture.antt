-- ===== src/Router/Trie/Capture.antt =====
-- router.go: how a pattern whose first step is given matches.
use torge.Base.{◌≡◌, refl, ◌≢◌, List, [], ◌∷◌, Option, none, some, arith, false}
use torge.Base.Text.{Text, text_eq_iff, text_eq_refl}
use torge.Router.Pattern.{Step, static, param, wildcard}
use torge.Router.Trie.{cut_slash, is_empty}
use torge.Router.Trie.Spec.{capture, capture_rest}

pub none-ne-some {ℓ} : {A : Type ℓ} {a : A} → none ≢ some a
none-ne-some = cc

-- How a pattern whose first step is given matches.
pub capture-static :
    (s : Text) (q : List Step) (rem : Text) (cs : List Text)
    → capture (static s ∷ q) rem ≡ some cs
    → (s ≡ (cut_slash rem).0) × (capture_rest (capture q) q (cut_slash rem).1 ≡ some cs)
unfolding capture
capture-static s q rem cs h = ground (arith, text_eq_iff s (cut_slash rem).0)

pub capture-static_self :
    (q : List Step) (rem : Text)
    → capture (static (cut_slash rem).0 ∷ q) rem ≡ capture_rest (capture q) q (cut_slash rem).1
unfolding capture
capture-static_self q rem = rw (text_eq_refl (cut_slash rem).0) refl

pub capture-param :
    (q : List Step) (rem : Text) (cs : List Text)
    → capture (param ∷ q) rem ≡ some cs
    → (is_empty (cut_slash rem).0 ≡ false)
      × ((ds : List Text) × (capture_rest (capture q) q (cut_slash rem).1 ≡ some ds))
unfolding capture
capture-param q rem cs h = (ground arith, rest (capture_rest (capture q) q (cut_slash rem).1) refl)
  where
    rest :
        (o : Option (List Text))
        → capture_rest (capture q) q (cut_slash rem).1 ≡ o
        → (ds : List Text) × (capture_rest (capture q) q (cut_slash rem).1 ≡ some ds)
    rest none e = absurd (ground (arith, e, h))
    rest (some ds) e = (ds, e)

pub capture-param_some :
    (q : List Step) (rem : Text) (ds : List Text)
    → is_empty (cut_slash rem).0 ≡ false
    → capture_rest (capture q) q (cut_slash rem).1 ≡ some ds
    → capture (param ∷ q) rem ≡ some ((cut_slash rem).0 ∷ ds)
unfolding capture
capture-param_some q rem ds e h = rw (e, h) refl

pub capture-wildcard :
    (q : List Step) (rem : Text) (cs : List Text)
    → capture (wildcard ∷ q) rem ≡ some cs
    → (q ≡ []) × (cs ≡ rem ∷ [])
unfolding capture
capture-wildcard [] rem cs h = ground arith
capture-wildcard (s ∷ q) rem cs h = absurd (none-ne-some h)
