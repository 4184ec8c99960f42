-- ===== src/App/Dispatch/Handling.antt =====
-- app.go: a request that `dispatch` hands to a route, and the limit of its body.
use torge.Base.{
  ℕ, ◌<◌, ◌≤◌, ◌≡◌, ◌≢◌, refl, sym, ◌∙◌, ap, ◌⊎◌, inl, inr, ◌&&◌, ◌==◌, ==_iff, Bool, true, false,
  List, [], none, some, arith, Bool-cases, Option-cases, ltb, ltb→lt, ltb→ge, if_all,
}
use torge.Base.Int.{ℤ, pos, negsuc}
use torge.Base.Text.{Text, text, text_eq, text_eq_iff}
use torge.Router.Trie.{Route, Found}
use torge.Router.Trie.Spec.{capture_path, Preferred}
use torge.Router.Pattern.{steps_of}
use torge.Router.Table.{Router, find}
use torge.Router.Table.Contents.{RouterOk, Stored}
use torge.Router.Table.Find.{Hit, find-Hit}
use torge.App.Dispatch.{
  Config, Request, Outcome, handle, too_large, not_found, redirect, no_content, method_not_allowed,
  limit_or, limited, serve_limited, unlimited, declared, chunked, or_get, serve,
}

-- The body of a request is limited to `n` bytes, by the route's own limit or, where that is 0, by the
-- application's.
abbrev pub LimitedTo : Config → ℤ → Request → ℕ → Type 0
LimitedTo cfg own q n =
    ((own ≡ pos n) ⊎ ((own ≡ pos 0) × (cfg.body_limit ≡ pos n))) × (0 < n) × (q.has_body ≡ true)

-- The answer to a request that the route `r` with the values `vs` is found for.
abbrev pub Handling : Config → ℤ → Request → Route → List Text → Outcome → Type 0
Handling cfg own q r vs (handle s ws unlimited) =
    (s ≡ r) × (ws ≡ vs) × ((n : ℕ) → LimitedTo cfg own q n → ⊥)
Handling cfg own q r vs (handle s ws (declared n)) =
    (s ≡ r) × (ws ≡ vs) × LimitedTo cfg own q n × ((k : ℕ) × (q.content_length ≡ pos k) × (k ≤ n))
Handling cfg own q r vs (handle s ws (chunked n)) =
    (s ≡ r) × (ws ≡ vs) × LimitedTo cfg own q n × ((k : ℕ) × (q.content_length ≡ negsuc k))
Handling cfg own q r vs too_large =
    (n : ℕ) × (k : ℕ) × LimitedTo cfg own q n × (q.content_length ≡ pos k) × (n < k)
Handling cfg own q r vs not_found = ⊥
Handling cfg own q r vs (redirect code path) = ⊥
Handling cfg own q r vs (no_content ms) = ⊥
Handling cfg own q r vs (method_not_allowed ms) = ⊥

-- A stored route of the method that matches the path, and none that matches it is preferred to it.
pub record Best (rt : Router) (method path : Text) (r : Route) (vs : List Text) : Type 0 where
  pub hit : Hit rt method path r vs
  pub first :
      (x : Route) (cs : List Text)
      → Stored rt x
      → x.method ≡ method
      → capture_path (steps_of x.path) path ≡ some cs
      → Preferred (steps_of r.path) (steps_of x.path)

-- The request is handed to the best route of the method for the path, with the values that its pattern
-- captures, under the limit of its body; or its declared length is over that limit.
abbrev pub Handled :
    Config → Router → (Route → ℤ) → Request → (method path : Text) → Outcome → Type 0
Handled cfg rt limit_of q method path o =
    (r : Route) × (vs : List Text) × Best rt method path r vs × Handling cfg (limit_of r) q r vs o

pos_injective : {n k : ℕ} → pos n ≡ pos k → n ≡ k
pos_injective e = cc e

limit_or-LimitedTo :
    (cfg : Config) (own : ℤ) (q : Request) (n : ℕ)
    → limit_or cfg.body_limit own ≡ pos n
    → 0 < n
    → q.has_body ≡ true
    → LimitedTo cfg own q n
limit_or-LimitedTo cfg (negsuc m) q n e p b = absurd (cc e)
limit_or-LimitedTo cfg (pos m) q n e p b = elim (Bool-cases (m == 0)) [
  | inl z ↦ (inr (ap pos ((==_iff m 0).0 z), rw z at e), p, b)
  | inr z ↦ (inl (rw z at e), p, b)
]

LimitedTo-limit_or :
    (cfg : Config) (own : ℤ) (q : Request) (n : ℕ)
    → LimitedTo cfg own q n
    → limit_or cfg.body_limit own ≡ pos n
LimitedTo-limit_or cfg own q n (inl e, p, b) = ap (limit_or cfg.body_limit) e ∙ positive n p
  where
    positive : (n : ℕ) → 0 < n → limit_or cfg.body_limit (pos n) ≡ pos n
    positive n p = elim (Bool-cases (n == 0)) [
      | inl z ↦ absurd (omega (arith, (==_iff n 0).0 z, p))
      | inr z ↦ rw z refl
    ]
LimitedTo-limit_or cfg own q n (inr (e, l), p, b) = ap (limit_or cfg.body_limit) e ∙ l

module _ (cfg : Config) (own : ℤ) (q : Request) (r : Route) (vs : List Text) where
  limited-Handling :
      (n : ℕ) (l : ℤ)
      → LimitedTo cfg own q n
      → q.content_length ≡ l
      → Handling cfg own q r vs (limited r vs n l)
  limited-Handling n (pos k) lim e =
      if_all {A = Outcome} (Handling cfg own q r vs) (ltb n k) (λ b. (n, k, lim, e, ltb→lt n k b))
        (λ b. (refl, refl, lim, (k, e, ltb→ge n k b)))
  limited-Handling n (negsuc k) lim e = (refl, refl, lim, (k, e))

  both : (a b : Bool) → (a && b) ≡ true → (a ≡ true) × (b ≡ true)
  both a b e = ground (arith, e)

  serve_limited-Handling :
      (l : ℤ) → limit_or cfg.body_limit own ≡ l → Handling cfg own q r vs (serve_limited q r vs l)
  serve_limited-Handling (pos n) e =
      if_all {A = Outcome} (Handling cfg own q r vs) (ltb 0 n && q.has_body)
        (λ b.
          let (p, h) = both (ltb 0 n) q.has_body b in
          limited-Handling n q.content_length (limit_or-LimitedTo cfg own q n e (ltb→lt 0 n p) h)
            refl)
        (λ b. (refl, refl, λ k lim. none_applies k lim b))
    where
      not_both : (n : ℕ) (h : Bool) → 0 < n → h ≡ true → (ltb 0 n && h) ≡ false → ⊥
      not_both n h p t b = absurd (ground (arith, p, t, b))

      none_applies : (k : ℕ) → LimitedTo cfg own q k → (ltb 0 n && q.has_body) ≡ false → ⊥
      none_applies k lim b =
          let same : n ≡ k = pos_injective (sym e ∙ LimitedTo-limit_or cfg own q k lim) in
          not_both n q.has_body (omega (arith, same, lim.1)) lim.2 b
  serve_limited-Handling (negsuc n) e =
      (refl, refl, λ k lim. absurd (cc (sym e ∙ LimitedTo-limit_or cfg own q k lim)))

-- What is found for the method is handled.
pub serve-Handled :
    (cfg : Config) (rt : Router) (limit_of : Route → ℤ) (q : Request) (method path : Text)
    (r : Route) (vs : List Text)
    → RouterOk rt
    → find rt method path [] ≡ some (r, vs)
    → Handled cfg rt limit_of q method path (serve cfg rt limit_of q path (some (r, vs)))
serve-Handled cfg rt limit_of q method path r vs ok e =
    let (hit, count, first) = find-Hit rt method path r vs ok e in
    (
      r,
      vs,
      record { hit = hit; first = first },
      serve_limited-Handling cfg (limit_of r) q r vs (limit_or cfg.body_limit (limit_of r)) refl,
    )

-- The routes of the request's method, or for HEAD those of GET.
abbrev pub Via : Request → Text → Type 0
Via q method = (method ≡ q.method) ⊎ ((q.method ≡ text "HEAD") × (method ≡ text "GET"))

pub or_get-Via :
    (rt : Router) (q : Request) (path : Text) (f : Found)
    → find rt q.method path [] ≡ f
    → or_get rt q.method path f ≢ none
    → (m : Text) × (r : Route) × (vs : List Text) × Via q m
      × (find rt m path [] ≡ some (r, vs))
      × (or_get rt q.method path f ≡ some (r, vs))
or_get-Via rt q path (some (r, vs)) e n = (q.method, r, vs, inl refl, e, refl)
or_get-Via rt q path none e n = elim (Bool-cases (text_eq q.method (text "HEAD"))) [
  | inl b ↦ elim (Option-cases (find rt (text "GET") path [])) [
    | inl absent ↦ absurd (n (rw b absent))
    | inr ((r, vs), found) ↦
        (text "GET", r, vs, inr ((text_eq_iff q.method (text "HEAD")).0 b, refl), found, rw b found)
  ]
  | inr b ↦ absurd (n (rw b refl))
]
