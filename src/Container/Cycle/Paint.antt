-- ===== src/Container/Cycle/Paint.antt =====
-- The colours of the search, and how many providers are not visited yet.
use torge.Base.{
  ℕ, ◌+◌, ◌≤◌, ◌<◌, ◌≡◌, ◌≢◌, refl, sym, ◌∙◌, ap, ◌⊎◌, inl, inr, List, [], ◌∷◌, arith, length, ◌==◌,
  ==_iff, Bool-cases,
}
use torge.Base.Members.{In, here, there}
use torge.Container.{Provider}
use torge.Container.Graph.{Color, unvisited, visiting, done, Colors, paint}

abbrev pub is_unvisited : Color → ℕ
is_unvisited unvisited = 1
is_unvisited visiting = 0
is_unvisited done = 0

unfoldable pub count_unvisited : List Provider → Colors → ℕ
count_unvisited [] s = 0
count_unvisited (p ∷ ps) s = is_unvisited (s p.out) + count_unvisited ps s

pub count_unvisited-le : (ps : List Provider) (s : Colors) → count_unvisited ps s ≤ length ps
unfolding count_unvisited
count_unvisited-le [] s = omega arith
count_unvisited-le (p ∷ ps) s = ground (arith, count_unvisited-le ps s)

-- A colour other than `unvisited` leaves no more to visit, and one less where it is the first.
pub paint-le :
    (ps : List Provider) (s : Colors) (t : ℕ) (c : Color)
    → is_unvisited c ≡ 0
    → count_unvisited ps (paint t c s) ≤ count_unvisited ps s
unfolding count_unvisited
paint-le [] s t c h = omega arith
paint-le (p ∷ ps) s t c h = ground (arith, paint-le ps s t c h)

pub paint-lt :
    (ps : List Provider) (s : Colors) (p : Provider) (c : Color)
    → is_unvisited c ≡ 0
    → In p ps
    → s p.out ≡ unvisited
    → count_unvisited ps (paint p.out c s) < count_unvisited ps s
unfolding count_unvisited
paint-lt [] s p c h m u = elim m [ ]
paint-lt (q ∷ ps) s p c h (here e) u =
    let same = ap (λ (r : Provider). r.out) e in ground (arith, same, paint-le ps s p.out c h)
paint-lt (q ∷ ps) s p c h (there m) u =
    ground (arith, paint-le (q ∷ []) s p.out c h, paint-lt ps s p c h m u)

pub paint-cases :
    (t j : ℕ) (c x : Color) (s : Colors)
    → paint t c s j ≡ x
    → ((j ≡ t) × (c ≡ x)) ⊎ ((j ≢ t) × (s j ≡ x))
paint-cases t j c x s h = elim (Bool-cases (j == t)) [
  | inl b ↦ inl ((==_iff j t).0 b, rw b at h)
  | inr b ↦ inr (λ e. absurd (cc (sym b ∙ (==_iff j t).1 e)), rw b at h)
]

pub paint_other : (t j : ℕ) (c : Color) (s : Colors) → j ≢ t → paint t c s j ≡ s j
paint_other t j c s n = elim (Bool-cases (j == t)) [
  | inl b ↦ absurd (n ((==_iff j t).0 b))
  | inr b ↦ rw b refl
]

pub paint_self : (t j : ℕ) (c : Color) (s : Colors) → j ≡ t → paint t c s j ≡ c
paint_self t j c s e = rw ((==_iff j t).1 e) refl
