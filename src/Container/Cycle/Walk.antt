-- ===== src/Container/Cycle/Walk.antt =====
-- The stack of the search is a walk, and its part from a provider on is one.
use mathlib.Core.Path.{subst}
use torge.Base.{
  ℕ, ◌≡◌, refl, sym, ◌∙◌, ap, List, [], ◌∷◌, ◌++◌, Option, none, some, ◌==◌, ==_iff, Bool-cases,
  inl, inr,
}
use torge.Base.Members.{In, here, there}
use torge.Container.{Provider}
use torge.Container.Graph.{stack_from}
use torge.Container.Cycle.{Depends, Walks, IsCycle}

module _ (providers : ℕ → Option Provider) where
  pub Walks-append :
      (ps : List Provider) (p q : Provider)
      → Walks providers (ps ++ p ∷ [])
      → Depends providers p q
      → Walks providers ((ps ++ p ∷ []) ++ q ∷ [])
  Walks-append [] p q w d = (d, tt)
  Walks-append (a ∷ []) p q w d = (w.0, (d, tt))
  Walks-append (a ∷ b ∷ ps) p q w d = (w.0, Walks-append (b ∷ ps) p q w.1 d)

  Walks-tail : (p : Provider) (ps : List Provider) → Walks providers (p ∷ ps) → Walks providers ps
  Walks-tail p [] w = tt
  Walks-tail p (q ∷ ps) w = w.1

  -- What `stack_from` finds on a stack that ends with `p`.
  abbrev pub Found : ℕ → Provider → Option (List Provider) → Type 0
  Found t p none = Unit
  Found t p (some c) =
      (q : Provider) × (ps : List Provider) × (zs : List Provider) × (c ≡ q ∷ ps)
      × (c ≡ zs ++ p ∷ [])
      × (q.out ≡ t)
      × (providers t ≡ some q)
      × Walks providers c

  AllKnown : List Provider → Type 0
  AllKnown path = (p : Provider) → In p path → providers p.out ≡ some p

  pub stack_from-Found :
      (t : ℕ) (p : Provider) (path : List Provider)
      → Walks providers (path ++ p ∷ [])
      → ((q : Provider) → In q (path ++ p ∷ []) → providers q.out ≡ some q)
      → Found t p (stack_from t (path ++ p ∷ []))
  unfolding stack_from
  stack_from-Found t p [] w k = elim (Bool-cases (p.out == t)) [
    | inl b ↦ rw b (
        let e = (==_iff p.out t).0 b in
        (p, [], [], refl, refl, e, ap providers (sym e) ∙ k p (here refl), tt))
    | inr b ↦ rw b tt
  ]
  stack_from-Found t p (a ∷ path) w k = elim (Bool-cases (a.out == t)) [
    | inl b ↦ rw b (
        let e = (==_iff a.out t).0 b in
        (a, path ++ p ∷ [], a ∷ path, refl, refl, e, ap providers (sym e) ∙ k a (here refl), w))
    | inr b ↦
        rw b (stack_from-Found t p path (Walks-tail a (path ++ p ∷ []) w) (λ q i. k q (there i)))
  ]

  -- The stack from `q` on, with `q` again, is a cycle.
  pub Found-IsCycle :
      (p q : Provider) (c : List Provider)
      → Found q.out p (some c)
      → providers q.out ≡ some q
      → Depends providers p q
      → IsCycle providers (c ++ q ∷ [])
  Found-IsCycle p q c (r, ps, zs, e, f, o, k, w) kq d =
      let same : r ≡ q = cc in
      (
        q,
        ps,
        ap (λ x. x ++ q ∷ []) e ∙ ap (λ x. x ∷ (ps ++ q ∷ [])) same,
        subst (λ x. Walks providers (x ++ q ∷ [])) (sym f)
            (Walks-append zs p q (subst (Walks providers) f w) d),
      )
