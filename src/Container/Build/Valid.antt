-- ===== src/Container/Build/Valid.antt =====
-- container.go: in a container that `validate` accepts each singleton can be constructed.
use torge.Base.{
  ℕ, zero, suc, ◌≡◌, refl, ◌∙◌, ap, ◌⊎◌, inl, inr, true, List, [], ◌∷◌, ◌++◌, Option, some, arith,
  Bool-cases, Option-cases,
}
use torge.Base.Members.{In, here, there}
use torge.Container.{Provider, Container, is_singleton}
use torge.Container.Graph.{
  param_faults, params_faults, order_faults, validate, cycle_faults, find_cycle, Search, cycle,
  clear,
}
use torge.Container.Cycle.{Height, Registered}
use torge.Container.Cycle.Search.{Correct}
use torge.Container.Build.{is_given}

nil_parts {ℓ} : {A : Type ℓ} (xs ys : List A) → xs ++ ys ≡ [] → (xs ≡ []) × (ys ≡ [])
nil_parts [] ys e = (refl, e)
nil_parts (x ∷ xs) ys e = absurd (cc e)

-- A parameter without a fault has a value, or a provider of a singleton.
abbrev Supplied : (ℕ → Option Provider) → ℕ → Type 0
Supplied providers dep =
    (is_given dep ≡ true)
    ⊎ ((q : Provider) × (providers dep ≡ some q) × (is_singleton q.scope ≡ true))

param_faults-Supplied :
    (providers : ℕ → Option Provider) (p : Provider) (dep : ℕ)
    → is_singleton p.scope ≡ true
    → param_faults providers p dep ≡ []
    → Supplied providers dep
unfolding param_faults
param_faults-Supplied providers p dep s e = elim (Bool-cases (is_given dep)) [
  | inl g ↦ inl g
  | inr g ↦ elim (Option-cases (providers dep)) [
    | inl n ↦ absurd (ground (arith, s, e, g, n))
    | inr (q, f) ↦ inr (q, f, ground (arith, s, e, g, f))
  ]
]

params_faults-Supplied :
    (providers : ℕ → Option Provider) (p : Provider) (deps : List ℕ)
    → is_singleton p.scope ≡ true
    → params_faults providers p deps ≡ []
    → (dep : ℕ) → In dep deps
    → Supplied providers dep
unfolding params_faults
params_faults-Supplied providers p [] s e dep m = elim m [ ]
params_faults-Supplied providers p (d ∷ deps) s e dep (here same) =
    let (h, k) = nil_parts (param_faults providers p d) (params_faults providers p deps) e in
    param_faults-Supplied providers p dep s (ap (param_faults providers p) same ∙ h)
params_faults-Supplied providers p (d ∷ deps) s e dep (there m) =
    let (h, k) = nil_parts (param_faults providers p d) (params_faults providers p deps) e in
    params_faults-Supplied providers p deps s k dep m

order_faults-Supplied :
    (providers : ℕ → Option Provider) (ps : List Provider)
    → order_faults providers ps ≡ []
    → (p : Provider) → In p ps
    → is_singleton p.scope ≡ true
    → (dep : ℕ) → In dep p.params
    → Supplied providers dep
unfolding order_faults
order_faults-Supplied providers [] e p m s dep i = elim m [ ]
order_faults-Supplied providers (q ∷ ps) e p (here same) s dep i =
    let (h, k) = nil_parts (params_faults providers q q.params) (order_faults providers ps) e in
    params_faults-Supplied providers p p.params s
      (ap (λ (x : Provider). params_faults providers x x.params) same ∙ h) dep i
order_faults-Supplied providers (q ∷ ps) e p (there m) s dep i =
    let (h, k) = nil_parts (params_faults providers q q.params) (order_faults providers ps) e in
    order_faults-Supplied providers ps k p m s dep i

-- A provider that can be constructed within a number of levels.
abbrev pub Constructible : (ℕ → Option Provider) → ℕ → Provider → Type 0
Constructible providers zero p = ⊥
Constructible providers (suc n) p =
    (dep : ℕ)
    → In dep p.params
    → (is_given dep ≡ true)
      ⊎ ((q : Provider) × (providers dep ≡ some q) × Constructible providers n q)

module _ (ct : Container) (reg : Registered ct) (valid : validate ct ≡ []) where
  pub no_faults : (order_faults ct.providers ct.order ≡ []) × (cycle_faults (find_cycle ct) ≡ [])
  unfolding validate
  no_faults = nil_parts (order_faults ct.providers ct.order) (cycle_faults (find_cycle ct)) valid

  Height-Constructible :
      (n : ℕ) (p : Provider)
      → In p ct.order
      → is_singleton p.scope ≡ true
      → Height ct.providers n p
      → Constructible ct.providers n p
  Height-Constructible zero p m s h = h
  Height-Constructible (suc n) p m s h = λ dep i.
      elim (order_faults-Supplied ct.providers ct.order no_faults.0 p m s dep i) [
        | inl g ↦ inl g
        | inr (q, f, t) ↦
            inr (q, f, Height-Constructible n q (reg.listed dep q f) t (h q (dep, i, f)))
      ]

  pub Correct-Constructible :
      (r : Search)
      → cycle_faults r ≡ []
      → Correct ct reg r
      → (n : ℕ) × ((p : Provider)
          → In p ct.order
          → is_singleton p.scope ≡ true
          → Constructible ct.providers n p)
  Correct-Constructible Search.no_fuel e h = absurd h
  Correct-Constructible (cycle c) e h = absurd (cc e)
  Correct-Constructible (clear t) e (n, h) = (n, λ p m s. Height-Constructible n p m s (h p m))
