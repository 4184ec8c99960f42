-- ===== src/Container/Cycle.antt =====
-- container.go: what a dependency cycle is, how deep the dependencies of a provider go, and what the
-- container keeps of its providers.
mod Paint
mod Walk
mod Visit
pub mod Search
use torge.Base.{ℕ, zero, suc, ◌≡◌, ◌≢◌, List, [], ◌∷◌, ◌++◌, Option, some}
use torge.Base.Members.{In}
use torge.Container.{Provider, Container}

-- No two providers of a list provide one type.
abbrev pub OutsDistinct : List Provider → Type 0
OutsDistinct [] = Unit
OutsDistinct (p ∷ ps) = ((q : Provider) → In q ps → q.out ≢ p.out) × OutsDistinct ps

-- The providers have one provider for each type, and the order lists them.
pub record Registered (ct : Container) : Type 0 where
  pub keyed : (t : ℕ) (p : Provider) → ct.providers t ≡ some p → p.out ≡ t
  pub listed : (t : ℕ) (p : Provider) → ct.providers t ≡ some p → In p ct.order
  pub known : (p : Provider) → In p ct.order → ct.providers p.out ≡ some p
  pub distinct : OutsDistinct ct.order

module _ (providers : ℕ → Option Provider) where
  -- The constructor of `p` takes what `q` provides.
  abbrev pub Depends : Provider → Provider → Type 0
  Depends p q = (dep : ℕ) × In dep p.params × (providers dep ≡ some q)

  -- Each provider depends on the one after it.
  abbrev pub Walks : List Provider → Type 0
  Walks [] = Unit
  Walks (p ∷ []) = Unit
  Walks (p ∷ q ∷ ps) = Depends p q × Walks (q ∷ ps)

  -- A walk that comes back to where it started.
  abbrev pub IsCycle : List Provider → Type 0
  IsCycle c = (q : Provider) × (ps : List Provider) × (c ≡ q ∷ ps ++ q ∷ []) × Walks c

  -- The dependencies of a provider end within a number of levels.
  abbrev pub Height : ℕ → Provider → Type 0
  Height zero p = ⊥
  Height (suc n) p = (q : Provider) → Depends p q → Height n q

  pub Height-mono : (n : ℕ) (p : Provider) → Height n p → Height (suc n) p
  Height-mono zero p h = absurd h
  Height-mono (suc n) p h = λ q d. Height-mono n q (h q d)
