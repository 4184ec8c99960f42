-- ===== src/Container/Build/Failure.antt =====
-- container.go: where `build` stops, and what `closeBuilt` closes.
use torge.Base.{
  ℕ, ◌≡◌, ◌≢◌, refl, sym, ◌∙◌, ap, inl, inr, true, false, List, [], ◌∷◌, ◌++◌, Bool-cases,
}
use mathlib.Core.List.{reverse, reverse-cons}
use torge.Container.{Provider, Container, Hook, lifecycle, closer, is_singleton}
use torge.Container.Graph.{validate, Fault}
use torge.Container.Build.{
  World, Built, value, BuildResult, invalid, ready, closers_backward, on_singleton, singleton,
  build_all, build, if_valid,
}

-- The hooks with a `Close` alone, in order.
abbrev pub closers : List Hook → List Hook
closers [] = []
closers (lifecycle t v ∷ hs) = closers hs
closers (closer t v ∷ hs) = closer t v ∷ closers hs

closers_backward-reverse : (hs : List Hook) → closers_backward hs ≡ reverse (closers hs)
unfolding closers_backward
closers_backward-reverse [] = refl
closers_backward-reverse (lifecycle t v ∷ hs) = closers_backward-reverse hs
closers_backward-reverse (closer t v ∷ hs) =
    ap (λ l. l ++ closer t v ∷ []) (closers_backward-reverse hs)
    ∙ sym (reverse-cons (closer t v) (closers hs))

-- The first singleton of the order, in a container `ct`, whose construction fails: those before it are
-- constructed in `built`, and `at_error` has the hooks of all that was constructed.
pub record FailsIn (w : World) (fuel : ℕ) (ct : Container) (order : List Provider) : Type 0 where
  pub before : List Provider
  pub failing : Provider
  pub after : List Provider
  pub built : Container
  pub at_error : Container
  pub all_of : order ≡ before ++ failing ∷ after
  pub constructed : build_all w fuel before ct ≡ ready built
  pub is_one : is_singleton failing.scope ≡ true
  pub fails_there : singleton w fuel failing built ≡ Built.failed at_error

-- A result that is a failure is that of a first failing singleton.
abbrev Explained : World → ℕ → Container → List Provider → BuildResult → Type 0
Explained w fuel ct order BuildResult.no_fuel = Unit
Explained w fuel ct order BuildResult.panicked = Unit
Explained w fuel ct order (invalid fs c) = ⊥
Explained w fuel ct order (BuildResult.failed closed c) =
    (f : FailsIn w fuel ct order) × (closed ≡ reverse (closers f.at_error.hooks))
Explained w fuel ct order (ready c) = Unit

module _ (w : World) (fuel : ℕ) where
  -- A provider that is passed by, or whose singleton is constructed.
  Explained-cons :
      (p : Provider) (ps : List Provider) (ct c : Container) (r : BuildResult)
      → ((before : List Provider) (b : Container)
          → build_all w fuel before c ≡ ready b
          → build_all w fuel (p ∷ before) ct ≡ ready b)
      → Explained w fuel c ps r
      → Explained w fuel ct (p ∷ ps) r
  Explained-cons p ps ct c BuildResult.no_fuel next e = tt
  Explained-cons p ps ct c BuildResult.panicked next e = tt
  Explained-cons p ps ct c (invalid fs d) next e = e
  Explained-cons p ps ct c (BuildResult.failed closed d) next (f, e) = (
    record {
      before = p ∷ f.before;
      failing = f.failing;
      after = f.after;
      built = f.built;
      at_error = f.at_error;
      all_of = ap (λ l. p ∷ l) f.all_of;
      constructed = next f.before f.built f.constructed;
      is_one = f.is_one;
      fails_there = f.fails_there;
    },
    e,
  )
  Explained-cons p ps ct c (ready d) next e = tt

  build_all-passed :
      (p : Provider) (ps : List Provider) (ct : Container)
      → is_singleton p.scope ≡ false
      → build_all w fuel (p ∷ ps) ct ≡ build_all w fuel ps ct
  unfolding build_all
  build_all-passed p ps ct b = rw b refl

  build_all-next :
      (p : Provider) (ps : List Provider) (ct : Container)
      → is_singleton p.scope ≡ true
      → build_all w fuel (p ∷ ps) ct ≡ on_singleton (build_all w fuel ps) (singleton w fuel p ct)
  unfolding build_all
  build_all-next p ps ct b = rw b refl

  on_singleton-Explained :
      (p : Provider) (ps : List Provider) (ct : Container) (b : Built)
      → is_singleton p.scope ≡ true
      → singleton w fuel p ct ≡ b
      → ((c : Container) → Explained w fuel c ps (build_all w fuel ps c))
      → Explained w fuel ct (p ∷ ps) (on_singleton (build_all w fuel ps) b)
  unfolding build_all
  on_singleton-Explained p ps ct Built.no_fuel one e rest = tt
  on_singleton-Explained p ps ct Built.panicked one e rest = tt
  on_singleton-Explained p ps ct (Built.failed c) one e rest = (
    record {
      before = [];
      failing = p;
      after = ps;
      built = ct;
      at_error = c;
      all_of = refl;
      constructed = refl;
      is_one = one;
      fails_there = e;
    },
    closers_backward-reverse c.hooks,
  )
  on_singleton-Explained p ps ct (value v c) one e rest =
      Explained-cons p ps ct c (build_all w fuel ps c)
        (λ before b h.
          build_all-next p before ct one ∙ ap (on_singleton (build_all w fuel before)) e ∙ h)
        (rest c)

  build_all-Explained :
      (ps : List Provider) (ct : Container) → Explained w fuel ct ps (build_all w fuel ps ct)
  unfolding build_all
  build_all-Explained [] ct = tt
  build_all-Explained (p ∷ ps) ct = elim (Bool-cases (is_singleton p.scope)) [
    | inl b ↦
        rw (b, build_all) (on_singleton-Explained p ps ct _ b refl (λ c. build_all-Explained ps c))
    | inr b ↦
        rw (b, build_all)
          (Explained-cons p ps ct ct _ (λ before d h. build_all-passed p before ct b ∙ h)
            (build_all-Explained ps ct))
  ]

-- What `build` says when it does not give the container.
abbrev pub Reason : World → ℕ → Container → BuildResult → Type 0
Reason w fuel ct BuildResult.no_fuel = Unit
Reason w fuel ct BuildResult.panicked = Unit
Reason w fuel ct (invalid fs c) = (fs ≡ validate ct) × (fs ≢ [])
Reason w fuel ct (BuildResult.failed closed c) =
    (validate ct ≡ [])
    × ((f : FailsIn w fuel (record ct { built = true }) ct.order) × (closed
          ≡ reverse (closers f.at_error.hooks)))
Reason w fuel ct (ready c) = Unit

if_valid-Reason :
    (w : World) (fuel : ℕ) (ct : Container) (fs : List Fault) (r : BuildResult)
    → validate ct ≡ fs
    → Explained w fuel (record ct { built = true }) ct.order r
    → Reason w fuel ct (if_valid w fs (record ct { built = true }) r)
if_valid-Reason w fuel ct (f ∷ fs) r e x = (sym e, λ y. absurd (cc y))
if_valid-Reason w fuel ct [] BuildResult.no_fuel e x = tt
if_valid-Reason w fuel ct [] BuildResult.panicked e x = tt
if_valid-Reason w fuel ct [] (invalid fs c) e x = absurd x
if_valid-Reason w fuel ct [] (BuildResult.failed closed c) e x = (e, x)
if_valid-Reason w fuel ct [] (ready c) e x = tt

pub build-Reason : (w : World) (fuel : ℕ) (ct : Container) → Reason w fuel ct (build w fuel ct)
unfolding build
build-Reason w fuel ct =
    if_valid-Reason w fuel ct (validate ct) _ refl
      (build_all-Explained w fuel ct.order (record ct { built = true }))
