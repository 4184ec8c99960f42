-- ===== src/Container/Build.antt =====
-- container.go: `build`, which constructs the singletons, and `closeBuilt`.
mod Valid
pub mod Total
pub mod Failure
use torge.Base.{
  ℕ, zero, suc, ◌+◌, Bool, true, false, not, ◌&&◌, ◌||◌, List, [], ◌∷◌, ◌++◌, Option, none, some,
  ◌==◌, ltb, if◌then◌else◌,
}
use torge.Container.{
  Provider, Container, Hook, lifecycle, closer, update, context_type, logger_type, env_type,
  is_singleton,
}
use torge.Container.Graph.{Fault, validate}

-- What `manage` finds a value to be; `unmanaged` also stands for a nil value.
pub data Managed : Type 0 where
  unmanaged has_lifecycle is_closer : Managed

-- The code that is not the container's: what a constructor returns, with its error, and what kind of
-- value it is; and the values of the built-in types.
pub record World : Type 0 where
  pub call : (fn : ℕ) → List ℕ → ℕ × Bool
  pub kind : ℕ → Managed
  pub builtin : ℕ → ℕ

-- `singleton` returns a value or the error of a constructor, with the container changed, or it
-- panics on a provider that is nil. `no_fuel` is the model's.
pub data Built : Type 0 where
  no_fuel panicked : Built
  failed : Container → Built
  value : ℕ → Container → Built

pub data Arguments : Type 0 where
  stopped : Built → Arguments
  arguments : List ℕ → Container → Arguments

abbrev pub on_built : (ℕ → Container → Arguments) → Built → Arguments
on_built k no_fuel = stopped no_fuel
on_built k panicked = stopped panicked
on_built k (failed ct) = stopped (failed ct)
on_built k (value v ct) = k v ct

-- The types whose values `singleton` takes from the application.
abbrev pub is_given : ℕ → Bool
is_given dep = (dep == context_type) || (dep == logger_type) || (dep == env_type)

abbrev pub managed : Provider → ℕ → Container → Managed → Container
managed p v ct unmanaged = ct
managed p v ct has_lifecycle = record ct { hooks = ct.hooks ++ lifecycle p.out v ∷ [] }
managed p v ct is_closer = record ct { hooks = ct.hooks ++ closer p.out v ∷ [] }

-- `closeBuilt`: the closers, the last first.
unfoldable pub closers_backward : List Hook → List Hook
closers_backward [] = []
closers_backward (lifecycle t v ∷ hs) = closers_backward hs
closers_backward (closer t v ∷ hs) = closers_backward hs ++ closer t v ∷ []

-- `build` returns the diagnostics, the error of a constructor with the hooks that were closed, or
-- the container.
pub data BuildResult : Type 0 where
  no_fuel panicked : BuildResult
  invalid : List Fault → Container → BuildResult
  failed : (closed : List Hook) → Container → BuildResult
  ready : Container → BuildResult

abbrev pub on_singleton : (Container → BuildResult) → Built → BuildResult
on_singleton k Built.no_fuel = BuildResult.no_fuel
on_singleton k Built.panicked = BuildResult.panicked
on_singleton k (Built.failed ct) =
    BuildResult.failed (closers_backward ct.hooks) (record ct { hooks = [] })
on_singleton k (value v ct) = k ct

module _ (w : World) where
  -- The loop of `singleton` over the parameters.
  unfoldable pub collect : (Provider → Container → Built) → List ℕ → List ℕ → Container → Arguments
  collect go [] args ct = arguments args ct
  collect go (dep ∷ deps) args ct =
      let given = collect go deps (args ++ w.builtin dep ∷ []) ct in
      if is_given dep then given else elim (ct.providers dep) [
        | none ↦ stopped panicked
        | some q ↦ on_built (λ v c. collect go deps (args ++ v ∷ []) c) (go q ct)
      ]

  -- The call of the constructor, the new singleton and `manage`.
  unfoldable pub construct : Provider → Arguments → Built
  construct p (stopped b) = b
  construct p (arguments args ct) =
      let (v, err) = w.call p.fn args in
      if p.returns_err && err
      then failed ct
      else value v
          (managed p v (record ct { singletons = update ct.singletons p.out v }) (w.kind v))

  unfoldable pub singleton : ℕ → Provider → Container → Built
  unfolding collect construct
  singleton zero p ct = no_fuel
  singleton (suc fuel) p ct = elim (ct.singletons p.out) [
    | some v ↦ value v ct
    | none ↦
        if p.supplied
        then value p.value (record ct { singletons = update ct.singletons p.out p.value })
        else construct p (collect (singleton fuel) p.params [] ct)
  ]

  unfoldable pub build_all : ℕ → List Provider → Container → BuildResult
  unfolding singleton closers_backward
  build_all fuel [] ct = ready ct
  build_all fuel (p ∷ ps) ct =
      let skipped = build_all fuel ps ct in
      if is_singleton p.scope
      then on_singleton (build_all fuel ps) (singleton fuel p ct)
      else skipped

  abbrev pub if_valid : List Fault → Container → BuildResult → BuildResult
  if_valid [] ct r = r
  if_valid (f ∷ fs) ct r = invalid (f ∷ fs) ct

  unfoldable pub build : ℕ → Container → BuildResult
  unfolding build_all
  build fuel ct =
      let started = record ct { built = true } in
      if_valid (validate ct) started (build_all fuel ct.order started)
