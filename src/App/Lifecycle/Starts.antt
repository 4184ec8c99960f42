-- ===== src/App/Lifecycle/Starts.antt =====
-- app.go: the order of the calls of a start, and what a failing hook leaves.
use mathlib.Core.Path.{subst}
use torge.Base.{
  ℕ, ◌≡◌, ◌≢◌, ◌⊎◌, inl, inr, refl, sym, ◌∙◌, ap, Bool, true, false, List, [], ◌∷◌, ◌++◌, Option,
  none, some, if_all,
}
use mathlib.Core.List.{append_assoc, reverse, reverse-cons}
use torge.Container.{Container, Hook as Managed, lifecycle, closer}
use torge.Container.Graph.{validate}
use torge.Container.Build.Failure.{FailsIn, closers, Reason, build-Reason}
use torge.Container.Build.{BuildResult, no_fuel, panicked, invalid, failed, ready, build}
use torge.App.Lifecycle.{
  building, starting, running, has_failed, Callback, Hook, App, World, Progress, start_hooks,
  stop_calls, stop_failures, Start, endless, construction_panic, has_started, has_faults, not_built,
  not_invoked, not_building, hook_failed, on_hooks, all_hooks, start_frozen, with_invoked,
  with_build, start_from, start, run_stop_hooks, fail, close_calls, managed_hook, one_call,
  close_value,
}
use torge.App.Lifecycle.Loop.{
  start_calls, on_stops, stop_calls-reverse, NoneFails, FailsAt, Ran, start_hooks-Ran,
}

-- An application whose start failed: nothing counts as started, and a shutdown does nothing.
pub record Failed (a : App) : Type 0 where
  pub in_state : a.state ≡ has_failed
  pub none_started : a.started ≡ []
  pub stopped_once : a.once ≡ true
  pub is_done : a.done ≡ true

-- A start that did not return.
pub record Stuck (frozen done : Bool) (calls : List Callback) (b : App) : Type 0 where
  pub in_state : b.state ≡ starting
  pub none_started : b.started ≡ []
  pub not_once : b.once ≡ false
  pub same_frozen : b.frozen ≡ frozen
  pub same_done : b.done ≡ done
  pub same_calls : b.calls ≡ calls

-- The `Close` calls of constructed values, in the order of the constructions.
abbrev pub close_values : List Managed → List Callback
close_values [] = []
close_values (lifecycle t v ∷ ms) = close_values ms
close_values (closer t v ∷ ms) = close_value v ∷ close_values ms

-- The container has diagnostics, or the construction of a singleton failed. Then what has been
-- constructed before is closed, the last first.
abbrev pub NotBuilt : ℕ → World → Container → List Callback → List Callback → Type 0
NotBuilt fuel w ct calls after =
    ((validate ct ≢ []) × (after ≡ calls))
    ⊎ ((validate ct ≡ [])
        × ((f : FailsIn w.construction fuel (record ct { built = true }) ct.order) × (after
              ≡ calls ++ reverse (close_values f.at_error.hooks))))

module _ (fuel : ℕ) (w : World) (ct : Container) (frozen done : Bool) (calls : List Callback) where
  -- What a start leaves of an application with the container `ct` after the calls `calls`, for each of
  -- its results.
  abbrev pub Sequence : App → Start → Type 0
  Sequence b has_started =
      (b.state ≡ running)
      × (b.frozen ≡ true)
      × (b.once ≡ false)
      × (b.done ≡ done)
      × (b.started ≡ all_hooks b)
      × (b.calls ≡ calls ++ start_calls (all_hooks b))
      × NoneFails w.fails (all_hooks b)
  Sequence b (hook_failed c errors) =
      Failed b
      × ((f : FailsAt w.fails (all_hooks b) c) × (b.calls
            ≡ calls ++ (start_calls f.before ++ c ∷ []) ++ reverse (on_stops f.before))
          × (errors ≡ stop_failures w.fails (reverse (on_stops f.before))))
  Sequence b has_faults = Failed b × (b.calls ≡ calls)
  Sequence b not_built = Failed b × NotBuilt fuel w ct calls b.calls
  Sequence b not_invoked = Failed b × (b.calls ≡ calls)
  Sequence b (not_building s) = ⊥
  Sequence b endless = Stuck frozen done calls b
  Sequence b construction_panic = Stuck frozen done calls b

-- An application that has not started and not stopped.
pub record Fresh (a : App) : Type 0 where
  pub none_started : a.started ≡ []
  pub not_once : a.once ≡ false

fail-Failed : (a b : App) → Fresh a → b.once ≡ a.once → b.started ≡ [] → Failed (fail b)
fail-Failed a b f same none_left = record {
  in_state = refl;
  none_started = none_left;
  stopped_once = refl;
  is_done = rw (same ∙ f.not_once) refl;
}

on_hooks-Sequence :
    (fuel : ℕ) (ct : Container) (frozen : Bool) (w : World) (a : App) (p : Progress)
    (f : Option Callback)
    → Fresh a
    → a.frozen ≡ true
    → Ran w.fails a.started a.calls (all_hooks a) p f
    → Sequence fuel w ct frozen a.done a.calls
        (on_hooks w.fails (record a { started = p.started; calls = p.calls }) f).0
        (on_hooks w.fails (record a { started = p.started; calls = p.calls }) f).1
unfolding run_stop_hooks all_hooks
on_hooks-Sequence fuel ct frozen w a p none fresh z (s, c, n) =
    (refl, z, fresh.not_once, refl, s ∙ ap (λ l. l ++ all_hooks a) fresh.none_started, c, n)
on_hooks-Sequence fuel ct frozen w a p (some c) fresh z (f, s, k) =
    let same = s ∙ ap (λ l. l ++ f.before) fresh.none_started in
    (
      fail-Failed a (run_stop_hooks w.fails (record a { started = p.started; calls = p.calls })).0
          fresh refl refl,
      (
        f,
        ap (λ l. l ++ stop_calls p.started) k
            ∙ ap (λ l. a.calls ++ (start_calls f.before ++ c ∷ []) ++ stop_calls l) same
            ∙ ap (λ l. a.calls ++ (start_calls f.before ++ c ∷ []) ++ l)
                (stop_calls-reverse f.before),
        ap (λ l. stop_failures w.fails (stop_calls l)) same
            ∙ ap (stop_failures w.fails) (stop_calls-reverse f.before),
      ),
    )

start_frozen-Sequence :
    (fuel : ℕ) (ct : Container) (frozen : Bool) (w : World) (a : App)
    → Fresh a
    → a.frozen ≡ true
    → Sequence fuel w ct frozen a.done a.calls (start_frozen w a).0 (start_frozen w a).1
unfolding start_frozen
start_frozen-Sequence fuel ct frozen w a fresh z =
    if_all {A = App × Start} (λ r. Sequence fuel w ct frozen a.done a.calls r.0 r.1) w.faulty_routes
      (λ b. (fail-Failed a a fresh refl fresh.none_started, refl))
      (λ b.
        on_hooks-Sequence fuel ct frozen w a (start_hooks w.fails a.started a.calls (all_hooks a)) _
          fresh z (start_hooks-Ran w.fails a.started a.calls (all_hooks a)))

with_invoked-Sequence :
    (fuel : ℕ) (ct : Container) (frozen : Bool) (w : World) (a : App) (i : List Hook × Bool)
    → Fresh a
    → Sequence fuel w ct frozen a.done a.calls (with_invoked w a i).0 (with_invoked w a i).1
with_invoked-Sequence fuel ct frozen w a (hooks, true) fresh =
    (fail-Failed a (record a { hooks = hooks }) fresh refl fresh.none_started, refl)
with_invoked-Sequence fuel ct frozen w a (hooks, false) fresh =
    start_frozen-Sequence fuel ct frozen w (record a { hooks = hooks; frozen = true })
      (record { none_started = fresh.none_started; not_once = fresh.not_once }) refl

-- What `closeBuilt` calls.
close_calls-append :
    (ms ns : List Managed) → close_calls (ms ++ ns) ≡ close_calls ms ++ close_calls ns
unfolding close_calls
close_calls-append [] ns = refl
close_calls-append (m ∷ ms) ns =
    ap (λ l. one_call (managed_hook m).on_stop ++ l) (close_calls-append ms ns)
    ∙ sym (append_assoc (one_call (managed_hook m).on_stop) (close_calls ms) (close_calls ns))

close_calls-close_values :
    (ms : List Managed) → close_calls (reverse (closers ms)) ≡ reverse (close_values ms)
unfolding close_calls
close_calls-close_values [] = refl
close_calls-close_values (lifecycle t v ∷ ms) = close_calls-close_values ms
close_calls-close_values (closer t v ∷ ms) =
    ap close_calls (reverse-cons (closer t v) (closers ms))
    ∙ close_calls-append (reverse (closers ms)) (closer t v ∷ [])
    ∙ ap (λ l. l ++ close_value v ∷ []) (close_calls-close_values ms)
    ∙ sym (reverse-cons (close_value v) (close_values ms))

with_build-Sequence :
    (fuel : ℕ) (w : World) (a : App) (r : BuildResult)
    → Fresh a
    → a.state ≡ starting
    → Reason w.construction fuel a.container r
    → Sequence fuel w a.container a.frozen a.done a.calls (with_build w a r).0 (with_build w a r).1
with_build-Sequence fuel w a no_fuel fresh e q = record {
  in_state = e;
  none_started = fresh.none_started;
  not_once = fresh.not_once;
  same_frozen = refl;
  same_done = refl;
  same_calls = refl;
}
with_build-Sequence fuel w a panicked fresh e q = record {
  in_state = e;
  none_started = fresh.none_started;
  not_once = fresh.not_once;
  same_frozen = refl;
  same_done = refl;
  same_calls = refl;
}
with_build-Sequence fuel w a (invalid fs ct) fresh e (same, some_faults) = (
  fail-Failed a (record a { container = ct }) fresh refl fresh.none_started,
  inl (λ v. some_faults (same ∙ v), refl),
)
with_build-Sequence fuel w a (failed closed ct) fresh e (valid, (f, k)) = (
  fail-Failed a (record a { container = ct; calls = a.calls ++ close_calls closed }) fresh refl
      fresh.none_started,
  inr (
    valid,
    (
      f,
      ap (λ l. a.calls ++ close_calls l) k
          ∙ ap (λ l. a.calls ++ l) (close_calls-close_values f.at_error.hooks),
    ),
  ),
)
with_build-Sequence fuel w a (ready ct) fresh e q =
    with_invoked-Sequence fuel a.container a.frozen w (record a { container = ct })
      (w.invoke a.hooks) (record { none_started = fresh.none_started; not_once = fresh.not_once })

pub start-Sequence :
    (fuel : ℕ) (w : World) (a : App)
    → a.state ≡ building
    → Fresh a
    → Sequence fuel w a.container a.frozen a.done a.calls (start fuel w a).0 (start fuel w a).1
unfolding start
start-Sequence fuel w a b fresh =
    subst
      (λ s.
        Sequence fuel w a.container a.frozen a.done a.calls (start_from fuel w a s).0
          (start_from fuel w a s).1)
      (sym b)
      (if_all {A = App × Start} (λ r. Sequence fuel w a.container a.frozen a.done a.calls r.0 r.1)
        w.faulty
        (λ f. (fail-Failed a (record a { state = starting }) fresh refl fresh.none_started, refl))
        (λ f.
          with_build-Sequence fuel w (record a { state = starting })
            (build w.construction fuel a.container)
            (record { none_started = fresh.none_started; not_once = fresh.not_once }) refl
            (build-Reason w.construction fuel a.container)))
