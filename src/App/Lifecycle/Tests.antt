-- ===== src/App/Lifecycle/Tests.antt =====
-- app.go: an application with three hooks, of which one may fail to start.
use torge.Base.{
  ℕ, ◌≡◌, refl, Bool, true, false, List, [], ◌∷◌, Option, none, some, ◌==◌, if◌then◌else◌,
}
use torge.Container.{Container, new_container, register, Signature, error_type, singleton_scope}
use torge.Container.Graph.{validate}
use torge.Container.Build.{unmanaged, is_closer, has_lifecycle, build}
use torge.App.Lifecycle.{
  Callback, own, close_value, Hook, App, new_app, World, start, shutdown, start_hooks,
  run_stop_hooks, stop_calls, stop_failures, all_hooks, managed_hooks, start_frozen, hook_failed,
  stop_hook, http_server, close_calls,
}
use torge.App.Lifecycle.History.{
  adds, starts, shuts_down, Operation, perform_all, Phase, perform_all-History,
}

program : Unit {0}
unfolding register start shutdown start_hooks run_stop_hooks stop_calls stop_failures all_hooks
    managed_hooks start_frozen build validate perform_all close_calls
program = tt

abbrev hook_of : Option ℕ → Option ℕ → Hook
hook_of s t = record { on_start = own_of s; on_stop = own_of t }
  where
    own_of : Option ℕ → Option Callback
    own_of none = none
    own_of (some n) = some (own n)

-- The callbacks whose number is the one given fail.
abbrev world : ℕ → World
world n = record {
  construction = record { call = λ fn args. (fn, false); kind = λ v. unmanaged; builtin = λ t. t };
  fails = λ c. is_own n c;
  faulty = false;
  faulty_routes = false;
  invoke = λ hs. (hs, false);
  server_fails = true;
}
  where
    is_own : ℕ → Callback → Bool
    is_own n (own m) = n == m
    is_own n c = false

abbrev three : List Operation
three =
    adds (hook_of (some 1) (some 11))
    ∷ adds (hook_of none (some 12))
    ∷ adds (hook_of (some 3) none)
    ∷ []

abbrev prepared : App
prepared = perform_all three (new_app false new_container)

-- The third hook fails, and the stop of the second.
third_fails : (start 0 (world 3) prepared).1 ≡ hook_failed (own 3) []
unfolding program
third_fails = refl

calls_of_failure : (start 0 (world 3) prepared).0.calls ≡ own 1 ∷ own 3 ∷ own 12 ∷ own 11 ∷ []
unfolding program
calls_of_failure = refl

shutdown_errors :
    (shutdown (world 12) (start 0 (world 12) prepared).0).1 ≡ http_server ∷ stop_hook (own 12) ∷ []
unfolding program
shutdown_errors = refl

-- A closer and a value with a `Start` are constructed, and then a constructor fails.
abbrev constructor : List ℕ → List ℕ → Option Signature
constructor inputs outputs = some (record {
  is_func = true;
  is_nil = false;
  variadic = false;
  inputs = inputs;
  outputs = outputs;
})

abbrev with_failing : Container
with_failing =
    (register false 3 (constructor [] (12 ∷ error_type ∷ [])) singleton_scope false
      (register false 2 (constructor [] (11 ∷ [])) singleton_scope false
        (register false 1 (constructor [] (10 ∷ [])) singleton_scope false new_container).0).0).0

abbrev failing_world : World
failing_world = record (world 9) {
  construction = record {
    call = λ fn args. (fn, fn == 3);
    kind = λ v. if v == 1 then is_closer else has_lifecycle;
    builtin = λ t. t;
  };
}

only_closed : (start 1 failing_world (new_app false with_failing)).0.calls ≡ close_value 1 ∷ []
unfolding program
only_closed = refl

abbrev fails_to_build : App
fails_to_build = (start 1 failing_world (new_app false with_failing)).0

abbrev history : List Operation
history =
    adds (hook_of (some 1) (some 11))
    ∷ adds (hook_of none (some 12))
    ∷ starts 0 (world 9)
    ∷ adds (hook_of (some 2) none)
    ∷ shuts_down (world 9)
    ∷ shuts_down (world 9)
    ∷ []

perform_all-History_example :
    Phase
      (perform_all history (new_app true new_container))
      (perform_all history (new_app true new_container)).state
perform_all-History_example = perform_all-History true new_container history
