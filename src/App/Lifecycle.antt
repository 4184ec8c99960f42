-- ===== src/App/Lifecycle.antt =====
-- app.go: the states of the application, `AddHook`, `Start` and `Shutdown`. A start and a shutdown are
-- one step each: the model does not run the one while the other is on its way.
pub mod Loop
pub mod Starts
pub mod History
mod Tests
use torge.Base.{ℕ, Bool, true, false, List, [], ◌∷◌, ◌++◌, Option, none, some, if◌then◌else◌}
use torge.Container.{Container, Hook as Managed, lifecycle, closer}
use torge.Container.Build as Build
use torge.Container.Build.{BuildResult, no_fuel, panicked, invalid, failed, ready, build}

pub data State : Type 0 where
  building starting running stopping stopped has_failed : State

-- What a hook calls: a function that was registered, a method of a constructed value or of the job
-- manager.
pub data Callback : Type 0 where
  own : ℕ → Callback
  start_value stop_value close_value : (value : ℕ) → Callback
  start_jobs stop_jobs : Callback

pub record Hook : Type 0 where
  pub on_start : Option Callback
  pub on_stop : Option Callback

-- The hooks that `manage` adds.
abbrev pub managed_hook : Managed → Hook
managed_hook (lifecycle t v) = record {
  on_start = some (start_value v);
  on_stop = some (stop_value v);
}
managed_hook (closer t v) = record { on_start = none; on_stop = some (close_value v) }

unfoldable pub managed_hooks : List Managed → List Hook
managed_hooks [] = []
managed_hooks (m ∷ ms) = managed_hook m ∷ managed_hooks ms

abbrev pub jobs_hooks : Bool → List Hook
jobs_hooks true = record { on_start = some start_jobs; on_stop = some stop_jobs } ∷ []
jobs_hooks false = []

pub data StopError : Type 0 where
  http_server : StopError
  stop_hook : Callback → StopError

-- `once` says that `stopOnce` has run, `done` that the channel is closed. `calls` is not in the
-- code: the callbacks in the order of their calls.
pub record App : Type 0 where
  pub state : State
  pub frozen : Bool
  pub hooks : List Hook
  pub jobs : Bool
  pub container : Container
  pub started : List Hook
  pub once : Bool
  pub done : Bool
  pub stop_errors : List StopError
  pub calls : List Callback

abbrev pub new_app : Bool → Container → App
new_app jobs ct = record {
  state = building;
  frozen = false;
  hooks = [];
  jobs = jobs;
  container = ct;
  started = [];
  once = false;
  done = false;
  stop_errors = [];
  calls = [];
}

-- The code that is not the application's: which callbacks fail; the diagnostics before and after the
-- invocations; the hooks that constructors and invocations register, and whether the latter fail;
-- whether the HTTP server fails to stop.
pub record World : Type 0 where
  pub construction : Build.World
  pub fails : Callback → Bool
  pub faulty : Bool
  pub faulty_routes : Bool
  pub invoke : List Hook → List Hook × Bool
  pub server_fails : Bool

-- `AddHook` returns, or panics once the table is frozen.
pub data Registered : Type 0 where
  late returned : Registered

abbrev pub add_hook : Hook → App → App × Registered
add_hook h a = if a.frozen then (a, late) else (record a { hooks = a.hooks ++ h ∷ [] }, returned)

-- The loop of `start` over the hooks.
pub record Progress : Type 0 where
  pub started : List Hook
  pub calls : List Callback
  pub failure : Option Callback

-- One turn of the loop, where `rest` is the turns after it.
abbrev pub try_hook :
    (Callback → Bool)
    → List Hook
    → List Callback
    → (List Callback → Progress)
    → Option Callback
    → Progress
try_hook fails started calls rest none = rest calls
try_hook fails started calls rest (some c) =
    if fails c
    then record { started = started; calls = calls ++ c ∷ []; failure = some c }
    else rest (calls ++ c ∷ [])

unfoldable pub start_hooks : (Callback → Bool) → List Hook → List Callback → List Hook → Progress
start_hooks fails started calls [] = record { started = started; calls = calls; failure = none }
start_hooks fails started calls (h ∷ hs) =
    try_hook fails started calls (λ cs. start_hooks fails (started ++ h ∷ []) cs hs) h.on_start

abbrev pub one_call : Option Callback → List Callback
one_call none = []
one_call (some c) = c ∷ []

-- The calls of `runStopHooks`: the hook that started last is the first.
unfoldable pub stop_calls : List Hook → List Callback
stop_calls [] = []
stop_calls (h ∷ hs) = stop_calls hs ++ one_call h.on_stop

unfoldable pub stop_failures : (Callback → Bool) → List Callback → List StopError
stop_failures fails [] = []
stop_failures fails (c ∷ cs) =
    let rest = stop_failures fails cs in if fails c then stop_hook c ∷ rest else rest

unfoldable pub run_stop_hooks : (Callback → Bool) → App → App × List StopError
unfolding stop_calls stop_failures
run_stop_hooks fails a = (
  record a { started = []; calls = a.calls ++ stop_calls a.started },
  stop_failures fails (stop_calls a.started),
)

-- `endless` is the model's, for no fuel; the others are what `Start` returns, or the panic of a constructor.
pub data Start : Type 0 where
  endless construction_panic has_started has_faults not_built not_invoked : Start
  not_building : State → Start
  hook_failed : Callback → List StopError → Start

-- What `Start` does on an error of `start`.
abbrev pub fail : App → App
fail a = record a { state = has_failed; once = true; done = if a.once then a.done else true }

abbrev pub on_hooks : (Callback → Bool) → App → Option Callback → App × Start
on_hooks fails a none = (record a { state = running }, has_started)
on_hooks fails a (some c) =
    let (quiet, errors) = run_stop_hooks fails a in (fail quiet, hook_failed c errors)

abbrev pub with_progress : (Callback → Bool) → App → Progress → App × Start
with_progress fails a p =
    on_hooks fails (record a { started = p.started; calls = p.calls }) p.failure

-- The hooks of a start: the registered ones, those of the container, that of the job manager.
unfoldable pub all_hooks : App → List Hook
unfolding managed_hooks
all_hooks a = a.hooks ++ managed_hooks a.container.hooks ++ jobs_hooks a.jobs

-- `start` after the invocations; the OpenAPI document and the pipeline are not in the state.
unfoldable pub start_frozen : World → App → App × Start
unfolding start_hooks run_stop_hooks all_hooks
start_frozen w a =
    if w.faulty_routes
    then (fail a, has_faults)
    else with_progress w.fails a (start_hooks w.fails a.started a.calls (all_hooks a))

abbrev pub with_invoked : World → App → List Hook × Bool → App × Start
with_invoked w a (hooks, true) = (fail (record a { hooks = hooks }), not_invoked)
with_invoked w a (hooks, false) = start_frozen w (record a { hooks = hooks; frozen = true })

-- The calls of `closeBuilt`.
unfoldable pub close_calls : List Managed → List Callback
close_calls [] = []
close_calls (m ∷ ms) = one_call (managed_hook m).on_stop ++ close_calls ms

abbrev pub with_build : World → App → BuildResult → App × Start
with_build w a no_fuel = (a, endless)
with_build w a panicked = (a, construction_panic)
with_build w a (invalid fs ct) = (fail (record a { container = ct }), not_built)
with_build w a (failed closed ct) =
    (fail (record a { container = ct; calls = a.calls ++ close_calls closed }), not_built)
with_build w a (ready ct) = with_invoked w (record a { container = ct }) (w.invoke a.hooks)

abbrev pub start_building : ℕ → World → App → App × Start
start_building fuel w a =
    if w.faulty
    then (fail a, has_faults)
    else with_build w a (build w.construction fuel a.container)

abbrev pub start_from : ℕ → World → App → State → App × Start
start_from fuel w a building = start_building fuel w (record a { state = starting })
start_from fuel w a s = (a, not_building s)

unfoldable pub start : ℕ → World → App → App × Start
unfolding start_frozen
start fuel w a = start_from fuel w a a.state

-- The function of `stopOnce`.
abbrev pub server_errors : Bool → List StopError
server_errors true = http_server ∷ []
server_errors false = []

abbrev pub stop : World → App → App
stop w a =
    let (quiet, errors) = run_stop_hooks w.fails a in
    record quiet {
      state = stopped;
      once = true;
      done = true;
      stop_errors = server_errors w.server_fails ++ errors;
    }

-- `Shutdown` with a context that is not canceled, and what it returns. The end of the streams, the
-- drain delay and the stop request change nothing of the state here.
unfoldable pub shutdown : World → App → App × List StopError
unfolding run_stop_hooks
shutdown w a = let after = if a.once then a else stop w a in (after, after.stop_errors)
