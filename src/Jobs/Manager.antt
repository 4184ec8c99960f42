-- ===== src/Jobs/Manager.antt =====
-- jobs/jobs.go: `Manager`, with `NewManager`, `Register`, `Dispatch`, `Start`, `Stop` and the
-- decision of `process`. A count that is not positive is 0, as the code treats both alike; a
-- handler is a number, which the manager only hands on.
use torge.Base.{
  ℕ, zero, suc, Bool, true, false, not, ◌&&◌, List, [], ◌∷◌, Option, none, some, ltb, if◌then◌else◌,
}
use torge.Base.Text.{Text, text}
use torge.Base.Assoc.{get, put}

pub record Job : Type 0 where
  pub id : Text
  pub name : Text
  pub payload : Text
  pub attempt : ℕ
  pub max_attempts : ℕ
  pub enqueued_at : ℕ
  pub metadata : List (Text × Text)

pub record Registration : Type 0 where
  pub handler : ℕ
  pub max_attempts : ℕ
  pub timeout : ℕ

-- `Workers`: a number of workers, or the negative value of a dispatch-only manager.
pub data Workers : Type 0 where
  dispatch_only : Workers
  workers : ℕ → Workers

pub record Options : Type 0 where
  pub workers : Workers
  pub max_attempts : ℕ
  pub timeout : ℕ
  pub backoff : ℕ → ℕ

pub record Manager : Type 0 where
  pub opts : Options
  pub handlers : List (Text × Registration)
  pub running : Bool
  -- `recvCancel` is set
  pub receiving : Bool
  -- the workers that have been launched and have not returned
  pub active : ℕ

-- `NewManager`; `procs` is runtime.GOMAXPROCS(0), `default_backoff` the exponential one.
abbrev workers_or : ℕ → Workers → Workers
workers_or procs dispatch_only = dispatch_only
workers_or procs (workers zero) = workers procs
workers_or procs (workers (suc n)) = workers (suc n)

abbrev pub or_default : ℕ → ℕ → ℕ
or_default d zero = d
or_default d (suc n) = suc n

abbrev backoff_or : (ℕ → ℕ) → Option (ℕ → ℕ) → ℕ → ℕ
backoff_or d none = d
backoff_or d (some f) = f

unfoldable pub new_manager :
    (procs : ℕ) (default_backoff : ℕ → ℕ) → Workers → ℕ → ℕ → Option (ℕ → ℕ) → Manager
new_manager procs default_backoff ws max_attempts timeout backoff = record {
  opts = record {
    workers = workers_or procs ws;
    max_attempts = or_default 3 max_attempts;
    timeout = or_default 300000000000 timeout;
    backoff = backoff_or default_backoff backoff;
  };
  handlers = [];
  running = false;
  receiving = false;
  active = 0;
}

pub data JobOption : Type 0 where
  max_attempts timeout : ℕ → JobOption

abbrev pub apply_options : List JobOption → Registration → Registration
apply_options [] r = r
apply_options (max_attempts n ∷ os) r = apply_options os (record r { max_attempts = n })
apply_options (timeout n ∷ os) r = apply_options os (record r { timeout = n })

pub data RegisterError : Type 0 where
  required while_running already_registered : RegisterError

abbrev pub is_empty : Text → Bool
is_empty [] = true
is_empty (c ∷ s) = false

abbrev register_new :
    Text → ℕ → List JobOption → Manager → Option Registration → Manager × Option RegisterError
register_new name h opts m (some r) = (m, some already_registered)
register_new name h opts m none = (
  record m {
    handlers =
        put name
          (apply_options opts
            (record { handler = h; max_attempts = m.opts.max_attempts; timeout = m.opts.timeout }))
          m.handlers;
  },
  none,
)

-- `Register`; a nil handler is `none`.
unfoldable pub register :
    Text → Option ℕ → List JobOption → Manager → Manager × Option RegisterError
register name none opts m = (m, some required)
register name (some h) opts m =
    if is_empty name
    then (m, some required)
    else if m.running
    then (m, some while_running)
    else register_new name h opts m (get name m.handlers)

-- `DispatchOption`: any function of the job and the delay.
abbrev pub DispatchOption : Type 0
DispatchOption = Job × ℕ → Job × ℕ

-- The loop of `Dispatch` over the options.
abbrev pub apply_dispatch : List DispatchOption → Job × ℕ → Job × ℕ
apply_dispatch [] jd = jd
apply_dispatch (o ∷ os) jd = apply_dispatch os (o jd)

-- The options that the package makes, `Delay` and `WithID`.
pub data PackageOption : Type 0 where
  delay : ℕ → PackageOption
  with_id : Text → PackageOption

abbrev pub option_of : PackageOption → DispatchOption
option_of (delay d) (j, old) = (j, d)
option_of (with_id s) (j, d) = (record j { id = s }, d)

abbrev pub options_of : List PackageOption → List DispatchOption
options_of [] = []
options_of (o ∷ os) = option_of o ∷ options_of os

-- `job.meta(k, id)`, where the id is not "".
abbrev pub with_meta : Text → Text → Job → Job
with_meta k id j = if is_empty id then j else record j { metadata = put k id j.metadata }

pub data Dispatched : Type 0 where
  unknown_job encode_failed : Dispatched
  enqueue : Job → (delay : ℕ) → Dispatched

abbrev limit_of : Option Registration → ℕ
limit_of none = 0
limit_of (some r) = r.max_attempts

abbrev pub no_handlers : List (Text × Registration) → Bool
no_handlers [] = true
no_handlers (h ∷ hs) = false

abbrev is_known : Option Registration → Bool
is_known none = false
is_known (some r) = true

-- What a call of `Dispatch` draws from outside: the time, the random id, the ids of its context.
pub record Origin : Type 0 where
  pub now : ℕ
  pub id : Text
  pub request_id : Text
  pub trace_id : Text

unfoldable pub new_job : Origin → Text → Text → Option Registration → Job
new_job o name raw reg = with_meta (text "trace_id") o.trace_id (
    with_meta (text "request_id") o.request_id (record {
      id = o.id;
      name = name;
      payload = raw;
      attempt = 1;
      max_attempts = limit_of reg;
      enqueued_at = o.now;
      metadata = [];
    }))

abbrev pub enqueue_with : Job × ℕ → Dispatched
enqueue_with (j, d) = enqueue j d

-- `Dispatch`, up to the call of the queue's `Enqueue`; `raw` is the encoded payload.
unfoldable pub dispatch : Origin → Text → Option Text → List DispatchOption → Manager → Dispatched
dispatch o name raw opts m =
    if not (no_handlers m.handlers) && not (is_known (get name m.handlers))
    then unknown_job
    else elim raw [
      | none ↦ encode_failed
      | some p ↦ enqueue_with (apply_dispatch opts (new_job o name p (get name m.handlers), 0))
    ]

-- `Start`; `false` is the error for a manager that is running.
abbrev launch : Workers → Manager → Manager
launch dispatch_only m = record m { running = true }
launch (workers n) m = record m { running = true; receiving = true; active = n }

unfoldable pub start : Manager → Manager × Bool
start m = if m.running then (m, false) else (launch m.opts.workers m, true)

-- `Stop`; it waits for the workers, so none is active when it returns.
unfoldable pub stop : Manager → Manager
stop m =
    if m.running
    then (if m.receiving
        then record m { running = false; active = 0 }
        else record m { running = false })
    else m

-- How a handler ends. A panic is recovered, as an error that is not permanent.
pub data Outcome : Type 0 where
  success : Outcome
  failure : (permanent : Bool) → Outcome
  panic : Outcome

abbrev pub safe_handle : Outcome → Option Bool
safe_handle success = none
safe_handle (failure permanent) = some permanent
safe_handle panic = some false

-- The call that `process` makes on the delivery; `reject true` is followed by `OnFailure`.
pub data Verdict : Type 0 where
  ack : Verdict
  retry : (delay : ℕ) → Verdict
  reject : (on_failure : Bool) → Verdict

abbrev pub attempts_of : Job → Registration → ℕ
attempts_of j r = or_default r.max_attempts j.max_attempts

abbrev pub verdict_of : (ℕ → ℕ) → Job → Registration → Option Bool → Verdict
verdict_of backoff j r none = ack
verdict_of backoff j r (some permanent) =
    if not permanent && ltb j.attempt (attempts_of j r)
    then retry (backoff j.attempt)
    else reject true

-- `process`; `run` is what the handler with its middleware does with the job.
unfoldable pub process : (ℕ → Job → Outcome) → Manager → Job → Verdict
process run m j = elim (get j.name m.handlers) [
  | none ↦ reject false
  | some r ↦ verdict_of m.opts.backoff j r (safe_handle (run r.handler j))
]
