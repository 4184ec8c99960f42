-- ===== src/Jobs/Tests.antt =====
-- Runs of the manager on a small program, and the theorems of this component applied to them.
use torge.Base.{
  Bool, ◌%◌, List, if◌then◌else◌, ◌==◌, ℕ, ◌+◌, ◌-◌, ◌*◌, ◌/◌, ◌^◌, ◌≤◌, ◌≡◌, refl, true, false, [],
  ◌∷◌, none, some, arith, min,
}
use torge.Base.Text.{Text, text, text_eq}
use torge.Base.Assoc.{get, put}
use torge.Jobs.Manager.{
  Job, Registration, Manager, Outcome, success, failure, panic, reject, ack, workers, new_manager,
  register, max_attempts, already_registered, while_running, start, process, enqueue, delay,
  options_of, Origin, dispatch,
}
use torge.Jobs.Queue.{
  MemoryQueue, new_memory_queue, Event, enqueue_job, fire, send, give_up, cancel, receive, close,
  take_out, close_queue, step, run_events, Effect,
}
use torge.Jobs.Queue
use torge.Jobs.Queue.Balance.{count, held, run_events-held}
use torge.Jobs.Queue.Order.{Ordered, run_events-Ordered}
use torge.Jobs.Backoff.{exponential_backoff, exponential_backoff_range, doubled}
use torge.Base.Int.{pos}
use torge.Jobs.Attempts.{life, life-Ended, life-AlwaysFails, Ended, left_of, dispatch-life}

program : Unit {0}
unfolding life process register new_manager get put start text_eq exponential_backoff doubled
program = tt

abbrev base : Manager
base = new_manager 8 (λ k. k * 1000) (workers 2) 0 0 none

abbrev email : Text
email = text "send-email"

abbrev manager : Manager
manager = (register email (some 7) (max_attempts 4 ∷ []) base).0

abbrev origin : Origin
origin = record { now = 50; id = text "X1"; request_id = text "r-1"; trace_id = [] }

-- Each delivery fails.
abbrev flaky : ℕ → Job → Outcome
flaky h j = failure false

-- The third delivery succeeds.
abbrev third : ℕ → Job → Outcome
third h j = if j.attempt == 3 then success else panic

abbrev the_job : Job
the_job = record {
  id = text "X1";
  name = email;
  payload = text "{}";
  attempt = 1;
  max_attempts = 4;
  enqueued_at = 50;
  metadata = [];
}

abbrev registration : Registration
registration = record { handler = 7; max_attempts = 4; timeout = 300000000000 }

-- The second registration of a name, one while running, and a start twice.
registered_twice : (register email (some 9) [] manager).1 ≡ some already_registered
unfolding program
registered_twice = refl

registered_running : (register (text "x") (some 9) [] (start manager).0).1 ≡ some while_running
unfolding program
registered_running = refl

started_twice : (start (start manager).0).1 ≡ false
unfolding program
started_twice = refl

third_succeeds : life 9 third manager the_job ≡ some (3, ack)
unfolding program
third_succeeds = refl

permanent_once : life 9 (λ h j. failure true) manager the_job ≡ some (1, reject true)
unfolding program
permanent_once = refl

registered : get email manager.handlers ≡ some registration
unfolding program
registered = refl

exponential_backoff_range_example :
    (v : ℕ) × (exponential_backoff (λ n. n / 2) (pos 1000) (pos 300000) 4 ≡ some (pos v))
    × (min (1000 * 2 ^ 3) 300000 ≤ v)
    × (v ≤ min (1000 * 2 ^ 3) 300000 + min (1000 * 2 ^ 3) 300000 / 5)
exponential_backoff_range_example =
    exponential_backoff_range (λ n. n / 2) 1000 300000 4 (omega arith) (λ n. omega arith)

-- A second, doubled without an effective cap, is negative at the 35th attempt.
no_cap : exponential_backoff (λ n. 0) (pos 1000000000) (pos (2 ^ 63 - 1)) 35 ≡ none
unfolding program
no_cap = refl

life-Ended_example : Ended (life 4 third manager the_job) (left_of the_job registration + 1)
life-Ended_example = life-Ended 4 third manager the_job registration registered (omega arith)

life-AlwaysFails_example : life 4 flaky manager the_job ≡ some (4, reject true)
life-AlwaysFails_example =
    life-AlwaysFails 4 flaky manager the_job registration registered (λ k. refl) (omega arith)

dispatch-life_example :
    (j : Job) × (d : ℕ) × (dispatch origin email
        (some (text "{}"))
        (options_of (delay 9 ∷ []))
        manager
      ≡ enqueue j d)
    × (j.payload ≡ text "{}")
    × (life 4 flaky manager j ≡ some (4, reject true))
dispatch-life_example =
    dispatch-life origin email (text "{}") (delay 9 ∷ []) manager registration flaky registered
      (omega arith) (λ k. refl)

abbrev the_queue : MemoryQueue
the_queue = new_memory_queue 2

abbrev job_of : ℕ → Job
job_of n = record the_job { attempt = n }

-- A delayed job overtaken by a later one, a job that is too late, and one whose timer is stopped.
abbrev events : List Event
events =
    Queue.enqueue (job_of 1) 50
    ∷ Queue.enqueue (job_of 2) 0
    ∷ send 0
    ∷ fire 0
    ∷ send 0
    ∷ receive
    ∷ Queue.enqueue (job_of 3) 9
    ∷ close
    ∷ Queue.enqueue (job_of 4) 0
    ∷ receive
    ∷ []

queue_program : Unit {0}
unfolding run_events step enqueue_job take_out close_queue
queue_program = tt

abbrev after_events : MemoryQueue
after_events = record the_queue { closed = true }

abbrev effect : Effect
effect = record {
  accepted = job_of 1 ∷ job_of 2 ∷ job_of 3 ∷ [];
  refused = job_of 4 ∷ [];
  sent = job_of 2 ∷ job_of 1 ∷ [];
  delivered = job_of 2 ∷ job_of 1 ∷ [];
  dropped = job_of 3 ∷ [];
}

events_run : run_events events the_queue ≡ some (after_events, effect)
unfolding queue_program
events_run = refl

abbrev even_attempt : Job → Bool
even_attempt j = j.attempt % 2 == 0

run_events-held_example :
    held even_attempt the_queue + count even_attempt effect.accepted
    ≡ held even_attempt after_events
      + count even_attempt effect.delivered
      + count even_attempt effect.dropped
run_events-held_example =
    run_events-held even_attempt events the_queue after_events effect events_run

run_events-Ordered_example : Ordered the_queue effect after_events
run_events-Ordered_example = run_events-Ordered events the_queue after_events effect events_run
