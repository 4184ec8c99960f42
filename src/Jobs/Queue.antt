-- ===== src/Jobs/Queue.antt =====
-- jobs/memory.go: `MemoryQueue`. What the queue's callers, its timers and its receivers do is a
-- sequence of events, each one atomic: a section under the lock or one branch of a select. A caller
-- or a timer that waits in `q.ch <- job` stands in `sending`.
pub mod Balance
pub mod Order
use torge.Base.{
  ℕ, zero, suc, ◌+◌, Bool, true, false, List, [], ◌∷◌, ◌++◌, Option, none, some, length, ltb,
  if◌then◌else◌,
}
use torge.Jobs.Manager.{Job}
use torge.Jobs.Attempts.{next_attempt}

-- Who waits in the select: `Enqueue` also waits for its context, a timer does not.
pub data Sender : Type 0 where
  caller timer : Sender

pub record MemoryQueue : Type 0 where
  pub capacity : ℕ
  -- the buffer of the channel, the next job first
  pub ch : List Job
  pub timers : List Job
  pub sending : List (Sender × Job)
  pub closed : Bool
  pub failed : List Job

-- `NewMemoryQueue`; a capacity that is not positive is 0.
abbrev pub new_memory_queue : ℕ → MemoryQueue
new_memory_queue n = record {
  capacity = if ltb 0 n then n else 1024;
  ch = [];
  timers = [];
  sending = [];
  closed = false;
  failed = [];
}

-- `enqueue`: the section of `Enqueue` under the lock. `fire i`: the callback of the timer i takes
-- the lock. `send i`: the sender i puts its job into the channel. `give_up i`: the sender i leaves
-- by `done`. `cancel i`: it leaves since its context is done. `receive`: the branch of `Receive`
-- that takes a job. `retry` and `reject` are those of a delivery.
pub data Event : Type 0 where
  enqueue retry : Job → (delay : ℕ) → Event
  fire send give_up cancel : ℕ → Event
  receive close : Event
  reject : Job → Event

-- What an event does with jobs: those accepted by `Enqueue` or refused by it, sent to the channel,
-- delivered from it, and dropped by a stopped timer, a sender or a callback after `Close`.
pub record Effect : Type 0 where
  pub accepted : List Job
  pub refused : List Job
  pub sent : List Job
  pub delivered : List Job
  pub dropped : List Job

abbrev pub no_effect : Effect
no_effect = record { accepted = []; refused = []; sent = []; delivered = []; dropped = [] }

-- The element at an index and the others.
unfoldable pub take_out {ℓ} : {A : Type ℓ} → ℕ → List A → Option (A × List A)
take_out i [] = none
take_out zero (x ∷ xs) = some (x, xs)
take_out (suc i) (x ∷ xs) = elim (take_out i xs) [ none ↦ none | some (y, ys) ↦ some (y, x ∷ ys) ]

-- `Enqueue` up to the select.
unfoldable pub enqueue_job : Job → ℕ → MemoryQueue → MemoryQueue × Effect
enqueue_job j delay q =
    if q.closed
    then (q, record no_effect { refused = j ∷ [] })
    else if ltb 0 delay
    then (record q { timers = j ∷ q.timers }, record no_effect { accepted = j ∷ [] })
    else (
      record q { sending = q.sending ++ (caller, j) ∷ [] },
      record no_effect { accepted = j ∷ [] },
    )

abbrev pub fired : MemoryQueue → Option (Job × List Job) → Option (MemoryQueue × Effect)
fired q none = none
fired q (some (j, ts)) =
    if q.closed
    then some (record q { timers = ts }, record no_effect { dropped = j ∷ [] })
    else some (record q { timers = ts; sending = q.sending ++ (timer, j) ∷ [] }, no_effect)

abbrev pub send_to :
    MemoryQueue → Option ((Sender × Job) × List (Sender × Job)) → Option (MemoryQueue × Effect)
send_to q none = none
send_to q (some ((s, j), ss)) =
    if ltb (length q.ch) q.capacity
    then some (record q { ch = q.ch ++ j ∷ []; sending = ss }, record no_effect { sent = j ∷ [] })
    else none

abbrev pub leave :
    MemoryQueue → Option ((Sender × Job) × List (Sender × Job)) → Option (MemoryQueue × Effect)
leave q none = none
leave q (some ((s, j), ss)) =
    if q.closed
    then some (record q { sending = ss }, record no_effect { dropped = j ∷ [] })
    else none

abbrev pub cancel_at :
    MemoryQueue → Option ((Sender × Job) × List (Sender × Job)) → Option (MemoryQueue × Effect)
cancel_at q none = none
cancel_at q (some ((caller, j), ss)) =
    some (record q { sending = ss }, record no_effect { dropped = j ∷ [] })
cancel_at q (some ((timer, j), ss)) = none

abbrev pub received : MemoryQueue → List Job → Option (MemoryQueue × Effect)
received q [] = none
received q (j ∷ js) = some (record q { ch = js }, record no_effect { delivered = j ∷ [] })

unfoldable pub close_queue : MemoryQueue → MemoryQueue × Effect
close_queue q =
    if q.closed
    then (q, no_effect)
    else (record q { closed = true; timers = [] }, record no_effect { dropped = q.timers })

-- One event; `none` where it cannot happen in this state.
unfoldable pub step : Event → MemoryQueue → Option (MemoryQueue × Effect)
unfolding enqueue_job close_queue
step (enqueue j d) q = some (enqueue_job j d q)
step (retry j d) q = some (enqueue_job (next_attempt j) d q)
step (fire i) q = fired q (take_out i q.timers)
step (send i) q = send_to q (take_out i q.sending)
step (give_up i) q = leave q (take_out i q.sending)
step (cancel i) q = cancel_at q (take_out i q.sending)
step receive q = received q q.ch
step close q = some (close_queue q)
step (reject j) q = some (record q { failed = q.failed ++ j ∷ [] }, no_effect)

-- The effects of one event and of those after it.
abbrev pub then_effect : Effect → Effect → Effect
then_effect f g = record {
  accepted = f.accepted ++ g.accepted;
  refused = f.refused ++ g.refused;
  sent = f.sent ++ g.sent;
  delivered = f.delivered ++ g.delivered;
  dropped = f.dropped ++ g.dropped;
}

abbrev pub after_effect : Effect → Option (MemoryQueue × Effect) → Option (MemoryQueue × Effect)
after_effect f none = none
after_effect f (some (q, g)) = some (q, then_effect f g)

-- An interleaving of events; `none` where one of them cannot happen.
unfoldable pub run_events : List Event → MemoryQueue → Option (MemoryQueue × Effect)
run_events [] q = some (q, no_effect)
run_events (e ∷ es) q = elim (step e q) [
  | none ↦ none
  | some (r, f) ↦ after_effect f (run_events es r)
]
