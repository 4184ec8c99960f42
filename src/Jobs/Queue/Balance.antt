-- ===== src/Jobs/Queue/Balance.antt =====
-- jobs/memory.go: what becomes of the jobs that the queue takes.
use mathlib.Core.Path.{subst}
use torge.Base.{
  ℕ, zero, suc, ◌+◌, ◌≡◌, refl, ap, Bool, List, [], ◌∷◌, ◌++◌, Option, none, some, arith,
  if◌then◌else◌,
}
use torge.Jobs.Manager.{Job}
use torge.Jobs.Attempts.{next_attempt}
use torge.Jobs.Queue.{
  Sender, caller, timer, MemoryQueue, Event, enqueue, retry, fire, send, give_up, cancel, receive,
  close, reject, Effect, take_out, enqueue_job, close_queue, step, fired, send_to, leave, cancel_at,
  received, after_effect, run_events,
}

module _ {ℓ} {A : Type ℓ} where
  -- How many elements pass a test.
  unfoldable pub count : (A → Bool) → List A → ℕ
  count p [] = 0
  count p (x ∷ xs) = let n = count p xs in if p x then suc n else n

  pub count-append : (p : A → Bool) (xs ys : List A) → count p (xs ++ ys) ≡ count p xs + count p ys
  unfolding count
  count-append p [] ys = omega arith
  count-append p (x ∷ xs) ys = ground (arith, count-append p xs ys)

  -- An element taken out of a list and the others are the elements of the list.
  abbrev pub Splits : (A → Bool) → List A → Option (A × List A) → Type 0
  Splits p xs none = Unit
  Splits p xs (some (y, ys)) = count p xs ≡ count p (y ∷ ys)

  pub take_out-Splits : (p : A → Bool) (i : ℕ) (xs : List A) → Splits p xs (take_out i xs)
  unfolding count take_out
  take_out-Splits p i [] = tt
  take_out-Splits p zero (x ∷ xs) = refl
  take_out-Splits p (suc i) (x ∷ xs) = go (take_out i xs) (take_out-Splits p i xs)
    where
      go :
          (o : Option (A × List A))
          → Splits p xs o
          → Splits p (x ∷ xs) (elim o [ none ↦ none | some (y, ys) ↦ some (y, x ∷ ys) ])
      go none h = tt
      go (some (y, ys)) h = ground (arith, h)

-- The jobs that the queue holds and that pass a test: by a timer, by a sender, in the channel.
abbrev pub held : (Job → Bool) → MemoryQueue → ℕ
held p q = count p q.timers + count (λ s. p s.1) q.sending + count p q.ch

-- A job comes in by an accepted `Enqueue`, and leaves by a delivery or as dropped.
abbrev Balanced : (Job → Bool) → MemoryQueue → Effect → MemoryQueue → Type 0
Balanced p q f r =
    held p q + count p f.accepted ≡ held p r + count p f.delivered + count p f.dropped

enqueue_job-Balanced :
    (p : Job → Bool) (j : Job) (d : ℕ) (q : MemoryQueue)
    → Balanced p q (enqueue_job j d q).1 (enqueue_job j d q).0
unfolding enqueue_job count
enqueue_job-Balanced p j d q =
    ground (arith, count-append (λ s. p s.1) q.sending ((caller, j) ∷ []))

-- The event can happen and is balanced, or it cannot happen.
abbrev AllBalanced : (Job → Bool) → MemoryQueue → Option (MemoryQueue × Effect) → Type 0
AllBalanced p q none = Unit
AllBalanced p q (some (r, f)) = Balanced p q f r

fired-Balanced :
    (p : Job → Bool) (q : MemoryQueue) (o : Option (Job × List Job))
    → Splits p q.timers o
    → AllBalanced p q (fired q o)
unfolding count
fired-Balanced p q none h = tt
fired-Balanced p q (some (j, ts)) h =
    let a = count-append (λ s. p s.1) q.sending ((timer, j) ∷ []) in ground (arith, a, h)

send_to-Balanced :
    (p : Job → Bool) (q : MemoryQueue) (o : Option ((Sender × Job) × List (Sender × Job)))
    → Splits (λ s. p s.1) q.sending o
    → AllBalanced p q (send_to q o)
unfolding count
send_to-Balanced p q none h = tt
send_to-Balanced p q (some ((s, j), ss)) h =
    let a = count-append p q.ch (j ∷ []) in ground (arith, a, h)

leave-Balanced :
    (p : Job → Bool) (q : MemoryQueue) (o : Option ((Sender × Job) × List (Sender × Job)))
    → Splits (λ s. p s.1) q.sending o
    → AllBalanced p q (leave q o)
unfolding count
leave-Balanced p q none h = tt
leave-Balanced p q (some ((s, j), ss)) h = ground (arith, h)

cancel_at-Balanced :
    (p : Job → Bool) (q : MemoryQueue) (o : Option ((Sender × Job) × List (Sender × Job)))
    → Splits (λ s. p s.1) q.sending o
    → AllBalanced p q (cancel_at q o)
unfolding count
cancel_at-Balanced p q none h = tt
cancel_at-Balanced p q (some ((caller, j), ss)) h = ground (arith, h)
cancel_at-Balanced p q (some ((timer, j), ss)) h = tt

received-Balanced :
    (p : Job → Bool) (q : MemoryQueue) (js : List Job) → q.ch ≡ js → AllBalanced p q (received q js)
unfolding count
received-Balanced p q [] h = tt
received-Balanced p q (j ∷ js) h = let a = ap (count p) h in ground (arith, a)

close_queue-Balanced :
    (p : Job → Bool) (q : MemoryQueue) → Balanced p q (close_queue q).1 (close_queue q).0
unfolding close_queue count
close_queue-Balanced p q = ground arith

step-Balanced : (p : Job → Bool) (e : Event) (q : MemoryQueue) → AllBalanced p q (step e q)
unfolding step count
step-Balanced p (enqueue j d) q = enqueue_job-Balanced p j d q
step-Balanced p (retry j d) q = enqueue_job-Balanced p (next_attempt j) d q
step-Balanced p (fire i) q = fired-Balanced p q _ (take_out-Splits p i q.timers)
step-Balanced p (send i) q = send_to-Balanced p q _ (take_out-Splits (λ s. p s.1) i q.sending)
step-Balanced p (give_up i) q = leave-Balanced p q _ (take_out-Splits (λ s. p s.1) i q.sending)
step-Balanced p (cancel i) q = cancel_at-Balanced p q _ (take_out-Splits (λ s. p s.1) i q.sending)
step-Balanced p receive q = received-Balanced p q q.ch refl
step-Balanced p close q = close_queue-Balanced p q
step-Balanced p (reject j) q = omega arith

after_effect-Balanced :
    (p : Job → Bool) (q r : MemoryQueue) (f : Effect) (o : Option (MemoryQueue × Effect))
    → Balanced p q f r
    → AllBalanced p r o
    → AllBalanced p q (after_effect f o)
after_effect-Balanced p q r f none h k = tt
after_effect-Balanced p q r f (some (t, g)) h k =
    let a = count-append p f.accepted g.accepted in
    let b = count-append p f.delivered g.delivered in
    let c = count-append p f.dropped g.dropped in omega (arith, a, b, c)

run_events-AllBalanced :
    (p : Job → Bool) (es : List Event) (q : MemoryQueue) → AllBalanced p q (run_events es q)
unfolding run_events count
run_events-AllBalanced p [] q = omega arith
run_events-AllBalanced p (e ∷ es) q =
    go (step e q) (step-Balanced p e q) (run_events-AllBalanced p es)
  where
    go :
        (o : Option (MemoryQueue × Effect))
        → AllBalanced p q o
        → ((r : MemoryQueue) → AllBalanced p r (run_events es r))
        → AllBalanced p q (elim o [ none ↦ none | some (r, f) ↦ after_effect f (run_events es r) ])
    go none h rest = tt
    go (some (r, f)) h rest = after_effect-Balanced p q r f _ h (rest r)

-- In every interleaving no job is lost and none is doubled: of the jobs that pass any test, those
-- held before and those accepted are as many as those held after, those delivered and those
-- dropped.
pub run_events-held :
    (p : Job → Bool) (es : List Event) (q r : MemoryQueue) (f : Effect)
    → run_events es q ≡ some (r, f)
    → held p q + count p f.accepted ≡ held p r + count p f.delivered + count p f.dropped
run_events-held p es q r f e = subst (AllBalanced p q) e (run_events-AllBalanced p es q)
