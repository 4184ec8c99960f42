-- ===== src/Jobs/Queue/Order.antt =====
-- jobs/memory.go: the order of the jobs in the channel, its bound, and what `Close` ends.
use mathlib.Core.Path.{subst}
use torge.Base.{
  if_all, ℕ, zero, suc, ◌≤◌, ◌≡◌, ◌≢◌, refl, sym, ◌∙◌, ap, Bool, true, false, List, [], ◌∷◌, ◌++◌,
  Option, none, some, arith, length, length-append, ltb, ltb→lt,
}
use torge.Jobs.Manager.{Job}
use torge.Jobs.Attempts.{next_attempt}
use torge.Jobs.Queue.{
  Sender, caller, timer, MemoryQueue, Event, enqueue, retry, fire, send, give_up, cancel, receive,
  close, reject, Effect, no_effect, take_out, enqueue_job, close_queue, step, fired, send_to, leave,
  cancel_at, received, then_effect, after_effect, run_events,
}

module _ {ℓ} {A : Type ℓ} where
  append_nil : (xs : List A) → xs ++ [] ≡ xs
  append_nil [] = refl
  append_nil (x ∷ xs) = ap (λ ys. x ∷ ys) (append_nil xs)

  append_assoc : (xs ys zs : List A) → (xs ++ ys) ++ zs ≡ xs ++ (ys ++ zs)
  append_assoc [] ys zs = refl
  append_assoc (x ∷ xs) ys zs = ap (λ us. x ∷ us) (append_assoc xs ys zs)

-- The channel holds no more than its capacity, and a closed queue has no timer.
pub record QueueOk (q : MemoryQueue) : Type 0 where
  pub bounded : length q.ch ≤ q.capacity
  pub no_timers : q.closed ≡ true → q.timers ≡ []

-- What holds of an event from `q` to `r` with the effect `f`, and of a sequence of events.
pub record Ordered (q : MemoryQueue) (f : Effect) (r : MemoryQueue) : Type 0 where
  pub fifo : q.ch ++ f.sent ≡ f.delivered ++ r.ch
  pub keeps : QueueOk q → QueueOk r
  pub ends : q.closed ≡ true → (f.accepted ≡ []) × (r.closed ≡ true)

abbrev AllOrdered : MemoryQueue → Option (MemoryQueue × Effect) → Type 0
AllOrdered q none = Unit
AllOrdered q (some (r, f)) = Ordered q f r

-- An event that leaves the channel, the timers and the flag alone.
same_channel :
    (q r : MemoryQueue) (f : Effect)
    → r.ch ≡ q.ch
    → r.capacity ≡ q.capacity
    → r.closed ≡ q.closed
    → (q.timers ≡ [] → r.timers ≡ [])
    → f.sent ≡ []
    → f.delivered ≡ []
    → (q.closed ≡ true → f.accepted ≡ [])
    → Ordered q f r
same_channel q r f c n b t s d a = record {
  fifo = ap (λ x. q.ch ++ x) s ∙ append_nil q.ch ∙ sym c ∙ ap (λ x. x ++ r.ch) (sym d);
  keeps = λ h. record {
    bounded =
        subst (λ x. x ≤ r.capacity) (ap length (sym c))
          (subst (λ x. length q.ch ≤ x) (sym n) h.bounded);
    no_timers = λ e. t (h.no_timers (sym b ∙ e));
  };
  ends = λ e. (a e, b ∙ e);
}

-- A claim about an open queue's event.
open_only {ℓ} : {A : Type ℓ} (b : Bool) → b ≡ false → b ≡ true → A
open_only b e f = absurd (ground (arith, e, f))

-- `Ordered`, of a pair.
abbrev OrderedPair : MemoryQueue → MemoryQueue × Effect → Type 0
OrderedPair q (r, f) = Ordered q f r

enqueue_job-Ordered : (j : Job) (d : ℕ) (q : MemoryQueue) → OrderedPair q (enqueue_job j d q)
unfolding enqueue_job
enqueue_job-Ordered j d q =
    if_all (OrderedPair q) q.closed
      (λ b. same_channel q _ _ refl refl refl (λ t. t) refl refl (λ e. refl))
      (λ b.
        if_all (OrderedPair q) (ltb 0 d)
          (λ c. record {
            fifo = append_nil q.ch;
            keeps = λ h. record { bounded = h.bounded; no_timers = open_only q.closed b };
            ends = open_only q.closed b;
          })
          (λ c. same_channel q _ _ refl refl refl (λ t. t) refl refl (open_only q.closed b)))

module _ {ℓ} {A : Type ℓ} where
  -- Something was taken out of the list.
  abbrev SomeOf : List A → Option (A × List A) → Type ℓ
  SomeOf xs none = Unit
  SomeOf xs (some o) = xs ≢ []

  take_out-SomeOf : (i : ℕ) (xs : List A) → SomeOf xs (take_out i xs)
  unfolding take_out
  take_out-SomeOf i [] = tt
  take_out-SomeOf zero (x ∷ xs) = λ e. absurd (ground (arith, e))
  take_out-SomeOf (suc i) (x ∷ xs) = go (take_out i xs)
    where
      go :
          (o : Option (A × List A))
          → SomeOf (x ∷ xs) (elim o [ none ↦ none | some (y, ys) ↦ some (y, x ∷ ys) ])
      go none = tt
      go (some (y, ys)) = λ e. absurd (ground (arith, e))

fired-AllOrdered :
    (q : MemoryQueue) (o : Option (Job × List Job)) → SomeOf q.timers o → AllOrdered q (fired q o)
fired-AllOrdered q none h = tt
fired-AllOrdered q (some (j, ts)) h =
    if_all (AllOrdered q) q.closed
      (λ b. same_channel q _ _ refl refl refl (λ t. absurd (h t)) refl refl (λ e. refl))
      (λ b. same_channel q _ _ refl refl refl (λ t. absurd (h t)) refl refl (λ e. refl))

send_to-AllOrdered :
    (q : MemoryQueue) (o : Option ((Sender × Job) × List (Sender × Job)))
    → AllOrdered q (send_to q o)
send_to-AllOrdered q none = tt
send_to-AllOrdered q (some ((s, j), ss)) =
    if_all (AllOrdered q) (ltb (length q.ch) q.capacity)
      (λ b. record {
        fifo = refl;
        keeps = λ h. record {
          bounded = omega (arith, length-append q.ch (j ∷ []), ltb→lt (length q.ch) q.capacity b);
          no_timers = h.no_timers;
        };
        ends = λ e. (refl, e);
      })
      (λ b. tt)

leave-AllOrdered :
    (q : MemoryQueue) (o : Option ((Sender × Job) × List (Sender × Job))) → AllOrdered q (leave q o)
leave-AllOrdered q none = tt
leave-AllOrdered q (some ((s, j), ss)) =
    if_all (AllOrdered q) q.closed
      (λ b. same_channel q _ _ refl refl refl (λ t. t) refl refl (λ e. refl)) (λ b. tt)

cancel_at-AllOrdered :
    (q : MemoryQueue) (o : Option ((Sender × Job) × List (Sender × Job)))
    → AllOrdered q (cancel_at q o)
cancel_at-AllOrdered q none = tt
cancel_at-AllOrdered q (some ((caller, j), ss)) =
    same_channel q _ _ refl refl refl (λ t. t) refl refl (λ e. refl)
cancel_at-AllOrdered q (some ((timer, j), ss)) = tt

received-AllOrdered : (q : MemoryQueue) (js : List Job) → q.ch ≡ js → AllOrdered q (received q js)
received-AllOrdered q [] e = tt
received-AllOrdered q (j ∷ js) e = record {
  fifo = append_nil q.ch ∙ e;
  keeps = λ h. record {
    bounded = let l = ap length e in omega (arith, l, h.bounded);
    no_timers = h.no_timers;
  };
  ends = λ c. (refl, c);
}

close_queue-Ordered : (q : MemoryQueue) → OrderedPair q (close_queue q)
unfolding close_queue
close_queue-Ordered q =
    if_all (OrderedPair q) q.closed
      (λ b. same_channel q _ _ refl refl refl (λ t. t) refl refl (λ e. refl))
      (λ b. record {
        fifo = append_nil q.ch;
        keeps = λ h. record { bounded = h.bounded; no_timers = λ e. refl };
        ends = λ e. (refl, refl);
      })

step-AllOrdered : (e : Event) (q : MemoryQueue) → AllOrdered q (step e q)
unfolding step
step-AllOrdered (enqueue j d) q = enqueue_job-Ordered j d q
step-AllOrdered (retry j d) q = enqueue_job-Ordered (next_attempt j) d q
step-AllOrdered (fire i) q = fired-AllOrdered q _ (take_out-SomeOf i q.timers)
step-AllOrdered (send i) q = send_to-AllOrdered q (take_out i q.sending)
step-AllOrdered (give_up i) q = leave-AllOrdered q (take_out i q.sending)
step-AllOrdered (cancel i) q = cancel_at-AllOrdered q (take_out i q.sending)
step-AllOrdered receive q = received-AllOrdered q q.ch refl
step-AllOrdered close q = close_queue-Ordered q
step-AllOrdered (reject j) q = same_channel q _ _ refl refl refl (λ t. t) refl refl (λ e. refl)

then_effect-Ordered :
    (q r t : MemoryQueue) (f g : Effect)
    → Ordered q f r
    → Ordered r g t
    → Ordered q (then_effect f g) t
then_effect-Ordered q r t f g h k = record {
  fifo =
      sym (append_assoc q.ch f.sent g.sent)
      ∙ ap (λ x. x ++ g.sent) h.fifo
      ∙ append_assoc f.delivered r.ch g.sent
      ∙ ap (λ x. f.delivered ++ x) k.fifo
      ∙ sym (append_assoc f.delivered g.delivered t.ch);
  keeps = λ ok. k.keeps (h.keeps ok);
  ends =
      λ c. let (a, b) = h.ends c in let (d, e) = k.ends b in (ap (λ x. x ++ g.accepted) a ∙ d, e);
}

after_effect-AllOrdered :
    (q r : MemoryQueue) (f : Effect) (o : Option (MemoryQueue × Effect))
    → Ordered q f r
    → AllOrdered r o
    → AllOrdered q (after_effect f o)
after_effect-AllOrdered q r f none h k = tt
after_effect-AllOrdered q r f (some (t, g)) h k = then_effect-Ordered q r t f g h k

run_events-AllOrdered : (es : List Event) (q : MemoryQueue) → AllOrdered q (run_events es q)
unfolding run_events
run_events-AllOrdered [] q =
    same_channel q q no_effect refl refl refl (λ t. t) refl refl (λ e. refl)
run_events-AllOrdered (e ∷ es) q = go (step e q) (step-AllOrdered e q) (run_events-AllOrdered es)
  where
    go :
        (o : Option (MemoryQueue × Effect))
        → AllOrdered q o
        → ((r : MemoryQueue) → AllOrdered r (run_events es r))
        → AllOrdered q (elim o [ none ↦ none | some (r, f) ↦ after_effect f (run_events es r) ])
    go none h rest = tt
    go (some (r, f)) h rest = after_effect-AllOrdered q r f _ h (rest r)

-- In every interleaving the jobs are delivered in the order in which they were sent, after those
-- that were in the channel before; the channel's bound and the absence of timers after `Close` are
-- kept; and a closed queue accepts no job and stays closed.
pub run_events-Ordered :
    (es : List Event) (q r : MemoryQueue) (f : Effect)
    → run_events es q ≡ some (r, f)
    → Ordered q f r
run_events-Ordered es q r f e = subst (AllOrdered q) e (run_events-AllOrdered es q)
