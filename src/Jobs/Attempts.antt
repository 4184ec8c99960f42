-- ===== src/Jobs/Attempts.antt =====
-- The deliveries of one job: `process` (jobs/jobs.go) with the redelivery of `Retry`
-- (jobs/memory.go), until the manager acknowledges or rejects it.
use torge.Base.{
  ℕ, zero, suc, ◌+◌, ◌-◌, ◌≤◌, ◌<◌, ◌≡◌, ◌≢◌, refl, ◌∙◌, ap, ◌⊎◌, inl, inr, Bool, true, false, List,
  [], ◌∷◌, Option, none, some, arith, ltb, lt→ltb, ltb→lt, Bool-cases, if◌then◌else◌,
}
use torge.Base.Text.{Text, text}
use torge.Base.Assoc.{get}
use torge.Jobs.Manager.{
  Job, Registration, Manager, Outcome, safe_handle, Verdict, ack, retry, reject, attempts_of,
  or_default, verdict_of, process, enqueue, enqueue_with, DispatchOption, PackageOption, options_of,
  delay, with_id, Origin, new_job, dispatch, apply_dispatch, no_handlers, with_meta,
}

-- The copy of the job that `Retry` enqueues.
abbrev pub next_attempt : Job → Job
next_attempt j = record j { attempt = j.attempt + 1 }

abbrev one_more : Option (ℕ × Verdict) → Option (ℕ × Verdict)
one_more none = none
one_more (some (n, v)) = some (suc n, v)

abbrev after_verdict : Verdict → Option (ℕ × Verdict) → Option (ℕ × Verdict)
after_verdict ack rest = some (1, ack)
after_verdict (retry d) rest = one_more rest
after_verdict (reject f) rest = some (1, reject f)

-- How many deliveries the job has and how the last one ends, by fuel.
unfoldable pub life : ℕ → (ℕ → Job → Outcome) → Manager → Job → Option (ℕ × Verdict)
life zero run m j = none
life (suc fuel) run m j =
    let rest = life fuel run m (next_attempt j) in after_verdict (process run m j) rest

-- The job is not redelivered after this verdict.
abbrev pub Final : Verdict → Type 0
Final v = (d : ℕ) → v ≢ retry d

process-verdict_of :
    (run : ℕ → Job → Outcome) (m : Manager) (j : Job) (r : Registration)
    → get j.name m.handlers ≡ some r
    → process run m j ≡ verdict_of m.opts.backoff j r (safe_handle (run r.handler j))
unfolding process
process-verdict_of run m j r known = rw (known, process) refl

-- A verdict's three forms; a retry only of a failure that is not permanent, below the limit.
verdict_of-cases :
    (backoff : ℕ → ℕ) (j : Job) (r : Registration) (e : Option Bool)
    → (Final (verdict_of backoff j r e))
      ⊎ ((j.attempt < attempts_of j r) × (verdict_of backoff j r e ≡ retry (backoff j.attempt)))
verdict_of-cases backoff j r none = inl (λ d e. ground (arith, e))
verdict_of-cases backoff j r (some true) = inl (λ d e. ground (arith, e))
verdict_of-cases backoff j r (some false) = elim (Bool-cases (ltb j.attempt (attempts_of j r))) [
  | inl b ↦ inr (ltb→lt j.attempt (attempts_of j r) b, rw b refl)
  | inr b ↦ inl (rw b (λ d e. ground (arith, e)))
]

after_verdict-Final :
    (v : Verdict) (rest : Option (ℕ × Verdict)) → Final v → after_verdict v rest ≡ some (1, v)
after_verdict-Final ack rest f = refl
after_verdict-Final (retry d) rest f = absurd (f d refl)
after_verdict-Final (reject b) rest f = refl

-- The rounds that the limit leaves to a job.
abbrev pub left_of : Job → Registration → ℕ
left_of j r = attempts_of j r - j.attempt

abbrev pub Ended : Option (ℕ × Verdict) → ℕ → Type 0
Ended o n = (k : ℕ) × (v : Verdict) × (o ≡ some (k, v)) × (k ≤ n) × Final v

Ended-one_more : (o : Option (ℕ × Verdict)) (n : ℕ) → Ended o n → Ended (one_more o) (suc n)
Ended-one_more o n (k, v, e, le, f) = (suc k, v, ap one_more e, omega arith, f)

Ended-weaken : (o : Option (ℕ × Verdict)) (n k : ℕ) → n ≤ k → Ended o n → Ended o k
Ended-weaken o n k h (i, v, e, le, f) = (i, v, e, omega arith, f)

-- With more fuel than rounds are left, a registered job's life ends: after at most the deliveries
-- that its limit allows, and with an acknowledgement or a rejection.
pub life-Ended :
    (fuel : ℕ) (run : ℕ → Job → Outcome) (m : Manager) (j : Job) (r : Registration)
    → get j.name m.handlers ≡ some r
    → left_of j r < fuel
    → Ended (life fuel run m j) (left_of j r + 1)
unfolding life
life-Ended zero run m j r known enough = absurd (omega arith)
life-Ended (suc fuel) run m j r known enough =
    elim (verdict_of-cases m.opts.backoff j r (safe_handle (run r.handler j))) [
      | inl f ↦ (
        1,
        _,
        rw (process-verdict_of run m j r known) (after_verdict-Final _ _ f),
        omega arith,
        f,
      )
      | inr (below, e) ↦
          rw (process-verdict_of run m j r known, e)
            (Ended-weaken _ _ _ (omega (arith, below))
              (Ended-one_more _ _ (life-Ended fuel run m (next_attempt j) r known (omega arith))))
    ]

-- The handler fails on every delivery, by an error that is not permanent or by a panic.
abbrev pub AlwaysFails : (ℕ → Job → Outcome) → Registration → Type 0
AlwaysFails run r = (k : Job) → safe_handle (run r.handler k) ≡ some false

process-failing :
    (run : ℕ → Job → Outcome) (m : Manager) (j : Job) (r : Registration)
    → get j.name m.handlers ≡ some r
    → AlwaysFails run r
    → process run m j
      ≡ (if ltb j.attempt (attempts_of j r) then retry (m.opts.backoff j.attempt) else reject true)
process-failing run m j r known fails = rw (process-verdict_of run m j r known, fails j) refl

last_one : (a n : ℕ) → ltb a n ≡ false → 1 ≡ n - a + 1
last_one a n b = let l = lt→ltb a n in ground arith

-- With more fuel than rounds are left, a registered job whose handler fails each time is delivered
-- until its limit is reached, no more and no less, and then rejected with the call of `OnFailure`.
pub life-AlwaysFails :
    (fuel : ℕ) (run : ℕ → Job → Outcome) (m : Manager) (j : Job) (r : Registration)
    → get j.name m.handlers ≡ some r
    → AlwaysFails run r
    → left_of j r < fuel
    → life fuel run m j ≡ some (left_of j r + 1, reject true)
unfolding life
life-AlwaysFails zero run m j r known fails enough = absurd (omega arith)
life-AlwaysFails (suc fuel) run m j r known fails enough =
    elim (Bool-cases (ltb j.attempt (attempts_of j r))) [
      | inl b ↦
          let below = ltb→lt j.attempt (attempts_of j r) b in
          rw (process-failing run m j r known fails, b)
            (ap one_more (life-AlwaysFails fuel run m (next_attempt j) r known fails (omega arith))
              ∙ ap (λ n. some (n, reject true)) (omega arith))
      | inr b ↦
          rw (process-failing run m j r known fails, b)
            (ap (λ n. some (n, reject true)) (last_one j.attempt (attempts_of j r) b))
    ]

-- The package's options change a job's id and its delay alone.
apply_dispatch-keeps :
    (os : List PackageOption) (j : Job) (d : ℕ)
    → (i : Text) × (e : ℕ) × (apply_dispatch (options_of os) (j, d) ≡ (record j { id = i }, e))
apply_dispatch-keeps [] j d = (j.id, d, refl)
apply_dispatch-keeps (delay x ∷ os) j d = apply_dispatch-keeps os j x
apply_dispatch-keeps (with_id i ∷ os) j d = apply_dispatch-keeps os (record j { id = i }) d

-- What a dispatched job carries, beside the metadata.
abbrev Carries : Job → Text → Text → ℕ → Type 0
Carries j name p n = (j.name ≡ name) × (j.payload ≡ p) × (j.attempt ≡ 1) × (j.max_attempts ≡ n)

with_meta-Carries :
    (k id name p : Text) (n : ℕ) (j : Job)
    → Carries j name p n
    → Carries (with_meta k id j) name p n
with_meta-Carries k [] name p n j c = c
with_meta-Carries k (x ∷ id) name p n j c = c

new_job-Carries :
    (o : Origin) (name p : Text) (r : Registration)
    → Carries (new_job o name p (some r)) name p r.max_attempts
unfolding new_job
new_job-Carries o name p r =
    with_meta-Carries (text "trace_id") o.trace_id name p r.max_attempts _ (
      with_meta-Carries (text "request_id") o.request_id name p r.max_attempts _
        (refl, refl, refl, refl))

dispatch-enqueue :
    (o : Origin) (name p : Text) (os : List DispatchOption) (m : Manager) (r : Registration)
    → get name m.handlers ≡ some r
    → dispatch o name (some p) os m
      ≡ enqueue_with (apply_dispatch os (new_job o name p (some r), 0))
unfolding dispatch
dispatch-enqueue o name p os m r known = elim (Bool-cases (no_handlers m.handlers)) [
  | inl b ↦ rw (known, b, dispatch) refl
  | inr b ↦ rw (known, b, dispatch) refl
]

dispatch-Carries :
    (o : Origin) (name p : Text) (os : List PackageOption) (m : Manager) (r : Registration)
    → get name m.handlers ≡ some r
    → (j : Job) × (d : ℕ) × (dispatch o name (some p) (options_of os) m ≡ enqueue j d)
      × Carries j name p r.max_attempts
dispatch-Carries o name p os m r known =
    let (i, d, e) = apply_dispatch-keeps os (new_job o name p (some r)) 0 in
    (
      _,
      d,
      dispatch-enqueue o name p (options_of os) m r known ∙ ap enqueue_with e,
      new_job-Carries o name p r,
    )

or_default-same : (n : ℕ) → or_default n n ≡ n
or_default-same zero = refl
or_default-same (suc n) = refl

all_left :
    (j : Job) (r : Registration)
    → j.attempt ≡ 1
    → j.max_attempts ≡ r.max_attempts
    → 1 ≤ r.max_attempts
    → left_of j r + 1 ≡ r.max_attempts
all_left j r a l limit =
    let e = ap (or_default r.max_attempts) l ∙ or_default-same r.max_attempts in omega arith

-- A job that is dispatched under a registered name with options of `Delay` and `WithID` has the
-- deliveries of the registration's limit, which is not 0, when its handler fails each time, and is
-- then rejected.
pub dispatch-life :
    (o : Origin) (name p : Text) (os : List PackageOption) (m : Manager) (r : Registration)
    (run : ℕ → Job → Outcome)
    → get name m.handlers ≡ some r
    → 1 ≤ r.max_attempts
    → AlwaysFails run r
    → (j : Job) × (d : ℕ) × (dispatch o name (some p) (options_of os) m ≡ enqueue j d)
      × (j.payload ≡ p)
      × (life r.max_attempts run m j ≡ some (r.max_attempts, reject true))
dispatch-life o name p os m r run known limit fails =
    let (j, d, e, (n, q, a, l)) = dispatch-Carries o name p os m r known in
    let known_j = ap (λ k. get k m.handlers) n ∙ known in
    let left = all_left j r a l limit in
    (
      j,
      d,
      e,
      q,
      life-AlwaysFails r.max_attempts run m j r known_j fails (omega arith)
          ∙ ap (λ k. some (k, reject true)) left,
    )
