-- ===== src/App/Lifecycle/History.antt =====
-- app.go: an application through any number of registrations, starts and shutdowns.
use mathlib.Core.Path.{subst}
use mathlib.Core.List.{reverse}
use torge.Base.{
  ℕ, ◌≡◌, ◌≢◌, ◌⊎◌, inl, inr, refl, sym, ◌∙◌, ap, Bool, true, false, List, [], ◌∷◌, ◌++◌, if_all,
}
use torge.Container.{Container}
use torge.App.Lifecycle.{
  State, building, starting, running, stopping, stopped, has_failed, Hook, App, new_app, World,
  Registered, add_hook, stop_calls, Start, endless, construction_panic, has_started, has_faults,
  not_built, not_invoked, not_building, hook_failed, start, start_from, run_stop_hooks, stop,
  shutdown, all_hooks,
}
use torge.App.Lifecycle.Loop.{on_stops, stop_calls-reverse, start_calls}
use torge.App.Lifecycle.Starts.{Sequence, start-Sequence, Failed, Stuck}

-- What is called of an application from outside.
pub data Operation : Type 0 where
  adds : Hook → Operation
  starts : (fuel : ℕ) → World → Operation
  shuts_down : World → Operation

abbrev pub perform : Operation → App → App
perform (adds h) a = (add_hook h a).0
perform (starts fuel w) a = (start fuel w a).0
perform (shuts_down w) a = (shutdown w a).0

unfoldable pub perform_all : List Operation → App → App
perform_all [] a = a
perform_all (o ∷ os) a = perform_all os (perform o a)

-- What holds of an application in each state. `starting` is left only by a constructor that panics
-- or by the fuel, and `stopping` does not last.
abbrev pub Phase : App → State → Type 0
Phase a building =
    (a.frozen ≡ false) × (a.calls ≡ []) × (a.started ≡ []) × (a.once ≡ false) × (a.done ≡ false)
Phase a starting =
    (a.frozen ≡ false) × (a.calls ≡ []) × (a.started ≡ []) × (a.once ≡ false) × (a.done ≡ false)
Phase a running =
    (a.frozen ≡ true)
    × (a.started ≡ all_hooks a)
    × (a.calls ≡ start_calls (all_hooks a))
    × (a.once ≡ false)
    × (a.done ≡ false)
Phase a stopping = ⊥
Phase a stopped =
    (a.started ≡ [])
    × (a.once ≡ true)
    × (a.done ≡ true)
    × (((a.frozen ≡ false) × (a.calls ≡ []))
        ⊎ ((a.frozen ≡ true)
            × (a.calls ≡ start_calls (all_hooks a) ++ reverse (on_stops (all_hooks a)))))
Phase a has_failed = (a.started ≡ []) × (a.once ≡ true) × (a.done ≡ true)

add_hook-Phase :
    (h : Hook) (a : App) → Phase a a.state → Phase (add_hook h a).0 (add_hook h a).0.state
add_hook-Phase h a p =
    if_all {A = App × Registered} (λ x. Phase x.0 x.0.state) a.frozen (λ b. p)
      (λ b. more b a.state p)
  where
    more :
        a.frozen ≡ false
        → (s : State) → Phase a s
        → Phase (record a { hooks = a.hooks ++ h ∷ [] }) s
    more b building p = p
    more b starting p = p
    more b running (f, s, c, o, d) = absurd (cc (sym b ∙ f))
    more b stopping p = absurd p
    more b stopped (s, o, d, inl q) = (s, o, d, inl q)
    more b stopped (s, o, d, inr (f, q)) = absurd (cc (sym b ∙ f))
    more b has_failed p = p

Failed-Phase : (b : App) → Failed b → Phase b b.state
Failed-Phase b f = subst (Phase b) (sym f.in_state) (f.none_started, f.stopped_once, f.is_done)

Stuck-Phase : (a b : App) → Phase a building → Stuck a.frozen a.done a.calls b → Phase b b.state
Stuck-Phase a b (z, c, s, o, d) q =
    subst (Phase b) (sym q.in_state)
      (q.same_frozen ∙ z, q.same_calls ∙ c, q.none_started, q.not_once, q.same_done ∙ d)

started-Phase :
    (fuel : ℕ) (w : World) (a b : App) (r : Start)
    → Phase a building
    → Sequence fuel w a.container a.frozen a.done a.calls b r
    → Phase b b.state
started-Phase fuel w a b has_started (z, c, s, o, d) (st, z', o', d', s', c', n) =
    subst (Phase b) (sym st) (z', s', c' ∙ ap (λ l. l ++ start_calls (all_hooks b)) c, o', d' ∙ d)
started-Phase fuel w a b (hook_failed k errors) p (f, q) = Failed-Phase b f
started-Phase fuel w a b has_faults p (f, q) = Failed-Phase b f
started-Phase fuel w a b not_built p (f, q) = Failed-Phase b f
started-Phase fuel w a b not_invoked p (f, q) = Failed-Phase b f
started-Phase fuel w a b (not_building s) p q = absurd q
started-Phase fuel w a b endless p q = Stuck-Phase a b p q
started-Phase fuel w a b construction_panic p q = Stuck-Phase a b p q

start_from-refused :
    (fuel : ℕ) (w : World) (a : App) (s : State) → s ≢ building → (start_from fuel w a s).0 ≡ a
start_from-refused fuel w a building n = absurd (n refl)
start_from-refused fuel w a starting n = refl
start_from-refused fuel w a running n = refl
start_from-refused fuel w a stopping n = refl
start_from-refused fuel w a stopped n = refl
start_from-refused fuel w a has_failed n = refl

refused-Phase :
    (fuel : ℕ) (w : World) (a : App) (s : State)
    → a.state ≡ s
    → Phase a s
    → s ≢ building
    → Phase (start fuel w a).0 (start fuel w a).0.state
unfolding start
refused-Phase fuel w a s e p n =
    subst (λ x. Phase x x.state) (sym (start_from-refused fuel w a a.state (λ k. n (sym e ∙ k))))
      (subst (Phase a) (sym e) p)

start-Phase :
    (fuel : ℕ) (w : World) (a : App) (s : State)
    → a.state ≡ s
    → Phase a s
    → Phase (start fuel w a).0 (start fuel w a).0.state
start-Phase fuel w a building e p =
    let (z, c, s, o, d) = p in
    started-Phase fuel w a _ _ p
      (start-Sequence fuel w a e (record { none_started = s; not_once = o }))
start-Phase fuel w a starting e p = refused-Phase fuel w a starting e p (λ x. absurd (cc x))
start-Phase fuel w a running e p = refused-Phase fuel w a running e p (λ x. absurd (cc x))
start-Phase fuel w a stopping e p = absurd p
start-Phase fuel w a stopped e p = refused-Phase fuel w a stopped e p (λ x. absurd (cc x))
start-Phase fuel w a has_failed e p = refused-Phase fuel w a has_failed e p (λ x. absurd (cc x))

-- A shutdown stops what is started, unless one ran before.
stop-Phase :
    (w : World) (a : App) (s : State) → a.once ≡ false → Phase a s → Phase (stop w a) stopped
unfolding run_stop_hooks all_hooks
stop-Phase w a building o (z, c, s, o', d) =
    (refl, refl, refl, inl (z, ap (λ l. l ++ stop_calls a.started) c ∙ ap stop_calls s))
stop-Phase w a starting o (z, c, s, o', d) =
    (refl, refl, refl, inl (z, ap (λ l. l ++ stop_calls a.started) c ∙ ap stop_calls s))
stop-Phase w a running o (z, s, c, o', d) = (
  refl,
  refl,
  refl,
  inr (
    z,
    ap (λ l. l ++ stop_calls a.started) c
        ∙ ap (λ l. start_calls (all_hooks a) ++ stop_calls l) s
        ∙ ap (λ l. start_calls (all_hooks a) ++ l) (stop_calls-reverse (all_hooks a)),
  ),
)
stop-Phase w a stopping o p = absurd p
stop-Phase w a stopped o (s, o', d, hs) = absurd (cc (sym o ∙ o'))
stop-Phase w a has_failed o (s, o', d) = absurd (cc (sym o ∙ o'))

shutdown-Phase :
    (w : World) (a : App) → Phase a a.state → Phase (shutdown w a).0 (shutdown w a).0.state
unfolding shutdown
shutdown-Phase w a p =
    if_all {A = App} (λ x. Phase x x.state) a.once (λ b. p) (λ b. stop-Phase w a a.state b p)

perform-Phase :
    (o : Operation) (a : App) → Phase a a.state → Phase (perform o a) (perform o a).state
perform-Phase (adds h) a p = add_hook-Phase h a p
perform-Phase (starts fuel w) a p = start-Phase fuel w a a.state refl p
perform-Phase (shuts_down w) a p = shutdown-Phase w a p

perform_all-Phase :
    (os : List Operation) (a : App)
    → Phase a a.state
    → Phase (perform_all os a) (perform_all os a).state
unfolding perform_all
perform_all-Phase [] a p = p
perform_all-Phase (o ∷ os) a p = perform_all-Phase os (perform o a) (perform-Phase o a p)

new_app-Phase : (jobs : Bool) (ct : Container) → Phase (new_app jobs ct) building
new_app-Phase jobs ct = (refl, refl, refl, refl, refl)

-- After any registrations, starts and shutdowns of a new application, what it called fits its state:
-- while it runs, the start callbacks of all its hooks, in order, and nothing else; once it is stopped,
-- these and then the stop callbacks of all its hooks in the opposite order, or nothing if it stopped
-- before the route table was frozen. When it is stopped or has failed, it is done and no hook counts as
-- started; in the other states it is not done.
pub perform_all-History :
    (jobs : Bool) (ct : Container) (os : List Operation)
    → Phase (perform_all os (new_app jobs ct)) (perform_all os (new_app jobs ct)).state
perform_all-History jobs ct os = perform_all-Phase os (new_app jobs ct) (new_app-Phase jobs ct)
