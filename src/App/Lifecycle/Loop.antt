-- ===== src/App/Lifecycle/Loop.antt =====
-- app.go: the loop of `start` over the hooks, and the order of `runStopHooks`.
use mathlib.Core.Path.{subst}
use torge.Base.{
  ◌≡◌, refl, sym, ◌∙◌, ap, inl, inr, Bool, true, false, List, [], ◌∷◌, ◌++◌, Option, none, some,
  if_all,
}
use mathlib.Core.List.{append-nil, append_assoc, reverse, reverse-cons}
use torge.Base.Members.{In, here, there, In-append_cases}
use torge.App.Lifecycle.{Callback, Hook, Progress, try_hook, start_hooks, one_call, stop_calls}

-- The start callbacks of the hooks, in order.
abbrev pub start_calls : List Hook → List Callback
start_calls [] = []
start_calls (h ∷ hs) = one_call h.on_start ++ start_calls hs

-- Their stop callbacks.
abbrev pub on_stops : List Hook → List Callback
on_stops [] = []
on_stops (h ∷ hs) = one_call h.on_stop ++ on_stops hs

-- `runStopHooks` goes backward.
pub stop_calls-reverse : (hs : List Hook) → stop_calls hs ≡ reverse (on_stops hs)
unfolding stop_calls
stop_calls-reverse [] = refl
stop_calls-reverse (h ∷ hs) =
    ap (λ l. l ++ one_call h.on_stop) (stop_calls-reverse hs) ∙ last h.on_stop
  where
    last :
        (s : Option Callback)
        → reverse (on_stops hs) ++ one_call s ≡ reverse (one_call s ++ on_stops hs)
    last none = append-nil (reverse (on_stops hs))
    last (some c) = sym (reverse-cons c (on_stops hs))

abbrev pub NoneFails : (Callback → Bool) → List Hook → Type 0
NoneFails fails hs = (c : Callback) → In c (start_calls hs) → fails c ≡ false

-- The hooks up to the one whose callback `c` fails.
pub record FailsAt (fails : Callback → Bool) (hs : List Hook) (c : Callback) : Type 0 where
  pub before : List Hook
  pub failing : Hook
  pub after : List Hook
  pub all_of : hs ≡ before ++ failing ∷ after
  pub calls_it : failing.on_start ≡ some c
  pub fails_there : fails c ≡ true
  pub earlier : NoneFails fails before

-- A loop over the hooks ends after all of them or at the first whose callback fails.
abbrev pub Ran :
    (Callback → Bool) → List Hook → List Callback → List Hook → Progress → Option Callback → Type 0
Ran fails done calls hs p none =
    (p.started ≡ done ++ hs) × (p.calls ≡ calls ++ start_calls hs) × NoneFails fails hs
Ran fails done calls hs p (some c) =
    (f : FailsAt fails hs c) × (p.started ≡ done ++ f.before)
    × (p.calls ≡ calls ++ (start_calls f.before ++ c ∷ []))

-- The loop over the tail, after a first hook that does not fail.
Ran-after :
    (fails : Callback → Bool) (done : List Hook) (calls : List Callback) (h : Hook) (hs : List Hook)
    (p : Progress) (f : Option Callback)
    → ((c : Callback) → In c (one_call h.on_start) → fails c ≡ false)
    → Ran fails (done ++ h ∷ []) (calls ++ one_call h.on_start) hs p f
    → Ran fails done calls (h ∷ hs) p f
Ran-after fails done calls h hs p none ok (s, c, n) = (
  s ∙ append_assoc done (h ∷ []) hs,
  c ∙ append_assoc calls (one_call h.on_start) (start_calls hs),
  λ k m. elim (In-append_cases k (one_call h.on_start) (start_calls hs) m) [
    | inl l ↦ ok k l
    | inr r ↦ n k r
  ],
)
Ran-after fails done calls h hs p (some x) ok (f, s, c) = (
  record {
    before = h ∷ f.before;
    failing = f.failing;
    after = f.after;
    all_of = ap (λ l. h ∷ l) f.all_of;
    calls_it = f.calls_it;
    fails_there = f.fails_there;
    earlier = λ k m. elim (In-append_cases k (one_call h.on_start) (start_calls f.before) m) [
      | inl l ↦ ok k l
      | inr r ↦ f.earlier k r
    ];
  },
  s ∙ append_assoc done (h ∷ []) f.before,
  c
      ∙ append_assoc calls (one_call h.on_start) (start_calls f.before ++ x ∷ [])
      ∙ ap (λ l. calls ++ l)
          (sym (append_assoc (one_call h.on_start) (start_calls f.before) (x ∷ []))),
)

one_passes :
    (fails : Callback → Bool) (c : Callback)
    → fails c ≡ false
    → (k : Callback) → In k (c ∷ [])
    → fails k ≡ false
one_passes fails c b k (here e) = ap fails e ∙ b
one_passes fails c b k (there m) = elim m [ ]

-- One turn of the loop.
try_hook-Ran :
    (fails : Callback → Bool) (done : List Hook) (calls : List Callback) (h : Hook) (hs : List Hook)
    (rest : List Callback → Progress) (s : Option Callback)
    → ((cs : List Callback) → Ran fails (done ++ h ∷ []) cs hs (rest cs) (rest cs).failure)
    → h.on_start ≡ s
    → Ran fails done calls
        (h ∷ hs)
        (try_hook fails done calls rest s)
        (try_hook fails done calls rest s).failure
try_hook-Ran fails done calls h hs rest none ran e =
    Ran-after fails done calls h hs (rest calls) _
      (subst (λ s. (c : Callback) → In c (one_call s) → fails c ≡ false) (sym e)
        (λ c m. elim m [ ]))
      (subst
        (λ s. Ran fails (done ++ h ∷ []) (calls ++ one_call s) hs (rest calls) (rest calls).failure)
        (sym e)
        (subst (λ cs. Ran fails (done ++ h ∷ []) cs hs (rest calls) (rest calls).failure)
          (sym (append-nil calls)) (ran calls)))
try_hook-Ran fails done calls h hs rest (some c) ran e =
    if_all (λ p. Ran fails done calls (h ∷ hs) p p.failure) (fails c)
      (λ b. (
        record {
          before = [];
          failing = h;
          after = hs;
          all_of = refl;
          calls_it = e;
          fails_there = b;
          earlier = λ k m. elim m [ ];
        },
        sym (append-nil done),
        refl,
      ))
      (λ b.
        Ran-after fails done calls h hs (rest (calls ++ c ∷ [])) _
          (subst (λ s. (k : Callback) → In k (one_call s) → fails k ≡ false) (sym e)
            (one_passes fails c b))
          (subst
            (λ s.
              Ran fails (done ++ h ∷ []) (calls ++ one_call s) hs (rest (calls ++ c ∷ []))
                (rest (calls ++ c ∷ [])).failure)
            (sym e) (ran (calls ++ c ∷ []))))

pub start_hooks-Ran :
    (fails : Callback → Bool) (done : List Hook) (calls : List Callback) (hs : List Hook)
    → Ran fails done calls hs
        (start_hooks fails done calls hs)
        (start_hooks fails done calls hs).failure
unfolding start_hooks
start_hooks-Ran fails done calls [] =
    (sym (append-nil done), sym (append-nil calls), λ c m. elim m [ ])
start_hooks-Ran fails done calls (h ∷ hs) =
    try_hook-Ran fails done calls h hs _ h.on_start
      (λ cs. start_hooks-Ran fails (done ++ h ∷ []) cs hs) refl
