-- ===== src/Container/Cycle/Visit.antt =====
-- One visit of the search: from a state in which the stack is a walk and the finished providers have
-- a height, it finds a cycle or finishes its provider.
use mathlib.Core.Path.{subst}
use torge.Base.{
  ℕ, zero, suc, ◌≤◌, ◌≡◌, ◌≢◌, refl, sym, ◌∙◌, ap, ◌⊎◌, inl, inr, List, [], ◌∷◌, ◌++◌, Option, none,
  some, arith, ◌==◌, ==_iff, Bool-cases,
}
use torge.Base.Members.{In, here, there, In-append_cases}
use torge.Container.{Provider}
use torge.Container.Graph.{
  Color, unvisited, visiting, done, Colors, paint, Search, no_fuel, cycle, clear, then_search,
  stack_from, close_cycle, on_color, visit_params, visit,
}
use torge.Container.Cycle.{Walks, IsCycle, Height, Height-mono}
use torge.Container.Cycle.Paint.{
  count_unvisited, paint-le, paint-lt, paint-cases, paint_other, paint_self,
}
use torge.Container.Cycle.Walk.{Walks-append, Found, stack_from-Found, Found-IsCycle}

-- Between two states of the search nothing is unvisited again, finished providers stay finished, and
-- what is on the stack was there.
pub record Later (ps : List Provider) (s t : Colors) : Type 0 where
  pub fewer : count_unvisited ps t ≤ count_unvisited ps s
  pub keeps : (j : ℕ) → s j ≡ done → t j ≡ done
  pub opened : (j : ℕ) → t j ≡ visiting → s j ≡ visiting

pub Later-refl : (ps : List Provider) (s : Colors) → Later ps s s
Later-refl ps s = record { fewer = omega arith; keeps = λ j h. h; opened = λ j h. h }

pub Later-trans : (ps : List Provider) (s t u : Colors) → Later ps s t → Later ps t u → Later ps s u
Later-trans ps s t u h k = record {
  fewer = omega (arith, h.fewer, k.fewer);
  keeps = λ j d. k.keeps j (h.keeps j d);
  opened = λ j d. h.opened j (k.opened j d);
}

module _ (providers : ℕ → Option Provider) (ps : List Provider) where
  -- The finished providers have a height.
  abbrev pub DoneOk : Colors → Type 0
  DoneOk s =
      (n : ℕ) × ((q : Provider) → providers q.out ≡ some q → s q.out ≡ done → Height providers n q)

  -- What is being visited is on the stack.
  abbrev pub OnStack : List Provider → Colors → Type 0
  OnStack path s = (t : ℕ) → s t ≡ visiting → stack_from t path ≢ none

  pub record Ready (path : List Provider) (s : Colors) : Type 0 where
    pub walks : Walks providers path
    pub known : (q : Provider) → In q path → providers q.out ≡ some q
    pub on_stack : OnStack path s
    pub done_ok : DoneOk s

  -- A search from `s` ends, with a cycle or in a state of which `D` holds.
  abbrev pub After : Colors → (Colors → Type 0) → Search → Type 0
  After s D no_fuel = ⊥
  After s D (cycle c) = IsCycle providers c
  After s D (clear t) = Later ps s t × DoneOk t × D t

  earlier :
      (s t : Colors) (E : Colors → Type 0) (r : Search) → Later ps s t → After t E r → After s E r
  earlier s t E no_fuel l h = h
  earlier s t E (cycle c) l h = h
  earlier s t E (clear u) l h = (Later-trans ps s t u l h.0, h.1, h.2)

  pub After-then_search :
      (s : Colors) (D E : Colors → Type 0) (r : Search) (k : Colors → Search)
      → After s D r
      → ((t : Colors) → Later ps s t → DoneOk t → D t → After t E (k t))
      → After s E (then_search r k)
  After-then_search s D E no_fuel k h next = h
  After-then_search s D E (cycle c) k h next = h
  After-then_search s D E (clear t) k h next = earlier s t E (k t) h.0 (next t h.0 h.1 h.2)

  abbrev AllDone : List ℕ → Colors → Type 0
  AllDone deps t =
      (dep : ℕ) → In dep deps → (q : Provider) → providers dep ≡ some q → t q.out ≡ done

  pub After-map :
      (s : Colors) (D E : Colors → Type 0) (r : Search)
      → ((t : Colors) → Later ps s t → D t → E t)
      → After s D r
      → After s E r
  After-map s D E no_fuel f h = h
  After-map s D E (cycle c) f h = h
  After-map s D E (clear t) f h = (h.0, h.1, f t h.0 h.2)

  -- What a visit of a provider that is not visited yet comes to, with enough fuel.
  abbrev pub Visits : ℕ → (Provider → List Provider → Colors → Search) → Type 0
  Visits fuel go =
      (p : Provider) (path : List Provider) (s : Colors)
      → providers p.out ≡ some p
      → Walks providers (path ++ p ∷ [])
      → Ready path s
      → s p.out ≡ unvisited
      → count_unvisited ps s ≤ fuel
      → After s (λ t. t p.out ≡ done) (go p path s)

  AllDone-cons :
      (dep : ℕ) (deps : List ℕ) (t : Colors)
      → ((q : Provider) → providers dep ≡ some q → t q.out ≡ done)
      → AllDone deps t
      → AllDone (dep ∷ deps) t
  AllDone-cons dep deps t h k d (here e) q f = h q (ap providers (sym e) ∙ f)
  AllDone-cons dep deps t h k d (there m) q f = k d m q f

  module _ (keyed : (t : ℕ) (p : Provider) → providers t ≡ some p → p.out ≡ t) where
    known_of : (t : ℕ) (p : Provider) → providers t ≡ some p → providers p.out ≡ some p
    known_of t p h = ap providers (keyed t p h) ∙ h

    -- One parameter, for which `q` is registered: `k` is the rest of the loop.
    module _ (fuel : ℕ) (go : Provider → List Provider → Colors → Search) (visits : Visits fuel go)
        (p : Provider) (zs : List Provider) (dep : ℕ) (deps : List ℕ) (member : In dep p.params)
        (k : Colors → Search) (s : Colors) (r : Ready (zs ++ p ∷ []) s)
        (again : (t : Colors) → Later ps s t → DoneOk t → After t (AllDone deps) (k t)) where
      rest-After :
          ((q : Provider) → providers dep ≡ some q → s q.out ≡ done)
          → After s (AllDone (dep ∷ deps)) (k s)
      rest-After h =
          After-map s (AllDone deps) (AllDone (dep ∷ deps)) (k s)
            (λ t l d. AllDone-cons dep deps t (λ q e. l.keeps q.out (h q e)) d)
            (again s (Later-refl ps s) r.done_ok)

      cycle-After :
          (q : Provider) (o : Option (List Provider))
          → providers dep ≡ some q
          → o ≢ none
          → Found providers q.out p o
          → After s (AllDone (dep ∷ deps)) (close_cycle q o (k s))
      cycle-After q none e n f = absurd (n refl)
      cycle-After q (some c) e n f =
          Found-IsCycle providers p q c f (known_of dep q e) (dep, member, e)

      of_same :
          {q r : Provider}
          → providers dep ≡ some q
          → providers dep ≡ some r
          → (t : Colors) → t q.out ≡ done
          → t r.out ≡ done
      of_same {q} {r} e g t h = let same : q ≡ r = cc in ap (λ x. t x.out) (sym same) ∙ h

      color-After :
          (q : Provider) (c : Color)
          → providers dep ≡ some q
          → s q.out ≡ c
          → count_unvisited ps s ≤ fuel
          → After s (AllDone (dep ∷ deps)) (
              on_color c
                (close_cycle q (stack_from q.out (zs ++ p ∷ [])) (k s))
                (then_search (go q (zs ++ p ∷ []) s) k)
                (k s))
      color-After q done e f enough = rest-After (λ r g. of_same e g s f)
      color-After q visiting e f enough =
          cycle-After q (stack_from q.out (zs ++ p ∷ [])) e (r.on_stack q.out f)
            (stack_from-Found providers q.out p zs r.walks r.known)
      color-After q unvisited e f enough =
          After-then_search s (λ t. t q.out ≡ done) (AllDone (dep ∷ deps)) (go q (zs ++ p ∷ []) s) k
            (visits q (zs ++ p ∷ []) s (known_of dep q e)
              (Walks-append providers zs p q r.walks (dep, member, e)) r f enough)
            (λ t l d e'.
              After-map t (AllDone deps) (AllDone (dep ∷ deps)) (k t)
                (λ u l' a. AllDone-cons dep deps u (λ r g. of_same e g u (l'.keeps q.out e')) a)
                (again t l d))

      provider-After :
          (o : Option Provider)
          → providers dep ≡ o
          → count_unvisited ps s ≤ fuel
          → After s (AllDone (dep ∷ deps)) (elim o [
            | none ↦ k s
            | some q ↦
                on_color
                  (s q.out)
                  (close_cycle q (stack_from q.out (zs ++ p ∷ [])) (k s))
                  (then_search (go q (zs ++ p ∷ []) s) k)
                  (k s)
          ])
      provider-After none e enough = rest-After (λ q f. absurd (cc))
      provider-After (some q) e enough = color-After q (s q.out) e refl enough

    visit_params-After :
        (fuel : ℕ) (go : Provider → List Provider → Colors → Search)
        → Visits fuel go
        → (p : Provider) (zs : List Provider) (deps : List ℕ) (s : Colors)
        → ((d : ℕ) → In d deps → In d p.params)
        → Ready (zs ++ p ∷ []) s
        → count_unvisited ps s ≤ fuel
        → After s (AllDone deps) (visit_params go providers deps (zs ++ p ∷ []) s)
    unfolding visit_params
    visit_params-After fuel go visits p zs [] s sub r enough =
        (Later-refl ps s, r.done_ok, λ d m. elim m [ ])
    visit_params-After fuel go visits p zs (dep ∷ deps) s sub r enough =
        provider-After fuel go visits p zs dep deps (sub dep (here refl))
          (visit_params go providers deps (zs ++ p ∷ [])) s r
          (λ t l d.
            visit_params-After fuel go visits p zs deps t (λ x m. sub x (there m))
              (record {
                walks = r.walks;
                known = r.known;
                on_stack = λ j h. r.on_stack j (l.opened j h);
                done_ok = d;
              })
              (omega (arith, l.fewer)))
          (providers dep) refl enough

    on_stack-push :
        (p : Provider) (path : List Provider) (t : ℕ)
        → (p.out ≡ t) ⊎ (stack_from t path ≢ none)
        → stack_from t (path ++ p ∷ []) ≢ none
    unfolding stack_from
    on_stack-push p [] t (inl e) = λ n. ground (arith, e, n)
    on_stack-push p [] t (inr h) = absurd (h refl)
    on_stack-push p (a ∷ path) t h = elim (Bool-cases (a.out == t)) [
      | inl b ↦ rw b (λ n. cc (n))
      | inr b ↦ rw b (on_stack-push p path t (elim h [ inl e ↦ inl e | inr n ↦ inr (rw b at n) ]))
    ]

    push-Ready :
        (p : Provider) (path : List Provider) (s : Colors)
        → providers p.out ≡ some p
        → Walks providers (path ++ p ∷ [])
        → Ready path s
        → s p.out ≡ unvisited
        → Ready (path ++ p ∷ []) (paint p.out visiting s)
    push-Ready p path s k w r u = record {
      walks = w;
      known = λ q m. elim (In-append_cases q path (p ∷ []) m) [
        | inl l ↦ r.known q l
        | inr (here e) ↦ ap (λ (x : Provider). providers x.out) e ∙ k ∙ ap some (sym e)
        | inr (there n) ↦ elim n [ ]
      ];
      on_stack = λ t h. on_stack-push p path t (elim (paint-cases p.out t visiting visiting s h) [
        | inl (e, c) ↦ inl (sym e)
        | inr (n, v) ↦ inr (r.on_stack t v)
      ]);
      done_ok = (
        r.done_ok.0,
        λ q e d. r.done_ok.1 q e (elim (paint-cases p.out q.out visiting done s d) [
          | inl (same, c) ↦ absurd (cc c)
          | inr (other, v) ↦ v
        ]),
      );
    }

    -- Two providers of one type are the same.
    param_of :
        (p q : Provider)
        → providers p.out ≡ some p
        → q.out ≡ p.out
        → providers q.out ≡ some q
        → (d : ℕ) → In d q.params
        → In d p.params
    param_of p q k same e d m =
        let eq : q ≡ p = cc (ap providers same ∙ k) in subst (λ (x : Provider). In d x.params) eq m

    pop-DoneOk :
        (p : Provider) (t : Colors)
        → providers p.out ≡ some p
        → DoneOk t
        → AllDone p.params t
        → DoneOk (paint p.out done t)
    pop-DoneOk p t k (n, h) all = (
      suc n,
      λ q e d. elim (paint-cases p.out q.out done done t d) [
        | inl (same, c) ↦
            λ r (dep, m, f). h r (known_of dep r f) (all dep (param_of p q k same e dep m) r f)
        | inr (other, old) ↦ Height-mono providers n q (h q e old)
      ],
    )

    pop-Later :
        (p : Provider) (s t : Colors)
        → In p ps
        → s p.out ≡ unvisited
        → Later ps (paint p.out visiting s) t
        → Later ps s (paint p.out done t)
    pop-Later p s t m u l = record {
      fewer =
          omega (arith, l.fewer, paint-le ps t p.out done refl, paint-lt ps s p visiting refl m u);
      keeps = λ j h. elim (Bool-cases (j == p.out)) [
        | inl b ↦ paint_self p.out j done t ((==_iff j p.out).0 b)
        | inr b ↦
            let n : j ≢ p.out = λ e. absurd (cc (sym b ∙ (==_iff j p.out).1 e)) in
            paint_other p.out j done t n ∙ l.keeps j (paint_other p.out j visiting s n ∙ h)
      ];
      opened = λ j h. elim (paint-cases p.out j done visiting t h) [
        | inl (e, c) ↦ absurd (cc c)
        | inr (n, v) ↦ sym (paint_other p.out j visiting s n) ∙ l.opened j v
      ];
    }

    finish-After :
        (p : Provider) (s : Colors) (r : Search)
        → providers p.out ≡ some p
        → In p ps
        → s p.out ≡ unvisited
        → After (paint p.out visiting s) (AllDone p.params) r
        → After s (λ t. t p.out ≡ done) (then_search r (λ t. clear (paint p.out done t)))
    finish-After p s no_fuel k m u h = h
    finish-After p s (cycle c) k m u h = h
    finish-After p s (clear t) k m u (l, d, all) =
        (pop-Later p s t m u l, pop-DoneOk p t k d all, paint_self p.out p.out done t refl)

    -- With enough fuel a visit ends as it should.
    pub visit-Visits :
        ((t : ℕ) (p : Provider) → providers t ≡ some p → In p ps)
        → (fuel : ℕ) → Visits fuel (visit fuel providers)
    unfolding visit
    visit-Visits listed zero p path s k w r u enough =
        absurd (omega (arith, paint-lt ps s p visiting refl (listed p.out p k) u))
    visit-Visits listed (suc fuel) p path s k w r u enough =
        let m = listed p.out p k in
        finish-After p s _ k m u (
          visit_params-After fuel (visit fuel providers) (visit-Visits listed fuel) p path p.params
            (paint p.out visiting s) (λ d i. i) (push-Ready p path s k w r u)
            (omega (arith, enough, paint-lt ps s p visiting refl m u)))
