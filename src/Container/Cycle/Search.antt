-- ===== src/Container/Cycle/Search.antt =====
-- `findCycle` over all providers.
use mathlib.Core.Path.{subst}
use torge.Base.{ℕ, zero, suc, ◌≡◌, ◌≢◌, refl, ◌∙◌, ap, List, [], ◌∷◌, ◌++◌, length}
use torge.Base.Members.{In, here, there}
use torge.Container.{Provider, Container}
use torge.Container.Graph.{
  Color, unvisited, visiting, done, Colors, Search, no_fuel, cycle, clear, then_search, visit,
  if_unvisited, visit_all, find_cycle,
}
use torge.Container.Cycle.{Depends, Walks, IsCycle, Height, Height-mono, Registered}
use torge.Container.Cycle.Paint.{count_unvisited-le}
use torge.Container.Cycle.Visit.{
  Later, Later-refl, DoneOk, After, After-then_search, After-map, visit-Visits,
}

and_head :
    (q : Provider) (qs : List Provider) (u : Colors)
    → u q.out ≡ done
    → ((p : Provider) → In p qs → u p.out ≡ done)
    → (p : Provider) → In p (q ∷ qs)
    → u p.out ≡ done
and_head q qs u e all p (here same) = ap (λ (x : Provider). u x.out) same ∙ e
and_head q qs u e all p (there m) = all p m

module _ (ct : Container) (reg : Registered ct) where
  -- Outside a visit the stack is empty, so nothing is being visited.
  abbrev Idle : Colors → Type 0
  Idle s = (t : ℕ) → s t ≢ visiting

  -- One provider of the order: `k` is the rest of the loop.
  color-After :
      (q : Provider) (qs : List Provider) (k : Colors → Search) (s : Colors) (c : Color)
      → In q ct.order
      → s q.out ≡ c
      → Idle s
      → DoneOk ct.providers ct.order s
      → ((t : Colors)
          → Later ct.order s t
          → DoneOk ct.providers ct.order t
          → t q.out ≡ done
          → After ct.providers ct.order t
              (λ t. (p : Provider) → In p (q ∷ qs) → t p.out ≡ done)
              (k t))
      → After ct.providers ct.order s
          (λ t. (p : Provider) → In p (q ∷ qs) → t p.out ≡ done)
          (if_unvisited c (then_search (visit (length ct.order) ct.providers q [] s) k) (k s))
  color-After q qs k s done m e idle d next = next s (Later-refl ct.order s) d e
  color-After q qs k s visiting m e idle d next = absurd (idle q.out e)
  color-After q qs k s unvisited m e idle d next =
      After-then_search ct.providers ct.order s (λ t. t q.out ≡ done)
        (λ t. (p : Provider) → In p (q ∷ qs) → t p.out ≡ done)
        (visit (length ct.order) ct.providers q [] s) k
        (visit-Visits ct.providers ct.order reg.keyed reg.listed (length ct.order) q [] s
          (reg.known q m) tt
          (record {
            walks = tt;
            known = λ p i. elim i [ ];
            on_stack = λ t h. absurd (idle t h);
            done_ok = d;
          })
          e (count_unvisited-le ct.order s))
        next

  visit_all-After :
      (qs : List Provider) (s : Colors)
      → ((p : Provider) → In p qs → In p ct.order)
      → Idle s
      → DoneOk ct.providers ct.order s
      → After ct.providers ct.order s
          (λ t. (p : Provider) → In p qs → t p.out ≡ done)
          (visit_all (length ct.order) ct.providers qs s)
  unfolding visit_all
  visit_all-After [] s sub idle d = (Later-refl ct.order s, d, λ p m. elim m [ ])
  visit_all-After (q ∷ qs) s sub idle d =
      color-After q qs (visit_all (length ct.order) ct.providers qs) s (s q.out) (sub q (here refl))
        refl idle d
        (λ t l d e.
          After-map ct.providers ct.order t (λ t. (p : Provider) → In p qs → t p.out ≡ done)
            (λ t. (p : Provider) → In p (q ∷ qs) → t p.out ≡ done)
            (visit_all (length ct.order) ct.providers qs t)
            (λ u k all. and_head q qs u (k.keeps q.out e) all)
            (visit_all-After qs t (λ p m. sub p (there m)) (λ j v. idle j (l.opened j v)) d))

  -- What `findCycle` returns: a cycle, or none where the dependencies of each provider end.
  abbrev pub Correct : Search → Type 0
  Correct no_fuel = ⊥
  Correct (cycle c) = IsCycle ct.providers c
  Correct (clear t) = (n : ℕ) × ((p : Provider) → In p ct.order → Height ct.providers n p)

  After-Correct :
      (s : Colors) (r : Search)
      → After ct.providers ct.order s (λ t. (p : Provider) → In p ct.order → t p.out ≡ done) r
      → Correct r
  After-Correct s no_fuel h = h
  After-Correct s (cycle c) h = h
  After-Correct s (clear t) (l, (n, h), all) = (n, λ p m. h p (reg.known p m) (all p m))

  pub find_cycle-Correct : Correct (find_cycle ct)
  unfolding find_cycle
  find_cycle-Correct =
      After-Correct (λ t. unvisited) _
        (visit_all-After ct.order (λ t. unvisited) (λ p m. m) (λ t e. absurd (cc e))
          (0, λ q e d. absurd (cc d)))

  -- Along a walk the height falls.
  Walks-Height :
      (n : ℕ) (p q : Provider) (ps : List Provider)
      → Walks ct.providers (p ∷ ps ++ q ∷ [])
      → Height ct.providers (suc n) p
      → Height ct.providers n q
  Walks-Height n p q [] w h = h q w.0
  Walks-Height n p q (r ∷ ps) w h =
      Walks-Height n r q ps w.1 (Height-mono ct.providers n r (h r w.0))

  no_cycle :
      (n : ℕ) (q : Provider) (ps : List Provider)
      → Walks ct.providers (q ∷ ps ++ q ∷ [])
      → Height ct.providers n q
      → ⊥
  no_cycle zero q ps w h = h
  no_cycle (suc n) q ps w h = no_cycle n q ps w (Walks-Height n q q ps w h)

  last_step :
      (p q : Provider) (ps : List Provider)
      → Walks ct.providers (p ∷ ps ++ q ∷ [])
      → (r : Provider) × Depends ct.providers r q
  last_step p q [] w = (p, w.0)
  last_step p q (r ∷ ps) w = last_step r q ps w.1

  Correct-finds :
      (r : Search)
      → Correct r
      → (c : List Provider) → IsCycle ct.providers c
      → (d : List Provider) × (r ≡ cycle d)
  Correct-finds no_fuel h c i = absurd h
  Correct-finds (cycle d) h c i = (d, refl)
  Correct-finds (clear t) (n, h) c (q, ps, e, w) =
      let v = subst (Walks ct.providers) e w in
      let (r, (dep, m, f)) = last_step q q ps v in
      absurd (no_cycle n q ps v (h q (reg.listed dep q f)))

  -- In a container whose order lists its providers, what `findCycle` returns is a cycle of the
  -- dependencies, and it returns one whenever there is one.
  pub find_cycle-IsCycle :
      ((c : List Provider) → find_cycle ct ≡ cycle c → IsCycle ct.providers c)
      × ((c : List Provider)
          → IsCycle ct.providers c
          → (d : List Provider) × (find_cycle ct ≡ cycle d))
  find_cycle-IsCycle =
      (λ c e. subst Correct e find_cycle-Correct, Correct-finds (find_cycle ct) find_cycle-Correct)
