-- ===== src/Container/Build/Total.antt =====
-- container.go: the construction of the singletons ends, and reads no provider that is nil.
use torge.Base.{
  ℕ, zero, suc, ◌≤◌, ◌≡◌, refl, sym, ◌∙◌, ap, ◌⊎◌, inl, inr, true, ◌&&◌, List, [], ◌∷◌, ◌++◌,
  Option, none, some, arith, ◌==◌, ==_iff, Bool-cases, Option-cases,
}
use torge.Base.Members.{In, here, there}
use torge.Container.{Provider, Container, is_singleton, update}
use torge.Container.Graph.{validate, find_cycle}
use torge.Container.Cycle.{Registered}
use torge.Container.Cycle.Search.{find_cycle-Correct}
use torge.Container.Build.{
  World, Managed, unmanaged, has_lifecycle, is_closer, managed, Built, value, Arguments, stopped,
  arguments, on_built, is_given, BuildResult, invalid, ready, on_singleton, collect, construct,
  singleton, build_all, build,
}
use torge.Container.Build.Valid.{Constructible, Correct-Constructible, no_faults}

-- The providers stay, and so does each singleton.
pub record Grown (a b : Container) : Type 0 where
  pub providers : b.providers ≡ a.providers
  pub keeps : (t v : ℕ) → a.singletons t ≡ some v → b.singletons t ≡ some v

Grown_refl : (a : Container) → Grown a a
Grown_refl a = record { providers = refl; keeps = λ t v h. h }

Grown_trans : (a b c : Container) → Grown a b → Grown b c → Grown a c
Grown_trans a b c h k = record {
  providers = k.providers ∙ h.providers;
  keeps = λ t v e. k.keeps t v (h.keeps t v e);
}

-- A construction ends with the value of the provider, or with the error of a constructor.
abbrev pub Ends : Provider → Container → Built → Type 0
Ends p ct Built.no_fuel = ⊥
Ends p ct Built.panicked = ⊥
Ends p ct (Built.failed c) = Grown ct c
Ends p ct (value v c) = Grown ct c × (c.singletons p.out ≡ some v)

abbrev EndsArgs : Container → Arguments → Type 0
EndsArgs ct (stopped Built.no_fuel) = ⊥
EndsArgs ct (stopped Built.panicked) = ⊥
EndsArgs ct (stopped (Built.failed c)) = Grown ct c
EndsArgs ct (stopped (value v c)) = ⊥
EndsArgs ct (arguments args c) = Grown ct c

EndsArgs-on_built :
    (p : Provider) (ct : Container) (k : ℕ → Container → Arguments) (b : Built)
    → Ends p ct b
    → ((v : ℕ) (c : Container) → Grown ct c → EndsArgs c (k v c))
    → EndsArgs ct (on_built k b)
EndsArgs-on_built p ct k Built.no_fuel h next = h
EndsArgs-on_built p ct k Built.panicked h next = h
EndsArgs-on_built p ct k (Built.failed c) h next = h
EndsArgs-on_built p ct k (value v c) (g, e) next = earlier (k v c) (next v c g)
  where
    earlier : (a : Arguments) → EndsArgs c a → EndsArgs ct a
    earlier (stopped Built.no_fuel) h = h
    earlier (stopped Built.panicked) h = h
    earlier (stopped (Built.failed d)) h = Grown_trans ct c d g h
    earlier (stopped (value u d)) h = h
    earlier (arguments args d) h = Grown_trans ct c d g h

module _ (w : World) (providers : ℕ → Option Provider) where
  collect-Ends :
      (n : ℕ) (go : Provider → Container → Built)
      → ((q : Provider) (c : Container)
          → Constructible providers n q
          → c.providers ≡ providers
          → Ends q c (go q c))
      → (deps args : List ℕ) (ct : Container) → ct.providers ≡ providers
      → ((dep : ℕ)
          → In dep deps
          → (is_given dep ≡ true)
            ⊎ ((q : Provider) × (providers dep ≡ some q) × Constructible providers n q))
      → EndsArgs ct (collect w go deps args ct)
  unfolding collect
  collect-Ends n go total [] args ct same h = Grown_refl ct
  collect-Ends n go total (dep ∷ deps) args ct same h = elim (Bool-cases (is_given dep)) [
    | inl g ↦
        rw g
          (collect-Ends n go total deps (args ++ w.builtin dep ∷ []) ct same (λ d m. h d (there m)))
    | inr g ↦ elim (h dep (here refl)) [
      | inl yes_given ↦ absurd (cc (sym g ∙ yes_given))
      | inr (q, f, c) ↦ rw g (
          rw (ap (λ m. m dep) same ∙ f, collect)
            (EndsArgs-on_built q ct (λ v c. collect w go deps (args ++ v ∷ []) c) (go q ct)
              (total q ct c same)
              (λ v d g'.
                collect-Ends n go total deps (args ++ v ∷ []) d (g'.providers ∙ same)
                  (λ x m. h x (there m)))))
    ]
  ]

  update-Grown :
      (ct c : Container) (t v : ℕ) (m : ℕ → Option ℕ)
      → ct.singletons t ≡ none
      → Grown ct c
      → m ≡ update c.singletons t v
      → (j u : ℕ) → ct.singletons j ≡ some u
      → m j ≡ some u
  update-Grown ct c t v m absent g e j u h = elim (Bool-cases (j == t)) [
    | inl b ↦ absurd (cc (sym absent ∙ ap ct.singletons (sym ((==_iff j t).0 b)) ∙ h))
    | inr b ↦ ap (λ f. f j) e ∙ rw b (g.keeps j u h)
  ]

  -- A container with one more singleton, of a type that had none.
  one_more :
      (ct c d : Container) (t v : ℕ)
      → ct.singletons t ≡ none
      → Grown ct c
      → d.providers ≡ c.providers
      → d.singletons ≡ update c.singletons t v
      → Grown ct d × (d.singletons t ≡ some v)
  one_more ct c d t v absent g ps ss = (
    record { providers = ps ∙ g.providers; keeps = update-Grown ct c t v d.singletons absent g ss },
    ap (λ f. f t) ss ∙ rw ((==_iff t t).1 refl) refl,
  )

  managed-Ends :
      (p : Provider) (ct c : Container) (v : ℕ) (k : Managed)
      → ct.singletons p.out ≡ none
      → Grown ct c
      → Ends p ct (value v (managed p v (record c { singletons = update c.singletons p.out v }) k))
  managed-Ends p ct c v unmanaged absent g = one_more ct c _ p.out v absent g refl refl
  managed-Ends p ct c v has_lifecycle absent g = one_more ct c _ p.out v absent g refl refl
  managed-Ends p ct c v is_closer absent g = one_more ct c _ p.out v absent g refl refl

  construct-Ends :
      (p : Provider) (ct : Container) (a : Arguments)
      → ct.singletons p.out ≡ none
      → EndsArgs ct a
      → Ends p ct (construct w p a)
  unfolding construct
  construct-Ends p ct (stopped Built.no_fuel) absent h = h
  construct-Ends p ct (stopped Built.panicked) absent h = h
  construct-Ends p ct (stopped (Built.failed c)) absent h = h
  construct-Ends p ct (stopped (value v c)) absent h = absurd h
  construct-Ends p ct (arguments args c) absent h =
      elim (Bool-cases (p.returns_err && (w.call p.fn args).1)) [
        | inl b ↦ rw b h
        | inr b ↦
            rw b (managed-Ends p ct c (w.call p.fn args).0 (w.kind (w.call p.fn args).0) absent h)
      ]

  singleton-Ends :
      (n fuel : ℕ)
      → n ≤ fuel
      → (p : Provider) (ct : Container) → Constructible providers n p
      → ct.providers ≡ providers
      → Ends p ct (singleton w fuel p ct)
  unfolding singleton
  singleton-Ends zero fuel le p ct c same = absurd c
  singleton-Ends (suc n) zero le p ct c same = absurd (omega arith)
  singleton-Ends (suc n) (suc fuel) le p ct c same = elim (Option-cases (ct.singletons p.out)) [
    | inr (v, e) ↦ rw (e, singleton) (Grown_refl ct, e)
    | inl absent ↦
        rw (absent, singleton)
          (elim (Bool-cases p.supplied) [
            | inl b ↦ rw b (one_more ct ct _ p.out p.value absent (Grown_refl ct) refl refl)
            | inr b ↦ rw b (
                construct-Ends p ct _ absent (
                  collect-Ends n (singleton w fuel) (λ q d. singleton-Ends n fuel (omega arith) q d)
                    p.params [] ct same c))
          ])
  ]

  -- What `build_all` comes to, when the providers of a list are constructed.
  abbrev EndsAll : List Provider → Container → BuildResult → Type 0
  EndsAll ps ct BuildResult.no_fuel = ⊥
  EndsAll ps ct BuildResult.panicked = ⊥
  EndsAll ps ct (invalid fs c) = ⊥
  EndsAll ps ct (BuildResult.failed hs c) = Unit
  EndsAll ps ct (ready c) =
      Grown ct c
      × ((p : Provider)
          → In p ps
          → is_singleton p.scope ≡ true
          → (v : ℕ) × (c.singletons p.out ≡ some v))

  EndsAll-cons :
      (p : Provider) (ps : List Provider) (ct c : Container) (r : BuildResult)
      → Grown ct c
      → (is_singleton p.scope ≡ true → (v : ℕ) × (c.singletons p.out ≡ some v))
      → EndsAll ps c r
      → EndsAll (p ∷ ps) ct r
  EndsAll-cons p ps ct c BuildResult.no_fuel g h e = e
  EndsAll-cons p ps ct c BuildResult.panicked g h e = e
  EndsAll-cons p ps ct c (invalid fs d) g h e = e
  EndsAll-cons p ps ct c (BuildResult.failed hs d) g h e = e
  EndsAll-cons p ps ct c (ready d) g h (k, all) = (Grown_trans ct c d g k, member)
    where
      member :
          (q : Provider)
          → In q (p ∷ ps)
          → is_singleton q.scope ≡ true
          → (v : ℕ) × (d.singletons q.out ≡ some v)
      member q (here same) s =
          let (v, e') = h (ap (λ (x : Provider). is_singleton x.scope) (sym same) ∙ s) in
          (v, ap (λ (x : Provider). d.singletons x.out) same ∙ k.keeps p.out v e')
      member q (there m) s = all q m s

  on_singleton-Ends :
      (p : Provider) (ps : List Provider) (ct : Container) (k : Container → BuildResult) (b : Built)
      → Ends p ct b
      → ((c : Container) → Grown ct c → EndsAll ps c (k c))
      → EndsAll (p ∷ ps) ct (on_singleton k b)
  on_singleton-Ends p ps ct k Built.no_fuel h next = h
  on_singleton-Ends p ps ct k Built.panicked h next = h
  on_singleton-Ends p ps ct k (Built.failed c) h next = tt
  on_singleton-Ends p ps ct k (value v c) (g, e) next =
      EndsAll-cons p ps ct c (k c) g (λ s. (v, e)) (next c g)

  build_all-Ends :
      (n fuel : ℕ)
      → n ≤ fuel
      → (ps : List Provider) (ct : Container) → ct.providers ≡ providers
      → ((p : Provider) → In p ps → is_singleton p.scope ≡ true → Constructible providers n p)
      → EndsAll ps ct (build_all w fuel ps ct)
  unfolding build_all
  build_all-Ends n fuel le [] ct same h = (Grown_refl ct, λ p m. elim m [ ])
  build_all-Ends n fuel le (p ∷ ps) ct same h = elim (Bool-cases (is_singleton p.scope)) [
    | inl b ↦ rw b (
        on_singleton-Ends p ps ct (build_all w fuel ps) (singleton w fuel p ct)
          (singleton-Ends n fuel le p ct (h p (here refl) b) same)
          (λ c g. build_all-Ends n fuel le ps c (g.providers ∙ same) (λ q m. h q (there m))))
    | inr b ↦ rw b (
        EndsAll-cons p ps ct ct (build_all w fuel ps ct) (Grown_refl ct)
          (λ s. absurd (cc (sym b ∙ s)))
          (build_all-Ends n fuel le ps ct same (λ q m. h q (there m))))
  ]

-- `build` ended by a constructor's error, or with a value for each provider of singleton scope.
abbrev pub Finishes : Container → BuildResult → Type 0
Finishes ct BuildResult.no_fuel = ⊥
Finishes ct BuildResult.panicked = ⊥
Finishes ct (invalid fs c) = ⊥
Finishes ct (BuildResult.failed hs c) = Unit
Finishes ct (ready c) =
    (p : Provider)
    → In p ct.order
    → is_singleton p.scope ≡ true
    → (v : ℕ) × (c.singletons p.out ≡ some v)

EndsAll-Finishes :
    (w : World) (ct a : Container) (r : BuildResult)
    → EndsAll w ct.providers ct.order a r
    → Finishes ct r
EndsAll-Finishes w ct a BuildResult.no_fuel h = h
EndsAll-Finishes w ct a BuildResult.panicked h = h
EndsAll-Finishes w ct a (invalid fs c) h = h
EndsAll-Finishes w ct a (BuildResult.failed hs c) h = h
EndsAll-Finishes w ct a (ready c) h = h.1

-- Where the order lists the providers and `validate` finds no fault, `build` ends: there is a number
-- of nested calls that is enough, whatever the constructors do, and from it on `build` reads no nil
-- provider and either returns the error of a constructor or has a value for each provider of
-- singleton scope.
pub build-Finishes :
    (ct : Container)
    → Registered ct
    → validate ct ≡ []
    → (n : ℕ) × ((w : World) (fuel : ℕ) → n ≤ fuel → Finishes ct (build w fuel ct))
unfolding build
build-Finishes ct reg valid =
    let (n, h) =
      Correct-Constructible ct reg valid (find_cycle ct) (no_faults ct reg valid).1
        (find_cycle-Correct ct reg) in
    (
      n,
      λ w fuel le.
          rw (valid, build)
            (EndsAll-Finishes w ct (record ct { built = true })
              (build_all w fuel ct.order (record ct { built = true }))
              (build_all-Ends w ct.providers n fuel le ct.order (record ct { built = true }) refl
                h)),
    )
