-- ===== src/Container/Register.antt =====
-- container.go: what registration keeps, `Provide`, `Replace` and `Supply` alike.
use mathlib.Core.Path.{subst}
use torge.Base.{
  ℕ, ◌≡◌, ◌≢◌, refl, sym, ◌∙◌, ap, ◌⊎◌, inl, inr, Bool, true, false, ◌||◌, not, List, [], ◌∷◌, ◌++◌,
  Option, none, some, ◌==◌, ==_iff, Bool-cases,
}
use torge.Base.Members.{In, here, there, In-append_left, In-append_right, In-append_cases}
use torge.Container.{
  Provider, Container, Scope, new_container, update, insert, add_over, remove_from, add_provider,
  Signature, results_of, is_builtin, error_type, provide_result, register, supply,
}
use torge.Container.Cycle.{OutsDistinct, Registered}

In-remove_from : (t : ℕ) (p : Provider) (ps : List Provider) → In p (remove_from t ps) → In p ps
unfolding remove_from
In-remove_from t p [] m = m
In-remove_from t p (q ∷ ps) m = elim (Bool-cases (q.out == t)) [
  | inl b ↦ there (rw b at m)
  | inr b ↦ elim (rw b at m) [ here e ↦ here e | there n ↦ there (In-remove_from t p ps n) ]
]

-- The provider that is removed is the only one of its type.
remove_from_absent :
    (t : ℕ) (p : Provider) (ps : List Provider)
    → OutsDistinct ps
    → In p (remove_from t ps)
    → p.out ≢ t
unfolding remove_from
remove_from_absent t p [] d m = elim m [ ]
remove_from_absent t p (q ∷ ps) d m = elim (Bool-cases (q.out == t)) [
  | inl b ↦ λ e. d.0 p (rw b at m) (e ∙ sym ((==_iff q.out t).0 b))
  | inr b ↦ elim (rw b at m) [
    | here same ↦
        λ e. absurd (cc (sym b ∙ (==_iff q.out t).1 (ap (λ (x : Provider). x.out) (sym same) ∙ e)))
    | there n ↦ remove_from_absent t p ps d.1 n
  ]
]

remove_from-keeps :
    (t : ℕ) (p : Provider) (ps : List Provider) → In p ps → p.out ≢ t → In p (remove_from t ps)
unfolding remove_from
remove_from-keeps t p [] m n = elim m [ ]
remove_from-keeps t p (q ∷ ps) (here same) n = elim (Bool-cases (q.out == t)) [
  | inl b ↦ absurd (n (ap (λ (x : Provider). x.out) same ∙ (==_iff q.out t).0 b))
  | inr b ↦ rw b (here same)
]
remove_from-keeps t p (q ∷ ps) (there m) n = elim (Bool-cases (q.out == t)) [
  | inl b ↦ rw b m
  | inr b ↦ rw b (there (remove_from-keeps t p ps m n))
]

remove_from-OutsDistinct :
    (t : ℕ) (ps : List Provider) → OutsDistinct ps → OutsDistinct (remove_from t ps)
unfolding remove_from
remove_from-OutsDistinct t [] d = tt
remove_from-OutsDistinct t (q ∷ ps) d = elim (Bool-cases (q.out == t)) [
  | inl b ↦ rw b d.1
  | inr b ↦ rw b (λ p m. d.0 p (In-remove_from t p ps m), remove_from-OutsDistinct t ps d.1)
]

OutsDistinct-append :
    (p : Provider) (ps : List Provider)
    → OutsDistinct ps
    → ((q : Provider) → In q ps → q.out ≢ p.out)
    → OutsDistinct (ps ++ p ∷ [])
OutsDistinct-append p [] d h = (λ q m. elim m [ ], tt)
OutsDistinct-append p (q ∷ ps) d h = (
  λ r m. elim (In-append_cases r ps (p ∷ []) m) [
    | inl l ↦ d.0 r l
    | inr (here e) ↦ λ x. h q (here refl) (sym x ∙ ap (λ (y : Provider). y.out) e)
    | inr (there n) ↦ elim n [ ]
  ],
  OutsDistinct-append p ps d.1 (λ r m. h r (there m)),
)

-- The order without the provider of one type.
record Rest (ct : Container) (t : ℕ) (ps : List Provider) : Type 0 where
  others : (u : ℕ) (q : Provider) → ct.providers u ≡ some q → u ≢ t → In q ps
  known : (q : Provider) → In q ps → ct.providers q.out ≡ some q
  absent : (q : Provider) → In q ps → q.out ≢ t
  distinct : OutsDistinct ps

update-cases {ℓ} :
    {V : Type ℓ} (m : ℕ → Option V) (k : ℕ) (v : V) (j : ℕ) (x : V)
    → update m k v j ≡ some x
    → ((j ≡ k) × (v ≡ x)) ⊎ ((j ≢ k) × (m j ≡ some x))
update-cases m k v j x e = elim (Bool-cases (j == k)) [
  | inl b ↦ let same : some v ≡ some x = rw b at e in inl ((==_iff j k).0 b, cc same)
  | inr b ↦ inr (λ f. absurd (cc (sym b ∙ (==_iff j k).1 f)), rw b at e)
]

update_self {ℓ} :
    {V : Type ℓ} (m : ℕ → Option V) (k : ℕ) (v : V) (j : ℕ) → j ≡ k → update m k v j ≡ some v
update_self m k v j e = rw ((==_iff j k).1 e) refl

update_other {ℓ} :
    {V : Type ℓ} (m : ℕ → Option V) (k : ℕ) (v : V) (j : ℕ) → j ≢ k → update m k v j ≡ m j
update_other m k v j n = elim (Bool-cases (j == k)) [
  | inl b ↦ absurd (n ((==_iff j k).0 b))
  | inr b ↦ rw b refl
]

insert-Registered :
    (p : Provider) (ct : Container) (ps : List Provider)
    → Registered ct
    → Rest ct p.out ps
    → Registered (insert p (record ct { order = ps }))
insert-Registered p ct ps reg rest = record {
  keyed = λ t q e. elim (update-cases ct.providers p.out p t q e) [
    | inl (at_key, same) ↦ ap (λ (x : Provider). x.out) (sym same) ∙ sym at_key
    | inr (other, old) ↦ reg.keyed t q old
  ];
  listed = λ t q e. elim (update-cases ct.providers p.out p t q e) [
    | inl (at_key, same) ↦ In-append_right q ps (p ∷ []) (here (sym same))
    | inr (other, old) ↦ In-append_left q ps (p ∷ []) (rest.others t q old other)
  ];
  known = λ q m. elim (In-append_cases q ps (p ∷ []) m) [
    | inl l ↦ update_other ct.providers p.out p q.out (rest.absent q l) ∙ rest.known q l
    | inr (here e) ↦
        update_self ct.providers p.out p q.out (ap (λ (x : Provider). x.out) e) ∙ ap some (sym e)
    | inr (there n) ↦ elim n [ ]
  ];
  distinct = OutsDistinct-append p ps rest.distinct rest.absent;
}

new_Rest : (ct : Container) (t : ℕ) → Registered ct → ct.providers t ≡ none → Rest ct t ct.order
new_Rest ct t reg e = record {
  others = λ u q f n. reg.listed u q f;
  known = reg.known;
  absent = λ q m same. cc (sym e ∙ ap ct.providers (sym same) ∙ reg.known q m);
  distinct = reg.distinct;
}

replaced_Rest : (ct : Container) (t : ℕ) → Registered ct → Rest ct t (remove_from t ct.order)
replaced_Rest ct t reg = record {
  others = λ u q f n.
      remove_from-keeps t q ct.order (reg.listed u q f) (λ e. n (sym (reg.keyed u q f) ∙ e));
  known = λ q m. reg.known q (In-remove_from t q ct.order m);
  absent = λ q m. remove_from_absent t q ct.order reg.distinct m;
  distinct = remove_from-OutsDistinct t ct.order reg.distinct;
}

add_over-Registered :
    (p : Provider) (replace : Bool) (ct : Container) (o : Option Provider)
    → Registered ct
    → ct.providers p.out ≡ o
    → Registered (add_over p replace ct o).0
add_over-Registered p replace ct none reg e =
    insert-Registered p ct ct.order reg (new_Rest ct p.out reg e)
add_over-Registered p false ct (some q) reg e = reg
add_over-Registered p true ct (some q) reg e =
    subst (λ t. Registered (insert p (record ct { order = remove_from t ct.order })))
      (sym (reg.keyed p.out q e))
      (insert-Registered p ct (remove_from p.out ct.order) reg (replaced_Rest ct p.out reg))

add_provider-Registered :
    (frozen : Bool) (p : Provider) (replace : Bool) (ct : Container)
    → Registered ct
    → Registered (add_provider frozen p replace ct).0
unfolding add_provider
add_provider-Registered frozen p replace ct reg = elim (Bool-cases (frozen || ct.built)) [
  | inl b ↦ rw b reg
  | inr b ↦ rw b (add_over-Registered p replace ct (ct.providers p.out) reg refl)
]

provide_result-Registered :
    (frozen : Bool) (fn : ℕ) (inputs : List ℕ) (scope : Scope) (replace : Bool) (ct : Container)
    (o : Option (ℕ × Bool))
    → Registered ct
    → Registered (provide_result frozen fn inputs scope replace ct o).0
provide_result-Registered frozen fn inputs scope replace ct none reg = reg
provide_result-Registered frozen fn inputs scope replace ct (some (out, err)) reg =
    elim (Bool-cases ((out == error_type) || is_builtin out)) [
      | inl b ↦ rw b reg
      | inr b ↦ rw b (add_provider-Registered frozen _ replace ct reg)
    ]

pub new_container-Registered : Registered new_container
new_container-Registered = record {
  keyed = λ t p e. absurd (cc e);
  listed = λ t p e. absurd (cc e);
  known = λ p m. elim m [ ];
  distinct = tt;
}

pub register-Registered :
    (frozen : Bool) (fn : ℕ) (s : Option Signature) (scope : Scope) (replace : Bool)
    (ct : Container)
    → Registered ct
    → Registered (register frozen fn s scope replace ct).0
unfolding register
register-Registered frozen fn none scope replace ct reg = reg
register-Registered frozen fn (some s) scope replace ct reg =
    elim (Bool-cases (not s.is_func || s.is_nil)) [
      | inl b ↦ rw b reg
      | inr b ↦ rw b (elim (Bool-cases s.variadic) [
        | inl v ↦ rw v reg
        | inr v ↦ rw v (
            provide_result-Registered frozen fn s.inputs scope replace ct (results_of s.outputs)
              reg)
      ])
    ]

supply-Registered :
    (frozen : Bool) (t value : ℕ) (replace : Bool) (ct : Container)
    → Registered ct
    → Registered (supply frozen t value replace ct).0
unfolding supply
supply-Registered frozen t value replace ct reg = add_provider-Registered frozen _ replace ct reg

-- A call of `Provide` or `Replace`, or one of `Supply`, `SupplyAs` or `ReplaceValue` with a value that
-- is not nil.
pub data Registration : Type 0 where
  registers : (frozen : Bool) (fn : ℕ) → Option Signature → Scope → (replace : Bool) → Registration
  supplies : (frozen : Bool) → (t value : ℕ) → (replace : Bool) → Registration

abbrev pub perform : Registration → Container → Container
perform (registers frozen fn s scope replace) ct = (register frozen fn s scope replace ct).0
perform (supplies frozen t value replace) ct = (supply frozen t value replace ct).0

abbrev pub perform_all : List Registration → Container → Container
perform_all [] ct = ct
perform_all (o ∷ os) ct = perform_all os (perform o ct)

perform-Registered : (o : Registration) (ct : Container) → Registered ct → Registered (perform o ct)
perform-Registered (registers frozen fn s scope replace) ct reg =
    register-Registered frozen fn s scope replace ct reg
perform-Registered (supplies frozen t value replace) ct reg =
    supply-Registered frozen t value replace ct reg

-- After any constructors and values that were registered in a container that is in order, accepted or
-- refused, the providers of the types are those of the order, each for its own type, and no type has
-- two.
pub perform_all-Registered :
    (os : List Registration) (ct : Container) → Registered ct → Registered (perform_all os ct)
perform_all-Registered [] ct reg = reg
perform_all-Registered (o ∷ os) ct reg =
    perform_all-Registered os (perform o ct) (perform-Registered o ct reg)
