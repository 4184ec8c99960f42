-- ===== src/Realtime/Hub/Core.antt =====
-- realtime/hub.go: what holds between the operations of a Hub, and that writes of topics keep it.
use mathlib.Core.Path.{subst}
use torge.Base.{
  ℕ, ◌<◌, ◌≤◌, ◌≡◌, refl, sym, ◌∙◌, ap, ◌⊎◌, inl, inr, true, false, List, [], none, some,
  Bool-cases, length,
}
use torge.Base.Members.{In}
use torge.Base.Text.{Text, text_eq, text_eq_iff}
use torge.Base.Assoc.{
  get, put, del, get-put, get-del, DistinctKeys, put-DistinctKeys, del-DistinctKeys,
}
use torge.Realtime.{Topic}
use torge.Realtime.Ring.{RingOk}
use torge.Realtime.Hub.{Hub}

-- The subscriber `s` is open and belongs to the topic `k`.
abbrev pub Open : Hub → Text → ℕ → Type 0
Open h k s = ((h.subscribers s).closed ≡ false) × ((h.subscribers s).topic ≡ k) × (s < h.made)

abbrev pub Listed : List (Text × Topic) → Text → ℕ → Type 0
Listed ts k s = (t : Topic) × (get k ts ≡ some t) × In s t.subs

-- The invariant, without that a topic is worth keeping.
pub record CoreOk (h : Hub) : Type 0 where
  pub distinct : DistinctKeys h.topics
  pub rings : (k : Text) (t : Topic) → get k h.topics ≡ some t → RingOk h.replay t
  pub members : (k : Text) (s : ℕ) → Listed h.topics k s → Open h k s
  pub listed :
      (s : ℕ)
      → s < h.made
      → (h.subscribers s).closed ≡ false
      → Listed h.topics (h.subscribers s).topic s
  pub fits : (s : ℕ) → length (h.subscribers s).queue ≤ (h.subscribers s).capacity
  pub emptied : h.closed ≡ true → h.topics ≡ []

pub some_inj : {t u : Topic} → some t ≡ some u → t ≡ u
some_inj e = cc e

module _ (k j : Text) (ts : List (Text × Topic)) where
  pub put_same : (t : Topic) → text_eq k j ≡ true → get j (put k t ts) ≡ some t
  put_same t b = get-put k j t ts ∙ rw b refl

  pub put_other : (t : Topic) → text_eq k j ≡ false → get j (put k t ts) ≡ get j ts
  put_other t b = get-put k j t ts ∙ rw b refl

  pub del_same : text_eq k j ≡ true → get j (del k ts) ≡ none
  del_same b = get-del k j ts ∙ rw b refl

  pub del_other : text_eq k j ≡ false → get j (del k ts) ≡ get j ts
  del_other b = get-del k j ts ∙ rw b refl

-- The entry of a map after a write.
pub put-cases :
    (k j : Text) (t u : Topic) (ts : List (Text × Topic))
    → get j (put k t ts) ≡ some u
    → ((j ≡ k) × (u ≡ t)) ⊎ (get j ts ≡ some u)
put-cases k j t u ts e = elim (Bool-cases (text_eq k j)) [
  | inl b ↦ inl (sym ((text_eq_iff k j).0 b), some_inj (sym e ∙ put_same k j ts t b))
  | inr b ↦ inr (sym (put_other k j ts t b) ∙ e)
]

pub put-Listed :
    (k j : Text) (t : Topic) (ts : List (Text × Topic)) (s : ℕ)
    → (Listed ts k s → In s t.subs)
    → Listed ts j s
    → Listed (put k t ts) j s
put-Listed k j t ts s keeps (u, e, m) = elim (Bool-cases (text_eq k j)) [
  | inl b ↦ (t, put_same k j ts t b, keeps (u, ap (λ x. get x ts) ((text_eq_iff k j).0 b) ∙ e, m))
  | inr b ↦ (u, put_other k j ts t b ∙ e, m)
]

-- A write of a topic that keeps its subscribers.
pub put-CoreOk :
    (h : Hub) (k : Text) (t : Topic)
    → CoreOk h
    → h.closed ≡ false
    → RingOk h.replay t
    → ((s : ℕ) → In s t.subs → Open h k s)
    → ((s : ℕ) → Listed h.topics k s → In s t.subs)
    → CoreOk (record h { topics = put k t h.topics })
put-CoreOk h k t ok o ring new keeps = record {
  distinct = put-DistinctKeys k t h.topics ok.distinct;
  rings = λ j u e. elim (put-cases k j t u h.topics e) [
    | inl (a, b) ↦ subst (RingOk h.replay) (sym b) ring
    | inr b ↦ ok.rings j u b
  ];
  members = λ j s (u, e, m). elim (put-cases k j t u h.topics e) [
    | inl (a, b) ↦ subst (λ x. Open h x s) (sym a) (new s (subst (λ x. In s x.subs) b m))
    | inr b ↦ ok.members j s (u, b, m)
  ];
  listed = λ s l c. put-Listed k _ t h.topics s (keeps s) (ok.listed s l c);
  fits = ok.fits;
  emptied = λ c. absurd (cc (sym o ∙ c));
}

-- A deletion of a topic without subscribers.
pub del-CoreOk :
    (h : Hub) (k : Text)
    → CoreOk h
    → ((s : ℕ) → Listed h.topics k s → ⊥)
    → CoreOk (record h { topics = del k h.topics })
unfolding del
del-CoreOk h k ok nobody = record {
  distinct = del-DistinctKeys k h.topics ok.distinct;
  rings = λ j u e. ok.rings j u (kept j u e);
  members = λ j s (u, e, m). ok.members j s (u, kept j u e, m);
  listed = λ s l c. still s (ok.listed s l c);
  fits = ok.fits;
  emptied = λ c. ap (del k) (ok.emptied c);
}
  where
    kept : (j : Text) (u : Topic) → get j (del k h.topics) ≡ some u → get j h.topics ≡ some u
    kept j u e = elim (Bool-cases (text_eq k j)) [
      | inl b ↦ absurd (cc (sym (del_same k j h.topics b) ∙ e))
      | inr b ↦ sym (del_other k j h.topics b) ∙ e
    ]

    still :
        (s : ℕ)
        → Listed h.topics (h.subscribers s).topic s
        → Listed (del k h.topics) (h.subscribers s).topic s
    still s (u, e, m) = elim (Bool-cases (text_eq k (h.subscribers s).topic)) [
      | inl b ↦ absurd (nobody s (u, ap (λ x. get x h.topics) ((text_eq_iff k _).0 b) ∙ e, m))
      | inr b ↦ (u, del_other k _ h.topics b ∙ e, m)
    ]
