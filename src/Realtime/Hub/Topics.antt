-- ===== src/Realtime/Hub/Topics.antt =====
-- realtime/hub.go: `topicLocked`, with `evictLocked` and `touchLocked`.
use mathlib.Core.Path.{subst}
use torge.Base.{
  ℕ, ◌≡◌, refl, sym, ◌∙◌, ap, inl, inr, true, false, ◌||◌, List, [], ◌∷◌, Option, none, some, arith,
  Bool-cases, ltb, ◌==◌, if_all, length,
}
use torge.Base.Members.{In, here, there}
use torge.Base.Text.{Text, text_eq, text_eq_iff, text_eq_refl}
use torge.Base.Assoc.{get, get-put_self, DistinctKeys}
use torge.Realtime.{Topic, new_topic}
use torge.Realtime.Ring.{RingOk}
use torge.Realtime.Hub.{Hub, is_empty, older, victim, evict_found, evict, touch, or_new, topic_of}
use torge.Realtime.Hub.Core.{
  Open, Listed, CoreOk, some_inj, del_same, del_other, put-CoreOk, del-CoreOk,
}

-- What is evicted is a topic of the map without subscribers.
abbrev Idle : List (Text × Topic) → Option (Text × ℕ) → Type 0
Idle ts none = Unit
Idle ts (some (k, oldest)) = (t : Topic) × (get k ts ≡ some t) × (t.subs ≡ [])

In-get :
    (ts : List (Text × Topic)) (k : Text) (t : Topic)
    → DistinctKeys ts
    → In (k, t) ts
    → get k ts ≡ some t
unfolding get
In-get [] k t d m = elim m [ ]
In-get ((j, u) ∷ ts) k t d (here e) =
    subst (λ x. get k (x ∷ ts) ≡ some t) e (rw (text_eq_refl k) refl)
In-get ((j, u) ∷ ts) k t (none_before, d) (there m) = elim (Bool-cases (text_eq j k)) [
  | inl b ↦
      absurd
        (cc (sym (ap (λ x. get x ts) ((text_eq_iff j k).0 b) ∙ In-get ts k t d m) ∙ none_before))
  | inr b ↦ rw b (In-get ts k t d m)
]

victim-Idle :
    (all ts : List (Text × Topic)) (found : Option (Text × ℕ))
    → ((k : Text) (t : Topic) → In (k, t) ts → get k all ≡ some t)
    → Idle all found
    → Idle all (victim ts found)
unfolding victim
victim-Idle all [] found h i = i
victim-Idle all ((k, t) ∷ ts) found h i =
    victim-Idle all ts _ (λ j u m. h j u (there m))
      (if_all (Idle all) (is_empty t.subs) (λ b. older-Idle found i (empty t.subs b)) (λ b. i))
  where
    empty : (l : List ℕ) → is_empty l ≡ true → l ≡ []
    empty [] e = refl
    empty (x ∷ l) e = absurd (cc e)

    older-Idle : (f : Option (Text × ℕ)) → Idle all f → t.subs ≡ [] → Idle all (older k t f)
    older-Idle none i e = (t, h k t (here refl), e)
    older-Idle (some (v, oldest)) i e =
        if_all {A = Option (Text × ℕ)} (Idle all) (ltb t.last_use oldest)
          (λ b. (t, h k t (here refl), e)) (λ b. i)

-- What an operation on the topics leaves of a Hub.
pub record SameSubscribers (h g : Hub) : Type 0 where
  pub replay : g.replay ≡ h.replay
  pub closed : g.closed ≡ h.closed
  pub made : g.made ≡ h.made
  pub subscribers : g.subscribers ≡ h.subscribers

evict_found-CoreOk :
    (h : Hub) (f : Option (Text × ℕ))
    → CoreOk h
    → Idle h.topics f
    → CoreOk (evict_found f h) × SameSubscribers h (evict_found f h)
evict_found-CoreOk h none ok i =
    (ok, record { replay = refl; closed = refl; made = refl; subscribers = refl })
evict_found-CoreOk h (some (k, oldest)) ok (t, e, none_listed) = (
  del-CoreOk h k ok (λ s (u, f, m).
      nobody s (subst (In s) (ap (λ x. x.subs) (some_inj (sym f ∙ e)) ∙ none_listed) m)),
  record { replay = refl; closed = refl; made = refl; subscribers = refl },
)
  where
    nobody : (s : ℕ) → In s [] → ⊥
    nobody s m = elim m [ ]

evict-CoreOk : (h : Hub) → CoreOk h → CoreOk (evict h) × SameSubscribers h (evict h)
unfolding evict
evict-CoreOk h ok =
    if_all {A = Hub} (λ g. CoreOk g × SameSubscribers h g)
      (h.max_topics == 0 || ltb (length h.topics) h.max_topics)
      (λ b. (ok, record { replay = refl; closed = refl; made = refl; subscribers = refl }))
      (λ b.
        evict_found-CoreOk h _ ok
          (victim-Idle h.topics h.topics none (λ k t m. In-get h.topics k t ok.distinct m) tt))

evict-none : (h : Hub) (k : Text) → get k h.topics ≡ none → get k (evict h).topics ≡ none
unfolding evict
evict-none h k e =
    if_all {A = Hub} (λ g. get k g.topics ≡ none)
      (h.max_topics == 0 || ltb (length h.topics) h.max_topics) (λ b. e)
      (λ b. after (victim h.topics none))
  where
    after : (f : Option (Text × ℕ)) → get k (evict_found f h).topics ≡ none
    after none = e
    after (some (v, oldest)) = elim (Bool-cases (text_eq v k)) [
      | inl b ↦ del_same v k h.topics b
      | inr b ↦ del_other v k h.topics b ∙ e
    ]

sequence-CoreOk : (h : Hub) (n : ℕ) → CoreOk h → CoreOk (record h { use_seq = n })
sequence-CoreOk h n ok = record {
  distinct = ok.distinct;
  rings = ok.rings;
  members = ok.members;
  listed = ok.listed;
  fits = ok.fits;
  emptied = ok.emptied;
}

-- The topic that `topicLocked` gives is that of the map, or a new one.
abbrev pub Kept : Option Topic → Topic → Type 0
Kept none t = (t.subs ≡ []) × (t.buf ≡ []) × (t.start ≡ 0)
Kept (some u) t = (t.subs ≡ u.subs) × (t.buf ≡ u.buf) × (t.start ≡ u.start)

pub record Found (h : Hub) (k : Text) (g : Hub) (t : Topic) : Type 0 where
  pub core : CoreOk g
  pub same : SameSubscribers h g
  pub at : get k g.topics ≡ some t
  pub kept : Kept (get k h.topics) t

touch-CoreOk :
    (h : Hub) (k : Text) (t : Topic)
    → CoreOk h
    → h.closed ≡ false
    → RingOk h.replay t
    → ((s : ℕ) → In s t.subs → Open h k s)
    → ((s : ℕ) → Listed h.topics k s → In s t.subs)
    → CoreOk (touch k t h).0
touch-CoreOk h k t ok o ring new keeps = sequence-CoreOk _ _ (
    put-CoreOk h k (record t { last_use = h.use_seq }) ok o
      (record { fits = ring.fits; not_full = ring.not_full; in_buf = ring.in_buf }) new keeps)

or_new-Found :
    (h : Hub) (k : Text) (o : Option Topic)
    → CoreOk h
    → h.closed ≡ false
    → get k h.topics ≡ o
    → Found h k (or_new k o h).0 (or_new k o h).1
or_new-Found h k none ok c e =
    let (core, same) = evict-CoreOk h ok in
    let absent = evict-none h k e in
    record {
      core =
          touch-CoreOk (evict h) k new_topic core (same.closed ∙ c)
            (record { fits = omega arith; not_full = λ l. refl; in_buf = inl refl })
            (λ s m. elim m [ ]) (λ s (t, f, m). absurd (cc (sym absent ∙ f)));
      same = record {
        replay = same.replay;
        closed = same.closed;
        made = same.made;
        subscribers = same.subscribers;
      };
      at = get-put_self k _ (evict h).topics;
      kept =
          subst (λ x. Kept x (record new_topic { last_use = (evict h).use_seq })) (sym e)
            (refl, refl, refl);
    }
or_new-Found h k (some t) ok c e = record {
  core =
      touch-CoreOk h k t ok c (ok.rings k t e) (λ s m. ok.members k s (t, e, m))
        (λ s (u, f, m). subst (λ x. In s x.subs) (some_inj (sym f ∙ e)) m);
  same = record { replay = refl; closed = refl; made = refl; subscribers = refl };
  at = get-put_self k _ h.topics;
  kept = subst (λ x. Kept x (record t { last_use = h.use_seq })) (sym e) (refl, refl, refl);
}

pub topic_of-Found :
    (h : Hub) (k : Text) → CoreOk h → h.closed ≡ false → Found h k (topic_of k h).0 (topic_of k h).1
unfolding topic_of
topic_of-Found h k ok c = or_new-Found h k (get k h.topics) ok c refl
