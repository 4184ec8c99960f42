-- ===== src/Realtime/Hub/Subscribe.antt =====
-- realtime/hub.go: `Subscribe` keeps the Hub, and its sends do not wait.
use mathlib.Core.Path.{subst}
use torge.Base.{
  ℕ, zero, suc, ◌+◌, ◌%◌, ◌<◌, ◌≤◌, max, ◌≡◌, refl, sym, ◌∙◌, ap, inl, inr, true, false, List, [],
  ◌∷◌, ◌++◌, Option, none, some, arith, Bool-cases, lt→ltb, ◌==◌, ==_iff, if_all, length,
  length-append, get_elem?, take, drop,
}
use mathlib.Core.List.{append-nil, append_assoc}
use torge.Base.Members.{In, here, there}
use torge.Base.Text.{Text}
use torge.Base.Assoc.{get, put, get-put_self, put-DistinctKeys}
use torge.Realtime.Hub.Laws.{Safe}
use torge.Realtime.{Event, Topic, Subscriber, replayed, if_after, after_last_id}
use torge.Realtime.Ring.{RingOk, recent, unseen, replayed-unseen}
use torge.Realtime.Hub.{
  Hub, Sent, panicked, blocked, sent, topic_of, send_all, to_replay, new_subscriber, add_subscriber,
  subscribe_to, subscribe, min_buffer, with_subscriber,
}
use torge.Realtime.Hub.Core.{CoreOk, Open, Listed, some_inj, put-cases, put-Listed}
use torge.Realtime.Hub.Topics.{topic_of-Found, Kept}

pub send_all-queue :
    (es : List Event) (u : Subscriber)
    → length u.queue + length es ≤ u.capacity
    → send_all es u ≡ some (record u { queue = u.queue ++ es })
unfolding send_all
send_all-queue [] u h = ap (λ q. some (record u { queue = q })) (sym (append-nil u.queue))
send_all-queue (e ∷ es) u h = rw (lt→ltb (length u.queue) u.capacity (omega (arith, h))) (
    send_all-queue es (record u { queue = u.queue ++ e ∷ [] })
      (omega (arith, length-append u.queue (e ∷ []), h))
    ∙ ap (λ q. some (record u { queue = q })) (append_assoc u.queue (e ∷ []) es))

length-replayed : (last_id : Text) (t : Topic) (n i : ℕ) → length (replayed last_id t n i) ≤ n
unfolding replayed
length-replayed last_id t zero i = omega arith
length-replayed last_id t (suc n) i =
    one (get_elem? t.buf ((t.start + i) % length t.buf)) (length-replayed last_id t n (i + 1))
  where
    one :
        (o : Option Event)
        → length (replayed last_id t n (i + 1)) ≤ n
        → length (if_after last_id o (replayed last_id t n (i + 1))) ≤ suc n
    one none h = omega (arith, h)
    one (some e) h = elim (Bool-cases (after_last_id e.id last_id)) [
      | inl b ↦ rw b (omega (arith, h))
      | inr b ↦ rw b (omega (arith, h))
    ]

length-to_replay :
    (last_id : Text) (t : Topic) → length (to_replay last_id (length t.buf) t) ≤ length t.buf
length-to_replay [] t = omega arith
length-to_replay (c ∷ s) t = length-replayed (c ∷ s) t (length t.buf) 0

abbrev joined : Hub → Topic → Topic
joined h t = record t { subs = h.made ∷ t.subs }

abbrev joining : Hub → Text → Topic → List Event → Hub
joining h k t q =
    record (with_subscriber h.made
      (record (new_subscriber k (max h.replay min_buffer) false) { queue = q })
      (record h { topics = put k (joined h t) h.topics })) { made = h.made + 1 }

module _ (h : Hub) (k : Text) (t : Topic) (q : List Event) (ok : CoreOk h)
    (at : get k h.topics ≡ some t) where
  -- The others stay open.
  old : (j : Text) (s : ℕ) → Open h j s → Open (joining h k t q) j s
  old j s (c, p, m) =
      if_all (λ (u : Subscriber). (u.closed ≡ false) × (u.topic ≡ j) × (s < h.made + 1))
        (s == h.made) (λ b. absurd (ground (arith, m, b))) (λ b. (c, p, omega (arith, m)))

  at_key : (s : ℕ) → In s (joined h t).subs → Open (joining h k t q) k s
  at_key s (here e) =
      if_all (λ (u : Subscriber). (u.closed ≡ false) × (u.topic ≡ k) × (s < h.made + 1))
        (s == h.made) (λ b. (refl, refl, omega (arith, e))) (λ b. absurd (ground (arith, e, b)))
  at_key s (there m) = old k s (ok.members k s (t, at, m))

  -- A new subscriber of a topic, with the events that wait for it.
  joining-CoreOk : h.closed ≡ false → length q ≤ max h.replay min_buffer → CoreOk (joining h k t q)
  joining-CoreOk c room = record {
    distinct = put-DistinctKeys k _ h.topics ok.distinct;
    rings = λ j u e. elim (put-cases k j (joined h t) u h.topics e) [
      | inl (a, b) ↦ subst (RingOk h.replay) (sym b) (
          let r = ok.rings k t at in
          record { fits = r.fits; not_full = r.not_full; in_buf = r.in_buf })
      | inr b ↦ ok.rings j u b
    ];
    members = λ j s (u, e, m). elim (put-cases k j (joined h t) u h.topics e) [
      | inl (a, b) ↦
          subst (λ x. Open (joining h k t q) x s) (sym a)
            (at_key s (subst (λ (x : Topic). In s x.subs) b m))
      | inr b ↦ old j s (ok.members j s (u, b, m))
    ];
    listed = λ s l.
        if_all
          (λ (u : Subscriber). u.closed ≡ false → Listed (put k (joined h t) h.topics) u.topic s)
          (s == h.made)
          (λ b o. (joined h t, get-put_self k (joined h t) h.topics, here ((==_iff s h.made).0 b)))
          (λ b o.
            put-Listed k _ (joined h t) h.topics s
              (λ (u, f, m). there (subst (λ (x : Topic). In s x.subs) (some_inj (sym f ∙ at)) m))
              (ok.listed s (ground (arith, l, b)) o));
    fits = λ s.
        if_all (λ (u : Subscriber). length u.queue ≤ u.capacity) (s == h.made) (λ b. room)
          (λ b. ok.fits s);
    emptied = λ e. absurd (cc (sym c ∙ e));
  }

-- The events that a new subscriber of a topic gets fit into its channel.
subscribe_to-joining :
    (k last_id : Text) (h : Hub) (t : Topic)
    → RingOk h.replay t
    → subscribe_to k last_id (h, t) ≡ sent (joining h k t (to_replay last_id (length t.buf) t))
subscribe_to-joining k last_id h t ring =
    ap (λ u. add_subscriber u (record h { topics = put k (joined h t) h.topics }))
      (send_all-queue (to_replay last_id (length t.buf) t)
        (new_subscriber k (max h.replay min_buffer) false)
        (omega (arith, length-to_replay last_id t, ring.fits)))

-- A subscription to a closed Hub.
refused-CoreOk :
    (h : Hub) (k : Text)
    → CoreOk h
    → CoreOk (record (with_subscriber h.made (new_subscriber k 0 true) h) { made = h.made + 1 })
refused-CoreOk h k ok = record {
  distinct = ok.distinct;
  rings = ok.rings;
  members = λ j s l.
      let (c, p, m) = ok.members j s l in
      if_all (λ (u : Subscriber). (u.closed ≡ false) × (u.topic ≡ j) × (s < h.made + 1))
        (s == h.made) (λ b. absurd (ground (arith, m, b))) (λ b. (c, p, omega (arith, m)));
  listed = λ s l.
      if_all (λ (u : Subscriber). u.closed ≡ false → Listed h.topics u.topic s) (s == h.made)
        (λ b o. absurd (cc o)) (λ b o. ok.listed s (ground (arith, l, b)) o);
  fits = λ s.
      if_all (λ (u : Subscriber). length u.queue ≤ u.capacity) (s == h.made) (λ b. omega arith)
        (λ b. ok.fits s);
  emptied = ok.emptied;
}

pub subscribe-Safe : (k last_id : Text) (h : Hub) → CoreOk h → Safe (subscribe k last_id h)
unfolding subscribe
subscribe-Safe k last_id h ok =
    if_all {A = Sent} Safe h.closed (λ b. refused-CoreOk h k ok)
      (λ c.
        let f = topic_of-Found h k ok c in
        let (g, t) = topic_of k h in
        subst Safe (sym (subscribe_to-joining k last_id g t (f.core.rings k t f.at))) (
          joining-CoreOk g k t _ f.core f.at (f.same.closed ∙ c)
            (omega (arith, length-to_replay last_id t, (f.core.rings k t f.at).fits))))

-- The events that the Hub keeps of a topic.
abbrev recent_or : Option Topic → List Event
recent_or none = []
recent_or (some t) = recent t

unfoldable pub kept_events : Text → Hub → List Event
kept_events k h = recent_or (get k h.topics)

abbrev pub waiting : Text → List Event → List Event
waiting [] es = []
waiting (c ∷ s) es = unseen (c ∷ s) es

-- The subscriber `s` has just been made, with what waits in its channel.
abbrev pub Subscribed : ℕ → List Event → Sent → Type 0
Subscribed s es panicked = ⊥
Subscribed s es blocked = ⊥
Subscribed s es (sent h) =
    ((h.subscribers s).queue ≡ es) × ((h.subscribers s).closed ≡ false) × (s < h.made)

recent-Kept : (o : Option Topic) (t : Topic) → Kept o t → recent t ≡ recent_or o
recent-Kept none t (a, b, c) = ap (λ n. drop n t.buf ++ take n t.buf) c ∙ append-nil t.buf ∙ b
recent-Kept (some u) t (a, b, c) =
    ap (λ n. drop n t.buf ++ take n t.buf) c ∙ ap (λ l. drop u.start l ++ take u.start l) b

to_replay-waiting :
    (last_id : Text) (replay : ℕ) (t : Topic)
    → RingOk replay t
    → to_replay last_id (length t.buf) t ≡ waiting last_id (recent t)
to_replay-waiting [] replay t ok = refl
to_replay-waiting (c ∷ s) replay t ok = replayed-unseen (c ∷ s) replay t ok

joining-Subscribed :
    (h : Hub) (k : Text) (t : Topic) (q : List Event) (s : ℕ)
    → h.made ≡ s
    → Subscribed s q (sent (joining h k t q))
joining-Subscribed h k t q s e =
    if_all (λ (u : Subscriber). (u.queue ≡ q) × (u.closed ≡ false) × (s < h.made + 1)) (s == h.made)
      (λ b. (refl, refl, omega (arith, e))) (λ b. absurd (ground (arith, e, b)))

-- A subscription to an open Hub returns, and what waits in the new channel is, in the order of the
-- publications, what the topic keeps of the events after the last identifier; without such an
-- identifier it is nothing.
pub subscribe-Subscribed :
    (k last_id : Text) (h : Hub)
    → CoreOk h
    → h.closed ≡ false
    → Subscribed h.made (waiting last_id (kept_events k h)) (subscribe k last_id h)
unfolding subscribe kept_events
subscribe-Subscribed k last_id h ok c =
    let f = topic_of-Found h k ok c in
    let (g, t) = topic_of k h in
    let ring = f.core.rings k t f.at in
    let queue =
      to_replay-waiting last_id g.replay t ring
      ∙ ap (waiting last_id) (recent-Kept (get k h.topics) t f.kept) in
    if_all {A = Sent} (Subscribed h.made (waiting last_id (kept_events k h))) h.closed
      (λ b. absurd (cc (sym c ∙ b)))
      (λ b.
        subst (Subscribed h.made (waiting last_id (kept_events k h)))
          (ap (λ q. sent (joining g k t q)) (sym queue)
            ∙ sym (subscribe_to-joining k last_id g t ring))
          (joining-Subscribed g k t _ h.made f.same.made))
