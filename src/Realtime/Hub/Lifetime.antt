-- ===== src/Realtime/Hub/Lifetime.antt =====
-- realtime/hub.go: `Close`, and a Hub through any sequence of operations.
use mathlib.Core.Path.{subst}
use torge.Base.{
  ℕ, ◌<◌, ◌≤◌, ◌≡◌, refl, sym, ◌∙◌, ap, inl, inr, true, false, List, [], ◌∷◌, some, arith,
  Bool-cases, ◌==◌, ==_iff, if_all, length,
}
use torge.Base.Members.{In, here, there}
use torge.Base.Text.{Text, text_eq}
use torge.Base.Assoc.{get}
use torge.Realtime.{Event, Topic, Subscriber}
use torge.Realtime.Hub.{
  Hub, new_hub, Sent, panicked, blocked, sent, publish, subscribe, close_all, close_topics,
  close_hub, close_subscriber, receive, remove_sub, tail_of,
}
use torge.Realtime.Hub.Core.{CoreOk, Listed}
use torge.Realtime.Hub.Channels.{Sends-CoreOk, SameUnlessQueue, same_subscriber}
use torge.Realtime.Hub.Detach.{remove_sub-CoreOk}
use torge.Realtime.Hub.Laws.{Safe, publish-Safe}
use torge.Realtime.Hub.Subscribe.{subscribe-Safe}

-- Subscribers are closed, and nothing else changes.
record Closes (h g : Hub) : Type 0 where
  made : g.made ≡ h.made
  replay : g.replay ≡ h.replay
  closed : g.closed ≡ h.closed
  queue : (s : ℕ) → (g.subscribers s).queue ≡ (h.subscribers s).queue
  capacity : (s : ℕ) → (g.subscribers s).capacity ≡ (h.subscribers s).capacity
  topic : (s : ℕ) → (g.subscribers s).topic ≡ (h.subscribers s).topic
  stays : (s : ℕ) → (h.subscribers s).closed ≡ true → (g.subscribers s).closed ≡ true

Closes-trans : (f g h : Hub) → Closes f g → Closes g h → Closes f h
Closes-trans f g h a b = record {
  made = b.made ∙ a.made;
  replay = b.replay ∙ a.replay;
  closed = b.closed ∙ a.closed;
  queue = λ s. b.queue s ∙ a.queue s;
  capacity = λ s. b.capacity s ∙ a.capacity s;
  topic = λ s. b.topic s ∙ a.topic s;
  stays = λ s c. b.stays s (a.stays s c);
}

Closes-refl : (h : Hub) → Closes h h
Closes-refl h = record {
  made = refl;
  replay = refl;
  closed = refl;
  queue = λ s. refl;
  capacity = λ s. refl;
  topic = λ s. refl;
  stays = λ s c. c;
}

one_close : (s : ℕ) (h : Hub) → Closes h (close_subscriber s h)
one_close s h = record {
  made = refl;
  replay = refl;
  closed = refl;
  queue = λ j.
      if_all (λ (u : Subscriber). u.queue ≡ (h.subscribers j).queue) (j == s)
        (λ b. at j b (λ u. u.queue)) (λ b. refl);
  capacity = λ j.
      if_all (λ (u : Subscriber). u.capacity ≡ (h.subscribers j).capacity) (j == s)
        (λ b. at j b (λ u. u.capacity)) (λ b. refl);
  topic = λ j.
      if_all (λ (u : Subscriber). u.topic ≡ (h.subscribers j).topic) (j == s)
        (λ b. at j b (λ u. u.topic)) (λ b. refl);
  stays = λ j c. if_all (λ (u : Subscriber). u.closed ≡ true) (j == s) (λ b. refl) (λ b. c);
}
  where
    at :
        {A : Type 0} (j : ℕ)
        → (j == s) ≡ true
        → (f : Subscriber → A) → f (h.subscribers s) ≡ f (h.subscribers j)
    at j b f = ap (λ i. f (h.subscribers i)) (sym ((==_iff j s).0 b))

close_all-Closes :
    (ss : List ℕ) (h : Hub)
    → Closes h (close_all ss h)
      × ((s : ℕ) → In s ss → ((close_all ss h).subscribers s).closed ≡ true)
unfolding close_all
close_all-Closes [] h = (Closes-refl h, λ s m. elim m [ ])
close_all-Closes (j ∷ ss) h =
    let (c, done) = close_all-Closes ss (close_subscriber j h) in
    (
      Closes-trans h _ _ (one_close j h) c,
      λ s m. elim m [
        | here e ↦ c.stays s (
            if_all (λ (u : Subscriber). u.closed ≡ true) (s == j) (λ b. refl)
              (λ b. absurd (cc (sym b ∙ (==_iff s j).1 e))))
        | there n ↦ done s n
      ],
    )

close_topics-Closes :
    (ts : List (Text × Topic)) (h : Hub)
    → Closes h (close_topics ts h)
      × ((k : Text) (s : ℕ) → Listed ts k s → ((close_topics ts h).subscribers s).closed ≡ true)
unfolding close_topics get
close_topics-Closes [] h = (Closes-refl h, λ k s (t, e, m). absurd (cc e))
close_topics-Closes ((j, u) ∷ ts) h =
    let (a, first) = close_all-Closes u.subs h in
    let (b, rest) = close_topics-Closes ts (close_all u.subs h) in
    (
      Closes-trans h _ _ a b,
      λ k s (t, e, m). elim (Bool-cases (text_eq j k)) [
        | inl c ↦ b.stays s (first s (subst (λ (x : Topic). In s x.subs) (sym (inj (rw c at e))) m))
        | inr c ↦ rest k s (t, rw c at e, m)
      ],
    )
  where
    inj : {x y : Topic} → some x ≡ some y → x ≡ y
    inj e = cc e

get-empty : (k : Text) (t : Topic) → get k [] ≡ some t → ⊥
unfolding get
get-empty k t e = absurd (cc e)

close_hub-CoreOk : (h : Hub) → CoreOk h → CoreOk (close_hub h)
unfolding close_hub
close_hub-CoreOk h ok =
    if_all {A = Hub} CoreOk h.closed (λ b. ok)
      (λ b.
        let (c, done) = close_topics-Closes h.topics (record h { closed = true }) in
        all_closed (close_topics h.topics (record h { closed = true })) c done)
  where
    all_closed :
        (g : Hub)
        → Closes (record h { closed = true }) g
        → ((k : Text) (s : ℕ) → Listed h.topics k s → (g.subscribers s).closed ≡ true)
        → CoreOk (record g { topics = [] })
    all_closed g c done = record {
      distinct = tt;
      rings = λ k t e. absurd (get-empty k t e);
      members = λ k s (t, e, m). absurd (get-empty k t e);
      listed = λ s l o. absurd (was s (subst (λ n. s < n) c.made l) o);
      fits = λ s.
          subst (λ q. length q ≤ (g.subscribers s).capacity) (sym (c.queue s))
            (subst (λ n. length (h.subscribers s).queue ≤ n) (sym (c.capacity s)) (ok.fits s));
      emptied = λ e. refl;
    }
      where
        was : (s : ℕ) → s < h.made → (g.subscribers s).closed ≡ false → ⊥
        was s l o = elim (Bool-cases (h.subscribers s).closed) [
          | inl b ↦ absurd (cc (sym o ∙ c.stays s b))
          | inr b ↦ absurd (cc (sym o ∙ done (h.subscribers s).topic s (ok.listed s l b)))
        ]

receive-CoreOk : (s : ℕ) (h : Hub) → CoreOk h → CoreOk (receive s h)
receive-CoreOk s h ok =
    Sends-CoreOk h (receive s h)
      (record {
        topics = refl;
        replay = refl;
        closed = refl;
        made = refl;
        each = λ j.
            if_all (SameUnlessQueue (h.subscribers j)) (j == s)
              (λ b.
                subst
                  (λ i.
                    SameUnlessQueue (h.subscribers i)
                      (record (h.subscribers s) { queue = tail_of (h.subscribers s).queue }))
                  (sym ((==_iff j s).0 b))
                  (record {
                    topic = refl;
                    capacity = refl;
                    closed = refl;
                    fits = λ f. shorter (h.subscribers s).queue f;
                  }))
              (λ b. same_subscriber (h.subscribers j));
      })
      ok
  where
    shorter : (q : List Event) {n : ℕ} → length q ≤ n → length (tail_of q) ≤ n
    shorter [] f = f
    shorter (e ∷ q) f = omega (arith, f)

-- What is called of a Hub, and what a client takes out of its channel.
pub data Operation : Type 0 where
  publishes : Text → Event → Operation
  subscribes : (topic last_id : Text) → Operation
  unsubscribes receives : ℕ → Operation
  closes : Operation

abbrev pub perform : Operation → Hub → Sent
perform (publishes k e) h = publish k e h
perform (subscribes k last_id) h = subscribe k last_id h
perform (unsubscribes s) h = sent (remove_sub s h)
perform (receives s) h = sent (receive s h)
perform closes h = sent (close_hub h)

abbrev pub after_sent : (Hub → Sent) → Sent → Sent
after_sent k panicked = panicked
after_sent k blocked = blocked
after_sent k (sent h) = k h

unfoldable pub run : List Operation → Hub → Sent
run [] h = sent h
run (o ∷ os) h = after_sent (run os) (perform o h)

perform-Safe : (o : Operation) (h : Hub) → CoreOk h → Safe (perform o h)
perform-Safe (publishes k e) h ok = publish-Safe k e h ok
perform-Safe (subscribes k last_id) h ok = subscribe-Safe k last_id h ok
perform-Safe (unsubscribes s) h ok = remove_sub-CoreOk s h ok
perform-Safe (receives s) h ok = receive-CoreOk s h ok
perform-Safe closes h ok = close_hub-CoreOk h ok

after_sent-Safe :
    (k : Hub → Sent) (r : Sent)
    → Safe r
    → ((g : Hub) → CoreOk g → Safe (k g))
    → Safe (after_sent k r)
after_sent-Safe k panicked s next = absurd s
after_sent-Safe k blocked s next = absurd s
after_sent-Safe k (sent g) s next = next g s

run_from-Safe : (os : List Operation) (h : Hub) → CoreOk h → Safe (run os h)
unfolding run
run_from-Safe [] h ok = ok
run_from-Safe (o ∷ os) h ok =
    after_sent-Safe (run os) (perform o h) (perform-Safe o h ok) (λ g s. run_from-Safe os g s)

pub new_hub-CoreOk : (replay max_topics : ℕ) → CoreOk (new_hub replay max_topics)
unfolding get
new_hub-CoreOk replay max_topics = record {
  distinct = tt;
  rings = λ k t e. absurd (cc e);
  members = λ k s (t, e, m). absurd (cc e);
  listed = λ s l o. absurd (cc o);
  fits = λ s. omega arith;
  emptied = λ e. refl;
}

-- In any sequence of publications, subscriptions, cancellations, receives and closes of a new Hub no
-- channel is sent to after its close, no send waits while the lock is held, and afterwards the
-- subscribers of the topics are the open ones, no queue is over its capacity, no buffer is over the
-- replay size, and a closed Hub has no topics.
pub run-Safe :
    (replay max_topics : ℕ) (os : List Operation) → Safe (run os (new_hub replay max_topics))
run-Safe replay max_topics os =
    run_from-Safe os (new_hub replay max_topics) (new_hub-CoreOk replay max_topics)
