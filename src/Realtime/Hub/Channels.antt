-- ===== src/Realtime/Hub/Channels.antt =====
-- realtime/hub.go: the sends to the subscribers' channels, and their closes.
use mathlib.Core.Path.{subst}
use torge.Base.{
  ℕ, ◌<◌, ◌≤◌, ◌≡◌, refl, sym, ◌∙◌, ap, ◌⊎◌, inl, inr, true, false, List, [], ◌∷◌, ◌++◌, Option,
  none, some, tests, Bool-cases, ltb, ◌==◌, ==_iff, if_all, length, length-append,
}
use torge.Base.Members.{In, here, there}
use torge.Base.Text.{Text}
use torge.Base.Assoc.{get, DistinctKeys}
use torge.Realtime.{Event, Topic, Subscriber}
use torge.Realtime.Ring.{RingOk}
use torge.Realtime.Hub.{Hub, with_subscriber, also_dropped, deliver, without, close_subscriber}
use torge.Realtime.Hub.Core.{CoreOk, Listed}

-- What a publication may change of a subscriber: the events in its queue.
pub record SameUnlessQueue (u v : Subscriber) : Type 0 where
  pub topic : v.topic ≡ u.topic
  pub capacity : v.capacity ≡ u.capacity
  pub closed : v.closed ≡ u.closed
  pub fits : length u.queue ≤ u.capacity → length v.queue ≤ v.capacity

-- A Hub after the sends: everything else is as before.
pub record Sends (h g : Hub) : Type 0 where
  pub topics : g.topics ≡ h.topics
  pub replay : g.replay ≡ h.replay
  pub closed : g.closed ≡ h.closed
  pub made : g.made ≡ h.made
  pub each : (s : ℕ) → SameUnlessQueue (h.subscribers s) (g.subscribers s)

pub Sends-CoreOk : (h g : Hub) → Sends h g → CoreOk h → CoreOk g
Sends-CoreOk h g d ok = record {
  distinct = rw (d.topics) ok.distinct;
  rings = λ k t e.
      subst (λ r. RingOk r t) (sym d.replay) (ok.rings k t (sym (ap (get k) d.topics) ∙ e));
  members = λ k s l.
      let (c, p, m) = ok.members k s (subst (λ ts. Listed ts k s) d.topics l) in
      ((d.each s).closed ∙ c, (d.each s).topic ∙ p, subst (λ n. s < n) (sym d.made) m);
  listed = λ s l c.
      subst (λ ts. Listed ts (g.subscribers s).topic s) (sym d.topics)
        (subst (λ k. Listed h.topics k s) (sym (d.each s).topic)
          (ok.listed s (subst (λ n. s < n) d.made l) (sym (d.each s).closed ∙ c)));
  fits = λ s. (d.each s).fits (ok.fits s);
  emptied = λ c. d.topics ∙ ok.emptied (sym d.closed ∙ c);
}

pub same_subscriber : (u : Subscriber) → SameUnlessQueue u u
same_subscriber u = record { topic = refl; capacity = refl; closed = refl; fits = λ f. f }

Sends-refl : (h : Hub) → Sends h h
Sends-refl h = record {
  topics = refl;
  replay = refl;
  closed = refl;
  made = refl;
  each = λ s. same_subscriber (h.subscribers s);
}

Sends-trans : (f g h : Hub) → Sends f g → Sends g h → Sends f h
Sends-trans f g h a b = record {
  topics = b.topics ∙ a.topics;
  replay = b.replay ∙ a.replay;
  closed = b.closed ∙ a.closed;
  made = b.made ∙ a.made;
  each = λ s. record {
    topic = (b.each s).topic ∙ (a.each s).topic;
    capacity = (b.each s).capacity ∙ (a.each s).capacity;
    closed = (b.each s).closed ∙ (a.each s).closed;
    fits = λ f. (b.each s).fits ((a.each s).fits f);
  };
}

-- One send, into a channel with room.
one_send :
    (e : Event) (s : ℕ) (h : Hub)
    → ltb (length (h.subscribers s).queue) (h.subscribers s).capacity ≡ true
    → Sends h (
        with_subscriber s
          (record (h.subscribers s) { queue = (h.subscribers s).queue ++ e ∷ [] })
          h)
one_send e s h room = record {
  topics = refl;
  replay = refl;
  closed = refl;
  made = refl;
  each = λ j.
      if_all (SameUnlessQueue (h.subscribers j)) (j == s)
        (λ b.
          subst
            (λ i.
              SameUnlessQueue (h.subscribers i)
                (record (h.subscribers s) { queue = (h.subscribers s).queue ++ e ∷ [] }))
            (sym ((==_iff j s).0 b))
            (record {
              topic = refl;
              capacity = refl;
              closed = refl;
              fits = λ f. omega (tests, length-append (h.subscribers s).queue (e ∷ []), room);
            }))
        (λ b. same_subscriber (h.subscribers j));
}

-- The sends to open channels do not panic, and only subscribers of the list are dropped.
abbrev pub Delivered : Hub → List ℕ → Option (Hub × List ℕ) → Type 0
Delivered h ss none = ⊥
Delivered h ss (some (g, ds)) = Sends h g × ((s : ℕ) → In s ds → In s ss)

Delivered-also :
    (h : Hub) (s : ℕ) (ss : List ℕ) (o : Option (Hub × List ℕ))
    → Delivered h ss o
    → Delivered h (s ∷ ss) (also_dropped s o)
Delivered-also h s ss none d = d
Delivered-also h s ss (some (g, ds)) (sends, of) =
    (sends, λ j m. elim m [ here e ↦ here e | there n ↦ there (of j n) ])

Delivered-after :
    (f h : Hub) (s : ℕ) (ss : List ℕ) (o : Option (Hub × List ℕ))
    → Sends f h
    → Delivered h ss o
    → Delivered f (s ∷ ss) o
Delivered-after f h s ss none a d = d
Delivered-after f h s ss (some (g, ds)) a (sends, of) =
    (Sends-trans f h g a sends, λ j m. there (of j m))

pub deliver-Delivered :
    (e : Event) (ss : List ℕ) (h : Hub)
    → ((s : ℕ) → In s ss → (h.subscribers s).closed ≡ false)
    → Delivered h ss (deliver e ss h)
unfolding deliver
deliver-Delivered e [] h open_all = (Sends-refl h, λ s m. m)
deliver-Delivered e (s ∷ ss) h open_all =
    if_all (Delivered h (s ∷ ss)) (h.subscribers s).closed
      (λ b. absurd (cc (sym (open_all s (here refl)) ∙ b)))
      (λ b.
        if_all (Delivered h (s ∷ ss))
          (ltb (length (h.subscribers s).queue) (h.subscribers s).capacity)
          (λ room.
            let one = one_send e s h room in
            Delivered-after h _ s ss _ one
              (deliver-Delivered e ss _ (λ j m. (one.each j).closed ∙ open_all j (there m))))
          (λ full.
            Delivered-also h s ss _ (deliver-Delivered e ss h (λ j m. open_all j (there m)))))

pub In-without : (s j : ℕ) (js : List ℕ) → In j (without s js) → In j js × ((j == s) ≡ false)
unfolding without
In-without s j [] m = elim m [ ]
In-without s j (i ∷ js) m = elim (Bool-cases (i == s)) [
  | inl b ↦ let (n, o) = In-without s j js (rw b at m) in (there n, o)
  | inr b ↦ elim (the_cases (rw b at m)) [
    | inl e ↦ (here e, ap (λ x. x == s) e ∙ b)
    | inr n ↦ let (l, o) = In-without s j js n in (there l, o)
  ]
]
  where
    the_cases : {xs : List ℕ} → In j (i ∷ xs) → (j ≡ i) ⊎ In j xs
    the_cases (here e) = inl e
    the_cases (there n) = inr n

pub without-keeps : (s j : ℕ) (js : List ℕ) → In j js → (j == s) ≡ false → In j (without s js)
unfolding without
without-keeps s j [] m o = m
without-keeps s j (i ∷ js) (here e) o = rw (ap (λ x. x == s) (sym e) ∙ o) (here e)
without-keeps s j (i ∷ js) (there m) o =
    if_all (In j) (i == s) (λ b. without-keeps s j js m o) (λ b. there (without-keeps s j js m o))

-- A closed subscriber leaves its topic, and every other stays.
pub record Leaves (h : Hub) (s : ℕ) (ts : List (Text × Topic)) : Type 0 where
  pub distinct : DistinctKeys ts
  pub rings : (k : Text) (t : Topic) → get k ts ≡ some t → RingOk h.replay t
  pub shrunk : (k : Text) (j : ℕ) → Listed ts k j → Listed h.topics k j × ((j == s) ≡ false)
  pub grown : (k : Text) (j : ℕ) → Listed h.topics k j → (j == s) ≡ false → Listed ts k j
  pub emptied : h.topics ≡ [] → ts ≡ []

pub Leaves-CoreOk :
    (h : Hub) (s : ℕ) (ts : List (Text × Topic))
    → CoreOk h
    → Leaves h s ts
    → CoreOk (close_subscriber s (record h { topics = ts }))
Leaves-CoreOk h s ts ok l = record {
  distinct = l.distinct;
  rings = l.rings;
  members = λ k j m.
      let (was, other) = l.shrunk k j m in
      let (c, p, n) = ok.members k j was in
      if_all (λ (u : Subscriber). (u.closed ≡ false) × (u.topic ≡ k) × (j < h.made)) (j == s)
        (λ b. absurd (cc (sym other ∙ b))) (λ b. (c, p, n));
  listed = λ j n.
      if_all (λ (u : Subscriber). u.closed ≡ false → Listed ts u.topic j) (j == s)
        (λ b c. absurd (cc c)) (λ b c. l.grown (h.subscribers j).topic j (ok.listed j n c) b);
  fits = λ j.
      if_all (λ (u : Subscriber). length u.queue ≤ u.capacity) (j == s) (λ b. ok.fits s)
        (λ b. ok.fits j);
  emptied = λ c. l.emptied (ok.emptied c);
}
