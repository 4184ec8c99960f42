-- ===== src/Realtime/Hub/Laws.antt =====
-- realtime/hub.go: `Publish` keeps the Hub and does not panic.
use mathlib.Core.Path.{subst}
use torge.Base.{
  ℕ, ◌+◌, ◌%◌, ◌≡◌, refl, sym, ◌∙◌, false, List, Option, none, some, ltb, ◌==◌, if_all, length,
}
use torge.Base.Members.{In}
use torge.Base.Text.{Text}
use torge.Base.Assoc.{get, put}
use torge.Realtime.{Event, Topic, two_64}
use torge.Realtime.Ring.{record_event-RingOk}
use torge.Realtime.Hub.{
  Hub, Sent, panicked, blocked, sent, published, publish_to, publish_known, publish, topic_of,
  drop_slow,
}
use torge.Realtime.Hub.Core.{CoreOk, put-CoreOk, some_inj}
use torge.Realtime.Hub.Topics.{topic_of-Found}
use torge.Realtime.Hub.Channels.{Delivered, deliver-Delivered, Sends-CoreOk}
use torge.Realtime.Hub.Detach.{detach_all-CoreOk}

-- An operation returns, and leaves a Hub that is well formed.
abbrev pub Safe : Sent → Type 0
Safe panicked = ⊥
Safe blocked = ⊥
Safe (sent h) = CoreOk h

drop_slow-Safe :
    (k : Text) (h : Hub) (ss : List ℕ) (o : Option (Hub × List ℕ))
    → CoreOk h
    → ((s : ℕ) → In s ss → (h.subscribers s).topic ≡ k)
    → Delivered h ss o
    → Safe (drop_slow k o)
drop_slow-Safe k h ss none ok own d = d
drop_slow-Safe k h ss (some (g, ds)) ok own (sends, of) =
    detach_all-CoreOk k ds g (Sends-CoreOk h g sends ok)
      (λ s m. (sends.each s).topic ∙ own s (of s m))

published-subs : (replay : ℕ) (e : Event) (t : Topic) → (published replay e t).0.subs ≡ t.subs
published-subs replay e t =
    if_all {A = Topic} (λ x. x.subs ≡ t.subs) (ltb 0 replay)
      (λ b.
        if_all {A = Topic} (λ x. x.subs ≡ t.subs) (ltb (length t.buf) replay) (λ c. refl)
          (λ c. refl))
      (λ b. refl)

publish_to-Safe :
    (k : Text) (e : Event) (h : Hub) (t : Topic)
    → CoreOk h
    → h.closed ≡ false
    → get k h.topics ≡ some t
    → Safe (publish_to k e (h, t))
publish_to-Safe k e h t ok c at =
    let after = (published h.replay e t).0 in
    let same = published-subs h.replay e t in
    let r = ok.rings k t at in
    let mine = λ (s : ℕ) (m : In s after.subs). ok.members k s (t, at, subst (In s) same m) in
    let core =
      put-CoreOk h k after ok c
        (record_event-RingOk h.replay _ (record t { next = (t.next + 1) % two_64 })
          (record { fits = r.fits; not_full = r.not_full; in_buf = r.in_buf }))
        mine
        (λ s (u, f, m).
          subst (In s) (sym same) (subst (λ (x : Topic). In s x.subs) (some_inj (sym f ∙ at)) m)) in
    drop_slow-Safe k (record h { topics = put k after h.topics }) after.subs _ core
      (λ s m. (mine s m).1) (deliver-Delivered _ after.subs _ (λ s m. (mine s m).0))

pub publish-Safe : (k : Text) (e : Event) (h : Hub) → CoreOk h → Safe (publish k e h)
unfolding publish
publish-Safe k e h ok =
    if_all {A = Sent} Safe h.closed (λ b. ok)
      (λ c.
        if_all {A = Sent} Safe (h.replay == 0) (λ b. known (get k h.topics) refl c)
          (λ b.
            let f = topic_of-Found h k ok c in
            publish_to-Safe k e (topic_of k h).0 (topic_of k h).1 f.core (f.same.closed ∙ c) f.at))
  where
    known :
        (o : Option Topic) → get k h.topics ≡ o → h.closed ≡ false → Safe (publish_known k e h o)
    known none at c = ok
    known (some t) at c = publish_to-Safe k e h t ok c at
