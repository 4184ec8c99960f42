-- ===== src/Realtime/Tests.antt =====
-- realtime/hub.go: a Hub that keeps two events of a topic, and the theorems at its states.
use mathlib.Core.Path.{subst}
use torge.Base.{ℕ, ◌≡◌, refl, inr, false, List, [], ◌∷◌, ◌++◌, ltb, arith}
use torge.Base.Text.{Text, text, text_eq}
use torge.Base.Assoc.{get, put, del}
use torge.Realtime.{
  Event, Topic, record_event, replayed, after_last_id, parse_uint, digits_after, digits_of,
  format_uint,
}
use torge.Realtime.Ring.{RingOk, recent, last_of, record_event-last_of}
use torge.Realtime.Hub.{
  Hub, new_hub, Sent, panicked, blocked, sent, publish, subscribe, topic_of, evict, victim, deliver,
  detach, detach_all, without, remove_sub, send_all, close_hub, close_topics, close_all,
}
use torge.Realtime.Ids.{after_last_id-format_uint}
use torge.Realtime.Hub.Core.{CoreOk}
use torge.Realtime.Hub.Laws.{Safe}
use torge.Realtime.Hub.Subscribe.{waiting, kept_events, Subscribed, subscribe-Subscribed}
use torge.Realtime.Hub.Lifetime.{Operation, publishes, subscribes, run, run-Safe}

program : Unit {0}
unfolding text_eq get put del replayed after_last_id parse_uint digits_after digits_of format_uint
    publish subscribe topic_of evict victim deliver detach detach_all without remove_sub send_all
    close_hub close_topics close_all kept_events run
program = tt

abbrev event : Text → ℕ → Event
event id n = record { id = id; name = text "reading"; payload = n }

-- A topic with a subscriber, three events, and an unknown subscriber's cancellation.
abbrev history : List Operation
history =
    subscribes (text "room") []
    ∷ publishes (text "room") (event [] 5)
    ∷ publishes (text "room") (event (text "b") 6)
    ∷ publishes (text "room") (event [] 7)
    ∷ []

abbrev hub_of : Sent → Hub
hub_of panicked = new_hub 0 0
hub_of blocked = new_hub 0 0
hub_of (sent h) = h

abbrev hub : Hub
hub = hub_of (run history (new_hub 2 1))

-- The subscriber has all three events, the topic the last two.
queued :
    (hub.subscribers 0).queue ≡ event (text "1") 5 ∷ event (text "b") 6 ∷ event (text "3") 7 ∷ []
unfolding program
queued = refl

kept : kept_events (text "room") hub ≡ event (text "b") 6 ∷ event (text "3") 7 ∷ []
unfolding program
kept = refl

returned : run history (new_hub 2 1) ≡ sent hub
unfolding program
returned = refl

hub-CoreOk : CoreOk hub
hub-CoreOk = subst Safe returned (run-Safe 2 1 history)

-- The identifier of the last event is 3, and a client that has seen it gets the event with an
-- identifier of its own again.
seen : waiting (text "3") (kept_events (text "room") hub) ≡ event (text "b") 6 ∷ []
unfolding program
seen = refl

still_open : hub.closed ≡ false
unfolding program
still_open = refl

run-Safe_example : Safe (run history (new_hub 2 1))
run-Safe_example = run-Safe 2 1 history

subscribe-Subscribed_example :
    Subscribed hub.made
      (waiting (text "3") (kept_events (text "room") hub))
      (subscribe (text "room") (text "3") hub)
subscribe-Subscribed_example =
    subscribe-Subscribed (text "room") (text "3") hub hub-CoreOk still_open

abbrev full : Topic
full = record {
  next = 3;
  buf = event (text "3") 7 ∷ event (text "2") 6 ∷ [];
  start = 1;
  subs = [];
  last_use = 0;
}

full-RingOk : RingOk 2 full
full-RingOk = record {
  fits = omega arith;
  not_full = λ l. absurd (omega (arith, l));
  in_buf = inr (omega arith);
}

record_event-last_of_example :
    recent (record_event 2 (event (text "4") 8) full)
    ≡ last_of 2 (recent full ++ event (text "4") 8 ∷ [])
record_event-last_of_example =
    record_event-last_of 2 (event (text "4") 8) full (omega arith) full-RingOk

after_last_id-format_uint_example : after_last_id (format_uint 12) (format_uint 9) ≡ ltb 9 12
after_last_id-format_uint_example = after_last_id-format_uint 12 9 (omega arith) (omega arith)
