-- ===== src/Realtime/Hub.antt =====
-- realtime/hub.go: the Hub and its operations. Each holds the lock from its first step to its last, so
-- an operation is one step; the order of a map is that of its list.
pub mod Core
pub mod Topics
pub mod Channels
pub mod Detach
pub mod Laws
pub mod Subscribe
pub mod Lifetime
use torge.Base.{
  ℕ, zero, suc, ◌+◌, ◌%◌, max, Bool, true, false, not, ◌&&◌, ◌||◌, List, [], ◌∷◌, ◌++◌, Option,
  none, some, ltb, ◌==◌, if◌then◌else◌, length,
}
use torge.Base.Text.{Text}
use torge.Base.Assoc.{get, put, del}
use torge.Realtime.{
  Event, Topic, new_topic, Subscriber, two_64, format_uint, record_event, replayed,
}

-- A subscriber is a number below `made`.
pub record Hub : Type 0 where
  pub topics : List (Text × Topic)
  pub replay : ℕ
  pub max_topics : ℕ
  pub use_seq : ℕ
  pub closed : Bool
  pub made : ℕ
  pub subscribers : ℕ → Subscriber

abbrev no_subscriber : Subscriber
no_subscriber = record { topic = []; queue = []; capacity = 0; closed = true }

-- `NewHub` with its options, which turn a negative size to 0.
abbrev pub new_hub : (replay max_topics : ℕ) → Hub
new_hub replay max_topics = record {
  topics = [];
  replay = replay;
  max_topics = max_topics;
  use_seq = 0;
  closed = false;
  made = 0;
  subscribers = λ s. no_subscriber;
}

abbrev pub is_empty {ℓ} : {A : Type ℓ} → List A → Bool
is_empty [] = true
is_empty (x ∷ xs) = false

-- What `evictLocked` has found: a topic without subscribers, and its last use.
abbrev pub older : Text → Topic → Option (Text × ℕ) → Option (Text × ℕ)
older k t none = some (k, t.last_use)
older k t (some (v, oldest)) =
    if ltb t.last_use oldest then some (k, t.last_use) else some (v, oldest)

unfoldable pub victim : List (Text × Topic) → Option (Text × ℕ) → Option (Text × ℕ)
victim [] found = found
victim ((k, t) ∷ ts) found = victim ts (if is_empty t.subs then older k t found else found)

abbrev pub evict_found : Option (Text × ℕ) → Hub → Hub
evict_found none h = h
evict_found (some (k, oldest)) h = record h { topics = del k h.topics }

-- `evictLocked`.
unfoldable pub evict : Hub → Hub
unfolding victim
evict h =
    if h.max_topics == 0 || ltb (length h.topics) h.max_topics
    then h
    else evict_found (victim h.topics none) h

-- `touchLocked`, for a topic that is then at the key.
abbrev pub touch : Text → Topic → Hub → Hub × Topic
touch k t h =
    let used = record t { last_use = h.use_seq } in
    (record h { topics = put k used h.topics; use_seq = (h.use_seq + 1) % two_64 }, used)

abbrev pub or_new : Text → Option Topic → Hub → Hub × Topic
or_new k none h = touch k new_topic (evict h)
or_new k (some t) h = touch k t h

-- `topicLocked`.
unfoldable pub topic_of : Text → Hub → Hub × Topic
unfolding evict
topic_of k h = or_new k (get k h.topics) h

abbrev pub with_subscriber : ℕ → Subscriber → Hub → Hub
with_subscriber s u h = record h { subscribers = λ j. if j == s then u else h.subscribers j }

-- The close of a subscriber's channel, unless it is closed.
abbrev pub close_subscriber : ℕ → Hub → Hub
close_subscriber s h = with_subscriber s (record (h.subscribers s) { closed = true }) h

unfoldable pub without : ℕ → List ℕ → List ℕ
without s [] = []
without s (j ∷ js) = let rest = without s js in if j == s then rest else j ∷ rest

-- `detachLocked` where the topic is in the map, and the other branch of `removeSub`.
abbrev pub leave_topic : Text → ℕ → Option Topic → Hub → Hub
leave_topic k s none h = h
leave_topic k s (some t) h =
    let subs = without s t.subs in
    if is_empty subs && (h.replay == 0 || is_empty t.buf)
    then record h { topics = del k h.topics }
    else record h { topics = put k (record t { subs = subs }) h.topics }

unfoldable pub detach : Text → ℕ → Hub → Hub
unfolding without
detach k s h = close_subscriber s (leave_topic k s (get k h.topics) h)

-- `removeSub`, which `unsubscribe` calls once.
unfoldable pub remove_sub : ℕ → Hub → Hub
unfolding detach
remove_sub s h = detach (h.subscribers s).topic s h

-- A send on a closed channel panics. A publication does not block, a subscription would.
pub data Sent : Type 0 where
  panicked blocked : Sent
  sent : Hub → Sent

abbrev pub also_dropped : ℕ → Option (Hub × List ℕ) → Option (Hub × List ℕ)
also_dropped s none = none
also_dropped s (some (h, ds)) = some (h, s ∷ ds)

-- The loop of `Publish` over the subscribers, with those that are dropped.
unfoldable pub deliver : Event → List ℕ → Hub → Option (Hub × List ℕ)
deliver e [] h = some (h, [])
deliver e (s ∷ ss) h =
    let u = h.subscribers s in
    let queued = deliver e ss (with_subscriber s (record u { queue = u.queue ++ e ∷ [] }) h) in
    let dropped = also_dropped s (deliver e ss h) in
    if u.closed then none else if ltb (length u.queue) u.capacity then queued else dropped

unfoldable pub detach_all : Text → List ℕ → Hub → Hub
unfolding detach
detach_all k [] h = h
detach_all k (s ∷ ss) h = detach_all k ss (detach k s h)

abbrev pub numbered : ℕ → Event → Event
numbered n e = if is_empty e.id then record e { id = format_uint n } else e

-- The topic after a publication, with the event that is sent.
abbrev pub published : ℕ → Event → Topic → Topic × Event
published replay e t =
    let n = (t.next + 1) % two_64 in
    let sent = numbered n e in (record_event replay sent (record t { next = n }), sent)

abbrev pub drop_slow : Text → Option (Hub × List ℕ) → Sent
drop_slow k none = panicked
drop_slow k (some (h, ds)) = sent (detach_all k ds h)

-- `Publish` once it has the topic.
abbrev pub publish_to : Text → Event → Hub × Topic → Sent
publish_to k e (h, t) =
    let (after, event) = published h.replay e t in
    drop_slow k (deliver event after.subs (record h { topics = put k after h.topics }))

abbrev pub publish_known : Text → Event → Hub → Option Topic → Sent
publish_known k e h none = sent h
publish_known k e h (some t) = publish_to k e (h, t)

unfoldable pub publish : Text → Event → Hub → Sent
unfolding topic_of deliver detach_all
publish k e h =
    if h.closed
    then sent h
    else if h.replay == 0
    then publish_known k e h (get k h.topics)
    else publish_to k e (topic_of k h)

-- The floor of a channel's capacity, minSubscriberBufferSize.
abbrev pub min_buffer : ℕ
min_buffer = 16

-- The sends of the loop of `Subscribe`.
unfoldable pub send_all : List Event → Subscriber → Option Subscriber
send_all [] u = some u
send_all (e ∷ es) u =
    let rest = send_all es (record u { queue = u.queue ++ e ∷ [] }) in
    if ltb (length u.queue) u.capacity then rest else none

abbrev pub new_subscriber : Text → ℕ → Bool → Subscriber
new_subscriber k capacity closed = record {
  topic = k;
  queue = [];
  capacity = capacity;
  closed = closed;
}

-- The next subscriber of a Hub is `made`.
abbrev pub add_subscriber : Option Subscriber → Hub → Sent
add_subscriber none h = blocked
add_subscriber (some u) h = sent (record (with_subscriber h.made u h) { made = h.made + 1 })

abbrev pub to_replay : Text → ℕ → Topic → List Event
to_replay [] n t = []
to_replay (c ∷ s) n t = replayed (c ∷ s) t n 0

abbrev pub subscribe_to : Text → Text → Hub × Topic → Sent
subscribe_to k last_id (h, t) =
    add_subscriber
      (send_all (to_replay last_id (length t.buf) t)
        (new_subscriber k (max h.replay min_buffer) false))
      (record h { topics = put k (record t { subs = h.made ∷ t.subs }) h.topics })

-- `Subscribe`: the channel is that of the subscriber `made`.
unfoldable pub subscribe : Text → Text → Hub → Sent
unfolding topic_of send_all
subscribe k last_id h =
    if h.closed
    then add_subscriber (some (new_subscriber k 0 true)) h
    else subscribe_to k last_id (topic_of k h)

unfoldable pub close_all : List ℕ → Hub → Hub
close_all [] h = h
close_all (s ∷ ss) h = close_all ss (close_subscriber s h)

unfoldable pub close_topics : List (Text × Topic) → Hub → Hub
unfolding close_all
close_topics [] h = h
close_topics ((k, t) ∷ ts) h = close_topics ts (close_all t.subs h)

-- `Close`.
unfoldable pub close_hub : Hub → Hub
unfolding close_topics
close_hub h =
    if h.closed
    then h
    else record (close_topics h.topics (record h { closed = true })) { topics = [] }

-- The client of a subscriber takes the next event out of its channel.
abbrev pub tail_of {ℓ} : {A : Type ℓ} → List A → List A
tail_of [] = []
tail_of (x ∷ xs) = xs

abbrev pub receive : ℕ → Hub → Hub
receive s h =
    with_subscriber s (record (h.subscribers s) { queue = tail_of (h.subscribers s).queue }) h
