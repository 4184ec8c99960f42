-- ===== src/Realtime.antt =====
-- realtime/hub.go: the topics, subscribers and events of a Hub, and the order of identifiers.
pub mod Ring
pub mod Ids
pub mod Hub
mod Tests
use torge.Base.{
  ℕ, zero, suc, ◌+◌, ◌-◌, ◌*◌, ◌/◌, ◌%◌, ◌^◌, Bool, true, false, not, ◌&&◌, ◌||◌, List, [], ◌∷◌,
  ◌++◌, Option, none, some, ltb, leb, ◌==◌, if◌then◌else◌, length, get_elem?, set,
}
use torge.Base.Text.{Text, text}

-- `data` of an event is a number.
pub record Event : Type 0 where
  pub id : Text
  pub name : Text
  pub payload : ℕ

-- `subs` are the numbers of the subscribers.
pub record Topic : Type 0 where
  pub next : ℕ
  pub buf : List Event
  pub start : ℕ
  pub subs : List ℕ
  pub last_use : ℕ

abbrev pub new_topic : Topic
new_topic = record { next = 0; buf = []; start = 0; subs = []; last_use = 0 }

-- `queue` is what waits in the channel; `topic` is what `unsubscribe` has captured.
pub record Subscriber : Type 0 where
  pub topic : Text
  pub queue : List Event
  pub capacity : ℕ
  pub closed : Bool

abbrev pub two_64 : ℕ
two_64 = 2 ^ 64

abbrev pub is_digit : ℕ → Bool
is_digit c = leb b'0' c && leb c b'9'

-- The value of the digits after the number `n`.
unfoldable pub digits_after : ℕ → Text → Option ℕ
digits_after n [] = some n
digits_after n (c ∷ s) =
    let rest = digits_after (n * 10 + (c - b'0')) s in if is_digit c then rest else none

abbrev pub below_two_64 : Option ℕ → Option ℕ
below_two_64 none = none
below_two_64 (some n) = if ltb n two_64 then some n else none

-- strconv.ParseUint(s, 10, 64), with none for its errors.
unfoldable pub parse_uint : Text → Option ℕ
unfolding digits_after
parse_uint [] = none
parse_uint (c ∷ s) = below_two_64 (digits_after 0 (c ∷ s))

-- The last digits of a number, at most as many as the fuel.
unfoldable pub digits_of : ℕ → ℕ → Text
digits_of zero n = []
digits_of (suc fuel) n =
    let before = digits_of fuel (n / 10) in
    let last = b'0' + n % 10 in if ltb n 10 then last ∷ [] else before ++ last ∷ []

-- strconv.FormatUint(n, 10): a uint64 has at most 20 digits.
unfoldable pub format_uint : ℕ → Text
unfolding digits_of
format_uint n = digits_of 20 n

abbrev pub greater_id : Option ℕ → Option ℕ → Bool
greater_id none n = true
greater_id (some last) none = true
greater_id (some last) (some n) = ltb last n

-- `afterLastID`.
unfoldable pub after_last_id : Text → Text → Bool
unfolding parse_uint
after_last_id id last_id = greater_id (parse_uint last_id) (parse_uint id)

-- The replay buffer of `Publish`. A write takes the place of the oldest event.
abbrev pub record_event : ℕ → Event → Topic → Topic
record_event replay e t =
    if ltb 0 replay
    then (if ltb (length t.buf) replay
        then record t { buf = t.buf ++ e ∷ [] }
        else record t { buf = set t.buf t.start e; start = (t.start + 1) % length t.buf })
    else t

abbrev pub if_after : Text → Option Event → List Event → List Event
if_after last_id none rest = rest
if_after last_id (some e) rest = if after_last_id e.id last_id then e ∷ rest else rest

-- The events that the loop of `Subscribe` sends, from the index `i` on for `n` turns.
unfoldable pub replayed : Text → Topic → (n i : ℕ) → List Event
unfolding after_last_id
replayed last_id t zero i = []
replayed last_id t (suc n) i =
    if_after last_id (get_elem? t.buf ((t.start + i) % length t.buf)) (replayed last_id t n (i + 1))
