-- ===== src/Ratelimit.antt =====
-- ratelimit/ratelimit.go: the generic cell rate algorithm, the in-process limiter and the
-- middleware. Durations and instants are in nanoseconds, instants since the zero time.Time. `Rate`
-- holds the values that `NewMemory` lets pass, which are positive; a burst that is not positive is
-- 0.
pub mod Decision
pub mod Series
pub mod Limiter
mod Tests
use torge.Base.{
  ℕ, ◌+◌, ◌-◌, ◌*◌, ◌/◌, ◌%◌, ◌^◌, ◌<◌, Bool, true, false, ◌||◌, List, [], ◌∷◌, Option, none, some,
  min, max, ltb, leb, ◌==◌, if◌then◌else◌,
}
use torge.Base.Int.{ℤ, pos, negsuc, pos_part, ◌-ℤ◌, ltb_ℤ}
use torge.Base.Text.{Text, text}
use torge.Base.Assoc.{get, put}

pub record Rate : Type 0 where
  pub limit : ℕ
  pub period : ℕ
  pub burst : ℕ

-- The panic of `NewMemory`.
abbrev pub new_memory_panics : Rate → Bool
new_memory_panics r = leb r.limit 0 || leb r.period 0

abbrev pub interval : Rate → ℕ
interval r = r.period / r.limit

abbrev pub capacity : Rate → ℕ
capacity r = if ltb 0 r.burst then r.burst else r.limit

-- A product of durations, which are int64.
abbrev pub to_int64 : ℕ → ℤ
to_int64 n =
    if ltb (n % 2 ^ 64) (2 ^ 63) then pos (n % 2 ^ 64) else negsuc (2 ^ 64 - 1 - n % 2 ^ 64)

pub record Result : Type 0 where
  pub allowed : Bool
  pub limit : ℕ
  pub remaining : ℕ
  pub reset_after : ℕ
  pub retry_after : ℕ

-- `floor_quot a b` is int(math.Floor(float64(a) / float64(b))).
module _ (floor_quot : ℕ → ℕ → ℕ) where
  unfoldable pub gcra : Rate → ℕ → ℕ → Result × ℕ
  gcra rate now tat =
      let tat' = if ltb tat now then now else tat in
      let new_tat = tat' + interval rate in
      let allow_at = pos new_tat -ℤ to_int64 (interval rate * capacity rate) in
      if ltb_ℤ (pos now) allow_at
      then (
        record {
          allowed = false;
          limit = capacity rate;
          remaining = 0;
          reset_after = tat' - now;
          retry_after = pos_part (allow_at -ℤ pos now);
        },
        tat',
      )
      else (
        record {
          allowed = true;
          limit = capacity rate;
          remaining =
              min (floor_quot (pos_part (pos now -ℤ allow_at)) (interval rate)) (capacity rate - 1);
          reset_after = new_tat - now;
          retry_after = 0;
        },
        new_tat,
      )

pub record Shard : Type 0 where
  pub tats : List (Text × ℕ)
  pub calls : ℕ

abbrev pub new_shard : Shard
new_shard = record { tats = []; calls = 0 }

-- `s.tats[key]`, with the zero time for a key that is absent.
abbrev pub or_zero : Option ℕ → ℕ
or_zero none = 0
or_zero (some t) = t

-- The loop that deletes the keys whose tat is in the past.
unfoldable pub drop_past : ℕ → List (Text × ℕ) → List (Text × ℕ)
drop_past now [] = []
drop_past now ((k, t) ∷ m) = if ltb t now then drop_past now m else (k, t) ∷ drop_past now m

unfoldable pub after_call : ℕ → Text → ℕ → Shard → Shard
unfolding drop_past
after_call now key tat s =
    let tats = put key tat s.tats in
    record {
      tats = if (s.calls + 1) % 1024 == 0 then drop_past now tats else tats;
      calls = s.calls + 1;
    }

-- The 32 shards, by index; `hash` is maphash.String with the limiter's seed.
abbrev pub Shards : Type 0
Shards = ℕ → Shard

abbrev pub set_shard : ℕ → Shard → Shards → Shards
set_shard i s m j = if i == j then s else m j

module _ (floor_quot : ℕ → ℕ → ℕ) (hash : Text → ℕ) where
  unfoldable pub allow : Rate → ℕ → Text → Shards → Result × Shards
  unfolding gcra after_call
  allow rate now key m =
      let i = hash key % 32 in
      let (res, tat) = gcra floor_quot rate now (or_zero (get key (m i).tats)) in
      (res, set_shard i (after_call now key tat (m i)) m)

-- What the middleware does with a request: the handler runs, with the headers set before it, or an
-- error is returned.
pub record Headers : Type 0 where
  pub limit : ℕ
  pub remaining : ℕ
  pub reset : ℕ

pub data Outcome : Type 0 where
  next : Option Headers → Outcome
  unavailable : Outcome
  too_many : Headers → (retry_after : ℕ) → Outcome

-- The middleware after `Allow`: `none` is an error of the limiter. `ceil_seconds` is the function
-- of that name, which goes through float64.
abbrev pub headers_of : (ℕ → ℕ) → Result → Headers
headers_of ceil_seconds res = record {
  limit = res.limit;
  remaining = res.remaining;
  reset = ceil_seconds res.reset_after;
}

unfoldable pub middleware : (ℕ → ℕ) → (fail_closed skip : Bool) → Option Result → Outcome
middleware ceil_seconds fail_closed true res = next none
middleware ceil_seconds fail_closed false none = if fail_closed then unavailable else next none
middleware ceil_seconds fail_closed false (some res) =
    if res.allowed
    then next (some (headers_of ceil_seconds res))
    else too_many (headers_of ceil_seconds res) (max (ceil_seconds res.retry_after) 1)
