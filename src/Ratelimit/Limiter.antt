-- ===== src/Ratelimit/Limiter.antt =====
-- ratelimit/ratelimit.go: `Memory.Allow`. The sweep of old keys and the shards change no decision.
use torge.Base.{
  ℕ, ◌+◌, ◌%◌, ◌≤◌, ◌≡◌, refl, ◌∙◌, ap, inl, inr, false, List, [], ◌∷◌, none, arith, ◌==◌,
  Bool-cases, if◌then◌else◌,
}
use mathlib.Core.Path.{ap₂}
use torge.Base.Text.{Text, text_eq, text_eq_iff}
use torge.Base.Assoc.{get, put, get-put, DistinctKeys, put-DistinctKeys}
use torge.Ratelimit.{Rate, Result, gcra, Shard, Shards, or_zero, drop_past, after_call, allow}
use torge.Ratelimit.Decision.{arrival}

-- The stored tat of a key, and what a decision at `now` takes it for.
abbrev pub tat_of : (Text → ℕ) → Shards → Text → ℕ
tat_of hash m key = or_zero (get key (m (hash key % 32)).tats)

get-drop_past-none :
    (now : ℕ) (k : Text) (m : List (Text × ℕ)) → get k m ≡ none → get k (drop_past now m) ≡ none
unfolding drop_past get
get-drop_past-none now k [] h = refl
get-drop_past-none now k ((j, t) ∷ m) h = ground (arith, get-drop_past-none now k m)

-- The sweep is not seen from its instant on.
arrival-drop_past :
    (now later : ℕ) (k : Text) (m : List (Text × ℕ))
    → DistinctKeys m
    → now ≤ later
    → arrival later (or_zero (get k (drop_past now m))) ≡ arrival later (or_zero (get k m))
unfolding drop_past get
arrival-drop_past now later k [] d le = refl
arrival-drop_past now later k ((j, t) ∷ m) d le =
    ground
      (arith, arrival-drop_past now later k m d.1 le, get-drop_past-none now k m, text_eq_iff j k)

drop_past-DistinctKeys :
    (now : ℕ) (m : List (Text × ℕ)) → DistinctKeys m → DistinctKeys (drop_past now m)
unfolding drop_past
drop_past-DistinctKeys now [] d = tt
drop_past-DistinctKeys now ((j, t) ∷ m) d =
    ground (arith, get-drop_past-none now j m, drop_past-DistinctKeys now m d.1)

-- Every shard is a map.
abbrev pub ShardsOk : Shards → Type 0
ShardsOk m = (i : ℕ) → DistinctKeys (m i).tats

after_call-DistinctKeys :
    (now tat : ℕ) (key : Text) (s : Shard)
    → DistinctKeys s.tats
    → DistinctKeys (after_call now key tat s).tats
unfolding after_call
after_call-DistinctKeys now tat key s d =
    let kept = put-DistinctKeys key tat s.tats d in
    elim (Bool-cases ((s.calls + 1) % 1024 == 0)) [
      | inl b ↦ rw b (drop_past-DistinctKeys now (put key tat s.tats) kept)
      | inr b ↦ rw b kept
    ]

arrival-after_call :
    (now later tat : ℕ) (key k : Text) (s : Shard)
    → DistinctKeys s.tats
    → now ≤ later
    → arrival later (or_zero (get k (after_call now key tat s).tats))
      ≡ arrival later (if text_eq key k then tat else or_zero (get k s.tats))
unfolding after_call
arrival-after_call now later tat key k s d le =
    let kept = put-DistinctKeys key tat s.tats d in
    let read : or_zero (get k (put key tat s.tats))
        ≡ (if text_eq key k then tat else or_zero (get k s.tats)) =
      ground (arith, get-put key k tat s.tats) in
    elim (Bool-cases ((s.calls + 1) % 1024 == 0)) [
      | inl b ↦
          rw b
            (arrival-drop_past now later k (put key tat s.tats) kept le ∙ ap (arrival later) read)
      | inr b ↦ rw b (ap (arrival later) read)
    ]

-- A decision reads the stored tat through `arrival` only.
gcra-arrival :
    (floor_quot : ℕ → ℕ → ℕ) (rate : Rate) (now a b : ℕ)
    → arrival now a ≡ arrival now b
    → gcra floor_quot rate now a ≡ gcra floor_quot rate now b
unfolding gcra
gcra-arrival floor_quot rate now a b e = rw e refl

-- The limiter as it is documented: one timestamp for each key, kept for ever.
unfoldable pub spec_allow : (ℕ → ℕ → ℕ) → Rate → ℕ → Text → (Text → ℕ) → Result × (Text → ℕ)
spec_allow floor_quot rate now key f =
    let (res, tat) = gcra floor_quot rate now (f key) in
    (res, λ k. if text_eq key k then tat else f k)

-- The results of the calls, each an instant and a key.
unfoldable pub run_allow : (ℕ → ℕ → ℕ) → (Text → ℕ) → Rate → List (ℕ × Text) → Shards → List Result
run_allow floor_quot hash rate [] m = []
run_allow floor_quot hash rate ((now, key) ∷ calls) m =
    let (res, m') = allow floor_quot hash rate now key m in
    res ∷ run_allow floor_quot hash rate calls m'

unfoldable pub run_spec : (ℕ → ℕ → ℕ) → Rate → List (ℕ × Text) → (Text → ℕ) → List Result
unfolding spec_allow
run_spec floor_quot rate [] f = []
run_spec floor_quot rate ((now, key) ∷ calls) f =
    let (res, f') = spec_allow floor_quot rate now key f in res ∷ run_spec floor_quot rate calls f'

-- The clock does not go back.
abbrev pub Ordered : ℕ → List (ℕ × Text) → Type 0
Ordered first [] = Unit
Ordered first ((now, key) ∷ calls) = (first ≤ now) × Ordered now calls

-- From `first` on no decision tells the two apart.
abbrev pub Agrees : (Text → ℕ) → ℕ → Shards → (Text → ℕ) → Type 0
Agrees hash first m f =
    (k : Text) (later : ℕ) → first ≤ later → arrival later (tat_of hash m k) ≡ arrival later (f k)

module _ (floor_quot : ℕ → ℕ → ℕ) (hash : Text → ℕ) (rate : Rate) (now : ℕ) (key : Text)
    (m : Shards) where
  allow-ShardsOk : ShardsOk m → ShardsOk (allow floor_quot hash rate now key m).1
  unfolding allow
  allow-ShardsOk ok i = elim (Bool-cases (hash key % 32 == i)) [
    | inl b ↦ rw b (after_call-DistinctKeys now _ key (m (hash key % 32)) (ok (hash key % 32)))
    | inr b ↦ rw b (ok i)
  ]

  allow-Agrees :
      (f : Text → ℕ) (first : ℕ)
      → ShardsOk m
      → first ≤ now
      → Agrees hash first m f
      → Agrees hash now
          (allow floor_quot hash rate now key m).1
          (spec_allow floor_quot rate now key f).1
  unfolding allow spec_allow
  allow-Agrees f first ok le agrees k later after =
      let h = hash key % 32 in
      let tat = (gcra floor_quot rate now (tat_of hash m key)).1 in
      let same_tat : tat ≡ (gcra floor_quot rate now (f key)).1 =
        ap (λ t. t.1)
          (gcra-arrival floor_quot rate now (tat_of hash m key) (f key) (agrees key now le)) in
      let old = agrees k later (omega arith) in
      elim (Bool-cases (h == hash k % 32)) [
        | inl b ↦
            let here : h ≡ hash k % 32 = ground (arith, b) in
            let moved : or_zero (get k (m h).tats) ≡ tat_of hash m k =
              ap (λ t. or_zero (get k (m t).tats)) here in
            rw b (
              arrival-after_call now later tat key k (m h) (ok h) after
              ∙ by_key k later tat (or_zero (get k (m h).tats)) same_tat
                  (ap (arrival later) moved ∙ old))
        | inr b ↦ let other : text_eq key k ≡ false = other_key k b in rw (b, other) old
      ]
    where
      by_key :
          (k : Text) (later tat stored : ℕ)
          → tat ≡ (gcra floor_quot rate now (f key)).1
          → arrival later stored ≡ arrival later (f k)
          → arrival later (if text_eq key k then tat else stored)
            ≡ arrival later (if text_eq key k then (gcra floor_quot rate now (f key)).1 else f k)
      by_key k later tat stored e o = elim (Bool-cases (text_eq key k)) [
        | inl b ↦ rw b (ap (arrival later) e)
        | inr b ↦ rw b o
      ]

      other_key : (k : Text) → (hash key % 32 == hash k % 32) ≡ false → text_eq key k ≡ false
      other_key k b = ground (arith, b, text_eq_iff key k)

  allow-result :
      (f : Text → ℕ) (first : ℕ)
      → first ≤ now
      → Agrees hash first m f
      → (allow floor_quot hash rate now key m).0 ≡ (spec_allow floor_quot rate now key f).0
  unfolding allow spec_allow
  allow-result f first le agrees =
      ap (λ t. t.0)
        (gcra-arrival floor_quot rate now (tat_of hash m key) (f key) (agrees key now le))

-- From shards that agree with the timestamps of the keys, whatever the hash and the sweeps, calls
-- with a clock that does not go back get the results of the limiter that keeps one timestamp for
-- each key for ever.
pub run_allow-run_spec :
    (floor_quot : ℕ → ℕ → ℕ) (hash : Text → ℕ) (rate : Rate) (calls : List (ℕ × Text)) (m : Shards)
    (f : Text → ℕ) (first : ℕ)
    → ShardsOk m
    → Agrees hash first m f
    → Ordered first calls
    → run_allow floor_quot hash rate calls m ≡ run_spec floor_quot rate calls f
unfolding run_allow run_spec
run_allow-run_spec floor_quot hash rate [] m f first ok agrees o = refl
run_allow-run_spec floor_quot hash rate ((now, key) ∷ calls) m f first ok agrees o =
    ap₂ ◌∷◌ (allow-result floor_quot hash rate now key m f first o.0 agrees) (
      run_allow-run_spec floor_quot hash rate calls (allow floor_quot hash rate now key m).1
        (spec_allow floor_quot rate now key f).1 now
        (allow-ShardsOk floor_quot hash rate now key m ok)
        (allow-Agrees floor_quot hash rate now key m f first ok o.0 agrees) o.1)
