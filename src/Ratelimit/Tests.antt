-- ===== src/Ratelimit/Tests.antt =====
-- ratelimit/ratelimit.go: ten requests a second with a burst of two, and the theorems at these
-- inputs.
use torge.Base.{ℕ, ◌+◌, ◌*◌, ◌/◌, ◌≤◌, ◌<◌, ◌≡◌, refl, ◌↔◌, true, false, [], ◌∷◌, arith}
use torge.Base.Int.{◌-ℤ◌}
use torge.Base.Text.{Text, text, text_eq}
use torge.Base.Assoc.{get, put}
use torge.Ratelimit.{Rate, interval, capacity, gcra, Shards, new_shard, allow, middleware}
use torge.Ratelimit.Decision.{RateOk, FloorExact, retry_after_iff, remaining_iff}
use torge.Ratelimit.Series.{count_allowed, count_allowed_bound}
use torge.Ratelimit.Limiter.{run_allow, run_spec, run_allow-run_spec}

program : Unit {0}
unfolding gcra allow ◌-ℤ◌ get put text_eq count_allowed run_allow run_spec middleware
program = tt

abbrev rate : Rate
rate = record { limit = 10; period = 1000000000; burst = 2 }

abbrev start : ℕ
start = 63000000000000000000

-- The quotient of whole numbers, for int(math.Floor(float64(a) / float64(b))).
abbrev quot : ℕ → ℕ → ℕ
quot a b = a / b

abbrev hash : Text → ℕ
hash [] = 7
hash (c ∷ s) = c

abbrev shards : Shards
shards i = new_shard

rate-RateOk : RateOk rate
rate-RateOk = record {
  fits = omega arith;
  some_interval = omega arith;
  some_capacity = omega arith;
}

decisions :
    ((gcra quot rate start 0).0.allowed ≡ true)
    × ((gcra quot rate start 0).0.remaining ≡ 1)
    × ((gcra quot rate start (start + 200000000)).0.allowed ≡ false)
    × ((gcra quot rate start (start + 200000000)).0.retry_after ≡ 100000000)
unfolding program
decisions = (refl, refl, refl, refl)

burst : count_allowed quot rate (start ∷ start ∷ start ∷ (start + 100000000) ∷ []) 0 ≡ 3
unfolding program
burst = refl

retry_after_iff_example :
    ((gcra quot rate (start + 150000000) (gcra quot rate start (start + 200000000)).1).0.allowed
      ≡ true)
    ↔ (start + (gcra quot rate start (start + 200000000)).0.retry_after ≤ start + 150000000)
retry_after_iff_example =
    retry_after_iff quot rate start (start + 200000000) (start + 150000000) rate-RateOk decisions.2
      (omega arith)

quot-FloorExact : FloorExact quot
quot-FloorExact a b h p q = refl

remaining_iff_example :
    (0 < (gcra quot rate start 0).0.remaining)
    ↔ ((gcra quot rate start ((gcra quot rate start 0).1 + 0 * interval rate)).0.allowed ≡ true)
remaining_iff_example =
    remaining_iff quot rate start 0 0 quot-FloorExact rate-RateOk (omega arith) decisions.0

count_allowed_bound_example :
    count_allowed quot rate (start ∷ start ∷ start ∷ []) 0 * interval rate + start
    ≤ start + 5 + interval rate * capacity rate
count_allowed_bound_example =
    count_allowed_bound quot rate (start ∷ start ∷ start ∷ []) start (start + 5) 0 (omega arith)
      (omega arith)

run_allow-run_spec_example :
    run_allow quot hash rate ((start, text "ip:1") ∷ (start, text "ip:2") ∷ []) shards
    ≡ run_spec quot rate ((start, text "ip:1") ∷ (start, text "ip:2") ∷ []) (λ k. 0)
unfolding get
run_allow-run_spec_example =
    run_allow-run_spec quot hash rate ((start, text "ip:1") ∷ (start, text "ip:2") ∷ []) shards
      (λ k. 0) 0 (λ i. tt) (λ k later h. refl) (omega arith)
