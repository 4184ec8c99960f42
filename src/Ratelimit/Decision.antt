-- ===== src/Ratelimit/Decision.antt =====
-- ratelimit/ratelimit.go: what one decision of `GCRA` depends on, and what a series of them allows.
use torge.Base.{
  ℕ, zero, suc, ◌+◌, ◌-◌, ◌*◌, ◌/◌, ◌^◌, ◌≤◌, ◌<◌, ◌≡◌, refl, sym, ◌∙◌, ap, ◌↔◌, Bool, true, false,
  not, arith, min, ltb, leb, if◌then◌else◌,
}
use native.Mathlib.Nat.{le-div_iff_mul-le, div-lt_iff_lt-mul}
use torge.Base.Int.{ℤ, pos, pos_part, ◌-ℤ◌, ltb_ℤ}
use torge.Ratelimit.{Rate, interval, capacity, to_int64, gcra}

-- The product of `GCRA` fits int64.
abbrev pub Fits : Rate → Type 0
Fits rate = interval rate * capacity rate < 2 ^ 63

to_int64-pos : (n : ℕ) → n < 2 ^ 63 → to_int64 n ≡ pos n
to_int64-pos n h = ground arith

-- The decision with the instants on one side: whether one more interval fits the burst.
abbrev pub arrival : ℕ → ℕ → ℕ
arrival now tat = if ltb tat now then now else tat

abbrev pub conforms : Rate → ℕ → ℕ → Bool
conforms rate now tat = leb (arrival now tat + interval rate) (now + interval rate * capacity rate)

sub_test : (now at burst : ℕ) → ltb_ℤ (pos now) (pos at -ℤ pos burst) ≡ not (leb at (now + burst))
unfolding ◌-ℤ◌
sub_test now at burst = ground arith

sub_rest : (now at burst : ℕ) → pos_part (pos now -ℤ (pos at -ℤ pos burst)) ≡ now + burst - at
unfolding ◌-ℤ◌
sub_rest now at burst = ground arith

gcra_remaining_if :
    (floor_quot : ℕ → ℕ → ℕ) (rate : Rate) (now tat : ℕ) (b : ℤ)
    → to_int64 (interval rate * capacity rate) ≡ b
    → ltb_ℤ (pos now) (pos (arrival now tat + interval rate) -ℤ b) ≡ false
    → (gcra floor_quot rate now tat).0.remaining
      ≡ min
          (floor_quot
            (pos_part (pos now -ℤ (pos (arrival now tat + interval rate) -ℤ b)))
            (interval rate))
          (capacity rate - 1)
unfolding gcra
gcra_remaining_if floor_quot rate now tat b e h = rw (e, h) refl

module _ (floor_quot : ℕ → ℕ → ℕ) (rate : Rate) (fits : Fits rate) (now tat : ℕ) where
  pub gcra-allowed : (gcra floor_quot rate now tat).0.allowed ≡ conforms rate now tat
  unfolding gcra ◌-ℤ◌
  gcra-allowed = rw (to_int64-pos _ fits) (ground arith)

  pub gcra-tat :
      (gcra floor_quot rate now tat).1
      ≡ (if conforms rate now tat then arrival now tat + interval rate else arrival now tat)
  unfolding gcra ◌-ℤ◌
  gcra-tat = rw (to_int64-pos _ fits) (ground arith)

  pub gcra-retry :
      conforms rate now tat ≡ false
      → (gcra floor_quot rate now tat).0.retry_after
        ≡ arrival now tat + interval rate - (now + interval rate * capacity rate)
  unfolding gcra ◌-ℤ◌
  gcra-retry h = rw (to_int64-pos _ fits) (ground arith)

  pub gcra-remaining :
      conforms rate now tat ≡ true
      → (gcra floor_quot rate now tat).0.remaining
        ≡ min
            (floor_quot
              (now + interval rate * capacity rate - (arrival now tat + interval rate))
              (interval rate))
            (capacity rate - 1)
  gcra-remaining h =
      gcra_remaining_if floor_quot rate now tat _ (to_int64-pos _ fits) (
        rw (sub_test now (arrival now tat + interval rate) (interval rate * capacity rate), h) refl)
      ∙ ap (λ t. min (floor_quot t (interval rate)) (capacity rate - 1))
          (sub_rest now (arrival now tat + interval rate) (interval rate * capacity rate))

-- A rate that `NewMemory` lets pass, whose interval is at least a nanosecond.
pub record RateOk (rate : Rate) : Type 0 where
  pub fits : Fits rate
  pub some_interval : 0 < interval rate
  pub some_capacity : 0 < capacity rate

one_interval : (i c : ℕ) → 0 < c → i ≤ i * c
one_interval i zero h = absurd (omega arith)
one_interval i (suc c) h = grind arith

-- For a rate that is valid (`RateOk`) a denied request would be allowed at a later instant exactly
-- from `RetryAfter` on.
pub retry_after_iff :
    (floor_quot : ℕ → ℕ → ℕ) (rate : Rate) (now tat later : ℕ)
    → RateOk rate
    → (gcra floor_quot rate now tat).0.allowed ≡ false
    → now ≤ later
    → ((gcra floor_quot rate later (gcra floor_quot rate now tat).1).0.allowed ≡ true)
      ↔ (now + (gcra floor_quot rate now tat).0.retry_after ≤ later)
retry_after_iff floor_quot rate now tat later h denied le =
    let refused = sym (gcra-allowed floor_quot rate h.fits now tat) ∙ denied in
    let kept : (gcra floor_quot rate now tat).1 ≡ arrival now tat =
      gcra-tat floor_quot rate h.fits now tat ∙ rw refused refl in
    let later_allowed =
      gcra-allowed floor_quot rate h.fits later (gcra floor_quot rate now tat).1 in
    let wait = gcra-retry floor_quot rate h.fits now tat refused in
    let room = one_interval (interval rate) (capacity rate) h.some_capacity in
    rw (later_allowed, kept, wait) (ground (arith, refused, room))

mul_cancel : (j x i : ℕ) → 0 < i → (j < x / i) ↔ ((j + 1) * i ≤ x)
mul_cancel j x i h =
    let (to, from) = le-div_iff_mul-le {x = suc j} {y = x} h in
    (λ p. grind (arith, to p), λ q. from (grind arith))

-- What int(math.Floor(float64(a) / float64(b))) is for operands that a float64 holds exactly.
abbrev pub FloorExact : (ℕ → ℕ → ℕ) → Type 0
FloorExact floor_quot = (a b : ℕ) → a < 2 ^ 53 → 0 < b → b < 2 ^ 53 → floor_quot a b ≡ a / b

x_small :
    (now tat i c : ℕ)
    → 0 < i
    → arrival now tat + i ≤ now + i * c
    → now + i * c - (arrival now tat + i) < c * i
x_small now tat i c h le = ground arith

again :
    (now tat i j burst : ℕ)
    → (j + 1) * i ≤ now + burst - (arrival now tat + i)
    → arrival now tat + i ≤ now + burst
    → leb (arrival now (arrival now tat + i + j * i) + i) (now + burst) ≡ true
again now tat i j burst h le = ground arith

once :
    (now tat i j burst : ℕ)
    → leb (arrival now (arrival now tat + i + j * i) + i) (now + burst) ≡ true
    → arrival now tat + i ≤ now + burst
    → (j + 1) * i ≤ now + burst - (arrival now tat + i)
once now tat i j burst h le = ground arith

-- For a valid rate (`RateOk`) with a burst below 2^53 nanoseconds, and a float division that is
-- exact there, after an allowed request `Remaining` says how many more are allowed at the same
-- instant: one more is, after j others, exactly if j is below it.
pub remaining_iff :
    (floor_quot : ℕ → ℕ → ℕ) (rate : Rate) (now tat j : ℕ)
    → FloorExact floor_quot
    → RateOk rate
    → interval rate * capacity rate < 2 ^ 53
    → (gcra floor_quot rate now tat).0.allowed ≡ true
    → (j < (gcra floor_quot rate now tat).0.remaining) ↔ (
        (gcra floor_quot rate now ((gcra floor_quot rate now tat).1 + j * interval rate)).0.allowed
        ≡ true)
remaining_iff floor_quot rate now tat j exact h small ok =
    let c = sym (gcra-allowed floor_quot rate h.fits now tat) ∙ ok in
    let start : (gcra floor_quot rate now tat).1 ≡ arrival now tat + interval rate =
      gcra-tat floor_quot rate h.fits now tat ∙ rw c refl in
    let i = interval rate in
    let burst = i * capacity rate in
    let at = arrival now tat + i in
    let fits_now : at ≤ now + burst = ground (arith, c) in
    let x = now + burst - at in
    let quot : floor_quot x i ≡ x / i =
      exact x i (ground (arith, small)) h.some_interval
        (omega (arith, one_interval i (capacity rate) h.some_capacity, small)) in
    let below : x / i < capacity rate =
      (div-lt_iff_lt-mul {x = x} {y = capacity rate} h.some_interval).1
        (x_small now tat i (capacity rate) h.some_interval fits_now) in
    let rest : (gcra floor_quot rate now tat).0.remaining ≡ x / i =
      gcra-remaining floor_quot rate h.fits now tat c ∙ rw quot (omega (arith, below)) in
    let (to, from) = mul_cancel j x i h.some_interval in
    rw (rest, start, gcra-allowed floor_quot rate h.fits now (at + j * i))
      (λ p. again now tat i j burst (to p) fits_now, λ q. from (once now tat i j burst q fits_now))
