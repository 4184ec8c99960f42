-- ===== src/Jobs/Backoff.antt =====
-- jobs/jobs.go: `ExponentialBackoff`, with durations as the int64 numbers that they are. The random
-- jitter is the argument `draw`.
use native.Mathlib.Nat.{pow-suc, le-mul_of_pos_right}
use torge.Base.{
  ℕ, zero, suc, ◌+◌, ◌-◌, ◌*◌, ◌/◌, ◌%◌, ◌^◌, ◌≤◌, ◌<◌, ◌≡◌, refl, ◌∙◌, ap, inl, inr, false, arith,
  tests, min, ltb, Option, none, some, lt→ltb, ltb→ge, Bool-cases, if◌then◌else◌,
}
use torge.Base.Int.{ℤ, pos, negsuc, ltb_ℤ}

-- The int64 that a result wraps around to.
abbrev pub wrapped : ℤ → ℤ
wrapped (pos n) =
    if ltb (n % 2 ^ 64) (2 ^ 63) then pos (n % 2 ^ 64) else negsuc (2 ^ 64 - 1 - n % 2 ^ 64)
wrapped (negsuc n) =
    if ltb (n % 2 ^ 64) (2 ^ 63) then negsuc (n % 2 ^ 64) else pos (2 ^ 64 - 1 - n % 2 ^ 64)

-- `d *= 2`
abbrev pub twice : ℤ → ℤ
twice (pos n) = wrapped (pos (n * 2))
twice (negsuc n) = wrapped (negsuc (n * 2 + 1))

-- The loop, by the rounds that `attempt` leaves.
unfoldable pub doubled : (rounds : ℕ) → (d max : ℤ) → ℤ
doubled zero d max = d
doubled (suc n) d max = let more = doubled n (twice d) max in if ltb_ℤ d max then more else d

-- `d + rand.Int64N(d/5+1)`, where `draw` is rand.Int64N, a number below its argument. It panics, which
-- is `none`, where its argument is not positive; the division is towards 0.
abbrev pub with_jitter : (draw : ℕ → ℕ) → ℤ → Option ℤ
with_jitter draw (pos n) = some (wrapped (pos (n + draw (n / 5 + 1))))
with_jitter draw (negsuc n) =
    if ltb n 4
    then some (if ltb n (draw 1) then pos (draw 1 - n - 1) else negsuc (n - draw 1))
    else none

unfoldable pub exponential_backoff : (draw : ℕ → ℕ) → ℤ → ℤ → ℕ → Option ℤ
unfolding doubled
exponential_backoff draw base max attempt =
    let d = doubled (attempt - 1) base max in with_jitter draw (if ltb_ℤ max d then max else d)

-- The loop without the wrap-around.
unfoldable exact : (rounds : ℕ) → (d max : ℕ) → ℕ
exact zero d max = d
exact (suc n) d max = let more = exact n (d * 2) max in if ltb d max then more else d

pow-positive : (n : ℕ) → 1 ≤ 2 ^ n
pow-positive zero = omega arith
pow-positive (suc n) = rw (pow-suc 2 n) (let ih = pow-positive n in omega arith)

twice_pow : (n d : ℕ) → d * 2 * 2 ^ n ≡ d * 2 ^ suc n
twice_pow n d = grind (arith, pow-suc)

grown_ge : (n d : ℕ) → d ≤ d * 2 ^ n
grown_ge n d = le-mul_of_pos_right d (pow-positive n)

capped : (n d max : ℕ) → ltb d max ≡ false → min d max ≡ min (d * 2 ^ n) max
capped n d max b = let g = grown_ge n d in let l = lt→ltb d max in ground arith

-- The loop stops early only where the cap is reached anyway.
min-exact : (n d max : ℕ) → min (exact n d max) max ≡ min (d * 2 ^ n) max
unfolding exact
min-exact zero d max = omega arith
min-exact (suc n) d max = elim (Bool-cases (ltb d max)) [
  | inl b ↦ rw b (min-exact n (d * 2) max ∙ ap (λ k. min k max) (twice_pow n d))
  | inr b ↦ rw b (capped (suc n) d max b)
]

ltb_ℤ-pos : (a b : ℕ) → ltb_ℤ (pos a) (pos b) ≡ ltb a b
ltb_ℤ-pos a b = ground arith

wrapped-pos : (n : ℕ) → n < 2 ^ 63 → wrapped (pos n) ≡ pos n
wrapped-pos n h = ground arith

-- Below a cap of at most 2^62 nothing wraps around.
doubled-exact : (n d max : ℕ) → max ≤ 2 ^ 62 → doubled n (pos d) (pos max) ≡ pos (exact n d max)
unfolding doubled exact
doubled-exact zero d max h = refl
doubled-exact (suc n) d max h = elim (Bool-cases (ltb d max)) [
  | inl b ↦
      rw (ltb_ℤ-pos d max, b)
        (ap (λ e. doubled n e (pos max)) (wrapped-pos (d * 2) (omega (tests, b, h)))
          ∙ doubled-exact n (d * 2) max h)
  | inr b ↦ rw (ltb_ℤ-pos d max, b) refl
]

min-pos : (a b : ℕ) → (if ltb_ℤ (pos b) (pos a) then pos b else pos a) ≡ pos (min a b)
min-pos a b = elim (Bool-cases (ltb b a)) [
  | inl c ↦ rw (ltb_ℤ-pos b a, c) (ap pos (omega (tests, c)))
  | inr c ↦ rw (ltb_ℤ-pos b a, c) (ap pos (omega (arith, ltb→ge b a c)))
]

jitter-range :
    (draw : ℕ → ℕ) (d : ℕ)
    → d ≤ 2 ^ 62
    → ((n : ℕ) → draw (n + 1) ≤ n)
    → (v : ℕ) × (with_jitter draw (pos d) ≡ some (pos v)) × (d ≤ v) × (v ≤ d + d / 5)
jitter-range draw d h drawn =
    let b = drawn (d / 5) in
    (
      d + draw (d / 5 + 1),
      ap some (wrapped-pos _ (omega (arith, b, h))),
      omega arith,
      omega (arith, b),
    )

-- With a cap of at most 2^62 nanoseconds and a draw below its bound, there is no panic, and the delay
-- is the base doubled once for each attempt before, capped, and at most a fifth more.
pub exponential_backoff_range :
    (draw : ℕ → ℕ) (base max attempt : ℕ)
    → max ≤ 2 ^ 62
    → ((n : ℕ) → draw (n + 1) ≤ n)
    → (v : ℕ) × (exponential_backoff draw (pos base) (pos max) attempt ≡ some (pos v))
      × (min (base * 2 ^ (attempt - 1)) max ≤ v)
      × (v ≤ min (base * 2 ^ (attempt - 1)) max + min (base * 2 ^ (attempt - 1)) max / 5)
unfolding exponential_backoff
exponential_backoff_range draw base max attempt h drawn =
    let d = min (base * 2 ^ (attempt - 1)) max in
    let (v, e, low, high) = jitter-range draw d (omega (arith, h)) drawn in
    let capped_at =
      ap (λ x. if ltb_ℤ (pos max) x then pos max else x) (doubled-exact (attempt - 1) base max h)
      ∙ min-pos (exact (attempt - 1) base max) max
      ∙ ap pos (min-exact (attempt - 1) base max) in
    (v, ap (with_jitter draw) capped_at ∙ e, low, high)
