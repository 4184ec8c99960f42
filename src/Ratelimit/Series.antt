-- ===== src/Ratelimit/Series.antt =====
-- ratelimit/ratelimit.go: a series of decisions for one key keeps to the rate.
use torge.Base.{
  ℕ, suc, ◌+◌, ◌*◌, ◌≤◌, ◌≡◌, refl, ◌∙◌, ◌⊎◌, inl, inr, List, [], ◌∷◌, arith, Bool-cases,
  if◌then◌else◌,
}
use torge.Ratelimit.{Rate, interval, capacity, gcra}
use torge.Ratelimit.Decision.{Fits, arrival, conforms, gcra-allowed, gcra-tat}

-- The number of requests that are allowed of those that arrive at the given instants.
unfoldable pub count_allowed : (ℕ → ℕ → ℕ) → Rate → List ℕ → ℕ → ℕ
count_allowed floor_quot rate [] tat = 0
count_allowed floor_quot rate (now ∷ later) tat =
    let (res, tat') = gcra floor_quot rate now tat in
    let rest = count_allowed floor_quot rate later tat' in if res.allowed then suc rest else rest

-- The instants do not decrease, from `first` to `last`.
abbrev pub Between : ℕ → List ℕ → ℕ → Type 0
Between first [] last = first ≤ last
Between first (now ∷ later) last = (first ≤ now) × Between now later last

Between-le : (first last : ℕ) (times : List ℕ) → Between first times last → first ≤ last
Between-le first last [] h = h
Between-le first last (now ∷ later) h = omega (arith, h.0, Between-le now last later h.1)

one_step :
    (n i burst now last tat tat' : ℕ)
    → arrival now tat + i ≤ now + burst
    → tat' ≡ arrival now tat + i
    → now ≤ last
    → (n ≡ 0) ⊎ (n * i + arrival now tat' ≤ last + burst)
    → suc n * i + arrival now tat ≤ last + burst
one_step n i burst now last tat tat' c e le (inl none_left) = rw none_left (omega (arith, c, le))
one_step n i burst now last tat tat' c e le (inr more) = ground arith

le-arrival : (now tat : ℕ) → tat ≤ arrival now tat
le-arrival now tat = ground arith

arrival_mono : (first now tat : ℕ) → first ≤ now → arrival first tat ≤ arrival now tat
arrival_mono first now tat h = ground arith

count_allowed_room :
    (floor_quot : ℕ → ℕ → ℕ) (rate : Rate) (times : List ℕ) (first last tat : ℕ)
    → Fits rate
    → Between first times last
    → (count_allowed floor_quot rate times tat ≡ 0)
      ⊎ (count_allowed floor_quot rate times tat * interval rate + arrival first tat
          ≤ last + interval rate * capacity rate)
unfolding count_allowed
count_allowed_room floor_quot rate [] first last tat fits h = inl refl
count_allowed_room floor_quot rate (now ∷ later) first last tat fits h =
    let allowed = gcra-allowed floor_quot rate fits now tat in
    let stored = gcra-tat floor_quot rate fits now tat in
    let ih =
      count_allowed_room floor_quot rate later now last (gcra floor_quot rate now tat).1 fits h.1 in
    elim (Bool-cases (conforms rate now tat)) [
      | inl c ↦
          let next : (gcra floor_quot rate now tat).1 ≡ arrival now tat + interval rate =
            stored ∙ rw c refl in
          rw (allowed ∙ c) (
            inr (
              omega (
                arith,
                one_step (count_allowed floor_quot rate later (gcra floor_quot rate now tat).1)
                    (interval rate) (interval rate * capacity rate) now last tat
                    (gcra floor_quot rate now tat).1 (ground (arith, c)) next
                    (Between-le now last later h.1) ih,
                arrival_mono first now tat h.0,
              )))
      | inr c ↦
          let next : (gcra floor_quot rate now tat).1 ≡ arrival now tat = stored ∙ rw c refl in
          rw (allowed ∙ c) (elim ih [
            | inl z ↦ inl z
            | inr m ↦ inr (
                omega (
                  arith,
                  m,
                  next,
                  le-arrival now (gcra floor_quot rate now tat).1,
                  arrival_mono first now tat h.0,
                ))
          ])
    ]

-- Where the burst fits in an int64 (`Fits`), of the requests that arrive between two instants, at
-- most a burst and one request for each interval between the instants are allowed, whatever the
-- key's state was before.
pub count_allowed_bound :
    (floor_quot : ℕ → ℕ → ℕ) (rate : Rate) (times : List ℕ) (first last tat : ℕ)
    → Fits rate
    → Between first times last
    → count_allowed floor_quot rate times tat * interval rate + first
      ≤ last + interval rate * capacity rate
count_allowed_bound floor_quot rate times first last tat fits h =
    elim (count_allowed_room floor_quot rate times first last tat fits h) [
      | inl none_allowed ↦ rw none_allowed (omega (arith, Between-le first last times h))
      | inr room ↦ ground arith
    ]
