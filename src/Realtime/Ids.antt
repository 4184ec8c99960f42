-- ===== src/Realtime/Ids.antt =====
-- realtime/hub.go: the numbers that `Publish` assigns, against `afterLastID`.
use torge.Base.{
  ℕ, zero, suc, ◌+◌, ◌-◌, ◌*◌, ◌/◌, ◌%◌, ◌^◌, ◌<◌, ◌≡◌, refl, sym, ◌∙◌, ap, inl, inr, true, [], ◌∷◌,
  ◌++◌, Option, none, some, arith, tests, Bool-cases, ltb, lt→ltb, if_all,
}
use torge.Base.Text.{Text}
use torge.Realtime.{
  two_64, is_digit, digits_after, below_two_64, parse_uint, digits_of, format_uint, greater_id,
  after_last_id,
}

abbrev then_digits : Option ℕ → Text → Option ℕ
then_digits none s = none
then_digits (some n) s = digits_after n s

digits_after-append :
    (n : ℕ) (s r : Text) → digits_after n (s ++ r) ≡ then_digits (digits_after n s) r
unfolding digits_after
digits_after-append n [] r = refl
digits_after-append n (c ∷ s) r = elim (Bool-cases (is_digit c)) [
  | inl b ↦ rw b (digits_after-append (n * 10 + (c - b'0')) s r)
  | inr b ↦ rw b refl
]

one_digit : (n d : ℕ) → d < 10 → digits_after n ((b'0' + d) ∷ []) ≡ some (n * 10 + d)
unfolding digits_after
one_digit n d h = rw (digit d h) (ap some (omega (arith, h)))
  where
    digit : (d : ℕ) → d < 10 → is_digit (b'0' + d) ≡ true
    digit d h = ground (arith, h)

smaller : (fuel n : ℕ) → n < 10 ^ suc fuel → n / 10 < 10 ^ fuel
smaller fuel n h = omega (arith, h)

digits_after-digits_of : (fuel n : ℕ) → n < 10 ^ fuel → digits_after 0 (digits_of fuel n) ≡ some n
unfolding digits_of digits_after
digits_after-digits_of zero n h = ap some (omega (arith, h))
digits_after-digits_of (suc fuel) n h =
    if_all {A = Text} (λ s. digits_after 0 s ≡ some n) (ltb n 10)
      (λ b. one_digit 0 (n % 10) (omega arith) ∙ ap some (omega (tests, b)))
      (λ b.
        digits_after-append 0 (digits_of fuel (n / 10)) ((b'0' + n % 10) ∷ [])
        ∙ ap (λ o. then_digits o ((b'0' + n % 10) ∷ []))
            (digits_after-digits_of fuel (n / 10) (smaller fuel n h))
        ∙ one_digit (n / 10) (n % 10) (omega arith)
        ∙ ap some (omega arith))

not_empty : (fuel n : ℕ) → (c : ℕ) × (s : Text) × (digits_of (suc fuel) n ≡ c ∷ s)
unfolding digits_of
not_empty fuel n =
    if_all {A = Text} (λ l. (c : ℕ) × (s : Text) × (l ≡ c ∷ s)) (ltb n 10)
      (λ b. (b'0' + n % 10, [], refl)) (λ b. ends (digits_of fuel (n / 10)))
  where
    ends : (l : Text) → (c : ℕ) × (s : Text) × (l ++ (b'0' + n % 10) ∷ [] ≡ c ∷ s)
    ends [] = (b'0' + n % 10, [], refl)
    ends (c ∷ l) = (c, l ++ (b'0' + n % 10) ∷ [], refl)

parse_uint-format_uint : (n : ℕ) → n < two_64 → parse_uint (format_uint n) ≡ some n
unfolding parse_uint format_uint
parse_uint-format_uint n h =
    let (c, s, e) = not_empty 19 n in
    let value = sym (ap (digits_after 0) e) ∙ digits_after-digits_of 20 n (omega (arith, h)) in
    ap parse_uint e ∙ ap below_two_64 value ∙ rw (lt→ltb n two_64 h) refl

-- Among the identifiers that a Hub assigns, an event is after the last identifier of a client exactly
-- if its number is greater.
pub after_last_id-format_uint :
    (n last : ℕ)
    → n < two_64
    → last < two_64
    → after_last_id (format_uint n) (format_uint last) ≡ ltb last n
unfolding after_last_id
after_last_id-format_uint n last h l =
    ap (λ x. greater_id x (parse_uint (format_uint n))) (parse_uint-format_uint last l)
    ∙ ap (greater_id (some last)) (parse_uint-format_uint n h)
