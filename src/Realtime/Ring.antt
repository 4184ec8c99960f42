-- ===== src/Realtime/Ring.antt =====
-- realtime/hub.go: the ring buffer of a topic is the list of its last events.
use native.Mathlib.Nat.{mod-eq_of_lt, mod-eq-sub-mod, mod-lt}
use mathlib.Core.List.{append-nil, append_assoc}
use torge.Base.{
  ℕ, zero, suc, ◌+◌, ◌-◌, ◌%◌, ◌<◌, ◌≤◌, ◌≡◌, refl, sym, ◌∙◌, ap, ◌⊎◌, inl, inr, List, [], ◌∷◌,
  ◌++◌, some, arith, tests, Bool-cases, ltb, ltb→lt, ltb→ge, if_all, length, get_elem?, set, take,
  drop, length-append, length-take, length-drop, length-set,
}
use torge.Base.Text.{Text}
use torge.Realtime.{Event, Topic, record_event, if_after, replayed}

-- The events of the buffer, the oldest first.
abbrev pub recent : Topic → List Event
recent t = drop t.start t.buf ++ take t.start t.buf

abbrev pub last_of {ℓ} : {A : Type ℓ} → ℕ → List A → List A
last_of n xs = drop (length xs - n) xs

-- The shape of a buffer of at most `replay` events.
pub record RingOk (replay : ℕ) (t : Topic) : Type 0 where
  pub fits : length t.buf ≤ replay
  pub not_full : length t.buf < replay → t.start ≡ 0
  pub in_buf : (t.start ≡ 0) ⊎ (t.start < length t.buf)

module _ {ℓ} {A : Type ℓ} where
  drop-set : (xs : List A) (i : ℕ) (v : A) → drop (suc i) (set xs i v) ≡ drop (suc i) xs
  drop-set [] i v = refl
  drop-set (x ∷ xs) zero v = refl
  drop-set (x ∷ xs) (suc i) v = drop-set xs i v

  take-set :
      (xs : List A) (i : ℕ) (v : A)
      → i < length xs
      → take (suc i) (set xs i v) ≡ take i xs ++ v ∷ []
  take-set [] i v h = absurd (omega (arith, h))
  take-set (x ∷ xs) zero v h = refl
  take-set (x ∷ xs) (suc i) v h = ap (λ l. x ∷ l) (take-set xs i v (omega (arith, h)))

  drop_all : (xs : List A) (n : ℕ) → length xs ≤ n → drop n xs ≡ []
  drop_all [] zero h = refl
  drop_all [] (suc n) h = refl
  drop_all (x ∷ xs) zero h = absurd (omega (arith, h))
  drop_all (x ∷ xs) (suc n) h = drop_all xs n (omega (arith, h))

  take_all : (xs : List A) (n : ℕ) → length xs ≤ n → take n xs ≡ xs
  take_all [] zero h = refl
  take_all [] (suc n) h = refl
  take_all (x ∷ xs) zero h = absurd (omega (arith, h))
  take_all (x ∷ xs) (suc n) h = ap (λ l. x ∷ l) (take_all xs n (omega (arith, h)))

  drop_one-append :
      (xs ys : List A) (i : ℕ) → i < length xs → drop 1 (drop i xs ++ ys) ≡ drop (suc i) xs ++ ys
  drop_one-append [] ys i h = absurd (omega (arith, h))
  drop_one-append (x ∷ xs) ys zero h = refl
  drop_one-append (x ∷ xs) ys (suc i) h = drop_one-append xs ys i (omega (arith, h))

  get_elem?-append_left :
      (xs ys : List A) (i : ℕ) → i < length xs → get_elem? (xs ++ ys) i ≡ get_elem? xs i
  get_elem?-append_left [] ys i h = absurd (omega (arith, h))
  get_elem?-append_left (x ∷ xs) ys zero h = refl
  get_elem?-append_left (x ∷ xs) ys (suc i) h = get_elem?-append_left xs ys i (omega (arith, h))

  get_elem?-append_right :
      (xs ys : List A) (i n : ℕ) → n ≡ length xs + i → get_elem? (xs ++ ys) n ≡ get_elem? ys i
  get_elem?-append_right [] ys i n e = ap (get_elem? ys) (omega (arith, e))
  get_elem?-append_right (x ∷ xs) ys i zero e = absurd (omega (arith, e))
  get_elem?-append_right (x ∷ xs) ys i (suc n) e =
      get_elem?-append_right xs ys i n (omega (arith, e))

  get_elem?-drop : (xs : List A) (n i m : ℕ) → m ≡ n + i → get_elem? (drop n xs) i ≡ get_elem? xs m
  get_elem?-drop xs zero i m e = ap (get_elem? xs) (omega (arith, e))
  get_elem?-drop [] (suc n) i m e = refl
  get_elem?-drop (x ∷ xs) (suc n) i zero e = absurd (omega (arith, e))
  get_elem?-drop (x ∷ xs) (suc n) i (suc m) e = get_elem?-drop xs n i m (omega (arith, e))

  get_elem?-take : (xs : List A) (n i : ℕ) → i < n → get_elem? (take n xs) i ≡ get_elem? xs i
  get_elem?-take xs zero i h = absurd (omega (arith, h))
  get_elem?-take [] (suc n) i h = refl
  get_elem?-take (x ∷ xs) (suc n) zero h = refl
  get_elem?-take (x ∷ xs) (suc n) (suc i) h = get_elem?-take xs n i (omega (arith, h))

  drop-cons :
      (xs : List A) (i : ℕ)
      → i < length xs
      → (a : A) × (get_elem? xs i ≡ some a) × (drop i xs ≡ a ∷ drop (suc i) xs)
  drop-cons [] i h = absurd (omega (arith, h))
  drop-cons (x ∷ xs) zero h = (x, refl, refl)
  drop-cons (x ∷ xs) (suc i) h = drop-cons xs i (omega (arith, h))

length-recent : (t : Topic) (replay : ℕ) → RingOk replay t → length (recent t) ≡ length t.buf
length-recent t replay ok =
    length-append (drop t.start t.buf) (take t.start t.buf)
    ∙ omega (arith, length-drop t.start t.buf, length-take t.start t.buf, ok.in_buf)

wrap : (n m : ℕ) → m ≤ n → n < m + m → n % m ≡ n - m
wrap n m h l = mod-eq-sub-mod h ∙ mod-eq_of_lt (omega (arith, h, l))

get_elem?-recent :
    (t : Topic) (replay i : ℕ)
    → RingOk replay t
    → i < length t.buf
    → get_elem? t.buf ((t.start + i) % length t.buf) ≡ get_elem? (recent t) i
get_elem?-recent t replay i ok h = elim (Bool-cases (ltb (t.start + i) (length t.buf))) [
  | inl b ↦
      ap (get_elem? t.buf) (mod-eq_of_lt (ltb→lt _ _ b))
      ∙ sym (get_elem?-drop t.buf t.start i _ refl)
      ∙ sym (
          get_elem?-append_left (drop t.start t.buf) (take t.start t.buf) i
            (omega (tests, length-drop t.start t.buf, b)))
  | inr b ↦
      ap (get_elem? t.buf) (wrap _ _ (omega (tests, ltb→ge _ _ b)) (omega (tests, ok.in_buf, h)))
      ∙ sym (
          get_elem?-take t.buf t.start (t.start + i - length t.buf)
            (omega (tests, ltb→ge _ _ b, h)))
      ∙ sym (
          get_elem?-append_right (drop t.start t.buf) (take t.start t.buf)
            (t.start + i - length t.buf) i
            (omega (tests, length-drop t.start t.buf, ok.in_buf, ltb→ge _ _ b)))
]

-- The buffer once it is full.
abbrev overwritten : Event → Topic → Topic
overwritten e t = record t { buf = set t.buf t.start e; start = (t.start + 1) % length t.buf }

overwritten-RingOk :
    (replay : ℕ) (e : Event) (t : Topic)
    → 0 < replay
    → length t.buf ≡ replay
    → RingOk replay t
    → RingOk replay (overwritten e t)
overwritten-RingOk replay e t p full ok = record {
  fits = omega (arith, length-set t.buf t.start e, full);
  not_full = λ l. absurd (omega (arith, length-set t.buf t.start e, full, l));
  in_buf = inr (
      omega (
        arith,
        length-set t.buf t.start e,
        mod-lt (t.start + 1) {m = length t.buf} (omega (arith, full, p)),
      ));
}

overwritten-last_of :
    (replay : ℕ) (e : Event) (t : Topic)
    → 0 < replay
    → length t.buf ≡ replay
    → RingOk replay t
    → recent (overwritten e t) ≡ drop 1 (recent t ++ e ∷ [])
overwritten-last_of replay e t p full ok =
    let inside : t.start < length t.buf = omega (arith, ok.in_buf, full, p) in
    let next : t.start + 1 ≡ suc t.start = omega arith in
    let oldest_gone : drop 1 (recent t ++ e ∷ [])
        ≡ drop (suc t.start) t.buf ++ (take t.start t.buf ++ e ∷ []) =
      ap (drop 1) (append_assoc (drop t.start t.buf) (take t.start t.buf) (e ∷ []))
      ∙ drop_one-append t.buf (take t.start t.buf ++ e ∷ []) t.start inside in
    let written = take-set t.buf t.start e inside in
    elim (Bool-cases (ltb (t.start + 1) (length t.buf))) [
      | inl b ↦
          ap (λ n. drop n (set t.buf t.start e) ++ take n (set t.buf t.start e))
            (mod-eq_of_lt (ltb→lt _ _ b) ∙ next)
          ∙ ap (λ l. l ++ take (suc t.start) (set t.buf t.start e)) (drop-set t.buf t.start e)
          ∙ ap (λ l. drop (suc t.start) t.buf ++ l) written
          ∙ sym oldest_gone
      | inr b ↦
          let ends : t.start + 1 - length t.buf ≡ 0 = omega (arith, inside, ltb→ge _ _ b) in
          ap (λ n. drop n (set t.buf t.start e) ++ take n (set t.buf t.start e))
            (wrap (t.start + 1) (length t.buf) (omega (tests, ltb→ge _ _ b))
                (omega (arith, inside, full, p))
              ∙ ends)
          ∙ append-nil (set t.buf t.start e)
          ∙ sym (
              take_all (set t.buf t.start e) (suc t.start)
                (omega (tests, length-set t.buf t.start e, ltb→ge _ _ b)))
          ∙ written
          ∙ ap (λ l. l ++ (take t.start t.buf ++ e ∷ []))
              (sym (drop_all t.buf (suc t.start) (omega (tests, ltb→ge _ _ b))))
          ∙ sym oldest_gone
    ]

-- A publication keeps the shape of the buffer.
pub record_event-RingOk :
    (replay : ℕ) (e : Event) (t : Topic) → RingOk replay t → RingOk replay (record_event replay e t)
record_event-RingOk replay e t ok =
    if_all (RingOk replay) (ltb 0 replay)
      (λ p.
        if_all (RingOk replay) (ltb (length t.buf) replay)
          (λ b. record {
            fits = omega (tests, length-append t.buf (e ∷ []), b);
            not_full = λ l. ok.not_full (ltb→lt _ _ b);
            in_buf = inl (ok.not_full (ltb→lt _ _ b));
          })
          (λ b.
            overwritten-RingOk replay e t (ltb→lt _ _ p) (omega (tests, ok.fits, ltb→ge _ _ b)) ok))
      (λ p. ok)

-- A publication keeps, of the events so far and the new one, the last `replay`.
pub record_event-last_of :
    (replay : ℕ) (e : Event) (t : Topic)
    → 0 < replay
    → RingOk replay t
    → recent (record_event replay e t) ≡ last_of replay (recent t ++ e ∷ [])
record_event-last_of replay e t p ok =
    if_all {A = Topic} (λ x. recent x ≡ last_of replay (recent t ++ e ∷ [])) (ltb 0 replay)
      (λ p.
        if_all {A = Topic} (λ x. recent x ≡ last_of replay (recent t ++ e ∷ []))
          (ltb (length t.buf) replay)
          (λ b.
            let none_over : 0 ≡ length (recent t ++ e ∷ []) - replay =
              omega (tests, length-append (recent t) (e ∷ []), length-recent t replay ok, b) in
            ap (λ n. drop n (t.buf ++ e ∷ []) ++ take n (t.buf ++ e ∷ []))
              (ok.not_full (ltb→lt _ _ b))
            ∙ append-nil (t.buf ++ e ∷ [])
            ∙ ap (λ l. l ++ e ∷ [])
                (sym (
                  ap (λ n. drop n t.buf ++ take n t.buf) (ok.not_full (ltb→lt _ _ b))
                  ∙ append-nil t.buf))
            ∙ ap (λ n. drop n (recent t ++ e ∷ [])) none_over)
          (λ b.
            let one_over : 1 ≡ length (recent t ++ e ∷ []) - replay = omega (
              tests,
              length-append (recent t) (e ∷ []),
              length-recent t replay ok,
              ok.fits,
              ltb→ge _ _ b,
            ) in
            overwritten-last_of replay e t (ltb→lt _ _ p) (omega (tests, ok.fits, ltb→ge _ _ b)) ok
            ∙ ap (λ n. drop n (recent t ++ e ∷ [])) one_over))
      (λ b. absurd (omega (tests, ltb→ge _ _ b, p)))

-- The events of a list that a client whose last identifier is `last_id` has to see.
abbrev pub unseen : Text → List Event → List Event
unseen last_id [] = []
unseen last_id (e ∷ es) = if_after last_id (some e) (unseen last_id es)

-- The loop of `Subscribe` sends the events of the buffer that come after the last identifier.
pub replayed-unseen :
    (last_id : Text) (replay : ℕ) (t : Topic)
    → RingOk replay t
    → replayed last_id t (length t.buf) 0 ≡ unseen last_id (recent t)
unfolding replayed
replayed-unseen last_id replay t ok = turns (length t.buf) 0 (omega arith)
  where
    turns :
        (n i : ℕ)
        → n + i ≡ length t.buf
        → replayed last_id t n i ≡ unseen last_id (drop i (recent t))
    turns zero i h =
        ap (unseen last_id)
          (sym (drop_all (recent t) i (omega (arith, h, length-recent t replay ok))))
    turns (suc n) i h =
        let inside : i < length t.buf = omega (arith, h) in
        let next : i + 1 ≡ suc i = omega arith in
        let (e, at, cons) =
          drop-cons (recent t) i (omega (arith, inside, length-recent t replay ok)) in
        ap (λ o. if_after last_id o (replayed last_id t n (i + 1)))
          (get_elem?-recent t replay i ok inside ∙ at)
        ∙ ap (if_after last_id (some e)) (turns n (i + 1) (omega (arith, h)))
        ∙ ap (λ k. if_after last_id (some e) (unseen last_id (drop k (recent t)))) next
        ∙ sym (ap (unseen last_id) cons)
