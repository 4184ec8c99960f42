-- ===== src/Cache/Memory/Set.antt =====
-- cache/memory.go: `set`, `Add` and `Delete` on the entries.
use torge.Base.{
  ℕ, zero, suc, ◌+◌, ◌≤◌, ◌<◌, ◌≡◌, refl, sym, ◌∙◌, ap, ◌⊎◌, inl, inr, true, false, List, [], ◌∷◌,
  none, some, arith, length, take, if◌then◌else◌,
}
use torge.Base.Int.{ℤ, pos, negsuc}
use torge.Base.Text.{Text, text_eq, text_eq_iff, text_eq_refl}
use torge.Cache.Memory.{
  Entry, Memory, remove_el, find_key, expired, expires_at, evict, push_front, set_found, get_value,
  set_value,
}
use torge.Cache.Memory.Elements.{entries, lookup_key, remove_key, remove_key-absent}
use torge.Cache.Memory.Operations.{
  IsValid, spec_get, spec_set, length-entries, length-remove_el-id_of, to_front-IsValid,
  entries-to_front, get_value-spec_get,
}
use torge.Cache.Memory.Evict.{evict-take, take_all}
use torge.Cache.Memory.Refine.{Search, missing, held, search, push_front-IsLinked}

set_value-set_found :
    (now : ℕ) (k : Text) (v : List ℕ) (ttl : ℤ) (m : Memory)
    → set_value now k v ttl m
      ≡ set_found (record { key = k; value = v; expires = expires_at now ttl }) m (find_key k m)
unfolding set_value
set_value-set_found now k v ttl m = refl

abbrev pub SetSpec : Entry → Memory → Memory → Type 0
SetSpec e m m' = IsValid m' × (entries m'.ll ≡ spec_set m.max e (entries m.ll)) × (m'.max ≡ m.max)

length-take_le {ℓ} : {A : Type ℓ} (n : ℕ) (xs : List A) → length (take n xs) ≤ n
length-take_le zero xs = omega arith
length-take_le (suc n) [] = omega arith
length-take_le (suc n) (x ∷ xs) = omega (arith, length-take_le n xs)

set_found-SetSpec :
    (e : Entry) (m : Memory) → IsValid m → SetSpec e m (set_found e m (find_key e.key m))
unfolding spec_set
set_found-SetSpec e m h = go (search e.key m h.linked)
  where
    go : Search e.key m → SetSpec e m (set_found e m (find_key e.key m))
    go (held id old f at_key same l) =
        let front = entries-to_front id e m h.linked at_key in
        let short : length (e ∷ remove_key e.key (entries m.ll)) ≤ m.max = omega (
          arith,
          h.bounded,
          length-remove_el-id_of e.key id m.ll at_key,
          ap {A = List Entry} length front,
          length-entries (remove_el id m.ll),
        ) in
        rw (f, set_found)
          (to_front-IsValid id e m h at_key, front ∙ sym (take_all m.max _ short), refl)
    go (missing f new l) =
        let (linked, kept, same) =
          evict-take (length (push_front e m).ll) (push_front e m) (omega arith)
            (push_front-IsLinked e m h.linked new) in
        rw (f, set_found)
          (
            record {
              linked = linked;
              bounded = omega (
                arith,
                sym (length-entries (evict (length (push_front e m).ll) (push_front e m)).ll),
                ap {A = List Entry} length kept,
                length-take_le m.max (e ∷ entries m.ll),
                same,
              );
              positive = omega (arith, same, h.positive);
            },
            kept ∙ ap (λ t. take m.max (e ∷ t)) (sym (remove_key-absent e.key m.ll new)),
            same,
          )

-- `Set` on a valid store keeps it valid and makes the entries the first `max` of: the new entry,
-- then the others in their order. What is evicted is the least recently used.
pub set_value-SetSpec :
    (now : ℕ) (k : Text) (v : List ℕ) (ttl : ℤ) (m : Memory)
    → IsValid m
    → SetSpec
        (record { key = k; value = v; expires = expires_at now ttl })
        m
        (set_value now k v ttl m)
set_value-SetSpec now k v ttl m h =
    rw (set_value-set_found now k v ttl m)
      (set_found-SetSpec (record { key = k; value = v; expires = expires_at now ttl }) m h)

get_spec_set :
    (later max : ℕ) (e : Entry) (es : List Entry)
    → 0 < max
    → (spec_get later e.key (spec_set max e es)).1
      ≡ (if expired later e then none else some e.value)
unfolding spec_get spec_set lookup_key
get_spec_set later zero e es h = absurd (omega arith)
get_spec_set later (suc n) e es h = ground (arith, text_eq_refl e.key)

-- A value that is set at `now` lives at `later`: its time to live is not positive, which is none, or it
-- is not over.
abbrev pub Lives : ℤ → (now later : ℕ) → Type 0
Lives (negsuc n) now later = Unit
Lives (pos n) now later = (n ≡ 0) ⊎ (later < now + n)

abbrev pub Over : ℤ → (now later : ℕ) → Type 0
Over (negsuc n) now later = ⊥
Over (pos n) now later = (0 < n) × (now + n ≤ later)

expired-cases :
    (now later : ℕ) (k : Text) (v : List ℕ) (ttl : ℤ) (e : Entry)
    → e ≡ record { key = k; value = v; expires = expires_at now ttl }
    → ((expired later e ≡ false) × Lives ttl now later)
      ⊎ ((expired later e ≡ true) × Over ttl now later)
expired-cases now later k v (negsuc n) e h = inl (ap (expired later) h, tt)
expired-cases now later k v (pos n) e h = rw h (ground arith)

-- On a valid store a `Get` after a `Set` of the same key returns the value while it lives, which is
-- for ever without a positive time to live, and nothing from the moment on at which that time is over.
pub get_value-set_value :
    (now later : ℕ) (k : Text) (v : List ℕ) (ttl : ℤ) (m : Memory)
    → IsValid m
    → (((get_value later k (set_value now k v ttl m)).1 ≡ some v) × Lives ttl now later)
      ⊎ (((get_value later k (set_value now k v ttl m)).1 ≡ none) × Over ttl now later)
get_value-set_value now later k v ttl m h =
    let e : Entry = record { key = k; value = v; expires = expires_at now ttl } in
    let (valid, kept, same) = set_value-SetSpec now k v ttl m h in
    let got =
      (get_value-spec_get later k (set_value now k v ttl m) valid).1
      ∙ ap (λ es. (spec_get later k es).1) kept
      ∙ get_spec_set later m.max e (entries m.ll) h.positive in
    elim (expired-cases now later k v ttl e refl) [
      | inl (x, lives) ↦ inl (got ∙ rw x refl, lives)
      | inr (x, over) ↦ inr (got ∙ rw x refl, over)
    ]

lookup_key-remove_key :
    (k j : Text) (es : List Entry)
    → text_eq k j ≡ false
    → lookup_key j (remove_key k es) ≡ lookup_key j es
unfolding lookup_key remove_key
lookup_key-remove_key k j [] h = refl
lookup_key-remove_key k j (e ∷ es) h = ground (
  arith,
  lookup_key-remove_key k j es h,
  text_eq_iff e.key k,
  text_eq_iff e.key j,
  text_eq_iff k j,
)
