-- ===== src/Cache/Memory/Operations.antt =====
-- cache/memory.go: every operation against the list of the entries, most recently used first.
use torge.Base.{
  ℕ, zero, suc, ◌+◌, ◌-◌, ◌≤◌, ◌<◌, ◌≡◌, refl, sym, ◌∙◌, ap, ◌≢◌, ◌⊎◌, inl, inr, Bool, true, false,
  List, [], ◌∷◌, Option, none, some, arith, length, ltb, ◌==◌, not, Bool-cases, Option-cases, take,
  if◌then◌else◌,
}
use torge.Base.Int.{ℤ, pos, negsuc}
use torge.Base.Text.{Text}
use torge.Cache.Memory.{
  Entry, Memory, new_memory, remove_el, remove, to_front, find_key, expired, get_found, get_value,
}
use torge.Cache.Memory.Elements.{id_of, entries, lookup_key, remove_key}
use torge.Cache.Memory.Refine.{
  IsLinked, Search, missing, held, search, remove-IsLinked, entries-remove, to_front-IsLinked,
}

-- The invariant of the store.
pub record IsValid (m : Memory) : Type 0 where
  pub linked : IsLinked m
  pub bounded : length m.ll ≤ m.max
  pub positive : 0 < m.max

empty-IsLinked : (max : ℕ) → IsLinked (record { max = max; ll = []; items = []; next = 0 })
unfolding id_of torge.Base.Assoc.get
empty-IsLinked max = record { linked = λ k. refl; keys = tt; distinct = tt; fresh = tt }

-- A new store is valid and empty, whatever MaxEntries is given.
pub new_memory-IsValid : (n : ℤ) → IsValid (new_memory n)
unfolding new_memory
new_memory-IsValid (negsuc n) = record {
  linked = empty-IsLinked 10000;
  bounded = omega arith;
  positive = omega arith;
}
new_memory-IsValid (pos n) = record {
  linked = empty-IsLinked (if n == 0 then 10000 else n);
  bounded = omega arith;
  positive = ground arith;
}

-- `Get` on the entries: a miss, an expired entry that is dropped, or a hit that goes to the front.
unfoldable pub spec_get : ℕ → Text → List Entry → List Entry × Option (List ℕ)
spec_get now k es = elim (lookup_key k es) [
  | none ↦ (es, none)
  | some e ↦ if expired now e then (remove_key k es, none) else (e ∷ remove_key k es, some e.value)
]

-- `Set` on the entries.
unfoldable pub spec_set : ℕ → Entry → List Entry → List Entry
spec_set max e es = take max (e ∷ remove_key e.key es)

pub length-entries : (l : List (ℕ × Entry)) → length (entries l) ≡ length l
length-entries [] = refl
length-entries ((i, e) ∷ l) = ap suc (length-entries l)

length-remove_el : (id : ℕ) (l : List (ℕ × Entry)) → length (remove_el id l) ≤ length l
unfolding remove_el
length-remove_el id [] = omega arith
length-remove_el id ((i, e) ∷ l) = ground (arith, length-remove_el id l)

pub length-remove_el-id_of :
    (k : Text) (id : ℕ) (l : List (ℕ × Entry))
    → id_of k l ≡ some id
    → suc (length (remove_el id l)) ≡ length l
unfolding remove_el id_of
length-remove_el-id_of k id [] h = cc
length-remove_el-id_of k id ((i, e) ∷ l) h = ground (arith, length-remove_el-id_of k id l)

pub remove-IsValid :
    (id : ℕ) (e : Entry) (m : Memory)
    → IsValid m
    → id_of e.key m.ll ≡ some id
    → IsValid (remove id e m)
unfolding remove
remove-IsValid id e m h at_key = record {
  linked = remove-IsLinked id e m h.linked at_key;
  bounded = omega (arith, length-remove_el id m.ll, h.bounded);
  positive = h.positive;
}

pub to_front-IsValid :
    (id : ℕ) (e : Entry) (m : Memory)
    → IsValid m
    → id_of e.key m.ll ≡ some id
    → IsValid (record m { ll = to_front id e m.ll })
to_front-IsValid id e m h at_key = record {
  linked = to_front-IsLinked id e m h.linked at_key;
  bounded = omega (arith, length-remove_el-id_of e.key id m.ll at_key, h.bounded);
  positive = h.positive;
}

pub entries-to_front :
    (id : ℕ) (e : Entry) (m : Memory)
    → IsLinked m
    → id_of e.key m.ll ≡ some id
    → entries (to_front id e m.ll) ≡ e ∷ remove_key e.key (entries m.ll)
entries-to_front id e m h at_key = ap (◌∷◌ e) (unfold remove in entries-remove id e m h at_key)

get_value-get_found :
    (now : ℕ) (k : Text) (m : Memory) → get_value now k m ≡ get_found now m (find_key k m)
unfolding get_value
get_value-get_found now k m = refl

if_cases {ℓ κ} :
    {A : Type ℓ} (P : A → Type κ) (b : Bool) {x y : A} → P x → P y → P (if b then x else y)
if_cases P true p q = p
if_cases P false p q = q

-- `Get` keeps the store valid.
pub get_value-IsValid :
    (now : ℕ) (k : Text) (m : Memory) → IsValid m → IsValid (get_value now k m).0
get_value-IsValid now k m h = rw (get_value-get_found now k m) (go (search k m h.linked))
  where
    go : Search k m → IsValid (get_found now m (find_key k m)).0
    go (missing f n l) = rw f h
    go (held id e f at_key same l) =
        let at_own : id_of e.key m.ll ≡ some id = rw same at_key in
        rw f (
          if_cases {A = Memory × Option (List ℕ)} (λ t. IsValid t.0) (expired now e)
            (remove-IsValid id e m h at_own) (to_front-IsValid id e m h at_own))

-- `Get` on a valid store does to the entries, and returns, what `spec_get` says.
pub get_value-spec_get :
    (now : ℕ) (k : Text) (m : Memory)
    → IsValid m
    → (entries (get_value now k m).0.ll ≡ (spec_get now k (entries m.ll)).0)
      × ((get_value now k m).1 ≡ (spec_get now k (entries m.ll)).1)
unfolding spec_get
get_value-spec_get now k m h = rw (get_value-get_found now k m) (go (search k m h.linked))
  where
    go :
        Search k m
        → (entries (get_found now m (find_key k m)).0.ll ≡ (spec_get now k (entries m.ll)).0)
          × ((get_found now m (find_key k m)).1 ≡ (spec_get now k (entries m.ll)).1)
    go (missing f n l) = rw (f, l, spec_get) (refl, refl)
    go (held id e f at_key same l) =
        let at_own : id_of e.key m.ll ≡ some id = rw same at_key in
        let gone =
          entries-remove id e m h.linked at_own ∙ ap (λ t. remove_key t (entries m.ll)) same in
        let front =
          entries-to_front id e m h.linked at_own
          ∙ ap (λ t. e ∷ remove_key t (entries m.ll)) same in
        rw (f, l, spec_get)
          (elim (Bool-cases (expired now e)) [
            | inl old ↦ rw old (gone, refl)
            | inr live ↦ rw live (front, refl)
          ])
