-- ===== src/Cache/Memory/Loops.antt =====
-- cache/memory.go: the loops of `DeletePrefix` and `sweep` over the map, on the entries.
use torge.Base.{
  ℕ, ◌≡◌, refl, sym, ◌∙◌, ap, ◌≢◌, inl, inr, Bool, true, false, List, [], ◌∷◌, Option, none, some,
  arith, ◌&&◌, Bool-cases, if◌then◌else◌,
}
use torge.Base.Text.{Text, has_prefix, text_eq, text_eq_iff, text_eq_refl}
use torge.Cache.Memory.{
  Entry, Memory, find_el, remove_el, remove, element_of, remove_expired, delete_prefix_in,
  delete_prefix, sweep_in, sweep, expired, remove_found,
}
use torge.Cache.Memory.Elements.{find_el-id_of, id_of, AllDistinct, entries, lookup_key, remove_key}
use torge.Cache.Memory.Operations.{IsValid, remove-IsValid}
use torge.Cache.Memory.Refine.{entries-remove}
use mathlib.Core.Path.{subst}
use torge.Base.Assoc.{get, DistinctKeys}
use torge.Cache.Memory.Elements.{find_el-id_of, id_of-remove_el}

-- The entries that a test does not single out.
unfoldable pub drop_where : (Entry → Bool) → List Entry → List Entry
drop_where p [] = []
drop_where p (e ∷ es) = if p e then drop_where p es else e ∷ drop_where p es

abbrev is_listed : Text → List (Text × ℕ) → Bool
is_listed k items = elim (get k items) [ none ↦ false | some id ↦ true ]

-- Of one key there is one entry.
abbrev OnlyOne : Text → Entry → List Entry → Type 0
OnlyOne k x [] = Unit
OnlyOne k x (e ∷ es) = (text_eq e.key k ≡ true → e ≡ x) × OnlyOne k x es

id_of-absent :
    (k : Text) (x : Entry) (l : List (ℕ × Entry)) → id_of k l ≡ none → OnlyOne k x (entries l)
unfolding id_of
id_of-absent k x [] h = tt
id_of-absent k x ((i, e) ∷ l) h = elim (Bool-cases (text_eq e.key k)) [
  | inl here ↦ absurd (ground (arith, here, h))
  | inr other ↦ (λ same. absurd (cc (sym same ∙ other)), id_of-absent k x l (rw other at h))
]

OnlyOne-lookup_key :
    (k : Text) (x : Entry) (l : List (ℕ × Entry))
    → AllDistinct l
    → lookup_key k (entries l) ≡ some x
    → OnlyOne k x (entries l)
unfolding lookup_key
OnlyOne-lookup_key k x [] d h = tt
OnlyOne-lookup_key k x ((i, e) ∷ l) d h = elim (Bool-cases (text_eq e.key k)) [
  | inl here ↦ (
    λ _. ground (arith, here, h),
    id_of-absent k x l (ap (λ t. id_of t l) (sym ((text_eq_iff e.key k).0 here)) ∙ d.0),
  )
  | inr other ↦
      (λ same. absurd (cc (sym same ∙ other)), OnlyOne-lookup_key k x l d.2 (rw other at h))
]

-- One round of a loop over the map that removes the entries that `p` singles out.
drop_where-round :
    (p : Entry → Bool) (k : Text) (id : ℕ) (items : List (Text × ℕ)) (x : Entry) (es : List Entry)
    → get k items ≡ none
    → OnlyOne k x es
    → drop_where (λ e. is_listed e.key ((k, id) ∷ items) && p e) es
      ≡ drop_where (λ e. is_listed e.key items && p e) (if p x then remove_key k es else es)
unfolding drop_where remove_key get
drop_where-round p k id items x [] h o = elim (Bool-cases (p x)) [
  | inl b ↦ rw b refl
  | inr b ↦ rw b refl
]
drop_where-round p k id items x (e ∷ es) h o =
    let ih = drop_where-round p k id items x es h o.1 in
    elim (Bool-cases (text_eq e.key k)) [
      | inl here ↦ same_key here (o.0 here) ih
      | inr other ↦ other_key other ih
    ]
  where
    goal_of : Type 0
    goal_of =
        drop_where (λ e. is_listed e.key ((k, id) ∷ items) && p e) es
        ≡ drop_where (λ e. is_listed e.key items && p e) (if p x then remove_key k es else es)

    same_key :
        text_eq e.key k ≡ true
        → e ≡ x
        → goal_of
        → drop_where (λ e. is_listed e.key ((k, id) ∷ items) && p e) (e ∷ es)
          ≡ drop_where
              (λ e. is_listed e.key items && p e)
              (if p x then remove_key k (e ∷ es) else e ∷ es)
    same_key here same ih =
        let own : p e ≡ p x = ap p same in
        elim (Bool-cases (p x)) [
          | inl b ↦ rw b (
              ground (arith, (rw b at ih), own ∙ b, here, text_eq_iff k e.key, text_eq_iff e.key k))
          | inr b ↦ rw b (ground (arith, (rw b at ih), own ∙ b))
        ]

    other_key :
        text_eq e.key k ≡ false
        → goal_of
        → drop_where (λ e. is_listed e.key ((k, id) ∷ items) && p e) (e ∷ es)
          ≡ drop_where
              (λ e. is_listed e.key items && p e)
              (if p x then remove_key k (e ∷ es) else e ∷ es)
    other_key other ih = elim (Bool-cases (p x)) [
      | inl b ↦ rw b (ground (arith, (rw b at ih), text_eq_iff k e.key, text_eq_iff e.key k))
      | inr b ↦ rw b (ground (arith, (rw b at ih), text_eq_iff k e.key, text_eq_iff e.key k))
    ]

-- The map entries that a loop has still to visit are those of elements in the list.
abbrev Pending : List (Text × ℕ) → List (ℕ × Entry) → Type 0
Pending [] l = Unit
Pending ((k, id) ∷ items) l = (id_of k l ≡ some id) × Pending items l

-- One round: the element of `k` is removed if `p` singles out its entry.
abbrev round : (Text → Entry → Bool) → Text → Memory → Option (ℕ × Entry) → Memory
round p k m none = m
round p k m (some (id, e)) = if p k e then remove id e m else m

unfoldable loop : (Text → Entry → Bool) → List (Text × ℕ) → Memory → Memory
loop p [] m = m
loop p ((k, id) ∷ items) m = loop p items (round p k m (element_of (some id) m.ll))

Pending-round :
    (k : Text) (id : ℕ) (items : List (Text × ℕ)) (m : Memory)
    → IsValid m
    → get k items ≡ none
    → id_of k m.ll ≡ some id
    → Pending items m.ll
    → Pending items (remove_el id m.ll)
unfolding get
Pending-round k id [] m h none_k at_key q = tt
Pending-round k id ((j, i) ∷ items) m h none_k at_key q = (
  id_of-remove_el j k id m.ll h.linked.distinct at_key
      ∙ ground (arith, none_k, q.0, text_eq_iff j k, text_eq_iff k j),
  Pending-round k id items m h (ground (arith, none_k)) at_key q.1,
)

element_at :
    (id : ℕ) (e : Entry) (l : List (ℕ × Entry))
    → find_el id l ≡ some e
    → element_of (some id) l ≡ some (id, e)
element_at id e l h = rw (h, element_of) refl

drop_where-none : (es : List Entry) → drop_where (λ e. false) es ≡ es
unfolding drop_where
drop_where-none [] = refl
drop_where-none (e ∷ es) = ap (◌∷◌ e) (drop_where-none es)

-- A loop over the map removes the entries with these keys that `p` singles out.
loop-drop_where :
    (p : Text → Entry → Bool) (items : List (Text × ℕ)) (m : Memory)
    → IsValid m
    → DistinctKeys items
    → Pending items m.ll
    → IsValid (loop p items m)
      × (entries (loop p items m).ll
          ≡ drop_where (λ e. is_listed e.key items && p e.key e) (entries m.ll))
unfolding loop get
loop-drop_where p [] m h d q = (h, sym (drop_where-none (entries m.ll)))
loop-drop_where p ((k, id) ∷ items) m h d q =
    let (e, at_id, same, found) = find_el-id_of k id m.ll h.linked.distinct q.0 in
    let at_own : id_of e.key m.ll ≡ some id = rw same q.0 in
    let one = OnlyOne-lookup_key k e m.ll h.linked.distinct found in
    let split = drop_where-round (λ e. p e.key e) k id items e (entries m.ll) d.0 one in
    let by_key : p e.key e ≡ p k e = ap (λ t. p t e) same in
    let step : loop p ((k, id) ∷ items) m ≡ loop p items (if p k e then remove id e m else m) =
      ap (λ o. loop p items (round p k m o)) (element_at id e m.ll at_id) in
    let spec = λ (t : Memory).
      IsValid t
      × (entries t.ll
          ≡ drop_where (λ e. is_listed e.key ((k, id) ∷ items) && p e.key e) (entries m.ll)) in
    subst spec (sym step) (elim (Bool-cases (p k e)) [
      | inl b ↦
          let gone =
            entries-remove id e m h.linked at_own ∙ ap (λ t. remove_key t (entries m.ll)) same in
          let (valid, rest) =
            loop-drop_where p items (remove id e m) (remove-IsValid id e m h at_own) d.1
              (unfold remove in Pending-round k id items m h d.0 q.0 q.1) in
          rw b (
            valid,
            rest
                ∙ ap (drop_where (λ e. is_listed e.key items && p e.key e)) gone
                ∙ sym (split ∙ rw (by_key ∙ b) refl),
          )
      | inr b ↦
          let (valid, rest) = loop-drop_where p items m h d.1 q.1 in
          rw b (valid, rest ∙ sym (split ∙ rw (by_key ∙ b) refl))
    ])

-- Every entry is in the map, as the map is when a loop starts.
all_listed :
    (p : Entry → Bool) (items : List (Text × ℕ)) (l : List (ℕ × Entry))
    → ((k : Text) → id_of k l ≢ none → is_listed k items ≡ true)
    → drop_where (λ e. is_listed e.key items && p e) (entries l) ≡ drop_where p (entries l)
unfolding drop_where id_of
all_listed p items [] h = refl
all_listed p items ((i, e) ∷ l) h =
    let own : is_listed e.key items ≡ true = h e.key (ground (arith, text_eq_refl e.key)) in
    let ih = all_listed p items l (λ k n. h k (ground (arith, n))) in rw own (rw ih refl)

Pending-items :
    (items : List (Text × ℕ)) (m : Memory)
    → DistinctKeys items
    → ((k : Text) (id : ℕ) → get k items ≡ some id → id_of k m.ll ≡ some id)
    → Pending items m.ll
unfolding get
Pending-items [] m d h = tt
Pending-items ((k, id) ∷ items) m d h = (
  h k id (rw (text_eq_refl k) refl),
  Pending-items items m d.1 (λ j i e. h j i (ground (arith, d.0, e, text_eq_iff k j))),
)

-- A whole loop over the map of a valid store.
loop-all :
    (p : Text → Entry → Bool) (m : Memory)
    → IsValid m
    → IsValid (loop p m.items m)
      × (entries (loop p m.items m).ll ≡ drop_where (λ e. p e.key e) (entries m.ll))
loop-all p m h =
    let (valid, rest) =
      loop-drop_where p m.items m h h.linked.keys
        (Pending-items m.items m h.linked.keys (λ k id e. sym (h.linked.linked k) ∙ e)) in
    (
      valid,
      rest ∙ all_listed (λ e. p e.key e) m.items m.ll (λ k n. ground (arith, n, h.linked.linked k)),
    )

delete_prefix_in-loop :
    (prefix : Text) (items : List (Text × ℕ)) (m : Memory)
    → delete_prefix_in prefix items m ≡ loop (λ k e. has_prefix k prefix) items m
unfolding delete_prefix_in loop
delete_prefix_in-loop prefix [] m = refl
delete_prefix_in-loop prefix ((k, id) ∷ items) m =
    ap (delete_prefix_in prefix items) (same_round (element_of (some id) m.ll))
    ∙ delete_prefix_in-loop prefix items _
  where
    same_round :
        (o : Option (ℕ × Entry))
        → (if has_prefix k prefix then remove_found m o else m)
          ≡ round (λ k e. has_prefix k prefix) k m o
    same_round none = ground arith
    same_round (some (i, e)) = refl

sweep_in-loop :
    (now : ℕ) (items : List (Text × ℕ)) (m : Memory)
    → sweep_in now items m ≡ loop (λ k e. expired now e) items m
unfolding sweep_in loop
sweep_in-loop now [] m = refl
sweep_in-loop now ((k, id) ∷ items) m =
    ap (sweep_in now items) (same_round (element_of (some id) m.ll)) ∙ sweep_in-loop now items _
  where
    same_round :
        (o : Option (ℕ × Entry)) → remove_expired now m o ≡ round (λ k e. expired now e) k m o
    same_round none = refl
    same_round (some (i, e)) = refl

-- `DeletePrefix` on a valid store keeps it valid and removes exactly the entries whose key starts
-- with the prefix; the others keep their order.
pub delete_prefix-drop_where :
    (prefix : Text) (m : Memory)
    → IsValid m
    → IsValid (delete_prefix prefix m)
      × (entries (delete_prefix prefix m).ll
          ≡ drop_where (λ e. has_prefix e.key prefix) (entries m.ll))
unfolding delete_prefix
delete_prefix-drop_where prefix m h =
    rw (delete_prefix_in-loop prefix m.items m) (loop-all (λ k e. has_prefix k prefix) m h)

-- `sweep` on a valid store keeps it valid and removes exactly the expired entries.
pub sweep-drop_where :
    (now : ℕ) (m : Memory)
    → IsValid m
    → IsValid (sweep now m) × (entries (sweep now m).ll ≡ drop_where (expired now) (entries m.ll))
unfolding sweep
sweep-drop_where now m h = rw (sweep_in-loop now m.items m) (loop-all (λ k e. expired now e) m h)
