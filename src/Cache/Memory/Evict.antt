-- ===== src/Cache/Memory/Evict.antt =====
-- cache/memory.go: the loop at the end of `set` drops the least recently used entries.
use torge.Base.{
  ℕ, zero, suc, ◌≤◌, ◌<◌, ◌≡◌, refl, sym, ◌∙◌, ap, inl, inr, false, List, [], ◌∷◌, some, arith,
  length, ltb, ◌==◌, Bool-cases, take,
}
use torge.Base.Text.{text_eq, text_eq_iff, text_eq_refl}
use torge.Cache.Memory.{Entry, Memory, remove_el, remove, back, evict}
use torge.Cache.Memory.Elements.{find_el-id_of, id_of, AllDistinct, entries}
use torge.Cache.Memory.Operations.{length-entries}
use torge.Cache.Memory.Refine.{IsLinked, remove-IsLinked}

record LastOf (l : List (ℕ × Entry)) : Type 0 where
  id : ℕ
  entry : Entry
  is_back : back l ≡ some (id, entry)
  at_key : id_of entry.key l ≡ some id
  size : suc (length (remove_el id l)) ≡ length l
  before : (n : ℕ) → n < length l → take n (entries (remove_el id l)) ≡ take n (entries l)

back-one : (i : ℕ) (e : Entry) → LastOf ((i, e) ∷ [])
unfolding id_of remove_el
back-one i e = record {
  id = i;
  entry = e;
  is_back = refl;
  at_key = rw (text_eq_refl e.key) refl;
  size = ground arith;
  before = before;
}
  where
    before : (n : ℕ) → n < 1 → take n (entries (remove_el i ((i, e) ∷ []))) ≡ take n (e ∷ [])
    before zero h = refl
    before (suc n) h = absurd (omega arith)

back-cons :
    (i : ℕ) (e : Entry) (x : ℕ × Entry) (l : List (ℕ × Entry))
    → AllDistinct ((i, e) ∷ x ∷ l)
    → LastOf (x ∷ l)
    → LastOf ((i, e) ∷ x ∷ l)
back-cons i e x l d b =
    let (y, at_id, same, found) = find_el-id_of b.entry.key b.id (x ∷ l) d.2 b.at_key in
    let other_id : (i == b.id) ≡ false = ground (arith, d.1, at_id) in
    let other_key : text_eq e.key b.entry.key ≡ false =
      ground (arith, text_eq_iff e.key b.entry.key, d.0, b.at_key) in
    record {
      id = b.id;
      entry = b.entry;
      is_back = b.is_back;
      at_key = unfold id_of in rw other_key b.at_key;
      size = unfold remove_el in rw other_id (ap suc b.size);
      before = unfold remove_el in rw other_id before;
    }
  where
    before :
        (n : ℕ)
        → n < suc (suc (length l))
        → take n (e ∷ entries (remove_el b.id (x ∷ l))) ≡ take n (e ∷ entries (x ∷ l))
    before zero h = refl
    before (suc n) h = ap (◌∷◌ e) (b.before n (omega arith))

last_of : (l : List (ℕ × Entry)) → 0 < length l → AllDistinct l → LastOf l
last_of [] h d = absurd (omega arith)
last_of ((i, e) ∷ []) h d = back-one i e
last_of ((i, e) ∷ x ∷ l) h d = back-cons i e x l d (last_of (x ∷ l) (omega arith) d.2)

pub take_all : (n : ℕ) (es : List Entry) → length es ≤ n → take n es ≡ es
take_all zero [] h = refl
take_all zero (e ∷ es) h = absurd (omega arith)
take_all (suc n) [] h = refl
take_all (suc n) (e ∷ es) h = ap (◌∷◌ e) (take_all n es (omega arith))

no_entries : (l : List (ℕ × Entry)) (n : ℕ) → length l ≤ 0 → entries l ≡ take n (entries l)
no_entries [] zero h = refl
no_entries [] (suc n) h = refl
no_entries (x ∷ l) n h = absurd (omega arith)

-- The loop of `set` drops the entries that are too many, from the back.
pub evict-take :
    (fuel : ℕ) (m : Memory)
    → length m.ll ≤ fuel
    → IsLinked m
    → IsLinked (evict fuel m)
      × (entries (evict fuel m).ll ≡ take m.max (entries m.ll))
      × ((evict fuel m).max ≡ m.max)
unfolding evict
evict-take zero m le h = (h, no_entries m.ll m.max (omega arith), refl)
evict-take (suc fuel) m le h = elim (Bool-cases (ltb m.max (length m.ll))) [
  | inr enough ↦ rw (enough, evict) (h, sym (take_all m.max (entries m.ll) (small enough)), refl)
  | inl over ↦
      let b = last_of m.ll (ground (arith, over)) h.distinct in
      let (linked, kept, same) =
        evict-take fuel (remove b.id b.entry m) (unfold remove in omega (arith, b.size))
          (remove-IsLinked b.id b.entry m h b.at_key) in
      rw (over, b.is_back, evict)
        (linked, kept ∙ unfold remove in (b.before m.max (ground (arith, over))), same)
]
  where
    small : ltb m.max (length m.ll) ≡ false → length (entries m.ll) ≤ m.max
    small e = ground (arith, e, length-entries m.ll)
