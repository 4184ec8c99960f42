-- ===== src/Cache/Memory/Elements.antt =====
-- cache/memory.go: the list of elements. The first element of a key, and what removing it leaves.
use torge.Base.{
  ℕ, ◌≡◌, refl, List, [], ◌∷◌, Option, none, some, arith, inl, inr, Bool-cases, if◌then◌else◌,
}
use torge.Base.Text.{Text, text_eq, text_eq_iff}
use torge.Cache.Memory.{Entry, find_el, remove_el}

-- The element of the first entry with a key.
unfoldable pub id_of : Text → List (ℕ × Entry) → Option ℕ
id_of k [] = none
id_of k ((i, e) ∷ l) = if text_eq e.key k then some i else id_of k l

-- No two elements have a key or a number in common.
abbrev pub AllDistinct : List (ℕ × Entry) → Type 0
AllDistinct [] = Unit
AllDistinct ((i, e) ∷ l) = (id_of e.key l ≡ none) × (find_el i l ≡ none) × AllDistinct l

-- The abstract view: the entries, most recently used first.
abbrev pub entries : List (ℕ × Entry) → List Entry
entries [] = []
entries ((i, e) ∷ l) = e ∷ entries l

unfoldable pub lookup_key : Text → List Entry → Option Entry
lookup_key k [] = none
lookup_key k (e ∷ es) = if text_eq e.key k then some e else lookup_key k es

unfoldable pub remove_key : Text → List Entry → List Entry
remove_key k [] = []
remove_key k (e ∷ es) = if text_eq e.key k then remove_key k es else e ∷ remove_key k es

pub id_of-none :
    (k : Text) (l : List (ℕ × Entry)) → id_of k l ≡ none → lookup_key k (entries l) ≡ none
unfolding id_of lookup_key
id_of-none k [] h = refl
id_of-none k ((i, e) ∷ l) h = ground (arith, id_of-none k l)

pub remove_key-absent :
    (k : Text) (l : List (ℕ × Entry)) → id_of k l ≡ none → remove_key k (entries l) ≡ entries l
unfolding id_of remove_key
remove_key-absent k [] h = refl
remove_key-absent k ((i, e) ∷ l) h = ground (arith, remove_key-absent k l)

-- The element of a key holds the entry of that key.
pub find_el-id_of :
    (k : Text) (id : ℕ) (l : List (ℕ × Entry))
    → AllDistinct l
    → id_of k l ≡ some id
    → (e : Entry) × (find_el id l ≡ some e) × (e.key ≡ k) × (lookup_key k (entries l) ≡ some e)
unfolding id_of lookup_key find_el
find_el-id_of k id [] d h = cc
find_el-id_of k id ((i, e) ∷ l) d h = elim (Bool-cases (text_eq e.key k)) [
  | inl here ↦ (e, ground arith, (text_eq_iff e.key k).0 here, rw here refl)
  | inr other ↦
      let (x, at_id, same, found) = find_el-id_of k id l d.2 (rw other at h) in
      (x, ground (arith, d.1), same, rw other found)
]

-- Removing the element of a key.
pub id_of-remove_el :
    (j k : Text) (id : ℕ) (l : List (ℕ × Entry))
    → AllDistinct l
    → id_of k l ≡ some id
    → id_of j (remove_el id l) ≡ (if text_eq k j then none else id_of j l)
unfolding id_of remove_el find_el
id_of-remove_el j k id [] d h = cc
id_of-remove_el j k id ((i, e) ∷ l) d h = elim (Bool-cases (text_eq e.key k)) [
  | inl here ↦ ground (arith, text_eq_iff e.key k, text_eq_iff e.key j, text_eq_iff k j)
  | inr other ↦
      let later : id_of k l ≡ some id = rw other at h in
      let (x, at_id, same, found) = find_el-id_of k id l d.2 later in
      ground (
        arith,
        text_eq_iff e.key k,
        text_eq_iff e.key j,
        text_eq_iff k j,
        id_of-remove_el j k id l d.2 later,
      )
]

pub find_el-remove_el :
    (i id : ℕ) (l : List (ℕ × Entry)) → find_el i l ≡ none → find_el i (remove_el id l) ≡ none
unfolding find_el remove_el
find_el-remove_el i id [] h = refl
find_el-remove_el i id ((j, e) ∷ l) h = ground (arith, find_el-remove_el i id l)

id_of-remove_el-none :
    (k : Text) (id : ℕ) (l : List (ℕ × Entry)) → id_of k l ≡ none → id_of k (remove_el id l) ≡ none
unfolding id_of remove_el
id_of-remove_el-none k id [] h = refl
id_of-remove_el-none k id ((j, e) ∷ l) h = ground (arith, id_of-remove_el-none k id l)

pub remove_el-AllDistinct :
    (id : ℕ) (l : List (ℕ × Entry)) → AllDistinct l → AllDistinct (remove_el id l)
unfolding remove_el
remove_el-AllDistinct id [] d = tt
remove_el-AllDistinct id ((i, e) ∷ l) d = ground (
  arith,
  id_of-remove_el-none e.key id l,
  find_el-remove_el i id l,
  remove_el-AllDistinct id l d.2,
)

pub entries-remove_el :
    (k : Text) (id : ℕ) (l : List (ℕ × Entry))
    → AllDistinct l
    → id_of k l ≡ some id
    → entries (remove_el id l) ≡ remove_key k (entries l)
unfolding id_of remove_el find_el remove_key
entries-remove_el k id [] d h = cc
entries-remove_el k id ((i, e) ∷ l) d h = elim (Bool-cases (text_eq e.key k)) [
  | inl here ↦ ground (arith, text_eq_iff e.key k, remove_key-absent k l)
  | inr other ↦
      let later : id_of k l ≡ some id = rw other at h in
      let (x, at_id, same, found) = find_el-id_of k id l d.2 later in
      ground (arith, entries-remove_el k id l d.2 later)
]
