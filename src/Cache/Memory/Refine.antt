-- ===== src/Cache/Memory/Refine.antt =====
-- cache/memory.go: the map and the list agree, and each step on both is a step on the entries
-- alone.
use torge.Base.{
  ℕ, suc, ◌≤◌, ◌<◌, ◌≡◌, refl, ◌∙◌, ap, inl, inr, List, [], ◌∷◌, none, some, arith, Option-cases,
}
use torge.Base.Text.{Text, text_eq_iff, text_eq_refl}
use torge.Base.Assoc.{get, get-put, get-del, DistinctKeys, put-DistinctKeys, del-DistinctKeys}
use torge.Cache.Memory.{
  Entry, Memory, find_el, remove_el, remove, to_front, element_of, find_key, push_front,
}
use torge.Cache.Memory.Elements.{
  id_of, AllDistinct, entries, lookup_key, remove_key, id_of-none, find_el-id_of, id_of-remove_el,
  remove_el-AllDistinct, entries-remove_el,
}

abbrev pub Fresh : ℕ → List (ℕ × Entry) → Type 0
Fresh n [] = Unit
Fresh n ((i, e) ∷ l) = (i < n) × Fresh n l

-- The map holds the element of each key, and every element is used once.
pub record IsLinked (m : Memory) : Type 0 where
  pub linked : (k : Text) → get k m.items ≡ id_of k m.ll
  pub keys : DistinctKeys m.items
  pub distinct : AllDistinct m.ll
  pub fresh : Fresh m.next m.ll

Fresh-remove_el : (n id : ℕ) (l : List (ℕ × Entry)) → Fresh n l → Fresh n (remove_el id l)
unfolding remove_el
Fresh-remove_el n id [] h = tt
Fresh-remove_el n id ((i, e) ∷ l) h = ground (arith, Fresh-remove_el n id l h.1)

Fresh-suc : (n : ℕ) (l : List (ℕ × Entry)) → Fresh n l → Fresh (suc n) l
Fresh-suc n [] h = tt
Fresh-suc n ((i, e) ∷ l) h = (omega arith, Fresh-suc n l h.1)

Fresh-find_el : (n i : ℕ) (l : List (ℕ × Entry)) → Fresh n l → n ≤ i → find_el i l ≡ none
unfolding find_el
Fresh-find_el n i [] h le = refl
Fresh-find_el n i ((j, e) ∷ l) h le = ground (arith, Fresh-find_el n i l h.1)

Fresh-id_of :
    (n id : ℕ) (k : Text) (l : List (ℕ × Entry)) → Fresh n l → id_of k l ≡ some id → id < n
unfolding id_of
Fresh-id_of n id k [] h e = cc
Fresh-id_of n id k ((i, e) ∷ l) h k' = ground (arith, Fresh-id_of n id k l h.1)

find_el-removed :
    (id : ℕ) (l : List (ℕ × Entry)) → AllDistinct l → find_el id (remove_el id l) ≡ none
unfolding find_el remove_el
find_el-removed id [] d = refl
find_el-removed id ((i, e) ∷ l) d = ground (arith, find_el-removed id l)

-- A key is found with its element and its entry, or it has no entry.
pub data Search (k : Text) (m : Memory) : Type 0 where
  missing :
      find_key k m ≡ none → id_of k m.ll ≡ none → lookup_key k (entries m.ll) ≡ none → Search k m
  held :
      (id : ℕ) (e : Entry)
      → find_key k m ≡ some (id, e)
      → id_of k m.ll ≡ some id
      → e.key ≡ k
      → lookup_key k (entries m.ll) ≡ some e
      → Search k m

find_key-linked :
    (k : Text) (m : Memory) → IsLinked m → find_key k m ≡ element_of (id_of k m.ll) m.ll
unfolding find_key
find_key-linked k m h = ap (λ o. element_of o m.ll) (h.linked k)

pub search : (k : Text) (m : Memory) → IsLinked m → Search k m
search k m h = elim (Option-cases (id_of k m.ll)) [
  | inl e ↦ missing (find_key-linked k m h ∙ rw e refl) e (id_of-none k m.ll e)
  | inr (id, e) ↦
      let (x, at_id, same, found) = find_el-id_of k id m.ll h.distinct e in
      held id x (find_key-linked k m h ∙ rw (e, at_id, element_of) refl) e same found
]

-- `remove` takes one entry out.
pub remove-IsLinked :
    (id : ℕ) (e : Entry) (m : Memory)
    → IsLinked m
    → id_of e.key m.ll ≡ some id
    → IsLinked (remove id e m)
unfolding remove
remove-IsLinked id e m h at_key = record {
  linked = λ k. ground (
    arith,
    get-del e.key k m.items,
    id_of-remove_el k e.key id m.ll h.distinct at_key,
    h.linked k,
  );
  keys = del-DistinctKeys e.key m.items h.keys;
  distinct = remove_el-AllDistinct id m.ll h.distinct;
  fresh = Fresh-remove_el m.next id m.ll h.fresh;
}

pub entries-remove :
    (id : ℕ) (e : Entry) (m : Memory)
    → IsLinked m
    → id_of e.key m.ll ≡ some id
    → entries (remove id e m).ll ≡ remove_key e.key (entries m.ll)
unfolding remove
entries-remove id e m h at_key = entries-remove_el e.key id m.ll h.distinct at_key

-- `MoveToFront`, also with a new value in the entry.
pub to_front-IsLinked :
    (id : ℕ) (e : Entry) (m : Memory)
    → IsLinked m
    → id_of e.key m.ll ≡ some id
    → IsLinked (record m { ll = to_front id e m.ll })
unfolding id_of
to_front-IsLinked id e m h at_key = record {
  linked = λ k.
      ground
        (arith, id_of-remove_el k e.key id m.ll h.distinct at_key, h.linked k, text_eq_iff e.key k);
  keys = h.keys;
  distinct = (
    id_of-remove_el e.key e.key id m.ll h.distinct at_key ∙ rw (text_eq_refl e.key) refl,
    find_el-removed id m.ll h.distinct,
    remove_el-AllDistinct id m.ll h.distinct,
  );
  fresh = (Fresh-id_of m.next id e.key m.ll h.fresh at_key, Fresh-remove_el m.next id m.ll h.fresh);
}

-- `PushFront` with a key that has no entry.
pub push_front-IsLinked :
    (e : Entry) (m : Memory) → IsLinked m → id_of e.key m.ll ≡ none → IsLinked (push_front e m)
unfolding id_of
push_front-IsLinked e m h new = record {
  linked = λ k. ground (arith, get-put e.key k m.next m.items, h.linked k);
  keys = put-DistinctKeys e.key m.next m.items h.keys;
  distinct = (new, Fresh-find_el m.next m.next m.ll h.fresh (omega arith), h.distinct);
  fresh = (omega arith, Fresh-suc m.next m.ll h.fresh);
}
