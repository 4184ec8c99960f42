-- ===== src/Cache/Memory.antt =====
-- cache/memory.go: the in-process LRU store. A *list.Element is a number, under which the list
-- holds the entry; the map `items` holds these numbers. An instant is in nanoseconds since the zero
-- time.Time, so `IsZero` is a test for 0; `now` is what the clock of the call returned.
pub mod Elements
pub mod Refine
pub mod Operations
pub mod Evict
pub mod Set
pub mod Remove
pub mod Loops
use torge.Base.{
  ℕ, zero, suc, ◌+◌, Bool, true, false, ◌&&◌, not, List, [], ◌∷◌, Option, none, some, length, ltb,
  ◌==◌, if◌then◌else◌,
}
use torge.Base.Int.{ℤ, pos, negsuc}
use torge.Base.Text.{Text, has_prefix}
use torge.Base.Assoc.{get, put, del}

pub record Entry : Type 0 where
  pub key : Text
  pub value : List ℕ
  pub expires : ℕ

pub record Memory : Type 0 where
  pub max : ℕ
  -- the list, front first, each element under its number
  pub ll : List (ℕ × Entry)
  pub items : List (Text × ℕ)
  -- the number of the next element
  pub next : ℕ

-- `NewMemory`, with its default.
unfoldable pub new_memory : ℤ → Memory
new_memory (negsuc n) = record { max = 10000; ll = []; items = []; next = 0 }
new_memory (pos n) = record { max = if n == 0 then 10000 else n; ll = []; items = []; next = 0 }

-- `el.Value`.
unfoldable pub find_el : ℕ → List (ℕ × Entry) → Option Entry
find_el id [] = none
find_el id ((i, e) ∷ l) = if i == id then some e else find_el id l

-- `ll.Remove(el)`.
unfoldable pub remove_el : ℕ → List (ℕ × Entry) → List (ℕ × Entry)
remove_el id [] = []
remove_el id ((i, e) ∷ l) = if i == id then l else (i, e) ∷ remove_el id l

abbrev pub expired : ℕ → Entry → Bool
expired now e = not (e.expires == 0) && not (ltb now e.expires)

-- `m.remove(el)`, for the element `id` that holds `e`.
unfoldable pub remove : ℕ → Entry → Memory → Memory
unfolding remove_el
remove id e m = record m { ll = remove_el id m.ll; items = del e.key m.items }

-- `ll.MoveToFront(el)`, with the entry `e` in the element.
abbrev pub to_front : ℕ → Entry → List (ℕ × Entry) → List (ℕ × Entry)
to_front id e l = (id, e) ∷ remove_el id l

-- The entry of a key, with its element. (A dangling element is read as no entry; `Refine` shows
-- that there is none.)
abbrev pub element_of : Option ℕ → List (ℕ × Entry) → Option (ℕ × Entry)
element_of none l = none
element_of (some id) l = elim (find_el id l) [ none ↦ none | some e ↦ some (id, e) ]

unfoldable pub find_key : Text → Memory → Option (ℕ × Entry)
unfolding find_el
find_key key m = element_of (get key m.items) m.ll

abbrev pub get_found : ℕ → Memory → Option (ℕ × Entry) → Memory × Option (List ℕ)
get_found now m none = (m, none)
get_found now m (some (id, e)) =
    if expired now e
    then (remove id e m, none)
    else (record m { ll = to_front id e m.ll }, some e.value)

-- `Get`; `none` is ErrNotFound.
unfoldable pub get_value : ℕ → Text → Memory → Memory × Option (List ℕ)
unfolding find_key remove
get_value now key m = get_found now m (find_key key m)

abbrev pub expires_at : ℕ → ℤ → ℕ
expires_at now (negsuc n) = 0
expires_at now (pos n) = if n == 0 then 0 else now + n

-- `ll.Back()`
abbrev pub back : List (ℕ × Entry) → Option (ℕ × Entry)
back [] = none
back (x ∷ []) = some x
back (x ∷ y ∷ l) = back (y ∷ l)

-- The loop at the end of `set`, with fuel.
unfoldable pub evict : ℕ → Memory → Memory
unfolding remove
evict zero m = m
evict (suc fuel) m = elim (ltb m.max (length m.ll)) [
  | false ↦ m
  | true ↦ elim (back m.ll) [ none ↦ m | some (id, e) ↦ evict fuel (remove id e m) ]
]

-- `PushFront` and the new map entry.
abbrev pub push_front : Entry → Memory → Memory
push_front e m = record {
  max = m.max;
  ll = (m.next, e) ∷ m.ll;
  items = put e.key m.next m.items;
  next = suc m.next;
}

abbrev pub set_found : Entry → Memory → Option (ℕ × Entry) → Memory
set_found e m (some (id, old)) = record m { ll = to_front id e m.ll }
set_found e m none = evict (length (push_front e m).ll) (push_front e m)

-- `set`; `now` is read only where ttl > 0.
unfoldable pub set_value : ℕ → Text → List ℕ → ℤ → Memory → Memory
unfolding find_key evict
set_value now key value ttl m =
    set_found (record { key = key; value = value; expires = expires_at now ttl }) m (find_key key m)

abbrev pub is_live : ℕ → Option (ℕ × Entry) → Bool
is_live now none = false
is_live now (some (id, e)) = not (expired now e)

-- `Add`
unfoldable pub add : ℕ → Text → List ℕ → ℤ → Memory → Memory × Bool
unfolding set_value
add now key value ttl m =
    if is_live now (find_key key m) then (m, false) else (set_value now key value ttl m, true)

abbrev pub remove_found : Memory → Option (ℕ × Entry) → Memory
remove_found m none = m
remove_found m (some (id, e)) = remove id e m

-- `Delete`
unfoldable pub delete : List Text → Memory → Memory
unfolding find_key remove
delete [] m = m
delete (k ∷ ks) m = delete ks (remove_found m (find_key k m))

-- `DeletePrefix`: the loop over the map, whose entries it removes as it goes.
unfoldable pub delete_prefix_in : Text → List (Text × ℕ) → Memory → Memory
unfolding find_key remove
delete_prefix_in prefix [] m = m
delete_prefix_in prefix ((k, id) ∷ items) m =
    delete_prefix_in prefix items
      (if has_prefix k prefix then remove_found m (element_of (some id) m.ll) else m)

unfoldable pub delete_prefix : Text → Memory → Memory
unfolding delete_prefix_in
delete_prefix prefix m = delete_prefix_in prefix m.items m

-- `sweep`: the loop over the map.
abbrev pub remove_expired : ℕ → Memory → Option (ℕ × Entry) → Memory
remove_expired now m none = m
remove_expired now m (some (id, e)) = if expired now e then remove id e m else m

unfoldable pub sweep_in : ℕ → List (Text × ℕ) → Memory → Memory
unfolding find_key remove
sweep_in now [] m = m
sweep_in now ((k, id) ∷ items) m =
    sweep_in now items (remove_expired now m (element_of (some id) m.ll))

unfoldable pub sweep : ℕ → Memory → Memory
unfolding sweep_in
sweep now m = sweep_in now m.items m

-- `Len`
abbrev pub len : Memory → ℕ
len m = length m.ll
