-- ===== src/Cache/Tests.antt =====
-- cache/memory.go: a store of two entries, and the theorems at these inputs.
use torge.Base.{◌⊎◌, ◌≡◌, refl, true, false, [], ◌∷◌, none, some, if◌then◌else◌}
use torge.Base.Int.{pos, negsuc}
use torge.Base.Text.{text, text_eq, has_prefix}
use torge.Base.Assoc.{get, put, del}
use torge.Cache.Memory.{
  Memory, new_memory, get_value, set_value, add, delete, delete_prefix, sweep, expired,
}
use torge.Cache.Memory.Elements.{entries, lookup_key}
use torge.Cache.Memory.Operations.{IsValid, new_memory-IsValid, spec_get, get_value-spec_get}
use torge.Cache.Memory.Set.{SetSpec, set_value-SetSpec, Lives, Over, get_value-set_value}
use torge.Cache.Memory.Remove.{remove_keys, delete-remove_keys, live_at, add-set_value}
use torge.Cache.Memory.Loops.{drop_where, delete_prefix-drop_where, sweep-drop_where}

program : Unit {0}
unfolding new_memory get_value set_value add delete delete_prefix sweep get put del text_eq
    has_prefix
program = tt

abbrev empty : Memory
empty = new_memory (pos 2)

abbrev one : Memory
one = set_value 100 (text "a") (7 ∷ []) (pos 50) empty

-- "b" is used last; "a" expires at 150.
abbrev two : Memory
two = set_value 101 (text "b") (8 ∷ []) (negsuc 0) one

two-IsValid : IsValid two
two-IsValid =
    (set_value-SetSpec 101 (text "b") (8 ∷ []) (negsuc 0) one
      (set_value-SetSpec 100 (text "a") (7 ∷ []) (pos 50) empty (new_memory-IsValid (pos 2))).0).0

reads :
    ((get_value 120 (text "a") two).1 ≡ some (7 ∷ []))
    × ((get_value 150 (text "a") two).1 ≡ none)
    × ((get_value 900 (text "b") two).1 ≡ some (8 ∷ []))
    × ((get_value 120 (text "c") two).1 ≡ none)
unfolding program
reads = (refl, refl, refl, refl)

-- The third key evicts the one that was used least recently.
eviction :
    ((get_value 120 (text "a") (set_value 110 (text "c") (9 ∷ []) (pos 0) two)).1 ≡ none)
    × ((get_value 120
          (text "b")
          (set_value 111 (text "c") (9 ∷ []) (pos 0) (get_value 110 (text "a") two).0)).1
        ≡ none)
unfolding program
eviction = (refl, refl)

others :
    ((add 120 (text "a") (1 ∷ []) (pos 5) two).1 ≡ false)
    × ((add 150 (text "a") (1 ∷ []) (pos 5) two).1 ≡ true)
    × ((get_value 120 (text "a") (delete (text "a" ∷ []) two)).1 ≡ none)
    × ((get_value 120 (text "a") (delete_prefix (text "a") two)).1 ≡ none)
    × ((get_value 120 (text "b") (delete_prefix (text "a") two)).1 ≡ some (8 ∷ []))
    × (entries (sweep 150 two).ll ≡ record { key = text "b"; value = 8 ∷ []; expires = 0 } ∷ [])
unfolding program
others = (refl, refl, refl, refl, refl, refl)

get_value-spec_get_example :
    (entries (get_value 120 (text "a") two).0.ll ≡ (spec_get 120 (text "a") (entries two.ll)).0)
    × ((get_value 120 (text "a") two).1 ≡ (spec_get 120 (text "a") (entries two.ll)).1)
get_value-spec_get_example = get_value-spec_get 120 (text "a") two two-IsValid

set_value-SetSpec_example :
    SetSpec
      (record { key = text "c"; value = 9 ∷ []; expires = 130 })
      two
      (set_value 120 (text "c") (9 ∷ []) (pos 10) two)
set_value-SetSpec_example = set_value-SetSpec 120 (text "c") (9 ∷ []) (pos 10) two two-IsValid

get_value-set_value_example :
    (((get_value 125 (text "c") (set_value 120 (text "c") (9 ∷ []) (pos 10) two)).1 ≡ some (9 ∷ []))
      × Lives (pos 10) 120 125)
    ⊎ (((get_value 125 (text "c") (set_value 120 (text "c") (9 ∷ []) (pos 10) two)).1 ≡ none)
        × Over (pos 10) 120 125)
get_value-set_value_example =
    get_value-set_value 120 125 (text "c") (9 ∷ []) (pos 10) two two-IsValid

delete-remove_keys_example :
    IsValid (delete (text "a" ∷ []) two)
    × (entries (delete (text "a" ∷ []) two).ll ≡ remove_keys (text "a" ∷ []) (entries two.ll))
delete-remove_keys_example = delete-remove_keys (text "a" ∷ []) two two-IsValid

add-set_value_example : add 120 (text "a") (1 ∷ []) (pos 5) two ≡ (
    if live_at 120 (lookup_key (text "a") (entries two.ll))
    then (two, false)
    else (set_value 120 (text "a") (1 ∷ []) (pos 5) two, true))
add-set_value_example = add-set_value 120 (text "a") (1 ∷ []) (pos 5) two two-IsValid

delete_prefix-drop_where_example :
    IsValid (delete_prefix (text "a") two)
    × (entries (delete_prefix (text "a") two).ll
        ≡ drop_where (λ e. has_prefix e.key (text "a")) (entries two.ll))
delete_prefix-drop_where_example = delete_prefix-drop_where (text "a") two two-IsValid

sweep-drop_where_example :
    IsValid (sweep 150 two)
    × (entries (sweep 150 two).ll ≡ drop_where (expired 150) (entries two.ll))
sweep-drop_where_example = sweep-drop_where 150 two two-IsValid
