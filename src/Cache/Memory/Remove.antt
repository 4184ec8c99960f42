-- ===== src/Cache/Memory/Remove.antt =====
-- cache/memory.go: `Delete` and `Add` on the entries.
use torge.Base.{
  ℕ, ◌≡◌, refl, sym, ◌∙◌, ap, Bool, true, false, List, [], ◌∷◌, Option, none, some, not,
  if◌then◌else◌,
}
use torge.Base.Int.{ℤ}
use torge.Base.Text.{Text}
use torge.Cache.Memory.{
  Entry, Memory, find_key, expired, is_live, remove_found, set_value, add, delete,
}
use torge.Cache.Memory.Elements.{id_of, entries, lookup_key, remove_key, remove_key-absent}
use torge.Cache.Memory.Operations.{IsValid, remove-IsValid}
use torge.Cache.Memory.Refine.{Search, missing, held, search, entries-remove}

remove_found-entries :
    (k : Text) (m : Memory)
    → IsValid m
    → IsValid (remove_found m (find_key k m))
      × (entries (remove_found m (find_key k m)).ll ≡ remove_key k (entries m.ll))
remove_found-entries k m h = go (search k m h.linked)
  where
    go :
        Search k m
        → IsValid (remove_found m (find_key k m))
          × (entries (remove_found m (find_key k m)).ll ≡ remove_key k (entries m.ll))
    go (missing f n l) = rw (f, remove_found) (h, sym (remove_key-absent k m.ll n))
    go (held id e f at_key same l) =
        let at_own : id_of e.key m.ll ≡ some id = rw same at_key in
        rw (f, remove_found)
          (
            remove-IsValid id e m h at_own,
            entries-remove id e m h.linked at_own ∙ ap (λ t. remove_key t (entries m.ll)) same,
          )

abbrev pub remove_keys : List Text → List Entry → List Entry
remove_keys [] es = es
remove_keys (k ∷ ks) es = remove_keys ks (remove_key k es)

-- `Delete` on a valid store keeps it valid and removes the entries of the keys, and no others.
pub delete-remove_keys :
    (ks : List Text) (m : Memory)
    → IsValid m
    → IsValid (delete ks m) × (entries (delete ks m).ll ≡ remove_keys ks (entries m.ll))
unfolding delete
delete-remove_keys [] m h = (h, refl)
delete-remove_keys (k ∷ ks) m h =
    let (valid, removed) = remove_found-entries k m h in
    let (valid', removed') = delete-remove_keys ks (remove_found m (find_key k m)) valid in
    (valid', removed' ∙ ap (remove_keys ks) removed)

-- Whether the key has an entry that has not expired.
abbrev pub live_at : ℕ → Option Entry → Bool
live_at now none = false
live_at now (some e) = not (expired now e)

-- On a valid store `Add` stores the value exactly if the key has no live entry, and reports whether
-- it did; if it did not, nothing changes.
pub add-set_value :
    (now : ℕ) (k : Text) (v : List ℕ) (ttl : ℤ) (m : Memory)
    → IsValid m
    → add now k v ttl m ≡ (
        if live_at now (lookup_key k (entries m.ll))
        then (m, false)
        else (set_value now k v ttl m, true))
add-set_value now k v ttl m h = go (search k m h.linked)
  where
    by_search :
        add now k v ttl m
        ≡ (if is_live now (find_key k m) then (m, false) else (set_value now k v ttl m, true))
    by_search = unfold add in refl

    go :
        Search k m
        → add now k v ttl m ≡ (
            if live_at now (lookup_key k (entries m.ll))
            then (m, false)
            else (set_value now k v ttl m, true))
    go (missing f n l) = by_search ∙ rw (f, l) refl
    go (held id e f at_key same l) = by_search ∙ rw (f, l) refl
