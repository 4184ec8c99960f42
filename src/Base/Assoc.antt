-- ===== src/Base/Assoc.antt =====
-- A Go map with string keys, as an association list. A key that is present is overwritten in place.
use torge.Base.{◌≡◌, refl, ◌∙◌, false, List, [], ◌∷◌, Option, none, some, arith, if◌then◌else◌}
use torge.Base.Text.{Text, text_eq, text_eq_iff, text_eq_refl}

module _ {ℓ} {V : Type ℓ} where
  -- `m[k]` with its `ok`.
  unfoldable pub get : Text → List (Text × V) → Option V
  get k [] = none
  get k ((j, v) ∷ m) = if text_eq j k then some v else get k m

  -- `m[k] = v`.
  unfoldable pub put : Text → V → List (Text × V) → List (Text × V)
  put k v [] = (k, v) ∷ []
  put k v ((j, w) ∷ m) = if text_eq j k then (k, v) ∷ m else (j, w) ∷ put k v m

  -- `delete(m, k)`.
  unfoldable pub del : Text → List (Text × V) → List (Text × V)
  del k [] = []
  del k ((j, w) ∷ m) = if text_eq j k then del k m else (j, w) ∷ del k m

  pub get-put :
      (k j : Text) (v : V) (m : List (Text × V))
      → get j (put k v m) ≡ (if text_eq k j then some v else get j m)
  unfolding get put
  get-put k j v [] = refl
  get-put k j v ((i, w) ∷ m) =
      ground (arith, text_eq_iff k j, text_eq_iff i k, text_eq_iff i j, get-put k j v m)

  pub get-put_self : (k : Text) (v : V) (m : List (Text × V)) → get k (put k v m) ≡ some v
  get-put_self k v m = ground (arith, get-put k k v m, text_eq_refl k)

  pub get-del :
      (k j : Text) (m : List (Text × V)) → get j (del k m) ≡ (if text_eq k j then none else get j m)
  unfolding get del
  get-del k j [] = ground arith
  get-del k j ((i, w) ∷ m) =
      ground (arith, text_eq_iff k j, text_eq_iff i k, text_eq_iff i j, get-del k j m)

  -- No key occurs twice, as in a Go map.
  abbrev pub DistinctKeys : List (Text × V) → Type ℓ
  DistinctKeys [] = Unit
  DistinctKeys ((k, v) ∷ m) = (get k m ≡ none) × DistinctKeys m

  get-put-none :
      (k j : Text) (v : V) (m : List (Text × V))
      → text_eq k j ≡ false
      → get j m ≡ none
      → get j (put k v m) ≡ none
  get-put-none k j v m e h = get-put k j v m ∙ rw e h

  pub put-DistinctKeys :
      (k : Text) (v : V) (m : List (Text × V)) → DistinctKeys m → DistinctKeys (put k v m)
  unfolding put get
  put-DistinctKeys k v [] d = (refl, tt)
  put-DistinctKeys k v ((i, w) ∷ m) d =
      ground
        (arith, text_eq_iff i k, text_eq_iff k i, put-DistinctKeys k v m d.1, get-put-none k i v m)

  pub get-del_self : (k : Text) (m : List (Text × V)) → get k (del k m) ≡ none
  get-del_self k m = get-del k k m ∙ rw (text_eq_refl k) refl

  get-del-none : (k j : Text) (m : List (Text × V)) → get j m ≡ none → get j (del k m) ≡ none
  get-del-none k j m h = ground (arith, get-del k j m)

  pub del-DistinctKeys : (k : Text) (m : List (Text × V)) → DistinctKeys m → DistinctKeys (del k m)
  unfolding del
  del-DistinctKeys k [] d = tt
  del-DistinctKeys k ((i, w) ∷ m) d = ground (arith, get-del-none k i m, del-DistinctKeys k m d.1)
