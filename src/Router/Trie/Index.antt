-- ===== src/Router/Trie/Index.antt =====
-- router.go: the index of a wide node agrees with the linear scan of `staticChild`.
use torge.Base.{
  ℕ, zero, suc, ◌+◌, ◌<◌, ◌≡◌, refl, ap, inl, inr, false, List, [], ◌∷◌, ◌++◌, Option, none, some,
  arith, length, length-append, ltb, Option-cases, Bool-cases, if◌then◌else◌,
}
use torge.Base.Text.{Text, text_eq, text_eq_iff}
use torge.Base.Assoc.{get, put, get-put}
use torge.Router.Trie.{
  Kids, nil, kid, max_linear_children, label_test, scan, static_pos, build_index, grow_index,
  index_or_new,
}

-- The staged test of a label is equality.
pub label_test-text_eq : (l seg : Text) → label_test l seg ≡ text_eq l seg
unfolding text_eq
label_test-text_eq [] [] = refl
label_test-text_eq [] (b ∷ seg) = ground arith
label_test-text_eq (a ∷ l) [] = ground arith
label_test-text_eq (a ∷ l) (b ∷ seg) =
    ground (arith, text_eq_iff l seg, ap {A = Text} length {x = l} {y = seg})

abbrev pub length_kids : Kids → ℕ
length_kids nil = 0
length_kids (kid n ks) = suc (length_kids ks)

-- No label occurs twice.
abbrev pub Distinct : List Text → Type 0
Distinct [] = Unit
Distinct (l ∷ ls) = (scan l ls ≡ none) × Distinct ls

abbrev pub IndexOk : List Text → Option (List (Text × ℕ)) → Type 0
IndexOk labels none = Unit
IndexOk labels (some m) =
    (max_linear_children < length labels) × ((s : Text) → get s m ≡ scan s labels)

pub record LocalOk (labels : List Text) (kids : Kids) (index : Option (List (Text × ℕ)))
    : Type 0 where
  pub distinct : Distinct labels
  pub indexed : IndexOk labels index
  pub sized : length_kids kids ≡ length labels

scan-cons :
    (s l : Text) (ls : List Text)
    → scan s (l ∷ ls)
      ≡ (if text_eq l s then some 0 else elim (scan s ls) [ none ↦ none | some i ↦ some (suc i) ])
unfolding scan
scan-cons s l ls = rw (label_test-text_eq l s) refl

pub scan-lt : (s : Text) (ls : List Text) (i : ℕ) → scan s ls ≡ some i → i < length ls
unfolding scan
scan-lt s [] i h = cc
scan-lt s (l ∷ ls) i h = elim (Option-cases (scan s ls)) [
  | inl e ↦ ground arith
  | inr (j, e) ↦ ground (arith, scan-lt s ls j e)
]

pub scan_injective :
    (s t : Text) (ls : List Text) (i : ℕ) → scan s ls ≡ some i → scan t ls ≡ some i → s ≡ t
unfolding scan
scan_injective s t [] i h k = cc
scan_injective s t (l ∷ ls) zero h k =
    ground (arith, label_test-text_eq l s, label_test-text_eq l t, text_eq_iff l s, text_eq_iff l t)
scan_injective s t (l ∷ ls) (suc i) h k = ground (arith, scan_injective s t ls i)

-- What an appended label changes.
pub scan-append :
    (s seg : Text) (ls : List Text)
    → scan seg ls ≡ none
    → scan s (ls ++ seg ∷ []) ≡ (if text_eq seg s then some (length ls) else scan s ls)
unfolding scan
scan-append s seg [] h = rw (label_test-text_eq seg s) refl
scan-append s seg (l ∷ ls) h = ground (
  arith,
  scan-append s seg ls,
  label_test-text_eq l s,
  label_test-text_eq l seg,
  text_eq_iff l s,
  text_eq_iff l seg,
  text_eq_iff seg s,
)

pub Distinct-append :
    (seg : Text) (ls : List Text) → scan seg ls ≡ none → Distinct ls → Distinct (ls ++ seg ∷ [])
unfolding scan
Distinct-append seg [] h d = (refl, tt)
Distinct-append seg (l ∷ ls) h d = (
  ground (
    arith,
    scan-append l seg ls,
    label_test-text_eq l seg,
    text_eq_iff l seg,
    text_eq_iff seg l,
    h,
  ),
  Distinct-append seg ls (ground arith) d.1,
)

-- The loop that fills a new index.
get-build_index :
    (s : Text) (i : ℕ) (ls : List Text) (m : List (Text × ℕ))
    → Distinct ls
    → get s (build_index i ls m) ≡ elim (scan s ls) [ none ↦ get s m | some j ↦ some (i + j) ]
unfolding build_index scan
get-build_index s i [] m d = refl
get-build_index s i (l ∷ ls) m d = ground (
  arith,
  get-build_index s (suc i) ls (put l i m) d.1,
  get-put l s i m,
  label_test-text_eq l s,
  text_eq_iff l s,
)

pub static_pos-scan :
    (s : Text) {labels : List Text} {kids : Kids} {index : Option (List (Text × ℕ))}
    → LocalOk labels kids index
    → static_pos s labels index ≡ scan s labels
unfolding static_pos
static_pos-scan s {index = none} h = refl
static_pos-scan s {index = some m} h = h.indexed.1 s

-- The index of a node that grew agrees with the scan again.
pub IndexOk-grow_index :
    (labels : List Text) (index : Option (List (Text × ℕ))) (seg : Text)
    → scan seg labels ≡ none
    → Distinct labels
    → IndexOk labels index
    → IndexOk (labels ++ seg ∷ []) (grow_index (labels ++ seg ∷ []) index seg (length labels))
unfolding grow_index get
IndexOk-grow_index labels index seg fresh d h =
    elim (Bool-cases (ltb 8 (length (labels ++ seg ∷ [])))) [
      | inr small ↦ rw small (keep index h small)
      | inl wide ↦ rw wide (ground (arith, wide), λ s. wide_index index h s)
    ]
  where
    keep :
        (index : Option (List (Text × ℕ)))
        → IndexOk labels index
        → ltb 8 (length (labels ++ seg ∷ [])) ≡ false
        → IndexOk (labels ++ seg ∷ []) index
    keep none h small = tt
    keep (some m) h small = absurd (ground (arith, h.0, length-append labels (seg ∷ [])))

    wide_index :
        (index : Option (List (Text × ℕ)))
        → IndexOk labels index
        → (s : Text)
        → get s (put seg (length labels) (index_or_new (labels ++ seg ∷ []) index))
          ≡ scan s (labels ++ seg ∷ [])
    wide_index none h s = ground (
      arith,
      get-put seg s (length labels) (build_index 0 (labels ++ seg ∷ []) []),
      get-build_index s 0 (labels ++ seg ∷ []) [] (Distinct-append seg labels fresh d),
      scan-append s seg labels fresh,
    )
    wide_index (some m) h s =
        ground (arith, get-put seg s (length labels) m, scan-append s seg labels fresh, h.1 s)
