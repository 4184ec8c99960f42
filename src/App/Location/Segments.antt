-- ===== src/App/Location/Segments.antt =====
-- The segments of a path, as path.Clean splits and joins them, for app.go's redirect.
use mathlib.Core.List.{append-nil, append_assoc}
use torge.Base.{
  ℕ, ◌≡◌, ◌≢◌, refl, sym, ◌∙◌, ap, inl, inr, ◌==◌, ==_iff, true, false, List, [], ◌∷◌, ◌++◌,
  Bool-cases, if_all,
}
use torge.Base.Text.{Text, text}
use torge.App.Location.{segments, onto_first, join_segments, ends_in_slash}

-- The text of the segments.
unfoldable pub glue : List Text → Text
glue [] = []
glue (s ∷ []) = s
glue (s ∷ t ∷ ss) = s ++ b'/' ∷ glue (t ∷ ss)

glue-onto_first : (c : ℕ) (ss : List Text) → glue (onto_first c ss) ≡ c ∷ glue ss
unfolding glue
glue-onto_first c [] = refl
glue-onto_first c (s ∷ []) = refl
glue-onto_first c (s ∷ t ∷ ss) = refl

pub segments_shape : (s : Text) → segments s ≢ []
unfolding segments
segments_shape [] = λ e. absurd (cc e)
segments_shape (c ∷ s) =
    if_all {A = List Text} (λ l. l ≢ []) (c == b'/') (λ b e. absurd (cc e)) (λ b. made (segments s))
  where
    made : (ss : List Text) → onto_first c ss ≢ []
    made [] = λ e. absurd (cc e)
    made (t ∷ ss) = λ e. absurd (cc e)

glue_slash : (ss : List Text) → ss ≢ [] → glue ([] ∷ ss) ≡ b'/' ∷ glue ss
unfolding glue
glue_slash [] n = absurd (n refl)
glue_slash (s ∷ ss) n = refl

pub glue-segments : (s : Text) → glue (segments s) ≡ s
unfolding segments glue
glue-segments [] = refl
glue-segments (c ∷ s) = elim (Bool-cases (c == b'/')) [
  | inl b ↦ rw b (
      glue_slash (segments s) (segments_shape s)
      ∙ ap (λ x. b'/' ∷ x) (glue-segments s)
      ∙ ap (λ x. x ∷ s) (sym ((==_iff c b'/').0 b)))
  | inr b ↦ rw b (glue-onto_first c (segments s) ∙ ap (λ x. c ∷ x) (glue-segments s))
]

-- No segment has a slash at its end.
unfoldable pub AllFree : List Text → Type 0
AllFree [] = Unit
AllFree (s ∷ ss) = (ends_in_slash s ≡ false) × AllFree ss

pub segments-AllFree : (s : Text) → AllFree (segments s)
unfolding segments AllFree ends_in_slash
segments-AllFree [] = (refl, tt)
segments-AllFree (c ∷ s) =
    if_all AllFree (c == b'/') (λ b. (refl, segments-AllFree s))
      (λ b. onto_first-AllFree b (segments s) (segments-AllFree s))
  where
    onto_first-AllFree :
        (c == b'/') ≡ false → (ss : List Text) → AllFree ss → AllFree (onto_first c ss)
    onto_first-AllFree b [] f = (b, tt)
    onto_first-AllFree b ([] ∷ ss) (e, f) = (b, f)
    onto_first-AllFree b ((d ∷ s) ∷ ss) (e, f) = (e, f)

pub ends_in_slash-append :
    (x : Text) (d : ℕ) (t : Text) → ends_in_slash (x ++ d ∷ t) ≡ ends_in_slash (d ∷ t)
unfolding ends_in_slash
ends_in_slash-append [] d t = refl
ends_in_slash-append (c ∷ []) d t = refl
ends_in_slash-append (c ∷ e ∷ x) d t = ends_in_slash-append (e ∷ x) d t

pub join_segments-append :
    (t : Text) (ts : List Text) (x y : Text)
    → join_segments (t ∷ ts) (x ++ y) ≡ join_segments (t ∷ ts) x ++ y
unfolding join_segments
join_segments-append t [] x y = sym (append_assoc t x y)
join_segments-append t (u ∷ ts) x y =
    ap (λ w. join_segments (u ∷ ts) (b'/' ∷ w)) (sym (append_assoc t x y))
    ∙ join_segments-append u ts (b'/' ∷ t ++ x) y

pub join_segments-free :
    (d : ℕ) (t : Text) (ts : List Text)
    → ends_in_slash (d ∷ t) ≡ false
    → ends_in_slash (b'/' ∷ join_segments ((d ∷ t) ∷ ts) []) ≡ false
unfolding join_segments ends_in_slash
join_segments-free d t [] f = ap ends_in_slash (append-nil (d ∷ t)) ∙ f
join_segments-free d t (u ∷ ts) f =
    ap (λ x. ends_in_slash (b'/' ∷ x)) (join_segments-append u ts [] (b'/' ∷ (d ∷ t) ++ []))
    ∙ ends_in_slash-append (b'/' ∷ join_segments (u ∷ ts) []) b'/' ((d ∷ t) ++ [])
    ∙ ap ends_in_slash (append-nil (d ∷ t))
    ∙ f

pub slash_ends : ends_in_slash (text "/") ≡ true
unfolding ends_in_slash
slash_ends = refl
