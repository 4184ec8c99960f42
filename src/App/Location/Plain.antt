-- ===== src/App/Location/Plain.antt =====
-- app.go: the Location of a redirect to a path in which there is nothing to clean.
use mathlib.Core.List.{append-nil}
use mathlib.Core.Path.{subst}
use torge.Base.{
  ◌≡◌, ◌≢◌, refl, sym, ◌∙◌, ap, ◌⊎◌, inl, inr, ◌&&◌, ◌||◌, not, ◌==◌, ==_iff, Bool, true, false,
  List, [], ◌∷◌, ◌++◌, arith, Bool-cases, if◌then◌else◌,
}
use torge.Base.Text.{Text, text, text_eq, text_eq_refl}
use torge.Router.Pattern.{is_nil}
use torge.App.Location.{
  segments, push_segment, dots, clean_segments, join_segments, clean, ends_in_slash, keep_slash,
  location,
}
use torge.App.Location.Segments.{
  glue, segments_shape, glue-segments, AllFree, segments-AllFree, ends_in_slash-append,
  join_segments-append, join_segments-free, slash_ends,
}

-- A segment that path.Clean keeps is not empty and neither "." nor "..".
abbrev no_dots : Text → Bool
no_dots s = not (text_eq s (text ".")) && not (text_eq s (text ".."))

-- The segments of a path without dot segments and, but for the end, without empty ones.
unfoldable pub is_plain : List Text → Bool
is_plain [] = true
is_plain (s ∷ []) = no_dots s
is_plain (s ∷ t ∷ ss) = let rest = is_plain (t ∷ ss) in not (is_nil s) && no_dots s && rest

-- What comes after the segments that are kept.
onto : List Text → Text → Text
onto [] x = x
onto (t ∷ ts) x = join_segments (t ∷ ts) (b'/' ∷ x)

-- The text `w` is `r`, or it is `r` and a slash.
Joined : Text → Text → Type 0
Joined r w = (r ≡ w) ⊎ ((ends_in_slash (b'/' ∷ r) ≡ false) × (w ≡ r ++ text "/"))

-- The segment that was kept last is a segment before a slash.
TopOk : List Text → Type 0
TopOk [] = Unit
TopOk (t ∷ ts) = (is_nil t ≡ false) × (ends_in_slash t ≡ false)

not_nil : (s : Text) → is_nil s ≡ false → text_eq s [] ≡ false
unfolding text_eq
not_nil [] n = absurd (cc n)
not_nil (c ∷ s) n = refl

no_dots_split :
    (s : Text) → no_dots s ≡ true → (text_eq s (text ".") ≡ false) × (text_eq s dots ≡ false)
no_dots_split s d = ground (arith, d)

push_segment-kept :
    (s : Text) (kept : List Text) → text_eq s dots ≡ false → push_segment true s kept ≡ s ∷ kept
push_segment-kept s [] b = rw b refl
push_segment-kept s (t ∷ ts) b = rw b refl

push-kept :
    (s : Text) (kept : List Text)
    → is_nil s ≡ false
    → no_dots s ≡ true
    → (if text_eq s [] || text_eq s (text ".") then kept else push_segment true s kept) ≡ s ∷ kept
push-kept s kept n d =
    let (dot, two) = no_dots_split s d in rw (not_nil s n) (rw dot (push_segment-kept s kept two))

onto-kept : (s : Text) (kept : List Text) (x : Text) → onto (s ∷ kept) x ≡ onto kept (s ++ b'/' ∷ x)
unfolding onto join_segments
onto-kept s [] x = refl
onto-kept s (t ∷ ts) x = refl

end-Joined : (kept : List Text) → TopOk kept → Joined (join_segments kept []) (onto kept [])
unfolding onto join_segments Joined TopOk ends_in_slash
end-Joined [] k = inl refl
end-Joined ([] ∷ ts) (n, f) = absurd (cc n)
end-Joined ((d ∷ t) ∷ ts) (n, f) =
    inr (join_segments-free d t ts f, join_segments-append (d ∷ t) ts [] (text "/"))

last-Joined : (s : Text) (kept : List Text) → join_segments (s ∷ kept) [] ≡ onto kept s
unfolding onto join_segments
last-Joined s [] = append-nil s
last-Joined s (t ∷ ts) = ap (λ x. join_segments (t ∷ ts) (b'/' ∷ x)) (append-nil s)

plain_split : (a b c : Bool) → (not a && b && c) ≡ true → (a ≡ false) × (b ≡ true) × (c ≡ true)
plain_split a b c p = ground (arith, p)

clean_segments-Joined :
    (ss kept : List Text)
    → ss ≢ []
    → is_plain ss ≡ true
    → AllFree ss
    → TopOk kept
    → Joined (join_segments (clean_segments true ss kept) []) (onto kept (glue ss))
unfolding clean_segments is_plain glue AllFree TopOk Joined
clean_segments-Joined [] kept n p f k = absurd (n refl)
clean_segments-Joined ([] ∷ []) kept n p f k =
    subst (λ l. Joined (join_segments l []) (onto kept [])) (rw (text_eq_refl []) refl)
      (end-Joined kept k)
clean_segments-Joined ((c ∷ s) ∷ []) kept n p f k =
    inl (ap (λ l. join_segments l []) (push-kept (c ∷ s) kept refl p) ∙ last-Joined (c ∷ s) kept)
clean_segments-Joined (s ∷ t ∷ ss) kept n p (e, f) k =
    let (not_empty, d, rest) = plain_split (is_nil s) (no_dots s) (is_plain (t ∷ ss)) p in
    subst
      (λ l.
        Joined (join_segments (clean_segments true (t ∷ ss) l) []) (onto kept (glue (s ∷ t ∷ ss))))
      (sym (push-kept s kept not_empty d))
      (subst (Joined (join_segments (clean_segments true (t ∷ ss) (s ∷ kept)) []))
        (onto-kept s kept (glue (t ∷ ss)))
        (clean_segments-Joined (t ∷ ss) (s ∷ kept) (λ x. absurd (cc x)) rest f (not_empty, e)))

keep_slash-Joined :
    (r w : Text) → Joined r w → keep_slash (ends_in_slash (b'/' ∷ w)) (b'/' ∷ r) ≡ b'/' ∷ w
unfolding Joined
keep_slash-Joined r w (inl e) =
    subst (λ x. keep_slash (ends_in_slash (b'/' ∷ w)) (b'/' ∷ x) ≡ b'/' ∷ w) (sym e)
      (elim (Bool-cases (ends_in_slash (b'/' ∷ w))) [ inl b ↦ rw b refl | inr b ↦ rw b refl ])
keep_slash-Joined r w (inr (f, e)) =
    subst (λ x. keep_slash (ends_in_slash (b'/' ∷ x)) (b'/' ∷ r) ≡ b'/' ∷ x) (sym e)
      (rw (ends_in_slash-append (b'/' ∷ r) b'/' []) (rw slash_ends (rw f refl)))

clean-rooted :
    (s : Text) → clean (b'/' ∷ s) ≡ b'/' ∷ join_segments (clean_segments true (segments s) []) []
unfolding clean segments clean_segments text_eq
clean-rooted s = refl

location-is_plain :
    (old s : Text) → is_plain (segments s) ≡ true → location old (b'/' ∷ s) ≡ b'/' ∷ s
unfolding location onto TopOk
location-is_plain old s p =
    ap (keep_slash (ends_in_slash (b'/' ∷ s))) (clean-rooted s)
    ∙ keep_slash-Joined _ s (
        subst (Joined (join_segments (clean_segments true (segments s) []) [])) (glue-segments s)
          (clean_segments-Joined (segments s) [] (segments_shape s) p (segments-AllFree s) tt))

-- A path that starts with a slash and has no dot segment, and no empty segment but at its end.
abbrev pub is_plain_path : Text → Bool
is_plain_path [] = false
is_plain_path (c ∷ s) = (c == b'/') && is_plain (segments s)

-- What http.Redirect makes of a path with nothing to clean is that path.
pub location-is_plain_path : (old p : Text) → is_plain_path p ≡ true → location old p ≡ p
location-is_plain_path old [] e = absurd (cc e)
location-is_plain_path old (c ∷ s) e =
    let (rooted, plain) = both (c == b'/') (is_plain (segments s)) e in
    subst (λ x. location old (x ∷ s) ≡ x ∷ s) (sym ((==_iff c b'/').0 rooted))
      (location-is_plain old s plain)
  where
    both : (a b : Bool) → (a && b) ≡ true → (a ≡ true) × (b ≡ true)
    both a b h = ground (arith, h)
