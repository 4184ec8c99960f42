-- ===== src/Realtime/Hub/Detach.antt =====
-- realtime/hub.go: `detachLocked` and `removeSub`.
use mathlib.Core.Path.{subst}
use torge.Base.{
  ℕ, ◌≡◌, refl, sym, ◌∙◌, ap, inl, inr, Bool, true, false, ◌&&◌, ◌||◌, List, [], ◌∷◌, Option, none,
  some, Bool-cases, ◌==◌, ==_iff, if_all,
}
use torge.Base.Members.{In, here, there}
use torge.Base.Text.{Text, text_eq, text_eq_iff}
use torge.Base.Assoc.{get, put, del, put-DistinctKeys, del-DistinctKeys}
use torge.Realtime.{Topic, Subscriber}
use torge.Realtime.Ring.{RingOk}
use torge.Realtime.Hub.{
  Hub, detach, detach_all, leave_topic, without, close_subscriber, is_empty, remove_sub,
}
use torge.Realtime.Hub.Core.{CoreOk, Listed, put_same, put_other, del_same, del_other, some_inj}
use torge.Realtime.Hub.Channels.{Leaves, Leaves-CoreOk, In-without, without-keeps}

module _ (h : Hub) (ok : CoreOk h) (k : Text) (s : ℕ) (own : (h.subscribers s).topic ≡ k) where
  -- In another topic there are only other subscribers.
  elsewhere : (j : Text) (i : ℕ) → Listed h.topics j i → (j ≡ k → ⊥) → (i == s) ≡ false
  elsewhere j i l n = elim (Bool-cases (i == s)) [
    | inl b ↦
        absurd (n (sym ((ok.members j s (subst (Listed h.topics j) ((==_iff i s).0 b) l)).1) ∙ own))
    | inr b ↦ b
  ]

  differ : (j : Text) → text_eq k j ≡ false → j ≡ k → ⊥
  differ j b e = absurd (cc (sym b ∙ (text_eq_iff k j).1 (sym e)))

  absent-Leaves : get k h.topics ≡ none → Leaves h s h.topics
  absent-Leaves a = record {
    distinct = ok.distinct;
    rings = ok.rings;
    shrunk = λ j i (u, e, m). (
      (u, e, m),
      elsewhere j i (u, e, m) (λ x. absurd (cc (sym a ∙ ap (λ y. get y h.topics) (sym x) ∙ e))),
    );
    grown = λ j i l o. l;
    emptied = λ e. e;
  }

  module _ (t : Topic) (at : get k h.topics ≡ some t) where
    same_topic : (j : Text) (u : Topic) → text_eq k j ≡ true → get j h.topics ≡ some u → t ≡ u
    same_topic j u b e = some_inj (sym at ∙ ap (λ x. get x h.topics) ((text_eq_iff k j).0 b) ∙ e)

    at_key : (j : Text) → text_eq k j ≡ true → get j h.topics ≡ some t
    at_key j b = ap (λ x. get x h.topics) (sym ((text_eq_iff k j).0 b)) ∙ at

    put-Leaves : Leaves h s (put k (record t { subs = without s t.subs }) h.topics)
    unfolding get
    put-Leaves = record {
      distinct = put-DistinctKeys k _ h.topics ok.distinct;
      rings = λ j u e. elim (Bool-cases (text_eq k j)) [
        | inl b ↦ subst (RingOk h.replay) (some_inj (sym (put_same k j h.topics _ b) ∙ e)) (
            let r = ok.rings k t at in
            record { fits = r.fits; not_full = r.not_full; in_buf = r.in_buf })
        | inr b ↦ ok.rings j u (sym (put_other k j h.topics _ b) ∙ e)
      ];
      shrunk = λ j i (u, e, m). elim (Bool-cases (text_eq k j)) [
        | inl b ↦
            let (l, o) = In-without s i t.subs (
              subst (λ (x : Topic). In i x.subs)
                (sym (some_inj (sym (put_same k j h.topics _ b) ∙ e))) m) in
            ((t, at_key j b, l), o)
        | inr b ↦
            let was = sym (put_other k j h.topics _ b) ∙ e in
            ((u, was, m), elsewhere j i (u, was, m) (differ j b))
      ];
      grown = λ j i (u, e, m) o. elim (Bool-cases (text_eq k j)) [
        | inl b ↦ (
          record t { subs = without s t.subs },
          put_same k j h.topics _ b,
          without-keeps s i t.subs (subst (λ (x : Topic). In i x.subs) (sym (same_topic j u b e)) m)
              o,
        )
        | inr b ↦ (u, put_other k j h.topics _ b ∙ e, m)
      ];
      emptied = λ e. absurd (cc (sym (ap (get k) e) ∙ at));
    }

    del-Leaves : is_empty (without s t.subs) ≡ true → Leaves h s (del k h.topics)
    unfolding del
    del-Leaves gone = record {
      distinct = del-DistinctKeys k h.topics ok.distinct;
      rings = λ j u e. elim (Bool-cases (text_eq k j)) [
        | inl b ↦ absurd (cc (sym (del_same k j h.topics b) ∙ e))
        | inr b ↦ ok.rings j u (sym (del_other k j h.topics b) ∙ e)
      ];
      shrunk = λ j i (u, e, m). elim (Bool-cases (text_eq k j)) [
        | inl b ↦ absurd (cc (sym (del_same k j h.topics b) ∙ e))
        | inr b ↦
            let was = sym (del_other k j h.topics b) ∙ e in
            ((u, was, m), elsewhere j i (u, was, m) (differ j b))
      ];
      grown = λ j i (u, e, m) o. elim (Bool-cases (text_eq k j)) [
        | inl b ↦ absurd (
            nobody _ i gone (
              without-keeps s i t.subs
                (subst (λ (x : Topic). In i x.subs) (sym (same_topic j u b e)) m) o))
        | inr b ↦ (u, del_other k j h.topics b ∙ e, m)
      ];
      emptied = λ e. ap (del k) e;
    }
      where
        nobody : (l : List ℕ) (i : ℕ) → is_empty l ≡ true → In i l → ⊥
        nobody [] i e m = elim m [ ]
        nobody (x ∷ l) i e m = absurd (cc e)

  leave_topic-CoreOk :
      (o : Option Topic) → get k h.topics ≡ o → CoreOk (close_subscriber s (leave_topic k s o h))
  leave_topic-CoreOk none e = Leaves-CoreOk h s h.topics ok (absent-Leaves e)
  leave_topic-CoreOk (some t) e =
      if_all {A = Hub} (λ g. CoreOk (close_subscriber s g))
        (is_empty (without s t.subs) && (h.replay == 0 || is_empty t.buf))
        (λ b. Leaves-CoreOk h s _ ok (del-Leaves t e (first_of _ _ b)))
        (λ b. Leaves-CoreOk h s _ ok (put-Leaves t e))
    where
      first_of : (a b : Bool) → (a && b) ≡ true → a ≡ true
      first_of true b e = refl
      first_of false b e = absurd (cc e)

  -- A subscriber of the topic, or one that has left it, is taken off and closed.
  pub detach-CoreOk : CoreOk (detach k s h)
  unfolding detach
  detach-CoreOk = leave_topic-CoreOk (get k h.topics) refl

pub remove_sub-CoreOk : (s : ℕ) (h : Hub) → CoreOk h → CoreOk (remove_sub s h)
unfolding remove_sub
remove_sub-CoreOk s h ok = detach-CoreOk h ok (h.subscribers s).topic s refl

detach-topic :
    (k : Text) (s j : ℕ) (h : Hub) → ((detach k s h).subscribers j).topic ≡ (h.subscribers j).topic
unfolding detach
detach-topic k s j h = after (get k h.topics)
  where
    closing :
        (g : Hub)
        → g.subscribers ≡ h.subscribers
        → ((close_subscriber s g).subscribers j).topic ≡ (h.subscribers j).topic
    closing g e =
        if_all (λ (u : Subscriber). u.topic ≡ (h.subscribers j).topic) (j == s)
          (λ b.
            ap (λ f. (f s).topic) e ∙ ap (λ i. (h.subscribers i).topic) (sym ((==_iff j s).0 b)))
          (λ b. ap (λ f. (f j).topic) e)

    after :
        (o : Option Topic)
        → ((close_subscriber s (leave_topic k s o h)).subscribers j).topic ≡ (h.subscribers j).topic
    after none = closing h refl
    after (some t) =
        if_all {A = Hub}
          (λ g. ((close_subscriber s g).subscribers j).topic ≡ (h.subscribers j).topic)
          (is_empty (without s t.subs) && (h.replay == 0 || is_empty t.buf))
          (λ b. closing (record h { topics = del k h.topics }) refl)
          (λ b.
            closing (record h { topics = put k (record t { subs = without s t.subs }) h.topics })
              refl)

pub detach_all-CoreOk :
    (k : Text) (ds : List ℕ) (h : Hub)
    → CoreOk h
    → ((s : ℕ) → In s ds → (h.subscribers s).topic ≡ k)
    → CoreOk (detach_all k ds h)
unfolding detach_all
detach_all-CoreOk k [] h ok own = ok
detach_all-CoreOk k (s ∷ ds) h ok own =
    detach_all-CoreOk k ds (detach k s h) (detach-CoreOk h ok k s (own s (here refl)))
      (λ j m. detach-topic k s j h ∙ own j (there m))
