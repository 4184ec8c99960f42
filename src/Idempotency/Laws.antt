-- ===== src/Idempotency/Laws.antt =====
-- idempotency/idempotency.go: a key is run once while its record lives, and then replayed.
use mathlib.Core.Path.{subst}
use torge.Base.{
  ℕ, zero, suc, ◌+◌, ◌≤◌, ◌<◌, ◌≡◌, refl, ◌∙◌, ap, true, false, List, [], ◌∷◌, none, some, arith,
  length, ltb, leb, if◌then◌else◌,
}
use torge.Base.Int.{pos}
use torge.Base.Text.{Text, text_eq, text_eq_refl}
use torge.Router.Pattern.{contains}
use torge.Cache.Memory.{Entry, Memory, expired, expires_at, add, get_value, set_value, delete}
use torge.Cache.Memory.Elements.{entries, lookup_key, remove_key}
use torge.Cache.Memory.Operations.{IsValid, spec_get, spec_set, get_value-spec_get}
use torge.Cache.Memory.Set.{set_value-SetSpec}
use torge.Cache.Memory.Remove.{live_at, add-set_value, delete-remove_keys}
use torge.Idempotency.Store.{
  Response, Record, Codec, Clocks, reserved, existing, full_key, try_reserve, reserve, complete,
  release,
}
use torge.Idempotency.Middleware.{
  Config, Request, fingerprint, scoped_key, run, begin, is_empty, in_progress, key_reused, replay,
  on_existing, begun_of, begun_with, pending, begin_keyed, Ending, failed, uncaptured, responded,
  finish,
}

lookup_key-spec_set :
    (max : ℕ) (e : Entry) (es : List Entry)
    → 0 < max
    → lookup_key e.key (spec_set max e es) ≡ some e
unfolding spec_set lookup_key
lookup_key-spec_set zero e es h = absurd (omega arith)
lookup_key-spec_set (suc n) e es h = rw (text_eq_refl e.key) refl

lookup_key-remove_key_self : (k : Text) (es : List Entry) → lookup_key k (remove_key k es) ≡ none
unfolding lookup_key remove_key
lookup_key-remove_key_self k [] = refl
lookup_key-remove_key_self k (e ∷ es) = ground (arith, lookup_key-remove_key_self k es)

lookup_key-set_value :
    (now : ℕ) (k : Text) (v : List ℕ) (ttl : ℕ) (m : Memory)
    → IsValid m
    → lookup_key k (entries (set_value now k v (pos ttl) m).ll)
      ≡ some (record { key = k; value = v; expires = expires_at now (pos ttl) })
lookup_key-set_value now k v ttl m h =
    let e : Entry = record { key = k; value = v; expires = expires_at now (pos ttl) } in
    let (valid, kept, same) = set_value-SetSpec now k v (pos ttl) m h in
    ap (lookup_key k) kept ∙ lookup_key-spec_set m.max e (entries m.ll) h.positive

lookup_key-delete :
    (k : Text) (m : Memory) → IsValid m → lookup_key k (entries (delete (k ∷ []) m).ll) ≡ none
lookup_key-delete k m h =
    let (valid, kept) = delete-remove_keys (k ∷ []) m h in
    ap (lookup_key k) kept ∙ lookup_key-remove_key_self k (entries m.ll)

get_value-live :
    (now : ℕ) (k : Text) (e : Entry) (m : Memory)
    → IsValid m
    → lookup_key k (entries m.ll) ≡ some e
    → expired now e ≡ false
    → (get_value now k m).1 ≡ some e.value
unfolding spec_get
get_value-live now k e m h l g = (get_value-spec_get now k m h).1 ∙ rw (l, spec_get) (rw g refl)

add-live :
    (now : ℕ) (k : Text) (v : List ℕ) (ttl : ℕ) (e : Entry) (m : Memory)
    → IsValid m
    → lookup_key k (entries m.ll) ≡ some e
    → expired now e ≡ false
    → add now k v (pos ttl) m ≡ (m, false)
add-live now k v ttl e m h l g = rw (add-set_value now k v (pos ttl) m h, l) (rw g refl)

module _ (c : Codec) (sound : (r : Record) → c.decode (c.encode r) ≡ some r) where
  -- A record that lives at the first `Add` and `Get` is returned.
  reserve-live :
      (t : Clocks) (key : Text) (rec old : Record) (e : Entry) (ttl : ℕ) (m : Memory)
      → IsValid m
      → lookup_key (full_key key) (entries m.ll) ≡ some e
      → e.value ≡ c.encode old
      → expired t.add_at e ≡ false
      → expired t.get_at e ≡ false
      → (reserve c t key rec (pos ttl) m).1 ≡ existing old
  unfolding reserve try_reserve
  reserve-live t key rec old e ttl m h l v a g =
      let k = full_key key in
      let added = add-live t.add_at k (c.encode rec) ttl e m h l a in
      let got = get_value-live t.get_at k e m h l g ∙ ap some v in
      rw (added, try_reserve) (rw (got, sound old) refl)

  -- Without a live record the key is reserved, by a `Set` of the new one.
  reserve-free :
      (t : Clocks) (key : Text) (rec : Record) (ttl : ℕ) (m : Memory)
      → IsValid m
      → live_at t.add_at (lookup_key (full_key key) (entries m.ll)) ≡ false
      → reserve c t key rec (pos ttl) m
        ≡ (set_value t.add_at (full_key key) (c.encode rec) (pos ttl) m, reserved)
  unfolding reserve try_reserve
  reserve-free t key rec ttl m h l =
      rw (add-set_value t.add_at (full_key key) (c.encode rec) (pos ttl) m h, l) refl

fresh_until :
    (now later ttl : ℕ) (k : Text) (v : List ℕ)
    → later < now + ttl
    → expired later (record { key = k; value = v; expires = expires_at now (pos ttl) }) ≡ false
fresh_until now later ttl k v h = ground arith

-- The request passes the guards that stand before the key's record is looked at.
pub record Protected (cfg : Config) (r : Request) : Type 0 where
  pub method : contains r.method cfg.methods ≡ true
  pub key : is_empty r.key ≡ false
  pub key_fits : ltb 255 (length r.key) ≡ false
  pub body_fits : ltb cfg.max_body_size (length r.body) ≡ false

server_error : (n : ℕ) → n < 500 → leb 500 n ≡ false
server_error n h = ground arith

le→leb : (a b : ℕ) → a ≤ b → leb a b ≡ true
le→leb a b h = ground arith

-- The ending leaves no response to store.
abbrev pub Unstored : Ending → Type 0
Unstored failed = Unit
Unstored uncaptured = Unit
Unstored (responded r) = 500 ≤ r.status

module _ (digest : List ℕ → Text) (c : Codec)
    (sound : (r : Record) → c.decode (c.encode r) ≡ some r) where
  begin_keyed-on_existing :
      (cfg : Config) (now : ℕ) (t : Clocks) (r : Request) (old : Record) (e : Entry) (m : Memory)
      → IsValid m
      → lookup_key (full_key (scoped_key r)) (entries m.ll) ≡ some e
      → e.value ≡ c.encode old
      → expired t.add_at e ≡ false
      → expired t.get_at e ≡ false
      → (begin_keyed digest c cfg now t r m).1 ≡ on_existing (fingerprint digest r) old
  unfolding begin_keyed
  begin_keyed-on_existing cfg now t r old e m h l v a g = ap (begun_of (fingerprint digest r)) (
      reserve-live c sound t (scoped_key r) (pending (fingerprint digest r) now) old e cfg.lock_ttl
        m h l v a g)

  begin-begin_keyed :
      (cfg : Config) (now : ℕ) (t : Clocks) (r : Request) (m : Memory)
      → Protected cfg r
      → begin digest c cfg now t r m ≡ begin_keyed digest c cfg now t r m
  unfolding begin
  begin-begin_keyed cfg now t r m p = rw (p.method, p.key, p.key_fits, p.body_fits, begin) refl

  begin-free :
      (cfg : Config) (now : ℕ) (t : Clocks) (r : Request) (m : Memory)
      → IsValid m
      → Protected cfg r
      → live_at t.add_at (lookup_key (full_key (scoped_key r)) (entries m.ll)) ≡ false
      → begin digest c cfg now t r m ≡ (
        set_value t.add_at
            (full_key (scoped_key r))
            (c.encode (pending (fingerprint digest r) now))
            (pos cfg.lock_ttl)
            m,
        run,
      )
  unfolding begin_keyed
  begin-free cfg now t r m h p free =
      begin-begin_keyed cfg now t r m p
      ∙ ap (begun_with (fingerprint digest r)) (
          reserve-free c sound t (scoped_key r) (pending (fingerprint digest r) now) cfg.lock_ttl m
            h free)

  -- A request that comes while a record lives that was written for its key.
  begin-written :
      (cfg : Config) (now at ttl : ℕ) (u : Clocks) (k : Text) (s : Request) (old : Record)
      (m : Memory)
      → IsValid m
      → Protected cfg s
      → scoped_key s ≡ k
      → u.add_at < at + ttl
      → u.get_at < at + ttl
      → (begin digest c cfg now u s (set_value at (full_key k) (c.encode old) (pos ttl) m)).1
        ≡ on_existing (fingerprint digest s) old
  begin-written cfg now at ttl u k s old m h p same a g =
      subst
        (λ k.
          (begin digest c cfg now u s (set_value at (full_key k) (c.encode old) (pos ttl) m)).1
          ≡ on_existing (fingerprint digest s) old)
        same
        (let key = full_key (scoped_key s) in
          let n = set_value at key (c.encode old) (pos ttl) m in
          ap (λ x. x.1) (begin-begin_keyed cfg now u s n p)
          ∙ begin_keyed-on_existing cfg now u s old
              (record { key = key; value = c.encode old; expires = expires_at at (pos ttl) }) n
              (set_value-SetSpec at key (c.encode old) (pos ttl) m h).0
              (lookup_key-set_value at key (c.encode old) ttl m h) refl
              (fresh_until at u.add_at ttl key (c.encode old) a)
              (fresh_until at u.get_at ttl key (c.encode old) g))

  -- A request that comes after its key was released.
  begin-released :
      (cfg : Config) (now : ℕ) (u : Clocks) (k : Text) (s : Request) (m : Memory)
      → IsValid m
      → Protected cfg s
      → scoped_key s ≡ k
      → (begin digest c cfg now u s (release k m)).1 ≡ run
  unfolding release
  begin-released cfg now u k s m h p same =
      subst (λ k. (begin digest c cfg now u s (delete (full_key k ∷ []) m)).1 ≡ run) same
        (let key = full_key (scoped_key s) in
          ap (λ x. x.1)
            (begin-free cfg now u s (delete (key ∷ []) m) (delete-remove_keys (key ∷ []) m h).0 p
              (ap (live_at u.add_at) (lookup_key-delete key m h))))

  -- With a codec that decodes what it encodes, on a valid store: a protected request whose key has
  -- no live record is run. A protected one with the same key that comes before the lock's time is
  -- over, to a store that still has the entry which the first one left for the key, is not run: it is
  -- in progress, or the key is used for another request.
  pub begin-once :
      (cfg : Config) (now now' : ℕ) (t u : Clocks) (r s : Request) (m n : Memory)
      → IsValid m
      → IsValid n
      → Protected cfg r
      → Protected cfg s
      → scoped_key s ≡ scoped_key r
      → live_at t.add_at (lookup_key (full_key (scoped_key r)) (entries m.ll)) ≡ false
      → lookup_key (full_key (scoped_key r)) (entries n.ll)
        ≡ lookup_key (full_key (scoped_key r)) (entries (begin digest c cfg now t r m).0.ll)
      → u.add_at < t.add_at + cfg.lock_ttl
      → u.get_at < t.add_at + cfg.lock_ttl
      → ((begin digest c cfg now t r m).1 ≡ run)
        × ((begin digest c cfg now' u s n).1 ≡ (
            if text_eq (fingerprint digest r) (fingerprint digest s)
            then in_progress
            else key_reused))
  unfolding on_existing
  begin-once cfg now now' t u r s m n h i p q same free left a g =
      let first = begin-free cfg now t r m h p free in
      let key = full_key (scoped_key r) in
      let held = c.encode (pending (fingerprint digest r) now) in
      let kept =
        left
        ∙ ap (λ x. lookup_key key (entries x.0.ll)) first
        ∙ lookup_key-set_value t.add_at key held cfg.lock_ttl m h in
      (
        ap (λ x. x.1) first,
        ap (λ x. x.1) (begin-begin_keyed cfg now' u s n q)
            ∙ begin_keyed-on_existing cfg now' u s (pending (fingerprint digest r) now)
                (record {
                  key = key;
                  value = held;
                  expires = expires_at t.add_at (pos cfg.lock_ttl);
                })
                n i (ap (λ k. lookup_key (full_key k) (entries n.ll)) same ∙ kept) refl
                (fresh_until t.add_at u.add_at cfg.lock_ttl key held a)
                (fresh_until t.add_at u.get_at cfg.lock_ttl key held g),
      )

  -- With a codec that decodes what it encodes, on a valid store: a response below 500 is stored and
  -- replayed to the protected requests with the key and the fingerprint that come while it lives;
  -- another fingerprint is refused.
  pub finish-replay :
      (cfg : Config) (created now now' : ℕ) (u : Clocks) (r s : Request) (resp : Response)
      (m : Memory)
      → IsValid m
      → Protected cfg s
      → scoped_key s ≡ scoped_key r
      → resp.status < 500
      → u.add_at < now + cfg.ttl
      → u.get_at < now + cfg.ttl
      → (begin digest c cfg now' u s (finish digest c cfg created now r (responded resp) m)).1 ≡ (
          if text_eq (fingerprint digest r) (fingerprint digest s) then replay resp else key_reused)
  unfolding finish complete on_existing
  finish-replay cfg created now now' u r s resp m h p same ok a g =
      rw (server_error resp.status ok)
        (begin-written cfg now' now cfg.ttl u (scoped_key r) s _ m h p same a g)

  -- With a codec that decodes what it encodes, on a valid store: after an error, an uncaptured
  -- response or a server error the key is free: the next protected request with it is run.
  pub finish-retry :
      (cfg : Config) (created now now' : ℕ) (u : Clocks) (r s : Request) (end : Ending) (m : Memory)
      → IsValid m
      → Protected cfg s
      → scoped_key s ≡ scoped_key r
      → Unstored end
      → (begin digest c cfg now' u s (finish digest c cfg created now r end m)).1 ≡ run
  unfolding finish
  finish-retry cfg created now now' u r s failed m h p same unstored =
      begin-released cfg now' u (scoped_key r) s m h p same
  finish-retry cfg created now now' u r s uncaptured m h p same unstored =
      begin-released cfg now' u (scoped_key r) s m h p same
  finish-retry cfg created now now' u r s (responded resp) m h p same unstored =
      rw (le→leb 500 resp.status unstored) (begin-released cfg now' u (scoped_key r) s m h p same)
