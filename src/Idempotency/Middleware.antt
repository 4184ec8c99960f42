-- ===== src/Idempotency/Middleware.antt =====
-- idempotency/idempotency.go: `Middleware`, before and after the call of the handler; other
-- requests may come between the two. The SHA-256 in hexadecimal is `digest`.
use torge.Base.{
  ◌==◌, ℕ, Bool, true, false, not, List, [], ◌∷◌, ◌++◌, Option, none, some, length, ltb, leb,
  if◌then◌else◌,
}
use torge.Base.Int.{ℤ, pos, negsuc}
use torge.Base.Text.{Text, text, text_eq}
use torge.Router.Pattern.{contains}
use torge.Cache.Memory.{Memory}
use torge.Idempotency.Store.{
  Response, Record, Codec, Clocks, Reserved, reserved, existing, corrupt, not_reserved, reserve,
  complete, release,
}

-- `Config` with its defaults applied; times are positive then.
pub record Config : Type 0 where
  pub methods : List Text
  pub required : Bool
  pub ttl : ℕ
  pub lock_ttl : ℕ
  pub max_body_size : ℕ

abbrev or_default : ℕ → ℤ → ℕ
or_default d (negsuc n) = d
or_default d (pos n) = if n == 0 then d else n

abbrev methods_or : Option (List Text) → List Text
methods_or none = text "POST" ∷ text "PATCH" ∷ []
methods_or (some ms) = ms

unfoldable pub new_config :
    Option (List Text) → (required : Bool) (ttl lock_ttl max_body_size : ℤ) → Config
new_config methods required ttl lock_ttl max_body_size = record {
  methods = methods_or methods;
  required = required;
  ttl = or_default 86400000000000 ttl;
  lock_ttl = or_default 60000000000 lock_ttl;
  max_body_size = or_default 1048576 max_body_size;
}

-- What the middleware reads of a request; `key` is its header, "" if absent, `scope` what Scope
-- returns.
pub record Request : Type 0 where
  pub method : Text
  pub path : Text
  pub key : Text
  pub scope : Text
  pub body : List ℕ

unfoldable pub fingerprint : (List ℕ → Text) → Request → Text
fingerprint digest r = digest (r.method ++ 0 ∷ r.path ++ 0 ∷ r.body)

unfoldable pub scoped_key : Request → Text
scoped_key r = r.scope ++ text ":" ++ r.key

-- `unprotected` and `run` call the handler, `run` with the response captured; the others answer.
pub data Begun : Type 0 where
  unprotected key_required key_invalid body_too_large unavailable : Begun
  key_reused in_progress run : Begun
  replay : Response → Begun

abbrev pub stored_response : Option Response → Begun
stored_response none = in_progress
stored_response (some r) = replay r

-- The switch on the record that exists.
unfoldable pub on_existing : Text → Record → Begun
on_existing fp e =
    if text_eq e.fingerprint fp
    then (if e.done then stored_response e.response else in_progress)
    else key_reused

abbrev pub begun_of : Text → Reserved → Begun
begun_of fp reserved = run
begun_of fp (existing e) = on_existing fp e
begun_of fp corrupt = unavailable
begun_of fp not_reserved = unavailable

abbrev pub begun_with : Text → Memory × Reserved → Memory × Begun
begun_with fp (m, r) = (m, begun_of fp r)

abbrev pub pending : Text → ℕ → Record
pending fp now = record { fingerprint = fp; done = false; response = none; created_at = now }

abbrev pub is_empty : Text → Bool
is_empty [] = true
is_empty (c ∷ s) = false

-- How the handler ends: an error, no result of the recorder (nothing was written, the body is over
-- its limit, or cookies are set), or a response.
pub data Ending : Type 0 where
  failed uncaptured : Ending
  responded : Response → Ending

module _ (digest : List ℕ → Text) (c : Codec) where
  -- The part from the body on.
  unfoldable pub begin_keyed : Config → ℕ → Clocks → Request → Memory → Memory × Begun
  begin_keyed cfg now t r m =
      begun_with (fingerprint digest r)
        (reserve c t (scoped_key r) (pending (fingerprint digest r) now) (pos cfg.lock_ttl) m)

  -- The middleware up to the call of the handler.
  unfoldable pub begin : Config → ℕ → Clocks → Request → Memory → Memory × Begun
  unfolding begin_keyed
  begin cfg now t r m =
      if not (contains r.method cfg.methods)
      then (m, unprotected)
      else if is_empty r.key
      then (m, if cfg.required then key_required else unprotected)
      else if ltb 255 (length r.key)
      then (m, key_invalid)
      else if ltb cfg.max_body_size (length r.body)
      then (m, body_too_large)
      else begin_keyed cfg now t r m

  -- The middleware after the handler; `created` and `now` are two readings of the clock.
  unfoldable pub finish : Config → (created now : ℕ) → Request → Ending → Memory → Memory
  finish cfg created now r failed m = release (scoped_key r) m
  finish cfg created now r uncaptured m = release (scoped_key r) m
  finish cfg created now r (responded resp) m =
      if leb 500 resp.status
      then release (scoped_key r) m
      else complete c now (scoped_key r)
          (record {
            fingerprint = fingerprint digest r;
            done = true;
            response = some resp;
            created_at = created;
          })
          (pos cfg.ttl) m
