-- ===== src/Idempotency/Tests.antt =====
-- idempotency/idempotency.go: a request that is run, repeated, replayed and retried. The codec of
-- these runs writes a record as numbers, in place of JSON.
use torge.Base.{
  ℕ, zero, suc, ◌+◌, ◌≡◌, refl, ap, Bool, true, false, List, [], ◌∷◌, Option, none, some, arith,
  if◌then◌else◌,
}
use torge.Base.Int.{pos}
use torge.Base.Text.{Text, text, text_eq}
use torge.Cache.Memory.{Memory, new_memory, set_value, add}
use torge.Base.Assoc.{get, put}
use torge.Cache.Memory.Operations.{IsValid, new_memory-IsValid}
use torge.Cache.Memory.Set.{set_value-SetSpec}
use torge.Cache.Memory.Elements.{lookup_key}
use torge.Idempotency.Store.{Response, Record, Codec, Clocks, full_key, reserve}
use torge.Idempotency.Middleware.{
  Config, new_config, Request, fingerprint, run, begin, in_progress, key_reused, replay, responded,
  failed, finish, scoped_key, pending,
}
use torge.Idempotency.Laws.{Protected, begin-once, finish-replay, finish-retry}

-- 0 starts a value of a header and 1 a header; a byte is written above these.
abbrev put_text : Text → List ℕ → List ℕ
put_text [] rest = rest
put_text (c ∷ s) rest = suc (suc c) ∷ put_text s rest

abbrev put_values : List Text → List ℕ → List ℕ
put_values [] rest = rest
put_values (v ∷ vs) rest = 0 ∷ put_text v (put_values vs rest)

abbrev put_headers : List (Text × List Text) → List ℕ
put_headers [] = []
put_headers ((k, vs) ∷ hs) = 1 ∷ put_text k (put_values vs (put_headers hs))

-- The text, the values and the headers read so far, from the right.
abbrev State : Type 0
State = Text × List Text × List (Text × List Text)

abbrev read_one : ℕ → State → State
read_one zero (s, vs, hs) = ([], s ∷ vs, hs)
read_one (suc zero) (s, vs, hs) = ([], [], (s, vs) ∷ hs)
read_one (suc (suc c)) (s, vs, hs) = (c ∷ s, vs, hs)

abbrev read : List ℕ → State
read [] = ([], [], [])
read (n ∷ ns) = read_one n (read ns)

read-put_text :
    (t s : Text) (vs : List Text) (hs : List (Text × List Text)) (rest : List ℕ)
    → read rest ≡ ([], vs, hs)
    → read (put_text t rest) ≡ (t, vs, hs)
read-put_text [] s vs hs rest e = e
read-put_text (c ∷ t) s vs hs rest e = ap (read_one (suc (suc c))) (read-put_text t s vs hs rest e)

read-put_values :
    (vs : List Text) (hs : List (Text × List Text)) (rest : List ℕ)
    → read rest ≡ ([], [], hs)
    → read (put_values vs rest) ≡ ([], vs, hs)
read-put_values [] hs rest e = e
read-put_values (v ∷ vs) hs rest e =
    ap (read_one zero)
      (read-put_text v [] vs hs (put_values vs rest) (read-put_values vs hs rest e))

read-put_headers : (hs : List (Text × List Text)) → read (put_headers hs) ≡ ([], [], hs)
read-put_headers [] = refl
read-put_headers ((k, vs) ∷ hs) = ap (read_one (suc zero)) (
    read-put_text k [] vs hs (put_values vs (put_headers hs))
      (read-put_values vs hs (put_headers hs) (read-put_headers hs)))

abbrev put_response : Text → Option Response → List ℕ
put_response fp none = zero ∷ put_headers ((fp, []) ∷ [])
put_response fp (some r) = suc zero ∷ r.status ∷ put_headers ((fp, r.body ∷ []) ∷ r.header)

abbrev number : Bool → ℕ
number false = zero
number true = suc zero

abbrev flag : ℕ → Bool
flag zero = false
flag (suc n) = true

abbrev pending_of : Bool → ℕ → List (Text × List Text) → Option Record
pending_of d at [] = none
pending_of d at ((fp, vs) ∷ hs) =
    some (record { fingerprint = fp; done = d; response = none; created_at = at })

abbrev done_of : Bool → ℕ → ℕ → List (Text × List Text) → Option Record
done_of d at status [] = none
done_of d at status ((fp, []) ∷ hs) = none
done_of d at status ((fp, body ∷ vs) ∷ hs) = some (record {
  fingerprint = fp;
  done = d;
  response = some (record { status = status; header = hs; body = body });
  created_at = at;
})

abbrev decode_numbers : List ℕ → Option Record
decode_numbers (d ∷ at ∷ zero ∷ ns) = pending_of (flag d) at (read ns).2
decode_numbers (d ∷ at ∷ suc n ∷ status ∷ ns) = done_of (flag d) at status (read ns).2
decode_numbers ns = none

abbrev codec : Codec
codec = record {
  encode = λ r. number r.done ∷ r.created_at ∷ put_response r.fingerprint r.response;
  decode = decode_numbers;
}

decode_numbers-encode :
    (d : Bool) (at : ℕ) (fp : Text) (resp : Option Response)
    → decode_numbers (number d ∷ at ∷ put_response fp resp)
      ≡ some (record { fingerprint = fp; done = d; response = resp; created_at = at })
decode_numbers-encode false at fp none =
    ap (λ s. pending_of false at s.2) (read-put_headers ((fp, []) ∷ []))
decode_numbers-encode true at fp none =
    ap (λ s. pending_of true at s.2) (read-put_headers ((fp, []) ∷ []))
decode_numbers-encode false at fp (some r) =
    ap (λ s. done_of false at r.status s.2) (read-put_headers ((fp, r.body ∷ []) ∷ r.header))
decode_numbers-encode true at fp (some r) =
    ap (λ s. done_of true at r.status s.2) (read-put_headers ((fp, r.body ∷ []) ∷ r.header))

codec_sound : (r : Record) → codec.decode (codec.encode r) ≡ some r
codec_sound r = decode_numbers-encode r.done r.created_at r.fingerprint r.response

program : Unit {0}
unfolding begin finish new_config new_memory lookup_key fingerprint scoped_key text_eq set_value get
    put reserve add full_key
program = tt

abbrev digest : List ℕ → Text
digest s = s

abbrev config : Config
config = new_config none true (pos 0) (pos 0) (pos 0)

abbrev store : Memory
store = new_memory (pos 100)

abbrev payment : Request
payment = record {
  method = text "POST";
  path = text "/payments";
  key = text "k1";
  scope = text "user:7";
  body = 1 ∷ 2 ∷ [];
}

abbrev created : Response
created = record {
  status = 201;
  header = (text "Location", text "/payments/9" ∷ []) ∷ [];
  body = 9 ∷ [];
}

abbrev clocks_at : ℕ → Clocks
clocks_at n = record { add_at = n; get_at = n + 1; second_add_at = n + 2; second_get_at = n + 3 }

payment-Protected : Protected config payment
unfolding program
payment-Protected = record { method = refl; key = refl; key_fits = refl; body_fits = refl }

-- What the first request leaves, and then another key's record.
abbrev begun : Memory
begun = (begin digest codec config 50 (clocks_at 50) payment store).0

begun-IsValid : IsValid begun
unfolding program
begun-IsValid =
    (set_value-SetSpec 50 (full_key (scoped_key payment))
      (codec.encode (pending (fingerprint digest payment) 50)) (pos config.lock_ttl) store
      (new_memory-IsValid (pos 100))).0

abbrev busy : Memory
busy = set_value 60 (text "other") (1 ∷ []) (pos 5) begun

begin-once_example :
    ((begin digest codec config 50 (clocks_at 50) payment store).1 ≡ run)
    × ((begin digest codec config 90 (clocks_at 90) payment busy).1 ≡ (
        if text_eq (fingerprint digest payment) (fingerprint digest payment)
        then in_progress
        else key_reused))
unfolding program
begin-once_example =
    begin-once digest codec codec_sound config 50 90 (clocks_at 50) (clocks_at 90) payment payment
      store busy (new_memory-IsValid (pos 100))
      (set_value-SetSpec 60 (text "other") (1 ∷ []) (pos 5) begun begun-IsValid).0 payment-Protected
      payment-Protected refl refl refl (omega arith) (omega arith)

finish-replay_example :
    (begin digest codec config 900
      (clocks_at 900)
      payment
      (finish digest codec config 70 80 payment (responded created) store)).1
    ≡ (if text_eq (fingerprint digest payment) (fingerprint digest payment)
        then replay created
        else key_reused)
unfolding program
finish-replay_example =
    finish-replay digest codec codec_sound config 70 80 900 (clocks_at 900) payment payment created
      store (new_memory-IsValid (pos 100)) payment-Protected refl (omega arith) (omega arith)
      (omega arith)

finish-retry_example :
    (begin digest codec config 900
      (clocks_at 900)
      payment
      (finish digest codec config 70 80 payment failed store)).1
    ≡ run
unfolding program
finish-retry_example =
    finish-retry digest codec codec_sound config 70 80 900 (clocks_at 900) payment payment failed
      store (new_memory-IsValid (pos 100)) payment-Protected refl tt
