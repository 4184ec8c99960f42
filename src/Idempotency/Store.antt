-- ===== src/Idempotency/Store.antt =====
-- idempotency/idempotency.go: `Record` and `NewStore`, the store over a namespace of the in-process
-- cache (cache/cache.go, cache/memory.go), whose operations return no error but the missing key.
-- JSON is the codec.
use torge.Base.{ℕ, Bool, true, false, List, [], ◌∷◌, ◌++◌, Option, none, some}
use torge.Base.Int.{ℤ}
use torge.Base.Text.{Text, text}
use torge.Cache.Memory.{Memory, add, get_value, set_value, delete}

-- internal/capture/capture.go: `Response`.
pub record Response : Type 0 where
  pub status : ℕ
  pub header : List (Text × List Text)
  pub body : List ℕ

pub record Record : Type 0 where
  pub fingerprint : Text
  pub done : Bool
  pub response : Option Response
  pub created_at : ℕ

pub record Codec : Type 0 where
  pub encode : Record → List ℕ
  pub decode : List ℕ → Option Record

-- The namespace of `NewStore`.
unfoldable pub full_key : Text → Text
full_key key = text "torge:idempotency:" ++ key

-- `Reserve` returns nil, the record that exists, or one of its two errors.
pub data Reserved : Type 0 where
  reserved corrupt not_reserved : Reserved
  existing : Record → Reserved

abbrev decoded : Option Record → Reserved
decoded none = corrupt
decoded (some r) = existing r

-- What `Get` tells the loop: `none` is its `continue`.
abbrev pub read_back : Codec → Option (List ℕ) → Option Reserved
read_back c none = none
read_back c (some raw) = some (decoded (c.decode raw))

abbrev pub after_add : Codec → ℕ → Text → Memory × Bool → Memory × Option Reserved
after_add c get_at key (m, true) = (m, some reserved)
after_add c get_at key (m, false) =
    ((get_value get_at key m).0, read_back c (get_value get_at key m).1)

-- One round of the loop, with the clock of `Add` and that of `Get`.
unfoldable pub try_reserve :
    Codec → (add_at get_at : ℕ) → Text → Record → ℤ → Memory → Memory × Option Reserved
try_reserve c add_at get_at key rec ttl m =
    after_add c get_at key (add add_at key (c.encode rec) ttl m)

abbrev pub or_try : (Memory → Memory × Reserved) → Memory × Option Reserved → Memory × Reserved
or_try next (m, none) = next m
or_try next (m, some r) = (m, r)

abbrev pub or_fail : Memory × Option Reserved → Memory × Reserved
or_fail (m, none) = (m, not_reserved)
or_fail (m, some r) = (m, r)

-- The clocks of the two rounds.
pub record Clocks : Type 0 where
  pub add_at : ℕ
  pub get_at : ℕ
  pub second_add_at : ℕ
  pub second_get_at : ℕ

unfoldable pub reserve : Codec → Clocks → Text → Record → ℤ → Memory → Memory × Reserved
unfolding try_reserve
reserve c t key rec ttl m =
    or_try (λ n. or_fail (try_reserve c t.second_add_at t.second_get_at (full_key key) rec ttl n))
      (try_reserve c t.add_at t.get_at (full_key key) rec ttl m)

unfoldable pub complete : Codec → ℕ → Text → Record → ℤ → Memory → Memory
complete c now key rec ttl m = set_value now (full_key key) (c.encode rec) ttl m

unfoldable pub release : Text → Memory → Memory
release key m = delete (full_key key ∷ []) m
