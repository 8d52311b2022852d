-- ===== src/Panel/Clients/Expiry.antt =====
-- When a client's key expires: server/internal/panel/api_clients.go.
use ligend.Prelude.{
  ℕ, suc, ◌+◌, ◌-◌, ◌*◌, ◌%◌, ◌^◌, ◌≤◌, ◌<◌, ◌≡◌, refl, true, false, [], ◌∷◌, ◌++◌, some, ltb,
  arith,
}
use ligend.Prelude.Bytes.{Bytes}
use ligend.Prelude.Texts.{ℤ, pos, negsuc}
use ligend.Panel.Http.{success}
use ligend.Panel.Store.{Db, create_client_key}
use ligend.Panel.Clients.{
  nanoseconds_per_day, difference, added, CreateClientRequest, client_created, Surroundings,
  client_secret, create_client,
}

-- A time that lies before `now`.
abbrev pub Before : ℤ → ℕ → Type 0
Before (pos t) now = t < now
Before (negsuc t) now = Unit

added-exact :
    (now d : ℕ)
    → d ≤ 106751
    → added now (d * nanoseconds_per_day % 2 ^ 64) ≡ pos (now + d * nanoseconds_per_day)
added-exact now d h =
    let same : d * nanoseconds_per_day % 2 ^ 64 ≡ d * nanoseconds_per_day = omega arith in
    let small : ltb (d * nanoseconds_per_day) (2 ^ 63) ≡ true = ground arith in
    rw (same, small) refl

difference-Before : (m n : ℕ) → 0 < n → Before (difference m n) m
difference-Before m n h = ground arith

added-Before :
    (now d : ℕ)
    → 106751 < d
    → d ≤ 213503
    → Before (added now (d * nanoseconds_per_day % 2 ^ 64)) now
added-Before now d h k =
    let same : d * nanoseconds_per_day % 2 ^ 64 ≡ d * nanoseconds_per_day = omega arith in
    let large : ltb (d * nanoseconds_per_day) (2 ^ 63) ≡ false = ground arith in
    rw (same, large) (difference-Before now (2 ^ 64 - d * nanoseconds_per_day) (omega arith))

-- A client's key that is made with a positive number of days, up to 106751, expires that many days
-- later. With one of the next 106752 numbers it has expired before it is made.
pub create_client-expiry :
    (around : Surroundings) (db : Db) (request : CreateClientRequest) (days : ℕ) (c : ℕ)
    (cs key : Bytes)
    → request.name ≡ c ∷ cs
    → around.generated_key ≡ some key
    → around.answers ≡ true
    → request.expires_in_days ≡ pos (suc days)
    → (t : ℤ) × (create_client around db request ≡ (
      record db {
        client_keys =
            db.client_keys
            ++ record {
              id = suc db.last_id;
              name = c ∷ cs;
              secret_key = client_secret around key around.secret_key_base64;
              traffic_limit_bytes = request.traffic_limit_bytes;
              traffic_used_up = 0;
              traffic_used_down = 0;
              enabled = true;
              expires_at = some t;
            }
              ∷ [];
        last_id = suc db.last_id;
      },
      success client_created,
    ))
      × (suc days ≤ 106751 → t ≡ pos (around.now + suc days * nanoseconds_per_day))
      × (106751 < suc days → suc days ≤ 213503 → Before t around.now)
unfolding create_client create_client_key
create_client-expiry around db request days c cs key named drawn up is_days = (
  added around.now (suc days * nanoseconds_per_day % 2 ^ 64),
  rw (named, drawn, up, is_days) refl,
  added-exact around.now (suc days),
  added-Before around.now (suc days),
)
