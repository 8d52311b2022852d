-- ===== src/Auth.antt =====
-- server/internal/auth/auth.go: tokens of WebSocket clients. The MAC (HMAC-SHA256 in Base64) and the
-- conversion of a float are parameters; times are nanoseconds, and the clock is read at each place
-- where the code reads it.
pub mod Nonces
pub mod Validation
pub mod Acceptance
pub mod Drift
use ligend.Prelude.{
  ℕ, zero, suc, ◌+◌, ◌-◌, ◌*◌, ◌/◌, ◌%◌, ◌^◌, ◌<◌, ◌≡◌, not, Bool, true, false, ◌&&◌, List, [], ◌∷◌,
  ◌++◌, Option, none, some, ltb, leb, ◌==◌, if◌then◌else◌,
}
use ligend.Prelude.Outcome.{Outcome, ok, err, ◌>>=◌}
use ligend.Prelude.Bytes.{Bytes}
use ligend.Prelude.Texts.{ℤ, pos, negsuc}
use ligend.Prelude.Tables.{bytes_eq}
use Nonces.{NonceCache, new_nonce_cache, has, add, second}

abbrev pub max_timestamp_drift : ℕ
max_timestamp_drift = 30 * second

abbrev pub nonce_cache_size : ℕ
nonce_cache_size = 10000

abbrev pub nonce_ttl : ℕ
nonce_ttl = 60 * second

-- The decimal digits of a text, read from the left; `none` where one is no digit.
abbrev pub read_digits : ℕ → Bytes → Option ℕ
read_digits acc [] = some acc
read_digits acc (c ∷ cs) =
    let rest = read_digits (acc * 10 + (c - 48)) cs in if leb 48 c && leb c 57 then rest else none

abbrev pub digits_of : Bytes → Option ℕ
digits_of [] = none
digits_of (c ∷ cs) = read_digits 0 (c ∷ cs)

abbrev pub as_positive : Option ℕ → Option ℤ
as_positive none = none
as_positive (some n) = if ltb n (2 ^ 63) then some (pos n) else none

abbrev pub as_negative : Option ℕ → Option ℤ
as_negative none = none
as_negative (some zero) = some (pos 0)
as_negative (some (suc n)) = if ltb n (2 ^ 63) then some (negsuc n) else none

-- `strconv.ParseInt(s, 10, 64)`
unfoldable pub parse_int : Bytes → Option ℤ
parse_int [] = none
parse_int (c ∷ cs) =
    if c == b'-'
    then as_negative (digits_of cs)
    else if c == b'+'
    then as_positive (digits_of cs)
    else as_positive (digits_of (c ∷ cs))

-- `|now - ts|` with the wrap-around of `int64`, for a clock that reads no negative time.
abbrev pub distance : ℕ → ℤ → ℕ
distance now (pos t) = if ltb now t then t - now else now - t
distance now (negsuc n) = if ltb (now + n + 1) (2 ^ 63) then now + n + 1 else 2 ^ 64 - (now + n + 1)

-- What the package leaves to others: `duration_of_float x` is the 64 bits that the conversion of
-- `math.Abs(float64(x))` to an integer gives, and `mac` the expected request ID.
pub record AuthLib : Type 0 where
  pub duration_of_float : ℕ → ℕ
  pub mac : Bytes → Bytes → Bytes

-- A 64-bit float holds the integers up to 2^53 exactly.
pub record AuthLibLaws (lib : AuthLib) : Type 0 where
  pub exact : (x : ℕ) → x < 2 ^ 53 → lib.duration_of_float x ≡ x

-- `time.Duration(…) * time.Second > MaxTimestampDrift`: a product of 64-bit signed integers.
unfoldable pub drift_too_large : AuthLib → ℕ → Bool
drift_too_large lib x =
    let drift = lib.duration_of_float x * second % 2 ^ 64 in
    ltb max_timestamp_drift drift && ltb drift (2 ^ 63)

pub record Authenticator : Type 0 where
  pub secret_key : Bytes
  pub nonce_cache : NonceCache

unfoldable pub new_authenticator : Bytes → Authenticator
new_authenticator secret_key = record {
  secret_key = secret_key;
  nonce_cache = new_nonce_cache nonce_cache_size nonce_ttl;
}

pub data AuthError : Type 0 where
  invalid_timestamp drift_error nonce_reused hmac_mismatch : AuthError

-- The clock as one call of `validate` reads it: for the timestamp, in `has` and in `add`.
pub record Clock : Type 0 where
  pub checked : ℕ
  pub looked_up : ℕ
  pub added : ℕ

-- The MAC is compared after the nonce was looked up.
unfoldable pub check_mac :
    AuthLib
    → Authenticator
    → Clock
    → Bytes
    → Bytes
    → Bytes
    → Authenticator × Outcome AuthError (Unit {0})
check_mac lib a clock request_id timestamp nonce =
    if not (bytes_eq request_id (lib.mac a.secret_key (timestamp ++ nonce)))
    then (a, err hmac_mismatch)
    else (record a { nonce_cache = add a.nonce_cache nonce clock.added }, ok tt)

unfoldable pub check_nonce :
    AuthLib
    → Authenticator
    → Clock
    → Bytes
    → Bytes
    → Bytes
    → Authenticator × Outcome AuthError (Unit {0})
unfolding check_mac
check_nonce lib a clock request_id timestamp nonce =
    let (seen, cache) = has a.nonce_cache nonce clock.looked_up in
    if seen
    then (record a { nonce_cache = cache }, err nonce_reused)
    else check_mac lib (record a { nonce_cache = cache }) clock request_id timestamp nonce

unfoldable pub validate :
    AuthLib
    → Authenticator
    → Clock
    → Bytes
    → Bytes
    → Bytes
    → Authenticator × Outcome AuthError (Unit {0})
unfolding check_nonce
validate lib a clock request_id timestamp nonce = elim (parse_int timestamp) [
  | none ↦ (a, err invalid_timestamp)
  | some ts ↦
      if drift_too_large lib (distance (clock.checked / second) ts)
      then (a, err drift_error)
      else check_nonce lib a clock request_id timestamp nonce
]
