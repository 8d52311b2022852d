-- ===== src/Examples/Tokens.antt =====
-- Tokens and their nonces, at one clock and with a MAC that shows what it covers.
use ligend.Prelude.{
  ℕ, ◌+◌, ◌*◌, ◌/◌, ◌≤◌, ◌<◌, ◌≡◌, ◌≢◌, ◌↔◌, refl, Bool, true, false, List, [], ◌∷◌, ◌++◌, Option,
  none, some, length, arith,
}
use ligend.Prelude.Outcome.{ok}
use ligend.Prelude.Texts.{pos}
use ligend.Prelude.Bytes.{Bytes}
use ligend.Auth.Nonces.{has, second}
use ligend.Auth.Nonces.Bounds.{cache_run}
use ligend.Auth.Nonces.Memory.{Holds}
use ligend.Auth.Acceptance.{Within, Remembers, validate-Within}
use ligend.Auth.Validation.{validate-replay, validate-splice}
use ligend.Auth.{Authenticator, Clock, parse_int, drift_too_large, validate, check_nonce, check_mac}
use ligend.Examples.Parameters.{open_mac, open_mac-AuthLibLaws}

-- 100 seconds after the epoch.
abbrev clock : Clock
clock = record { checked = 100 * second; looked_up = 100 * second; added = 100 * second }

-- The empty key, and a cache with room for two nonces.
abbrev authenticator : Authenticator
authenticator = record {
  secret_key = [];
  nonce_cache = record { entries = []; order = []; max_size = 2; ttl = 60 * second };
}

-- "120"
abbrev stamp : Bytes
stamp = b'1' ∷ b'2' ∷ b'0' ∷ []

-- A long nonce of digits.
abbrev nonce : Bytes
nonce = b'5' ∷ b'6' ∷ []

abbrev request : Bytes
request = stamp ++ nonce

first_use : (validate open_mac authenticator clock request stamp nonce).1 ≡ ok tt
unfolding validate check_nonce check_mac parse_int drift_too_large has ligend.Prelude.Tables.lookup
first_use = refl

is_stamp : parse_int stamp ≡ some (pos 120)
unfolding parse_int
is_stamp = refl

validate-Within_example :
    let (after, answer) = validate open_mac authenticator clock request stamp nonce in
    ((answer ≡ ok tt) ↔ (
      Within 30 (clock.checked / second) (pos 120)
      × (Remembers authenticator.nonce_cache nonce clock.looked_up → ⊥)
      × (request ≡ stamp ++ nonce)))
    × (answer ≡ ok tt → 0 < 2 → Holds after.nonce_cache nonce (100 * second + 60 * second))
    × (answer ≢ ok tt
        → (m : Bytes) (expires : ℕ) → Holds after.nonce_cache m expires
        → Holds authenticator.nonce_cache m expires)
    × (after.secret_key ≡ [])
validate-Within_example =
    validate-Within open_mac authenticator clock request stamp nonce (pos 120) open_mac-AuthLibLaws
      is_stamp (omega arith)

has_room :
    length (has authenticator.nonce_cache nonce (100 * second)).1.entries
    < (has authenticator.nonce_cache nonce (100 * second)).1.max_size
unfolding has ligend.Prelude.Tables.lookup
has_room = omega arith

in_ttl : 100 * second ≤ 100 * second + (has authenticator.nonce_cache nonce (100 * second)).1.ttl
in_ttl = omega arith

validate-replay_example :
    (validate open_mac
      (record authenticator {
        nonce_cache =
            cache_run (validate open_mac authenticator clock request stamp nonce).0.nonce_cache [];
      })
      clock
      request
      stamp
      nonce).1
    ≢ ok tt
validate-replay_example =
    validate-replay open_mac authenticator clock clock request stamp nonce request stamp []
      first_use has_room tt in_ttl

-- The first digit of this nonce is moved to the end of the timestamp.
abbrev long_nonce : Bytes
long_nonce = b'9' ∷ b'7' ∷ []

-- "1500000000" at that second.
abbrev long_stamp : Bytes
long_stamp = b'1' ∷ b'5' ∷ b'0' ∷ b'0' ∷ b'0' ∷ b'0' ∷ b'0' ∷ b'0' ∷ b'0' ∷ b'0' ∷ []

abbrev later_clock : Clock
later_clock = record {
  checked = 1500000000 * second;
  looked_up = 1500000000 * second;
  added = 1500000000 * second;
}

long_use :
    (validate open_mac authenticator later_clock (long_stamp ++ long_nonce) long_stamp long_nonce).1
    ≡ ok tt
unfolding validate check_nonce check_mac parse_int drift_too_large has ligend.Prelude.Tables.lookup
long_use = refl

spliced : parse_int (long_stamp ++ b'9' ∷ []) ≡ some (pos 15000000009)
unfolding parse_int
spliced = refl

unseen : (has authenticator.nonce_cache (b'7' ∷ []) (1500000000 * second)).0 ≡ false
unfolding has ligend.Prelude.Tables.lookup
unseen = refl

validate-splice_example :
    (validate open_mac authenticator later_clock
      (long_stamp ++ long_nonce)
      (long_stamp ++ b'9' ∷ [])
      (b'7' ∷ [])).1
    ≡ ok tt
validate-splice_example =
    validate-splice open_mac authenticator authenticator later_clock later_clock
      (long_stamp ++ long_nonce) long_stamp (b'7' ∷ []) b'9' (pos 15000000009) open_mac-AuthLibLaws
      long_use refl spliced (omega arith) (omega arith) unseen
