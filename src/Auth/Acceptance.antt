-- ===== src/Auth/Acceptance.antt =====
-- server/internal/auth/auth.go: what the acceptance of a token means in seconds and in the nonces that
-- are remembered.
use ligend.Prelude.{
  ℕ, ◌+◌, ◌/◌, ◌≤◌, ◌<◌, ◌≡◌, ◌≢◌, ◌↔◌, refl, ap, ◌∙◌, inl, inr, true, false, ◌++◌, some, length,
  ltb, ltb→lt, ltb→le, Bool-cases, Option-cases, arith,
}
use ligend.Prelude.Outcome.{ok}
use ligend.Prelude.Texts.{ℤ, pos, negsuc}
use ligend.Prelude.Bytes.{Bytes}
use ligend.Prelude.Tables.{bytes_keys, lookup, length-delete_le}
use ligend.Auth.Nonces.{NonceCache, has, add, second}
use ligend.Auth.Nonces.Memory.{Holds, add-Holds_self}
use ligend.Auth.Drift.{drift_too_large_range}
use ligend.Auth.{
  AuthLib, AuthLibLaws, Authenticator, Clock, parse_int, distance, drift_too_large, validate,
}
use ligend.Auth.Validation.{Accepted, validate-Accepted, validate-refused}

-- The two times, in seconds, are at most so far apart.
abbrev pub Within : ℕ → ℕ → ℤ → Type 0
Within far now (pos t) = (now ≤ t + far) × (t ≤ now + far)
Within far now (negsuc n) = now + n + 1 ≤ far

-- The cache holds the nonce, and it has not expired.
abbrev pub Remembers : NonceCache → Bytes → ℕ → Type 0
Remembers nc n now = (expires : ℕ) × Holds nc n expires × (now ≤ expires)

distance-Within :
    (far now : ℕ) (ts : ℤ) → far < 9223372036854775808 → Within far now ts → distance now ts ≤ far
distance-Within far now (pos t) small h = ground arith
distance-Within far now (negsuc n) small h = ground arith

Within-distance :
    (far wide now : ℕ) (ts : ℤ)
    → wide < 9223372036854775808
    → Within wide now ts
    → distance now ts ≤ far
    → Within far now ts
Within-distance far wide now (pos t) small w h = (ground arith, ground arith)
Within-distance far wide now (negsuc n) small w h = ground arith

has-Remembers :
    (nc : NonceCache) (n : Bytes) (now : ℕ) → ((has nc n now).0 ≡ false) ↔ (Remembers nc n now → ⊥)
unfolding has
has-Remembers nc n now = elim (Option-cases (lookup n nc.entries)) [
  | inl e ↦ rw (e, has) (λ _ held. cc (held.1), λ _. refl)
  | inr (x, e) ↦ elim (Bool-cases (ltb x now)) [
    | inl late ↦ simp (e, late, has) (λ _ held. expired x held late, λ _. refl)
    | inr early ↦
        simp (e, early, has) (λ f. absurd (cc), λ f. absurd (f (x, refl, ltb→le x now early)))
  ]
]
  where
    expired : (x : ℕ) → (y : ℕ) × (some x ≡ some y) × (now ≤ y) → ltb x now ≡ true → ⊥
    expired x (y, held, early) late =
        let same : x ≡ y = cc (held) in omega (arith, ltb→lt x now late)

has-fits :
    (nc : NonceCache) (n : Bytes) (now : ℕ)
    → (length (has nc n now).1.entries ≤ length nc.entries)
      × ((has nc n now).1.max_size ≡ nc.max_size)
      × ((has nc n now).1.ttl ≡ nc.ttl)
unfolding has
has-fits nc n now = elim (Option-cases (lookup n nc.entries)) [
  | inl e ↦ rw (e, has) (omega arith, refl, refl)
  | inr (x, e) ↦ elim (Bool-cases (ltb x now)) [
    | inl late ↦ rw (e, late, has) (length-delete_le n nc.entries, refl, refl)
    | inr early ↦ rw (e, early, has) (omega arith, refl, refl)
  ]
]

-- A token whose timestamp lies within 9223372036 seconds of the clock is accepted exactly if it lies
-- within 30 seconds of it, the cache does not remember the nonce, and the request's id is the MAC of
-- timestamp and nonce under the key. An accepted nonce is held, where the cache has room, until the
-- time to live has passed since; a refused token adds nothing to the cache; the key never changes.
pub validate-Within :
    (lib : AuthLib) (a : Authenticator) (clock : Clock) (r t n : Bytes) (ts : ℤ)
    → AuthLibLaws lib
    → parse_int t ≡ some ts
    → Within 9223372036 (clock.checked / second) ts
    → let (after, answer) = validate lib a clock r t n in
      ((answer ≡ ok tt) ↔ (
        Within 30 (clock.checked / second) ts
        × (Remembers a.nonce_cache n clock.looked_up → ⊥)
        × (r ≡ lib.mac a.secret_key (t ++ n))))
      × (answer ≡ ok tt
          → length a.nonce_cache.entries < a.nonce_cache.max_size
          → Holds after.nonce_cache n (clock.added + a.nonce_cache.ttl))
      × (answer ≢ ok tt
          → (m : Bytes) (expires : ℕ) → Holds after.nonce_cache m expires
          → Holds a.nonce_cache m expires)
      × (after.secret_key ≡ a.secret_key)
validate-Within lib a clock r t n ts laws parsed near =
    ((meets, accepts), held, validate-refused lib a clock r t n, code.2)
  where
    now : ℕ
    now = clock.checked / second

    code :
        (((validate lib a clock r t n).1 ≡ ok tt) ↔ Accepted lib a clock r t n)
        × ((validate lib a clock r t n).1 ≡ ok tt
            → (validate lib a clock r t n).0.nonce_cache
              ≡ add (has a.nonce_cache n clock.looked_up).1 n clock.added)
        × ((validate lib a clock r t n).0.secret_key ≡ a.secret_key)
    code = validate-Accepted lib a clock r t n

    drift : (drift_too_large lib (distance now ts) ≡ false) ↔ (distance now ts ≤ 30)
    drift =
        (drift_too_large_range lib (distance now ts) laws).0
          (distance-Within 9223372036 now ts (omega arith) near)

    meets :
        (validate lib a clock r t n).1 ≡ ok tt
        → Within 30 now ts
          × (Remembers a.nonce_cache n clock.looked_up → ⊥)
          × (r ≡ lib.mac a.secret_key (t ++ n))
    meets fine =
        let v = code.0.0 fine in
        let same : ts ≡ v.seconds = cc (parsed, v.parsed) in
        let in_time : drift_too_large lib (distance now ts) ≡ false = rw same v.in_time in
        (
          Within-distance 30 9223372036 now ts (omega arith) near (drift.0 in_time),
          (has-Remembers a.nonce_cache n clock.looked_up).0 v.unused,
          v.authentic,
        )

    accepts :
        Within 30 now ts
          × (Remembers a.nonce_cache n clock.looked_up → ⊥)
          × (r ≡ lib.mac a.secret_key (t ++ n))
        → (validate lib a clock r t n).1 ≡ ok tt
    accepts (in_time, unused, authentic) = code.0.1 (record {
      seconds = ts;
      parsed = parsed;
      in_time = drift.1 (distance-Within 30 now ts (omega arith) in_time);
      unused = (has-Remembers a.nonce_cache n clock.looked_up).1 unused;
      authentic = authentic;
    })

    held :
        (validate lib a clock r t n).1 ≡ ok tt
        → length a.nonce_cache.entries < a.nonce_cache.max_size
        → Holds (validate lib a clock r t n).0.nonce_cache n (clock.added + a.nonce_cache.ttl)
    held fine room =
        let nc = (has a.nonce_cache n clock.looked_up).1 in
        let (fewer, size, ttl) = has-fits a.nonce_cache n clock.looked_up in
        let holds : Holds (add nc n clock.added) n (clock.added + nc.ttl) =
          add-Holds_self nc n clock.added (omega (arith, fewer, size)) in
        rw (code.1 fine) (holds ∙ ap (λ (k : ℕ). some (clock.added + k)) ttl)
