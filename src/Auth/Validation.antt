-- ===== src/Auth/Validation.antt =====
-- Which tokens `validate` accepts, and what becomes of a second use.
use ligend.Prelude.{
  ℕ, ◌+◌, ◌/◌, ◌≤◌, ◌<◌, ◌≡◌, ◌≢◌, ◌↔◌, refl, sym, ap, ◌∙◌, inl, inr, true, false, List, [], ◌∷◌,
  ◌++◌, append_assoc, some, length, ltb, arith, Bool-cases, Option-cases,
}
use ligend.Prelude.Outcome.{Outcome, ok}
use ligend.Prelude.Texts.{ℤ}
use ligend.Prelude.Bytes.{Bytes}
use ligend.Prelude.Tables.{bytes_eq, bytes_eq_iff, bytes_keys, lookup, delete, lookup-delete}
use ligend.Auth.Nonces.{NonceCache, has, add, second}
use ligend.Auth.Nonces.Bounds.{CacheCall, cache_run}
use ligend.Auth.Nonces.Memory.{AllHarmless, Holds, has-add}
use ligend.Auth.Drift.{drift_too_large_range}
use ligend.Auth.{
  AuthLib, AuthLibLaws, AuthError, Authenticator, Clock, parse_int, distance, drift_too_large,
  validate, check_nonce,
}

-- The four conditions of a token, in the order in which they are checked.
pub record Accepted (lib : AuthLib) (a : Authenticator) (clock : Clock)
    (request_id timestamp nonce : Bytes) : Type 0 where
  pub seconds : ℤ
  pub parsed : parse_int timestamp ≡ some seconds
  pub in_time : drift_too_large lib (distance (clock.checked / second) seconds) ≡ false
  pub unused : (has a.nonce_cache nonce clock.looked_up).0 ≡ false
  pub authentic : request_id ≡ lib.mac a.secret_key (timestamp ++ nonce)

-- The later cache holds no nonce that the earlier one does not hold.
abbrev pub Forgets : NonceCache → NonceCache → Type 0
Forgets earlier later = (m : Bytes) (expires : ℕ) → Holds later m expires → Holds earlier m expires

has-Forgets : (nc : NonceCache) (n : Bytes) (now : ℕ) → Forgets nc (has nc n now).1
unfolding has
has-Forgets nc n now m expires = elim (Option-cases (lookup n nc.entries)) [
  | inl e ↦ rw (e, has) (λ held. held)
  | inr (x, e) ↦ elim (Bool-cases (ltb x now)) [
    | inl late ↦ rw (e, late, has) (λ held. kept held)
    | inr early ↦ rw (e, early, has) (λ held. held)
  ]
]
  where
    kept : lookup m (delete n nc.entries) ≡ some expires → lookup m nc.entries ≡ some expires
    kept held = ground (arith, lookup-delete n m nc.entries)

-- A call accepts a token that meets them, or refuses one that does not.
data Verdict (lib : AuthLib) (a : Authenticator) (clock : Clock) (r t n : Bytes)
    (answer : Authenticator × Outcome AuthError (Unit {0})) : Type 0 where
  accepts :
      Accepted lib a clock r t n
      → answer ≡ (
        record a { nonce_cache = add (has a.nonce_cache n clock.looked_up).1 n clock.added },
        ok tt,
      )
      → Verdict lib a clock r t n answer
  refuses :
      (Accepted lib a clock r t n → ⊥)
      → answer.1 ≢ ok tt
      → answer.0.secret_key ≡ a.secret_key
      → Forgets a.nonce_cache answer.0.nonce_cache
      → Verdict lib a clock r t n answer

module _ (lib : AuthLib) (a : Authenticator) (clock : Clock) (r t n : Bytes) where
  check_nonce-Verdict :
      (ts : ℤ)
      → parse_int t ≡ some ts
      → drift_too_large lib (distance (clock.checked / second) ts) ≡ false
      → Verdict lib a clock r t n (check_nonce lib a clock r t n)
  unfolding check_nonce
  check_nonce-Verdict ts parsed in_time =
      elim (Bool-cases (has a.nonce_cache n clock.looked_up).0) [
        | inl seen ↦ rw seen (
            refuses (λ v. cc (v.unused)) (λ e. cc) refl
              (has-Forgets a.nonce_cache n clock.looked_up))
        | inr unseen ↦ elim (Bool-cases (bytes_eq r (lib.mac a.secret_key (t ++ n)))) [
          | inl same ↦
              rw (unseen, same)
                (accepts
                  (record {
                    seconds = ts;
                    parsed = parsed;
                    in_time = in_time;
                    unused = unseen;
                    authentic = (bytes_eq_iff r (lib.mac a.secret_key (t ++ n))).0 same;
                  })
                  refl)
          | inr other ↦
              rw (unseen, other)
                (refuses (λ v. cc ((bytes_eq_iff r (lib.mac a.secret_key (t ++ n))).1 v.authentic))
                  (λ e. cc) refl (has-Forgets a.nonce_cache n clock.looked_up))
        ]
      ]

  validate-Verdict : Verdict lib a clock r t n (validate lib a clock r t n)
  unfolding validate
  validate-Verdict = elim (Option-cases (parse_int t)) [
    | inl e ↦ rw (e, validate) (refuses (λ v. cc (v.parsed)) (λ q. cc) refl (λ m x held. held))
    | inr (ts, e) ↦ elim (Bool-cases (drift_too_large lib (distance (clock.checked / second) ts))) [
      | inl far ↦
          rw (e, far, validate)
            (refuses (λ v. too_far ts e far v.seconds v.parsed v.in_time) (λ q. cc) refl
              (λ m x held. held))
      | inr near ↦ rw (e, near, validate) (check_nonce-Verdict ts e near)
    ]
  ]
    where
      too_far :
          (ts : ℤ)
          → parse_int t ≡ some ts
          → drift_too_large lib (distance (clock.checked / second) ts) ≡ true
          → (us : ℤ) → parse_int t ≡ some us
          → drift_too_large lib (distance (clock.checked / second) us) ≡ false
          → ⊥
      too_far ts e far us f near = cc

-- `validate` accepts exactly the tokens with a timestamp in time, a nonce that is not remembered and
-- the right MAC. It then remembers the nonce; and the key never changes.
pub validate-Accepted :
    (lib : AuthLib) (a : Authenticator) (clock : Clock) (r t n : Bytes)
    → (((validate lib a clock r t n).1 ≡ ok tt) ↔ Accepted lib a clock r t n)
      × ((validate lib a clock r t n).1 ≡ ok tt
          → (validate lib a clock r t n).0.nonce_cache
            ≡ add (has a.nonce_cache n clock.looked_up).1 n clock.added)
      × ((validate lib a clock r t n).0.secret_key ≡ a.secret_key)
validate-Accepted lib a clock r t n =
    from (validate lib a clock r t n) (validate-Verdict lib a clock r t n)
  where
    from :
        (answer : Authenticator × Outcome AuthError (Unit {0}))
        → Verdict lib a clock r t n answer
        → ((answer.1 ≡ ok tt) ↔ Accepted lib a clock r t n)
          × (answer.1 ≡ ok tt
              → answer.0.nonce_cache ≡ add (has a.nonce_cache n clock.looked_up).1 n clock.added)
          × (answer.0.secret_key ≡ a.secret_key)
    from answer (accepts v e) = rw e ((λ _. v, λ _. refl), λ _. refl, refl)
    from answer (refuses h ne key forgets) =
        ((λ e. absurd (ne e), λ v. absurd (h v)), λ e. absurd (ne e), key)

pub validate-refused :
    (lib : AuthLib) (a : Authenticator) (clock : Clock) (r t n : Bytes)
    → (validate lib a clock r t n).1 ≢ ok tt
    → Forgets a.nonce_cache (validate lib a clock r t n).0.nonce_cache
validate-refused lib a clock r t n refused =
    from (validate lib a clock r t n) (validate-Verdict lib a clock r t n) refused
  where
    from :
        (answer : Authenticator × Outcome AuthError (Unit {0}))
        → Verdict lib a clock r t n answer
        → answer.1 ≢ ok tt
        → Forgets a.nonce_cache answer.0.nonce_cache
    from answer (accepts v e) ne = absurd (ne (rw e refl))
    from answer (refuses h ne key forgets) refused = forgets

-- After a token was accepted, with room in the cache, no token with the same nonce is accepted while
-- the nonce is remembered, whatever its timestamp and MAC, and whatever harmless calls on the cache
-- come in between.
pub validate-replay :
    (lib : AuthLib) (a : Authenticator) (c₁ c₂ : Clock) (r t n r' t' : Bytes) (cs : List CacheCall)
    → (validate lib a c₁ r t n).1 ≡ ok tt
    → length (has a.nonce_cache n c₁.looked_up).1.entries
      < (has a.nonce_cache n c₁.looked_up).1.max_size
    → AllHarmless
        (add (has a.nonce_cache n c₁.looked_up).1 n c₁.added)
        n
        (c₁.added + (has a.nonce_cache n c₁.looked_up).1.ttl)
        cs
    → c₂.looked_up ≤ c₁.added + (has a.nonce_cache n c₁.looked_up).1.ttl
    → (validate lib
        (record a { nonce_cache = cache_run (validate lib a c₁ r t n).0.nonce_cache cs })
        c₂
        r'
        t'
        n).1
      ≢ ok tt
validate-replay lib a c₁ c₂ r t n r' t' cs first room tame early second_use =
    let nc = (has a.nonce_cache n c₁.looked_up).1 in
    let stored : (validate lib a c₁ r t n).0.nonce_cache ≡ add nc n c₁.added =
      (validate-Accepted lib a c₁ r t n).1 first in
    let v =
      (validate-Accepted lib
          (record a { nonce_cache = cache_run (validate lib a c₁ r t n).0.nonce_cache cs }) c₂ r' t'
          n).0.0
        second_use in
    let unused : (has (cache_run (add nc n c₁.added) cs) n c₂.looked_up).0 ≡ false =
      ap (λ (m : NonceCache). (has (cache_run m cs) n c₂.looked_up).0) (sym stored) ∙ v.unused in
    cc (unused, has-add nc n c₁.added c₂.looked_up cs room tame early)

-- Replay by moving a digit: the MAC covers timestamp and nonce without a mark between them. A token
-- that was accepted with a nonce that begins with `c` gives a second token, with `c` at the end of the
-- timestamp, that is accepted under the same MAC where the longer number lies in the range whose
-- drift wraps round and the shorter nonce is not remembered.
pub validate-splice :
    (lib : AuthLib) (a a' : Authenticator) (c₁ c₂ : Clock) (r t n : Bytes) (c : ℕ) (ts : ℤ)
    → AuthLibLaws lib
    → (validate lib a c₁ r t (c ∷ n)).1 ≡ ok tt
    → a'.secret_key ≡ a.secret_key
    → parse_int (t ++ c ∷ []) ≡ some ts
    → 9223372037 ≤ distance (c₂.checked / second) ts
    → distance (c₂.checked / second) ts ≤ 18446744073
    → (has a'.nonce_cache n c₂.looked_up).0 ≡ false
    → (validate lib a' c₂ r (t ++ c ∷ []) n).1 ≡ ok tt
validate-splice lib a a' c₁ c₂ r t n c ts laws first key parsed lo hi unused =
    (validate-Accepted lib a' c₂ r (t ++ c ∷ []) n).0.1 (record {
      seconds = ts;
      parsed = parsed;
      in_time = (drift_too_large_range lib (distance (c₂.checked / second) ts) laws).1 lo hi;
      unused = unused;
      authentic = ((validate-Accepted lib a c₁ r t (c ∷ n)).0.0 first).authentic ∙ same_message;
    })
  where
    same_message : lib.mac a.secret_key (t ++ (c ∷ n)) ≡ lib.mac a'.secret_key ((t ++ c ∷ []) ++ n)
    same_message = rw (key, append_assoc) refl
