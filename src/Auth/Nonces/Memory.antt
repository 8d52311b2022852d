-- ===== src/Auth/Nonces/Memory.antt =====
-- A nonce that was added is remembered until it expires, unless there are too many.
use ligend.Prelude.{
  ℕ, ◌+◌, ◌≤◌, ◌<◌, ◌≡◌, refl, sym, ap, ◌∙◌, inl, inr, Bool, true, false, List, [], ◌∷◌, ◌++◌, some,
  length, Bool-cases, Option-cases, ltb, le→ltb, ltb→lt, arith,
}
use mathlib.Core.Option.{some-injective}
use ligend.Prelude.Bytes.{Bytes}
use ligend.Prelude.Tables.{
  Table, lookup, insert, bytes_keys, bytes_eq, bytes_eq_iff, lookup-insert, lookup-delete, beq_refl,
}
use ligend.Auth.Nonces.{NonceCache, NonceEntry, has, evict, add, drop_expired, cleanup}
use ligend.Auth.Nonces.Bounds.{
  CacheCall, calls_has, calls_add, calls_cleanup, cache_step, cache_run,
}

-- The cache holds the nonce, to expire then.
abbrev pub Holds : NonceCache → Bytes → ℕ → Type 0
Holds nc n expires = lookup n nc.entries ≡ some expires

-- A call that is no later than `expires`, and that adds neither this nonce nor one too many.
abbrev pub IsHarmless : NonceCache → Bytes → ℕ → CacheCall → Type 0
IsHarmless nc n expires (calls_has m now) = now ≤ expires
IsHarmless nc n expires (calls_add m now) =
    (bytes_eq m n ≡ false) × (length nc.entries < nc.max_size)
IsHarmless nc n expires (calls_cleanup now) = now ≤ expires

abbrev pub AllHarmless : NonceCache → Bytes → ℕ → List CacheCall → Type 0
AllHarmless nc n expires [] = Unit
AllHarmless nc n expires (c ∷ cs) =
    IsHarmless nc n expires c × AllHarmless (cache_step nc c) n expires cs

drop_expired-lookup :
    (m : Table Bytes ℕ) (n : Bytes) (now e : ℕ)
    → now ≤ e
    → lookup n m ≡ some e
    → lookup n (drop_expired now m) ≡ some e
unfolding lookup
drop_expired-lookup [] n now e live h = h
drop_expired-lookup ((k, x) ∷ m) n now e live h =
    ground (arith, bytes_eq_iff k n, drop_expired-lookup m n now e)

evict-fits :
    (max : ℕ) (m : Table Bytes ℕ) (order : List NonceEntry)
    → length m ≤ max
    → (evict max m order).0 ≡ m
unfolding evict
evict-fits max m [] h = refl
evict-fits max m (o ∷ order) h = rw (le→ltb max (length m) h)

length-insert-le : (n : Bytes) (e : ℕ) (m : Table Bytes ℕ) → length (insert n e m) ≤ length m + 1
unfolding insert
length-insert-le n e [] = omega arith
length-insert-le n e ((k, x) ∷ m) = ground (arith, length-insert-le n e m)

has-Holds :
    (nc : NonceCache) (n m : Bytes) (expires now : ℕ)
    → now ≤ expires
    → Holds nc n expires
    → Holds (has nc m now).1 n expires
unfolding has
has-Holds nc n m expires now early h = elim (Option-cases (lookup m nc.entries)) [
  | inl e ↦ rw (e, has) h
  | inr (x, e) ↦ elim (Bool-cases (ltb x now)) [
    | inr live ↦ rw (e, live, has) h
    | inl old ↦ rw (e, old, has) (rw (lookup-delete m n nc.entries, other x e old) h)
  ]
]
  where
    other : (x : ℕ) → lookup m nc.entries ≡ some x → ltb x now ≡ true → bytes_eq m n ≡ false
    other x e old = elim (Bool-cases (bytes_eq m n)) [
      | inr apart ↦ apart
      | inl same ↦
          let found : some x ≡ some expires =
            sym e ∙ ap (λ (k : Bytes). lookup k nc.entries) ((bytes_eq_iff m n).0 same) ∙ h in
          absurd (omega (arith, some-injective _ _ found, ltb→lt x now old))
    ]

add-Holds :
    (nc : NonceCache) (n m : Bytes) (expires now : ℕ)
    → bytes_eq m n ≡ false
    → length nc.entries < nc.max_size
    → Holds nc n expires
    → Holds (add nc m now) n expires
unfolding add
add-Holds nc n m expires now other room h =
    rw
      (evict-fits nc.max_size (insert m (now + nc.ttl) nc.entries)
        (nc.order ++ (record { nonce = m; expires_at = now + nc.ttl }) ∷ [])
        (omega (arith, length-insert-le m (now + nc.ttl) nc.entries)))
      (rw (lookup-insert m n (now + nc.ttl) nc.entries, other) h)

-- A nonce that is added while there is room is held until its time is up.
pub add-Holds_self :
    (nc : NonceCache) (n : Bytes) (now : ℕ)
    → length nc.entries < nc.max_size
    → Holds (add nc n now) n (now + nc.ttl)
unfolding add
add-Holds_self nc n now room =
    rw
      (evict-fits nc.max_size (insert n (now + nc.ttl) nc.entries)
        (nc.order ++ (record { nonce = n; expires_at = now + nc.ttl }) ∷ [])
        (omega (arith, length-insert-le n (now + nc.ttl) nc.entries)))
      (rw (lookup-insert n n (now + nc.ttl) nc.entries, beq_refl n))

step-Holds :
    (nc : NonceCache) (n : Bytes) (expires : ℕ) (c : CacheCall)
    → IsHarmless nc n expires c
    → Holds nc n expires
    → Holds (cache_step nc c) n expires
unfolding cache_step cleanup
step-Holds nc n expires (calls_has m now) early h = has-Holds nc n m expires now early h
step-Holds nc n expires (calls_add m now) (other, room) h =
    add-Holds nc n m expires now other room h
step-Holds nc n expires (calls_cleanup now) early h =
    drop_expired-lookup nc.entries n now expires early h

run-Holds :
    (nc : NonceCache) (n : Bytes) (expires : ℕ) (cs : List CacheCall)
    → AllHarmless nc n expires cs
    → Holds nc n expires
    → Holds (cache_run nc cs) n expires
unfolding cache_run
run-Holds nc n expires [] tame h = h
run-Holds nc n expires (c ∷ cs) tame h =
    run-Holds (cache_step nc c) n expires cs tame.1 (step-Holds nc n expires c tame.0 h)

Holds-has :
    (nc : NonceCache) (n : Bytes) (expires now : ℕ)
    → Holds nc n expires
    → now ≤ expires
    → has nc n now ≡ (true, nc)
unfolding has
Holds-has nc n expires now h early = rw (h, le→ltb expires now early, has)

-- A nonce that was added at `t`, with room for it, is found at every time up to `t + ttl`, whatever
-- look-ups, additions of other nonces within the room and clean-ups come in between.
pub has-add :
    (nc : NonceCache) (n : Bytes) (t now : ℕ) (cs : List CacheCall)
    → length nc.entries < nc.max_size
    → AllHarmless (add nc n t) n (t + nc.ttl) cs
    → now ≤ t + nc.ttl
    → (has (cache_run (add nc n t) cs) n now).0 ≡ true
has-add nc n t now cs room tame early =
    ap (λ (r : Bool × NonceCache). r.0)
      (Holds-has (cache_run (add nc n t) cs) n (t + nc.ttl) now
        (run-Holds (add nc n t) n (t + nc.ttl) cs tame (add-Holds_self nc n t room)) early)
