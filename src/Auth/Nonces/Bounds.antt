-- ===== src/Auth/Nonces/Bounds.antt =====
-- The cache never holds more nonces than its size allows.
use ligend.Prelude.{
  ℕ, ◌+◌, ◌≤◌, ◌≡◌, refl, ap, ◌∙◌, sym, inl, inr, ◌⊎◌, false, List, [], ◌∷◌, ◌++◌, some, length,
  All, All-mono, All-both, Bool-cases, Option-cases, ltb, ltb→le, arith,
}
use ligend.Prelude.Bytes.{Bytes}
use ligend.Prelude.Tables.{
  Table, lookup, insert, delete, bytes_keys, bytes_eq, bytes_eq_iff, All-insert, All-delete,
  beq_refl,
}
use ligend.Auth.Nonces.{
  NonceCache, NonceEntry, new_nonce_cache, has, evict, add, drop_expired, is_present, keep_present,
  cleanup,
}

-- The order has an entry for the nonce.
abbrev pub Ordered : List NonceEntry → Bytes → Type 0
Ordered [] nonce = ⊥
Ordered (e ∷ order) nonce = (e.nonce ≡ nonce) ⊎ Ordered order nonce

abbrev pub Listed : List NonceEntry → Bytes × ℕ → Type 0
Listed order entry = Ordered order entry.0

-- Every remembered nonce stands in the order, and the size is kept.
pub record IsCache (nc : NonceCache) : Type 0 where
  pub ordered : All (Listed nc.order) nc.entries
  pub bounded : length nc.entries ≤ nc.max_size

Ordered-append_left : (xs ys : List NonceEntry) (n : Bytes) → Ordered xs n → Ordered (xs ++ ys) n
Ordered-append_left [] ys n h = absurd h
Ordered-append_left (x ∷ xs) ys n (inl e) = inl e
Ordered-append_left (x ∷ xs) ys n (inr h) = inr (Ordered-append_left xs ys n h)

Ordered-append_last : (xs : List NonceEntry) (e : NonceEntry) → Ordered (xs ++ e ∷ []) e.nonce
Ordered-append_last [] e = inl refl
Ordered-append_last (x ∷ xs) e = inr (Ordered-append_last xs e)

length-delete-le : (n : Bytes) (m : Table Bytes ℕ) → length (delete n m) ≤ length m
unfolding delete
length-delete-le n [] = omega arith
length-delete-le n ((k, e) ∷ m) = ground (arith, length-delete-le n m)

-- What is left without the oldest nonce stands in the rest of the order.
delete-Listed :
    (oldest : NonceEntry) (order : List NonceEntry) (m : Table Bytes ℕ)
    → All (Listed (oldest ∷ order)) m
    → All (Listed order) (delete oldest.nonce m)
unfolding delete
delete-Listed oldest order [] h = tt
delete-Listed oldest order ((k, e) ∷ m) h = elim (Bool-cases (bytes_eq k oldest.nonce)) [
  | inl same ↦ rw same (delete-Listed oldest order m h.1)
  | inr other ↦ rw other (later other h.0, delete-Listed oldest order m h.1)
]
  where
    later : bytes_eq k oldest.nonce ≡ false → Listed (oldest ∷ order) (k, e) → Listed order (k, e)
    later other (inl same) = absurd (cc ((bytes_eq_iff k oldest.nonce).1 (sym same)))
    later other (inr there) = there

evict-IsCache :
    (max : ℕ) (m : Table Bytes ℕ) (order : List NonceEntry)
    → All (Listed order) m
    → All (Listed (evict max m order).1) (evict max m order).0
      × (length (evict max m order).0 ≤ max)
unfolding evict
evict-IsCache max [] [] h = (tt, omega arith)
evict-IsCache max ((k, e) ∷ m) [] h = absurd h.0
evict-IsCache max m (oldest ∷ order) h = elim (Bool-cases (ltb max (length m))) [
  | inl over ↦
      rw over (evict-IsCache max (delete oldest.nonce m) order (delete-Listed oldest order m h))
  | inr fits ↦ rw fits (h, ltb→le max (length m) fits)
]

-- A new cache is valid.
new_nonce_cache-IsCache : (max ttl : ℕ) → IsCache (new_nonce_cache max ttl)
unfolding new_nonce_cache
new_nonce_cache-IsCache max ttl = record { ordered = tt; bounded = omega arith }

has-IsCache : (nc : NonceCache) (n : Bytes) (now : ℕ) → IsCache nc → IsCache (has nc n now).1
unfolding has
has-IsCache nc n now v = elim (Option-cases (lookup n nc.entries)) [
  | inl e ↦ rw (e, has) v
  | inr (expires, e) ↦ elim (Bool-cases (ltb expires now)) [
    | inl old ↦
        rw (e, old, has)
          (record {
            ordered = All-delete (Listed nc.order) n nc.entries v.ordered;
            bounded = omega (arith, length-delete-le n nc.entries, v.bounded);
          })
    | inr live ↦ rw (e, live, has) v
  ]
]

add-IsCache : (nc : NonceCache) (n : Bytes) (now : ℕ) → IsCache nc → IsCache (add nc n now)
unfolding add
add-IsCache nc n now v =
    let (ordered, bounded) =
      evict-IsCache nc.max_size (insert n (now + nc.ttl) nc.entries) order' listed in
    record { ordered = ordered; bounded = bounded }
  where
    entry : NonceEntry
    entry = record { nonce = n; expires_at = now + nc.ttl }

    order' : List NonceEntry
    order' = nc.order ++ entry ∷ []

    listed : All (Listed order') (insert n (now + nc.ttl) nc.entries)
    listed =
        All-insert (Listed order') n (now + nc.ttl) nc.entries (Ordered-append_last nc.order entry)
          (All-mono (Listed nc.order) (Listed order') nc.entries
            (λ (k, e) h. Ordered-append_left nc.order (entry ∷ []) k h) v.ordered)

drop_expired-All :
    (P : Bytes × ℕ → Type 0) (now : ℕ) (m : Table Bytes ℕ)
    → All P m
    → All P (drop_expired now m) × (length (drop_expired now m) ≤ length m)
drop_expired-All P now [] h = (tt, omega arith)
drop_expired-All P now ((k, e) ∷ m) h = elim (Bool-cases (ltb e now)) [
  | inl old ↦ rw old (let (all, less) = drop_expired-All P now m h.1 in (all, omega arith))
  | inr live ↦ rw live (let (all, less) = drop_expired-All P now m h.1 in ((h.0, all), omega arith))
]

-- A nonce that the map holds keeps its place in the order.
keep_present-Ordered :
    (m : Table Bytes ℕ) (order : List NonceEntry) (n : Bytes) (e : ℕ)
    → lookup n m ≡ some e
    → Ordered order n
    → Ordered (keep_present m order) n
keep_present-Ordered m [] n e h o = o
keep_present-Ordered m (x ∷ order) n e h (inl same) =
    rw (ap (λ (k : Bytes). is_present (lookup k m)) same ∙ ap is_present h) (inl same)
keep_present-Ordered m (x ∷ order) n e h (inr later) =
    elim (Bool-cases (is_present (lookup x.nonce m))) [
      | inl here ↦ rw here (inr (keep_present-Ordered m order n e h later))
      | inr gone ↦ rw gone (keep_present-Ordered m order n e h later)
    ]

abbrev Present : Table Bytes ℕ → Bytes × ℕ → Type 0
Present m entry = (v : ℕ) × (lookup entry.0 m ≡ some v)

All-Present : (m : Table Bytes ℕ) → All (Present m) m
unfolding lookup
All-Present [] = tt
All-Present ((k, e) ∷ m) = (
  (e, rw (beq_refl k)),
  All-mono (Present m) (Present ((k, e) ∷ m)) m (λ (n, x) (v, h). still n v h) (All-Present m),
)
  where
    still : (n : Bytes) (v : ℕ) → lookup n m ≡ some v → Present ((k, e) ∷ m) (n, e)
    still n v h = elim (Bool-cases (bytes_eq k n)) [
      | inl same ↦ (e, rw same)
      | inr other ↦ (v, rw other h)
    ]

cleanup-IsCache : (nc : NonceCache) (now : ℕ) → IsCache nc → IsCache (cleanup nc now)
unfolding cleanup
cleanup-IsCache nc now v =
    let (kept, less) = drop_expired-All (Listed nc.order) now nc.entries v.ordered in
    record {
      ordered =
          All-both (Listed nc.order) (Present m) (Listed (keep_present m nc.order)) m
            (λ (k, e) o (x, h). keep_present-Ordered m nc.order k x h o) kept (All-Present m);
      bounded = omega (arith, v.bounded);
    }
  where
    m : Table Bytes ℕ
    m = drop_expired now nc.entries

-- The calls on a cache, each at its time.
pub data CacheCall : Type 0 where
  calls_has calls_add : Bytes → ℕ → CacheCall
  calls_cleanup : ℕ → CacheCall

unfoldable pub cache_step : NonceCache → CacheCall → NonceCache
cache_step nc (calls_has n now) = (has nc n now).1
cache_step nc (calls_add n now) = add nc n now
cache_step nc (calls_cleanup now) = cleanup nc now

unfoldable pub cache_run : NonceCache → List CacheCall → NonceCache
cache_run nc [] = nc
cache_run nc (c ∷ cs) = cache_run (cache_step nc c) cs

cache_step-IsCache : (nc : NonceCache) (c : CacheCall) → IsCache nc → IsCache (cache_step nc c)
unfolding cache_step
cache_step-IsCache nc (calls_has n now) v = has-IsCache nc n now v
cache_step-IsCache nc (calls_add n now) v = add-IsCache nc n now v
cache_step-IsCache nc (calls_cleanup now) v = cleanup-IsCache nc now v

cache_step-max_size : (nc : NonceCache) (c : CacheCall) → (cache_step nc c).max_size ≡ nc.max_size
unfolding cache_step has add cleanup
cache_step-max_size nc (calls_has n now) = ground arith
cache_step-max_size nc (calls_add n now) = refl
cache_step-max_size nc (calls_cleanup now) = refl

cache_run-IsCache :
    (nc : NonceCache) (cs : List CacheCall)
    → IsCache nc
    → IsCache (cache_run nc cs) × ((cache_run nc cs).max_size ≡ nc.max_size)
unfolding cache_run
cache_run-IsCache nc [] v = (v, refl)
cache_run-IsCache nc (c ∷ cs) v =
    let (w, e) = cache_run-IsCache (cache_step nc c) cs (cache_step-IsCache nc c v) in
    (w, e ∙ cache_step-max_size nc c)

-- Whatever calls a new cache gets, at whatever times, it never holds more nonces than its size, and
-- each of them stands in the eviction order.
pub cache_run-bounded :
    (max ttl : ℕ) (cs : List CacheCall)
    → (length (cache_run (new_nonce_cache max ttl) cs).entries ≤ max)
      × IsCache (cache_run (new_nonce_cache max ttl) cs)
cache_run-bounded max ttl cs =
    let (v, e) = cache_run-IsCache (new_nonce_cache max ttl) cs (new_nonce_cache-IsCache max ttl) in
    (omega (arith, v.bounded, e, size), v)
  where
    size : (new_nonce_cache max ttl).max_size ≡ max
    size = unfold new_nonce_cache in refl
