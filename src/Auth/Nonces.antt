-- ===== src/Auth/Nonces.antt =====
-- server/internal/auth/auth.go: `nonceCache`, the nonces that were used lately.
pub mod Bounds
pub mod Memory
use ligend.Prelude.{
  ℕ, ◌+◌, Bool, true, false, List, [], ◌∷◌, ◌++◌, Option, none, some, length, ltb, if◌then◌else◌,
}
use ligend.Prelude.Bytes.{Bytes}
use ligend.Prelude.Tables.{Table, lookup, insert, delete, bytes_keys}

-- In nanoseconds.
abbrev pub second : ℕ
second = 1000000000

pub record NonceEntry : Type 0 where
  pub nonce : Bytes
  pub expires_at : ℕ

pub record NonceCache : Type 0 where
  pub entries : Table Bytes ℕ
  pub order : List NonceEntry
  pub max_size : ℕ
  pub ttl : ℕ

unfoldable pub new_nonce_cache : ℕ → ℕ → NonceCache
new_nonce_cache max_size ttl = record { entries = []; order = []; max_size = max_size; ttl = ttl }

-- Whether the nonce is remembered at the time `now`; an expired entry is dropped.
unfoldable pub has : NonceCache → Bytes → ℕ → Bool × NonceCache
has nc nonce now = elim (lookup nonce nc.entries) [
  | none ↦ (false, nc)
  | some expires ↦
      if ltb expires now
      then (false, record nc { entries = delete nonce nc.entries })
      else (true, nc)
]

-- The loop of `add`: the oldest go while there are too many.
unfoldable pub evict : ℕ → Table Bytes ℕ → List NonceEntry → Table Bytes ℕ × List NonceEntry
evict max_size entries [] = (entries, [])
evict max_size entries (oldest ∷ order) =
    let fewer = evict max_size (delete oldest.nonce entries) order in
    if ltb max_size (length entries) then fewer else (entries, oldest ∷ order)

unfoldable pub add : NonceCache → Bytes → ℕ → NonceCache
add nc nonce now =
    let entries = insert nonce (now + nc.ttl) nc.entries in
    let order = nc.order ++ (record { nonce = nonce; expires_at = now + nc.ttl }) ∷ [] in
    let (entries', order') = evict nc.max_size entries order in
    record nc { entries = entries'; order = order' }

abbrev pub drop_expired : ℕ → Table Bytes ℕ → Table Bytes ℕ
drop_expired now [] = []
drop_expired now ((nonce, expires) ∷ m) =
    if ltb expires now then drop_expired now m else (nonce, expires) ∷ drop_expired now m

abbrev pub is_present : Option ℕ → Bool
is_present none = false
is_present (some e) = true

abbrev pub keep_present : Table Bytes ℕ → List NonceEntry → List NonceEntry
keep_present entries [] = []
keep_present entries (e ∷ order) =
    if is_present (lookup e.nonce entries)
    then e ∷ keep_present entries order
    else keep_present entries order

-- One tick of the cleanup goroutine.
unfoldable pub cleanup : NonceCache → ℕ → NonceCache
cleanup nc now =
    let entries = drop_expired now nc.entries in
    record nc { entries = entries; order = keep_present entries nc.order }
