-- ===== src/Panel/Clients/Ids.antt =====
-- The ids of the clients' keys: server/internal/panel/db.go, api_keys.go.
use ligend.Prelude.{
  ℕ, suc, ◌≤◌, ◌<◌, ◌≡◌, ◌≢◌, refl, sym, ap, ◌∙◌, true, false, Bool-cases, inl, inr, List, [], ◌∷◌,
  ◌++◌, none, some, ==_iff, arith,
}
use ligend.Prelude.Texts.{ℤ, pos, negsuc}
use ligend.Panel.Store.{ClientKey, Db, has_id, without_id}
use ligend.Panel.Clients.{find_key}

-- The ids ascend from above `lo` to `last` at most.
abbrev pub IdsFrom : ℕ → List ClientKey → ℕ → Type 0
IdsFrom lo [] last = lo ≤ last
IdsFrom lo (k ∷ ks) last = (lo < k.id) × IdsFrom k.id ks last

-- No id is given twice.
abbrev pub Numbered : Db → Type 0
Numbered db = IdsFrom 0 db.client_keys db.last_id

pub IdsFrom-append :
    (lo : ℕ) (ks : List ClientKey) (last : ℕ) (k : ClientKey)
    → k.id ≡ suc last
    → IdsFrom lo ks last
    → IdsFrom lo (ks ++ k ∷ []) (suc last)
IdsFrom-append lo [] last k e h = (omega arith, omega arith)
IdsFrom-append lo (j ∷ ks) last k e h = (h.0, IdsFrom-append j.id ks last k e h.1)

IdsFrom-mono :
    (lo lo' : ℕ) (ks : List ClientKey) (last : ℕ)
    → lo' ≤ lo
    → IdsFrom lo ks last
    → IdsFrom lo' ks last
IdsFrom-mono lo lo' [] last le h = omega arith
IdsFrom-mono lo lo' (k ∷ ks) last le h = (omega (arith, h.0), h.1)

pub IdsFrom-without_id :
    (id : ℤ) (lo : ℕ) (ks : List ClientKey) (last : ℕ)
    → IdsFrom lo ks last
    → IdsFrom lo (without_id id ks) last
IdsFrom-without_id id lo [] last h = h
IdsFrom-without_id id lo (k ∷ ks) last h = elim (Bool-cases (has_id id k.id)) [
  | inl gone ↦
      rw gone
        (IdsFrom-without_id id lo ks last (IdsFrom-mono k.id lo ks last (omega (arith, h.0)) h.1))
  | inr kept ↦ rw kept (h.0, IdsFrom-without_id id k.id ks last h.1)
]

IdsFrom-le : (lo : ℕ) (ks : List ClientKey) (last : ℕ) → IdsFrom lo ks last → lo ≤ last
IdsFrom-le lo [] last h = h
IdsFrom-le lo (k ∷ ks) last h = omega (arith, h.0, IdsFrom-le k.id ks last h.1)

pub has_id-true : (id : ℤ) (n : ℕ) → has_id id n ≡ true → id ≡ pos n
has_id-true (pos m) n e = ap (λ (i : ℕ). pos i) ((==_iff m n).0 e)
has_id-true (negsuc m) n e = absurd (cc)

pub has_id-false : (id : ℤ) (n : ℕ) → id ≢ pos n → has_id id n ≡ false
has_id-false id n ne = elim (Bool-cases (has_id id n)) [
  | inl same ↦ absurd (ne (has_id-true id n same))
  | inr differs ↦ differs
]

has_id_self : (n : ℕ) → has_id (pos n) n ≡ true
has_id_self n = (==_iff n n).1 refl

find_key-append_above :
    (lo : ℕ) (ks : List ClientKey) (last : ℕ) (k : ClientKey)
    → k.id ≡ suc last
    → IdsFrom lo ks last
    → find_key (pos k.id) (ks ++ k ∷ []) ≡ some k
find_key-append_above lo [] last k e ids = rw (has_id_self k.id) refl
find_key-append_above lo (j ∷ ks) last k e ids =
    let below : has_id (pos k.id) j.id ≡ false = ground (arith, IdsFrom-le j.id ks last ids.1, e) in
    rw below (find_key-append_above j.id ks last k e ids.1)

-- The key that is added last is found under its id, and the others as before.
pub find_key-append_new :
    (db : Db) (k : ClientKey)
    → Numbered db
    → k.id ≡ suc db.last_id
    → find_key (pos (suc db.last_id)) (db.client_keys ++ k ∷ []) ≡ some k
find_key-append_new db k n e = rw⁻¹ e (find_key-append_above 0 db.client_keys db.last_id k e n)

pub find_key-append_other :
    (id : ℤ) (ks : List ClientKey) (k : ClientKey)
    → id ≢ pos k.id
    → find_key id (ks ++ k ∷ []) ≡ find_key id ks
find_key-append_other id [] k ne = rw (has_id-false id k.id ne) refl
find_key-append_other id (j ∷ ks) k ne = elim (Bool-cases (has_id id j.id)) [
  | inl same ↦ rw same refl
  | inr differs ↦ rw differs (find_key-append_other id ks k ne)
]

pub find_key-without_id : (id : ℤ) (ks : List ClientKey) → find_key id (without_id id ks) ≡ none
find_key-without_id id [] = refl
find_key-without_id id (k ∷ ks) = elim (Bool-cases (has_id id k.id)) [
  | inl gone ↦ rw gone (find_key-without_id id ks)
  | inr kept ↦ rw kept (rw kept (find_key-without_id id ks))
]

-- The key with another id is found as before.
pub find_key-without_other :
    (id j : ℤ) (ks : List ClientKey) → id ≢ j → find_key j (without_id id ks) ≡ find_key j ks
find_key-without_other id j [] ne = refl
find_key-without_other id j (k ∷ ks) ne = elim (Bool-cases (has_id id k.id)) [
  | inl gone ↦ elim (Bool-cases (has_id j k.id)) [
    | inl same ↦ absurd (ne (has_id-true id k.id gone ∙ sym (has_id-true j k.id same)))
    | inr differs ↦ rw (gone, differs) (find_key-without_other id j ks ne)
  ]
  | inr kept ↦ rw kept (elim (Bool-cases (has_id j k.id)) [
    | inl same ↦ rw same refl
    | inr differs ↦ rw differs (find_key-without_other id j ks ne)
  ])
]
