-- ===== src/Prelude/Tables.antt =====
-- Go maps as association lists, over keys with a Boolean equality. An entry that is set keeps its
-- place or goes to the end; the order stands for nothing.
use ligend.Prelude.Tests.{◌==◌ as nat_eq, ==_iff, if◌then◌else◌, Bool-cases}
use ligend.Prelude.Lists.{length, All}
use Prim.Native.Nat.{ℕ, ◌+◌, ◌≤◌}
use mathlib.Core.Path.{◌≡◌, refl, subst}
use mathlib.Core.Logic.{◌↔◌, inl, inr}
use mathlib.Core.Bool.{Bool, true, false, ◌&&◌}
use mathlib.Core.Option.{Option, none, some, some-injective}
use mathlib.Core.List.{List, [], ◌∷◌}
use native.Mathlib.Omega.{arith}

pub record Eq (A : Type 0) : Type 0 where
  pub beq : A → A → Bool
  pub beq_iff : (a b : A) → (beq a b ≡ true) ↔ (a ≡ b)

abbrev pub bytes_eq : List ℕ → List ℕ → Bool
bytes_eq [] [] = true
bytes_eq [] (y ∷ ys) = false
bytes_eq (x ∷ xs) [] = false
bytes_eq (x ∷ xs) (y ∷ ys) = nat_eq x y && bytes_eq xs ys

pub bytes_eq_iff : (xs ys : List ℕ) → (bytes_eq xs ys ≡ true) ↔ (xs ≡ ys)
bytes_eq_iff [] [] = (λ _. refl, λ _. refl)
bytes_eq_iff [] (y ∷ ys) = (λ e. absurd (cc), λ e. absurd (cc))
bytes_eq_iff (x ∷ xs) [] = (λ e. absurd (cc), λ e. absurd (cc))
bytes_eq_iff (x ∷ xs) (y ∷ ys) = ground (arith, bytes_eq_iff xs ys)

instance abbrev pub nat_keys : Eq ℕ
nat_keys = record { beq = nat_eq; beq_iff = ==_iff }

instance abbrev pub bytes_keys : Eq (List ℕ)
bytes_keys = record { beq = bytes_eq; beq_iff = bytes_eq_iff }

abbrev pub Table : Type 0 → Type 0 → Type 0
Table K V = List (K × V)

module _ {K : Type 0} ⦃e : Eq K⦄ where
  pub beq_refl : (k : K) → e.beq k k ≡ true
  beq_refl k = (e.beq_iff k k).1 refl

  pub beq_sym_false : (a b : K) → e.beq a b ≡ false → e.beq b a ≡ false
  beq_sym_false a b h = ground (arith, e.beq_iff b a, beq_refl a)

  pub beq_true : (a b : K) → e.beq a b ≡ true → a ≡ b
  beq_true a b = (e.beq_iff a b).0

module _ {K V : Type 0} ⦃e : Eq K⦄ where
  unfoldable pub lookup : K → Table K V → Option V
  lookup k [] = none
  lookup k ((j, v) ∷ m) = if e.beq j k then some v else lookup k m

  unfoldable pub insert : K → V → Table K V → Table K V
  insert k v [] = (k, v) ∷ []
  insert k v ((j, w) ∷ m) = if e.beq j k then (k, v) ∷ m else (j, w) ∷ insert k v m

  unfoldable pub delete : K → Table K V → Table K V
  delete k [] = []
  delete k ((j, w) ∷ m) = if e.beq j k then delete k m else (j, w) ∷ delete k m

  -- A key stands once.
  abbrev pub Fresh : K → Table K V → Type 0
  Fresh k [] = Unit
  Fresh k ((j, v) ∷ m) = (e.beq j k ≡ false) × Fresh k m

  abbrev pub Distinct : Table K V → Type 0
  Distinct [] = Unit
  Distinct ((j, v) ∷ m) = Fresh j m × Distinct m

  pub lookup-insert :
      (k j : K) (v : V) (m : Table K V)
      → lookup j (insert k v m) ≡ (if e.beq k j then some v else lookup j m)
  unfolding lookup insert
  lookup-insert k j v [] = refl
  lookup-insert k j v ((i, w) ∷ m) =
      ground (arith, e.beq_iff k j, e.beq_iff i k, e.beq_iff i j, lookup-insert k j v m)

  pub lookup-delete :
      (k j : K) (m : Table K V) → lookup j (delete k m) ≡ (if e.beq k j then none else lookup j m)
  unfolding lookup delete
  lookup-delete k j [] = ground arith
  lookup-delete k j ((i, w) ∷ m) =
      ground (arith, e.beq_iff k j, e.beq_iff i k, e.beq_iff i j, lookup-delete k j m)

  Fresh-insert :
      (k j : K) (v : V) (m : Table K V) → e.beq k j ≡ false → Fresh j m → Fresh j (insert k v m)
  unfolding insert
  Fresh-insert k j v [] h f = (h, tt)
  Fresh-insert k j v ((i, w) ∷ m) h f = ground (arith, Fresh-insert k j v m)

  Fresh-delete : (k j : K) (m : Table K V) → Fresh j m → Fresh j (delete k m)
  unfolding delete
  Fresh-delete k j [] f = tt
  Fresh-delete k j ((i, w) ∷ m) f = ground (arith, Fresh-delete k j m)

  pub insert-Distinct : (k : K) (v : V) (m : Table K V) → Distinct m → Distinct (insert k v m)
  unfolding insert
  insert-Distinct k v [] d = (tt, tt)
  insert-Distinct k v ((i, w) ∷ m) d = elim (Bool-cases (e.beq i k)) [
    | inl same ↦ rw same (subst (λ j. Fresh j m) (beq_true i k same) d.0, d.1)
    | inr other ↦
        rw other (Fresh-insert k i v m (beq_sym_false i k other) d.0, insert-Distinct k v m d.1)
  ]

  pub delete-Distinct : (k : K) (m : Table K V) → Distinct m → Distinct (delete k m)
  unfolding delete
  delete-Distinct k [] d = tt
  delete-Distinct k ((i, w) ∷ m) d = ground (arith, Fresh-delete k i m d.0, delete-Distinct k m d.1)

  -- `len` of a map grows by one with a new key and stays with an old one.
  pub length-insert_new :
      (k : K) (v : V) (m : Table K V) → lookup k m ≡ none → length (insert k v m) ≡ length m + 1
  unfolding lookup insert
  length-insert_new k v [] h = omega arith
  length-insert_new k v ((i, w) ∷ m) h = ground (arith, length-insert_new k v m)

  pub length-insert_old :
      (k : K) (v w : V) (m : Table K V) → lookup k m ≡ some w → length (insert k v m) ≡ length m
  unfolding lookup insert
  length-insert_old k v w [] h = absurd (cc)
  length-insert_old k v w ((i, u) ∷ m) h = ground (arith, length-insert_old k v w m)

  Fresh-lookup : (k : K) (m : Table K V) → Fresh k m → lookup k m ≡ none
  unfolding lookup
  Fresh-lookup k [] f = refl
  Fresh-lookup k ((i, w) ∷ m) f = ground (arith, Fresh-lookup k m)

  delete_absent : (k : K) (m : Table K V) → lookup k m ≡ none → delete k m ≡ m
  unfolding lookup delete
  delete_absent k [] h = refl
  delete_absent k ((i, w) ∷ m) h = ground (arith, delete_absent k m)

  pub length-delete_le : (k : K) (m : Table K V) → length (delete k m) ≤ length m
  unfolding delete
  length-delete_le k [] = omega arith
  length-delete_le k ((i, u) ∷ m) = ground (arith, length-delete_le k m)

  pub length-delete :
      (k : K) (w : V) (m : Table K V)
      → Distinct m
      → lookup k m ≡ some w
      → length (delete k m) + 1 ≡ length m
  unfolding lookup delete
  length-delete k w [] d h = absurd (cc)
  length-delete k w ((i, u) ∷ m) d h = elim (Bool-cases (e.beq i k)) [
    | inl same ↦
        let fresh : Fresh k m = subst (λ j. Fresh j m) (beq_true i k same) d.0 in
        rw (same, delete_absent k m (Fresh-lookup k m fresh)) (omega arith)
    | inr other ↦ rw other (omega (arith, length-delete k w m d.1 (ground arith)))
  ]

module _ {K V : Type 0} ⦃e : Eq K⦄ (P : K × V → Type 0) where
  pub All-insert : (k : K) (v : V) (m : Table K V) → P (k, v) → All P m → All P (insert k v m)
  unfolding insert
  All-insert k v [] h a = (h, tt)
  All-insert k v ((i, w) ∷ m) h a = elim (Bool-cases (e.beq i k)) [
    | inl same ↦ rw same (h, a.1)
    | inr other ↦ rw other (a.0, All-insert k v m h a.1)
  ]

  pub All-delete : (k : K) (m : Table K V) → All P m → All P (delete k m)
  unfolding delete
  All-delete k [] a = tt
  All-delete k ((i, w) ∷ m) a = elim (Bool-cases (e.beq i k)) [
    | inl same ↦ rw same (All-delete k m a.1)
    | inr other ↦ rw other (a.0, All-delete k m a.1)
  ]

  -- An entry that is found has the property.
  pub lookup-All : (k : K) (v : V) (m : Table K V) → All P m → lookup k m ≡ some v → P (k, v)
  unfolding lookup
  lookup-All k v [] a h = absurd (cc)
  lookup-All k v ((i, w) ∷ m) a h = elim (Bool-cases (e.beq i k)) [
    | inl same ↦
        let found : some w ≡ some v = rw same at h in
        subst (λ j. P (j, v)) (beq_true i k same)
          (subst (λ u. P (i, u)) (some-injective _ _ found) a.0)
    | inr other ↦ lookup-All k v m a.1 (rw other at h)
  ]
