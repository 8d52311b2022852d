-- ===== src/Prelude/Outcome.antt =====
-- The result of a Go function that returns a value and an error: a value, an error, or the panic
-- that an index or a slice bound out of range raises.
use Prim.Native.Nat.{ℕ, ◌-◌, ◌≤◌, ◌<◌}
use mathlib.Core.Path.{◌≡◌, refl, ◌∙◌, ap, subst}
use mathlib.Core.Logic.{◌≢◌}
use mathlib.Core.Bool.{Bool, true, false, ◌&&◌}
use mathlib.Core.Option.{Option, none, some}
use mathlib.Core.List.{List}
use native.Mathlib.Omega.{arith}
use ligend.Prelude.Tests.{leb, le→leb, if◌then◌else◌}
use ligend.Prelude.Lists.{length, take, drop, get_elem?, get_elem?-lt}

pub data Outcome {ℓ κ} (E : Type ℓ) (A : Type κ) : Type (ℓ ⊔ κ) where
  ok : A → Outcome E A
  err : E → Outcome E A
  panic : Outcome E A

infixl 5 ◌>>=◌ ◌>>◌
abbrev pub ◌>>=◌ {ℓ κ μ} :
    {E : Type ℓ} {A : Type κ} {B : Type μ} → Outcome E A → (A → Outcome E B) → Outcome E B
ok a >>= f = f a
err e >>= f = err e
panic >>= f = panic

abbrev pub ◌>>◌ {ℓ κ} : {E : Type ℓ} {B : Type κ} → Outcome E (Unit {0}) → Outcome E B → Outcome E B
m >> k = m >>= λ _. k

-- `if cond { return nil, err }`
abbrev pub fail_if {ℓ} : {E : Type ℓ} → Bool → E → Outcome E (Unit {0})
fail_if true e = err e
fail_if false e = ok tt

abbrev pub or_panic {ℓ κ} : {E : Type ℓ} {A : Type κ} → Option A → Outcome E A
or_panic none = panic
or_panic (some a) = ok a

module _ {ℓ κ} {E : Type ℓ} {A : Type κ} where
  -- `xs[i]`
  abbrev pub at : List A → ℕ → Outcome E A
  at xs i = or_panic (get_elem? xs i)

  -- `xs[lo:hi]`
  abbrev pub slice : List A → ℕ → ℕ → Outcome E (List A)
  slice xs lo hi =
      if leb lo hi && leb hi (length xs) then ok (take (hi - lo) (drop lo xs)) else panic

  pub at-ok : (xs : List A) (i : ℕ) → i < length xs → (a : A) × (at xs i ≡ ok a)
  at-ok xs i h = let (a, e) = get_elem?-lt xs i h in (a, rw e)

  pub slice-ok :
      (xs : List A) (lo hi : ℕ)
      → lo ≤ hi
      → hi ≤ length xs
      → slice xs lo hi ≡ ok (take (hi - lo) (drop lo xs))
  slice-ok xs lo hi h k = rw (le→leb lo hi h, le→leb hi (length xs) k)

  -- `xs[:n]` and `xs[n:]`
  pub slice-zero : (xs : List A) (n : ℕ) → n ≤ length xs → slice xs 0 n ≡ ok (take n xs)
  slice-zero xs n h = slice-ok xs 0 n (omega arith) h ∙ ap (λ (k : ℕ). ok (take k xs)) (omega arith)

-- What a run ensures: no panic, and `P` of the value that it returns, if it returns one.
abbrev pub Sat {ℓ} : {E A : Type ℓ} → (A → Type 0) → Outcome E A → Type 0
Sat P (ok a) = P a
Sat P (err e) = Unit {0}
Sat P panic = ⊥

module _ {E A : Type 0} (P : A → Type 0) where
  pub Sat-then :
      {B : Type 0} (Q : B → Type 0) (m : Outcome E B) (f : B → Outcome E A)
      → Sat Q m
      → ((b : B) → Q b → Sat P (f b))
      → Sat P (m >>= f)
  Sat-then Q (ok b) f h k = k b h
  Sat-then Q (err e) f h k = tt
  Sat-then Q panic f h k = absurd h

  pub Sat-check :
      (b : Bool) (e : E) (k : Outcome E A) → (b ≡ false → Sat P k) → Sat P (fail_if b e >> k)
  Sat-check true e k h = tt
  Sat-check false e k h = h refl

  pub Sat-at :
      {B : Type 0} (xs : List B) (i : ℕ) (f : B → Outcome E A)
      → i < length xs
      → ((b : B) → get_elem? xs i ≡ some b → Sat P (f b))
      → Sat P (at xs i >>= f)
  Sat-at xs i f h k = let (b, e) = get_elem?-lt xs i h in rw e (k b e)

  pub Sat-slice :
      {B : Type 0} (xs : List B) (lo hi : ℕ) (f : List B → Outcome E A)
      → lo ≤ hi
      → hi ≤ length xs
      → Sat P (f (take (hi - lo) (drop lo xs)))
      → Sat P (slice xs lo hi >>= f)
  Sat-slice xs lo hi f h k s = rw (le→leb lo hi h, le→leb hi (length xs) k) s

pub ok-injective {ℓ κ} :
    {E : Type ℓ} {A : Type κ} {a b : A} → ◌≡◌ {A = Outcome E A} (ok a) (ok b) → a ≡ b
ok-injective e = cc

pub Sat-mono :
    {E A : Type 0} (P Q : A → Type 0)
    → ((a : A) → P a → Q a)
    → (m : Outcome E A) → Sat P m
    → Sat Q m
Sat-mono P Q f (ok a) s = f a s
Sat-mono P Q f (err e) s = tt
Sat-mono P Q f panic s = s

-- A run that ensures `P` and returned a value.
pub Sat-ok : {E A : Type 0} (P : A → Type 0) (m : Outcome E A) (a : A) → Sat P m → m ≡ ok a → P a
Sat-ok P (ok b) a s e = subst P (ok-injective e) s
Sat-ok P (err x) a s e = absurd (cc)
Sat-ok P panic a s e = absurd s

pub Sat-ne-panic : {E A : Type 0} (P : A → Type 0) (m : Outcome E A) → Sat P m → m ≢ panic
Sat-ne-panic P (ok b) s = λ e. cc
Sat-ne-panic P (err x) s = λ e. cc
Sat-ne-panic P panic s = λ e. s

-- `fmt.Errorf("…: %w", err)`
abbrev pub wrap_err {ℓ κ μ} :
    {E : Type ℓ} {F : Type κ} {A : Type μ} → (E → F) → Outcome E A → Outcome F A
wrap_err w (ok a) = ok a
wrap_err w (err e) = err (w e)
wrap_err w panic = panic

-- What a run ensures of the value that it returns; it may also fail or panic.
abbrev pub Returns {ℓ} : {E A : Type ℓ} → (A → Type 0) → Outcome E A → Type 0
Returns P (ok a) = P a
Returns P (err e) = Unit {0}
Returns P panic = Unit {0}

pub Sat-Returns : {E A : Type 0} (P : A → Type 0) (m : Outcome E A) → Sat P m → Returns P m
Sat-Returns P (ok a) s = s
Sat-Returns P (err e) s = tt
Sat-Returns P panic s = tt

pub Returns-ok :
    {E A : Type 0} (P : A → Type 0) (m : Outcome E A) (a : A) → Returns P m → m ≡ ok a → P a
Returns-ok P (ok b) a s e = subst P (ok-injective e) s
Returns-ok P (err x) a s e = absurd (cc)
Returns-ok P panic a s e = absurd (cc)

pub Returns-then :
    {E A B : Type 0} (Q : B → Type 0) (P : A → Type 0) (m : Outcome E B) (f : B → Outcome E A)
    → Returns Q m
    → ((b : B) → Q b → Returns P (f b))
    → Returns P (m >>= f)
Returns-then Q P (ok b) f h k = k b h
Returns-then Q P (err e) f h k = tt
Returns-then Q P panic f h k = tt

pub Returns-wrap_err :
    {E F A : Type 0} (P : A → Type 0) (w : E → F) (m : Outcome E A)
    → Returns P m
    → Returns P (wrap_err w m)
Returns-wrap_err P w (ok a) h = h
Returns-wrap_err P w (err e) h = tt
Returns-wrap_err P w panic h = tt

pub anything : {E A : Type 0} (m : Outcome E A) → Returns (λ (a : A). Unit {0}) m
anything (ok a) = tt
anything (err e) = tt
anything panic = tt

pub Returns-any :
    {E A B : Type 0} (P : A → Type 0) (m : Outcome E B) (f : B → Outcome E A)
    → ((b : B) → Returns P (f b))
    → Returns P (m >>= f)
Returns-any P m f k = Returns-then (λ b. Unit {0}) P m f (anything m) (λ b _. k b)
