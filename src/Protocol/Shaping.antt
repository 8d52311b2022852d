-- ===== src/Protocol/Shaping.antt =====
-- server/internal/protocol/batch.go and padding.go: packet sizes and delays that hide the traffic's
-- pattern. `draw` is what the random source holds: `rand.Intn(n)` answers with it modulo `n`, and
-- panics where `n` is not positive.
use ligend.Prelude.{
  ℕ, ◌+◌, ◌-◌, ◌%◌, ◌≤◌, ◌<◌, ◌≡◌, ◌↔◌, refl, sym, ◌∙◌, ◌⊎◌, inl, inr, List, [], ◌∷◌, leb, ltb, All,
  Bool-cases, if◌then◌else◌, arith,
}
use mathlib.Core.Path.{subst}
use mathlib.Core.Bool.{◌&&◌, true}
use Prim.Native.Nat.{◌*◌, ◌^◌}
use ligend.Prelude.Texts.{ℤ, pos, negsuc}
use ligend.Prelude.Outcome.{Outcome, ok, panic, ◌>>=◌}

abbrev pub standard_sizes : List ℕ
standard_sizes = 128 ∷ 256 ∷ 512 ∷ 1024 ∷ 1460 ∷ 2048 ∷ 4096 ∷ 8192 ∷ 16384 ∷ []

abbrev pub first_fitting : ℕ → List ℕ → ℕ
first_fitting size [] = size
first_fitting size (s ∷ rest) = if leb size s then s else first_fitting size rest

unfoldable pub normalize_size : ℕ → ℕ
normalize_size size = first_fitting size standard_sizes

-- `min + rand.Intn(max-min+1)` with Go's integers: the argument is positive if `min < max + 1` and
-- the number of values fits 63 bits.
unfoldable pub draw_between : ℕ → ℕ → ℕ → Outcome ⊥ ℕ
draw_between draw lo hi =
    if ltb lo (hi + 1) && ltb (hi + 1 - lo) (2 ^ 63) then ok (lo + draw % (hi + 1 - lo)) else panic

-- `time.Duration(delay) * time.Second`: a product of 64-bit signed integers, in nanoseconds.
abbrev pub duration_of_seconds : ℕ → ℤ
duration_of_seconds delay =
    let bits = delay * 1000000000 % 2 ^ 64 in
    if ltb bits (2 ^ 63) then pos bits else negsuc (2 ^ 64 - bits - 1)

-- The timer of the padding generator before its next frame; one that is not positive fires at once.
unfoldable pub padding_delay : ℕ → ℕ → ℕ → Outcome ⊥ ℤ
unfolding draw_between
padding_delay draw min_delay max_delay = do
  delay ← draw_between draw min_delay max_delay
  ok (duration_of_seconds delay)

-- In seconds.
unfoldable pub random_keepalive_interval : ℕ → ℕ → ℕ → ℕ
random_keepalive_interval draw min_sec max_sec =
    if leb max_sec min_sec then min_sec else min_sec + draw % (max_sec - min_sec + 1)

abbrev pub Elem : ℕ → List ℕ → Type 0
Elem n [] = ⊥
Elem n (x ∷ xs) = (n ≡ x) ⊎ Elem n xs

abbrev Ascending : List ℕ → Type 0
Ascending [] = Unit
Ascending (x ∷ xs) = All (λ y. x ≤ y) xs × Ascending xs

le-first_fitting : (n : ℕ) (sizes : List ℕ) → n ≤ first_fitting n sizes
le-first_fitting n [] = omega arith
le-first_fitting n (x ∷ xs) = ground (arith, le-first_fitting n xs)

first_fitting-Elem :
    (n : ℕ) (sizes : List ℕ)
    → Elem (first_fitting n sizes) sizes ⊎ ((first_fitting n sizes ≡ n) × All (λ y. y < n) sizes)
first_fitting-Elem n [] = inr (refl, tt)
first_fitting-Elem n (x ∷ xs) = elim (Bool-cases (leb n x)) [
  | inl fits ↦ rw fits (inl (inl refl))
  | inr above ↦
      let next : first_fitting n (x ∷ xs) ≡ first_fitting n xs = rw above in
      elim (first_fitting-Elem n xs) [
        | inl e ↦ inl (inr (subst (λ k. Elem k xs) (sym next) e))
        | inr (e, all) ↦ inr (next ∙ e, (ground arith, all))
      ]
]

Elem-All : (m : ℕ) (P : ℕ → Type 0) (sizes : List ℕ) → All P sizes → Elem m sizes → P m
Elem-All m P [] all e = absurd e
Elem-All m P (x ∷ xs) all (inl e) = rw e all.0
Elem-All m P (x ∷ xs) all (inr e) = Elem-All m P xs all.1 e

first_fitting-least :
    (n m : ℕ) (sizes : List ℕ) → Ascending sizes → Elem m sizes → n ≤ m → first_fitting n sizes ≤ m
first_fitting-least n m [] up e h = absurd e
first_fitting-least n m (x ∷ xs) up (inl e) h = ground arith
first_fitting-least n m (x ∷ xs) up (inr e) h =
    ground (arith, Elem-All m (λ y. x ≤ y) xs up.0 e, first_fitting-least n m xs up.1 e h)

-- A size up to 16384 becomes the least standard size that holds it, and a larger one stays.
pub normalize_size-least :
    (n : ℕ)
    → (n ≤ 16384
        → Elem (normalize_size n) standard_sizes
          × (n ≤ normalize_size n)
          × ((m : ℕ) → Elem m standard_sizes → n ≤ m → normalize_size n ≤ m))
      × (16384 < n → normalize_size n ≡ n)
unfolding normalize_size
normalize_size-least n = elim (first_fitting-Elem n standard_sizes) [
  | inl e ↦ (
    λ h. (e, le-first_fitting n standard_sizes, least),
    λ h. absurd (
        omega (
          arith,
          le-first_fitting n standard_sizes,
          Elem-All _ (λ y. y ≤ 16384) standard_sizes (omega arith) e,
        )),
  )
  | inr (e, all) ↦ (λ h. absurd (omega arith), λ h. e)
]
  where
    least : (m : ℕ) → Elem m standard_sizes → n ≤ m → first_fitting n standard_sizes ≤ m
    least m e h = first_fitting-least n m standard_sizes (omega arith) e h

exact_duration : (d : ℕ) → d ≤ 9223372036 → duration_of_seconds d ≡ pos (d * 1000000000)
exact_duration d h = ground arith

wrapped_duration :
    (d : ℕ) → 9223372037 ≤ d → d ≤ 18446744073 → (m : ℕ) × (duration_of_seconds d ≡ negsuc m)
wrapped_duration d lo hi = (2 ^ 64 - d * 1000000000 - 1, ground arith)

-- The padding generator's timer lies within its bounds if they are in order and no more than 9223372036
-- seconds; it is negative for all bounds in the range above; and the generator panics exactly if the
-- lower bound exceeds the upper.
pub padding_delay-range :
    (draw lo hi : ℕ)
    → 0 < lo
    → hi < 9223372036854775808
    → (lo ≤ hi
        → hi ≤ 9223372036
        → (d : ℕ) × (padding_delay draw lo hi ≡ ok (pos (d * 1000000000))) × (lo ≤ d) × (d ≤ hi))
      × (lo ≤ hi
          → 9223372037 ≤ lo
          → hi ≤ 18446744073
          → (m : ℕ) × (padding_delay draw lo hi ≡ ok (negsuc m)))
      × ((padding_delay draw lo hi ≡ panic) ↔ (hi < lo))
unfolding padding_delay draw_between
padding_delay-range draw lo hi low high = (
  λ h small.
      let e : (ltb lo (hi + 1) && ltb (hi + 1 - lo) (2 ^ 63)) ≡ true = ground arith in
      (drawn, rw (e, exact_duration drawn (omega (arith, below h))) refl, omega arith, below h),
  λ h far near.
      let e : (ltb lo (hi + 1) && ltb (hi + 1 - lo) (2 ^ 63)) ≡ true = ground arith in
      let (m, wrapped) = wrapped_duration drawn (omega arith) (omega (arith, below h)) in
      (m, rw (e, wrapped) refl),
  (λ e. ground arith, λ h. ground arith),
)
  where
    drawn : ℕ
    drawn = lo + draw % (hi + 1 - lo)

    below : lo ≤ hi → drawn ≤ hi
    below h = ground arith
