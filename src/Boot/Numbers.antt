-- ===== src/Boot/Numbers.antt =====
-- Numbers as texts and back: `strconv.Itoa` and `strconv.Atoi`.
use ligend.Prelude.{
  ℕ, zero, suc, ◌+◌, ◌*◌, ◌-◌, ◌/◌, ◌%◌, ◌^◌, ◌≤◌, ◌<◌, ◌==◌, ◌≡◌, refl, ap, ◌∙◌, true, false,
  Bool-cases, inl, inr, [], ◌∷◌, some, ltb, arith,
}
use mathlib.Core.Path.{subst}
use ligend.Prelude.Bytes.{Bytes}
use ligend.Prelude.Texts.{pos}
use ligend.Panel.Clients.{is_digit, digits_from, atoi}
use ligend.Boot.{digits_of, itoa}

digits_from-digit :
    (acc d : ℕ) (rest : Bytes)
    → d < 10
    → digits_from acc ((b'0' + d) ∷ rest) ≡ digits_from (acc * 10 + d) rest
digits_from-digit acc d rest h =
    let is : is_digit (b'0' + d) ≡ true = ground arith in
    let same : acc * 10 + (b'0' + d - b'0') ≡ acc * 10 + d = omega arith in rw (is, same) refl

-- What stands before the rest is read as the number.
digits_from-digits_of :
    (fuel n : ℕ) (rest : Bytes)
    → n < fuel
    → digits_from 0 (digits_of fuel n rest) ≡ digits_from n rest
digits_from-digits_of zero n rest h = absurd (omega arith)
digits_from-digits_of (suc fuel) n rest h = elim (Bool-cases (ltb n 10)) [
  | inl small ↦
      rw small (
        digits_from-digit 0 n rest (ground arith)
        ∙ ap (λ (k : ℕ). digits_from k rest) (omega arith))
  | inr large ↦
      let big : 10 ≤ n = ground arith in
      rw large (
        digits_from-digits_of fuel (n / 10) ((b'0' + n % 10) ∷ rest) (omega arith)
        ∙ digits_from-digit (n / 10) (n % 10) rest (omega arith)
        ∙ ap (λ (k : ℕ). digits_from k rest) (omega arith))
]

-- The text begins with a digit.
digits_of-first :
    (fuel n : ℕ) (rest : Bytes)
    → n < fuel
    → (c : ℕ) × (cs : Bytes) × (digits_of fuel n rest ≡ c ∷ cs) × (b'0' ≤ c)
digits_of-first zero n rest h = absurd (omega arith)
digits_of-first (suc fuel) n rest h = elim (Bool-cases (ltb n 10)) [
  | inl small ↦ (b'0' + n, rest, rw small refl, omega arith)
  | inr large ↦
      let big : 10 ≤ n = ground arith in
      rw large (digits_of-first fuel (n / 10) ((b'0' + n % 10) ∷ rest) (omega arith))
]

atoi_unsigned :
    (c : ℕ) (cs : Bytes) (n : ℕ)
    → b'0' ≤ c
    → digits_from 0 (c ∷ cs) ≡ some n
    → n < 2 ^ 63
    → atoi (c ∷ cs) ≡ some (pos n)
unfolding atoi
atoi_unsigned c cs n h e small =
    let no_minus : (c == b'-') ≡ false = ground arith in
    let no_plus : (c == b'+') ≡ false = ground arith in
    let fits : ltb n (2 ^ 63) ≡ true = ground arith in rw (no_minus, no_plus, e, fits) refl

atoi_digits :
    (text : Bytes) (c : ℕ) (cs : Bytes) (n : ℕ)
    → text ≡ c ∷ cs
    → b'0' ≤ c
    → digits_from 0 text ≡ some n
    → n < 2 ^ 63
    → atoi text ≡ some (pos n)
atoi_digits text c cs n e digit value small =
    rw e (atoi_unsigned c cs n digit (subst (λ t. digits_from 0 t ≡ some n) e value) small)

pub atoi-itoa : (n : ℕ) → n < 2 ^ 63 → atoi (itoa n) ≡ some (pos n)
unfolding itoa
atoi-itoa n small =
    let (c, cs, e, digit) = digits_of-first (suc n) n [] (omega arith) in
    atoi_digits (digits_of (suc n) n []) c cs n e digit
      (digits_from-digits_of (suc n) n [] (omega arith)) small

-- The text of a number is not empty.
pub itoa_nonempty : (n : ℕ) → (c : ℕ) × (cs : Bytes) × (itoa n ≡ c ∷ cs)
unfolding itoa
itoa_nonempty n = let (c, cs, e, digit) = digits_of-first (suc n) n [] (omega arith) in (c, cs, e)
