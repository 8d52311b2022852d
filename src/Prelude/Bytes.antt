-- ===== src/Prelude/Bytes.antt =====
-- Byte slices as lists of numbers, and the big-endian fields of `encoding/binary`.
use ligend.Prelude.Tests.{◌==◌}
use ligend.Prelude.Outcome.{Outcome, ok, at, ◌>>=◌, Sat, Sat-at}
use ligend.Prelude.Lists.{length, get_elem?, All, get_elem?-All}
use mathlib.Core.Option.{some}
use Prim.Native.Nat.{ℕ, zero, suc, ◌+◌, ◌*◌, ◌/◌, ◌%◌, ◌<◌}
use Prim.Native.Nat.{bit_and, bit_or}
use mathlib.Core.Path.{◌≡◌, refl, ap}
use mathlib.Core.Bool.{Bool, true, ◌&&◌}
use mathlib.Core.List.{List, [], ◌∷◌, ◌++◌}
use native.Mathlib.Omega.{arith}

abbrev pub Bytes : Type 0
Bytes = List ℕ

abbrev pub IsByte : ℕ → Type 0
IsByte b = b < 256

-- `binary.BigEndian.PutUint16`, `PutUint32`, `PutUint64` of a value that is converted first.
abbrev pub put16 : ℕ → Bytes
put16 v = (v / 256 % 256) ∷ (v % 256) ∷ []

abbrev pub put32 : ℕ → Bytes
put32 v = (v / 16777216 % 256) ∷ (v / 65536 % 256) ∷ (v / 256 % 256) ∷ (v % 256) ∷ []

abbrev pub put64 : ℕ → Bytes
put64 v = put32 (v / 4294967296) ++ put32 v

abbrev pub join16 : ℕ → ℕ → ℕ
join16 a b = a * 256 + b

abbrev pub join32 : ℕ → ℕ → ℕ → ℕ → ℕ
join32 a b c d = join16 (join16 a b) c * 256 + d

-- `binary.BigEndian.Uint16(xs[i:i+2])`, `Uint32`, `Uint64`.
abbrev pub uint16 {ℓ} : {E : Type ℓ} → Bytes → ℕ → Outcome E ℕ
uint16 xs i = do a ← at xs i; b ← at xs (i + 1); ok (join16 a b)

abbrev pub uint32 {ℓ} : {E : Type ℓ} → Bytes → ℕ → Outcome E ℕ
uint32 xs i = do
  a ← at xs i
  b ← at xs (i + 1)
  c ← at xs (i + 2)
  d ← at xs (i + 3)
  ok (join32 a b c d)

abbrev pub uint64 {ℓ} : {E : Type ℓ} → Bytes → ℕ → Outcome E ℕ
uint64 xs i = do hi ← uint32 xs i; lo ← uint32 xs (i + 4); ok (hi * 4294967296 + lo)

pub join16-put16 : (v : ℕ) → v < 65536 → join16 (v / 256 % 256) (v % 256) ≡ v
join16-put16 v h = omega arith

pub join16-put16_mod : (v : ℕ) → join16 (v / 256 % 256) (v % 256) ≡ v % 65536
join16-put16_mod v = omega arith

pub join32-put32_mod :
    (v : ℕ)
    → join32 (v / 16777216 % 256) (v / 65536 % 256) (v / 256 % 256) (v % 256) ≡ v % 4294967296
join32-put32_mod v = omega arith

-- `rand.Read(buf)` for a buffer of the given length.
abbrev pub random_bytes : (ℕ → ℕ) → ℕ → Bytes
random_bytes noise zero = []
random_bytes noise (suc n) = noise n ∷ random_bytes noise n

pub length-random_bytes : (noise : ℕ → ℕ) (n : ℕ) → length (random_bytes noise n) ≡ n
length-random_bytes noise zero = refl
length-random_bytes noise (suc n) = ap suc (length-random_bytes noise n)

-- Over a small range, a law of masks is checked at every value.
module _ (f g : ℕ → ℕ) where
  unfoldable pub agree_below : ℕ → Bool
  agree_below zero = true
  agree_below (suc n) = (f n == g n) && agree_below n

  pub agree_below_sound : (n : ℕ) → agree_below n ≡ true → (i : ℕ) → i < n → f i ≡ g i
  unfolding agree_below
  agree_below_sound zero e i h = absurd (omega arith)
  agree_below_sound (suc n) e i h = ground (arith, agree_below_sound n (ground arith) i)

-- `b & 0x0F` is the low nibble.
pub low_nibble : (b : ℕ) → b < 256 → bit_and b 0x0f ≡ b % 16
unfolding agree_below
low_nibble = agree_below_sound _ _ 256 refl

-- `hi << 4 | lo` of two nibbles is their sum.
pub join_nibbles : (b : ℕ) → b < 256 → bit_or (b / 16 * 16) (b % 16) ≡ b
unfolding agree_below
join_nibbles = agree_below_sound _ _ 256 refl

-- What a read in range returns.
abbrev pub Reads16 : Bytes → ℕ → ℕ → Type 0
Reads16 xs i v =
    (a : ℕ) × (b : ℕ) × (get_elem? xs i ≡ some a)
    × (get_elem? xs (i + 1) ≡ some b)
    × (v ≡ join16 a b)

pub uint16-Reads16 :
    (E : Type 0) (xs : Bytes) (i : ℕ) → i + 1 < length xs → Sat (Reads16 xs i) (uint16 {E = E} xs i)
uint16-Reads16 E xs i h =
    let P = Reads16 xs i in
    Sat-at P xs i (λ a. do b ← at xs (i + 1); ok (join16 a b)) (omega arith)
      λ a ea. Sat-at P xs (i + 1) (λ b. ok (join16 a b)) (omega arith) λ b eb. (a, b, ea, eb, refl)

abbrev pub Reads32 : Bytes → ℕ → ℕ → Type 0
Reads32 xs i v =
    (a : ℕ) × (b : ℕ) × (c : ℕ) × (d : ℕ) × (get_elem? xs i ≡ some a)
    × (get_elem? xs (i + 1) ≡ some b)
    × (get_elem? xs (i + 2) ≡ some c)
    × (get_elem? xs (i + 3) ≡ some d)
    × (v ≡ join32 a b c d)

pub uint32-Reads32 :
    (E : Type 0) (xs : Bytes) (i : ℕ) → i + 3 < length xs → Sat (Reads32 xs i) (uint32 {E = E} xs i)
uint32-Reads32 E xs i h =
    let P = Reads32 xs i in
    Sat-at P xs i _ (omega arith) λ a ea. Sat-at P xs (i + 1) _ (omega arith) λ b eb.
      Sat-at P xs (i + 2) _ (omega arith) λ c ec.
        Sat-at P xs (i + 3) (λ d. ok (join32 a b c d)) (omega arith)
          λ d ed. (a, b, c, d, ea, eb, ec, ed, refl)

pub Reads16-lt : (xs : Bytes) (i v : ℕ) → All IsByte xs → Reads16 xs i v → v < 65536
Reads16-lt xs i v bs (a, b, ea, eb, e) =
    omega (arith, get_elem?-All IsByte xs i bs ea, get_elem?-All IsByte xs (i + 1) bs eb)

pub Reads32-lt : (xs : Bytes) (i v : ℕ) → All IsByte xs → Reads32 xs i v → v < 4294967296
Reads32-lt xs i v bs (a, b, c, d, ea, eb, ec, ed, e) = omega (
  arith,
  get_elem?-All IsByte xs i bs ea,
  get_elem?-All IsByte xs (i + 1) bs eb,
  get_elem?-All IsByte xs (i + 2) bs ec,
  get_elem?-All IsByte xs (i + 3) bs ed,
)
