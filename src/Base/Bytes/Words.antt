-- ===== src/Base/Bytes/Words.antt =====
-- Big-endian 32-bit words and the bit operations on them.
use Prim.Native.Nat.{bit_or, digits, bit_or-bitwise, max}
use native.Mathlib.Nat.{pow-suc, mul-one, mul_assoc}
use sekai.Base.{
  sym, ◌∙◌, ℕ, zero, suc, ◌+◌, ◌*◌, ◌/◌, ◌%◌, ◌^◌, ◌≤◌, ◌<◌, ◌≡◌, refl, List, [], ◌∷◌, arith, All,
  length,
}

abbrev pub AllBytes : List ℕ → Type 0
AllBytes = All (λ b. b < 256)

-- `u32::to_be_bytes`
unfoldable pub to_be_bytes : ℕ → List ℕ
to_be_bytes n = n / 2 ^ 24 % 256 ∷ n / 2 ^ 16 % 256 ∷ n / 2 ^ 8 % 256 ∷ n % 256 ∷ []

-- `u32::from_be_bytes`, of four bytes
unfoldable pub from_be_bytes : List ℕ → ℕ
from_be_bytes (a ∷ b ∷ c ∷ d ∷ _) = a * 2 ^ 24 + b * 2 ^ 16 + c * 2 ^ 8 + d
from_be_bytes _ = 0

pub length-to_be_bytes : (n : ℕ) → length (to_be_bytes n) ≡ 4
unfolding to_be_bytes
length-to_be_bytes n = refl

pub from_be_bytes-to_be_bytes : (n : ℕ) → n < 2 ^ 32 → from_be_bytes (to_be_bytes n) ≡ n
unfolding to_be_bytes from_be_bytes
from_be_bytes-to_be_bytes n h = omega arith

-- The law of `bit_or` for the lowest digit, from the definition that the native operation has.
abbrev or_digits : ℕ → ℕ → ℕ → ℕ
or_digits n a b = digits (λ b. b) max n a b

zero-bit_or : (b : ℕ) → bit_or 0 b ≡ b
zero-bit_or b = bit_or-bitwise 0 b

zero_digits : (j b : ℕ) → b ≡ or_digits j 0 b
zero_digits zero b = refl
zero_digits (suc j) b = refl

or_digits_fuel : (i j a b : ℕ) → a ≤ i → a ≤ j → or_digits i a b ≡ or_digits j a b
or_digits_fuel zero j zero b le le2 = zero_digits j b
or_digits_fuel (suc i) j zero b le le2 = zero_digits j b
or_digits_fuel zero j (suc a) b le le2 = absurd (omega arith)
or_digits_fuel (suc i) zero (suc a) b le le2 = absurd (omega arith)
or_digits_fuel (suc i) (suc j) (suc a) b le le2 =
    omega (arith, or_digits_fuel i j (suc a / 2) (b / 2) (omega arith) (omega arith))

bit_or_step : (a b : ℕ) → bit_or a b ≡ bit_or (a / 2) (b / 2) * 2 + max (a % 2) (b % 2)
bit_or_step zero b = omega (arith, zero-bit_or b, zero-bit_or (b / 2))
bit_or_step (suc a) b = omega (
  arith,
  bit_or-bitwise (suc a) b,
  bit_or-bitwise (suc a / 2) (b / 2),
  or_digits_fuel a (suc a / 2) (suc a / 2) (b / 2) (omega arith) (omega arith),
)

bit_or_zero_fuel : (n a : ℕ) → a ≤ n → bit_or a 0 ≡ a
bit_or_zero_fuel n zero h = refl
bit_or_zero_fuel zero (suc a) h = absurd (omega arith)
bit_or_zero_fuel (suc n) (suc a) h =
    omega (arith, bit_or_step (suc a) 0, bit_or_zero_fuel n (suc a / 2) (omega arith))

bit_or_double : (a b : ℕ) → bit_or (a * 2) b ≡ bit_or a (b / 2) * 2 + b % 2
bit_or_double a b =
    let half : a * 2 / 2 ≡ a = omega arith in
    let step = rw half at (bit_or_step (a * 2) b) in omega arith

-- Bits that do not overlap are added.
pub or_shifted : (k a b : ℕ) → b < 2 ^ k → bit_or (a * 2 ^ k) b ≡ a * 2 ^ k + b
or_shifted zero a zero h = rw mul-one (bit_or_zero_fuel a a (omega arith) ∙ omega arith)
or_shifted zero a (suc b) h = absurd (omega arith)
or_shifted (suc k) a b h =
    let twice : a * 2 ^ suc k ≡ a * 2 ^ k * 2 = rw pow-suc (sym (mul_assoc a (2 ^ k) 2)) in
    let below : b < 2 * 2 ^ k = omega (arith, pow-suc 2 k) in
    rw (twice, bit_or_double) (omega (arith, or_shifted k a (b / 2) (omega arith)))

pub bit_or_byte : (a b : ℕ) → b < 256 → bit_or (a * 256) b ≡ a * 256 + b
bit_or_byte a b h = or_shifted 8 a b h
