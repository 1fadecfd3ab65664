-- ===== src/Base/Int.antt =====
-- Signed integers over the native numbers, and the `i32` operations that the program uses: tests,
-- checked and saturating sums, and the euclidean division by 32 of chunk coordinates.
use native.Mathlib.Decide.{ℕ_discrete}
use sekai.Base.{
  ℕ, suc, ◌+◌, ◌-◌, ◌*◌, ◌/◌, ◌%◌, ◌^◌, ◌≤◌, ◌≡◌, ◌↔◌, Bool, Option, none, some, ◌&&◌, arith, ltb,
  leb, nat_beq, if◌then◌else◌, Ord, true,
}

-- `negsuc n` is -(n + 1).
pub data ℤ : Type 0 where
  pos : ℕ → ℤ
  negsuc : ℕ → ℤ

abbrev pub pos_part : ℤ → ℕ
pos_part (pos n) = n
pos_part (negsuc n) = 0

abbrev pub neg_part : ℤ → ℕ
neg_part (pos n) = 0
neg_part (negsuc n) = suc n

-- a - b, as an integer.
abbrev pub sub_ℕ : ℕ → ℕ → ℤ
sub_ℕ a b = if leb b a then pos (a - b) else negsuc (b - a - 1)

infixl 65 ◌+ℤ◌ ◌-ℤ◌
infix 50 ◌≤ℤ◌
abbrev pub ◌+ℤ◌ : ℤ → ℤ → ℤ
a +ℤ b = sub_ℕ (pos_part a + pos_part b) (neg_part a + neg_part b)

abbrev pub ◌-ℤ◌ : ℤ → ℤ → ℤ
a -ℤ b = sub_ℕ (pos_part a + neg_part b) (neg_part a + pos_part b)

-- a * k for a positive k
abbrev pub mul_ℕ : ℤ → ℕ → ℤ
mul_ℕ (pos n) k = pos (n * k)
mul_ℕ (negsuc n) k = negsuc (suc n * k - 1)

-- a.div_euclid(k) for a positive k
abbrev pub div_euclid : ℤ → ℕ → ℤ
div_euclid (pos n) k = pos (n / k)
div_euclid (negsuc n) k = negsuc (n / k)

-- a.rem_euclid(k) for a positive k
abbrev pub rem_euclid : ℤ → ℕ → ℕ
rem_euclid (pos n) k = n % k
rem_euclid (negsuc n) k = k - 1 - n % k

abbrev pub ◌≤ℤ◌ : ℤ → ℤ → Type 0
a ≤ℤ b = pos_part a + neg_part b ≤ pos_part b + neg_part a

abbrev pub leb_ℤ : ℤ → ℤ → Bool
leb_ℤ a b = leb (pos_part a + neg_part b) (pos_part b + neg_part a)

abbrev pub ltb_ℤ : ℤ → ℤ → Bool
ltb_ℤ a b = ltb (pos_part a + neg_part b) (pos_part b + neg_part a)

abbrev pub beq_ℤ : ℤ → ℤ → Bool
beq_ℤ a b = nat_beq (pos_part a + neg_part b) (pos_part b + neg_part a)

pub beq_ℤ_iff : (a b : ℤ) → (beq_ℤ a b ≡ true) ↔ (a ≡ b)
beq_ℤ_iff a b = ground arith

instance abbrev pub int_ord : Ord ℤ
int_ord = record { beq = beq_ℤ; beq_iff = beq_ℤ_iff; blt = ltb_ℤ }

abbrev pub i32_max : ℤ
i32_max = pos (2 ^ 31 - 1)

abbrev pub i32_min : ℤ
i32_min = negsuc (2 ^ 31 - 1)

abbrev pub InI32 : ℤ → Type 0
InI32 a = (i32_min ≤ℤ a) × (a ≤ℤ i32_max)

abbrev pub in_i32 : ℤ → Bool
in_i32 a = leb_ℤ i32_min a && leb_ℤ a i32_max

-- `checked_*`: `None` on overflow
abbrev pub checked : ℤ → Option ℤ
checked a = if in_i32 a then some a else none

-- `saturating_*`
abbrev pub saturated : ℤ → ℤ
saturated a = if ltb_ℤ i32_max a then i32_max else if ltb_ℤ a i32_min then i32_min else a

pub int_discrete : Discrete ℤ
int_discrete = hlevel ℕ_discrete
