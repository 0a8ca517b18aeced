-- ===== src/Base/Int.antt =====
-- Signed integers over the native numbers, with the wrap-around and the bounds of `i128` and `i64`.
use Prim.Native.Nat.{ℕ, suc, ◌+◌, ◌-◌, ◌/◌, ◌%◌, ◌≤◌}
use mathlib.Core.Path.{◌≡◌}
use mathlib.Core.Bool.{Bool}
use native.Mathlib.Omega.{arith}
use sedsnet.Base.Tests.{if◌then◌else◌, ltb, leb}

-- `negsuc n` is -(n + 1).
pub data ℤ : Type 0 where
  pos : ℕ → ℤ
  negsuc : ℕ → ℤ

abbrev pub pos_part : ℤ → ℕ
pos_part (pos n) = n
pos_part (negsuc n) = 0

abbrev pub neg_part : ℤ → ℕ
neg_part (pos n) = 0
neg_part (negsuc n) = suc n

-- a - b, as an integer.
abbrev pub sub_ℕ : ℕ → ℕ → ℤ
sub_ℕ a b = if leb b a then pos (a - b) else negsuc (b - a - 1)

infixl 65 ◌+ℤ◌ ◌-ℤ◌
infix 50 ◌≤ℤ◌
unfoldable pub ◌+ℤ◌ : ℤ → ℤ → ℤ
a +ℤ b = sub_ℕ (pos_part a + pos_part b) (neg_part a + neg_part b)

unfoldable pub ◌-ℤ◌ : ℤ → ℤ → ℤ
a -ℤ b = sub_ℕ (pos_part a + neg_part b) (neg_part a + pos_part b)

abbrev pub ◌≤ℤ◌ : ℤ → ℤ → Type 0
a ≤ℤ b = pos_part a + neg_part b ≤ pos_part b + neg_part a

abbrev pub ltb_ℤ : ℤ → ℤ → Bool
ltb_ℤ a b = ltb (pos_part a + neg_part b) (pos_part b + neg_part a)

-- `i128::MAX` is `i128_max`, and `i128::MIN` is -(`i128_max` + 1).
abbrev pub i128_max : ℕ
i128_max = 0x7fff_ffff_ffff_ffff_ffff_ffff_ffff_ffff

-- What the saturating operations of `i128` do with an exact result.
unfoldable pub saturate : ℤ → ℤ
saturate (pos n) = if leb n i128_max then pos n else pos i128_max
saturate (negsuc n) = if leb n i128_max then negsuc n else negsuc i128_max

-- `/ n` of the signed types, which rounds towards 0.
abbrev pub div_trunc : ℤ → ℕ → ℤ
div_trunc (pos a) n = pos (a / n)
div_trunc (negsuc a) n = sub_ℕ 0 (suc a / n)

-- `as u64` and `as i64` keep the 64 low bits.
abbrev pub low_bits : ℤ → ℕ
low_bits (pos a) = a % 0x1_0000_0000_0000_0000
low_bits (negsuc a) = 0xffff_ffff_ffff_ffff - a % 0x1_0000_0000_0000_0000

abbrev pub as_i64 : ℤ → ℤ
as_i64 a =
    let bits = low_bits a in
    if leb 0x8000_0000_0000_0000 bits then sub_ℕ bits 0x1_0000_0000_0000_0000 else pos bits

pub sum_parts :
    (a b : ℤ)
    → pos_part (a +ℤ b) + neg_part a + neg_part b ≡ neg_part (a +ℤ b) + pos_part a + pos_part b
unfolding ◌+ℤ◌
sum_parts a b = ground arith

pub difference_parts :
    (a b : ℤ)
    → pos_part (a -ℤ b) + neg_part a + pos_part b ≡ neg_part (a -ℤ b) + pos_part a + neg_part b
unfolding ◌-ℤ◌
difference_parts a b = ground arith

pub eq_of_parts : (a b : ℤ) → pos_part a + neg_part b ≡ pos_part b + neg_part a → a ≡ b
eq_of_parts a b h = ground arith

pub sum_within :
    (a b : ℤ)
    → (pos_part (a +ℤ b) ≤ pos_part a + pos_part b) × (neg_part (a +ℤ b) ≤ neg_part a + neg_part b)
unfolding ◌+ℤ◌
sum_within a b = ground arith

pub difference_within :
    (a b : ℤ)
    → (pos_part (a -ℤ b) ≤ pos_part a + neg_part b) × (neg_part (a -ℤ b) ≤ neg_part a + pos_part b)
unfolding ◌-ℤ◌
difference_within a b = ground arith

pub sign_of_difference :
    (a b : ℤ) → (b ≤ℤ a → neg_part (a -ℤ b) ≡ 0) × (a ≤ℤ b → pos_part (a -ℤ b) ≡ 0)
unfolding ◌-ℤ◌
sign_of_difference a b = ((λ h. ground arith), (λ h. ground arith))

pub ruleset int_laws = (arith, sum_parts, difference_parts, sum_within, difference_within)
