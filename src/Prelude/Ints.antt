-- ===== src/Prelude/Ints.antt =====
-- Signed integers over the native numbers, and the operations of `i64` and `i128` that the source uses.
use Prim.Native.Nat.{ℕ, ◌+◌, ◌-◌, min}
use mathlib.Core.Path.{◌≡◌}
use mathlib.Core.Bool.{Bool, true, false}
use native.Mathlib.Omega.{arith}
use dashboard_quip_network.Prelude.Tests.{leb, ltb, if◌then◌else◌}

-- `negsuc n` is `-(n + 1)`.
pub data ℤ : Type 0 where
  pos : ℕ → ℤ
  negsuc : ℕ → ℤ

abbrev pub i64_max : ℕ
i64_max = 9223372036854775807

abbrev pub leb_int : ℤ → ℤ → Bool
leb_int (pos a) (pos b) = leb a b
leb_int (pos a) (negsuc b) = false
leb_int (negsuc a) (pos b) = true
leb_int (negsuc a) (negsuc b) = leb b a

-- `a.min(b)`
abbrev pub min_int : ℤ → ℤ → ℤ
min_int a b = if leb_int a b then a else b

-- `unsigned_abs`
abbrev pub unsigned_abs : ℤ → ℕ
unsigned_abs (pos n) = n
unsigned_abs (negsuc n) = n + 1

-- Whether an integer is an `i64`.
abbrev pub is_i64 : ℤ → Bool
is_i64 (pos n) = leb n i64_max
is_i64 (negsuc n) = leb n i64_max

infixl 65 ◌+ℤ◌
abbrev pub ◌+ℤ◌ : ℤ → ℤ → ℤ
pos a +ℤ pos b = pos (a + b)
pos a +ℤ negsuc b = if ltb b a then pos (a - b - 1) else negsuc (b - a)
negsuc a +ℤ pos b = if ltb a b then pos (b - a - 1) else negsuc (a - b)
negsuc a +ℤ negsuc b = negsuc (a + b + 1)

-- The nearest `i64`.
abbrev pub clamp_i64 : ℤ → ℤ
clamp_i64 (pos n) = pos (min n i64_max)
clamp_i64 (negsuc n) = negsuc (min n i64_max)

abbrev pub saturating_add_i64 : ℤ → ℤ → ℤ
saturating_add_i64 a b = clamp_i64 (a +ℤ b)

pub leb_int_refl : (a : ℤ) → leb_int a a ≡ true
leb_int_refl a = ground arith

pub leb_int_trans : (a b c : ℤ) → leb_int a b ≡ true → leb_int b c ≡ true → leb_int a c ≡ true
leb_int_trans a b c p q = ground arith

pub leb_int_total : (a b : ℤ) → leb_int a b ≡ false → leb_int b a ≡ true
leb_int_total a b p = ground arith
