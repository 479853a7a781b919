-- ===== src/Base/Int.antt =====
-- Integers over the native numbers, and the floats that are whole numbers: a type at which the code can
-- be run, and whose order has the laws of `IsOrdered`.
use Prim.Native.Nat.{ℕ, suc, ◌+◌, ◌-◌, ◌*◌, ◌/◌, ◌^◌}
use mathlib.Core.Bool.{Bool}
use native.Mathlib.Omega.{arith}
use robo_trade.Base.Tests.{ltb, leb, ◌==◌, if◌then◌else◌}
use robo_trade.Base.Float.{Float, IsOrdered}

-- `negsuc n` is -(n + 1).
pub data ℤ : Type 0 where
  pos : ℕ → ℤ
  negsuc : ℕ → ℤ

abbrev pub pos_part : ℤ → ℕ
pos_part (pos n) = n
pos_part (negsuc n) = 0

abbrev pub neg_part : ℤ → ℕ
neg_part (pos n) = 0
neg_part (negsuc n) = suc n

abbrev pub sub_ℕ : ℕ → ℕ → ℤ
sub_ℕ a b = if leb b a then pos (a - b) else negsuc (b - a - 1)

abbrev pub add_ℤ : ℤ → ℤ → ℤ
add_ℤ a b = sub_ℕ (pos_part a + pos_part b) (neg_part a + neg_part b)

abbrev pub sub_ℤ : ℤ → ℤ → ℤ
sub_ℤ a b = sub_ℕ (pos_part a + neg_part b) (neg_part a + pos_part b)

abbrev pub mul_ℤ : ℤ → ℤ → ℤ
mul_ℤ a b =
    sub_ℕ (pos_part a * pos_part b + neg_part a * neg_part b)
      (pos_part a * neg_part b + neg_part a * pos_part b)

-- The quotient towards minus infinity, by a positive divisor.
abbrev pub div_ℤ : ℤ → ℤ → ℤ
div_ℤ (pos n) (pos d) = pos (n / d)
div_ℤ (negsuc n) (pos (suc d)) = negsuc (n / suc d)
div_ℤ a b = pos 0

abbrev pub le_ℤ : ℤ → ℤ → Bool
le_ℤ a b = leb (pos_part a + neg_part b) (pos_part b + neg_part a)

abbrev pub lt_ℤ : ℤ → ℤ → Bool
lt_ℤ a b = ltb (pos_part a + neg_part b) (pos_part b + neg_part a)

abbrev pub eq_ℤ : ℤ → ℤ → Bool
eq_ℤ a b = (pos_part a + neg_part b) == (pos_part b + neg_part a)

instance abbrev pub whole_float : Float ℤ
whole_float = record {
  ratio = λ n d. pos (n / d);
  plus = add_ℤ;
  minus = sub_ℤ;
  times = mul_ℤ;
  divide = div_ℤ;
  negate = sub_ℤ (pos 0);
  power = λ a b. pos (pos_part a ^ pos_part b);
  le = le_ℤ;
  lt = lt_ℤ;
  same = eq_ℤ;
  floor = λ a. a;
  ceil = λ a. a;
  round_cents = λ a. a;
  round_micro = λ a. a;
  round_whole = pos_part;
}

pub whole-IsOrdered : IsOrdered ℤ
whole-IsOrdered = record {
  le_refl = λ a. ground arith;
  le_trans = λ a b c h k. ground arith;
  lt-eq-not-le = λ a b. ground arith;
  le_total = λ a b. ground arith;
}
