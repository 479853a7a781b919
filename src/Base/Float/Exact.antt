-- ===== src/Base/Float/Exact.antt =====
-- Exact arithmetic: the laws that the sums and quotients of the program would have with no rounding.
-- A theorem that takes them speaks of the code up to the rounding of floats.
use Prim.Native.Nat.{ℕ, ◌+◌, ◌-◌, ◌*◌, ◌/◌, ◌^◌, ◌≤◌, ◌<◌}
use native.Mathlib.Nat.{
  le_trans, le_of_eq, div-mul-le_self, le-div_iff_mul-le, mul-le-mul_right, mul-le-mul_left,
  mul-div_left,
}
use native.Mathlib.Omega.{arith}
use mathlib.Core.Path.{◌≡◌, refl}
use mathlib.Core.Bool.{true}
use robo_trade.Base.Tests.{leb, ltb, ◌==◌}
use robo_trade.Base.Float.{Float, IsOrdered, ◌⊕◌, ◌⊖◌, ◌⊗◌, ◌⊘◌, ◌≼◌, zero_float}

pub record IsExact {ℓ} (F : Type ℓ) ⦃f : Float F⦄ : Type ℓ where
  pub order : IsOrdered F
  pub add_cancel : (t c r : F) → c ≼ r → (t ⊕ c) ⊕ (r ⊖ c) ≡ t ⊕ r
  pub le-add : (t r : F) → zero_float ≼ r → t ≼ t ⊕ r
  pub zero_add : (r : F) → zero_float ⊕ r ≡ r
  pub add_zero : (r : F) → r ⊕ zero_float ≡ r
  pub sub_nonneg : (a b : F) → a ≼ b → zero_float ≼ b ⊖ a
  pub times_nonneg : (a p : F) → zero_float ≼ a → zero_float ≼ p → zero_float ≼ a ⊗ p
  pub times_mono : (a b p : F) → a ≼ b → zero_float ≼ p → a ⊗ p ≼ b ⊗ p
  pub divide_mono : (a b p : F) → a ≼ b → f.lt zero_float p ≡ true → a ⊘ p ≼ b ⊘ p
  pub divide_nonneg : (a p : F) → zero_float ≼ a → f.lt zero_float p ≡ true → zero_float ≼ a ⊘ p
  pub divide_times : (a p : F) → f.lt zero_float p ≡ true → (a ⊘ p) ⊗ p ≼ a
  pub times_divide : (a p : F) → f.lt zero_float p ≡ true → (a ⊗ p) ⊘ p ≼ a
  pub floor_le : (a : F) → f.floor a ≼ a
  pub ratio_nonneg : (n d : ℕ) → f.ratio 0 1 ≼ f.ratio n d
  pub ratio_pos : (n d : ℕ) → 0 < d → d ≤ n → f.lt (f.ratio 0 1) (f.ratio n d) ≡ true
  pub add_mono : (a b c : F) → b ≼ c → a ⊕ b ≼ a ⊕ c
  pub times_mono_right : (p a b : F) → a ≼ b → zero_float ≼ p → p ⊗ a ≼ p ⊗ b
  pub times_zero : (a : F) → a ⊗ zero_float ≡ zero_float
  pub zero_divide : (p : F) → f.lt zero_float p ≡ true → zero_float ⊘ p ≡ zero_float
  pub hundred_pos : f.lt (f.ratio 0 1) (f.ratio 100 1) ≡ true

-- The laws can be met: whole numbers, with a difference that stops at zero.
abbrev pub whole : Float ℕ
whole = record {
  ratio = ◌/◌;
  plus = ◌+◌;
  minus = ◌-◌;
  times = ◌*◌;
  divide = ◌/◌;
  negate = λ a. 0;
  power = ◌^◌;
  le = leb;
  lt = ltb;
  same = ◌==◌;
  floor = λ a. a;
  ceil = λ a. a;
  round_cents = λ a. a;
  round_micro = λ a. a;
  round_whole = λ a. a;
}

leb_of_le : (a b : ℕ) → a ≤ b → leb a b ≡ true
leb_of_le a b h = ground arith

le_of_leb : (a b : ℕ) → leb a b ≡ true → a ≤ b
le_of_leb a b h = ground arith

lt_of_ltb : (a b : ℕ) → ltb a b ≡ true → a < b
lt_of_ltb a b h = ground arith

ltb_of_lt : (a b : ℕ) → a < b → ltb a b ≡ true
ltb_of_lt a b h = ground arith

div_mono : (a b p : ℕ) → a ≤ b → 0 < p → a / p ≤ b / p
div_mono a b p h k = (le-div_iff_mul-le k).1 (le_trans (div-mul-le_self a p) h)

ratio_pos : (n d : ℕ) → 0 < d → d ≤ n → ltb 0 (n / d) ≡ true
ratio_pos n d h k = ltb_of_lt 0 (n / d) ((le-div_iff_mul-le h).1 (omega (arith, k)))

div_zero : (p : ℕ) → 0 < p → 0 / p ≡ 0
div_zero p h = grind arith

pub whole-IsExact : IsExact ℕ ⦃f = whole⦄
whole-IsExact = record {
  order = record {
    le_refl = λ a. ground arith;
    le_trans = λ a b c h k. ground arith;
    lt-eq-not-le = λ a b. ground arith;
    le_total = λ a b. ground arith;
  };
  add_cancel = λ t c r h. ground arith;
  le-add = λ t r h. ground arith;
  zero_add = λ r. omega arith;
  add_zero = λ r. omega arith;
  sub_nonneg = λ a b h. ground arith;
  times_nonneg = λ a p h k. ground arith;
  times_mono = λ a b p h k. leb_of_le _ _ (mul-le-mul_right p (le_of_leb a b h));
  divide_mono = λ a b p h k. leb_of_le _ _ (div_mono a b p (le_of_leb a b h) (lt_of_ltb 0 p k));
  divide_nonneg = λ a p h k. ground arith;
  divide_times = λ a p h. leb_of_le _ _ (div-mul-le_self a p);
  times_divide = λ a p h. leb_of_le _ _ (le_of_eq (mul-div_left a (lt_of_ltb 0 p h)));
  floor_le = λ a. ground arith;
  ratio_nonneg = λ n d. ground arith;
  ratio_pos = λ n d h k. ratio_pos n d h k;
  add_mono = λ a b c h. ground arith;
  times_mono_right = λ p a b h k. leb_of_le _ _ (mul-le-mul_left p (le_of_leb a b h));
  times_zero = λ a. omega arith;
  zero_divide = λ p h. div_zero p (lt_of_ltb 0 p h);
  hundred_pos = refl;
}
