-- ===== src/Base/Float.antt =====
-- The program's floats: a type with the operations that the code calls. Nothing is assumed of them
-- here; a theorem that needs laws takes them as a record, and says so.
pub mod Exact
use Prim.Native.Nat.{ℕ}
use mathlib.Core.Path.{◌≡◌}
use mathlib.Core.Logic.{◌⊎◌}
use mathlib.Core.Bool.{Bool, true, false, not}
use robo_trade.Base.Tests.{if◌then◌else◌}

pub record Float {ℓ} (F : Type ℓ) : Type ℓ where
  -- The literal `n / d`: `ratio 5 1000` is `0.005`.
  pub ratio : ℕ → ℕ → F
  pub plus : F → F → F
  pub minus : F → F → F
  pub times : F → F → F
  pub divide : F → F → F
  pub negate : F → F
  -- `**`.
  pub power : F → F → F
  -- `<=`, `<` and `==`.
  pub le : F → F → Bool
  pub lt : F → F → Bool
  pub same : F → F → Bool
  -- `math.floor` and `math.ceil`, `round(x, 2)` and `round(x, 6)`.
  pub floor : F → F
  pub ceil : F → F
  pub round_cents : F → F
  pub round_micro : F → F
  -- `round(x)` of a number that is not negative.
  pub round_whole : F → ℕ

module _ {ℓ} {F : Type ℓ} ⦃f : Float F⦄ where
  infixl 65 ◌⊕◌ ◌⊖◌
  infixl 70 ◌⊗◌ ◌⊘◌
  abbrev pub ◌⊕◌ : F → F → F
  ◌⊕◌ = f.plus

  abbrev pub ◌⊖◌ : F → F → F
  ◌⊖◌ = f.minus

  abbrev pub ◌⊗◌ : F → F → F
  ◌⊗◌ = f.times

  abbrev pub ◌⊘◌ : F → F → F
  ◌⊘◌ = f.divide

  abbrev pub ratio : ℕ → ℕ → F
  ratio = f.ratio

  abbrev pub le : F → F → Bool
  le = f.le

  abbrev pub lt : F → F → Bool
  lt = f.lt

  abbrev pub zero_float : F
  zero_float = f.ratio 0 1

  abbrev pub one_float : F
  one_float = f.ratio 1 1

  -- The truth of a number.
  abbrev pub nonzero : F → Bool
  nonzero a = not (f.same a zero_float)

  -- Python's `max(a, b)` and `min(a, b)`: the first one, unless the second is beyond it.
  abbrev pub max_float : F → F → F
  max_float a b = if f.lt a b then b else a

  abbrev pub min_float : F → F → F
  min_float a b = if f.lt b a then b else a

  abbrev pub abs_float : F → F
  abs_float a = if f.lt a zero_float then f.negate a else a

  infix 4 ◌≼◌
  abbrev pub ◌≼◌ : F → F → Type 0
  a ≼ b = f.le a b ≡ true

-- The order of the floats that are numbers.
pub record IsOrdered {ℓ} (F : Type ℓ) ⦃f : Float F⦄ : Type ℓ where
  pub le_refl : (a : F) → a ≼ a
  pub le_trans : (a b c : F) → a ≼ b → b ≼ c → a ≼ c
  pub lt-eq-not-le : (a b : F) → f.lt a b ≡ not (f.le b a)
  pub le_total : (a b : F) → (a ≼ b) ⊎ (b ≼ a)
