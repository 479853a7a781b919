-- ===== src/Portfolio/Tests.antt =====
-- The older allocator at concrete signals, over whole numbers.
use native.Mathlib.Nat.{div-eq_of_lt}
use robo_trade.Base.{ℕ, ◌*◌, ◌/◌, ◌≤◌, ◌<◌, ◌≡◌, refl, true, none, some, [], ◌∷◌, leb, ltb, arith}
use robo_trade.Base.Dict.{Dict}
use robo_trade.Base.Float.Exact.{whole, whole-IsExact}
use robo_trade.Base.Int.{pos, negsuc}
use robo_trade.Portfolio.{SignalInfo, compute_target_weights}
use robo_trade.Portfolio.Targets.{IsScaled, AreTargets, compute_target_weights-AreTargets}

scaled_nat : (a c t e : ℕ) → a ≤ c → t < e → a * (t / e) ≤ c
scaled_nat a c t e h k = rw (div-eq_of_lt k) (omega arith)

scaled_leb : (a c t e : ℕ) → leb a c ≡ true → ltb t e ≡ true → leb (a * (t / e)) c ≡ true
scaled_leb a c t e h k =
    let small = scaled_nat a c t e (ground (arith, h)) (ground (arith, k)) in ground (arith, small)

whole-IsScaled : IsScaled ℕ ⦃f = whole⦄
whole-IsScaled = record { scaled_le = λ a c t e h k p q. scaled_leb a c t e h q }

abbrev two_signals : Dict (SignalInfo ℕ)
two_signals =
    ("SPY", record { signal = some (pos 1); score = some 6; ret_n = none; realized_vol = some 2 })
    ∷ (
      "GLD",
      record { signal = some (negsuc 0); score = some 9; ret_n = none; realized_vol = none },
    )
    ∷ []

compute_target_weights-AreTargets_example :
    AreTargets ℕ ⦃f = whole⦄ 1 two_signals
      (compute_target_weights ⦃f = whole⦄ two_signals 1 1 (some 1) none)
compute_target_weights-AreTargets_example =
    compute_target_weights-AreTargets ⦃f = whole⦄ whole-IsExact.order whole-IsScaled two_signals 1 1
      (some 1) none refl

-- The long signal gets the weight of one, and the short one nothing.
long_only :
    compute_target_weights ⦃f = whole⦄ two_signals 1 1 (some 1) none
    ≡ some (("SPY", 1) ∷ ("GLD", 0) ∷ [])
unfolding compute_target_weights
long_only = refl
