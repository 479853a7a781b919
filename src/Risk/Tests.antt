-- ===== src/Risk/Tests.antt =====
-- A bad session, and the theorem about it, in whole numbers.
use robo_trade.Base.{ℕ, ◌≡◌, refl, true, false, any, [], ◌∷◌, some}
use robo_trade.Base.Int.{ℤ, pos, negsuc, whole_float}
use robo_trade.Risk.{Breaker, Observation, observe_all, is_breach, observe_all_lem}

-- Tripped on the day before.
abbrev yesterday : Breaker ℤ
yesterday = record {
  session = some 9;
  session_start_equity = pos 100;
  halted = true;
  session_drawdown = negsuc 0;
}

abbrev at : ℕ → Observation ℤ
at equity = record { day = 10; equity = pos equity }

-- The quotient is rounded down, so that any loss is a drawdown of one.
trips_and_stays :
    (observe_all (negsuc 0) (at 90 ∷ at 95 ∷ at 80 ∷ at 120 ∷ []) yesterday).halted ≡ true
unfolding observe_all
trips_and_stays = refl

holds : (observe_all (negsuc 0) (at 90 ∷ at 95 ∷ []) yesterday).halted ≡ false
unfolding observe_all
holds = refl

observe_all_lem_example :
    (observe_all (negsuc 0) (at 90 ∷ at 95 ∷ at 80 ∷ at 120 ∷ []) yesterday).halted
    ≡ any (is_breach (negsuc 0) (pos 90)) (at 90 ∷ at 95 ∷ at 80 ∷ at 120 ∷ [])
observe_all_lem_example =
    observe_all_lem (negsuc 0) (at 90) (at 95 ∷ at 80 ∷ at 120 ∷ []) yesterday refl refl
      (refl, (refl, (refl, tt)))
