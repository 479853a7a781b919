-- ===== src/Rally/Tests.antt =====
-- A week of a clock, a book of two names and a contender, and the theorems at them.
use robo_trade.Base.{
  ℕ, ◌+◌, ◌-◌, ◌≤◌, String, ◌≡◌, refl, true, none, some, List, [], ◌∷◌, if◌then◌else◌, leb, ◌==◌,
  length, str_eq, arith,
}
use robo_trade.Base.Dict.{Dict, lookup, mem_name}
use robo_trade.Base.Int.{ℤ, pos, pos_part, whole_float}
use robo_trade.Base.Sort.{sort_by}
use robo_trade.Rally.{
  on_day, weekdays_among, sessions_since, action_due, record_action, track_ranking, Series,
}
use robo_trade.Rally.Sessions.{action_due-record_action}
use robo_trade.Rally.Positions.{
  RankedRow, RotationLimits, incumbents, contenders, resolve_positions,
}
use robo_trade.Rally.Kept.{resolve_positions_keeps}
use robo_trade.Rally.Sizing.{
  SizingConfig, ScoredRow, score_to_weights, defensive_weights, park_residual,
  apply_turnover_filters, minimum_notional,
}
use robo_trade.Rally.Exits.{apply_turnover_filters_exit}

-- Day 5 is a Friday: the Monday after it is one session later, and a week later there are five.
sessions_skip_weekends :
    (sessions_since 5 8 ≡ 1) × (sessions_since 5 12 ≡ 5) × (sessions_since 5 5 ≡ 0)
unfolding sessions_since
sessions_skip_weekends = (refl, refl, refl)

action_due-record_action_example :
    (action_due (record_action [] "rerank" 5) "rerank" (pos 5) 11 ≡ (
      if pos_part (pos 5) == 0
      then true
      else leb (pos_part (pos 5)) (weekdays_among (5 + 1) (11 - 5))))
    × (lookup "resize" (record_action [] "rerank" 5)
        ≡ (if str_eq "rerank" "resize" then some (on_day 5) else none))
action_due-record_action_example = action_due-record_action [] "rerank" "resize" (pos 5) 5 11

-- Two looks on one day are one observation, the later one.
day_counts_once :
    let once : Dict Series = track_ranking [] (pos 10) (pos 5) 8 (("IBIT", 7) ∷ []) in
    track_ranking once (pos 10) (pos 5) 8 (("IBIT", 3) ∷ []) ≡ ("IBIT", (8, 1) ∷ []) ∷ []
unfolding track_ranking sort_by
day_counts_once = refl

abbrev row : String → ℤ → ℕ → RankedRow ℤ
row symbol score rank = record { symbol = symbol; base_score = score; rank = rank }

abbrev ranked : List (RankedRow ℤ)
ranked = row "NEW" (pos 12) 1 ∷ row "A" (pos 10) 2 ∷ row "B" (pos 9) 3 ∷ []

abbrev rotation : RotationLimits ℤ
rotation = record {
  max_positions = pos 2;
  entry_rank_max = pos 1;
  exit_rank_max = pos 3;
  min_score_delta_to_replace = pos 4;
}

still_ranked : incumbents ("A" ∷ "B" ∷ []) ranked rotation ≡ "A" ∷ "B" ∷ []
unfolding incumbents
still_ranked = refl

-- Three points are not the margin of four, and with a margin of two the weakest name goes.
margin_decides :
    (resolve_positions ("A" ∷ "B" ∷ []) ranked rotation ≡ "A" ∷ "B" ∷ [])
    × (resolve_positions
          ("A" ∷ "B" ∷ [])
          ranked
          (record rotation { min_score_delta_to_replace = pos 2 })
        ≡ "A" ∷ "NEW" ∷ [])
unfolding resolve_positions incumbents contenders
margin_decides = (refl, refl)

resolve_positions_keeps_example :
    (mem_name "B" (resolve_positions ("A" ∷ "B" ∷ []) ranked rotation) ≡ true)
    × (length (resolve_positions ("A" ∷ "B" ∷ []) ranked rotation) ≤ 2)
unfolding incumbents contenders
resolve_positions_keeps_example =
    resolve_positions_keeps ("A" ∷ "B" ∷ []) ranked rotation "B" refl (omega arith) (refl, tt)

-- Weights in hundredths.
abbrev sizing : SizingConfig ℤ
sizing = record {
  risk_on_gross_max = pos 100;
  volatility_tilt = pos 0;
  defensive_max_positions = pos 1;
  rebalance_weight_threshold = pos 3;
  minimum_trade_notional = pos 50;
  minimum_trade_nav_fraction = pos 0;
}

abbrev scored : String → ℤ → ScoredRow ℤ
scored symbol score = record {
  symbol = symbol;
  base_score = score;
  annual_volatility = pos 0;
  abs_return = score;
}

weights_follow_scores :
    (score_to_weights (scored "A" (pos 3) ∷ scored "B" (pos 1) ∷ []) sizing
      ≡ ("A", pos 75) ∷ ("B", pos 25) ∷ [])
    × (park_residual (("A", pos 60) ∷ []) (("SGOV", pos 100) ∷ []) sizing
        ≡ ("A", pos 60) ∷ ("SGOV", pos 40) ∷ [])
    × (defensive_weights (("SGOV", scored "SGOV" (pos 2)) ∷ []) ("SGOV" ∷ "BIL" ∷ []) sizing
        ≡ ("SGOV", pos 100) ∷ [])
unfolding score_to_weights park_residual defensive_weights sort_by
weights_follow_scores = (refl, refl, refl)

abbrev current : Dict ℤ
current = ("A", pos 2) ∷ ("B", pos 50) ∷ []

abbrev aimed : Dict ℤ
aimed = ("A", pos 0) ∷ ("B", pos 48) ∷ []

-- The exit of two hundredths goes through, and the trim of two does not.
exit_goes_through :
    apply_turnover_filters current (pos 1000) sizing aimed ≡ ("A", pos 0) ∷ ("B", pos 50) ∷ []
unfolding apply_turnover_filters
exit_goes_through = refl

apply_turnover_filters_exit_example :
    lookup "A" (apply_turnover_filters current (pos 1000) sizing aimed) ≡ some (pos 0)
unfolding minimum_notional
apply_turnover_filters_exit_example =
    apply_turnover_filters_exit current (pos 1000) sizing aimed "A" (pos 0) (refl, (refl, tt)) refl
      refl refl refl
