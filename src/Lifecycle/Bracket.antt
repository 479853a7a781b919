-- ===== src/Lifecycle/Bracket.antt =====
-- src/algorithms/options_flip/lifecycle.py, `_bracket_orders`: the target and the stop that rest while a contract is held.
use robo_trade.Base.{
  ℕ, String, Bool, not, Option, none, some, List, [], ◌∷◌, if◌then◌else◌, Result, ok, ◌>>=◌,
}
use robo_trade.Base.Float.{Float, ratio, le, zero_float}
use robo_trade.Interfaces.{
  sell, OrderType, limit, stop, gtc, option, OrderStrategy, single, oco, Ticket, OrderRequest,
  no_legs, leg, DesiredOrder, OrderError, new_order,
}
use robo_trade.Lifecycle.State.{key_of}
use robo_trade.Lifecycle.Bidding.{min_price_fraction}

module _ {F : Type 0} ⦃f : Float F⦄ where
  -- `_sell_leg`, with what its two callers set.
  abbrev pub sell_ticket : String → ℕ → OrderType → Option F → Option F → OrderStrategy → Ticket F
  sell_ticket contract quantity kind limit_price stop_price strategy = record {
    symbol = contract;
    action = sell;
    quantity = ratio quantity 1;
    order_type = kind;
    limit_price = limit_price;
    stop_price = stop_price;
    client_order_id = none;
    time_in_force = gtc;
    asset_type = option;
    strategy = strategy;
    latest_price = none;
  }

  unfoldable pub target_leg : String → ℕ → F → Result OrderError (OrderRequest F)
  unfolding new_order
  target_leg contract quantity target =
      new_order (sell_ticket contract quantity limit (some target) none single) no_legs

  unfoldable pub stop_leg : String → ℕ → F → Result OrderError (OrderRequest F)
  unfolding new_order
  stop_leg contract quantity stop_at =
      new_order (sell_ticket contract quantity stop none (some stop_at) single) no_legs

  abbrev pub desired : String → String → F → OrderRequest F → DesiredOrder F
  desired symbol role tolerance request = record {
    key = key_of symbol role;
    request = request;
    replace_tolerance = tolerance;
  }

  -- `_bracket_orders`.
  unfoldable pub bracket_orders :
      String → String → ℕ → F → F → Bool → Result OrderError (List (DesiredOrder F))
  bracket_orders symbol contract quantity target stop_at holds_oco = do
    limit_leg ← target_leg contract quantity target
    (if le stop_at zero_float
        then ok (desired symbol "target" min_price_fraction limit_leg ∷ [])
        else (do
          stop_order ← stop_leg contract quantity stop_at
          (if not holds_oco
              then ok (
                  desired symbol "target" min_price_fraction limit_leg
                  ∷ desired symbol "stop" zero_float stop_order
                  ∷ [])
              else (do
                pair ←
                    new_order (sell_ticket contract quantity limit (some target) none oco)
                      (leg limit_leg (leg stop_order no_legs))
                ok (desired symbol "bracket" min_price_fraction pair ∷ [])))))
