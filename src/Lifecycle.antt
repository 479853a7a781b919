-- ===== src/Lifecycle.antt =====
-- src/algorithms/options_flip/lifecycle.py: one symbol's option position, from bid to exit. The checks
-- and the headline, which are shown and not acted on, are left out, and so is the estimate.
pub mod State
pub mod Bidding
pub mod Bracket
pub mod Holding
pub mod Bid
pub mod Held
mod Tests
use robo_trade.Base.{
  ℕ, String, Bool, true, false, not, ◌&&◌, ◌||◌, Option, none, some, List, [], ◌∷◌, if◌then◌else◌,
  ltb, leb, ◌==◌, Result, ok, err, ◌>>=◌, str_eq, str_append,
}
use robo_trade.Base.Float.{
  Float, ◌⊕◌, ◌⊖◌, ◌⊗◌, ◌⊘◌, ratio, le, lt, zero_float, one_float, max_float, min_float, nonzero,
}
use robo_trade.Interfaces.{
  Side, buy, sell, OrderType, limit, stop, day, gtc, TimeInForce, option, OrderStrategy, single,
  oco, Ticket, OrderRequest, Legs, no_legs, leg, DesiredOrder, OrderError, new_order,
}
use robo_trade.Options.{OptionContract, midpoint, option_price_for}
use robo_trade.Lifecycle.State.{
  Phase, flat, bidding, held, Memory, Settings, Session, SymbolPlan, Situation, is_bidding, key_of,
  penny, no_memory, stop_off,
}
use robo_trade.Lifecycle.Bidding.{
  min_price_fraction, reprice_tolerance, target_premium, bid_limit, entry_ticket, bid_memory,
  stand_down, bid_plan, place_bid, flat_or_bidding,
}
use robo_trade.Lifecycle.Bracket.{sell_ticket, target_leg, stop_leg, desired, bracket_orders}
use robo_trade.Lifecycle.Holding.{
  or_else, held_quantity, held_stop, is_overdue, scheduled_target, held_target, unpriced, hold_plan,
  hold,
}

module _ {F : Type 0} ⦃f : Float F⦄ where
  -- `plan_symbol`.
  unfoldable pub plan_symbol :
      Situation F
      → Memory F
      → String
      → String
      → Option (OptionContract F)
      → Result OrderError (SymbolPlan F)
  unfolding hold flat_or_bidding
  plan_symbol s m held_contract direction contract =
      let abandoned : Bool =
        is_bidding m.phase && str_eq held_contract "" && s.session.day_changed in
      let memory : Memory F = if abandoned then no_memory else m in
      if not (str_eq held_contract "")
      then hold s m held_contract
      else flat_or_bidding s memory direction contract
