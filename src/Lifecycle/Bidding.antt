-- ===== src/Lifecycle/Bidding.antt =====
-- src/algorithms/options_flip/lifecycle.py, `_flat_or_bidding`: the bid for a symbol that is not held.
use robo_trade.Base.{
  String, ◌||◌, Option, none, some, [], ◌∷◌, if◌then◌else◌, ◌==◌, Result, ok, ◌>>=◌, str_eq,
}
use robo_trade.Base.Float.{
  Float, ◌⊕◌, ◌⊖◌, ◌⊗◌, ◌⊘◌, ratio, le, lt, zero_float, one_float, max_float, min_float,
}
use robo_trade.Interfaces.{
  buy, limit, day, option, single, Ticket, OrderRequest, no_legs, OrderError, new_order,
}
use robo_trade.Options.{OptionContract, midpoint, option_price_for}
use robo_trade.Lifecycle.State.{
  flat, bidding, Memory, SymbolPlan, Situation, key_of, penny, no_memory, stop_off,
}

module _ {F : Type 0} ⦃f : Float F⦄ where
  -- `REPRICE_MIN_PRICE_FRACTION` and `REPRICE_MIN_SPREAD_FRACTION`.
  abbrev pub min_price_fraction : F
  min_price_fraction = ratio 2 100

  abbrev min_spread_fraction : F
  min_spread_fraction = ratio 25 100

  -- `_reprice_tolerance`.
  abbrev pub reprice_tolerance : OptionContract F → F → F
  reprice_tolerance c price =
      let spread : F = max_float (c.ask ⊖ c.bid) zero_float in
      if le price zero_float
      then min_price_fraction
      else max_float min_price_fraction ((spread ⊗ min_spread_fraction) ⊘ price)

  -- `_target_premium`.
  abbrev pub target_premium : F → F → F → Memory F → F
  target_premium mark now exit_target m =
      if le exit_target zero_float
      then zero_float
      else option_price_for exit_target now mark m.delta

  -- What the bid has given up of the way from the pullback level to the mark.
  abbrev given_up : Situation F → F
  given_up s =
      f.power (one_float ⊖ max_float s.session.fraction_remaining zero_float)
        (max_float s.settings.entry_patience penny)

  abbrev floor_price : Situation F → OptionContract F → F
  floor_price s c =
      if lt zero_float s.entry_target
      then option_price_for s.entry_target s.underlying_now (midpoint c) c.delta
      else midpoint c

  -- The limit of the bid, before it is rounded.
  abbrev pub bid_limit : Situation F → OptionContract F → F
  bid_limit s c =
      let floor : F = floor_price s c in
      min_float (floor ⊕ ((midpoint c ⊖ floor) ⊗ given_up s)) (midpoint c)

  abbrev pub entry_ticket : Situation F → OptionContract F → Ticket F
  entry_ticket s c = record {
    symbol = c.osi_symbol;
    action = buy;
    quantity = ratio s.contracts 1;
    order_type = limit;
    limit_price = some (f.round_cents (bid_limit s c));
    stop_price = none;
    client_order_id = none;
    time_in_force = day;
    asset_type = option;
    strategy = single;
    latest_price = none;
  }

  abbrev pub bid_memory : Situation F → String → OptionContract F → Memory F
  bid_memory s direction c = record no_memory {
    phase = some bidding;
    contract = c.osi_symbol;
    direction = direction;
    contracts = s.contracts;
    bid = f.round_cents (bid_limit s c);
    stop_at =
        if lt zero_float s.settings.stop_loss_pct
        then stop_off s.settings (bid_limit s c)
        else zero_float;
    market_day = s.session.market_day;
  }

  abbrev pub stand_down : Situation F → SymbolPlan F
  stand_down s = record { symbol = s.symbol; phase = flat; orders = []; memory = no_memory }

  abbrev pub bid_plan : Situation F → String → OptionContract F → OrderRequest F → SymbolPlan F
  bid_plan s direction c request = record {
    symbol = s.symbol;
    phase = bidding;
    orders =
        record {
          key = key_of s.symbol "entry";
          request = request;
          replace_tolerance = reprice_tolerance c (bid_limit s c);
        }
        ∷ [];
    memory = bid_memory s direction c;
  }

  -- The bid of `_flat_or_bidding`, for a contract.
  unfoldable pub place_bid :
      Situation F → String → OptionContract F → Result OrderError (SymbolPlan F)
  unfolding new_order
  place_bid s direction c =
      new_order (entry_ticket s c) no_legs >>= λ request. ok (bid_plan s direction c request)

  -- `_flat_or_bidding`.
  unfoldable pub flat_or_bidding :
      Situation F → Memory F → String → Option (OptionContract F) → Result OrderError (SymbolPlan F)
  unfolding place_bid
  flat_or_bidding s m direction none = ok (stand_down s)
  flat_or_bidding s m direction (some c) =
      if str_eq direction "" || s.contracts == 0 then ok (stand_down s) else place_bid s direction c
