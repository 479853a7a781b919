-- ===== src/Orders/Planning.antt =====
-- `plan_share_orders` and `plan_position_orders`: the trades that move a book to its targets.
pub mod Rows
use robo_trade.Base.{
  ℕ, String, Bool, true, false, not, ◌&&◌, ◌||◌, Option, none, some, List, [], ◌∷◌, if◌then◌else◌,
  get_or_else,
}
use robo_trade.Base.Dict.{Dict, lookup, keys}
use robo_trade.Base.Float.{Float, ◌⊖◌, ◌⊗◌, le, lt, zero_float, max_float, abs_float}
use robo_trade.Base.Sort.{add_names, sort_by}
use robo_trade.Interfaces.{Side, buy, sell}
use robo_trade.Orders.{
  PlannedOrder, PositionIntent, sell_short, buy_to_cover, sell_to_close, buy_to_open, share_epsilon,
  is_sell, shares_for_target_weight,
}

-- The thresholds of a batch.
pub record Limits (F : Type 0) : Type 0 where
  pub min_trade_dollars : F
  pub rebalance_threshold : F
  pub fractional : Bool

-- `key=lambda order: 0 if order["action"] == "sell" else 1`.
abbrev pub not_after : {F : Type 0} → PlannedOrder F → PlannedOrder F → Bool
not_after a b = is_sell a.action || not (is_sell b.action)

abbrev pub cons_some :
    {F : Type 0} → Option (PlannedOrder F) → List (PlannedOrder F) → List (PlannedOrder F)
cons_some none os = os
cons_some (some o) os = o ∷ os

module _ {F : Type 0} ⦃f : Float F⦄ where
  -- `min_rebalance_dollars`.
  abbrev pub min_rebalance : Limits F → F → F
  min_rebalance l equity =
      max_float l.min_trade_dollars (equity ⊗ max_float l.rebalance_threshold zero_float)

  -- `diff`, rounded to cents of a share where the venue takes fractions.
  abbrev pub drift : Limits F → F → F → F
  drift l target current =
      if l.fractional && le zero_float target
      then f.round_cents (target ⊖ current)
      else target ⊖ current

  -- `closing`: the trade leaves no position where there was one.
  abbrev pub is_closing : F → F → Bool
  is_closing target current =
      le (abs_float target) share_epsilon && lt share_epsilon (abs_float current)

  abbrev pub floor_dollars : Limits F → F → F → F → F
  floor_dollars l equity target current =
      if is_closing target current then l.min_trade_dollars else min_rebalance l equity

  -- The test for no trade.
  abbrev pub too_small : Limits F → F → F → F → F → Bool
  too_small l equity price target current =
      le (abs_float (drift l target current)) share_epsilon
      || lt (abs_float (drift l target current) ⊗ price) (floor_dollars l equity target current)

  abbrev pub side_of : F → Side
  side_of diff = if lt zero_float diff then buy else sell

  abbrev pub intent_of : Side → F → F → PositionIntent
  intent_of sell target current = if lt target zero_float then sell_short else sell_to_close
  intent_of buy target current = if lt current zero_float then buy_to_cover else buy_to_open

  -- The row of one symbol that is traded.
  abbrev pub share_row : Limits F → String → F → F → F → F → PlannedOrder F
  share_row l symbol price weight target current =
      let diff : F = drift l target current in
      let side : Side = side_of diff in
      record {
        symbol = symbol;
        action = side;
        quantity = abs_float diff;
        target_weight = weight;
        target_shares = target;
        current_shares = current;
        trade_dollars = abs_float diff ⊗ price;
        latest_price = price;
        position_intent = intent_of side target current;
        opens_short = is_sell side && lt target zero_float;
        short_shares_after = if lt target zero_float then abs_float target else zero_float;
        requested_quantity = abs_float diff;
        funding_status = none;
        from_cash_equivalent = false;
      }

  -- The trade of one symbol, once it has a price.
  pub plan_priced : Limits F → F → String → F → F → F → F → Option (PlannedOrder F)
  plan_priced l equity symbol price weight target current =
      if too_small l equity price target current
      then none
      else some (share_row l symbol price weight target current)

  module _ (prices positions targets weights : Dict F) (equity : F) (l : Limits F) where
    -- One turn of the loop of `plan_share_orders`; `none` is a symbol that is skipped.
    pub plan_symbol : String → Option (PlannedOrder F)
    unfolding plan_priced
    plan_symbol symbol = elim (lookup symbol prices) [
      | none ↦ none
      | some price ↦
          if le price zero_float
          then none
          else let current : F = get_or_else (lookup symbol positions) zero_float in
            let target : F = get_or_else (lookup symbol targets) current in
            let weight : F = get_or_else (lookup symbol weights) zero_float in
            plan_priced l equity symbol price weight target current
    ]

    pub plan_symbols : List String → List (PlannedOrder F)
    unfolding plan_symbol
    plan_symbols [] = []
    plan_symbols (k ∷ ks) = cons_some (plan_symbol k) (plan_symbols ks)

    -- `plan_share_orders`.
    unfoldable pub plan_share_orders : List (PlannedOrder F)
    unfolding plan_symbols
    plan_share_orders =
        sort_by not_after (plan_symbols (add_names (keys targets) (add_names (keys positions) [])))

  -- The target shares of `plan_position_orders`, over the symbols that are left.
  pub weight_targets : Dict F → Dict F → F → Bool → List String → Dict F
  unfolding shares_for_target_weight
  weight_targets prices weights equity fractional [] = []
  weight_targets prices weights equity fractional (k ∷ ks) =
      let rest = weight_targets prices weights equity fractional ks in
      let weight : F = get_or_else (lookup k weights) zero_float in
      let price : F = get_or_else (lookup k prices) zero_float in
      if lt zero_float price
      then (k, shares_for_target_weight equity weight price (fractional && le zero_float weight))
        ∷ rest
      else rest

  -- `plan_position_orders`.
  unfoldable pub plan_position_orders :
      Dict F → Dict F → Dict F → F → Limits F → List (PlannedOrder F)
  unfolding weight_targets plan_share_orders
  plan_position_orders prices positions weights equity l =
      let names = add_names (keys weights) (add_names (keys positions) []) in
      plan_share_orders prices positions (weight_targets prices weights equity l.fractional names)
        weights equity l
