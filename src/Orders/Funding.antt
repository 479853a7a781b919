-- ===== src/Orders/Funding.antt =====
-- `fund_planned_orders`: fitting a batch to the money that can pay for it.
pub mod Budget
pub mod Partition
use robo_trade.Base.{
  ℕ, String, Bool, true, false, not, ◌&&◌, ◌||◌, Option, none, some, List, [], ◌∷◌, ◌++◌,
  if◌then◌else◌, filter, str_eq,
}
use robo_trade.Base.Dict.{Dict, mem_name}
use robo_trade.Base.Float.{
  Float, ◌⊕◌, ◌⊖◌, ◌⊗◌, ◌⊘◌, le, lt, zero_float, one_float, max_float, min_float,
}
use robo_trade.Base.Sort.{sort_by, str_leb}
use robo_trade.Interfaces.{Side, buy, sell}
use robo_trade.Orders.{
  PlannedOrder, PositionIntent, sell_to_close, FundingStatus, full, reduced, unfunded, Policy,
  pro_rata, greedy, is_sell, is_buy, share_epsilon, funding_epsilon, liquidation_pad, round_shares,
  round_up_shares, total_dollars,
}

-- A holding that can be sold for cash.
pub record Holding (F : Type 0) : Type 0 where
  pub price : F
  pub shares : F

-- The funded and the unfunded rows.
abbrev pub Batches : Type 0 → Type 0
Batches F = List (PlannedOrder F) × List (PlannedOrder F)

module _ {F : Type 0} ⦃f : Float F⦄ where
  abbrev pub symbols : List (PlannedOrder F) → List String
  symbols [] = []
  symbols (o ∷ os) = o.symbol ∷ symbols os

  abbrev liquidation_leg : String → Holding F → F → PlannedOrder F
  liquidation_leg symbol h quantity = record {
    symbol = symbol;
    action = sell;
    quantity = quantity;
    target_weight = zero_float;
    target_shares = h.shares ⊖ quantity;
    current_shares = h.shares;
    trade_dollars = quantity ⊗ h.price;
    latest_price = h.price;
    position_intent = sell_to_close;
    opens_short = false;
    short_shares_after = zero_float;
    requested_quantity = quantity;
    funding_status = some full;
    from_cash_equivalent = true;
  }

  -- `min(held, _round_up_shares(needed / price))`.
  abbrev liquidated : Bool → F → Holding F → F
  liquidated fractional needed h =
      min_float h.shares (round_up_shares (needed ⊘ h.price) fractional)

  -- The loop of `_liquidation_legs`, over the holdings that are left.
  pub liquidation_from : Bool → List String → F → Dict (Holding F) → List (PlannedOrder F)
  unfolding round_up_shares
  liquidation_from fractional traded needed [] = []
  liquidation_from fractional traded needed ((symbol, h) ∷ holdings) =
      let quantity : F = liquidated fractional needed h in
      let skip : List (PlannedOrder F) = liquidation_from fractional traded needed holdings in
      let sold : List (PlannedOrder F) =
        liquidation_leg symbol h quantity
        ∷ liquidation_from fractional traded (needed ⊖ (quantity ⊗ h.price)) holdings in
      if le needed funding_epsilon
      then []
      else if mem_name symbol traded
      then skip
      else if le h.price zero_float || le h.shares share_epsilon || le quantity share_epsilon
      then skip
      else sold

  -- `_liquidation_legs`.
  pub liquidation_legs : F → Dict (Holding F) → List (PlannedOrder F) → Bool → List (PlannedOrder F)
  unfolding liquidation_from
  liquidation_legs shortfall holdings planned fractional =
      liquidation_from fractional (symbols planned)
        (max_float shortfall zero_float ⊗ (one_float ⊕ liquidation_pad)) holdings

  -- The order of `greedy`: the largest first, and equal ones by symbol.
  abbrev larger_first : PlannedOrder F → PlannedOrder F → Bool
  larger_first a b =
      lt b.trade_dollars a.trade_dollars
      || (not (lt a.trade_dollars b.trade_dollars) && str_leb a.symbol b.symbol)

  -- The quantity that fits what remains.
  abbrev pub fitted : Bool → F → F → PlannedOrder F → F
  fitted fractional scale remaining o =
      let quantity : F = round_shares (o.quantity ⊗ scale) fractional in
      if lt remaining (quantity ⊗ o.latest_price)
      then round_shares (remaining ⊘ o.latest_price) fractional
      else quantity

  abbrev pub unfunded_row : PlannedOrder F → PlannedOrder F
  unfunded_row o = record o { requested_quantity = o.quantity; funding_status = some unfunded }

  abbrev pub funded_row : F → PlannedOrder F → PlannedOrder F
  funded_row quantity o = record o {
    quantity = quantity;
    trade_dollars = quantity ⊗ o.latest_price;
    requested_quantity = o.quantity;
    funding_status = some (if lt quantity (o.quantity ⊖ share_epsilon) then reduced else full);
  }

  abbrev pub no_fill : F → F → PlannedOrder F → Bool
  no_fill min_trade quantity o =
      le quantity share_epsilon || lt (quantity ⊗ o.latest_price) min_trade

  abbrev pub cons_funded : PlannedOrder F → Batches F → Batches F
  cons_funded o (funded, rest) = (o ∷ funded, rest)

  abbrev pub cons_unfunded : PlannedOrder F → Batches F → Batches F
  cons_unfunded o (funded, rest) = (funded, o ∷ rest)

  -- The loop of `_fit_buys_to_budget`, over the buys that are left.
  pub fit_from : Bool → F → F → F → List (PlannedOrder F) → Batches F
  unfolding round_shares
  fit_from fractional min_trade scale remaining [] = ([], [])
  fit_from fractional min_trade scale remaining (o ∷ os) =
      let quantity : F = fitted fractional scale remaining o in
      let dropped : Batches F =
        cons_unfunded (unfunded_row o) (fit_from fractional min_trade scale remaining os) in
      let kept : Batches F =
        cons_funded (funded_row quantity o)
          (fit_from fractional min_trade scale (remaining ⊖ (quantity ⊗ o.latest_price)) os) in
      if no_fill min_trade quantity o then dropped else kept

  -- `_fit_buys_to_budget`.
  pub fit_buys_to_budget : List (PlannedOrder F) → F → Policy → F → Bool → Batches F
  unfolding fit_from
  fit_buys_to_budget buys budget greedy min_trade fractional =
      fit_from fractional min_trade one_float budget (sort_by larger_first buys)
  fit_buys_to_budget buys budget pro_rata min_trade fractional =
      let requested : F = total_dollars buys in
      let scale : F = if lt zero_float requested then budget ⊘ requested else zero_float in
      fit_from fractional min_trade scale budget buys

  abbrev pub mark_full : PlannedOrder F → PlannedOrder F
  mark_full o = record o { requested_quantity = o.quantity; funding_status = some full }

  abbrev pub mark_all : List (PlannedOrder F) → List (PlannedOrder F)
  mark_all [] = []
  mark_all (o ∷ os) = mark_full o ∷ mark_all os

-- The numbers of `report`. The texts and lists of symbols are left out: they can be read off the rows.
pub record FundingReport (F : Type 0) : Type 0 where
  pub sale_proceeds : F
  pub cash_equivalents_liquidated : F
  pub budget : F
  pub requested_notional : F
  pub funded_notional : F
  pub shortfall : F

pub record FundedBatch (F : Type 0) : Type 0 where
  pub fundable : List (PlannedOrder F)
  pub rejected : List (PlannedOrder F)
  pub report : Option (FundingReport F)

-- The keyword arguments of `fund_planned_orders`.
pub record Funds (F : Type 0) : Type 0 where
  pub buying_power : F
  pub reserve : F
  pub cash_equivalents : Dict (Holding F)
  pub min_trade_dollars : F
  pub fractional : Bool
  pub policy : Policy

module _ {F : Type 0} ⦃f : Float F⦄ where
  abbrev pub sells_of : List (PlannedOrder F) → List (PlannedOrder F)
  sells_of = filter (λ o. is_sell o.action)

  abbrev pub buys_of : List (PlannedOrder F) → List (PlannedOrder F)
  buys_of = filter (λ o. is_buy o.action)

  -- A short sale brings no spendable cash.
  abbrev pub sale_proceeds_of : List (PlannedOrder F) → F
  sale_proceeds_of planned = total_dollars (filter (λ o. not o.opens_short) (sells_of planned))

  -- The budget before anything is liquidated.
  pub base_budget : Funds F → List (PlannedOrder F) → F
  base_budget m planned =
      max_float (m.buying_power ⊖ max_float m.reserve zero_float) zero_float
      ⊕ sale_proceeds_of planned

  abbrev has_holdings : Dict (Holding F) → Bool
  has_holdings [] = false
  has_holdings (h ∷ hs) = true

  -- The buys outrun the budget, and there are cash-like holdings.
  abbrev pub seeks_cash : Funds F → List (PlannedOrder F) → Bool
  seeks_cash m planned =
      lt (base_budget m planned ⊕ funding_epsilon) (total_dollars (buys_of planned))
      && has_holdings m.cash_equivalents

  -- The sales of cash-like holdings.
  pub liquidation_of : Funds F → List (PlannedOrder F) → List (PlannedOrder F)
  unfolding base_budget liquidation_legs
  liquidation_of m planned =
      let requested : F = total_dollars (buys_of planned) in
      let budget : F = base_budget m planned in
      let legs : List (PlannedOrder F) =
        liquidation_legs (requested ⊖ budget) m.cash_equivalents planned m.fractional in
      if seeks_cash m planned then legs else []

  -- The budget of the buys. Where no cash is sought, nothing is added.
  pub full_budget : Funds F → List (PlannedOrder F) → F
  unfolding base_budget liquidation_of
  full_budget m planned =
      let budget : F = base_budget m planned in
      if seeks_cash m planned then budget ⊕ total_dollars (liquidation_of m planned) else budget

  -- The buys that are funded, and those that are not.
  unfoldable pub fund_buys : Funds F → List (PlannedOrder F) → Batches F
  unfolding full_budget fit_buys_to_budget
  fund_buys m planned =
      let buys : List (PlannedOrder F) = buys_of planned in
      let budget : F = full_budget m planned in
      if le (total_dollars buys) (budget ⊕ funding_epsilon)
      then (mark_all buys, [])
      else fit_buys_to_budget buys budget m.policy m.min_trade_dollars m.fractional

  abbrev funded_batch : Funds F → List (PlannedOrder F) → Batches F → FundedBatch F
  funded_batch m planned (funded, rest) =
      let requested : F = total_dollars (buys_of planned) in
      let notional : F = total_dollars funded in
      record {
        fundable = liquidation_of m planned ++ (mark_all (sells_of planned) ++ funded);
        rejected = rest;
        report = some (record {
          sale_proceeds = sale_proceeds_of planned;
          cash_equivalents_liquidated = total_dollars (liquidation_of m planned);
          budget = full_budget m planned;
          requested_notional = requested;
          funded_notional = notional;
          shortfall = max_float (requested ⊖ notional) zero_float;
        });
      }

  -- `fund_planned_orders`.
  pub fund_planned_orders : Funds F → List (PlannedOrder F) → FundedBatch F
  unfolding fund_buys
  fund_planned_orders m [] = record { fundable = []; rejected = []; report = none }
  fund_planned_orders m (o ∷ os) = funded_batch m (o ∷ os) (fund_buys m (o ∷ os))
