-- ===== src/Bursty/Plan.antt =====
-- `BurstyDCAAlgorithm.plan`: one row and at most one intent for each budget.
use robo_trade.Base.{String, Bool, ◌&&◌, List, [], ◌∷◌, if◌then◌else◌, get_or_else}
use robo_trade.Base.Dict.{Dict, lookup, insert}
use robo_trade.Base.Float.{Float, ◌⊗◌, ◌⊘◌, le, lt, zero_float, abs_float, min_float, nonzero}
use robo_trade.Base.Sort.{sort_by, str_leb}
use robo_trade.Orders.Targets.{Intent, notional, price_of}
use robo_trade.Bursty.{
  SymbolState, BurstyConfig, Clock, fresh_state, accrue, min_executable, planned_order_size,
}

-- What `evaluate_valuation` answers for a symbol; `z` is zero where it is missing.
pub record Valuation (F : Type 0) : Type 0 where
  pub ok : Bool
  pub z : F

-- What a plan reads: the settings, the account and the market.
pub record Situation (F Moment : Type 0) : Type 0 where
  pub settings : BurstyConfig F
  pub fractional : Bool
  pub now : Moment
  pub latest_prices : Dict F
  pub positions : Dict F
  pub valuation : String → Valuation F

-- A row of the plan.
pub record BudgetRow (F : Type 0) : Type 0 where
  pub symbol : String
  pub buying : Bool
  pub held : F
  pub price : F
  pub monthly_budget : F
  pub state : SymbolState F
  pub floor_dollars : F
  pub backlog_months : F
  pub size : F
  pub deployed : Bool

pub record BurstyPlan (F : Type 0) : Type 0 where
  pub intents : List (Intent F)
  pub rows : List (BudgetRow F)
  pub accrual : Dict (SymbolState F)

module _ {F : Type 0} ⦃f : Float F⦄ where
  abbrev pub intent_of_row : BudgetRow F → Intent F
  intent_of_row row = record {
    symbol = row.symbol;
    kind = notional;
    value = if row.buying then row.size else f.negate row.size;
  }

  abbrev pub add_intent : BudgetRow F → List (Intent F) → List (Intent F)
  add_intent row intents = if row.deployed then intent_of_row row ∷ intents else intents

  -- A sell is held to the value of the position.
  abbrev pub sell_clamp : Bool → F → F → F
  sell_clamp buying size value = if buying then size else min_float size value

module _ {F Moment : Type 0} ⦃f : Float F⦄ (clock : Clock F Moment) (tanh : F → F)
    (c : Situation F Moment) where
  -- `size` of a row, for the state that the run accrued.
  unfoldable pub row_size : String → F → SymbolState F → F
  unfolding planned_order_size min_executable
  row_size symbol budget state =
      let price : F = price_of c.latest_prices symbol in
      let buying : Bool = le zero_float budget in
      let backlog : F = if nonzero budget then state.accrued ⊘ abs_float budget else zero_float in
      sell_clamp buying
        (planned_order_size tanh budget (c.valuation symbol).z buying backlog
          state.deployed_this_month c.settings state.accrued (min_executable price c.fractional))
        (get_or_else (lookup symbol c.positions) zero_float ⊗ price)

  -- The row of a symbol.
  unfoldable pub budget_row : String → F → SymbolState F → BudgetRow F
  unfolding row_size min_executable
  budget_row symbol budget state =
      let price : F = price_of c.latest_prices symbol in
      let floor : F = min_executable price c.fractional in
      let size : F = row_size symbol budget state in
      record {
        symbol = symbol;
        buying = le zero_float budget;
        held = get_or_else (lookup symbol c.positions) zero_float;
        price = price;
        monthly_budget = budget;
        state = state;
        floor_dollars = floor;
        backlog_months = if nonzero budget then state.accrued ⊘ abs_float budget else zero_float;
        size = size;
        deployed = (c.valuation symbol).ok && lt zero_float price && le floor size;
      }

  -- The state of a symbol that the run accrues.
  unfoldable pub accrued_state : Dict (SymbolState F) → String → F → SymbolState F
  unfolding accrue
  accrued_state accrual symbol budget =
      accrue clock (get_or_else (lookup symbol accrual) fresh_state) (abs_float budget) c.now

  -- The loop, over the budgets that are left.
  unfoldable pub plan_budgets_from : List (String × F) → Dict (SymbolState F) → BurstyPlan F
  unfolding budget_row accrued_state
  plan_budgets_from [] accrual = record { intents = []; rows = []; accrual = accrual }
  plan_budgets_from ((symbol, budget) ∷ budgets) accrual =
      let state : SymbolState F = accrued_state accrual symbol budget in
      let row : BudgetRow F = budget_row symbol budget state in
      let rest : BurstyPlan F = plan_budgets_from budgets (insert symbol state accrual) in
      record {
        intents = add_intent row rest.intents;
        rows = row ∷ rest.rows;
        accrual = rest.accrual;
      }

  -- `plan`, for the budgets and the memory that the context carries.
  unfoldable pub plan : Dict F → Dict (SymbolState F) → BurstyPlan F
  unfolding plan_budgets_from
  plan budgets accrual = plan_budgets_from (sort_by (λ a b. str_leb a.0 b.0) budgets) accrual
