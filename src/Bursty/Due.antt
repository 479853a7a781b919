-- ===== src/Bursty/Due.antt =====
-- What the rows and the intents of a plan have.
use robo_trade.Base.{
  String, ◌≡◌, refl, ap, ◌⊎◌, inl, inr, Bool, true, false, List, [], ◌∷◌, All, map, filter,
  get_or_else, Bool-cases, arith,
}
use robo_trade.Base.Dict.{Dict, lookup, insert}
use robo_trade.Base.Float.{Float, IsOrdered, ◌≼◌, ◌⊗◌, le, lt, zero_float}
use robo_trade.Base.Sort.{sort_by, str_leb}
use robo_trade.Orders.Targets.{Intent, price_of}
use robo_trade.Bursty.{SymbolState, Clock, min_executable}
use robo_trade.Bursty.Size.{min_float-le}
use robo_trade.Bursty.Plan.{
  Situation, BudgetRow, BurstyPlan, intent_of_row, add_intent, sell_clamp, row_size, budget_row,
  accrued_state, plan_budgets_from, plan,
}

abbrev pub budget_of : {F : Type 0} → BudgetRow F → String × F
budget_of row = (row.symbol, row.monthly_budget)

abbrev pub before : {F : Type 0} → String × F → String × F → Bool
before a b = str_leb a.0 b.0

module _ {F Moment : Type 0} ⦃f : Float F⦄ where
  -- A row that does not deploy, or has what an order needs: a valuation, a price, a size that survives
  -- the rounding of shares, and for a sell no more than what is held.
  abbrev pub IsDue : Situation F Moment → BudgetRow F → Type 0
  IsDue c row =
      (row.deployed ≡ false)
      ⊎ (((c.valuation row.symbol).ok ≡ true)
          × (lt zero_float (price_of c.latest_prices row.symbol) ≡ true)
          × (min_executable (price_of c.latest_prices row.symbol) c.fractional ≼ row.size)
          × ((row.buying ≡ true)
              ⊎ (row.size
                  ≼ get_or_else (lookup row.symbol c.positions) zero_float
                    ⊗ price_of c.latest_prices row.symbol)))

  -- What a plan says of the budgets that it ran over.
  abbrev pub IsPlanOf : Situation F Moment → List (String × F) → BurstyPlan F → Type 0
  IsPlanOf c budgets p =
      All (IsDue c) p.rows
      × (p.intents ≡ map intent_of_row (filter (λ row. row.deployed) p.rows))
      × (map budget_of p.rows ≡ budgets)

module _ {F Moment : Type 0} ⦃f : Float F⦄ (ord : IsOrdered F) (clock : Clock F Moment)
    (tanh : F → F) (c : Situation F Moment) where
  sell_clamp-le :
      (buying : Bool) (size value : F) → (buying ≡ true) ⊎ (sell_clamp buying size value ≼ value)
  sell_clamp-le true size value = inl refl
  sell_clamp-le false size value = inr (min_float-le ord size value).1

  row_size_held :
      (symbol : String) (budget : F) (state : SymbolState F)
      → (le zero_float budget ≡ true)
        ⊎ (row_size clock tanh c symbol budget state
            ≼ get_or_else (lookup symbol c.positions) zero_float ⊗ price_of c.latest_prices symbol)
  unfolding row_size
  row_size_held symbol budget state = sell_clamp-le (le zero_float budget) _ _

  budget_row-IsDue :
      (symbol : String) (budget : F) (state : SymbolState F)
      → IsDue c (budget_row clock tanh c symbol budget state)
  unfolding budget_row
  budget_row-IsDue symbol budget state =
      let row = budget_row clock tanh c symbol budget state in
      elim (Bool-cases row.deployed) [
        | inr idle ↦ inl idle
        | inl due ↦ inr (
          ground (arith, due),
          ground (arith, due),
          ground (arith, due),
          row_size_held symbol budget state,
        )
      ]

  add_intent_due :
      (row : BudgetRow F) (rows : List (BudgetRow F)) (intents : List (Intent F))
      → intents ≡ map intent_of_row (filter (λ r. r.deployed) rows)
      → add_intent row intents ≡ map intent_of_row (filter (λ r. r.deployed) (row ∷ rows))
  add_intent_due row rows intents h = elim (Bool-cases row.deployed) [
    | inl due ↦ rw (due, h) refl
    | inr idle ↦ rw (idle, h) refl
  ]

  rows_listed :
      (symbol : String) (budget : F) (state : SymbolState F) (rows : List (BudgetRow F))
      (budgets : List (String × F))
      → map budget_of rows ≡ budgets
      → map budget_of (budget_row clock tanh c symbol budget state ∷ rows)
        ≡ (symbol, budget) ∷ budgets
  unfolding budget_row
  rows_listed symbol budget state rows budgets h = ap (λ rest. (symbol, budget) ∷ rest) h

  plan_budgets_from-IsPlanOf :
      (budgets : List (String × F)) (accrual : Dict (SymbolState F))
      → IsPlanOf c budgets (plan_budgets_from clock tanh c budgets accrual)
  unfolding plan_budgets_from
  plan_budgets_from-IsPlanOf [] accrual = (tt, refl, refl)
  plan_budgets_from-IsPlanOf ((symbol, budget) ∷ budgets) accrual =
      let state : SymbolState F = accrued_state clock tanh c accrual symbol budget in
      let rest : BurstyPlan F =
        plan_budgets_from clock tanh c budgets (insert symbol state accrual) in
      let (due, issued, listed) =
        plan_budgets_from-IsPlanOf budgets (insert symbol state accrual) in
      (
        (budget_row-IsDue symbol budget state, due),
        add_intent_due (budget_row clock tanh c symbol budget state) rest.rows rest.intents issued,
        rows_listed symbol budget state rest.rows budgets listed,
      )

  -- A plan has one row for each budget, in the order of the symbols, and issues exactly the intents of the
  -- rows that deploy, each of which has a valuation, a price above zero and a size that survives the
  -- rounding of shares; a sell is never larger than the value of what is held.
  pub plan-IsPlanOf :
      (budgets : Dict F) (accrual : Dict (SymbolState F))
      → IsPlanOf c (sort_by before budgets) (plan clock tanh c budgets accrual)
  unfolding plan
  plan-IsPlanOf budgets accrual = plan_budgets_from-IsPlanOf (sort_by before budgets) accrual
