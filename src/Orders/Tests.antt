-- ===== src/Orders/Tests.antt =====
-- Small batches, in whole shares and dollars, through each step of the planning, the funding and the
-- submission, and the theorems at them.
use robo_trade.Base.{
  map, ℕ, suc, ltb, if◌then◌else◌, String, ◌≡◌, refl, true, false, All, List, [], ◌∷◌, ◌++◌, some,
  none, ok, err, ◌*◌,
}
use robo_trade.Base.Dict.{Dict, lookup}
use robo_trade.Base.Float.{Float, ◌≼◌, ◌⊕◌}
use robo_trade.Base.Float.Exact.{whole, whole-IsExact}
use robo_trade.Base.Sort.{sort_by, add_names}
use robo_trade.Base.Int.{ℤ, pos, whole_float, whole-IsOrdered}
use robo_trade.Interfaces.{buy, sell}
use robo_trade.Orders.{
  round_shares, PlannedOrder, buy_to_open, sell_short, sell_to_close, greedy, total_dollars,
  funding_epsilon,
}
use robo_trade.Orders.Targets.{
  Intent, notional, shares, target, incremental, unknown, unknown_mode, resolve_target_shares,
  resolve_target_shares_unlisted,
}
use robo_trade.Orders.Planning.{Limits, plan_share_orders, plan_position_orders}
use robo_trade.Orders.Planning.Rows.{IsJustified, IsSellsFirst, plan_share_orders-IsJustified}
use robo_trade.Orders.Funding.{
  Funds, fund_buys, full_budget, fund_planned_orders, mark_all, sells_of, buys_of,
}
use robo_trade.Orders.Funding.Budget.{fund_buys_budget}
use robo_trade.Orders.Funding.Partition.{IsSplit, IsLiquidation, fund_planned_orders-IsSplit}
use robo_trade.Orders.Submission.{
  Desk, LegResult, SendsAll, not_feasible, leg_rejected, leg_submitted, order_quantity,
  submit_planned_orders, submit_planned_orders-SendsAll,
}

abbrev held : Dict ℤ
held = ("A", pos 10) ∷ ("B", pos 4) ∷ []

abbrev priced : Dict ℤ
priced = ("A", pos 100) ∷ ("B", pos 50) ∷ ("C", pos 20) ∷ []

abbrev two_intents : List (Intent ℤ)
two_intents =
    record { symbol = "A"; kind = shares; value = pos 3 }
    ∷ record { symbol = "C"; kind = notional; value = pos 207 }
    ∷ []

intents_resolve :
    resolve_target_shares held priced (pos 5000) false two_intents target
    ≡ ok (("A", pos 3) ∷ ("B", pos 0) ∷ ("C", pos 10) ∷ [])
unfolding resolve_target_shares
intents_resolve = refl

resolve_target_shares_unlisted_example :
    ((t : Dict ℤ) × (resolve_target_shares held priced (pos 5000) false two_intents target ≡ ok t)
      × (lookup "B" t ≡ some (pos 0)))
    × ((t : Dict ℤ) × (resolve_target_shares held priced (pos 5000) false two_intents incremental
          ≡ ok t)
        × (lookup "B" t ≡ none))
    × (resolve_target_shares held priced (pos 5000) false two_intents (unknown "other")
        ≡ err (unknown_mode "other"))
resolve_target_shares_unlisted_example =
    resolve_target_shares_unlisted held priced (pos 5000) false two_intents "B" "other" refl

abbrev aimed : Dict ℤ
aimed = ("A", pos 3) ∷ ("B", pos 0) ∷ ("C", pos 10) ∷ []

abbrev limits : Limits ℤ
limits = record { min_trade_dollars = pos 150; rebalance_threshold = pos 0; fractional = false }

abbrev sized : PlannedOrder ℤ → String × ℤ
sized o = (o.symbol, o.quantity)

-- The whole of 400 dollars goes to C: the weights here are whole numbers.
plans_weights :
    let expected : List (String × ℤ) = ("A", pos 10) ∷ ("B", pos 4) ∷ ("C", pos 20) ∷ [] in
    map sized (plan_position_orders priced held (("C", pos 1) ∷ []) (pos 400) limits) ≡ expected
unfolding plan_position_orders add_names sort_by round_shares
plans_weights = refl

plan_share_orders-IsJustified_example :
    let orders = plan_share_orders priced held aimed [] (pos 5000) limits in
    All (IsJustified priced held aimed limits) orders × IsSellsFirst orders
plan_share_orders-IsJustified_example =
    plan_share_orders-IsJustified whole-IsOrdered priced held aimed [] (pos 5000) limits

instance abbrev exact_float : Float ℕ
exact_float = whole

-- A buy of so many shares at such a price.
abbrev buy_of : String → ℕ → ℕ → PlannedOrder ℕ
buy_of symbol quantity price = record {
  symbol = symbol;
  action = buy;
  quantity = quantity;
  target_weight = 0;
  target_shares = quantity;
  current_shares = 0;
  trade_dollars = quantity * price;
  latest_price = price;
  position_intent = buy_to_open;
  opens_short = false;
  short_shares_after = 0;
  requested_quantity = quantity;
  funding_status = none;
  from_cash_equivalent = false;
}

abbrev sell_of : String → ℕ → ℕ → PlannedOrder ℕ
sell_of symbol quantity price = record (buy_of symbol quantity price) {
  action = sell;
  position_intent = sell_to_close;
}

abbrev batch : List (PlannedOrder ℕ)
batch = sell_of "A" 2 100 ∷ buy_of "B" 5 90 ∷ buy_of "C" 3 70 ∷ []

abbrev money : Funds ℕ
money = record {
  buying_power = 250;
  reserve = 50;
  cash_equivalents = ("SGOV", record { price = 100; shares = 1 }) ∷ [];
  min_trade_dollars = 1;
  fractional = false;
  policy = greedy;
}

fund_buys_budget_example :
    total_dollars (fund_buys money batch).0 ≼ full_budget money batch ⊕ funding_epsilon
fund_buys_budget_example =
    fund_buys_budget whole-IsExact money batch ((refl, refl), ((refl, refl), ((refl, refl), tt)))

-- Of the 600 dollars of buys, 500 are there: a fund is sold for 100, and the second buy is cut.
batch_is_fitted : (total_dollars (fund_buys money batch).0 ≡ 450) × (full_budget money batch ≡ 500)
unfolding fund_buys sort_by
batch_is_fitted = (refl, refl)

fund_planned_orders-IsSplit_example :
    (sales : List (PlannedOrder ℕ)) × (funded : List (PlannedOrder ℕ)) × ((fund_planned_orders money
        batch).fundable
      ≡ sales ++ (mark_all (sells_of batch) ++ funded))
    × All IsLiquidation sales
    × IsSplit (buys_of batch) (funded, (fund_planned_orders money batch).rejected)
fund_planned_orders-IsSplit_example = fund_planned_orders-IsSplit money batch

-- A short sale of a name that cannot be borrowed, an order that is refused, and one that is taken.
abbrev short_of : String → PlannedOrder ℕ
short_of symbol = record (sell_of symbol 4 10) { opens_short = true; position_intent = sell_short }

abbrev legs_to_send : List (PlannedOrder ℕ)
legs_to_send = short_of "GME" ∷ buy_of "B" 5 90 ∷ buy_of "C" 3 70 ∷ []

-- It lends no shares, and refuses the first submission that it sees.
abbrev desk : Desk ℕ ℕ
desk = record {
  validate_short_sale = λ symbol quantity aim price s. (ok (some "hard to borrow"), s);
  submit_order = λ r s. if ltb s 1 then (err "halted", suc s) else (ok (some "id"), suc s);
}

legs_are_sent : submit_planned_orders desk legs_to_send 0 ≡ (
  ok (
      record { planned = short_of "GME"; sent_quantity = 0; status = not_feasible "hard to borrow" }
      ∷ record { planned = buy_of "B" 5 90; sent_quantity = 5; status = leg_rejected "halted" }
      ∷ record { planned = buy_of "C" 3 70; sent_quantity = 3; status = leg_submitted "id" }
      ∷ []),
  2,
)
unfolding submit_planned_orders order_quantity
legs_are_sent = refl

submit_planned_orders-SendsAll_example :
    (rs : List (LegResult ℕ)) × (s' : ℕ) × (submit_planned_orders desk legs_to_send 0 ≡ (ok rs, s'))
    × SendsAll desk 0 legs_to_send rs s'
submit_planned_orders-SendsAll_example =
    submit_planned_orders-SendsAll desk
      (λ symbol quantity aim price s. (some "hard to borrow", s, refl)) legs_to_send 0
