-- ===== src/Pipeline/Tests.antt =====
-- A small account whose orders are placed, and the theorems at it.
use robo_trade.Base.{
  ℕ, suc, ◌+◌, String, ◌≡◌, refl, true, false, List, [], ◌∷◌, ◌++◌, some, none, ok, err, map,
}
use robo_trade.Base.Dict.{Dict, mem_name}
use robo_trade.Base.Int.{ℤ, pos, negsuc, whole_float}
use robo_trade.Base.Sort.{sort_by, add_names}
use robo_trade.Interfaces.{sell}
use robo_trade.Orders.{PlannedOrder, sell_short, sell_to_close, sum_from}
use robo_trade.Orders.Targets.{Intent, notional, shares, weight, target, resolve_target_shares}
use robo_trade.Orders.Funding.{FundedBatch}
use robo_trade.Orders.Submission.{LegResult, not_feasible, Desk}
use robo_trade.Pipeline.Account.{
  Brokerage, Sizing, PortfolioSnapshot, no_price, read_snapshot, sizing_equity, spendable,
}
use robo_trade.Pipeline.Outcome.{
  Placement, OrderRow, leg_row, submitted_rows, submitted, resulting_positions, weight_diff,
}
use robo_trade.Pipeline.{unpriced, plan_batch, place_orders, placement}
use robo_trade.Pipeline.Guards.{place_orders_unpriced}
use robo_trade.Pipeline.Positions.{shares_of, moves, clip, resulting_positions_ledger}
use robo_trade.Pipeline.Accounts.{IsAccounted, place_orders-IsAccounted, placement_unsent}

abbrev held : Dict ℤ
held = ("A", pos 10) ∷ ("B", pos 4) ∷ []

abbrev prices : Dict ℤ
prices = ("A", pos 100) ∷ ("B", pos 50) ∷ ("C", pos 20) ∷ []

-- The state counts the orders that were submitted, and each marking of the prices as a hundred.
abbrev desk : Desk ℤ ℕ
desk = record {
  validate_short_sale = λ symbol quantity aim price s. (ok (some "hard to borrow"), s);
  submit_order = λ r s. (ok (some "id"), suc s);
}

abbrev account : Brokerage ℤ ℕ
account = record {
  desk = desk;
  get_account_state = λ s.
      (ok (record { equity = some (pos 5000); cash = some (pos 3800); buying_power = none }), s);
  get_positions = λ s. (ok held, s);
  get_cash_equivalents = λ s. (ok [], s);
  mark_prices = λ prices s. (ok tt, s + 100);
  supports_fractional_shares = false;
}

abbrev config : Sizing ℤ
config = record {
  algorithm_equity_cap = pos 4000;
  cash_buffer = pos 0;
  min_trade_dollars = pos 10;
  rebalance_threshold = pos 0;
}

abbrev intents : List (Intent ℤ)
intents =
    record { symbol = "A"; kind = shares; value = pos 3 }
    ∷ record { symbol = "C"; kind = notional; value = pos 207 }
    ∷ []

abbrev snapshot : PortfolioSnapshot ℤ
snapshot = record { positions = held; equity = pos 4000; cash = pos 3800; buying_power = pos 3800 }

account_is_read : read_snapshot config account 7 ≡ (ok snapshot, 7)
unfolding read_snapshot sizing_equity spendable
account_is_read = refl

abbrev unquoted : Intent ℤ
unquoted = record { symbol = "Z"; kind = weight; value = pos 1 }

place_orders_unpriced_example :
    (names : List String) × (mem_name "Z" names ≡ true)
    × (place_orders config account prices target (intents ++ (unquoted ∷ [])) 7
        ≡ (err (no_price names), 7))
place_orders_unpriced_example =
    place_orders_unpriced config account prices target intents [] unquoted snapshot 7 7
      account_is_read refl refl

nothing_unpriced : unpriced prices intents ≡ []
unfolding unpriced add_names
nothing_unpriced = refl

intents_sized :
    resolve_target_shares held prices (pos 4000) false intents target
    ≡ ok (("A", pos 3) ∷ ("B", pos 0) ∷ ("C", pos 10) ∷ [])
unfolding resolve_target_shares
intents_sized = refl

place_orders-IsAccounted_example :
    (p : Placement ℤ) × (last : ℕ) × (place_orders config account prices target intents 7
      ≡ (ok p, last))
    × IsAccounted account prices
        (plan_batch config account prices target intents snapshot
          (("A", pos 3) ∷ ("B", pos 0) ∷ ("C", pos 10) ∷ []))
        7
        p
        last
place_orders-IsAccounted_example =
    place_orders-IsAccounted config account prices target intents snapshot
      (("A", pos 3) ∷ ("B", pos 0) ∷ ("C", pos 10) ∷ []) [] 7 7 7
      (λ symbol quantity aim price s. (some "hard to borrow", s, refl)) (λ s. (s + 100, refl))
      account_is_read nothing_unpriced intents_sized refl

abbrev short_row : PlannedOrder ℤ
short_row = record {
  symbol = "GME";
  action = sell;
  quantity = pos 4;
  target_weight = pos 0;
  target_shares = negsuc 3;
  current_shares = pos 0;
  trade_dollars = pos 40;
  latest_price = pos 10;
  position_intent = sell_short;
  opens_short = true;
  short_shares_after = pos 4;
  requested_quantity = pos 4;
  funding_status = none;
  from_cash_equivalent = false;
}

abbrev refused : LegResult ℤ
refused = record {
  planned = short_row;
  sent_quantity = pos 0;
  status = not_feasible "hard to borrow";
}

abbrev short_batch : FundedBatch ℤ
short_batch = record { fundable = short_row ∷ []; rejected = []; report = none }

placement_unsent_example :
    let p =
      placement config account prices target [] snapshot
        (short_row ∷ [])
        short_batch
        (refused ∷ []) in
    (p.status ≡ submitted) × (submitted_rows p.order_results ≡ [])
placement_unsent_example =
    placement_unsent config account prices target [] snapshot (short_row ∷ []) short_batch refused
      [] (("hard to borrow", refl), tt) refl refl

abbrev sold : OrderRow ℤ
sold = leg_row (record {
  planned = record short_row { symbol = "B"; position_intent = sell_to_close; opens_short = false };
  sent_quantity = pos 4;
  status = not_feasible "";
})

positions_follow : resulting_positions held (sold ∷ []) ≡ ("A", pos 10) ∷ []
unfolding resulting_positions
positions_follow = refl

resulting_positions_ledger_example :
    shares_of "B" (resulting_positions held (sold ∷ []))
    ≡ clip (sum_from (pos 4) (moves "B" (sold ∷ [])))
resulting_positions_ledger_example =
    resulting_positions_ledger "B" (sold ∷ []) held (refl, (refl, tt))

diff_is_sorted :
    map (λ row. row.symbol) (weight_diff (("A", pos 2) ∷ ("B", pos 9) ∷ []) (("A", pos 3) ∷ []))
    ≡ "B" ∷ "A" ∷ []
unfolding weight_diff sort_by add_names
diff_is_sorted = refl
