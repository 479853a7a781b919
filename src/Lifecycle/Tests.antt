-- ===== src/Lifecycle/Tests.antt =====
-- One symbol through a bid, a hold and its last day, in whole cents, and the theorems there.
use robo_trade.Base.{
  ℕ, String, ◌≡◌, refl, true, false, Option, none, some, List, [], ◌∷◌, map, Result, ok, err, ◌*◌,
  ◌/◌, arith,
}
use robo_trade.Base.Float.{Float, IsOrdered}
use robo_trade.Base.Float.Exact.{whole}
use robo_trade.Interfaces.{DesiredOrder, ticket, order, no_legs, OrderError}
use robo_trade.Options.{OptionContract, call}
use robo_trade.Lifecycle.State.{Memory, Situation, SymbolPlan, no_memory}
use robo_trade.Lifecycle.{plan_symbol}
use robo_trade.Lifecycle.Bracket.{target_leg, stop_leg, bracket_orders}
use robo_trade.Lifecycle.Bidding.{bid_plan, entry_ticket}
use robo_trade.Lifecycle.Holding.{held_target}
use robo_trade.Lifecycle.Bid.{BidsOrStands, plan_symbol-BidsOrStands, plan_symbol_forgets}
use robo_trade.Lifecycle.Held.{Exits, plan_symbol-Exits}

instance abbrev cents : Float ℕ
cents = record whole {
  ratio = λ n d. n * 100 / d;
  times = λ a b. a * b / 100;
  divide = λ a b. a * 100 / b;
  power = λ a b. a;
}

ordered : IsOrdered ℕ
ordered = record {
  le_refl = λ a. ground arith;
  le_trans = λ a b c h k. ground arith;
  lt-eq-not-le = λ a b. ground arith;
  le_total = λ a b. ground arith;
}

-- A call that trades at 2.00.
abbrev quoted : OptionContract ℕ
quoted = record {
  osi_symbol = "SPY250117C00500000";
  option_type = call;
  strike = 50000;
  bid = 190;
  ask = 210;
  mark = 0;
  delta = 50;
}

-- Half of the session is left, and the pullback is two dollars below the market.
abbrev noon : Situation ℕ
noon = record {
  symbol = "SPY";
  contracts = 2;
  underlying_now = 50000;
  entry_target = 50000;
  exit_target = 50100;
  settings = record {
    stop_loss_pct = 50;
    entry_patience = 100;
    exit_patience = 100;
    exit_gain_share = 70;
    max_hold_sessions = 3;
  };
  session = record { fraction_remaining = 50; day_changed = false; market_day = "2025-01-06" };
  holds_oco = true;
}

abbrev prices_of : List (DesiredOrder ℕ) → List (String × Option ℕ)
prices_of = map (λ d. let e : String × Option ℕ = (d.key, (ticket d.request).limit_price) in e)

abbrev bid_of_noon : SymbolPlan ℕ
bid_of_noon = bid_plan noon "call" quoted (order (entry_ticket noon quoted) no_legs)

bids : plan_symbol noon no_memory "" "call" (some quoted) ≡ ok bid_of_noon
unfolding plan_symbol
bids = refl

bids_at_mark :
    let expected : List (String × Option ℕ) = ("SPY:entry", some 200) ∷ [] in
    prices_of bid_of_noon.orders ≡ expected
bids_at_mark = refl

plan_symbol-BidsOrStands_example : BidsOrStands noon "call" (some quoted) bid_of_noon
plan_symbol-BidsOrStands_example =
    plan_symbol-BidsOrStands ordered noon no_memory "call" (some quoted) bid_of_noon bids

abbrev keys_of : Result OrderError (List (DesiredOrder ℕ)) → List String
keys_of (ok os) = map (λ d. d.key) os
keys_of (err e) = []

-- What the bid of the day before left in the memory.
abbrev after_fill : Memory ℕ
after_fill = record bid_of_noon.memory { mark = 220; delta = 50; sessions_held = 1 }

plan_symbol_forgets_example :
    plan_symbol noon after_fill "" "call" (some quoted)
    ≡ plan_symbol noon no_memory "" "call" (some quoted)
plan_symbol_forgets_example = plan_symbol_forgets noon after_fill no_memory "call" (some quoted)

plan_symbol-Exits_example :
    (p : SymbolPlan ℕ) × (plan_symbol noon after_fill "SPY250117C00500000" "call" none ≡ ok p)
    × Exits noon after_fill "SPY250117C00500000" p
plan_symbol-Exits_example =
    plan_symbol-Exits ordered (λ x h. ground arith) (λ x h. ground arith) noon after_fill
      "SPY250117C00500000" "call" none refl

-- On the third day the target is at the entry, and an hour before the end it is near the mark.
last_day :
    held_target
      (record noon { session = record noon.session { fraction_remaining = 25 } })
      (record after_fill { mark = 120; sessions_held = 3 })
    ≡ 140
last_day = refl

-- With the stop off there is one order, and with it there is a pair.
stop_off_and_on :
    (keys_of (bracket_orders "SPY" "C" 2 240 0 true) ≡ "SPY:target" ∷ [])
    × (keys_of (bracket_orders "SPY" "C" 2 240 100 true) ≡ "SPY:bracket" ∷ [])
    × (keys_of (bracket_orders "SPY" "C" 2 240 100 false) ≡ "SPY:target" ∷ "SPY:stop" ∷ [])
unfolding bracket_orders target_leg stop_leg
stop_off_and_on = (refl, refl, refl)
