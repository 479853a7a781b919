-- ===== src/Reconcile/Tests.antt =====
-- A small broker, runs of the reconciliation against it, and the theorems at those runs.
use robo_trade.Base.{
  ℕ, suc, ltb, if◌then◌else◌, String, ◌≡◌, refl, List, [], ◌∷◌, some, none, ok, err,
}
use robo_trade.Base.Dict.{Dict}
use robo_trade.Base.Int.{ℤ, pos, whole_float}
use robo_trade.Text.{codes}
use robo_trade.Interfaces.{DesiredOrder, order, no_legs, buy, limit, day, equity, single}
use robo_trade.Reconcile.{
  WorkingOrder, Broker, Report, refused, cancelled, resubmitted, rejected, working_by_id,
  wanted_orders, needs_replacement, moved, reconcile_orders,
}
use robo_trade.Reconcile.Settled.{reconcile_orders_settled, unchanged_outcomes, recorded_ids}
use robo_trade.Reconcile.Loops.{IsReconciled, reconcile_orders-IsReconciled}

abbrev bid : String → ℕ → DesiredOrder ℤ
bid key price = record {
  key = key;
  request =
      order
        (record {
          symbol = "MSFT";
          action = buy;
          quantity = pos 1;
          order_type = limit;
          limit_price = some (pos price);
          stop_price = none;
          client_order_id = none;
          time_in_force = day;
          asset_type = equity;
          strategy = single;
          latest_price = none;
        })
        no_legs;
  replace_tolerance = pos 0;
}

abbrev at_work : String → ℕ → WorkingOrder ℤ
at_work id price = record {
  order_id = id;
  symbol = "MSFT";
  action = codes "BUY";
  quantity = pos 1;
  order_type = codes "limit";
  limit_price = some (pos price);
  stop_price = none;
}

-- It works two orders, cannot replace, and counts the calls that change it. It takes new orders until
-- the third call.
abbrev desk : Broker ℤ ℕ
desk = record {
  get_orders = λ s. (ok (at_work "a1" 10 ∷ at_work "b1" 20 ∷ []), s);
  cancel_order = λ id s. (ok tt, suc s);
  submit_order =
      λ r s. if ltb s 3 then (ok (some "c1"), suc s) else (err (refused "closed"), suc s);
  replace_order = λ id r s. (err (refused "not replaceable"), s);
}

abbrev held : Dict String
held = ("exit:MSFT", "a1") ∷ ("entry:MSFT", "b1") ∷ ("stop:MSFT", "gone") ∷ []

abbrev both_bids : List (DesiredOrder ℤ)
both_bids = bid "exit:MSFT" 10 ∷ bid "entry:MSFT" 20 ∷ []

reconcile_orders_settled_example : reconcile_orders desk both_bids held 0 ≡ (
  ok (record {
    results = unchanged_outcomes held (wanted_orders both_bids);
    order_ids = recorded_ids held (wanted_orders both_bids) [];
    working = at_work "a1" 10 ∷ at_work "b1" 20 ∷ [];
  }),
  0,
)
unfolding working_by_id wanted_orders needs_replacement moved
reconcile_orders_settled_example =
    reconcile_orders_settled desk both_bids held 0 0 (at_work "a1" 10 ∷ at_work "b1" 20 ∷ []) refl
      (
        ("a1", refl, (at_work "a1" 10, refl, refl)),
        (("b1", refl, (at_work "b1" 20, refl, refl)), tt),
      )
      (refl, (refl, (refl, tt)))

-- One order is no longer wanted, one has a new price, and one is new.
abbrev changed : List (DesiredOrder ℤ)
changed = bid "entry:MSFT" 25 ∷ bid "add:MSFT" 5 ∷ []

abbrev changed_report : Report ℤ
changed_report = record {
  results =
      record {
        key = "exit:MSFT";
        reconciled = cancelled;
        order_id = "a1";
        symbol = "MSFT";
        action = codes "BUY";
        quantity = pos 1;
        previous_order_id = none;
        reason = none;
      }
      ∷ record {
        key = "entry:MSFT";
        reconciled = resubmitted;
        order_id = "c1";
        symbol = "MSFT";
        action = codes "buy";
        quantity = pos 1;
        previous_order_id = some "b1";
        reason = none;
      }
      ∷ record {
        key = "add:MSFT";
        reconciled = rejected;
        order_id = "";
        symbol = "MSFT";
        action = codes "buy";
        quantity = pos 1;
        previous_order_id = none;
        reason = some (refused "closed");
      }
      ∷ [];
  order_ids = ("entry:MSFT", "c1") ∷ [];
  working = at_work "a1" 10 ∷ at_work "b1" 20 ∷ [];
}

changed_runs : reconcile_orders desk changed held 0 ≡ (ok changed_report, 4)
unfolding reconcile_orders
changed_runs = refl

reconcile_orders-IsReconciled_example : IsReconciled desk changed changed_report
reconcile_orders-IsReconciled_example =
    reconcile_orders-IsReconciled desk changed held 0 4 changed_report changed_runs
