-- ===== src/Journal/Tests.antt =====
-- Two runs in the journal, and the theorem at the second.
use robo_trade.Base.{ℕ, ◌≡◌, ◌≤◌, refl, false, String, List, [], ◌∷◌, map, take, length, arith}
use robo_trade.Journal.{OrderResult, Entry, entry, record_orders, load_order_journal}
use robo_trade.Journal.Kept.{of_account, of_strategy, latest_first, record_orders_lem}

abbrev sold : String → String → OrderResult ℕ
sold symbol status = record {
  symbol = symbol;
  action = "sell";
  status = status;
  quantity = 1;
  notional = 0;
  latest_price = 100;
  order_id = "";
  reason = "";
}

abbrev first_run : List (Entry ℕ)
first_run = map (entry "dca" "main" 5) (sold "A" "submitted" ∷ [])

abbrev second_run : List (OrderResult ℕ)
second_run = sold "B" "rejected" ∷ sold "C" "" ∷ []

reads_back :
    map
      (λ e. e.status)
      (load_order_journal "rally" "" 40 (record_orders "rally" "main" 6 false second_run first_run))
    ≡ "planned" ∷ "rejected" ∷ []
unfolding record_orders load_order_journal
reads_back = refl

record_orders_lem_example :
    let after = record_orders "rally" "main" 6 false second_run first_run in
    (length after ≤ 400)
    × (load_order_journal "rally" "" 2 after
        ≡ take 2 (
            of_account "" (
              of_strategy "rally"
                (take 400 (latest_first "rally" "main" 6 false second_run first_run)))))
record_orders_lem_example =
    record_orders_lem "rally" "main" 6 false second_run first_run "rally" "" 2 (omega arith)
