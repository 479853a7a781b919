-- ===== src/Paper/Tests.antt =====
-- A paper account through a few fills and a dividend, and the theorems at it.
use robo_trade.Base.{
  ℕ, ◌≡◌, refl, arith, All, String, List, [], ◌∷◌, some, none, err, Bool-cases, inl, inr, ◌≤◌, leb,
  filter, map, length,
}
use robo_trade.Base.Float.{Float}
use robo_trade.Base.Float.Exact.{whole}
use robo_trade.Base.Int.{ℤ, pos, whole_float}
use robo_trade.Interfaces.{Side, OrderRequest, order, no_legs, buy, market, day, equity, single}
use robo_trade.Base.Sort.{sort_by}
use robo_trade.Paper.{
  Book, new_book, book, get_account_state, get_marks, mark_prices, get_dividend_activity,
}
use robo_trade.Paper.Fills.{no_funds, submit_order}
use robo_trade.Paper.Fills.Tracked.{IsTracked, IsKeptIfRefused, submit_order-IsTracked}
use robo_trade.Paper.Dividends.{ReadDividends, credit_dividends, credit_dividends_once}

abbrev trade : Side → ℕ → ℕ → OrderRequest ℤ
trade side quantity price =
    order
      (record {
        symbol = "MSFT";
        action = side;
        quantity = pos quantity;
        order_type = market;
        limit_price = none;
        stop_price = none;
        client_order_id = none;
        time_in_force = day;
        asset_type = equity;
        strategy = single;
        latest_price = some (pos price);
      })
      no_legs

-- Whole dollars divide to whole dollars: the basis points of the cost are rounded away here.
abbrev first_buy : Book ℤ
first_buy = record (new_book (pos 1000)) {
  cash = pos 800;
  positions = ("MSFT", pos 2) ∷ [];
  basis = ("MSFT", pos 100) ∷ [];
  prices = ("MSFT", pos 100) ∷ [];
}

buys : (submit_order "paper-1" (pos 0) (trade buy 2 100) (new_book (pos 1000))).1 ≡ first_buy
unfolding submit_order
buys = refl

averages :
    (submit_order "paper-2" (pos 0) (trade buy 2 200) first_buy).1.basis ≡ ("MSFT", pos 150) ∷ []
unfolding submit_order
averages = refl

refuses : submit_order "paper-3" (pos 0) (trade buy 9 100) first_buy ≡ (err no_funds, first_buy)
unfolding submit_order
refuses = refl

submit_order-IsTracked_example :
    IsTracked (submit_order "paper-3" (pos 0) (trade buy 9 100) first_buy).1
    × IsKeptIfRefused first_buy (submit_order "paper-3" (pos 0) (trade buy 9 100) first_buy)
submit_order-IsTracked_example =
    submit_order-IsTracked refl "paper-3" (pos 0) (trade buy 9 100) first_buy (λ k. ground arith)

-- The marks move the equity, and the rows come by value.
two_holdings :
    let b : Book ℤ =
      mark_prices
        (("KO", pos 30) ∷ ("MSFT", pos 0) ∷ [])
        (record first_buy { positions = ("KO", pos 1) ∷ ("MSFT", pos 2) ∷ [] }) in
    ((get_account_state b).equity ≡ pos 1030)
    × (map (λ row. row.symbol) (book b) ≡ "MSFT" ∷ "KO" ∷ [])
    × (get_marks b ("MSFT" ∷ "T" ∷ []) ≡ ("MSFT", pos 100) ∷ [])
unfolding get_account_state book sort_by
two_holdings = (refl, refl, refl)

-- One dividend, on day 50.
abbrev store : ReadDividends ℕ
store names start end =
    filter (λ row. leb row.ex_date end) (record { symbol = "KO"; ex_date = 50; amount = 2 } ∷ [])

instance abbrev exact_float : Float ℕ
exact_float = whole

abbrev holder : Book ℕ
holder = record (new_book 100) { positions = ("KO", 7) ∷ []; dividends_credited_through = some 49 }

pays_once : (credit_dividends store 51 holder).0 ≡ (14, 1)
unfolding credit_dividends
pays_once = refl

reports_payment :
    length (get_dividend_activity (some 40) (some 50) (credit_dividends store 51 holder).1) ≡ 1
unfolding get_dividend_activity credit_dividends sort_by
reports_payment = refl

within :
    (names : List String) (start end : ℕ) → All (λ row. row.ex_date ≤ end) (store names start end)
within names start end = elim (Bool-cases (leb 50 end)) [
  | inl reached ↦ rw reached (ground arith, tt)
  | inr later ↦ rw later tt
]

credit_dividends_once_example :
    credit_dividends store 51 (credit_dividends store 51 holder).1
    ≡ ((0, 0), (credit_dividends store 51 holder).1)
credit_dividends_once_example = credit_dividends_once store within (λ x. omega arith) 51 holder
