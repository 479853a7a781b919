-- ===== src/Paper.antt =====
-- src/brokerages/paper/brokerage.py: the book of a paper account, and what is read from it. Saving the
-- state is left out: the book is the state.
pub mod Fills
pub mod Dividends
mod Tests
use robo_trade.Base.{
  ℕ, String, Bool, true, false, not, ◌&&◌, ◌||◌, Option, none, some, List, [], ◌∷◌, if◌then◌else◌,
  get_or_else, leb, ltb, filter, map,
}
use robo_trade.Base.Dict.{Dict, lookup, insert}
use robo_trade.Base.Float.{
  Float, ◌⊕◌, ◌⊖◌, ◌⊗◌, ◌⊘◌, lt, zero_float, one_float, max_float, abs_float, nonzero,
}
use robo_trade.Base.Sort.{sort_by}
use robo_trade.Orders.{sum_from}

-- A row of `dividend_activity`. Days are ordinals.
pub record Payment (F : Type 0) : Type 0 where
  pub symbol : String
  pub ex_date : ℕ
  pub amount_per_share : F
  pub shares : F
  pub cash : F

-- `self.state`.
pub record Book (F : Type 0) : Type 0 where
  pub cash : F
  pub positions : Dict F
  pub prices : Dict F
  pub basis : Dict F
  pub dividend_income : F
  pub dividend_activity : List (Payment F)
  pub dividends_credited_through : Option ℕ

pub record AccountState (F : Type 0) : Type 0 where
  pub equity : F
  pub cash : F
  pub buying_power : F
  pub dividend_income : F

-- A row of `book`.
pub record BookRow (F : Type 0) : Type 0 where
  pub symbol : String
  pub qty : F
  pub avg_entry_price : F
  pub market_value : F
  pub unrealized_pl : F
  pub unrealized_plpc : F

module _ {F : Type 0} ⦃f : Float F⦄ where
  -- The book that the constructor makes where none is saved.
  abbrev pub new_book : F → Book F
  new_book starting_cash = record {
    cash = starting_cash;
    positions = [];
    prices = [];
    basis = [];
    dividend_income = zero_float;
    dividend_activity = [];
    dividends_credited_through = none;
  }

  abbrev values_of : Dict F → Dict F → List F
  values_of prices [] = []
  values_of prices ((symbol, shares) ∷ positions) =
      shares ⊗ get_or_else (lookup symbol prices) zero_float ∷ values_of prices positions

  -- `_market_value`.
  pub market_value : Book F → F
  market_value b = sum_from zero_float (values_of b.prices b.positions)

  -- `get_account_state`.
  unfoldable pub get_account_state : Book F → AccountState F
  unfolding market_value
  get_account_state b = record {
    equity = b.cash ⊕ market_value b;
    cash = b.cash;
    buying_power = max_float b.cash zero_float;
    dividend_income = b.dividend_income;
  }

  -- `get_positions`.
  abbrev pub get_positions : Book F → Dict F
  get_positions b = filter (λ e. nonzero e.1) b.positions

  abbrev book_row : Book F → String × F → BookRow F
  book_row b (symbol, shares) =
      let price : F = get_or_else (lookup symbol b.prices) zero_float in
      let entry : F = get_or_else (lookup symbol b.basis) zero_float in
      let known : Bool = nonzero entry && nonzero price in
      record {
        symbol = symbol;
        qty = shares;
        avg_entry_price = entry;
        market_value = shares ⊗ price;
        unrealized_pl = if known then (price ⊖ entry) ⊗ shares else zero_float;
        unrealized_plpc = if known then (price ⊘ entry) ⊖ one_float else zero_float;
      }

  -- The rows of `book`, the largest value first.
  unfoldable pub book : Book F → List (BookRow F)
  book b =
      sort_by (λ x y. not (lt (abs_float x.market_value) (abs_float y.market_value)))
        (map (book_row b) (get_positions b))

  abbrev marks_from : Dict F → Book F → List String → Dict F
  marks_from marks b [] = marks
  marks_from marks b (symbol ∷ symbols) =
      let price : F = get_or_else (lookup symbol b.prices) zero_float in
      marks_from (if lt zero_float price then insert symbol price marks else marks) b symbols

  -- `get_marks`.
  abbrev pub get_marks : Book F → List String → Dict F
  get_marks = marks_from []

  abbrev update_marks : Dict F → Dict F → Dict F
  update_marks [] prices = prices
  update_marks ((symbol, price) ∷ latest) prices =
      update_marks latest (if lt zero_float price then insert symbol price prices else prices)

  -- `mark_prices`.
  abbrev pub mark_prices : Dict F → Book F → Book F
  mark_prices latest b = record b { prices = update_marks latest b.prices }

  abbrev in_window : Option ℕ → Option ℕ → Payment F → Bool
  in_window start end p =
      elim start [ none ↦ true | some day ↦ leb day p.ex_date ]
      && elim end [ none ↦ true | some day ↦ leb p.ex_date day ]

  -- `get_dividend_activity`, for rows with a date.
  unfoldable pub get_dividend_activity : Option ℕ → Option ℕ → Book F → List (Payment F)
  get_dividend_activity start end b =
      sort_by (λ x y. not (ltb x.ex_date y.ex_date))
        (filter (in_window start end) b.dividend_activity)
