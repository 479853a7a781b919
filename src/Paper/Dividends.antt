-- ===== src/Paper/Dividends.antt =====
-- `credit_dividends`: the cash of dividends, once for each. The store of dividends is a parameter.
use robo_trade.Base.{
  ℕ, ◌+◌, ◌-◌, ◌≤◌, String, ◌≡◌, refl, sym, ap, Bool, true, false, ◌&&◌, Option, some, is_some,
  List, [], ◌∷◌, ◌++◌, if◌then◌else◌, get_or_else, leb, take_last, length, length-drop, All, arith,
}
use robo_trade.Base.Dict.{Dict, lookup, keys}
use robo_trade.Base.Float.{Float, ◌⊕◌, ◌⊗◌, lt, zero_float, abs_float}
use robo_trade.Base.Sort.{add_names}
use robo_trade.Orders.{share_epsilon}
use robo_trade.Paper.{Book, Payment, get_positions}

-- A row of `read_dividends`, with its symbol in upper case, as the code reads it.
pub record DividendRow (F : Type 0) : Type 0 where
  pub symbol : String
  pub ex_date : ℕ
  pub amount : F

-- `read_dividends(symbols, start, end)`.
abbrev pub ReadDividends : Type 0 → Type 0
ReadDividends F = List String → ℕ → ℕ → List (DividendRow F)

-- What the loop has added up.
pub record Credits (F : Type 0) : Type 0 where
  pub credited : F
  pub events : ℕ
  pub paid : List (Payment F)

module _ {F : Type 0} ⦃f : Float F⦄ where
  abbrev payment : DividendRow F → F → Payment F
  payment row shares = record {
    symbol = row.symbol;
    ex_date = row.ex_date;
    amount_per_share = row.amount;
    shares = shares;
    cash = shares ⊗ row.amount;
  }

  -- One turn of the loop.
  pub credit_row : Bool → ℕ → Dict F → DividendRow F → Credits F → Credits F
  credit_row counted start positions row c =
      let shares : F = get_or_else (lookup row.symbol positions) zero_float in
      if counted && leb row.ex_date start
      then c
      else if lt (abs_float shares) share_epsilon
      then c
      else record {
        credited = c.credited ⊕ (shares ⊗ row.amount);
        events = c.events + 1;
        paid = c.paid ++ payment row shares ∷ [];
      }

  pub credit_rows : Bool → ℕ → Dict F → List (DividendRow F) → Credits F → Credits F
  unfolding credit_row
  credit_rows counted start positions [] c = c
  credit_rows counted start positions (row ∷ rows) c =
      credit_rows counted start positions rows (credit_row counted start positions row c)

  module _ (read : ReadDividends F) where
    -- The credits of the window up to a day, for an account that holds something.
    pub credits_of : ℕ → Book F → Credits F
    unfolding credit_rows
    credits_of as_of b =
        let start : ℕ = get_or_else b.dividends_credited_through as_of in
        credit_rows (is_some b.dividends_credited_through) start (get_positions b)
          (read (add_names (keys (get_positions b)) []) start as_of)
          (record { credited = zero_float; events = 0; paid = b.dividend_activity })

    abbrev credited_book : ℕ → Credits F → Book F → Book F
    credited_book as_of c b = record b {
      cash = b.cash ⊕ c.credited;
      dividend_income = b.dividend_income ⊕ c.credited;
      dividend_activity = take_last 200 c.paid;
      dividends_credited_through = some as_of;
    }

    abbrev is_empty_dict : Dict F → Bool
    is_empty_dict [] = true
    is_empty_dict (e ∷ es) = false

    -- The two ends of `credit_dividends`: for an account that holds nothing, and for one that does.
    pub credit_result : ℕ → Book F → Bool → (F × ℕ) × Book F
    unfolding credits_of
    credit_result as_of b true =
        ((zero_float, 0), record b { dividends_credited_through = some as_of })
    credit_result as_of b false =
        let c : Credits F = credits_of as_of b in ((c.credited, c.events), credited_book as_of c b)

    -- `credit_dividends`, with its sum and its number of events.
    unfoldable pub credit_dividends : ℕ → Book F → (F × ℕ) × Book F
    unfolding credit_result
    credit_dividends as_of b = credit_result as_of b (is_empty_dict (get_positions b))

    credit_rows_counted :
        (start : ℕ) (positions : Dict F) (rows : List (DividendRow F)) (c : Credits F)
        → All (λ row. row.ex_date ≤ start) rows
        → credit_rows true start positions rows c ≡ c
    unfolding credit_rows
    credit_rows_counted start positions [] c h = refl
    credit_rows_counted start positions (row ∷ rows) c h =
        rw (let e : leb row.ex_date start ≡ true = ground (arith, h.0) in e)
          (credit_rows_counted start positions rows c h.1)

    take_last-all : {A : Type 0} (n : ℕ) (xs : List A) → length xs ≤ n → take_last n xs ≡ xs
    take_last-all n xs h = rw (let e : length xs - n ≡ 0 = omega arith in e)

    length-take_last_le : {A : Type 0} (n : ℕ) (xs : List A) → length (take_last n xs) ≤ n
    length-take_last_le n xs = omega (arith, length-drop (length xs - n) xs)

    module _
        (within : (names : List String) (start end : ℕ)
          → All (λ row. row.ex_date ≤ end) (read names start end))
        (add_zero : (x : F) → x ⊕ zero_float ≡ x) where
      credits_again :
          (as_of : ℕ) (b : Book F)
          → b.dividends_credited_through ≡ some as_of
          → credits_of as_of b
            ≡ record { credited = zero_float; events = 0; paid = b.dividend_activity }
      unfolding credits_of
      credits_again as_of b e =
          rw e (credit_rows_counted as_of (get_positions b) _ _ (within _ as_of as_of))

      credited_book-same :
          (as_of : ℕ) (b : Book F)
          → b.dividends_credited_through ≡ some as_of
          → length b.dividend_activity ≤ 200
          → credited_book as_of
              (record { credited = zero_float; events = 0; paid = b.dividend_activity })
              b
            ≡ b
      credited_book-same as_of b e small =
          rw
            (
              add_zero b.cash,
              add_zero b.dividend_income,
              take_last-all 200 b.dividend_activity small,
            )
            (ap (λ (x : Option ℕ). record b { dividends_credited_through = x }) (sym e))

      -- A second run on a book that is up to date.
      credit-current :
          (as_of : ℕ) (b : Book F) (empty : Bool)
          → b.dividends_credited_through ≡ some as_of
          → (empty ≡ false → length b.dividend_activity ≤ 200)
          → credit_result as_of b empty ≡ ((zero_float, 0), b)
      unfolding credit_result
      credit-current as_of b true e small =
          ap (λ (x : Option ℕ). ((zero_float, 0), record b { dividends_credited_through = x }))
            (sym e)
      credit-current as_of b false e small =
          rw (credits_again as_of b e, credited_book-same as_of b e (small refl))

      credit-twice :
          (as_of : ℕ) (b : Book F) (empty : Bool)
          → is_empty_dict (get_positions b) ≡ empty
          → credit_dividends as_of (credit_result as_of b empty).1
            ≡ ((zero_float, 0), (credit_result as_of b empty).1)
      unfolding credit_dividends
      credit-twice as_of b true e =
          credit-current as_of (record b { dividends_credited_through = some as_of })
            (is_empty_dict (get_positions b)) refl (λ no. cc)
      credit-twice as_of b false e =
          credit-current as_of (credited_book as_of (credits_of as_of b) b)
            (is_empty_dict (get_positions b)) refl
            (λ no. length-take_last_le 200 (credits_of as_of b).paid)

      -- A second run on the same day is no second payday: it credits nothing, counts no event and
      -- leaves the book as the first run left it. The store answers with rows of the window that was
      -- asked for, and adding zero changes no number.
      pub credit_dividends_once :
          (as_of : ℕ) (b : Book F)
          → let b' = (credit_dividends as_of b).1 in
            credit_dividends as_of b' ≡ ((zero_float, 0), b')
      unfolding credit_dividends
      credit_dividends_once as_of b = credit-twice as_of b (is_empty_dict (get_positions b)) refl
