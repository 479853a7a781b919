-- ===== src/Pipeline/Account.antt =====
-- src/core/pipeline.py: the account that `place_orders` reads, with the calls of a brokerage and the
-- snapshot that is taken of it.
use robo_trade.Base.{
  String, Bool, Option, List, [], ◌∷◌, if◌then◌else◌, Result, ok, err, get_or_else,
}
use robo_trade.Base.Dict.{Dict}
use robo_trade.Base.Exec.{Exec, pure, ◌>>=◌}
use robo_trade.Base.Float.{Float, ◌⊗◌, ◌⊘◌, le, lt, zero_float, max_float, min_float}
use robo_trade.Orders.Targets.{ModeError, price_of}
use robo_trade.Orders.Funding.{Holding}
use robo_trade.Orders.Submission.{Desk}

-- What a brokerage reports of its account; `none` is a missing entry.
pub record AccountReport (F : Type 0) : Type 0 where
  pub equity : Option F
  pub cash : Option F
  pub buying_power : Option F

-- The calls of a brokerage, besides the two that the submission makes.
pub record Brokerage (F S : Type 0) : Type 0 where
  pub desk : Desk F S
  pub get_account_state : Exec String S (AccountReport F)
  pub get_positions : Exec String S (Dict F)
  pub get_cash_equivalents : Exec String S (Dict (Holding F))
  pub mark_prices : Dict F → Exec String S (Unit {0})
  pub supports_fractional_shares : Bool

pub record PortfolioSnapshot (F : Type 0) : Type 0 where
  pub positions : Dict F
  pub equity : F
  pub cash : F
  pub buying_power : F

-- The fields of the configuration that are read here.
pub record Sizing (F : Type 0) : Type 0 where
  pub algorithm_equity_cap : F
  pub cash_buffer : F
  pub min_trade_dollars : F
  pub rebalance_threshold : F

pub data PlaceError : Type 0 where
  no_price : List String → PlaceError
  bad_mode : ModeError → PlaceError
  broker_error : String → PlaceError

abbrev pub from_broker : {A S : Type 0} → Result String A → S → Result PlaceError A × S
from_broker (ok a) s = (ok a, s)
from_broker (err reason) s = (err (broker_error reason), s)

-- A call of the brokerage inside `place_orders`.
abbrev pub call_broker : {S A : Type 0} → Exec String S A → Exec PlaceError S A
call_broker m s = let (r, s') = m s in from_broker r s'

module _ {F : Type 0} ⦃f : Float F⦄ where
  -- `sizing_equity`.
  unfoldable pub sizing_equity : Sizing F → F → F
  sizing_equity config account_equity =
      let cap : F = max_float config.algorithm_equity_cap zero_float in
      if lt zero_float cap then min_float account_equity cap else account_equity

  -- `buying_power`: what was reported, the cash where it was not, and the equity where neither was.
  unfoldable pub spendable : AccountReport F → F
  spendable report =
      get_or_else report.buying_power
        (get_or_else report.cash (get_or_else report.equity zero_float))

  -- `PortfolioSnapshot.weights`.
  abbrev holding_weights : Dict F → F → Dict F → Dict F
  holding_weights prices equity [] = []
  holding_weights prices equity ((k, n) ∷ d) =
      let rest = holding_weights prices equity d in
      let price : F = price_of prices k in
      if lt zero_float price then (k, (n ⊗ price) ⊘ equity) ∷ rest else rest

  unfoldable pub snapshot_weights : PortfolioSnapshot F → Dict F → Dict F
  snapshot_weights snapshot prices =
      if le snapshot.equity zero_float
      then []
      else holding_weights prices snapshot.equity snapshot.positions

module _ {F S : Type 0} ⦃f : Float F⦄ where
  -- `read_snapshot`.
  unfoldable pub read_snapshot : Sizing F → Brokerage F S → Exec PlaceError S (PortfolioSnapshot F)
  unfolding sizing_equity spendable
  read_snapshot config b = do
    report ← call_broker b.get_account_state
    positions ← call_broker b.get_positions
    pure (record {
      positions = positions;
      equity = sizing_equity config (get_or_else report.equity zero_float);
      cash = get_or_else report.cash zero_float;
      buying_power = spendable report;
    })
