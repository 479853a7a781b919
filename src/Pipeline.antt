-- ===== src/Pipeline.antt =====
-- src/core/pipeline.py: from intents to the orders of an account. The brokerage is a parameter, whose
-- calls change its own state and may raise.
pub mod Account
pub mod Outcome
pub mod Guards
pub mod Accounts
pub mod Positions
mod Tests
use robo_trade.Base.{
  String, Bool, true, false, not, ◌&&◌, Option, none, some, List, [], ◌∷◌, ◌++◌, if◌then◌else◌,
  filter, Result, ok, err, get_or_else,
}
use robo_trade.Base.Dict.{Dict, lookup, insert, keys}
use robo_trade.Base.Exec.{Exec, pure, raise, proceed, ◌>>=◌, ◌>>◌}
use robo_trade.Base.Float.{
  Float, ◌⊕◌, ◌⊖◌, ◌⊗◌, ◌⊘◌, le, lt, zero_float, one_float, max_float, min_float, abs_float,
}
use robo_trade.Base.Sort.{sort_by, add_names}
use robo_trade.Orders.{
  PlannedOrder, FundingStatus, reduced, full, unfunded, Policy, pro_rata, greedy, is_buy,
  share_epsilon,
}
use robo_trade.Orders.Targets.{
  IntentKind, weight, notional, shares, Intent, Mode, target, incremental, unknown, ModeError,
  price_of, resolve_target_shares,
}
use robo_trade.Orders.Planning.{Limits, plan_share_orders}
use robo_trade.Orders.Funding.{Holding, Funds, FundingReport, FundedBatch, fund_planned_orders}
use robo_trade.Orders.Submission.{
  Desk, LegStatus, not_feasible, leg_rejected, leg_submitted, LegResult, submit_planned_orders,
}
use robo_trade.Pipeline.Account.{
  AccountReport, Brokerage, PortfolioSnapshot, Sizing, PlaceError, no_price, bad_mode, broker_error,
  from_broker, call_broker, sizing_equity, spendable, snapshot_weights, read_snapshot,
}
use robo_trade.Pipeline.Outcome.{
  OrderRow, leg_row, unfunded_leg, RowStatus, row_submitted, row_rejected, row_unfunded, no_status,
  row_status, is_submitted, is_rejected, BatchStatus, no_orders, rejected, partial, submitted,
  submitted_reduced, batch_unfunded, is_nonempty, submitted_rows, rejected_rows, batch_status,
  is_reduced, sent_rows, unfunded_rows, add_leg, add_legs, still_held, resulting_positions,
  DiffAction, add, trim, hold, DiffRow, Placement, weight_diff,
}

abbrev pub needs_price : IntentKind → Bool
needs_price weight = true
needs_price notional = true
needs_price shares = false

module _ {F : Type 0} ⦃f : Float F⦄ where
  -- `weights_from_intents`.
  abbrev pub weights_from : List (Intent F) → Dict F → Dict F
  weights_from [] acc = acc
  weights_from (i ∷ is) acc = elim i.kind [
    | weight ↦ weights_from is (insert i.symbol i.value acc)
    | notional ↦ weights_from is acc
    | shares ↦ weights_from is acc
  ]

  abbrev pub lacks_price : Dict F → Intent F → Bool
  lacks_price prices i = needs_price i.kind && le (price_of prices i.symbol) zero_float

  abbrev pub intent_symbols : List (Intent F) → List String
  intent_symbols [] = []
  intent_symbols (i ∷ is) = i.symbol ∷ intent_symbols is

  -- `unpriced`.
  unfoldable pub unpriced : Dict F → List (Intent F) → List String
  unpriced prices intents = add_names (intent_symbols (filter (lacks_price prices) intents)) []

  -- `reserve`.
  abbrev pub reserve_of : Sizing F → F → F
  reserve_of config equity = equity ⊗ max_float zero_float (min_float one_float config.cash_buffer)

-- `policy`.
abbrev policy_of : Mode → Policy
policy_of target = pro_rata
policy_of incremental = greedy
policy_of (unknown mode) = pro_rata

module _ {F S : Type 0} ⦃f : Float F⦄ where
  abbrev limits_of : Sizing F → Brokerage F S → Limits F
  limits_of config b = record {
    min_trade_dollars = config.min_trade_dollars;
    rebalance_threshold = config.rebalance_threshold;
    fractional = b.supports_fractional_shares;
  }

  abbrev pub funds_of :
      Sizing F → Brokerage F S → Mode → PortfolioSnapshot F → Dict (Holding F) → Funds F
  funds_of config b mode snapshot holdings = record {
    buying_power = snapshot.buying_power;
    reserve = reserve_of config snapshot.equity;
    cash_equivalents = holdings;
    min_trade_dollars = config.min_trade_dollars;
    fractional = b.supports_fractional_shares;
    policy = policy_of mode;
  }

  module _ (config : Sizing F) (b : Brokerage F S) (prices : Dict F) (mode : Mode) where
    -- What is returned for the rows of a batch.
    unfoldable pub placement :
        List (Intent F)
        → PortfolioSnapshot F
        → List (PlannedOrder F)
        → FundedBatch F
        → List (LegResult F)
        → Placement F
    unfolding batch_status resulting_positions snapshot_weights weight_diff
    placement intents snapshot planned batch results =
        let rows : List (OrderRow F) = sent_rows results ++ unfunded_rows batch.rejected in
        let resulting : Dict F =
          snapshot_weights
            (record snapshot {
              positions = resulting_positions snapshot.positions (submitted_rows rows);
            })
            prices in
        record {
          mode = mode;
          status =
              batch_status (is_nonempty rows) (is_nonempty (submitted_rows rows))
                (is_nonempty (rejected_rows rows)) (is_nonempty batch.rejected)
                (is_nonempty (filter is_reduced batch.fundable));
          equity = snapshot.equity;
          final_weights = resulting;
          final_intents = intents;
          diff = weight_diff (snapshot_weights snapshot prices) resulting;
          planned_orders = planned;
          order_results = rows;
          funding = batch.report;
          unfunded = batch.rejected;
          rejected = rejected_rows rows;
        }

    -- From the planned batch on: the money, the submission and the marks.
    unfoldable pub send_batch :
        List (Intent F)
        → PortfolioSnapshot F
        → List (PlannedOrder F)
        → Exec PlaceError S (Placement F)
    unfolding placement
    send_batch intents snapshot planned = do
      holdings ← call_broker b.get_cash_equivalents
      let batch : FundedBatch F =
          fund_planned_orders (funds_of config b mode snapshot holdings) planned
      results ← call_broker (submit_planned_orders b.desk batch.fundable)
      call_broker (b.mark_prices prices)
      pure (placement intents snapshot planned batch results)

    -- `planned_orders`.
    abbrev pub plan_batch : List (Intent F) → PortfolioSnapshot F → Dict F → List (PlannedOrder F)
    plan_batch intents snapshot sized =
        plan_share_orders prices snapshot.positions sized (weights_from intents []) snapshot.equity
          (limits_of config b)

    -- From the snapshot on, for intents that are priced.
    unfoldable pub place_sized :
        List (Intent F)
        → PortfolioSnapshot F
        → Result ModeError (Dict F)
        → Exec PlaceError S (Placement F)
    unfolding send_batch
    place_sized intents snapshot (err raised) = raise (bad_mode raised)
    place_sized intents snapshot (ok sized) =
        send_batch intents snapshot (plan_batch intents snapshot sized)

    abbrev pub place_if_priced :
        List (Intent F) → PortfolioSnapshot F → List String → Exec PlaceError S (Placement F)
    place_if_priced intents snapshot (k ∷ ks) = raise (no_price (k ∷ ks))
    place_if_priced intents snapshot [] = place_sized intents snapshot (
        resolve_target_shares snapshot.positions prices snapshot.equity b.supports_fractional_shares
          intents mode)

    -- `place_orders`.
    unfoldable pub place_orders : List (Intent F) → Exec PlaceError S (Placement F)
    unfolding read_snapshot unpriced
    place_orders intents = do
      snapshot ← read_snapshot config b
      place_if_priced intents snapshot (unpriced prices intents)
