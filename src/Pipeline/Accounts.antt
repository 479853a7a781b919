-- ===== src/Pipeline/Accounts.antt =====
-- Where each planned order of `place_orders` ends up, and what the status says of a batch.
use robo_trade.Base.{String, ◌≡◌, refl, List, [], ◌∷◌, ◌++◌, All, filter, ok}
use mathlib.Core.Path.{subst}
use robo_trade.Base.Dict.{Dict}
use robo_trade.Base.Float.{Float}
use robo_trade.Orders.{PlannedOrder}
use robo_trade.Orders.Targets.{Intent, Mode, resolve_target_shares}
use robo_trade.Orders.Funding.{
  Holding, sells_of, buys_of, mark_all, FundedBatch, fund_planned_orders,
}
use robo_trade.Orders.Funding.Partition.{IsSplit, IsLiquidation, fund_planned_orders-IsSplit}
use robo_trade.Orders.Submission.{
  LegResult, not_feasible, SendsAll, Answers, submit_planned_orders-SendsAll,
}
use robo_trade.Pipeline.Account.{Brokerage, Sizing, PortfolioSnapshot, read_snapshot}
use robo_trade.Pipeline.Outcome.{
  Placement, sent_rows, unfunded_rows, submitted_rows, rejected_rows, batch_status, submitted,
  is_reduced,
}
use robo_trade.Pipeline.{
  unpriced, funds_of, send_batch, place_sized, plan_batch, place_orders, placement,
}

module _ {F : Type 0} where
  -- The leg was not sent, since it would open a short that is not feasible.
  abbrev pub IsInfeasible : LegResult F → Type 0
  IsInfeasible r = (reason : String) × (r.status ≡ not_feasible reason)

  submitted_rows_infeasible :
      (legs : List (LegResult F))
      → All IsInfeasible legs
      → (submitted_rows (sent_rows legs ++ []) ≡ []) × (rejected_rows (sent_rows legs ++ []) ≡ [])
  submitted_rows_infeasible [] h = (refl, refl)
  submitted_rows_infeasible (r ∷ legs) ((reason, e), hs) =
      let (none_sent, none_rejected) = submitted_rows_infeasible legs hs in
      (rw e none_sent, rw e none_rejected)

module _ {F S : Type 0} ⦃f : Float F⦄ where
  -- The reports of a batch that was planned: it is sent as sales of cash-like holdings, then the sells,
  -- then the funded buys, every planned buy is funded or reported as unfunded, the rows are the sent legs
  -- and the unfunded buys, and the prices are marked in the state that the last leg leaves.
  abbrev pub IsAccounted :
      Brokerage F S → Dict F → List (PlannedOrder F) → S → Placement F → S → Type 0
  IsAccounted b prices planned s p s' =
      (sales : List (PlannedOrder F)) × (funded : List (PlannedOrder F)) × (legs : List
        (LegResult F))
      × (sent : S) × All IsLiquidation sales
      × (p.planned_orders ≡ planned)
      × IsSplit (buys_of planned) (funded, p.unfunded)
      × SendsAll b.desk s (sales ++ (mark_all (sells_of planned) ++ funded)) legs sent
      × (p.order_results ≡ sent_rows legs ++ unfunded_rows p.unfunded)
      × (b.mark_prices prices sent ≡ (ok tt, s'))

  -- The marking of prices returns, whatever it does to the state.
  abbrev pub Marks : Brokerage F S → Dict F → Type 0
  Marks b prices = (s : S) → (s' : S) × (b.mark_prices prices s ≡ (ok tt, s'))

  send_batch-IsAccounted :
      (config : Sizing F) (b : Brokerage F S) (prices : Dict F) (mode : Mode)
      (intents : List (Intent F)) (snapshot : PortfolioSnapshot F) (planned : List (PlannedOrder F))
      (holdings : Dict (Holding F)) (s m : S)
      → Answers b.desk
      → Marks b prices
      → b.get_cash_equivalents s ≡ (ok holdings, m)
      → (p : Placement F) × (s' : S) × (send_batch config b prices mode intents snapshot planned s
          ≡ (ok p, s'))
        × IsAccounted b prices planned m p s'
  unfolding send_batch placement
  send_batch-IsAccounted config b prices mode intents snapshot planned holdings s m answers marks
        cash =
      let batch : FundedBatch F =
        fund_planned_orders (funds_of config b mode snapshot holdings) planned in
      let (sales, funded, order, liquid, split) =
        fund_planned_orders-IsSplit (funds_of config b mode snapshot holdings) planned in
      let (legs, after, sent, all_sent) =
        submit_planned_orders-SendsAll b.desk answers batch.fundable m in
      let (s', marked) = marks after in
      (
        placement config b prices mode intents snapshot planned batch legs,
        s',
        rw (cash, sent, marked) refl,
        (
          sales,
          funded,
          legs,
          after,
          liquid,
          refl,
          split,
          subst (λ os. SendsAll b.desk m os legs after) order all_sent,
          refl,
          marked,
        ),
      )

  -- With an account that can be read, intents that are priced and a mode that is known, a batch is placed
  -- to its end whatever the broker refuses: the call returns, the planned orders are those that are
  -- planned for the resolved shares, every planned buy is either funded or reported as unfunded, the sales
  -- of cash-like holdings go first, then the sells, then the funded buys, each sent as the step relation of
  -- a leg says, the rows of the result are those legs and the unfunded buys, and the prices are marked
  -- last. It is assumed that the read of the cash-like holdings and the check of short sales answer, and
  -- that the marking of prices returns from any state, which it may change.
  pub place_orders-IsAccounted :
      (config : Sizing F) (b : Brokerage F S) (prices : Dict F) (mode : Mode)
      (intents : List (Intent F)) (snapshot : PortfolioSnapshot F) (sized : Dict F)
      (holdings : Dict (Holding F)) (s s' m : S)
      → Answers b.desk
      → Marks b prices
      → read_snapshot config b s ≡ (ok snapshot, s')
      → unpriced prices intents ≡ []
      → resolve_target_shares snapshot.positions prices snapshot.equity b.supports_fractional_shares
          intents mode
        ≡ ok sized
      → b.get_cash_equivalents s' ≡ (ok holdings, m)
      → (p : Placement F) × (last : S) × (place_orders config b prices mode intents s
          ≡ (ok p, last))
        × IsAccounted b prices (plan_batch config b prices mode intents snapshot sized) m p last
  unfolding place_orders place_sized
  place_orders-IsAccounted config b prices mode intents snapshot sized holdings s s' m answers marks
        read priced known cash =
      let (p, last, done, accounted) =
        send_batch-IsAccounted config b prices mode intents snapshot
          (plan_batch config b prices mode intents snapshot sized) holdings s' m answers marks
          cash in
      (p, last, rw (read, priced, known) done, accounted)

  -- A batch of short sales that are all infeasible, where nothing is cut or unfunded, is reported as
  -- submitted although none of its rows is.
  pub placement_unsent :
      (config : Sizing F) (b : Brokerage F S) (prices : Dict F) (mode : Mode)
      (intents : List (Intent F)) (snapshot : PortfolioSnapshot F) (planned : List (PlannedOrder F))
      (batch : FundedBatch F) (leg : LegResult F) (legs : List (LegResult F))
      → All IsInfeasible (leg ∷ legs)
      → batch.rejected ≡ []
      → filter is_reduced batch.fundable ≡ []
      → let p = placement config b prices mode intents snapshot planned batch (leg ∷ legs) in
        (p.status ≡ submitted) × (submitted_rows p.order_results ≡ [])
  unfolding placement batch_status
  placement_unsent config b prices mode intents snapshot planned batch leg legs h full uncut =
      let (none_sent, none_rejected) = submitted_rows_infeasible (leg ∷ legs) h in
      (rw (full, uncut, none_sent, none_rejected) refl, rw full none_sent)
