-- ===== src/Orders/Submission.antt =====
-- `submit_planned_orders`: sending a planned batch, one leg after the other. The brokerage is a
-- parameter: its calls change its own state and may raise.
use robo_trade.Base.{
  String, Bool, true, false, Option, none, some, List, [], ◌∷◌, if◌then◌else◌, Result, ok, err,
  get_or_else, ◌≡◌, refl,
}
use robo_trade.Base.Exec.{Exec, pure, attempt, ◌>>=◌}
use robo_trade.Base.Float.{Float}
use robo_trade.Interfaces.{OrderRequest, order, no_legs, market, day, equity, single}
use robo_trade.Orders.{PlannedOrder, truncate}

-- What `validate_short_sale_feasibility` answers: `none` is shortable, `some` the reason against it.
abbrev pub Feasibility : Type 0
Feasibility = Option String

-- The two calls of a brokerage that the submission makes, with the text that an exception prints.
pub record Desk (F S : Type 0) : Type 0 where
  pub validate_short_sale : String → F → F → F → Exec String S Feasibility
  pub submit_order : OrderRequest F → Exec String S (Option String)

-- `status`, or `approval_status` for the leg that is skipped.
pub data LegStatus : Type 0 where
  not_feasible : String → LegStatus
  leg_rejected : String → LegStatus
  leg_submitted : String → LegStatus

-- A row of the result: the desired order, with the quantity that was sent.
pub record LegResult (F : Type 0) : Type 0 where
  pub planned : PlannedOrder F
  pub sent_quantity : F
  pub status : LegStatus

abbrev pub sent_status : Result String (Option String) → LegStatus
sent_status (ok reply) = leg_submitted (get_or_else reply "unknown")
sent_status (err reason) = leg_rejected reason

module _ {F : Type 0} ⦃f : Float F⦄ where
  -- `_order_quantity`. A whole quantity is the same number as an `int`; `round` to two places is the
  -- one of the floats.
  unfoldable pub order_quantity : F → F
  order_quantity quantity =
      if f.same (f.floor quantity) quantity then quantity else f.round_cents quantity

  -- The request of a leg.
  abbrev pub leg_request : PlannedOrder F → OrderRequest F
  leg_request o =
      order
        (record {
          symbol = o.symbol;
          action = o.action;
          quantity = order_quantity o.quantity;
          order_type = market;
          limit_price = none;
          stop_price = none;
          client_order_id = none;
          time_in_force = day;
          asset_type = equity;
          strategy = single;
          latest_price = some o.latest_price;
        })
        no_legs

  abbrev pub skipped_leg : PlannedOrder F → String → LegResult F
  skipped_leg o reason = record {
    planned = o;
    sent_quantity = f.ratio 0 1;
    status = not_feasible reason;
  }

  abbrev pub sent_leg : PlannedOrder F → Result String (Option String) → LegResult F
  sent_leg o reply = record {
    planned = o;
    sent_quantity = order_quantity o.quantity;
    status = sent_status reply;
  }

module _ {F S : Type 0} ⦃f : Float F⦄ where
  module _ (b : Desk F S) where
    -- The `try` block of a leg: a refusal is recorded, and does not leave the loop.
    abbrev pub send_leg : PlannedOrder F → Exec String S (LegResult F)
    send_leg o = do reply ← attempt (b.submit_order (leg_request o)); pure (sent_leg o reply)

    abbrev pub after_check : PlannedOrder F → Feasibility → Exec String S (LegResult F)
    after_check o none = send_leg o
    after_check o (some reason) = pure (skipped_leg o reason)

    -- One turn of the loop.
    pub submit_leg : PlannedOrder F → Exec String S (LegResult F)
    submit_leg o =
        if o.opens_short
        then b.validate_short_sale o.symbol (order_quantity o.quantity) (truncate o.target_shares)
            o.latest_price
          >>= after_check o
        else send_leg o

    -- `submit_planned_orders`, over the orders that are left.
    unfoldable pub submit_planned_orders :
        List (PlannedOrder F) → Exec String S (List (LegResult F))
    unfolding submit_leg
    submit_planned_orders [] = pure []
    submit_planned_orders (o ∷ os) = do
      result ← submit_leg o
      results ← submit_planned_orders os
      pure (result ∷ results)

    -- What one leg does to the brokerage from `s` to `s'`, with the result that records it.
    pub data Sends (s : S) (o : PlannedOrder F) : LegResult F → S → Type 0 where
      sends_plain :
          (reply : Result String (Option String)) (s' : S)
          → o.opens_short ≡ false
          → b.submit_order (leg_request o) s ≡ (reply, s')
          → Sends s o (sent_leg o reply) s'
      sends_short :
          (reply : Result String (Option String)) (m s' : S)
          → o.opens_short ≡ true
          → b.validate_short_sale o.symbol
              (order_quantity o.quantity)
              (truncate o.target_shares)
              o.latest_price
              s
            ≡ (ok none, m)
          → b.submit_order (leg_request o) m ≡ (reply, s')
          → Sends s o (sent_leg o reply) s'
      sends_nothing :
          (reason : String) (s' : S)
          → o.opens_short ≡ true
          → b.validate_short_sale o.symbol
              (order_quantity o.quantity)
              (truncate o.target_shares)
              o.latest_price
              s
            ≡ (ok (some reason), s')
          → Sends s o (skipped_leg o reason) s'

    -- The legs in order, each from the state that the one before left, with one result for each.
    pub data SendsAll : S → List (PlannedOrder F) → List (LegResult F) → S → Type 0 where
      sends_none : (s : S) → SendsAll s [] [] s
      sends_more :
          (o : PlannedOrder F) (os : List (PlannedOrder F)) (r : LegResult F)
          (rs : List (LegResult F)) (s m s' : S)
          → Sends s o r m
          → SendsAll m os rs s'
          → SendsAll s (o ∷ os) (r ∷ rs) s'

    -- The check of a short sale answers: it does not raise.
    abbrev pub Answers : Type 0
    Answers =
        (symbol : String) (quantity target price : F) (s : S)
        → (a : Feasibility) × (m : S) × (b.validate_short_sale symbol quantity target price s
            ≡ (ok a, m))

    checked_leg :
        (o : PlannedOrder F) (a : Feasibility) (s m : S)
        → o.opens_short ≡ true
        → b.validate_short_sale o.symbol
            (order_quantity o.quantity)
            (truncate o.target_shares)
            o.latest_price
            s
          ≡ (ok a, m)
        → (r : LegResult F) × (s' : S) × (after_check o a m ≡ (ok r, s')) × Sends s o r s'
    checked_leg o none s m short e = (
      sent_leg o (b.submit_order (leg_request o) m).0,
      (b.submit_order (leg_request o) m).1,
      refl,
      sends_short _ m _ short e refl,
    )
    checked_leg o (some reason) s m short e =
        (skipped_leg o reason, m, refl, sends_nothing reason m short e)

    gate-Sends :
        (answers : Answers) (o : PlannedOrder F) (s : S) (short : Bool)
        → o.opens_short ≡ short
        → (r : LegResult F) × (s' : S) × ((if short
                then b.validate_short_sale o.symbol
                    (order_quantity o.quantity)
                    (truncate o.target_shares)
                    o.latest_price
                  >>= after_check o
                else send_leg o)
              s
            ≡ (ok r, s'))
          × Sends s o r s'
    gate-Sends answers o s true short =
        let (a, m, e) =
          answers o.symbol (order_quantity o.quantity) (truncate o.target_shares) o.latest_price
            s in
        let (r, s', done, sent) = checked_leg o a s m short e in (r, s', rw e done, sent)
    gate-Sends answers o s false plain = (
      sent_leg o (b.submit_order (leg_request o) s).0,
      (b.submit_order (leg_request o) s).1,
      refl,
      sends_plain _ _ plain refl,
    )

    submit_leg-Sends :
        (answers : Answers) (o : PlannedOrder F) (s : S)
        → (r : LegResult F) × (s' : S) × (submit_leg o s ≡ (ok r, s')) × Sends s o r s'
    unfolding submit_leg
    submit_leg-Sends answers o s = gate-Sends answers o s o.opens_short refl

    -- A batch is sent to its end whatever the broker refuses: where the check of short sales answers,
    -- the call returns, with one result for each order in the order given. A leg that opens a short is
    -- checked first and skipped where it is not feasible; every other leg is submitted once, and a
    -- refusal is recorded as rejected.
    pub submit_planned_orders-SendsAll :
        (answers : Answers) (os : List (PlannedOrder F)) (s : S)
        → (rs : List (LegResult F)) × (s' : S) × (submit_planned_orders os s ≡ (ok rs, s'))
          × SendsAll s os rs s'
    unfolding submit_planned_orders
    submit_planned_orders-SendsAll answers [] s = ([], s, refl, sends_none s)
    submit_planned_orders-SendsAll answers (o ∷ os) s =
        let (r, m, leg, sent) = submit_leg-Sends answers o s in
        let (rs, s', rest, all_sent) = submit_planned_orders-SendsAll answers os m in
        (r ∷ rs, s', rw (leg, rest), sends_more o os r rs s m s' sent all_sent)
