-- ===== src/Reconcile.antt =====
-- src/algorithms/reconcile.py: making the working orders of a broker match the desired ones. The
-- broker is a parameter: its calls change its own state and may raise.
pub mod Settled
pub mod Records
pub mod Walked
pub mod Loops
mod Tests
use robo_trade.Base.{
  String, Bool, true, false, not, ◌||◌, Option, none, some, List, [], ◌∷◌, ◌++◌, if◌then◌else◌,
  Result, ok, err, get_or_else, str_eq,
}
use robo_trade.Base.Dict.{Dict, lookup, insert, erase, has_key}
use robo_trade.Base.Float.{Float, ◌⊖◌, ◌⊗◌, ratio, le, lt, zero_float, max_float, abs_float}
use robo_trade.Base.Exec.{Exec, pure, raise, attempt, ◌>>=◌, ◌>>◌}
use robo_trade.Text.{Text, lower, same_text}
use robo_trade.Interfaces.{
  Side, OrderType, Ticket, OrderRequest, DesiredOrder, ticket, side_text, order_type_text,
}

-- A row of `get_orders`. A missing quantity is zero.
pub record WorkingOrder (F : Type 0) : Type 0 where
  pub order_id : String
  pub symbol : String
  pub action : Text
  pub quantity : F
  pub order_type : Text
  pub limit_price : Option F
  pub stop_price : Option F

-- What an exception says; `unlisted` is a broker that cannot list its orders.
pub data Failure : Type 0 where
  unlisted : Failure
  refused : String → Failure

-- A brokerage with the state `S`. A submitted or replaced order returns its id, if the reply has one.
pub record Broker (F S : Type 0) : Type 0 where
  pub get_orders : Exec Failure S (List (WorkingOrder F))
  pub cancel_order : String → Exec Failure S (Unit {0})
  pub submit_order : OrderRequest F → Exec Failure S (Option String)
  pub replace_order : String → OrderRequest F → Exec Failure S (Option String)

pub data Reconciled : Type 0 where
  cancelled unchanged submitted rejected replaced resubmitted : Reconciled

-- `_result`, with the fields that the journal reads.
pub record Outcome (F : Type 0) : Type 0 where
  pub key : String
  pub reconciled : Reconciled
  pub order_id : String
  pub symbol : String
  pub action : Text
  pub quantity : F
  pub previous_order_id : Option String
  pub reason : Option Failure

pub record Report (F : Type 0) : Type 0 where
  pub results : List (Outcome F)
  pub order_ids : Dict String
  pub working : List (WorkingOrder F)

module _ {F : Type 0} where
  abbrev outcome : String → Reconciled → String → DesiredOrder F → Outcome F
  outcome key did id d = record {
    key = key;
    reconciled = did;
    order_id = id;
    symbol = (ticket d.request).symbol;
    action = side_text (ticket d.request).action;
    quantity = (ticket d.request).quantity;
    previous_order_id = none;
    reason = none;
  }

  abbrev cancel_outcome : String → String → WorkingOrder F → Outcome F
  cancel_outcome key id w = record {
    key = key;
    reconciled = cancelled;
    order_id = id;
    symbol = w.symbol;
    action = w.action;
    quantity = w.quantity;
    previous_order_id = none;
    reason = none;
  }

  -- `{str(o["order_id"]): o for o in working if o["order_id"]}`.
  abbrev index_from : Dict (WorkingOrder F) → List (WorkingOrder F) → Dict (WorkingOrder F)
  index_from d [] = d
  index_from d (w ∷ ws) = index_from (if str_eq w.order_id "" then d else insert w.order_id w d) ws

  pub working_by_id : List (WorkingOrder F) → Dict (WorkingOrder F)
  working_by_id = index_from []

  -- `{order.key: order for order in desired}`.
  abbrev wanted_from : Dict (DesiredOrder F) → List (DesiredOrder F) → Dict (DesiredOrder F)
  wanted_from d [] = d
  wanted_from d (o ∷ os) = wanted_from (insert o.key o d) os

  pub wanted_orders : List (DesiredOrder F) → Dict (DesiredOrder F)
  wanted_orders = wanted_from []

module _ {F : Type 0} ⦃f : Float F⦄ where
  -- `_moved`.
  pub moved : Option F → Option F → F → Bool
  moved none current tolerance = false
  moved (some wanted) current tolerance =
      let price : F = get_or_else current zero_float in
      if le price zero_float
      then true
      else lt (max_float (wanted ⊗ max_float tolerance zero_float) (ratio 5 1000))
          (abs_float (wanted ⊖ price))

  -- `_needs_replacement`.
  pub needs_replacement : DesiredOrder F → WorkingOrder F → Bool
  unfolding moved
  needs_replacement d w =
      let t : Ticket F = ticket d.request in
      not (same_text (lower w.action) (side_text t.action))
      || not (f.same w.quantity t.quantity)
      || not (same_text (lower w.order_type) (order_type_text t.order_type))
      || moved t.limit_price w.limit_price d.replace_tolerance
      || moved t.stop_price w.stop_price d.replace_tolerance

module _ {F S : Type 0} ⦃f : Float F⦄ where
  module _ (b : Broker F S) where
    -- The report of a call beside the order ids that it recorded.
    abbrev Step : Type 0
    Step = Exec Failure S (Outcome F × Dict String)

    abbrev rejection : String → DesiredOrder F → Dict String → Failure → Outcome F × Dict String
    rejection key d ids e =
        let o : Outcome F = outcome key rejected "" d in (record o { reason = some e }, ids)

    abbrev submission :
        String → DesiredOrder F → Dict String → Option String → Outcome F × Dict String
    submission key d ids reply =
        let id : String = get_or_else reply "" in (outcome key submitted id d, insert key id ids)

    abbrev submit_result :
        String
        → DesiredOrder F
        → Dict String
        → Result Failure (Option String)
        → Outcome F × Dict String
    submit_result key d ids (ok reply) = submission key d ids reply
    submit_result key d ids (err e) = rejection key d ids e

    -- `_submit`.
    pub submit : String → DesiredOrder F → Dict String → Step
    submit key d ids = do
      reply ← attempt (b.submit_order d.request)
      pure (submit_result key d ids reply)

    -- The end of the fallback of `_replace`: a rejected resubmission leaves no id behind.
    abbrev relabel : String → String → Outcome F × Dict String → Outcome F × Dict String
    relabel key old (o, ids) = elim o.reconciled [
      | submitted ↦ (record o { reconciled = resubmitted; previous_order_id = some old }, ids)
      | _ ↦ (o, erase key ids)
    ]

    abbrev replacement :
        String → DesiredOrder F → String → Dict String → Option String → Outcome F × Dict String
    replacement key d old ids reply =
        let id : String = get_or_else reply old in
        let o : Outcome F = outcome key replaced id d in
        (record o { previous_order_id = some old }, insert key id ids)

    abbrev after_replace :
        String → DesiredOrder F → String → Dict String → Result Failure (Option String) → Step
    after_replace key d old ids (ok reply) = pure (replacement key d old ids reply)
    after_replace key d old ids (err e) = do
      b.cancel_order old
      sent ← submit key d ids
      pure (relabel key old sent)

    -- `_replace`.
    pub replace : String → DesiredOrder F → String → Dict String → Step
    unfolding submit
    replace key d old ids = do
      reply ← attempt (b.replace_order old d.request)
      after_replace key d old ids reply

    -- The first loop: orders that are recorded, still working and no longer wanted are cancelled.
    pub cancel_loop :
        Dict (DesiredOrder F)
        → Dict (WorkingOrder F)
        → Dict String
        → List (Outcome F)
        → Exec Failure S (List (Outcome F))
    cancel_loop wanted working [] results = pure results
    cancel_loop wanted working ((key, id) ∷ recorded) results =
        if has_key key wanted
        then cancel_loop wanted working recorded results
        else elim (lookup id working) [
          | none ↦ cancel_loop wanted working recorded results
          | some w ↦ do
            b.cancel_order id
            cancel_loop wanted working recorded (results ++ cancel_outcome key id w ∷ [])
        ]

    abbrev settle : String → DesiredOrder F → String → Dict String → Option (WorkingOrder F) → Step
    settle key d id ids none = submit key d ids
    settle key d id ids (some w) =
        if needs_replacement d w
        then replace key d id ids
        else pure (outcome key unchanged id d, insert key id ids)

    -- The second loop, over the wanted orders that are left.
    pub place_loop :
        Dict (DesiredOrder F)
        → Dict (WorkingOrder F)
        → Dict String
        → List (Outcome F)
        → Dict String
        → Exec Failure S (List (Outcome F) × Dict String)
    unfolding submit replace needs_replacement
    place_loop [] working recorded results ids = pure (results, ids)
    place_loop ((key, d) ∷ wanted) working recorded results ids = do
      let id = get_or_else (lookup key recorded) ""
      done ← settle key d id ids (lookup id working)
      place_loop wanted working recorded (results ++ done.0 ∷ []) done.1

    -- `reconcile_orders`.
    pub reconcile_orders : List (DesiredOrder F) → Dict String → Exec Failure S (Report F)
    unfolding working_by_id wanted_orders cancel_loop place_loop
    reconcile_orders desired recorded = do
      working ← b.get_orders
      let by_id = working_by_id working
      let wanted = wanted_orders desired
      results ← cancel_loop wanted by_id recorded []
      placed ← place_loop wanted by_id recorded results []
      pure (record { results = placed.0; order_ids = placed.1; working = working })
