-- ===== src/Pipeline/Outcome.antt =====
-- src/core/pipeline.py: what `place_orders` returns: the rows of a batch, its status, the positions after it and the diff of
-- weights.
use robo_trade.Base.{
  String, Bool, true, false, not, Option, none, some, List, [], ◌∷◌, if◌then◌else◌, filter,
  get_or_else,
}
use robo_trade.Base.Dict.{Dict, lookup, insert, keys}
use robo_trade.Base.Float.{Float, ◌⊕◌, ◌⊖◌, lt, zero_float, abs_float}
use robo_trade.Base.Sort.{sort_by, add_names}
use robo_trade.Orders.{PlannedOrder, reduced, full, unfunded, is_buy, share_epsilon}
use robo_trade.Orders.Targets.{Intent, Mode}
use robo_trade.Orders.Funding.{FundingReport}
use robo_trade.Orders.Submission.{LegStatus, not_feasible, leg_rejected, leg_submitted, LegResult}

-- A row of `order_results`.
pub data OrderRow (F : Type 0) : Type 0 where
  leg_row : LegResult F → OrderRow F
  unfunded_leg : PlannedOrder F → OrderRow F

-- `order.get("status")`; the leg that is skipped has none.
pub data RowStatus : Type 0 where
  row_submitted row_rejected row_unfunded no_status : RowStatus

abbrev pub leg_row_status : LegStatus → RowStatus
leg_row_status (not_feasible reason) = no_status
leg_row_status (leg_rejected reason) = row_rejected
leg_row_status (leg_submitted id) = row_submitted

abbrev pub row_status : {F : Type 0} → OrderRow F → RowStatus
row_status (leg_row r) = leg_row_status r.status
row_status (unfunded_leg o) = row_unfunded

abbrev pub is_submitted : RowStatus → Bool
is_submitted row_submitted = true
is_submitted _ = false

abbrev pub is_rejected : RowStatus → Bool
is_rejected row_rejected = true
is_rejected _ = false

-- `status` of a batch.
pub data BatchStatus : Type 0 where
  no_orders rejected partial submitted submitted_reduced batch_unfunded : BatchStatus

abbrev pub is_nonempty {ℓ} : {A : Type ℓ} → List A → Bool
is_nonempty [] = false
is_nonempty (x ∷ xs) = true

abbrev pub submitted_rows : {F : Type 0} → List (OrderRow F) → List (OrderRow F)
submitted_rows = filter (λ r. is_submitted (row_status r))

abbrev pub rejected_rows : {F : Type 0} → List (OrderRow F) → List (OrderRow F)
rejected_rows = filter (λ r. is_rejected (row_status r))

-- `_batch_status`, on whether there are such rows; `cut` is what `funding["reduced"]` lists.
unfoldable pub batch_status : Bool → Bool → Bool → Bool → Bool → BatchStatus
batch_status has_rows has_submitted has_rejected has_unfunded cut =
    if not has_rows
    then no_orders
    else if has_rejected
    then (if has_submitted then partial else rejected)
    else if has_unfunded
    then (if has_submitted then submitted_reduced else batch_unfunded)
    else if cut
    then (if has_submitted then submitted_reduced else batch_unfunded)
    else submitted

abbrev pub is_reduced : {F : Type 0} → PlannedOrder F → Bool
is_reduced o = elim o.funding_status [
  | none ↦ false
  | some status ↦ elim status [ full ↦ false | reduced ↦ true | unfunded ↦ false ]
]

abbrev pub sent_rows : {F : Type 0} → List (LegResult F) → List (OrderRow F)
sent_rows [] = []
sent_rows (r ∷ rs) = leg_row r ∷ sent_rows rs

abbrev pub unfunded_rows : {F : Type 0} → List (PlannedOrder F) → List (OrderRow F)
unfunded_rows [] = []
unfunded_rows (o ∷ os) = unfunded_leg o ∷ unfunded_rows os

module _ {F : Type 0} ⦃f : Float F⦄ where
  -- `_resulting_positions`, over the submitted rows that are left.
  abbrev pub add_leg : OrderRow F → Dict F → Dict F
  add_leg (unfunded_leg o) held = held
  add_leg (leg_row r) held =
      let o = r.planned in
      let signed : F = if is_buy o.action then r.sent_quantity else f.negate r.sent_quantity in
      insert o.symbol (get_or_else (lookup o.symbol held) zero_float ⊕ signed) held

  abbrev pub add_legs : List (OrderRow F) → Dict F → Dict F
  add_legs [] held = held
  add_legs (r ∷ rs) held = add_legs rs (add_leg r held)

  abbrev pub still_held : Dict F → Dict F
  still_held [] = []
  still_held ((k, n) ∷ d) =
      let rest = still_held d in if lt share_epsilon (abs_float n) then (k, n) ∷ rest else rest

  unfoldable pub resulting_positions : Dict F → List (OrderRow F) → Dict F
  resulting_positions positions rows = still_held (add_legs rows positions)

-- `action` of a row of the diff.
pub data DiffAction : Type 0 where
  add trim hold : DiffAction

pub record DiffRow (F : Type 0) : Type 0 where
  pub symbol : String
  pub current_weight : F
  pub final_weight : F
  pub change : F
  pub action : DiffAction

-- What `place_orders` returns.
pub record Placement (F : Type 0) : Type 0 where
  pub mode : Mode
  pub status : BatchStatus
  pub equity : F
  pub final_weights : Dict F
  pub final_intents : List (Intent F)
  pub diff : List (DiffRow F)
  pub planned_orders : List (PlannedOrder F)
  pub order_results : List (OrderRow F)
  pub funding : Option (FundingReport F)
  pub unfunded : List (PlannedOrder F)
  pub rejected : List (OrderRow F)

module _ {F : Type 0} ⦃f : Float F⦄ where
  abbrev diff_action : F → DiffAction
  diff_action change =
      if lt zero_float change then add else if lt change zero_float then trim else hold

  abbrev diff_row : Dict F → Dict F → String → DiffRow F
  diff_row current final k =
      let before : F = get_or_else (lookup k current) zero_float in
      let after : F = get_or_else (lookup k final) zero_float in
      let change : F = f.round_micro (after ⊖ before) in
      record {
        symbol = k;
        current_weight = f.round_micro before;
        final_weight = f.round_micro after;
        change = change;
        action = diff_action change;
      }

  abbrev diff_rows : Dict F → Dict F → List String → List (DiffRow F)
  diff_rows current final [] = []
  diff_rows current final (k ∷ ks) = diff_row current final k ∷ diff_rows current final ks

  -- `weight_diff`.
  unfoldable pub weight_diff : Dict F → Dict F → List (DiffRow F)
  weight_diff current final =
      sort_by (λ a b. not (lt (abs_float a.change) (abs_float b.change)))
        (diff_rows current final (add_names (keys current) (add_names (keys final) [])))
