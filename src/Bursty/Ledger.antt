-- ===== src/Bursty/Ledger.antt =====
-- The memory as the state store keeps it, and `state_after`, which draws it down by what was sent.
use robo_trade.Base.{String, Bool, ◌&&◌, not, Option, none, some, List, [], ◌∷◌, if◌then◌else◌}
use robo_trade.Base.Dict.{Dict, lookup, insert}
use robo_trade.Base.Float.{Float, ◌⊕◌, ◌⊖◌, ◌⊗◌, le, zero_float, abs_float}
use robo_trade.Text.{upper}
use robo_trade.Pipeline.Outcome.{OrderRow, leg_row, unfunded_leg, is_submitted, row_status}
use robo_trade.Bursty.{SymbolState, fresh_state}

-- A value of a stored dict, and an entry of the stored memory: a dict, or anything else.
pub data Scalar (F : Type 0) : Type 0 where
  null : Scalar F
  number : F → Scalar F
  text : String → Scalar F

pub data StoredEntry (F : Type 0) : Type 0 where
  fields : Dict (Scalar F) → StoredEntry F
  other : StoredEntry F

-- `float(text)`, `str(number)` and `math.isfinite`.
pub record Coercion (F : Type 0) : Type 0 where
  pub read_float : String → Option F
  pub show_float : F → String
  pub is_finite : F → Bool

module _ {F : Type 0} ⦃f : Float F⦄ where
  module _ (coerce : Coercion F) where
    -- `as_float` of src/common/config_utils.py, with zero for a default; `none` is a missing entry.
    abbrev pub as_float : Option (Scalar F) → F
    as_float none = zero_float
    as_float (some null) = zero_float
    as_float (some (number x)) = if coerce.is_finite x then x else zero_float
    as_float (some (text t)) = elim (coerce.read_float t) [
      | none ↦ zero_float
      | some x ↦ if coerce.is_finite x then x else zero_float
    ]

    -- `str(value or "")`.
    abbrev pub text_or_empty : Option (Scalar F) → String
    text_or_empty none = ""
    text_or_empty (some null) = ""
    text_or_empty (some (number x)) = if f.same x zero_float then "" else coerce.show_float x
    text_or_empty (some (text t)) = t

    -- `SymbolState.from_dict`.
    abbrev pub from_dict : StoredEntry F → SymbolState F
    from_dict other = fresh_state
    from_dict (fields raw) = record {
      accrued = as_float (lookup "accrued" raw);
      last_run_at = text_or_empty (lookup "last_run_at" raw);
      deployed_this_month = as_float (lookup "deployed_this_month" raw);
      month = text_or_empty (lookup "month" raw);
    }

    -- `accrual_from_state`, over the entries that are left.
    unfoldable pub accrual_from : Dict (StoredEntry F) → Dict (SymbolState F) → Dict (SymbolState F)
    accrual_from [] acc = acc
    accrual_from ((symbol, entry) ∷ state) acc =
        accrual_from state (insert (upper symbol) (from_dict entry) acc)

    abbrev pub accrual_from_state : Dict (StoredEntry F) → Dict (SymbolState F)
    accrual_from_state state = accrual_from state []

  -- `SymbolState.as_dict`.
  abbrev pub as_dict : SymbolState F → StoredEntry F
  as_dict state = fields (
      ("accrued", number (f.round_micro state.accrued))
      ∷ ("last_run_at", text state.last_run_at)
      ∷ ("deployed_this_month", number (f.round_micro state.deployed_this_month))
      ∷ ("month", text state.month)
      ∷ [])

  -- `accrual_to_state`.
  abbrev pub accrual_to_state : Dict (SymbolState F) → Dict (StoredEntry F)
  accrual_to_state [] = []
  accrual_to_state ((symbol, state) ∷ accrual) = (symbol, as_dict state) ∷ accrual_to_state accrual

  -- The dollars that a row put to work; nothing where it was not submitted.
  abbrev pub deployed_by : OrderRow F → F
  deployed_by (unfunded_leg o) = zero_float
  deployed_by (leg_row r) = abs_float r.sent_quantity ⊗ r.planned.latest_price

  abbrev pub symbol_of_row : OrderRow F → String
  symbol_of_row (unfunded_leg o) = upper o.symbol
  symbol_of_row (leg_row r) = upper r.planned.symbol

  abbrev pub spend : F → SymbolState F → SymbolState F
  spend deployed state = record state {
    accrued = state.accrued ⊖ deployed;
    deployed_this_month = state.deployed_this_month ⊕ deployed;
  }

  -- The row counts: it was submitted, and put something to work.
  abbrev pub counts : OrderRow F → Bool
  counts row = is_submitted (row_status row) && not (le (deployed_by row) zero_float)

  abbrev pub spend_found :
      String → F → Option (SymbolState F) → Dict (SymbolState F) → Dict (SymbolState F)
  spend_found k deployed none accrual = accrual
  spend_found k deployed (some state) accrual = insert k (spend deployed state) accrual

  -- One turn of the loop of `state_after`.
  abbrev pub draw_down_row : OrderRow F → Dict (SymbolState F) → Dict (SymbolState F)
  draw_down_row row accrual =
      if counts row
      then spend_found (symbol_of_row row) (deployed_by row) (lookup (symbol_of_row row) accrual)
          accrual
      else accrual

  unfoldable pub draw_down : List (OrderRow F) → Dict (SymbolState F) → Dict (SymbolState F)
  draw_down [] accrual = accrual
  draw_down (row ∷ rows) accrual = draw_down rows (draw_down_row row accrual)

  -- `state_after`, for the memory that the plan carries and the rows of the outcome.
  unfoldable pub state_after :
      Coercion F → Dict (StoredEntry F) → List (OrderRow F) → Dict (StoredEntry F)
  unfolding draw_down accrual_from
  state_after coerce state rows =
      accrual_to_state (draw_down rows (accrual_from_state coerce state))
