-- ===== src/Bursty.antt =====
-- src/algorithms/bursty_dca: the budget that a symbol accrues, and the size of its next order. The
-- statistics of the closes are a parameter.
pub mod Accrual
pub mod Size
pub mod Plan
pub mod Due
pub mod Ledger
pub mod Drawn
pub mod Stored
pub mod Budgets
mod Tests
use robo_trade.Base.{
  ℕ, String, Bool, true, false, not, ◌&&◌, Option, none, some, if◌then◌else◌, str_eq,
}
use robo_trade.Base.Float.{
  Float, ◌⊕◌, ◌⊖◌, ◌⊗◌, ◌⊘◌, ratio, le, lt, zero_float, one_float, max_float, min_float, abs_float,
}

pub record SymbolState (F : Type 0) : Type 0 where
  pub accrued : F
  pub last_run_at : String
  pub deployed_this_month : F
  pub month : String

-- The fields of `BurstyConfig` that size an order.
pub record BurstyConfig (F : Type 0) : Type 0 where
  pub scaling_factor : F
  pub max_monthly_multiple : F
  pub relax_months : F
  pub relax_depth : F

-- What is used of `datetime`, on moments of any type.
pub record Clock (F Moment : Type 0) : Type 0 where
  -- `now.strftime("%Y-%m")`.
  pub month_of : Moment → String
  pub isoformat : Moment → String
  -- `none` is the error.
  pub fromisoformat : String → Option Moment
  -- `tzinfo` is set, and `replace(tzinfo=timezone.utc)`.
  pub is_aware : Moment → Bool
  pub as_utc : Moment → Moment
  -- `(later - earlier).total_seconds()`.
  pub seconds_between : Moment → Moment → F

module _ {F Moment : Type 0} (clock : Clock F Moment) where
  -- A moment with no offset is read as UTC.
  abbrev pub assume_utc : Option Moment → Option Moment
  assume_utc none = none
  assume_utc (some parsed) = some (if clock.is_aware parsed then parsed else clock.as_utc parsed)

  -- `parse_iso_utc` of src/common/timeutils.py.
  abbrev pub parse_iso_utc : String → Option Moment
  parse_iso_utc text = assume_utc (clock.fromisoformat text)

module _ {F : Type 0} ⦃f : Float F⦄ where
  -- `SymbolState()`.
  abbrev pub fresh_state : SymbolState F
  fresh_state = record {
    accrued = zero_float;
    last_run_at = "";
    deployed_this_month = zero_float;
    month = "";
  }

  -- `HOURS_IN_MONTH` and `MAX_CATCHUP_MONTHS`.
  abbrev pub hours_in_month : F
  hours_in_month = ratio 7305 10

  abbrev pub max_catchup_months : F
  max_catchup_months = ratio 1 1

  -- `elapsed_months`, of a difference in seconds.
  abbrev pub months_of : F → F
  months_of seconds =
      min_float (max_float (seconds ⊘ ratio 3600 1) zero_float ⊘ hours_in_month) max_catchup_months

  -- The turn of the month: a new one starts with nothing deployed.
  abbrev pub turn_month : String → SymbolState F → SymbolState F
  turn_month month state = record state {
    deployed_this_month =
        if not (str_eq state.month "") && not (str_eq state.month month)
        then zero_float
        else state.deployed_this_month;
    month = month;
  }

  -- `min_executable`.
  unfoldable pub min_executable : F → Bool → F
  min_executable price fractional =
      let floor : F = max_float price zero_float in
      if fractional then floor ⊘ ratio 100 1 else floor

  -- `conviction`.
  unfoldable pub conviction : F → Bool → BurstyConfig F → F
  conviction z buying settings =
      let favourable : F = if buying then z else f.negate z in
      max_float zero_float (one_float ⊕ (settings.scaling_factor ⊗ favourable))

  -- `willingness`, with `math.tanh` of the floats.
  unfoldable pub willingness : (F → F) → F → BurstyConfig F → F
  willingness tanh backlog settings =
      let width : F = max_float settings.relax_months (ratio 1 1_000_000_000) in
      one_float ⊕ (settings.relax_depth ⊗ tanh (backlog ⊘ width))

  -- `spending_allowance`.
  unfoldable pub spending_allowance : F → F → F → BurstyConfig F → F
  spending_allowance monthly_budget backlog conviction_factor settings =
      let overdraft : F =
        max_float settings.relax_months zero_float ⊗ max_float conviction_factor zero_float in
      max_float (abs_float monthly_budget ⊗ (backlog ⊕ overdraft)) zero_float

  -- `monthly_cap`.
  unfoldable pub monthly_cap : F → BurstyConfig F → F
  monthly_cap monthly_budget settings = abs_float monthly_budget ⊗ settings.max_monthly_multiple

  -- `remaining`: the room that the month leaves.
  unfoldable pub cap_room : F → F → BurstyConfig F → F
  unfolding monthly_cap
  cap_room budget deployed settings =
      max_float (monthly_cap budget settings ⊖ max_float deployed zero_float) zero_float

  -- `desired`.
  unfoldable pub desired_size : (F → F) → F → F → Bool → F → BurstyConfig F → F
  unfolding conviction willingness
  desired_size tanh budget z buying backlog settings =
      (budget ⊗ conviction z buying settings) ⊗ willingness tanh backlog settings

  -- The lift to one order of the least size, where the balance covers it.
  unfoldable pub lifted : F → F → F → F
  lifted sized floor accrued =
      if lt zero_float sized && lt sized floor && le floor accrued then floor else sized

  -- `planned_order_size`.
  unfoldable pub planned_order_size : (F → F) → F → F → Bool → F → F → BurstyConfig F → F → F → F
  unfolding desired_size cap_room spending_allowance conviction lifted
  planned_order_size tanh monthly_budget z buying backlog deployed settings accrued floor =
      let budget : F = abs_float monthly_budget in
      if le budget zero_float
      then zero_float
      else lifted
          (min_float
            (min_float (desired_size tanh budget z buying backlog settings)
              (cap_room budget deployed settings))
            (spending_allowance budget backlog (conviction z buying settings) settings))
          floor accrued

module _ {F Moment : Type 0} ⦃f : Float F⦄ (clock : Clock F Moment) where
  -- From the moment of the last run, if it can be read.
  abbrev pub accrue_from : SymbolState F → F → Moment → Option Moment → SymbolState F
  accrue_from state monthly_budget now none = record state { last_run_at = clock.isoformat now }
  accrue_from state monthly_budget now (some previous) = record state {
    accrued =
        state.accrued
        ⊕ (max_float monthly_budget zero_float ⊗ months_of (clock.seconds_between now previous));
    last_run_at = clock.isoformat now;
  }

  -- `accrue`.
  unfoldable pub accrue : SymbolState F → F → Moment → SymbolState F
  accrue state monthly_budget now =
      let turned : SymbolState F = turn_month (clock.month_of now) state in
      accrue_from turned monthly_budget now (parse_iso_utc clock turned.last_run_at)
