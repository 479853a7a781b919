-- ===== src/Orders.antt =====
-- src/core/orders.py: the rows of a batch, the constants and the rounding of share counts.
pub mod Targets
pub mod Planning
pub mod Funding
pub mod Submission
mod Tests
use robo_trade.Base.{ℕ, String, Bool, true, false, Option, none, some, List, [], ◌∷◌, if◌then◌else◌}
use robo_trade.Base.Dict.{Dict, lookup}
use robo_trade.Base.Float.{Float, ◌⊕◌, ◌⊗◌, ◌⊘◌, ratio, le, lt, zero_float}
use robo_trade.Interfaces.{Side, buy, sell}

-- What a trade does to the position.
pub data PositionIntent : Type 0 where
  sell_short buy_to_cover sell_to_close buy_to_open : PositionIntent

pub data FundingStatus : Type 0 where
  full reduced unfunded : FundingStatus

-- `policy`: any text but `greedy` fits pro rata.
pub data Policy : Type 0 where
  pro_rata greedy : Policy

-- A row of a batch. The texts of `reason` are left out, and `requested_quantity` is the quantity until
-- funding sets it.
pub record PlannedOrder (F : Type 0) : Type 0 where
  pub symbol : String
  pub action : Side
  pub quantity : F
  pub target_weight : F
  pub target_shares : F
  pub current_shares : F
  pub trade_dollars : F
  pub latest_price : F
  pub position_intent : PositionIntent
  pub opens_short : Bool
  pub short_shares_after : F
  pub requested_quantity : F
  pub funding_status : Option FundingStatus
  pub from_cash_equivalent : Bool

abbrev pub is_sell : Side → Bool
is_sell sell = true
is_sell buy = false

abbrev pub is_buy : Side → Bool
is_buy sell = false
is_buy buy = true

module _ {F : Type 0} ⦃f : Float F⦄ where
  -- `10 ** FRACTIONAL_SHARE_PRECISION`.
  abbrev pub share_scale : F
  share_scale = ratio 100 1

  -- `SHARE_EPSILON`, `FUNDING_EPSILON` and `LIQUIDATION_PAD`.
  abbrev pub share_epsilon : F
  share_epsilon = ratio 1 1_000_000_000

  abbrev pub funding_epsilon : F
  funding_epsilon = ratio 1 100

  abbrev pub liquidation_pad : F
  liquidation_pad = ratio 5 1000

  -- Rounding towards zero.
  abbrev pub truncate : F → F
  truncate x = if le zero_float x then f.floor x else f.ceil x

  -- `round_shares`.
  unfoldable pub round_shares : F → Bool → F
  round_shares raw fractional =
      if fractional then truncate (raw ⊗ share_scale) ⊘ share_scale else truncate raw

  -- `_round_up_shares`.
  unfoldable pub round_up_shares : F → Bool → F
  round_up_shares raw fractional =
      if fractional then f.ceil (raw ⊗ share_scale) ⊘ share_scale else f.ceil raw

  -- `_shares_for_target_weight`.
  pub shares_for_target_weight : F → F → F → Bool → F
  unfolding round_shares
  shares_for_target_weight equity weight price fractional =
      round_shares ((equity ⊗ weight) ⊘ price) fractional

  -- `sum(...)` over the rows: from zero, in order.
  abbrev pub sum_from : F → List F → F
  sum_from acc [] = acc
  sum_from acc (x ∷ xs) = sum_from (acc ⊕ x) xs

  abbrev pub dollars : List (PlannedOrder F) → List F
  dollars [] = []
  dollars (o ∷ os) = o.trade_dollars ∷ dollars os

  abbrev pub total_dollars : List (PlannedOrder F) → F
  total_dollars os = sum_from zero_float (dollars os)
