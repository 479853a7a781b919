-- ===== src/Options.antt =====
-- src/core/options.py: a quoted contract.
use robo_trade.Base.{String, ◌&&◌, ◌||◌, Option, none, some, if◌then◌else◌}
use robo_trade.Base.Float.{Float, ◌⊕◌, ◌⊖◌, ◌⊗◌, ◌⊘◌, ratio, le, lt, zero_float, max_float, nonzero}

pub data OptionKind : Type 0 where
  call put : OptionKind

-- The fields of `OptionContract` that its methods and the lifecycle read.
pub record OptionContract (F : Type 0) : Type 0 where
  pub osi_symbol : String
  pub option_type : OptionKind
  pub strike : F
  pub bid : F
  pub ask : F
  pub mark : F
  pub delta : F

module _ {F : Type 0} ⦃f : Float F⦄ where
  -- `midpoint`.
  abbrev pub midpoint : OptionContract F → F
  midpoint c =
      if lt zero_float c.bid && lt zero_float c.ask
      then (c.bid ⊕ c.ask) ⊘ ratio 2 1
      else if nonzero c.bid
      then c.bid
      else if nonzero c.ask
      then c.ask
      else c.mark

  -- `spread_pct`; `none` is the infinite one.
  abbrev pub spread_pct : OptionContract F → Option F
  spread_pct c =
      if le (midpoint c) zero_float || le c.bid zero_float || le c.ask zero_float
      then none
      else some ((c.ask ⊖ c.bid) ⊘ midpoint c)

  -- `moneyness`.
  abbrev pub moneyness : OptionContract F → F → F
  moneyness c spot =
      let gap : F = elim c.option_type [ call ↦ c.strike ⊖ spot | put ↦ spot ⊖ c.strike ] in
      if le spot zero_float then zero_float else gap ⊘ spot

  -- `option_price_for` of src/algorithms/options_flip/excursion.py, for the target, the price of the
  -- underlying now, the mark of the option and its delta.
  abbrev pub option_price_for : F → F → F → F → F
  option_price_for target now mark delta =
      if le now zero_float || le mark zero_float
      then zero_float
      else max_float (mark ⊕ ((target ⊖ now) ⊗ delta)) (ratio 1 100)
