-- ===== src/Lifecycle/Holding.antt =====
-- src/algorithms/options_flip/lifecycle.py, `_held`: the target, the stop and the plan of a held contract.
use robo_trade.Base.{
  ℕ, String, Bool, ◌&&◌, some, List, [], if◌then◌else◌, ltb, leb, ◌==◌, Result, ok, ◌>>=◌,
}
use robo_trade.Base.Float.{
  Float, ◌⊕◌, ◌⊖◌, ◌⊗◌, ratio, le, lt, zero_float, one_float, max_float, min_float, nonzero,
}
use robo_trade.Interfaces.{DesiredOrder, OrderError}
use robo_trade.Lifecycle.State.{held, Memory, SymbolPlan, Situation, penny, stop_off}
use robo_trade.Lifecycle.Bidding.{target_premium}
use robo_trade.Lifecycle.Bracket.{bracket_orders}

module _ {F : Type 0} ⦃f : Float F⦄ where
  -- `a or b`, for numbers.
  abbrev pub or_else : F → F → F
  or_else a b = if nonzero a then a else b

  abbrev pub held_quantity : Situation F → Memory F → ℕ
  held_quantity s m =
      let n : ℕ = if m.contracts == 0 then s.contracts else m.contracts in if ltb n 1 then 1 else n

  -- The stop of a held position, struck off the bid that opened it.
  abbrev pub held_stop : Situation F → Memory F → F
  held_stop s m =
      if lt zero_float s.settings.stop_loss_pct
      then or_else m.stop_at (stop_off s.settings (or_else m.bid m.fill_price))
      else zero_float

  abbrev hold_limit : Situation F → ℕ
  hold_limit s = if ltb s.settings.max_hold_sessions 1 then 1 else s.settings.max_hold_sessions

  -- `deadline`.
  abbrev pub is_overdue : Situation F → Memory F → Bool
  is_overdue s m = leb (hold_limit s) m.sessions_held

  -- The target that the days leave, at the entry or above.
  abbrev pub scheduled_target : Situation F → Memory F → F
  scheduled_target s m =
      let entry : F = or_else m.bid (or_else m.fill_price m.mark) in
      let modelled : F = target_premium m.mark s.underlying_now s.exit_target m in
      let gain : F = max_float (modelled ⊖ entry) zero_float in
      let elapsed : F = min_float (ratio m.sessions_held (hold_limit s)) one_float in
      let conceded : F = f.power elapsed (max_float s.settings.exit_patience penny) in
      let asked : F = max_float (s.settings.exit_gain_share ⊗ (one_float ⊖ conceded)) zero_float in
      f.round_cents (max_float (entry ⊕ (asked ⊗ gain)) penny)

  -- `target`: past the deadline it converges on the mark.
  abbrev pub held_target : Situation F → Memory F → F
  held_target s m =
      let target : F = scheduled_target s m in
      if is_overdue s m
      then f.round_cents
          (max_float (m.mark ⊕ ((target ⊖ m.mark) ⊗ s.session.fraction_remaining)) penny)
      else target

  abbrev pub unpriced : Situation F → Memory F → String → SymbolPlan F
  unpriced s m contract = record {
    symbol = s.symbol;
    phase = held;
    orders = [];
    memory = record m { phase = some held; contract = contract };
  }

  abbrev pub hold_plan : Situation F → Memory F → String → List (DesiredOrder F) → SymbolPlan F
  hold_plan s m contract orders = record {
    symbol = s.symbol;
    phase = held;
    orders = orders;
    memory = record m {
      phase = some held;
      contract = contract;
      target = held_target s m;
      stop_at = held_stop s m;
    };
  }

  -- `_held`.
  unfoldable pub hold : Situation F → Memory F → String → Result OrderError (SymbolPlan F)
  unfolding bracket_orders
  hold s m contract =
      if le m.mark zero_float && le m.fill_price zero_float
      then ok (unpriced s m contract)
      else if le (held_target s m) zero_float
      then ok (unpriced s m contract)
      else bracket_orders s.symbol contract (held_quantity s m) (held_target s m) (held_stop s m)
          s.holds_oco
        >>= λ orders. ok (hold_plan s m contract orders)
