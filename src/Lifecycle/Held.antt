-- ===== src/Lifecycle/Held.antt =====
-- A held contract: what rests at the broker, and that there is always a plan.
pub mod Sales
pub mod Shapes
use robo_trade.Base.{
  not, ◌||◌, ℕ, String, ◌≡◌, refl, Bool, true, false, ◌&&◌, Option, none, some, List, [], ◌∷◌, All,
  if◌then◌else◌, ok, str_eq, Bool-cases, inl, inr, arith,
}
use robo_trade.Base.Float.{Float, ◌≼◌, le, lt, zero_float, ratio, max_float, nonzero, IsOrdered}
use robo_trade.Interfaces.{
  sell, OrderType, limit, stop, has_stop, gtc, option, OrderStrategy, single, oco, Ticket,
  OrderRequest, Legs, no_legs, leg, order, DesiredOrder, new_order,
}
use robo_trade.Options.{OptionContract}
use robo_trade.Lifecycle.State.{Memory, Situation, SymbolPlan, held, penny}
use robo_trade.Lifecycle.Bracket.{target_leg, stop_leg, sell_ticket, bracket_orders, desired}
use robo_trade.Lifecycle.Holding.{
  held_quantity, held_stop, held_target, scheduled_target, is_overdue, hold, hold_plan, unpriced,
}
use robo_trade.Lifecycle.{plan_symbol}
use robo_trade.Lifecycle.Bidding.{min_price_fraction}
use robo_trade.Lifecycle.Held.Sales.{
  KeepsPennies, no_stop, IsSale, IsExit, AreExits, IsExitOrder, sell_ticket-IsSale, target_leg-ok,
  stop_leg-ok, pair-ok, may_stop,
}
use robo_trade.Lifecycle.Held.Shapes.{
  target_order, stop_order, lone_order, two_orders, pair_order, bracket_with_stop,
  bracket_orders-IsExit,
}

module _ {F : Type 0} ⦃f : Float F⦄ where
  -- A plan for a held contract.
  abbrev pub Exits : Situation F → Memory F → String → SymbolPlan F → Type 0
  Exits s m contract p =
      (p.phase ≡ held)
      × (p.memory.contract ≡ contract)
      × All (IsExitOrder contract (held_quantity s m) (lt zero_float s.settings.stop_loss_pct))
          p.orders

  module _ (laws : IsOrdered F) (same_zero : (x : F) → lt zero_float x ≡ true → nonzero x ≡ true)
      (pennies : KeepsPennies F) where
    le-max : (a b : F) → b ≼ max_float a b
    le-max a b = elim (Bool-cases (lt a b)) [
      | inl below ↦ rw below (laws.le_refl b)
      | inr above ↦ rw above (ground (arith, laws.lt-eq-not-le a b))
    ]

    rounded-pos : (x : F) → lt zero_float (f.round_cents (max_float x penny)) ≡ true
    rounded-pos x = pennies (max_float x penny) (le-max x penny)

    if-pos :
        (test : Bool) (x y : F)
        → lt zero_float x ≡ true
        → lt zero_float y ≡ true
        → lt zero_float (if test then x else y) ≡ true
    if-pos true x y h k = h
    if-pos false x y h k = k

    held_target-pos : (s : Situation F) (m : Memory F) → lt zero_float (held_target s m) ≡ true
    held_target-pos s m =
        if-pos (is_overdue s m) _ (scheduled_target s m) (rounded-pos _) (rounded-pos _)

    pos-not-le : (x : F) → lt zero_float x ≡ true → le x zero_float ≡ false
    pos-not-le x h = ground (arith, laws.lt-eq-not-le zero_float x)

    held_stop-nonzero :
        (s : Situation F) (m : Memory F)
        → le (held_stop s m) zero_float ≡ false
        → nonzero (held_stop s m) ≡ true
    held_stop-nonzero s m h =
        same_zero (held_stop s m) (ground (arith, laws.lt-eq-not-le zero_float (held_stop s m)))

    held_stop-off :
        (s : Situation F) (m : Memory F)
        → lt zero_float s.settings.stop_loss_pct ≡ false
        → le (held_stop s m) zero_float ≡ true
    held_stop-off s m off = rw off (laws.le_refl zero_float)

    hold-Exits :
        (s : Situation F) (m : Memory F) (contract : String)
        → (p : SymbolPlan F) × (hold s m contract ≡ ok p) × Exits s m contract p
    unfolding hold
    hold-Exits s m contract =
        elim (Bool-cases (le m.mark zero_float && le m.fill_price zero_float)) [
          | inl unknown ↦ (unpriced s m contract, rw unknown refl, (refl, refl, tt))
          | inr known ↦
              let live = held_target-pos s m in
              let (orders, built, exits) =
                bracket_orders-IsExit s.symbol contract (held_quantity s m) (held_target s m)
                  (held_stop s m) s.holds_oco (lt zero_float s.settings.stop_loss_pct)
                  (same_zero (held_target s m) live) (held_stop-nonzero s m) (held_stop-off s m) in
              (
                hold_plan s m contract orders,
                rw (known, pos-not-le (held_target s m) live, built) refl,
                (refl, refl, exits),
              )
        ]

    -- A held contract always gets a plan: the call does not raise. It stays in the held state under the
    -- contract that the broker reports, whatever was remembered or is on offer, and every order of the
    -- plan, its legs included, sells that contract in the held quantity and rests until cancelled.
    -- Where the stop is disabled, none of them is a stop. The floats are ordered, one above zero counts
    -- as true, and the rounding to cents keeps a penny or more above zero.
    pub plan_symbol-Exits :
        (s : Situation F) (m : Memory F) (contract direction : String)
        (offered : Option (OptionContract F))
        → str_eq contract "" ≡ false
        → (p : SymbolPlan F) × (plan_symbol s m contract direction offered ≡ ok p)
          × Exits s m contract p
    unfolding plan_symbol
    plan_symbol-Exits s m contract direction offered ne =
        let (p, planned, exits) = hold-Exits s m contract in (p, rw ne planned, exits)
