-- ===== src/Lifecycle/Held/Shapes.antt =====
-- The three shapes of a bracket.
use robo_trade.Base.{
  ℕ, String, ◌≡◌, refl, Bool, true, false, none, some, List, [], ◌∷◌, All, ok, Bool-cases, inl, inr,
}
use robo_trade.Base.Float.{Float, le, zero_float, nonzero}
use robo_trade.Interfaces.{
  limit, stop, single, oco, OrderRequest, no_legs, leg, order, DesiredOrder,
}
use robo_trade.Lifecycle.Bracket.{sell_ticket, bracket_orders, desired}
use robo_trade.Lifecycle.Bidding.{min_price_fraction}
use robo_trade.Lifecycle.Held.Sales.{
  no_stop, IsExit, IsExitOrder, sell_ticket-IsSale, target_leg-ok, stop_leg-ok, pair-ok, may_stop,
}

module _ {F : Type 0} ⦃f : Float F⦄ where
  -- The three shapes of a bracket.
  abbrev pub target_order : String → ℕ → F → OrderRequest F
  target_order contract quantity target =
      order (sell_ticket contract quantity limit (some target) none single) no_legs

  abbrev pub stop_order : String → ℕ → F → OrderRequest F
  stop_order contract quantity stop_at =
      order (sell_ticket contract quantity stop none (some stop_at) single) no_legs

  abbrev pub lone_order : String → String → ℕ → F → List (DesiredOrder F)
  lone_order symbol contract quantity target =
      desired symbol "target" min_price_fraction (target_order contract quantity target) ∷ []

  abbrev pub two_orders : String → String → ℕ → F → F → List (DesiredOrder F)
  two_orders symbol contract quantity target stop_at =
      desired symbol "target" min_price_fraction (target_order contract quantity target)
      ∷ desired symbol "stop" zero_float (stop_order contract quantity stop_at)
      ∷ []

  abbrev pub pair_order : String → String → ℕ → F → F → List (DesiredOrder F)
  pair_order symbol contract quantity target stop_at =
      desired symbol "bracket" min_price_fraction (
        order (sell_ticket contract quantity limit (some target) none oco) (
          leg (target_order contract quantity target)
            (leg (stop_order contract quantity stop_at) no_legs)))
      ∷ []

  pub bracket_with_stop :
      (symbol contract : String) (quantity : ℕ) (target stop_at : F) (holds_oco stops : Bool)
      → nonzero target ≡ true
      → nonzero stop_at ≡ true
      → le stop_at zero_float ≡ false
      → (stops ≡ false → le stop_at zero_float ≡ true)
      → (os : List (DesiredOrder F)) × (bracket_orders symbol contract quantity target stop_at
            holds_oco
          ≡ ok os)
        × All (IsExitOrder contract quantity stops) os
  unfolding bracket_orders IsExit
  bracket_with_stop symbol contract quantity target stop_at false stops priced live on allowed = (
    two_orders symbol contract quantity target stop_at,
    rw
        (
          target_leg-ok contract quantity target priced,
          on,
          stop_leg-ok contract quantity stop_at live,
        )
        refl,
    (
      ((sell_ticket-IsSale contract quantity limit (some target) none single, no_stop stops), tt),
      (
        (
          (
            sell_ticket-IsSale contract quantity stop none (some stop_at) single,
            may_stop stops stop_at on allowed,
          ),
          tt,
        ),
        tt,
      ),
    ),
  )
  bracket_with_stop symbol contract quantity target stop_at true stops priced live on allowed = (
    pair_order symbol contract quantity target stop_at,
    rw
        (
          target_leg-ok contract quantity target priced,
          on,
          stop_leg-ok contract quantity stop_at live,
          pair-ok contract quantity target _ priced,
        )
        refl,
    (
      (
        (sell_ticket-IsSale contract quantity limit (some target) none oco, no_stop stops),
        (
          (
            (sell_ticket-IsSale contract quantity limit (some target) none single, no_stop stops),
            tt,
          ),
          (
            (
              (
                sell_ticket-IsSale contract quantity stop none (some stop_at) single,
                may_stop stops stop_at on allowed,
              ),
              tt,
            ),
            tt,
          ),
        ),
      ),
      tt,
    ),
  )

  -- The bracket of a priced position is built, and all of it sells the position.
  pub bracket_orders-IsExit :
      (symbol contract : String) (quantity : ℕ) (target stop_at : F) (holds_oco stops : Bool)
      → nonzero target ≡ true
      → (le stop_at zero_float ≡ false → nonzero stop_at ≡ true)
      → (stops ≡ false → le stop_at zero_float ≡ true)
      → (os : List (DesiredOrder F)) × (bracket_orders symbol contract quantity target stop_at
            holds_oco
          ≡ ok os)
        × All (IsExitOrder contract quantity stops) os
  unfolding bracket_orders IsExit
  bracket_orders-IsExit symbol contract quantity target stop_at holds_oco stops priced live
        allowed =
      elim (Bool-cases (le stop_at zero_float)) [
        | inl off ↦ (
          lone_order symbol contract quantity target,
          rw (target_leg-ok contract quantity target priced, off) refl,
          (
            (
              (sell_ticket-IsSale contract quantity limit (some target) none single, no_stop stops),
              tt,
            ),
            tt,
          ),
        )
        | inr on ↦
            bracket_with_stop symbol contract quantity target stop_at holds_oco stops priced
              (live on) on allowed
      ]
