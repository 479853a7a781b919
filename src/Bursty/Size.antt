-- ===== src/Bursty/Size.antt =====
-- What bounds the size of an order.
use robo_trade.Base.{◌≡◌, refl, ◌⊎◌, inl, inr, Bool, true, ◌&&◌, Bool-cases, arith}
use robo_trade.Base.Float.{
  Float, IsOrdered, ◌≼◌, le, lt, zero_float, abs_float, max_float, min_float,
}
use robo_trade.Bursty.{
  BurstyConfig, conviction, spending_allowance, cap_room, desired_size, lifted, planned_order_size,
}

module _ {F : Type 0} ⦃f : Float F⦄ where
  -- Within the month's room and the allowance, for the price and the balance of the run.
  abbrev pub IsGoverned : F → F → Bool → F → F → BurstyConfig F → F → Type 0
  IsGoverned budget z buying backlog deployed settings size =
      (size ≼ cap_room budget deployed settings)
      × (size ≼ spending_allowance budget backlog (conviction z buying settings) settings)

module _ {F : Type 0} ⦃f : Float F⦄ (ord : IsOrdered F) where
  pub le_of_lt : (a b : F) → lt a b ≡ true → a ≼ b
  le_of_lt a b h = elim (ord.le_total a b) [
    | inl below ↦ below
    | inr above ↦ absurd (ground (arith, ord.lt-eq-not-le a b))
  ]

  pub min_float-le : (a b : F) → (min_float a b ≼ a) × (min_float a b ≼ b)
  min_float-le a b = elim (Bool-cases (lt b a)) [
    | inl below ↦ rw below (le_of_lt b a below, ord.le_refl b)
    | inr above ↦ rw above (ord.le_refl a, ground (arith, ord.lt-eq-not-le b a, ord.le_total a b))
  ]

  lifted_cases :
      (sized floor accrued : F)
      → (lifted sized floor accrued ≡ sized)
        ⊎ ((lifted sized floor accrued ≡ floor) × (floor ≼ accrued) × (lt zero_float sized ≡ true))
  unfolding lifted
  lifted_cases sized floor accrued =
      elim (Bool-cases (lt zero_float sized && lt sized floor && le floor accrued)) [
        | inl lift ↦ inr (rw lift refl, ground arith, ground arith)
        | inr keep ↦ inl (rw keep refl)
      ]

  pub zero-le_max : (a : F) → zero_float ≼ max_float a zero_float
  zero-le_max a = elim (Bool-cases (lt a zero_float)) [
    | inl below ↦ rw below (ord.le_refl zero_float)
    | inr above ↦
        rw above (ground (arith, ord.lt-eq-not-le a zero_float, ord.le_total a zero_float))
  ]

  cap_room_nonneg :
      (budget deployed : F) (settings : BurstyConfig F)
      → zero_float ≼ cap_room budget deployed settings
  unfolding cap_room
  cap_room_nonneg budget deployed settings = zero-le_max _

  spending_allowance_nonneg :
      (budget backlog conviction_factor : F) (settings : BurstyConfig F)
      → zero_float ≼ spending_allowance budget backlog conviction_factor settings
  unfolding spending_allowance
  spending_allowance_nonneg budget backlog conviction_factor settings = zero-le_max _

  lt_of_lt_le : (a b c : F) → lt a b ≡ true → b ≼ c → lt a c ≡ true
  lt_of_lt_le a b c h k =
      ground (arith, ord.lt-eq-not-le a b, ord.lt-eq-not-le a c, ord.le_trans b c a k)

  governed_lift :
      (desired room allowance floor accrued : F)
      → let size = lifted (min_float (min_float desired room) allowance) floor accrued in
        ((size ≼ room) × (size ≼ allowance))
        ⊎ ((size ≡ floor) × (floor ≼ accrued) × (lt zero_float desired ≡ true))
  governed_lift desired room allowance floor accrued =
      let (inner_desired, inner_room) = min_float-le desired room in
      let (outer_inner, outer_allowance) = min_float-le (min_float desired room) allowance in
      let sized : F = min_float (min_float desired room) allowance in
      elim (lifted_cases sized floor accrued) [
        | inl keep ↦
            inl (rw keep (ord.le_trans _ _ _ outer_inner inner_room), rw keep outer_allowance)
        | inr (lift, paid, wanted) ↦
            inr
              (lift, paid, lt_of_lt_le _ _ _ wanted (ord.le_trans _ _ _ outer_inner inner_desired))
      ]

  -- The size of an order is governed, by the room that the month leaves and by the allowance, which is the
  -- balance and an overdraft that the conviction earns; the one exception is an order of exactly the
  -- least executable size, for which the banked balance pays in full, and which is only made where the
  -- signal wants something at all.
  pub planned_order_size-IsGoverned :
      (tanh : F → F) (budget z : F) (buying : Bool) (backlog deployed : F)
      (settings : BurstyConfig F) (accrued floor : F)
      → let size =
          planned_order_size tanh budget z buying backlog deployed settings accrued floor in
        IsGoverned (abs_float budget) z buying backlog deployed settings size
        ⊎ ((size ≡ floor)
            × (floor ≼ accrued)
            × (lt zero_float (desired_size tanh (abs_float budget) z buying backlog settings)
                ≡ true))
  unfolding planned_order_size
  planned_order_size-IsGoverned tanh budget z buying backlog deployed settings accrued floor =
      elim (Bool-cases (le (abs_float budget) zero_float)) [
        | inl nothing ↦ inl (
          rw nothing (cap_room_nonneg _ _ settings),
          rw nothing (spending_allowance_nonneg _ _ _ settings),
        )
        | inr something ↦ rw something (governed_lift _ _ _ floor accrued)
      ]
