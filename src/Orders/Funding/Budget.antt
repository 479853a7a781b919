-- ===== src/Orders/Funding/Budget.antt =====
-- The funded buys fit the budget, in exact arithmetic.
use robo_trade.Base.{
  String, ◌≡◌, refl, ap, Bool, true, false, not, ◌||◌, filter-All, List, [], ◌∷◌, arith, All,
  All-imp, inl, inr, Bool-cases, if◌then◌else◌,
}
use mathlib.Core.Path.{subst}
use robo_trade.Base.Dict.{Dict, mem_name}
use robo_trade.Base.Float.{Float, ◌⊕◌, ◌⊖◌, ◌⊗◌, ◌⊘◌, ◌≼◌, le, lt, zero_float, one_float, max_float}
use robo_trade.Base.Float.Exact.{IsExact}
use robo_trade.Base.Sort.{sort_by, sort_by-All}
use robo_trade.Orders.{
  is_sell, is_buy, share_epsilon, PlannedOrder, Policy, pro_rata, greedy, round_shares, truncate,
  share_scale, total_dollars, sum_from, dollars, funding_epsilon,
}
use robo_trade.Orders.Funding.{
  Funds, Holding, sale_proceeds_of, sells_of, liquidated, liquidation_from, liquidation_of,
  seeks_cash, liquidation_legs, fitted, no_fill, fit_from, fit_buys_to_budget, fund_buys,
  full_budget, base_budget, buys_of, mark_all, larger_first, symbols,
}

module _ {F : Type 0} ⦃f : Float F⦄ (laws : IsExact F) where
  open laws use {
    order, add_cancel, sub_nonneg, times_nonneg, times_mono, divide_mono, divide_nonneg,
    divide_times, times_divide, floor_le, hundred_pos,
  }

  le_of_not_lt : (a b : F) → lt a b ≡ false → b ≼ a
  le_of_not_lt a b h = ground (arith, order.lt-eq-not-le a b)

  le_of_lt : (a b : F) → lt a b ≡ true → a ≼ b
  le_of_lt a b h = elim (order.le_total a b) [
    | inl up ↦ up
    | inr down ↦ ground (arith, order.lt-eq-not-le a b)
  ]

  le_of_not_le : (a b : F) → le a b ≡ false → b ≼ a
  le_of_not_le a b h = elim (order.le_total a b) [ inl up ↦ cc | inr down ↦ down ]

  both_above :
      (price quantity : F) (middle : Bool)
      → (le price zero_float || middle || le quantity share_epsilon) ≡ false
      → (le price zero_float ≡ false) × (le quantity share_epsilon ≡ false)
  both_above price quantity middle h = ground arith

  truncate_le : (x : F) → zero_float ≼ x → truncate x ≼ x
  truncate_le x h = rw h (floor_le x)

  -- Rounding a share count that is not negative never raises it.
  round_shares_le : (x : F) (fractional : Bool) → zero_float ≼ x → round_shares x fractional ≼ x
  unfolding round_shares
  round_shares_le x false h = truncate_le x h
  round_shares_le x true h =
      order.le_trans _ _ _
        (divide_mono _ _ share_scale
          (truncate_le (x ⊗ share_scale)
            (times_nonneg x share_scale h (le_of_lt zero_float share_scale hundred_pos)))
          hundred_pos)
        (times_divide x share_scale hundred_pos)

  -- What is bought for the rest of the budget costs no more than that.
  fitted_le :
      (fractional : Bool) (scale remaining : F) (o : PlannedOrder F)
      → zero_float ≼ remaining
      → lt zero_float o.latest_price ≡ true
      → fitted fractional scale remaining o ⊗ o.latest_price ≼ remaining
  fitted_le fractional scale remaining o r p =
      elim (Bool-cases
        (lt remaining (round_shares (o.quantity ⊗ scale) fractional ⊗ o.latest_price))) [
          | inl over ↦ rw over (
              order.le_trans _ _ _
                (times_mono _ _ o.latest_price
                  (round_shares_le (remaining ⊘ o.latest_price) fractional
                    (divide_nonneg remaining o.latest_price r p))
                  (le_of_lt zero_float o.latest_price p))
                (divide_times remaining o.latest_price p))
          | inr fits ↦ rw fits (le_of_not_lt _ _ fits)
        ]

  -- A buy with a positive price.
  abbrev pub IsPriced : PlannedOrder F → Type 0
  IsPriced o = lt zero_float o.latest_price ≡ true

  -- What was spent before, with what the rest of the loop spends, stays in what was there.
  fit_from_budget :
      (fractional : Bool) (min_trade scale spent remaining : F) (os : List (PlannedOrder F))
      → zero_float ≼ remaining
      → All IsPriced os
      → sum_from spent (dollars (fit_from fractional min_trade scale remaining os).0)
        ≼ spent ⊕ remaining
  unfolding fit_from
  fit_from_budget fractional min_trade scale spent remaining [] r ps = laws.le-add spent remaining r
  fit_from_budget fractional min_trade scale spent remaining (o ∷ os) r ps =
      elim (Bool-cases (no_fill min_trade (fitted fractional scale remaining o) o)) [
        | inl dropped ↦
            rw dropped (fit_from_budget fractional min_trade scale spent remaining os r ps.1)
        | inr kept ↦
            let cost : F = fitted fractional scale remaining o ⊗ o.latest_price in
            let fits : cost ≼ remaining = fitted_le fractional scale remaining o r ps.0 in
            rw kept (
              subst
                (λ x.
                  sum_from (spent ⊕ cost)
                    (dollars (fit_from fractional min_trade scale (remaining ⊖ cost) os).0)
                  ≼ x)
                (add_cancel spent cost remaining fits)
                (fit_from_budget fractional min_trade scale (spent ⊕ cost) (remaining ⊖ cost) os
                  (sub_nonneg cost remaining fits) ps.1))
      ]

  from_zero : (a b : F) → a ≼ zero_float ⊕ b → a ≼ b
  from_zero a b h = subst (λ x. a ≼ x) (laws.zero_add b) h

  fit_buys_budget :
      (buys : List (PlannedOrder F)) (budget min_trade : F) (policy : Policy) (fractional : Bool)
      → zero_float ≼ budget
      → All IsPriced buys
      → total_dollars (fit_buys_to_budget buys budget policy min_trade fractional).0 ≼ budget
  unfolding fit_buys_to_budget
  fit_buys_budget buys budget min_trade greedy fractional r ps = from_zero _ budget (
      fit_from_budget fractional min_trade one_float zero_float budget (sort_by larger_first buys) r
        (sort_by-All larger_first IsPriced buys ps))
  fit_buys_budget buys budget min_trade pro_rata fractional r ps =
      let requested : F = total_dollars buys in
      let scale : F = if lt zero_float requested then budget ⊘ requested else zero_float in
      from_zero _ budget (fit_from_budget fractional min_trade scale zero_float budget buys r ps)

  abbrev IsNonneg : PlannedOrder F → Type 0
  IsNonneg o = zero_float ≼ o.trade_dollars

  sum_from_nonneg :
      (acc : F) (os : List (PlannedOrder F))
      → zero_float ≼ acc
      → All IsNonneg os
      → zero_float ≼ sum_from acc (dollars os)
  sum_from_nonneg acc [] h ps = h
  sum_from_nonneg acc (o ∷ os) h ps =
      sum_from_nonneg (acc ⊕ o.trade_dollars) os
        (order.le_trans _ _ _ h (laws.le-add acc o.trade_dollars ps.0)) ps.1

  leg_nonneg :
      (fractional : Bool) (needed : F) (h : Holding F)
      → (le h.price zero_float
          || le h.shares share_epsilon
          || le (liquidated fractional needed h) share_epsilon)
        ≡ false
      → zero_float ≼ liquidated fractional needed h ⊗ h.price
  leg_nonneg fractional needed h good =
      let (price, quantity) = both_above h.price (liquidated fractional needed h) _ good in
      times_nonneg _ _
        (order.le_trans _ _ _ (laws.ratio_nonneg 1 1_000_000_000) (le_of_not_le _ _ quantity))
        (le_of_not_le _ _ price)

  liquidation_from-IsNonneg :
      (fractional : Bool) (traded : List String) (needed : F) (holdings : Dict (Holding F))
      → All IsNonneg (liquidation_from fractional traded needed holdings)
  unfolding liquidation_from
  liquidation_from-IsNonneg fractional traded needed [] = tt
  liquidation_from-IsNonneg fractional traded needed ((symbol, h) ∷ holdings) =
      let quantity : F = liquidated fractional needed h in
      let skip = liquidation_from-IsNonneg fractional traded needed holdings in
      elim (Bool-cases (le needed funding_epsilon)) [
        | inl done ↦ rw done tt
        | inr more ↦ elim (Bool-cases (mem_name symbol traded)) [
          | inl known ↦ rw (more, known) skip
          | inr new ↦
              elim (Bool-cases
                (le h.price zero_float || le h.shares share_epsilon || le quantity share_epsilon)) [
                  | inl bad ↦ rw (more, new, bad) skip
                  | inr good ↦
                      rw (more, new, good)
                        (
                          leg_nonneg fractional needed h good,
                          liquidation_from-IsNonneg fractional traded
                              (needed ⊖ (quantity ⊗ h.price)) holdings,
                        )
                ]
        ]
      ]

  -- A row that can be paid for: a positive price and a value that is not negative.
  abbrev pub IsPayable : PlannedOrder F → Type 0
  IsPayable o = IsPriced o × IsNonneg o

  proceeds_nonneg :
      (planned : List (PlannedOrder F))
      → All IsPayable planned
      → zero_float ≼ sale_proceeds_of planned
  proceeds_nonneg planned h = sum_from_nonneg zero_float _ (order.le_refl zero_float) (
      filter-All IsNonneg (λ o. not o.opens_short) (sells_of planned)
        (filter-All IsNonneg (λ o. is_sell o.action) planned
          (All-imp IsPayable IsNonneg planned (λ o q. q.1) h)))

  max_nonneg : (a : F) → zero_float ≼ max_float a zero_float
  max_nonneg a = elim (Bool-cases (lt a zero_float)) [
    | inl below ↦ rw below (order.le_refl zero_float)
    | inr above ↦ rw above (le_of_not_lt a zero_float above)
  ]

  base_budget_nonneg :
      (m : Funds F) (planned : List (PlannedOrder F))
      → All IsPayable planned
      → zero_float ≼ base_budget m planned
  unfolding base_budget
  base_budget_nonneg m planned h =
      order.le_trans _ _ _ (max_nonneg _) (laws.le-add _ _ (proceeds_nonneg planned h))

  liquidation_of-IsNonneg :
      (m : Funds F) (planned : List (PlannedOrder F)) → All IsNonneg (liquidation_of m planned)
  unfolding liquidation_of liquidation_legs
  liquidation_of-IsNonneg m planned = elim (Bool-cases (seeks_cash m planned)) [
    | inl short ↦
        rw short (liquidation_from-IsNonneg m.fractional (symbols planned) _ m.cash_equivalents)
    | inr enough ↦ rw enough tt
  ]

  if_nonneg :
      (b : Bool) (x y : F) → zero_float ≼ x → zero_float ≼ y → zero_float ≼ (if b then x else y)
  if_nonneg true x y h k = h
  if_nonneg false x y h k = k

  full_budget_nonneg :
      (m : Funds F) (planned : List (PlannedOrder F))
      → All IsPayable planned
      → zero_float ≼ full_budget m planned
  unfolding full_budget
  full_budget_nonneg m planned h =
      let base : F = base_budget m planned in
      let base_h : zero_float ≼ base = base_budget_nonneg m planned h in
      if_nonneg (seeks_cash m planned) (base ⊕ total_dollars (liquidation_of m planned)) base
        (order.le_trans _ _ _ base_h (
          laws.le-add base (total_dollars (liquidation_of m planned)) (
            sum_from_nonneg zero_float (liquidation_of m planned) (order.le_refl zero_float)
              (liquidation_of-IsNonneg m planned))))
        base_h

  dollars-mark_all : (os : List (PlannedOrder F)) → dollars (mark_all os) ≡ dollars os
  dollars-mark_all [] = refl
  dollars-mark_all (o ∷ os) = ap (◌∷◌ o.trade_dollars) (dollars-mark_all os)

  -- Under either policy the buys that are funded cost no more than the budget: what the account may
  -- spend above its reserve, with the proceeds of the sells and of the liquidated holdings. A cent of
  -- slack is left, as the code allows, where nothing has to be cut. Arithmetic is taken to be exact,
  -- and the rows to have positive prices and values that are not negative.
  pub fund_buys_budget :
      (m : Funds F) (planned : List (PlannedOrder F))
      → All IsPayable planned
      → total_dollars (fund_buys m planned).0 ≼ full_budget m planned ⊕ funding_epsilon
  unfolding fund_buys
  fund_buys_budget m planned h =
      elim (Bool-cases
        (le (total_dollars (buys_of planned)) (full_budget m planned ⊕ funding_epsilon))) [
          | inl fits ↦ rw (fits, dollars-mark_all (buys_of planned)) fits
          | inr over ↦ rw over (
              order.le_trans _ _ _
                (fit_buys_budget (buys_of planned) (full_budget m planned) m.min_trade_dollars
                  m.policy m.fractional (full_budget_nonneg m planned h)
                  (filter-All IsPriced (λ o. is_buy o.action) planned
                    (All-imp IsPayable IsPriced planned (λ o q. q.0) h)))
                (laws.le-add _ _ (laws.ratio_nonneg 1 100)))
        ]
