-- ===== src/Orders/Funding/Partition.antt =====
-- No row is lost in the funding, and none is sent twice.
use mathlib.Core.List.{Perm, append-nil, perm_middle}
use mathlib.Core.List.Perm
use robo_trade.Base.{
  String, ◌≡◌, refl, ap, Bool, true, false, ◌||◌, some, List, [], ◌∷◌, ◌++◌, map, All, inl, inr,
  Bool-cases, if◌then◌else◌,
}
use robo_trade.Base.Dict.{Dict, mem_name}
use robo_trade.Base.Float.{Float, ◌⊖◌, ◌⊗◌, ◌⊘◌, ◌⊕◌, le, lt, zero_float, one_float}
use robo_trade.Base.Sort.{sort_by, sort_by-perm}
use robo_trade.Interfaces.{sell}
use robo_trade.Orders.{
  share_epsilon, funding_epsilon, PlannedOrder, Policy, pro_rata, greedy, unfunded, total_dollars,
}
use robo_trade.Orders.Funding.{
  Batches, Funds, Holding, sells_of, buys_of, symbols, liquidated, liquidation_from, liquidation_of,
  seeks_cash, liquidation_legs, fitted, no_fill, fit_from, fit_buys_to_budget, fund_buys,
  full_budget, mark_all, larger_first, fund_planned_orders,
}

module _ {F : Type 0} where
  -- What a planned row asks for, and what the row that left the funding says was asked.
  abbrev pub wanted : PlannedOrder F → String × F
  wanted o = (o.symbol, o.quantity)

  abbrev pub asked : PlannedOrder F → String × F
  asked o = (o.symbol, o.requested_quantity)

  abbrev pub asked_of : Batches F → List (String × F)
  asked_of (funded, rest) = map asked funded ++ map asked rest

  abbrev pub IsUnfunded : PlannedOrder F → Type 0
  IsUnfunded o = o.funding_status ≡ some unfunded

  -- Every row of `os` is among the two batches, once, and the second holds the unfunded ones.
  abbrev pub IsSplit : List (PlannedOrder F) → Batches F → Type 0
  IsSplit os b = Perm (asked_of b) (map wanted os) × All IsUnfunded b.1

  abbrev pub IsLiquidation : PlannedOrder F → Type 0
  IsLiquidation o = (o.action ≡ sell) × (o.from_cash_equivalent ≡ true)

module _ {F : Type 0} ⦃f : Float F⦄ where
  fit_from-IsSplit :
      (fractional : Bool) (min_trade scale remaining : F) (os : List (PlannedOrder F))
      → IsSplit os (fit_from fractional min_trade scale remaining os)
  unfolding fit_from
  fit_from-IsSplit fractional min_trade scale remaining [] = (Perm.refl [], tt)
  fit_from-IsSplit fractional min_trade scale remaining (o ∷ os) =
      let quantity : F = fitted fractional scale remaining o in
      elim (Bool-cases (no_fill min_trade quantity o)) [
        | inl dropped ↦
            let (perm, marks) = fit_from-IsSplit fractional min_trade scale remaining os in
            rw dropped (Perm.trans (perm_middle _ _) (Perm.cons (wanted o) perm), (refl, marks))
        | inr kept ↦
            let (perm, marks) =
              fit_from-IsSplit fractional min_trade scale (remaining ⊖ (quantity ⊗ o.latest_price))
                os in
            rw kept (Perm.cons (wanted o) perm, marks)
      ]

  fit_buys-IsSplit :
      (buys : List (PlannedOrder F)) (budget min_trade : F) (policy : Policy) (fractional : Bool)
      → IsSplit buys (fit_buys_to_budget buys budget policy min_trade fractional)
  unfolding fit_buys_to_budget
  fit_buys-IsSplit buys budget min_trade greedy fractional =
      let (perm, marks) =
        fit_from-IsSplit fractional min_trade one_float budget (sort_by larger_first buys) in
      (Perm.trans perm (Perm.map wanted (sort_by-perm larger_first buys)), marks)
  fit_buys-IsSplit buys budget min_trade pro_rata fractional =
      let requested : F = total_dollars buys in
      let scale : F = if lt zero_float requested then budget ⊘ requested else zero_float in
      fit_from-IsSplit fractional min_trade scale budget buys

  asked-mark_all : (os : List (PlannedOrder F)) → map asked (mark_all os) ≡ map wanted os
  asked-mark_all [] = refl
  asked-mark_all (o ∷ os) = ap (◌∷◌ (wanted o)) (asked-mark_all os)

  mark_all-IsSplit : (os : List (PlannedOrder F)) → IsSplit os (mark_all os, [])
  mark_all-IsSplit os = (rw (append-nil, asked-mark_all os) (Perm.refl (map wanted os)), tt)

  if-IsSplit :
      (test : Bool) (os : List (PlannedOrder F)) (b c : Batches F)
      → IsSplit os b
      → IsSplit os c
      → IsSplit os (if test then b else c)
  if-IsSplit true os b c h k = h
  if-IsSplit false os b c h k = k

  fund_buys-IsSplit :
      (m : Funds F) (planned : List (PlannedOrder F))
      → IsSplit (buys_of planned) (fund_buys m planned)
  unfolding fund_buys
  fund_buys-IsSplit m planned =
      let buys : List (PlannedOrder F) = buys_of planned in
      let budget : F = full_budget m planned in
      if-IsSplit (le (total_dollars buys) (budget ⊕ funding_epsilon)) buys (mark_all buys, [])
        (fit_buys_to_budget buys budget m.policy m.min_trade_dollars m.fractional)
        (mark_all-IsSplit buys)
        (fit_buys-IsSplit buys budget m.min_trade_dollars m.policy m.fractional)

  liquidation_from-IsLiquidation :
      (fractional : Bool) (traded : List String) (needed : F) (holdings : Dict (Holding F))
      → All IsLiquidation (liquidation_from fractional traded needed holdings)
  unfolding liquidation_from
  liquidation_from-IsLiquidation fractional traded needed [] = tt
  liquidation_from-IsLiquidation fractional traded needed ((symbol, h) ∷ holdings) =
      let quantity : F = liquidated fractional needed h in
      let skip = liquidation_from-IsLiquidation fractional traded needed holdings in
      elim (Bool-cases (le needed funding_epsilon)) [
        | inl done ↦ rw done tt
        | inr more ↦ elim (Bool-cases (mem_name symbol traded)) [
          | inl known ↦ rw (more, known) skip
          | inr new ↦
              elim (Bool-cases
                (le h.price zero_float || le h.shares share_epsilon || le quantity share_epsilon)) [
                  | inl bad ↦ rw (more, new, bad) skip
                  | inr good ↦
                      rw (more, new, good)
                        (
                          (refl, refl),
                          liquidation_from-IsLiquidation fractional traded
                              (needed ⊖ (quantity ⊗ h.price)) holdings,
                        )
                ]
        ]
      ]

  liquidation_of-IsLiquidation :
      (m : Funds F) (planned : List (PlannedOrder F)) → All IsLiquidation (liquidation_of m planned)
  unfolding liquidation_of liquidation_legs
  liquidation_of-IsLiquidation m planned = elim (Bool-cases (seeks_cash m planned)) [
    | inl short ↦
        rw short
          (liquidation_from-IsLiquidation m.fractional (symbols planned) _ m.cash_equivalents)
    | inr enough ↦ rw enough tt
  ]

  -- The batch that is sent holds the sales of cash-like holdings first, then every planned sell with
  -- its own quantity, then buys; and those buys with the rejected rows are the planned buys, each once
  -- and with the quantity that was asked for. Every rejected row is marked as unfunded.
  pub fund_planned_orders-IsSplit :
      (m : Funds F) (planned : List (PlannedOrder F))
      → let r = fund_planned_orders m planned in
        (sales : List (PlannedOrder F)) × (funded : List (PlannedOrder F)) × (r.fundable
          ≡ sales ++ (mark_all (sells_of planned) ++ funded))
        × All IsLiquidation sales
        × IsSplit (buys_of planned) (funded, r.rejected)
  unfolding fund_planned_orders
  fund_planned_orders-IsSplit m [] = ([], [], refl, tt, (Perm.refl [], tt))
  fund_planned_orders-IsSplit m (o ∷ os) =
      let planned : List (PlannedOrder F) = o ∷ os in
      (
        liquidation_of m planned,
        (fund_buys m planned).0,
        refl,
        liquidation_of-IsLiquidation m planned,
        fund_buys-IsSplit m planned,
      )
