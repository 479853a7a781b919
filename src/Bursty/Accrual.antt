-- ===== src/Bursty/Accrual.antt =====
-- What `accrue` adds.
use robo_trade.Base.{
  String, ◌≡◌, refl, ap, ◌∙◌, true, false, not, ◌&&◌, Option, none, some, if◌then◌else◌, Bool-cases,
  inl, inr, ◌⊎◌, is_some, arith, eq_iff, str_eq, if_same,
}
use robo_trade.Base.Float.{Float, ◌≼◌, ◌⊕◌, ◌⊗◌, lt, zero_float, ratio, max_float, min_float}
use robo_trade.Base.Float.Exact.{IsExact}
use robo_trade.Bursty.{
  SymbolState, Clock, parse_iso_utc, months_of, hours_in_month, max_catchup_months, turn_month,
  accrue_from, accrue,
}
use robo_trade.Bursty.Size.{min_float-le, zero-le_max}

module _ {F : Type 0} ⦃f : Float F⦄ (ex : IsExact F) where
  min_float-ge : (c a b : F) → c ≼ a → c ≼ b → c ≼ min_float a b
  min_float-ge c a b h k = elim (Bool-cases (lt b a)) [
    | inl below ↦ rw below k
    | inr above ↦ rw above h
  ]

  hours_pos : lt zero_float (hours_in_month {F = F}) ≡ true
  hours_pos = ex.ratio_pos 7305 10 (omega arith) (omega arith)

  -- The months of a run are between none and the catch-up limit.
  months_of_bounds : (s : F) → (zero_float ≼ months_of s) × (months_of s ≼ max_catchup_months)
  months_of_bounds s = (
    min_float-ge zero_float _ max_catchup_months
        (ex.divide_nonneg _ hours_in_month (zero-le_max ex.order _) hours_pos)
        (ex.ratio_nonneg 1 1),
    (min_float-le ex.order _ max_catchup_months).1,
  )

  catchup_nonneg : lt {F = F} max_catchup_months zero_float ≡ false
  catchup_nonneg =
      ground (arith, ex.order.lt-eq-not-le max_catchup_months zero_float, ex.ratio_nonneg 1 1)

  months_of_zero : months_of zero_float ≡ zero_float {F = F}
  months_of_zero =
      let per_hour =
        ex.zero_divide (ratio 3600 1) (ex.ratio_pos 3600 1 (omega arith) (omega arith)) in
      rw
        (
          per_hour,
          if_same (lt {F = F} zero_float zero_float) zero_float,
          ex.zero_divide hours_in_month hours_pos,
          catchup_nonneg,
        )
        refl

module _ {F Moment : Type 0} ⦃f : Float F⦄ (ex : IsExact F) (clock : Clock F Moment) where
  accrue_from_bounds :
      (t : SymbolState F) (budget : F) (now : Moment) (previous : Option Moment)
      → let after = accrue_from clock t budget now previous in
        (t.accrued ≼ after.accrued)
        × (after.accrued ≼ t.accrued ⊕ (max_float budget zero_float ⊗ max_catchup_months))
        × ((is_some previous ≡ true) ⊎ (after.accrued ≡ t.accrued))
  accrue_from_bounds t budget now none = (
    ex.order.le_refl t.accrued,
    ex.le-add t.accrued _
        (ex.times_nonneg _ max_catchup_months (zero-le_max ex.order budget) (ex.ratio_nonneg 1 1)),
    inr refl,
  )
  accrue_from_bounds t budget now (some previous) =
      let budget_nonneg = zero-le_max ex.order budget in
      let (low, high) = months_of_bounds ex (clock.seconds_between now previous) in
      (
        ex.le-add t.accrued _ (ex.times_nonneg _ _ budget_nonneg low),
        ex.add_mono t.accrued _ _ (ex.times_mono_right _ _ _ high budget_nonneg),
        inl refl,
      )

  -- A run accrues something that is never negative and at most the catch-up limit's share of the budget,
  -- however long the gap before it, and nothing at all where the last run is not known; in exact
  -- arithmetic.
  pub accrue_bounds :
      (state : SymbolState F) (budget : F) (now : Moment)
      → let after = accrue clock state budget now in
        (state.accrued ≼ after.accrued)
        × (after.accrued ≼ state.accrued ⊕ (max_float budget zero_float ⊗ max_catchup_months))
        × ((is_some (parse_iso_utc clock state.last_run_at) ≡ true)
            ⊎ (after.accrued ≡ state.accrued))
  unfolding accrue
  accrue_bounds state budget now =
      accrue_from_bounds (turn_month (clock.month_of now) state) budget now
        (parse_iso_utc clock state.last_run_at)

  same_month :
      (m : String) (d : F) → (if not (str_eq m "") && not (str_eq m m) then zero_float else d) ≡ d
  same_month m d = ground (arith, eq_iff m m)

  module _ (budget : F) (now : Moment) (read : clock.fromisoformat (clock.isoformat now) ≡ some now)
      (aware : clock.is_aware now ≡ true) (still : clock.seconds_between now now ≡ zero_float) where
    -- A state that a run at this moment left.
    abbrev just_run : F → F → SymbolState F
    just_run accrued deployed = record {
      accrued = accrued;
      last_run_at = clock.isoformat now;
      deployed_this_month = deployed;
      month = clock.month_of now;
    }

    reads_back : parse_iso_utc clock (clock.isoformat now) ≡ some now
    reads_back = rw (read, aware) refl

    accrue_settled :
        (accrued deployed : F)
        → accrue clock (just_run accrued deployed) budget now ≡ just_run accrued deployed
    unfolding accrue
    accrue_settled accrued deployed =
        ap
          (accrue_from clock (turn_month (clock.month_of now) (just_run accrued deployed)) budget
            now)
          reads_back
        ∙ rw
            (
              still,
              months_of_zero ex,
              ex.times_zero (max_float budget zero_float),
              ex.add_zero accrued,
              same_month (clock.month_of now) deployed,
            )
            refl

    accrue-accrue_from :
        (t : SymbolState F) (previous : Option Moment)
        → let after = accrue_from clock (turn_month (clock.month_of now) t) budget now previous in
          accrue clock after budget now ≡ after
    accrue-accrue_from t none = accrue_settled _ _
    accrue-accrue_from t (some previous) = accrue_settled _ _

    -- Running twice at one moment accrues what running once does: the state after the second run is that
    -- after the first, in exact arithmetic, for a moment that is read back from its own text.
    pub accrue_twice :
        (state : SymbolState F)
        → accrue clock (accrue clock state budget now) budget now ≡ accrue clock state budget now
    unfolding accrue
    accrue_twice state = accrue-accrue_from state (parse_iso_utc clock state.last_run_at)
