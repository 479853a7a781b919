-- ===== src/Rally/Exits.antt =====
-- A full exit is not held back by the damping.
use robo_trade.Base.{
  String, ◌≡◌, refl, ◌∙◌, Bool, true, false, some, [], ◌∷◌, if◌then◌else◌, arith, str_eq, eq_iff,
  Bool-cases, inl, inr,
}
use robo_trade.Base.Dict.{Dict, lookup, keys, mem_name, IsDistinct, lookup-insert}
use robo_trade.Base.Float.{Float, ◌⊖◌, ◌⊗◌, lt, zero_float, max_float, abs_float}
use robo_trade.Rally.Sizing.{
  SizingConfig, rally_epsilon, minimum_notional, held_weight, is_exit, is_suppressed, filter_moves,
  increases, repair, fit_to_budget, apply_turnover_filters,
}

module _ {F : Type 0} ⦃f : Float F⦄ (current : Dict F) (equity : F) (c : SizingConfig F) where
  keys-filter_moves :
      (target : Dict F) (k : String)
      → mem_name k (keys (filter_moves current equity c target)) ≡ mem_name k (keys target)
  unfolding filter_moves
  keys-filter_moves [] k = refl
  keys-filter_moves ((j, w) ∷ target) k = ground (arith, keys-filter_moves target k)

  -- What is filtered for a name that moves.
  lookup-filter_moves :
      (target : Dict F) (k : String) (weight : F)
      → lookup k target ≡ some weight
      → is_suppressed current equity c weight (held_weight current equity c k) ≡ false
      → lookup k (filter_moves current equity c target) ≡ some weight
  unfolding filter_moves
  lookup-filter_moves [] k weight h free = cc
  lookup-filter_moves ((j, w) ∷ target) k weight h free = elim (Bool-cases (str_eq j k)) [
    | inl same ↦
        let name : j ≡ k = (eq_iff j k).0 same in
        let picked : some w ≡ some weight = rw same at h in
        let value : w ≡ weight = cc in rw (same, name, value, free) refl
    | inr other ↦ rw other (lookup-filter_moves target k weight (rw other at h) free)
  ]

  mem_name-increases :
      (d : Dict F) (k : String)
      → mem_name k (keys d) ≡ false
      → mem_name k (keys (increases current equity c d)) ≡ false
  mem_name-increases [] k h = refl
  mem_name-increases ((j, w) ∷ d) k h =
      elim (Bool-cases (lt rally_epsilon (w ⊖ held_weight current equity c j))) [
        | inl more ↦ rw more (ground (arith, mem_name-increases d k))
        | inr less ↦ rw less (ground (arith, mem_name-increases d k))
      ]

  -- A name that does not grow is not among the increases.
  mem_name-increases_exit :
      (d : Dict F) (k : String) (weight : F)
      → lookup k d ≡ some weight
      → lt rally_epsilon (weight ⊖ held_weight current equity c k) ≡ false
      → IsDistinct d
      → mem_name k (keys (increases current equity c d)) ≡ false
  mem_name-increases_exit [] k weight h exit distinct = refl
  mem_name-increases_exit ((j, w) ∷ d) k weight h exit (new, distinct) =
      elim (Bool-cases (str_eq j k)) [
        | inl same ↦
            let name : j ≡ k = (eq_iff j k).0 same in
            let picked : some w ≡ some weight = rw same at h in
            let value : w ≡ weight = cc in
            rw (name, value, exit) (mem_name-increases d k (rw name at new))
        | inr other ↦ elim (Bool-cases (lt rally_epsilon (w ⊖ held_weight current equity c j))) [
          | inl more ↦
              rw (more, other) (mem_name-increases_exit d k weight (rw other at h) exit distinct)
          | inr less ↦ rw less (mem_name-increases_exit d k weight (rw other at h) exit distinct)
        ]
      ]

  lookup-repair_other :
      (keep : F) (more repaired : Dict F) (k : String)
      → mem_name k (keys more) ≡ false
      → lookup k (repair current equity c keep more repaired) ≡ lookup k repaired
  lookup-repair_other keep [] repaired k h = refl
  lookup-repair_other keep ((j, increase) ∷ more) repaired k h =
      let apart : str_eq j k ≡ false = ground arith in
      lookup-repair_other keep more _ k (ground arith)
      ∙ lookup-insert j k _ repaired
      ∙ rw apart refl

  filter_moves-IsDistinct :
      (target : Dict F) → IsDistinct target → IsDistinct (filter_moves current equity c target)
  unfolding filter_moves
  filter_moves-IsDistinct [] h = tt
  filter_moves-IsDistinct ((j, w) ∷ target) (new, distinct) =
      (keys-filter_moves target j ∙ new, filter_moves-IsDistinct target distinct)

  lookup-fit_to_budget :
      (filtered target : Dict F) (k : String)
      → mem_name k (keys (increases current equity c filtered)) ≡ false
      → lookup k (fit_to_budget current equity c filtered target) ≡ lookup k filtered
  unfolding fit_to_budget
  lookup-fit_to_budget filtered target k h = kept _ _
    where
      kept :
          (fits : Bool) (keep : F)
          → lookup k (
              if fits
              then filtered
              else repair current equity c keep (increases current equity c filtered) filtered)
            ≡ lookup k filtered
      kept true keep = refl
      kept false keep = lookup-repair_other keep _ filtered k h

  -- A full exit is not held back: a held name with a target of zero or less keeps that target through the
  -- damping, however small the position is against the band and whatever is cut to fit the budget, if
  -- only the trade is worth the least notional. The exit does not count as a growth of the position.
  pub apply_turnover_filters_exit :
      (target : Dict F) (k : String) (weight : F)
      → IsDistinct target
      → lookup k target ≡ some weight
      → is_exit current equity c weight (held_weight current equity c k) ≡ true
      → lt
          (abs_float (weight ⊖ held_weight current equity c k) ⊗ max_float equity zero_float)
          (minimum_notional equity c)
        ≡ false
      → lt rally_epsilon (weight ⊖ held_weight current equity c k) ≡ false
      → lookup k (apply_turnover_filters current equity c target) ≡ some weight
  unfolding apply_turnover_filters is_suppressed
  apply_turnover_filters_exit target k weight distinct h exit worth shrinks =
      let free : is_suppressed current equity c weight (held_weight current equity c k) ≡ false =
        rw (exit, worth) refl in
      let passed = lookup-filter_moves target k weight h free in
      lookup-fit_to_budget (filter_moves current equity c target) target k (
        mem_name-increases_exit (filter_moves current equity c target) k weight passed shrinks
          (filter_moves-IsDistinct target distinct))
      ∙ passed
