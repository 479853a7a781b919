-- ===== src/Rally/Sizing.antt =====
-- src/algorithms/rally_rotation/sizing.py: the weights of the chosen names, and the damping of the move.
use robo_trade.Base.{
  String, Bool, not, ◌&&◌, ◌||◌, none, some, List, [], ◌∷◌, if◌then◌else◌, leb, length, take,
  get_or_else,
}
use robo_trade.Base.Dict.{Dict, lookup, insert}
use robo_trade.Base.Float.{
  Float, ◌⊕◌, ◌⊖◌, ◌⊗◌, ◌⊘◌, ratio, le, lt, zero_float, one_float, max_float, abs_float, nonzero,
}
use robo_trade.Base.Int.{ℤ, pos_part}
use robo_trade.Base.Sort.{sort_by}
use robo_trade.Orders.{sum_from}

-- The settings of the sizing.
pub record SizingConfig (F : Type 0) : Type 0 where
  pub risk_on_gross_max : F
  pub volatility_tilt : F
  pub defensive_max_positions : ℤ
  pub rebalance_weight_threshold : F
  pub minimum_trade_notional : F
  pub minimum_trade_nav_fraction : F

-- A scored row, with zero for what is missing.
pub record ScoredRow (F : Type 0) : Type 0 where
  pub symbol : String
  pub base_score : F
  pub annual_volatility : F
  pub abs_return : F

module _ {F : Type 0} ⦃f : Float F⦄ where
  -- `EPSILON`.
  abbrev pub rally_epsilon : F
  rally_epsilon = ratio 1 1_000_000_000

  abbrev pub values_of : Dict F → List F
  values_of [] = []
  values_of ((k, v) ∷ d) = v ∷ values_of d

  abbrev pub positive_values : Dict F → List F
  positive_values [] = []
  positive_values ((k, v) ∷ d) =
      let rest = positive_values d in if lt zero_float v then v ∷ rest else rest

  -- `max(config.risk_on_gross_max, 0.0)`.
  abbrev pub gross_max : SizingConfig F → F
  gross_max c = max_float c.risk_on_gross_max zero_float

  abbrev tilt : SizingConfig F → ScoredRow F → F
  tilt c row =
      if nonzero c.volatility_tilt
      then f.power (row.annual_volatility ⊕ rally_epsilon) c.volatility_tilt
      else one_float

  abbrev raw_weights : SizingConfig F → List (ScoredRow F) → Dict F → Dict F
  raw_weights c [] raw = raw
  raw_weights c (row ∷ rows) raw =
      raw_weights c rows (insert row.symbol (max_float row.base_score zero_float ⊗ tilt c row) raw)

  abbrev equal_weights : F → Dict F → Dict F
  equal_weights share [] = []
  equal_weights share ((k, v) ∷ d) = (k, share) ∷ equal_weights share d

  abbrev proportional : F → F → Dict F → Dict F
  proportional gross total [] = []
  proportional gross total ((k, v) ∷ d) = (k, (gross ⊗ v) ⊘ total) ∷ proportional gross total d

  -- `score_to_weights`.
  unfoldable pub score_to_weights : List (ScoredRow F) → SizingConfig F → Dict F
  score_to_weights rows c =
      let raw : Dict F = raw_weights c rows [] in
      let total : F = sum_from zero_float (values_of raw) in
      if le total rally_epsilon
      then equal_weights (gross_max c ⊘ ratio (length raw) 1) raw
      else proportional (gross_max c) total raw

  abbrev scored_in : Dict (ScoredRow F) → List String → List (ScoredRow F)
  scored_in scored [] = []
  scored_in scored (k ∷ ks) = elim (lookup k scored) [
    | none ↦ scored_in scored ks
    | some row ↦ row ∷ scored_in scored ks
  ]

  abbrev shared_out : F → List (ScoredRow F) → Dict F → Dict F
  shared_out share [] weights = weights
  shared_out share (row ∷ rows) weights = shared_out share rows (insert row.symbol share weights)

  -- `defensive_weights`, for the names of the defensive universe.
  unfoldable pub defensive_weights : Dict (ScoredRow F) → List String → SizingConfig F → Dict F
  defensive_weights scored universe c =
      let ranked =
        sort_by (λ a b. not (lt a.abs_return b.abs_return)) (scored_in scored universe) in
      let slots = pos_part c.defensive_max_positions in
      let chosen = take (if leb slots 1 then 1 else slots) ranked in
      shared_out (gross_max c ⊘ ratio (length chosen) 1) chosen []

  abbrev add_shares : F → F → Dict F → Dict F → Dict F
  add_shares residual total [] combined = combined
  add_shares residual total ((k, share) ∷ book) combined = add_shares residual total book (
      insert k (get_or_else (lookup k combined) zero_float ⊕ ((residual ⊗ share) ⊘ total)) combined)

  -- `park_residual`.
  unfoldable pub park_residual : Dict F → Dict F → SizingConfig F → Dict F
  park_residual weights book c =
      let residual : F = gross_max c ⊖ sum_from zero_float (positive_values weights) in
      let total : F = sum_from zero_float (values_of book) in
      if le residual rally_epsilon || le total rally_epsilon
      then weights
      else add_shares residual total book weights

  -- `_minimum_notional`.
  unfoldable pub minimum_notional : F → SizingConfig F → F
  minimum_notional equity c =
      max_float c.minimum_trade_notional
        (c.minimum_trade_nav_fraction ⊗ max_float equity zero_float)

  module _ (current : Dict F) (equity : F) (c : SizingConfig F) where
    abbrev pub held_weight : String → F
    held_weight k = get_or_else (lookup k current) zero_float

    -- `closing`, and the test for a move that is not worth its costs.
    abbrev pub is_exit : F → F → Bool
    is_exit weight held = le weight zero_float && lt zero_float held

    unfoldable pub is_suppressed : F → F → Bool
    unfolding minimum_notional
    is_suppressed weight held =
        let move : F = abs_float (weight ⊖ held) in
        (not (is_exit weight held) && lt move (max_float c.rebalance_weight_threshold zero_float))
        || lt (move ⊗ max_float equity zero_float) (minimum_notional equity c)

    unfoldable pub filter_moves : Dict F → Dict F
    unfolding is_suppressed
    filter_moves [] = []
    filter_moves ((k, weight) ∷ target) =
        (k, if is_suppressed weight (held_weight k) then held_weight k else weight)
        ∷ filter_moves target

    abbrev pub increases : Dict F → Dict F
    increases [] = []
    increases ((k, weight) ∷ d) =
        let rest = increases d in
        let increase : F = weight ⊖ held_weight k in
        if lt rally_epsilon increase then (k, increase) ∷ rest else rest

    abbrev shrunk : F → String → F → F
    shrunk keep k increase =
        let aim : F = held_weight k ⊕ (increase ⊗ keep) in
        if lt ((aim ⊖ held_weight k) ⊗ max_float equity zero_float) (minimum_notional equity c)
        then held_weight k
        else aim

    abbrev pub repair : F → Dict F → Dict F → Dict F
    repair keep [] repaired = repaired
    repair keep ((k, increase) ∷ more) repaired =
        repair keep more (insert k (shrunk keep k increase) repaired)

    -- `_fit_to_budget`.
    unfoldable pub fit_to_budget : Dict F → Dict F → Dict F
    unfolding minimum_notional
    fit_to_budget filtered target =
        let budget : F = sum_from zero_float (positive_values target) in
        let excess : F = sum_from zero_float (positive_values filtered) ⊖ budget in
        let total : F = sum_from zero_float (values_of (increases filtered)) in
        if le excess rally_epsilon || le total rally_epsilon
        then filtered
        else repair (max_float (one_float ⊖ (excess ⊘ total)) zero_float) (increases filtered)
            filtered

    -- `apply_turnover_filters`.
    unfoldable pub apply_turnover_filters : Dict F → Dict F
    unfolding filter_moves fit_to_budget
    apply_turnover_filters target = fit_to_budget (filter_moves target) target
