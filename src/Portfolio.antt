-- ===== src/Portfolio.antt =====
-- src/core/portfolio.py: the older allocator, from signals to weights under a cap. A value of a signal
-- that is there is a number.
pub mod Capped
pub mod Targets
mod Tests
use robo_trade.Base.{
  ℕ, zero, suc, String, Bool, true, false, not, ◌&&◌, Option, none, some, List, [], ◌∷◌,
  if◌then◌else◌, length, take, get_or_else,
}
use robo_trade.Base.Dict.{Dict, lookup, insert}
use robo_trade.Base.Float.{
  Float, ◌⊖◌, ◌⊗◌, ◌⊘◌, ratio, le, lt, zero_float, one_float, max_float, min_float,
}
use robo_trade.Base.Int.{ℤ, pos, eq_ℤ}
use robo_trade.Base.Sort.{sort_by}
use robo_trade.Orders.{sum_from}

-- What is left after the symbols of a round were walked: the scores that remain in it, the weights,
-- the exposure, and `capped_this_round`.
pub record Round (F : Type 0) : Type 0 where
  pub remaining : Dict F
  pub weights : Dict F
  pub exposure : F
  pub capped : Bool

-- The values of `info`, as far as they are there.
pub record SignalInfo (F : Type 0) : Type 0 where
  pub signal : Option ℤ
  pub score : Option F
  pub ret_n : Option F
  pub realized_vol : Option F

pub record RiskCandidate (F : Type 0) : Type 0 where
  pub symbol : String
  pub risk_adjusted_score : F
  pub realized_vol : F

module _ {F : Type 0} ⦃f : Float F⦄ where
  abbrev pub values : Dict F → List F
  values [] = []
  values ((k, v) ∷ rows) = v ∷ values rows

  -- `max(score, 0.0)` of the scores that are positive.
  abbrev pub positive_scores : Dict F → Dict F
  positive_scores [] = []
  positive_scores ((k, score) ∷ rows) =
      let rest = positive_scores rows in
      if lt zero_float score then (k, max_float score zero_float) ∷ rest else rest

  abbrev pub zeros : Dict F → Dict F
  zeros [] = []
  zeros ((k, score) ∷ rows) = (k, zero_float) ∷ zeros rows

  -- `proposed_weight`.
  abbrev pub proposed : F → F → F → F
  proposed total exposure score = (score ⊘ total) ⊗ exposure

  abbrev pub capping : Round F → Round F
  capping r = record r { capped = true }

  abbrev pub keeping : String → F → Round F → Round F
  keeping symbol score r = record r { remaining = (symbol, score) ∷ r.remaining }

  -- The `for` loop over the scores that remain, for the weights and the exposure so far.
  unfoldable pub cap_round : F → F → F → Dict F → Dict F → Round F
  cap_round max_weight total exposure weights [] = record {
    remaining = [];
    weights = weights;
    exposure = exposure;
    capped = false;
  }
  cap_round max_weight total exposure weights ((symbol, score) ∷ rows) =
      let over =
        cap_round max_weight total (exposure ⊖ max_weight) (insert symbol max_weight weights)
          rows in
      let under = cap_round max_weight total exposure weights rows in
      if lt max_weight (proposed total exposure score)
      then capping over
      else keeping symbol score under

  -- The weights of the last round.
  unfoldable pub give_proposed : F → F → Dict F → Dict F → Dict F
  give_proposed total exposure [] weights = weights
  give_proposed total exposure ((symbol, score) ∷ rows) weights =
      give_proposed total exposure rows (insert symbol (proposed total exposure score) weights)

  -- The `while` loop, on a number of rounds; `none` is a loop that did not end.
  unfoldable pub cap_rounds : F → ℕ → Dict F → F → Dict F → Option (Dict F)
  unfolding cap_round give_proposed
  cap_rounds max_weight rounds [] exposure weights = some weights
  cap_rounds max_weight zero (row ∷ rows) exposure weights = none
  cap_rounds max_weight (suc rounds) (row ∷ rows) exposure weights =
      let total : F = sum_from zero_float (values (row ∷ rows)) in
      let walked : Round F = cap_round max_weight total exposure weights (row ∷ rows) in
      let next = cap_rounds max_weight rounds walked.remaining walked.exposure walked.weights in
      if not (lt zero_float exposure)
      then some weights
      else if le total zero_float
      then some weights
      else if walked.capped
      then next
      else some (give_proposed total walked.exposure walked.remaining walked.weights)

  -- `_allocate_with_caps`, with a round for each score.
  unfoldable pub allocate_with_caps : Dict F → F → F → Option (Dict F)
  unfolding cap_rounds
  allocate_with_caps [] max_weight target_exposure = some []
  allocate_with_caps (row ∷ rows) max_weight target_exposure =
      let remaining : Dict F = positive_scores (row ∷ rows) in
      if le target_exposure zero_float
      then some (zeros (row ∷ rows))
      else cap_rounds max_weight (length remaining) remaining target_exposure []

  abbrev long_score : SignalInfo F → F
  long_score s = max_float (get_or_else s.score (get_or_else s.ret_n zero_float)) zero_float

  abbrev is_long : SignalInfo F → Bool
  is_long s = eq_ℤ (get_or_else s.signal (pos 0)) (pos 1) && lt zero_float (long_score s)

  abbrev candidate_of : String → SignalInfo F → RiskCandidate F
  candidate_of symbol s =
      let vol : F = max_float (get_or_else s.realized_vol (ratio 20 100)) (ratio 5 100) in
      record { symbol = symbol; risk_adjusted_score = long_score s ⊘ vol; realized_vol = vol }

  -- The loop over the signals.
  unfoldable pub candidates_of : Dict (SignalInfo F) → List (RiskCandidate F)
  candidates_of [] = []
  candidates_of ((symbol, s) ∷ rows) =
      let rest = candidates_of rows in if is_long s then candidate_of symbol s ∷ rest else rest

  -- `candidates[:max_longs]`, where there is a positive number of them.
  abbrev pub first_longs : Option ℕ → List (RiskCandidate F) → List (RiskCandidate F)
  first_longs none cs = cs
  first_longs (some zero) cs = cs
  first_longs (some (suc n)) cs = take (suc n) cs

  abbrev pub raw_scores : List (RiskCandidate F) → Dict F
  raw_scores [] = []
  raw_scores (c ∷ cs) = (c.symbol, c.risk_adjusted_score) ∷ raw_scores cs

  abbrev pub vols_of : List (RiskCandidate F) → Dict F
  vols_of [] = []
  vols_of (c ∷ cs) = (c.symbol, c.realized_vol) ∷ vols_of cs

  abbrev pub vol_terms : Dict F → Dict F → List F
  vol_terms vols [] = []
  vol_terms vols ((k, w) ∷ ws) = (w ⊗ get_or_else (lookup k vols) zero_float) ∷ vol_terms vols ws

  abbrev pub times_all : F → Dict F → Dict F
  times_all scale [] = []
  times_all scale ((k, w) ∷ ws) = (k, w ⊗ scale) ∷ times_all scale ws

  -- The scaling to `target_annual_vol`.
  abbrev pub to_vol : Option F → Dict F → Dict F → Dict F
  to_vol none vols allocated = allocated
  to_vol (some target) vols allocated =
      let estimated : F = sum_from zero_float (vol_terms vols allocated) in
      if lt zero_float target && lt target estimated
      then times_all (target ⊘ estimated) allocated
      else allocated

  -- The weight of each signal, zero where nothing is allocated.
  abbrev pub weights_of : Dict F → Dict (SignalInfo F) → Dict F
  weights_of allocated [] = []
  weights_of allocated ((symbol, s) ∷ rows) =
      (symbol, get_or_else (lookup symbol allocated) zero_float) ∷ weights_of allocated rows

  abbrev pub finished : Option F → Dict F → Dict (SignalInfo F) → Option (Dict F) → Option (Dict F)
  finished target_vol vols signals none = none
  finished target_vol vols signals (some allocated) =
      some (weights_of (to_vol target_vol vols allocated) signals)

  -- The candidates that are allocated to.
  abbrev pub selected : Option ℕ → Dict (SignalInfo F) → List (RiskCandidate F)
  selected max_longs signals = first_longs max_longs (
      sort_by (λ a b. not (lt a.risk_adjusted_score b.risk_adjusted_score)) (candidates_of signals))

  -- `compute_target_weights`; without a candidate the allocator is given nothing, and so the weights
  -- are zero.
  unfoldable pub compute_target_weights :
      Dict (SignalInfo F) → F → F → Option ℕ → Option F → Option (Dict F)
  unfolding allocate_with_caps candidates_of sort_by
  compute_target_weights signals max_weight max_exposure max_longs target_vol =
      let chosen : List (RiskCandidate F) = selected max_longs signals in
      finished target_vol (vols_of chosen) signals
        (allocate_with_caps (raw_scores chosen) max_weight (min_float max_exposure one_float))
