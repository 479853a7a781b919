-- ===== src/Allocation.antt =====
-- src/algorithms/allocation.py: scored candidates into weights.
pub mod Capped
mod Tests
use robo_trade.Base.{
  ℕ, zero, suc, String, Bool, true, false, not, ◌&&◌, ◌||◌, Option, none, some, List, [], ◌∷◌,
  if◌then◌else◌, length, take, filter, get_or_else,
}
use robo_trade.Base.Dict.{Dict, lookup, insert}
use robo_trade.Base.Float.{
  Float, ◌⊕◌, ◌⊖◌, ◌⊗◌, ◌⊘◌, ratio, le, lt, zero_float, max_float, min_float, abs_float,
}
use robo_trade.Base.Sort.{sort_by}
use robo_trade.Orders.{sum_from}

-- A row of `scores_by_symbol`; `gate` is the value under `gate_key`, zero where it is missing.
pub record Candidate (F : Type 0) : Type 0 where
  pub symbol : String
  pub score : F
  pub gate : F
  pub macro_trend_ok : Bool

-- The floors of `rank_by_score`. `min_gate` is there if the gate has a key and a value.
pub record Floors (F : Type 0) : Type 0 where
  pub min_score : F
  pub min_gate : Option F
  pub require_trend : Bool

module _ {F : Type 0} ⦃f : Float F⦄ where
  abbrev qualifies : Floors F → Candidate F → Bool
  qualifies floors c =
      (not floors.require_trend || c.macro_trend_ok)
      && le floors.min_score c.score
      && elim floors.min_gate [ none ↦ true | some floor ↦ le floor c.gate ]

  abbrev found : Dict (Candidate F) → List String → List (Candidate F)
  found scores [] = []
  found scores (k ∷ ks) = elim (lookup k scores) [
    | none ↦ found scores ks
    | some c ↦ c ∷ found scores ks
  ]

  -- `rank_by_score`.
  unfoldable pub rank_by_score : Dict (Candidate F) → List String → Floors F → List (Candidate F)
  rank_by_score scores symbols floors =
      sort_by (λ a b. not (lt a.score b.score)) (filter (qualifies floors) (found scores symbols))

  abbrev scores_of : List (Candidate F) → List F
  scores_of [] = []
  scores_of (c ∷ cs) = max_float c.score zero_float ∷ scores_of cs

  -- The share of one of the candidates that remain.
  abbrev pub share_of : F → List (Candidate F) → Candidate F → F
  share_of budget remaining c =
      let total : F = sum_from zero_float (scores_of remaining) in
      if le total zero_float
      then budget ⊘ ratio (length remaining) 1
      else (budget ⊗ max_float c.score zero_float) ⊘ total

  abbrev pub is_capped : F → F → List (Candidate F) → Candidate F → Bool
  is_capped max_weight budget remaining c = le max_weight (share_of budget remaining c)

  abbrev pub is_open : F → F → List (Candidate F) → Candidate F → Bool
  is_open max_weight budget remaining c = lt (share_of budget remaining c) max_weight

  -- The last round: each candidate takes its share.
  abbrev pub give_shares : F → (Candidate F → F) → List (Candidate F) → Dict F → Dict F
  give_shares max_weight share [] weights = weights
  give_shares max_weight share (c ∷ cs) weights =
      give_shares max_weight share cs
        (insert c.symbol (max_float zero_float (min_float (share c) max_weight)) weights)

  -- A round that caps: the capped candidates take the cap, off the budget.
  abbrev pub give_caps : F → List (Candidate F) → Dict F → Dict F
  give_caps max_weight [] weights = weights
  give_caps max_weight (c ∷ cs) weights =
      give_caps max_weight cs (insert c.symbol max_weight weights)

  abbrev pub spend_caps : F → List (Candidate F) → F → F
  spend_caps max_weight [] budget = budget
  spend_caps max_weight (c ∷ cs) budget = spend_caps max_weight cs (budget ⊖ max_weight)

  -- The `while` loop of `allocate_by_score`, on a number of rounds; `none` is a loop that did not end.
  pub allocate_rounds : F → ℕ → List (Candidate F) → F → Dict F → Option (Dict F)
  allocate_rounds max_weight rounds [] budget weights = some weights
  allocate_rounds max_weight zero (c ∷ cs) budget weights = none
  allocate_rounds max_weight (suc rounds) (c ∷ cs) budget weights =
      let remaining : List (Candidate F) = c ∷ cs in
      let capped : List (Candidate F) = filter (is_capped max_weight budget remaining) remaining in
      let next : Option (Dict F) =
        allocate_rounds max_weight rounds (filter (is_open max_weight budget remaining) remaining)
          (spend_caps max_weight capped budget) (give_caps max_weight capped weights) in
      if not (lt zero_float budget) then some weights else elim capped [
        | [] ↦ some (give_shares max_weight (share_of budget remaining) remaining weights)
        | d ∷ ds ↦ next
      ]

  -- `allocate_by_score`, with a round for each candidate.
  unfoldable pub allocate_by_score : List (Candidate F) → F → ℕ → F → Option (Dict F)
  unfolding allocate_rounds
  allocate_by_score candidates exposure max_positions max_weight =
      let remaining : List (Candidate F) = take max_positions candidates in
      allocate_rounds max_weight (length remaining) remaining (max_float exposure zero_float) []

  abbrev gross_of : Dict F → List F
  gross_of [] = []
  gross_of ((k, w) ∷ ws) = abs_float w ∷ gross_of ws

  abbrev scaled : F → Dict F → Dict F
  scaled scale [] = []
  scaled scale ((k, w) ∷ ws) = (k, w ⊗ scale) ∷ scaled scale ws

  -- `scale_to_gross`.
  unfoldable pub scale_to_gross : Dict F → F → Dict F
  scale_to_gross weights max_gross =
      let gross : F = sum_from zero_float (gross_of weights) in
      if lt zero_float max_gross && lt max_gross gross
      then scaled (max_gross ⊘ gross) weights
      else weights
