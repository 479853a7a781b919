-- ===== src/Rally/Positions.antt =====
-- `resolve_positions`: which names the book holds. A set is a list with no name twice, and the order of its
-- items, which Python leaves open, is that of the list.
use robo_trade.Base.{
  ℕ, String, not, ◌&&◌, ◌||◌, List, [], ◌∷◌, ◌++◌, if◌then◌else◌, ltb, leb, length, take, filter,
  get_or_else, str_eq,
}
use robo_trade.Base.Dict.{Dict, lookup, insert, mem_name}
use robo_trade.Base.Float.{Float, ◌⊕◌, le, lt, zero_float, max_float}
use robo_trade.Base.Int.{ℤ, pos_part}
use robo_trade.Base.Sort.{sort_by}

-- A row of the ranking; a rank of zero is none.
pub record RankedRow (F : Type 0) : Type 0 where
  pub symbol : String
  pub base_score : F
  pub rank : ℕ

-- The settings that the choice reads.
pub record RotationLimits (F : Type 0) : Type 0 where
  pub max_positions : ℤ
  pub entry_rank_max : ℤ
  pub exit_rank_max : ℤ
  pub min_score_delta_to_replace : F

-- `names.discard(name)`.
abbrev pub discard : String → List String → List String
discard name names = filter (λ n. not (str_eq n name)) names

-- The loop that fills free slots.
unfoldable pub fill : ℕ → List String → List String → List String
fill slots [] selection = selection
fill slots (name ∷ names) selection =
    if leb slots (length selection)
    then selection
    else fill slots names (if mem_name name selection then selection else selection ++ (name ∷ []))

module _ {F : Type 0} ⦃f : Float F⦄ where
  abbrev scores_from : List (RankedRow F) → Dict F → Dict F
  scores_from [] acc = acc
  scores_from (row ∷ rows) acc = scores_from rows (insert row.symbol row.base_score acc)

  abbrev ranks_from : List (RankedRow F) → Dict ℕ → Dict ℕ
  ranks_from [] acc = acc
  ranks_from (row ∷ rows) acc = ranks_from rows (insert row.symbol row.rank acc)

  -- `score.get(name, 0.0)`, and the rank, zero where there is none.
  abbrev pub score_of : List (RankedRow F) → String → F
  score_of ranked name = get_or_else (lookup name (scores_from ranked [])) zero_float

  abbrev pub rank_of : List (RankedRow F) → String → ℕ
  rank_of ranked name = get_or_else (lookup name (ranks_from ranked [])) 0

  -- The holdings that still rank.
  unfoldable pub incumbents : List String → List (RankedRow F) → RotationLimits F → List String
  incumbents held ranked c =
      filter
        (λ name.
          ltb 0 (rank_of ranked name) && leb (rank_of ranked name) (pos_part c.exit_rank_max))
        held

  abbrev contender_from : List String → RotationLimits F → List (RankedRow F) → List String
  contender_from selection c [] = []
  contender_from selection c (row ∷ rows) =
      let rest = contender_from selection c rows in
      if not (mem_name row.symbol selection)
        && (ltb 0 row.rank && leb row.rank (pos_part c.entry_rank_max))
      then row.symbol ∷ rest
      else rest

  unfoldable pub contenders : List String → List (RankedRow F) → RotationLimits F → List String
  contenders selection ranked c = contender_from selection c ranked

  module _ (score : String → F) where
    -- `min(selection, key=...)`, from a first name.
    abbrev pub weakest_from : String → List String → String
    weakest_from best [] = best
    weakest_from best (name ∷ names) =
        weakest_from (if lt (score name) (score best) then name else best) names

    -- One turn of the loop that displaces.
    abbrev pub displace_one : F → String → List String → List String
    displace_one delta name [] = []
    displace_one delta name (first ∷ rest) =
        let weakest = weakest_from first rest in
        if mem_name name (first ∷ rest) || le (score name) (score weakest ⊕ delta)
        then first ∷ rest
        else discard weakest (first ∷ rest) ++ (name ∷ [])

    unfoldable pub displace : F → List String → List String → List String
    displace delta [] selection = selection
    displace delta (name ∷ names) selection =
        displace delta names (displace_one delta name selection)

    -- The cut to the slots, the best scores first.
    unfoldable pub trim : ℕ → List String → List String
    trim slots selection =
        if ltb slots (length selection)
        then take slots (sort_by (λ a b. not (lt (score a) (score b))) selection)
        else selection

  -- `resolve_positions`.
  unfoldable pub resolve_positions :
      List String → List (RankedRow F) → RotationLimits F → List String
  unfolding fill displace trim
  resolve_positions held ranked c =
      let slots = pos_part c.max_positions in
      let kept = incumbents held ranked c in
      let names = contenders kept ranked c in
      let delta : F = max_float c.min_score_delta_to_replace zero_float in
      trim (score_of ranked) slots (displace (score_of ranked) delta names (fill slots names kept))
