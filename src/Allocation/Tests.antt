-- ===== src/Allocation/Tests.antt =====
-- An allocation in per cent, and the theorem about it.
use robo_trade.Base.{ℕ, ◌≡◌, refl, String, Bool, true, false, List, [], ◌∷◌, some, none, arith}
use robo_trade.Base.Dict.{Dict}
use robo_trade.Base.Float.{Float, IsOrdered}
use robo_trade.Base.Float.Exact.{whole}
use robo_trade.Base.Sort.{sort_by}
use robo_trade.Allocation.{Candidate, rank_by_score, allocate_by_score, scale_to_gross}
use robo_trade.Allocation.Capped.{EndsCapped, allocate_by_score-EndsCapped}

instance abbrev exact_float : Float ℕ
exact_float = whole

ordered : IsOrdered ℕ
ordered = record {
  le_refl = λ a. ground arith;
  le_trans = λ a b c h k. ground arith;
  lt-eq-not-le = λ a b. ground arith;
  le_total = λ a b. ground arith;
}

abbrev scored : String → ℕ → Bool → Candidate ℕ
scored symbol score trend = record {
  symbol = symbol;
  score = score;
  gate = 0;
  macro_trend_ok = trend;
}

abbrev scores : Dict (Candidate ℕ)
scores =
    ("A", scored "A" 2 true)
    ∷ ("B", scored "B" 7 true)
    ∷ ("C", scored "C" 9 false)
    ∷ ("D", scored "D" 1 true)
    ∷ []

abbrev ranked : List (Candidate ℕ)
ranked = scored "B" 7 true ∷ scored "A" 2 true ∷ scored "D" 1 true ∷ []

ranks :
    rank_by_score scores
      ("A" ∷ "B" ∷ "C" ∷ "D" ∷ "E" ∷ [])
      (record { min_score = 1; min_gate = none; require_trend = true })
    ≡ ranked
unfolding rank_by_score sort_by
ranks = refl

-- The first name is capped at 40, and the 60 that are left go to the others by their scores: the
-- second is capped too, and the third takes what is left.
allocates : allocate_by_score ranked 100 3 40 ≡ some (("B", 40) ∷ ("A", 40) ∷ ("D", 20) ∷ [])
unfolding allocate_by_score
allocates = refl

scales : scale_to_gross {F = ℕ} (("B", 4) ∷ ("A", 2) ∷ []) 12 ≡ ("B", 4) ∷ ("A", 2) ∷ []
unfolding scale_to_gross
scales = refl

allocate_by_score-EndsCapped_example : EndsCapped 40 (allocate_by_score ranked 100 3 40)
allocate_by_score-EndsCapped_example = allocate_by_score-EndsCapped ordered 40 refl ranked 100 3
