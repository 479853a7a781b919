-- ===== src/Portfolio/Capped.antt =====
-- src/core/portfolio.py: the weights under the cap: the loop ends, and no weight is above it.
use robo_trade.Base.{
  ℕ, zero, suc, ◌+◌, ◌≤◌, String, ◌≡◌, refl, false, Option, some, [], ◌∷◌, if◌then◌else◌, length,
  All, get_or_else, str_eq, Bool-cases, inl, inr, arith,
}
use robo_trade.Base.Dict.{Dict, lookup, insert}
use robo_trade.Base.Float.{Float, IsOrdered, ◌⊖◌, ◌≼◌, le, lt, zero_float}
use robo_trade.Orders.{sum_from}
use robo_trade.Portfolio.{
  Round, SignalInfo, values, positive_scores, zeros, proposed, cap_round, give_proposed, cap_rounds,
  allocate_with_caps, weights_of,
}

-- No weight is above the cap.
abbrev pub AreWithin : (F : Type 0) ⦃f : Float F⦄ → F → Dict F → Type 0
AreWithin F max_weight = All (λ row. row.1 ≼ max_weight)

-- The loop ended with weights under the cap.
abbrev pub EndsWithin : (F : Type 0) ⦃f : Float F⦄ → F → Option (Dict F) → Type 0
EndsWithin F max_weight result =
    (weights : Dict F) × (result ≡ some weights) × AreWithin F max_weight weights

module _ {F : Type 0} ⦃f : Float F⦄ (laws : IsOrdered F) (max_weight : F) where
  le_of_not_lt : (a b : F) → lt b a ≡ false → a ≼ b
  le_of_not_lt a b h = let same = laws.lt-eq-not-le b a in ground (arith, h, same)

  insert-AreWithin :
      (k : String) (v : F) (d : Dict F)
      → v ≼ max_weight
      → AreWithin F max_weight d
      → AreWithin F max_weight (insert k v d)
  insert-AreWithin k v [] h w = (h, tt)
  insert-AreWithin k v ((j, u) ∷ d) h (first, rest) = elim (Bool-cases (str_eq j k)) [
    | inl same ↦ rw same (h, rest)
    | inr other ↦ rw other (first, insert-AreWithin k v d h rest)
  ]

  -- What a walk of the scores keeps.
  record IsWalked (total exposure : F) (rows : Dict F) (r : Round F) : Type 0 where
    within : AreWithin F max_weight r.weights
    shorter : length r.remaining + (if r.capped then 1 else 0) ≤ length rows
    unchanged : r.capped ≡ false → r.exposure ≡ exposure
    fitting : r.capped ≡ false → All (λ row. proposed total exposure row.1 ≼ max_weight) r.remaining

  cap_round-IsWalked :
      (total exposure : F) (weights rows : Dict F)
      → AreWithin F max_weight weights
      → IsWalked total exposure rows (cap_round max_weight total exposure weights rows)
  unfolding cap_round
  cap_round-IsWalked total exposure weights [] w = record {
    within = w;
    shorter = omega arith;
    unchanged = λ c. refl;
    fitting = λ c. tt;
  }
  cap_round-IsWalked total exposure weights ((symbol, score) ∷ rows) w =
      elim (Bool-cases (lt max_weight (proposed total exposure score))) [
        | inl above ↦
            let rest =
              cap_round-IsWalked total (exposure ⊖ max_weight) (insert symbol max_weight weights)
                rows (insert-AreWithin symbol max_weight weights (laws.le_refl max_weight) w) in
            let shorter = rest.shorter in
            rw above (record {
              within = rest.within;
              shorter = ground (arith, shorter);
              unchanged = λ c. cc;
              fitting = λ c. cc;
            })
        | inr below ↦
            let rest = cap_round-IsWalked total exposure weights rows w in
            let shorter = rest.shorter in
            rw below (record {
              within = rest.within;
              shorter = omega (arith, shorter);
              unchanged = rest.unchanged;
              fitting = λ c.
                  (le_of_not_lt (proposed total exposure score) max_weight below, rest.fitting c);
            })
      ]

  give_proposed-AreWithin :
      (total exposure : F) (rows weights : Dict F)
      → All (λ row. proposed total exposure row.1 ≼ max_weight) rows
      → AreWithin F max_weight weights
      → AreWithin F max_weight (give_proposed total exposure rows weights)
  unfolding give_proposed
  give_proposed-AreWithin total exposure [] weights h w = w
  give_proposed-AreWithin total exposure ((symbol, score) ∷ rows) weights (first, rest) w =
      give_proposed-AreWithin total exposure rows
        (insert symbol (proposed total exposure score) weights) rest
        (insert-AreWithin symbol (proposed total exposure score) weights first w)

  cap_rounds-EndsWithin :
      (rounds : ℕ) (remaining : Dict F) (exposure : F) (weights : Dict F)
      → length remaining ≤ rounds
      → AreWithin F max_weight weights
      → EndsWithin F max_weight (cap_rounds max_weight rounds remaining exposure weights)
  unfolding cap_rounds
  cap_rounds-EndsWithin rounds [] exposure weights enough w = (weights, refl, w)
  cap_rounds-EndsWithin zero (row ∷ rows) exposure weights enough w = absurd (omega (arith, enough))
  cap_rounds-EndsWithin (suc rounds) (row ∷ rows) exposure weights enough w =
      let total : F = sum_from zero_float (values (row ∷ rows)) in
      let walked : Round F = cap_round max_weight total exposure weights (row ∷ rows) in
      let facts = cap_round-IsWalked total exposure weights (row ∷ rows) w in
      elim (Bool-cases (lt zero_float exposure)) [
        | inr spent ↦ rw spent (weights, refl, w)
        | inl left ↦ elim (Bool-cases (le total zero_float)) [
          | inl nothing ↦ rw (left, nothing) (weights, refl, w)
          | inr something ↦ elim (Bool-cases walked.capped) [
            | inl again ↦
                let shorter = facts.shorter in
                rw (left, something, again)
                  (cap_rounds-EndsWithin rounds walked.remaining walked.exposure walked.weights
                    (ground (arith, shorter, again, enough)) facts.within)
            | inr last ↦
                rw (left, something, last)
                  (
                    give_proposed total walked.exposure walked.remaining walked.weights,
                    refl,
                    rw (facts.unchanged last) (
                        give_proposed-AreWithin total exposure walked.remaining walked.weights
                          (facts.fitting last) facts.within),
                  )
          ]
        ]
      ]

  zeros-AreWithin : (rows : Dict F) → zero_float ≼ max_weight → AreWithin F max_weight (zeros rows)
  zeros-AreWithin [] h = tt
  zeros-AreWithin ((k, score) ∷ rows) h = (h, zeros-AreWithin rows h)

  pub allocate_with_caps-EndsWithin :
      (scores : Dict F) (target_exposure : F)
      → zero_float ≼ max_weight
      → EndsWithin F max_weight (allocate_with_caps scores max_weight target_exposure)
  unfolding allocate_with_caps
  allocate_with_caps-EndsWithin [] target_exposure h = ([], refl, tt)
  allocate_with_caps-EndsWithin (row ∷ rows) target_exposure h =
      let remaining : Dict F = positive_scores (row ∷ rows) in
      elim (Bool-cases (le target_exposure zero_float)) [
        | inl none_wanted ↦
            rw none_wanted (zeros (row ∷ rows), refl, zeros-AreWithin (row ∷ rows) h)
        | inr wanted ↦
            rw wanted (
              cap_rounds-EndsWithin (length remaining) remaining target_exposure [] (omega arith)
                tt)
      ]

  get_or_else-within :
      (symbol : String) (weights : Dict F)
      → zero_float ≼ max_weight
      → AreWithin F max_weight weights
      → get_or_else (lookup symbol weights) zero_float ≼ max_weight
  get_or_else-within symbol [] h w = h
  get_or_else-within symbol ((k, v) ∷ rows) h (first, rest) = elim (Bool-cases (str_eq k symbol)) [
    | inl same ↦ rw same first
    | inr other ↦ rw other (get_or_else-within symbol rows h rest)
  ]

  pub weights_of-AreWithin :
      (allocated : Dict F) (signals : Dict (SignalInfo F))
      → zero_float ≼ max_weight
      → AreWithin F max_weight allocated
      → AreWithin F max_weight (weights_of allocated signals)
  weights_of-AreWithin allocated [] h w = tt
  weights_of-AreWithin allocated ((symbol, s) ∷ rows) h w =
      (get_or_else-within symbol allocated h w, weights_of-AreWithin allocated rows h w)
