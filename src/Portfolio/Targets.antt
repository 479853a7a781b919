-- ===== src/Portfolio/Targets.antt =====
-- src/core/portfolio.py: what `compute_target_weights` gives, with the scaling to a volatility.
use robo_trade.Base.{
  ℕ, ◌≡◌, refl, ap, true, Option, none, some, List, [], ◌∷◌, Bool-cases, inl, inr,
}
use robo_trade.Base.Dict.{Dict, keys}
use robo_trade.Base.Float.{Float, IsOrdered, ◌⊘◌, ◌≼◌, lt, zero_float, one_float, min_float}
use robo_trade.Orders.{sum_from}
use robo_trade.Portfolio.{
  SignalInfo, RiskCandidate, raw_scores, weights_of, selected, compute_target_weights, to_vol,
  times_all, vol_terms, vols_of,
}
use robo_trade.Portfolio.Capped.{AreWithin, allocate_with_caps-EndsWithin, weights_of-AreWithin}

-- A weight scaled by a quotient below one stays under a cap that is not negative.
pub record IsScaled (F : Type 0) ⦃f : Float F⦄ : Type 0 where
  pub scaled_le :
      (a c t e : F)
      → a ≼ c
      → zero_float ≼ c
      → f.lt zero_float t ≡ true
      → f.lt t e ≡ true
      → f.times a (f.divide t e) ≼ c

module _ {F : Type 0} ⦃f : Float F⦄ (laws : IsScaled F) (max_weight : F) where
  times_all-AreWithin :
      (t e : F) (rows : Dict F)
      → zero_float ≼ max_weight
      → lt zero_float t ≡ true
      → lt t e ≡ true
      → AreWithin F max_weight rows
      → AreWithin F max_weight (times_all (t ⊘ e) rows)
  times_all-AreWithin t e [] h p q w = tt
  times_all-AreWithin t e ((k, v) ∷ rows) h p q (first, rest) =
      (laws.scaled_le v max_weight t e first h p q, times_all-AreWithin t e rows h p q rest)

  to_vol-AreWithin :
      (target : Option F) (vols allocated : Dict F)
      → zero_float ≼ max_weight
      → AreWithin F max_weight allocated
      → AreWithin F max_weight (to_vol target vols allocated)
  to_vol-AreWithin none vols allocated h w = w
  to_vol-AreWithin (some t) vols allocated h w =
      let estimated : F = sum_from zero_float (vol_terms vols allocated) in
      elim (Bool-cases (lt zero_float t)) [
        | inr off ↦ rw off w
        | inl on ↦ elim (Bool-cases (lt t estimated)) [
          | inr calm ↦ rw (on, calm) w
          | inl wild ↦ rw (on, wild) (times_all-AreWithin t estimated allocated h on wild w)
        ]
      ]

keys-weights_of :
    {F : Type 0} ⦃f : Float F⦄ (allocated : Dict F) (signals : Dict (SignalInfo F))
    → keys (weights_of allocated signals) ≡ keys signals
keys-weights_of allocated [] = refl
keys-weights_of allocated ((symbol, s) ∷ rows) =
    ap (λ ks. symbol ∷ ks) (keys-weights_of allocated rows)

-- The weights name the signals in their order, and none is above the cap.
abbrev pub AreTargets :
    (F : Type 0) ⦃f : Float F⦄ → F → Dict (SignalInfo F) → Option (Dict F) → Type 0
AreTargets F max_weight signals result =
    (weights : Dict F) × (result ≡ some weights)
    × (keys weights ≡ keys signals)
    × AreWithin F max_weight weights

-- The allocation ends for any signals, names each of them in their order, and gives none more than the
-- cap, scaled to a volatility or not: for a cap that is not negative, where a weight that is scaled
-- by a quotient below one stays under such a cap.
pub compute_target_weights-AreTargets :
    {F : Type 0} ⦃f : Float F⦄
    → IsOrdered F
    → IsScaled F
    → (signals : Dict (SignalInfo F)) (max_weight exposure : F) (max_longs : Option ℕ)
      (target_vol : Option F)
    → zero_float ≼ max_weight
    → AreTargets F max_weight signals
        (compute_target_weights signals max_weight exposure max_longs target_vol)
unfolding compute_target_weights
compute_target_weights-AreTargets {F = F} order scaling signals max_weight exposure max_longs
      target_vol h =
    let chosen : List (RiskCandidate F) = selected max_longs signals in
    let ended =
      allocate_with_caps-EndsWithin order max_weight (raw_scores chosen)
        (min_float exposure one_float) h in
    let allocated : Dict F = to_vol target_vol (vols_of chosen) ended.0 in
    rw ended.1 (
      weights_of allocated signals,
      refl,
      keys-weights_of allocated signals,
      weights_of-AreWithin order max_weight allocated signals h
          (to_vol-AreWithin scaling max_weight target_vol (vols_of chosen) ended.0 h ended.2),
    )
