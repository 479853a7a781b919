-- ===== src/Allocation/Capped.antt =====
-- The capped allocation ends, and no weight is above the cap.
use robo_trade.Base.{
  ℕ, zero, suc, ◌≤◌, ◌<◌, String, ◌≡◌, refl, Bool, true, false, not, Option, some, List, [], ◌∷◌,
  if◌then◌else◌, length, take, filter, All, Bool-cases, inl, inr, arith, str_eq,
}
use robo_trade.Base.Dict.{Dict, insert}
use robo_trade.Base.Float.{Float, IsOrdered, ◌≼◌, lt, zero_float, max_float, min_float}
use robo_trade.Allocation.{
  Candidate, share_of, is_capped, is_open, give_shares, give_caps, allocate_rounds,
  allocate_by_score,
}

-- What is kept of a list where something is not kept is shorter.
length-filter_le : {A : Type 0} (p : A → Bool) (xs : List A) → length (filter p xs) ≤ length xs
length-filter_le p [] = omega arith
length-filter_le p (x ∷ xs) = ground (arith, length-filter_le p xs)

length-filter_lt :
    {A : Type 0} (p q : A → Bool) (xs : List A) (y : A) (ys : List A)
    → ((x : A) → p x ≡ true → q x ≡ false)
    → filter p xs ≡ y ∷ ys
    → length (filter q xs) < length xs
length-filter_lt p q [] y ys h e = cc
length-filter_lt p q (x ∷ xs) y ys h e = elim (Bool-cases (p x)) [
  | inl here ↦ rw (h x here) (let le = length-filter_le q xs in omega (arith, le))
  | inr there ↦
      let lt = length-filter_lt p q xs y ys h (rw there at e) in
      elim (Bool-cases (q x)) [
        | inl kept ↦ rw kept (omega (arith, lt))
        | inr dropped ↦ rw dropped (omega (arith, lt))
      ]
]

module _ {F : Type 0} ⦃f : Float F⦄ where
  -- A weight between nothing and the cap.
  abbrev pub IsCapped : F → String × F → Type 0
  IsCapped max_weight (k, w) = (zero_float ≼ w) × (w ≼ max_weight)

  -- The loop has ended, and its weights are capped.
  abbrev pub EndsCapped : F → Option (Dict F) → Type 0
  EndsCapped max_weight r =
      (weights : Dict F) × (r ≡ some weights) × All (IsCapped max_weight) weights

module _ {F : Type 0} ⦃f : Float F⦄ (laws : IsOrdered F) where
  insert-IsCapped :
      (max_weight : F) (k : String) (v : F) (d : Dict F)
      → IsCapped max_weight (k, v)
      → All (IsCapped max_weight) d
      → All (IsCapped max_weight) (insert k v d)
  insert-IsCapped max_weight k v [] h hs = (h, tt)
  insert-IsCapped max_weight k v ((j, w) ∷ d) h hs = elim (Bool-cases (str_eq j k)) [
    | inl same ↦ rw same (h, hs.1)
    | inr other ↦ rw other (hs.0, insert-IsCapped max_weight k v d h hs.1)
  ]

  min-le : (a b : F) → min_float a b ≼ b
  min-le a b = elim (Bool-cases (lt b a)) [
    | inl above ↦ rw above (laws.le_refl b)
    | inr below ↦ rw below (ground (arith, laws.lt-eq-not-le b a))
  ]

  clamped :
      (max_weight share : F)
      → zero_float ≼ max_weight
      → (zero_float ≼ max_float zero_float (min_float share max_weight))
        × (max_float zero_float (min_float share max_weight) ≼ max_weight)
  clamped max_weight share h = elim (Bool-cases (lt zero_float (min_float share max_weight))) [
    | inl above ↦ rw above (
      elim (laws.le_total zero_float (min_float share max_weight)) [
        | inl up ↦ up
        | inr down ↦ ground (arith, laws.lt-eq-not-le zero_float (min_float share max_weight))
      ],
      min-le share max_weight,
    )
    | inr below ↦ rw below (laws.le_refl zero_float, h)
  ]

  module _ (max_weight : F) (cap : zero_float ≼ max_weight) where
    give_shares-IsCapped :
        (share : Candidate F → F) (cs : List (Candidate F)) (weights : Dict F)
        → All (IsCapped max_weight) weights
        → All (IsCapped max_weight) (give_shares max_weight share cs weights)
    give_shares-IsCapped share [] weights h = h
    give_shares-IsCapped share (c ∷ cs) weights h =
        give_shares-IsCapped share cs _
          (insert-IsCapped max_weight c.symbol _ weights (clamped max_weight (share c) cap) h)

    give_caps-IsCapped :
        (cs : List (Candidate F)) (weights : Dict F)
        → All (IsCapped max_weight) weights
        → All (IsCapped max_weight) (give_caps max_weight cs weights)
    give_caps-IsCapped [] weights h = h
    give_caps-IsCapped (c ∷ cs) weights h =
        give_caps-IsCapped cs _
          (insert-IsCapped max_weight c.symbol max_weight weights (cap, laws.le_refl max_weight) h)

    round-EndsCapped :
        (on : Bool) (capped : List (Candidate F)) (weights last : Dict F) (next : Option (Dict F))
        → All (IsCapped max_weight) weights
        → All (IsCapped max_weight) last
        → ((d : Candidate F) (ds : List (Candidate F))
            → capped ≡ d ∷ ds
            → EndsCapped max_weight next)
        → EndsCapped max_weight
            (if on then some weights else elim capped [ [] ↦ some last | d ∷ ds ↦ next ])
    round-EndsCapped true capped weights last next h k n = (weights, refl, h)
    round-EndsCapped false [] weights last next h k n = (last, refl, k)
    round-EndsCapped false (d ∷ ds) weights last next h k n = n d ds refl

    allocate_rounds-EndsCapped :
        (rounds : ℕ) (remaining : List (Candidate F)) (budget : F) (weights : Dict F)
        → length remaining ≤ rounds
        → All (IsCapped max_weight) weights
        → EndsCapped max_weight (allocate_rounds max_weight rounds remaining budget weights)
    unfolding allocate_rounds
    allocate_rounds-EndsCapped rounds [] budget weights enough h = (weights, refl, h)
    allocate_rounds-EndsCapped zero (c ∷ cs) budget weights enough h =
        absurd (omega (arith, enough))
    allocate_rounds-EndsCapped (suc rounds) (c ∷ cs) budget weights enough h =
        let remaining : List (Candidate F) = c ∷ cs in
        let p : Candidate F → Bool = is_capped max_weight budget remaining in
        let q : Candidate F → Bool = is_open max_weight budget remaining in
        round-EndsCapped (not (lt zero_float budget)) (filter p remaining) weights _ _ h
          (give_shares-IsCapped (share_of budget remaining) remaining weights h)
          (λ d ds e.
            let shorter =
              length-filter_lt p q remaining d ds
                (λ x capped.
                  ground (arith, laws.lt-eq-not-le (share_of budget remaining x) max_weight))
                e in
            allocate_rounds-EndsCapped rounds (filter q remaining) _ _
              (omega (arith, shorter, enough)) (give_caps-IsCapped (filter p remaining) weights h))

    -- The allocation ends, within a round for each candidate that it looks at, and no weight that it
    -- gives is negative or above the cap. The cap is not negative, and the floats are ordered.
    pub allocate_by_score-EndsCapped :
        (candidates : List (Candidate F)) (exposure : F) (max_positions : ℕ)
        → EndsCapped max_weight (allocate_by_score candidates exposure max_positions max_weight)
    unfolding allocate_by_score
    allocate_by_score-EndsCapped candidates exposure max_positions =
        allocate_rounds-EndsCapped _ (take max_positions candidates) _ [] (omega arith) tt
