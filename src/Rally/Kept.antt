-- ===== src/Rally/Kept.antt =====
-- What `resolve_positions` keeps.
use mathlib.Core.Path.{subst}
use robo_trade.Base.{
  ap, ℕ, ◌≤◌, ◌<◌, String, ◌≡◌, refl, ◌∙◌, Bool, true, false, ◌||◌, List, [], ◌∷◌, ◌++◌,
  if◌then◌else◌, ltb, leb, length, All, str_eq, eq_iff, arith, Bool-cases, inl, inr, length-take_le,
  length-append,
}
use robo_trade.Base.Dict.{mem_name, mem_name-append}
use robo_trade.Base.Float.{Float, ◌⊕◌, le, lt, zero_float, max_float}
use robo_trade.Base.Int.{pos_part}
use robo_trade.Rally.Positions.{
  RankedRow, RotationLimits, discard, score_of, incumbents, contenders, fill, weakest_from,
  displace_one, displace, trim, resolve_positions,
}

mem_name-discard :
    (k w : String) (names : List String)
    → mem_name k (discard w names) ≡ (if str_eq k w then false else mem_name k names)
mem_name-discard k w [] = ground arith
mem_name-discard k w (n ∷ names) = elim (Bool-cases (str_eq n w)) [
  | inl gone ↦
      rw gone (ground (arith, gone, mem_name-discard k w names, eq_iff n w, eq_iff n k, eq_iff k w))
  | inr stays ↦
      rw stays
        (ground (arith, stays, mem_name-discard k w names, eq_iff n w, eq_iff n k, eq_iff k w))
]

length-discard_le : (w : String) (names : List String) → length (discard w names) ≤ length names
length-discard_le w [] = omega arith
length-discard_le w (n ∷ names) = ground (arith, length-discard_le w names)

length-discard_lt :
    (w : String) (names : List String)
    → mem_name w names ≡ true
    → length (discard w names) < length names
length-discard_lt w [] h = cc
length-discard_lt w (n ∷ names) h = elim (Bool-cases (str_eq n w)) [
  | inl gone ↦ rw gone (omega (arith, length-discard_le w names))
  | inr stays ↦ rw stays (omega (arith, length-discard_lt w names (rw stays at h)))
]

length-fill :
    (slots : ℕ) (names selection : List String)
    → length selection ≤ slots
    → length (fill slots names selection) ≤ slots
unfolding fill
length-fill slots [] selection h = h
length-fill slots (name ∷ names) selection h = elim (Bool-cases (leb slots (length selection))) [
  | inl full ↦ rw full h
  | inr free ↦ rw free (length-fill slots names _ (grown (mem_name name selection) free))
]
  where
    grown :
        (known : Bool)
        → leb slots (length selection) ≡ false
        → length (if known then selection else selection ++ (name ∷ [])) ≤ slots
    grown true free = h
    grown false free = ground (arith, free, length-append selection (name ∷ []))

fill_keeps :
    (slots : ℕ) (names selection : List String) (k : String)
    → mem_name k selection ≡ true
    → mem_name k (fill slots names selection) ≡ true
unfolding fill
fill_keeps slots [] selection k h = h
fill_keeps slots (name ∷ names) selection k h = elim (Bool-cases (leb slots (length selection))) [
  | inl full ↦ rw full h
  | inr free ↦ rw free (fill_keeps slots names _ k (grown (mem_name name selection)))
]
  where
    grown :
        (known : Bool) → mem_name k (if known then selection else selection ++ (name ∷ [])) ≡ true
    grown true = h
    grown false = ground (arith, h, mem_name-append k name selection)

module _ {F : Type 0} ⦃f : Float F⦄ (score : String → F) (delta : F) where
  weakest_from_mem :
      (best : String) (names : List String)
      → mem_name (weakest_from score best names) (best ∷ names) ≡ true
  weakest_from_mem best [] = ground (arith, eq_iff best best)
  weakest_from_mem best (name ∷ names) =
      pick (lt (score name) (score best)) (weakest_from_mem name names)
        (weakest_from_mem best names)
    where
      pick :
          (below : Bool)
          → mem_name (weakest_from score name names) (name ∷ names) ≡ true
          → mem_name (weakest_from score best names) (best ∷ names) ≡ true
          → mem_name (weakest_from score (if below then name else best) names) (best ∷ name ∷ names)
            ≡ true
      pick true h k = ground (arith, h)
      pick false h k = ground (arith, k)

  -- What a swap for the weakest leaves in the book: everything that the newcomer does not beat by the
  -- margin.
  swap_keeps :
      (name k weakest : String) (selection : List String)
      → le (score name) (score k ⊕ delta) ≡ true
      → mem_name k selection ≡ true
      → mem_name name selection || le (score name) (score weakest ⊕ delta) ≡ false
      → mem_name k (discard weakest selection ++ (name ∷ [])) ≡ true
  swap_keeps name k weakest selection near h swapped = elim (Bool-cases (str_eq k weakest)) [
    | inl same ↦
        let at_weakest : le (score name) (score weakest ⊕ delta) ≡ true =
          subst (λ n. le (score name) (score n ⊕ delta) ≡ true) ((eq_iff k weakest).0 same) near in
        absurd (ground (arith, at_weakest, swapped))
    | inr apart ↦
        mem_name-append k name (discard weakest selection)
        ∙ rw (mem_name-discard k weakest selection, apart, h) refl
  ]

  displace_one_keeps :
      (name k : String) (selection : List String)
      → le (score name) (score k ⊕ delta) ≡ true
      → mem_name k selection ≡ true
      → mem_name k (displace_one score delta name selection) ≡ true
  displace_one_keeps name k [] near h = h
  displace_one_keeps name k (first ∷ rest) near h =
      elim (Bool-cases (
        mem_name name (first ∷ rest)
        || le (score name) (score (weakest_from score first rest) ⊕ delta))) [
          | inl stays ↦ rw stays h
          | inr swapped ↦
              rw swapped
                (swap_keeps name k (weakest_from score first rest) (first ∷ rest) near h swapped)
        ]

  displace_keeps :
      (names selection : List String) (k : String)
      → All (λ name. le (score name) (score k ⊕ delta) ≡ true) names
      → mem_name k selection ≡ true
      → mem_name k (displace score delta names selection) ≡ true
  unfolding displace
  displace_keeps [] selection k near h = h
  displace_keeps (name ∷ names) selection k (n, near) h =
      displace_keeps names (displace_one score delta name selection) k near
        (displace_one_keeps name k selection n h)

  length-displace_one :
      (name : String) (selection : List String)
      → length (displace_one score delta name selection) ≤ length selection
  length-displace_one name [] = omega arith
  length-displace_one name (first ∷ rest) =
      elim (Bool-cases (
        mem_name name (first ∷ rest)
        || le (score name) (score (weakest_from score first rest) ⊕ delta))) [
          | inl stays ↦ rw stays (omega arith)
          | inr swapped ↦ rw swapped (
              omega (
                arith,
                length-append (discard (weakest_from score first rest) (first ∷ rest)) (name ∷ []),
                length-discard_lt (weakest_from score first rest) (first ∷ rest)
                    (weakest_from_mem first rest),
              ))
        ]

  length-displace :
      (names selection : List String)
      → length (displace score delta names selection) ≤ length selection
  unfolding displace
  length-displace [] selection = omega arith
  length-displace (name ∷ names) selection = omega (
    arith,
    length-displace names (displace_one score delta name selection),
    length-displace_one name selection,
  )

  trim_within :
      (slots : ℕ) (selection : List String)
      → length selection ≤ slots
      → trim score slots selection ≡ selection
  unfolding trim
  trim_within slots selection h =
      let fits : ltb slots (length selection) ≡ false = ground (arith, h) in rw fits refl

  length-trim : (slots : ℕ) (selection : List String) → length (trim score slots selection) ≤ slots
  unfolding trim
  length-trim slots selection = elim (Bool-cases (ltb slots (length selection))) [
    | inl over ↦ rw over (length-take_le slots _)
    | inr within ↦ rw within (ground (arith, within))
  ]

module _ {F : Type 0} ⦃f : Float F⦄ (held : List String) (ranked : List (RankedRow F))
    (c : RotationLimits F) where
  abbrev margin : F
  margin = max_float c.min_score_delta_to_replace zero_float

  length-resolve_positions : length (resolve_positions held ranked c) ≤ pos_part c.max_positions
  unfolding resolve_positions
  length-resolve_positions = length-trim (score_of ranked) zero_float (pos_part c.max_positions) _

  -- A holding that still ranks is kept unless a contender beats it by more than the margin: where no
  -- contender does, and the holdings that still rank fit the slots, the name stays in the book, which
  -- never holds more names than there are slots.
  pub resolve_positions_keeps :
      (k : String)
      → mem_name k (incumbents held ranked c) ≡ true
      → length (incumbents held ranked c) ≤ pos_part c.max_positions
      → All
          (λ name. le (score_of ranked name) (score_of ranked k ⊕ margin) ≡ true)
          (contenders (incumbents held ranked c) ranked c)
      → (mem_name k (resolve_positions held ranked c) ≡ true)
        × (length (resolve_positions held ranked c) ≤ pos_part c.max_positions)
  unfolding resolve_positions
  resolve_positions_keeps k h fits near =
      let slots = pos_part c.max_positions in
      let kept = incumbents held ranked c in
      let names = contenders kept ranked c in
      let filled = fill slots names kept in
      let within : length (displace (score_of ranked) margin names filled) ≤ slots = omega (
        arith,
        length-displace (score_of ranked) margin names filled,
        length-fill slots names kept fits,
      ) in
      (
        ap (mem_name k) (trim_within (score_of ranked) margin slots _ within)
            ∙ displace_keeps (score_of ranked) margin names filled k near
                (fill_keeps slots names kept k h),
        length-resolve_positions,
      )
