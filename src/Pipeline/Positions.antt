-- ===== src/Pipeline/Positions.antt =====
-- The positions that `place_orders` reports after a batch.
use robo_trade.Base.{
  String, ◌≡◌, refl, sym, ◌∙◌, Bool, true, false, List, [], ◌∷◌, none, some, arith, eq_iff, str_eq,
  if◌then◌else◌, get_or_else, ap, if_same, Bool-cases, inl, inr,
}
use robo_trade.Base.Dict.{
  Dict, lookup, insert, keys, mem_name, lookup-insert, IsDistinct, insert-IsDistinct,
}
use robo_trade.Base.Float.{Float, lt, zero_float, abs_float}
use robo_trade.Orders.{sum_from, is_buy, share_epsilon}
use robo_trade.Pipeline.Outcome.{
  OrderRow, leg_row, unfunded_leg, add_leg, add_legs, still_held, resulting_positions,
}

module _ {F : Type 0} ⦃f : Float F⦄ where
  -- The shares that each sent leg of one symbol brings in, or takes out.
  abbrev pub moves : String → List (OrderRow F) → List F
  moves k [] = []
  moves k (unfunded_leg o ∷ rs) = moves k rs
  moves k (leg_row r ∷ rs) =
      let rest = moves k rs in
      if str_eq r.planned.symbol k
      then (if is_buy r.planned.action then r.sent_quantity else f.negate r.sent_quantity) ∷ rest
      else rest

  abbrev pub shares_of : String → Dict F → F
  shares_of k held = get_or_else (lookup k held) zero_float

  shares_of-insert :
      (k j : String) (v : F) (d : Dict F)
      → shares_of j (insert k v d) ≡ (if str_eq k j then v else shares_of j d)
  shares_of-insert k j v d = rw lookup-insert (split (str_eq k j))
    where
      split :
          (b : Bool)
          → get_or_else (if b then some v else lookup j d) zero_float
            ≡ (if b then v else shares_of j d)
      split true = refl
      split false = refl

  shares_of-add_legs :
      (k : String) (rs : List (OrderRow F)) (held : Dict F)
      → shares_of k (add_legs rs held) ≡ sum_from (shares_of k held) (moves k rs)
  shares_of-add_legs k [] held = refl
  shares_of-add_legs k (unfunded_leg o ∷ rs) held = shares_of-add_legs k rs held
  shares_of-add_legs k (leg_row r ∷ rs) held = elim (Bool-cases (str_eq r.planned.symbol k)) [
    | inl same ↦
        shares_of-add_legs k rs (add_leg (leg_row r) held)
        ∙ rw (shares_of-insert, same, (eq_iff r.planned.symbol k).0 same) refl
    | inr other ↦
        shares_of-add_legs k rs (add_leg (leg_row r) held) ∙ rw (shares_of-insert, other) refl
  ]

  add_legs-IsDistinct :
      (rs : List (OrderRow F)) (held : Dict F) → IsDistinct held → IsDistinct (add_legs rs held)
  add_legs-IsDistinct [] held h = h
  add_legs-IsDistinct (unfunded_leg o ∷ rs) held h = add_legs-IsDistinct rs held h
  add_legs-IsDistinct (leg_row r ∷ rs) held h =
      add_legs-IsDistinct rs (add_leg (leg_row r) held)
        (insert-IsDistinct r.planned.symbol _ held h)

  lookup-still_held-none :
      (k : String) (d : Dict F) → mem_name k (keys d) ≡ false → lookup k (still_held d) ≡ none
  lookup-still_held-none k [] h = refl
  lookup-still_held-none k ((j, n) ∷ d) h = elim (Bool-cases (lt share_epsilon (abs_float n))) [
    | inl kept ↦ rw kept (ground (arith, lookup-still_held-none k d))
    | inr dropped ↦ rw dropped (ground (arith, lookup-still_held-none k d))
  ]

  -- A count of shares, or zero where it is too small to be a position.
  abbrev pub clip : F → F
  clip n = if lt share_epsilon (abs_float n) then n else zero_float

  clip_zero : clip zero_float ≡ zero_float {F = F}
  clip_zero = if_same (lt {F = F} share_epsilon (abs_float zero_float)) zero_float

  shares_of-still_held :
      (k : String) (d : Dict F) → IsDistinct d → shares_of k (still_held d) ≡ clip (shares_of k d)
  shares_of-still_held k [] h = sym clip_zero
  shares_of-still_held k ((j, n) ∷ d) (h, hs) = elim (Bool-cases (str_eq j k)) [
    | inr other ↦ elim (Bool-cases (lt share_epsilon (abs_float n))) [
      | inl kept ↦ rw (kept, other) (shares_of-still_held k d hs)
      | inr dropped ↦ rw (dropped, other) (shares_of-still_held k d hs)
    ]
    | inl same ↦ elim (Bool-cases (lt share_epsilon (abs_float n))) [
      | inl kept ↦ rw (kept, same, kept) refl
      | inr dropped ↦
          rw (dropped, same, dropped)
            (ap (λ o. get_or_else o zero_float)
              (lookup-still_held-none k d (rw ((eq_iff j k).0 same) at h)))
    ]
  ]

  -- What is held of a symbol after a batch is what was held before and, one after the other, what each
  -- sent leg of that symbol moves, or nothing where that is too small to be a position; legs of other
  -- symbols and the unfunded rows move nothing. No symbol stands twice in the book.
  pub resulting_positions_ledger :
      (k : String) (rs : List (OrderRow F)) (held : Dict F)
      → IsDistinct held
      → shares_of k (resulting_positions held rs) ≡ clip (sum_from (shares_of k held) (moves k rs))
  unfolding resulting_positions
  resulting_positions_ledger k rs held h =
      shares_of-still_held k (add_legs rs held) (add_legs-IsDistinct rs held h)
      ∙ ap clip (shares_of-add_legs k rs held)
