-- ===== src/Orders/Planning/Rows.antt =====
-- What every planned trade satisfies, and the order of the batch.
use robo_trade.Base.{
  String, ◌≡◌, refl, false, not, Option, none, some, List, [], ◌∷◌, arith, All, inl, inr,
  Bool-cases, Option-cases, get_or_else, if◌then◌else◌,
}
use robo_trade.Base.Dict.{Dict, lookup, keys}
use robo_trade.Base.Float.{Float, IsOrdered, ◌⊗◌, ◌≼◌, le, lt, zero_float, max_float, abs_float}
use robo_trade.Base.Sort.{add_names, place, sort_by, sort_by-All}
use robo_trade.Interfaces.{buy, sell}
use robo_trade.Orders.{PlannedOrder, share_epsilon, is_sell}
use robo_trade.Orders.Planning.{
  Limits, drift, is_closing, floor_dollars, plan_priced, cons_some, plan_symbol, plan_symbols,
  not_after, plan_share_orders,
}

-- No buy stands before a sell.
abbrev pub IsSellsFirst : {F : Type 0} → List (PlannedOrder F) → Type 0
IsSellsFirst [] = Unit
IsSellsFirst (o ∷ os) =
    (is_sell o.action ≡ false → All (λ p. is_sell p.action ≡ false) os) × IsSellsFirst os

module _ {F : Type 0} where
  rest_after_buy :
      (o p : PlannedOrder F) (os : List (PlannedOrder F))
      → is_sell p.action ≡ false
      → IsSellsFirst (p ∷ os)
      → All (λ q. is_sell q.action ≡ false) (p ∷ os)
  rest_after_buy o p os e h = (e, h.0 e)

  place-IsSellsFirst :
      (o : PlannedOrder F) (os : List (PlannedOrder F))
      → IsSellsFirst os
      → IsSellsFirst (place not_after o os)
  unfolding place
  place-IsSellsFirst o [] h = (λ e. tt, tt)
  place-IsSellsFirst o (p ∷ os) h = elim (Bool-cases (is_sell o.action)) [
    | inl sells ↦ rw sells (λ e. cc, h)
    | inr buys ↦ elim (Bool-cases (is_sell p.action)) [
      | inl sells ↦ rw (buys, sells) (λ e. cc, place-IsSellsFirst o os h.1)
      | inr also ↦ rw (buys, also) (λ e. (also, h.0 also), h)
    ]
  ]

  sort_by-IsSellsFirst : (os : List (PlannedOrder F)) → IsSellsFirst (sort_by not_after os)
  unfolding sort_by
  sort_by-IsSellsFirst [] = tt
  sort_by-IsSellsFirst (o ∷ os) =
      place-IsSellsFirst o (sort_by not_after os) (sort_by-IsSellsFirst os)

-- A planned trade: it is priced, it moves what is held by the drift from the target, its side is that
-- of the drift, and its value reaches the minimum.
pub record IsJustified {F : Type 0} ⦃f : Float F⦄ (prices positions targets : Dict F) (l : Limits F)
    (o : PlannedOrder F) : Type 0 where
  pub priced : lookup o.symbol prices ≡ some o.latest_price
  pub usable : le o.latest_price zero_float ≡ false
  pub held : o.current_shares ≡ get_or_else (lookup o.symbol positions) zero_float
  pub aimed : o.target_shares ≡ get_or_else (lookup o.symbol targets) o.current_shares
  pub sized : o.quantity ≡ abs_float (drift l o.target_shares o.current_shares)
  pub valued : o.trade_dollars ≡ o.quantity ⊗ o.latest_price
  pub moves : le o.quantity share_epsilon ≡ false
  pub sided : is_sell o.action ≡ not (lt zero_float (drift l o.target_shares o.current_shares))
  pub worthwhile : lt o.trade_dollars l.min_trade_dollars ≡ false

module _ {F : Type 0} ⦃f : Float F⦄ (laws : IsOrdered F) where
  le_of_not_lt : (a b : F) → lt a b ≡ false → b ≼ a
  le_of_not_lt a b h = ground (arith, laws.lt-eq-not-le a b)

  not_lt_of_le : (a b : F) → b ≼ a → lt a b ≡ false
  not_lt_of_le a b h = ground (arith, laws.lt-eq-not-le a b)

  le-max_float : (a b : F) → a ≼ max_float a b
  le-max_float a b = elim (Bool-cases (lt a b)) [
    | inl below ↦ rw below (elim (laws.le_total a b) [
      | inl up ↦ up
      | inr down ↦ ground (arith, laws.lt-eq-not-le a b)
    ])
    | inr above ↦ rw above (laws.le_refl a)
  ]

  min-le-floor :
      (l : Limits F) (equity target current : F)
      → l.min_trade_dollars ≼ floor_dollars l equity target current
  min-le-floor l equity target current = elim (Bool-cases (is_closing target current)) [
    | inl closing ↦ rw closing (laws.le_refl _)
    | inr open_still ↦ rw open_still (le-max_float l.min_trade_dollars _)
  ]

  module _ (prices positions targets weights : Dict F) (equity : F) (l : Limits F) where
    abbrev Justified : Option (PlannedOrder F) → Type 0
    Justified none = Unit
    Justified (some o) = IsJustified prices positions targets l o

    side_of_drift :
        (diff : F) → is_sell (if lt zero_float diff then buy else sell) ≡ not (lt zero_float diff)
    side_of_drift diff = ground arith

    plan_priced-Justified :
        (symbol : String) (price weight target current : F)
        → lookup symbol prices ≡ some price
        → le price zero_float ≡ false
        → current ≡ get_or_else (lookup symbol positions) zero_float
        → target ≡ get_or_else (lookup symbol targets) current
        → Justified (plan_priced l equity symbol price weight target current)
    unfolding plan_priced
    plan_priced-Justified symbol price weight target current p q h a =
        elim (Bool-cases (le (abs_float (drift l target current)) share_epsilon)) [
          | inl tiny ↦ rw tiny tt
          | inr moves ↦
              elim (Bool-cases (
                lt (abs_float (drift l target current) ⊗ price)
                  (floor_dollars l equity target current))) [
                    | inl small ↦ rw (moves, small) tt
                    | inr enough ↦
                        rw (moves, enough)
                          (record {
                            priced = p;
                            usable = q;
                            held = h;
                            aimed = a;
                            sized = refl;
                            valued = refl;
                            moves = moves;
                            sided = side_of_drift (drift l target current);
                            worthwhile = not_lt_of_le _ l.min_trade_dollars (
                                laws.le_trans _ _ _ (min-le-floor l equity target current)
                                  (le_of_not_lt _ _ enough));
                          })
                  ]
        ]

    plan_symbol-Justified :
        (symbol : String) → Justified (plan_symbol prices positions targets weights equity l symbol)
    unfolding plan_symbol
    plan_symbol-Justified symbol = elim (Option-cases (lookup symbol prices)) [
      | inl unpriced ↦ rw (unpriced, plan_symbol, Justified) tt
      | inr (price, p) ↦ elim (Bool-cases (le price zero_float)) [
        | inl bad ↦ rw (p, bad, plan_symbol, Justified) tt
        | inr good ↦
            rw (p, good, plan_symbol, Justified)
              (plan_priced-Justified symbol price _ _ _ p good refl refl)
      ]
    ]

    plan_symbols-Justified :
        (ks : List String)
        → All
            (IsJustified prices positions targets l)
            (plan_symbols prices positions targets weights equity l ks)
    unfolding plan_symbols
    plan_symbols-Justified [] = tt
    plan_symbols-Justified (k ∷ ks) =
        add (plan_symbol prices positions targets weights equity l k) _ (plan_symbol-Justified k)
          (plan_symbols-Justified ks)
      where
        add :
            (o : Option (PlannedOrder F)) (rest : List (PlannedOrder F))
            → Justified o
            → All (IsJustified prices positions targets l) rest
            → All (IsJustified prices positions targets l) (cons_some o rest)
        add none rest h hs = hs
        add (some o) rest h hs = (h, hs)

    -- Every trade of a plan has a usable price, starts from what is held, moves by the drift from the
    -- target in its direction, is more than dust, and is worth at least the minimum trade; and all sells
    -- of the plan stand before its buys. The order of the floats is assumed to be total.
    pub plan_share_orders-IsJustified :
        let orders = plan_share_orders prices positions targets weights equity l in
        All (IsJustified prices positions targets l) orders × IsSellsFirst orders
    unfolding plan_share_orders
    plan_share_orders-IsJustified = (
      sort_by-All not_after (IsJustified prices positions targets l) _
          (plan_symbols-Justified (add_names (keys targets) (add_names (keys positions) []))),
      sort_by-IsSellsFirst _,
    )
