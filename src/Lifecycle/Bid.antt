-- ===== src/Lifecycle/Bid.antt =====
-- A symbol that is not held: a bid, or no trade.
use robo_trade.Base.{
  String, ◌≡◌, refl, true, false, ◌||◌, Option, none, some, ok, str_eq, Bool-cases, inl, inr, ◌⊎◌,
  arith, ◌==◌,
}
use robo_trade.Base.Float.{Float, ◌≼◌, lt, min_float, nonzero, IsOrdered}
use robo_trade.Interfaces.{no_legs, order}
use robo_trade.Options.{OptionContract, midpoint}
use robo_trade.Lifecycle.State.{Memory, Situation, SymbolPlan}
use robo_trade.Lifecycle.Bidding.{
  stand_down, bid_plan, bid_limit, entry_ticket, place_bid, flat_or_bidding,
}
use robo_trade.Lifecycle.{plan_symbol}

module _ {F : Type 0} ⦃f : Float F⦄ where
  -- For a symbol that is not held the plan does not depend on what is remembered: a bid of the day
  -- before is planned anew, under the same key, as a bid of this day is.
  pub plan_symbol_forgets :
      (s : Situation F) (m m' : Memory F) (direction : String) (offered : Option (OptionContract F))
      → plan_symbol s m "" direction offered ≡ plan_symbol s m' "" direction offered
  unfolding plan_symbol
  plan_symbol_forgets s m m' direction none = refl
  plan_symbol_forgets s m m' direction (some c) = refl

  -- A bid for a contract: one order, whose limit before rounding is at the mark or below it.
  pub record IsBid (s : Situation F) (direction : String) (c : OptionContract F) (p : SymbolPlan F)
      : Type 0 where
    pub planned : p ≡ bid_plan s direction c (order (entry_ticket s c) no_legs)
    pub capped : bid_limit s c ≼ midpoint c
    pub priced : nonzero (f.round_cents (bid_limit s c)) ≡ true
    pub wanted : (str_eq direction "" || s.contracts == 0) ≡ false

  abbrev pub BidsOrStands : Situation F → String → Option (OptionContract F) → SymbolPlan F → Type 0
  BidsOrStands s direction offered p =
      (p ≡ stand_down s) ⊎ ((c : OptionContract F) × (offered ≡ some c) × IsBid s direction c p)

  module _ (laws : IsOrdered F) where
    min-le : (a b : F) → min_float a b ≼ b
    min-le a b = elim (Bool-cases (lt b a)) [
      | inl above ↦ rw above (laws.le_refl b)
      | inr below ↦ rw below (ground (arith, laws.lt-eq-not-le b a))
    ]

    place_bid-IsBid :
        (s : Situation F) (direction : String) (c : OptionContract F) (p : SymbolPlan F)
        → (str_eq direction "" || s.contracts == 0) ≡ false
        → place_bid s direction c ≡ ok p
        → IsBid s direction c p
    unfolding place_bid
    place_bid-IsBid s direction c p wanted e =
        elim (Bool-cases (nonzero (f.round_cents (bid_limit s c)))) [
          | inl priced ↦ record {
            planned = ground (arith, priced, e);
            capped = min-le _ (midpoint c);
            priced = priced;
            wanted = wanted;
          }
          | inr zero ↦ cc (rw zero at e)
        ]

    flat_or_bidding-cases :
        (s : Situation F) (m : Memory F) (direction : String) (offered : Option (OptionContract F))
        (p : SymbolPlan F)
        → flat_or_bidding s m direction offered ≡ ok p
        → BidsOrStands s direction offered p
    unfolding flat_or_bidding
    flat_or_bidding-cases s m direction none p e = inl cc
    flat_or_bidding-cases s m direction (some c) p e =
        elim (Bool-cases (str_eq direction "" || s.contracts == 0)) [
          | inl idle ↦ inl (cc (rw idle at e))
          | inr wanted ↦ inr (c, refl, place_bid-IsBid s direction c p wanted (rw wanted at e))
        ]

    -- A plan for a symbol that is not held is either to stand down, with no order and an empty memory,
    -- or one bid for the contract on offer: a direction and a size are given, the limit is not zero,
    -- and before it is rounded to cents it is never above the mark. The floats are ordered.
    pub plan_symbol-BidsOrStands :
        (s : Situation F) (m : Memory F) (direction : String) (offered : Option (OptionContract F))
        (p : SymbolPlan F)
        → plan_symbol s m "" direction offered ≡ ok p
        → BidsOrStands s direction offered p
    unfolding plan_symbol
    plan_symbol-BidsOrStands s m direction none p e = flat_or_bidding-cases s m direction none p e
    plan_symbol-BidsOrStands s m direction (some c) p e =
        flat_or_bidding-cases s m direction (some c) p e
