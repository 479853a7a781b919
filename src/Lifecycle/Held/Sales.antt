-- ===== src/Lifecycle/Held/Sales.antt =====
-- Orders that sell a held contract, and the legs of a bracket as such orders.
use robo_trade.Base.{not, ◌||◌, ℕ, String, ◌≡◌, refl, Bool, true, false, Option, none, some, ok}
use robo_trade.Base.Float.{Float, ◌≼◌, le, lt, zero_float, ratio, nonzero}
use robo_trade.Interfaces.{
  sell, OrderType, limit, stop, has_stop, gtc, option, OrderStrategy, single, oco, Ticket,
  OrderRequest, Legs, no_legs, leg, order, DesiredOrder, new_order,
}
use robo_trade.Lifecycle.State.{penny}
use robo_trade.Lifecycle.Bracket.{target_leg, stop_leg, sell_ticket}

-- What the rounding to cents must keep: a penny or more stays above zero.
abbrev pub KeepsPennies : (F : Type 0) ⦃f : Float F⦄ → Type 0
KeepsPennies F ⦃f⦄ = (x : F) → penny ≼ x → lt zero_float (f.round_cents x) ≡ true

pub no_stop : (stops : Bool) → (stops || true) ≡ true
no_stop true = refl
no_stop false = refl

module _ {F : Type 0} ⦃f : Float F⦄ where
  -- A sale of so many of the contract, that rests until it is cancelled.
  pub record IsSale (contract : String) (quantity : ℕ) (t : Ticket F) : Type 0 where
    pub named : t.symbol ≡ contract
    pub sells : t.action ≡ sell
    pub sized : t.quantity ≡ ratio quantity 1
    pub kind : t.asset_type ≡ option
    pub rests : t.time_in_force ≡ gtc

  unfoldable mutual
    -- Every order of a tree is such a sale, and where stops are off none of them is a stop.
    pub IsExit : String → ℕ → Bool → OrderRequest F → Type 0
    IsExit contract quantity stops (order t ls) =
        (IsSale contract quantity t × ((stops || not (has_stop t.order_type)) ≡ true))
        × AreExits contract quantity stops ls

    pub AreExits : String → ℕ → Bool → Legs F → Type 0
    AreExits contract quantity stops no_legs = Unit
    AreExits contract quantity stops (leg o ls) =
        IsExit contract quantity stops o × AreExits contract quantity stops ls

  abbrev pub IsExitOrder : String → ℕ → Bool → DesiredOrder F → Type 0
  IsExitOrder contract quantity stops d = IsExit contract quantity stops d.request

  pub sell_ticket-IsSale :
      (contract : String) (quantity : ℕ) (kind : OrderType) (limit_price stop_price : Option F)
      (strategy : OrderStrategy)
      → IsSale contract quantity
          (sell_ticket contract quantity kind limit_price stop_price strategy)
  sell_ticket-IsSale contract quantity kind limit_price stop_price strategy = record {
    named = refl;
    sells = refl;
    sized = refl;
    kind = refl;
    rests = refl;
  }

  pub target_leg-ok :
      (contract : String) (quantity : ℕ) (target : F)
      → nonzero target ≡ true
      → target_leg contract quantity target
        ≡ ok (order (sell_ticket contract quantity limit (some target) none single) no_legs)
  unfolding target_leg
  target_leg-ok contract quantity target priced = rw priced

  pub stop_leg-ok :
      (contract : String) (quantity : ℕ) (stop_at : F)
      → nonzero stop_at ≡ true
      → stop_leg contract quantity stop_at
        ≡ ok (order (sell_ticket contract quantity stop none (some stop_at) single) no_legs)
  unfolding stop_leg
  stop_leg-ok contract quantity stop_at live = rw live

  pub pair-ok :
      (contract : String) (quantity : ℕ) (target : F) (ls : Legs F)
      → nonzero target ≡ true
      → new_order (sell_ticket contract quantity limit (some target) none oco) ls
        ≡ ok (order (sell_ticket contract quantity limit (some target) none oco) ls)
  unfolding new_order
  pair-ok contract quantity target ls priced = rw priced

  pub may_stop :
      (stops : Bool) (stop_at : F)
      → le stop_at zero_float ≡ false
      → (stops ≡ false → le stop_at zero_float ≡ true)
      → (stops || false) ≡ true
  may_stop true stop_at on allowed = refl
  may_stop false stop_at on allowed = cc (allowed refl, on)
