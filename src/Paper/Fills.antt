-- ===== src/Paper/Fills.antt =====
-- `submit_order` of the paper account.
pub mod Tracked
use robo_trade.Base.{
  ℕ, String, Bool, true, false, not, ◌&&◌, ◌||◌, Option, none, some, List, [], ◌∷◌, if◌then◌else◌,
  get_or_else, Result, ok, err, ◌≡◌, refl, sym, ap,
}
use robo_trade.Base.Dict.{Dict, lookup, insert, erase}
use robo_trade.Base.Exec.{Exec}
use robo_trade.Base.Float.{
  nonzero, Float, ◌⊕◌, ◌⊖◌, ◌⊗◌, ◌⊘◌, ratio, le, lt, zero_float, one_float, abs_float,
}
use robo_trade.Interfaces.{
  Side, buy, sell, AssetType, equity, option, OrderStrategy, single, oco, trigger, Ticket,
  OrderRequest, ticket,
}
use robo_trade.Orders.{truncate, share_epsilon}
use robo_trade.Paper.{Book}

pub data Refusal : Type 0 where
  not_equity not_single not_whole no_price no_funds : Refusal

-- The reply to a filled order.
pub record Fill (F : Type 0) : Type 0 where
  pub order_id : String
  pub client_order_id : String
  pub symbol : String
  pub qty : F

abbrev is_equity : AssetType → Bool
is_equity equity = true
is_equity option = false

abbrev is_single : OrderStrategy → Bool
is_single single = true
is_single oco = false
is_single trigger = false

-- `!=` on truth values.
abbrev pub differ : Bool → Bool → Bool
differ true c = not c
differ false c = c

module _ {F : Type 0} ⦃f : Float F⦄ where
  -- The price of the order, if it has one that is not zero, and otherwise the mark.
  abbrev pub price_for : Book F → Ticket F → F
  price_for b t =
      let mark : F = get_or_else (lookup t.symbol b.prices) zero_float in
      elim t.latest_price [ none ↦ mark | some p ↦ if nonzero p then p else mark ]

  abbrev pub signed_quantity : Ticket F → F
  signed_quantity t = elim t.action [ buy ↦ t.quantity | sell ↦ f.negate t.quantity ]

  abbrev pub fill_price : F → F → F → F
  fill_price cost_bps price signed =
      let side : F = if lt zero_float signed then one_float else f.negate one_float in
      price ⊗ (one_float ⊕ ((cost_bps ⊘ ratio 10_000 1) ⊗ side))

  -- The branches of `_update_basis`.
  pub updated_basis : String → F → F → F → Dict F → Dict F
  updated_basis symbol held signed price basis =
      let after : F = held ⊕ signed in
      let previous : F = get_or_else (lookup symbol basis) price in
      let mean : F = ((abs_float held ⊗ previous) ⊕ (abs_float signed ⊗ price)) ⊘ abs_float after in
      if lt (abs_float after) share_epsilon
      then erase symbol basis
      else if f.same held zero_float || differ (lt zero_float held) (lt zero_float after)
      then insert symbol price basis
      else if not (differ (lt zero_float signed) (lt zero_float held))
      then insert symbol mean basis
      else basis

  -- The holdings after the fill: what is left of nothing is dropped.
  pub updated_positions : String → F → Dict F → Dict F
  updated_positions symbol after positions =
      let written : Dict F = insert symbol after positions in
      if lt (abs_float after) share_epsilon then erase symbol written else written

  -- The tests of `submit_order`, in order; `none` is an order that is filled.
  abbrev pub refusal : F → Ticket F → Book F → Option Refusal
  refusal cost_bps t b =
      let signed : F = signed_quantity t in
      let price : F = price_for b t in
      if not (is_equity t.asset_type)
      then some not_equity
      else if not (is_single t.strategy)
      then some not_single
      else if not (f.same t.quantity (truncate t.quantity))
      then some not_whole
      else if le price zero_float
      then some no_price
      else if lt zero_float signed
          && lt (b.cash ⊕ share_epsilon) (signed ⊗ fill_price cost_bps price signed)
      then some no_funds
      else none

  -- The writes of a fill.
  pub filled_book : F → Ticket F → Book F → Book F
  unfolding updated_basis updated_positions
  filled_book cost_bps t b =
      let signed : F = signed_quantity t in
      let price : F = price_for b t in
      let paid : F = fill_price cost_bps price signed in
      let held : F = get_or_else (lookup t.symbol b.positions) zero_float in
      record b {
        cash = b.cash ⊖ (signed ⊗ paid);
        positions = updated_positions t.symbol (held ⊕ signed) b.positions;
        basis = updated_basis t.symbol held signed paid b.basis;
        prices = insert t.symbol price b.prices;
      }

  abbrev fill_reply : String → Ticket F → Fill F
  fill_reply id t = record {
    order_id = id;
    client_order_id = get_or_else t.client_order_id "";
    symbol = t.symbol;
    qty = t.quantity;
  }

  -- The end of `submit_order`, after its tests.
  abbrev pub answer : String → F → Ticket F → Option Refusal → Exec Refusal (Book F) (Fill F)
  answer id cost_bps t (some e) b = (err e, b)
  answer id cost_bps t none b = (ok (fill_reply id t), filled_book cost_bps t b)

  -- `submit_order`, with the id that the code draws and the cost of a fill in basis points.
  unfoldable pub submit_order : String → F → OrderRequest F → Exec Refusal (Book F) (Fill F)
  unfolding filled_book
  submit_order id cost_bps r b = answer id cost_bps (ticket r) (refusal cost_bps (ticket r) b) b
