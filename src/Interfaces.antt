-- ===== src/Interfaces.antt =====
-- src/core/interfaces.py: orders and what an algorithm wants to rest at the broker.
use robo_trade.Base.Float.{Float, nonzero}
use robo_trade.Base.{
  Bool, true, false, not, ◌&&◌, Result, ok, ◌>>◌, raise_if, String, Option, some, none,
}
use robo_trade.Text.{Text, codes}

pub data Side : Type 0 where
  buy sell : Side

-- `ORDER_TYPES`.
pub data OrderType : Type 0 where
  market limit stop stop_limit : OrderType

-- `ORDER_STRATEGIES`.
pub data OrderStrategy : Type 0 where
  single oco trigger : OrderStrategy

-- `ASSET_TYPES`.
pub data AssetType : Type 0 where
  equity option : AssetType

pub data TimeInForce : Type 0 where
  day gtc : TimeInForce

abbrev pub side_text : Side → Text
side_text buy = codes "buy"
side_text sell = codes "sell"

abbrev pub order_type_text : OrderType → Text
order_type_text market = codes "market"
order_type_text limit = codes "limit"
order_type_text stop = codes "stop"
order_type_text stop_limit = codes "stop_limit"

-- The fields of `OrderRequest` but its children. Of `extra`, the price that a simulated fill uses.
pub record Ticket (F : Type 0) : Type 0 where
  pub symbol : String
  pub action : Side
  pub quantity : F
  pub order_type : OrderType
  pub limit_price : Option F
  pub stop_price : Option F
  pub client_order_id : Option String
  pub time_in_force : TimeInForce
  pub asset_type : AssetType
  pub strategy : OrderStrategy
  pub latest_price : Option F

mutual
  pub data OrderRequest (F : Type 0) : Type 0 where
    order : Ticket F → Legs F → OrderRequest F

  pub data Legs (F : Type 0) : Type 0 where
    no_legs : Legs F
    leg : OrderRequest F → Legs F → Legs F

abbrev pub ticket : {F : Type 0} → OrderRequest F → Ticket F
ticket (order t legs) = t

abbrev pub legs : {F : Type 0} → OrderRequest F → Legs F
legs (order t ls) = ls

-- What `__post_init__` raises for an order of a known type.
pub data OrderError : Type 0 where
  needs_stop_price needs_limit_price : OrderError

abbrev pub has_stop : OrderType → Bool
has_stop market = false
has_stop limit = false
has_stop stop = true
has_stop stop_limit = true

abbrev pub has_limit : OrderType → Bool
has_limit market = false
has_limit limit = true
has_limit stop = false
has_limit stop_limit = true

module _ {F : Type 0} ⦃f : Float F⦄ where
  -- `not price`: a missing price, or zero.
  abbrev pub unset : Option F → Bool
  unset none = true
  unset (some p) = not (nonzero p)

  -- `OrderRequest(...)`, with the tests of `__post_init__` on its prices.
  unfoldable pub new_order : Ticket F → Legs F → Result OrderError (OrderRequest F)
  new_order t ls = do
    raise_if (has_stop t.order_type && unset t.stop_price) needs_stop_price
    raise_if (has_limit t.order_type && unset t.limit_price) needs_limit_price
    ok (order t ls)

-- `DesiredOrder`.
pub record DesiredOrder (F : Type 0) : Type 0 where
  pub key : String
  pub request : OrderRequest F
  pub replace_tolerance : F
