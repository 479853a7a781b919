-- ===== src/Lifecycle/State.antt =====
-- src/algorithms/options_flip/lifecycle.py: what the lifecycle of a symbol remembers and reads, and the
-- plan that it makes.
use robo_trade.Base.{ℕ, String, Bool, true, false, Option, none, some, List, str_append}
use robo_trade.Base.Float.{Float, ◌⊖◌, ◌⊗◌, ratio, zero_float, one_float, max_float}
use robo_trade.Interfaces.{DesiredOrder}

-- `FLAT`, `BIDDING` and `HELD`.
pub data Phase : Type 0 where
  flat bidding held : Phase

-- `memory`, where a missing entry reads as zero or the empty text.
pub record Memory (F : Type 0) : Type 0 where
  pub phase : Option Phase
  pub contract : String
  pub direction : String
  pub contracts : ℕ
  pub bid : F
  pub stop_at : F
  pub market_day : String
  pub fill_price : F
  pub mark : F
  pub delta : F
  pub sessions_held : ℕ
  pub target : F

-- The settings that are read. The patience of entry and exit is 1 where it is not set.
pub record Settings (F : Type 0) : Type 0 where
  pub stop_loss_pct : F
  pub entry_patience : F
  pub exit_patience : F
  pub exit_gain_share : F
  pub max_hold_sessions : ℕ

pub record Session (F : Type 0) : Type 0 where
  pub fraction_remaining : F
  pub day_changed : Bool
  pub market_day : String

-- `SymbolPlan`.
pub record SymbolPlan (F : Type 0) : Type 0 where
  pub symbol : String
  pub phase : Phase
  pub orders : List (DesiredOrder F)
  pub memory : Memory F

-- The arguments that both branches of `plan_symbol` read.
pub record Situation (F : Type 0) : Type 0 where
  pub symbol : String
  pub contracts : ℕ
  pub underlying_now : F
  pub entry_target : F
  pub exit_target : F
  pub settings : Settings F
  pub session : Session F
  pub holds_oco : Bool

abbrev pub is_bidding : Option Phase → Bool
is_bidding none = false
is_bidding (some flat) = false
is_bidding (some bidding) = true
is_bidding (some held) = false

abbrev pub key_of : String → String → String
key_of symbol role = str_append symbol (str_append ":" role)

module _ {F : Type 0} ⦃f : Float F⦄ where
  abbrev pub penny : F
  penny = ratio 1 100

  -- `{}`.
  abbrev pub no_memory : Memory F
  no_memory = record {
    phase = none;
    contract = "";
    direction = "";
    contracts = 0;
    bid = zero_float;
    stop_at = zero_float;
    market_day = "";
    fill_price = zero_float;
    mark = zero_float;
    delta = zero_float;
    sessions_held = 0;
    target = zero_float;
  }

  -- A share of a stop, struck off a price; zero where stops are disabled.
  abbrev pub stop_off : Settings F → F → F
  stop_off settings price =
      f.round_cents (max_float (price ⊗ (one_float ⊖ settings.stop_loss_pct)) penny)
