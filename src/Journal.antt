-- ===== src/Journal.antt =====
-- src/data/order_journal.py: the rows that the bot keeps of its orders, the latest last.
pub mod Kept
mod Tests
use mathlib.Core.List.{reverse-append, append_assoc}
use mathlib.Core.Path.{subst}
use robo_trade.Base.{
  ℕ, zero, suc, ◌+◌, ◌-◌, ◌≤◌, String, ◌≡◌, ◌∙◌, refl, sym, ap, Bool, true, false, not, ◌&&◌, ◌||◌,
  Option, none, some, List, [], ◌∷◌, ◌++◌, map, reverse, if◌then◌else◌, get_or_else, length, take,
  drop, take_last, filter, ltb, str_eq, length-append, length-drop, arith,
}
use robo_trade.Base.Float.{Float, zero_float}

-- A result of an order, as far as `_entry` reads it. A missing text is empty, a missing number zero.
pub record OrderResult (F : Type 0) : Type 0 where
  pub symbol : String
  pub action : String
  pub status : String
  pub quantity : F
  pub notional : F
  pub latest_price : F
  pub order_id : String
  pub reason : String

pub record Entry (F : Type 0) : Type 0 where
  pub submitted_at : ℕ
  pub strategy : String
  pub account_id : String
  pub symbol : String
  pub side : String
  pub quantity : F
  pub notional : F
  pub price : F
  pub status : String
  pub order_id : String
  pub reason : String

module _ {F : Type 0} where
  -- `_entry`.
  abbrev pub entry : String → String → ℕ → OrderResult F → Entry F
  entry strategy account_id recorded_at o = record {
    submitted_at = recorded_at;
    strategy = strategy;
    account_id = account_id;
    symbol = o.symbol;
    side = o.action;
    quantity = o.quantity;
    notional = o.notional;
    price = o.latest_price;
    status =
        if not (str_eq o.status "")
        then o.status
        else if str_eq o.action "skip"
        then "skipped"
        else "planned";
    order_id = o.order_id;
    reason = o.reason;
  }

  -- `save_state(JOURNAL_KEY, (journal + entries)[-JOURNAL_LIMIT:])`.
  abbrev pub append_entries : List (Entry F) → List (Entry F) → List (Entry F)
  append_entries journal entries = take_last 400 (journal ++ entries)

  -- The journal after `record_orders`; a store that raises keeps the old one.
  unfoldable pub record_orders :
      String → String → ℕ → Bool → List (OrderResult F) → List (Entry F) → List (Entry F)
  record_orders strategy account_id recorded_at raises [] journal = journal
  record_orders strategy account_id recorded_at raises (o ∷ os) journal =
      if raises
      then journal
      else append_entries journal (map (entry strategy account_id recorded_at) (o ∷ os))

  abbrev pub is_about : String → String → Entry F → Bool
  is_about strategy account_id e =
      (str_eq strategy "" || str_eq e.strategy strategy)
      && (str_eq account_id "" || str_eq e.account_id account_id)

  -- `load_order_journal`.
  unfoldable pub load_order_journal : String → String → ℕ → List (Entry F) → List (Entry F)
  load_order_journal strategy account_id limit journal =
      take (if ltb limit 1 then 1 else limit)
        (reverse (filter (is_about strategy account_id) journal))
