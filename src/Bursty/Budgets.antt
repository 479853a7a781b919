-- ===== src/Bursty/Budgets.antt =====
-- The budgets of src/algorithms/bursty_dca/config.py: what a plan buys and sells, and how much.
pub mod Sane
pub mod Reported
use robo_trade.Base.{
  ℕ, String, ◌≡◌, refl, sym, ap, ◌∙◌, ◌⊎◌, Bool, true, false, ◌&&◌, ◌||◌, not, Option, none, some,
  List, [], ◌∷◌, ◌++◌, All, if◌then◌else◌, get_or_else, Bool-cases, inl, inr, arith, str_eq, eq_iff,
}
use robo_trade.Base.Dict.{Dict, lookup, insert, keys, mem_name, IsDistinct}
use robo_trade.Base.Float.{
  Float, IsOrdered, ◌≼◌, ◌⊕◌, ◌⊗◌, lt, ratio, zero_float, one_float, abs_float, min_float,
}
use robo_trade.Text.{upper, strip_text}
use robo_trade.Orders.{sum_from}
use robo_trade.Bursty.Size.{min_float-le}
use robo_trade.Bursty.Ledger.{Scalar, Coercion, as_float}

-- An item of a bucket, as it is written; the symbol is empty where it is missing.
pub record RawItem (F : Type 0) : Type 0 where
  pub symbol : String
  pub amount : Option (Scalar F)

-- The two buckets, as they are written; empty where they are missing.
pub record RawPlan (F : Type 0) : Type 0 where
  pub buy : List (RawItem F)
  pub sell : List (RawItem F)

pub record Bucket (F : Type 0) : Type 0 where
  pub amount : F
  pub items : List (String × F)

pub record SanePlan (F : Type 0) : Type 0 where
  pub buy : Bucket F
  pub sell : Bucket F

-- `str(item.get("symbol", "")).strip().upper()`.
unfoldable pub clean_symbol : String → String
clean_symbol symbol = upper (strip_text symbol)

-- The item is dropped.
abbrev pub is_dropped : List String → List String → String → Bool
is_dropped universe seen symbol =
    str_eq symbol "" || (not (mem_name symbol universe) || mem_name symbol seen)

abbrev pub keep_item : {F : Type 0} → Bool → String × F → List (String × F) → List (String × F)
keep_item dropped item items = if dropped then items else item ∷ items

abbrev pub add_seen : Bool → String → List String → List String
add_seen skip symbol seen = if skip then seen else symbol ∷ seen

module _ {F : Type 0} where
  -- The loop of `unknown_plan_symbols` over the items of a bucket.
  unfoldable pub unknown_items : List String → List (RawItem F) → List String → List String
  unknown_items universe [] unknown = unknown
  unknown_items universe (item ∷ items) unknown =
      let symbol = clean_symbol item.symbol in
      let add =
        not (str_eq symbol "") && not (mem_name symbol universe) && not (mem_name symbol unknown) in
      unknown_items universe items (if add then unknown ++ (symbol ∷ []) else unknown)

  -- `unknown_plan_symbols`.
  unfoldable pub unknown_plan_symbols : RawPlan F → List String → List String
  unfolding unknown_items
  unknown_plan_symbols plan universe =
      unknown_items universe plan.sell (unknown_items universe plan.buy [])

module _ {F : Type 0} ⦃f : Float F⦄ where
  -- `MAX_ITEM_AMOUNT`.
  abbrev pub max_item_amount : F
  max_item_amount = ratio 5000 1

  module _ (coerce : Coercion F) where
    -- The loop over the items of a bucket.
    unfoldable pub sanitize_items : List String → List String → List (RawItem F) → List (String × F)
    sanitize_items universe seen [] = []
    sanitize_items universe seen (item ∷ items) =
        let symbol = clean_symbol item.symbol in
        let dropped = is_dropped universe seen symbol in
        keep_item dropped (symbol, min_float (as_float coerce item.amount) max_item_amount)
          (sanitize_items universe (add_seen dropped symbol seen) items)

    abbrev amounts : List (String × F) → List F
    amounts [] = []
    amounts ((k, amount) ∷ items) = amount ∷ amounts items

    abbrev bucket_of : List (String × F) → Bucket F
    bucket_of items = record { amount = sum_from zero_float (amounts items); items = items }

    -- `sanitize_plan`.
    unfoldable pub sanitize_plan : RawPlan F → List String → SanePlan F
    unfolding sanitize_items
    sanitize_plan plan universe = record {
      buy = bucket_of (sanitize_items universe [] plan.buy);
      sell = bucket_of (sanitize_items universe [] plan.sell);
    }

  -- The loop of `plan_budgets` over the items of a bucket, whose symbols are clean.
  unfoldable pub budget_items : F → List (String × F) → Dict F → Dict F
  budget_items sign [] budgets = budgets
  budget_items sign ((symbol, amount) ∷ items) budgets = budget_items sign items (
      insert symbol (get_or_else (lookup symbol budgets) zero_float ⊕ (sign ⊗ abs_float amount))
        budgets)

  -- `plan_budgets`, of a plan that is sanitized.
  unfoldable pub plan_budgets : SanePlan F → Dict F
  unfolding budget_items
  plan_budgets plan =
      budget_items (f.negate one_float) plan.sell.items (budget_items one_float plan.buy.items [])
