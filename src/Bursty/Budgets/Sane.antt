-- ===== src/Bursty/Budgets/Sane.antt =====
-- src/algorithms/bursty_dca/config.py: what the buckets of a sanitized plan hold.
use robo_trade.Base.{String, ◌≡◌, refl, Bool, true, false, List, [], ◌∷◌, All, arith, eq_iff}
use robo_trade.Base.Dict.{keys, mem_name, IsDistinct}
use robo_trade.Base.Float.{Float, IsOrdered, ◌≼◌}
use robo_trade.Bursty.Size.{min_float-le}
use robo_trade.Bursty.Ledger.{Coercion, as_float}
use robo_trade.Bursty.Budgets.{
  RawItem, clean_symbol, max_item_amount, is_dropped, keep_item, add_seen, sanitize_items,
}

module _ {F : Type 0} ⦃f : Float F⦄ where
  -- An item of the universe, with an amount within the limit, that was not seen before.
  abbrev pub IsSaneItem : List String → List String → String × F → Type 0
  IsSaneItem universe seen (k, amount) =
      (mem_name k universe ≡ true) × (mem_name k seen ≡ false) × (amount ≼ max_item_amount)

  abbrev pub IsSane : List String → List String → List (String × F) → Type 0
  IsSane universe seen items = All (IsSaneItem universe seen) items × IsDistinct items

  unseen_keys :
      (universe seen : List String) (k : String) (items : List (String × F))
      → All (IsSaneItem universe (k ∷ seen)) items
      → (mem_name k (keys items) ≡ false) × All (IsSaneItem universe seen) items
  unseen_keys universe seen k [] h = (refl, tt)
  unseen_keys universe seen k ((j, amount) ∷ items) ((in_universe, new, small), hs) =
      let (later, all_sane) = unseen_keys universe seen k items hs in
      (
        ground (arith, later, eq_iff j k, eq_iff k j),
        ((in_universe, ground (arith, eq_iff j k, eq_iff k j), small), all_sane),
      )

  keep_item-IsSane :
      (universe seen : List String) (dropped : Bool) (k : String) (amount : F)
      (items : List (String × F))
      → is_dropped universe seen k ≡ dropped
      → amount ≼ max_item_amount
      → IsSane universe (add_seen dropped k seen) items
      → IsSane universe seen (keep_item dropped (k, amount) items)
  keep_item-IsSane universe seen true k amount items e small h = h
  keep_item-IsSane universe seen false k amount items e small (sane, distinct) =
      let (new, all_sane) = unseen_keys universe seen k items sane in
      (((ground arith, ground arith, small), all_sane), (new, distinct))

  module _ (ord : IsOrdered F) (coerce : Coercion F) (universe : List String) where
    pub sanitize_items-IsSane :
        (items : List (RawItem F)) (seen : List String)
        → IsSane universe seen (sanitize_items coerce universe seen items)
    unfolding sanitize_items
    sanitize_items-IsSane [] seen = (tt, tt)
    sanitize_items-IsSane (item ∷ items) seen =
        let symbol = clean_symbol item.symbol in
        let dropped = is_dropped universe seen symbol in
        keep_item-IsSane universe seen dropped symbol _ _ refl
          (min_float-le ord (as_float coerce item.amount) max_item_amount).1
          (sanitize_items-IsSane items (add_seen dropped symbol seen))
