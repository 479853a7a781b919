-- ===== src/Bursty/Budgets/Reported.antt =====
-- src/algorithms/bursty_dca/config.py: which of the items of a plan are traded, and which symbols are
-- reported as unknown.
use robo_trade.Base.{
  String, ◌≡◌, refl, ap, ◌∙◌, Bool, true, false, ◌&&◌, ◌||◌, not, Option, none, some, List, [], ◌∷◌,
  ◌++◌, if◌then◌else◌, Bool-cases, inl, inr, arith, str_eq, eq_iff,
}
use robo_trade.Base.Dict.{lookup, mem_name, mem_name-append}
use robo_trade.Base.Float.{Float, IsOrdered, min_float}
use robo_trade.Bursty.Ledger.{Coercion, as_float}
use robo_trade.Bursty.Budgets.Sane.{IsSane, sanitize_items-IsSane}
use robo_trade.Bursty.Budgets.{
  RawItem, RawPlan, clean_symbol, max_item_amount, is_dropped, keep_item, add_seen, sanitize_items,
  sanitize_plan, unknown_items, unknown_plan_symbols,
}

-- A symbol that is none, or that is not in the universe.
abbrev pub is_outside : List String → String → Bool
is_outside universe k = str_eq k "" || not (mem_name k universe)

-- A symbol that is one, and not in the universe.
abbrev pub is_unknown : List String → String → Bool
is_unknown universe k = not (str_eq k "") && not (mem_name k universe)

nothing_seen :
    (universe : List String) (k : String) → is_dropped universe [] k ≡ is_outside universe k
nothing_seen universe k = ground arith

either_bucket :
    (unlisted bought sold : Bool)
    → ((false || (unlisted && bought)) || (unlisted && sold)) ≡ (unlisted && (bought || sold))
either_bucket unlisted bought sold = ground arith

-- Some item names the symbol.
abbrev pub is_named : {F : Type 0} → String → List (RawItem F) → Bool
is_named k [] = false
is_named k (item ∷ items) = str_eq (clean_symbol item.symbol) k || is_named k items

module _ {F : Type 0} ⦃f : Float F⦄ (coerce : Coercion F) (universe : List String)
    (k : String) where
  -- The amount of the first item that names the symbol, up to the limit.
  abbrev pub first_amount : List (RawItem F) → Option F
  first_amount [] = none
  first_amount (item ∷ items) =
      if str_eq (clean_symbol item.symbol) k
      then some (min_float (as_float coerce item.amount) max_item_amount)
      else first_amount items

  -- What a bucket trades of the symbol.
  abbrev pub traded : List (RawItem F) → Option F
  traded items = if is_outside universe k then none else first_amount items

  none_either : (b : Bool) → Path (Option F) none (if b then none else none)
  none_either true = refl
  none_either false = refl

  keep_item_found :
      (seen : List String) (dropped : Bool) (j : String) (amount : F) (items : List (String × F))
      (later : Option F)
      → is_dropped universe seen j ≡ dropped
      → lookup k items ≡ (if is_dropped universe (add_seen dropped j seen) k then none else later)
      → lookup k (keep_item dropped (j, amount) items)
        ≡ (if is_dropped universe seen k then none else if str_eq j k then some amount else later)
  keep_item_found seen true j amount items later e h = elim (Bool-cases (str_eq j k)) [
    | inr other ↦ rw other h
    | inl same ↦
        let here : is_dropped universe seen k ≡ true = rw (← (eq_iff j k).0 same) e in
        rw here (h ∙ ap (λ (b : Bool). if b then none else later) here)
  ]
  keep_item_found seen false j amount items later e h = elim (Bool-cases (str_eq j k)) [
    | inr other ↦
        let unseen : is_dropped universe (j ∷ seen) k ≡ is_dropped universe seen k =
          rw other refl in
        rw other (h ∙ ap (λ (b : Bool). if b then none else later) unseen)
    | inl same ↦
        let here : is_dropped universe seen k ≡ false = rw (← (eq_iff j k).0 same) e in
        rw (same, here) refl
  ]

  lookup-sanitize_items :
      (items : List (RawItem F)) (seen : List String)
      → lookup k (sanitize_items coerce universe seen items)
        ≡ (if is_dropped universe seen k then none else first_amount items)
  unfolding sanitize_items
  lookup-sanitize_items [] seen = none_either (is_dropped universe seen k)
  lookup-sanitize_items (item ∷ items) seen =
      let symbol = clean_symbol item.symbol in
      let dropped = is_dropped universe seen symbol in
      keep_item_found seen dropped symbol _ _ (first_amount items) refl
        (lookup-sanitize_items items (add_seen dropped symbol seen))

module _ (universe : List String) (k : String) where
  one_more :
      (j : String) (unknown : List String) (rest : Bool)
      → (mem_name k (
            if not (str_eq j "") && not (mem_name j universe) && not (mem_name j unknown)
            then unknown ++ (j ∷ [])
            else unknown)
          || (is_unknown universe k && rest))
        ≡ (mem_name k unknown || (is_unknown universe k && (str_eq j k || rest)))
  one_more j unknown rest = elim (Bool-cases (str_eq j k)) [
    | inl same ↦ rw ((eq_iff j k).0 same) (ground (arith, eq_iff k k, mem_name-append k k unknown))
    | inr other ↦ ground (arith, other, mem_name-append k j unknown)
  ]

  mem_name-unknown_items :
      {F : Type 0} (items : List (RawItem F)) (unknown : List String)
      → mem_name k (unknown_items universe items unknown)
        ≡ (mem_name k unknown || (is_unknown universe k && is_named k items))
  unfolding unknown_items
  mem_name-unknown_items [] unknown = ground arith
  mem_name-unknown_items (item ∷ items) unknown =
      mem_name-unknown_items items _
      ∙ one_more (clean_symbol item.symbol) unknown (is_named k items)

module _ {F : Type 0} ⦃f : Float F⦄ where
  -- Each bucket of a sanitized plan holds only symbols of the universe, none twice, and no amount above
  -- the limit. Of any symbol it trades the amount of the first item of the bucket that names it, up to the
  -- limit, where the symbol is in the universe, and else nothing: a further item of the symbol is dropped.
  -- The symbols that are reported as unknown are exactly those that an item of either bucket names and the
  -- universe does not hold.
  pub sanitize_plan_lem :
      (ord : IsOrdered F) (coerce : Coercion F) (plan : RawPlan F) (universe : List String)
      (k : String)
      → let sane = sanitize_plan coerce plan universe in
        IsSane universe [] sane.buy.items
        × IsSane universe [] sane.sell.items
        × (lookup k sane.buy.items ≡ traded coerce universe k plan.buy)
        × (lookup k sane.sell.items ≡ traded coerce universe k plan.sell)
        × (mem_name k (unknown_plan_symbols plan universe)
            ≡ (is_unknown universe k && (is_named k plan.buy || is_named k plan.sell)))
  unfolding sanitize_plan unknown_plan_symbols
  sanitize_plan_lem ord coerce plan universe k = (
    sanitize_items-IsSane ord coerce universe plan.buy [],
    sanitize_items-IsSane ord coerce universe plan.sell [],
    lookup-sanitize_items coerce universe k plan.buy []
        ∙ ap (λ (b : Bool). if b then none else first_amount coerce universe k plan.buy)
            (nothing_seen universe k),
    lookup-sanitize_items coerce universe k plan.sell []
        ∙ ap (λ (b : Bool). if b then none else first_amount coerce universe k plan.sell)
            (nothing_seen universe k),
    mem_name-unknown_items universe k plan.sell _
        ∙ (ap (λ (b : Bool). b || (is_unknown universe k && is_named k plan.sell))
              (mem_name-unknown_items universe k plan.buy [])
            ∙ either_bucket (is_unknown universe k) (is_named k plan.buy) (is_named k plan.sell)),
  )
