-- ===== src/Pipeline/Guards.antt =====
-- What `place_orders` refuses before anything is sent.
use robo_trade.Base.{
  String, ◌≡◌, refl, Bool, true, List, [], ◌∷◌, ◌++◌, filter, err, ok, arith, eq_iff, str_eq,
  if◌then◌else◌, Bool-cases, inl, inr,
}
use robo_trade.Base.Dict.{Dict, mem_name}
use robo_trade.Base.Float.{Float, le, zero_float}
use robo_trade.Base.Sort.{add_name, add_names}
use robo_trade.Orders.Targets.{Intent, Mode, price_of}
use robo_trade.Pipeline.Account.{Brokerage, Sizing, PortfolioSnapshot, no_price, read_snapshot}
use robo_trade.Pipeline.{
  needs_price, lacks_price, intent_symbols, unpriced, place_if_priced, place_orders,
}

mem_name-add_name :
    (j k : String) (js : List String)
    → mem_name j (add_name k js) ≡ (if str_eq k j then true else mem_name j js)
unfolding add_name
mem_name-add_name j k [] = refl
mem_name-add_name j k (i ∷ js) =
    ground (arith, mem_name-add_name j k js, eq_iff k i, eq_iff k j, eq_iff i j)

mem_name-add_names :
    (j : String) (ks : List String) → mem_name j ks ≡ true → mem_name j (add_names ks []) ≡ true
unfolding add_names
mem_name-add_names j [] h = h
mem_name-add_names j (k ∷ ks) h =
    ground (arith, mem_name-add_names j ks, mem_name-add_name j k (add_names ks []))

module _ {F : Type 0} ⦃f : Float F⦄ where
  mem_name-intent_symbols :
      (p : Intent F → Bool) (before after : List (Intent F)) (i : Intent F)
      → p i ≡ true
      → mem_name i.symbol (intent_symbols (filter p (before ++ (i ∷ after)))) ≡ true
  mem_name-intent_symbols p [] after i h = rw h (ground (arith, eq_iff i.symbol i.symbol))
  mem_name-intent_symbols p (j ∷ before) after i h =
      let rest = mem_name-intent_symbols p before after i h in
      elim (Bool-cases (p j)) [
        | inl kept ↦ rw kept (ground (arith, rest))
        | inr dropped ↦ rw dropped rest
      ]

  unpriced_named :
      (prices : Dict F) (before after : List (Intent F)) (i : Intent F)
      → lacks_price prices i ≡ true
      → mem_name i.symbol (unpriced prices (before ++ (i ∷ after))) ≡ true
  unfolding unpriced
  unpriced_named prices before after i h =
      mem_name-add_names i.symbol _ (mem_name-intent_symbols (lacks_price prices) before after i h)

module _ {F S : Type 0} ⦃f : Float F⦄ where
  raises_named :
      (config : Sizing F) (b : Brokerage F S) (prices : Dict F) (mode : Mode)
      (intents : List (Intent F)) (snapshot : PortfolioSnapshot F) (k : String)
      (names : List String) (s : S)
      → mem_name k names ≡ true
      → place_if_priced config b prices mode intents snapshot names s ≡ (err (no_price names), s)
  raises_named config b prices mode intents snapshot k [] s h = cc
  raises_named config b prices mode intents snapshot k (n ∷ names) s h = refl

  -- An intent that has to be sized and has no price above zero stops the whole batch: the call raises
  -- with a list of names that the symbol is in, and the brokerage is left as the reading of the account
  -- left it, so that nothing was submitted, of the other intents neither.
  pub place_orders_unpriced :
      (config : Sizing F) (b : Brokerage F S) (prices : Dict F) (mode : Mode)
      (before after : List (Intent F)) (i : Intent F) (snapshot : PortfolioSnapshot F) (s s' : S)
      → read_snapshot config b s ≡ (ok snapshot, s')
      → needs_price i.kind ≡ true
      → le (price_of prices i.symbol) zero_float ≡ true
      → (names : List String) × (mem_name i.symbol names ≡ true)
        × (place_orders config b prices mode (before ++ (i ∷ after)) s ≡ (err (no_price names), s'))
  unfolding place_orders
  place_orders_unpriced config b prices mode before after i snapshot s s' read kind price =
      let named = unpriced_named prices before after i (rw (kind, price) refl) in
      (
        unpriced prices (before ++ (i ∷ after)),
        named,
        rw read (raises_named config b prices mode _ snapshot i.symbol _ s' named),
      )
