-- ===== src/Orders/Targets.antt =====
-- `resolve_target_shares`: intents into absolute share counts.
use robo_trade.Base.{
  String, ◌≡◌, ◌∙◌, refl, Bool, true, false, ◌&&◌, ◌||◌, Option, none, some, List, [], ◌∷◌, arith,
  Result, ok, err, if◌then◌else◌, get_or_else, str_eq,
}
use robo_trade.Base.Dict.{Dict, lookup, insert, has_key, lookup-insert}
use robo_trade.Base.Float.{Float, ◌⊕◌, ◌⊗◌, ◌⊘◌, le, zero_float}
use robo_trade.Orders.{round_shares}

-- `INTENT_KINDS`.
pub data IntentKind : Type 0 where
  weight notional shares : IntentKind

pub record Intent (F : Type 0) : Type 0 where
  pub symbol : String
  pub kind : IntentKind
  pub value : F

-- `MODE_TARGET`, `MODE_INCREMENTAL`, and any other text.
pub data Mode : Type 0 where
  target incremental : Mode
  unknown : String → Mode

pub data ModeError : Type 0 where
  unknown_mode : String → ModeError

module _ {F : Type 0} ⦃f : Float F⦄ where
  abbrev pub price_of : Dict F → String → F
  price_of prices symbol = get_or_else (lookup symbol prices) zero_float

  -- The raw share count of an intent; `none` is one with no usable price, which is skipped.
  abbrev raw_shares : F → F → Intent F → Option F
  raw_shares equity price i = elim i.kind [
    | shares ↦ some i.value
    | weight ↦ if le price zero_float then none else some ((equity ⊗ i.value) ⊘ price)
    | notional ↦ if le price zero_float then none else some (i.value ⊘ price)
  ]

  -- The rounded share count of an intent.
  pub intent_shares : Dict F → F → Bool → Intent F → Option F
  unfolding round_shares
  intent_shares prices equity fractional i = elim (raw_shares equity (price_of prices i.symbol) i) [
    | none ↦ none
    | some raw ↦ some (round_shares raw (fractional && le zero_float raw))
  ]

  -- All held symbols at zero.
  abbrev pub zero_targets : Dict F → Dict F
  zero_targets [] = []
  zero_targets ((k, v) ∷ d) = (k, zero_float) ∷ zero_targets d

  module _ (positions prices : Dict F) (equity : F) (fractional : Bool) where
    -- The entry that an intent writes: its own count, or in `incremental` mode on top of what is held.
    abbrev written : Bool → Intent F → F → F
    written on_top i count =
        if on_top then get_or_else (lookup i.symbol positions) zero_float ⊕ count else count

    -- One turn of the loop.
    pub apply_intent : Bool → Intent F → Dict F → Dict F
    unfolding intent_shares
    apply_intent on_top i targets = elim (intent_shares prices equity fractional i) [
      | none ↦ targets
      | some count ↦ insert i.symbol (written on_top i count) targets
    ]

    pub apply_intents : Bool → List (Intent F) → Dict F → Dict F
    unfolding apply_intent
    apply_intents on_top [] targets = targets
    apply_intents on_top (i ∷ is) targets = apply_intents on_top is (apply_intent on_top i targets)

    -- `resolve_target_shares`.
    unfoldable pub resolve_target_shares : List (Intent F) → Mode → Result ModeError (Dict F)
    unfolding apply_intents
    resolve_target_shares intents target = ok (apply_intents false intents (zero_targets positions))
    resolve_target_shares intents incremental = ok (apply_intents true intents [])
    resolve_target_shares intents (unknown mode) = err (unknown_mode mode)

    -- An intent lists the symbol and has a usable price or a share count.
    abbrev pub names_symbol : String → List (Intent F) → Bool
    names_symbol k [] = false
    names_symbol k (i ∷ is) = str_eq i.symbol k || names_symbol k is

    lookup-apply_intent_other :
        (on_top : Bool) (i : Intent F) (targets : Dict F) (k : String)
        → str_eq i.symbol k ≡ false
        → lookup k (apply_intent on_top i targets) ≡ lookup k targets
    unfolding apply_intent
    lookup-apply_intent_other on_top i targets k ne =
        other (intent_shares prices equity fractional i)
      where
        other :
            (count : Option F)
            → lookup k (elim count [
              | none ↦ targets
              | some c ↦ insert i.symbol (written on_top i c) targets
            ])
              ≡ lookup k targets
        other none = refl
        other (some c) = rw lookup-insert (rw ne)

    lookup-apply_intents_other :
        (on_top : Bool) (is : List (Intent F)) (targets : Dict F) (k : String)
        → names_symbol k is ≡ false
        → lookup k (apply_intents on_top is targets) ≡ lookup k targets
    unfolding apply_intents
    lookup-apply_intents_other on_top [] targets k ne = refl
    lookup-apply_intents_other on_top (i ∷ is) targets k ne =
        lookup-apply_intents_other on_top is (apply_intent on_top i targets) k (ground arith)
        ∙ lookup-apply_intent_other on_top i targets k (ground arith)

    lookup-zero_targets :
        (d : Dict F) (k : String)
        → lookup k (zero_targets d) ≡ (if has_key k d then some zero_float else none)
    lookup-zero_targets [] k = refl
    lookup-zero_targets ((j, v) ∷ d) k = ground (arith, lookup-zero_targets d k)

    -- What no intent lists: in `target` mode a held symbol is targeted at zero and no other appears; in
    -- `incremental` mode it does not appear at all, so that it is left alone. Any other mode is refused.
    pub resolve_target_shares_unlisted :
        (intents : List (Intent F)) (k mode : String)
        → names_symbol k intents ≡ false
        → ((t : Dict F) × (resolve_target_shares intents target ≡ ok t)
            × (lookup k t ≡ (if has_key k positions then some zero_float else none)))
          × ((t : Dict F) × (resolve_target_shares intents incremental ≡ ok t)
              × (lookup k t ≡ none))
          × (resolve_target_shares intents (unknown mode) ≡ err (unknown_mode mode))
    unfolding resolve_target_shares
    resolve_target_shares_unlisted intents k mode ne = (
      (
        apply_intents false intents (zero_targets positions),
        refl,
        lookup-apply_intents_other false intents (zero_targets positions) k ne
            ∙ lookup-zero_targets positions k,
      ),
      (apply_intents true intents [], refl, lookup-apply_intents_other true intents [] k ne),
      refl,
    )
