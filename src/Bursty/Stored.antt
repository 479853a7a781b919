-- ===== src/Bursty/Stored.antt =====
-- The memory, written to the state store and read back.
use robo_trade.Base.{
  String, ◌≡◌, refl, sym, ap, ◌∙◌, true, false, [], ◌∷◌, ◌++◌, All, if◌then◌else◌, arith, str_eq,
  eq_iff,
}
use robo_trade.Base.Dict.{Dict, insert, keys, mem_name, IsDistinct}
use robo_trade.Base.Float.{Float}
use robo_trade.Text.{upper}
use robo_trade.Bursty.{SymbolState}
use robo_trade.Bursty.Ledger.{
  Coercion, StoredEntry, from_dict, as_dict, accrual_from, accrual_from_state, accrual_to_state,
}

module _ {ℓ} {V : Type ℓ} where
  insert_new :
      (k : String) (v : V) (d : Dict V)
      → mem_name k (keys d) ≡ false
      → insert k v d ≡ d ++ ((k, v) ∷ [])
  insert_new k v [] h = refl
  insert_new k v ((j, w) ∷ d) h =
      let other : str_eq j k ≡ false = ground arith in
      rw (other, insert_new k v d (ground arith)) refl

  -- No key of the one is a key of the other.
  abbrev Apart : Dict V → Dict V → Type 0
  Apart acc [] = Unit
  Apart acc ((k, v) ∷ d) = (mem_name k (keys acc) ≡ false) × Apart acc d

  mem_name-keys-append :
      (j k : String) (v : V) (acc : Dict V)
      → mem_name j (keys (acc ++ ((k, v) ∷ [])))
        ≡ (if mem_name j (keys acc) then true else str_eq k j)
  mem_name-keys-append j k v [] = ground arith
  mem_name-keys-append j k v ((i, w) ∷ acc) = ground (arith, mem_name-keys-append j k v acc)

  Apart-append :
      (k : String) (v : V) (acc d : Dict V)
      → Apart acc d
      → mem_name k (keys d) ≡ false
      → Apart (acc ++ ((k, v) ∷ [])) d
  Apart-append k v acc [] h new = tt
  Apart-append k v acc ((j, w) ∷ d) (h, hs) new = (
    ground (arith, mem_name-keys-append j k v acc, eq_iff k j, eq_iff j k),
    Apart-append k v acc d hs (ground arith),
  )

  Apart-nil : (d : Dict V) → Apart [] d
  Apart-nil [] = tt
  Apart-nil ((k, v) ∷ d) = (refl, Apart-nil d)

  append_nil : (acc : Dict V) → acc ≡ acc ++ []
  append_nil [] = refl
  append_nil (e ∷ acc) = ap (λ rest. e ∷ rest) (append_nil acc)

  append_step :
      (acc : Dict V) (k : String) (v : V) (d : Dict V)
      → (acc ++ ((k, v) ∷ [])) ++ d ≡ acc ++ ((k, v) ∷ d)
  append_step [] k v d = refl
  append_step (e ∷ acc) k v d = ap (λ rest. e ∷ rest) (append_step acc k v d)

module _ {F : Type 0} ⦃f : Float F⦄ (coerce : Coercion F) where
  -- Both numbers rounded to six places.
  abbrev pub rounded : SymbolState F → SymbolState F
  rounded state = record state {
    accrued = f.round_micro state.accrued;
    deployed_this_month = f.round_micro state.deployed_this_month;
  }

  abbrev pub rounded_all : Dict (SymbolState F) → Dict (SymbolState F)
  rounded_all [] = []
  rounded_all ((k, state) ∷ accrual) = (k, rounded state) ∷ rounded_all accrual

  -- A symbol in capitals, with a state whose numbers are finite.
  abbrev pub IsStorable : String × SymbolState F → Type 0
  IsStorable (k, state) =
      (upper k ≡ k)
      × (coerce.is_finite (f.round_micro state.accrued) ≡ true)
      × (coerce.is_finite (f.round_micro state.deployed_this_month) ≡ true)

  from_dict-as_dict :
      (k : String) (state : SymbolState F)
      → IsStorable (k, state)
      → from_dict coerce (as_dict state) ≡ rounded state
  from_dict-as_dict k state (name, finite_accrued, finite_deployed) =
      rw (finite_accrued, finite_deployed) refl

  mem_name-rounded_all :
      (k : String) (d : Dict (SymbolState F))
      → mem_name k (keys d) ≡ mem_name k (keys (rounded_all d))
  mem_name-rounded_all k [] = refl
  mem_name-rounded_all k ((j, state) ∷ d) = ground (arith, mem_name-rounded_all k d)

  accrual_from_step :
      (k : String) (entry : StoredEntry F) (state : SymbolState F) (rest : Dict (StoredEntry F))
      (acc acc' : Dict (SymbolState F))
      → upper k ≡ k
      → from_dict coerce entry ≡ state
      → insert k state acc ≡ acc'
      → accrual_from coerce ((k, entry) ∷ rest) acc ≡ accrual_from coerce rest acc'
  unfolding accrual_from
  accrual_from_step k entry state rest acc acc' name read put =
      ap (accrual_from coerce rest)
        (ap (λ j. insert j (from_dict coerce entry) acc) name ∙ ap (λ s. insert k s acc) read ∙ put)

  accrual_from-accrual_to_state :
      (d acc : Dict (SymbolState F))
      → IsDistinct d
      → All IsStorable d
      → Apart acc (rounded_all d)
      → accrual_from coerce (accrual_to_state d) acc ≡ acc ++ rounded_all d
  unfolding accrual_from
  accrual_from-accrual_to_state [] acc distinct storable apart = append_nil acc
  accrual_from-accrual_to_state ((k, state) ∷ d) acc (new, distinct) (storable, rest)
        (apart, aparts) =
      accrual_from_step k (as_dict state) (rounded state) (accrual_to_state d) acc
        (acc ++ ((k, rounded state) ∷ [])) storable.0 (from_dict-as_dict k state storable)
        (insert_new k (rounded state) acc apart)
      ∙ (accrual_from-accrual_to_state d (acc ++ ((k, rounded state) ∷ [])) distinct rest (
            Apart-append k (rounded state) acc (rounded_all d) aparts
              (sym (mem_name-rounded_all k d) ∙ new))
          ∙ append_step acc k (rounded state) (rounded_all d))

  -- A memory that is written and read back is the same, with its numbers rounded to six places: its
  -- symbols are in capitals, none stands twice, and the numbers are finite.
  pub accrual_from_state-accrual_to_state :
      (accrual : Dict (SymbolState F))
      → IsDistinct accrual
      → All IsStorable accrual
      → accrual_from_state coerce (accrual_to_state accrual) ≡ rounded_all accrual
  accrual_from_state-accrual_to_state accrual distinct storable =
      accrual_from-accrual_to_state accrual [] distinct storable (Apart-nil (rounded_all accrual))
