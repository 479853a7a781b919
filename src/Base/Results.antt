-- ===== src/Base/Results.antt =====
-- A call that returns a value or raises, and its `do` blocks.
use mathlib.Core.Path.{◌≡◌, refl}
use mathlib.Core.Bool.{Bool, true, false}

pub data Result {ℓ κ} (Exception : Type ℓ) (Value : Type κ) : Type (ℓ ⊔ κ) where
  ok : Value → Result Exception Value
  err : Exception → Result Exception Value

module _ {ℓ κ μ} {Exception : Type ℓ} {Value : Type κ} {Next : Type μ} where
  infixl 5 ◌>>=◌
  abbrev pub ◌>>=◌ :
      Result Exception Value → (Value → Result Exception Next) → Result Exception Next
  result >>= next = elim result [ ok value ↦ next value | err raised ↦ err raised ]

  -- A block that returns has returned from its first call.
  pub >>=-eq-ok :
      (result : Result Exception Value) (next : Value → Result Exception Next) {returned : Next}
      → (result >>= next) ≡ ok returned
      → (value : Value) × (result ≡ ok value) × (next value ≡ ok returned)
  >>=-eq-ok (ok value) next h = (value, refl, h)
  >>=-eq-ok (err raised) next h = cc

module _ {ℓ μ} {Exception : Type ℓ} {Next : Type μ} where
  infixl 5 ◌>>◌
  abbrev pub ◌>>◌ : Result Exception (Unit {0}) → Result Exception Next → Result Exception Next
  check >> next = check >>= λ passed. next

-- `if test: raise exception`.
abbrev pub raise_if {ℓ} : {Exception : Type ℓ} → Bool → Exception → Result Exception (Unit {0})
raise_if test exception = elim test [ true ↦ err exception | false ↦ ok tt ]
