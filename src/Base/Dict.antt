-- ===== src/Base/Dict.antt =====
-- Python's `dict` with text keys, as a list of entries in insertion order.
use Prim.Native.String.{String}
use mathlib.Core.Path.{◌≡◌, refl}
use mathlib.Core.Bool.{Bool, true, false}
use mathlib.Core.Option.{Option, none, some}
use mathlib.Core.List.{List, [], ◌∷◌, ◌++◌}
use native.Mathlib.Omega.{arith}
use text.Mathlib.TextEquality.{eq_iff}
use robo_trade.Base.Tests.{str_eq, if◌then◌else◌, is_some}

abbrev pub Dict {ℓ} : Type ℓ → Type ℓ
Dict V = List (String × V)

module _ {ℓ} {V : Type ℓ} where
  -- `d.get(k)`.
  abbrev pub lookup : String → Dict V → Option V
  lookup k [] = none
  lookup k ((j, v) ∷ d) = if str_eq j k then some v else lookup k d

  -- `k in d`.
  abbrev pub has_key : String → Dict V → Bool
  has_key k d = is_some (lookup k d)

  -- `d[k] = v`, in the place of an old entry or at the end.
  abbrev pub insert : String → V → Dict V → Dict V
  insert k v [] = (k, v) ∷ []
  insert k v ((j, w) ∷ d) = if str_eq j k then (j, v) ∷ d else (j, w) ∷ insert k v d

  -- `d.pop(k, None)`.
  abbrev pub erase : String → Dict V → Dict V
  erase k [] = []
  erase k ((j, w) ∷ d) = let rest = erase k d in if str_eq j k then rest else (j, w) ∷ rest

  abbrev pub keys : Dict V → List String
  keys [] = []
  keys ((j, w) ∷ d) = j ∷ keys d

  pub lookup-insert :
      (k j : String) (v : V) (d : Dict V)
      → lookup j (insert k v d) ≡ (if str_eq k j then some v else lookup j d)
  lookup-insert k j v [] = refl
  lookup-insert k j v ((i, w) ∷ d) =
      ground (arith, eq_iff k j, eq_iff i k, eq_iff i j, lookup-insert k j v d)

  pub lookup-erase :
      (k j : String) (d : Dict V) → lookup j (erase k d) ≡ (if str_eq k j then none else lookup j d)
  lookup-erase k j [] = ground arith
  lookup-erase k j ((i, w) ∷ d) =
      ground (arith, eq_iff k j, eq_iff i k, eq_iff i j, lookup-erase k j d)

-- `k in names`.
abbrev pub mem_name : String → List String → Bool
mem_name k [] = false
mem_name k (j ∷ js) = if str_eq j k then true else mem_name k js

pub mem_name-append :
    (k j : String) (ks : List String)
    → mem_name k (ks ++ (j ∷ [])) ≡ (if mem_name k ks then true else str_eq j k)
mem_name-append k j [] = ground arith
mem_name-append k j (i ∷ ks) = ground (arith, mem_name-append k j ks)

module _ {ℓ} {V : Type ℓ} where
  pub mem_name-keys : (k : String) (d : Dict V) → mem_name k (keys d) ≡ has_key k d
  mem_name-keys k [] = refl
  mem_name-keys k ((j, v) ∷ d) = ground (arith, mem_name-keys k d)

  -- No key stands twice, as in every `dict`.
  abbrev pub IsDistinct : Dict V → Type 0
  IsDistinct [] = Unit
  IsDistinct ((k, v) ∷ d) = (mem_name k (keys d) ≡ false) × IsDistinct d

  pub mem_name-keys-insert :
      (j k : String) (v : V) (d : Dict V)
      → mem_name j (keys (insert k v d)) ≡ (if str_eq k j then true else mem_name j (keys d))
  mem_name-keys-insert j k v [] = refl
  mem_name-keys-insert j k v ((i, w) ∷ d) =
      ground (arith, mem_name-keys-insert j k v d, eq_iff k j, eq_iff i k, eq_iff i j)

  pub insert-IsDistinct :
      (k : String) (v : V) (d : Dict V) → IsDistinct d → IsDistinct (insert k v d)
  insert-IsDistinct k v [] h = (refl, tt)
  insert-IsDistinct k v ((i, w) ∷ d) h =
      ground
        (arith, insert-IsDistinct k v d h.1, mem_name-keys-insert i k v d, eq_iff i k, eq_iff k i)
