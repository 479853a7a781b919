-- ===== src/Base/Sort.antt =====
-- Python's stable `sorted`, by the test that one item may stand before another.
use Prim.Native.Nat.{Ordering}
use Prim.Native.String.{String, compare}
use mathlib.Core.Logic.{inl, inr}
use mathlib.Core.Bool.{Bool, true, false}
use mathlib.Core.List.{List, [], ◌∷◌, Perm}
use mathlib.Core.List.Perm
use robo_trade.Base.Tests.{if◌then◌else◌, Bool-cases, str_eq}
use robo_trade.Base.Lists.{All}

-- `a <= b` on texts.
abbrev pub str_leb : String → String → Bool
str_leb a b = elim (compare a b) [ Ordering.gt ↦ false | _ ↦ true ]

-- The names of a set in rising order, with one more.
unfoldable pub add_name : String → List String → List String
add_name k [] = k ∷ []
add_name k (j ∷ js) =
    let rest = add_name k js in
    if str_eq k j then j ∷ js else if str_leb k j then k ∷ j ∷ js else j ∷ rest

-- `sorted(set(names) | set(js))`.
unfoldable pub add_names : List String → List String → List String
unfolding add_name
add_names [] js = js
add_names (k ∷ ks) js = add_name k (add_names ks js)

module _ {ℓ} {A : Type ℓ} (before : A → A → Bool) where
  -- `x` goes in front of the first item that it may stand before.
  unfoldable pub place : A → List A → List A
  place x [] = x ∷ []
  place x (y ∷ ys) = let rest = place x ys in if before x y then x ∷ y ∷ ys else y ∷ rest

  unfoldable pub sort_by : List A → List A
  unfolding place
  sort_by [] = []
  sort_by (x ∷ xs) = place x (sort_by xs)

  place-All {κ} : (P : A → Type κ) (x : A) (xs : List A) → P x → All P xs → All P (place x xs)
  unfolding place
  place-All P x [] p ps = (p, tt)
  place-All P x (y ∷ ys) p ps = elim (Bool-cases (before x y)) [
    | inl first ↦ rw first (p, ps)
    | inr later ↦ rw later (ps.0, place-All P x ys p ps.1)
  ]

  pub sort_by-All {κ} : (P : A → Type κ) (xs : List A) → All P xs → All P (sort_by xs)
  unfolding sort_by
  sort_by-All P [] h = tt
  sort_by-All P (x ∷ xs) h = place-All P x (sort_by xs) h.0 (sort_by-All P xs h.1)

  place-perm : (x : A) (xs : List A) → Perm (place x xs) (x ∷ xs)
  unfolding place
  place-perm x [] = Perm.refl (x ∷ [])
  place-perm x (y ∷ ys) = elim (Bool-cases (before x y)) [
    | inl first ↦ rw first (Perm.refl (x ∷ y ∷ ys))
    | inr later ↦ rw later (Perm.trans (Perm.cons y (place-perm x ys)) (Perm.swap x y ys))
  ]

  pub sort_by-perm : (xs : List A) → Perm (sort_by xs) xs
  unfolding sort_by
  sort_by-perm [] = Perm.refl []
  sort_by-perm (x ∷ xs) = Perm.trans (place-perm x (sort_by xs)) (Perm.cons x (sort_by-perm xs))
