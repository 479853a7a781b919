-- ===== src/Cron/Ranges.antt =====
-- Which values an entry such as `8-16/2` of a field stands for.
use native.Mathlib.Nat.{mod-eq-sub-mod, mod-eq_of_lt}
use native.Mathlib.Decide.{dec_lt}
use robo_trade.Base.{
  ap, ℕ, zero, suc, ◌+◌, ◌-◌, ◌%◌, ◌≤◌, ◌<◌, ◌≡◌, refl, ◌↔◌, true, List, [], ◌∷◌, arith, inl, inr,
  contains, ◌||◌, ◌==◌, Bool-cases, ==_iff, ◌∙◌, sym,
}
use robo_trade.Cron.{range_from, every_nth, add_value, add_values}

-- `v` is one of `start + skip`, `start + skip + step`, ... below `start + count`.
abbrev pub IsStep : ℕ → ℕ → ℕ → ℕ → ℕ → Type 0
IsStep step start count skip v =
    (start + skip ≤ v) × (v < start + count) × ((v - (start + skip)) % step ≡ 0)

step_back : (step x : ℕ) → 0 < step → x % step ≡ 0 → 0 < x → (step ≤ x) × ((x - step) % step ≡ 0)
step_back step x h e p = elim (dec_lt x step) [
  | yes below ↦ absurd (omega (arith, mod-eq_of_lt below))
  | no above ↦ let m : step ≤ x = omega arith in (m, sym (mod-eq-sub-mod m) ∙ e)
]

step_on : (step x : ℕ) → 0 < step → step ≤ x → (x - step) % step ≡ 0 → x % step ≡ 0
step_on step x h a e = mod-eq-sub-mod a ∙ e

same_mod : (step x y : ℕ) → x ≡ y → x % step ≡ y % step
same_mod step x y = ap (λ (k : ℕ). k % step)

every_nth_sound :
    (step skip start count v : ℕ)
    → 0 < step
    → contains v (every_nth step skip (range_from start count)) ≡ true
    → IsStep step start count skip v
unfolding every_nth range_from
every_nth_sound step zero start zero v p h = cc
every_nth_sound step (suc skip) start zero v p h = cc
every_nth_sound step zero start (suc count) v p h = elim (Bool-cases (v == start)) [
  | inl same ↦
      let e : v ≡ start = (==_iff v start).0 same in
      (omega arith, omega arith, same_mod step (v - (start + 0)) 0 (omega arith) ∙ mod-eq_of_lt p)
  | inr other ↦
      let (low, high, m) = every_nth_sound step (step - 1) (start + 1) count v p (rw other at h) in
      (
        omega arith,
        omega arith,
        step_on step (v - (start + 0)) p (omega arith) (same_mod step _ _ (omega arith) ∙ m),
      )
]
every_nth_sound step (suc skip) start (suc count) v p h =
    let (low, high, m) = every_nth_sound step skip (start + 1) count v p h in
    (omega arith, omega arith, same_mod step _ _ (omega arith) ∙ m)

every_nth_complete :
    (step skip start count v : ℕ)
    → 0 < step
    → IsStep step start count skip v
    → contains v (every_nth step skip (range_from start count)) ≡ true
unfolding every_nth range_from
every_nth_complete step zero start zero v p h = absurd (omega arith)
every_nth_complete step (suc skip) start zero v p h = absurd (omega arith)
every_nth_complete step zero start (suc count) v p (low, high, m) = elim (Bool-cases (v == start)) [
  | inl same ↦ rw same
  | inr other ↦
      let (far, m') = step_back step (v - (start + 0)) p m (ground arith) in
      rw other (
        every_nth_complete step (step - 1) (start + 1) count v p
          (omega arith, omega arith, same_mod step _ _ (omega arith) ∙ m'))
]
every_nth_complete step (suc skip) start (suc count) v p (low, high, m) =
    every_nth_complete step skip (start + 1) count v p
      (omega arith, omega arith, same_mod step _ _ (omega arith) ∙ m)

-- The entry `start-end/step`, for `end = start + count - 1`, holds exactly the values from `start`
-- to `end` in steps of `step`.
pub contains-every_nth_iff :
    (step start count v : ℕ)
    → 0 < step
    → (contains v (every_nth step 0 (range_from start count)) ≡ true)
      ↔ ((start ≤ v) × (v < start + count) × ((v - start) % step ≡ 0))
contains-every_nth_iff step start count v p = (
  λ h.
      let (low, high, m) = every_nth_sound step 0 start count v p h in
      (omega arith, high, same_mod step _ _ (omega arith) ∙ m),
  λ h.
      every_nth_complete step 0 start count v p
        (omega arith, h.1, same_mod step _ _ (omega arith) ∙ h.2),
)

contains-add_value :
    (v x : ℕ) (xs : List ℕ) → contains v (add_value x xs) ≡ (v == x || contains v xs)
unfolding add_value
contains-add_value v x [] = refl
contains-add_value v x (y ∷ ys) = ground (arith, contains-add_value v x ys)

-- A value is in the set after an update exactly when it was in it or is one of the new values.
pub contains-add_values :
    (v : ℕ) (allowed xs : List ℕ)
    → contains v (add_values allowed xs) ≡ (contains v allowed || contains v xs)
unfolding add_values
contains-add_values v allowed [] = ground arith
contains-add_values v allowed (x ∷ xs) =
    ground (arith, contains-add_values v (add_value x allowed) xs, contains-add_value v x allowed)
