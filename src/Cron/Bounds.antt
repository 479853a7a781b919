-- ===== src/Cron/Bounds.antt =====
-- Every value of a parsed expression lies in the range of its field.
use robo_trade.Base.{
  ℕ, zero, suc, ◌+◌, ◌-◌, ◌≤◌, ◌≡◌, refl, ◌==◌, true, Option, none, some, List, [], ◌∷◌, arith, All,
  All-imp, ok, err, ◌>>=◌, ltb, Option-cases, Bool-cases, inl, inr,
}
use mathlib.Core.Path.{subst}
use robo_trade.Text.{Text, split_on, is_empty, strip, parse_int}
use robo_trade.Cron.{
  FieldSpec, CronSpec, is_day_of_week, bounded, range_from, read_bound, read_range, read_bounds,
  expand_range, every_nth, add_value, add_values, match_step, step_of, take_step, parse_item,
  parse_items, parse_field, minute_field, hour_field, day_of_month_field, month_field,
  day_of_week_field, normalized, parse_parts, parse_cron, Parsed,
}

-- A value that a call returns, if it returns one, satisfies `P`.
abbrev Returns : {A : Type 0} → (A → Type 0) → Parsed A → Type 0
Returns P (ok a) = P a
Returns P (err e) = Unit

Returns-bind :
    {A B : Type 0} (P : A → Type 0) (Q : B → Type 0) (m : Parsed A) (f : A → Parsed B)
    → Returns P m
    → ((a : A) → P a → Returns Q (f a))
    → Returns Q (m >>= f)
Returns-bind P Q (ok a) f h k = k a h
Returns-bind P Q (err e) f h k = tt

abbrev pub InRange : FieldSpec → ℕ → Type 0
InRange f v = (f.low ≤ v) × (v ≤ f.high)

-- Sunday, which `7` stands for too, is in the range of the day of the week.
abbrev pub HasSunday : FieldSpec → Type 0
HasSunday f = is_day_of_week f.name ≡ true → f.low ≡ 0

module _ (f : FieldSpec) where
  range_from-InRange :
      (start count : ℕ)
      → f.low ≤ start
      → start + count ≤ f.high + 1
      → All (InRange f) (range_from start count)
  unfolding range_from
  range_from-InRange start zero a b = tt
  range_from-InRange start (suc count) a b =
      ((a, omega arith), range_from-InRange (start + 1) count (omega arith) (omega arith))

  every_nth-InRange :
      (step skip : ℕ) (xs : List ℕ) → All (InRange f) xs → All (InRange f) (every_nth step skip xs)
  unfolding every_nth
  every_nth-InRange step skip [] h = tt
  every_nth-InRange step zero (x ∷ xs) h = (h.0, every_nth-InRange step (step - 1) xs h.1)
  every_nth-InRange step (suc skip) (x ∷ xs) h = every_nth-InRange step skip xs h.1

  add_value-InRange :
      (x : ℕ) (xs : List ℕ) → InRange f x → All (InRange f) xs → All (InRange f) (add_value x xs)
  unfolding add_value
  add_value-InRange x [] p h = (p, tt)
  add_value-InRange x (y ∷ ys) p h = ground (arith, add_value-InRange x ys p h.1)

  add_values-InRange :
      (allowed xs : List ℕ)
      → All (InRange f) allowed
      → All (InRange f) xs
      → All (InRange f) (add_values allowed xs)
  unfolding add_values
  add_values-InRange allowed [] h q = h
  add_values-InRange allowed (x ∷ xs) h q =
      add_values-InRange (add_value x allowed) xs (add_value-InRange x allowed q.0 h) q.1

  module _ (sunday : HasSunday f) where
    bounded-InRange : (v : ℕ) → f.low ≤ f.high → Returns (InRange f) (bounded f v)
    unfolding bounded
    bounded-InRange v h = ground arith

    module _ (some_value : f.low ≤ f.high) where
      read_bound-InRange : (item text : Text) → Returns (InRange f) (read_bound f item text)
      unfolding read_bound
      read_bound-InRange item text = elim (Option-cases (parse_int text)) [
        | inl bad ↦ rw (bad, read_bound, Returns) tt
        | inr (v, e) ↦ rw (e, read_bound, Returns) (bounded-InRange v some_value)
      ]

      read_range-InRange :
          (text : Text) (start end : ℕ)
          → InRange f start
          → InRange f end
          → Returns (All (InRange f)) (read_range f text start end)
      read_range-InRange text start end a b = elim (Bool-cases (ltb end start)) [
        | inl backwards ↦ rw backwards tt
        | inr forwards ↦ rw forwards (range_from-InRange start (end + 1 - start) a.0 (ground arith))
      ]

      read_bounds-InRange :
          (item text : Text) (bounds : List Text)
          → Returns (All (InRange f)) (read_bounds f item text bounds)
      read_bounds-InRange item text [] = tt
      read_bounds-InRange item text (a ∷ []) =
          Returns-bind (InRange f) (All (InRange f)) (read_bound f item a) _
            (read_bound-InRange item a) λ s p. read_range-InRange text s s p p
      read_bounds-InRange item text (a ∷ b ∷ []) =
          Returns-bind (InRange f) (All (InRange f)) (read_bound f item a) _
            (read_bound-InRange item a)
            λ s p.
              Returns-bind (InRange f) (All (InRange f)) (read_bound f item b) _
                (read_bound-InRange item b) λ e q. read_range-InRange text s e p q
      read_bounds-InRange item text (a ∷ b ∷ c ∷ rest) = tt

      expand_range-InRange :
          (item text : Text) → Returns (All (InRange f)) (expand_range f item text)
      unfolding expand_range
      expand_range-InRange item [] = read_bounds-InRange item [] (split_on b'-' [])
      expand_range-InRange item (c ∷ d ∷ cs) =
          read_bounds-InRange item (c ∷ d ∷ cs) (split_on b'-' (c ∷ d ∷ cs))
      expand_range-InRange item (c ∷ []) = elim (Bool-cases (c == b'*')) [
        | inl star ↦
            rw star (range_from-InRange f.low (f.high + 1 - f.low) (omega arith) (omega arith))
        | inr other ↦ rw other (read_bounds-InRange item (c ∷ []) (split_on b'-' (c ∷ [])))
      ]

      take_step-InRange :
          (item range : Text) (step : Option ℕ)
          → Returns (All (InRange f)) (take_step f item range step)
      take_step-InRange item range none = tt
      take_step-InRange item range (some zero) = tt
      take_step-InRange item range (some (suc n)) =
          Returns-bind (All (InRange f)) (All (InRange f)) (expand_range f item (strip range)) _
            (expand_range-InRange item (strip range)) λ xs h. every_nth-InRange (suc n) 0 xs h

      parse_item-InRange : (field item : Text) → Returns (All (InRange f)) (parse_item f field item)
      unfolding parse_item
      parse_item-InRange field [] = tt
      parse_item-InRange field (c ∷ cs) = elim (Option-cases (match_step (c ∷ cs))) [
        | inl bad ↦ rw bad tt
        | inr (m, e) ↦ rw e (take_step-InRange (c ∷ cs) m.0 (step_of m.1))
      ]

      parse_items-InRange :
          (field : Text) (allowed : List ℕ) (items : List Text)
          → All (InRange f) allowed
          → Returns (All (InRange f)) (parse_items f field allowed items)
      unfolding parse_items
      parse_items-InRange field allowed [] h = h
      parse_items-InRange field allowed (item ∷ items) h =
          Returns-bind (All (InRange f)) (All (InRange f)) (parse_item f field (strip item)) _
            (parse_item-InRange field (strip item))
            λ xs q.
              parse_items-InRange field (add_values allowed xs) items
                (add_values-InRange allowed xs h q)

      parse_field-InRange : (field : Text) → Returns (All (InRange f)) (parse_field f field)
      unfolding parse_field
      parse_field-InRange field = parse_items-InRange field [] (split_on b',' field) tt

pub record IsWithin (s : CronSpec) : Type 0 where
  pub minutes : All (λ v. v ≤ 59) s.minutes
  pub hours : All (λ v. v ≤ 23) s.hours
  pub days_of_month : All (λ v. (1 ≤ v) × (v ≤ 31)) s.days_of_month
  pub months : All (λ v. (1 ≤ v) × (v ≤ 12)) s.months
  pub days_of_week : All (λ v. v ≤ 6) s.days_of_week

-- The rest of `parse_parts` after a field, given what the field holds.
after_field :
    (f : FieldSpec) (text : Text) (rest : List ℕ → Parsed CronSpec)
    → HasSunday f
    → f.low ≤ f.high
    → ((xs : List ℕ) → All (InRange f) xs → Returns IsWithin (rest xs))
    → Returns IsWithin (parse_field f text >>= rest)
after_field f text rest sunday some_value =
    Returns-bind (All (InRange f)) IsWithin (parse_field f text) rest
      (parse_field-InRange f sunday some_value text)

parse_parts-IsWithin : (text : Text) (parts : List Text) → Returns IsWithin (parse_parts text parts)
parse_parts-IsWithin text (a ∷ b ∷ c ∷ d ∷ e ∷ []) =
    after_field minute_field a _ (λ h. cc) (omega arith)
      λ minutes p.
        after_field hour_field b _ (λ h. cc) (omega arith)
          λ hours q.
            after_field day_of_month_field c _ (λ h. cc) (omega arith)
              λ days r.
                after_field month_field d _ (λ h. cc) (omega arith)
                  λ months t.
                    after_field day_of_week_field e _ (λ h. refl) (omega arith)
                      λ weekdays u. record {
                        minutes =
                            All-imp (InRange minute_field) (λ v. v ≤ 59) minutes (λ v x. x.1) p;
                        hours = All-imp (InRange hour_field) (λ v. v ≤ 23) hours (λ v x. x.1) q;
                        days_of_month = r;
                        months = t;
                        days_of_week =
                            All-imp (InRange day_of_week_field) (λ v. v ≤ 6) weekdays (λ v x. x.1)
                              u;
                      }
parse_parts-IsWithin text _ = tt

-- An expression that parses has every value of each field inside the range of that field: minutes up
-- to 59, hours up to 23, days from 1 to 31, months from 1 to 12, weekdays from 0 to 6.
pub parse_cron-IsWithin :
    (expression : Text) (s : CronSpec) → parse_cron expression ≡ ok s → IsWithin s
unfolding parse_cron
parse_cron-IsWithin expression s h = subst (Returns IsWithin) h checked
  where
    checked : Returns IsWithin (parse_cron expression)
    checked = elim (Bool-cases (is_empty (normalized expression))) [
      | inl empty ↦ rw empty tt
      | inr full ↦
          rw full
            (parse_parts-IsWithin (normalized expression) (split_on b' ' (normalized expression)))
    ]
