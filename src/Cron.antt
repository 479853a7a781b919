-- ===== src/Cron.antt =====
-- src/core/cron.py: the parsed expression, and the parser down to one field.
pub mod Calendar
pub mod Fire
pub mod Ranges
pub mod Bounds
pub mod Lossless
mod Tests
use robo_trade.Base.{
  ℕ, zero, suc, ◌+◌, ◌-◌, Bool, true, false, not, ◌&&◌, ◌||◌, Option, none, some, List, [], ◌∷◌,
  ltb, leb, ◌==◌, if◌then◌else◌, length, all, Result, ok, err, ◌>>=◌, ◌>>◌, raise_if,
}
use robo_trade.Text.{
  Text, is_digit, is_empty, split_on, words, join, take_while, drop_while, strip, parse_int,
}

-- The fields of an expression, in order.
pub data FieldName : Type 0 where
  minute hour day_of_month month day_of_week : FieldName

abbrev pub is_day_of_week : FieldName → Bool
is_day_of_week day_of_week = true
is_day_of_week _ = false

-- `CronError`, one constructor for each message.
pub data CronError : Type 0 where
  empty_schedule : CronError
  field_count : ℕ → CronError
  empty_entry unreadable_item bad_step unreadable_range not_a_number backwards :
      FieldName → Text → CronError
  out_of_range : FieldName → ℕ → CronError

abbrev pub Parsed : Type 0 → Type 0
Parsed = Result CronError

-- The sets of the five fields are lists in rising order.
pub record CronSpec : Type 0 where
  pub minutes : List ℕ
  pub hours : List ℕ
  pub days_of_month : List ℕ
  pub months : List ℕ
  pub days_of_week : List ℕ
  pub expression : Text

-- A row of `_FIELDS`.
pub record FieldSpec : Type 0 where
  pub name : FieldName
  pub low : ℕ
  pub high : ℕ

abbrev pub minute_field : FieldSpec
minute_field = record { name = minute; low = 0; high = 59 }

abbrev pub hour_field : FieldSpec
hour_field = record { name = hour; low = 0; high = 23 }

abbrev pub day_of_month_field : FieldSpec
day_of_month_field = record { name = day_of_month; low = 1; high = 31 }

abbrev pub month_field : FieldSpec
month_field = record { name = month; low = 1; high = 12 }

abbrev pub day_of_week_field : FieldSpec
day_of_week_field = record { name = day_of_week; low = 0; high = 6 }

-- `_bounded`: Sunday is 7 as well as 0.
pub bounded : FieldSpec → ℕ → Parsed ℕ
bounded f value =
    if is_day_of_week f.name && value == 7
    then ok 0
    else if leb f.low value && leb value f.high
    then ok value
    else err (out_of_range f.name value)

-- `list(range(start, start + count))`.
pub range_from : ℕ → ℕ → List ℕ
range_from start zero = []
range_from start (suc count) = start ∷ range_from (start + 1) count

-- One bound of a range: `_bounded(int(text), name, low, high)`.
pub read_bound : FieldSpec → Text → Text → Parsed ℕ
unfolding bounded
read_bound f item text = elim (parse_int text) [
  | none ↦ err (not_a_number f.name item)
  | some value ↦ bounded f value
]

abbrev pub read_range : FieldSpec → Text → ℕ → ℕ → Parsed (List ℕ)
read_range f text start end =
    if ltb end start then err (backwards f.name text) else ok (range_from start (end + 1 - start))

abbrev pub read_bounds : FieldSpec → Text → Text → List Text → Parsed (List ℕ)
read_bounds f item text (a ∷ []) = do start ← read_bound f item a; read_range f text start start
read_bounds f item text (a ∷ b ∷ []) = do
  start ← read_bound f item a
  end ← read_bound f item b
  read_range f text start end
read_bounds f item text _ = err (unreadable_range f.name text)

abbrev is_star : Text → Bool
is_star (c ∷ []) = c == b'*'
is_star _ = false

-- `_expand_range`.
pub expand_range : FieldSpec → Text → Text → Parsed (List ℕ)
unfolding read_bound range_from
expand_range f item text =
    if is_star text
    then ok (range_from f.low (f.high + 1 - f.low))
    else read_bounds f item text (split_on b'-' text)

-- `values[::step]`: `skip` elements go by before the next one is taken.
pub every_nth : ℕ → ℕ → List ℕ → List ℕ
every_nth step skip [] = []
every_nth step zero (x ∷ xs) = x ∷ every_nth step (step - 1) xs
every_nth step (suc skip) (x ∷ xs) = every_nth step skip xs

-- `allowed.add(x)` on a set in rising order.
pub add_value : ℕ → List ℕ → List ℕ
add_value x [] = x ∷ []
add_value x (y ∷ ys) =
    let rest = add_value x ys in if ltb x y then x ∷ y ∷ ys else if x == y then y ∷ ys else y ∷ rest

-- `allowed.update(values)`.
pub add_values : List ℕ → List ℕ → List ℕ
unfolding add_value
add_values allowed [] = allowed
add_values allowed (x ∷ xs) = add_values (add_value x allowed) xs

-- The digits behind the slash of `_STEP`; `none` where the pattern does not match.
abbrev step_digits : Text → Option (Option Text)
step_digits [] = some none
step_digits (slash ∷ ds) = if not (is_empty ds) && all is_digit ds then some (some ds) else none

-- `_STEP.match(item)`: the range, and the digits of the step if there is one.
pub match_step : Text → Option (Text × Option Text)
unfolding take_while drop_while is_digit
match_step item =
    let range = take_while (λ c. not (c == b'/')) item in
    elim (step_digits (drop_while (λ c. not (c == b'/')) item)) [
      | none ↦ none
      | some step ↦ if is_empty range then none else some (range, step)
    ]

-- `int(step_text) if step_text else 1`.
abbrev step_of : Option Text → Option ℕ
step_of none = some 1
step_of (some ds) = parse_int ds

abbrev take_step : FieldSpec → Text → Text → Option ℕ → Parsed (List ℕ)
take_step f item range none = err (unreadable_item f.name item)
take_step f item range (some zero) = err (bad_step f.name item)
take_step f item range (some (suc n)) = do
  values ← expand_range f item (strip range)
  ok (every_nth (suc n) 0 values)

-- One entry of a field, after `item.strip()`.
pub parse_item : FieldSpec → Text → Text → Parsed (List ℕ)
unfolding match_step expand_range every_nth
parse_item f field item =
    if is_empty item then err (empty_entry f.name field) else elim (match_step item) [
      | none ↦ err (unreadable_item f.name item)
      | some (range, step) ↦ take_step f item range (step_of step)
    ]

-- The loop of `_parse_field`, over the entries that are left.
pub parse_items : FieldSpec → Text → List ℕ → List Text → Parsed (List ℕ)
unfolding parse_item add_values strip
parse_items f field allowed [] = ok allowed
parse_items f field allowed (item ∷ items) = do
  values ← parse_item f field (strip item)
  parse_items f field (add_values allowed values) items

-- `_parse_field`.
pub parse_field : FieldSpec → Text → Parsed (List ℕ)
unfolding parse_items
parse_field f field = parse_items f field [] (split_on b',' field)

abbrev pub parse_parts : Text → List Text → Parsed CronSpec
parse_parts text (a ∷ b ∷ c ∷ d ∷ e ∷ []) = do
  minutes ← parse_field minute_field a
  hours ← parse_field hour_field b
  days ← parse_field day_of_month_field c
  months ← parse_field month_field d
  weekdays ← parse_field day_of_week_field e
  ok (record {
    minutes = minutes;
    hours = hours;
    days_of_month = days;
    months = months;
    days_of_week = weekdays;
    expression = text;
  })
parse_parts text parts = err (field_count (length parts))

-- `" ".join(expression.split())`.
abbrev pub normalized : Text → Text
normalized expression = join b' ' (words expression)

-- `parse_cron`.
unfoldable pub parse_cron : Text → Parsed CronSpec
unfolding parse_field
parse_cron expression =
    let text = normalized expression in
    if is_empty text then err empty_schedule else parse_parts text (split_on b' ' text)
