-- ===== src/Rally.antt =====
-- src/algorithms/rally_rotation: the clocks and the windows of memory.py, and which names the book holds.
-- Days are ordinals, in market time.
pub mod Sessions
pub mod Positions
pub mod Kept
pub mod Sizing
pub mod Exits
mod Tests
use robo_trade.Base.{
  ℕ, zero, suc, ◌+◌, ◌-◌, ◌*◌, ◌/◌, ◌%◌, String, Bool, true, false, not, ◌&&◌, ◌||◌, Option, none,
  some, List, [], ◌∷◌, if◌then◌else◌, ltb, leb, ◌==◌, length, take_last, get_or_else,
}
use robo_trade.Base.Dict.{Dict, lookup, insert}
use robo_trade.Base.Int.{ℤ, pos_part}
use robo_trade.Base.Sort.{sort_by}

-- `date.weekday() < 5`.
abbrev pub is_weekday : ℕ → Bool
is_weekday day = ltb 0 (day % 7) && leb (day % 7) 5

abbrev pub one_if : Bool → ℕ
one_if b = if b then 1 else 0

-- The weekdays among so many days from a first one.
unfoldable pub weekdays_among : ℕ → ℕ → ℕ
weekdays_among first zero = 0
weekdays_among first (suc n) = one_if (is_weekday (first + n)) + weekdays_among first n

-- `_weekdays_inclusive`: whole weeks at once, and the days that are left one by one.
unfoldable pub weekdays_inclusive : ℕ → ℕ → ℕ
unfolding weekdays_among
weekdays_inclusive first last =
    if ltb last first
    then 0
    else (last - first + 1) / 7 * 5 + weekdays_among first ((last - first + 1) % 7)

-- `sessions_since`.
unfoldable pub sessions_since : ℕ → ℕ → ℕ
unfolding weekdays_inclusive
sessions_since last now = weekdays_inclusive (last + 1) now

-- What stands under the key of a clock: a day, or a text that is none. An empty one is as good as missing.
pub data ClockEntry : Type 0 where
  on_day : ℕ → ClockEntry
  unreadable : ClockEntry

abbrev pub entry_due : ℕ → ℕ → Option ClockEntry → Bool
entry_due interval now none = true
entry_due interval now (some unreadable) = true
entry_due interval now (some (on_day last)) = leb interval (sessions_since last now)

-- `action_due`; the keys are those of the actions.
unfoldable pub action_due : Dict ClockEntry → String → ℤ → ℕ → Bool
unfolding sessions_since
action_due state action interval_days now =
    let interval = pos_part interval_days in
    if interval == 0 then true else entry_due interval now (lookup action state)

-- `record_action`.
unfoldable pub record_action : Dict ClockEntry → String → ℕ → Dict ClockEntry
record_action state action now = insert action (on_day now) state

-- The days of a window, each with what was seen on it.
abbrev pub Series : Type 0
Series = List (ℕ × ℕ)

-- `past[today] = value`.
abbrev pub put_day : ℕ → ℕ → Series → Series
put_day day value [] = (day, value) ∷ []
put_day day value ((d, v) ∷ series) =
    let rest = put_day day value series in if d == day then (day, value) ∷ series else (d, v) ∷ rest

-- The last days of a window.
unfoldable pub keep_window : ℕ → Series → Series
keep_window window series = take_last window (sort_by (λ a b. leb a.0 b.0) series)

-- `_track`, over the rows that are left: the value of each symbol today.
unfoldable pub track : Dict Series → ℕ → ℕ → List (String × ℕ) → Dict Series → Dict Series
unfolding keep_window
track history window today [] updated = updated
track history window today ((symbol, value) ∷ rows) updated = track history window today rows (
    insert symbol
      (keep_window window (put_day today value (get_or_else (lookup symbol history) []))) updated)

-- `max(config.eligibility_window, 1)`.
abbrev pub window_of : ℤ → ℕ
window_of eligibility_window =
    if leb (pos_part eligibility_window) 1 then 1 else pos_part eligibility_window

-- The test of `track_ranking` on a rank, zero for a name that has none.
abbrev pub in_top : ℤ → ℕ → ℕ
in_top entry_rank_max rank = one_if (ltb 0 rank && leb rank (pos_part entry_rank_max))

abbrev ranked_top : ℤ → List (String × ℕ) → List (String × ℕ)
ranked_top entry_rank_max [] = []
ranked_top entry_rank_max ((symbol, rank) ∷ rows) =
    (symbol, in_top entry_rank_max rank) ∷ ranked_top entry_rank_max rows

-- `track_ranking`.
unfoldable pub track_ranking : Dict Series → ℤ → ℤ → ℕ → List (String × ℕ) → Dict Series
unfolding track
track_ranking history eligibility_window entry_rank_max today rows =
    track history (window_of eligibility_window) today (ranked_top entry_rank_max rows) []

-- `qualifying_days` and `observed_days`.
abbrev pub qualifying_days : Series → ℕ
qualifying_days [] = 0
qualifying_days ((day, value) ∷ series) = one_if (not (value == 0)) + qualifying_days series

abbrev pub observed_days : Series → ℕ
observed_days = length
