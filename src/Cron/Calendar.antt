-- ===== src/Cron/Calendar.antt =====
-- Market-local wall-clock times, as minutes, and the parts of `datetime` that a schedule reads.
use robo_trade.Base.{ℕ, ◌+◌, ◌-◌, ◌*◌, ◌/◌, ◌%◌, ltb, if◌then◌else◌}

-- Minutes since the midnight that begins the day with the ordinal 0.
abbrev pub Moment : Type 0
Moment = ℕ

abbrev pub clock_minute : Moment → ℕ
clock_minute t = t % 60

abbrev pub clock_hour : Moment → ℕ
clock_hour t = t / 60 % 24

-- `date.toordinal()`.
abbrev pub ordinal : Moment → ℕ
ordinal t = t / 1440

-- `isoweekday() % 7`: Sunday is 0.
abbrev pub weekday : Moment → ℕ
weekday t = ordinal t % 7

-- The day of its 400 years, counted from a first of March.
abbrev day_of_era : ℕ → ℕ
day_of_era day = (day + 305) % 146_097

abbrev year_of_era : ℕ → ℕ
year_of_era doe = (doe + doe / 36_524 - doe / 1460 - doe / 146_096) / 365

abbrev day_of_year : ℕ → ℕ
day_of_year doe = let yoe = year_of_era doe in doe + yoe / 100 - 365 * yoe - yoe / 4

-- March is 0.
abbrev shifted_month : ℕ → ℕ
shifted_month doy = (5 * doy + 2) / 153

-- `moment.day` and `moment.month`, in the Gregorian calendar.
unfoldable pub month_day : Moment → ℕ
month_day t =
    let doy = day_of_year (day_of_era (ordinal t)) in doy + 1 - (153 * shifted_month doy + 2) / 5

unfoldable pub month : Moment → ℕ
month t =
    let m = shifted_month (day_of_year (day_of_era (ordinal t))) in
    if ltb m 10 then m + 3 else m - 9
