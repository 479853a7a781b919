-- ===== src/Cron/Fire.antt =====
-- `CronSpec.matches` and `cron_fire_key`: which minutes fire, and the fire time that a poll
-- belongs to.
pub mod Window
use robo_trade.Base.{
  ℕ, zero, suc, ◌+◌, ◌-◌, ◌≤◌, ◌<◌, ◌≡◌, refl, Bool, true, false, ◌&&◌, Option, none, some, arith,
  contains, if◌then◌else◌, inl, inr, Bool-cases,
}
use robo_trade.Cron.{CronSpec}
use robo_trade.Cron.Calendar.{Moment, clock_minute, clock_hour, weekday, month_day, month}

-- `GRACE_MINUTES`.
abbrev pub grace_minutes : ℕ
grace_minutes = 15

-- `CronSpec.matches_date`.
pub matches_date : CronSpec → Moment → Bool
unfolding month_day month
matches_date s t =
    contains (month_day t) s.days_of_month
    && contains (month t) s.months
    && contains (weekday t) s.days_of_week

-- `CronSpec.matches`.
unfoldable pub matches : CronSpec → Moment → Bool
unfolding matches_date
matches s t =
    contains (clock_minute t) s.minutes && contains (clock_hour t) s.hours && matches_date s t

-- The loop of `cron_fire_key`, with `rounds` offsets to go.
pub scan : CronSpec → Moment → ℕ → ℕ → Option Moment
scan s now offset zero = none
scan s now offset (suc rounds) =
    let rest = scan s now (offset + 1) rounds in
    if matches s (now - offset) then some (now - offset) else rest

-- `cron_fire_key`. The key is the scheduled minute itself, in place of its ISO text.
unfoldable pub cron_fire_key : CronSpec → Moment → ℕ → Option Moment
unfolding scan
cron_fire_key s now grace = scan s now 0 (grace + 1)
