-- ===== src/Cron/Tests.antt =====
-- Runs of the schedule parser and of the fire key, and the theorems about them at such inputs.
use robo_trade.Base.{◌≡◌, ◌*◌, ◌+◌, ◌<◌, ◌≤◌, ◌↔◌, false, refl, [], ◌∷◌, some, ok, err, arith}
use robo_trade.Text.{codes, join, split_by, parse_int}
use robo_trade.Cron.{CronSpec, parse_cron, backwards, day_of_week, out_of_range, hour}
use robo_trade.Cron.Fire.{matches, cron_fire_key}
use robo_trade.Cron.Calendar.{Moment, month_day, month, weekday}
use robo_trade.Cron.Fire.Window.{IsLatestFire, cron_fire_key_iff}
use robo_trade.Cron.Bounds.{IsWithin, parse_cron-IsWithin}
use robo_trade.Cron.Lossless.{parse_cron-parse_cron}

abbrev weekdays_at_eleven : CronSpec
weekdays_at_eleven = record {
  minutes = 0 ∷ 30 ∷ [];
  hours = 11 ∷ [];
  days_of_month = 1 ∷ 15 ∷ [];
  months = 1 ∷ 4 ∷ 7 ∷ 10 ∷ [];
  days_of_week = 1 ∷ 2 ∷ 3 ∷ 4 ∷ 5 ∷ [];
  expression = codes "*/30 11 15,1 */3 1-5";
}

parses : parse_cron (codes " */30  11 15,1 */3 1-5 ") ≡ ok weekdays_at_eleven
unfolding parse_cron join split_by parse_int
parses = refl

refuses_hour : parse_cron (codes "0 24 * * *") ≡ err (out_of_range hour 24)
unfolding parse_cron join split_by parse_int
refuses_hour = refl

-- The ordinal of 15 July 2026, a Wednesday, is 739812.
-- 11:00 on that day.
abbrev eleven : Moment
eleven = 739812 * 1440 + 660

calendar_runs : (month eleven ≡ 7) × (month_day eleven ≡ 15) × (weekday eleven ≡ 3)
unfolding month month_day
calendar_runs = (refl, refl, refl)

fires_late : cron_fire_key weekdays_at_eleven (eleven + 12) 15 ≡ some eleven
unfolding cron_fire_key matches
fires_late = refl

-- Sunday may be written 7, but not as the end of a range.
refuses_to_sunday : parse_cron (codes "0 0 * * 5-7") ≡ err (backwards day_of_week (codes "5-7"))
unfolding parse_cron join split_by parse_int
refuses_to_sunday = refl

parse_cron-IsWithin_example : IsWithin weekdays_at_eleven
parse_cron-IsWithin_example =
    parse_cron-IsWithin (codes " */30  11 15,1 */3 1-5 ") weekdays_at_eleven parses

parse_cron-parse_cron_example : parse_cron (codes "*/30 11 15,1 */3 1-5") ≡ ok weekdays_at_eleven
parse_cron-parse_cron_example =
    parse_cron-parse_cron (codes " */30  11 15,1 */3 1-5 ") weekdays_at_eleven parses

cron_fire_key_iff_example :
    (cron_fire_key weekdays_at_eleven (eleven + 12) 15 ≡ some eleven)
    ↔ IsLatestFire weekdays_at_eleven (eleven + 12) 15 eleven
cron_fire_key_iff_example =
    cron_fire_key_iff weekdays_at_eleven (eleven + 12) 15 (omega arith) eleven

at_eleven : cron_fire_key weekdays_at_eleven eleven 15 ≡ some eleven
unfolding cron_fire_key matches
at_eleven = refl

quiet_minute : (u : Moment) → eleven < u → u ≤ eleven + 1 → matches weekdays_at_eleven u ≡ false
quiet_minute u a b = rw (let e : u ≡ eleven + 1 = omega arith in e) after_eleven
  where
    after_eleven : matches weekdays_at_eleven (eleven + 1) ≡ false
    after_eleven = unfold matches in refl
