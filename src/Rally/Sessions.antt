-- ===== src/Rally/Sessions.antt =====
-- The count of weekdays, and when a clock comes due.
use robo_trade.Base.{
  ℕ, zero, suc, ◌+◌, ◌-◌, ◌*◌, ◌/◌, ◌%◌, String, ◌≡◌, refl, ◌∙◌, ap, sym, true, some, if◌then◌else◌,
  ltb, leb, ◌==◌, arith, Bool-cases, inl, inr, eq_iff, str_eq,
}
use robo_trade.Base.Dict.{Dict, lookup, lookup-insert}
use robo_trade.Base.Int.{ℤ, pos_part}
use robo_trade.Rally.{
  weekdays_among, weekdays_inclusive, sessions_since, ClockEntry, on_day, action_due, record_action,
}

-- A week more holds five weekdays more.
weekdays_among_week : (first n : ℕ) → weekdays_among first (7 + n) ≡ 5 + weekdays_among first n
unfolding weekdays_among
weekdays_among_week first n = ground arith

weekdays_among_weeks :
    (first weeks n : ℕ) → weekdays_among first (weeks * 7 + n) ≡ weeks * 5 + weekdays_among first n
weekdays_among_weeks first zero n =
    let none_more : 0 * 7 + n ≡ n = omega arith in ap (weekdays_among first) none_more ∙ omega arith
weekdays_among_weeks first (suc weeks) n =
    let shift : suc weeks * 7 + n ≡ 7 + (weeks * 7 + n) = omega arith in
    ap (weekdays_among first) shift
    ∙ weekdays_among_week first (weeks * 7 + n)
    ∙ omega (arith, weekdays_among_weeks first weeks n)

weekdays_among_none : (first n : ℕ) → n ≡ 0 → weekdays_among first n ≡ 0
unfolding weekdays_among
weekdays_among_none first zero h = refl
weekdays_among_none first (suc n) h = absurd (omega (arith, h))

-- Whole weeks and the days that are left come to the count of the days one by one.
weekdays_inclusive_count :
    (first last : ℕ) → weekdays_inclusive first last ≡ weekdays_among first (last + 1 - first)
unfolding weekdays_inclusive
weekdays_inclusive_count first last = elim (Bool-cases (ltb last first)) [
  | inl past ↦ rw past (sym (weekdays_among_none first (last + 1 - first) (ground (arith, past))))
  | inr ahead ↦
      let days = last - first + 1 in
      let split : days / 7 * 7 + days % 7 ≡ last + 1 - first = ground (arith, ahead) in
      rw ahead
        (sym (weekdays_among_weeks first (days / 7) (days % 7)) ∙ ap (weekdays_among first) split)
]

-- A clock that was started on a day is due exactly when the weekdays that came after it, counted one by
-- one up to today, are as many as the interval; an interval of zero or less is always due, and the clock
-- of another action is what it was.
pub action_due-record_action :
    (state : Dict ClockEntry) (action other : String) (interval_days : ℤ) (day now : ℕ)
    → (action_due (record_action state action day) action interval_days now ≡ (
        if pos_part interval_days == 0
        then true
        else leb (pos_part interval_days) (weekdays_among (day + 1) (now - day))))
      × (lookup other (record_action state action day)
          ≡ (if str_eq action other then some (on_day day) else lookup other state))
unfolding action_due record_action sessions_since
action_due-record_action state action other interval_days day now =
    let elapsed : now + 1 - (day + 1) ≡ now - day = omega arith in
    let counted : weekdays_inclusive (day + 1) now ≡ weekdays_among (day + 1) (now - day) =
      weekdays_inclusive_count (day + 1) now ∙ ap (weekdays_among (day + 1)) elapsed in
    (
      rw (lookup-insert, (eq_iff action action).1 refl, counted) refl,
      lookup-insert action other (on_day day) state,
    )
