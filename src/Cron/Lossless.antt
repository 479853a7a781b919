-- ===== src/Cron/Lossless.antt =====
-- The text kept with a parsed expression parses to the same expression again.
use robo_trade.Base.{
  ◌≡◌, ◌∙◌, arith, ap, List, [], ◌∷◌, >>=-eq-ok, ok, err, Bool-cases, inl, inr, if◌then◌else◌,
}
use robo_trade.Text.{Text, split_on, is_empty, join}
use robo_trade.Text.Splitting.{words-join-words}
use robo_trade.Cron.{
  CronSpec, empty_schedule, parse_field, minute_field, hour_field, day_of_month_field, month_field,
  day_of_week_field, normalized, parse_parts, parse_cron,
}

normalized_idem : (t : Text) → normalized (normalized t) ≡ normalized t
normalized_idem t = ap (join b' ') (words-join-words t)

parse_parts-expression :
    (text : Text) (parts : List Text) (s : CronSpec)
    → parse_parts text parts ≡ ok s
    → s.expression ≡ text
parse_parts-expression text (a ∷ b ∷ c ∷ d ∷ e ∷ []) s h =
    let (minutes, x, h1) = >>=-eq-ok (parse_field minute_field a) _ h in
    let (hours, x', h2) = >>=-eq-ok (parse_field hour_field b) _ h1 in
    let (days, x'', h3) = >>=-eq-ok (parse_field day_of_month_field c) _ h2 in
    let (months, x''', h4) = >>=-eq-ok (parse_field month_field d) _ h3 in
    let (weekdays, x'''', h5) = >>=-eq-ok (parse_field day_of_week_field e) _ h4 in ground arith
parse_parts-expression text _ s h = cc

parse_cron-expression :
    (expression : Text) (s : CronSpec)
    → parse_cron expression ≡ ok s
    → s.expression ≡ normalized expression
unfolding parse_cron
parse_cron-expression expression s h = elim (Bool-cases (is_empty (normalized expression))) [
  | inl empty ↦ cc (rw empty at h)
  | inr full ↦ parse_parts-expression (normalized expression) _ s (rw full at h)
]

parse_cron-normalized : (t : Text) → parse_cron (normalized t) ≡ parse_cron t
unfolding parse_cron
parse_cron-normalized t =
    ap (λ u. if is_empty u then err empty_schedule else parse_parts u (split_on b' ' u))
      (normalized_idem t)

-- What `parse_cron` returns keeps a text that it parses to the same result: a round trip through the
-- configuration loses nothing.
pub parse_cron-parse_cron :
    (expression : Text) (s : CronSpec)
    → parse_cron expression ≡ ok s
    → parse_cron s.expression ≡ ok s
parse_cron-parse_cron expression s h =
    ap parse_cron (parse_cron-expression expression s h) ∙ (parse_cron-normalized expression ∙ h)
