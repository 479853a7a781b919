-- ===== src/Bursty/Tests.antt =====
-- A small plan in whole dollars, its accrual and its ledger, and the theorems at them.
use robo_trade.Base.{
  ℕ, ◌-◌, ◌≡◌, refl, ◌⊎◌, String, true, false, ◌&&◌, ◌||◌, none, some, List, [], ◌∷◌, map,
  if◌then◌else◌, str_eq, ◌==◌,
}
use robo_trade.Base.Dict.{Dict, lookup, mem_name}
use robo_trade.Base.Float.{Float, ◌≼◌, lt, zero_float, abs_float}
use robo_trade.Base.Float.Exact.{whole, whole-IsExact}
use robo_trade.Base.Int.{ℤ, pos, negsuc, whole_float, whole-IsOrdered}
use robo_trade.Base.Sort.{sort_by}
use robo_trade.Text.{upper, strip_text}
use robo_trade.Interfaces.{buy}
use robo_trade.Orders.{buy_to_open}
use robo_trade.Orders.Submission.{leg_submitted, leg_rejected, LegStatus}
use robo_trade.Pipeline.Outcome.{OrderRow, leg_row}
use robo_trade.Bursty.{
  SymbolState, BurstyConfig, Clock, accrue, planned_order_size, desired_size, min_executable,
}
use robo_trade.Bursty.Accrual.{accrue_twice}
use robo_trade.Bursty.Size.{IsGoverned, planned_order_size-IsGoverned}
use robo_trade.Bursty.Plan.{Situation, plan}
use robo_trade.Bursty.Due.{before, IsPlanOf, plan-IsPlanOf}
use robo_trade.Bursty.Ledger.{
  Coercion, number, text, draw_down, accrual_from_state, accrual_to_state,
}
use robo_trade.Bursty.Drawn.{spent, settle_found, lookup-draw_down}
use robo_trade.Bursty.Stored.{rounded_all, accrual_from_state-accrual_to_state}
use robo_trade.Bursty.Budgets.{
  RawPlan, sanitize_plan, unknown_plan_symbols, plan_budgets, clean_symbol,
}
use robo_trade.Bursty.Budgets.Sane.{IsSane}
use robo_trade.Bursty.Budgets.Reported.{traded, is_named, is_unknown, sanitize_plan_lem}

instance abbrev exact_float : Float ℕ
exact_float = whole

-- Two moments, an average month apart.
abbrev start_text : String
start_text = "1970-01-01T00:00:00+00:00"

abbrev later_text : String
later_text = "1970-01-31T10:30:00+00:00"

abbrev clock : Clock ℕ ℕ
clock = record {
  month_of = λ m. "1970-01";
  isoformat = λ m. if m == 0 then start_text else later_text;
  fromisoformat = λ t.
      if str_eq t start_text then some 0 else if str_eq t later_text then some 2629800 else none;
  is_aware = λ m. true;
  as_utc = λ m. m;
  seconds_between = λ later earlier. later - earlier;
}

abbrev begun : SymbolState ℕ
begun = record {
  accrued = 20;
  last_run_at = start_text;
  deployed_this_month = 5;
  month = "1970-01";
}

a_month_accrues :
    accrue clock begun 100 2629800
    ≡ record { accrued = 120; last_run_at = later_text; deployed_this_month = 5; month = "1970-01" }
unfolding accrue
a_month_accrues = refl

accrue_twice_example :
    accrue clock (accrue clock begun 100 2629800) 100 2629800 ≡ accrue clock begun 100 2629800
accrue_twice_example = accrue_twice whole-IsExact clock 100 2629800 refl refl refl begun

abbrev settings : BurstyConfig ℤ
settings = record {
  scaling_factor = pos 1;
  max_monthly_multiple = pos 3;
  relax_months = pos 2;
  relax_depth = pos 0;
}

abbrev flat : ℤ → ℤ
flat x = pos 0

-- A budget of 100 at two deviations would be 300, and 250 are left of the month.
size_is_capped :
    planned_order_size flat (pos 100) (pos 2) true (pos 1) (pos 50) settings (pos 120) (pos 90)
    ≡ pos 250
unfolding planned_order_size
size_is_capped = refl

-- A share of 500 that the balance covers is bought whole.
share_is_lifted :
    planned_order_size flat (pos 100) (pos 0) true (pos 5) (pos 0) settings (pos 510) (pos 500)
    ≡ pos 500
unfolding planned_order_size
share_is_lifted = refl

planned_order_size-IsGoverned_example :
    let size =
      planned_order_size flat (pos 100) (pos 2) true (pos 1) (pos 50) settings (pos 120) (pos 90) in
    IsGoverned (abs_float (pos 100)) (pos 2) true (pos 1) (pos 50) settings size
    ⊎ ((size ≡ pos 90)
        × (pos 90 ≼ pos 120)
        × (lt zero_float (desired_size flat (abs_float (pos 100)) (pos 2) true (pos 1) settings)
            ≡ true))
planned_order_size-IsGoverned_example =
    planned_order_size-IsGoverned whole-IsOrdered flat (pos 100) (pos 2) true (pos 1) (pos 50)
      settings (pos 120) (pos 90)

abbrev int_clock : Clock ℤ ℕ
int_clock = record {
  month_of = λ m. "1970-01";
  isoformat = λ m. later_text;
  fromisoformat = λ t. if str_eq t start_text then some 0 else none;
  is_aware = λ m. true;
  as_utc = λ m. m;
  seconds_between = λ later earlier. pos (later - earlier);
}

abbrev market : Situation ℤ ℕ
market = record {
  settings = settings;
  fractional = false;
  now = 2629800;
  latest_prices = ("OLD", pos 40) ∷ ("VTI", pos 50) ∷ [];
  positions = ("OLD", pos 1) ∷ [];
  valuation = λ symbol. record { ok = true; z = pos 0 };
}

abbrev budgets : Dict ℤ
budgets = ("VTI", pos 100) ∷ ("OLD", negsuc 99) ∷ []

abbrev banked : SymbolState ℤ
banked = record {
  accrued = pos 0;
  last_run_at = start_text;
  deployed_this_month = pos 0;
  month = "1970-01";
}

abbrev memory : Dict (SymbolState ℤ)
memory = ("VTI", banked) ∷ ("OLD", banked) ∷ ("GONE", banked) ∷ []

-- A buy of the month's budget, and a sell of the one share that is held.
plan_trades :
    let expected : List (String × ℤ) = ("OLD", negsuc 39) ∷ ("VTI", pos 100) ∷ [] in
    map (λ i. (i.symbol, i.value)) (plan int_clock flat market budgets memory).intents ≡ expected
unfolding plan planned_order_size min_executable accrue sort_by
plan_trades = refl

plan-IsPlanOf_example :
    IsPlanOf market (sort_by before budgets) (plan int_clock flat market budgets memory)
plan-IsPlanOf_example = plan-IsPlanOf whole-IsOrdered int_clock flat market budgets memory

abbrev bought : String → LegStatus → OrderRow ℤ
bought symbol status = leg_row (record {
  planned = record {
    symbol = symbol;
    action = buy;
    quantity = pos 2;
    target_weight = pos 0;
    target_shares = pos 2;
    current_shares = pos 0;
    trade_dollars = pos 100;
    latest_price = pos 50;
    position_intent = buy_to_open;
    opens_short = false;
    short_shares_after = pos 0;
    requested_quantity = pos 2;
    funding_status = none;
    from_cash_equivalent = false;
  };
  sent_quantity = pos 2;
  status = status;
})

abbrev outcome : List (OrderRow ℤ)
outcome = bought "VTI" (leg_submitted "id") ∷ bought "OLD" (leg_rejected "halted") ∷ []

only_sent_legs_draw :
    let expected : List (String × ℤ) = ("VTI", negsuc 99) ∷ ("OLD", pos 0) ∷ ("GONE", pos 0) ∷ [] in
    map (λ e. (e.0, e.1.accrued)) (draw_down outcome memory) ≡ expected
unfolding draw_down upper
only_sent_legs_draw = refl

lookup-draw_down_example :
    lookup "VTI" (draw_down outcome memory) ≡ settle_found (spent "VTI" outcome) (some banked)
lookup-draw_down_example = lookup-draw_down "VTI" outcome memory

abbrev coerce : Coercion ℤ
coerce = record { read_float = λ t. none; show_float = λ x. "1"; is_finite = λ x. true }

capitals : (upper "VTI" ≡ "VTI") × (upper "OLD" ≡ "OLD") × (upper "GONE" ≡ "GONE")
unfolding upper
capitals = (refl, refl, refl)

accrual_from_state-accrual_to_state_example :
    accrual_from_state coerce (accrual_to_state memory) ≡ rounded_all coerce memory
accrual_from_state-accrual_to_state_example =
    accrual_from_state-accrual_to_state coerce memory (refl, (refl, (refl, tt)))
      ((capitals.0, refl, refl), ((capitals.1, refl, refl), ((capitals.2, refl, refl), tt)))

abbrev written : RawPlan ℤ
written = record {
  buy =
      record { symbol = " vti"; amount = some (number (pos 9000)) }
      ∷ record { symbol = "TYPO"; amount = some (number (pos 10)) }
      ∷ [];
  sell = record { symbol = "old "; amount = some (text "5") } ∷ [];
}

plan_is_sanitized :
    let expected : Dict ℤ = ("VTI", pos 5000) ∷ ("OLD", pos 0) ∷ [] in
    (plan_budgets (sanitize_plan coerce written ("VTI" ∷ "OLD" ∷ [])) ≡ expected)
    × (unknown_plan_symbols written ("VTI" ∷ "OLD" ∷ []) ≡ "TYPO" ∷ [])
unfolding plan_budgets sanitize_plan unknown_plan_symbols clean_symbol strip_text upper
plan_is_sanitized = (refl, refl)

sanitize_plan_lem_example :
    let universe : List String = "VTI" ∷ "OLD" ∷ [] in
    let sane = sanitize_plan coerce written universe in
    IsSane universe [] sane.buy.items
    × IsSane universe [] sane.sell.items
    × (lookup "VTI" sane.buy.items ≡ traded coerce universe "VTI" written.buy)
    × (lookup "VTI" sane.sell.items ≡ traded coerce universe "VTI" written.sell)
    × (mem_name "VTI" (unknown_plan_symbols written universe) ≡ (
        is_unknown universe "VTI" && (is_named "VTI" written.buy || is_named "VTI" written.sell)))
sanitize_plan_lem_example =
    sanitize_plan_lem whole-IsOrdered coerce written ("VTI" ∷ "OLD" ∷ []) "VTI"
