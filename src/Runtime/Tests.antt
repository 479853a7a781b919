-- ===== src/Runtime/Tests.antt =====
-- Runs of a binding's loop and of the set of loops, and the theorems about them at such inputs.
use robo_trade.Base.{◌+◌, ◌*◌, ◌≡◌, refl, Bool, true, false, some, none, List, [], ◌∷◌, arith}
use robo_trade.Base.Dict.{lookup}
use robo_trade.Text.{Text, codes, join, split_by, parse_int}
use robo_trade.Cron.{parse_cron}
use robo_trade.Cron.Calendar.{Moment}
use robo_trade.Cron.Fire.{matches, cron_fire_key}
use robo_trade.Runtime.{Poll, fresh_loop, binding_run_key, poll, poll_all}
use robo_trade.Runtime.Once.{IsOnce, poll_all-IsOnce_binding}
use robo_trade.Runtime.Fresh.{poll_runs}
use robo_trade.Runtime.Bindings.{Bot, reconcile, start, stop, start_all, lookup-reconcile}

-- Every weekday at 11:00.
abbrev schedule : Text
schedule = codes "0 11 * * 1-5"

-- 11:00 on Wednesday, 15 July 2026.
abbrev eleven : Moment
eleven = 739812 * 1440 + 660

abbrev look : Moment → Bool → Poll
look now on = record {
  now = now;
  enabled = on;
  account_id = "main";
  failure = none;
  finished = now + 1;
}

abbrev morning : List Poll
morning =
    look (eleven + 0) false
    ∷ look (eleven + 3) true
    ∷ look (eleven + 8) true
    ∷ look (eleven + 1443) true
    ∷ []

-- The day's run is late, since the binding was off at eleven, is made once, and comes again the next day.
morning_runs :
    (poll_all (some (binding_run_key schedule)) fresh_loop morning).runs
    ≡ record { account_id = "main"; key = some (eleven + 1440) }
      ∷ record { account_id = "main"; key = some eleven }
      ∷ []
unfolding poll_all binding_run_key parse_cron join split_by parse_int cron_fire_key matches
morning_runs = refl

poll_all-IsOnce_binding_example :
    IsOnce (poll_all (some (binding_run_key schedule)) fresh_loop morning).runs
poll_all-IsOnce_binding_example =
    poll_all-IsOnce_binding schedule morning
      (omega arith, (omega arith, (omega arith, (omega arith, tt))))

abbrev late : Poll
late = look (eleven + 3) true

fires_late : binding_run_key schedule (eleven + 3) ≡ some eleven
unfolding binding_run_key parse_cron join split_by parse_int cron_fire_key matches
fires_late = refl

poll_runs_example :
    ((poll (some (binding_run_key schedule)) fresh_loop late).runs
      ≡ record { account_id = "main"; key = some eleven } ∷ [])
    × ((poll (some (binding_run_key schedule)) fresh_loop late).state.last_run_key ≡ some eleven)
    × ((poll (some (binding_run_key schedule)) fresh_loop late).state.running ≡ false)
poll_runs_example = poll_runs schedule fresh_loop late eleven refl refl fires_late (λ e. cc)

abbrev two_loops : Bot
two_loops = record {
  loops = ("a@1", fresh_loop) ∷ ("b@1", fresh_loop) ∷ [];
  started = true;
  signals = [];
}

reconcile_signals :
    (reconcile (some ("b@1" ∷ "c@1" ∷ [])) two_loops).signals ≡ start "c@1" ∷ stop "a@1" ∷ []
unfolding reconcile
reconcile_signals = refl

starts_all :
    (start_all (some ("a@1" ∷ "b@1" ∷ [])) (record two_loops { started = false })).signals
    ≡ start "b@1" ∷ start "a@1" ∷ []
unfolding start_all
starts_all = refl

lookup-reconcile_example :
    (lookup "b@1" (reconcile (some ("b@1" ∷ "c@1" ∷ [])) two_loops).loops ≡ some fresh_loop)
    × (reconcile none two_loops ≡ two_loops)
lookup-reconcile_example = lookup-reconcile ("b@1" ∷ "c@1" ∷ []) "b@1" two_loops
