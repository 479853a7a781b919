-- ===== src/Runtime.antt =====
-- src/core/bot_runtime.py: the loop of one binding, poll by poll, and the set of loops.
pub mod Once
pub mod Fresh
pub mod Bindings
mod Tests
use robo_trade.Base.{
  ℕ, String, Bool, true, false, Option, none, some, List, [], ◌∷◌, ◌==◌, ltb, if◌then◌else◌, ok,
  err,
}
use robo_trade.Text.{Text, is_empty}
use robo_trade.Cron.{parse_cron, CronSpec, Parsed}
use robo_trade.Cron.Calendar.{Moment}
use robo_trade.Cron.Fire.{cron_fire_key, grace_minutes}

-- `RuntimeState`. A fire key is the scheduled minute, and `none` is the empty text.
pub record RuntimeState : Type 0 where
  pub enabled : Bool
  pub running : Bool
  pub account_id : String
  pub last_started_at : Option Moment
  pub last_finished_at : Option Moment
  pub last_error : Option String
  pub last_run_date : Option Moment
  pub last_run_key : Option Moment

abbrev pub initial : RuntimeState
initial = record {
  enabled = false;
  running = false;
  account_id = "";
  last_started_at = none;
  last_finished_at = none;
  last_error = none;
  last_run_date = none;
  last_run_key = none;
}

-- What one turn of `_loop` reads: the controls, the clock at the start and at the end of a run, and
-- what `run_once` would raise.
pub record Poll : Type 0 where
  pub now : Moment
  pub enabled : Bool
  pub account_id : String
  pub failure : Option String
  pub finished : Moment

-- A call of `run_fn`.
pub record Run : Type 0 where
  pub account_id : String
  pub key : Option Moment

-- A loop, with the runs that it has made, the latest first.
pub record Loop : Type 0 where
  pub state : RuntimeState
  pub runs : List Run

-- A loop as its constructor leaves it.
abbrev pub fresh_loop : Loop
fresh_loop = record { state = initial; runs = [] }

-- `_next_run_key`: `none` for no run now, `some none` for a loop with no key function.
abbrev pub new_key : Option Moment → Option Moment → Option (Option Moment)
new_key last none = none
new_key none (some key) = some (some key)
new_key (some last) (some key) = if last == key then none else some (some key)

pub next_run_key : Option (Moment → Option Moment) → Loop → Moment → Option (Option Moment)
next_run_key none l now = some none
next_run_key (some key_fn) l now = new_key l.state.last_run_key (key_fn now)

abbrev or_keep : Option Moment → Option Moment → Option Moment
or_keep none last = last
or_keep (some key) last = some key

-- The first locked block of `_run_guarded`, when no run is going on.
pub begin_run : Option Moment → Moment → Loop → Loop
begin_run key now l = record {
  state = record l.state {
    running = true;
    last_started_at = some now;
    last_error = none;
    last_run_key = or_keep key l.state.last_run_key;
  };
  runs = l.runs;
}

-- `run_fn`, then the bookkeeping of its success or failure and the `finally` block.
pub end_run : Option Moment → Poll → Loop → Loop
end_run key p l = record {
  state = record l.state {
    running = false;
    last_finished_at = some p.finished;
    last_error = elim p.failure [ none ↦ l.state.last_error | some e ↦ some e ];
    last_run_date = elim p.failure [ none ↦ some p.finished | some e ↦ l.state.last_run_date ];
  };
  runs = record { account_id = p.account_id; key = key } ∷ l.runs;
}

-- `_run_guarded`.
pub run_guarded : Option Moment → Poll → Loop → Loop
unfolding begin_run end_run
run_guarded key p l = if l.state.running then l else end_run key p (begin_run key p.now l)

abbrev run_if : Option (Option Moment) → Poll → Loop → Loop
run_if none p l = l
run_if (some key) p l = run_guarded key p l

-- The locked block of `_loop`.
abbrev pub read_controls : Poll → Loop → Loop
read_controls p l = record l {
  state = record l.state { enabled = p.enabled; account_id = p.account_id };
}

-- One turn of `_loop`.
pub poll : Option (Moment → Option Moment) → Loop → Poll → Loop
unfolding next_run_key run_guarded
poll key_fn l p =
    let l' : Loop = read_controls p l in
    if p.enabled then run_if (next_run_key key_fn l' p.now) p l' else l'

-- The turns of `_loop` until it is stopped.
pub poll_all : Option (Moment → Option Moment) → Loop → List Poll → Loop
unfolding poll
poll_all key_fn l [] = l
poll_all key_fn l (p ∷ ps) = poll_all key_fn (poll key_fn l p) ps

abbrev fire_of : Moment → Parsed CronSpec → Option Moment
fire_of now (ok spec) = cron_fire_key spec now grace_minutes
fire_of now (err e) = none

-- `_binding_run_key`, for the schedule that the controls hold.
pub binding_run_key : Text → Moment → Option Moment
binding_run_key cron now = if is_empty cron then none else fire_of now (parse_cron cron)

-- `_check_seconds`: `none` is an interval function that raises or returns no number.
abbrev pub check_seconds : Option ℕ → ℕ
check_seconds none = 300
check_seconds (some s) = if ltb s 15 then 15 else s
