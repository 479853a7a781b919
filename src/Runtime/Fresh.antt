-- ===== src/Runtime/Fresh.antt =====
-- src/core/bot_runtime.py: a poll of an idle loop in a window that has not run yet.
use robo_trade.Base.{
  ◌≡◌, ◌≢◌, refl, ap, ◌∙◌, Bool, true, false, Option, none, some, ◌∷◌, ◌==◌, ==_iff, Bool-cases,
  inl, inr, if◌then◌else◌,
}
use robo_trade.Text.{Text}
use robo_trade.Cron.Calendar.{Moment}
use robo_trade.Runtime.{
  Loop, Poll, new_key, run_if, begin_run, end_run, read_controls, poll, next_run_key,
  binding_run_key,
}
use robo_trade.Runtime.Once.{run_guarded_idle}

new_key_fresh :
    (last : Option Moment) (t : Moment) → last ≢ some t → new_key last (some t) ≡ some (some t)
new_key_fresh none t h = refl
new_key_fresh (some j) t h = elim (Bool-cases (j == t)) [
  | inl same ↦ absurd (h (ap some ((==_iff j t).0 same)))
  | inr other ↦ rw other
]

if_true : {A : Type 0} (b : Bool) (x y : A) → b ≡ true → (if b then x else y) ≡ x
if_true true x y h = refl
if_true false x y h = cc

poll_fresh :
    (key_fn : Moment → Option Moment) (l : Loop) (p : Poll) (t : Moment)
    → p.enabled ≡ true
    → l.state.running ≡ false
    → key_fn p.now ≡ some t
    → l.state.last_run_key ≢ some t
    → poll (some key_fn) l p ≡ end_run (some t) p (begin_run (some t) p.now (read_controls p l))
unfolding poll next_run_key
poll_fresh key_fn l p t on idle e fresh =
    if_true p.enabled _ _ on
    ∙ (ap (λ k. run_if k p (read_controls p l))
          (ap (new_key l.state.last_run_key) e ∙ new_key_fresh l.state.last_run_key t fresh)
        ∙ run_guarded_idle (some t) p (read_controls p l) idle)

-- A poll of an enabled, idle loop, at a moment whose fire time is `t` and is not the one last run,
-- calls the run function for `t` with the account of the binding; and after it the loop is idle
-- again and remembers `t`, whether or not the run raised.
pub poll_runs :
    (cron : Text) (l : Loop) (p : Poll) (t : Moment)
    → p.enabled ≡ true
    → l.state.running ≡ false
    → binding_run_key cron p.now ≡ some t
    → l.state.last_run_key ≢ some t
    → let l' = poll (some (binding_run_key cron)) l p in
      (l'.runs ≡ record { account_id = p.account_id; key = some t } ∷ l.runs)
      × (l'.state.last_run_key ≡ some t)
      × (l'.state.running ≡ false)
unfolding begin_run end_run
poll_runs cron l p t on idle e fresh =
    let same = poll_fresh (binding_run_key cron) l p t on idle e fresh in
    (
      ap (λ (x : Loop). x.runs) same,
      ap (λ (x : Loop). x.state.last_run_key) same,
      ap (λ (x : Loop). x.state.running) same,
    )
