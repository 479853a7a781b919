-- ===== src/Runtime/Once.antt =====
-- src/core/bot_runtime.py: a loop runs each fire time of its schedule at most once, over any polls.
use robo_trade.Base.{
  ℕ, ◌+◌, ◌≤◌, ◌<◌, ◌≡◌, refl, Bool, true, false, Option, none, some, List, [], ◌∷◌, ◌==◌, arith,
  All, All-imp, Bool-cases, inl, inr, ok, err, if◌then◌else◌,
}
use mathlib.Core.Path.{subst}
use native.Mathlib.Decide.{dec_lt}
use robo_trade.Text.{Text}
use robo_trade.Cron.{CronSpec, Parsed, parse_cron}
use robo_trade.Cron.Calendar.{Moment}
use robo_trade.Cron.Fire.{cron_fire_key, grace_minutes}
use robo_trade.Cron.Fire.Window.{cron_fire_key_iff}
use robo_trade.Runtime.{
  fresh_loop, Loop, Poll, Run, new_key, run_if, run_guarded, begin_run, end_run, read_controls,
  poll, poll_all, next_run_key, binding_run_key, fire_of,
}

-- The run has a key below `k`.
abbrev pub IsBefore : ℕ → Run → Type 0
IsBefore k r = (j : ℕ) × (r.key ≡ some j) × (j < k)

-- Every run has a fire time, and they fall strictly towards the older runs.
abbrev pub IsOnce : List Run → Type 0
IsOnce [] = Unit
IsOnce (r ∷ rs) = ((k : ℕ) × (r.key ≡ some k) × All (IsBefore k) rs) × IsOnce rs

-- The polls come in order of time, none before `b`.
abbrev pub IsOrdered : ℕ → List Poll → Type 0
IsOrdered b [] = Unit
IsOrdered b (p ∷ ps) = (b ≤ p.now) × IsOrdered p.now ps

-- A later poll has no earlier fire time.
abbrev pub IsMonotone : ℕ → (Moment → Option Moment) → Type 0
IsMonotone b key_fn =
    (now now' : Moment) (t t' : Moment)
    → b ≤ now
    → now ≤ now'
    → key_fn now ≡ some t
    → key_fn now' ≡ some t'
    → t ≤ t'

fresh_key : (j k : ℕ) → new_key (some j) (some k) ≡ some (some k) → j ≤ k → j < k
fresh_key j k h le = elim (Bool-cases (j == k)) [
  | inl same ↦ cc (rw same at h)
  | inr other ↦ ground arith
]

pub run_guarded_idle :
    (key : Option Moment) (p : Poll) (l : Loop)
    → l.state.running ≡ false
    → run_guarded key p l ≡ end_run key p (begin_run key p.now l)
unfolding run_guarded
run_guarded_idle key p l h = rw h

module _ (key_fn : Moment → Option Moment) (b : ℕ) (mono : IsMonotone b key_fn) where
  abbrev Covers : Moment → List Run → Option Moment → Type 0
  Covers now rs none = rs ≡ []
  Covers now rs (some k) =
      All (IsBefore (k + 1)) rs × ((m : Moment) × (b ≤ m) × (m ≤ now) × (key_fn m ≡ some k))

  record IsReady (now : Moment) (l : Loop) : Type 0 where
    bounded : b ≤ now
    idle : l.state.running ≡ false
    once : IsOnce l.runs
    covers : Covers now l.runs l.state.last_run_key

  Covers-later :
      (now now' : Moment) (rs : List Run) (last : Option Moment)
      → now ≤ now'
      → Covers now rs last
      → Covers now' rs last
  Covers-later now now' rs none h c = c
  Covers-later now now' rs (some k) h (c, (m, d, e, f)) = (c, (m, d, omega arith, f))

  new_run-IsOnce :
      (last : Option Moment) (k : Moment) (now : Moment) (rs : List Run) (p : Poll)
      → new_key last (some k) ≡ some (some k)
      → now ≤ p.now
      → key_fn p.now ≡ some k
      → Covers now rs last
      → All (IsBefore k) rs
  new_run-IsOnce none k now rs p h a e c = rw c tt
  new_run-IsOnce (some j) k now rs p h a e (c, (m, d, f, g)) =
      let le : j ≤ k = mono m p.now j k d (omega arith) g e in
      let lt : j < k = fresh_key j k h le in
      All-imp (IsBefore (j + 1)) (IsBefore k) rs (λ r q. (q.0, q.1, omega (arith, q.2))) c

  quiet-IsReady : (now now' : Moment) (l : Loop) → now ≤ now' → IsReady now l → IsReady now' l
  quiet-IsReady now now' l h r = record {
    bounded = omega (arith, r.bounded);
    idle = r.idle;
    once = r.once;
    covers = Covers-later now now' l.runs l.state.last_run_key h r.covers;
  }

  run-IsReady :
      (k now : Moment) (p : Poll) (l : Loop)
      → All (IsBefore k) l.runs
      → key_fn p.now ≡ some k
      → now ≤ p.now
      → IsReady now l
      → IsReady p.now (end_run (some k) p (begin_run (some k) p.now l))
  unfolding begin_run end_run
  run-IsReady k now p l old f h r = record {
    bounded = omega (arith, r.bounded);
    idle = refl;
    once = ((k, refl, old), r.once);
    covers = (
      (
        (k, refl, omega arith),
        All-imp (IsBefore k) (IsBefore (k + 1)) l.runs (λ x q. (q.0, q.1, omega (arith, q.2))) old,
      ),
      (p.now, omega (arith, r.bounded), omega arith, f),
    );
  }

  -- The turn of a loop that has read its flag and account, by the key of its last run and the
  -- key of this moment.
  turn-IsReady :
      (last key : Option Moment) (now : Moment) (p : Poll) (l : Loop)
      → l.state.last_run_key ≡ last
      → key_fn p.now ≡ key
      → now ≤ p.now
      → IsReady now l
      → IsReady p.now (run_if (new_key last key) p l)
  turn-IsReady last none now p l e f h r = quiet-IsReady now p.now l h r
  turn-IsReady none (some k) now p l e f h r = rw (run_guarded_idle (some k) p l r.idle) (
      run-IsReady k now p l
        (new_run-IsOnce none k now l.runs p refl h f (subst (Covers now l.runs) e r.covers)) f h r)
  turn-IsReady (some j) (some k) now p l e f h r = elim (Bool-cases (j == k)) [
    | inl same ↦ rw same (quiet-IsReady now p.now l h r)
    | inr other ↦
        rw (other, run_guarded_idle (some k) p l r.idle)
          (run-IsReady k now p l
            (new_run-IsOnce (some j) k now l.runs p (rw other) h f
              (subst (Covers now l.runs) e r.covers))
            f h r)
  ]

  read_controls-IsReady :
      (now : Moment) (p : Poll) (l : Loop) → IsReady now l → IsReady now (read_controls p l)
  read_controls-IsReady now p l r = record {
    bounded = r.bounded;
    idle = r.idle;
    once = r.once;
    covers = r.covers;
  }

  gate-IsReady :
      (on : Bool) (now : Moment) (p : Poll) (l : Loop)
      → now ≤ p.now
      → IsReady now l
      → IsReady p.now (if on then run_if (new_key l.state.last_run_key (key_fn p.now)) p l else l)
  gate-IsReady true now p l h r =
      turn-IsReady l.state.last_run_key (key_fn p.now) now p l refl refl h r
  gate-IsReady false now p l h r = quiet-IsReady now p.now l h r

  poll-IsReady :
      (now : Moment) (p : Poll) (l : Loop)
      → now ≤ p.now
      → IsReady now l
      → IsReady p.now (poll (some key_fn) l p)
  unfolding poll next_run_key
  poll-IsReady now p l h r =
      gate-IsReady p.enabled now p (read_controls p l) h (read_controls-IsReady now p l r)

  poll_all-IsOnce :
      (now : Moment) (ps : List Poll) (l : Loop)
      → IsOrdered now ps
      → IsReady now l
      → IsOnce (poll_all (some key_fn) l ps).runs
  unfolding poll_all
  poll_all-IsOnce now [] l o r = r.once
  poll_all-IsOnce now (p ∷ ps) l o r =
      poll_all-IsOnce p.now ps (poll (some key_fn) l p) o.1 (poll-IsReady now p l o.0 r)

fire-IsMonotone :
    (spec : CronSpec) → IsMonotone grace_minutes (λ now. cron_fire_key spec now grace_minutes)
fire-IsMonotone spec now now' t t' enough later e e' =
    let k = (cron_fire_key_iff spec now grace_minutes enough t).0 e in
    let k' = (cron_fire_key_iff spec now' grace_minutes (omega arith) t').0 e' in
    elim (dec_lt t' t) [
      | yes earlier ↦ cc (k'.latest t earlier (omega (arith, k.reached)), k.fires)
      | no later ↦ omega arith
    ]

binding_run_key-IsMonotone : (cron : Text) → IsMonotone grace_minutes (binding_run_key cron)
unfolding binding_run_key
binding_run_key-IsMonotone [] = λ now now' t t' enough later e e'. cc
binding_run_key-IsMonotone (c ∷ cs) = by_result (parse_cron (c ∷ cs))
  where
    by_result : (r : Parsed CronSpec) → IsMonotone grace_minutes (λ now. fire_of now r)
    by_result (ok spec) = fire-IsMonotone spec
    by_result (err e) = λ now now' t t' enough later e' e''. cc

-- Over any polls in order of time, whatever switches the binding on or off and whichever runs fail,
-- a new loop runs each fire time of its schedule at most once, and in order: the key of each run is
-- above the keys of all runs before it. The first poll is a grace window or more after the first day.
pub poll_all-IsOnce_binding :
    (cron : Text) (ps : List Poll)
    → IsOrdered grace_minutes ps
    → IsOnce (poll_all (some (binding_run_key cron)) fresh_loop ps).runs
poll_all-IsOnce_binding cron ps o =
    poll_all-IsOnce (binding_run_key cron) grace_minutes (binding_run_key-IsMonotone cron)
      grace_minutes ps fresh_loop o
      (record { bounded = omega arith; idle = refl; once = tt; covers = refl })
