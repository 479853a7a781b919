-- ===== src/Cron/Fire/Window.antt =====
-- What `cron_fire_key` finds: the latest fire time inside the grace window.
use robo_trade.Base.{
  ℕ, zero, suc, ◌+◌, ◌-◌, ◌≤◌, ◌<◌, ◌≡◌, refl, ◌↔◌, ◌⊎◌, true, false, Option, none, some, arith,
  inl, inr, Bool-cases,
}
use native.Mathlib.Decide.{dec_lt}
use robo_trade.Cron.{CronSpec}
use robo_trade.Cron.Calendar.{Moment}
use robo_trade.Cron.Fire.{matches, scan, cron_fire_key}

-- `t` is the latest minute of the window of `now` that fires.
pub record IsLatestFire (s : CronSpec) (now grace : ℕ) (t : Moment) : Type 0 where
  pub reached : t ≤ now
  pub in_grace : now ≤ t + grace
  pub fires : matches s t ≡ true
  pub latest : (u : Moment) → t < u → u ≤ now → matches s u ≡ false

-- What the scan says, by its result.
abbrev Scanned : CronSpec → Moment → ℕ → ℕ → Option Moment → Type 0
Scanned s now offset rounds none =
    (u : Moment) → u + offset ≤ now → now < u + offset + rounds → matches s u ≡ false
Scanned s now offset rounds (some t) =
    (t + offset ≤ now)
    × (now < t + offset + rounds)
    × (matches s t ≡ true)
    × ((u : Moment) → t < u → u + offset ≤ now → matches s u ≡ false)

trichotomy : (a b : ℕ) → (a < b) ⊎ ((b < a) ⊎ (a ≡ b))
trichotomy a b = ground arith

at_offset : (u now offset : ℕ) → u + offset ≤ now → (u ≡ now - offset) ⊎ (u + (offset + 1) ≤ now)
at_offset u now offset h = elim (dec_lt (u + offset) now) [
  | yes below ↦ inr (omega arith)
  | no above ↦ inl (omega arith)
]

later :
    (s : CronSpec) (now offset rounds : ℕ)
    → matches s (now - offset) ≡ false
    → (r : Option Moment) → Scanned s now (offset + 1) rounds r
    → Scanned s now offset (suc rounds) r
later s now offset rounds miss none h = λ u a b. elim (at_offset u now offset a) [
  | inl here ↦ rw here miss
  | inr before ↦ h u before (omega arith)
]
later s now offset rounds miss (some t) h = (
  omega arith,
  omega arith,
  h.2,
  λ u a b. elim (at_offset u now offset b) [
    | inl here ↦ rw here miss
    | inr before ↦ h.3 u a before
  ],
)

scan_lem :
    (s : CronSpec) (now offset rounds : ℕ)
    → offset + rounds ≤ now + 1
    → Scanned s now offset rounds (scan s now offset rounds)
unfolding scan
scan_lem s now offset zero h = λ u a b. absurd (omega arith)
scan_lem s now offset (suc rounds) h = elim (Bool-cases (matches s (now - offset))) [
  | inl hit ↦ rw hit (omega arith, omega arith, hit, λ u a b. absurd (omega arith))
  | inr miss ↦ rw miss (
      later s now offset rounds miss (scan s now (offset + 1) rounds)
        (scan_lem s now (offset + 1) rounds (omega arith)))
]

module _ (s : CronSpec) (now grace : ℕ) (enough : grace ≤ now) where
  scanned : Scanned s now 0 (grace + 1) (cron_fire_key s now grace)
  unfolding cron_fire_key
  scanned = scan_lem s now 0 (grace + 1) (omega arith)

  -- With no fire time in the window there is no key.
  pub cron_fire_key-none :
      cron_fire_key s now grace ≡ none
      → (u : Moment) → u ≤ now
      → now ≤ u + grace
      → matches s u ≡ false
  cron_fire_key-none e u a b = (rw e at scanned) u (omega arith) (omega arith)

  cron_fire_key-some :
      (t : Moment) → cron_fire_key s now grace ≡ some t → IsLatestFire s now grace t
  cron_fire_key-some t e =
      let (a, b, c, d) = found in
      record {
        reached = omega arith;
        in_grace = omega arith;
        fires = c;
        latest = λ u x y. d u x (omega arith);
      }
    where
      found : Scanned s now 0 (grace + 1) (some t)
      found = rw e at scanned

  IsLatestFire-cron_fire_key :
      (t : Moment)
      → IsLatestFire s now grace t
      → (r : Option Moment) → cron_fire_key s now grace ≡ r
      → r ≡ some t
  IsLatestFire-cron_fire_key t h none e = cc (cron_fire_key-none e t h.reached h.in_grace, h.fires)
  IsLatestFire-cron_fire_key t h (some u) e =
      let k = cron_fire_key-some u e in
      elim (trichotomy t u) [
        | inl below ↦ cc (h.latest u below k.reached, k.fires)
        | inr (inl above) ↦ cc (k.latest t above h.reached, h.fires)
        | inr (inr same) ↦ cc
      ]

  -- The key of a poll is `t` exactly when `t` is the latest minute that fires among the last
  -- `grace` minutes, where the window does not reach back past the first day.
  pub cron_fire_key_iff :
      (t : Moment) → (cron_fire_key s now grace ≡ some t) ↔ IsLatestFire s now grace t
  cron_fire_key_iff t = (cron_fire_key-some t, λ h. IsLatestFire-cron_fire_key t h _ refl)

-- Every later poll inside the grace window of a fire time has the same key, as long as no new fire
-- time has come.
pub cron_fire_key_stable :
    (s : CronSpec) (now grace : ℕ) (t now' : Moment)
    → grace ≤ now
    → cron_fire_key s now grace ≡ some t
    → now ≤ now'
    → now' ≤ t + grace
    → ((u : Moment) → now < u → u ≤ now' → matches s u ≡ false)
    → cron_fire_key s now' grace ≡ some t
cron_fire_key_stable s now grace t now' enough e a b quiet =
    let k = (cron_fire_key_iff s now grace enough t).0 e in
    (cron_fire_key_iff s now' grace (omega arith) t).1 (record {
      reached = omega arith;
      in_grace = b;
      fires = k.fires;
      latest = λ u x y. elim (dec_lt now u) [
        | yes after ↦ quiet u after y
        | no before ↦ k.latest u x (omega arith)
      ];
    })
