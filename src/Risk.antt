-- ===== src/Risk.antt =====
-- src/algorithms/risk.py: the circuit breaker of a session.
mod Tests
use robo_trade.Base.{
  ℕ, Bool, true, false, not, ◌&&◌, ◌||◌, Option, none, some, List, [], ◌∷◌, if◌then◌else◌, any, All,
  ◌==◌, ==_iff, ◌≡◌, ◌≢◌, ◌∙◌, refl, sym, ap, Bool-cases, inl, inr, arith,
}
use robo_trade.Base.Float.{Float, ◌⊖◌, ◌⊘◌, le, lt, zero_float, one_float, nonzero}

-- `state`: a missing session is `none`, a missing equity zero. A session is the ordinal of its day.
pub record Breaker (F : Type 0) : Type 0 where
  pub session : Option ℕ
  pub session_start_equity : F
  pub halted : Bool
  pub session_drawdown : F

-- The moment's day and the equity at it.
pub record Observation (F : Type 0) : Type 0 where
  pub day : ℕ
  pub equity : F

abbrev pub is_session : Option ℕ → ℕ → Bool
is_session none day = false
is_session (some d) day = d == day

if-or : (b h : Bool) → (if b then true else h) ≡ (b || h)
if-or true h = refl
if-or false h = refl

or_first : (b a h : Bool) → (a || (b || h)) ≡ ((b || a) || h)
or_first true true h = refl
or_first true false h = refl
or_first false a h = refl

==-same : (d : ℕ) → (d == d) ≡ true
==-same d = (==_iff d d).1 refl

module _ {F : Type 0} ⦃f : Float F⦄ where
  -- The first test: a new session forgets the old one.
  abbrev pub open_session : Observation F → Breaker F → Breaker F
  open_session o s =
      if is_session s.session o.day
      then s
      else record s { session = some o.day; session_start_equity = o.equity; halted = false }

  abbrev pub drawdown_of : F → F → F
  drawdown_of start equity =
      if lt zero_float start then (equity ⊘ start) ⊖ one_float else zero_float

  abbrev pub start_of : Observation F → Breaker F → F
  start_of o s = if nonzero s.session_start_equity then s.session_start_equity else o.equity

  -- The rest of the function, in an open session.
  abbrev pub measure : F → Observation F → Breaker F → Breaker F
  measure limit o s =
      let drawdown : F = drawdown_of (start_of o s) o.equity in
      record s {
        halted = if le drawdown limit then true else s.halted;
        session_drawdown = drawdown;
      }

  -- `session_drawdown_breached`, with the state that it leaves.
  unfoldable pub session_drawdown_breached : F → Observation F → Breaker F → Bool × Breaker F
  session_drawdown_breached limit o s =
      let s' : Breaker F = measure limit o (open_session o s) in (s'.halted, s')

  -- The breaker after some observations.
  unfoldable pub observe_all : F → List (Observation F) → Breaker F → Breaker F
  unfolding session_drawdown_breached
  observe_all limit [] s = s
  observe_all limit (o ∷ os) s = observe_all limit os (session_drawdown_breached limit o s).1

  -- The equity is down from the start by the limit or more.
  abbrev pub is_breach : F → F → Observation F → Bool
  is_breach limit start o = le (drawdown_of start o.equity) limit

  -- An observation of the session that is open.
  observe_same :
      (limit start : F) (o : Observation F) (s : Breaker F)
      → is_session s.session o.day ≡ true
      → s.session_start_equity ≡ start
      → nonzero start ≡ true
      → let s' = (session_drawdown_breached limit o s).1 in
        (s'.halted ≡ (is_breach limit start o || s.halted))
        × (s'.session ≡ s.session)
        × (s'.session_start_equity ≡ start)
  unfolding session_drawdown_breached
  observe_same limit start o s same e live =
      rw (same, e, live) (if-or (is_breach limit start o) s.halted, refl, refl)

  abbrev pub IsOn : ℕ → Observation F → Type 0
  IsOn day o = o.day ≡ day

  -- More observations of the session that is open.
  observe_session :
      (limit start : F) (day : ℕ) (os : List (Observation F)) (s : Breaker F)
      → is_session s.session day ≡ true
      → s.session_start_equity ≡ start
      → nonzero start ≡ true
      → All (IsOn day) os
      → (observe_all limit os s).halted ≡ (any (is_breach limit start) os || s.halted)
  unfolding observe_all
  observe_session limit start day [] s same e live on = refl
  observe_session limit start day (o ∷ os) s same e live on =
      let (halts, kept, starts) =
        observe_same limit start o s (ap (is_session s.session) on.0 ∙ same) e live in
      let rest =
        observe_session limit start day os (session_drawdown_breached limit o s).1
          (ap (λ (x : Option ℕ). is_session x day) kept ∙ same) starts live on.1 in
      rest
      ∙ (ap (λ (h : Bool). any (is_breach limit start) os || h) halts
          ∙ or_first (is_breach limit start o) (any (is_breach limit start) os) s.halted)

  -- The first observation of a new session.
  observe_new :
      (limit : F) (o : Observation F) (s : Breaker F)
      → is_session s.session o.day ≡ false
      → nonzero o.equity ≡ true
      → let s' = (session_drawdown_breached limit o s).1 in
        (s'.halted ≡ (is_breach limit o.equity o || false))
        × (s'.session ≡ some o.day)
        × (s'.session_start_equity ≡ o.equity)
  unfolding session_drawdown_breached
  observe_new limit o s other live =
      rw (other, live) (if-or (is_breach limit o.equity o) false, refl, refl)

  -- Over the observations of a session, whatever the session before left, the breaker is tripped
  -- exactly when one of them so far was down from the first by the limit or more: it trips at once and
  -- stays tripped. The equity of the first is not zero.
  pub observe_all_lem :
      (limit : F) (o : Observation F) (os : List (Observation F)) (s : Breaker F)
      → is_session s.session o.day ≡ false
      → nonzero o.equity ≡ true
      → All (IsOn o.day) os
      → (observe_all limit (o ∷ os) s).halted ≡ any (is_breach limit o.equity) (o ∷ os)
  unfolding observe_all
  observe_all_lem limit o os s other live on =
      let (halts, opened, starts) = observe_new limit o s other live in
      let rest =
        observe_session limit o.equity o.day os (session_drawdown_breached limit o s).1
          (ap (λ (x : Option ℕ). is_session x o.day) opened ∙ ==-same o.day) starts live on in
      rest
      ∙ (ap (λ (h : Bool). any (is_breach limit o.equity) os || h) halts
          ∙ (or_first (is_breach limit o.equity o) (any (is_breach limit o.equity) os) false
              ∙ or_nothing (is_breach limit o.equity o || any (is_breach limit o.equity) os)))
    where
      or_nothing : (b : Bool) → (b || false) ≡ b
      or_nothing true = refl
      or_nothing false = refl
