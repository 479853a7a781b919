-- ===== src/Reconcile/Records.antt =====
-- What a run records: the order behind every wanted key, and nothing for a rejected one.
use robo_trade.Base.{
  String, ◌≡◌, refl, Bool, true, false, Option, none, some, arith, if◌then◌else◌, Result, ok, err,
  str_eq, eq_iff, get_or_else, Bool-cases, inl, inr,
}
use robo_trade.Base.Dict.{Dict, lookup, insert, lookup-insert, lookup-erase}
use robo_trade.Base.Float.{Float}
use robo_trade.Base.Exec.{◌>>=◌, proceed, pure}
use robo_trade.Interfaces.{DesiredOrder}
use robo_trade.Reconcile.{
  WorkingOrder, Broker, Failure, Outcome, Reconciled, cancelled, rejected, submitted, resubmitted,
  replaced, unchanged, outcome, needs_replacement, submit_result, submit, relabel, after_replace,
  replace, settle,
}

-- Whether an outcome leaves an order at the broker.
abbrev pub stands : Reconciled → Bool
stands cancelled = false
stands rejected = false
stands _ = true

-- The record has the outcome's order id under its key, or nothing if no order stands there.
abbrev pub IsRecorded : {F : Type 0} → Dict String → Outcome F → Type 0
IsRecorded ids o = lookup o.key ids ≡ (if stands o.reconciled then some o.order_id else none)

-- What a step for a key says, where the call did not raise.
abbrev pub Placed : {F : Type 0} → String → Dict String → Outcome F × Dict String → Type 0
Placed key ids (o, ids') =
    (o.key ≡ key)
    × IsRecorded ids' o
    × ((k : String) → str_eq key k ≡ false → lookup k ids' ≡ lookup k ids)

abbrev pub Ensures : {A S : Type 0} → (A → Type 0) → Result Failure A × S → Type 0
Ensures P (ok a, s) = P a
Ensures P (err e, s) = Unit

module _ {F S : Type 0} ⦃f : Float F⦄ (b : Broker F S) where
  insert-Placed :
      (key id : String) (ids : Dict String) (o : Outcome F)
      → o.key ≡ key
      → o.order_id ≡ id
      → stands o.reconciled ≡ true
      → Placed key ids (o, insert key id ids)
  insert-Placed key id ids o e e' t = (
    e,
    ground (arith, lookup-insert key o.key id ids, eq_iff key o.key),
    λ k ne. ground (arith, lookup-insert key k id ids),
  )

  submit_result-Placed :
      (key : String) (d : DesiredOrder F) (ids : Dict String)
      → lookup key ids ≡ none
      → (reply : Result Failure (Option String)) → Placed key ids (submit_result b key d ids reply)
  submit_result-Placed key d ids fresh (ok reply) =
      let id : String = get_or_else reply "" in
      insert-Placed key id ids (outcome key submitted id d) refl refl refl
  submit_result-Placed key d ids fresh (err e) = (refl, fresh, λ k ne. refl)

  submit-Placed :
      (key : String) (d : DesiredOrder F) (ids : Dict String) (s : S)
      → lookup key ids ≡ none
      → Ensures (Placed key ids) (submit b key d ids s)
  unfolding submit
  submit-Placed key d ids s fresh =
      submit_result-Placed key d ids fresh (b.submit_order d.request s).0

  relabel-Placed :
      (key old : String) (d : DesiredOrder F) (ids : Dict String)
      → (reply : Result Failure (Option String))
      → Placed key ids (relabel b key old (submit_result b key d ids reply))
  relabel-Placed key old d ids (ok reply) =
      let id : String = get_or_else reply "" in
      let o : Outcome F = outcome key resubmitted id d in
      insert-Placed key id ids (record o { previous_order_id = some old }) refl refl refl
  relabel-Placed key old d ids (err e) = (
    refl,
    ground (arith, lookup-erase key key ids, eq_iff key key),
    λ k ne. ground (arith, lookup-erase key k ids),
  )

  resubmit-Placed :
      (key old : String) (d : DesiredOrder F) (ids : Dict String)
      → (cancel : Result Failure (Unit {0}) × S)
      → Ensures (Placed key ids) (
          proceed cancel.0
            (λ _. submit b key d ids >>= λ sent. pure (relabel b key old sent))
            cancel.1)
  unfolding submit
  resubmit-Placed key old d ids (ok u, s) =
      relabel-Placed key old d ids (b.submit_order d.request s).0
  resubmit-Placed key old d ids (err e, s) = tt

  after_replace-Placed :
      (key old : String) (d : DesiredOrder F) (ids : Dict String) (s : S)
      → (reply : Result Failure (Option String))
      → Ensures (Placed key ids) (after_replace b key d old ids reply s)
  after_replace-Placed key old d ids s (ok reply) =
      let id : String = get_or_else reply old in
      let o : Outcome F = outcome key replaced id d in
      insert-Placed key id ids (record o { previous_order_id = some old }) refl refl refl
  after_replace-Placed key old d ids s (err e) =
      resubmit-Placed key old d ids (b.cancel_order old s)

  pub settle-Placed :
      (key id : String) (d : DesiredOrder F) (ids : Dict String) (w : Option (WorkingOrder F))
      (s : S)
      → lookup key ids ≡ none
      → Ensures (Placed key ids) (settle b key d id ids w s)
  unfolding replace
  settle-Placed key id d ids none s fresh = submit-Placed key d ids s fresh
  settle-Placed key id d ids (some w) s fresh = elim (Bool-cases (needs_replacement d w)) [
    | inl yes_replace ↦ rw yes_replace (
        after_replace-Placed key id d ids (b.replace_order id d.request s).1
          (b.replace_order id d.request s).0)
    | inr no_replace ↦
        rw no_replace (insert-Placed key id ids (outcome key unchanged id d) refl refl refl)
  ]
