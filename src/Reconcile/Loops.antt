-- ===== src/Reconcile/Loops.antt =====
-- src/core/reconcile.py: what a run of both loops that returns has done.
use mathlib.Core.Path.{subst}
use robo_trade.Base.{String, ◌≡◌, refl, List, [], ◌∷◌, ◌++◌, All, Result, ok, err}
use robo_trade.Base.Dict.{Dict, insert, IsDistinct, insert-IsDistinct}
use robo_trade.Base.Float.{Float}
use robo_trade.Base.Exec.{◌>>=◌, proceed, pure}
use robo_trade.Interfaces.{DesiredOrder}
use robo_trade.Reconcile.{
  WorkingOrder, Broker, Failure, Outcome, Report, working_by_id, wanted_from, wanted_orders,
  place_loop, cancel_loop, reconcile_orders,
}
use robo_trade.Reconcile.Records.{Ensures}
use robo_trade.Reconcile.Walked.{
  IsPlaced, Extends, place_loop-Extends, IsCancelled, Cancels, cancel_loop-Cancels,
}

wanted_from-IsDistinct :
    {F : Type 0} (d : Dict (DesiredOrder F)) (os : List (DesiredOrder F))
    → IsDistinct d
    → IsDistinct (wanted_from d os)
wanted_from-IsDistinct d [] h = h
wanted_from-IsDistinct d (o ∷ os) h =
    wanted_from-IsDistinct (insert o.key o d) os (insert-IsDistinct o.key o d h)

wanted_orders-IsDistinct : {F : Type 0} (os : List (DesiredOrder F)) → IsDistinct (wanted_orders os)
unfolding wanted_orders
wanted_orders-IsDistinct os = wanted_from-IsDistinct [] os tt

module _ {F S : Type 0} ⦃f : Float F⦄ (b : Broker F S) where
  -- The results are some cancellations and then one outcome for each wanted order, and the ids are
  -- those of the orders that stand.
  abbrev pub IsReconciled : List (DesiredOrder F) → Report F → Type 0
  IsReconciled desired r =
      let wanted = wanted_orders desired in
      (cancels : List (Outcome F)) × (placed : List (Outcome F)) × (r.results ≡ cancels ++ placed)
      × All (IsCancelled b wanted (working_by_id r.working)) cancels
      × IsPlaced b r.order_ids wanted placed

  placing-IsReconciled :
      (desired : List (DesiredOrder F)) (working : List (WorkingOrder F))
      (cancels : List (Outcome F)) (r : Result Failure (List (Outcome F) × Dict String) × S)
      → All (IsCancelled b (wanted_orders desired) (working_by_id working)) cancels
      → Ensures (Extends b (wanted_orders desired) cancels []) r
      → Ensures (IsReconciled desired) (
          proceed r.0
            (λ p. pure (record { results = p.0; order_ids = p.1; working = working }))
            r.1)
  placing-IsReconciled desired working cancels (err e, s) c h = tt
  placing-IsReconciled desired working cancels (ok (results, ids), s) c
        ((os, split, placed), kept) =
      (cancels, os, split, c, placed)

  cancelling-IsReconciled :
      (desired : List (DesiredOrder F)) (recorded : Dict String) (working : List (WorkingOrder F))
      (r : Result Failure (List (Outcome F)) × S)
      → Ensures (Cancels b (wanted_orders desired) (working_by_id working) []) r
      → Ensures (IsReconciled desired) (
          proceed r.0
            (λ results.
              place_loop b (wanted_orders desired) (working_by_id working) recorded results []
              >>= λ p. pure (record { results = p.0; order_ids = p.1; working = working }))
            r.1)
  cancelling-IsReconciled desired recorded working (err e, s) h = tt
  cancelling-IsReconciled desired recorded working (ok results, s) (os, split, cs) =
      placing-IsReconciled desired working results
        (place_loop b (wanted_orders desired) (working_by_id working) recorded results [] s)
        (rw split cs)
        (place_loop-Extends b (wanted_orders desired) (working_by_id working) recorded results [] s
          (wanted_orders-IsDistinct desired) (λ k m. refl))

  listing-IsReconciled :
      (desired : List (DesiredOrder F)) (recorded : Dict String)
      (r : Result Failure (List (WorkingOrder F)) × S)
      → Ensures (IsReconciled desired) (
          proceed r.0
            (λ working.
              cancel_loop b (wanted_orders desired) (working_by_id working) recorded []
              >>= λ results.
                  place_loop b (wanted_orders desired) (working_by_id working) recorded results []
                  >>= λ p. pure (record { results = p.0; order_ids = p.1; working = working }))
            r.1)
  listing-IsReconciled desired recorded (err e, s) = tt
  listing-IsReconciled desired recorded (ok working, s) =
      cancelling-IsReconciled desired recorded working
        (cancel_loop b (wanted_orders desired) (working_by_id working) recorded [] s)
        (cancel_loop-Cancels b (wanted_orders desired) (working_by_id working) recorded [] s)

  -- A run that returns reports some cancellations first, each of an order that was working and whose
  -- key is not wanted, and then one outcome for each wanted order, in their order. It records the
  -- order id of each outcome that leaves an order at the broker, and no id under the key of one that
  -- was rejected, the failed resubmissions included.
  pub reconcile_orders-IsReconciled :
      (desired : List (DesiredOrder F)) (recorded : Dict String) (s s' : S) (r : Report F)
      → reconcile_orders b desired recorded s ≡ (ok r, s')
      → IsReconciled desired r
  unfolding reconcile_orders
  reconcile_orders-IsReconciled desired recorded s s' r e =
      subst (Ensures (IsReconciled desired)) e
        (listing-IsReconciled desired recorded (b.get_orders s))
