-- ===== src/Reconcile/Settled.antt =====
-- Reconciling a settled book does nothing: no order is cancelled, placed or re-priced.
use robo_trade.Base.{
  String, ◌≡◌, refl, false, none, some, List, [], ◌∷◌, ◌++◌, arith, All, if◌then◌else◌, ok,
  get_or_else,
}
use mathlib.Core.List.{append-nil, append_assoc}
use robo_trade.Base.Dict.{Dict, lookup, insert, has_key}
use robo_trade.Base.Float.{Float}
use robo_trade.Interfaces.{DesiredOrder}
use robo_trade.Reconcile.{
  WorkingOrder, Broker, Outcome, unchanged, outcome, working_by_id, wanted_orders,
  needs_replacement, cancel_loop, place_loop, settle, reconcile_orders,
}

module _ {F : Type 0} ⦃f : Float F⦄ where
  -- The wanted order stands recorded behind an id that works and needs no new price.
  abbrev pub IsResting : Dict (WorkingOrder F) → Dict String → String × DesiredOrder F → Type 0
  IsResting working recorded (key, d) =
      (id : String) × (lookup key recorded ≡ some id)
      × ((w : WorkingOrder F) × (lookup id working ≡ some w) × (needs_replacement d w ≡ false))

  -- Every recorded key is wanted, or its order has left the working set.
  abbrev pub IsKept : Dict (DesiredOrder F) → Dict (WorkingOrder F) → String × String → Type 0
  IsKept wanted working (key, id) = (if has_key key wanted then none else lookup id working) ≡ none

  -- The ids that `recorded` holds for the wanted keys.
  abbrev pub recorded_ids : Dict String → Dict (DesiredOrder F) → Dict String → Dict String
  recorded_ids recorded [] ids = ids
  recorded_ids recorded ((key, d) ∷ wanted) ids =
      recorded_ids recorded wanted (insert key (get_or_else (lookup key recorded) "") ids)

  abbrev pub unchanged_outcomes : Dict String → Dict (DesiredOrder F) → List (Outcome F)
  unchanged_outcomes recorded [] = []
  unchanged_outcomes recorded ((key, d) ∷ wanted) =
      outcome key unchanged (get_or_else (lookup key recorded) "") d
      ∷ unchanged_outcomes recorded wanted

module _ {F S : Type 0} ⦃f : Float F⦄ where
  module _ (b : Broker F S) where
    cancel_loop_kept :
        (wanted : Dict (DesiredOrder F)) (working : Dict (WorkingOrder F)) (recorded : Dict String)
        (results : List (Outcome F)) (s : S)
        → All (IsKept wanted working) recorded
        → cancel_loop b wanted working recorded results s ≡ (ok results, s)
    unfolding cancel_loop
    cancel_loop_kept wanted working [] results s h = refl
    cancel_loop_kept wanted working ((key, id) ∷ recorded) results s h =
        ground (arith, cancel_loop_kept wanted working recorded results s h.1)

    settle_resting :
        (working : Dict (WorkingOrder F)) (recorded ids : Dict String) (key : String)
        (d : DesiredOrder F) (s : S)
        → IsResting working recorded (key, d)
        → let id = get_or_else (lookup key recorded) "" in
          settle b key d id ids (lookup id working) s
          ≡ (ok (outcome key unchanged id d, insert key id ids), s)
    settle_resting working recorded ids key d s (id, found, (w, works, same)) =
        rw (found, works, same)

    place_loop_resting :
        (wanted : Dict (DesiredOrder F)) (working : Dict (WorkingOrder F)) (recorded : Dict String)
        (results : List (Outcome F)) (ids : Dict String) (s : S)
        → All (IsResting working recorded) wanted
        → place_loop b wanted working recorded results ids s ≡ (
          ok (results ++ unchanged_outcomes recorded wanted, recorded_ids recorded wanted ids),
          s,
        )
    unfolding place_loop
    place_loop_resting [] working recorded results ids s h = rw append-nil
    place_loop_resting ((key, d) ∷ wanted) working recorded results ids s h =
        rw (settle_resting working recorded ids key d s h.0)
          (rw (place_loop_resting wanted working recorded _ _ s h.1) (simp append_assoc))

    -- Where every desired order works already under its recorded id and needs no new price, and every
    -- other recorded order has left the working set, a run calls the broker for nothing but the list:
    -- it reports each order as unchanged and records the same ids again. So a second run at once is the
    -- same as one.
    pub reconcile_orders_settled :
        (desired : List (DesiredOrder F)) (recorded : Dict String) (s s' : S)
        (working : List (WorkingOrder F))
        → b.get_orders s ≡ (ok working, s')
        → All (IsResting (working_by_id working) recorded) (wanted_orders desired)
        → All (IsKept (wanted_orders desired) (working_by_id working)) recorded
        → reconcile_orders b desired recorded s ≡ (
          ok (record {
            results = unchanged_outcomes recorded (wanted_orders desired);
            order_ids = recorded_ids recorded (wanted_orders desired) [];
            working = working;
          }),
          s',
        )
    unfolding reconcile_orders
    reconcile_orders_settled desired recorded s s' working list resting kept = rw (
      list,
      cancel_loop_kept (wanted_orders desired) (working_by_id working) recorded [] s' kept,
      place_loop_resting (wanted_orders desired) (working_by_id working) recorded [] [] s' resting,
    )
