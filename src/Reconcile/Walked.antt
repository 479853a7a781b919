-- ===== src/Reconcile/Walked.antt =====
-- src/core/reconcile.py: what the loop over the wanted orders and the loop over the cancelled ones do.
use mathlib.Core.List.{append_assoc, append-nil}
use robo_trade.Base.{
  String, ◌≡◌, ◌∙◌, refl, sym, true, false, none, List, [], ◌∷◌, ◌++◌, arith, All, Result, ok, err,
  eq_iff, get_or_else, Option-cases, Bool-cases, inl, inr,
}
use robo_trade.Base.Dict.{Dict, lookup, keys, has_key, mem_name, IsDistinct}
use robo_trade.Base.Float.{Float}
use robo_trade.Base.Exec.{proceed}
use robo_trade.Interfaces.{DesiredOrder}
use robo_trade.Reconcile.{
  WorkingOrder, Broker, Failure, Outcome, cancelled, cancel_outcome, settle, place_loop,
  cancel_loop,
}
use robo_trade.Reconcile.Records.{IsRecorded, Placed, Ensures, settle-Placed}

module _ {F S : Type 0} ⦃f : Float F⦄ (b : Broker F S) where
  -- The outcomes of the wanted orders, one for each and in their order.
  abbrev pub IsPlaced : Dict String → Dict (DesiredOrder F) → List (Outcome F) → Type 0
  IsPlaced ids [] [] = Unit
  IsPlaced ids [] (o ∷ os) = ⊥
  IsPlaced ids (e ∷ wanted) [] = ⊥
  IsPlaced ids (e ∷ wanted) (o ∷ os) = ((o.key ≡ e.0) × IsRecorded ids o) × IsPlaced ids wanted os

  abbrev pub AreFresh : Dict String → Dict (DesiredOrder F) → Type 0
  AreFresh ids wanted = (k : String) → mem_name k (keys wanted) ≡ true → lookup k ids ≡ none

  -- What the second loop adds to the results and to the ids.
  abbrev pub Extends :
      Dict (DesiredOrder F)
      → List (Outcome F)
      → Dict String
      → List (Outcome F) × Dict String
      → Type 0
  Extends wanted results ids (results', ids') =
      ((os : List (Outcome F)) × (results' ≡ results ++ os) × IsPlaced ids' wanted os)
      × ((k : String) → mem_name k (keys wanted) ≡ false → lookup k ids' ≡ lookup k ids)

  Extends-after :
      (key : String) (d : DesiredOrder F) (wanted : Dict (DesiredOrder F))
      (results : List (Outcome F)) (ids ids1 : Dict String) (o : Outcome F)
      (r : Result Failure (List (Outcome F) × Dict String) × S)
      → mem_name key (keys wanted) ≡ false
      → Placed key ids (o, ids1)
      → Ensures (Extends wanted (results ++ o ∷ []) ids1) r
      → Ensures (Extends ((key, d) ∷ wanted) results ids) r
  Extends-after key d wanted results ids ids1 o (err e, s) new p h = tt
  Extends-after key d wanted results ids ids1 o (ok (results', ids'), s) new (e, recorded, frame)
        ((os, split, placed), kept) =
      let same : lookup o.key ids' ≡ lookup o.key ids1 = kept o.key (rw e new) in
      (
        (o ∷ os, split ∙ append_assoc results (o ∷ []) os, ((e, same ∙ recorded), placed)),
        λ k ne. ground (arith, kept k, frame k),
      )

  AreFresh-after :
      (key : String) (d : DesiredOrder F) (wanted : Dict (DesiredOrder F)) (ids ids1 : Dict String)
      (o : Outcome F)
      → mem_name key (keys wanted) ≡ false
      → AreFresh ids ((key, d) ∷ wanted)
      → Placed key ids (o, ids1)
      → AreFresh ids1 wanted
  AreFresh-after key d wanted ids ids1 o new fresh p k m =
      ground (arith, p.2 k, fresh k, eq_iff key k)

  -- The step for the first wanted order, then the rest of the loop, which is given as `go`.
  proceed-Extends :
      (key : String) (d : DesiredOrder F) (wanted : Dict (DesiredOrder F))
      (results : List (Outcome F)) (ids : Dict String)
      (go : List (Outcome F)
        → Dict String
        → S
        → Result Failure (List (Outcome F) × Dict String) × S)
      → ((rs : List (Outcome F)) (ids1 : Dict String) (s : S)
          → AreFresh ids1 wanted
          → Ensures (Extends wanted rs ids1) (go rs ids1 s))
      → mem_name key (keys wanted) ≡ false
      → AreFresh ids ((key, d) ∷ wanted)
      → (done : Result Failure (Outcome F × Dict String) × S) → Ensures (Placed key ids) done
      → Ensures
          (Extends ((key, d) ∷ wanted) results ids)
          (proceed done.0 (λ x. go (results ++ x.0 ∷ []) x.1) done.1)
  proceed-Extends key d wanted results ids go ih new fresh (err e, s) p = tt
  proceed-Extends key d wanted results ids go ih new fresh (ok (o, ids1), s) p =
      Extends-after key d wanted results ids ids1 o (go (results ++ o ∷ []) ids1 s) new p
        (ih (results ++ o ∷ []) ids1 s (AreFresh-after key d wanted ids ids1 o new fresh p))

  pub place_loop-Extends :
      (wanted : Dict (DesiredOrder F)) (working : Dict (WorkingOrder F)) (recorded : Dict String)
      (results : List (Outcome F)) (ids : Dict String) (s : S)
      → IsDistinct wanted
      → AreFresh ids wanted
      → Ensures (Extends wanted results ids) (place_loop b wanted working recorded results ids s)
  unfolding place_loop
  place_loop-Extends [] working recorded results ids s distinct fresh =
      (([], sym (append-nil results), tt), λ k ne. refl)
  place_loop-Extends ((key, d) ∷ wanted) working recorded results ids s distinct fresh =
      let id : String = get_or_else (lookup key recorded) "" in
      proceed-Extends key d wanted results ids (place_loop b wanted working recorded)
        (λ rs ids1 s1 fresh1.
          place_loop-Extends wanted working recorded rs ids1 s1 distinct.1 fresh1)
        distinct.0 fresh (settle b key d id ids (lookup id working) s)
        (settle-Placed b key id d ids (lookup id working) s
          (fresh key (ground (arith, eq_iff key key))))

  -- A cancellation of the first loop: its key is not wanted, and its order was working.
  abbrev pub IsCancelled : Dict (DesiredOrder F) → Dict (WorkingOrder F) → Outcome F → Type 0
  IsCancelled wanted working o =
      (o.reconciled ≡ cancelled)
      × (has_key o.key wanted ≡ false)
      × (has_key o.order_id working ≡ true)

  abbrev pub Cancels :
      Dict (DesiredOrder F) → Dict (WorkingOrder F) → List (Outcome F) → List (Outcome F) → Type 0
  Cancels wanted working results results' =
      (os : List (Outcome F)) × (results' ≡ results ++ os) × All (IsCancelled wanted working) os

  Cancels-after :
      (wanted : Dict (DesiredOrder F)) (working : Dict (WorkingOrder F))
      (results : List (Outcome F)) (o : Outcome F) (r : Result Failure (List (Outcome F)) × S)
      → IsCancelled wanted working o
      → Ensures (Cancels wanted working (results ++ o ∷ [])) r
      → Ensures (Cancels wanted working results) r
  Cancels-after wanted working results o (err e, s) c h = tt
  Cancels-after wanted working results o (ok rs, s) c (os, split, cs) =
      (o ∷ os, split ∙ append_assoc results (o ∷ []) os, (c, cs))

  after_cancel :
      (wanted : Dict (DesiredOrder F)) (working : Dict (WorkingOrder F))
      (results : List (Outcome F)) (o : Outcome F) (go : S → Result Failure (List (Outcome F)) × S)
      → ((s : S) → Ensures (Cancels wanted working (results ++ o ∷ [])) (go s))
      → IsCancelled wanted working o
      → (done : Result Failure (Unit {0}) × S)
      → Ensures (Cancels wanted working results) (proceed done.0 (λ _. go) done.1)
  after_cancel wanted working results o go ih c (err e, s) = tt
  after_cancel wanted working results o go ih c (ok u, s) =
      Cancels-after wanted working results o (go s) c (ih s)

  pub cancel_loop-Cancels :
      (wanted : Dict (DesiredOrder F)) (working : Dict (WorkingOrder F)) (recorded : Dict String)
      (results : List (Outcome F)) (s : S)
      → Ensures (Cancels wanted working results) (cancel_loop b wanted working recorded results s)
  unfolding cancel_loop
  cancel_loop-Cancels wanted working [] results s = ([], sym (append-nil results), tt)
  cancel_loop-Cancels wanted working ((key, id) ∷ recorded) results s =
      elim (Bool-cases (has_key key wanted)) [
        | inl kept ↦ rw kept (cancel_loop-Cancels wanted working recorded results s)
        | inr unwanted ↦ elim (Option-cases (lookup id working)) [
          | inl gone ↦ rw (unwanted, gone) (cancel_loop-Cancels wanted working recorded results s)
          | inr (w, works) ↦
              rw (unwanted, works)
                (after_cancel wanted working results (cancel_outcome key id w)
                  (cancel_loop b wanted working recorded (results ++ cancel_outcome key id w ∷ []))
                  (cancel_loop-Cancels wanted working recorded _) (refl, unwanted, rw works)
                  (b.cancel_order id s))
        ]
      ]
