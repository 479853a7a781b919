-- ===== src/Bursty/Drawn.antt =====
-- src/algorithms/bursty_dca/algorithm.py: what `state_after` draws from each symbol.
use robo_trade.Base.{
  String, ◌≡◌, refl, ap, ◌∙◌, Bool, true, false, not, ◌&&◌, Option, none, some, List, [], ◌∷◌, ◌++◌,
  if◌then◌else◌, Bool-cases, inl, inr, str_eq, eq_iff,
}
use robo_trade.Base.Dict.{Dict, lookup, lookup-insert}
use robo_trade.Base.Float.{Float, ◌⊖◌, ◌⊗◌, le, zero_float, abs_float}
use robo_trade.Orders.{sum_from}
use robo_trade.Pipeline.Outcome.{OrderRow, leg_row, unfunded_leg, leg_row_status, is_submitted}
use robo_trade.Orders.Submission.{LegStatus, not_feasible, leg_rejected, leg_submitted}
use robo_trade.Text.{upper}
use robo_trade.Bursty.{SymbolState}
use robo_trade.Bursty.Ledger.{
  symbol_of_row, deployed_by, counts, spend_found, draw_down_row, draw_down,
}

module _ {F : Type 0} ⦃f : Float F⦄ where
  -- The dollars of a row of the symbol: of a leg that was submitted, where they are positive. A leg that
  -- was refused or is not feasible and an unfunded row put nothing to work.
  abbrev pub dollars_at : F → List F
  dollars_at deployed = if le deployed zero_float then [] else deployed ∷ []

  abbrev pub leg_dollars : LegStatus → F → List F
  leg_dollars (leg_submitted id) deployed = dollars_at deployed
  leg_dollars (leg_rejected reason) deployed = []
  leg_dollars (not_feasible reason) deployed = []

  abbrev pub row_dollars : String → OrderRow F → List F
  row_dollars k (unfunded_leg o) = []
  row_dollars k (leg_row r) =
      if str_eq (upper r.planned.symbol) k
      then leg_dollars r.status (abs_float r.sent_quantity ⊗ r.planned.latest_price)
      else []

  -- The dollars that the rows of one symbol put to work, in their order.
  abbrev pub spent : String → List (OrderRow F) → List F
  spent k [] = []
  spent k (row ∷ rows) = row_dollars k row ++ spent k rows

  abbrev pub less_from : F → List F → F
  less_from acc [] = acc
  less_from acc (x ∷ xs) = less_from (acc ⊖ x) xs

  abbrev pub settle : List F → SymbolState F → SymbolState F
  settle amounts state = record state {
    accrued = less_from state.accrued amounts;
    deployed_this_month = sum_from state.deployed_this_month amounts;
  }

  abbrev pub settle_found : List F → Option (SymbolState F) → Option (SymbolState F)
  settle_found amounts none = none
  settle_found amounts (some state) = some (settle amounts state)

  settle_found_nil : (o : Option (SymbolState F)) → o ≡ settle_found [] o
  settle_found_nil none = refl
  settle_found_nil (some state) = refl

  -- A row that counts, of the symbol or of another one.
  lookup-spend_found :
      (j k : String) (deployed : F) (amounts : List F) (o : Option (SymbolState F))
      (accrual : Dict (SymbolState F))
      → lookup j accrual ≡ o
      → settle_found amounts (lookup k (spend_found j deployed o accrual))
        ≡ settle_found (if str_eq j k then deployed ∷ amounts else amounts) (lookup k accrual)
  lookup-spend_found j k deployed amounts none accrual e = elim (Bool-cases (str_eq j k)) [
    | inl same ↦ rw (same, ← (eq_iff j k).0 same, e) refl
    | inr other ↦ rw other refl
  ]
  lookup-spend_found j k deployed amounts (some state) accrual e = elim (Bool-cases (str_eq j k)) [
    | inl same ↦ rw (lookup-insert, same, ← (eq_iff j k).0 same, e) refl
    | inr other ↦ rw (lookup-insert, other) refl
  ]

  unnamed : (named : Bool) (amounts : List F) → amounts ≡ (if named then [] else []) ++ amounts
  unnamed true amounts = refl
  unnamed false amounts = refl

  spread :
      (named : Bool) (deployed : F) (amounts : List F)
      → (if named then deployed ∷ amounts else amounts)
        ≡ (if named then deployed ∷ [] else []) ++ amounts
  spread true deployed amounts = refl
  spread false deployed amounts = refl

  by_status :
      (status : LegStatus) (named : Bool) (deployed : F) (amounts : List F)
      → (if is_submitted (leg_row_status status) && not (le deployed zero_float)
          then if named then deployed ∷ amounts else amounts
          else amounts)
        ≡ (if named then leg_dollars status deployed else []) ++ amounts
  by_status (not_feasible reason) named deployed amounts = unnamed named amounts
  by_status (leg_rejected reason) named deployed amounts = unnamed named amounts
  by_status (leg_submitted id) named deployed amounts = elim (Bool-cases (le deployed zero_float)) [
    | inl small ↦ rw small (unnamed named amounts)
    | inr positive ↦ rw positive (spread named deployed amounts)
  ]

  -- What the code tests of a row is that its leg was submitted, and for positive dollars.
  counted_dollars :
      (k : String) (row : OrderRow F) (amounts : List F)
      → (if counts row
          then if str_eq (symbol_of_row row) k then deployed_by row ∷ amounts else amounts
          else amounts)
        ≡ row_dollars k row ++ amounts
  counted_dollars k (unfunded_leg o) amounts = refl
  counted_dollars k (leg_row r) amounts =
      by_status r.status (str_eq (upper r.planned.symbol) k) (deployed_by (leg_row r)) amounts

  lookup-draw_down_row :
      (k : String) (row : OrderRow F) (amounts : List F) (accrual : Dict (SymbolState F))
      → settle_found amounts (lookup k (draw_down_row row accrual))
        ≡ settle_found
            (if counts row
              then if str_eq (symbol_of_row row) k then deployed_by row ∷ amounts else amounts
              else amounts)
            (lookup k accrual)
  lookup-draw_down_row k row amounts accrual = elim (Bool-cases (counts row)) [
    | inl counted ↦
        rw counted
          (lookup-spend_found (symbol_of_row row) k (deployed_by row) amounts _ accrual refl)
    | inr skipped ↦ rw skipped refl
  ]

  -- After a run the balance of a symbol is what it was less, and what is deployed this month is what it
  -- was and, exactly the positive dollars of the legs of that symbol that were submitted, one after the
  -- other: a leg that was rejected or is not feasible, an unfunded row and the rows of other symbols draw nothing, and a symbol that is
  -- not in the memory does not enter it.
  pub lookup-draw_down :
      (k : String) (rows : List (OrderRow F)) (accrual : Dict (SymbolState F))
      → lookup k (draw_down rows accrual) ≡ settle_found (spent k rows) (lookup k accrual)
  unfolding draw_down
  lookup-draw_down k [] accrual = settle_found_nil (lookup k accrual)
  lookup-draw_down k (row ∷ rows) accrual =
      lookup-draw_down k rows (draw_down_row row accrual)
      ∙ (lookup-draw_down_row k row (spent k rows) accrual
          ∙ ap (λ amounts. settle_found amounts (lookup k accrual))
              (counted_dollars k row (spent k rows)))
