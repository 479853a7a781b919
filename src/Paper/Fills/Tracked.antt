-- ===== src/Paper/Fills/Tracked.antt =====
-- Every holding of the paper account has a cost basis, and no basis is left behind.
use robo_trade.Base.{
  ok, err, Result, String, ◌≡◌, ◌∙◌, refl, sym, Bool, true, false, not, ◌||◌, Option, none, some,
  err, arith, eq_iff, str_eq, if◌then◌else◌, get_or_else, Bool-cases, Option-cases, inl, inr,
}
use robo_trade.Base.Dict.{Dict, lookup, insert, erase, has_key, lookup-insert, lookup-erase}
use robo_trade.Base.Float.{Float, ◌⊕◌, lt, zero_float, abs_float}
use robo_trade.Interfaces.{Ticket, OrderRequest, ticket}
use robo_trade.Orders.{share_epsilon}
use robo_trade.Paper.{Book}
use robo_trade.Paper.Fills.{
  Fill, Refusal, submit_order, answer, refusal, filled_book, updated_basis, updated_positions,
  differ, price_for, signed_quantity, fill_price,
}

module _ {F : Type 0} ⦃f : Float F⦄ where
  -- The holdings and the cost basis have the same keys.
  abbrev pub IsTracked : Book F → Type 0
  IsTracked b = (k : String) → has_key k b.basis ≡ has_key k b.positions

  -- The book after a refusal is the one before.
  abbrev pub IsKeptIfRefused : Book F → Result Refusal (Fill F) × Book F → Type 0
  IsKeptIfRefused b (ok reply, b') = Unit
  IsKeptIfRefused b (err e, b') = b' ≡ b

  has_key-insert :
      (k j : String) (v : F) (d : Dict F)
      → has_key j (insert k v d) ≡ (if str_eq k j then true else has_key j d)
  has_key-insert k j v d = ground (arith, lookup-insert k j v d)

  has_key-erase :
      (k j : String) (d : Dict F)
      → has_key j (erase k d) ≡ (if str_eq k j then false else has_key j d)
  has_key-erase k j d = ground (arith, lookup-erase k j d)

  insert_known :
      (k j : String) (v : F) (d : Dict F)
      → has_key k d ≡ true
      → has_key j (insert k v d) ≡ has_key j d
  insert_known k j v d h = ground (arith, has_key-insert k j v d, eq_iff k j)

  has_key-if_insert :
      (test : Bool) (k j : String) (v : F) (d : Dict F)
      → has_key k d ≡ true
      → has_key j (if test then insert k v d else d) ≡ has_key j d
  has_key-if_insert true k j v d h = insert_known k j v d h
  has_key-if_insert false k j v d h = refl

  module _ (same_zero : f.same zero_float zero_float ≡ true) where
    -- A number that is not zero is held under its key.
    held-has_key :
        (symbol : String) (d : Dict F)
        → f.same (get_or_else (lookup symbol d) zero_float) zero_float ≡ false
        → has_key symbol d ≡ true
    held-has_key symbol d h = elim (Option-cases (lookup symbol d)) [
      | inl missing ↦ cc (rw missing at h, same_zero)
      | inr (v, found) ↦ rw found
    ]

    keys_agree :
        (symbol k : String) (held signed price : F) (basis positions : Dict F)
        → (f.same held zero_float ≡ false → has_key symbol positions ≡ true)
        → ((j : String) → has_key j basis ≡ has_key j positions)
        → has_key k (updated_basis symbol held signed price basis)
          ≡ has_key k (updated_positions symbol (held ⊕ signed) positions)
    unfolding updated_basis updated_positions
    keys_agree symbol k held signed price basis positions known same =
        elim (Bool-cases (lt (abs_float (held ⊕ signed)) share_epsilon)) [
          | inl closed ↦ rw closed (
              ground (
                arith,
                same k,
                has_key-erase symbol k basis,
                has_key-insert symbol k (held ⊕ signed) positions,
                has_key-erase symbol k (insert symbol (held ⊕ signed) positions),
              ))
          | inr stays ↦
              rw stays
                (elim (Bool-cases (
                  f.same held zero_float
                  || differ (lt zero_float held) (lt zero_float (held ⊕ signed)))) [
                    | inl fresh ↦ rw fresh (
                        ground (
                          arith,
                          same k,
                          has_key-insert symbol k price basis,
                          has_key-insert symbol k (held ⊕ signed) positions,
                        ))
                    | inr goes_on ↦ rw goes_on (
                        let here = known (ground arith) in
                        let base =
                          has_key-if_insert
                            (not (differ (lt zero_float signed) (lt zero_float held))) symbol k _
                            basis (same symbol ∙ here) in
                        base
                        ∙ (same k ∙ sym (insert_known symbol k (held ⊕ signed) positions here)))
                  ])
        ]

    -- A book after an order, filled or refused.
    answer-IsTracked :
        (id : String) (cost_bps : F) (t : Ticket F) (e : Option Refusal) (b : Book F)
        → IsTracked b
        → IsTracked (answer id cost_bps t e b).1
    unfolding filled_book
    answer-IsTracked id cost_bps t (some e) b h = h
    answer-IsTracked id cost_bps t none b h =
        let held : F = get_or_else (lookup t.symbol b.positions) zero_float in
        let signed : F = signed_quantity t in
        λ k.
          keys_agree t.symbol k held signed (fill_price cost_bps (price_for b t) signed) b.basis
            b.positions (held-has_key t.symbol b.positions) h

    -- An order, filled or refused, keeps a cost basis under exactly the symbols that are held; and an
    -- order that is refused changes nothing of the book. Zero is equal to itself.
    pub submit_order-IsTracked :
        (id : String) (cost_bps : F) (r : OrderRequest F) (b : Book F)
        → IsTracked b
        → IsTracked (submit_order id cost_bps r b).1
          × IsKeptIfRefused b (submit_order id cost_bps r b)
    unfolding submit_order
    submit_order-IsTracked id cost_bps r b h = (
      answer-IsTracked id cost_bps (ticket r) (refusal cost_bps (ticket r) b) b h,
      refused (refusal cost_bps (ticket r) b),
    )
      where
        refused : (o : Option Refusal) → IsKeptIfRefused b (answer id cost_bps (ticket r) o b)
        refused (some e) = refl
        refused none = tt
