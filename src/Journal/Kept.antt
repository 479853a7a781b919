-- ===== src/Journal/Kept.antt =====
-- src/data/order_journal.py: what the journal keeps of its runs, and what a read of it shows.
use mathlib.Core.List.{append-nil, reverse-cons, reverse-append}
use robo_trade.Base.{
  ℕ, zero, suc, ◌-◌, ◌≤◌, String, ◌≡◌, ◌∙◌, refl, sym, ap, Bool, true, false, ◌&&◌, ◌||◌, List, [],
  ◌∷◌, ◌++◌, map, reverse, if◌then◌else◌, length, take, drop, take_last, filter, ltb, str_eq,
  length-append, length-drop, Bool-cases, inl, inr, arith,
}
use robo_trade.Journal.{
  OrderResult, Entry, entry, append_entries, record_orders, is_about, load_order_journal,
}

module _ {A : Type 0} where
  length-reverse : (xs : List A) → length (reverse xs) ≡ length xs
  length-reverse [] = refl
  length-reverse (x ∷ xs) =
      ap length (reverse-append (x ∷ []) xs)
      ∙ (length-append (reverse xs) (x ∷ []) ∙ omega (arith, length-reverse xs))

  take_all : (n : ℕ) (xs : List A) → length xs ≤ n → take n xs ≡ xs
  take_all zero [] h = refl
  take_all (suc n) [] h = refl
  take_all zero (x ∷ xs) h = absurd (omega (arith, h))
  take_all (suc n) (x ∷ xs) h = ap (◌∷◌ x) (take_all n xs (omega (arith, h)))

  take-append_short : (n : ℕ) (xs ys : List A) → n ≤ length xs → take n (xs ++ ys) ≡ take n xs
  take-append_short zero xs ys h = refl
  take-append_short (suc n) [] ys h = absurd (omega (arith, h))
  take-append_short (suc n) (x ∷ xs) ys h =
      ap (◌∷◌ x) (take-append_short n xs ys (omega (arith, h)))

  -- The last items in reverse order are the first ones of the reverse.
  reverse-drop : (n : ℕ) (xs : List A) → reverse (drop n xs) ≡ take (length xs - n) (reverse xs)
  reverse-drop zero xs =
      sym (take_all (length xs - 0) (reverse xs) (omega (arith, length-reverse xs)))
  reverse-drop (suc n) [] = sym (take_all (0 - suc n) [] (omega arith))
  reverse-drop (suc n) (x ∷ xs) =
      let m : ℕ = length xs - n in
      let same : suc (length xs) - suc n ≡ m = omega arith in
      rw (same, reverse-cons x xs)
        (reverse-drop n xs
          ∙ sym (take-append_short m (reverse xs) (x ∷ []) (omega (arith, length-reverse xs))))

  take_clamped : (n : ℕ) (xs : List A) → take (length xs - (length xs - n)) xs ≡ take n xs
  take_clamped n xs = elim (Bool-cases (ltb (length xs) n)) [
    | inl long ↦
        let less : length xs ≤ n = ground (arith, long) in
        take_all (length xs - (length xs - n)) xs (omega (arith, less)) ∙ sym (take_all n xs less)
    | inr short ↦
        let more : n ≤ length xs = ground (arith, short) in
        let same : length xs - (length xs - n) ≡ n = omega (arith, more) in ap (λ m. take m xs) same
  ]

  reverse-take_last : (n : ℕ) (xs : List A) → reverse (take_last n xs) ≡ take n (reverse xs)
  reverse-take_last n xs =
      let m : ℕ = length xs - n in
      let same : length xs - m ≡ length (reverse xs) - (length (reverse xs) - n) =
        omega (arith, length-reverse xs) in
      reverse-drop m xs ∙ (ap (λ k. take k (reverse xs)) same ∙ take_clamped n (reverse xs))

  filter-append : (p : A → Bool) (xs ys : List A) → filter p (xs ++ ys) ≡ filter p xs ++ filter p ys
  filter-append p [] ys = refl
  filter-append p (x ∷ xs) ys = elim (Bool-cases (p x)) [
    | inl holds ↦ rw holds (ap (◌∷◌ x) (filter-append p xs ys))
    | inr fails ↦ rw fails (filter-append p xs ys)
  ]

  reverse-filter_cons :
      (p : A → Bool) (x : A) (xs : List A)
      → reverse (filter p xs) ≡ filter p (reverse xs)
      → reverse (filter p (x ∷ xs)) ≡ filter p (reverse xs) ++ filter p (x ∷ [])
  reverse-filter_cons p x xs h = elim (Bool-cases (p x)) [
    | inl holds ↦ rw holds (reverse-cons x (filter p xs) ∙ ap (λ l. l ++ (x ∷ [])) h)
    | inr fails ↦ rw fails (h ∙ sym (append-nil (filter p (reverse xs))))
  ]

  reverse-filter : (p : A → Bool) (xs : List A) → reverse (filter p xs) ≡ filter p (reverse xs)
  reverse-filter p [] = refl
  reverse-filter p (x ∷ xs) =
      rw (reverse-cons x xs, filter-append p (reverse xs) (x ∷ []))
        (reverse-filter_cons p x xs (reverse-filter p xs))

  -- Two tests, either of which may be waived, are one filter after the other.
  filter-narrowed :
      (any_p any_q : Bool) (p q : A → Bool) (xs : List A)
      → filter (λ x. (any_p || p x) && (any_q || q x)) xs ≡ (
          if any_q
          then if any_p then xs else filter p xs
          else filter q (if any_p then xs else filter p xs))
  filter-narrowed true true p q [] = refl
  filter-narrowed true true p q (x ∷ xs) = ap (◌∷◌ x) (filter-narrowed true true p q xs)
  filter-narrowed true false p q xs = refl
  filter-narrowed false true p q [] = refl
  filter-narrowed false true p q (x ∷ xs) = elim (Bool-cases (p x)) [
    | inl holds ↦ rw holds (ap (◌∷◌ x) (filter-narrowed false true p q xs))
    | inr fails ↦ rw fails (filter-narrowed false true p q xs)
  ]
  filter-narrowed false false p q [] = refl
  filter-narrowed false false p q (x ∷ xs) = elim (Bool-cases (p x)) [
    | inr fails ↦ rw fails (filter-narrowed false false p q xs)
    | inl holds ↦ elim (Bool-cases (q x)) [
      | inl also ↦ rw (holds, also) (ap (◌∷◌ x) (filter-narrowed false false p q xs))
      | inr other ↦ rw (holds, other) (filter-narrowed false false p q xs)
    ]
  ]

module _ {F : Type 0} where
  -- The rows of the strategy, or all of them where it is empty; and so for the account.
  abbrev pub of_strategy : String → List (Entry F) → List (Entry F)
  of_strategy strategy rows =
      if str_eq strategy "" then rows else filter (λ e. str_eq e.strategy strategy) rows

  abbrev pub of_account : String → List (Entry F) → List (Entry F)
  of_account account_id rows =
      if str_eq account_id "" then rows else filter (λ e. str_eq e.account_id account_id) rows

  -- The latest first: the rows of a run that the store took, and then those before it.
  abbrev pub latest_first :
      String → String → ℕ → Bool → List (OrderResult F) → List (Entry F) → List (Entry F)
  latest_first strategy account_id recorded_at true os journal = reverse journal
  latest_first strategy account_id recorded_at false os journal =
      reverse (map (entry strategy account_id recorded_at) os) ++ reverse journal

  filter-is_about :
      (strategy account_id : String) (rows : List (Entry F))
      → filter (is_about strategy account_id) rows
        ≡ of_account account_id (of_strategy strategy rows)
  filter-is_about strategy account_id rows =
      filter-narrowed (str_eq strategy "") (str_eq account_id "") (λ e. str_eq e.strategy strategy)
        (λ e. str_eq e.account_id account_id) rows

  length-append_entries : (journal es : List (Entry F)) → length (append_entries journal es) ≤ 400
  length-append_entries journal es =
      omega (arith, length-drop (length (journal ++ es) - 400) (journal ++ es))

  -- What a run leaves: no more than the cap, which are the latest rows.
  record_orders_kept :
      (strategy account_id : String) (recorded_at : ℕ) (raises : Bool) (os : List (OrderResult F))
      (journal : List (Entry F))
      → length journal ≤ 400
      → let after = record_orders strategy account_id recorded_at raises os journal in
        (length after ≤ 400)
        × (reverse after
            ≡ take 400 (latest_first strategy account_id recorded_at raises os journal))
  unfolding record_orders
  record_orders_kept strategy account_id recorded_at true [] journal h =
      (h, sym (take_all 400 (reverse journal) (omega (arith, length-reverse journal, h))))
  record_orders_kept strategy account_id recorded_at false [] journal h =
      (h, sym (take_all 400 (reverse journal) (omega (arith, length-reverse journal, h))))
  record_orders_kept strategy account_id recorded_at true (o ∷ os) journal h =
      (h, sym (take_all 400 (reverse journal) (omega (arith, length-reverse journal, h))))
  record_orders_kept strategy account_id recorded_at false (o ∷ os) journal h =
      let es : List (Entry F) = map (entry strategy account_id recorded_at) (o ∷ os) in
      (
        length-append_entries journal es,
        reverse-take_last 400 (journal ++ es) ∙ ap (take 400) (reverse-append journal es),
      )

  -- The journal never outgrows 400 entries, however long a run is and whether or not the store raises.
  -- And a read shows the rows of the strategy and of the account that are asked for, out of the latest
  -- 400: those of the run, the last one first, with the strategy, the account and the time of the run,
  -- and then those that were there before; of a run that the store does not take, only the latter. It
  -- shows as many as are asked for and at least one, where they are that many. The journal before holds
  -- no more than 400 entries.
  pub record_orders_lem :
      (strategy account_id : String) (recorded_at : ℕ) (raises : Bool) (os : List (OrderResult F))
      (journal : List (Entry F)) (asked_strategy asked_account : String) (limit : ℕ)
      → length journal ≤ 400
      → let after = record_orders strategy account_id recorded_at raises os journal in
        (length after ≤ 400)
        × (load_order_journal asked_strategy asked_account limit after
            ≡ take (if ltb limit 1 then 1 else limit) (
                of_account asked_account (
                  of_strategy asked_strategy
                    (take 400 (latest_first strategy account_id recorded_at raises os journal)))))
  unfolding load_order_journal
  record_orders_lem strategy account_id recorded_at raises os journal asked_strategy asked_account
        limit h =
      let after : List (Entry F) =
        record_orders strategy account_id recorded_at raises os journal in
      let (small, latest) =
        record_orders_kept strategy account_id recorded_at raises os journal h in
      (
        small,
        ap (take (if ltb limit 1 then 1 else limit)) (
            reverse-filter (is_about asked_strategy asked_account) after
            ∙ (ap (filter (is_about asked_strategy asked_account)) latest
                ∙ filter-is_about asked_strategy asked_account _)),
      )
