-- ===== src/Osi/RoundTrip.antt =====
-- An OSI symbol that `osi_symbol` spells is read back by `parse_osi`, and respelled by `to_osi_form`.
use robo_trade.Base.{
  ℕ, zero, suc, ◌+◌, ◌-◌, ◌<◌, ◌≤◌, ◌%◌, ◌/◌, ◌^◌, ◌≡◌, refl, ap, sym, ◌∙◌, Bool, true, false, some,
  [], ◌∷◌, ◌++◌, leb, ltb, ◌==◌, length, arith, ok, ◌>>=◌,
}
use robo_trade.Base.Float.{Float, ◌⊗◌, ratio}
use robo_trade.Options.{OptionKind, call, put}
use mathlib.Core.Path.{subst}
use mathlib.Core.List.{append_assoc}
use robo_trade.Text.{Text, is_space, drop_while, strip}
use robo_trade.Osi.Pattern.{Tail, match_osi}
use robo_trade.Osi.Matching.{match_osi-root, match_tail-tail_text}
use robo_trade.Osi.Letters.{IsRoot, drop_while_stops, root_again}
use robo_trade.Osi.{
  Date, is_date, Contract, capitals, normalize_type, type_text, digits, spaces, pad_root, tail_text,
  kind_letter, spell, osi_symbol, contract_of, parse_osi, to_osi_form,
}

-- A strike of so many thousandths is positive, and the product with a thousand rounds to them.
pub record IsStrikes (F : Type 0) ⦃f : Float F⦄ : Type 0 where
  pub positive : (n : ℕ) → 0 < n → f.le (f.ratio n 1000) (f.ratio 0 1) ≡ false
  pub rounded : (n : ℕ) → n < 10 ^ 8 → f.round_whole (f.ratio n 1000 ⊗ f.ratio 1000 1) ≡ n

-- A contract that the symbols can name: a day of this century and a strike of eight digits.
pub record IsListed (expiry : Date) (thousandths : ℕ) : Type 0 where
  pub valid : is_date expiry ≡ true
  pub since : 2000 ≤ expiry.year
  pub until : expiry.year < 2100
  pub positive : 0 < thousandths
  pub fits : thousandths < 10 ^ 8

abbrev after_first : Date → OptionKind → ℕ → Text
after_first expiry kind thousandths =
    digits 1 (expiry.year % 100 % 10)
    ++ (digits 2 expiry.month ++ (digits 2 expiry.day ++ (kind_letter kind ∷ digits 8 thousandths)))

drop_while-spaces :
    (n : ℕ) (expiry : Date) (kind : OptionKind) (thousandths : ℕ)
    → drop_while (λ d. d == b' ') (spaces n ++ tail_text expiry kind thousandths)
      ≡ tail_text expiry kind thousandths
unfolding digits drop_while
drop_while-spaces zero expiry kind thousandths =
    let q : ℕ = expiry.year % 100 / 10 in
    let other : (b'0' + q == b' ') ≡ false = ground arith in
    drop_while_stops (λ d. d == b' ') (b'0' + q) (after_first expiry kind thousandths) other
drop_while-spaces (suc n) expiry kind thousandths = drop_while-spaces n expiry kind thousandths

month_day_small :
    (expiry : Date) → is_date expiry ≡ true → (expiry.month < 100) × (expiry.day < 100)
unfolding is_date
month_day_small expiry h = ground arith

-- The groups that the pattern finds in a symbol.
abbrev tail_of : Date → OptionKind → ℕ → Tail
tail_of expiry kind thousandths = record {
  yy = expiry.year % 100;
  mm = expiry.month;
  dd = expiry.day;
  kind = kind;
  thousandths = thousandths;
}

match_osi-spaced :
    (k : ℕ) (root : Text) (expiry : Date) (kind : OptionKind) (n : ℕ)
    → IsRoot root
    → IsListed expiry n
    → match_osi 6 [] (root ++ (spaces k ++ tail_text expiry kind n))
      ≡ some (root, tail_of expiry kind n)
match_osi-spaced k [] expiry kind n r l = cc
match_osi-spaced k (c ∷ cs) expiry kind n r l =
    let small = month_day_small expiry l.valid in
    let short = r.short in
    match_osi-root 6 [] c cs (spaces k ++ tail_text expiry kind n) (tail_text expiry kind n)
      (tail_of expiry kind n) r.letters (omega (arith, short)) (drop_while-spaces k expiry kind n)
      (match_tail-tail_text expiry kind n small.0 small.1 l.fits)

match_osi-symbol :
    (padded : Bool) (root : Text) (expiry : Date) (kind : OptionKind) (n : ℕ)
    → IsRoot root
    → IsListed expiry n
    → match_osi 6 [] (pad_root padded root ++ tail_text expiry kind n)
      ≡ some (root, tail_of expiry kind n)
match_osi-symbol true root expiry kind n r l =
    ap (match_osi 6 []) (append_assoc root (spaces (6 - length root)) (tail_text expiry kind n))
    ∙ match_osi-spaced (6 - length root) root expiry kind n r l
match_osi-symbol false root expiry kind n r l = match_osi-spaced 0 root expiry kind n r l

normalize_type-type_text : (kind : OptionKind) → normalize_type (type_text kind) ≡ ok kind
unfolding normalize_type strip drop_while is_space
normalize_type-type_text call = refl
normalize_type-type_text put = refl

module _ {F : Type 0} ⦃f : Float F⦄ where
  -- The contract that a symbol names.
  abbrev pub contract : Text → Date → OptionKind → ℕ → Contract F
  contract root expiry kind thousandths = record {
    underlying = root;
    expiry = expiry;
    option_type = kind;
    strike = ratio thousandths 1000;
  }

  contract_of-tail_of :
      (root : Text) (expiry : Date) (kind : OptionKind) (n : ℕ)
      → IsRoot root
      → IsListed expiry n
      → contract_of (root, tail_of expiry kind n) ≡ ok (contract root expiry kind n)
  contract_of-tail_of root expiry kind n r l =
      let since = l.since in
      let until = l.until in
      let century : 2000 + expiry.year % 100 ≡ expiry.year = omega (arith, since, until) in
      rw (century, l.valid, root_again root r) refl

  spell_lem :
      IsStrikes F
      → (padded : Bool) (root : Text) (expiry : Date) (kind : OptionKind) (n : ℕ) → IsRoot root
      → IsListed expiry n
      → spell {F = F} expiry (ratio n 1000) padded root kind
        ≡ ok (pad_root padded root ++ tail_text expiry kind n)
  unfolding spell
  spell_lem laws padded root expiry kind n r l =
      let short = r.short in
      let fits = l.fits in
      let six : ltb 6 (length root) ≡ false = ground (arith, short) in
      let eight : leb (10 ^ 8) n ≡ false = ground (arith, fits) in
      rw (laws.rounded n l.fits, r.filled, six, laws.positive n l.positive, eight) refl

  parse_osi-symbol :
      (padded : Bool) (root : Text) (expiry : Date) (kind : OptionKind) (n : ℕ)
      → IsRoot root
      → IsListed expiry n
      → parse_osi (pad_root padded root ++ tail_text expiry kind n)
        ≡ ok (contract root expiry kind n)
  unfolding parse_osi
  parse_osi-symbol padded root expiry kind n r l =
      rw (match_osi-symbol padded root expiry kind n r l)
        (contract_of-tail_of root expiry kind n r l)

  osi_symbol_lem :
      IsStrikes F
      → (padded : Bool) (underlying : Text) (expiry : Date) (type_name : Text) (kind : OptionKind)
        (n : ℕ)
      → IsRoot (capitals (strip underlying))
      → IsListed expiry n
      → normalize_type type_name ≡ ok kind
      → osi_symbol underlying expiry type_name (f.ratio n 1000) padded
        ≡ ok (pad_root padded (capitals (strip underlying)) ++ tail_text expiry kind n)
  unfolding osi_symbol
  osi_symbol_lem laws padded underlying expiry type_name kind n r l named =
      rw named (spell_lem laws padded (capitals (strip underlying)) expiry kind n r l)

  to_osi_form-symbol :
      IsStrikes F
      → (padded other : Bool) (root : Text) (expiry : Date) (kind : OptionKind) (n : ℕ)
      → IsRoot root
      → IsListed expiry n
      → to_osi_form F (pad_root padded root ++ tail_text expiry kind n) other
        ≡ ok (pad_root other root ++ tail_text expiry kind n)
  unfolding to_osi_form
  to_osi_form-symbol laws padded other root expiry kind n r l =
      let again : capitals (strip root) ≡ root = root_again root r in
      rw
        (match_osi-symbol padded root expiry kind n r l, contract_of-tail_of root expiry kind n r l)
        (osi_symbol_lem laws other root expiry (type_text kind) kind n (subst IsRoot (sym again) r)
            l (normalize_type-type_text kind)
          ∙ ap (λ t. ok (pad_root other t ++ tail_text expiry kind n)) again)

-- Reading the symbol of a contract gives the contract, in either spelling: for an underlying that is
-- one to six letters when it is stripped and in capitals, a valid day of this century and a positive
-- strike of fewer than 10 ^ 8 thousandths, where the thousandths of a strike are computed exactly.
pub parse_osi-osi_symbol :
    {F : Type 0} ⦃f : Float F⦄
    → IsStrikes F
    → (padded : Bool) (underlying : Text) (expiry : Date) (type_name : Text) (kind : OptionKind)
      (n : ℕ)
    → IsRoot (capitals (strip underlying))
    → IsListed expiry n
    → normalize_type type_name ≡ ok kind
    → (osi_symbol underlying expiry type_name (f.ratio n 1000) padded >>= parse_osi {F = F})
      ≡ ok (contract (capitals (strip underlying)) expiry kind n)
parse_osi-osi_symbol laws padded underlying expiry type_name kind n r l named =
    rw (osi_symbol_lem laws padded underlying expiry type_name kind n r l named)
      (parse_osi-symbol padded (capitals (strip underlying)) expiry kind n r l)

-- Respelling the symbol of a contract, for any of the two brokers, gives the symbol that `osi_symbol`
-- spells for that broker: for an underlying that is one to six letters when it is stripped and in
-- capitals, a valid day of this century and a positive strike of fewer than 10 ^ 8 thousandths, where
-- the thousandths of a strike are computed exactly.
pub to_osi_form-osi_symbol :
    {F : Type 0} ⦃f : Float F⦄
    → IsStrikes F
    → (padded other : Bool) (underlying : Text) (expiry : Date) (type_name : Text)
      (kind : OptionKind) (n : ℕ)
    → IsRoot (capitals (strip underlying))
    → IsListed expiry n
    → normalize_type type_name ≡ ok kind
    → (osi_symbol underlying expiry type_name (f.ratio n 1000) padded >>= λ symbol.
        to_osi_form F symbol other)
      ≡ osi_symbol underlying expiry type_name (f.ratio n 1000) other
to_osi_form-osi_symbol laws padded other underlying expiry type_name kind n r l named =
    let root : Text = capitals (strip underlying) in
    rw (osi_symbol_lem laws padded underlying expiry type_name kind n r l named) (
      to_osi_form-symbol laws padded other root expiry kind n r l
      ∙ sym (osi_symbol_lem laws other underlying expiry type_name kind n r l named))
