-- ===== src/Osi.antt =====
-- src/core/options.py: the OSI symbol of a contract, in the spelling of either broker. A text is its
-- code points; the letters and digits are the ASCII ones.
pub mod Pattern
pub mod Digits
pub mod Matching
pub mod Letters
pub mod RoundTrip
mod Tests
use robo_trade.Base.{
  ℕ, zero, suc, ◌+◌, ◌-◌, ◌*◌, ◌/◌, ◌%◌, ◌^◌, Bool, true, false, ◌&&◌, ◌||◌, not, Option, none,
  some, List, [], ◌∷◌, ◌++◌, if◌then◌else◌, leb, ltb, ◌==◌, length, Result, ok, err, ◌>>=◌,
}
use robo_trade.Base.Float.{Float, ◌⊗◌, ratio, le, zero_float}
use robo_trade.Options.{OptionKind, call, put}
use robo_trade.Text.{Text, codes, is_empty, strip, lower, same_text}
use robo_trade.Osi.Pattern.{Tail, match_osi}

-- The `ValueError`s, by their messages and the one of `date`.
pub data OsiError : Type 0 where
  bad_root bad_strike large_strike unknown_type not_osi bad_date : OsiError

-- A `date`, as the constructor accepts it.
pub record Date : Type 0 where
  pub year : ℕ
  pub month : ℕ
  pub day : ℕ

abbrev is_leap : ℕ → Bool
is_leap year = year % 4 == 0 && (not (year % 100 == 0) || year % 400 == 0)

abbrev days_in : ℕ → ℕ → ℕ
days_in year month =
    if month == 2
    then (if is_leap year then 29 else 28)
    else if month == 4 || month == 6 || month == 9 || month == 11
    then 30
    else 31

unfoldable pub is_date : Date → Bool
is_date d = leb 1 d.month && leb d.month 12 && leb 1 d.day && leb d.day (days_in d.year d.month)

-- What `parse_osi` returns.
pub record Contract (F : Type 0) : Type 0 where
  pub underlying : Text
  pub expiry : Date
  pub option_type : OptionKind
  pub strike : F

-- `text.upper()`.
unfoldable pub capitals : Text → Text
capitals [] = []
capitals (c ∷ cs) = (if leb b'a' c && leb c b'z' then c - 32 else c) ∷ capitals cs

-- `_normalize_type`.
unfoldable pub normalize_type : Text → Result OsiError OptionKind
normalize_type option_type =
    let kind : Text = lower (strip option_type) in
    if same_text kind (codes "c") || same_text kind (codes "call")
    then ok call
    else if same_text kind (codes "p") || same_text kind (codes "put")
    then ok put
    else err unknown_type

-- `CALL` and `PUT`.
abbrev pub type_text : OptionKind → Text
type_text call = codes "call"
type_text put = codes "put"

-- The last `width` decimal digits of a number, with zeros on the left.
unfoldable pub digits : ℕ → ℕ → Text
digits zero n = []
digits (suc width) n = (b'0' + n / 10 ^ width) ∷ digits width (n % 10 ^ width)

abbrev pub spaces : ℕ → Text
spaces zero = []
spaces (suc n) = b' ' ∷ spaces n

-- `f"{root:<6}"`.
abbrev pub pad_root : Bool → Text → Text
pad_root padded root = if padded then root ++ spaces (6 - length root) else root

abbrev pub kind_letter : OptionKind → ℕ
kind_letter call = b'C'
kind_letter put = b'P'

-- What stands behind the root.
abbrev pub tail_text : Date → OptionKind → ℕ → Text
tail_text expiry kind thousandths =
    digits 2 (expiry.year % 100)
    ++ (digits 2 expiry.month ++ (digits 2 expiry.day ++ (kind_letter kind ∷ digits 8 thousandths)))

abbrev pub is_found : Option (Text × Tail) → Bool
is_found (some found) = true
is_found none = false

-- `is_osi_symbol`.
abbrev pub is_osi_symbol : Text → Bool
is_osi_symbol symbol = is_found (match_osi 6 [] symbol)

module _ {F : Type 0} ⦃f : Float F⦄ where
  -- `osi_symbol` from the type and the root on.
  unfoldable pub spell : Date → F → Bool → Text → OptionKind → Result OsiError Text
  unfolding digits
  spell expiry strike padded root kind =
      let thousandths : ℕ = f.round_whole (strike ⊗ ratio 1000 1) in
      if is_empty root || ltb 6 (length root)
      then err bad_root
      else if le strike zero_float
      then err bad_strike
      else if leb (10 ^ 8) thousandths
      then err large_strike
      else ok (pad_root padded root ++ tail_text expiry kind thousandths)

  -- `osi_symbol`, with the flag last.
  unfoldable pub osi_symbol : Text → Date → Text → F → Bool → Result OsiError Text
  unfolding normalize_type strip capitals spell
  osi_symbol underlying expiry option_type strike padded = do
    kind ← normalize_type option_type
    spell expiry strike padded (capitals (strip underlying)) kind

  abbrev pub contract_of : Text × Tail → Result OsiError (Contract F)
  contract_of (root, tail) =
      let expiry : Date = record { year = 2000 + tail.yy; month = tail.mm; day = tail.dd } in
      if is_date expiry
      then ok (record {
        underlying = capitals (strip root);
        expiry = expiry;
        option_type = tail.kind;
        strike = ratio tail.thousandths 1000;
      })
      else err bad_date

  abbrev pub read_match : Option (Text × Tail) → Result OsiError (Contract F)
  read_match (some found) = contract_of found
  read_match none = err not_osi

  -- `parse_osi`.
  unfoldable pub parse_osi : Text → Result OsiError (Contract F)
  unfolding match_osi is_date capitals strip
  parse_osi symbol = read_match (match_osi 6 [] symbol)

-- `to_osi_form`, by the floats that carry the strike.
unfoldable pub to_osi_form : (F : Type 0) ⦃f : Float F⦄ → Text → Bool → Result OsiError Text
unfolding match_osi parse_osi osi_symbol
to_osi_form F symbol padded =
    if not (is_osi_symbol symbol)
    then ok symbol
    else (parse_osi {F = F} symbol >>= λ parsed.
        osi_symbol parsed.underlying parsed.expiry (type_text parsed.option_type) parsed.strike
          padded)
