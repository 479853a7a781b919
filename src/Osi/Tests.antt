-- ===== src/Osi/Tests.antt =====
-- OSI symbols at concrete contracts, over amounts in thousandths.
use robo_trade.Base.{
  ℕ, ◌+◌, ◌-◌, ◌*◌, ◌/◌, ◌^◌, ◌≡◌, refl, true, false, leb, ltb, ◌==◌, ok, err, ◌>>=◌, arith,
}
use robo_trade.Base.Float.{Float}
use robo_trade.Options.{call}
use robo_trade.Text.{codes, strip, is_space, drop_while}
use robo_trade.Osi.{
  Date, is_date, capitals, normalize_type, osi_symbol, parse_osi, to_osi_form, not_osi,
}
use robo_trade.Osi.Matching.{is_capital}
use robo_trade.Osi.Letters.{IsRoot}
use robo_trade.Osi.RoundTrip.{
  IsStrikes, IsListed, contract, parse_osi-osi_symbol, to_osi_form-osi_symbol,
}

instance abbrev milli : Float ℕ
milli = record {
  ratio = λ n d. n * 1000 / d;
  plus = ◌+◌;
  minus = ◌-◌;
  times = λ a b. a * b / 1000;
  divide = λ a b. a * 1000 / b;
  negate = λ a. 0;
  power = ◌^◌;
  le = leb;
  lt = ltb;
  same = ◌==◌;
  floor = λ a. a / 1000 * 1000;
  ceil = λ a. (a + 999) / 1000 * 1000;
  round_cents = λ a. a / 10 * 10;
  round_micro = λ a. a;
  round_whole = λ a. (a + 500) / 1000;
}

milli-IsStrikes : IsStrikes ℕ
milli-IsStrikes = record { positive = λ n h. ground arith; rounded = λ n h. omega arith }

abbrev expiry : Date
expiry = record { year = 2025; month = 1; day = 17 }

listed : IsListed expiry 150000
unfolding is_date
listed = record {
  valid = refl;
  since = omega arith;
  until = omega arith;
  positive = omega arith;
  fits = omega arith;
}

apple : IsRoot (capitals (strip (codes " aapl")))
unfolding capitals strip is_space drop_while is_capital
apple = record { letters = (refl, (refl, (refl, (refl, tt)))); filled = refl; short = omega arith }

a_call : normalize_type (codes "Call") ≡ ok call
unfolding normalize_type strip is_space drop_while
a_call = refl

standard :
    osi_symbol {F = ℕ} (codes " aapl") expiry (codes "Call") (milli.ratio 150000 1000) true
    ≡ ok (codes "AAPL  250117C00150000")
unfolding osi_symbol
standard = refl

unpadded : to_osi_form ℕ (codes "AAPL  250117C00150000") false ≡ ok (codes "AAPL250117C00150000")
unfolding to_osi_form
unpadded = refl

-- A root with a digit is spelled, and the symbol is not read back.
digit_root :
    (osi_symbol {F = ℕ} (codes "SPX1") expiry (codes "p") (milli.ratio 150000 1000) true
      >>= parse_osi {F = ℕ})
    ≡ err not_osi
unfolding osi_symbol parse_osi
digit_root = refl

parse_osi-osi_symbol_example :
    (osi_symbol {F = ℕ} (codes " aapl") expiry (codes "Call") (milli.ratio 150000 1000) true
      >>= parse_osi {F = ℕ})
    ≡ ok (contract (capitals (strip (codes " aapl"))) expiry call 150000)
parse_osi-osi_symbol_example =
    parse_osi-osi_symbol milli-IsStrikes true (codes " aapl") expiry (codes "Call") call 150000
      apple listed a_call

to_osi_form-osi_symbol_example :
    (osi_symbol {F = ℕ} (codes " aapl") expiry (codes "Call") (milli.ratio 150000 1000) true
      >>= λ symbol. to_osi_form ℕ symbol false)
    ≡ osi_symbol {F = ℕ} (codes " aapl") expiry (codes "Call") (milli.ratio 150000 1000) false
to_osi_form-osi_symbol_example =
    to_osi_form-osi_symbol milli-IsStrikes true false (codes " aapl") expiry (codes "Call") call
      150000 apple listed a_call
