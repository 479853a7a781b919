-- ===== src/Osi/Matching.antt =====
-- What the pattern of the OSI symbols reads of a symbol that is spelled with a root of capitals.
use robo_trade.Base.{
  ℕ, zero, suc, ◌<◌, ◌%◌, ◌^◌, ◌≡◌, refl, ap, ◌∙◌, Bool, true, false, ◌&&◌, none, some, [], ◌∷◌,
  ◌++◌, leb, ◌==◌, length, All, arith,
}
use robo_trade.Options.{OptionKind, call, put}
use mathlib.Core.List.{append_assoc}
use robo_trade.Text.{Text, is_digit, drop_while}
use robo_trade.Osi.Pattern.{Tail, match_tail, match_osi, take_number, take_kind, is_root}
use robo_trade.Osi.Digits.{take_number-digits_first, take_number-digits_last}
use robo_trade.Osi.{Date, tail_text, kind_letter, digits}

-- The letters from A to Z.
unfoldable pub is_capital : ℕ → Bool
is_capital c = leb b'A' c && leb c b'Z'

abbrev pub AreCapitals : Text → Type 0
AreCapitals = All (λ c. is_capital c ≡ true)

take_kind-kind_letter :
    (kind : OptionKind) (t : Text) → take_kind (kind_letter kind ∷ t) ≡ some (kind, t)
unfolding take_kind
take_kind-kind_letter call t = refl
take_kind-kind_letter put t = refl

pub match_tail-tail_text :
    (expiry : Date) (kind : OptionKind) (n : ℕ)
    → expiry.month < 100
    → expiry.day < 100
    → n < 10 ^ 8
    → match_tail (tail_text expiry kind n)
      ≡ some (record {
        yy = expiry.year % 100;
        mm = expiry.month;
        dd = expiry.day;
        kind = kind;
        thousandths = n;
      })
unfolding match_tail
match_tail-tail_text expiry kind n m d h =
    let year : expiry.year % 100 < 10 ^ 2 = omega arith in
    let behind_day : Text = kind_letter kind ∷ digits 8 n in
    let behind_month : Text = digits 2 expiry.day ++ behind_day in
    rw (take_number-digits_first 2 (expiry.year % 100) (digits 2 expiry.month ++ behind_month) year)
      (rw (take_number-digits_first 2 expiry.month behind_month m) (
        rw (take_number-digits_first 2 expiry.day behind_day d)
          (rw (take_kind-kind_letter kind (digits 8 n), take_number-digits_last 8 n h) refl)))

-- A letter is no digit and no space, so that no tail begins with it.
match_tail_letter :
    (c : ℕ) (t : Text)
    → is_capital c ≡ true
    → match_tail (drop_while (λ d. d == b' ') (c ∷ t)) ≡ none
unfolding match_tail take_number drop_while is_capital is_digit
match_tail_letter c t h =
    let other : (c == b' ') ≡ false = ground arith in
    let digit : (leb b'0' c && leb c b'9') ≡ false = ground arith in rw (other, digit) refl

capital-is_root : (c : ℕ) → is_capital c ≡ true → is_root c ≡ true
unfolding is_capital is_root
capital-is_root c h = ground arith

pub match_osi-root :
    (n : ℕ) (before : Text) (c : ℕ) (root rest tail_part : Text) (tail : Tail)
    → AreCapitals (c ∷ root)
    → length root < n
    → drop_while (λ d. d == b' ') rest ≡ tail_part
    → match_tail tail_part ≡ some tail
    → match_osi n before (c ∷ (root ++ rest)) ≡ some (before ++ (c ∷ root), tail)
unfolding match_osi
match_osi-root zero before c root rest tail_part tail capitals short skip found =
    absurd (omega (arith, short))
match_osi-root (suc n) before c [] rest tail_part tail (letter, all) short skip found =
    rw (capital-is_root c letter, skip, found) refl
match_osi-root (suc n) before c (d ∷ ds) rest tail_part tail (letter, all) short skip found =
    rw (capital-is_root c letter, match_tail_letter d (ds ++ rest) all.0)
      (match_osi-root n (before ++ (c ∷ [])) d ds rest tail_part tail all (omega (arith, short))
          skip found
        ∙ ap (λ r. some (r, tail)) (append_assoc before (c ∷ []) (d ∷ ds)))
