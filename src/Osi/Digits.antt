-- ===== src/Osi/Digits.antt =====
-- The numbers of an OSI symbol: what is printed is read back.
use native.Mathlib.Nat.{add-mul, mul_assoc, mod-lt, div-add-mod', div-lt_iff_lt-mul}
use robo_trade.Base.{
  ℕ, zero, suc, ◌+◌, ◌-◌, ◌*◌, ◌/◌, ◌%◌, ◌^◌, ◌<◌, ◌≡◌, sym, ap, ◌∙◌, true, some, [], ◌++◌, arith,
}
use mathlib.Core.List.{append-nil}
use robo_trade.Text.{Text, is_digit}
use robo_trade.Osi.Pattern.{take_number}
use robo_trade.Osi.{digits}

pow_pos : (w : ℕ) → 0 < 10 ^ w
pow_pos zero = omega arith
pow_pos (suc w) = let rest = pow_pos w in omega (arith, rest)

digit-is_digit : (d : ℕ) → d < 10 → is_digit (b'0' + d) ≡ true
unfolding is_digit
digit-is_digit d h = ground arith

shifted :
    (acc q power r n larger : ℕ)
    → q * power + r ≡ n
    → larger ≡ 10 * power
    → (acc * 10 + (b'0' + q - b'0')) * power + r ≡ acc * larger + n
shifted acc q power r n larger h k =
    let same : b'0' + q - b'0' ≡ q = omega arith in
    let ten : acc * 10 * power ≡ acc * (10 * power) = mul_assoc acc 10 power in
    let spread : (acc * 10 + q) * power ≡ acc * 10 * power + q * power =
      add-mul (acc * 10) q power in
    rw (same, k) (omega (arith, h, ten, spread))

pub take_number-digits :
    (w acc n : ℕ) (rest : Text)
    → n < 10 ^ w
    → take_number w acc (digits w n ++ rest) ≡ some (acc * 10 ^ w + n, rest)
unfolding take_number digits
take_number-digits zero acc n rest h =
    let same : acc ≡ acc * 10 ^ 0 + n = omega arith in ap (λ k. some (k, rest)) same
take_number-digits (suc w) acc n rest h =
    let power : ℕ = 10 ^ w in
    let grown : 10 ^ suc w ≡ 10 * power = omega arith in
    let first : n / power < 10 = (div-lt_iff_lt-mul (pow_pos w)).1 (omega arith) in
    rw (digit-is_digit (n / power) first) (
      take_number-digits w (acc * 10 + (b'0' + n / power - b'0')) (n % power) rest
        (mod-lt n (pow_pos w))
      ∙ ap (λ k. some (k, rest))
          (shifted acc (n / power) power (n % power) n (10 ^ suc w) (div-add-mod' n power) grown))

pub take_number-digits_first :
    (w n : ℕ) (rest : Text) → n < 10 ^ w → take_number w 0 (digits w n ++ rest) ≡ some (n, rest)
take_number-digits_first w n rest h =
    let same : 0 * 10 ^ w + n ≡ n = omega arith in
    take_number-digits w 0 n rest h ∙ ap (λ k. some (k, rest)) same

pub take_number-digits_last : (w n : ℕ) → n < 10 ^ w → take_number w 0 (digits w n) ≡ some (n, [])
take_number-digits_last w n h =
    ap (take_number w 0) (sym (append-nil (digits w n))) ∙ take_number-digits_first w n [] h
