-- ===== src/Osi/Letters.antt =====
-- The root of an OSI symbol: letters that `strip` and `upper` leave alone.
use robo_trade.Base.{
  ℕ, ◌≤◌, ◌≡◌, refl, ap, ◌∙◌, Bool, true, false, ◌&&◌, [], ◌∷◌, reverse, leb, length, All-append,
  arith,
}
use mathlib.Core.List.{reverse-cons, reverse-reverse}
use robo_trade.Text.{Text, is_empty, is_space, drop_while, strip}
use robo_trade.Osi.Matching.{is_capital, AreCapitals}
use robo_trade.Osi.{capitals}

-- A root of one to six letters.
pub record IsRoot (root : Text) : Type 0 where
  pub letters : AreCapitals root
  pub filled : is_empty root ≡ false
  pub short : length root ≤ 6

capitals_lem : (root : Text) → AreCapitals root → capitals root ≡ root
unfolding capitals is_capital
capitals_lem [] h = refl
capitals_lem (c ∷ cs) (letter, rest) =
    let small : (leb b'a' c && leb c b'z') ≡ false = ground arith in
    rw small (ap (λ t. c ∷ t) (capitals_lem cs rest))

pub drop_while_stops :
    (p : ℕ → Bool) (c : ℕ) (t : Text) → p c ≡ false → drop_while p (c ∷ t) ≡ c ∷ t
unfolding drop_while
drop_while_stops p c t h = rw h refl

capital-is_space : (c : ℕ) → is_capital c ≡ true → is_space c ≡ false
unfolding is_capital is_space
capital-is_space c h = ground arith

drop_while_letters : (root : Text) → AreCapitals root → drop_while is_space root ≡ root
unfolding drop_while
drop_while_letters [] h = refl
drop_while_letters (c ∷ cs) (letter, rest) =
    drop_while_stops is_space c cs (capital-is_space c letter)

reverse-AreCapitals : (root : Text) → AreCapitals root → AreCapitals (reverse root)
reverse-AreCapitals [] h = tt
reverse-AreCapitals (c ∷ cs) (letter, rest) = rw (reverse-cons c cs) (
    All-append (λ d. is_capital d ≡ true) (reverse cs) (c ∷ []) (reverse-AreCapitals cs rest)
      (letter, tt))

strip-letters : (root : Text) → AreCapitals root → strip root ≡ root
unfolding strip
strip-letters root h =
    rw (drop_while_letters root h, drop_while_letters (reverse root) (reverse-AreCapitals root h))
      (reverse-reverse root)

-- A root that is spelled again.
pub root_again : (root : Text) → IsRoot root → capitals (strip root) ≡ root
root_again root r = ap capitals (strip-letters root r.letters) ∙ capitals_lem root r.letters
