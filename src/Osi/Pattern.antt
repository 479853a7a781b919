-- ===== src/Osi/Pattern.antt =====
-- src/core/options.py: `_OSI_PATTERN`, as `match` runs it.
use robo_trade.Base.{
  ℕ, zero, suc, ◌+◌, ◌-◌, ◌*◌, Bool, true, false, ◌&&◌, ◌||◌, Option, none, some, [], ◌∷◌, ◌++◌,
  if◌then◌else◌, leb, ◌==◌,
}
use robo_trade.Options.{OptionKind, call, put}
use robo_trade.Text.{Text, is_digit, drop_while}

infixl 5 ◌>>=◌
abbrev pub ◌>>=◌ {ℓ κ} : {A : Type ℓ} {B : Type κ} → Option A → (A → Option B) → Option B
some a >>= next = next a
none >>= next = none

-- `\d{width}`, as the number that `int` reads of it, and the rest of the text.
unfoldable pub take_number : ℕ → ℕ → Text → Option (ℕ × Text)
unfolding is_digit
take_number zero acc t = some (acc, t)
take_number (suc width) acc [] = none
take_number (suc width) acc (c ∷ cs) =
    let rest = take_number width (acc * 10 + (c - b'0')) cs in if is_digit c then rest else none

unfoldable pub take_kind : Text → Option (OptionKind × Text)
take_kind [] = none
take_kind (c ∷ cs) =
    if c == b'C' then some (call, cs) else if c == b'P' then some (put, cs) else none

-- `$`: the end of the text, or before the line break that ends it.
abbrev at_end : Text → Bool
at_end [] = true
at_end (c ∷ []) = c == 10
at_end (c ∷ d ∷ cs) = false

-- The groups `expiry`, `kind` and `strike`, as the numbers in them.
pub record Tail : Type 0 where
  pub yy : ℕ
  pub mm : ℕ
  pub dd : ℕ
  pub kind : OptionKind
  pub thousandths : ℕ

abbrev at_the_end : Text → Tail → Option Tail
at_the_end t tail = if at_end t then some tail else none

unfoldable pub match_tail : Text → Option Tail
unfolding take_number take_kind
match_tail t = do
  y ← take_number 2 0 t
  m ← take_number 2 0 y.1
  d ← take_number 2 0 m.1
  k ← take_kind d.1
  n ← take_number 8 0 k.1
  at_the_end n.1 (record { yy = y.0; mm = m.0; dd = d.0; kind = k.0; thousandths = n.0 })

-- `[A-Za-z ]`.
unfoldable pub is_root : ℕ → Bool
is_root c = (leb b'A' c && leb c b'Z') || (leb b'a' c && leb c b'z') || c == b' '

abbrev pub first_match : Option Tail → Text → Option (Text × Tail) → Option (Text × Tail)
first_match (some tail) root later = some (root, tail)
first_match none root later = later

-- `_OSI_PATTERN.match`: the shortest root, of at most so many more characters, that spaces and the
-- tail follow.
unfoldable pub match_osi : ℕ → Text → Text → Option (Text × Tail)
unfolding match_tail is_root drop_while
match_osi zero root t = none
match_osi (suc n) root [] = none
match_osi (suc n) root (c ∷ cs) =
    let later = match_osi n (root ++ (c ∷ [])) cs in
    if is_root c
    then first_match (match_tail (drop_while (λ d. d == b' ') cs)) (root ++ (c ∷ [])) later
    else none
