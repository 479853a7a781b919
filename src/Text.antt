-- ===== src/Text.antt =====
-- Python's text methods that the program calls, over the code points of a text.
pub mod Splitting
use Prim.Native.Char.{Char, code}
use Prim.Native.String.{char_at}
use robo_trade.Base.{
  ℕ, zero, suc, ◌+◌, ◌-◌, ◌*◌, String, Bool, true, false, not, ◌&&◌, ◌||◌, Option, none, some, List,
  [], ◌∷◌, ◌++◌, reverse, leb, ◌==◌, if◌then◌else◌, filter, all, contains,
}

abbrev pub Text : Type 0
Text = List ℕ

-- The code points of a literal.
abbrev pub codes : String → Text
codes String.[] = []
codes (String.◌∷◌ c s) = code c ∷ codes s

-- `str.isspace` of one character.
unfoldable pub is_space : ℕ → Bool
is_space c =
    (leb 9 c && leb c 13)
    || (leb 28 c && leb c 32)
    || (leb 8192 c && leb c 8202)
    || contains c (133 ∷ 160 ∷ 5760 ∷ 8232 ∷ 8233 ∷ 8239 ∷ 8287 ∷ 12288 ∷ [])

-- The digits of `\d` and of `int`, kept to ASCII.
unfoldable pub is_digit : ℕ → Bool
is_digit c = leb b'0' c && leb c b'9'

abbrev pub is_empty : Text → Bool
is_empty [] = true
is_empty (c ∷ cs) = false

abbrev pub cons_first : ℕ → List Text → List Text
cons_first c [] = (c ∷ []) ∷ []
cons_first c (w ∷ ws) = (c ∷ w) ∷ ws

-- The pieces between the characters that satisfy `p`, the empty ones included.
unfoldable pub split_by : (ℕ → Bool) → Text → List Text
split_by p [] = [] ∷ []
split_by p (c ∷ cs) = let rest = split_by p cs in if p c then [] ∷ rest else cons_first c rest

-- `text.split(sep)` for a separator of one character.
abbrev pub split_on : ℕ → Text → List Text
split_on sep = split_by (λ c. c == sep)

-- `text.split()`: the words between runs of white space.
abbrev pub words : Text → List Text
words t = filter (λ w. not (is_empty w)) (split_by is_space t)

-- `sep.join(parts)` for a separator of one character.
unfoldable pub join : ℕ → List Text → Text
join sep [] = []
join sep (w ∷ []) = w
join sep (w ∷ v ∷ ws) = w ++ (sep ∷ join sep (v ∷ ws))

unfoldable pub drop_while : (ℕ → Bool) → Text → Text
drop_while p [] = []
drop_while p (c ∷ cs) = let rest = drop_while p cs in if p c then rest else c ∷ cs

unfoldable pub take_while : (ℕ → Bool) → Text → Text
take_while p [] = []
take_while p (c ∷ cs) = let rest = take_while p cs in if p c then c ∷ rest else []

-- `text.strip()`.
unfoldable pub strip : Text → Text
unfolding drop_while is_space
strip t = reverse (drop_while is_space (reverse (drop_while is_space t)))

-- Decimal digits, with single underscores between them, as `int` reads them.
unfoldable pub parse_digits : ℕ → Bool → Text → Option ℕ
unfolding is_digit
parse_digits acc after_digit [] = if after_digit then some acc else none
parse_digits acc after_digit (c ∷ cs) =
    let digit = is_digit c in
    let rest = parse_digits (if digit then acc * 10 + (c - b'0') else acc) digit cs in
    if digit || (c == b'_' && after_digit) then rest else none

abbrev pub drop_plus : Text → Text
drop_plus [] = []
drop_plus (c ∷ cs) = if c == b'+' then cs else c ∷ cs

-- `int(text)` of a text that holds no minus sign; `none` is the `ValueError`.
unfoldable pub parse_int : Text → Option ℕ
unfolding parse_digits strip
parse_int t = parse_digits 0 false (drop_plus (strip t))

-- `text.lower()`, of ASCII letters.
abbrev pub lower : Text → Text
lower [] = []
lower (c ∷ cs) = (if leb b'A' c && leb c b'Z' then c + 32 else c) ∷ lower cs

-- `==` on texts.
abbrev pub same_text : Text → Text → Bool
same_text [] [] = true
same_text [] (d ∷ ds) = false
same_text (c ∷ cs) [] = false
same_text (c ∷ cs) (d ∷ ds) = c == d && same_text cs ds

-- `text.upper()` of a whole text, of ASCII letters.
abbrev upper_char : Char → Char
upper_char c =
    if leb b'a' (code c) && leb (code c) b'z'
    then char_at "ABCDEFGHIJKLMNOPQRSTUVWXYZ" (code c - b'a')
    else c

unfoldable pub upper : String → String
upper String.[] = String.[]
upper (String.◌∷◌ c s) = String.◌∷◌ (upper_char c) (upper s)

abbrev pub lower_char : Char → Char
lower_char c =
    if leb b'A' (code c) && leb (code c) b'Z'
    then char_at "abcdefghijklmnopqrstuvwxyz" (code c - b'A')
    else c

-- `text.lower()` of a whole text, of ASCII letters.
unfoldable pub lower_text : String → String
lower_text String.[] = String.[]
lower_text (String.◌∷◌ c s) = String.◌∷◌ (lower_char c) (lower_text s)

unfoldable pub strip_start : String → String
unfolding is_space
strip_start String.[] = String.[]
strip_start (String.◌∷◌ c s) =
    let rest = strip_start s in if is_space (code c) then rest else String.◌∷◌ c s

abbrev pub cons_kept : Char → String → String
cons_kept c String.[] = if is_space (code c) then String.[] else String.◌∷◌ c String.[]
cons_kept c (String.◌∷◌ d s) = String.◌∷◌ c (String.◌∷◌ d s)

unfoldable pub strip_end : String → String
unfolding is_space
strip_end String.[] = String.[]
strip_end (String.◌∷◌ c s) = cons_kept c (strip_end s)

-- `text.strip()` of a whole text.
unfoldable pub strip_text : String → String
unfolding strip_start strip_end
strip_text s = strip_end (strip_start s)

-- `text[:n]`.
abbrev pub take_text : ℕ → String → String
take_text zero s = String.[]
take_text (suc n) String.[] = String.[]
take_text (suc n) (String.◌∷◌ c s) = String.◌∷◌ c (take_text n s)
