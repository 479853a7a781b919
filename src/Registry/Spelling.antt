-- ===== src/Registry/Spelling.antt =====
-- src/common/registry.py: the spellings of a name that `normalize` does not tell apart.
use Prim.Native.Char.{Char, code}
use Prim.Native.String.{String, char_at}
use robo_trade.Base.{
  ℕ, zero, suc, ◌+◌, ◌≡◌, ◌⊎◌, inl, inr, refl, sym, ap, true, Bool-cases, List, [], ◌∷◌, All, arith,
}
use robo_trade.Text.{
  is_space, lower_char, lower_text, cons_kept, strip_start, strip_end, strip_text,
}
use robo_trade.Registry.{normalize}

-- So many letters, each as a capital and as a small letter.
abbrev letters : ℕ → ℕ → List (Char × Char)
letters start zero = []
letters start (suc n) =
    (char_at "ABCDEFGHIJKLMNOPQRSTUVWXYZ" start, char_at "abcdefghijklmnopqrstuvwxyz" start)
    ∷ letters (start + 1) n

-- The two characters are a pair of the list.
abbrev pub IsPair : Char → Char → List (Char × Char) → Type 0
IsPair c d [] = ⊥
IsPair c d ((a, b) ∷ pairs) = ((c ≡ a) × (d ≡ b)) ⊎ IsPair c d pairs

-- The same character, or one letter in either case.
abbrev pub SameLetter : Char → Char → Type 0
SameLetter c d = (c ≡ d) ⊎ (IsPair c d (letters 0 26) ⊎ IsPair d c (letters 0 26))

-- Only white space.
abbrev pub AreSpaces : String → Type 0
AreSpaces String.[] = Unit
AreSpaces (String.◌∷◌ c s) = (is_space (code c) ≡ true) × AreSpaces s

-- The letters of the name in either case, with white space behind them.
abbrev pub SpellsFrom : String → String → Type 0
SpellsFrom s String.[] = AreSpaces s
SpellsFrom String.[] (String.◌∷◌ d t) = ⊥
SpellsFrom (String.◌∷◌ c s) (String.◌∷◌ d t) = SameLetter c d × SpellsFrom s t

-- A spelling of the name: with any letter in either case, and white space before and behind.
abbrev pub Spells : String → String → Type 0
Spells String.[] t = SpellsFrom String.[] t
Spells (String.◌∷◌ c s) t =
    SpellsFrom (String.◌∷◌ c s) t ⊎ ((is_space (code c) ≡ true) × Spells s t)

-- What the two steps of `normalize` look at.
abbrev LooksAlike : Char → Char → Type 0
LooksAlike c d = (is_space (code c) ≡ is_space (code d)) × (lower_char c ≡ lower_char d)

IsPair-LooksAlike :
    (c d : Char) (pairs : List (Char × Char))
    → All (λ p. LooksAlike p.0 p.1) pairs
    → IsPair c d pairs
    → LooksAlike c d
IsPair-LooksAlike c d [] h p = absurd p
IsPair-LooksAlike c d ((a, b) ∷ pairs) (alike, rest) (inl (e, e')) = rw (e, e') alike
IsPair-LooksAlike c d ((a, b) ∷ pairs) (alike, rest) (inr p) = IsPair-LooksAlike c d pairs rest p

letters-LooksAlike : All (λ p. LooksAlike p.0 p.1) (letters 0 26)
unfolding is_space
letters-LooksAlike = ground arith

SameLetter-LooksAlike : (c d : Char) → SameLetter c d → LooksAlike c d
SameLetter-LooksAlike c d (inl e) = rw e (refl, refl)
SameLetter-LooksAlike c d (inr (inl p)) = IsPair-LooksAlike c d (letters 0 26) letters-LooksAlike p
SameLetter-LooksAlike c d (inr (inr p)) =
    let (space, lower) = IsPair-LooksAlike d c (letters 0 26) letters-LooksAlike p in
    (sym space, sym lower)

strip_end-AreSpaces : (s : String) → AreSpaces s → strip_end s ≡ String.[]
unfolding strip_end
strip_end-AreSpaces String.[] h = refl
strip_end-AreSpaces (String.◌∷◌ c s) (space, rest) = rw (strip_end-AreSpaces s rest, space) refl

strip_start-AreSpaces : (s : String) → AreSpaces s → strip_start s ≡ String.[]
unfolding strip_start
strip_start-AreSpaces String.[] h = refl
strip_start-AreSpaces (String.◌∷◌ c s) (space, rest) = rw space (strip_start-AreSpaces s rest)

lower_text-cons_kept :
    (c d : Char) (u v : String)
    → LooksAlike c d
    → lower_text u ≡ lower_text v
    → lower_text (cons_kept c u) ≡ lower_text (cons_kept d v)
unfolding lower_text
lower_text-cons_kept c d String.[] String.[] (space, lower) e =
    elim (Bool-cases (is_space (code d))) [
      | inl blank ↦ rw (space, blank) refl
      | inr shown ↦ rw (space, shown, lower) refl
    ]
lower_text-cons_kept c d String.[] (String.◌∷◌ y v) alike e = cc
lower_text-cons_kept c d (String.◌∷◌ x u) String.[] alike e = cc
lower_text-cons_kept c d (String.◌∷◌ x u) (String.◌∷◌ y v) (space, lower) e =
    rw lower (ap (λ (t : String). String.◌∷◌ (lower_char d) t) e)

lower_text-strip_end :
    (s t : String) → SpellsFrom s t → lower_text (strip_end s) ≡ lower_text (strip_end t)
unfolding strip_end
lower_text-strip_end s String.[] h = ap lower_text (strip_end-AreSpaces s h)
lower_text-strip_end String.[] (String.◌∷◌ d t) h = absurd h
lower_text-strip_end (String.◌∷◌ c s) (String.◌∷◌ d t) (same, rest) =
    lower_text-cons_kept c d (strip_end s) (strip_end t) (SameLetter-LooksAlike c d same)
      (lower_text-strip_end s t rest)

lower_text-strip_text :
    (s t : String) → SpellsFrom s t → lower_text (strip_text s) ≡ lower_text (strip_text t)
unfolding strip_text strip_start
lower_text-strip_text s String.[] h = ap (λ u. lower_text (strip_end u)) (strip_start-AreSpaces s h)
lower_text-strip_text String.[] (String.◌∷◌ d t) h = absurd h
lower_text-strip_text (String.◌∷◌ c s) (String.◌∷◌ d t) (same, rest) =
    let alike = SameLetter-LooksAlike c d same in
    elim (Bool-cases (is_space (code d))) [
      | inl space ↦ rw (alike.0, space) (lower_text-strip_text s t rest)
      | inr letter ↦
          rw (alike.0, letter) (lower_text-strip_end (String.◌∷◌ c s) (String.◌∷◌ d t) (same, rest))
    ]

pub normalize-Spells : (s t : String) → Spells s t → normalize s ≡ normalize t
unfolding normalize strip_text strip_start
normalize-Spells String.[] t h = lower_text-strip_text String.[] t h
normalize-Spells (String.◌∷◌ c s) t (inl h) = lower_text-strip_text (String.◌∷◌ c s) t h
normalize-Spells (String.◌∷◌ c s) t (inr (space, rest)) = rw space (normalize-Spells s t rest)
