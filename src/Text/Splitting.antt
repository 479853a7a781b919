-- ===== src/Text/Splitting.antt =====
-- Splitting a text and joining the pieces again.
use robo_trade.Base.{
  ℕ, ◌≡◌, refl, Bool, true, false, not, List, [], ◌∷◌, ◌++◌, filter, All, All-imp, Bool-cases, inl,
  inr,
}
use robo_trade.Text.{Text, is_space, is_empty, cons_first, split_by, words, join}

-- No character of a text satisfies `p`.
abbrev pub Free : (ℕ → Bool) → Text → Type 0
Free p = All (λ c. p c ≡ false)

cons_first-Free :
    (p : ℕ → Bool) (c : ℕ) (ws : List Text)
    → p c ≡ false
    → All (Free p) ws
    → All (Free p) (cons_first c ws)
cons_first-Free p c [] h ws = ((h, tt), tt)
cons_first-Free p c (w ∷ ws) h (f, fs) = ((h, f), fs)

-- No piece holds a separator.
pub split_by-Free : (p : ℕ → Bool) (t : Text) → All (Free p) (split_by p t)
unfolding split_by
split_by-Free p [] = (tt, tt)
split_by-Free p (c ∷ cs) = elim (Bool-cases (p c)) [
  | inl sep ↦ rw sep (tt, split_by-Free p cs)
  | inr other ↦ rw other (cons_first-Free p c (split_by p cs) other (split_by-Free p cs))
]

split_by_word : (p : ℕ → Bool) (w : Text) → Free p w → split_by p w ≡ w ∷ []
unfolding split_by
split_by_word p [] h = refl
split_by_word p (c ∷ cs) (f, fs) = rw (f, split_by_word p cs fs)

split_by-append :
    (p : ℕ → Bool) (w : Text) (sep : ℕ) (rest : Text)
    → p sep ≡ true
    → Free p w
    → split_by p (w ++ (sep ∷ rest)) ≡ w ∷ split_by p rest
unfolding split_by
split_by-append p [] sep rest h f = rw h
split_by-append p (c ∷ cs) sep rest h (f, fs) = rw (f, split_by-append p cs sep rest h fs)

-- Splitting undoes joining, for words that hold no separator.
pub split_by-join :
    (p : ℕ → Bool) (sep : ℕ) (w : Text) (ws : List Text)
    → p sep ≡ true
    → All (Free p) (w ∷ ws)
    → split_by p (join sep (w ∷ ws)) ≡ w ∷ ws
unfolding join
split_by-join p sep w [] h (f, fs) = split_by_word p w f
split_by-join p sep w (v ∷ ws) h (f, fs) =
    rw (split_by-append p w sep (join sep (v ∷ ws)) h f, split_by-join p sep v ws h fs)

abbrev NonEmpty : Text → Type 0
NonEmpty w = is_empty w ≡ false

filter-All :
    (P : Text → Type 0) (ws : List Text)
    → All P ws
    → All (λ w. P w × NonEmpty w) (filter (λ w. not (is_empty w)) ws)
filter-All P [] h = tt
filter-All P ([] ∷ ws) (p, ps) = filter-All P ws ps
filter-All P ((c ∷ cs) ∷ ws) (p, ps) = ((p, refl), filter-All P ws ps)

filter_nonempty : (ws : List Text) → All NonEmpty ws → filter (λ w. not (is_empty w)) ws ≡ ws
filter_nonempty [] h = refl
filter_nonempty ([] ∷ ws) (p, ps) = cc
filter_nonempty ((c ∷ cs) ∷ ws) (p, ps) = rw (filter_nonempty ws ps)

words-join :
    (ws : List Text) → All (λ w. Free is_space w × NonEmpty w) ws → words (join b' ' ws) ≡ ws
unfolding is_space split_by join
words-join [] h = refl
words-join (w ∷ ws) h =
    let free : All (Free is_space) (w ∷ ws) =
      All-imp (λ w. Free is_space w × NonEmpty w) (Free is_space) (w ∷ ws) (λ x q. q.0) h in
    let full : All NonEmpty (w ∷ ws) =
      All-imp (λ w. Free is_space w × NonEmpty w) NonEmpty (w ∷ ws) (λ x q. q.1) h in
    rw (split_by-join is_space b' ' w ws refl free) (filter_nonempty (w ∷ ws) full)

-- The words of a text, joined by single spaces, have the same words.
pub words-join-words : (t : Text) → words (join b' ' (words t)) ≡ words t
words-join-words t =
    words-join (words t)
      (filter-All (Free is_space) (split_by is_space t) (split_by-Free is_space t))
