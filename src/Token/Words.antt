-- ===== src/Token/Words.antt =====
-- asc_tokenize against the words of the line.
use mathlib.Core.List.{append_assoc}
use twemcache.Base.{
  ℕ, zero, suc, ◌+◌, ◌<◌, ◌≡◌, ◌⊎◌, inl, inr, refl, sym, ap, false, Bool-cases, Option, none, some,
  List, [], ◌∷◌, ◌++◌, length, ◌==◌, if◌then◌else◌, arith,
}
use twemcache.Token.{Token, tokenize_loop, tokenize, terminal, take, from, text}

-- The maximal runs of bytes that are not spaces, `cur` the beginning of the first.
unfoldable pub words_from : List ℕ → List ℕ → List (List ℕ)
words_from [] [] = []
words_from (d ∷ cur) [] = (d ∷ cur) ∷ []
words_from [] (c ∷ rest) = if c == b' ' then words_from [] rest else words_from (c ∷ []) rest
words_from (d ∷ cur) (c ∷ rest) =
    if c == b' ' then (d ∷ cur) ∷ words_from [] rest else words_from (d ∷ cur ++ c ∷ []) rest

abbrev pub words : List ℕ → List (List ℕ)
words str = words_from [] str

-- The texts of the tokens before the terminal one, and the rest of the line that is left to it.
abbrev pub texts : List Token → List (List ℕ)
texts [] = []
texts (t ∷ ts) = if t.len == 0 then [] else text t ∷ texts ts

abbrev pub left : List Token → List ℕ
left [] = []
left (t ∷ ts) = if t.len == 0 then from t.val else left ts

-- The value of the terminal token, and the pointer to a rest of the line.
abbrev pub stop : List Token → Option (List ℕ)
stop [] = none
stop (t ∷ ts) = if t.len == 0 then t.val else stop ts

abbrev pub pointer : List ℕ → Option (List ℕ)
pointer [] = none
pointer (c ∷ rest) = some (c ∷ rest)

-- Each token has as many bytes as it says.
abbrev pub Exact : List Token → Type 0
Exact [] = Unit
Exact (t ∷ ts) = (length (text t) ≡ t.len) × Exact ts

-- Tokens that split a line whose words are given, at most `room` of them.
pub record Splits (room : ℕ) (ws : List (List ℕ)) (ts : List Token) : Type 0 where
  pub covers : texts ts ++ words (left ts) ≡ ws
  pub count : length ts ≡ length (texts ts) + 1
  pub full : (left ts ≡ []) ⊎ (length (texts ts) ≡ room)
  pub stops : stop ts ≡ pointer (left ts)
  pub exact : Exact ts

terminal-Splits :
    (room : ℕ) (rest : List ℕ)
    → (rest ≡ []) ⊎ (room ≡ 0)
    → Splits room (words rest) (terminal rest ∷ [])
terminal-Splits room [] h = record {
  covers = refl;
  count = refl;
  full = inl refl;
  stops = refl;
  exact = (refl, tt);
}
terminal-Splits room (c ∷ rest) h = record {
  covers = refl;
  count = refl;
  full = elim h [ inl e ↦ cc | inr e ↦ inr (sym e) ];
  stops = refl;
  exact = (refl, tt);
}

take-append : (cur rest : List ℕ) → take (length cur) (cur ++ rest) ≡ cur
take-append [] rest = refl
take-append (c ∷ cur) rest = ap (λ (l : List ℕ). c ∷ l) (take-append cur rest)

cons-Splits :
    (room : ℕ) (ws : List (List ℕ)) (ts : List Token) (d : ℕ) (cur rest : List ℕ)
    → Splits room ws ts
    → Splits
        (suc room)
        ((d ∷ cur) ∷ ws)
        (record { val = some (d ∷ cur ++ rest); len = length (d ∷ cur) } ∷ ts)
cons-Splits room ws ts d cur rest s =
    let long : (suc (length cur) == 0) ≡ false = ground arith in
    record {
      covers =
          rw long (rw (take-append cur rest) (ap (λ (l : List (List ℕ)). (d ∷ cur) ∷ l) s.covers));
      count = rw long (omega (arith, s.count));
      full = rw long (elim s.full [ inl e ↦ inl e | inr e ↦ inr (omega (arith, e)) ]);
      stops = rw long s.stops;
      exact = (rw (take-append cur rest) refl, s.exact);
    }

length-concat : (cur : List ℕ) (c : ℕ) → suc (length (cur ++ c ∷ [])) ≡ suc (length cur) + 1
length-concat [] c = omega arith
length-concat (d ∷ cur) c = omega (arith, length-concat cur c)

pub tokenize_loop-Splits :
    (room : ℕ) (cur rest : List ℕ)
    → (cur ≡ []) ⊎ (0 < room)
    → Splits room (words_from cur rest) (tokenize_loop room (cur ++ rest) (length cur) rest)
unfolding tokenize_loop words_from
tokenize_loop-Splits zero [] rest h = terminal-Splits zero rest (inr refl)
tokenize_loop-Splits zero (d ∷ cur) rest h = ground arith
tokenize_loop-Splits (suc room) [] [] h = terminal-Splits (suc room) [] (inl refl)
tokenize_loop-Splits (suc room) (d ∷ cur) [] h =
    let long : (suc (length cur) == 0) ≡ false = ground arith in
    rw long (cons-Splits room [] (terminal [] ∷ []) d cur [] (terminal-Splits room [] (inl refl)))
tokenize_loop-Splits (suc room) [] (c ∷ rest) h = elim (Bool-cases (c == b' ')) [
  | inl e ↦ rw e (tokenize_loop-Splits (suc room) [] rest h)
  | inr e ↦ rw e (tokenize_loop-Splits (suc room) (c ∷ []) rest (inr (omega arith)))
]
tokenize_loop-Splits (suc room) (d ∷ cur) (c ∷ rest) h = elim (Bool-cases (c == b' ')) [
  | inl e ↦
      let long : (suc (length cur) == 0) ≡ false = ground arith in
      rw (e, long)
        (cons-Splits room (words_from [] rest) (tokenize_loop room rest 0 rest) d cur (c ∷ rest)
          (tokenize_loop-Splits room [] rest (inl refl)))
  | inr e ↦
      let longer = tokenize_loop-Splits (suc room) (d ∷ cur ++ c ∷ []) rest (inr (omega arith)) in
      rw e (rw (append_assoc cur (c ∷ []) rest, length-concat cur c) at longer)
]

-- The tokens of asc_tokenize are the words of the line between its spaces, in order, and the
-- terminal token behind them points at the words that are left, which are none unless seven
-- tokens were found.
pub tokenize-Splits : (command : List ℕ) → Splits 7 (words command) (tokenize command)
unfolding tokenize
tokenize-Splits command = tokenize_loop-Splits 7 [] command (inl refl)
