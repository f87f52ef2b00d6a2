-- ===== src/Token/Again.antt =====
-- asc_tokenize from the start of a token on finds that token again.
use mathlib.Core.List.{append_assoc}
use twemcache.Base.{
  ℕ, zero, suc, ◌+◌, ◌≡◌, inl, inr, refl, ap, ◌∙◌, true, false, Bool-cases, some, List, [], ◌∷◌,
  ◌++◌, length, ◌==◌, arith,
}
use twemcache.Token.{Token, tokenize_loop, tokenize, terminal, from, get}

abbrev Spaceless : List ℕ → Type 0
Spaceless [] = Unit
Spaceless (c ∷ cur) = ((c == b' ') ≡ false) × Spaceless cur

-- The first token of the line from `t` on is `t`.
abbrev pub IsAgain : Token → Type 0
IsAgain t = (t.len == 0) ≡ false → get (tokenize (from t.val)) 0 ≡ t

abbrev pub AllAgain : List Token → Type 0
AllAgain [] = Unit
AllAgain (t ∷ ts) = IsAgain t × AllAgain ts

skip :
    (room n : ℕ) (s cur rest : List ℕ)
    → Spaceless cur
    → tokenize_loop (suc room) s n (cur ++ rest) ≡ tokenize_loop (suc room) s (n + length cur) rest
unfolding tokenize_loop
skip room n s [] rest h = let e : n + 0 ≡ n = omega arith in rw e refl
skip room n s (c ∷ cur) rest (h, hs) =
    let e : n + suc (length cur) ≡ n + 1 + length cur = omega arith in
    rw (h, e) (skip room (n + 1) s cur rest hs)

abbrev Ends : List ℕ → Type 0
Ends [] = Unit
Ends (c ∷ rest) = (c == b' ') ≡ true

whole-Again :
    (d : ℕ) (cur rest : List ℕ)
    → Spaceless (d ∷ cur)
    → Ends rest
    → get (tokenize (d ∷ cur ++ rest)) 0
      ≡ record { val = some (d ∷ cur ++ rest); len = suc (length cur) }
unfolding tokenize
whole-Again d cur rest h e =
    ap (λ ts. get ts 0) (skip 6 0 (d ∷ cur ++ rest) (d ∷ cur) rest h) ∙ saved rest e
  where
    long : (0 + suc (length cur) == 0) ≡ false
    long = ground arith

    same : 0 + suc (length cur) ≡ suc (length cur)
    same = omega arith

    saved :
        (rest : List ℕ)
        → Ends rest
        → get (tokenize_loop 7 (d ∷ cur ++ rest) (0 + suc (length cur)) rest) 0
          ≡ record { val = some (d ∷ cur ++ rest); len = suc (length cur) }
    saved [] e = unfold tokenize_loop in rw (long, same) refl
    saved (c ∷ rest) e = unfold tokenize_loop in rw (e, long, same) refl

Spaceless-append :
    (cur : List ℕ) (c : ℕ) → Spaceless cur → (c == b' ') ≡ false → Spaceless (cur ++ c ∷ [])
Spaceless-append [] c h e = (e, tt)
Spaceless-append (d ∷ cur) c (h, hs) e = (h, Spaceless-append cur c hs e)

terminal-Again : (rest : List ℕ) → IsAgain (terminal rest)
terminal-Again [] e = cc
terminal-Again (c ∷ rest) e = cc

length-concat : (cur : List ℕ) (c : ℕ) → suc (length (cur ++ c ∷ [])) ≡ suc (length cur) + 1
length-concat [] c = omega arith
length-concat (d ∷ cur) c = omega (arith, length-concat cur c)

loop-Again :
    (room : ℕ) (cur rest : List ℕ)
    → Spaceless cur
    → AllAgain (tokenize_loop room (cur ++ rest) (length cur) rest)
unfolding tokenize_loop
loop-Again zero cur rest h = (terminal-Again rest, tt)
loop-Again (suc room) [] [] h = (terminal-Again [], tt)
loop-Again (suc room) (d ∷ cur) [] h =
    let long : (suc (length cur) == 0) ≡ false = ground arith in
    rw long (λ e. whole-Again d cur [] h tt, (terminal-Again [], tt))
loop-Again (suc room) [] (c ∷ rest) h = elim (Bool-cases (c == b' ')) [
  | inl e ↦ rw e (loop-Again (suc room) [] rest tt)
  | inr e ↦ rw e (loop-Again (suc room) (c ∷ []) rest (e, tt))
]
loop-Again (suc room) (d ∷ cur) (c ∷ rest) h = elim (Bool-cases (c == b' ')) [
  | inl e ↦
      let long : (suc (length cur) == 0) ≡ false = ground arith in
      rw (e, long) (λ l. whole-Again d cur (c ∷ rest) h e, loop-Again room [] rest tt)
  | inr e ↦
      let longer =
        loop-Again (suc room) (d ∷ cur ++ c ∷ []) rest (h.0, Spaceless-append cur c h.1 e) in
      rw e (rw (append_assoc cur (c ∷ []) rest, length-concat cur c) at longer)
]

pub tokenize-Again : (command : List ℕ) → AllAgain (tokenize command)
unfolding tokenize
tokenize-Again command = loop-Again 7 [] command tt

pub tokenize-empty : tokenize [] ≡ terminal [] ∷ []
unfolding tokenize tokenize_loop
tokenize-empty = refl
