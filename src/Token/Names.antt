-- ===== src/Token/Names.antt =====
-- asc_parse_type against the names of the commands.
use twemcache.Base.{
  ℕ, zero, suc, ◌≤◌, ◌≡◌, ◌≢◌, refl, ◌∙◌, true, false, Bool-cases, inl, inr, some, List, [], ◌∷◌,
  ◌++◌, length, ltb, ◌==◌, arith,
}
use twemcache.Request.{
  ReqType, req_unknown, req_set, req_add, req_replace, req_append, req_prepend, req_appendrl,
  req_prependrl, req_cas, req_get, req_gets, req_incr, req_decr, req_delete, req_quit, req_stats,
  req_config, req_version, req_flushall, req_verbosity,
}
use twemcache.Token.{
  Token, tokenize, tokenize_loop, parse_type, first_match, candidates, starts, take,
}
use twemcache.Token.Words.{tokenize_loop-Splits}

-- The word that asks for a type of request.
abbrev pub name : ReqType → List ℕ
name req_unknown = []
name req_set = b's' ∷ b'e' ∷ b't' ∷ []
name req_add = b'a' ∷ b'd' ∷ b'd' ∷ []
name req_replace = b'r' ∷ b'e' ∷ b'p' ∷ b'l' ∷ b'a' ∷ b'c' ∷ b'e' ∷ []
name req_append = b'a' ∷ b'p' ∷ b'p' ∷ b'e' ∷ b'n' ∷ b'd' ∷ []
name req_prepend = b'p' ∷ b'r' ∷ b'e' ∷ b'p' ∷ b'e' ∷ b'n' ∷ b'd' ∷ []
name req_appendrl = b'a' ∷ b'p' ∷ b'p' ∷ b'e' ∷ b'n' ∷ b'd' ∷ b'r' ∷ b'l' ∷ []
name req_prependrl = b'p' ∷ b'r' ∷ b'e' ∷ b'p' ∷ b'e' ∷ b'n' ∷ b'd' ∷ b'r' ∷ b'l' ∷ []
name req_cas = b'c' ∷ b'a' ∷ b's' ∷ []
name req_get = b'g' ∷ b'e' ∷ b't' ∷ []
name req_gets = b'g' ∷ b'e' ∷ b't' ∷ b's' ∷ []
name req_incr = b'i' ∷ b'n' ∷ b'c' ∷ b'r' ∷ []
name req_decr = b'd' ∷ b'e' ∷ b'c' ∷ b'r' ∷ []
name req_delete = b'd' ∷ b'e' ∷ b'l' ∷ b'e' ∷ b't' ∷ b'e' ∷ []
name req_quit = b'q' ∷ b'u' ∷ b'i' ∷ b't' ∷ []
name req_stats = b's' ∷ b't' ∷ b'a' ∷ b't' ∷ b's' ∷ []
name req_config = b'c' ∷ b'o' ∷ b'n' ∷ b'f' ∷ b'i' ∷ b'g' ∷ []
name req_version = b'v' ∷ b'e' ∷ b'r' ∷ b's' ∷ b'i' ∷ b'o' ∷ b'n' ∷ []
name req_flushall = b'f' ∷ b'l' ∷ b'u' ∷ b's' ∷ b'h' ∷ b'_' ∷ b'a' ∷ b'l' ∷ b'l' ∷ []
name req_verbosity = b'v' ∷ b'e' ∷ b'r' ∷ b'b' ∷ b'o' ∷ b's' ∷ b'i' ∷ b't' ∷ b'y' ∷ []

some_tokens : (rest : List ℕ) → 1 ≤ length (tokenize_loop 6 rest 0 rest)
some_tokens rest = omega (arith, (tokenize_loop-Splits 6 [] rest (inl refl)).count)

-- A line that starts with the name of a command and a space is parsed as that command.
pub parse_type-name :
    (type : ReqType) (rest : List ℕ)
    → type ≢ req_unknown
    → parse_type (tokenize (name type ++ b' ' ∷ rest)) ≡ type
unfolding parse_type tokenize
parse_type-name req_unknown rest h = absurd (h refl)
parse_type-name _ rest h = ground (arith, some_tokens rest)

starts-take : (n v : List ℕ) → starts n v ≡ true → take (length n) v ≡ n
starts-take [] v h = refl
starts-take (c ∷ n) [] h = cc
starts-take (c ∷ n) (d ∷ v) h = ground (arith, starts-take n v)

-- The names of the candidates, as far as their own length goes.
abbrev AllNamed : ℕ → List (List ℕ × ReqType) → Type 0
AllNamed len [] = Unit
AllNamed len ((n, type) ∷ cs) = (take len n ≡ name type) × (len ≤ length n) × AllNamed len cs

take-take : (k : ℕ) (n v : List ℕ) → starts n v ≡ true → k ≤ length n → take k v ≡ take k n
take-take zero n v h l = refl
take-take (suc k) [] v h l = elim l [ ]
take-take (suc k) (c ∷ n) [] h l = cc
take-take (suc k) (c ∷ n) (d ∷ v) h l = ground (arith, take-take k n v)

first_match-name :
    (len : ℕ) (cs : List (List ℕ × ReqType)) (v : List ℕ)
    → AllNamed len cs
    → first_match cs v ≢ req_unknown
    → take len v ≡ name (first_match cs v)
first_match-name len [] v a h = absurd (h refl)
first_match-name len ((n, type) ∷ cs) v a h = elim (Bool-cases (starts n v)) [
  | inl e ↦ rw e (take-take len n v e a.1 ∙ a.0)
  | inr e ↦ rw e (first_match-name len cs v a.2 (rw e at h))
]

candidates-AllNamed : (len : ℕ) → AllNamed len (candidates len)
candidates-AllNamed len = elim (Bool-cases (len == 3)) [
  | inl e3 ↦ let h : len ≡ 3 = ground arith in rw h (ground arith)
  | inr e3 ↦ elim (Bool-cases (len == 4)) [
    | inl e4 ↦ let h : len ≡ 4 = ground arith in rw h (ground arith)
    | inr e4 ↦ elim (Bool-cases (len == 5)) [
      | inl e5 ↦ let h : len ≡ 5 = ground arith in rw h (ground arith)
      | inr e5 ↦ elim (Bool-cases (len == 6)) [
        | inl e6 ↦ let h : len ≡ 6 = ground arith in rw h (ground arith)
        | inr e6 ↦ elim (Bool-cases (len == 7)) [
          | inl e7 ↦ let h : len ≡ 7 = ground arith in rw h (ground arith)
          | inr e7 ↦ elim (Bool-cases (len == 8)) [
            | inl e8 ↦ let h : len ≡ 8 = ground arith in rw h (ground arith)
            | inr e8 ↦ elim (Bool-cases (len == 9)) [
              | inl e9 ↦ let h : len ≡ 9 = ground arith in rw h (ground arith)
              | inr e9 ↦ rw (e3, e4, e5, e6, e7, e8, e9) tt
            ]
          ]
        ]
      ]
    ]
  ]
]

-- Names from types.
pub name-parse_type :
    (v : List ℕ) (len : ℕ) (ts : List Token)
    → parse_type (record { val = some v; len = len } ∷ ts) ≢ req_unknown
    → take len v ≡ name (parse_type (record { val = some v; len = len } ∷ ts))
unfolding parse_type
name-parse_type v len [] h = absurd (h refl)
name-parse_type v len (t ∷ ts) h =
    let two : ltb (suc (suc (length ts))) 2 ≡ false = ground arith in
    rw two (first_match-name len (candidates len) v (candidates-AllNamed len) (rw two at h))
