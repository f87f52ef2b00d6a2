-- ===== src/Util/Decimal.antt =====
-- mc_strtoull_len reads back what snprintf prints, and its range.
use native.Mathlib.Nat.{pow-suc}
use twemcache.Base.{
  ℕ, zero, suc, ◌+◌, ◌-◌, ◌*◌, ◌/◌, ◌%◌, ◌^◌, ◌≤◌, ◌<◌, ◌≡◌, refl, ap, ◌∙◌, inl, inr, Option, none,
  some, List, [], ◌∷◌, ◌++◌, ltb, leb, if◌then◌else◌, arith, Bool-cases, All,
}
use twemcache.Util.{
  uint64_max, is_digit, is_nil, skip_space, digits_loop, strtoull_len, print_loop, print_uint64,
}

-- The number that a string of digits writes, most significant first, after `out`.
pub value_from : ℕ → List ℕ → ℕ
value_from out [] = out
value_from out (c ∷ str) = value_from (out * 10 + (c - 48)) str

abbrev pub Digits : List ℕ → Type 0
Digits = All (λ c. (48 ≤ c) × (c ≤ 57))

value_from-ge : (out : ℕ) (str : List ℕ) → out ≤ value_from out str
unfolding value_from
value_from-ge out [] = omega arith
value_from-ge out (c ∷ str) = omega (arith, value_from-ge (out * 10 + (c - 48)) str)

-- A string of digits is accepted exactly up to UINT64_MAX - 6, and read as its number.
digits_loop_lem :
    (str : List ℕ) (out : ℕ)
    → Digits str
    → out ≤ uint64_max - 6
    → digits_loop str out
      ≡ (if leb (value_from out str) (uint64_max - 6) then some (value_from out str, []) else none)
unfolding digits_loop value_from
digits_loop_lem [] out d h = ground arith
digits_loop_lem (c ∷ str) out d h = ground (
  arith,
  digits_loop_lem str (out * 10 + (c - 48)) d.1,
  value_from-ge (out * 10 + (c - 48)) str,
  same,
)
  where
    same : out * 10 + c - 48 ≡ out * 10 + (c - 48)
    same = omega (arith, d.0)

value_from-append :
    (out : ℕ) (xs : List ℕ) (c : ℕ)
    → value_from out (xs ++ c ∷ []) ≡ value_from out xs * 10 + (c - 48)
unfolding value_from
value_from-append out [] c = refl
value_from-append out (x ∷ xs) c = value_from-append (out * 10 + (x - 48)) xs c

Digits-append : (xs : List ℕ) (c : ℕ) → Digits xs → (48 ≤ c) × (c ≤ 57) → Digits (xs ++ c ∷ [])
Digits-append [] c d h = (h, tt)
Digits-append (x ∷ xs) c d h = (d.0, Digits-append xs c d.1 h)

shrink : (fuel n : ℕ) → n < 10 ^ suc fuel → n / 10 < 10 ^ fuel
shrink fuel n h = let h' : n < 10 ^ fuel * 10 = rw pow-suc at h in omega (arith, h')

-- What is printed is digits, and writes the number.
print_loop_lem :
    (fuel n : ℕ)
    → n < 10 ^ fuel
    → Digits (print_loop fuel n) × (value_from 0 (print_loop fuel n) ≡ n)
unfolding print_loop
print_loop_lem zero n h = (tt, unfold value_from in omega arith)
print_loop_lem (suc fuel) n h = elim (Bool-cases (ltb n 10)) [
  | inl small ↦ rw small (unfold value_from in ground arith)
  | inr large ↦ rw large (
    Digits-append (print_loop fuel (n / 10)) (48 + n % 10)
        (print_loop_lem fuel (n / 10) (shrink fuel n h)).0 (omega arith),
    rw value_from-append (omega (arith, print_loop_lem fuel (n / 10) (shrink fuel n h))),
  )
]

skip_space-Digits : (str : List ℕ) → Digits str → skip_space str ≡ str
unfolding skip_space
skip_space-Digits [] d = refl
skip_space-Digits (c ∷ str) d = ground arith

-- mc_strtoull_len of a string of decimal digits, of any length, returns the number that it writes
-- if that is at most UINT64_MAX - 6, and fails otherwise.
pub strtoull_len-Digits :
    (str : List ℕ)
    → Digits str
    → strtoull_len str
      ≡ (if leb (value_from 0 str) (uint64_max - 6) then some (value_from 0 str) else none)
unfolding strtoull_len
strtoull_len-Digits str d =
    rw (skip_space-Digits str d, strtoull_len)
      (rw (digits_loop_lem str 0 d (omega arith), strtoull_len) (ground arith))

pub print_uint64_lem :
    (n : ℕ) → n ≤ uint64_max → Digits (print_uint64 n) × (value_from 0 (print_uint64 n) ≡ n)
unfolding print_uint64
print_uint64_lem n h = print_loop_lem 20 n (omega arith)

-- For a number up to UINT64_MAX, mc_strtoull_len reads what snprintf prints of it back as the
-- number if it is at most UINT64_MAX - 6, and fails above.
pub strtoull_len-print :
    (n : ℕ)
    → n ≤ uint64_max
    → strtoull_len (print_uint64 n) ≡ (if leb n (uint64_max - 6) then some n else none)
strtoull_len-print n h =
    let (d, e) = print_uint64_lem n h in
    strtoull_len-Digits (print_uint64 n) d
    ∙ ap (λ (v : ℕ). if leb v (uint64_max - 6) then some v else none) e

abbrev Small : Option (ℕ × List ℕ) → Type 0
Small none = Unit
Small (some (out, rest)) = out ≤ uint64_max - 6

digits_loop-Small : (str : List ℕ) (out : ℕ) → out ≤ uint64_max - 6 → Small (digits_loop str out)
unfolding digits_loop
digits_loop-Small [] out h = h
digits_loop-Small (c ∷ str) out h = elim (Bool-cases (is_digit c)) [
  | inr other ↦ rw other h
  | inl digit ↦ elim (Bool-cases (leb (uint64_max / 10) out)) [
    | inl large ↦ rw (digit, large) tt
    | inr small ↦
        rw (digit, small)
          (digits_loop-Small str (out * 10 + c - 48)
            (let h : c ≤ 57 = ground arith in ground arith))
  ]
]

-- What is read is at most UINT64_MAX - 6.
pub strtoull_len-bound : (str : List ℕ) (v : ℕ) → strtoull_len str ≡ some v → v ≤ uint64_max - 6
unfolding strtoull_len
strtoull_len-bound str v e =
    read (digits_loop (skip_space str) 0) (digits_loop-Small (skip_space str) 0 (omega arith)) e
  where
    read :
        (o : Option (ℕ × List ℕ))
        → Small o
        → (elim o [
          | none ↦ none
          | some (out, rest) ↦ if is_nil (skip_space rest) then some out else none
        ])
          ≡ some v
        → v ≤ uint64_max - 6
    read none h e = cc
    read (some (out, rest)) h e = ground (arith, h, e)
