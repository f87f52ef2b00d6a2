-- ===== src/Util.antt =====
-- The number parsers of src/mc_util.c, over the bytes of a string.
pub mod Decimal
mod Tests
use twemcache.Base.{
  ℕ, zero, suc, ◌+◌, ◌-◌, ◌*◌, ◌/◌, ◌%◌, ◌^◌, Bool, true, false, ◌&&◌, ◌||◌, Option, none, some,
  List, [], ◌∷◌, ◌++◌, ltb, leb, ◌==◌, if◌then◌else◌,
}

abbrev pub uint64_max : ℕ
uint64_max = 2 ^ 64 - 1

-- isspace() in the C locale.
abbrev pub is_space : ℕ → Bool
is_space c = c == 32 || (leb 9 c && leb c 13)

abbrev pub is_digit : ℕ → Bool
is_digit c = leb 48 c && leb c 57

-- mc_skip_space
pub skip_space : List ℕ → List ℕ
skip_space [] = []
skip_space (c ∷ str) = if is_space c then skip_space str else c ∷ str

-- The while loop of mc_strtoull_len: the value and what is left, or `none` for out of range.
pub digits_loop : List ℕ → ℕ → Option (ℕ × List ℕ)
digits_loop [] out = some (out, [])
digits_loop (c ∷ str) out =
    let rest = digits_loop str (out * 10 + c - 48) in
    if is_digit c then if leb (uint64_max / 10) out then none else rest else some (out, c ∷ str)

abbrev pub is_nil : List ℕ → Bool
is_nil [] = true
is_nil (c ∷ str) = false

-- `none` is `false`; the list holds `len` bytes.
pub strtoull_len : List ℕ → Option ℕ
unfolding skip_space digits_loop
strtoull_len str = elim (digits_loop (skip_space str) 0) [
  | none ↦ none
  | some (out, rest) ↦ if is_nil (skip_space rest) then some out else none
]

-- snprintf("%PRIu64"): the decimal digits, for a number below 10 ^ fuel.
pub print_loop : ℕ → ℕ → List ℕ
print_loop zero n = []
print_loop (suc fuel) n =
    if ltb n 10 then (48 + n) ∷ [] else print_loop fuel (n / 10) ++ (48 + n % 10) ∷ []

pub print_uint64 : ℕ → List ℕ
unfolding print_loop
print_uint64 n = print_loop 20 n

-- _mc_atoi: `none` is -1. The value is an int, kept as its 32-bit pattern.
unfoldable pub atoi_loop : List ℕ → ℕ → Option ℕ
atoi_loop [] value = if leb (2 ^ 31) value then none else some value
atoi_loop (c ∷ line) value =
    let rest = atoi_loop line ((value * 10 + (c - 48)) % 2 ^ 32) in
    if ltb c 48 || ltb 57 c then none else rest

unfoldable pub atoi : List ℕ → Option ℕ
unfolding atoi_loop
atoi [] = none
atoi (c ∷ line) = atoi_loop (c ∷ line) 0

-- mc_valid_port
pub valid_port : ℕ → Bool
valid_port n = leb 1 n && leb n 65535
