-- ===== src/Number.antt =====
-- The parsers of src/mc_util.c that call strtoul(), strtoull() and strtol() of the C library, which
-- are arguments. A string is the list of the bytes up to its NUL.
use twemcache.Base.{
  ℕ, ◌-◌, ◌%◌, ◌^◌, Bool, false, not, ◌&&◌, ◌||◌, Option, none, some, List, [], ◌∷◌, length, ltb,
  leb, ◌==◌, if◌then◌else◌,
}
use twemcache.Base.Int.{ℤ, pos, negsuc}
use twemcache.Util.{is_space}

-- What a call leaves: the value, errno == ERANGE, and `*endptr`.
pub record Parsed {ℓ} (A : Type ℓ) : Type ℓ where
  pub number : A
  pub range_error : Bool
  pub endptr : List ℕ

-- The answers of the C library, with base 10.
pub record Libc : Type 0 where
  pub strtoul : List ℕ → Parsed ℕ
  pub strtoull : List ℕ → Parsed ℕ
  pub strtol : List ℕ → Parsed ℤ

-- isspace(*endptr) || (*endptr == '\0' && endptr != str)
pub is_end : List ℕ → List ℕ → Bool
is_end str [] = not (length str == 0)
is_end str (c ∷ rest) = is_space c

-- strchr(str, '-') != NULL
pub has_minus : List ℕ → Bool
has_minus [] = false
has_minus (c ∷ str) = c == b'-' || has_minus str

-- The tests that mc_strtoul and mc_strtoull make of an answer.
pub accepts : List ℕ → Parsed ℕ → Bool
unfolding is_end has_minus
accepts str p =
    not p.range_error && (is_end str p.endptr && not (leb (2 ^ 63) p.number && has_minus str))

-- mc_strtoull
pub strtoull : Libc → List ℕ → Option ℕ
unfolding accepts
strtoull libc str =
    if accepts str (libc.strtoull str) then some (libc.strtoull str).number else none

-- mc_strtoul, where the unsigned long is cut to 32 bits.
pub strtoul : Libc → List ℕ → Option ℕ
unfolding accepts
strtoul libc str =
    if accepts str (libc.strtoul str) then some ((libc.strtoul str).number % 2 ^ 32) else none

-- (int32_t) of a long.
pub to_int32 : ℤ → ℤ
to_int32 n = if ltb m (2 ^ 31) then pos m else negsuc (2 ^ 32 - 1 - m)
  where
    m : ℕ
    m = elim n [ pos k ↦ k % 2 ^ 32 | negsuc k ↦ 2 ^ 32 - 1 - k % 2 ^ 32 ]

-- mc_strtol
pub strtol : Libc → List ℕ → Option ℤ
unfolding is_end to_int32
strtol libc str =
    if not (libc.strtol str).range_error && is_end str (libc.strtol str).endptr
    then some (to_int32 (libc.strtol str).number)
    else none
