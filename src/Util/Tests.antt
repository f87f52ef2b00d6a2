-- ===== src/Util/Tests.antt =====
-- Tests of the number parsers, and their theorems at concrete strings.
use twemcache.Base.{◌-◌, ◌≡◌, refl, arith, none, some, [], ◌∷◌, leb, if◌then◌else◌}
use twemcache.Util.{strtoull_len, print_uint64, uint64_max, atoi}
use twemcache.Util.Decimal.{strtoull_len-print}

-- " 42 "
spaces_around : strtoull_len (32 ∷ b'4' ∷ b'2' ∷ 32 ∷ []) ≡ some 42
unfolding strtoull_len
spaces_around = refl

trailing_letter : strtoull_len (b'4' ∷ b'x' ∷ []) ≡ none
unfolding strtoull_len
trailing_letter = refl

atoi_digits : atoi (b'1' ∷ b'2' ∷ []) ≡ some 12
unfolding atoi
atoi_digits = refl

strtoull_len-print_example :
    strtoull_len (print_uint64 18446744073709551610)
    ≡ (if leb 18446744073709551610 (uint64_max - 6) then some 18446744073709551610 else none)
strtoull_len-print_example = strtoull_len-print 18446744073709551610 (omega arith)
