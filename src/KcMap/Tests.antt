-- ===== src/KcMap/Tests.antt =====
-- The theorems of the table of counts on tables of two entries.
use twemcache.Base.{ℕ, ◌-◌, refl, arith, List, [], ◌∷◌}
use twemcache.KcMap.{KcMap, kc_map_incr, kc_map_decr}
use twemcache.KcMap.Probe.{Restarted, incr-decr}

abbrev hash : List ℕ → ℕ
hash [] = 0
hash (c ∷ k) = c

-- The entry of "b" is taken by "d"; that of "a" is free.
abbrev colliding : KcMap
colliding = record {
  table = λ i. record { key = b'd' ∷ []; count = 1 - i };
  table_size = 2;
  table_nkey = 0;
}

incr-decr_example :
    Restarted colliding (b'b' ∷ []) 0 (kc_map_incr hash (kc_map_decr colliding 0) (b'b' ∷ []))
incr-decr_example = incr-decr hash colliding (b'b' ∷ []) (omega arith) refl
