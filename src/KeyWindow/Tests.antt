-- ===== src/KeyWindow/Tests.antt =====
-- The theorems of the window on one with room for two samples.
use twemcache.Base.{ℕ, ◌==◌, refl, arith, List, [], ◌∷◌, if◌then◌else◌}
use twemcache.KeyWindow.{KeyWindow, key_window_push}
use twemcache.KeyWindow.Counts.{IsValid, PushedWindow, key_window_push-PushedWindow}

abbrev hash : List ℕ → ℕ
hash [] = 0
hash (c ∷ k) = c

-- The key "b" was sampled once, at time 10.
abbrev sampled : KeyWindow
sampled = record {
  queue = record { timestamp_us = 10; kcme = 2 } ∷ [];
  cap = 2;
  key_window_size = 1;
  key_window_max = 2;
  map = record {
    table = λ i. record { key = b'b' ∷ []; count = if 2 == i then 1 else 0 };
    table_size = 4;
    table_nkey = 0;
  };
}

sampled-IsValid : IsValid sampled
sampled-IsValid = record {
  sized = refl;
  fits = omega arith;
  max = refl;
  table = refl;
  small = omega arith;
  counts = λ i. ground arith;
}

key_window_push-PushedWindow_example :
    PushedWindow sampled (b'b' ∷ []) 20 (key_window_push hash sampled (b'b' ∷ []) 20)
key_window_push-PushedWindow_example =
    key_window_push-PushedWindow sampled sampled-IsValid hash (b'b' ∷ []) 20 (omega arith)
