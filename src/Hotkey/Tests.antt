-- ===== src/Hotkey/Tests.antt =====
-- The theorem of the detector on a window with room for one more sample.
use twemcache.Base.{ℕ, ◌==◌, refl, arith, List, [], ◌∷◌, if◌then◌else◌}
use twemcache.Hotkey.{Hotkey, hotkey_sample}
use twemcache.Hotkey.Sampling.{IsOpen, Sampled, hotkey_sample-Sampled}

abbrev hash : List ℕ → ℕ
hash [] = 0
hash (c ∷ k) = c

-- The key "b" was sampled once, at time 10; the next call is sampled.
abbrev pub detector : Hotkey
detector = record {
  hotkey_counter = 99;
  hotkey_redline_qps = 200;
  hotkey_sample_rate = 100;
  hotkey_threshold = 1;
  hotkey_bw_threshold = 200000;
  hotkey_qps_numerator = 200000000;
  window = record {
    queue = record { timestamp_us = 10; kcme = 2 } ∷ [];
    cap = 2;
    key_window_size = 1;
    key_window_max = 2;
    map = record {
      table = λ i. record { key = b'b' ∷ []; count = if 2 == i then 1 else 0 };
      table_size = 4;
      table_nkey = 0;
    };
  };
}

detector-IsOpen : IsOpen detector
detector-IsOpen = record {
  valid = record {
    sized = refl;
    fits = omega arith;
    max = refl;
    table = refl;
    small = omega arith;
    counts = λ i. ground arith;
  };
  room = omega arith;
}

hotkey_sample-Sampled_example : Sampled (hotkey_sample hash detector (b'b' ∷ []) 5 0 20)
hotkey_sample-Sampled_example =
    hotkey_sample-Sampled hash detector (b'b' ∷ []) 5 0 20 detector-IsOpen
