-- ===== src/Hotkey/Sampling.antt =====
-- hotkey_sample never fills the window for good, and fails on no sample.
use twemcache.Base.{
  ℕ, ◌+◌, ◌%◌, ◌^◌, ◌<◌, ◌≡◌, refl, Bool-cases, inl, inr, Option, none, some, List, [], ◌∷◌, ◌==◌,
  length, arith,
}
use twemcache.KeyWindow.{KeyWindow, KwEntry, key_window_push, key_window_pop, key_window_full}
use twemcache.KeyWindow.Counts.{
  IsValid, PushedWindow, PoppedWindow, key_window_push-PushedWindow, key_window_pop-PoppedWindow,
  length-append,
}
use twemcache.Hotkey.{Hotkey, HotFlags, pushed, signal, time_diff, sample_time, hotkey_sample}

-- A detector whose window is valid and has room.
pub record IsOpen (h : Hotkey) : Type 0 where
  pub valid : IsValid h.window
  pub room : length h.window.queue < h.window.cap

abbrev pub Sampled : Option (Hotkey × HotFlags) → Type 0
Sampled none = ⊥
Sampled (some (h, flags)) = IsOpen h

module _ (h : Hotkey) (size cur_time : ℕ) (w : KeyWindow) (count : ℕ) (v : IsValid w)
    (held : 0 < length w.queue) where
  full-Sampled :
      (q : List KwEntry) (o : Option (KeyWindow × ℕ))
      → w.queue ≡ q
      → PoppedWindow w q o
      → Sampled (elim o [
        | none ↦ none
        | some r ↦ some (record h { window = r.0 }, signal h count size (time_diff cur_time r.1))
      ])
  full-Sampled [] o e p = let z : length w.queue ≡ 0 = rw e refl in absurd (omega (arith, z))
  full-Sampled (kwe ∷ q) none e p = p
  full-Sampled (kwe ∷ q) (some (t, time)) e p = record {
    valid = p.0;
    room = rw (p.1, p.3) (ground (arith, v.fits, longer));
  }
    where
      longer : length w.queue ≡ 1 + length q
      longer = rw e (omega arith)

  pushed-Sampled : Sampled (pushed h size cur_time w count)
  unfolding pushed
  pushed-Sampled = elim (Bool-cases (key_window_full w)) [
    | inl full ↦
        rw full (full-Sampled w.queue (key_window_pop w) refl (key_window_pop-PoppedWindow w v))
    | inr open_ ↦ rw open_ (record {
      valid = v;
      room = unfold key_window_full in ground (arith, v.sized, v.max, v.fits, open_);
    })
  ]

module _ (hash : List ℕ → ℕ) (h : Hotkey) (key : List ℕ) (vlen now now_usec : ℕ) where
  abbrev cur_time : ℕ
  cur_time = sample_time now now_usec

  -- If the window of the detector is valid and has room for a sample, hotkey_sample ends, uses no
  -- unset entry of the window, and leaves a window that is valid and has room again.
  pub hotkey_sample-Sampled : IsOpen h → Sampled (hotkey_sample hash h key vlen now now_usec)
  unfolding hotkey_sample
  hotkey_sample-Sampled o = elim (Bool-cases (next % h.hotkey_sample_rate == 0)) [
    | inl sampled ↦ rw sampled (
        then_pushed (key_window_push hash h.window key cur_time)
          (key_window_push-PushedWindow h.window o.valid hash key cur_time o.room))
    | inr passed ↦ rw passed (record { valid = o.valid; room = o.room })
  ]
    where
      next : ℕ
      next = (h.hotkey_counter + 1) % 2 ^ 64

      then_pushed :
          (p : Option (KeyWindow × ℕ))
          → PushedWindow h.window key cur_time p
          → Sampled (elim p [
            | none ↦ none
            | some r ↦
                pushed (record h { hotkey_counter = next }) (length key + vlen) cur_time r.0 r.1
          ])
      then_pushed none f = f
      then_pushed (some (t, n)) f =
          pushed-Sampled (record h { hotkey_counter = next }) (length key + vlen) cur_time t n f.1
            (rw f.2 (
              ground (
                arith,
                length-append h.window.queue (record { timestamp_us = cur_time; kcme = f.0 }),
              )))
