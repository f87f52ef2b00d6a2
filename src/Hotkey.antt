-- ===== src/Hotkey.antt =====
-- src/mc_hotkey.c: the detector of hot keys, over the window of samples. The seconds and
-- the microseconds of the clock, and the threshold, a product with a double, are arguments.
pub mod Sampling
pub mod Tests
use twemcache.Base.{
  ℕ, ◌+◌, ◌-◌, ◌*◌, ◌/◌, ◌%◌, ◌^◌, Bool, ◌&&◌, Option, none, some, List, ltb, leb, ◌==◌,
  if◌then◌else◌, length,
}
use twemcache.KeyWindow.{KeyWindow, key_window_push, key_window_pop, key_window_full}

-- item_control_flags_t, as far as it is used here; `cold` is 0.
pub data HotFlags : Type 0 where
  cold hot_qps hot_bw : HotFlags

-- The static variables of the file that sampling reads, and the window.
pub record Hotkey : Type 0 where
  pub hotkey_counter : ℕ
  pub hotkey_redline_qps : ℕ
  pub hotkey_sample_rate : ℕ
  pub hotkey_threshold : ℕ
  pub hotkey_bw_threshold : ℕ
  pub hotkey_qps_numerator : ℕ
  pub window : KeyWindow

-- _get_bandwidth
pub get_bandwidth : Hotkey → ℕ → ℕ → ℕ → ℕ
get_bandwidth h count size usec = ((count * size * h.hotkey_sample_rate * 1000000) % 2 ^ 64) / usec

-- The microseconds between two samples, at least 1; a uint64_t.
pub time_diff : ℕ → ℕ → ℕ
time_diff cur_time oldest_time = if ltb 0 diff then diff else 1
  where
    diff : ℕ
    diff = (cur_time + 2 ^ 64 - oldest_time) % 2 ^ 64

-- The signal for a key with `count` samples in a window that took `diff` to fill.
pub signal : Hotkey → ℕ → ℕ → ℕ → HotFlags
unfolding get_bandwidth
signal h count size diff =
    if leb h.hotkey_redline_qps (h.hotkey_qps_numerator / diff) && leb h.hotkey_threshold count
    then hot_qps
    else if leb h.hotkey_bw_threshold (get_bandwidth h count size diff)
    then hot_bw
    else cold

-- What follows the push.
pub pushed : Hotkey → ℕ → ℕ → KeyWindow → ℕ → Option (Hotkey × HotFlags)
pushed h size cur_time w count =
    if key_window_full w
    then elim (key_window_pop w) [
      | none ↦ none
      | some r ↦ some (record h { window = r.0 }, signal h count size (time_diff cur_time r.1))
    ]
    else some (record h { window = w }, cold)

-- (time_now() * 1000000) + time_now_usec(), on two rel_time_t, which are unsigned and of 32 bits.
pub sample_time : ℕ → ℕ → ℕ
sample_time now now_usec = (now * 1000000 + now_usec) % 2 ^ 32

-- hotkey_sample; `none` is a call that does not end, or that uses an unset entry.
pub hotkey_sample : (List ℕ → ℕ) → Hotkey → List ℕ → ℕ → ℕ → ℕ → Option (Hotkey × HotFlags)
hotkey_sample hash h key vlen now now_usec =
    if next % h.hotkey_sample_rate == 0
    then elim (key_window_push hash h.window key cur_time) [
      | none ↦ none
      | some r ↦ pushed counted (length key + vlen) cur_time r.0 r.1
    ]
    else some (counted, cold)
  where
    cur_time : ℕ
    cur_time = sample_time now now_usec

    next : ℕ
    next = (h.hotkey_counter + 1) % 2 ^ 64

    counted : Hotkey
    counted = record h { hotkey_counter = next }
