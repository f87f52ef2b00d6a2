-- ===== src/KeyWindow.antt =====
-- src/mc_key_window.c: the window of sampled keys, over the table of their counts.
--
-- The queue is a ring array of `cap` entries; it stands here as the list of what it holds, oldest
-- first, with what ring_array_push and ring_array_pop do to that (RingArray.Queue).
pub mod Counts
mod Tests
use twemcache.Base.{
  ℕ, ◌+◌, ◌-◌, ◌%◌, ◌^◌, Bool, Option, none, some, List, [], ◌∷◌, ◌++◌, ltb, ◌==◌, if◌then◌else◌,
  length,
}
use twemcache.KcMap.{KcMap, kc_map_incr, kc_map_decr}

-- `kcme` is the index of the entry in the table.
pub record KwEntry : Type 0 where
  pub timestamp_us : ℕ
  pub kcme : ℕ

-- The static variables of the file, and the table.
pub record KeyWindow : Type 0 where
  pub queue : List KwEntry
  pub cap : ℕ
  pub key_window_size : ℕ
  pub key_window_max : ℕ
  pub map : KcMap

-- key_window_init, where the memory is granted.
pub init : ℕ → KcMap → KeyWindow
init size m = record { queue = []; cap = size; key_window_size = 0; key_window_max = size; map = m }

-- ring_array_push, whose status is not tested; a full ring stays as it is.
pub ring_push : ℕ → List KwEntry → KwEntry → List KwEntry
ring_push cap q kwe = if ltb (length q) cap then q ++ kwe ∷ [] else q

-- key_window_push: the count of the key; `none` if kc_map_incr does not end.
pub key_window_push : (List ℕ → ℕ) → KeyWindow → List ℕ → ℕ → Option (KeyWindow × ℕ)
unfolding ring_push
key_window_push hash w key time = elim (kc_map_incr hash w.map key) [
  | none ↦ none
  | some r ↦ some (
    record w {
      map = r.0;
      queue = ring_push w.cap w.queue (record { timestamp_us = time; kcme = r.1 });
      key_window_size = (w.key_window_size + 1) % 2 ^ 64;
    },
    (r.0.table r.1).count,
  )
]

-- key_window_pop: the oldest time; `none` stands for the use of an unset entry, on an empty ring.
pub key_window_pop : KeyWindow → Option (KeyWindow × ℕ)
key_window_pop w = elim w.queue [
  | [] ↦ none
  | kwe ∷ q ↦ some (
    record w {
      map = kc_map_decr w.map kwe.kcme;
      queue = q;
      key_window_size = (w.key_window_size + 2 ^ 64 - 1) % 2 ^ 64;
    },
    kwe.timestamp_us,
  )
]

unfoldable pub key_window_full : KeyWindow → Bool
key_window_full w = w.key_window_size == w.key_window_max
