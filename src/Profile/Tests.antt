-- ===== src/Profile/Tests.antt =====
-- Runs of the functions of Profile.
use twemcache.Base.{ℕ, ◌+◌, ◌/◌, false, none, arith, [], ◌∷◌}
use twemcache.Base.Int.{pos}
use twemcache.Number.{Libc}
use twemcache.Profile.{Sizes, mc_set_profile, slab_room}
use twemcache.Profile.Ascending.{Scales, Accepted, mc_set_profile-Accepted}

-- The default sizes, with slabs of 1024 bytes.
abbrev sizes : Sizes
sizes = record {
  slab_size = 1024;
  chunk_size = 88;
  profile = λ id. 0;
  profile_last_id = 254;
  max_chunk_size = 0;
}

-- A factor of 1.25.
abbrev scale : ℕ → ℕ
scale n = n + n / 4

scale-Scales : Scales scale (slab_room sizes)
scale-Scales = record { grows = λ n h. omega arith; fits = λ n h. omega arith }

-- A C library that reads every number as 64.
abbrev libc : Libc
libc = record {
  strtoul = λ str. record { number = 64; range_error = false; endptr = b' ' ∷ [] };
  strtoull = λ str. record { number = 64; range_error = false; endptr = b' ' ∷ [] };
  strtol = λ str. record { number = pos 64; range_error = false; endptr = b' ' ∷ [] };
}

mc_set_profile-Accepted_example : Accepted 1024 (mc_set_profile libc scale none sizes)
mc_set_profile-Accepted_example = mc_set_profile-Accepted libc scale none sizes scale-Scales
