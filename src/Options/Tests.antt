-- ===== src/Options/Tests.antt =====
-- Runs of the functions of Options: "-t 4 -I 1m".
use twemcache.Base.{ℕ, ◌*◌, ◌/◌, ◌≡◌, refl, true, false, some, List, [], ◌∷◌, ltb, leb, ◌==◌, arith}
use twemcache.Base.Int.{pos}
use twemcache.Number.{Libc}
use twemcache.Options.{
  Platform, Opt, memory_option, server_option, opt_threads, opt_slab_size, mc_set_default_options,
  mc_get_options, configure, Options, set_option, set_server_option, set_memory_option,
  set_slab_size, slab_unit, number_in, join_ports,
}
use twemcache.Options.Bounds.{Sane, default-Sane}
use twemcache.Options.Sane.{mc_get_options-Sane, Configured, configure-Configured}
use twemcache.Profile.{slab_room}
use twemcache.Util.{atoi, atoi_loop}
use twemcache.Profile.Ascending.{Scales}

-- A double is a number of quarters.
abbrev platform : Platform
platform = record {
  Double = ℕ;
  strtod = λ arg. 5;
  le_zero = λ f. f == 0;
  gt_one = λ f. ltb 4 f;
  le_one = λ f. leb f 4;
  default_factor = 5;
  default_qps_threshold = 1;
  scale = λ f n. n * f / 4;
  large_pages = false;
  memory = true;
  strtol8 = λ arg. record { number = pos 448; range_error = false; endptr = [] };
}

abbrev options : List Opt
options =
    server_option opt_threads (b'4' ∷ [])
    ∷ memory_option opt_slab_size (b'1' ∷ b'6' ∷ b'k' ∷ [])
    ∷ []

-- A C library that reads every number as 64.
abbrev libc : Libc
libc = record {
  strtoul = λ str. record { number = 64; range_error = false; endptr = b' ' ∷ [] };
  strtoull = λ str. record { number = 64; range_error = false; endptr = b' ' ∷ [] };
  strtol = λ str. record { number = pos 64; range_error = false; endptr = b' ' ∷ [] };
}

-- What the options leave.
abbrev chosen : Options platform
chosen = record (mc_set_default_options platform) {
  num_workers = 4;
  sizes = record (mc_set_default_options platform).sizes { slab_size = 16 * 1024 };
}

options-chosen : mc_get_options platform (mc_set_default_options platform) options ≡ some chosen
unfolding mc_get_options set_option set_server_option set_memory_option set_slab_size slab_unit
    number_in join_ports mc_set_default_options atoi atoi_loop
options-chosen = refl

chosen-Scales : Scales (platform.scale chosen.factor) (slab_room chosen.sizes)
unfolding mc_set_default_options
chosen-Scales = record { grows = λ n h. omega arith; fits = λ n h. omega (arith, h) }

mc_get_options-Sane_example :
    Sane platform (mc_get_options platform (mc_set_default_options platform) options)
mc_get_options-Sane_example =
    mc_get_options-Sane platform (mc_set_default_options platform) options
      (default-Sane platform refl)

configure-Configured_example : Configured platform (configure platform libc options)
configure-Configured_example =
    configure-Configured platform libc options chosen refl options-chosen chosen-Scales
