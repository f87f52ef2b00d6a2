-- ===== src/Options/Sane.antt =====
-- The settings that mc_get_options accepts, and the slab classes that come of them.
use twemcache.Base.{
  ℕ, ◌*◌, ◌≤◌, ◌≡◌, sym, subst, Bool, true, false, not, ◌&&◌, Option, none, some, List, [], ◌∷◌,
  if◌then◌else◌, arith,
}
use twemcache.Number.{Libc}
use twemcache.Options.{
  Platform, Options, mc_set_default_options, Opt, flag, log_option, hotkey_option, server_option,
  memory_option, invalid, set_option, join_ports, mc_get_options, configure,
}
use twemcache.Profile.{Sizes, slab_room, mc_set_profile}
use twemcache.Profile.Ascending.{IsProfile, Scales, Accepted, mc_set_profile-Accepted}
use twemcache.SlabClass.{slab_id}
use twemcache.SlabClass.Search.{Fits}
use twemcache.Options.Bounds.{
  IsSized, IsSane, Sane, default-Sane, flag-Sane, log-Sane, hotkey-Sane, server-Sane,
}
use twemcache.Options.Memory.{memory-Sane}

module _ (platform : Platform) where
  option-Sane :
      (o : Opt) (s : Options platform) → IsSane platform s → Sane platform (set_option platform o s)
  unfolding set_option
  option-Sane (flag f) s h = flag-Sane platform f s h
  option-Sane (log_option o arg) s h = log-Sane platform o arg s h
  option-Sane (hotkey_option o arg) s h = hotkey-Sane platform o arg s h
  option-Sane (server_option o arg) s h = server-Sane platform o arg s h
  option-Sane (memory_option o arg) s h = memory-Sane platform o arg s h
  option-Sane invalid s h = tt

  -- One port stands for both.
  ports-Sane : (s : Options platform) → IsSane platform s → IsSane platform (join_ports platform s)
  unfolding join_ports
  ports-Sane s (z, f, m, (t, r, c, b, p, u), g, k) = joined s.tcp_specified s.udp_specified
    where
      joined :
          (tcp udp : Bool)
          → IsSane platform (
              if tcp && not udp
              then record s { udpport = s.port }
              else if udp && not tcp
              then record s { port = s.udpport }
              else s)
      joined true true = (z, f, m, (t, r, c, b, p, u), g, k)
      joined true false = (z, f, m, (t, r, c, b, p, p), g, k)
      joined false true = (z, f, m, (t, r, c, b, u, u), g, k)
      joined false false = (z, f, m, (t, r, c, b, p, u), g, k)

  -- mc_get_options, from settings within their bounds, over any options, either fails or leaves
  -- settings within their bounds: the slab size between 512 bytes and 128 MB and the chunk size
  -- at least 64, both multiples of 8, a factor for which the test factor <= 1.0 is false (a NaN
  -- is one), a hash power of at most 32, a known eviction strategy, at least 1 MB of memory, the
  -- interval of statistics between 10 ms and 60 s, and positive numbers of threads, requests,
  -- connections and backlog, ports, and entries and rates of sampling.
  pub mc_get_options-Sane :
      (s : Options platform) (opts : List Opt)
      → IsSane platform s
      → Sane platform (mc_get_options platform s opts)
  unfolding mc_get_options
  mc_get_options-Sane s [] h = ports-Sane s h
  mc_get_options-Sane s (o ∷ opts) h =
      taken (set_option platform o s) (option-Sane o s h) (λ t. mc_get_options-Sane t opts)
    where
      taken :
          (r : Option (Options platform))
          → Sane platform r
          → ((t : Options platform)
              → IsSane platform t
              → Sane platform (mc_get_options platform t opts))
          → Sane platform (elim r [ none ↦ none | some t ↦ mc_get_options platform t opts ])
      taken none h ih = tt
      taken (some t) h ih = ih t h

  abbrev pub Configured : Option Sizes → Type 0
  Configured none = Unit
  Configured (some t) =
      IsProfile t
      × (512 ≤ t.slab_size)
      × (t.slab_size ≤ 128 * (1024 * 1024))
      × ((size : ℕ)
          → Fits t.profile t.profile_last_id size (slab_id t.profile t.profile_last_id size))

  -- For every command line that mc_get_options accepts from the default settings, where the
  -- product of the factor that it leaves with a size below the room of a slab is not less than
  -- the size and is below 2^63, and where the default factor is above 1: if mc_set_profile
  -- accepts the settings too, the slab size is between 512 bytes and 128 MB, the classes are 1 to
  -- 254 at most, their sizes ascend, none is above the room of a slab, the last is the maximum,
  -- and the binary search of slab_id finds the smallest class that fits.
  pub configure-Configured :
      (libc : Libc) (opts : List Opt) (s : Options platform)
      → platform.le_one platform.default_factor ≡ false
      → mc_get_options platform (mc_set_default_options platform) opts ≡ some s
      → Scales (platform.scale s.factor) (slab_room s.sizes)
      → Configured (configure platform libc opts)
  unfolding configure
  configure-Configured libc opts s d e scales =
      started (mc_get_options platform (mc_set_default_options platform) opts) e
        (mc_get_options-Sane (mc_set_default_options platform) opts (default-Sane platform d))
    where
      accepted :
          (s : Sizes) → IsSized s → (o : Option Sizes) → Accepted s.slab_size o → Configured o
      accepted s z none h = tt
      accepted s z (some t) (p, e, fits) =
          (p, omega (arith, z.slab_low, e), omega (arith, z.slab_high, e), fits)

      started :
          (r : Option (Options platform))
          → r ≡ some s
          → Sane platform r
          → Configured (elim r [
            | none ↦ none
            | some t ↦ mc_set_profile libc (platform.scale t.factor) t.profile_optarg t.sizes
          ])
      started none e h = cc
      started (some t) e (z, f, m, w, g, k) =
          let same : t ≡ s = cc in
          accepted t.sizes z _ (
            mc_set_profile-Accepted libc (platform.scale t.factor) t.profile_optarg t.sizes (
              subst (λ (x : Options platform). Scales (platform.scale x.factor) (slab_room x.sizes))
                (sym same) scales))
