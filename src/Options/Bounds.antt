-- ===== src/Options/Bounds.antt =====
-- Each option leaves the settings within their bounds.
use twemcache.Base.{
  ℕ, ◌*◌, ◌%◌, ◌≤◌, ◌<◌, ◌≡◌, refl, Bool, true, false, ◌&&◌, ◌||◌, Bool-cases, inl, inr, Option,
  none, some, List, leb, if◌then◌else◌, arith,
}
use twemcache.Base.Int.{ℤ}
use twemcache.Options.{
  Platform, Options, mc_set_default_options, Flag, LogOption, HotkeyOption, ServerOption, opt_help,
  opt_version, opt_prealloc, opt_use_large_pages, opt_lock_pages, opt_daemonize,
  opt_maximize_core_limit, opt_disable_cas, opt_describe_stats, opt_show_sizes, opt_enable_hotkey,
  opt_output, opt_verbosity, opt_stats_aggr_interval, opt_hash_power, opt_klog_entry, opt_klog_file,
  opt_klog_sample_rate, opt_redline_qps, opt_sample_rate, opt_qps_threshold, opt_bw_threshold,
  opt_threads, opt_pidfile, opt_user, opt_max_requests, opt_max_conns, opt_backlog, opt_port,
  opt_udp_port, opt_interface, opt_unix_path, opt_access_mask, set_flag, with_value, number_in,
  set_log_option, set_hotkey_option, str2oct, set_server_option,
}
use twemcache.Profile.{Sizes, min_chunk_size, mc_alignment}
use twemcache.Util.{atoi}

-- Sizes that a server can be started with.
pub record IsSized (s : Sizes) : Type 0 where
  pub slab_low : 512 ≤ s.slab_size
  pub slab_high : s.slab_size ≤ 128 * (1024 * 1024)
  pub slab_aligned : s.slab_size % mc_alignment ≡ 0
  pub chunk_low : min_chunk_size ≤ s.chunk_size
  pub chunk_aligned : s.chunk_size % mc_alignment ≡ 0

-- The numbers of threads, of requests per event, of connections and of the backlog, and the ports.
abbrev ServerBounds : ℕ → ℕ → ℕ → ℕ → ℕ → ℕ → Type 0
ServerBounds num_workers reqs_per_event maxconns backlog port udpport =
    (1 ≤ num_workers)
    × (1 ≤ reqs_per_event)
    × (1 ≤ maxconns)
    × (1 ≤ backlog)
    × (1 ≤ port)
    × (1 ≤ udpport)

abbrev LogBounds : ℕ → ℕ → ℕ → Type 0
LogBounds stats_interval klog_entry klog_sampling_rate =
    (10000 ≤ stats_interval)
    × (stats_interval ≤ 60000000)
    × (1 ≤ klog_entry)
    × (1 ≤ klog_sampling_rate)

abbrev HotkeyBounds : ℕ → ℕ → Type 0
HotkeyBounds hotkey_sample_rate hotkey_bw_threshold =
    (1 ≤ hotkey_sample_rate) × (1 ≤ hotkey_bw_threshold)

abbrev MemoryBounds : ℕ → ℕ → ℕ → Type 0
MemoryBounds hash_power evict_opt maxbytes =
    (hash_power ≤ 32) × (evict_opt < 16) × (1024 * 1024 ≤ maxbytes)

abbrev pub Bounded : ℕ → ℕ → Option ℕ → Type 0
Bounded low high none = Unit
Bounded low high (some value) = (low ≤ value) × (value ≤ high)

module _ (platform : Platform) where
  -- The settings that a server can be started with.
  abbrev pub IsSane : Options platform → Type 0
  IsSane s =
      IsSized s.sizes
      × (platform.le_one s.factor ≡ false)
      × MemoryBounds s.hash_power s.evict_opt s.maxbytes
      × ServerBounds s.num_workers s.reqs_per_event s.maxconns s.backlog s.port s.udpport
      × LogBounds s.stats_interval s.klog_entry s.klog_sampling_rate
      × HotkeyBounds s.hotkey_sample_rate s.hotkey_bw_threshold

  abbrev pub Sane : Option (Options platform) → Type 0
  Sane none = Unit
  Sane (some t) = IsSane t

  pub default-Sane :
      platform.le_one platform.default_factor ≡ false → IsSane (mc_set_default_options platform)
  unfolding mc_set_default_options
  default-Sane f = (
    record {
      slab_low = omega arith;
      slab_high = omega arith;
      slab_aligned = refl;
      chunk_low = omega arith;
      chunk_aligned = refl;
    },
    f,
    (omega arith, omega arith, omega arith),
    (omega arith, omega arith, omega arith, omega arith, omega arith, omega arith),
    (omega arith, omega arith, omega arith, omega arith),
    (omega arith, omega arith),
  )

  pub number_in-Bounded :
      (low high : ℕ) (arg : List ℕ) → Bounded low high (number_in platform low high arg)
  unfolding number_in
  number_in-Bounded low high arg = checked (atoi arg)
    where
      checked :
          (o : Option ℕ)
          → Bounded low high (elim o [
            | none ↦ none
            | some value ↦ if leb low value && leb value high then some value else none
          ])
      checked none = tt
      checked (some value) = elim (Bool-cases (leb low value && leb value high)) [
        | inl e ↦ rw e (ground arith, ground arith)
        | inr e ↦ rw e tt
      ]

  pub with_value-Sane :
      (low high : ℕ) (arg : List ℕ) (put : ℕ → Options platform)
      → ((value : ℕ) → low ≤ value → value ≤ high → IsSane (put value))
      → Sane (with_value platform (number_in platform low high arg) put)
  with_value-Sane low high arg put h = checked _ (number_in-Bounded low high arg)
    where
      checked : (o : Option ℕ) → Bounded low high o → Sane (with_value platform o put)
      checked none b = tt
      checked (some value) (l, u) = h value l u

  pub flag-Sane : (f : Flag) (s : Options platform) → IsSane s → IsSane (set_flag platform f s)
  unfolding set_flag
  flag-Sane opt_help s h = h
  flag-Sane opt_version s h = h
  flag-Sane opt_prealloc s h = h
  flag-Sane opt_use_large_pages s h = either platform.large_pages
    where
      either : (b : Bool) → IsSane (if b then record s { prealloc = true } else s)
      either true = h
      either false = h
  flag-Sane opt_lock_pages s h = h
  flag-Sane opt_daemonize s h = h
  flag-Sane opt_maximize_core_limit s h = h
  flag-Sane opt_disable_cas s h = h
  flag-Sane opt_describe_stats s h = h
  flag-Sane opt_show_sizes s h = h
  flag-Sane opt_enable_hotkey s h = h

  pub log-Sane :
      (o : LogOption) (arg : List ℕ) (s : Options platform)
      → IsSane s
      → Sane (set_log_option platform o arg s)
  unfolding set_log_option
  log-Sane opt_output arg s h = h
  log-Sane opt_verbosity arg s h = with_value-Sane _ _ arg _ (λ v l u. h)
  log-Sane opt_stats_aggr_interval arg s (z, f, m, w, (il, ih, e, r), k) =
      with_value-Sane _ _ arg _ (λ v l u. (z, f, m, w, (l, u, e, r), k))
  log-Sane opt_hash_power arg s (z, f, (p, e, b), w, g, k) =
      with_value-Sane _ _ arg _ (λ v l u. (z, f, (u, e, b), w, g, k))
  log-Sane opt_klog_entry arg s (z, f, m, w, (il, ih, e, r), k) =
      with_value-Sane _ _ arg _ (λ v l u. (z, f, m, w, (il, ih, l, r), k))
  log-Sane opt_klog_file arg s h = elim (Bool-cases platform.memory) [
    | inl e ↦ rw e h
    | inr e ↦ rw e tt
  ]
  log-Sane opt_klog_sample_rate arg s (z, f, m, w, (il, ih, e, r), k) =
      with_value-Sane _ _ arg _ (λ v l u. (z, f, m, w, (il, ih, e, l), k))

  pub hotkey-Sane :
      (o : HotkeyOption) (arg : List ℕ) (s : Options platform)
      → IsSane s
      → Sane (set_hotkey_option platform o arg s)
  unfolding set_hotkey_option
  hotkey-Sane opt_redline_qps arg s h = with_value-Sane _ _ arg _ (λ v l u. h)
  hotkey-Sane opt_sample_rate arg s (z, f, m, w, g, (r, b)) =
      with_value-Sane _ _ arg _ (λ v l u. (z, f, m, w, g, (l, b)))
  hotkey-Sane opt_qps_threshold arg s h =
      elim (Bool-cases
        (platform.le_zero (platform.strtod arg) || platform.gt_one (platform.strtod arg))) [
          | inl e ↦ rw e tt
          | inr e ↦ rw e h
        ]
  hotkey-Sane opt_bw_threshold arg s (z, f, m, w, g, (r, b)) =
      with_value-Sane _ _ arg _ (λ v l u. (z, f, m, w, g, (r, l)))

  pub server-Sane :
      (o : ServerOption) (arg : List ℕ) (s : Options platform)
      → IsSane s
      → Sane (set_server_option platform o arg s)
  unfolding set_server_option
  server-Sane opt_pidfile arg s h = h
  server-Sane opt_user arg s h = h
  server-Sane opt_interface arg s h = h
  server-Sane opt_unix_path arg s h = h
  server-Sane opt_access_mask arg s h = masked (str2oct platform arg)
    where
      masked :
          (o : Option ℤ)
          → Sane (elim o [ none ↦ none | some value ↦ some (record s { access = value }) ])
      masked none = tt
      masked (some value) = h
  server-Sane opt_threads arg s (z, f, m, (t, r, c, b, p, u), g, k) =
      with_value-Sane _ _ arg _ (λ v l high. (z, f, m, (l, r, c, b, p, u), g, k))
  server-Sane opt_max_requests arg s (z, f, m, (t, r, c, b, p, u), g, k) =
      with_value-Sane _ _ arg _ (λ v l high. (z, f, m, (t, l, c, b, p, u), g, k))
  server-Sane opt_max_conns arg s (z, f, m, (t, r, c, b, p, u), g, k) =
      with_value-Sane _ _ arg _ (λ v l high. (z, f, m, (t, r, l, b, p, u), g, k))
  server-Sane opt_backlog arg s (z, f, m, (t, r, c, b, p, u), g, k) =
      with_value-Sane _ _ arg _ (λ v l high. (z, f, m, (t, r, c, l, p, u), g, k))
  server-Sane opt_port arg s (z, f, m, (t, r, c, b, p, u), g, k) =
      with_value-Sane _ _ arg _ (λ v l high. (z, f, m, (t, r, c, b, l, u), g, k))
  server-Sane opt_udp_port arg s (z, f, m, (t, r, c, b, p, u), g, k) =
      with_value-Sane _ _ arg _ (λ v l high. (z, f, m, (t, r, c, b, p, l), g, k))
