-- ===== src/Options.antt =====
-- The command line of src/mc.c: mc_set_default_options and mc_get_options over the fields of
-- `struct settings` that they set, and mc_set_profile behind them, as main() calls them.
--
-- getopt_long() is not part of the repository: a command line is the list of what it returns, in
-- order, each with its argument. The static variables that main() looks at are fields too.
pub mod Bounds
pub mod Memory
pub mod Sane
mod Tests
use twemcache.Base.{
  ℕ, ◌+◌, ◌*◌, ◌-◌, ◌%◌, ◌^◌, Bool, true, false, not, ◌&&◌, ◌||◌, Option, none, some, List, [], ◌∷◌,
  ◌++◌, ltb, leb, ◌==◌, if◌then◌else◌,
}
use twemcache.Base.Int.{ℤ, pos}
use twemcache.Number.{Libc, Parsed, is_end, to_int32}
use twemcache.Profile.{Sizes, mc_alignment, min_chunk_size, max_id, mc_set_profile}
use twemcache.Util.{atoi, valid_port}

pub data Flag : Type 0 where
  opt_help opt_version opt_prealloc opt_use_large_pages opt_lock_pages opt_daemonize : Flag
  opt_maximize_core_limit opt_disable_cas opt_describe_stats opt_show_sizes opt_enable_hotkey : Flag

pub data LogOption : Type 0 where
  opt_output opt_verbosity opt_stats_aggr_interval opt_hash_power : LogOption
  opt_klog_entry opt_klog_file opt_klog_sample_rate : LogOption

pub data HotkeyOption : Type 0 where
  opt_redline_qps opt_sample_rate opt_qps_threshold opt_bw_threshold : HotkeyOption

pub data ServerOption : Type 0 where
  opt_threads opt_pidfile opt_user opt_max_requests opt_max_conns opt_backlog : ServerOption
  opt_port opt_udp_port opt_interface opt_unix_path opt_access_mask : ServerOption

pub data MemoryOption : Type 0 where
  opt_eviction_strategy opt_factor opt_max_memory opt_min_item_chunk_size : MemoryOption
  opt_slab_size opt_slab_profile : MemoryOption

-- What getopt_long() returns: an option and its argument, or one that it does not know or that
-- lacks its argument.
pub data Opt : Type 0 where
  flag : Flag → Opt
  log_option : LogOption → List ℕ → Opt
  hotkey_option : HotkeyOption → List ℕ → Opt
  server_option : ServerOption → List ℕ → Opt
  memory_option : MemoryOption → List ℕ → Opt
  invalid : Opt

-- The doubles of the platform, with what the options ask of them; mc_enable_large_pages() == 0;
-- whether memory is granted for a file name; strtol() with base 8.
pub record Platform : Type 1 where
  pub Double : Type 0
  pub strtod : List ℕ → Double
  pub le_zero : Double → Bool
  pub gt_one : Double → Bool
  pub le_one : Double → Bool
  pub default_factor : Double
  pub default_qps_threshold : Double
  pub scale : Double → ℕ → ℕ
  pub large_pages : Bool
  pub memory : Bool
  pub strtol8 : List ℕ → Parsed ℤ

module _ (platform : Platform) where
  open platform use {Double, strtod, le_zero, gt_one, le_one, scale, large_pages, memory, strtol8}

  -- `tcp_specified` and `udp_specified` are the local variables of mc_get_options.
  pub record Options : Type 0 where
    pub prealloc : Bool
    pub lock_page : Bool
    pub daemonize : Bool
    pub max_corefile : Bool
    pub use_cas : Bool
    pub log_filename : Option (List ℕ)
    pub verbose : ℕ
    pub stats_interval : ℕ
    pub klog_name : Option (List ℕ)
    pub klog_backup : Option (List ℕ)
    pub klog_sampling_rate : ℕ
    pub klog_entry : ℕ
    pub klog_interval : ℕ
    pub klog_running : Bool
    pub num_workers : ℕ
    pub username : Option (List ℕ)
    pub reqs_per_event : ℕ
    pub maxconns : ℕ
    pub backlog : ℕ
    pub port : ℕ
    pub udpport : ℕ
    pub interface : Option (List ℕ)
    pub socketpath : Option (List ℕ)
    pub access : ℤ
    pub evict_opt : ℕ
    pub use_freeq : Bool
    pub use_lruq : Bool
    pub factor : Double
    pub maxbytes : ℕ
    pub sizes : Sizes
    pub hash_power : ℕ
    pub pid_filename : Option (List ℕ)
    pub hotkey_enable : Bool
    pub hotkey_redline_qps : ℕ
    pub hotkey_sample_rate : ℕ
    pub hotkey_qps_threshold : Double
    pub hotkey_bw_threshold : ℕ
    pub show_help : Bool
    pub show_version : Bool
    pub show_stats_description : Bool
    pub show_sizes : Bool
    pub profile_optarg : Option (List ℕ)
    pub tcp_specified : Bool
    pub udp_specified : Bool

  -- mc_set_default_options
  pub mc_set_default_options : Options
  mc_set_default_options = record {
    prealloc = false;
    lock_page = false;
    daemonize = false;
    max_corefile = false;
    use_cas = true;
    log_filename = none;
    verbose = 5;
    stats_interval = 100000;
    klog_name = none;
    klog_backup = none;
    klog_sampling_rate = 100;
    klog_entry = 512;
    klog_interval = 1000;
    klog_running = false;
    num_workers = 2;
    username = none;
    reqs_per_event = 20;
    maxconns = 1024;
    backlog = 1024;
    port = 11211;
    udpport = 11211;
    interface = none;
    socketpath = none;
    access = pos 448;
    evict_opt = 2;
    use_freeq = true;
    use_lruq = true;
    factor = platform.default_factor;
    maxbytes = 64 * (1024 * 1024);
    sizes = record {
      slab_size = 1024 * 1024;
      chunk_size = 88;
      profile = λ id. 0;
      profile_last_id = max_id;
      max_chunk_size = 0;
    };
    hash_power = 0;
    pid_filename = none;
    hotkey_enable = false;
    hotkey_redline_qps = 80000;
    hotkey_sample_rate = 100;
    hotkey_qps_threshold = platform.default_qps_threshold;
    hotkey_bw_threshold = 200000;
    show_help = false;
    show_version = false;
    show_stats_description = false;
    show_sizes = false;
    profile_optarg = none;
    tcp_specified = false;
    udp_specified = false;
  }

  -- The cases without an argument.
  pub set_flag : Flag → Options → Options
  set_flag opt_help s = record s { show_version = true; show_help = true }
  set_flag opt_version s = record s { show_version = true }
  set_flag opt_prealloc s = record s { prealloc = true }
  set_flag opt_use_large_pages s = if large_pages then record s { prealloc = true } else s
  set_flag opt_lock_pages s = record s { lock_page = true; prealloc = true }
  set_flag opt_daemonize s = record s { daemonize = true }
  set_flag opt_maximize_core_limit s = record s { max_corefile = true }
  set_flag opt_disable_cas s = record s { use_cas = false }
  set_flag opt_describe_stats s = record s { show_stats_description = true; show_version = true }
  set_flag opt_show_sizes s = record s { show_sizes = true; show_version = true }
  set_flag opt_enable_hotkey s = record s { hotkey_enable = true }

  -- A number that mc_atoi() reads and that lies between two bounds.
  pub number_in : ℕ → ℕ → List ℕ → Option ℕ
  number_in low high arg = elim (atoi arg) [
    | none ↦ none
    | some value ↦ if leb low value && leb value high then some value else none
  ]

  abbrev int_max : ℕ
  int_max = 2 ^ 31 - 1

  abbrev pub str_old : List ℕ
  str_old = b'.' ∷ b'o' ∷ b'l' ∷ b'd' ∷ []

  abbrev pub with_value : Option ℕ → (ℕ → Options) → Option Options
  with_value none put = none
  with_value (some value) put = some (put value)

  pub set_log_option : LogOption → List ℕ → Options → Option Options
  unfolding number_in
  set_log_option opt_output arg s = some (record s { log_filename = some arg })
  set_log_option opt_verbosity arg s =
      with_value (number_in 0 int_max arg) (λ value. record s { verbose = value })
  set_log_option opt_stats_aggr_interval arg s =
      with_value (number_in 10000 60000000 arg) (λ value. record s { stats_interval = value })
  set_log_option opt_hash_power arg s =
      with_value (number_in 1 32 arg) (λ value. record s { hash_power = value })
  set_log_option opt_klog_entry arg s =
      with_value (number_in 1 int_max arg) (λ value. record s { klog_entry = value })
  set_log_option opt_klog_file arg s =
      if memory
      then some (record s {
        klog_name = some arg;
        klog_backup = some (arg ++ str_old);
        klog_running = true;
      })
      else none
  set_log_option opt_klog_sample_rate arg s =
      with_value (number_in 1 int_max arg) (λ value. record s { klog_sampling_rate = value })

  pub set_hotkey_option : HotkeyOption → List ℕ → Options → Option Options
  unfolding number_in
  set_hotkey_option opt_redline_qps arg s =
      with_value (number_in 0 int_max arg) (λ value. record s { hotkey_redline_qps = value })
  set_hotkey_option opt_sample_rate arg s =
      with_value (number_in 1 int_max arg) (λ value. record s { hotkey_sample_rate = value })
  set_hotkey_option opt_qps_threshold arg s =
      if le_zero (strtod arg) || gt_one (strtod arg)
      then none
      else some (record s { hotkey_qps_threshold = strtod arg })
  set_hotkey_option opt_bw_threshold arg s =
      with_value (number_in 1 int_max arg) (λ value. record s { hotkey_bw_threshold = value })

  -- mc_str2oct
  pub str2oct : List ℕ → Option ℤ
  str2oct arg =
      if not (strtol8 arg).range_error && is_end arg (strtol8 arg).endptr
      then some (to_int32 (strtol8 arg).number)
      else none

  -- A port that is none is reported on stderr, and taken.
  pub set_server_option : ServerOption → List ℕ → Options → Option Options
  unfolding number_in str2oct
  set_server_option opt_threads arg s =
      with_value (number_in 1 int_max arg) (λ value. record s { num_workers = value })
  set_server_option opt_pidfile arg s = some (record s { pid_filename = some arg })
  set_server_option opt_user arg s = some (record s { username = some arg })
  set_server_option opt_max_requests arg s =
      with_value (number_in 1 int_max arg) (λ value. record s { reqs_per_event = value })
  set_server_option opt_max_conns arg s =
      with_value (number_in 1 int_max arg) (λ value. record s { maxconns = value })
  set_server_option opt_backlog arg s =
      with_value (number_in 1 int_max arg) (λ value. record s { backlog = value })
  set_server_option opt_port arg s =
      with_value (number_in 1 int_max arg)
        (λ value. record s { port = value; tcp_specified = true })
  set_server_option opt_udp_port arg s =
      with_value (number_in 1 int_max arg)
        (λ value. record s { udpport = value; udp_specified = true })
  set_server_option opt_interface arg s = some (record s { interface = some arg })
  set_server_option opt_unix_path arg s = some (record s { socketpath = some arg })
  set_server_option opt_access_mask arg s = elim (str2oct arg) [
    | none ↦ none
    | some value ↦ some (record s { access = value })
  ]

  -- The number of the argument of -I, and what it counts. Of an empty argument the source reads the
  -- byte before it; here it is refused.
  pub slab_unit : List ℕ → List ℕ × ℕ
  slab_unit [] = ([], 1)
  slab_unit (c ∷ []) =
      if c == b'k'
      then ([], 1024)
      else if (c == b'm') || (c == b'M')
      then ([], 1024 * 1024)
      else (c ∷ [], 1)
  slab_unit (c ∷ d ∷ arg) = let (digits, unit) = slab_unit (d ∷ arg) in (c ∷ digits, unit)

  pub set_slab_size : List ℕ → Options → Option Options
  unfolding number_in slab_unit
  set_slab_size arg s =
      let (digits, unit) = slab_unit arg in
      elim (number_in 1 int_max digits) [
        | none ↦ none
        | some value ↦
            if (value % mc_alignment == 0)
              && (leb 512 (value * unit) && leb (value * unit) (128 * (1024 * 1024)))
            then some (record s { sizes = record s.sizes { slab_size = value * unit } })
            else none
      ]

  pub set_memory_option : MemoryOption → List ℕ → Options → Option Options
  unfolding number_in set_slab_size
  set_memory_option opt_eviction_strategy arg s = with_value (number_in 0 15 arg) (λ value.
      if value == 8
      then record s { evict_opt = value; use_freeq = false; use_lruq = false }
      else record s { evict_opt = value })
  set_memory_option opt_factor arg s =
      if le_one (strtod arg) then none else some (record s { factor = strtod arg })
  set_memory_option opt_max_memory arg s =
      with_value (number_in 1 int_max arg) (λ value. record s { maxbytes = value * 1024 * 1024 })
  set_memory_option opt_min_item_chunk_size arg s = elim (number_in min_chunk_size int_max arg) [
    | none ↦ none
    | some value ↦
        if value % mc_alignment == 0
        then some (record s { sizes = record s.sizes { chunk_size = value } })
        else none
  ]
  set_memory_option opt_slab_size arg s = set_slab_size arg s
  set_memory_option opt_slab_profile arg s = some (record s { profile_optarg = some arg })

  pub set_option : Opt → Options → Option Options
  unfolding set_flag set_log_option set_hotkey_option set_server_option set_memory_option
  set_option (flag f) s = some (set_flag f s)
  set_option (log_option o arg) s = set_log_option o arg s
  set_option (hotkey_option o arg) s = set_hotkey_option o arg s
  set_option (server_option o arg) s = set_server_option o arg s
  set_option (memory_option o arg) s = set_memory_option o arg s
  set_option invalid s = none

  -- Behind the loop: one port that was given alone stands for both.
  pub join_ports : Options → Options
  join_ports s =
      if s.tcp_specified && not s.udp_specified
      then record s { udpport = s.port }
      else if s.udp_specified && not s.tcp_specified
      then record s { port = s.udpport }
      else s

  pub mc_get_options : Options → List Opt → Option Options
  unfolding set_option join_ports
  mc_get_options s [] = some (join_ports s)
  mc_get_options s (o ∷ opts) = elim (set_option o s) [
    | none ↦ none
    | some t ↦ mc_get_options t opts
  ]

  -- What main() does with a command line up to mc_set_profile(), where it is not asked to show
  -- something and exit, and the sizes that it sets.
  pub configure : Libc → List Opt → Option Sizes
  unfolding mc_set_default_options mc_get_options
  configure libc opts = elim (mc_get_options mc_set_default_options opts) [
    | none ↦ none
    | some s ↦ mc_set_profile libc (scale s.factor) s.profile_optarg s.sizes
  ]
