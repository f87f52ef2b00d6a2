-- ===== src/Ascii/Admin.antt =====
-- The administrative commands of src/mc_ascii.c: asc_process_flushall, asc_process_verbosity, and
-- the subcommands of asc_process_config that change the settings.
use twemcache.Ascii.{
  Server, set_store, on_valid, asc_validate_ntoken, asc_set_noreply_maybe, asc_rsp_ok,
  asc_rsp_client_error,
}
use twemcache.Assoc.{Key}
use twemcache.Base.{
  ℕ, zero, suc, ◌-◌, ◌/◌, ◌%◌, ◌^◌, ◌&&◌, ◌||◌, List, length, ltb, leb, ◌==◌, if◌then◌else◌,
}
use twemcache.Base.Int.{ℤ, pos, negsuc}
use twemcache.Clock
use twemcache.Items.Ops.{item_flush_expired}
use twemcache.Number
use twemcache.Number.{Libc}
use twemcache.Request.{bound_min, req_flushall}
use twemcache.Store.{time_sub}
use twemcache.Token.{Token, get, from}

-- time_update, where the wall clock is at `sec` and `usec`.
pub time_update : Server → ℕ → ℕ → Server
time_update w sec usec = record w { clock = clock; store = record w.store { now = clock.now } }
  where
    clock : Clock.Clock
    clock = Clock.update w.clock sec usec

-- `settings.oldest_live = …` and item_flush_expired().
pub flush_before : (Key → ℕ) → Server → ℕ → Server
flush_before hash w time =
    asc_rsp_ok
      (set_store w (item_flush_expired hash (record w.store { oldest_live = time_sub time 1 })))

-- The delay: at once, if it is not positive.
pub flush_time : Server → ℤ → ℕ
flush_time w (pos zero) = w.clock.now
flush_time w (pos (suc n)) = Clock.reltime w.clock (pos (suc n))
flush_time w (negsuc n) = w.clock.now

module _ (hash : Key → ℕ) (libc : Libc) where
  pub flushall_checked : Server → List Token → Server
  unfolding flush_before flush_time
  flushall_checked w token = on_valid w (asc_validate_ntoken w (length token)) λ _.
      if length token == bound_min req_flushall w.conn.noreply
      then flush_before hash w w.clock.now
      else on_valid w (Number.strtol libc (from (get token 1).val))
          λ exptime. flush_before hash w (flush_time w exptime)

  pub asc_process_flushall : Server → ℕ → ℕ → List Token → Server
  unfolding flushall_checked time_update
  asc_process_flushall w sec usec token =
      flushall_checked (asc_set_noreply_maybe (time_update w sec usec) token) token

abbrev pub stats_default_intvl : ℕ
stats_default_intvl = 100000

module _ (libc : Libc) where
  -- log_level_set() changes what is logged only.
  pub verbosity_checked : Server → List Token → Server
  verbosity_checked w token =
      if (length token == 3) || (length token == 4)
      then on_valid w (Number.strtoul libc (from (get token 1).val)) (λ level. asc_rsp_ok w)
      else asc_rsp_client_error w

  pub asc_process_verbosity : Server → List Token → Server
  unfolding verbosity_checked
  asc_process_verbosity w token = verbosity_checked (asc_set_noreply_maybe w token) token

  -- settings.evict_opt as a field for each bit; EVICT_INVALID is 16.
  pub set_evict : Server → ℕ → Server
  set_evict w option = record w {
    cfg = record w.cfg {
      evict_lru = option % 2 == 1;
      evict_rs = (option / 2) % 2 == 1;
      evict_as = (option / 4) % 2 == 1;
      evict_cs = (option / 8) % 2 == 1;
    };
  }

  pub asc_process_evict : Server → List Token → Server
  unfolding set_evict
  asc_process_evict w token =
      if length token == 4
      then on_valid w (Number.strtol libc (from (get token 2).val)) (λ option. elim option [
        | pos n ↦ if ltb n 16 then asc_rsp_ok (set_evict w n) else asc_rsp_client_error w
        | negsuc n ↦ asc_rsp_client_error w
      ])
      else asc_rsp_client_error w

  pub asc_process_maxbytes : Server → List Token → Server
  asc_process_maxbytes w token =
      if length token == 4
      then on_valid w (Number.strtoull libc (from (get token 2).val)) (λ option.
        if ltb option (2 ^ 64 - 1) && leb w.cfg.maxbytes option
        then asc_rsp_ok (record w { cfg = record w.cfg { maxbytes = option } })
        else asc_rsp_client_error w)
      else asc_rsp_client_error w

  pub asc_process_aggregate : Server → List Token → Server
  asc_process_aggregate w token =
      if length token == 4
      then on_valid w (Number.strtol libc (from (get token 2).val)) (λ interval.
        asc_rsp_ok (record w {
          interval = elim interval [
            | pos zero ↦ pos stats_default_intvl
            | pos (suc n) ↦ pos (suc n)
            | negsuc n ↦ negsuc 999999
          ];
        }))
      else asc_rsp_client_error w
