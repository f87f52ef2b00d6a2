-- ===== src/Ascii/Config.antt =====
-- asc_process_config and asc_process_klog of src/mc_ascii.c.
use twemcache.Ascii.{Server, on_valid, asc_validate_ntoken, asc_rsp_ok, asc_rsp_client_error}
use twemcache.Ascii.Admin.{
  asc_process_aggregate, asc_process_evict, asc_process_maxbytes, stats_default_intvl,
}
use twemcache.Base.{ℕ, zero, suc, Bool, true, false, List, [], ◌∷◌, length, ltb, if◌then◌else◌}
use twemcache.Base.Int.{pos, negsuc}
use twemcache.Number
use twemcache.Number.{Libc}
use twemcache.Token.{Token, get, from, text, starts}

-- strncmp(t->val, name, t->len) == 0
abbrev pub names : Token → List ℕ → Bool
names t name = starts (text t) name

abbrev str_reset : List ℕ
str_reset = b'r' ∷ b'e' ∷ b's' ∷ b'e' ∷ b't' ∷ []

abbrev klog_min_intvl : ℕ
klog_min_intvl = 100

abbrev klog_default_smp_rate : ℕ
klog_default_smp_rate = 100

-- "klog run"
pub klog_run : Server → Token → Server
klog_run w t =
    if w.klog_named
    then if names t (b's' ∷ b't' ∷ b'a' ∷ b'r' ∷ b't' ∷ [])
      then asc_rsp_ok (record w { klog_running = true })
      else if names t (b's' ∷ b't' ∷ b'o' ∷ b'p' ∷ [])
      then asc_rsp_ok (record w { klog_running = false })
      else asc_rsp_client_error w
    else asc_rsp_client_error w

-- The command that turns the detector of hot keys on and off; `hotkey_realloc` is the flag that its
-- window is being replaced.
pub asc_process_hk_enable : Bool → Server → List Token → Server
asc_process_hk_enable hotkey_realloc w token =
    if names (get token 3) (b'y' ∷ b'e' ∷ b's' ∷ [])
    then if hotkey_realloc
      then asc_rsp_client_error w
      else asc_rsp_ok (record w { hotkey_enable = true })
    else if names (get token 3) (b'n' ∷ b'o' ∷ [])
    then asc_rsp_ok (record w { hotkey_enable = false })
    else asc_rsp_client_error w

module _ (libc : Libc) where
  -- "klog interval"
  pub klog_interval : Server → Token → Server
  klog_interval w t =
      if names t str_reset
      then asc_rsp_ok (record w { interval = pos stats_default_intvl })
      else on_valid w (Number.strtol libc (from t.val)) (λ interval. elim interval [
        | pos n ↦
            if ltb n klog_min_intvl
            then asc_rsp_client_error w
            else asc_rsp_ok (record w { interval = pos n })
        | negsuc n ↦ asc_rsp_client_error w
      ])

  -- "klog sampling"
  pub klog_sampling : Server → Token → Server
  klog_sampling w t =
      if names t str_reset
      then asc_rsp_ok (record w { klog_sampling_rate = klog_default_smp_rate })
      else on_valid w (Number.strtol libc (from t.val)) (λ sampling. elim sampling [
        | pos zero ↦ asc_rsp_client_error w
        | pos (suc n) ↦ asc_rsp_ok (record w { klog_sampling_rate = suc n })
        | negsuc n ↦ asc_rsp_client_error w
      ])

  pub asc_process_klog : Server → List Token → Server
  unfolding klog_run klog_interval klog_sampling
  asc_process_klog w token = on_valid w (asc_validate_ntoken w (length token)) λ _.
      if names (get token 2) (b'r' ∷ b'u' ∷ b'n' ∷ [])
      then klog_run w (get token 3)
      else if names (get token 2) (b'i' ∷ b'n' ∷ b't' ∷ b'e' ∷ b'r' ∷ b'v' ∷ b'a' ∷ b'l' ∷ [])
      then klog_interval w (get token 3)
      else if names (get token 2) (b's' ∷ b'a' ∷ b'm' ∷ b'p' ∷ b'l' ∷ b'i' ∷ b'n' ∷ b'g' ∷ [])
      then klog_sampling w (get token 3)
      else asc_rsp_client_error w

  -- asc_process_config; the commands on hot keys are an argument.
  pub asc_process_config : (Server → List Token → Server) → Server → List Token → Server
  unfolding asc_process_klog
  asc_process_config hotkey w token =
      if names (get token 1) (b'a' ∷ b'g' ∷ b'g' ∷ b'r' ∷ b'e' ∷ b'g' ∷ b'a' ∷ b't' ∷ b'e' ∷ [])
      then asc_process_aggregate libc w token
      else if names (get token 1) (b'k' ∷ b'l' ∷ b'o' ∷ b'g' ∷ [])
      then asc_process_klog w token
      else if names (get token 1) (b'e' ∷ b'v' ∷ b'i' ∷ b'c' ∷ b't' ∷ [])
      then asc_process_evict libc w token
      else if names (get token 1) (b'm' ∷ b'a' ∷ b'x' ∷ b'b' ∷ b'y' ∷ b't' ∷ b'e' ∷ b's' ∷ [])
      then asc_process_maxbytes libc w token
      else if names (get token 1) (b'h' ∷ b'o' ∷ b't' ∷ b'k' ∷ b'e' ∷ b'y' ∷ [])
      then hotkey w token
      else asc_rsp_client_error w
