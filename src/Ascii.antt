-- ===== src/Ascii.antt =====
-- The replies and the argument checks of src/mc_ascii.c, over the connection that a command came in
-- on. The commands are in the child modules.
--
-- The build is the one without statistics; what klog_write() appends to the command log is left
-- out.
pub mod Storage
pub mod Complete
pub mod Counter
pub mod Admin
pub mod Config
pub mod Read
pub mod Dispatch
mod Tests
use twemcache.Base.{
  ℕ, zero, suc, ◌+◌, ◌-◌, ◌%◌, ◌^◌, Bool, true, false, not, ◌&&◌, ◌||◌, Option, none, some, List,
  [], ◌∷◌, ◌++◌, length, ltb, leb, ◌==◌, if◌then◌else◌,
}
use twemcache.Base.Int.{ℤ}
use twemcache.Assoc.{Key}
use twemcache.Cache.{Cache}
use twemcache.Clock.{Clock}
use twemcache.Conn.{Conn, conn_new_cmd, conn_write, set_state}
use twemcache.Hotkey.{Hotkey}
use twemcache.Items.{item_slabid}
use twemcache.Number
use twemcache.Number.{Libc}
use twemcache.Request.{in_bound}
use twemcache.SlabClass.{invalid_id}
use twemcache.Store.{Settings, Store}
use twemcache.Token.{Token, get, from, text, set_noreply_maybe}
use twemcache.Util.{print_uint64}

-- What a command can change: the items, the settings, the clock, the pool of suffixes of the thread,
-- and the connection. `interval` is what stats_set_interval() was last called with, and `klog_named`
-- says that settings.klog_name is set.
pub record Server : Type 0 where
  pub store : Store
  pub cfg : Settings
  pub clock : Clock
  pub suffix_cache : Cache
  pub hotkey_enable : Bool
  pub hotkey : Hotkey
  pub klog_named : Bool
  pub klog_running : Bool
  pub klog_sampling_rate : ℕ
  pub interval : ℤ
  pub conn : Conn

abbrev pub set_conn : Server → Conn → Server
set_conn w c = record w { conn = c }

abbrev pub set_store : Server → Store → Server
set_store w s = record w { store = s }

abbrev pub crlf : List ℕ
crlf = b'\r' ∷ b'\n' ∷ []

abbrev pub str_server_error : List ℕ
str_server_error =
    b'S' ∷ b'E' ∷ b'R' ∷ b'V' ∷ b'E' ∷ b'R' ∷ b'_' ∷ b'E' ∷ b'R' ∷ b'R' ∷ b'O' ∷ b'R' ∷ []

abbrev pub str_client_error : List ℕ
str_client_error =
    b'C' ∷ b'L' ∷ b'I' ∷ b'E' ∷ b'N' ∷ b'T' ∷ b'_' ∷ b'E' ∷ b'R' ∷ b'R' ∷ b'O' ∷ b'R' ∷ []

abbrev pub str_stored : List ℕ
str_stored = b'S' ∷ b'T' ∷ b'O' ∷ b'R' ∷ b'E' ∷ b'D' ∷ []

abbrev pub str_exists : List ℕ
str_exists = b'E' ∷ b'X' ∷ b'I' ∷ b'S' ∷ b'T' ∷ b'S' ∷ []

abbrev pub str_not_found : List ℕ
str_not_found = b'N' ∷ b'O' ∷ b'T' ∷ b'_' ∷ b'F' ∷ b'O' ∷ b'U' ∷ b'N' ∷ b'D' ∷ []

abbrev pub str_not_stored : List ℕ
str_not_stored = b'N' ∷ b'O' ∷ b'T' ∷ b'_' ∷ b'S' ∷ b'T' ∷ b'O' ∷ b'R' ∷ b'E' ∷ b'D' ∷ []

abbrev pub str_deleted : List ℕ
str_deleted = b'D' ∷ b'E' ∷ b'L' ∷ b'E' ∷ b'T' ∷ b'E' ∷ b'D' ∷ []

abbrev pub str_ok : List ℕ
str_ok = b'O' ∷ b'K' ∷ []

abbrev pub str_version : List ℕ
str_version = b'V' ∷ b'E' ∷ b'R' ∷ b'S' ∷ b'I' ∷ b'O' ∷ b'N' ∷ b' ' ∷ []

pub asc_write_string : Conn → List ℕ → Conn
asc_write_string c str =
    if c.noreply then record c { noreply = false; state = conn_new_cmd } else record c {
      wbuf = (if ltb c.wsize (length str + 2) then str_server_error else str) ++ crlf;
      state = conn_write;
      write_and_go = conn_new_cmd;
    }

abbrev pub reply : Server → List ℕ → Server
reply w str = set_conn w (asc_write_string w.conn str)

pub asc_rsp_stored : Server → Server
asc_rsp_stored w = reply w str_stored

pub asc_rsp_exists : Server → Server
asc_rsp_exists w = reply w str_exists

pub asc_rsp_not_found : Server → Server
asc_rsp_not_found w = reply w str_not_found

pub asc_rsp_not_stored : Server → Server
asc_rsp_not_stored w = reply w str_not_stored

pub asc_rsp_deleted : Server → Server
asc_rsp_deleted w = reply w str_deleted

pub asc_rsp_client_error : Server → Server
asc_rsp_client_error w = reply w str_client_error

pub asc_rsp_server_error : Server → Server
asc_rsp_server_error w = reply w str_server_error

pub asc_rsp_ok : Server → Server
asc_rsp_ok w = reply w str_ok

-- `version` is MC_VERSION_STRING, which the build defines.
pub asc_rsp_version : List ℕ → Server → Server
asc_rsp_version version w = reply w (str_version ++ version)

-- The length of what snprintf() prints is never negative.
pub asc_rsp_int : Server → ℕ → Server
asc_rsp_int w num = reply w (print_uint64 num)

-- The checks that follow reply when they fail; here the reply is made where their answer is used.
abbrev pub on_valid : {A : Type 0} → Server → Option A → (A → Server) → Server
on_valid w none next = asc_rsp_client_error w
on_valid w (some x) next = next x

-- asc_validate_ntoken
pub asc_validate_ntoken : Server → ℕ → Option (Unit {0})
asc_validate_ntoken w ntoken =
    if in_bound w.conn.req_type w.conn.noreply ntoken then some tt else none

-- asc_get_slabid
pub asc_get_slabid : Server → ℕ → ℕ → Option ℕ
asc_get_slabid w nkey vlen = if id == invalid_id then none else some id
  where
    id : ℕ
    id = item_slabid w.cfg w.store nkey vlen

abbrev pub key_max_len : ℕ
key_max_len = 250

-- asc_get_key: the bytes of the key.
pub asc_get_key : List Token → Option Key
asc_get_key token = if ltb key_max_len (get token 1).len then none else some (text (get token 1))

-- asc_get_flags
pub asc_get_flags : Libc → List Token → Option ℕ
asc_get_flags libc token = Number.strtoul libc (from (get token 2).val)

-- asc_get_expiry
pub asc_get_expiry : Libc → List Token → Option ℤ
asc_get_expiry libc token = Number.strtol libc (from (get token 3).val)

-- asc_get_vlen
pub asc_get_vlen : Libc → List Token → Option ℕ
asc_get_vlen libc token = Number.strtoul libc (from (get token 4).val)

-- asc_get_delta
pub asc_get_delta : Libc → List Token → Option ℕ
asc_get_delta libc token = Number.strtoull libc (from (get token 2).val)

-- asc_set_noreply_maybe
pub asc_set_noreply_maybe : Server → List Token → Server
asc_set_noreply_maybe w token =
    set_conn w (record w.conn { noreply = w.conn.noreply || set_noreply_maybe token })
