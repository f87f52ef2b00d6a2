-- ===== src/Ascii/Tests.antt =====
-- Runs of the commands of Ascii.
use twemcache.Ascii.{
  Server, asc_set_noreply_maybe, asc_validate_ntoken, asc_get_key, asc_write_string,
}
use twemcache.Ascii.Complete.{asc_complete_nread, strcrlf}
use twemcache.Ascii.Complete.Stored.{set, told, mapped, no_item, asc_complete_nread-Committed}
use twemcache.Ascii.Counter.{asc_process_delete}
use twemcache.Ascii.Counter.Erasing.{Deletes, asc_process_delete-Deletes}
use twemcache.Ascii.Storage.Outcome.{Outcome}
use twemcache.Assoc
use twemcache.Assoc.{Key, Assoc}
use twemcache.Base.{
  ℕ, ◌+◌, ◌*◌, ◌^◌, ◌<◌, ◌≡◌, refl, arith, length, true, false, none, some, List, [], ◌∷◌,
}
use twemcache.Base.Int.{pos}
use twemcache.Conn.{Conn, conn_nread, conn_new_cmd}
use twemcache.Hotkey.Tests.{detector}
use twemcache.Items.Linked.{IsReady, init-IsReady}
use twemcache.Items.Ops.Storing.{Became}
use twemcache.Number.{Libc}
use twemcache.Request.{req_set}
use twemcache.Store.{Item, Settings, Env, Store}
use twemcache.Token.{tokenize, Token}

abbrev hash : Key → ℕ
hash [] = 0
hash (c ∷ k) = c

abbrev cfg : Settings
cfg = record {
  use_cas = true;
  use_freeq = true;
  use_lruq = true;
  evict_lru = true;
  evict_rs = false;
  evict_as = false;
  evict_cs = false;
  prealloc = false;
  slab_size = 1024;
  maxbytes = 4096;
  hash_power = 0;
  profile = λ id. 100 * id;
  profile_last_id = 5;
}

abbrev env : Env
env = record { rand = λ n. 0; malloc = λ n. some (10000 * (n + 1)) }

-- Every item has the key "k", one user, and sits at the start of a slab.
abbrev item : Item
item = record {
  atime = 0;
  exptime = 0;
  nbyte = 1;
  offset = 32;
  dataflags = 0;
  refcount = 1;
  linked = false;
  has_cas = true;
  slabbed = false;
  raligned = false;
  id = 1;
  key = b'k' ∷ [];
  cas = 0;
  value = b'1' ∷ [];
}

abbrev start : Store
start = record {
  items = λ p. item;
  slabs = λ p. record { id = 1; refcount = 1; utime = 0 };
  slabclass = λ id. record {
    nitem = 8;
    size = 100;
    nfree_itemq = 0;
    free_itemq = [];
    nfree_item = 0;
    free_item = none;
  };
  item_lruq = λ id. [];
  curr = 0;
  nslab = 0;
  max_nslab = 4;
  slab_table = λ i. 0;
  slab_lruq = [];
  assoc = Assoc.init 2;
  cas_id = 0;
  oldest_live = 0;
  now = 10;
  rands = 0;
  mallocs = 0;
}

start-IsReady : IsReady hash start
start-IsReady = init-IsReady hash start 2 refl (omega arith)

start-fits : 2 ^ (start.assoc.hash_power + 1) < 2 ^ 32
unfolding Assoc.init
start-fits = omega arith

-- "set k 0 0 1", and its block "2\r\n" read into the item at 1032.
abbrev client : Conn
client = record {
  state = conn_nread;
  udp = false;
  noreply = false;
  unread = [];
  rsize = 2048;
  wbuf = [];
  wsize = 2048;
  write_and_go = conn_new_cmd;
  write_and_free = false;
  nread = b'2' ∷ b'\r' ∷ b'\n' ∷ [];
  rlbytes = 0;
  item = some 1032;
  sbytes = 0;
  iov = λ i. [];
  iov_size = 2;
  iov_used = 0;
  msg = λ i. record { msg_iov = 0; msg_iovlen = 0 };
  msg_size = 2;
  msg_used = 1;
  msg_curr = 0;
  msg_bytes = 0;
  ilist = [];
  isize = 20;
  slist = [];
  ssize = 20;
  req_type = req_set;
  udp_rid = 0;
  udp_hsize = 0;
  reallocs = 0;
}

abbrev server : Server
server = record {
  store = start;
  cfg = cfg;
  clock = record { process_started = 100; now = 10; now_usec = 0 };
  suffix_cache = record { ptr = λ i. 0; bufsize = 24; freetotal = 64; freecurr = 0 };
  hotkey_enable = false;
  hotkey = detector;
  klog_named = false;
  klog_running = false;
  klog_sampling_rate = 100;
  interval = pos 100000;
  conn = client;
}

-- A C library that reads every number as 1.
abbrev libc : Libc
libc = record {
  strtoul = λ str. record { number = 1; range_error = false; endptr = b' ' ∷ [] };
  strtoull = λ str. record { number = 1; range_error = false; endptr = b' ' ∷ [] };
  strtol = λ str. record { number = pos 1; range_error = false; endptr = b' ' ∷ [] };
}

abbrev tokens : List Token
tokens = tokenize (b's' ∷ b'e' ∷ b't' ∷ b' ' ∷ b'k' ∷ b' ' ∷ b'1' ∷ b' ' ∷ b'1' ∷ b' ' ∷ b'1' ∷ [])

abbrev delete_tokens : List Token
delete_tokens = tokenize (b'd' ∷ b'e' ∷ b'l' ∷ b'e' ∷ b't' ∷ b'e' ∷ b' ' ∷ b'k' ∷ [])

asc_process_delete-Deletes_example :
    Deletes hash
      (asc_set_noreply_maybe server delete_tokens)
      (asc_validate_ntoken (asc_set_noreply_maybe server delete_tokens) (length delete_tokens))
      (asc_get_key delete_tokens)
      (asc_process_delete hash env libc server delete_tokens)
asc_process_delete-Deletes_example =
    asc_process_delete-Deletes hash env libc server delete_tokens start-IsReady

asc_complete_nread-Committed_example :
    ((asc_complete_nread hash env server).conn
      ≡ no_item (asc_write_string client (told hash env server 1032 true set)))
    × Became hash (mapped hash env server 1032 true set) (asc_complete_nread hash env server).store
unfolding strcrlf
asc_complete_nread-Committed_example =
    asc_complete_nread-Committed hash env server 1032 start-IsReady start-fits set true refl refl
      refl
