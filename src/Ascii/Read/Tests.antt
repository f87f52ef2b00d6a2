-- ===== src/Ascii/Read/Tests.antt =====
-- Runs of asc_process_read: "get k", where the item at 1032 is stored under "k".
use twemcache.Ascii.{Server, asc_validate_ntoken}
use twemcache.Ascii.Read.{asc_process_read}
use twemcache.Ascii.Read.Hits.{IsOpen}
use twemcache.Ascii.Read.Replied.{tail, Replied, asc_process_read-Replied}
use twemcache.Ascii.Read.Stuck.{asc_process_read-Stuck}
use twemcache.Base.{ℕ, ◌≡◌, refl, Bool, true, false, none, some, List, [], ◌∷◌, length, arith}
use twemcache.Base.Int.{pos}
use twemcache.Conn.{Conn, conn_mwrite, conn_new_cmd}
use twemcache.Hotkey.Tests.{detector}
use twemcache.Items.Ops.Tests.{hash, cfg, stored, stored-Became, stored-live, stored-HasRoom}
use twemcache.Request.{req_get, in_bound}
use twemcache.Token.Words.{words, words_from}
use twemcache.Token.{tokenize, tokenize_loop}

abbrev line : List ℕ
line = b'g' ∷ b'e' ∷ b't' ∷ b' ' ∷ b'k' ∷ []

abbrev client : Conn
client = record {
  state = conn_mwrite;
  udp = false;
  noreply = false;
  unread = [];
  rsize = 2048;
  wbuf = [];
  wsize = 2048;
  write_and_go = conn_new_cmd;
  write_and_free = false;
  nread = [];
  rlbytes = 0;
  item = none;
  sbytes = 0;
  iov = λ i. [];
  iov_size = 2;
  iov_used = 0;
  msg = λ i. record { msg_iov = 0; msg_iovlen = 0 };
  msg_size = 1;
  msg_used = 1;
  msg_curr = 0;
  msg_bytes = 0;
  ilist = [];
  isize = 20;
  slist = [];
  ssize = 20;
  req_type = req_get;
  udp_rid = 0;
  udp_hsize = 0;
  reallocs = 0;
}

abbrev server : Server
server = record {
  store = stored;
  cfg = cfg;
  clock = record { process_started = 100; now = 10; now_usec = 0 };
  suffix_cache = record { ptr = λ i. 0; bufsize = 24; freetotal = 64; freecurr = 0 };
  hotkey_enable = false;
  hotkey = detector;
  klog_named = false;
  klog_running = false;
  klog_sampling_rate = 100;
  interval = pos 100000;
  conn = client;
}

client-IsOpen : IsOpen client
client-IsOpen = record {
  valid = record {
    some_msg = omega arith;
    msg_fits = omega arith;
    iov_fits = omega arith;
    iov_some = omega arith;
    windows = λ i h. ground arith;
    used = refl;
    short = λ i h. ground arith;
  };
  tcp = refl;
}

abbrev allow : ℕ → Bool
allow i = true

line-is_valid : asc_validate_ntoken server (length (tokenize line)) ≡ some tt
unfolding tokenize tokenize_loop asc_validate_ntoken in_bound
line-is_valid = refl

asc_process_read-Replied_example :
    Replied allow
      (λ n. refl)
      (λ n. n)
      hash
      false
      server
      (tail (words line))
      (asc_process_read allow (λ n. some n) hash 4 server (tokenize line))
unfolding words_from
asc_process_read-Replied_example =
    asc_process_read-Replied allow (λ n. refl) (λ n. n) hash 4 server line client-IsOpen refl
      line-is_valid (omega arith, tt) (omega arith)

asc_process_read-Stuck_example :
    asc_process_read allow (λ n. none) hash 100 server (tokenize line) ≡ none
unfolding tokenize tokenize_loop
asc_process_read-Stuck_example =
    asc_process_read-Stuck allow hash 100 server line 1032 stored-Became.ready stored-live
      stored-HasRoom (omega arith) (omega arith) refl line-is_valid
