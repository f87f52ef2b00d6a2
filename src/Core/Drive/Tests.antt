-- ===== src/Core/Drive/Tests.antt =====
-- Runs of CONN_MWRITE: a message of two bytes, with one item in use.
use twemcache.Ascii.{Server}
use twemcache.Base.{ℕ, ◌≡◌, refl, Bool, true, false, none, [], ◌∷◌, ◌++◌, arith}
use twemcache.Base.Int.{pos}
use twemcache.Conn.{Conn, conn_mwrite, conn_new_cmd}
use twemcache.Core.{sent, would_block, core_transmit, next_msg, core_written, skip_written}
use twemcache.Core.Drive.{mwrite_step, after_transmit, transmitted}
use twemcache.Core.Drive.Flush.{Writes, here, next, Flushed, writes-Flushed}
use twemcache.Hotkey.Tests.{detector}
use twemcache.Items.Ops.Tests.{cfg, stored}
use twemcache.Request.{req_get}

abbrev client : Conn
client = record {
  state = conn_mwrite;
  udp = false;
  noreply = false;
  unread = [];
  rsize = 2048;
  wbuf = [];
  wsize = 2048;
  write_and_go = conn_new_cmd;
  write_and_free = false;
  nread = [];
  rlbytes = 0;
  item = none;
  sbytes = 0;
  iov = λ i. b'E' ∷ b'N' ∷ [];
  iov_size = 2;
  iov_used = 1;
  msg = λ i. record { msg_iov = 0; msg_iovlen = 1 };
  msg_size = 1;
  msg_used = 1;
  msg_curr = 0;
  msg_bytes = 0;
  ilist = 1032 ∷ [];
  isize = 20;
  slist = [];
  ssize = 20;
  req_type = req_get;
  udp_rid = 0;
  udp_hsize = 0;
  reallocs = 0;
}

abbrev server : Server
server = record {
  store = stored;
  cfg = cfg;
  clock = record { process_started = 100; now = 10; now_usec = 0 };
  suffix_cache = record { ptr = λ i. 0; bufsize = 24; freetotal = 64; freecurr = 0 };
  hotkey_enable = false;
  hotkey = detector;
  klog_named = false;
  klog_running = false;
  klog_sampling_rate = 100;
  interval = pos 100000;
  conn = client;
}

abbrev allow : ℕ → Bool
allow i = true

abbrev first : Server
first = (mwrite_step allow (sent 2) true server).0

abbrev second : Server
second = (mwrite_step allow would_block true first).0

first-state : first.conn.state ≡ conn_mwrite
unfolding mwrite_step after_transmit core_transmit next_msg core_written skip_written
first-state = refl

rest : Writes allow first [] second
rest =
    next {w = first} {v = second} {bytes = []} would_block true first-state tt
      (here (mwrite_step allow would_block true first).0)

run : Writes allow server ((b'E' ∷ b'N' ∷ []) ++ []) second
unfolding next_msg
run = next {w = server} {v = second} {bytes = []} (sent 2) true refl (omega arith) rest

second-state : second.conn.state ≡ conn_new_cmd
unfolding mwrite_step after_transmit core_transmit next_msg core_written skip_written transmitted
second-state = refl

writes-Flushed_example : Flushed allow server ((b'E' ∷ b'N' ∷ []) ++ []) second
writes-Flushed_example =
    writes-Flushed allow {w = server} {v = second} {bytes = (b'E' ∷ b'N' ∷ []) ++ []} run refl refl
      (λ i j h1 h2. omega (arith, h1, h2)) second-state
