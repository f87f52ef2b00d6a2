-- ===== src/Conn/Tests.antt =====
-- Runs of the functions of Conn and Core.
use twemcache.Base.{ℕ, refl, Bool, true, false, none, [], ◌∷◌, arith}
use twemcache.Request.{req_get}
use twemcache.Conn.{Conn, conn_mwrite, conn_new_cmd, conn_add_iov}
use twemcache.Conn.Bytes.{IsValid}
use twemcache.Conn.Frame.{Holds, conn_add_iov-Holds}
use twemcache.Conn.Adding.{Added, conn_add_iov-Added}

-- One message, with no iovec, over an array of two.
abbrev fresh : Conn
fresh = record {
  state = conn_mwrite;
  udp = false;
  noreply = false;
  unread = [];
  rsize = 2048;
  wbuf = [];
  wsize = 2048;
  write_and_go = conn_new_cmd;
  write_and_free = false;
  nread = [];
  rlbytes = 0;
  item = none;
  sbytes = 0;
  iov = λ i. [];
  iov_size = 2;
  iov_used = 0;
  msg = λ i. record { msg_iov = 0; msg_iovlen = 0 };
  msg_size = 1;
  msg_used = 1;
  msg_curr = 0;
  msg_bytes = 0;
  ilist = [];
  isize = 20;
  slist = [];
  ssize = 20;
  req_type = req_get;
  udp_rid = 0;
  udp_hsize = 0;
  reallocs = 0;
}

fresh-IsValid : IsValid fresh
fresh-IsValid = record {
  some_msg = omega arith;
  msg_fits = omega arith;
  iov_fits = omega arith;
  iov_some = omega arith;
  windows = λ i h. ground arith;
  used = refl;
  short = λ i h. ground arith;
}

abbrev allow : ℕ → Bool
allow i = true

conn_add_iov-Added_example :
    Added allow 0 [] (86 ∷ 65 ∷ []) (conn_add_iov allow fresh (86 ∷ 65 ∷ []))
conn_add_iov-Added_example = conn_add_iov-Added allow fresh (86 ∷ 65 ∷ []) fresh-IsValid refl

conn_add_iov-Holds_example : Holds fresh (86 ∷ 65 ∷ []) (conn_add_iov allow fresh (86 ∷ 65 ∷ []))
conn_add_iov-Holds_example =
    conn_add_iov-Holds allow (λ n. refl) fresh (86 ∷ 65 ∷ []) fresh-IsValid refl
