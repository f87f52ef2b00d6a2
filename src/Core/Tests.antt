-- ===== src/Core/Tests.antt =====
-- Runs of the functions of Core.
use twemcache.Base.{drop, ◌≡◌, ◌++◌, refl, true, false, none, [], ◌∷◌, arith}
use twemcache.Request.{req_set}
use twemcache.Conn.{Conn, conn_nread, conn_new_cmd}
use twemcache.Core.{nread_step, swallow_step, received, read_would_block, take_leftovers}
use twemcache.Core.Swallowing
use twemcache.Core.Swallowing.{SwallowSteps, swallow-kept}
use twemcache.Core.Reading.{
  NreadSteps, next, here, arrived, nread-whole, nread-Completes, Completes,
}

-- A connection with two messages of an iovec each, and a block of five bytes to read, of which two
-- are in the buffer.
abbrev busy : Conn
busy = record {
  state = conn_nread;
  udp = false;
  noreply = false;
  unread = 118 ∷ 97 ∷ [];
  rsize = 2048;
  wbuf = [];
  wsize = 2048;
  write_and_go = conn_new_cmd;
  write_and_free = false;
  nread = [];
  rlbytes = 3;
  item = none;
  sbytes = 0;
  iov = λ i. 86 ∷ 65 ∷ 76 ∷ [];
  iov_size = 2;
  iov_used = 2;
  msg = λ i. record { msg_iov = i; msg_iovlen = 1 };
  msg_size = 2;
  msg_used = 2;
  msg_curr = 0;
  msg_bytes = 6;
  ilist = [];
  isize = 20;
  slist = [];
  ssize = 20;
  req_type = req_set;
  udp_rid = 0;
  udp_hsize = 0;
  reallocs = 0;
}

-- One of the two bytes in the buffer is to be thrown away.
abbrev wasting : Conn
wasting = record busy { sbytes = 1 }

nread-Completes_example : Completes busy (13 ∷ 10 ∷ [])
nread-Completes_example = nread-Completes busy (13 ∷ 10 ∷ []) (omega arith)

read_once : NreadSteps busy (13 ∷ 10 ∷ []) (nread_step (received (13 ∷ [])) true busy).0 (10 ∷ [])
unfolding take_leftovers
read_once = next (arrived busy (13 ∷ []) (10 ∷ []) (omega arith) (omega arith)) (here _ _)

nread-whole_example :
    ((nread_step (received (13 ∷ [])) true busy).0.nread ≡ 118 ∷ 97 ∷ 13 ∷ [])
    × ((nread_step (received (13 ∷ [])) true busy).0.unread ++ 10 ∷ [] ≡ 10 ∷ [])
    × ((nread_step (received (13 ∷ [])) true busy).0.state ≡ conn_nread)
unfolding nread_step
nread-whole_example =
    nread-whole busy (nread_step (received (13 ∷ [])) true busy).0 (13 ∷ 10 ∷ []) (10 ∷ [])
      read_once refl

swallow_all : SwallowSteps wasting [] (swallow_step read_would_block true wasting).0 []
swallow_all =
    Swallowing.next (Swallowing.buffered wasting [] read_would_block (omega arith) (omega arith))
      (Swallowing.here _ _)

swallow-kept_example :
    (swallow_step read_would_block true wasting).0.unread ++ [] ≡ drop 1 ((118 ∷ 97 ∷ []) ++ [])
unfolding swallow_step
swallow-kept_example = swallow-kept wasting _ [] [] swallow_all refl
