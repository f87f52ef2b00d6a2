-- ===== src/Core.antt =====
-- What a connection does between two waits for its socket: src/mc_core.c.
--
-- What the socket answers is an argument of each step.
pub mod Window
pub mod Transmit
pub mod Slices
pub mod Reading
pub mod Swallowing
pub mod Input
pub mod Command
pub mod Drive
mod Tests
use twemcache.Base.{
  drop, ℕ, zero, suc, ◌+◌, ◌-◌, ◌≤◌, ◌<◌, Bool, true, false, ◌&&◌, Option, none, some, List, [],
  ◌∷◌, ◌++◌, ltb, leb, ◌==◌, if◌then◌else◌, update, length,
}
use twemcache.Conn.{Conn, Msg, conn_new_cmd, conn_read, conn_close, set_state, take}

pub data TransmitResult : Type 0 where
  transmit_complete transmit_incomplete transmit_soft_error transmit_hard_error : TransmitResult

-- What sendmsg answers: the bytes it has written, that it would block, or another failure.
pub data SendResult : Type 0 where
  sent : ℕ → SendResult
  would_block send_error : SendResult

-- The messages, and the array that they point into.
pub record Pending : Type 0 where
  pub msg_iov : ℕ
  pub msg_iovlen : ℕ
  pub left : ℕ

-- The loop that removes the iovecs that are completely written, and the bytes of the next one that
-- are written.
pub skip_written : (ℕ → List ℕ) → ℕ → ℕ → ℕ → Pending
skip_written iov start zero res = record { msg_iov = start; msg_iovlen = zero; left = res }
skip_written iov start (suc n) res =
    let rest = skip_written iov (start + 1) n (res - length (iov start)) in
    if leb (length (iov start)) res
    then rest
    else record { msg_iov = start; msg_iovlen = suc n; left = res }

-- What a call of sendmsg that wrote `res` bytes leaves of the message.
pub core_written : Conn → ℕ → Conn
unfolding skip_written
core_written c res = record c {
  msg =
      update c.msg c.msg_curr
        (record (c.msg c.msg_curr) { msg_iov = p.msg_iov; msg_iovlen = p.msg_iovlen });
  iov = if ltb 0 p.left then update c.iov p.msg_iov (drop p.left (c.iov p.msg_iov)) else c.iov;
}
  where
    p : Pending
    p = skip_written c.iov (c.msg c.msg_curr).msg_iov (c.msg c.msg_curr).msg_iovlen res

-- The message that is written comes after one that is written completely.
pub next_msg : Conn → Conn
next_msg c =
    if ltb c.msg_curr c.msg_used && ((c.msg c.msg_curr).msg_iovlen == 0)
    then record c { msg_curr = c.msg_curr + 1 }
    else c

-- core_transmit, where `r` is the answer of sendmsg and `updated` whether core_update succeeds.
pub core_transmit : SendResult → Bool → Conn → Conn × TransmitResult
unfolding core_written next_msg
core_transmit r updated c =
    if ltb (next_msg c).msg_curr (next_msg c).msg_used
    then answered r
    else (next_msg c, transmit_complete)
  where
    failed : Conn × TransmitResult
    failed = (set_state (next_msg c) (if c.udp then conn_read else conn_close), transmit_hard_error)

    answered : SendResult → Conn × TransmitResult
    answered (sent zero) = failed
    answered (sent (suc n)) = (core_written (next_msg c) (suc n), transmit_incomplete)
    answered would_block =
        if updated
        then (next_msg c, transmit_soft_error)
        else (set_state (next_msg c) conn_close, transmit_hard_error)
    answered send_error = failed

-- What read() answers: the bytes, none at the end of the stream; that it would block; or another
-- failure.
pub data ReadResult : Type 0 where
  received : List ℕ → ReadResult
  read_would_block read_failed : ReadResult

-- The bytes of the read buffer that go to the value.
pub take_leftovers : Conn → Conn
take_leftovers c = record c {
  nread = c.nread ++ take tocopy c.unread;
  rlbytes = c.rlbytes - tocopy;
  unread = drop tocopy c.unread;
}
  where
    tocopy : ℕ
    tocopy = if ltb c.rlbytes (length c.unread) then c.rlbytes else length c.unread

-- What follows a read() that gave no bytes; the flag stops the event loop. `updated` is whether
-- core_update succeeds.
pub no_data : ReadResult → Bool → Conn → Conn × Bool
no_data read_would_block true c = (c, true)
no_data r updated c = (set_state c conn_close, false)

pub read_value : ReadResult → Bool → Conn → Conn × Bool
unfolding no_data
read_value (received (b ∷ bytes)) updated c =
    (record c { nread = c.nread ++ (b ∷ bytes); rlbytes = c.rlbytes - length (b ∷ bytes) }, false)
read_value r updated c = no_data r updated c

-- The case CONN_NREAD of core_drive_machine, while there are bytes to read.
pub nread_step : ReadResult → Bool → Conn → Conn × Bool
unfolding take_leftovers read_value
nread_step r updated c =
    if (take_leftovers c).rlbytes == 0
    then (take_leftovers c, false)
    else read_value r updated (take_leftovers c)

pub skip_leftovers : Conn → Conn
skip_leftovers c = record c { sbytes = c.sbytes - tocopy; unread = drop tocopy c.unread }
  where
    tocopy : ℕ
    tocopy = if ltb c.sbytes (length c.unread) then c.sbytes else length c.unread

pub read_swallowed : ReadResult → Bool → Conn → Conn × Bool
unfolding no_data
read_swallowed (received (b ∷ bytes)) updated c =
    (record c { sbytes = c.sbytes - length (b ∷ bytes) }, false)
read_swallowed r updated c = no_data r updated c

-- The case CONN_SWALLOW.
pub swallow_step : ReadResult → Bool → Conn → Conn × Bool
unfolding skip_leftovers read_swallowed
swallow_step r updated c =
    if c.sbytes == 0
    then (set_state c conn_new_cmd, false)
    else if ltb 0 (length c.unread)
    then (skip_leftovers c, false)
    else read_swallowed r updated c
