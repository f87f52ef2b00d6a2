-- ===== src/Core/Drive.antt =====
-- core_drive_machine of src/mc_core.c: the loop over the states of a connection.
--
-- What the socket, libevent and the allocators answer in a round of the loop is a `Turn`. The
-- sockets of CONN_LISTEN, whose core_accept hands new connections to the worker threads, and what
-- conn_close() gives back to libevent and the kernel are outside the model.
pub mod Flush
mod Tests
use twemcache.Ascii.{Server, set_conn}
use twemcache.Ascii.Admin.{time_update}
use twemcache.Ascii.Complete.{asc_complete_nread}
use twemcache.Ascii.Dispatch.{Outside, core_parse}
use twemcache.Assoc.{Key}
use twemcache.Base.{
  ℕ, zero, suc, Bool, true, false, not, ◌&&◌, ◌||◌, Option, none, some, List, [], ◌∷◌, length, ltb,
  ◌==◌, if◌then◌else◌,
}
use twemcache.Conn.{
  Conn, ConnState, conn_listen, conn_new_cmd, conn_wait, conn_read, conn_parse, conn_nread,
  conn_write, conn_mwrite, conn_swallow, conn_close, set_state, on_ok, conn_add_iov,
  conn_build_udp_headers,
}
use twemcache.Core.{
  TransmitResult, transmit_complete, transmit_incomplete, transmit_soft_error, transmit_hard_error,
  SendResult, ReadResult, core_transmit, nread_step, swallow_step,
}
use twemcache.Core.Command.{core_reset_cmd_handler, conn_cleanup, release_items, release_suffixes}
use twemcache.Core.Input.{core_read}
use twemcache.Store.{Env}

-- The answers in one round: of core_update, of the read()s of core_read or the datagram of
-- recvfrom(), of the read() of a data block, and of sendmsg().
pub record Turn : Type 0 where
  pub updated : Bool
  pub reads : List ReadResult
  pub datagram : List ℕ
  pub block_read : ReadResult
  pub send : SendResult

-- What a round leaves: the server, the requests that may still be processed, and whether the loop
-- stops.
pub record Driven : Type 0 where
  pub server : Server
  pub nreqs : ℕ
  pub stop : Bool

module _ (grants : ℕ → Bool) where
  -- The case TRANSMIT_COMPLETE.
  pub transmitted : Server → ConnState → Server
  transmitted w conn_mwrite = set_conn freed (set_state freed.conn conn_new_cmd)
    where
      freed : Server
      freed = let v = release_items w w.conn.ilist in release_suffixes grants v v.conn.slist
  transmitted w conn_write =
      set_conn w (set_state (record w.conn { write_and_free = false }) w.conn.write_and_go)
  transmitted w state = set_conn w (set_state w.conn conn_close)

  -- The switch on the result of core_transmit; the flag stops the loop.
  pub after_transmit : Server → Conn × TransmitResult → Server × Bool
  unfolding transmitted
  after_transmit w (c, transmit_complete) = (transmitted (set_conn w c) c.state, false)
  after_transmit w (c, transmit_incomplete) = (set_conn w c, false)
  after_transmit w (c, transmit_hard_error) = (set_conn w c, false)
  after_transmit w (c, transmit_soft_error) = (set_conn w c, true)

  -- The case CONN_MWRITE.
  pub mwrite_step : SendResult → Bool → Server → Server × Bool
  unfolding after_transmit
  mwrite_step r updated w =
      on_ok
        (if w.conn.udp && (w.conn.msg_curr == 0)
          then conn_build_udp_headers grants w.conn
          else (w.conn, true))
        (λ c. (set_conn w (set_state c conn_close), false))
        (λ c. after_transmit w (core_transmit r updated c))

  -- The case CONN_WRITE, which goes on as CONN_MWRITE does.
  pub write_step : SendResult → Bool → Server → Server × Bool
  unfolding mwrite_step
  write_step r updated w =
      on_ok
        (if (w.conn.iov_used == 0) || (w.conn.udp && (w.conn.iov_used == 1))
          then conn_add_iov grants w.conn w.conn.wbuf
          else (w.conn, true))
        (λ c. (set_conn w (set_state c conn_close), false))
        (λ c. mwrite_step r updated (set_conn w c))

  -- The case CONN_NEW_CMD: the flag stops the loop.
  pub new_cmd_step : ℕ → Bool → Server → Driven
  new_cmd_step (suc nreqs) updated w = record {
    server = core_reset_cmd_handler grants w;
    nreqs = nreqs;
    stop = false;
  }
  new_cmd_step zero updated w = record {
    server =
        if ltb 0 (length w.conn.unread) && not updated
        then set_conn w (set_state w.conn conn_close)
        else w;
    nreqs = 0;
    stop = true;
  }

  -- The case CONN_WAIT.
  pub wait_step : Bool → Server → Server × Bool
  wait_step true w = (set_conn w (set_state w.conn conn_read), true)
  wait_step false w = (set_conn w (set_state w.conn conn_close), false)

  abbrev on_conn : Server → Conn × Bool → Server × Bool
  on_conn w (c, stop) = (set_conn w c, stop)

  module _ (hash : Key → ℕ) (env : Env) (buffers : ℕ → Option ℕ) (rounds : ℕ)
      (outside : Outside) where
    -- The case CONN_NREAD.
    pub nread_case : ReadResult → Bool → Server → Server × Bool
    nread_case r updated w =
        if w.conn.rlbytes == 0
        then (asc_complete_nread hash env w, false)
        else on_conn w (nread_step r updated w.conn)

    abbrev going : ℕ → Server × Bool → Driven
    going nreqs (w, stop) = record { server = w; nreqs = nreqs; stop = stop }

    -- A round of the loop; `none` where a get is still running.
    pub drive_step : ℕ → Turn → Server → ConnState → Option Driven
    unfolding write_step mwrite_step new_cmd_step wait_step nread_case
    drive_step nreqs t w conn_listen = some (going nreqs (w, true))
    drive_step nreqs t w conn_wait = some (going nreqs (wait_step t.updated w))
    drive_step nreqs t w conn_read =
        some (going nreqs (set_conn w (core_read grants t.datagram t.reads w.conn), false))
    drive_step nreqs t w conn_parse = elim (core_parse hash env grants buffers rounds outside w) [
      | none ↦ none
      | some v ↦ some (going nreqs (v, false))
    ]
    drive_step nreqs t w conn_new_cmd = some (new_cmd_step nreqs t.updated w)
    drive_step nreqs t w conn_nread = some (going nreqs (nread_case t.block_read t.updated w))
    drive_step nreqs t w conn_swallow =
        some (going nreqs (on_conn w (swallow_step t.block_read t.updated w.conn)))
    drive_step nreqs t w conn_write = some (going nreqs (write_step t.send t.updated w))
    drive_step nreqs t w conn_mwrite = some (going nreqs (mwrite_step t.send t.updated w))
    drive_step nreqs t w conn_close = some (going nreqs (conn_cleanup grants w, true))

    -- core_drive_machine over the answers of its rounds, until it stops or they are used up.
    pub drive_loop : ℕ → List Turn → Server → Option Driven
    unfolding drive_step
    drive_loop nreqs [] w = some (record { server = w; nreqs = nreqs; stop = false })
    drive_loop nreqs (t ∷ ts) w = elim (drive_step nreqs t w w.conn.state) [
      | none ↦ none
      | some d ↦ elim d.stop [ true ↦ some d | false ↦ drive_loop d.nreqs ts d.server ]
    ]

    -- core_drive_machine, where clock_gettime() gives `sec` and `usec` behind the loop.
    pub core_drive_machine : ℕ → List Turn → ℕ → ℕ → Server → Option Server
    unfolding drive_loop
    core_drive_machine reqs_per_event ts sec usec w = elim (drive_loop reqs_per_event ts w) [
      | none ↦ none
      | some d ↦ some (time_update d.server sec usec)
    ]
