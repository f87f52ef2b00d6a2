-- ===== src/Core/Input.antt =====
-- core_read_tcp, core_read_udp and core_read of src/mc_core.c: how requests reach the read buffer.
--
-- The list `unread` starts at rbuf once core_read_tcp has moved it there. `grants` answers the calls
-- of mc_realloc, and the answers of read() are given in order.
use twemcache.Ascii.{asc_write_string, str_server_error}
use twemcache.Base.{
  drop, ℕ, zero, suc, ◌+◌, ◌-◌, ◌*◌, Bool, true, false, ◌&&◌, List, [], ◌∷◌, ◌++◌, length, ltb, leb,
  ◌==◌, if◌then◌else◌,
}
use twemcache.Conn.{Conn, conn_wait, conn_parse, conn_close, set_state, realloc, on_ok}
use twemcache.Core.{ReadResult, received, read_would_block, read_failed}

pub data ReadOutcome : Type 0 where
  read_data_received read_no_data_received read_error read_memory_error : ReadOutcome

-- What core_read_tcp does when the buffer cannot grow: the input is dropped.
pub no_memory : Conn → Conn
no_memory c = record (asc_write_string (record c { unread = [] }) str_server_error) {
  write_and_go = conn_close;
}

module _ (grants : ℕ → Bool) where
  -- The buffer is doubled when it is full; the flag says whether that failed.
  pub grow_rbuf : Conn → Conn × Bool
  grow_rbuf c =
      if leb c.rsize (length c.unread)
      then on_ok (realloc grants c) (λ c'. (c', false))
          (λ c'. (record c' { rsize = c'.rsize * 2 }, true))
      else (c, true)

  -- A read() that gave `bytes`, after which the loop goes on if they fill the buffer.
  pub got_bytes : Conn → List ℕ → Conn × Bool
  got_bytes c bytes =
      (record c { unread = c.unread ++ bytes }, length bytes == c.rsize - length c.unread)

  -- The loop of core_read_tcp: `allocs` is how often the buffer may still grow, and `gotdata` what
  -- the loop has come to. Once the answers are used up, the socket would block.
  pub read_loop : ℕ → ReadOutcome → List ReadResult → Conn → Conn × ReadOutcome
  unfolding grow_rbuf no_memory got_bytes
  read_loop allocs gotdata [] c =
      if leb c.rsize (length c.unread) && (allocs == 0)
      then (c, gotdata)
      else on_ok (grow_rbuf c) (λ c'. (no_memory c', read_memory_error)) (λ c'. (c', gotdata))
  read_loop allocs gotdata (r ∷ rs) c =
      if leb c.rsize (length c.unread) && (allocs == 0)
      then (c, gotdata)
      else on_ok (grow_rbuf c) (λ c'. (no_memory c', read_memory_error))
          λ c'. elim r [
            | received bytes ↦ elim bytes [
              | [] ↦ (c', read_error)
              | b ∷ bs ↦
                  on_ok (got_bytes c' (b ∷ bs)) (λ c2. (c2, read_data_received))
                    (λ c2.
                      read_loop (if leb c.rsize (length c.unread) then allocs - 1 else allocs)
                        read_data_received rs c2)
            ]
            | read_would_block ↦ (c', gotdata)
            | read_failed ↦ (c', read_error)
          ]

  -- core_read_tcp
  pub core_read_tcp : List ReadResult → Conn → Conn × ReadOutcome
  unfolding read_loop
  core_read_tcp answers c = read_loop 4 read_no_data_received answers c

-- A byte of a datagram.
abbrev pub byte_at : List ℕ → ℕ → ℕ
byte_at [] i = 0
byte_at (b ∷ bytes) zero = b
byte_at (b ∷ bytes) (suc i) = byte_at bytes i

-- core_read_udp, where recvfrom() gives the datagram `buf`, or nothing.
pub core_read_udp : List ℕ → Conn → Conn × ReadOutcome
core_read_udp buf c =
    if ltb 8 (length buf)
    then if (byte_at buf 4 == 0) && (byte_at buf 5 == 1)
      then (record identified { unread = drop 8 buf }, read_data_received)
      else (asc_write_string identified str_server_error, read_no_data_received)
    else (c, read_no_data_received)
  where
    identified : Conn
    identified = record c { udp_rid = byte_at buf 0 * 256 + byte_at buf 1 }

-- The switch of core_read.
pub read_state : Conn × ReadOutcome → Conn
read_state (c, read_no_data_received) = set_state c conn_wait
read_state (c, read_data_received) = set_state c conn_parse
read_state (c, read_error) = set_state c conn_close
read_state (c, read_memory_error) = c

-- core_read: the datagram is for UDP, the answers of read() for TCP.
pub core_read : (ℕ → Bool) → List ℕ → List ReadResult → Conn → Conn
unfolding core_read_tcp core_read_udp read_state
core_read grants buf answers c =
    read_state (if c.udp then core_read_udp buf c else core_read_tcp grants answers c)
