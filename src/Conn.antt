-- ===== src/Conn.antt =====
-- `struct conn` of src/mc_connection.h, and the parts of src/mc_connection.c that prepare what a
-- connection writes: the array of iovecs, the messages over it, and the UDP headers.
--
-- The unread bytes between rcurr and rcurr + rbytes are the list `unread`, and those between wcurr
-- and wcurr + wbytes the list `wbuf`. An iovec is the list of the bytes that it points to. A
-- message's msg_iov is an index into the array. `grants` answers, for each allocation that a
-- connection makes in turn, whether it succeeds.
pub mod Bytes
pub mod Room
pub mod Put
pub mod Adding
pub mod Frame
mod Tests
use twemcache.Base.{
  drop, ℕ, zero, suc, ◌+◌, ◌-◌, ◌*◌, ◌/◌, ◌%◌, Bool, true, false, not, ◌&&◌, ◌||◌, Option, none,
  some, List, [], ◌∷◌, ◌++◌, ltb, leb, ◌==◌, if◌then◌else◌, update, length,
}
use twemcache.Request.{ReqType}

pub data ConnState : Type 0 where
  conn_listen conn_new_cmd conn_wait conn_read conn_parse conn_nread : ConnState
  conn_write conn_mwrite conn_swallow conn_close : ConnState

pub record Msg : Type 0 where
  pub msg_iov : ℕ
  pub msg_iovlen : ℕ

-- `nread` is what has been copied to c->ritem of the value that is being read, its CRLF included,
-- and `item`, `ilist` and `slist` hold addresses. `ilist` is the part of the array from icurr on, of
-- `ileft` entries, and so is `slist`.
pub record Conn : Type 0 where
  pub state : ConnState
  pub udp : Bool
  pub noreply : Bool
  pub unread : List ℕ
  pub rsize : ℕ
  pub wbuf : List ℕ
  pub wsize : ℕ
  pub write_and_go : ConnState
  pub write_and_free : Bool
  pub nread : List ℕ
  pub rlbytes : ℕ
  pub item : Option ℕ
  pub sbytes : ℕ
  pub iov : ℕ → List ℕ
  pub iov_size : ℕ
  pub iov_used : ℕ
  pub msg : ℕ → Msg
  pub msg_size : ℕ
  pub msg_used : ℕ
  pub msg_curr : ℕ
  pub msg_bytes : ℕ
  pub ilist : List ℕ
  pub isize : ℕ
  pub slist : List ℕ
  pub ssize : ℕ
  pub req_type : ReqType
  pub udp_rid : ℕ
  pub udp_hsize : ℕ
  pub reallocs : ℕ

abbrev pub udp_header_size : ℕ
udp_header_size = 8

abbrev pub udp_max_payload_size : ℕ
udp_max_payload_size = 1400

-- IOV_MAX of Linux.
abbrev pub iov_max : ℕ
iov_max = 1024

-- conn_set_state
abbrev pub set_state : Conn → ConnState → Conn
set_state c state = record c { state = state }

-- The next answer of mc_realloc or mc_alloc.
abbrev pub realloc : (ℕ → Bool) → Conn → Conn × Bool
realloc grants c = (record c { reallocs = c.reallocs + 1 }, grants c.reallocs)

-- The loop that points the messages from the i-th on, `n` of them, at the new array.
pub repoint : ℕ → ℕ → ℕ → (ℕ → Msg) → ℕ → Msg
repoint zero i iovnum msg = msg
repoint (suc n) i iovnum msg =
    repoint n (i + 1) (iovnum + (msg i).msg_iovlen)
      (update msg i (record (msg i) { msg_iov = iovnum }))

-- The message that iovecs are added to.
abbrev pub last_msg : Conn → Msg
last_msg c = c.msg (c.msg_used - 1)

-- What conn_add_iov does with an iovec that there is room for.
pub put_iov : Conn → List ℕ → Conn
put_iov c bytes = record c {
  iov = update c.iov (m.msg_iov + m.msg_iovlen) bytes;
  msg = update c.msg (c.msg_used - 1) (record m { msg_iovlen = m.msg_iovlen + 1 });
  msg_bytes = c.msg_bytes + length bytes;
  iov_used = c.iov_used + 1;
}
  where
    m : Msg
    m = last_msg c

-- A status that a call returned: MC_ENOMEM, or MC_OK.
abbrev pub on_ok {ℓ} : {R : Type ℓ} → Conn × Bool → (Conn → R) → (Conn → R) → R
on_ok (c, false) failed ok = failed c
on_ok (c, true) failed ok = ok c

-- The first `n` bytes.
abbrev pub take : ℕ → List ℕ → List ℕ
take zero bytes = []
take (suc n) [] = []
take (suc n) (b ∷ bytes) = b ∷ take n bytes

-- The new message of conn_add_msghdr.
pub push_msg : Conn → Conn
push_msg c = record c {
  msg = update c.msg c.msg_used (record { msg_iov = c.iov_used; msg_iovlen = 0 });
  msg_bytes = 0;
  msg_used = c.msg_used + 1;
}

abbrev pub limit_to_mtu : Conn → Bool
limit_to_mtu c = c.udp || c.msg_used == 1

module _ (grants : ℕ → Bool) where
  pub conn_ensure_iov_space : Conn → Conn × Bool
  conn_ensure_iov_space c =
      if leb c.iov_size c.iov_used
      then on_ok (realloc grants c) (λ c'. (c', false))
          (λ c'.
            (record c' { iov_size = c'.iov_size * 2; msg = repoint c'.msg_used 0 0 c'.msg }, true))
      else (c, true)

  -- The room for a UDP header, which is written later. It is one round of conn_add_iov: the message
  -- is new, so no other one has to be started.
  pub add_header : Conn → Conn × Bool
  unfolding conn_ensure_iov_space put_iov
  add_header c =
      if c.udp
      then on_ok (conn_ensure_iov_space c) (λ c'. (c', false))
          (λ c'. (put_iov c' (0 ∷ 0 ∷ 0 ∷ 0 ∷ 0 ∷ 0 ∷ 0 ∷ 0 ∷ []), true))
      else (c, true)

  pub conn_add_msghdr : Conn → Conn × Bool
  unfolding push_msg
  conn_add_msghdr c =
      if c.msg_size == c.msg_used
      then on_ok (realloc grants c) (λ c'. (c', false))
          (λ c'. add_header (push_msg (record c' { msg_size = c'.msg_size * 2 })))
      else add_header (push_msg c)

  -- The first half of a round: a new message, if the last one is full.
  pub room_in_msg : Conn → Conn × Bool
  room_in_msg c =
      if ((last_msg c).msg_iovlen == iov_max)
        || (limit_to_mtu c && leb udp_max_payload_size c.msg_bytes)
      then conn_add_msghdr c
      else (c, true)

  -- The do-while loop of conn_add_iov; `none` when the fuel is used up.
  pub add_iov_loop : ℕ → Conn → List ℕ → Option (Conn × Bool)
  unfolding put_iov
  add_iov_loop zero c bytes = none
  add_iov_loop (suc fuel) c bytes =
      on_ok (room_in_msg c) (λ c1. some (c1, false))
        (λ c1.
          on_ok (conn_ensure_iov_space c1) (λ c2. some (c2, false))
            (λ c2.
              if limit_to_mtu c && ltb udp_max_payload_size (length bytes + c2.msg_bytes)
              then add_iov_loop fuel (put_iov c2 (take (udp_max_payload_size - c2.msg_bytes) bytes))
                  (drop (udp_max_payload_size - c2.msg_bytes) bytes)
              else some (put_iov c2 bytes, true)))

  -- conn_add_iov. The fuel is one more than the bytes.
  pub conn_add_iov : Conn → List ℕ → Conn × Bool
  conn_add_iov c bytes = elim (add_iov_loop (suc (length bytes)) c bytes) [
    | none ↦ (c, false)
    | some r ↦ r
  ]

-- The header of the i-th message.
abbrev pub udp_header : Conn → ℕ → List ℕ
udp_header c i =
    (c.udp_rid / 256) % 256
    ∷ c.udp_rid % 256
    ∷ (i / 256) % 256
    ∷ i % 256
    ∷ (c.msg_used / 256) % 256
    ∷ c.msg_used % 256
    ∷ 0
    ∷ 0
    ∷ []

-- The loop of conn_build_udp_headers over the messages from the i-th on, `n` left.
pub write_headers : ℕ → ℕ → Conn → Conn
write_headers zero i c = c
write_headers (suc n) i c =
    write_headers n (i + 1) (record c { iov = update c.iov (c.msg i).msg_iov (udp_header c i) })

pub conn_build_udp_headers : (ℕ → Bool) → Conn → Conn × Bool
unfolding write_headers
conn_build_udp_headers grants c =
    if ltb c.udp_hsize c.msg_used
    then on_ok (realloc grants c) (λ c'. (c', false))
        (λ c'. (write_headers c'.msg_used 0 (record c' { udp_hsize = c'.msg_used * 2 }), true))
    else (write_headers c.msg_used 0 c, true)

abbrev pub tcp_buffer_size : ℕ
tcp_buffer_size = 1024

-- conn_shrink, where each buffer that is too large is cut down.
pub conn_shrink : (ℕ → Bool) → Conn → Conn
conn_shrink grants c = if c.udp then c else shrink_iov (shrink_msg (shrink_ilist (shrink_rbuf c)))
  where
    cut : Bool → (Conn → Conn) → Conn → Conn
    cut large smaller c' = if large then on_ok (realloc grants c') (λ d. d) (λ d. smaller d) else c'

    shrink_rbuf : Conn → Conn
    shrink_rbuf c' =
        cut (ltb 4096 c'.rsize && ltb (length c'.unread) tcp_buffer_size)
          (λ d. record d { rsize = tcp_buffer_size }) c'

    shrink_ilist : Conn → Conn
    shrink_ilist c' = cut (ltb 40 c'.isize) (λ d. record d { isize = 20 }) c'

    shrink_msg : Conn → Conn
    shrink_msg c' = cut (ltb 100 c'.msg_size) (λ d. record d { msg_size = 10 }) c'

    shrink_iov : Conn → Conn
    shrink_iov c' = cut (ltb 60 c'.iov_size) (λ d. record d { iov_size = 40 }) c'
