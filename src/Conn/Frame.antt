-- ===== src/Conn/Frame.antt =====
-- What conn_add_iov leaves alone, and that it succeeds where memory is granted.
use twemcache.Base.{
  drop, ℕ, zero, suc, ◌+◌, ◌-◌, ◌*◌, ◌≡◌, refl, ap, ◌∙◌, Bool, true, false, ◌&&◌, ◌||◌, Bool-cases,
  inl, inr, Option, none, some, List, ◌++◌, ltb, leb, ◌==◌, if◌then◌else◌, arith, length,
}
use twemcache.Conn.Adding.{LoopAdded, add_header-tcp, loop-Added}
use twemcache.Conn.Bytes.{IsValid, out}
use twemcache.Conn.{
  Conn, iov_max, udp_max_payload_size, last_msg, put_iov, on_ok, take, conn_ensure_iov_space,
  push_msg, add_header, conn_add_msghdr, limit_to_mtu, room_in_msg, add_iov_loop, conn_add_iov,
}

-- `c` with the messages of `t` and the array under them.
abbrev pub with_messages : Conn → Conn → Conn
with_messages c t = record c {
  iov = t.iov;
  iov_size = t.iov_size;
  iov_used = t.iov_used;
  msg = t.msg;
  msg_size = t.msg_size;
  msg_used = t.msg_used;
  msg_bytes = t.msg_bytes;
  reallocs = t.reallocs;
}

abbrev pub Frame : Conn → Conn → Type 0
Frame c t = t ≡ with_messages c t

pub Frame-trans : (c d t : Conn) → Frame c d → Frame d t → Frame c t
Frame-trans c d t f g = g ∙ ap (λ (x : Conn). with_messages x t) f

put-Frame : (c : Conn) (bytes : List ℕ) → Frame c (put_iov c bytes)
unfolding put_iov
put-Frame c bytes = refl

push-Frame : (c : Conn) → Frame c (push_msg c)
unfolding push_msg
push-Frame c = refl

-- A status is a success where every allocation is granted.
abbrev Framed : Conn → Conn × Bool → Type 0
Framed c r = Frame c r.0 × (r.1 ≡ true)

-- With memory, the bytes are added, and nothing but the messages changes.
pub record Holds (c : Conn) (bytes : List ℕ) (r : Conn × Bool) : Type 0 where
  pub ok : r.1 ≡ true
  pub frame : Frame c r.0
  pub valid : IsValid r.0
  pub bytes_added : out r.0 ≡ out c ++ bytes

module _ (grants : ℕ → Bool) (granted : (n : ℕ) → grants n ≡ true) where
  ensure-Framed : (c : Conn) → Framed c (conn_ensure_iov_space grants c)
  unfolding conn_ensure_iov_space
  ensure-Framed c = elim (Bool-cases (leb c.iov_size c.iov_used)) [
    | inl full ↦ rw (full, granted c.reallocs) (refl, refl)
    | inr room ↦ rw room (refl, refl)
  ]

  pushed-Framed :
      (c d : Conn) → Frame c d → d.udp ≡ false → Framed c (add_header grants (push_msg d))
  pushed-Framed c d f tcp =
      rw (add_header-tcp grants d tcp) (Frame-trans c d _ f (push-Frame d), refl)

  msghdr-Framed : (c : Conn) → c.udp ≡ false → Framed c (conn_add_msghdr grants c)
  unfolding conn_add_msghdr
  msghdr-Framed c tcp = elim (Bool-cases (c.msg_size == c.msg_used)) [
    | inl full ↦
        rw (full, granted c.reallocs)
          (pushed-Framed c (record c { reallocs = c.reallocs + 1; msg_size = c.msg_size * 2 }) refl
            tcp)
    | inr room ↦ rw room (pushed-Framed c c refl tcp)
  ]

  room-Framed : (c : Conn) → c.udp ≡ false → Framed c (room_in_msg grants c)
  unfolding room_in_msg
  room-Framed c tcp =
      elim (Bool-cases (
        ((last_msg c).msg_iovlen == iov_max)
        || (limit_to_mtu c && leb udp_max_payload_size c.msg_bytes))) [
          | inl full ↦ rw full (msghdr-Framed c tcp)
          | inr room ↦ rw room (refl, refl)
        ]

  abbrev LoopFramed : Conn → Option (Conn × Bool) → Type 0
  LoopFramed c none = Unit
  LoopFramed c (some r) = Framed c r

  loop-Framed :
      (fuel : ℕ) (c d : Conn) (bytes : List ℕ)
      → Frame c d
      → c.udp ≡ false
      → LoopFramed c (add_iov_loop grants fuel d bytes)
  unfolding add_iov_loop
  loop-Framed zero c d bytes f tcp = tt
  loop-Framed (suc fuel) c d bytes f tcp =
      roomed (loop-Framed fuel c) (room_in_msg grants d)
        (room-Framed d (ap (λ (x : Conn). x.udp) f ∙ tcp))
    where
      split :
          ((e : Conn) (rest : List ℕ)
            → Frame c e
            → c.udp ≡ false
            → LoopFramed c (add_iov_loop grants fuel e rest))
          → (e2 : Conn) → Frame c e2
          → (b : Bool)
          → LoopFramed c (
              if b
              then add_iov_loop grants fuel
                  (put_iov e2 (take (udp_max_payload_size - e2.msg_bytes) bytes))
                  (drop (udp_max_payload_size - e2.msg_bytes) bytes)
              else some (put_iov e2 bytes, true))
      split ih e2 g true = ih _ _ (Frame-trans c e2 _ g (put-Frame e2 _)) tcp
      split ih e2 g false = (Frame-trans c e2 _ g (put-Frame e2 _), refl)

      ensured :
          ((e : Conn) (rest : List ℕ)
            → Frame c e
            → c.udp ≡ false
            → LoopFramed c (add_iov_loop grants fuel e rest))
          → (e1 : Conn) → Frame c e1
          → (r : Conn × Bool) → Framed e1 r
          → LoopFramed c (
              on_ok r
                (λ c2. some (c2, false))
                (λ c2.
                  if limit_to_mtu d && ltb udp_max_payload_size (length bytes + c2.msg_bytes)
                  then add_iov_loop grants fuel
                      (put_iov c2 (take (udp_max_payload_size - c2.msg_bytes) bytes))
                      (drop (udp_max_payload_size - c2.msg_bytes) bytes)
                  else some (put_iov c2 bytes, true)))
      ensured ih e1 g (e2, false) (h, bad) = absurd cc
      ensured ih e1 g (e2, true) (h, ok) = split ih e2 (Frame-trans c e1 e2 g h) _

      roomed :
          ((e : Conn) (rest : List ℕ)
            → Frame c e
            → c.udp ≡ false
            → LoopFramed c (add_iov_loop grants fuel e rest))
          → (r : Conn × Bool) → Framed d r
          → LoopFramed c (
              on_ok r
                (λ c1. some (c1, false))
                (λ c1.
                  on_ok
                    (conn_ensure_iov_space grants c1)
                    (λ c2. some (c2, false))
                    (λ c2.
                      if limit_to_mtu d && ltb udp_max_payload_size (length bytes + c2.msg_bytes)
                      then add_iov_loop grants fuel
                          (put_iov c2 (take (udp_max_payload_size - c2.msg_bytes) bytes))
                          (drop (udp_max_payload_size - c2.msg_bytes) bytes)
                      else some (put_iov c2 bytes, true))))
      roomed ih (e1, false) (g, bad) = absurd cc
      roomed ih (e1, true) (g, ok) =
          ensured ih e1 (Frame-trans c d e1 f g) (conn_ensure_iov_space grants e1)
            (ensure-Framed e1)

  -- On a TCP connection whose messages lie one behind the other in the array of iovecs, if the
  -- allocator grants every request, conn_add_iov succeeds, makes the messages hold what they held
  -- followed by all the bytes, leaves them one behind the other, and changes nothing of the
  -- connection but the messages, the array under them and the number of requests.
  pub conn_add_iov-Holds :
      (c : Conn) (bytes : List ℕ)
      → IsValid c
      → c.udp ≡ false
      → Holds c bytes (conn_add_iov grants c bytes)
  unfolding conn_add_iov
  conn_add_iov-Holds c bytes v tcp =
      found (add_iov_loop grants (suc (length bytes)) c bytes)
        (loop-Framed (suc (length bytes)) c c bytes refl tcp)
        (loop-Added grants (suc (length bytes)) c bytes v tcp (omega arith))
    where
      found :
          (r : Option (Conn × Bool))
          → LoopFramed c r
          → LoopAdded grants c.reallocs (out c) bytes r
          → Holds c bytes (elim r [ none ↦ (c, false) | some r' ↦ r' ])
      found none f h = elim h [ ]
      found (some (t, false)) (f, bad) h = absurd cc
      found (some (t, true)) (f, k) (v', o) = record {
        ok = refl;
        frame = f;
        valid = v';
        bytes_added = o;
      }
