-- ===== src/Conn/Adding.antt =====
-- conn_add_iov on TCP ends, and what it adds.
use mathlib.Core.List.{append_assoc, append-nil}
use twemcache.Base.{
  drop, ℕ, zero, suc, ◌+◌, ◌-◌, ◌*◌, ◌≤◌, ◌<◌, ◌≡◌, refl, sym, ap, ◌∙◌, Bool, true, false, ◌&&◌,
  ◌||◌, Bool-cases, inl, inr, Option, none, some, List, [], ◌∷◌, ◌++◌, ltb, leb, ◌==◌,
  if◌then◌else◌, arith, length,
}
use twemcache.Conn.{
  Conn, iov_max, udp_max_payload_size, last_msg, put_iov, on_ok, take, conn_ensure_iov_space,
  push_msg, add_header, conn_add_msghdr, limit_to_mtu, room_in_msg, add_iov_loop, conn_add_iov,
}
use twemcache.Conn.Bytes.{IsValid, out, IsValid-resize}
use twemcache.Conn.Put.{put-IsValid, out-put_iov, put-udp, push-IsValid, out-push}
use twemcache.Conn.Room.{Refused, Roomy, Kept, ensure-Roomy}

-- A message with room for an iovec, and the bytes as they were.
record IsOpen (c t : Conn) : Type 0 where
  valid : IsValid t
  same : out t ≡ out c
  tcp : t.udp ≡ false
  later : c.reallocs ≤ t.reallocs
  slot : (last_msg t).msg_iovlen < iov_max
  progress : limit_to_mtu c ≡ true → t.msg_bytes < udp_max_payload_size

abbrev Opened : (ℕ → Bool) → Conn → Conn × Bool → Type 0
Opened grants c (t, false) = IsValid t × (out t ≡ out c) × Refused grants c.reallocs t
Opened grants c (t, true) = IsOpen c t

pub add_header-tcp :
    (grants : ℕ → Bool) (d : Conn)
    → d.udp ≡ false
    → add_header grants (push_msg d) ≡ (push_msg d, true)
unfolding add_header push_msg
add_header-tcp grants d u = rw u refl

push-udp : (d : Conn) → d.udp ≡ false → (push_msg d).udp ≡ false
unfolding push_msg
push-udp d u = u

push-slot : (d : Conn) → (last_msg (push_msg d)).msg_iovlen < iov_max
unfolding push_msg
push-slot d = ground arith

push-empty : (d : Conn) → (push_msg d).msg_bytes < udp_max_payload_size
unfolding push_msg
push-empty d = omega arith

module _ (grants : ℕ → Bool) (c : Conn) (v : IsValid c) (tcp : c.udp ≡ false) where
  pushed-IsOpen :
      (d : Conn)
      → IsValid d
      → d.msg_used < d.msg_size
      → d.udp ≡ false
      → out d ≡ out c
      → c.reallocs ≤ d.reallocs
      → Opened grants c (add_header grants (push_msg d))
  pushed-IsOpen d w room u same late = rw (add_header-tcp grants d u) (record {
    valid = push-IsValid d w room;
    same = out-push d w ∙ same;
    tcp = push-udp d u;
    later = unfold push_msg in late;
    slot = push-slot d;
    progress = λ _. push-empty d;
  })

  doubled :
      (b : Bool)
      → c.msg_size ≡ c.msg_used
      → grants c.reallocs ≡ b
      → Opened grants c (
          on_ok
            (record c { reallocs = c.reallocs + 1 }, b)
            (λ c'. (c', false))
            (λ c'. add_header grants (push_msg (record c' { msg_size = c'.msg_size * 2 }))))
  doubled false e refused = (
    IsValid-resize c _ v refl refl refl (omega arith) (omega arith),
    refl,
    (c.reallocs, omega arith, refl, refused),
  )
  doubled true e granted =
      pushed-IsOpen _ (IsValid-resize c _ v refl refl refl (omega arith) (omega arith))
        (omega (arith, v.some_msg, e)) tcp refl (omega arith)

  msghdr-Opened : Opened grants c (conn_add_msghdr grants c)
  unfolding conn_add_msghdr
  msghdr-Opened = elim (Bool-cases (c.msg_size == c.msg_used)) [
    | inl full ↦ rw full (doubled (grants c.reallocs) (ground arith) refl)
    | inr room ↦ rw room (pushed-IsOpen c v (ground (arith, v.msg_fits)) tcp refl (omega arith))
  ]

  last_short : (last_msg c).msg_iovlen ≤ iov_max
  last_short = v.short (c.msg_used - 1) (omega (arith, v.some_msg))

  room-Opened : Opened grants c (room_in_msg grants c)
  unfolding room_in_msg
  room-Opened =
      elim (Bool-cases (
        ((last_msg c).msg_iovlen == iov_max)
        || (limit_to_mtu c && leb udp_max_payload_size c.msg_bytes))) [
          | inl full ↦ rw full msghdr-Opened
          | inr room ↦ rw room (record {
            valid = v;
            same = refl;
            tcp = tcp;
            later = omega arith;
            slot = ground (arith, last_short, room);
            progress = λ l. ground (arith, l, room);
          })
        ]

-- Enough bytes have been put in front of the rest.
take-drop : (n : ℕ) (bytes : List ℕ) → take n bytes ++ drop n bytes ≡ bytes
take-drop zero bytes = refl
take-drop (suc n) [] = refl
take-drop (suc n) (b ∷ bytes) = ap (λ r. b ∷ r) (take-drop n bytes)

length-drop : (n : ℕ) (bytes : List ℕ) → length (drop n bytes) ≡ length bytes - n
length-drop zero bytes = omega arith
length-drop (suc n) [] = omega arith
length-drop (suc n) (b ∷ bytes) = ground (arith, length-drop n bytes)

-- What a call that adds `bytes` to what was `old` returns: all of them, or, where the allocator
-- has refused a request, a first part.
abbrev pub Added : (ℕ → Bool) → ℕ → List ℕ → List ℕ → Conn × Bool → Type 0
Added grants before old bytes (t, true) = IsValid t × (out t ≡ old ++ bytes)
Added grants before old bytes (t, false) =
    IsValid t
    × Refused grants before t
    × ((written : List ℕ) × (rest : List ℕ) × (bytes ≡ written ++ rest) × (out t ≡ old ++ written))

abbrev pub LoopAdded : (ℕ → Bool) → ℕ → List ℕ → List ℕ → Option (Conn × Bool) → Type 0
LoopAdded grants before old bytes none = ⊥
LoopAdded grants before old bytes (some r) = Added grants before old bytes r

Added-prefix :
    (grants : ℕ → Bool) (before later : ℕ) (old front rest bytes : List ℕ)
    (r : Option (Conn × Bool))
    → before ≤ later
    → front ++ rest ≡ bytes
    → LoopAdded grants later (old ++ front) rest r
    → LoopAdded grants before old bytes r
Added-prefix grants before later old front rest bytes none b e h = h
Added-prefix grants before later old front rest bytes (some (t, true)) b e (v, o) =
    (v, o ∙ append_assoc old front rest ∙ ap (λ b. old ++ b) e)
Added-prefix grants before later old front rest bytes (some (t, false)) b e
      (v, (n, m, k, g), (w, r, s, o)) =
    (
      v,
      (n, omega (arith, b, m), k, g),
      (
        front ++ w,
        r,
        sym e ∙ ap (λ b. front ++ b) s ∙ sym (append_assoc front w r),
        o ∙ append_assoc old front w,
      ),
    )

module _ (grants : ℕ → Bool) where
  out-Kept : (d t : Conn) → Kept d t → out t ≡ out d
  out-Kept d t (v, i, m, mu, iu, mb, u) = rw (i, m, mu) refl

  put-Opened :
      (c d t : Conn)
      → IsOpen c d
      → Kept d t
      → t.iov_used < t.iov_size
      → (b : List ℕ)
      → IsValid (put_iov t b) × (out (put_iov t b) ≡ out c ++ b) × ((put_iov t b).udp ≡ false)
  put-Opened c d t o k room b =
      let (v, i, m, mu, iu, mb, u) = k in
      (
        put-IsValid t v b room (rw (m, mu) o.slot),
        out-put_iov t v b ∙ ap (λ r. r ++ b) (out-Kept d t k ∙ o.same),
        put-udp t v b ∙ u ∙ o.tcp,
      )

  pub loop-Added :
      (fuel : ℕ) (c : Conn) (bytes : List ℕ)
      → IsValid c
      → c.udp ≡ false
      → length bytes < fuel
      → LoopAdded grants c.reallocs (out c) bytes (add_iov_loop grants fuel c bytes)
  unfolding add_iov_loop
  loop-Added zero c bytes v tcp h = elim h [ ]
  loop-Added (suc fuel) c bytes v tcp h =
      roomed (loop-Added fuel) (room_in_msg grants c) (room-Opened grants c v tcp)
    where
      shorter :
          {left : ℕ}
          → udp_max_payload_size < length bytes + left
          → left < udp_max_payload_size
          → length (drop (udp_max_payload_size - left) bytes) < fuel
      shorter {left} more p =
          omega (arith, h, length-drop (udp_max_payload_size - left) bytes, more, p)

      ensured :
          ((t : Conn) (rest : List ℕ)
            → IsValid t
            → t.udp ≡ false
            → length rest < fuel
            → LoopAdded grants t.reallocs (out t) rest (add_iov_loop grants fuel t rest))
          → (c1 : Conn) → IsOpen c c1
          → (r : Conn × Bool) → Roomy grants c1 r
          → LoopAdded grants c.reallocs (out c) bytes (
              on_ok r
                (λ c2. some (c2, false))
                (λ c2.
                  if limit_to_mtu c && ltb udp_max_payload_size (length bytes + c2.msg_bytes)
                  then add_iov_loop grants fuel
                      (put_iov c2 (take (udp_max_payload_size - c2.msg_bytes) bytes))
                      (drop (udp_max_payload_size - c2.msg_bytes) bytes)
                  else some (put_iov c2 bytes, true)))
      ensured next c1 o (c2, false) (k, n) =
          let (w, i, m, mu, iu, mb, u) = k in
          (
            w,
            (let (last, late, made, refused) = n in
                (last, omega (arith, late, o.later), made, refused)),
            ([], bytes, refl, out-Kept c1 c2 k ∙ o.same ∙ sym (append-nil (out c))),
          )
      ensured next c1 o (c2, true) (k, room, late) =
          elim (Bool-cases
            (limit_to_mtu c && ltb udp_max_payload_size (length bytes + c2.msg_bytes))) [
              | inl more ↦ rw more (
                  let (w, e, u) =
                    put-Opened c c1 c2 o k room
                      (take (udp_max_payload_size - c2.msg_bytes) bytes) in
                  let (w2, i, m, mu, iu, mb, u2) = k in
                  Added-prefix grants c.reallocs
                    (put_iov c2 (take (udp_max_payload_size - c2.msg_bytes) bytes)).reallocs (out c)
                    (take (udp_max_payload_size - c2.msg_bytes) bytes)
                    (drop (udp_max_payload_size - c2.msg_bytes) bytes) bytes _
                    (unfold put_iov in omega (arith, o.later, late))
                    (take-drop (udp_max_payload_size - c2.msg_bytes) bytes)
                    (rw (← e) (
                      next _ (drop (udp_max_payload_size - c2.msg_bytes) bytes) w u
                        (shorter (ground (arith, more)) (ground (arith, more, mb, o.progress))))))
              | inr done ↦ rw done (let (w, e, u) = put-Opened c c1 c2 o k room bytes in (w, e))
            ]

      roomed :
          ((t : Conn) (rest : List ℕ)
            → IsValid t
            → t.udp ≡ false
            → length rest < fuel
            → LoopAdded grants t.reallocs (out t) rest (add_iov_loop grants fuel t rest))
          → (r : Conn × Bool) → Opened grants c r
          → LoopAdded grants c.reallocs (out c) bytes (
              on_ok r
                (λ c1. some (c1, false))
                (λ c1.
                  on_ok
                    (conn_ensure_iov_space grants c1)
                    (λ c2. some (c2, false))
                    (λ c2.
                      if limit_to_mtu c && ltb udp_max_payload_size (length bytes + c2.msg_bytes)
                      then add_iov_loop grants fuel
                          (put_iov c2 (take (udp_max_payload_size - c2.msg_bytes) bytes))
                          (drop (udp_max_payload_size - c2.msg_bytes) bytes)
                      else some (put_iov c2 bytes, true))))
      roomed next (c1, false) (v1, s, n) = (v1, n, ([], bytes, refl, s ∙ sym (append-nil (out c))))
      roomed next (c1, true) o =
          ensured next c1 o (conn_ensure_iov_space grants c1) (ensure-Roomy grants c1 o.valid)

  -- On a TCP connection whose messages lie one behind the other in the array of iovecs,
  -- conn_add_iov leaves the messages so, and either succeeds and makes them hold what they held
  -- followed by the bytes, or fails and makes them hold what they held followed by a first part
  -- of the bytes; it fails only where the allocator has refused a request for a larger array in
  -- this call, the last one that it made.
  pub conn_add_iov-Added :
      (c : Conn) (bytes : List ℕ)
      → IsValid c
      → c.udp ≡ false
      → Added grants c.reallocs (out c) bytes (conn_add_iov grants c bytes)
  unfolding conn_add_iov
  conn_add_iov-Added c bytes v tcp =
      found (add_iov_loop grants (suc (length bytes)) c bytes)
        (loop-Added (suc (length bytes)) c bytes v tcp (omega arith))
    where
      found :
          (r : Option (Conn × Bool))
          → LoopAdded grants c.reallocs (out c) bytes r
          → Added grants c.reallocs (out c) bytes (elim r [ none ↦ (c, false) | some r' ↦ r' ])
      found none h = elim h [ ]
      found (some r) h = h
