-- ===== src/Conn/Put.antt =====
-- An iovec or a message more.
use mathlib.Core.List.{append_assoc, append-nil}
use twemcache.Base.{ℕ, suc, ◌+◌, ◌-◌, ◌<◌, ◌≡◌, refl, sym, ◌∙◌, List, ◌++◌, arith, update}
use twemcache.Conn.{Conn, Msg, iov_max, last_msg, put_iov, push_msg}
use twemcache.Conn.Bytes.{
  range_bytes, out_bytes, out, starts, IsValid, starts-update, out-update_msg, range-update,
  out-update_iov,
}

range-put :
    (iov : ℕ → List ℕ) (start n : ℕ) (b : List ℕ)
    → range_bytes (update iov (start + n) b) start (n + 1) ≡ range_bytes iov start n ++ b
range-put iov start n b =
    let e : n + 1 ≡ suc n = omega arith in
    rw e (ground (arith, range-update iov (start + n) b start n))

-- One more iovec at the end of the k-th message, which is the last.
module _ (iov : ℕ → List ℕ) (msg : ℕ → Msg) (k : ℕ) (bytes : List ℕ)
    (w : (i : ℕ) → i < suc k → (msg i).msg_iov ≡ starts msg i) where
  abbrev end_of : ℕ
  end_of = (msg k).msg_iov + (msg k).msg_iovlen

  abbrev grown_msg : ℕ → Msg
  grown_msg = update msg k (record (msg k) { msg_iovlen = (msg k).msg_iovlen + 1 })

  out-put :
      out_bytes (update iov end_of bytes) grown_msg (suc k) ≡ out_bytes iov msg (suc k) ++ bytes
  out-put = ground (
    arith,
    own,
    range-put iov (msg k).msg_iov (msg k).msg_iovlen bytes,
    out-update_msg (update iov end_of bytes) msg k (grown_msg k) k,
    out-update_iov iov msg end_of bytes k (λ i h. w i (omega arith)),
    w k,
    append_assoc (out_bytes iov msg k) (range_bytes iov (msg k).msg_iov (msg k).msg_iovlen) bytes,
  )
    where
      own : grown_msg k ≡ record (msg k) { msg_iovlen = (msg k).msg_iovlen + 1 }
      own = ground arith

  windows-put : (i : ℕ) → i < suc k → (grown_msg i).msg_iov ≡ starts grown_msg i
  windows-put i h = ground (arith, starts-update msg k (grown_msg k) i, w i)

  starts-put : starts grown_msg (suc k) ≡ starts msg (suc k) + 1
  starts-put = ground (arith, starts-update msg k (grown_msg k) k)

  out-put_at :
      (n : ℕ)
      → n ≡ suc k
      → out_bytes (update iov end_of bytes) grown_msg n ≡ out_bytes iov msg n ++ bytes
  out-put_at n h = rw h out-put

  starts-put_at : (n : ℕ) → n ≡ suc k → starts grown_msg n ≡ starts msg n + 1
  starts-put_at n h = rw h starts-put

-- Adding one iovec.
module _ (c : Conn) (v : IsValid c) (bytes : List ℕ) where
  last_lem : c.msg_used ≡ suc (c.msg_used - 1)
  last_lem = omega (arith, v.some_msg)

  below : (i : ℕ) → i < suc (c.msg_used - 1) → (c.msg i).msg_iov ≡ starts c.msg i
  below i h = v.windows i (omega (arith, v.some_msg))

  pub put-IsValid :
      c.iov_used < c.iov_size → (last_msg c).msg_iovlen < iov_max → IsValid (put_iov c bytes)
  unfolding put_iov
  put-IsValid room slot = record {
    some_msg = v.some_msg;
    msg_fits = v.msg_fits;
    iov_fits = omega (arith, room);
    iov_some = v.iov_some;
    windows =
        λ i h. windows-put c.iov c.msg (c.msg_used - 1) bytes below i (omega (arith, v.some_msg));
    used =
        omega (
          arith,
          v.used,
          starts-put_at c.iov c.msg (c.msg_used - 1) bytes below c.msg_used last_lem,
        );
    short = λ i h. ground (arith, slot, v.short i h);
  }

  pub out-put_iov : out (put_iov c bytes) ≡ out c ++ bytes
  unfolding put_iov
  out-put_iov = out-put_at c.iov c.msg (c.msg_used - 1) bytes below c.msg_used last_lem

  pub put-udp : (put_iov c bytes).udp ≡ c.udp
  unfolding put_iov
  put-udp = refl

-- Starting a message.
abbrev empty_msg : ℕ → Msg
empty_msg j = record { msg_iov = j; msg_iovlen = 0 }

starts-push : (msg : ℕ → Msg) (n j : ℕ) → starts (update msg n (empty_msg j)) (n + 1) ≡ starts msg n
starts-push msg n j =
    let e : n + 1 ≡ suc n = omega arith in
    rw e (ground (arith, starts-update msg n (empty_msg j) n))

out_bytes-push :
    (iov : ℕ → List ℕ) (msg : ℕ → Msg) (n j : ℕ)
    → out_bytes iov (update msg n (empty_msg j)) (n + 1) ≡ out_bytes iov msg n
out_bytes-push iov msg n j =
    let e : n + 1 ≡ suc n = omega arith in
    let own : update msg n (empty_msg j) n ≡ empty_msg j = ground arith in
    rw e (rw own (append-nil _ ∙ out-update_msg iov msg n (empty_msg j) n (omega arith)))

module _ (c : Conn) (v : IsValid c) where
  pub push-IsValid : c.msg_used < c.msg_size → IsValid (push_msg c)
  unfolding push_msg
  push-IsValid room = record {
    some_msg = omega arith;
    msg_fits = omega (arith, room);
    iov_fits = v.iov_fits;
    iov_some = v.iov_some;
    windows = λ i h.
        ground
          (arith, v.used, v.windows i, starts-update c.msg c.msg_used (empty_msg c.iov_used) i);
    used = v.used ∙ sym (starts-push c.msg c.msg_used c.iov_used);
    short = λ i h. ground (arith, v.short i);
  }

  pub out-push : out (push_msg c) ≡ out c
  unfolding push_msg
  out-push = out_bytes-push c.iov c.msg c.msg_used c.iov_used
