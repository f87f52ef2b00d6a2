-- ===== src/Conn/Bytes.antt =====
-- conn_add_iov on TCP: the messages hold, in order, the bytes that were added.
use twemcache.Base.{ℕ, zero, suc, ◌+◌, ◌≤◌, ◌<◌, ◌≡◌, refl, fun_ext, List, [], ◌++◌, arith, update}
use twemcache.Conn.{Conn, Msg, iov_max, repoint}

-- The bytes of `n` iovecs from `start` on.
abbrev pub range_bytes : (ℕ → List ℕ) → ℕ → ℕ → List ℕ
range_bytes iov start zero = []
range_bytes iov start (suc n) = range_bytes iov start n ++ iov (start + n)

-- The bytes of the first `n` messages.
abbrev pub out_bytes : (ℕ → List ℕ) → (ℕ → Msg) → ℕ → List ℕ
out_bytes iov msg zero = []
out_bytes iov msg (suc n) =
    out_bytes iov msg n ++ range_bytes iov (msg n).msg_iov (msg n).msg_iovlen

abbrev pub out : Conn → List ℕ
out c = out_bytes c.iov c.msg c.msg_used

-- Where a message has to start if each starts where the one before it ends.
abbrev pub starts : (ℕ → Msg) → ℕ → ℕ
starts msg zero = 0
starts msg (suc i) = starts msg i + (msg i).msg_iovlen

pub record IsValid (c : Conn) : Type 0 where
  pub some_msg : 1 ≤ c.msg_used
  pub msg_fits : c.msg_used ≤ c.msg_size
  pub iov_fits : c.iov_used ≤ c.iov_size
  pub iov_some : 1 ≤ c.iov_size
  pub windows : (i : ℕ) → i < c.msg_used → (c.msg i).msg_iov ≡ starts c.msg i
  pub used : c.iov_used ≡ starts c.msg c.msg_used
  pub short : (i : ℕ) → i < c.msg_used → (c.msg i).msg_iovlen ≤ iov_max

pub starts-update :
    (msg : ℕ → Msg) (k : ℕ) (m : Msg) (n : ℕ) → n ≤ k → starts (update msg k m) n ≡ starts msg n
starts-update msg k m zero h = refl
starts-update msg k m (suc n) h = ground (arith, starts-update msg k m n)

pub out-update_msg :
    (iov : ℕ → List ℕ) (msg : ℕ → Msg) (k : ℕ) (m : Msg) (n : ℕ)
    → n ≤ k
    → out_bytes iov (update msg k m) n ≡ out_bytes iov msg n
out-update_msg iov msg k m zero h = refl
out-update_msg iov msg k m (suc n) h = ground (arith, out-update_msg iov msg k m n)

pub range-update :
    (iov : ℕ → List ℕ) (j : ℕ) (b : List ℕ) (start n : ℕ)
    → start + n ≤ j
    → range_bytes (update iov j b) start n ≡ range_bytes iov start n
range-update iov j b start zero h = refl
range-update iov j b start (suc n) h = ground (arith, range-update iov j b start n)

pub out-update_iov :
    (iov : ℕ → List ℕ) (msg : ℕ → Msg) (j : ℕ) (b : List ℕ) (n : ℕ)
    → ((i : ℕ) → i < n → (msg i).msg_iov ≡ starts msg i)
    → starts msg n ≤ j
    → out_bytes (update iov j b) msg n ≡ out_bytes iov msg n
out-update_iov iov msg j b zero w h = refl
out-update_iov iov msg j b (suc n) w h = ground (
  arith,
  out-update_iov iov msg j b n (λ i l. w i (omega arith)),
  range-update iov j b (msg n).msg_iov (msg n).msg_iovlen,
  w n,
)

update_self :
    (msg : ℕ → Msg) (i v : ℕ)
    → (msg i).msg_iov ≡ v
    → update msg i (record (msg i) { msg_iov = v }) ≡ msg
update_self msg i v h = fun_ext λ q. ground arith

-- Pointing the messages at the new array changes no index.
pub repoint_lem :
    (n i : ℕ) (msg : ℕ → Msg)
    → ((j : ℕ) → j < i + n → (msg j).msg_iov ≡ starts msg j)
    → repoint n i (starts msg i) msg ≡ msg
unfolding repoint
repoint_lem zero i msg w = refl
repoint_lem (suc n) i msg w =
    let e : i + 1 ≡ suc i = omega arith in
    rw (update_self msg i (starts msg i) (w i (omega arith)), e)
      (repoint_lem n (suc i) msg (λ j h. w j (omega arith)))

pub IsValid-resize :
    (c t : Conn)
    → IsValid c
    → t.msg ≡ c.msg
    → t.msg_used ≡ c.msg_used
    → t.iov_used ≡ c.iov_used
    → c.iov_size ≤ t.iov_size
    → c.msg_size ≤ t.msg_size
    → IsValid t
IsValid-resize c t v m mu iu is ms = record {
  some_msg = omega (arith, v.some_msg);
  msg_fits = omega (arith, v.msg_fits);
  iov_fits = omega (arith, v.iov_fits);
  iov_some = omega (arith, v.iov_some);
  windows = λ i h. rw m (v.windows i (omega arith));
  used = rw (m, mu, iu) v.used;
  short = λ i h. rw m (v.short i (omega arith));
}
