-- ===== src/Core/Transmit.antt =====
-- core_transmit: the bytes that are still to be written.
use twemcache.Base.{
  drop, ℕ, zero, suc, ◌+◌, ◌-◌, ◌≤◌, ◌<◌, ◌≡◌, refl, sym, ap, ◌∙◌, Bool, true, false, ◌&&◌,
  Bool-cases, inl, inr, List, [], ltb, ◌==◌, if◌then◌else◌, arith, update, length,
}
use twemcache.Conn.{Conn, Msg, conn_read, conn_close, set_state}
use twemcache.Core.{
  TransmitResult, transmit_complete, transmit_incomplete, transmit_soft_error, transmit_hard_error,
  SendResult, sent, would_block, send_error, Pending, skip_written, core_written, next_msg,
  core_transmit,
}
use twemcache.Core.Window.{
  window, messages, pending, IsOrdered, drop-some, cut, skip-end, skip-left, skip-drop, window-cut,
  update-at, update-other, skip-start, ordered-update,
}

-- The messages behind the one that is written.
messages-update :
    (iov : ℕ → List ℕ) (msg : ℕ → Msg) (p : Pending) (i k n : ℕ) (m : Msg)
    → k < i
    → (0 < p.left → (j : ℕ) → i ≤ j → j < i + n → p.msg_iov < (msg j).msg_iov)
    → messages (cut iov p) (update msg k m) i n ≡ messages iov msg i n
messages-update iov msg p i k zero m h w = refl
messages-update iov msg p i k (suc n) m h w =
    rw
      (
        update-other msg k i m h,
        window-cut iov p (msg i).msg_iov (msg i).msg_iovlen
            (λ l. w l i (omega arith) (omega arith)),
        messages-update iov msg p (i + 1) k n m (omega (arith, h))
            (λ l j h1 h2. w l j (omega (arith, h1)) (omega (arith, h2))),
      )
      refl

-- What sendmsg may answer: no more than the bytes of the message.
abbrev pub Answers : Conn → SendResult → Type 0
Answers c (sent n) =
    n ≤ length (window c.iov (c.msg c.msg_curr).msg_iov (c.msg c.msg_curr).msg_iovlen)
Answers c would_block = Unit
Answers c send_error = Unit

abbrev pub Transmitted : SendResult → Conn → Conn × TransmitResult → Type 0
Transmitted r c (t, transmit_complete) = (pending c ≡ []) × (t.state ≡ c.state)
Transmitted (sent n) c (t, transmit_incomplete) =
    (0 < n) × (pending t ≡ drop n (pending c)) × IsOrdered t × (t.state ≡ c.state)
Transmitted would_block c (t, transmit_soft_error) =
    (pending t ≡ pending c) × IsOrdered t × (t.state ≡ c.state)
Transmitted (sent n) c (t, transmit_hard_error) =
    (n ≡ 0) × (t.state ≡ (if c.udp then conn_read else conn_close))
Transmitted would_block c (t, transmit_hard_error) = t.state ≡ conn_close
Transmitted send_error c (t, transmit_hard_error) =
    t.state ≡ (if c.udp then conn_read else conn_close)
Transmitted r c (t, s) = ⊥

module _ (c : Conn) (n : ℕ) (o : IsOrdered c) (l : c.msg_curr < c.msg_used)
    (a : Answers c (sent n)) where
  abbrev m : Msg
  m = c.msg c.msg_curr

  abbrev p : Pending
  p = skip_written c.iov m.msg_iov m.msg_iovlen n

  clear : 0 < p.left → (j : ℕ) → c.msg_curr + 1 ≤ j → j < c.msg_used → p.msg_iov < (c.msg j).msg_iov
  clear h j h1 h2 = omega (
    arith,
    skip-left c.iov m.msg_iov m.msg_iovlen n a h,
    skip-end c.iov m.msg_iov m.msg_iovlen n,
    o c.msg_curr j (omega (arith, h1)) h2,
  )

  written-messages :
      (k : ℕ)
      → c.msg_curr + suc k ≡ c.msg_used
      → messages (core_written c n).iov (core_written c n).msg c.msg_curr (suc k)
        ≡ drop n (messages c.iov c.msg c.msg_curr (suc k))
  unfolding core_written
  written-messages k e =
      rw
        (
          update-at c.msg c.msg_curr (record m { msg_iov = p.msg_iov; msg_iovlen = p.msg_iovlen }),
          skip-drop c.iov m.msg_iov m.msg_iovlen n a,
          messages-update c.iov c.msg p (c.msg_curr + 1) c.msg_curr k
              (record m { msg_iov = p.msg_iov; msg_iovlen = p.msg_iovlen }) (omega arith)
              (λ h j h1 h2. clear h j h1 (omega (arith, h2, e))),
          drop-some (window c.iov m.msg_iov m.msg_iovlen) (messages c.iov c.msg (c.msg_curr + 1) k)
              n a,
        )
        refl

  written-pending : pending (core_written c n) ≡ drop n (pending c)
  unfolding core_written
  written-pending =
      let e : c.msg_used - c.msg_curr ≡ suc (c.msg_used - c.msg_curr - 1) = omega (arith, l) in
      rw e (written-messages (c.msg_used - c.msg_curr - 1) (omega (arith, l)))

  written-IsOrdered : IsOrdered (core_written c n)
  unfolding core_written
  written-IsOrdered =
      ordered-update c.msg c.msg_curr _ c.msg_used o (skip-start c.iov m.msg_iov m.msg_iovlen n)
        (skip-end c.iov m.msg_iov m.msg_iovlen n)

messages-empty :
    (iov : ℕ → List ℕ) (msg : ℕ → Msg) (i n : ℕ)
    → (msg i).msg_iovlen ≡ 0
    → messages iov msg i (suc n) ≡ messages iov msg (i + 1) n
messages-empty iov msg i n h = rw h refl

next-pending : (c : Conn) → pending (next_msg c) ≡ pending c
unfolding next_msg
next-pending c =
    elim (Bool-cases (ltb c.msg_curr c.msg_used && ((c.msg c.msg_curr).msg_iovlen == 0))) [
      | inl done ↦ rw done (
          let e : c.msg_used - c.msg_curr ≡ suc (c.msg_used - (c.msg_curr + 1)) =
            ground (arith, done) in
          rw e (
            sym (
              messages-empty c.iov c.msg c.msg_curr (c.msg_used - (c.msg_curr + 1))
                (ground (arith, done)))))
      | inr more ↦ rw more refl
    ]

next-IsOrdered : (c : Conn) → IsOrdered c → IsOrdered (next_msg c)
unfolding next_msg
next-IsOrdered c o =
    elim (Bool-cases (ltb c.msg_curr c.msg_used && ((c.msg c.msg_curr).msg_iovlen == 0))) [
      | inl done ↦ rw done o
      | inr more ↦ rw more o
    ]

next-state : (c : Conn) → (next_msg c).state ≡ c.state
unfolding next_msg
next-state c =
    elim (Bool-cases (ltb c.msg_curr c.msg_used && ((c.msg c.msg_curr).msg_iovlen == 0))) [
      | inl done ↦ rw done refl
      | inr more ↦ rw more refl
    ]

written-state : (c : Conn) (n : ℕ) → (core_written c n).state ≡ c.state
unfolding core_written
written-state c n = refl

finished : (c : Conn) → ltb c.msg_curr c.msg_used ≡ false → pending c ≡ []
finished c h = let e : c.msg_used - c.msg_curr ≡ 0 = ground (arith, h) in rw e refl

pub core_transmit-Transmitted :
    (r : SendResult) (updated : Bool) (c : Conn)
    → IsOrdered c
    → Answers (next_msg c) r
    → Transmitted r c (core_transmit r updated c)
unfolding core_transmit
core_transmit-Transmitted r updated c o a =
    elim (Bool-cases (ltb (next_msg c).msg_curr (next_msg c).msg_used)) [
      | inl more ↦ rw more (answered r updated a (ground (arith, more)))
      | inr done ↦ rw done (sym (next-pending c) ∙ finished (next_msg c) done, next-state c)
    ]
  where
    answered :
        (r' : SendResult) (u : Bool)
        → Answers (next_msg c) r'
        → (next_msg c).msg_curr < (next_msg c).msg_used
        → Transmitted r' c (elim r' [
          | sent n ↦ elim n [
            | zero ↦ (
              set_state (next_msg c) (if c.udp then conn_read else conn_close),
              transmit_hard_error,
            )
            | suc k ↦ (core_written (next_msg c) (suc k), transmit_incomplete)
          ]
          | would_block ↦
              if u
              then (next_msg c, transmit_soft_error)
              else (set_state (next_msg c) conn_close, transmit_hard_error)
          | send_error ↦ (
            set_state (next_msg c) (if c.udp then conn_read else conn_close),
            transmit_hard_error,
          )
        ])
    answered (sent zero) u a' l = (refl, refl)
    answered (sent (suc n)) u a' l = (
      omega arith,
      written-pending (next_msg c) (suc n) (next-IsOrdered c o) l a'
          ∙ ap (λ b. drop (suc n) b) (next-pending c),
      written-IsOrdered (next_msg c) (suc n) (next-IsOrdered c o) l a',
      written-state (next_msg c) (suc n) ∙ next-state c,
    )
    answered would_block true a' l = (next-pending c, next-IsOrdered c o, next-state c)
    answered would_block false a' l = refl
    answered send_error u a' l = refl
