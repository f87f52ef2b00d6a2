-- ===== src/Core/Drive/Flush.antt =====
-- CONN_MWRITE over all its rounds, on TCP: what reaches the socket, and what is released.
use twemcache.Ascii.{Server, set_conn, set_store}
use twemcache.Base.{
  ℕ, zero, suc, ◌+◌, ◌≡◌, refl, sym, subst, ap, ◌∙◌, Bool, true, false, ◌&&◌, List, [], ◌∷◌, ◌++◌,
  ltb, leb, ◌==◌, if◌then◌else◌,
}
use twemcache.Cache.{cache_free}
use twemcache.Conn.{
  Conn, conn_new_cmd, conn_mwrite, conn_close, conn_read, set_state, on_ok, take,
  conn_build_udp_headers,
}
use twemcache.Core.{
  TransmitResult, transmit_complete, transmit_incomplete, transmit_soft_error, transmit_hard_error,
  SendResult, sent, would_block, send_error, core_transmit, core_written, next_msg,
}
use twemcache.Core.Command.{release_items, release_suffixes}
use twemcache.Core.Drive.{transmitted, after_transmit, mwrite_step}
use twemcache.Core.Transmit.{Answers, Transmitted, core_transmit-Transmitted}
use twemcache.Core.Slices.{take-drop}
use twemcache.Core.Window.{pending, IsOrdered}
use twemcache.Items.{item_remove}
use twemcache.Store.{Store}

-- The store after the items were given back.
pub released : Store → List ℕ → Store
released s [] = s
released s (it ∷ its) = released (item_remove s it) its

-- What core_transmit leaves alone.
abbrev Kept : Conn → Conn → Type 0
Kept c t = (t.ilist ≡ c.ilist) × (t.udp ≡ c.udp)

transmit-Kept : (r : SendResult) (updated : Bool) (c : Conn) → Kept c (core_transmit r updated c).0
unfolding core_transmit core_written next_msg
transmit-Kept r updated c =
    moved (ltb c.msg_curr c.msg_used && ((c.msg c.msg_curr).msg_iovlen == 0))
      (ltb (next_msg c).msg_curr (next_msg c).msg_used) r updated
  where
    stepped : Bool → Conn
    stepped b = if b then record c { msg_curr = c.msg_curr + 1 } else c

    moved :
        (b more : Bool) (r : SendResult) (updated : Bool)
        → Kept c
            (if◌then◌else◌ {A = Conn × TransmitResult} more
              (elim r [
                | sent k ↦ elim k [
                  | zero ↦ (
                    set_state (stepped b) (if c.udp then conn_read else conn_close),
                    transmit_hard_error,
                  )
                  | suc k ↦ (core_written (stepped b) (suc k), transmit_incomplete)
                ]
                | would_block ↦
                    if updated
                    then (stepped b, transmit_soft_error)
                    else (set_state (stepped b) conn_close, transmit_hard_error)
                | send_error ↦ (
                  set_state (stepped b) (if c.udp then conn_read else conn_close),
                  transmit_hard_error,
                )
              ])
              (stepped b, transmit_complete)).0
    moved true true (sent zero) u = (refl, refl)
    moved true true (sent (suc k)) u = (refl, refl)
    moved true true would_block true = (refl, refl)
    moved true true would_block false = (refl, refl)
    moved true true send_error u = (refl, refl)
    moved false true (sent zero) u = (refl, refl)
    moved false true (sent (suc k)) u = (refl, refl)
    moved false true would_block true = (refl, refl)
    moved false true would_block false = (refl, refl)
    moved false true send_error u = (refl, refl)
    moved true false r u = (refl, refl)
    moved false false r u = (refl, refl)

-- The bytes that sendmsg takes.
abbrev pub sent_bytes : SendResult → Conn → List ℕ
sent_bytes (sent n) c = take n (pending c)
sent_bytes would_block c = []
sent_bytes send_error c = []

module _ (grants : ℕ → Bool) where
  -- Rounds of CONN_MWRITE on TCP, with the bytes that they give to the socket.
  pub data Writes : Server → List ℕ → Server → Type 0 where
    here : (w : Server) → Writes w [] w
    next :
        {w v : Server} {bytes : List ℕ} (r : SendResult) (updated : Bool)
        → w.conn.state ≡ conn_mwrite
        → Answers (next_msg w.conn) r
        → Writes (mwrite_step grants r updated w).0 bytes v
        → Writes w (sent_bytes r w.conn ++ bytes) v

  -- The reply is written, and the items and suffixes of it are given back.
  pub record Flushed (w : Server) (bytes : List ℕ) (v : Server) : Type 0 where
    pub all_sent : bytes ≡ pending w.conn
    pub items : v.conn.ilist ≡ []
    pub suffixes : v.conn.slist ≡ []
    pub store : v.store ≡ released w.store w.conn.ilist

  stays :
      {w v : Server} {bytes : List ℕ}
      → Writes w bytes v
      → (w.conn.state ≡ conn_mwrite → ⊥)
      → (bytes ≡ []) × (v ≡ w)
  stays (here w) h = (refl, refl)
  stays (next r u s a rest) h = absurd (h s)

  step-tcp :
      (r : SendResult) (updated : Bool) (w : Server)
      → w.conn.udp ≡ false
      → mwrite_step grants r updated w ≡ after_transmit grants w (core_transmit r updated w.conn)
  unfolding mwrite_step
  step-tcp r updated w tcp =
      ap
        (λ b.
          on_ok
            (if b && (w.conn.msg_curr == 0)
              then conn_build_udp_headers grants w.conn
              else (w.conn, true))
            (λ c. (set_conn w (set_state c conn_close), false))
            (λ c. after_transmit grants w (core_transmit r updated c)))
        tcp

  items-released :
      (w : Server) (its : List ℕ)
      → ((release_items w its).store ≡ released w.store its)
        × ((release_items w its).conn ≡ record w.conn { ilist = [] })
  unfolding release_items released
  items-released w [] = (refl, refl)
  items-released w (it ∷ its) = items-released (set_store w (item_remove w.store it)) its

  abbrev SuffixesGone : Server → Server → Type 0
  SuffixesGone w v = (v.store ≡ w.store) × (v.conn.ilist ≡ w.conn.ilist) × (v.conn.slist ≡ [])

  suffixes-released : (w : Server) (ss : List ℕ) → SuffixesGone w (release_suffixes grants w ss)
  unfolding release_suffixes
  suffixes-released w [] = (refl, refl, refl)
  suffixes-released w (s ∷ ss) =
      suffixes-released (freed (leb w.suffix_cache.freetotal w.suffix_cache.freecurr)) ss
    where
      freed : Bool → Server
      freed full = record w {
        suffix_cache =
            let (cache, gone) = cache_free (grants w.conn.reallocs) w.suffix_cache s in cache;
        conn = record w.conn { reallocs = if full then w.conn.reallocs + 1 else w.conn.reallocs };
      }

  complete-Flushed : (w : Server) → (transmitted grants w conn_mwrite).conn.state ≡ conn_new_cmd
  unfolding transmitted
  complete-Flushed w = refl

  complete-released :
      (w : Server)
      → ((transmitted grants w conn_mwrite).conn.ilist ≡ [])
        × ((transmitted grants w conn_mwrite).conn.slist ≡ [])
        × ((transmitted grants w conn_mwrite).store ≡ released w.store w.conn.ilist)
  unfolding transmitted
  complete-released w =
      let i = items-released w w.conn.ilist in
      let g =
        suffixes-released (release_items w w.conn.ilist)
          (release_items w w.conn.ilist).conn.slist in
      (g.1 ∙ ap (λ (c : Conn). c.ilist) i.1, g.2, g.0 ∙ i.0)

  take-nil : (n : ℕ) → take n [] ≡ []
  take-nil zero = refl
  take-nil (suc n) = refl

  sent-nil : (r : SendResult) (c : Conn) → pending c ≡ [] → sent_bytes r c ≡ []
  sent-nil (sent n) c e = ap (λ b. take n b) e ∙ take-nil n
  sent-nil would_block c e = refl
  sent-nil send_error c e = refl

  -- A reply that is written completely.
  completed :
      (w v : Server) (bytes : List ℕ) (r : SendResult) (t : Conn)
      → pending w.conn ≡ []
      → t.ilist ≡ w.conn.ilist
      → Writes (transmitted grants (set_conn w t) conn_mwrite) bytes v
      → Flushed w (sent_bytes r w.conn ++ bytes) v
  completed w v bytes r t none_left i rest =
      let (b, same) = stays rest (λ m. let e = complete-Flushed (set_conn w t) in absurd cc) in
      let back = complete-released (set_conn w t) in
      record {
        all_sent = ap (λ x. x ++ bytes) (sent-nil r w.conn none_left) ∙ b ∙ sym none_left;
        items = ap (λ (x : Server). x.conn.ilist) same ∙ back.0;
        suffixes = ap (λ (x : Server). x.conn.slist) same ∙ back.1;
        store = ap (λ (x : Server). x.store) same ∙ back.2 ∙ ap (released w.store) i;
      }

  -- A closed connection does not come to the next command.
  closed :
      (w v : Server) (bytes : List ℕ) (t : Conn)
      → t.state ≡ conn_close
      → Writes (set_conn w t) bytes v
      → v.conn.state ≡ conn_new_cmd
      → ⊥
  closed w v bytes t c rest e =
      let same = (stays rest (λ m. absurd cc)).1 in
      let s = ap (λ (x : Server). x.conn.state) same in absurd cc

  abbrev Onwards : Server → List ℕ → Server → Type 0
  Onwards u bytes v =
      u.conn.state ≡ conn_mwrite → u.conn.udp ≡ false → IsOrdered u.conn → Flushed u bytes v

  turned :
      (w v : Server) (bytes : List ℕ) (r : SendResult) (x : Conn × TransmitResult)
      → w.conn.state ≡ conn_mwrite
      → w.conn.udp ≡ false
      → v.conn.state ≡ conn_new_cmd
      → Transmitted r w.conn x
      → Kept w.conn x.0
      → Writes (after_transmit grants w x).0 bytes v
      → Onwards (after_transmit grants w x).0 bytes v
      → Flushed w (sent_bytes r w.conn ++ bytes) v
  unfolding after_transmit
  turned w v bytes r (t, transmit_complete) m tcp e (h, s) (i, u) rest ih =
      completed w v bytes r t h i
        (subst (λ x. Writes (transmitted grants (set_conn w t) x) bytes v) (s ∙ m) rest)
  turned w v bytes (sent n) (t, transmit_incomplete) m tcp e (p, d, o, s) (i, u) rest ih =
      let f = ih (s ∙ m) (u ∙ tcp) o in
      record {
        all_sent =
            ap (λ b. take n (pending w.conn) ++ b) (f.all_sent ∙ d) ∙ take-drop n (pending w.conn);
        items = f.items;
        suffixes = f.suffixes;
        store = f.store ∙ ap (released w.store) i;
      }
  turned w v bytes would_block (t, transmit_soft_error) m tcp e (d, o, s) (i, u) rest ih =
      let f = ih (s ∙ m) (u ∙ tcp) o in
      record {
        all_sent = f.all_sent ∙ d;
        items = f.items;
        suffixes = f.suffixes;
        store = f.store ∙ ap (released w.store) i;
      }
  turned w v bytes (sent n) (t, transmit_hard_error) m tcp e (z, s) k rest ih =
      absurd (closed w v bytes t (rw tcp at s) rest e)
  turned w v bytes would_block (t, transmit_hard_error) m tcp e s k rest ih =
      absurd (closed w v bytes t s rest e)
  turned w v bytes send_error (t, transmit_hard_error) m tcp e s k rest ih =
      absurd (closed w v bytes t (rw tcp at s) rest e)
  turned w v bytes would_block (t, transmit_incomplete) m tcp e h k rest ih = absurd h
  turned w v bytes send_error (t, transmit_incomplete) m tcp e h k rest ih = absurd h
  turned w v bytes (sent n) (t, transmit_soft_error) m tcp e h k rest ih = absurd h
  turned w v bytes send_error (t, transmit_soft_error) m tcp e h k rest ih = absurd h

  -- Over any sequence of rounds of CONN_MWRITE on a TCP connection whose messages lie one behind
  -- the other, with whatever pieces sendmsg takes and whenever it would block, once the
  -- connection is at CONN_NEW_CMD the bytes that the socket was given are exactly those that were
  -- to be written, in order, and each item that the reply used has been given back once, and no
  -- item or suffix is left in use.
  pub writes-Flushed :
      {w v : Server} {bytes : List ℕ}
      → Writes w bytes v
      → w.conn.state ≡ conn_mwrite
      → w.conn.udp ≡ false
      → IsOrdered w.conn
      → v.conn.state ≡ conn_new_cmd
      → Flushed w bytes v
  writes-Flushed (here w) m tcp o e = absurd cc
  writes-Flushed {w = w} {v = v} (next {bytes = bytes} r updated m' a rest) m tcp o e =
      turned w v bytes r _ m tcp e (core_transmit-Transmitted r updated w.conn o a)
        (transmit-Kept r updated w.conn)
        (subst (λ u. Writes u.0 bytes v) (step-tcp r updated w tcp) rest)
        (subst (λ u. Onwards u.0 bytes v) (step-tcp r updated w tcp)
          (λ m2 tcp2 o2. writes-Flushed rest m2 tcp2 o2 e))
