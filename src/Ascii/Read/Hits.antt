-- ===== src/Ascii/Read/Hits.antt =====
-- One hit of asc_process_read, where the allocator grants what is asked: what is added to the reply.
use mathlib.Core.List.{append_assoc, append-nil}
use twemcache.Ascii.{Server, set_conn, crlf, asc_rsp_server_error}
use twemcache.Ascii.Read.{
  on_suffix, suffix_taken, asc_destroy_suffix, add_value, str_value, suffix_of, add_iovs,
  alloc_suffix, asc_create_suffix, asc_respond_get,
}
use twemcache.Base.{
  ℕ, ◌+◌, ◌*◌, ◌≡◌, refl, sym, subst, ap, ◌∙◌, Bool, true, false, Bool-cases, inl, inr, Option,
  none, some, List, [], ◌∷◌, ◌++◌, ltb, leb, arith, if◌then◌else◌,
}
use twemcache.Cache.{Cache, cache_alloc}
use twemcache.Conn.Bytes.{IsValid, out}
use twemcache.Conn.Frame.{Frame-trans, Holds, conn_add_iov-Holds}
use twemcache.Conn.{Conn, on_ok, conn_add_iov}
use twemcache.Store.{Store}

abbrev joined : List (List ℕ) → List ℕ
joined [] = []
joined (bytes ∷ more) = bytes ++ joined more

abbrev parts : Bool → Store → ℕ → List (List ℕ)
parts return_cas s it =
    str_value ∷ (s.items it).key ∷ suffix_of return_cas s it ∷ crlf ∷ (s.items it).value ∷ crlf ∷ []

-- What the reply to a get holds for one item.
pub block : Bool → Store → ℕ → List ℕ
block return_cas s it = joined (parts return_cas s it)

-- A connection that can be written to over TCP.
pub record IsOpen (c : Conn) : Type 0 where
  pub valid : IsValid c
  pub tcp : c.udp ≡ false

-- The bytes were added to the reply, and the items are as they were.
pub record Sent (w : Server) (bytes : List ℕ) (v : Server) : Type 0 where
  pub store : v.store ≡ w.store
  pub cfg : v.cfg ≡ w.cfg
  pub detects : v.hotkey_enable ≡ w.hotkey_enable
  pub opened : IsOpen v.conn
  pub sent : out v.conn ≡ out w.conn ++ bytes

abbrev pub Answered : Server → List ℕ → Server × Option ℕ → Type 0
Answered w bytes (v, none) = ⊥
Answered w bytes (v, some suffix) = Sent w bytes v

module _ (grants : ℕ → Bool) (granted : (n : ℕ) → grants n ≡ true) where
  add_iovs-Holds :
      (c : Conn) (parts : List (List ℕ))
      → IsOpen c
      → Holds c (joined parts) (add_iovs grants c parts)
  unfolding add_iovs
  add_iovs-Holds c [] o = record {
    ok = refl;
    frame = refl;
    valid = o.valid;
    bytes_added = sym (append-nil (out c));
  }
  add_iovs-Holds c (bytes ∷ more) o =
      added (conn_add_iov grants c bytes) (conn_add_iov-Holds grants granted c bytes o.valid o.tcp)
        (λ d v t. add_iovs-Holds d more (record { valid = v; tcp = t }))
    where
      added :
          (r : Conn × Bool)
          → Holds c bytes r
          → ((d : Conn)
              → IsValid d
              → d.udp ≡ false
              → Holds d (joined more) (add_iovs grants d more))
          → Holds c
              (bytes ++ joined more)
              (on_ok r (λ c'. (c', false)) (λ c'. add_iovs grants c' more))
      added (d, false) h rest = absurd (ground (arith, h.ok))
      added (d, true) h rest =
          let k = rest d h.valid (ap (λ (x : Conn). x.udp) h.frame ∙ o.tcp) in
          record {
            ok = k.ok;
            frame = Frame-trans c d _ h.frame k.frame;
            valid = k.valid;
            bytes_added =
                k.bytes_added
                ∙ ap (λ b. b ++ joined more) h.bytes_added
                ∙ append_assoc (out c) bytes (joined more);
          }

-- The lists of items and suffixes have another size.
resized-IsOpen :
    (c : Conn) (isize ssize reallocs : ℕ)
    → IsOpen c
    → IsOpen (record c { isize = isize; ssize = ssize; reallocs = reallocs })
resized-IsOpen c isize ssize reallocs o = record {
  valid = record {
    some_msg = o.valid.some_msg;
    msg_fits = o.valid.msg_fits;
    iov_fits = o.valid.iov_fits;
    iov_some = o.valid.iov_some;
    windows = o.valid.windows;
    used = o.valid.used;
    short = o.valid.short;
  };
  tcp = o.tcp;
}

pub resized-Sent :
    (w : Server) (cache : Cache) (isize ssize reallocs : ℕ)
    → IsOpen w.conn
    → Sent w [] (record w {
      suffix_cache = cache;
      conn = record w.conn { isize = isize; ssize = ssize; reallocs = reallocs };
    })
resized-Sent w cache isize ssize reallocs o = record {
  store = refl;
  cfg = refl;
  detects = refl;
  opened = resized-IsOpen w.conn isize ssize reallocs o;
  sent = sym (append-nil (out w.conn));
}

pub Sent-then : (w v u : Server) (a b : List ℕ) → Sent w a v → Sent v b u → Sent w (a ++ b) u
Sent-then w v u a b p q = record {
  store = q.store ∙ p.store;
  cfg = q.cfg ∙ p.cfg;
  detects = q.detects ∙ p.detects;
  opened = q.opened;
  sent = q.sent ∙ ap (λ l. l ++ b) p.sent ∙ append_assoc (out w.conn) a b;
}

Answered-then :
    (w v : Server) (a b : List ℕ) (r : Server × Option ℕ)
    → Sent w a v
    → Answered v b r
    → Answered w (a ++ b) r
Answered-then w v a b (u, none) p q = absurd q
Answered-then w v a b (u, some suffix) p q = Sent-then w v u a b p q

module _ (grants : ℕ → Bool) (granted : (n : ℕ) → grants n ≡ true) (address : ℕ → ℕ) where
  suffix-Answered :
      (w : Server) → IsOpen w.conn → Answered w [] (alloc_suffix grants (λ n. some (address n)) w)
  unfolding alloc_suffix cache_alloc
  suffix-Answered w o = elim (Bool-cases (ltb 0 w.suffix_cache.freecurr)) [
    | inl e ↦ rw e (resized-Sent w _ w.conn.isize w.conn.ssize w.conn.reallocs o)
    | inr e ↦ rw e (resized-Sent w _ w.conn.isize w.conn.ssize (w.conn.reallocs + 1) o)
  ]

  taken-Answered :
      (w v : Server) → Sent w [] v → Answered w [] (suffix_taken grants (λ n. some (address n)) v)
  unfolding suffix_taken
  taken-Answered w v p =
      told (alloc_suffix grants (λ n. some (address n)) v) (suffix-Answered v p.opened)
    where
      told :
          (r : Server × Option ℕ)
          → Answered v [] r
          → Answered w []
              (on_suffix r (λ v. (asc_rsp_server_error v, none)) (λ v suffix. (v, some suffix)))
      told (u, none) h = absurd h
      told (u, some suffix) h = Sent-then w v u [] [] p h

  create-Answered :
      (w : Server) (n : ℕ)
      → IsOpen w.conn
      → Answered w [] (asc_create_suffix grants (λ n. some (address n)) w n)
  unfolding asc_create_suffix
  create-Answered w n o =
      created (leb w.conn.ssize n) (grants w.conn.reallocs) (granted w.conn.reallocs)
    where
      created :
          (full grant : Bool)
          → grant ≡ true
          → Answered w [] (
              if full
              then on_ok
                  (record w.conn { reallocs = w.conn.reallocs + 1 }, grant)
                  (λ c. (set_conn w c, none))
                  (λ c.
                    suffix_taken grants
                      (λ n. some (address n))
                      (set_conn w (record c { ssize = c.ssize * 2 })))
              else suffix_taken grants (λ n. some (address n)) w)
      created true true e =
          taken-Answered w _
            (resized-Sent w w.suffix_cache w.conn.isize (w.conn.ssize * 2) (w.conn.reallocs + 1) o)
      created true false e = absurd cc
      created false grant e =
          taken-Answered w w
            (resized-Sent w w.suffix_cache w.conn.isize w.conn.ssize w.conn.reallocs o)

  -- What lies behind the key in a reply.
  abbrev tail_of : Bool → Store → ℕ → List ℕ
  tail_of return_cas s it =
      joined (suffix_of return_cas s it ∷ crlf ∷ (s.items it).value ∷ crlf ∷ [])

  held-Sent :
      (w : Server) (bytes : List ℕ) (c : Conn)
      → IsOpen w.conn
      → Holds w.conn bytes (c, true)
      → Sent w bytes (set_conn w c)
  held-Sent w bytes c o h = record {
    store = refl;
    cfg = refl;
    detects = refl;
    opened = record { valid = h.valid; tcp = ap (λ (x : Conn). x.udp) h.frame ∙ o.tcp };
    sent = h.bytes_added;
  }

  value-Answered :
      (w v : Server) (head : List ℕ) (suffix it : ℕ) (cas : Bool)
      → Sent w head v
      → Answered w
          (head ++ tail_of cas w.store it)
          (add_value grants (λ n. some (address n)) v suffix it cas)
  unfolding add_value
  value-Answered w v head suffix it cas p = rw (ap (λ s. tail_of cas s it) (sym p.store)) (
      added _ (
        add_iovs-Holds grants granted v.conn
          (suffix_of cas v.store it ∷ crlf ∷ (v.store.items it).value ∷ crlf ∷ []) p.opened))
    where
      added :
          (r : Conn × Bool)
          → Holds v.conn (tail_of cas v.store it) r
          → Answered w (head ++ tail_of cas v.store it) (
              on_ok r
                (λ c.
                  (asc_destroy_suffix grants (λ n. some (address n)) (set_conn v c) suffix, none))
                (λ c. (set_conn v c, some suffix)))
      added (c, false) h = absurd (ground (arith, h.ok))
      added (c, true) h = Sent-then w v _ head _ p (held-Sent v _ c p.opened h)

  pub respond-Answered :
      (w : Server) (n it : ℕ) (cas : Bool)
      → IsOpen w.conn
      → Answered w
          (block cas w.store it)
          (asc_respond_get grants (λ n. some (address n)) w n it cas)
  unfolding asc_respond_get block
  respond-Answered w n it cas o =
      keyed _ (add_iovs-Holds grants granted w.conn (str_value ∷ (w.store.items it).key ∷ []) o)
    where
      head : List ℕ
      head = joined (str_value ∷ (w.store.items it).key ∷ [])

      assoc : head ++ tail_of cas w.store it ≡ joined (parts cas w.store it)
      assoc =
          rw (append-nil (w.store.items it).key)
            (append_assoc str_value (w.store.items it).key (tail_of cas w.store it))

      valued :
          (u : Server)
          → Sent w head u
          → (r : Server × Option ℕ) → Answered u [] r
          → Answered w (head ++ tail_of cas w.store it) (
              on_suffix r
                (λ v. (v, none))
                (λ v suffix. add_value grants (λ n. some (address n)) v suffix it cas))
      valued u p (v, none) h = absurd h
      valued u p (v, some suffix) h =
          value-Answered w v head suffix it cas
            (subst (λ b. Sent w b v) (append-nil head) (Sent-then w u v head [] p h))

      keyed :
          (r : Conn × Bool)
          → Holds w.conn head r
          → Answered w (joined (parts cas w.store it)) (
              on_ok r
                (λ c. (set_conn w c, none))
                (λ c.
                  on_suffix
                    (asc_create_suffix grants (λ n. some (address n)) (set_conn w c) n)
                    (λ v. (v, none))
                    (λ v suffix. add_value grants (λ n. some (address n)) v suffix it cas)))
      keyed (c, false) h = absurd (ground (arith, h.ok))
      keyed (c, true) h =
          let p = held-Sent w head c o h in
          rw (← assoc) (valued (set_conn w c) p _ (create-Answered (set_conn w c) n p.opened))
