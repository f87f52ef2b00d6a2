-- ===== src/Ascii/Read/Replied.antt =====
-- asc_process_read over TCP, where the allocator grants what is asked: the reply is the one of
-- `blocks`, for the words behind the command.
use mathlib.Core.List.{append_assoc, append-nil}
use twemcache.Ascii.{Server, set_conn, asc_validate_ntoken, asc_rsp_server_error}
use twemcache.Ascii.Read.{
  Hit, ReadEnd, hung, refused, stopped, is_gets, str_end, read_keys, read_rounds, finish_read,
  ended_read, asc_process_read,
}
use twemcache.Ascii.Read.Hits.{IsOpen}
use twemcache.Ascii.Read.Keys.{Serves, KeysRead, keys-Read, RoundsRead}
use twemcache.Ascii.Read.Served.{
  after, found, blocks, Short, Progress, Progress-then, after-append, found-append, blocks-append,
  Short-front, Short-back,
}
use twemcache.Assoc.{Key}
use twemcache.Base.{
  ℕ, zero, suc, ◌+◌, ◌≤◌, ◌≡◌, refl, sym, subst, ap, ◌∙◌, ◌⊎◌, Bool, true, false, inl, inr, Option,
  none, some, List, [], ◌∷◌, ◌++◌, length, ◌==◌, arith, map, if◌then◌else◌,
}
use twemcache.Conn.Bytes.{IsValid, out}
use twemcache.Conn.Frame.{Holds, conn_add_iov-Holds}
use twemcache.Conn.{Conn, ConnState, conn_mwrite, on_ok, conn_build_udp_headers}
use twemcache.Store.{Settings, Store}
use twemcache.Token.{Token, tokenize, from}
use twemcache.Token.Words.{texts, left, words, words_from, pointer, Splits, tokenize-Splits}

length-append : (ks ls : List Key) → length (ks ++ ls) ≡ length ks + length ls
length-append [] ls = omega arith
length-append (k ∷ ks) ls = omega (arith, length-append ks ls)

module _ (grants : ℕ → Bool) (granted : (n : ℕ) → grants n ≡ true) (address : ℕ → ℕ)
    (hash : Key → ℕ) (cas : Bool) where
  Serves-then :
      (w v u : Server) (hits hits' hits'' : List Hit) (ks ls : List Key)
      → Serves grants granted address hash cas w hits ks v hits'
      → Serves grants granted address hash cas v hits' ls u hits''
      → Serves grants granted address hash cas w hits (ks ++ ls) u hits''
  Serves-then w v u hits hits' hits'' ks ls p q =
      rw
        (
          after-append hash w.cfg w.store ks ls,
          found-append hash w.cfg w.store ks ls,
          blocks-append hash w.cfg cas w.store ks ls,
        )
        (Progress-then w v u hits hits' hits'' (after hash w.cfg w.store ks) _ _ _ _ _ p (
          subst
            (λ (x : Settings × Store).
              Progress v hits' (after hash x.0 x.1 ls) (blocks hash x.0 cas x.1 ls)
                (found hash x.0 x.1 ls) u hits'')
            (λ i. (p.cfg i, p.store i)) q))

  RoundsRead-then :
      (w v : Server) (hits hits' : List Hit) (ks ls : List Key)
      → Serves grants granted address hash cas w hits ks v hits'
      → (r : Option ReadEnd) → RoundsRead grants granted address hash cas v hits' ls r
      → RoundsRead grants granted address hash cas w hits (ks ++ ls) r
  RoundsRead-then w v hits hits' ks ls p none q = absurd q
  RoundsRead-then w v hits hits' ks ls p (some hung) q = absurd q
  RoundsRead-then w v hits hits' ks ls p (some (refused u)) q = absurd q
  RoundsRead-then w v hits hits' ks ls p (some (stopped u hits'' val)) (q, b) =
      (Serves-then w v u hits hits' hits'' ks ls p q, b)

  -- The rounds that the rest of the line takes.
  abbrev Suffices : ℕ → List ℕ → Type 0
  Suffices rounds [] = 1 ≤ rounds
  Suffices rounds (c ∷ rest) = length (words (c ∷ rest)) + 2 ≤ rounds

  Suffices-next :
      (rounds room : ℕ) (ks : List Key) (ts : List Token)
      → Splits room ks ts
      → 1 ≤ room
      → length ks + 2 ≤ suc rounds
      → Suffices rounds (left ts)
  Suffices-next rounds room ks ts s r h = next (left ts) s.covers s.full
    where
      next :
          (l : List ℕ)
          → texts ts ++ words l ≡ ks
          → (l ≡ []) ⊎ (length (texts ts) ≡ room)
          → Suffices rounds l
      next [] c f = omega (arith, h)
      next (d ∷ l) c (inl e) = absurd cc
      next (d ∷ l) c (inr e) =
          let whole = ap (λ (x : List (List ℕ)). length x) c in
          omega (arith, h, e, r, whole, length-append (texts ts) (words (d ∷ l)))

  abbrev Runs : ℕ → ℕ → Type 0
  Runs rounds room =
      (w : Server) (hits : List Hit) (ks : List Key) (ts : List Token)
      → Splits room ks ts
      → IsOpen w.conn
      → w.hotkey_enable ≡ false
      → Short ks
      → Suffices rounds (left ts)
      → RoundsRead grants granted address hash cas w hits ks
          (read_rounds grants (λ n. some (address n)) hash cas rounds w hits ts)

  continued :
      (rounds : ℕ)
      → Runs rounds 7
      → (w : Server) (hits : List Hit) (ks : List Key) (l : List ℕ) (e : ReadEnd)
      → KeysRead grants granted address hash cas w hits ks (pointer l) e
      → w.hotkey_enable ≡ false
      → Short (words l)
      → Suffices (suc rounds) l
      → RoundsRead grants granted address hash cas w hits (ks ++ words l) (elim e [
        | hung ↦ some hung
        | refused v ↦ some (refused v)
        | stopped v hits' none ↦ some (stopped v hits' none)
        | stopped v hits' (some rest) ↦
            read_rounds grants (λ n. some (address n)) hash cas rounds v hits' (tokenize rest)
      ])
  unfolding words_from
  continued rounds ih w hits ks l hung q off h n = absurd q
  continued rounds ih w hits ks l (refused v) q off h n = absurd q
  continued rounds ih w hits ks [] (stopped v hits' none) (p, b) off h n =
      rw (append-nil ks) (p, refl)
  continued rounds ih w hits ks (c ∷ rest) (stopped v hits' none) (p, b) off h n = absurd cc
  continued rounds ih w hits ks [] (stopped v hits' (some r)) (p, b) off h n = absurd cc
  continued rounds ih w hits ks (c ∷ rest) (stopped v hits' (some r)) (p, b) off h n =
      let same : r ≡ c ∷ rest = cc in
      rw same (
        RoundsRead-then w v hits hits' ks (words (c ∷ rest)) p _ (
          ih v hits' (words (c ∷ rest)) (tokenize (c ∷ rest)) (tokenize-Splits (c ∷ rest)) p.opened
            (p.detects ∙ off) h
            (Suffices-next rounds 7 (words (c ∷ rest)) (tokenize (c ∷ rest))
              (tokenize-Splits (c ∷ rest)) (omega arith) n)))

  rounds-Read : (rounds room : ℕ) → Runs rounds room
  unfolding read_rounds
  rounds-Read zero room w hits ks ts s o off short enough = absurd (none_left (left ts) enough)
    where
      none_left : (l : List ℕ) → Suffices zero l → ⊥
      none_left [] h = omega (arith, h)
      none_left (c ∷ l) h = omega (arith, h)
  rounds-Read (suc rounds) room w hits ks ts s o off short enough =
      subst
        (λ l.
          RoundsRead grants granted address hash cas w hits l
            (read_rounds grants (λ n. some (address n)) hash cas (suc rounds) w hits ts))
        s.covers
        (continued rounds (rounds-Read rounds 7) w hits (texts ts) (left ts) _
          (rw (← s.stops) (
            keys-Read grants granted address hash cas ts s.exact (Short-front (texts ts) _ all) w
              hits o off))
          off (Short-back (texts ts) _ all) enough)
    where
      all : Short (texts ts ++ words (left ts))
      all = subst Short (sym s.covers) short

  empty-Read :
      (rounds : ℕ) (w : Server)
      → 1 ≤ rounds
      → IsOpen w.conn
      → w.hotkey_enable ≡ false
      → RoundsRead grants granted address hash cas w [] []
          (read_rounds grants (λ n. some (address n)) hash cas rounds w [] [])
  unfolding read_rounds words_from
  empty-Read zero w h o off = absurd (omega arith)
  empty-Read (suc rounds) w h o off =
      continued rounds (rounds-Read rounds 7) w [] [] []
        (read_keys grants (λ n. some (address n)) hash cas w [] [])
        (keys-Read grants granted address hash cas [] tt tt w [] o off) off tt (omega arith)

  -- The reply is complete and about to be written.
  pub record Answer (w : Server) (ks : List Key) (v : Server) : Type 0 where
    pub state : v.conn.state ≡ conn_mwrite
    pub first : v.conn.msg_curr ≡ 0
    pub valid : IsValid v.conn
    pub sent : out v.conn ≡ out w.conn ++ (blocks hash w.cfg cas w.store ks ++ str_end)
    pub store : v.store ≡ after hash w.cfg w.store ks
    pub items : v.conn.ilist ≡ found hash w.cfg w.store ks

  abbrev pub Replied : Server → List Key → Option Server → Type 0
  Replied w ks none = ⊥
  Replied w ks (some v) = Answer w ks v

  relisted-IsValid :
      (c : Conn) (ilist slist : List ℕ) (state : ConnState) (msg_curr : ℕ)
      → IsValid c
      → IsValid (record c { ilist = ilist; slist = slist; state = state; msg_curr = msg_curr })
  relisted-IsValid c ilist slist state msg_curr v = record {
    some_msg = v.some_msg;
    msg_fits = v.msg_fits;
    iov_fits = v.iov_fits;
    iov_some = v.iov_some;
    windows = v.windows;
    used = v.used;
    short = v.short;
  }

  finish-Answer :
      (w v : Server) (hits : List Hit) (ks : List Key)
      → Serves grants granted address hash cas w [] ks v hits
      → Answer w ks (finish_read grants (λ n. some (address n)) v hits)
  unfolding finish_read
  finish-Answer w v hits ks p = ended _ (
      conn_add_iov-Holds grants granted _ str_end
        (relisted-IsValid v.conn _ _ v.conn.state v.conn.msg_curr p.opened.valid) p.opened.tcp)
    where
      listed : Conn
      listed = record v.conn {
        ilist = map (λ (h : Hit). h.it) hits;
        slist = map (λ (h : Hit). h.suffix) hits;
      }

      ended :
          (r : Conn × Bool)
          → Holds listed str_end r
          → Answer w ks (
              on_ok r
                (λ c. asc_rsp_server_error (set_conn v c))
                (λ c.
                  on_ok
                    (if c.udp then conn_build_udp_headers grants c else (c, true))
                    (λ c. asc_rsp_server_error (set_conn v c))
                    (λ c. set_conn v (record c { state = conn_mwrite; msg_curr = 0 }))))
      ended (c, false) h = absurd (ground (arith, h.ok))
      ended (c, true) h = headed c.udp (ap (λ (x : Conn). x.udp) h.frame ∙ p.opened.tcp)
        where
          headed :
              (udp : Bool)
              → udp ≡ false
              → Answer w ks (
                  on_ok
                    (if udp then conn_build_udp_headers grants c else (c, true))
                    (λ c. asc_rsp_server_error (set_conn v c))
                    (λ c. set_conn v (record c { state = conn_mwrite; msg_curr = 0 })))
          headed true e = absurd cc
          headed false e = record {
            state = refl;
            first = refl;
            valid = relisted-IsValid c c.ilist c.slist conn_mwrite 0 h.valid;
            sent =
                h.bytes_added ∙ ap (λ l. l ++ str_end) p.sent ∙ append_assoc (out w.conn) _ str_end;
            store = p.store;
            items = ap (λ (x : Conn). x.ilist) h.frame ∙ p.listed;
          }

  ended-Replied :
      (w : Server) (ks : List Key) (r : Option ReadEnd)
      → RoundsRead grants granted address hash cas w [] ks r
      → Replied w ks (ended_read grants (λ n. some (address n)) r)
  unfolding ended_read
  ended-Replied w ks none q = absurd q
  ended-Replied w ks (some hung) q = absurd q
  ended-Replied w ks (some (refused v)) q = absurd q
  ended-Replied w ks (some (stopped v hits val)) (p, b) = finish-Answer w v hits ks p

-- The words behind the command.
abbrev pub keys_of : List ℕ → List Key
keys_of line = elim (words line) [ [] ↦ [] | w ∷ ws ↦ ws ]

abbrev pub tail : List Key → List Key
tail [] = []
tail (w ∷ ws) = ws

length-tail : (ws : List Key) → length (tail ws) ≤ length ws
length-tail [] = omega arith
length-tail (w ∷ ws) = omega arith

no_tokens : (ts : List Token) → length ts ≡ 0 → ts ≡ []
no_tokens [] h = refl
no_tokens (t ∷ ts) h = absurd (omega (arith, h))

tail-Splits :
    (t : Token) (ts : List Token) (ws : List Key)
    → Splits 7 ws (t ∷ ts)
    → (t.len == 0) ≡ false
    → Splits 6 (tail ws) ts
tail-Splits t ts ws s e =
    let covers = s.covers in
    let count = s.count in
    let full = s.full in
    let stops = s.stops in
    let full' = rw e at full in
    record {
      covers = ap tail (rw e at covers);
      count = omega (arith, rw e at count);
      full = elim full' [ inl a ↦ inl a | inr b ↦ inr (omega (arith, b)) ];
      stops = rw e at stops;
      exact = s.exact.1;
    }

module _ (grants : ℕ → Bool) (granted : (n : ℕ) → grants n ≡ true) (address : ℕ → ℕ)
    (hash : Key → ℕ) where
  started :
      (rounds : ℕ) (w : Server) (ws : List Key) (ts : List Token)
      → Splits 7 ws ts
      → IsOpen w.conn
      → w.hotkey_enable ≡ false
      → asc_validate_ntoken w (length ts) ≡ some tt
      → Short (tail ws)
      → length ws + 2 ≤ rounds
      → Replied grants granted address hash
          (is_gets w.conn.req_type)
          w
          (tail ws)
          (asc_process_read grants (λ n. some (address n)) hash rounds w ts)
  unfolding asc_process_read words_from
  started rounds w ws [] s o off ok short enough =
      let count = s.count in absurd (omega (arith, count))
  started rounds w ws (t ∷ ts) s o off ok short enough =
      rw (ok, Replied)
        (ended-Replied grants granted address hash _ w (tail ws) _ (read (t.len == 0) refl))
    where
      read :
          (b : Bool)
          → (t.len == 0) ≡ b
          → RoundsRead grants granted address hash (is_gets w.conn.req_type) w [] (tail ws) (
              read_rounds grants
                (λ n. some (address n))
                hash
                (is_gets w.conn.req_type)
                rounds
                w
                []
                ts)
      read true e =
          let count = s.count in
          let covers = s.covers in
          let full = s.full in
          let single : length ts ≡ 0 = omega (arith, rw e at count) in
          let none_left : from t.val ≡ [] = elim (rw e at full) [ inl a ↦ a | inr b ↦ cc ] in
          let none_found : ws ≡ [] = sym (rw (e, none_left) at covers) in
          rw (no_tokens ts single, none_found)
            (empty-Read grants granted address hash _ rounds w (omega (arith, enough)) o off)
      read false e =
          let rest = tail-Splits t ts ws s e in
          rounds-Read grants granted address hash _ rounds 6 w [] (tail ws) ts rest o off short (
            Suffices-next grants granted address hash (is_gets w.conn.req_type) rounds 6 (tail ws)
              ts rest (omega arith) (omega (arith, enough, length-tail ws)))

  -- On a TCP connection whose messages lie one behind the other, with a valid number of tokens,
  -- keys of at most 250 bytes, the detector of hot keys off, and memory whenever it is asked for,
  -- asc_process_read ends within two rounds more than the line has words, and the reply that is
  -- then about to be written is what lay there before, then for each word behind the command that
  -- item_get finds, in order, VALUE, the key, the flags, the length, for gets the cas id, and the
  -- payload, and then END; each found item is touched and stays in the list of items in use, and
  -- nothing else happens to the store.
  pub asc_process_read-Replied :
      (rounds : ℕ) (w : Server) (line : List ℕ)
      → IsOpen w.conn
      → w.hotkey_enable ≡ false
      → asc_validate_ntoken w (length (tokenize line)) ≡ some tt
      → Short (tail (words line))
      → length (words line) + 2 ≤ rounds
      → Replied grants granted address hash
          (is_gets w.conn.req_type)
          w
          (tail (words line))
          (asc_process_read grants (λ n. some (address n)) hash rounds w (tokenize line))
  asc_process_read-Replied rounds w line o off ok short enough =
      started rounds w (words line) (tokenize line) (tokenize-Splits line) o off ok short enough
