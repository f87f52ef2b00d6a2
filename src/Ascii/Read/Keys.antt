-- ===== src/Ascii/Read/Keys.antt =====
-- The loops of asc_process_read serve the words of the line, where the allocator grants what is
-- asked.
use mathlib.Core.List.{append-nil}
use twemcache.Ascii.{Server, set_store, key_max_len, asc_rsp_client_error}
use twemcache.Ascii.Read.{
  Hit, ReadEnd, hung, refused, stopped, on_suffix, sampled, get_sampled, add_hit, read_keys,
}
use twemcache.Ascii.Read.Hits.{IsOpen, block}
use twemcache.Ascii.Read.Served.{
  after, found, blocks, Short, Progress, Progress-then, HitAdded, add_hit-Added,
}
use twemcache.Assoc.{Key}
use twemcache.Base.{
  ◌∙◌, ℕ, ◌≡◌, refl, sym, subst, Bool, true, false, Option, none, some, List, [], ◌∷◌, ltb, ◌==◌,
  arith, if◌then◌else◌,
}
use twemcache.Items.{item_get, item_touch}
use twemcache.Store.{Settings, Store, on_null}
use twemcache.Token.{Token, text}
use twemcache.Token.Words.{texts, stop, Exact}

-- With the detector off, item_get is _item_get.
get_sampled-off :
    (hash : Key → ℕ) (w : Server) (key : Key)
    → w.hotkey_enable ≡ false
    → get_sampled hash w key
      ≡ some (set_store w (item_get hash w.store key).0, (item_get hash w.store key).1)
unfolding get_sampled
get_sampled-off hash w key off = got (item_get hash w.store key)
  where
    got :
        (r : Store × Option ℕ)
        → on_null r
            (λ s. some (set_store w s, none))
            (λ s it.
              if w.hotkey_enable
              then sampled hash (set_store w s) it key
              else some (set_store w s, some it))
          ≡ some (set_store w r.0, r.1)
    got (s, none) = refl
    got (s, some it) = rw off refl

module _ (grants : ℕ → Bool) (granted : (n : ℕ) → grants n ≡ true) (address : ℕ → ℕ)
    (hash : Key → ℕ) (cas : Bool) where
  -- The keys were served, from `w` on.
  abbrev pub Serves : Server → List Hit → List Key → Server → List Hit → Type 0
  Serves w hits ks v hits' =
      Progress w hits (after hash w.cfg w.store ks) (blocks hash w.cfg cas w.store ks)
        (found hash w.cfg w.store ks) v hits'

  Serves-none : (w : Server) (hits : List Hit) → IsOpen w.conn → Serves w hits [] w hits
  unfolding after blocks found
  Serves-none w hits o = record {
    store = refl;
    cfg = refl;
    detects = refl;
    opened = o;
    sent = sym (append-nil _);
    listed = sym (append-nil _);
  }

  abbrev pub KeysRead : Server → List Hit → List Key → Option (List ℕ) → ReadEnd → Type 0
  KeysRead w hits ks val hung = ⊥
  KeysRead w hits ks val (refused v) = ⊥
  KeysRead w hits ks val (stopped v hits' val') = Serves w hits ks v hits' × (val' ≡ val)

  abbrev Reads : List Token → Type 0
  Reads ts =
      (w : Server) (hits : List Hit)
      → IsOpen w.conn
      → w.hotkey_enable ≡ false
      → KeysRead w hits (texts ts) (stop ts)
          (read_keys grants (λ n. some (address n)) hash cas w hits ts)

  -- Another store, before any key is got.
  Serves-next :
      (w u v : Server) (hits hits' hits'' : List Hit) (k : Key) (ks : List Key) (s : Store) (it : ℕ)
      → item_get hash w.store k ≡ (s, some it)
      → Progress (set_store w s) hits (item_touch w.cfg s it) (block cas s it) (it ∷ []) u hits'
      → Serves u hits' ks v hits''
      → Serves w hits (k ∷ ks) v hits''
  unfolding after blocks found
  Serves-next w u v hits hits' hits'' k ks s it e p q =
      let first : Progress w hits (item_touch w.cfg s it) (block cas s it) (it ∷ []) u hits' =
        record {
          store = p.store;
          cfg = p.cfg;
          detects = p.detects;
          opened = p.opened;
          sent = p.sent;
          listed = p.listed;
        } in
      let rest : Progress u hits' (after hash w.cfg (item_touch w.cfg s it) ks)
          (blocks hash w.cfg cas (item_touch w.cfg s it) ks)
          (found hash w.cfg (item_touch w.cfg s it) ks) v hits'' =
        subst
          (λ (x : Settings × Store).
            Progress u hits' (after hash x.0 x.1 ks) (blocks hash x.0 cas x.1 ks)
              (found hash x.0 x.1 ks) v hits'')
          (λ i. (p.cfg i, p.store i)) q in
      rw e (Progress-then w u v hits hits' hits'' (item_touch w.cfg s it) _ _ _ _ _ first rest)

  KeysRead-miss :
      (w : Server) (hits : List Hit) (k : Key) (ks : List Key) (val : Option (List ℕ)) (s : Store)
      → item_get hash w.store k ≡ (s, none)
      → (e : ReadEnd) → KeysRead (set_store w s) hits ks val e
      → KeysRead w hits (k ∷ ks) val e
  unfolding after blocks found
  KeysRead-miss w hits k ks val s e hung q = absurd q
  KeysRead-miss w hits k ks val s e (refused v) q = absurd q
  KeysRead-miss w hits k ks val s e (stopped v hits' val') (q, b) = rw e (
    record {
      store = q.store;
      cfg = q.cfg;
      detects = q.detects;
      opened = q.opened;
      sent = q.sent;
      listed = q.listed;
    },
    b,
  )

  pub keys-Read : (ts : List Token) → Exact ts → Short (texts ts) → Reads ts
  unfolding read_keys after blocks found
  keys-Read [] e h w hits o off = (Serves-none w hits o, refl)
  keys-Read (t ∷ ts) (e, es) h w hits o off = ended (t.len == 0) h (keys-Read ts es)
    where
      added :
          (s : Store) (it : ℕ)
          → item_get hash w.store (text t) ≡ (s, some it)
          → Reads ts
          → (r : Server × Option (List Hit))
          → HitAdded grants granted address (set_store w s) hits it cas r
          → KeysRead w hits (text t ∷ texts ts) (stop ts) (elim r.1 [
            | none ↦ stopped r.0 hits t.val
            | some hits' ↦ read_keys grants (λ n. some (address n)) hash cas r.0 hits' ts
          ])
      added s it i ih (v, none) h = absurd h
      added s it i ih (v, some hits') h = followed _ (ih v hits' h.opened (h.detects ∙ off))
        where
          followed :
              (e : ReadEnd)
              → KeysRead v hits' (texts ts) (stop ts) e
              → KeysRead w hits (text t ∷ texts ts) (stop ts) e
          followed hung q = absurd q
          followed (refused x) q = absurd q
          followed (stopped x hits'' val) (q, b) =
              (Serves-next w v x hits hits' hits'' (text t) (texts ts) s it i h q, b)

      got :
          (r : Store × Option ℕ)
          → item_get hash w.store (text t) ≡ r
          → Reads ts
          → KeysRead w hits (text t ∷ texts ts) (stop ts) (
              on_suffix
                (set_store w r.0, r.1)
                (λ u. read_keys grants (λ n. some (address n)) hash cas u hits ts)
                (λ u it.
                  let (v, more) = add_hit grants (λ n. some (address n)) u hits it cas in
                  elim more [
                    | none ↦ stopped v hits t.val
                    | some hits' ↦ read_keys grants (λ n. some (address n)) hash cas v hits' ts
                  ]))
      got (s, none) i ih =
          KeysRead-miss w hits (text t) (texts ts) (stop ts) s i _ (ih (set_store w s) hits o off)
      got (s, some it) i ih =
          added s it i ih _ (add_hit-Added grants granted address (set_store w s) hits it cas o)

      ended :
          (b : Bool)
          → Short (if b then [] else text t ∷ texts ts)
          → (Short (texts ts) → Reads ts)
          → KeysRead w hits
              (if b then [] else text t ∷ texts ts)
              (if b then t.val else stop ts)
              (elim b [
                | true ↦ stopped w hits t.val
                | false ↦ elim (ltb key_max_len t.len) [
                  | true ↦ refused (asc_rsp_client_error w)
                  | false ↦ elim (get_sampled hash w (text t)) [
                    | none ↦ hung
                    | some r ↦
                        on_suffix r
                          (λ u. read_keys grants (λ n. some (address n)) hash cas u hits ts)
                          (λ u it.
                            let (v, more) = add_hit grants (λ n. some (address n)) u hits it cas in
                            elim more [
                              | none ↦ stopped v hits t.val
                              | some hits' ↦
                                  read_keys grants (λ n. some (address n)) hash cas v hits' ts
                            ])
                  ]
                ]
              ])
      ended true h ih = (Serves-none w hits o, refl)
      ended false (short, h) ih =
          let fits : ltb key_max_len t.len ≡ false = ground (arith, e) in
          rw (fits, get_sampled-off hash w (text t) off) (got _ refl (ih h))

  abbrev pub RoundsRead : Server → List Hit → List Key → Option ReadEnd → Type 0
  RoundsRead w hits ks none = ⊥
  RoundsRead w hits ks (some e) = KeysRead w hits ks none e
