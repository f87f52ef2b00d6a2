-- ===== src/Ascii/Read/Stuck.antt =====
-- asc_process_read where no buffer for a suffix can be had: it takes up the same key for ever.
use twemcache.Ascii.{
  Server, set_conn, set_store, key_max_len, asc_validate_ntoken, asc_rsp_server_error,
  asc_rsp_client_error,
}
use twemcache.Ascii.Read.{
  Hit, ReadEnd, hung, with_signal, sampled, get_sampled, refused, stopped, is_gets, on_suffix,
  add_iovs, alloc_suffix, suffix_taken, add_value, asc_create_suffix, asc_respond_get, ilist_room,
  add_hit, read_keys, read_rounds, ended_read, asc_process_read, str_value,
}
use twemcache.Assoc.{Key}
use twemcache.Base.{
  ℕ, zero, suc, ◌+◌, ◌*◌, ◌≤◌, ◌≡◌, refl, sym, subst, ap, ◌∙◌, Bool, true, false, Option, none,
  some, List, [], ◌∷◌, ◌++◌, length, ltb, leb, ◌==◌, arith, if◌then◌else◌,
}
use twemcache.Cache.{Cache, cache_alloc}
use twemcache.Conn.{Conn, on_ok}
use twemcache.Items.Fetch.{live}
use twemcache.Items.Linked.{IsReady}
use twemcache.Hotkey.{Hotkey, HotFlags}
use twemcache.Items.Refs.{HasRoom, get-acquires}
use twemcache.Items.Flags.{Served, remove-acquired, remove-flagged}
use twemcache.Link.{item_acquire_refcount}
use twemcache.Items.{set_dataflags, item_touch, item_remove}
use twemcache.Store.{Store}
use twemcache.Token.Again.{IsAgain, AllAgain, tokenize-Again, tokenize-empty}
use twemcache.Token.{Token, tokenize, text, get, from}

module _ (grants : ℕ → Bool) where
  -- No memory for a suffix: the pool is empty, and stays so.
  abbrev Dry : Server → Server × Option ℕ → Type 0
  Dry w (v, none) = (v.store ≡ w.store) × (v.suffix_cache.freecurr ≡ 0)
  Dry w (v, some suffix) = ⊥

  taken-Dry : (w : Server) → w.suffix_cache.freecurr ≡ 0 → Dry w (suffix_taken grants (λ n. none) w)
  unfolding suffix_taken alloc_suffix cache_alloc asc_rsp_server_error
  taken-Dry w e =
      let empty : ltb 0 w.suffix_cache.freecurr ≡ false = ground (arith, e) in rw empty (refl, e)

  create-Dry :
      (w : Server) (n : ℕ)
      → w.suffix_cache.freecurr ≡ 0
      → Dry w (asc_create_suffix grants (λ n. none) w n)
  unfolding asc_create_suffix
  create-Dry w n e = created (leb w.conn.ssize n) (grants w.conn.reallocs)
    where
      created :
          (full grant : Bool)
          → Dry w (
              if full
              then on_ok
                  (record w.conn { reallocs = w.conn.reallocs + 1 }, grant)
                  (λ c. (set_conn w c, none))
                  (λ c.
                    suffix_taken grants (λ n. none) (set_conn w (record c { ssize = c.ssize * 2 })))
              else suffix_taken grants (λ n. none) w)
      created true true = taken-Dry _ e
      created true false = (refl, e)
      created false grant = taken-Dry w e

  respond-Dry :
      (w : Server) (n it : ℕ) (cas : Bool)
      → w.suffix_cache.freecurr ≡ 0
      → Dry w (asc_respond_get grants (λ n. none) w n it cas)
  unfolding asc_respond_get
  respond-Dry w n it cas e =
      keyed (add_iovs grants w.conn (str_value ∷ (w.store.items it).key ∷ []))
    where
      refuses :
          (u : Server)
          → u.store ≡ w.store
          → (r : Server × Option ℕ) → Dry u r
          → Dry w (
              on_suffix r
                (λ v. (v, none))
                (λ v suffix. add_value grants (λ n. none) v suffix it cas))
      refuses u s (v, none) (h, k) = (h ∙ s, k)
      refuses u s (v, some suffix) h = absurd h

      keyed :
          (r : Conn × Bool)
          → Dry w (
              on_ok r
                (λ c. (set_conn w c, none))
                (λ c.
                  on_suffix
                    (asc_create_suffix grants (λ n. none) (set_conn w c) n)
                    (λ v. (v, none))
                    (λ v suffix. add_value grants (λ n. none) v suffix it cas)))
      keyed (c, false) = (refl, e)
      keyed (c, true) = refuses (set_conn w c) refl _ (create-Dry (set_conn w c) n e)

  -- The hit is given up.
  abbrev GivenUp : Server → ℕ → Server × Option (List Hit) → Type 0
  GivenUp w it (v, none) = (v.store ≡ item_remove w.store it) × (v.suffix_cache.freecurr ≡ 0)
  GivenUp w it (v, some hits) = ⊥

  add_hit-GivenUp :
      (w : Server) (hits : List Hit) (it : ℕ) (cas : Bool)
      → w.suffix_cache.freecurr ≡ 0
      → GivenUp w it (add_hit grants (λ n. none) w hits it cas)
  unfolding add_hit asc_rsp_server_error
  add_hit-GivenUp w hits it cas e = roomed (ilist_room grants (λ n. none) w (length hits))
    where
      responded :
          (u : Server)
          → u.store ≡ w.store
          → (r : Server × Option ℕ) → Dry u r
          → GivenUp w it (
              on_suffix r
                (λ v. (set_store (asc_rsp_server_error v) (item_remove v.store it), none))
                (λ v suffix. (
                  set_store v (item_touch v.cfg v.store it),
                  some (hits ++ record { it = it; suffix = suffix } ∷ []),
                )))
      responded u s (v, none) (h, k) = (ap (λ x. item_remove x it) (h ∙ s), k)
      responded u s (v, some suffix) h = absurd h

      roomed :
          (r : Conn × Bool)
          → GivenUp w it (
              on_ok r
                (λ c. (set_store (set_conn w c) (item_remove w.store it), none))
                (λ c.
                  on_suffix
                    (asc_respond_get grants (λ n. none) (set_conn w c) (length hits) it cas)
                    (λ v. (set_store (asc_rsp_server_error v) (item_remove v.store it), none))
                    (λ v suffix. (
                      set_store v (item_touch v.cfg v.store it),
                      some (hits ++ record { it = it; suffix = suffix } ∷ []),
                    ))))
      roomed (c, false) = (refl, e)
      roomed (c, true) =
          responded (set_conn w c) refl _ (respond-Dry (set_conn w c) (length hits) it cas e)

  module _ (hash : Key → ℕ) (cas : Bool) (it : ℕ) (t : Token) (again : IsAgain t)
      (some_key : (t.len == 0) ≡ false) (short : t.len ≤ key_max_len) where
    abbrev Retries : ReadEnd → Type 0
    Retries hung = Unit
    Retries (refused v) = ⊥
    Retries (stopped v hits val) =
        Served hash (text t) it v.store
        × (v.suffix_cache.freecurr ≡ 0)
        × (hits ≡ [])
        × (val ≡ t.val)

    -- The item is found, and once it is given back the key has it as before.
    abbrev Got : Server → Option (Server × Option ℕ) → Type 0
    Got w none = Unit
    Got w (some (u, o)) =
        (o ≡ some it)
        × Served hash (text t) it (item_remove u.store it)
        × (u.suffix_cache ≡ w.suffix_cache)

    sampled-Got :
        (w : Server)
        → Served hash (text t) it w.store
        → Got w (sampled hash (set_store w (item_acquire_refcount w.store it)) it (text t))
    unfolding sampled
    sampled-Got w r = signalled _
      where
        acquired : Store
        acquired = item_acquire_refcount w.store it

        signalled :
            (o : Option (Hotkey × HotFlags))
            → Got w (elim o [
              | none ↦ none
              | some r ↦ some (
                record w {
                  hotkey = r.0;
                  store = set_dataflags acquired it (with_signal (acquired.items it).dataflags r.1);
                },
                some it,
              )
            ])
        signalled none = tt
        signalled (some (h, f)) = (refl, remove-flagged hash (text t) it w.store _ r, refl)

    get-Got : (w : Server) → Served hash (text t) it w.store → Got w (get_sampled hash w (text t))
    unfolding get_sampled
    get-Got w r =
        rw (get-acquires hash w.store (text t) it r.hit) (enabled w.hotkey_enable (sampled-Got w r))
      where
        enabled :
            (b : Bool)
            → Got w (sampled hash (set_store w (item_acquire_refcount w.store it)) it (text t))
            → Got w (
                if b
                then sampled hash (set_store w (item_acquire_refcount w.store it)) it (text t)
                else some (set_store w (item_acquire_refcount w.store it), some it))
        enabled true g = g
        enabled false g = (
          refl,
          subst (λ x. Served hash (text t) it x) (sym (remove-acquired hash (text t) it w.store r))
              r,
          refl,
        )

    keys-Retries :
        (w : Server) (ts : List Token)
        → Served hash (text t) it w.store
        → w.suffix_cache.freecurr ≡ 0
        → Retries (read_keys grants (λ n. none) hash cas w [] (t ∷ ts))
    unfolding read_keys
    keys-Retries w ts served dry =
        let fits : ltb key_max_len t.len ≡ false = ground (arith, short) in
        looked_up (onwards (get_sampled hash w (text t))) (t.len == 0) (ltb key_max_len t.len)
          some_key fits (got (get_sampled hash w (text t)) (get-Got w served))
      where
        onwards : Option (Server × Option ℕ) → ReadEnd
        onwards o = elim o [
          | none ↦ hung
          | some r ↦
              on_suffix r (λ u. read_keys grants (λ n. none) hash cas u [] ts)
                (λ u it.
                  let (v, more) = add_hit grants (λ n. none) u [] it cas in
                  elim more [
                    | none ↦ stopped v [] t.val
                    | some hits' ↦ read_keys grants (λ n. none) hash cas v hits' ts
                  ])
        ]

        given_up :
            (u : Server)
            → Served hash (text t) it (item_remove u.store it)
            → (r : Server × Option (List Hit)) → GivenUp u it r
            → Retries (elim r.1 [
              | none ↦ stopped r.0 [] t.val
              | some hits ↦ read_keys grants (λ n. none) hash cas r.0 hits ts
            ])
        given_up u e (v, none) (h, k) =
            (subst (λ x. Served hash (text t) it x) (sym h) e, k, refl, refl)
        given_up u e (v, some hits) h = absurd h

        got : (o : Option (Server × Option ℕ)) → Got w o → Retries (onwards o)
        got none g = tt
        got (some (u, none)) (e, h, c) = absurd cc
        got (some (u, some p)) (e, h, c) =
            let same : p ≡ it = cc in
            rw same (
              given_up u h _ (add_hit-GivenUp u [] it cas (ap (λ (x : Cache). x.freecurr) c ∙ dry)))

        looked_up :
            (e : ReadEnd) (b c : Bool)
            → b ≡ false
            → c ≡ false
            → Retries e
            → Retries (elim b [
              | true ↦ stopped w [] t.val
              | false ↦ elim c [ true ↦ refused (asc_rsp_client_error w) | false ↦ e ]
            ])
        looked_up e true c p q h = absurd cc
        looked_up e false true p q h = absurd cc
        looked_up e false false p q h = h

    -- The loop gives no server: it runs on, or hotkey_sample does not end.
    abbrev Endless : Option ReadEnd → Type 0
    Endless none = Unit
    Endless (some hung) = Unit
    Endless (some (refused v)) = ⊥
    Endless (some (stopped v hits val)) = ⊥

    abbrev Runs : ℕ → Type 0
    Runs rounds =
        (w : Server) (ts : List Token)
        → Served hash (text t) it w.store
        → w.suffix_cache.freecurr ≡ 0
        → get ts 0 ≡ t
        → Endless (read_rounds grants (λ n. none) hash cas rounds w [] ts)

    no_token : record { val = none; len = 0 } ≡ t → ⊥
    no_token h = let z = ap (λ (x : Token). x.len == 0) h in absurd cc

    next-Runs :
        (rounds : ℕ)
        → Runs rounds
        → (e : ReadEnd) → Retries e
        → Endless (elim e [
          | hung ↦ some hung
          | refused v ↦ some (refused v)
          | stopped v hits' none ↦ some (stopped v hits' none)
          | stopped v hits' (some rest) ↦
              read_rounds grants (λ n. none) hash cas rounds v hits' (tokenize rest)
        ])
    next-Runs rounds ih hung h = tt
    next-Runs rounds ih (refused v) h = absurd h
    next-Runs rounds ih (stopped v hits none) (e, d, n, val) =
        absurd (no_key t.val val (again some_key))
      where
        no_key : (o : Option (List ℕ)) → none ≡ o → get (tokenize (from o)) 0 ≡ t → ⊥
        no_key none e h = no_token (rw tokenize-empty at h)
        no_key (some str) e h = cc
    next-Runs rounds ih (stopped v hits (some rest)) (e, d, n, val) =
        rw n (ih v (tokenize rest) e d (ap (λ x. get (tokenize (from x)) 0) val ∙ again some_key))

    rounds-Runs : (rounds : ℕ) → Runs rounds
    unfolding read_rounds
    rounds-Runs zero w ts e d f = tt
    rounds-Runs (suc rounds) w [] e d f = absurd (no_token f)
    rounds-Runs (suc rounds) w (t' ∷ ts) e d f =
        subst (λ x. Endless (read_rounds grants (λ n. none) hash cas (suc rounds) w [] (x ∷ ts)))
          (sym f) (next-Runs rounds (rounds-Runs rounds) _ (keys-Retries w ts e d))

    unended : (o : Option ReadEnd) → Endless o → ended_read grants (λ n. none) o ≡ none
    unfolding ended_read
    unended none h = refl
    unended (some hung) h = refl
    unended (some (refused v)) h = absurd h
    unended (some (stopped v hits val)) h = absurd h

  started-Stuck :
      (hash : Key → ℕ) (rounds : ℕ) (w : Server) (c : Token) (ts : List Token)
      → asc_validate_ntoken w (length (c ∷ ts)) ≡ some tt
      → ended_read grants
          (λ n. none)
          (read_rounds grants (λ n. none) hash (is_gets w.conn.req_type) rounds w [] ts)
        ≡ none
      → asc_process_read grants (λ n. none) hash rounds w (c ∷ ts) ≡ none
  unfolding asc_process_read ended_read
  started-Stuck hash rounds w c ts ok stuck =
      ap
        (λ o. elim o [
          | none ↦ some (asc_rsp_client_error w)
          | some u ↦
              ended_read grants (λ n. none)
                (read_rounds grants (λ n. none) hash (is_gets w.conn.req_type) rounds w [] ts)
        ])
        ok
      ∙ stuck

  -- In a ready store whose key behind the command has a live item with room for one more user,
  -- where the pool of suffixes is empty and no allocation of a suffix succeeds, asc_process_read
  -- does not end, whatever the number of rounds: it takes up the same key again, unless it stays
  -- in hotkey_sample.
  pub asc_process_read-Stuck :
      (hash : Key → ℕ) (rounds : ℕ) (w : Server) (line : List ℕ) (it : ℕ)
      → IsReady hash w.store
      → live hash w.store (text (get (tokenize line) 1)) ≡ some it
      → HasRoom w.store it
      → 1 ≤ (get (tokenize line) 1).len
      → (get (tokenize line) 1).len ≤ key_max_len
      → w.suffix_cache.freecurr ≡ 0
      → asc_validate_ntoken w (length (tokenize line)) ≡ some tt
      → asc_process_read grants (λ n. none) hash rounds w (tokenize line) ≡ none
  asc_process_read-Stuck hash rounds w line it ready hit room long short dry ok =
      runs (tokenize line) (tokenize-Again line) hit long short ok
    where
      runs :
          (ts : List Token)
          → AllAgain ts
          → live hash w.store (text (get ts 1)) ≡ some it
          → 1 ≤ (get ts 1).len
          → (get ts 1).len ≤ key_max_len
          → asc_validate_ntoken w (length ts) ≡ some tt
          → asc_process_read grants (λ n. none) hash rounds w ts ≡ none
      runs [] a hit long short ok = absurd (omega (arith, long))
      runs (c ∷ []) a hit long short ok = absurd (omega (arith, long))
      runs (c ∷ t ∷ ts) a hit long short ok =
          let some_key : (t.len == 0) ≡ false = ground (arith, long) in
          started-Stuck hash rounds w c (t ∷ ts) ok (
            unended hash (is_gets w.conn.req_type) it t a.1.0 some_key short _ (
              rounds-Runs hash (is_gets w.conn.req_type) it t a.1.0 some_key short rounds w (t ∷ ts)
                (record { ready = ready; hit = hit; room = room }) dry refl))
