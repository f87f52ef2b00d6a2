-- ===== src/Ascii/Read.antt =====
-- asc_process_read of src/mc_ascii.c, the command get and gets, with asc_create_suffix and
-- asc_respond_get.
--
-- A suffix is the address of its buffer; the bytes that are printed into it go to the iovec at once.
-- The public item_get is get_sampled: it samples the key of a hit where settings.hotkey_enable is on.
-- `grants` and `buffers` answer the calls of the allocator that a connection makes, in turn.
pub mod Hits
pub mod Served
pub mod Keys
pub mod Replied
pub mod Stuck
mod Tests
use twemcache.Ascii.{
  Server, set_conn, set_store, crlf, on_valid, asc_validate_ntoken, asc_rsp_client_error,
  asc_rsp_server_error, key_max_len,
}
use twemcache.Assoc.{Key}
use twemcache.Base.{
  ◌/◌, ℕ, zero, suc, ◌+◌, ◌*◌, Bool, true, false, ◌&&◌, Option, none, some, List, [], ◌∷◌, ◌++◌,
  length, ltb, leb, ◌==◌, if◌then◌else◌, map,
}
use twemcache.Cache.{Cache, cache_alloc, cache_free}
use twemcache.Conn.{Conn, conn_mwrite, realloc, on_ok, conn_add_iov, conn_build_udp_headers}
use twemcache.Hotkey.{HotFlags, cold, hot_qps, hot_bw, hotkey_sample}
use twemcache.Items.{set_dataflags, item_get, item_get_cas, item_remove, item_touch}
use twemcache.Request.{ReqType, req_gets}
use twemcache.Store.{Store, set_item, on_null}
use twemcache.Token.{Token, tokenize, text}
use twemcache.Util.{print_uint64}

abbrev pub is_gets : ReqType → Bool
is_gets req_gets = true
is_gets type = false

abbrev pub str_value : List ℕ
str_value = b'V' ∷ b'A' ∷ b'L' ∷ b'U' ∷ b'E' ∷ b' ' ∷ []

abbrev pub str_end : List ℕ
str_end = b'E' ∷ b'N' ∷ b'D' ∷ b'\r' ∷ b'\n' ∷ []

-- What is printed into the suffix of a hit.
pub suffix_of : Bool → Store → ℕ → List ℕ
suffix_of return_cas s it =
    (b' ' ∷ print_uint64 (s.items it).dataflags)
    ++ ((b' ' ∷ print_uint64 (s.items it).nbyte)
        ++ (if return_cas then b' ' ∷ print_uint64 (item_get_cas s it) else []))

-- A hit: the item, and its suffix.
pub record Hit : Type 0 where
  pub it : ℕ
  pub suffix : ℕ

-- Where the inner loop of asc_process_read stops: it has returned, or key_token is at `val`, or
-- hotkey_sample does not end.
pub data ReadEnd : Type 0 where
  hung : ReadEnd
  refused : Server → ReadEnd
  stopped : Server → List Hit → Option (List ℕ) → ReadEnd

-- What a call has found: NULL, or its address.
abbrev pub on_suffix {ℓ} : {R : Type ℓ} → Server × Option ℕ → (Server → R) → (Server → ℕ → R) → R
on_suffix (w, none) failed ok = failed w
on_suffix (w, some suffix) failed ok = ok w suffix

-- The control flags of an item, without the hot ones and with the new one.
abbrev pub with_signal : ℕ → HotFlags → ℕ
with_signal dataflags cold = dataflags / 4 * 4
with_signal dataflags hot_qps = dataflags / 4 * 4 + 1
with_signal dataflags hot_bw = dataflags / 4 * 4 + 2

-- The key of a hit is sampled, and its item carries the signal; `none` where hotkey_sample does not
-- end.
pub sampled : (Key → ℕ) → Server → ℕ → Key → Option (Server × Option ℕ)
sampled hash w it key =
    elim (hotkey_sample hash w.hotkey key (w.store.items it).nbyte w.clock.now w.clock.now_usec) [
      | none ↦ none
      | some r ↦ some (
        record w {
          hotkey = r.0;
          store = set_dataflags w.store it (with_signal (w.store.items it).dataflags r.1);
        },
        some it,
      )
    ]

-- item_get, around _item_get.
pub get_sampled : (Key → ℕ) → Server → Key → Option (Server × Option ℕ)
unfolding sampled
get_sampled hash w key =
    on_null (item_get hash w.store key) (λ s. some (set_store w s, none))
      (λ s it.
        if w.hotkey_enable
        then sampled hash (set_store w s) it key
        else some (set_store w s, some it))

-- Calls of conn_add_iov, up to the first that fails.
pub add_iovs : (ℕ → Bool) → Conn → List (List ℕ) → Conn × Bool
add_iovs grants c [] = (c, true)
add_iovs grants c (bytes ∷ more) =
    on_ok (conn_add_iov grants c bytes) (λ c'. (c', false)) (λ c'. add_iovs grants c' more)

module _ (grants : ℕ → Bool) (buffers : ℕ → Option ℕ) where
  -- cache_alloc, where a call of the allocator is the next one of the connection.
  pub alloc_suffix : Server → Server × Option ℕ
  alloc_suffix w = taken (cache_alloc (buffers w.conn.reallocs) w.suffix_cache)
    where
      taken : Cache × Option ℕ × Bool → Server × Option ℕ
      taken (cache, suffix, called) = (
        record w {
          suffix_cache = cache;
          conn = record w.conn {
            reallocs = if called then w.conn.reallocs + 1 else w.conn.reallocs;
          };
        },
        suffix,
      )

  -- The suffix of a hit, taken from the pool of the thread.
  pub suffix_taken : Server → Server × Option ℕ
  unfolding alloc_suffix
  suffix_taken w =
      on_suffix (alloc_suffix w) (λ v. (asc_rsp_server_error v, none))
        (λ v suffix. (v, some suffix))

  pub asc_create_suffix : Server → ℕ → Server × Option ℕ
  unfolding suffix_taken
  asc_create_suffix w valid_key_iter =
      if leb w.conn.ssize valid_key_iter
      then on_ok (realloc grants w.conn) (λ c. (set_conn w c, none))
          (λ c. suffix_taken (set_conn w (record c { ssize = c.ssize * 2 })))
      else suffix_taken w

  pub asc_destroy_suffix : Server → ℕ → Server
  asc_destroy_suffix w suffix = record w {
    suffix_cache =
        let (cache, gone) = cache_free (grants w.conn.reallocs) w.suffix_cache suffix in cache;
    conn = record w.conn {
      reallocs =
          if ltb w.suffix_cache.freecurr w.suffix_cache.freetotal
          then w.conn.reallocs
          else w.conn.reallocs + 1;
    };
  }

  -- What asc_respond_get adds behind the key; the suffix on success.
  pub add_value : Server → ℕ → ℕ → Bool → Server × Option ℕ
  unfolding add_iovs asc_destroy_suffix
  add_value w suffix it return_cas =
      on_ok
        (add_iovs grants w.conn
          (suffix_of return_cas w.store it ∷ crlf ∷ (w.store.items it).value ∷ crlf ∷ []))
        (λ c. (asc_destroy_suffix (set_conn w c) suffix, none)) (λ c. (set_conn w c, some suffix))

  pub asc_respond_get : Server → ℕ → ℕ → Bool → Server × Option ℕ
  unfolding add_iovs asc_create_suffix add_value
  asc_respond_get w valid_key_iter it return_cas =
      on_ok (add_iovs grants w.conn (str_value ∷ (w.store.items it).key ∷ []))
        (λ c. (set_conn w c, none))
        (λ c.
          on_suffix (asc_create_suffix (set_conn w c) valid_key_iter) (λ v. (v, none))
            (λ v suffix. add_value v suffix it return_cas))

  -- Room in ilist for one more item.
  pub ilist_room : Server → ℕ → Conn × Bool
  ilist_room w valid_key_iter =
      if leb w.conn.isize valid_key_iter
      then on_ok (realloc grants w.conn) (λ c. (c, false))
          (λ c. (record c { isize = c.isize * 2 }, true))
      else (w.conn, true)

  -- A found item: the reply to it, and the hits with it; or, without memory, no hit more.
  pub add_hit : Server → List Hit → ℕ → Bool → Server × Option (List Hit)
  unfolding ilist_room asc_respond_get
  add_hit w hits it return_cas =
      on_ok (ilist_room w (length hits))
        (λ c. (set_store (set_conn w c) (item_remove w.store it), none))
        (λ c.
          on_suffix (asc_respond_get (set_conn w c) (length hits) it return_cas)
            (λ v. (set_store (asc_rsp_server_error v) (item_remove v.store it), none))
            (λ v suffix. (
              set_store v (item_touch v.cfg v.store it),
              some (hits ++ record { it = it; suffix = suffix } ∷ []),
            )))

  module _ (hash : Key → ℕ) (return_cas : Bool) where
    -- The inner loop, over the tokens from key_token on.
    pub read_keys : Server → List Hit → List Token → ReadEnd
    unfolding add_hit get_sampled
    read_keys w hits [] = stopped w hits none
    read_keys w hits (t ∷ ts) = elim (t.len == 0) [
      | true ↦ stopped w hits t.val
      | false ↦ elim (ltb key_max_len t.len) [
        | true ↦ refused (asc_rsp_client_error w)
        | false ↦ elim (get_sampled hash w (text t)) [
          | none ↦ hung
          | some r ↦
              on_suffix r (λ u. read_keys u hits ts)
                (λ u it.
                  let (v, more) = add_hit u hits it return_cas in
                  elim more [ none ↦ stopped v hits t.val | some hits' ↦ read_keys v hits' ts ])
        ]
      ]
    ]

    -- The outer loop; `none` while it still runs after so many rounds.
    pub read_rounds : ℕ → Server → List Hit → List Token → Option ReadEnd
    unfolding read_keys
    read_rounds zero w hits token = none
    read_rounds (suc rounds) w hits token = elim (read_keys w hits token) [
      | hung ↦ some hung
      | refused v ↦ some (refused v)
      | stopped v hits' none ↦ some (stopped v hits' none)
      | stopped v hits' (some rest) ↦ read_rounds rounds v hits' (tokenize rest)
    ]

  -- The end of asc_process_read. Behind the loops key_token->val is NULL.
  pub finish_read : Server → List Hit → Server
  finish_read w hits =
      on_ok (conn_add_iov grants listed str_end) (λ c. asc_rsp_server_error (set_conn w c))
        (λ c.
          on_ok (if c.udp then conn_build_udp_headers grants c else (c, true))
            (λ c'. asc_rsp_server_error (set_conn w c'))
            (λ c'. set_conn w (record c' { state = conn_mwrite; msg_curr = 0 })))
    where
      listed : Conn
      listed = record w.conn {
        ilist = map (λ (h : Hit). h.it) hits;
        slist = map (λ (h : Hit). h.suffix) hits;
      }

  pub ended_read : Option ReadEnd → Option Server
  unfolding finish_read
  ended_read none = none
  ended_read (some hung) = none
  ended_read (some (refused w)) = some w
  ended_read (some (stopped w hits val)) = some (finish_read w hits)

  -- asc_process_read; `none` while it still runs after so many rounds, or in hotkey_sample.
  pub asc_process_read : (Key → ℕ) → ℕ → Server → List Token → Option Server
  unfolding read_rounds ended_read
  asc_process_read hash rounds w token = elim (asc_validate_ntoken w (length token)) [
    | none ↦ some (asc_rsp_client_error w)
    | some u ↦
        ended_read (read_rounds hash (is_gets w.conn.req_type) rounds w [] (behind_command token))
  ]
    where
      behind_command : List Token → List Token
      behind_command [] = []
      behind_command (t ∷ ts) = ts
