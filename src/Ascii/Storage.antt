-- ===== src/Ascii/Storage.antt =====
-- The commands of src/mc_ascii.c with a data block: asc_process_update and asc_process_annex, up to
-- the point where the block is read.
pub mod Outcome
use twemcache.Ascii.{
  Server, set_conn, set_store, on_valid, asc_validate_ntoken, asc_get_slabid, asc_get_key,
  asc_get_flags, asc_get_expiry, asc_get_vlen, asc_set_noreply_maybe, asc_rsp_server_error,
}
use twemcache.Assoc.{Key}
use twemcache.Base.{
  ℕ, ◌+◌, Bool, true, false, Option, none, some, List, [], ◌∷◌, length, ◌==◌, if◌then◌else◌,
}
use twemcache.Base.Int.{ℤ}
use twemcache.Clock
use twemcache.Conn.{Conn, conn_swallow, conn_nread, set_state}
use twemcache.Items
use twemcache.Items.{item_alloc, item_set_cas}
use twemcache.Items.Ops.{item_delete}
use twemcache.Number
use twemcache.Number.{Libc}
use twemcache.Request.{ReqType, req_cas}
use twemcache.Store.{Settings, Store, Env}
use twemcache.Token.{Token, get, from, text}

-- c->req_type == REQ_CAS
abbrev pub is_cas : ReqType → Bool
is_cas req_cas = true
is_cas type = false

-- What an update does with the item that item_alloc gave: the block is read next.
pub start_nread : Server → ℕ → Server
start_nread w it = set_conn w (record w.conn {
  item = some it;
  nread = [];
  rlbytes = (w.store.items it).nbyte + 2;
  state = conn_nread;
})

module _ (hash : Key → ℕ) (env : Env) where
  -- What an update does when item_alloc found no memory.
  pub swallow_data : Server → Key → ℕ → Server
  swallow_data w key vlen =
      set_store
        (set_conn failed (record failed.conn { write_and_go = conn_swallow; sbytes = vlen + 2 }))
        (let (s, r) = item_delete hash w.cfg env w.store key in s)
    where
      failed : Server
      failed = asc_rsp_server_error w

  -- The end of asc_process_update and of asc_process_annex, from item_alloc on: `cas` is the cas of
  -- the request, under REQ_CAS.
  pub alloc_item : Server → ℕ → Items.Request → Option ℕ → Server
  unfolding swallow_data start_nread
  alloc_item w id req cas = allocated (item_alloc hash w.cfg env w.store id req)
    where
      with_cas : Store → ℕ → Store
      with_cas s it = elim cas [ none ↦ s | some n ↦ item_set_cas s it n ]

      allocated : Store × Option ℕ → Server
      allocated (s, none) = swallow_data (set_store w s) req.key req.nbyte
      allocated (s, some it) = start_nread (set_store w (with_cas s it)) it

  module _ (libc : Libc) where
    -- The cas of the request: it is read under REQ_CAS only.
    pub get_cas : Server → List Token → Option (Option ℕ)
    get_cas w token =
        if is_cas w.conn.req_type
        then elim (Number.strtoull libc (from (get token 5).val)) [
          | none ↦ none
          | some n ↦ some (some n)
        ]
        else some none

    -- asc_process_update, behind asc_set_noreply_maybe.
    pub update_checked : Server → List Token → Server
    unfolding alloc_item get_cas
    update_checked w token = on_valid w (asc_validate_ntoken w (length token)) λ _.
        on_valid w (asc_get_key token) λ key. on_valid w (asc_get_flags libc token) λ flags.
          on_valid w (asc_get_expiry libc token) λ exptime.
            on_valid w (asc_get_vlen libc token) λ vlen.
              on_valid w (asc_get_slabid w (length key) vlen) λ id.
                on_valid w (get_cas w token) λ cas.
                  alloc_item w id
                    (record {
                      key = key;
                      dataflags = if w.hotkey_enable then 0 else flags;
                      exptime = Clock.reltime w.clock exptime;
                      nbyte = vlen;
                    })
                    cas

    pub asc_process_update : Server → List Token → Server
    unfolding update_checked
    asc_process_update w token = update_checked (asc_set_noreply_maybe w token) token

    -- asc_process_annex, behind asc_set_noreply_maybe.
    pub annex_checked : Server → List Token → Server
    unfolding alloc_item
    annex_checked w token = on_valid w (asc_validate_ntoken w (length token)) λ _.
        on_valid w (asc_get_key token) λ key. on_valid w (asc_get_vlen libc token) λ vlen.
          on_valid w (asc_get_slabid w (length key) vlen) λ id.
            alloc_item w id (record { key = key; dataflags = 0; exptime = 0; nbyte = vlen }) none

    pub asc_process_annex : Server → List Token → Server
    unfolding annex_checked
    asc_process_annex w token = annex_checked (asc_set_noreply_maybe w token) token
