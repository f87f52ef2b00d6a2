-- ===== src/Ascii/Complete.antt =====
-- asc_complete_nread of src/mc_ascii.c, and the asc_complete_* that it calls: what a command does
-- once its data block is read.
pub mod Stored
use twemcache.Ascii.{
  Server, set_conn, set_store, crlf, asc_rsp_stored, asc_rsp_exists, asc_rsp_not_found,
  asc_rsp_not_stored, asc_rsp_client_error, asc_rsp_server_error, asc_rsp_int,
}
use twemcache.Assoc.{Key}
use twemcache.Base.{
  drop, ℕ, zero, suc, Bool, true, false, ◌&&◌, Option, none, some, List, [], ◌∷◌, ◌==◌,
  if◌then◌else◌,
}
use twemcache.Conn.{Conn, take}
use twemcache.Items.{item_remove, set_value}
use twemcache.Items.Ops.{
  CasResult, cas_ok, cas_exists, cas_not_found, AddResult, add_ok, add_exists, ReplaceResult,
  replace_ok, replace_not_found, AnnexResult, annex_ok, annex_not_found, annex_oversized, annex_eom,
  AnnexOut, item_set, item_cas, item_add, item_replace, item_annex,
}
use twemcache.Request.{
  ReqType, req_set, req_cas, req_add, req_replace, req_append, req_prepend, req_appendrl,
  req_prependrl,
}
use twemcache.Store.{Env, Store}

pub rsp_cas : Server → Store × CasResult → Server
rsp_cas w (s, cas_ok) = asc_rsp_stored (set_store w s)
rsp_cas w (s, cas_exists) = asc_rsp_exists (set_store w s)
rsp_cas w (s, cas_not_found) = asc_rsp_not_found (set_store w s)

pub rsp_add : Server → Store × AddResult → Server
rsp_add w (s, add_ok) = asc_rsp_stored (set_store w s)
rsp_add w (s, add_exists) = asc_rsp_not_stored (set_store w s)

pub rsp_replace : Server → Store × ReplaceResult → Server
rsp_replace w (s, replace_ok) = asc_rsp_stored (set_store w s)
rsp_replace w (s, replace_not_found) = asc_rsp_not_stored (set_store w s)

-- `rl` says that the client wants the new length.
pub rsp_annex_ok : Server → Bool → Option ℕ → Server
rsp_annex_ok w false nbyte = asc_rsp_stored w
rsp_annex_ok w true none = w
rsp_annex_ok w true (some n) = asc_rsp_int w n

pub rsp_annex : Server → Bool → Store × AnnexOut → Server
unfolding rsp_annex_ok
rsp_annex w rl (s, out) = elim out.result [
  | annex_ok ↦ rsp_annex_ok (set_store w s) rl out.nbyte
  | annex_not_found ↦ asc_rsp_not_stored (set_store w s)
  | annex_oversized ↦ asc_rsp_client_error (set_store w s)
  | annex_eom ↦ asc_rsp_server_error (set_store w s)
]

-- strcrlf
unfoldable pub strcrlf : List ℕ → Bool
strcrlf [] = false
strcrlf (c ∷ []) = false
strcrlf (c ∷ d ∷ rest) = (c == b'\r') && (d == b'\n')

-- The block has been copied to the item: its bytes are the value and the CRLF.
pub data_copied : Server → ℕ → Server
data_copied w it = set_store w (set_value w.store it (take (w.store.items it).nbyte w.conn.nread))

pub nread_done : Server → ℕ → Server
nread_done w it = set_conn (set_store w (item_remove w.store it)) (record w.conn { item = none })

module _ (hash : Key → ℕ) (env : Env) where
  -- The switch of asc_complete_nread on c->req_type.
  pub complete : Server → ℕ → ReqType → Server
  unfolding rsp_cas rsp_add rsp_replace rsp_annex
  complete w it req_set = asc_rsp_stored (set_store w (item_set hash w.cfg env w.store it))
  complete w it req_cas = rsp_cas w (item_cas hash w.cfg env w.store it)
  complete w it req_add = rsp_add w (item_add hash w.cfg env w.store it)
  complete w it req_replace = rsp_replace w (item_replace hash w.cfg env w.store it)
  complete w it req_append = rsp_annex w false (item_annex hash w.cfg env w.store it true)
  complete w it req_prepend = rsp_annex w false (item_annex hash w.cfg env w.store it false)
  complete w it req_appendrl = rsp_annex w true (item_annex hash w.cfg env w.store it true)
  complete w it req_prependrl = rsp_annex w true (item_annex hash w.cfg env w.store it false)
  complete w it type = w

  pub asc_complete_nread : Server → Server
  unfolding complete data_copied nread_done strcrlf
  asc_complete_nread w = elim w.conn.item [
    | none ↦ w
    | some it ↦
        nread_done
          (if strcrlf (drop (w.store.items it).nbyte w.conn.nread)
            then complete (data_copied w it) it w.conn.req_type
            else asc_rsp_client_error (data_copied w it))
          it
  ]
