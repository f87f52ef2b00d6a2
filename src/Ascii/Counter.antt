-- ===== src/Ascii/Counter.antt =====
-- asc_process_delta and asc_process_delete of src/mc_ascii.c.
pub mod Erasing
use twemcache.Ascii.{
  Server, set_store, on_valid, asc_validate_ntoken, asc_get_key, asc_get_delta,
  asc_set_noreply_maybe, asc_rsp_int, asc_rsp_not_found, asc_rsp_client_error, asc_rsp_server_error,
  asc_rsp_deleted,
}
use twemcache.Assoc.{Key}
use twemcache.Base.{ℕ, Bool, true, false, Option, none, some, List, length}
use twemcache.Items.Ops.{
  DeltaResult, delta_ok, delta_not_found, delta_non_numeric, delta_eom, DeleteResult, delete_ok,
  delete_not_found, item_delta, item_delete,
}
use twemcache.Number.{Libc}
use twemcache.Request.{ReqType, req_incr}
use twemcache.Store.{Env, Store}
use twemcache.Token.{Token}

-- c->req_type == REQ_INCR
abbrev pub is_incr : ReqType → Bool
is_incr req_incr = true
is_incr type = false

-- The reply to a delta; the value is there where the item held a number.
pub rsp_delta : Server → Store × DeltaResult × Option ℕ → Server
rsp_delta w (s, delta_ok, none) = set_store w s
rsp_delta w (s, delta_ok, some value) = asc_rsp_int (set_store w s) value
rsp_delta w (s, delta_not_found, value) = asc_rsp_not_found (set_store w s)
rsp_delta w (s, delta_non_numeric, value) = asc_rsp_client_error (set_store w s)
rsp_delta w (s, delta_eom, value) = asc_rsp_server_error (set_store w s)

pub rsp_delete : Server → Store × DeleteResult → Server
rsp_delete w (s, delete_ok) = asc_rsp_deleted (set_store w s)
rsp_delete w (s, delete_not_found) = asc_rsp_not_found (set_store w s)

module _ (hash : Key → ℕ) (env : Env) (libc : Libc) where
  pub delta_checked : Server → List Token → Server
  unfolding rsp_delta
  delta_checked w token = on_valid w (asc_validate_ntoken w (length token)) λ _.
      on_valid w (asc_get_key token) λ key.
        on_valid w (asc_get_delta libc token) λ delta.
          rsp_delta w (item_delta hash w.cfg env w.store key (is_incr w.conn.req_type) delta)

  pub asc_process_delta : Server → List Token → Server
  unfolding delta_checked
  asc_process_delta w token = delta_checked (asc_set_noreply_maybe w token) token

  pub delete_checked : Server → List Token → Server
  unfolding rsp_delete
  delete_checked w token = on_valid w (asc_validate_ntoken w (length token)) λ _.
      on_valid w (asc_get_key token) λ key. rsp_delete w (item_delete hash w.cfg env w.store key)

  pub asc_process_delete : Server → List Token → Server
  unfolding delete_checked
  asc_process_delete w token = delete_checked (asc_set_noreply_maybe w token) token
