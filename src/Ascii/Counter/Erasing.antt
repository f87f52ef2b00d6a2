-- ===== src/Ascii/Counter/Erasing.antt =====
-- asc_process_delete against the map from keys to items.
use twemcache.Ascii.{
  Server, on_valid, asc_validate_ntoken, asc_get_key, asc_set_noreply_maybe, asc_rsp_client_error,
  asc_rsp_deleted, asc_rsp_not_found, asc_write_string, str_client_error, str_deleted,
  str_not_found,
}
use twemcache.Ascii.Counter.{rsp_delete, delete_checked, asc_process_delete}
use twemcache.Assoc.{Key}
use twemcache.Base.{ℕ, ◌≡◌, refl, Option, none, some, List, length}
use twemcache.Items.Fetch.{live}
use twemcache.Items.Linked.{IsReady}
use twemcache.Items.Ops.{DeleteResult, item_delete}
use twemcache.Items.Ops.Storing.{Became, erased, Deleted, item_delete-Deleted}
use twemcache.Number.{Libc}
use twemcache.Store.{Env, Store}
use twemcache.Token.{Token}

-- The reply to a delete, by whether the key has a live item.
abbrev pub delete_answer : Option ℕ → List ℕ
delete_answer none = str_not_found
delete_answer (some it) = str_deleted

-- A wrong number of tokens or a key that is too long is refused; otherwise the key is taken out of
-- the map.
abbrev pub Deletes : (Key → ℕ) → Server → Option (Unit {0}) → Option Key → Server → Type 0
Deletes hash v (some u) (some key) t =
    (t.conn ≡ asc_write_string v.conn (delete_answer (live hash v.store key)))
    × Became hash (erased hash v.store key) t.store
Deletes hash v valid key t =
    (t.conn ≡ asc_write_string v.conn str_client_error) × (t.store ≡ v.store)

module _ (hash : Key → ℕ) (env : Env) (libc : Libc) (w : Server) (token : List Token)
    (r : IsReady hash w.store) where
  abbrev v : Server
  v = asc_set_noreply_maybe w token

  told-Deletes :
      (key : Key) (o : Option ℕ) (p : Store × DeleteResult)
      → Deleted hash v.store key o p
      → ((rsp_delete v p).conn ≡ asc_write_string v.conn (delete_answer o))
        × Became hash (erased hash v.store key) (rsp_delete v p).store
  unfolding rsp_delete asc_rsp_deleted asc_rsp_not_found
  told-Deletes key none (t, res) (e, b) = rw e (refl, b)
  told-Deletes key (some it) (t, res) (e, b) = rw e (refl, b)

  delete-steps :
      (o0 : Option (Unit {0})) (o1 : Option Key)
      → Deletes hash v o0 o1 (
          on_valid v o0
            λ u. on_valid v o1 λ key. rsp_delete v (item_delete hash v.cfg env v.store key))
  unfolding asc_rsp_client_error asc_set_noreply_maybe
  delete-steps none o1 = (refl, refl)
  delete-steps (some u) none = (refl, refl)
  delete-steps (some u) (some key) =
      told-Deletes key (live hash v.store key) _ (item_delete-Deleted hash v.store key r v.cfg env)

  -- In a ready store, asc_process_delete with a wrong number of tokens or a key that is too long
  -- replies CLIENT_ERROR and leaves the store as it is; otherwise the key is taken out of the map
  -- from keys to items and no other entry changes, and the reply is DELETED exactly if the key
  -- had a live item, and NOT_FOUND otherwise.
  pub asc_process_delete-Deletes :
      Deletes hash v
        (asc_validate_ntoken v (length token))
        (asc_get_key token)
        (asc_process_delete hash env libc w token)
  unfolding asc_process_delete delete_checked
  asc_process_delete-Deletes =
      delete-steps (asc_validate_ntoken v (length token)) (asc_get_key token)
