-- ===== src/Core/Command.antt =====
-- The ends of a command and of a connection: core_reset_cmd_handler of src/mc_core.c and
-- conn_cleanup of src/mc_connection.c.
use twemcache.Ascii.{Server, set_conn, set_store}
use twemcache.Base.{ℕ, ◌+◌, Bool, none, some, List, [], ◌∷◌, length, ltb, leb, if◌then◌else◌}
use twemcache.Cache.{cache_free}
use twemcache.Conn.{Conn, conn_wait, conn_read, conn_parse, set_state, conn_shrink}
use twemcache.Items.{item_remove}
use twemcache.Request.{req_unknown}

-- if (c->item != NULL) { item_remove(c->item); c->item = NULL; }
pub release_item : Server → Server
release_item w = elim w.conn.item [
  | none ↦ w
  | some it ↦ set_conn (set_store w (item_remove w.store it)) (record w.conn { item = none })
]

-- The loop over icurr.
unfoldable pub release_items : Server → List ℕ → Server
release_items w [] = set_conn w (record w.conn { ilist = [] })
release_items w (it ∷ its) = release_items (set_store w (item_remove w.store it)) its

module _ (grants : ℕ → Bool) where
  -- The loop over scurr; `grants` answers the calls that make the pool larger, too.
  unfoldable pub release_suffixes : Server → List ℕ → Server
  release_suffixes w [] = set_conn w (record w.conn { slist = [] })
  release_suffixes w (s ∷ ss) = release_suffixes freed ss
    where
      full : Bool
      full = leb w.suffix_cache.freetotal w.suffix_cache.freecurr

      freed : Server
      freed = record w {
        suffix_cache =
            let (cache, gone) = cache_free (grants w.conn.reallocs) w.suffix_cache s in cache;
        conn = record w.conn { reallocs = if full then w.conn.reallocs + 1 else w.conn.reallocs };
      }

  -- core_reset_cmd_handler
  pub core_reset_cmd_handler : Server → Server
  unfolding release_item
  core_reset_cmd_handler w =
      set_conn released
        (set_state shrunk (if ltb 0 (length shrunk.unread) then conn_parse else conn_wait))
    where
      released : Server
      released = release_item (set_conn w (record w.conn { req_type = req_unknown }))

      shrunk : Conn
      shrunk = conn_shrink grants released.conn

  -- conn_cleanup
  pub conn_cleanup : Server → Server
  unfolding release_item release_items release_suffixes
  conn_cleanup w =
      if suffixes_gone.conn.udp
      then set_conn suffixes_gone (set_state suffixes_gone.conn conn_read)
      else suffixes_gone
    where
      items_gone : Server
      items_gone = release_items (release_item w) (release_item w).conn.ilist

      suffixes_gone : Server
      suffixes_gone = release_suffixes items_gone items_gone.conn.slist
