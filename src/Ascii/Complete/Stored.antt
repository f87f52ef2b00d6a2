-- ===== src/Ascii/Complete/Stored.antt =====
-- asc_complete_nread for set, add, replace and cas, against the map from keys to items: what the
-- client is told, and what the map becomes.
use twemcache.Ascii.{
  Server, set_store, asc_write_string, str_client_error, str_stored, str_exists, str_not_found,
  str_not_stored, asc_rsp_stored, asc_rsp_exists, asc_rsp_not_found, asc_rsp_not_stored,
  asc_rsp_client_error,
}
use twemcache.Ascii.Complete.{
  rsp_cas, rsp_add, rsp_replace, strcrlf, complete, data_copied, nread_done, asc_complete_nread,
}
use twemcache.Assoc.{Key}
use twemcache.Base.{
  drop, ℕ, ◌+◌, ◌^◌, ◌<◌, ◌≡◌, refl, ap, inl, inr, Bool, true, false, Option, none, some, List,
  ◌==◌, if◌then◌else◌, arith,
}
use twemcache.Conn.{Conn, take}
use twemcache.Items.{item_get_cas, set_value}
use twemcache.Items.Fetch.{live}
use twemcache.Items.Index.{index, key_of-set}
use twemcache.Items.Linked.{IsReady, IsReady-same}
use twemcache.Items.Ops.{CasResult, AddResult, ReplaceResult}
use twemcache.Items.Ops.Storing.{
  Became, entered, erased, remove-Became, Added, Replaced, Swapped, item_set-Became, item_add-Added,
  item_replace-Replaced, item_cas-Swapped,
}
use twemcache.Request.{ReqType, req_set, req_add, req_replace, req_cas}
use twemcache.Store.{Env, Store, key_of}

-- The commands that store a whole value.
pub data Verb : Type 0 where
  set add replace cas : Verb

abbrev pub req_of : Verb → ReqType
req_of set = req_set
req_of add = req_add
req_of replace = req_replace
req_of cas = req_cas

-- Whether a command stores, from the live item of its key and the cas test with it.
abbrev pub stores : Verb → Option ℕ → (ℕ → Bool) → Bool
stores set o same = true
stores add none same = true
stores add (some oit) same = false
stores replace none same = false
stores replace (some oit) same = true
stores cas none same = false
stores cas (some oit) same = same oit

-- The reply of a command that does not store.
abbrev pub refusal : Verb → Option ℕ → List ℕ
refusal cas none = str_not_found
refusal cas (some oit) = str_exists
refusal verb o = str_not_stored

abbrev pub answer : Verb → Option ℕ → (ℕ → Bool) → List ℕ
answer verb o same = if stores verb o same then str_stored else refusal verb o

abbrev pub no_item : Conn → Conn
no_item c = record c { item = none }

module _ (hash : Key → ℕ) where
  -- The map behind a command that does not store: a stale item is dropped by the lookup.
  abbrev pub kept_map : Store → ℕ → Option ℕ → Key → Option ℕ
  kept_map s it none = erased hash s (key_of s it)
  kept_map s it (some oit) = index hash s

  abbrev pub next_map : Verb → Store → ℕ → Option ℕ → (ℕ → Bool) → Key → Option ℕ
  next_map verb s it o same = if stores verb o same then entered hash s it else kept_map s it o

  -- The reply was made to `c`, and the map became `f`.
  abbrev pub Committed : Conn → List ℕ → (Key → Option ℕ) → Server → Type 0
  Committed c str f t = (t.conn ≡ asc_write_string c str) × Became hash f t.store

  abbrev same_cas : Store → ℕ → ℕ → Bool
  same_cas s it oit = item_get_cas s it == item_get_cas s oit

  module _ (w : Server) (s : Store) (it : ℕ) where
    add-Committed :
        (o : Option ℕ) (r : Store × AddResult)
        → Added hash s it o r
        → Committed w.conn
            (answer add o (same_cas s it))
            (next_map add s it o (same_cas s it))
            (rsp_add w r)
    unfolding rsp_add asc_rsp_stored asc_rsp_not_stored
    add-Committed none (t, res) (e, b) = rw e (refl, b)
    add-Committed (some oit) (t, res) (e, b) = rw e (refl, b)

    replace-Committed :
        (o : Option ℕ) (r : Store × ReplaceResult)
        → Replaced hash s it o r
        → Committed w.conn
            (answer replace o (same_cas s it))
            (next_map replace s it o (same_cas s it))
            (rsp_replace w r)
    unfolding rsp_replace asc_rsp_stored asc_rsp_not_stored
    replace-Committed none (t, res) (e, b) = rw e (refl, b)
    replace-Committed (some oit) (t, res) (e, b) = rw e (refl, b)

    cas-Committed :
        (o : Option ℕ) (r : Store × CasResult)
        → Swapped hash s it o r
        → Committed w.conn
            (answer cas o (same_cas s it))
            (next_map cas s it o (same_cas s it))
            (rsp_cas w r)
    unfolding rsp_cas asc_rsp_stored asc_rsp_exists asc_rsp_not_found
    cas-Committed none (t, res) (e, b) = rw e (refl, b)
    cas-Committed (some oit) (t, res) (inl (c, e, b)) =
        let q : same_cas s it oit ≡ true = ground (arith, c) in rw (e, q) (refl, b)
    cas-Committed (some oit) (t, res) (inr (c, e, b)) =
        let q : same_cas s it oit ≡ false = ground (arith, c) in rw (e, q) (refl, b)

module _ (hash : Key → ℕ) (env : Env) (w : Server) (it : ℕ) where
  -- The store with the block copied.
  abbrev copied : Store
  copied = set_value w.store it (take (w.store.items it).nbyte w.conn.nread)

  copied-IsReady : IsReady hash w.store → IsReady hash copied
  copied-IsReady r =
      IsReady-same hash w.store copied
        (record { keys = key_of-set w.store it _ refl; table = refl }) (λ q. ground arith) r

  -- What the client gets, and what the map becomes.
  abbrev pub told : Bool → Verb → List ℕ
  told good verb =
      if good
      then answer verb (live hash copied (key_of copied it)) (same_cas hash copied it)
      else str_client_error

  abbrev pub mapped : Bool → Verb → Key → Option ℕ
  mapped good verb =
      if good
      then next_map hash verb copied it (live hash copied (key_of copied it))
          (same_cas hash copied it)
      else index hash copied

  module _ (r : IsReady hash w.store) (fits : 2 ^ (w.store.assoc.hash_power + 1) < 2 ^ 32) where
    complete-Committed :
        (verb : Verb)
        → Committed hash w.conn
            (told true verb)
            (mapped true verb)
            (complete hash env (set_store w copied) it (req_of verb))
    unfolding complete asc_rsp_stored
    complete-Committed set =
        (refl, item_set-Became hash w.cfg env copied it (copied-IsReady r) fits)
    complete-Committed add =
        add-Committed hash w copied it _ _
          (item_add-Added hash w.cfg env copied it (copied-IsReady r) fits)
    complete-Committed replace =
        replace-Committed hash w copied it _ _
          (item_replace-Replaced hash w.cfg env copied it (copied-IsReady r) fits)
    complete-Committed cas =
        cas-Committed hash w copied it _ _
          (item_cas-Swapped hash w.cfg env copied it (copied-IsReady r) fits)

    nread-steps :
        w.conn.item ≡ some it
        → asc_complete_nread hash env w
          ≡ nread_done
              (if strcrlf (drop (w.store.items it).nbyte w.conn.nread)
                then complete hash env (data_copied w it) it w.conn.req_type
                else asc_rsp_client_error (data_copied w it))
              it
    unfolding asc_complete_nread
    nread-steps i =
        ap
          (λ o. elim o [
            | none ↦ w
            | some p ↦
                nread_done
                  (if strcrlf (drop (w.store.items p).nbyte w.conn.nread)
                    then complete hash env (data_copied w p) p w.conn.req_type
                    else asc_rsp_client_error (data_copied w p))
                  p
          ])
          i

    done-Committed :
        (str : List ℕ) (f : Key → Option ℕ) (v : Server)
        → Committed hash w.conn str f v
        → ((nread_done v it).conn ≡ no_item (asc_write_string w.conn str))
          × Became hash f (nread_done v it).store
    unfolding nread_done
    done-Committed str f v (c, b) = (ap no_item c, remove-Became hash f v.store it b)

    copied-Became : Became hash (index hash copied) copied
    copied-Became = record { ready = copied-IsReady r; indexes = λ j. refl }

    -- In a ready store whose next table size fits in 32 bits, once the block of a set, add,
    -- replace or cas is read, asc_complete_nread replies to the client and releases the item:
    -- without a CRLF behind the value it replies CLIENT_ERROR and the map from keys to items
    -- stays; with one, set stores, add stores exactly if the key has no live item, replace if it
    -- has one, and cas if it has one with the same cas id, the reply is STORED exactly if it
    -- stored, and otherwise NOT_STORED, or for cas EXISTS or NOT_FOUND, and the map gets the item
    -- under its key exactly if it stored.
    pub asc_complete_nread-Committed :
        (verb : Verb) (good : Bool)
        → w.conn.item ≡ some it
        → w.conn.req_type ≡ req_of verb
        → strcrlf (drop (w.store.items it).nbyte w.conn.nread) ≡ good
        → ((asc_complete_nread hash env w).conn
            ≡ no_item (asc_write_string w.conn (told good verb)))
          × Became hash (mapped good verb) (asc_complete_nread hash env w).store
    unfolding data_copied asc_rsp_client_error
    asc_complete_nread-Committed verb false i q e =
        rw (nread-steps i, e)
          (done-Committed str_client_error (index hash copied) _ (refl, copied-Became))
    asc_complete_nread-Committed verb true i q e =
        rw (nread-steps i, e, ap (λ t. complete hash env (set_store w copied) it t) q)
          (done-Committed (told true verb) (mapped true verb) _ (complete-Committed verb))
