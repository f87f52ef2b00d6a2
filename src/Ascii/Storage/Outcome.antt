-- ===== src/Ascii/Storage/Outcome.antt =====
-- What asc_process_update and asc_process_annex come to.
use twemcache.Ascii.{
  Server, set_store, asc_get_slabid, asc_set_noreply_maybe, asc_rsp_server_error, asc_write_string,
  str_client_error,
}
use twemcache.Ascii.Storage.{start_nread, swallow_data, alloc_item, get_cas}
use twemcache.Assoc.{Key}
use twemcache.Base.{
  ℕ, ◌+◌, ◌≡◌, refl, true, false, Option, none, some, List, [], length, if◌then◌else◌, arith,
}
use twemcache.Base.Int.{ℤ}
use twemcache.Clock
use twemcache.Conn.{conn_swallow, conn_nread, conn_new_cmd, conn_write}
use twemcache.Items
use twemcache.Items.Ops.{item_delete}
use twemcache.Items.{item_alloc, item_set_cas}
use twemcache.Items.Given.{Given, item_alloc-Given, set_cas-Given, set_cas-cas}
use twemcache.Number.{Libc}
use twemcache.Store.{Store, Env}
use twemcache.Token.{Token}

-- The command is refused: nothing is stored, and the client is told.
pub record IsRejected (v t : Server) : Type 0 where
  pub store : t.store ≡ v.store
  pub conn : t.conn ≡ asc_write_string v.conn str_client_error

-- The item at `it` carries what was asked for, and waits for its block, of two bytes more.
pub record IsAwaiting (req : Items.Request) (cas : Option ℕ) (it : ℕ) (v t : Server) : Type 0 where
  pub conn :
      t.conn
      ≡ record v.conn { item = some it; nread = []; rlbytes = req.nbyte + 2; state = conn_nread }
  pub given : Given req (t.store, some it)
  pub cas_set :
      (n : ℕ) → cas ≡ some n → (t.store.items it).has_cas ≡ true → (t.store.items it).cas ≡ n

-- No memory: the key is deleted from `s`, the client is told, and the block is swallowed; under
-- noreply it is not.
pub record IsOutOfMemory (hash : Key → ℕ) (env : Env) (req : Items.Request) (s : Store)
    (v t : Server) : Type 0 where
  pub store : t.store ≡ (item_delete hash v.cfg env s req.key).0
  pub loud :
      v.conn.noreply ≡ false
      → (t.conn.state ≡ conn_write)
        × (t.conn.write_and_go ≡ conn_swallow)
        × (t.conn.sbytes ≡ req.nbyte + 2)
  pub quiet : v.conn.noreply ≡ true → t.conn.state ≡ conn_new_cmd

module _ (hash : Key → ℕ) (env : Env) where
  -- What the end of the command comes to, by what item_alloc gives.
  abbrev pub Allocated : Items.Request → Option ℕ → Server → Store × Option ℕ → Server → Type 0
  Allocated req cas v (s, some it) t = IsAwaiting req cas it v t
  Allocated req cas v (s, none) t = IsOutOfMemory hash env req s v t

  swallow-IsOutOfMemory :
      (v : Server) (req : Items.Request) (s : Store)
      → IsOutOfMemory hash env req s v (swallow_data hash env (set_store v s) req.key req.nbyte)
  unfolding swallow_data asc_rsp_server_error asc_write_string
  swallow-IsOutOfMemory v req s = record {
    store = refl;
    loud = λ q. ground (arith, q);
    quiet = λ q. ground (arith, q);
  }

  start-IsAwaiting :
      (v : Server) (req : Items.Request) (cas : Option ℕ) (s : Store) (it : ℕ)
      → Given req (s, some it)
      → ((n : ℕ) → cas ≡ some n → (s.items it).has_cas ≡ true → (s.items it).cas ≡ n)
      → IsAwaiting req cas it v (start_nread (set_store v s) it)
  unfolding start_nread
  start-IsAwaiting v req cas s it (k, b, d, x, l) c = record {
    conn = rw b refl;
    given = (k, b, d, x, l);
    cas_set = c;
  }

  awaiting :
      (v : Server) (req : Items.Request) (cas : Option ℕ) (s : Store) (it : ℕ)
      → Given req (s, some it)
      → IsAwaiting req cas it v
          (start_nread (set_store v (elim cas [ none ↦ s | some n ↦ item_set_cas s it n ])) it)
  awaiting v req none s it g = start-IsAwaiting v req none s it g (λ n e h. absurd cc)
  awaiting v req (some m) s it g =
      start-IsAwaiting v req (some m) (item_set_cas s it m) it (set_cas-Given s it m req g)
        (λ n e h. let c = set_cas-cas s it m h in ground (arith, c, e))

  pub alloc-Allocated :
      (v : Server) (id : ℕ) (req : Items.Request) (cas : Option ℕ)
      → Allocated req cas v
          (item_alloc hash v.cfg env v.store id req)
          (alloc_item hash env v id req cas)
  unfolding alloc_item
  alloc-Allocated v id req cas =
      allocated (item_alloc hash v.cfg env v.store id req)
        (item_alloc-Given hash v.cfg env req v.store id)
    where
      allocated :
          (r : Store × Option ℕ)
          → Given req r
          → Allocated req cas v r (elim r.1 [
            | none ↦ swallow_data hash env (set_store v r.0) req.key req.nbyte
            | some it ↦
                start_nread
                  (set_store v (elim cas [ none ↦ r.0 | some n ↦ item_set_cas r.0 it n ]))
                  it
          ])
      allocated (s, none) g = swallow-IsOutOfMemory v req s
      allocated (s, some it) g = awaiting v req cas s it g

module _ (hash : Key → ℕ) (env : Env) where
  -- What a request comes to, by its slab class and its cas.
  abbrev pub Classed : Items.Request → Server → Option ℕ → Option (Option ℕ) → Server → Type 0
  Classed req v none cas t = IsRejected v t
  Classed req v (some id) none t = IsRejected v t
  Classed req v (some id) (some cas) t =
      Allocated hash env req cas v (item_alloc hash v.cfg env v.store id req) t

  module _ (libc : Libc) (token : List Token) where
    -- What an update comes to, by the number of its tokens, its key, flags, expiry and length.
    abbrev pub Outcome :
        Server → Option (Unit {0}) → Option Key → Option ℕ → Option ℤ → Option ℕ → Server → Type 0
    Outcome v none o1 o2 o3 o4 t = IsRejected v t
    Outcome v (some u) none o2 o3 o4 t = IsRejected v t
    Outcome v (some u) (some key) none o3 o4 t = IsRejected v t
    Outcome v (some u) (some key) (some flags) none o4 t = IsRejected v t
    Outcome v (some u) (some key) (some flags) (some exptime) none t = IsRejected v t
    Outcome v (some u) (some key) (some flags) (some exptime) (some vlen) t =
        Classed
          (record {
            key = key;
            dataflags = if v.hotkey_enable then 0 else flags;
            exptime = Clock.reltime v.clock exptime;
            nbyte = vlen;
          })
          v (asc_get_slabid v (length key) vlen) (get_cas hash env libc v token) t

module _ (hash : Key → ℕ) (env : Env) (libc : Libc) (w : Server) (token : List Token) where
  abbrev v : Server
  v = asc_set_noreply_maybe w token
