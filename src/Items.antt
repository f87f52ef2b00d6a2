-- ===== src/Items.antt =====
-- src/mc_items.c and src/mc_items.h: items, over the shared memory of `Store`. Each public function
-- but item_get only takes cache_lock around its static twin, so one definition stands for both;
-- item_get stands for _item_get. `c->item` and what is
-- read of `c->req_type` are arguments.
pub mod Index
pub mod Linked
pub mod Lruq
pub mod Fetch
pub mod Refs
pub mod Given
pub mod Flags
pub mod Ops
use twemcache.Base.{
  ℕ, zero, suc, ◌+◌, ◌-◌, ◌*◌, ◌/◌, ◌%◌, ◌^◌, Bool, true, false, not, ◌&&◌, ◌||◌, Option, none,
  some, List, [], ◌∷◌, ◌++◌, ltb, leb, ◌==◌, if◌then◌else◌, update, length,
}
use twemcache.Assoc
use twemcache.Assoc.{Key}
use twemcache.Store.{
  Item, Slab, SlabClass, Settings, Env, Store, set_item, set_slab, set_class, item_hdr_size, key_of,
  tailq_remove, time_sub, on_null,
}
use twemcache.Link.{
  item_2_slab, item_expired, item_acquire_refcount, item_release_refcount, item_link_q,
  item_unlink_q, item_reuse, clear_linked, assoc_delete,
}
use twemcache.Slabs.{slab_get_item, slab_put_item}
use twemcache.SlabClass.{slab_id, invalid_id}
use twemcache.Util.{strtoull_len, print_uint64}

-- item_next_cas, with `++cas_id` on a uint64_t.
pub item_next_cas : Settings → Store → Store × ℕ
item_next_cas cfg s = if cfg.use_cas then (record s { cas_id = next }, next) else (s, 0)
  where
    next : ℕ
    next = (s.cas_id + 1) % 2 ^ 64

pub item_set_cas : Store → ℕ → ℕ → Store
item_set_cas s it cas =
    if (s.items it).has_cas then set_item s it (record (s.items it) { cas = cas }) else s

pub item_get_cas : Store → ℕ → ℕ
item_get_cas s it = if (s.items it).has_cas then (s.items it).cas else 0

-- item_set_cas(it, item_next_cas())
pub item_fresh_cas : Settings → Store → ℕ → Store
unfolding item_next_cas item_set_cas
item_fresh_cas cfg s it = let (s', cas) = item_next_cas cfg s in item_set_cas s' it cas

-- The bytes that an item takes.
pub item_ntotal : ℕ → ℕ → Bool → ℕ
item_ntotal nkey nbyte use_cas = (if use_cas then 8 else 0) + (item_hdr_size + nkey + 1 + nbyte + 2)

pub item_slabid : Settings → Store → ℕ → ℕ → ℕ
unfolding item_ntotal
item_slabid cfg s nkey nbyte =
    slab_id (λ id. (s.slabclass id).size) cfg.profile_last_id (item_ntotal nkey nbyte cfg.use_cas)

-- item_data: the address of the payload.
pub item_data : Store → ℕ → ℕ
item_data s it =
    if raligned
    then it + (s.slabclass id).size - nbyte
    else it + item_hdr_size + length key + 1 + (if has_cas then 8 else 0)
  where
    open s.items it use {raligned, id, nbyte, key, has_cas}

-- The loop of item_get_from_lruq.
pub lruq_loop : Store → ℕ → List ℕ → Option ℕ → Option ℕ
lruq_loop s zero q uit = uit
lruq_loop s (suc tries) [] uit = uit
lruq_loop s (suc tries) (it ∷ q) uit = elim ((s.items it).refcount == 0) [
  | false ↦ lruq_loop s tries q uit
  | true ↦ elim (item_expired s it) [
    | true ↦ some it
    | false ↦ lruq_loop s tries q (elim uit [ none ↦ some it | some u ↦ some u ])
  ]
]

pub lruq_max_tries : ℕ
lruq_max_tries = 50

pub item_get_from_lruq : Settings → Store → ℕ → Option ℕ
unfolding lruq_max_tries
item_get_from_lruq cfg s id =
    if not cfg.use_lruq then none else lruq_loop s lruq_max_tries (s.item_lruq id) none

-- What the caller of item_alloc gives.
pub record Request : Type 0 where
  pub key : Key
  pub dataflags : ℕ
  pub exptime : ℕ
  pub nbyte : ℕ

-- The `alloc_done` part of _item_alloc. The payload is what the memory held before.
pub alloc_done : Settings → Store → ℕ → Request → Store
unfolding item_set_cas
alloc_done cfg s it req = item_set_cas filled it 0
  where
    held : Store
    held = item_acquire_refcount s it

    filled : Store
    filled = set_item held it (record (held.items it) {
      has_cas = cfg.use_cas;
      linked = false;
      slabbed = false;
      raligned = false;
      dataflags = req.dataflags;
      nbyte = req.nbyte;
      exptime = req.exptime;
      key = req.key;
    })

-- item_free
pub item_free : Store → ℕ → Store
item_free s it = slab_put_item s it

-- _item_remove
pub item_remove : Store → ℕ → Store
unfolding item_free
item_remove s it =
    if ((released.items it).refcount == 0) && not (released.items it).linked
    then item_free released it
    else released
  where
    released : Store
    released = if (s.items it).refcount == 0 then s else item_release_refcount s it

-- item_touch; the test is made again under the lock, in _item_touch.
pub item_touch : Settings → Store → ℕ → Store
item_touch cfg s it =
    if leb (time_sub s.now 60) (s.items it).atime
    then s
    else if (s.items it).linked
    then item_link_q cfg (item_unlink_q s it) it false
    else s

-- `it->value` after a memcpy of the whole payload.
abbrev pub set_value : Store → ℕ → List ℕ → Store
set_value s it v = set_item s it (record (s.items it) { value = v })

abbrev pub set_dataflags : Store → ℕ → ℕ → Store
set_dataflags s it flags = set_item s it (record (s.items it) { dataflags = flags })

abbrev pub set_nbyte : Store → ℕ → ℕ → Store
set_nbyte s it n = set_item s it (record (s.items it) { nbyte = n })

-- Whether _item_get has to drop the item that it found.
pub is_stale : Store → ℕ → Bool
is_stale s it =
    (not (exptime == 0) && leb exptime s.now)
    || (not (s.oldest_live == 0) && (leb s.oldest_live s.now && leb atime s.oldest_live))
  where
    open s.items it use {exptime, atime}

module _ (hash : Key → ℕ) where
  -- _item_unlink
  pub item_unlink : Store → ℕ → Store
  unfolding item_free
  item_unlink s it = if (s.items it).linked then freed else s
    where
      unlinked : Store
      unlinked = item_unlink_q (assoc_delete hash (clear_linked s it) it) it

      freed : Store
      freed = if (unlinked.items it).refcount == 0 then item_free unlinked it else unlinked

  -- _item_get, once assoc_find has answered.
  pub item_found : Store → Option ℕ → Store × Option ℕ
  item_found s none = (s, none)
  item_found s (some it) =
      if is_stale s it then (item_unlink s it, none) else (item_acquire_refcount s it, some it)

  -- _item_get
  pub item_get : Store → Key → Store × Option ℕ
  item_get s key = item_found s (Assoc.find hash (key_of s) s.assoc key)

module _ (hash : Key → ℕ) (cfg : Settings) (env : Env) where
  abbrev is_granted : Option ℕ → Bool
  is_granted none = false
  is_granted (some p) = true

  -- assoc_insert(it); mc_alloc is called if the table has to grow.
  pub assoc_insert : Store → ℕ → Store
  assoc_insert s it = record s {
    assoc =
        Assoc.insert hash (key_of s) cfg.hash_power (is_granted (env.malloc s.mallocs)) s.assoc it;
    mallocs =
        if Assoc.expand_needed cfg.hash_power (Assoc.link hash (key_of s) s.assoc it)
        then s.mallocs + 1
        else s.mallocs;
  }

  -- _item_link
  pub item_link : Store → ℕ → Store
  unfolding assoc_insert item_fresh_cas
  item_link s it = item_link_q cfg (assoc_insert (item_fresh_cas cfg flagged it) it) it true
    where
      flagged : Store
      flagged = set_item s it (record (s.items it) { linked = true })

  -- _item_relink
  pub item_relink : Store → ℕ → ℕ → Store
  item_relink s it nit = item_link (item_unlink hash s it) nit

  -- _item_alloc, from the item that item_get_from_lruq found.
  pub item_alloc : Store → ℕ → Request → Store × Option ℕ
  item_alloc s id req = elim found [
    | none ↦ from_slab none
    | some it ↦
        if item_expired s it
        then done (item_reuse hash s it) it
        else from_slab (if cfg.evict_lru then some it else none)
  ]
    where
      found : Option ℕ
      found = item_get_from_lruq cfg s id

      done : Store → ℕ → Store × Option ℕ
      done s' it = (alloc_done cfg s' it req, some it)

      from_slab : Option ℕ → Store × Option ℕ
      from_slab uit =
          on_null (slab_get_item hash cfg env s id)
            (λ s'. elim uit [ none ↦ (s', none) | some it ↦ done (item_reuse hash s' it) it ])
            (λ s' it. done s' it)
