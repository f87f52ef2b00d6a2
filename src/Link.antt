-- ===== src/Link.antt =====
-- The parts of src/mc_items.c that src/mc_slabs.c calls back, and the slab functions that those
-- need: reference counts, the lru queues of items and of slabs, and item_reuse.
use twemcache.Base.{ℕ, ◌-◌, Bool, false, not, ◌&&◌, ltb, leb, if◌then◌else◌, update}
use twemcache.Assoc
use twemcache.Assoc.{Key, Assoc}
use twemcache.Store.{
  Settings, Store, set_item, set_slab, key_of, tailq_remove, tailq_append, time_sub, incr16, decr16,
}

-- (exptime > 0 && exptime < now)
unfoldable pub item_expired : Store → ℕ → Bool
item_expired s it = ltb 0 exptime && ltb exptime s.now
  where
    exptime : ℕ
    exptime = (s.items it).exptime

unfoldable pub item_2_slab : Store → ℕ → ℕ
item_2_slab s it = it - (s.items it).offset

pub slab_acquire_refcount : Store → ℕ → Store
slab_acquire_refcount s slab =
    set_slab s slab (record (s.slabs slab) { refcount = incr16 (s.slabs slab).refcount })

pub slab_release_refcount : Store → ℕ → Store
slab_release_refcount s slab =
    set_slab s slab (record (s.slabs slab) { refcount = decr16 (s.slabs slab).refcount })

unfoldable pub item_acquire_refcount : Store → ℕ → Store
unfolding slab_acquire_refcount item_2_slab
item_acquire_refcount s it =
    slab_acquire_refcount
      (set_item s it (record (s.items it) { refcount = incr16 (s.items it).refcount }))
      (item_2_slab s it)

unfoldable pub item_release_refcount : Store → ℕ → Store
unfolding slab_release_refcount item_2_slab
item_release_refcount s it =
    slab_release_refcount
      (set_item s it (record (s.items it) { refcount = decr16 (s.items it).refcount }))
      (item_2_slab s it)

unfoldable pub slab_lruq_append : Store → ℕ → Store
slab_lruq_append s slab = record s { slab_lruq = tailq_append s.slab_lruq slab }

unfoldable pub slab_lruq_remove : Store → ℕ → Store
slab_lruq_remove s slab = record s { slab_lruq = tailq_remove slab s.slab_lruq }

-- _slab_link_lruq
pub slab_link_lruq : Store → ℕ → Store
unfolding slab_lruq_append
slab_link_lruq s slab =
    slab_lruq_append (set_slab s slab (record (s.slabs slab) { utime = s.now })) slab

-- _slab_unlink_lruq
pub slab_unlink_lruq : Store → ℕ → Store
unfolding slab_lruq_remove
slab_unlink_lruq s slab = slab_lruq_remove s slab

-- A slab moves to the tail of the slab queue, at most once a second.
unfoldable pub slab_lruq_touch : Settings → Store → ℕ → Bool → Store
unfolding slab_link_lruq slab_unlink_lruq
slab_lruq_touch cfg s slab allocated =
    if not (allocated && cfg.evict_cs) && not cfg.evict_as
    then s
    else if leb (time_sub s.now 1) (s.slabs slab).utime
    then s
    else slab_link_lruq (slab_unlink_lruq s slab) slab

unfoldable pub item_link_q : Settings → Store → ℕ → Bool → Store
unfolding slab_lruq_touch
item_link_q cfg s it allocated = slab_lruq_touch cfg queued (item_2_slab queued it) allocated
  where
    id : ℕ
    id = (s.items it).id

    queued : Store
    queued = record (set_item s it (record (s.items it) { atime = s.now })) {
      item_lruq = update s.item_lruq id (tailq_append (s.item_lruq id) it);
    }

unfoldable pub item_unlink_q : Store → ℕ → Store
item_unlink_q s it = record s {
  item_lruq = update s.item_lruq id (tailq_remove it (s.item_lruq id));
}
  where
    id : ℕ
    id = (s.items it).id

-- it->flags &= ~ITEM_LINKED
abbrev pub clear_linked : Store → ℕ → Store
clear_linked s it = set_item s it (record (s.items it) { linked = false })

module _ (hash : Key → ℕ) where
  -- assoc_delete(item_key(it), it->nkey)
  abbrev pub assoc_delete : Store → ℕ → Store
  assoc_delete s it = record s { assoc = Assoc.delete hash (key_of s) s.assoc (key_of s it) }

  unfoldable pub item_reuse : Store → ℕ → Store
  unfolding item_unlink_q
  item_reuse s it = item_unlink_q (assoc_delete (clear_linked s it) it) it
