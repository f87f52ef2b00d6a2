-- ===== src/Slabs.antt =====
-- src/mc_slabs.c: the slab allocator, over the shared memory of `Store`. (The binary search for a
-- slab class is in `SlabClass`, the slab queue's touch in `Link`.)
pub mod Evict
pub mod Evicted
mod Tests
use twemcache.Base.{
  ℕ, zero, suc, ◌+◌, ◌-◌, ◌*◌, ◌/◌, ◌%◌, ◌^◌, Bool, true, false, not, ◌&&◌, ◌||◌, Option, none,
  some, List, [], ◌∷◌, ltb, leb, ◌==◌, if◌then◌else◌, update,
}
use twemcache.Assoc.{Key}
use twemcache.Store.{
  Item, Slab, SlabClass, Settings, Env, Store, set_item, set_slab, set_class, slab_hdr_size,
  tailq_remove, on_null, on_status,
}
use twemcache.Link.{item_2_slab, slab_lruq_append, slab_lruq_remove, item_reuse}

-- mc_alloc: the next answer of the allocator.
pub mc_alloc : Env → Store → Store × Option ℕ
mc_alloc env s = (record s { mallocs = s.mallocs + 1 }, env.malloc s.mallocs)

pub slab_size : Settings → ℕ
slab_size cfg = cfg.slab_size - slab_hdr_size

-- The address of the idx-th item of a slab; `offset` is a uint32_t.
pub slab_2_item : ℕ → ℕ → ℕ → ℕ
slab_2_item slab idx size = slab + slab_hdr_size + (idx * size) % 2 ^ 32

-- One class of slab_slabclass_init.
pub slabclass_init_one : Settings → ℕ → SlabClass
unfolding slab_size
slabclass_init_one cfg id = record {
  nitem = (slab_size cfg / cfg.profile id) % 2 ^ 32;
  size = cfg.profile id;
  nfree_itemq = 0;
  free_itemq = [];
  nfree_item = 0;
  free_item = none;
}

-- The loop from class `id` on, `n` classes left.
pub slabclass_init_from : Settings → ℕ → ℕ → Store → Store
unfolding slabclass_init_one
slabclass_init_from cfg zero id s = s
slabclass_init_from cfg (suc n) id s =
    slabclass_init_from cfg n (id + 1) (set_class s id (slabclass_init_one cfg id))

pub slabclass_init : Settings → Store → Store
unfolding slabclass_init_from
slabclass_init cfg s = slabclass_init_from cfg cfg.profile_last_id 1 s

-- `none` is MC_ENOMEM. (The memory of slab_table is not modelled, only whether it was granted.)
pub heapinfo_init : Settings → Env → Store → Option Store
unfolding mc_alloc
heapinfo_init cfg env s =
    if cfg.prealloc
    then on_null (mc_alloc env sized) (λ s'. none) (λ s' base. table (record s' { curr = base }))
    else table sized
  where
    sized : Store
    sized = record s { nslab = 0; max_nslab = (cfg.maxbytes / cfg.slab_size) % 2 ^ 32; curr = 0 }

    table : Store → Option Store
    table s' =
        on_null (mc_alloc env s') (λ s''. none) (λ s'' t. some (record s'' { slab_lruq = [] }))

-- slab_init
pub init : Settings → Env → Store → Option Store
unfolding slabclass_init heapinfo_init
init cfg env s = heapinfo_init cfg env (slabclass_init cfg s)

pub slab_hdr_init : Store → ℕ → ℕ → Store
slab_hdr_init s slab id = set_slab s slab (record (s.slabs slab) { id = id; refcount = 0 })

pub slab_heap_full : Store → Bool
slab_heap_full s = leb s.max_nslab s.nslab

pub slab_heap_alloc : Settings → Env → Store → Store × Option ℕ
unfolding mc_alloc
slab_heap_alloc cfg env s =
    if cfg.prealloc
    then (record s { curr = s.curr + cfg.slab_size }, some s.curr)
    else mc_alloc env s

pub slab_table_update : Store → ℕ → Store
slab_table_update s slab = record s {
  slab_table = update s.slab_table s.nslab slab;
  nslab = s.nslab + 1;
}

pub slab_get_new : Settings → Env → Store → Store × Option ℕ
unfolding slab_heap_full slab_heap_alloc slab_table_update
slab_get_new cfg env s =
    if slab_heap_full s
    then (s, none)
    else on_null (slab_heap_alloc cfg env s) (λ s'. (s', none))
        (λ s' slab. (slab_table_update s' slab, some slab))

-- item_hdr_init
pub item_hdr_init : Store → ℕ → ℕ → ℕ → Store
item_hdr_init s it offset id = set_item s it (record (s.items it) {
  offset = offset;
  id = id;
  refcount = 0;
  linked = false;
  has_cas = false;
  slabbed = false;
  raligned = false;
})

-- The loop of slab_add_one over the items from the i-th on, `n` left.
pub init_items : ℕ → ℕ → ℕ → ℕ → ℕ → Store → Store
unfolding slab_2_item item_hdr_init
init_items slab id size zero i s = s
init_items slab id size (suc n) i s =
    init_items slab id size n (i + 1)
      (item_hdr_init s (slab_2_item slab i size) (slab_2_item slab i size - slab) id)

pub slab_add_one : Store → ℕ → ℕ → Store
unfolding slab_hdr_init init_items
slab_add_one s slab id = set_class filled id (record (filled.slabclass id) {
  nfree_item = (filled.slabclass id).nitem;
  free_item = some (slab + slab_hdr_size);
})
  where
    queued : Store
    queued = slab_lruq_append (slab_hdr_init s slab id) slab

    filled : Store
    filled = init_items slab id (s.slabclass id).size (s.slabclass id).nitem 0 queued

-- An item leaves the free queue: its flag, the count and the queue.
pub unslab_item : Store → ℕ → ℕ → Store
unslab_item s id it =
    set_class (set_item s it (record (s.items it) { slabbed = false })) id (record p {
      nfree_itemq = (p.nfree_itemq + 2 ^ 32 - 1) % 2 ^ 32;
      free_itemq = tailq_remove it p.free_itemq;
    })
  where
    p : SlabClass
    p = s.slabclass id

-- The candidate slab is also the current slab of its class.
pub drop_current : Store → ℕ → Store
drop_current s slab = elim p.free_item [
  | none ↦ s
  | some it ↦
      if slab == item_2_slab s it
      then set_class s (s.slabs slab).id (record p { nfree_item = 0; free_item = none })
      else s
]
  where
    p : SlabClass
    p = s.slabclass (s.slabs slab).id

-- slab_evict_lru's walk over the slab queue: the first slab with no users among `tries`.
pub lruq_victim : Store → ℕ → List ℕ → Option ℕ
lruq_victim s zero q = none
lruq_victim s (suc tries) [] = none
lruq_victim s (suc tries) (slab ∷ q) =
    if (s.slabs slab).refcount == 0 then some slab else lruq_victim s tries q

pub slab_table_rand : Env → Store → Store × ℕ
slab_table_rand env s =
    (record s { rands = s.rands + 1 }, s.slab_table ((env.rand s.rands % 2 ^ 32) % s.nslab))

-- The do-while loop of slab_evict_rand: the tries left, and the slab drawn last.
pub rand_loop : Env → ℕ → Store → Store × ℕ × ℕ
unfolding slab_table_rand
rand_loop env zero s = (s, 0, 0)
rand_loop env (suc tries) s =
    let drawn = slab_table_rand env s in
    let again = rand_loop env tries drawn.0 in
    if ltb 0 tries && not ((drawn.0.slabs drawn.1).refcount == 0)
    then again
    else (drawn.0, tries, drawn.1)

pub slab_lru_max_tries : ℕ
slab_lru_max_tries = 50

pub slab_rand_max_tries : ℕ
slab_rand_max_tries = 50

pub slab_get_item_from_freeq : Settings → Store → ℕ → Store × Option ℕ
unfolding unslab_item
slab_get_item_from_freeq cfg s id =
    if not cfg.use_freeq
    then (s, none)
    else if (s.slabclass id).nfree_itemq == 0
    then (s, none)
    else elim (s.slabclass id).free_itemq [
      | [] ↦ (s, none)
      | it ∷ q ↦ (unslab_item s id it, some it)
    ]

-- The next chunk of the current slab.
pub take_free_item : Store → ℕ → Store × Option ℕ
take_free_item s id = elim p.free_item [
  | none ↦ (s, none)
  | some it ↦ (
    set_class s id (record p {
      nfree_item = left;
      free_item = if left == 0 then none else some (it + p.size);
    }),
    some it,
  )
]
  where
    p : SlabClass
    p = s.slabclass id

    left : ℕ
    left = (p.nfree_item + 2 ^ 32 - 1) % 2 ^ 32

module _ (hash : Key → ℕ) where
  -- One round of the loop of slab_evict_one.
  pub evict_item : Store → ℕ → ℕ → Store
  evict_item s slab it =
      if (s.items it).linked
      then item_reuse hash s it
      else if (s.items it).slabbed
      then unslab_item s (s.slabs slab).id it
      else s

  pub evict_items : ℕ → ℕ → ℕ → ℕ → Store → Store
  unfolding slab_2_item evict_item
  evict_items slab size zero i s = s
  evict_items slab size (suc n) i s =
      evict_items slab size n (i + 1) (evict_item s slab (slab_2_item slab i size))

  pub slab_evict_one : Store → ℕ → Store
  unfolding drop_current evict_items
  slab_evict_one s slab =
      slab_lruq_remove (evict_items slab p.size p.nitem 0 (drop_current s slab)) slab
    where
      p : SlabClass
      p = s.slabclass (s.slabs slab).id

  pub slab_evict_rand : Env → Store → Store × Option ℕ
  unfolding rand_loop slab_evict_one slab_rand_max_tries
  slab_evict_rand env s =
      let (s', tries, slab) = rand_loop env slab_rand_max_tries s in
      if tries == 0 then (s', none) else (slab_evict_one s' slab, some slab)

  pub slab_evict_lru : Store → Store × Option ℕ
  unfolding lruq_victim slab_evict_one slab_lru_max_tries
  slab_evict_lru s = elim (lruq_victim s slab_lru_max_tries s.slab_lruq) [
    | none ↦ (s, none)
    | some slab ↦ (slab_evict_one s slab, some slab)
  ]

  -- Where a slab comes from: the pool, the slab queue, or a random choice.
  pub slab_source : Settings → Env → Store → Store × Option ℕ
  slab_source cfg env s =
      on_null (slab_get_new cfg env s)
        (λ s1.
          on_null (if cfg.evict_cs || cfg.evict_as then slab_evict_lru s1 else (s1, none))
            (λ s2. if cfg.evict_rs then slab_evict_rand env s2 else (s2, none))
            (λ s2 slab. (s2, some slab)))
        (λ s1 slab. (s1, some slab))

  -- `true` is MC_OK.
  pub slab_get : Settings → Env → Store → ℕ → Store × Bool
  slab_get cfg env s id =
      on_null (slab_source cfg env s) (λ s'. (s', false))
        (λ s' slab. (slab_add_one s' slab id, true))

  -- A new current slab, and its first chunk.
  pub slab_refill : Settings → Env → Store → ℕ → Store × Option ℕ
  slab_refill cfg env s id =
      on_status (slab_get cfg env s id) (λ s'. (s', none)) (λ s'. take_free_item s' id)

  -- slab_get_item, and _slab_get_item under its lock.
  pub slab_get_item : Settings → Env → Store → ℕ → Store × Option ℕ
  slab_get_item cfg env s id =
      on_null (slab_get_item_from_freeq cfg s id)
        (λ s'. elim (s'.slabclass id).free_item [
          | none ↦ slab_refill cfg env s' id
          | some it ↦ take_free_item s' id
        ])
        (λ s' it. (s', some it))

-- slab_put_item, _slab_put_item and slab_put_item_into_freeq.
unfoldable pub slab_put_item : Store → ℕ → Store
slab_put_item s it =
    set_class (set_item s it (record (s.items it) { slabbed = true })) id
      (record p { nfree_itemq = (p.nfree_itemq + 1) % 2 ^ 32; free_itemq = it ∷ p.free_itemq })
  where
    id : ℕ
    id = (s.items it).id

    p : SlabClass
    p = s.slabclass id
