-- ===== src/Slabs/Evicted.antt =====
-- What slab_evict_one of src/mc_slabs.c does to the index and to the items of the slab.
use twemcache.Base.{
  ℕ, zero, suc, ◌+◌, ◌<◌, ◌≡◌, ◌≢◌, refl, true, false, Bool-cases, inl, inr, some, arith,
}
use twemcache.Assoc.{Key}
use twemcache.Store.{Store}
use twemcache.Link.{slab_lruq_remove}
use twemcache.Slabs.{
  evict_item, evict_items, slab_evict_one, unslab_item, drop_current, slab_2_item,
}
use twemcache.Items.Index.{index, index-same, SameIndex, index-reuse, key_of-set}
use twemcache.Items.Linked.{
  AllIndexed-same, AllIndexed-reuse, AllIndexed, IsReady, links, IsReady-same, IsReady-reuse,
  links-reuse,
}

unslab-SameIndex : (s : Store) (id it : ℕ) → SameIndex s (unslab_item s id it)
unfolding unslab_item
unslab-SameIndex s id it = record { keys = key_of-set s it _ refl; table = refl }

links-unslab : (s : Store) (id it q : ℕ) → links (unslab_item s id it) q ≡ links s q
unfolding unslab_item
links-unslab s id it q = ground arith

drop-items : (s : Store) (slab : ℕ) → (drop_current s slab).items ≡ s.items
unfolding drop_current
drop-items s slab = ground arith

drop-assoc : (s : Store) (slab : ℕ) → (drop_current s slab).assoc ≡ s.assoc
unfolding drop_current
drop-assoc s slab = ground arith

add_zero : (i : ℕ) → i + 0 ≡ i
add_zero i = omega arith

zero_add : (i : ℕ) → 0 + i ≡ i
zero_add i = omega arith

add_suc : (i k : ℕ) → i + suc k ≡ i + 1 + k
add_suc i k = omega arith

module _ (hash : Key → ℕ) where
  -- A store with no more linked items and no more index entries than another.
  pub record Shrunk (s t : Store) : Type 0 where
    pub ready : IsReady hash t
    pub linked : (q : ℕ) → links t q ≡ true → links s q ≡ true
    pub found : (key : Key) (q : ℕ) → index hash t key ≡ some q → index hash s key ≡ some q
    pub indexed : AllIndexed hash s → AllIndexed hash t

  -- What has become of a store when a slab is evicted.
  pub record Evicted (s : Store) (slab : ℕ) (t : Store) : Type 0 where
    pub shrunk : Shrunk s t
    pub indexed : AllIndexed hash t
    pub unlinked :
        (i : ℕ)
        → i < (s.slabclass (s.slabs slab).id).nitem
        → links t (slab_2_item slab i (s.slabclass (s.slabs slab).id).size) ≡ false
    pub gone :
        (i : ℕ) (key : Key)
        → i < (s.slabclass (s.slabs slab).id).nitem
        → index hash t key ≢ some (slab_2_item slab i (s.slabclass (s.slabs slab).id).size)

  pub Shrunk-refl : (s : Store) → IsReady hash s → Shrunk s s
  Shrunk-refl s r = record { ready = r; linked = λ q l. l; found = λ key q e. e; indexed = λ a. a }

  pub Shrunk-trans : (s t u : Store) → Shrunk s t → Shrunk t u → Shrunk s u
  Shrunk-trans s t u a b = record {
    ready = b.ready;
    linked = λ q l. a.linked q (b.linked q l);
    found = λ key q e. a.found key q (b.found key q e);
    indexed = λ all. b.indexed (a.indexed all);
  }

  Shrunk-same :
      (s t : Store)
      → SameIndex s t
      → ((q : ℕ) → links t q ≡ links s q)
      → IsReady hash s
      → Shrunk s t
  Shrunk-same s t same l r = record {
    ready = IsReady-same hash s t same l r;
    linked = λ q e. ground (arith, l q);
    found = λ key q e. ground (arith, index-same hash same key);
    indexed = AllIndexed-same hash s t same l;
  }

  evict_item-Shrunk :
      (s : Store) (slab it : ℕ) → IsReady hash s → Shrunk s (evict_item hash s slab it)
  unfolding evict_item
  evict_item-Shrunk s slab it r = elim (Bool-cases (s.items it).linked) [
    | inl e ↦ rw e (record {
      ready = IsReady-reuse hash s it r;
      linked = λ q l. ground (arith, links-reuse hash s it q);
      found = λ key q f. ground (arith, index-reuse hash s it key r.indexed);
      indexed = AllIndexed-reuse hash s it r e;
    })
    | inr e ↦ elim (Bool-cases (s.items it).slabbed) [
      | inl f ↦ rw (e, f) (Shrunk-same s _ (unslab-SameIndex s _ it) (λ q. links-unslab s _ it q) r)
      | inr f ↦ rw (e, f) (Shrunk-refl s r)
    ]
  ]

  links-evict_item : (s : Store) (slab it : ℕ) → links (evict_item hash s slab it) it ≡ false
  unfolding evict_item
  links-evict_item s slab it =
      ground (arith, links-reuse hash s it it, links-unslab s (s.slabs slab).id it it)

  evict_items-Shrunk :
      (slab size n i : ℕ) (s : Store) → IsReady hash s → Shrunk s (evict_items hash slab size n i s)
  unfolding evict_items
  evict_items-Shrunk slab size zero i s r = Shrunk-refl s r
  evict_items-Shrunk slab size (suc n) i s r =
      let first = evict_item-Shrunk s slab (slab_2_item slab i size) r in
      Shrunk-trans s _ _ first (evict_items-Shrunk slab size n (i + 1) _ first.ready)

  unlinked-evict_items :
      (slab size n i k : ℕ) (s : Store)
      → IsReady hash s
      → k < n
      → links (evict_items hash slab size n i s) (slab_2_item slab (i + k) size) ≡ false
  unfolding evict_items
  unlinked-evict_items slab size zero i k s r h = ground arith
  unlinked-evict_items slab size (suc n) i zero s r h = ground (arith, done, kept.linked q)
    where
      q : ℕ
      q = slab_2_item slab (i + 0) size

      first : Store
      first = evict_item hash s slab (slab_2_item slab i size)

      done : links first q ≡ false
      done = rw (add_zero i) (links-evict_item s slab (slab_2_item slab i size))

      kept : Shrunk first (evict_items hash slab size n (i + 1) first)
      kept =
          evict_items-Shrunk slab size n (i + 1) first
            (evict_item-Shrunk s slab (slab_2_item slab i size) r).ready
  unlinked-evict_items slab size (suc n) i (suc k) s r h = rw (add_suc i k) (
      unlinked-evict_items slab size n (i + 1) k _
        (evict_item-Shrunk s slab (slab_2_item slab i size) r).ready (omega arith))

  module _ (s : Store) (slab : ℕ) (r : IsReady hash s) where
    open s.slabclass (s.slabs slab).id use {nitem, size}

    drop-Shrunk : Shrunk s (drop_current s slab)
    drop-Shrunk =
        Shrunk-same s _ (record { keys = rw (drop-items s slab) refl; table = drop-assoc s slab })
          (λ q. rw (drop-items s slab) refl) r

    items-Shrunk :
        Shrunk (drop_current s slab) (evict_items hash slab size nitem 0 (drop_current s slab))
    items-Shrunk = evict_items-Shrunk slab size nitem 0 (drop_current s slab) drop-Shrunk.ready

    slab_evict_one-Shrunk : Shrunk s (slab_evict_one hash s slab)
    unfolding slab_evict_one slab_lruq_remove
    slab_evict_one-Shrunk =
        Shrunk-trans s _ _ (Shrunk-trans s _ _ drop-Shrunk items-Shrunk)
          (Shrunk-same _ _ (record { keys = refl; table = refl }) (λ q. refl) items-Shrunk.ready)

    slab_evict_one-unlinked :
        (i : ℕ) → i < nitem → links (slab_evict_one hash s slab) (slab_2_item slab i size) ≡ false
    unfolding slab_evict_one slab_lruq_remove
    slab_evict_one-unlinked i h =
        rw (zero_add i) at
          (unlinked-evict_items slab size nitem 0 i (drop_current s slab) drop-Shrunk.ready h)

    -- In a ready store in which every linked item is the one that its key finds, after the
    -- eviction of a slab no item of the slab is linked or found under any key, no key is found
    -- that was not found before as the same item, no item has become linked, and the store is
    -- ready, with every linked item still the one that its key finds.
    pub slab_evict_one-Evicted : AllIndexed hash s → Evicted s slab (slab_evict_one hash s slab)
    slab_evict_one-Evicted all = record {
      shrunk = slab_evict_one-Shrunk;
      indexed = slab_evict_one-Shrunk.indexed all;
      unlinked = slab_evict_one-unlinked;
      gone = λ i key h e.
          ground (arith, slab_evict_one-Shrunk.ready.linked key _ e, slab_evict_one-unlinked i h);
    }
